-- ===== src/Process/Grouped.antt =====
-- psutil/__init__.py: `Process.memory_maps`, with nothing prefetched.
pub mod Sums
use psutil.Prelude.{
  ℕ, zero, suc, ◌+◌, ◌*◌, Bool, true, false, Option, none, some, List, [], ◌∷◌, map, Result, ok,
  err, Error, if◌then◌else◌, ◌>>=◌, ite,
}
use psutil.Prelude.Dict.{Dict, lookup, insert}
use psutil.Text.{Bytes, same}
use psutil.Environ.{same_bytes}

-- What the platform module yields for a region: addr, perms, path, and numbers.
pub record Mapping : Type 0 where
  pub addr : Bytes
  pub perms : Bytes
  pub path : Bytes
  pub nums : List ℕ

-- `list(map(lambda x, y: x + y, xs, ys))`
unfoldable pub add_nums : List ℕ → List ℕ → List ℕ
add_nums (x ∷ xs) (y ∷ ys) = (x + y) ∷ add_nums xs ys
add_nums [] ys = []
add_nums (x ∷ xs) [] = []

abbrev pub add_or : Option (List ℕ) → List ℕ → List ℕ
add_or none nums = nums
add_or (some old) nums = add_nums old nums

abbrev pub Groups : Type 0
Groups = Dict Bytes (List ℕ)

unfoldable pub note_mapping : Mapping → Groups → Groups
unfolding lookup insert add_nums same_bytes
note_mapping r d = insert same_bytes r.path (add_or (lookup same_bytes r.path d) r.nums) d

-- `memory_maps(grouped=True)`
unfoldable pub grouped : List Mapping → Groups → Groups
unfolding note_mapping
grouped [] d = d
grouped (r ∷ it) d = grouped it (note_mapping r d)

-- A list of `pmmap_grouped` or of `pmmap_ext`.
pub data Maps : Type 0 where
  by_path : Groups → Maps
  each_region : List Mapping → Maps

abbrev pub maps_of : Bool → List Mapping → Maps
maps_of true it = by_path (grouped it [])
maps_of false it = each_region it

unfoldable pub process_memory_maps : Bool → Result (List Mapping) → Result Maps
unfolding grouped
process_memory_maps by_group answer = do it ← answer; ok (maps_of by_group it)
