-- ===== src/Process/AsDict.antt =====
-- psutil/__init__.py: `Process.as_dict`.
pub mod Names
use Prim.Native.String.{String}
use text.Mathlib.Text.{◌==◌ as str_eq}
use psutil.Prelude.{
  Bool, true, false, not, ◌||◌, ◌&&◌, Option, none, some, List, [], ◌∷◌, Result, ok, err, Error,
  if◌then◌else◌, ◌>>=◌,
}
use psutil.Process.Defs.{Value}

-- `attrs`: not given, of a type that is no collection, or a collection of names.
pub data Attrs : Type 0 where
  absent invalid : Attrs
  names : List String → Attrs

abbrev pub Info : Type 0
Info = List (String × Value)

-- `name in names`
unfoldable pub has_name : String → List String → Bool
has_name n [] = false
has_name n (m ∷ ms) = str_eq m n || has_name n ms

-- `set(attrs)`
unfoldable pub unique : List String → List String
unfolding has_name
unique [] = []
unique (n ∷ ns) = let rest = unique ns in if has_name n ns then rest else n ∷ rest

-- `attrs - valid_names - deprecated_names` is empty.
unfoldable pub all_known : List String → List String → Bool
unfolding has_name
all_known valid [] = true
all_known valid (n ∷ ns) = (has_name n valid || str_eq n "memory_full_info") && all_known valid ns

-- The exceptions that one getter may raise: `ad_value` takes the place of the value, or, if no
-- names were asked for, a getter that is not implemented is left out.
abbrev pub keep : Bool → Value → Result Value → Result (Option Value)
keep asked ad (ok v) = ok (some v)
keep asked ad (err (Error.access_denied _)) = ok (some ad)
keep asked ad (err (Error.zombie_process _)) = ok (some ad)
keep asked ad (err Error.not_implemented) = if asked then err Error.not_implemented else ok none
keep asked ad (err e) = err e

abbrev stored : String → Option Value → Info → Info
stored n none info = info
stored n (some v) info = (n, v) ∷ info

abbrev pub is_empty : List String → Bool
is_empty [] = true
is_empty (_ ∷ _) = false

-- The loop, over getters as they answer at this moment.
module _ (getter : String → Result Value) (ad : Value) where
  unfoldable pub collect : Bool → List String → Result Info
  collect asked [] = ok []
  collect asked (n ∷ ns) = do
    v ← keep asked ad (getter n)
    info ← collect asked ns
    ok (stored n v info)

  -- `attrs or sorted(valid_names)`; `valid` is sorted.
  chosen : List String → List String → Result Info
  unfolding collect
  chosen valid asked = if is_empty asked then collect false valid else collect true asked

  unfoldable pub as_dict : List String → Attrs → Result Info
  unfolding chosen all_known unique
  as_dict valid Attrs.absent = collect false valid
  as_dict valid Attrs.invalid = err Error.type_error
  as_dict valid (Attrs.names l) =
      if all_known valid l then chosen valid (unique l) else err Error.value_error
