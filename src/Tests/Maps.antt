-- ===== src/Tests/Maps.antt =====
-- Memory maps of smaps files of one and of two blocks.
use psutil.Prelude.{◌≡◌, ◌≢◌, refl, none, some, [], ◌∷◌, ℕ, List, get_elem?}
use psutil.Prelude.Dict.{lookup}
use psutil.Text.{
  Bytes, b, lstrip, is_space, ends_with, starts_with, same, to_int, digit, strip, split,
}
use psutil.Linux.Files.{Read, content, failed, OsError, value}
use psutil.Linux.Maps.{
  Region, break_word, split_max, read_line, region, field_names, path_exists_strict, memory_maps,
  of_lines,
}
use psutil.Linux.Maps.Blocks.{
  Section, AllFields, AllSections, Names, carried, lines_of, regions, of_lines-own, of_lines_leaks,
  own,
}

abbrev gone : Bytes → Read (Unit {0})
gone path = failed OsError.not_found

-- A deleted library, and a block without a path and without amounts.
two_blocks :
    memory_maps gone 7 (content []) (
      b
        "00-7f r-xp 00 fe:02 32 /lib/x y (deleted)\nRss:   4 kB\nSwap:  2 kB\nVmFlags: rd ex\n80-9f rw-p 00 00:00 0")
    ≡ value (
        record {
          addr = b "00-7f";
          perms = b "r-xp";
          path = b "/lib/x y";
          amounts = 4096 ∷ 0 ∷ 0 ∷ 0 ∷ 0 ∷ 0 ∷ 0 ∷ 0 ∷ 0 ∷ 2048 ∷ [];
        }
        ∷ record {
          addr = b "80-9f";
          perms = b "rw-p";
          path = b "[anon]";
          amounts = 4096 ∷ 0 ∷ 0 ∷ 0 ∷ 0 ∷ 0 ∷ 0 ∷ 0 ∷ 0 ∷ 2048 ∷ [];
        }
        ∷ [])
unfolding memory_maps break_word lstrip is_space ends_with starts_with same to_int digit strip split
    path_exists_strict lookup psutil.Prelude.ℕ_discrete psutil.Prelude.Dict.insert
    psutil.Environ.same_bytes
two_blocks = refl

abbrev code_head : Bytes
code_head = b "00-7f r-xp 00 fe:02 32 /lib/x"

abbrev data_head : Bytes
data_head = b "80-9f rw-p 00 00:00 0"

abbrev all_lines : List Bytes
all_lines =
    b "Size: 8 kB"
    ∷ b "Rss: 4 kB"
    ∷ b "Pss: 4 kB"
    ∷ b "Shared_Clean: 0 kB"
    ∷ b "Shared_Dirty: 0 kB"
    ∷ b "Private_Clean: 4 kB"
    ∷ b "Private_Dirty: 0 kB"
    ∷ b "Referenced: 4 kB"
    ∷ b "Anonymous: 0 kB"
    ∷ b "Swap: 0 kB"
    ∷ b "VmFlags: rd ex"
    ∷ []

abbrev complete : List Section
complete = (code_head, all_lines) ∷ (data_head, all_lines) ∷ []

all_lines-AllFields : AllFields all_lines
unfolding read_line split_max break_word lstrip is_space ends_with starts_with same to_int digit
    strip psutil.Prelude.ℕ_discrete psutil.Prelude.Dict.insert psutil.Environ.same_bytes
all_lines-AllFields = (tt, (tt, (tt, (tt, (tt, (tt, (tt, (tt, (tt, (tt, (tt, tt)))))))))))

complete-AllSections : AllSections complete
unfolding read_line split_max break_word lstrip is_space ends_with starts_with same to_int digit
    strip psutil.Prelude.ℕ_discrete psutil.Prelude.Dict.insert psutil.Environ.same_bytes
complete-AllSections = (refl, all_lines-AllFields, (refl, all_lines-AllFields, tt))

is_some : {n : ℕ} → some n ≢ none
is_some h = cc

all_lines-Names : Names gone field_names (carried all_lines [])
unfolding carried lookup read_line split_max break_word lstrip is_space ends_with starts_with same
    to_int digit strip psutil.Prelude.ℕ_discrete psutil.Prelude.Dict.insert
    psutil.Environ.same_bytes
all_lines-Names = (
  is_some,
  (
    is_some,
    (is_some, (is_some, (is_some, (is_some, (is_some, (is_some, (is_some, (is_some, tt)))))))),
  ),
)

of_lines-own_example : of_lines gone (lines_of complete) ≡ regions gone (own gone) [] complete
of_lines-own_example =
    of_lines-own gone complete complete-AllSections (all_lines-Names, (all_lines-Names, tt))

abbrev short_lines : List Bytes
short_lines = b "Size: 8 kB" ∷ []

abbrev two_sections : List Section
two_sections = (code_head, b "Rss: 4 kB" ∷ []) ∷ (data_head, short_lines) ∷ []

abbrev first : Region
first = record {
  addr = b "00-7f";
  perms = b "r-xp";
  path = b "/lib/x";
  amounts = 4096 ∷ 0 ∷ 0 ∷ 0 ∷ 0 ∷ 0 ∷ 0 ∷ 0 ∷ 0 ∷ 0 ∷ [];
}

abbrev second : Region
second = record {
  addr = b "80-9f";
  perms = b "rw-p";
  path = b "[anon]";
  amounts = 4096 ∷ 8192 ∷ 0 ∷ 0 ∷ 0 ∷ 0 ∷ 0 ∷ 0 ∷ 0 ∷ 0 ∷ [];
}

of_lines_leaks_example : get_elem? second.amounts 0 ≡ get_elem? first.amounts 0
unfolding carried lookup lines_of read_line split_max break_word lstrip is_space ends_with
    starts_with same to_int digit strip psutil.Linux.Maps.amounts_of region psutil.Linux.Maps.blocks
    psutil.Linux.Maps.is_deleted psutil.Prelude.ℕ_discrete psutil.Prelude.Dict.insert
    psutil.Environ.same_bytes
of_lines_leaks_example =
    of_lines_leaks gone code_head data_head (b "Rss: 4 kB" ∷ []) short_lines first second 0
      (b "Rss:") (refl, (tt, tt), (refl, (tt, tt), tt)) refl refl refl
