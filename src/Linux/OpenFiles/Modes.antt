-- ===== src/Linux/OpenFiles/Modes.antt =====
-- Which files `open_files` can describe.
use psutil.Prelude.{ℕ, ◌≡◌, ◌%◌, refl, Bool, true, Option, List, [], ◌∷◌, ◌++◌, ok, err, Error}
use psutil.Text.{Bytes, b, starts_with, to_int}
use psutil.Linux.Files.{Read, content, Outcome, value, raised, known, Raised}
use psutil.Linux.OpenFiles.{
  file_flags_to_mode, isfile_strict, OpenFile, Fd, second_word, by_link, with_rest, look_at_all,
  open_files,
}

access_3 : (flags : ℕ) → flags % 4 ≡ 3 → file_flags_to_mode flags ≡ err Error.key_error
unfolding file_flags_to_mode
access_3 flags h = rw (h) refl

-- A descriptor of a file that was opened with access mode 3, which Linux takes for opening without reading
-- and writing: a regular file is still found at its path, and its fdinfo file can be read.
pub record IsNeither (d : Fd) : Type 0 where
  pub path : Bytes
  pub first : Bytes
  pub second : Bytes
  pub p : Bytes
  pub position : ℕ
  pub f : Bytes
  pub flags : ℕ
  pub link_eq : d.link ≡ content path
  pub absolute : starts_with path (b "/") ≡ true
  pub regular : d.stat ≡ content true
  pub info_eq : d.info ≡ content (first, second)
  pub p_eq : second_word first ≡ ok p
  pub position_eq : to_int 10 p ≡ ok position
  pub f_eq : second_word second ≡ ok f
  pub flags_eq : to_int 8 f ≡ ok flags
  pub access : flags % 4 ≡ 3

by_link-IsNeither : (d : Fd) → IsNeither d → by_link d d.link ≡ raised (known Error.key_error)
unfolding isfile_strict
by_link-IsNeither d h =
    rw
      (
        h.link_eq,
        h.absolute,
        h.regular,
        h.info_eq,
        h.p_eq,
        h.position_eq,
        h.f_eq,
        h.flags_eq,
        access_3 h.flags h.access,
      )
      refl

with_rest-eq-value :
    (o : Outcome (Option OpenFile × Bool)) (rest : Outcome (List OpenFile × Bool))
    (q : List OpenFile × Bool)
    → with_rest o rest ≡ value q
    → (x : Option OpenFile × Bool) × (m : List OpenFile × Bool) × (o ≡ value x) × (rest ≡ value m)
with_rest-eq-value (value x) (value m) q h = (x, m, refl, refl)
with_rest-eq-value (value x) (raised e) q h = cc
with_rest-eq-value (raised e) rest q h = cc

-- The loop raises what it meets first.
look_at_all-append :
    (before after : List Fd) (q : List OpenFile × Bool) (e : Raised)
    → look_at_all before ≡ value q
    → look_at_all after ≡ raised e
    → look_at_all (before ++ after) ≡ raised e
unfolding look_at_all
look_at_all-append [] after q e h k = k
look_at_all-append (c ∷ before) after q e h k =
    let (x, m, here, rest) = with_rest-eq-value (by_link c c.link) (look_at_all before) q h in
    rw (here, look_at_all-append before after m e rest k) refl

look_at_all-IsNeither :
    (after : List Fd) (d : Fd)
    → IsNeither d
    → look_at_all (d ∷ after) ≡ raised (known Error.key_error)
unfolding look_at_all
look_at_all-IsNeither after d h = rw (by_link-IsNeither d h) refl

-- If a process has a file open with access mode 3, the link of the descriptor is a path at which a regular
-- file is found, the descriptor's fdinfo file can be read, and the descriptors listed before it raise
-- nothing, then open_files() raises KeyError: `file_flags_to_mode` has no entry for the mode.
pub open_files-IsNeither :
    (alive : Read (Unit {0})) (before after : List Fd) (d : Fd) (q : List OpenFile × Bool)
    → IsNeither d
    → look_at_all before ≡ value q
    → open_files alive (before ++ (d ∷ after)) ≡ raised (known Error.key_error)
unfolding open_files
open_files-IsNeither alive before after d q h k =
    rw (look_at_all-append before (d ∷ after) q _ k (look_at_all-IsNeither after d h)) refl
