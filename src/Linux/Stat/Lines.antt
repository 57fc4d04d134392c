-- ===== src/Linux/Stat/Lines.antt =====
-- The stat file of a process, as proc(5) describes it: whatever bytes the name of the process holds,
-- it and the fields behind it are read back.
use mathlib.Core.List.{append_assoc}
use psutil.Prelude.{
  ℕ, ◌+◌, ◌≤◌, ◌≡◌, refl, ap, ◌∙◌, false, some, List, [], ◌∷◌, ◌++◌, ok, arith, length, get_elem?,
  get_elem?_of_lt, drop, take,
}
use psutil.Text.{Bytes, b, find, rfind, contains, is_space, same}
use psutil.Text.Split.{AllWords, join, words-join_line}
use psutil.Text.Search.{rfind-append, find-append, take-append, drop-append_more}
use psutil.Linux.Files.{content, is_zombie}
use psutil.Linux.Stat.{Stat, pick, comm, fields_of, parse_stat_file}

-- "pid (name"
abbrev pub front : Bytes → Bytes → Bytes
front pid name = (pid ++ (b' ' ∷ [])) ++ (b'(' ∷ name)

abbrev tail : Bytes → List Bytes → Bytes
tail w ws = join b' ' (w ∷ ws) ++ (b'\n' ∷ [])

-- "pid (name) field field ...", with a newline
unfoldable pub stat_line : Bytes → Bytes → Bytes → List Bytes → Bytes
unfolding join
stat_line pid name w ws = front pid name ++ (b')' ∷ b' ' ∷ tail w ws)

-- No parenthesis in the PID, and none that closes in the fields.
pub record IsLine (pid : Bytes) (w : Bytes) (ws : List Bytes) : Type 0 where
  pub opened : contains b'(' pid ≡ false
  pub closed : contains b')' (join b' ' (w ∷ ws)) ≡ false
  pub fields : AllWords (w ∷ ws)

pub contains-append :
    (c : ℕ) (s t : Bytes)
    → contains c s ≡ false
    → contains c t ≡ false
    → contains c (s ++ t) ≡ false
unfolding contains
contains-append c [] t h k = k
contains-append c (d ∷ s) t h k = ground (arith, h, contains-append c s t)

module _ (pid name w : Bytes) (ws : List Bytes) (h : IsLine pid w ws) where
  closed_tail : contains b')' (b' ' ∷ tail w ws) ≡ false
  unfolding contains
  closed_tail = contains-append b')' (join b' ' (w ∷ ws)) (b'\n' ∷ []) h.closed refl

  rfind-stat_line : rfind b')' (stat_line pid name w ws) ≡ some (length (front pid name))
  unfolding stat_line
  rfind-stat_line = rfind-append b')' (front pid name) (b' ' ∷ tail w ws) closed_tail

  find-stat_line : find b'(' (stat_line pid name w ws) ≡ some (length (pid ++ (b' ' ∷ [])))
  unfolding stat_line contains
  find-stat_line =
      ap (find b'(') (append_assoc (pid ++ (b' ' ∷ [])) (b'(' ∷ name) (b')' ∷ b' ' ∷ tail w ws))
      ∙ find-append b'(' (pid ++ (b' ' ∷ [])) (name ++ (b')' ∷ b' ' ∷ tail w ws))
          (contains-append b'(' pid (b' ' ∷ []) h.opened refl)

  before-stat_line : take (length (front pid name)) (stat_line pid name w ws) ≡ front pid name
  unfolding stat_line
  before-stat_line = take-append (front pid name) (b')' ∷ b' ' ∷ tail w ws)

  after-stat_line : drop (length (front pid name) + 2) (stat_line pid name w ws) ≡ tail w ws
  unfolding stat_line
  after-stat_line = drop-append_more (front pid name) (b')' ∷ b' ' ∷ tail w ws) 2

  pub comm-stat_line : comm (stat_line pid name w ws) ≡ name
  unfolding comm
  comm-stat_line =
      rw (rfind-stat_line, find-stat_line, before-stat_line)
        (drop-append_more (pid ++ (b' ' ∷ [])) (b'(' ∷ name) 1)

  pub fields_of-stat_line : fields_of (stat_line pid name w ws) ≡ w ∷ ws
  unfolding fields_of is_space
  fields_of-stat_line =
      rw (rfind-stat_line, after-stat_line) (words-join_line b' ' b'\n' w ws h.fields refl refl)

first_byte :
    (c : ℕ) (ws : List Bytes) → same (take 1 (tail (c ∷ []) ws)) (b "Z") ≡ same (c ∷ []) (b "Z")
unfolding join
first_byte c [] = refl
first_byte c (v ∷ ws) = refl

-- What the dict holds, of the name and the fields, by the positions of proc(5) less three.
pub record IsParsed (name : Bytes) (fields : List Bytes) (r : Stat) : Type 0 where
  pub name_eq : r.name ≡ name
  pub status_eq : get_elem? fields 0 ≡ some r.status
  pub ppid_eq : get_elem? fields 1 ≡ some r.ppid
  pub ttynr_eq : get_elem? fields 4 ≡ some r.ttynr
  pub minflt_eq : get_elem? fields 7 ≡ some r.minflt
  pub majflt_eq : get_elem? fields 9 ≡ some r.majflt
  pub utime_eq : get_elem? fields 11 ≡ some r.utime
  pub stime_eq : get_elem? fields 12 ≡ some r.stime
  pub children_utime_eq : get_elem? fields 13 ≡ some r.children_utime
  pub children_stime_eq : get_elem? fields 14 ≡ some r.children_stime
  pub create_time_eq : get_elem? fields 19 ≡ some r.create_time
  pub cpu_num_eq : get_elem? fields 36 ≡ some r.cpu_num
  pub blkio_ticks_eq : get_elem? fields 39 ≡ r.blkio_ticks

pick_total :
    (name : Bytes) (fields : List Bytes)
    → 37 ≤ length fields
    → (r : Stat) × (pick name fields ≡ ok r) × IsParsed name fields r
unfolding pick
pick_total name fields h =
    let (status, e0) = get_elem?_of_lt fields 0 (omega arith) in
    let (ppid, e1) = get_elem?_of_lt fields 1 (omega arith) in
    let (ttynr, e4) = get_elem?_of_lt fields 4 (omega arith) in
    let (minflt, e7) = get_elem?_of_lt fields 7 (omega arith) in
    let (majflt, e9) = get_elem?_of_lt fields 9 (omega arith) in
    let (utime, e11) = get_elem?_of_lt fields 11 (omega arith) in
    let (stime, e12) = get_elem?_of_lt fields 12 (omega arith) in
    let (cutime, e13) = get_elem?_of_lt fields 13 (omega arith) in
    let (cstime, e14) = get_elem?_of_lt fields 14 (omega arith) in
    let (create, e19) = get_elem?_of_lt fields 19 (omega arith) in
    let (cpu, e36) = get_elem?_of_lt fields 36 (omega arith) in
    (
      _,
      rw (e0, e1, e4, e7, e9, e11, e12, e13, e14, e19, e36) refl,
      record {
        name_eq = refl;
        status_eq = e0;
        ppid_eq = e1;
        ttynr_eq = e4;
        minflt_eq = e7;
        majflt_eq = e9;
        utime_eq = e11;
        stime_eq = e12;
        children_utime_eq = e13;
        children_stime_eq = e14;
        create_time_eq = e19;
        cpu_num_eq = e36;
        blkio_ticks_eq = refl;
      },
    )

-- A stat line with at least 37 fields is read back whatever bytes the process's name holds, blanks and
-- parentheses included: the name is the one in the line, and each entry of the dict is the field at
-- its position; the last one, which old kernels lack, may be missing.
pub parse_stat_file-stat_line :
    (pid name w : Bytes) (ws : List Bytes)
    → IsLine pid w ws
    → 37 ≤ length (w ∷ ws)
    → (r : Stat) × (parse_stat_file (stat_line pid name w ws) ≡ ok r) × IsParsed name (w ∷ ws) r
unfolding parse_stat_file
parse_stat_file-stat_line pid name w ws h enough =
    rw (comm-stat_line pid name w ws h, fields_of-stat_line pid name w ws h)
      (pick_total name (w ∷ ws) enough)

-- On such a line `_is_zombie` agrees with the state that `_parse_stat_file` reads, if it is one letter.
pub is_zombie-stat_line :
    (pid name : Bytes) (c : ℕ) (ws : List Bytes)
    → IsLine pid (c ∷ []) ws
    → is_zombie (content (stat_line pid name (c ∷ []) ws)) ≡ same (c ∷ []) (b "Z")
unfolding is_zombie
is_zombie-stat_line pid name c ws h =
    rw (rfind-stat_line pid name (c ∷ []) ws h, after-stat_line pid name (c ∷ []) ws h)
      (first_byte c ws)
