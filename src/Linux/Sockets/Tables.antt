-- ===== src/Linux/Sockets/Tables.antt =====
-- Whose sockets the dict of `get_proc_inodes` holds, and what `dict.update` does to another one.
use psutil.Prelude.{
  ℕ, ◌≡◌, refl, ap, sym, subst, ◌∙◌, Option, none, some, List, [], ◌∷◌, ◌++◌, ◌⊎◌, inl, inr,
  if◌then◌else◌, arith, Bool-cases, if_pos, if_neg, drop,
}
use psutil.Prelude.Dict.{lookup, insert, lookup-insert}
use psutil.Text.{Bytes, b, starts_with, all_but_last}
use psutil.Environ.{same_bytes}
use psutil.Linux.Files.{OsError, Read, content, failed, Outcome, value}
use psutil.Linux.Sockets.{
  Inodes, or_empty, note_socket, note_links, Fds, get_proc_inodes, update, owner,
}

abbrev pub Pairs : Type 0
Pairs = List (ℕ × ℕ)

abbrev pub get : Bytes → Inodes → Option Pairs
get = lookup same_bytes

pub value-injective : (d m : Inodes) → ◌≡◌ {A = Outcome Inodes} (value d) (value m) → d ≡ m
value-injective d m h = cc

-- No key twice.
abbrev pub Distinct : Inodes → Type 0
Distinct [] = Unit
Distinct ((i, v) ∷ d) = (get i d ≡ none) × Distinct d

insert-Distinct :
    (k : Bytes) (v : Pairs) (d : Inodes) → Distinct d → Distinct (insert same_bytes k v d)
unfolding insert lookup
insert-Distinct k v [] h = (refl, tt)
insert-Distinct k v ((j, w) ∷ d) h = elim (same_bytes j k) [
  | yes e ↦ rw (if_pos (same_bytes j k) e) (subst (λ (i : Bytes). get i d ≡ none) e h.0, h.1)
  | no ne ↦ rw (if_neg (same_bytes j k) ne) (
    rw (lookup-insert same_bytes k j v d, if_neg (same_bytes k j) (λ e. ne (sym e))) h.0,
    insert-Distinct k v d h.1,
  )
]

abbrev pub first : Option Pairs → Option Pairs → Option Pairs
first none o = o
first (some v) o = some v

-- What `dict.update` brings replaces what was there.
pub get-update :
    (i : Bytes) (t m : Inodes) → Distinct m → get i (update t m) ≡ first (get i m) (get i t)
unfolding update lookup
get-update i t [] h = refl
get-update i t ((k, v) ∷ m) h = elim (same_bytes k i) [
  | yes e ↦
      get-update i (insert same_bytes k v t) m h.1
      ∙ ap (λ (o : Option Pairs). first o (get i (insert same_bytes k v t)))
          (subst (λ (j : Bytes). get j m ≡ none) e h.0)
      ∙ (lookup-insert same_bytes k i v t ∙ if_pos (same_bytes k i) e (some v) (get i t))
      ∙ ap (λ (o : Option Pairs). first o (get i t))
          (sym (if_pos (same_bytes k i) e (some v) (get i m)))
  | no ne ↦
      get-update i (insert same_bytes k v t) m h.1
      ∙ ap (first (get i m))
          (lookup-insert same_bytes k i v t ∙ if_neg (same_bytes k i) ne (some v) (get i t))
      ∙ ap (λ (o : Option Pairs). first o (get i t))
          (sym (if_neg (same_bytes k i) ne (some v) (get i m)))
]

-- Nothing, or the first of the pairs names process `q`.
abbrev pub Named : ℕ → Option Pairs → Type 0
Named q o = (o ≡ none) ⊎ ((owner o).0 ≡ some q)

owner-append :
    (q fd : ℕ) (o : Option Pairs)
    → Named q o
    → (owner (some (or_empty o ++ ((q, fd) ∷ [])))).0 ≡ some q
owner-append q fd none h = refl
owner-append q fd (some []) h = refl
owner-append q fd (some ((p, f) ∷ l)) (inl e) = absurd (ground (arith, e))
owner-append q fd (some ((p, f) ∷ l)) (inr e) = e

-- A dict of the sockets of process `q`.
pub record IsOf (q : ℕ) (d : Inodes) : Type 0 where
  pub distinct : Distinct d
  pub named : (i : Bytes) → Named q (get i d)

module _ (q : ℕ) where
  note_socket-IsOf :
      (fd : ℕ) (k : Bytes) (d : Inodes)
      → IsOf q d
      → IsOf q (insert same_bytes k (or_empty (get k d) ++ ((q, fd) ∷ [])) d)
  note_socket-IsOf fd k d h =
      let v = or_empty (get k d) ++ ((q, fd) ∷ []) in
      record {
        distinct = insert-Distinct k v d h.distinct;
        named = λ i.
            subst (Named q) (sym (lookup-insert same_bytes k i v d)) (elim (same_bytes k i) [
              | yes e ↦
                  rw (if_pos (same_bytes k i) e) (inr (owner-append q fd (get k d) (h.named k)))
              | no ne ↦ rw (if_neg (same_bytes k i) ne) (h.named i)
            ]);
      }

  noted-IsOf :
      (fd : ℕ) (link : Bytes) (d : Inodes)
      → IsOf q d
      → IsOf q (if starts_with link (b "socket:[") then note_socket q fd link d else d)
  noted-IsOf fd link d h = elim (Bool-cases (starts_with link (b "socket:["))) [
    | inl e ↦ rw (e) (note_socket-IsOf fd (all_but_last (drop 8 link)) d h)
    | inr e ↦ rw (e) h
  ]

  note_links-IsOf :
      (links : List (ℕ × Read Bytes)) (d m : Inodes)
      → IsOf q d
      → note_links q links d ≡ value m
      → IsOf q m
  unfolding note_links
  note_links-IsOf [] d m h e = subst (IsOf q) (value-injective d m e) h
  note_links-IsOf ((fd, content link) ∷ links) d m h e =
      note_links-IsOf links _ m (noted-IsOf fd link d h) e
  note_links-IsOf ((fd, failed OsError.not_found) ∷ links) d m h e = note_links-IsOf links d m h e
  note_links-IsOf ((fd, failed OsError.lookup) ∷ links) d m h e = note_links-IsOf links d m h e
  note_links-IsOf ((fd, failed OsError.invalid) ∷ links) d m h e = note_links-IsOf links d m h e
  note_links-IsOf ((fd, failed OsError.name_too_long) ∷ links) d m h e =
      note_links-IsOf links d m h e
  note_links-IsOf ((fd, failed OsError.permission) ∷ links) d m h e = cc
  note_links-IsOf ((fd, failed OsError.other) ∷ links) d m h e = cc

  pub get_proc_inodes-IsOf : (l : Fds) (m : Inodes) → get_proc_inodes q l ≡ value m → IsOf q m
  unfolding get_proc_inodes lookup
  get_proc_inodes-IsOf (content links) m e =
      note_links-IsOf links [] m (record { distinct = tt; named = λ i. inl refl }) e
  get_proc_inodes-IsOf (failed x) m e = cc
