-- ===== src/Linux/Sockets/Owners.antt =====
-- Whose sockets the dict of `get_all_inodes` holds.
use psutil.Prelude.{
  ℕ, ◌≡◌, ◌≢◌, refl, ap, sym, subst, ◌∙◌, true, Option, none, some, List, [], ◌∷◌, ◌⊎◌, inl, inr,
  arith, elem, ℕ_discrete, Option-cases,
}
use psutil.Prelude.Dict.{lookup}
use psutil.Text.{Bytes}
use psutil.Environ.{same_bytes}
use psutil.Linux.Files.{OsError, Raised, raw, known, Outcome, value, raised}
use psutil.Linux.Sockets.{
  Inodes, Fds, get_proc_inodes, update, merge, and_then, get_all_inodes, owner, filtered,
}
use psutil.Linux.Sockets.Tables.{
  Pairs, get, first, Named, get-update, get_proc_inodes-IsOf, value-injective,
}

-- What one round of `get_all_inodes` makes of the dict.
abbrev Round : Inodes → Outcome Inodes → Inodes → Type 0
Round t o t' =
    ((m : Inodes) × (o ≡ value m) × (t' ≡ update t m)) ⊎ ((e : Raised) × (o ≡ raised e) × (t' ≡ t))

round :
    (o : Outcome Inodes) (go : Inodes → Outcome Inodes) (t all : Inodes)
    → and_then (merge t o) go ≡ value all
    → (t' : Inodes) × Round t o t' × (go t' ≡ value all)
round (value m) go t all h = (update t m, inl (m, refl, refl), h)
round (raised (raw OsError.not_found)) go t all h = (t, inr (_, refl, refl), h)
round (raised (raw OsError.lookup)) go t all h = (t, inr (_, refl, refl), h)
round (raised (raw OsError.permission)) go t all h = (t, inr (_, refl, refl), h)
round (raised (raw OsError.invalid)) go t all h = cc
round (raised (raw OsError.name_too_long)) go t all h = cc
round (raised (raw OsError.other)) go t all h = cc
round (raised (known e)) go t all h = cc

-- No socket of process `p` is one of another process.
abbrev pub Unshared : (ℕ → Fds) → ℕ → Inodes → Type 0
Unshared fds p own =
    (q : ℕ) (m : Inodes) (i : Bytes)
    → q ≢ p
    → get_proc_inodes q (fds q) ≡ value m
    → (lookup same_bytes i own ≡ none) ⊎ (lookup same_bytes i m ≡ none)

module _ (fds : ℕ → Fds) (p : ℕ) (own : Inodes) (own_eq : get_proc_inodes p (fds p) ≡ value own)
    (i : Bytes) where
  abbrev Foreign : Option Pairs → Type 0
  Foreign o = filtered (some p) (owner o).0 ≡ true

  foreign : (q : ℕ) (o : Option Pairs) → q ≢ p → Named q o → o ≢ none → Foreign o
  foreign q o ne (inl e) n = absurd (n e)
  foreign q o ne (inr e) n = rw (e) (ground (arith, ne))

  first-Foreign : (q : ℕ) (o t : Option Pairs) → q ≢ p → Named q o → Foreign t → Foreign (first o t)
  first-Foreign q none t ne h k = k
  first-Foreign q (some v) t ne h k = foreign q (some v) ne h (λ e. cc)

  -- What a round of process `q` makes of socket `i`.
  first-round :
      (q : ℕ) (t t' m : Inodes)
      → get_proc_inodes q (fds q) ≡ value m
      → t' ≡ update t m
      → get i t' ≡ first (get i m) (get i t)
  first-round q t t' m e u =
      ap (get i) u ∙ get-update i t m (get_proc_inodes-IsOf q (fds q) m e).distinct

  own-round :
      (q : ℕ) (m : Inodes) → q ≡ p → get_proc_inodes q (fds q) ≡ value m → get i m ≡ get i own
  own-round q m same e = cc

  Round-Foreign :
      (q : ℕ) (t t' : Inodes)
      → get i own ≡ none
      → Round t (get_proc_inodes q (fds q)) t'
      → Foreign (get i t)
      → Foreign (get i t')
  Round-Foreign q t t' h (inr (x, e, u)) k = rw (u) k
  Round-Foreign q t t' h (inl (m, e, u)) k =
      subst Foreign (sym (first-round q t t' m e u)) (elim (ℕ_discrete q p) [
        | yes same ↦ rw (own-round q m same e, h) k
        | no ne ↦
            first-Foreign q (get i m) (get i t) ne ((get_proc_inodes-IsOf q (fds q) m e).named i) k
      ])

  all-Foreign :
      (pids : List ℕ) (t all : Inodes)
      → get i own ≡ none
      → get_all_inodes fds pids t ≡ value all
      → Foreign (get i t)
      → Foreign (get i all)
  unfolding get_all_inodes
  all-Foreign [] t all h e k = subst (λ (d : Inodes). Foreign (get i d)) (value-injective t all e) k
  all-Foreign (q ∷ pids) t all h e k =
      let (t', r, rest) = round (get_proc_inodes q (fds q)) (get_all_inodes fds pids) t all e in
      all-Foreign pids t' all h rest (Round-Foreign q t t' h r k)

  module _ (l : Pairs) (has : get i own ≡ some l) (alone : Unshared fds p own) where
    -- Either the socket was found, or process `p` is still to come.
    abbrev Found : List ℕ → Inodes → Type 0
    Found pids t = (get i t ≡ some l) ⊎ (elem p pids ≡ true)

    first-Found :
        (o t : Option Pairs) (P : Type 0)
        → (some l ≡ none) ⊎ (o ≡ none)
        → (t ≡ some l) ⊎ P
        → (first o t ≡ some l) ⊎ P
    first-Found o t P (inl e) k = cc
    first-Found o t P (inr e) k = rw (e) k

    still_to_come : (q : ℕ) (pids : List ℕ) (t : Inodes) → q ≢ p → Found (q ∷ pids) t → Found pids t
    unfolding elem
    still_to_come q pids t ne (inl k) = inl k
    still_to_come q pids t ne (inr k) = inr (ground (arith, k, ne))

    Round-Found :
        (q : ℕ) (pids : List ℕ) (t t' : Inodes)
        → Round t (get_proc_inodes q (fds q)) t'
        → Found (q ∷ pids) t
        → Found pids t'
    Round-Found q pids t t' (inl (m, e, u)) k = elim (ℕ_discrete q p) [
      | yes same ↦ inl (
          first-round q t t' m e u
          ∙ ap (λ (o : Option Pairs). first o (get i t)) (own-round q m same e ∙ has))
      | no ne ↦
          let other = subst (λ o. (o ≡ none) ⊎ (get i m ≡ none)) has (alone q m i ne e) in
          rw (first-round q t t' m e u) (
            first-Found (get i m) (get i t) (elem p pids ≡ true) other
              (still_to_come q pids t ne k))
    ]
    Round-Found q pids t t' (inr (x, e, u)) k = elim (ℕ_discrete q p) [
      | yes same ↦ absurd cc
      | no ne ↦ rw (u) (still_to_come q pids t ne k)
    ]

    Found-at_the_end : (t : Inodes) → Found [] t → get i t ≡ some l
    unfolding elem
    Found-at_the_end t (inl k) = k
    Found-at_the_end t (inr k) = absurd (ground (arith, k))

    all-Found :
        (pids : List ℕ) (t all : Inodes)
        → get_all_inodes fds pids t ≡ value all
        → Found pids t
        → get i all ≡ some l
    unfolding get_all_inodes
    all-Found [] t all e k = ap (get i) (sym (value-injective t all e)) ∙ Found-at_the_end t k
    all-Found (q ∷ pids) t all e k =
        let (t', r, rest) = round (get_proc_inodes q (fds q)) (get_all_inodes fds pids) t all e in
        all-Found pids t' all rest (Round-Found q pids t t' r k)

-- The two dicts name the same owner of a socket, or neither of them names process `p`.
abbrev pub SameOwner : ℕ → Inodes → Inodes → Bytes → Type 0
SameOwner p own all i =
    let o = owner (lookup same_bytes i own) in
    let a = owner (lookup same_bytes i all) in
    (o ≡ a) ⊎ ((filtered (some p) o.0 ≡ true) × (filtered (some p) a.0 ≡ true))

-- If no other process has a socket of a listed process open, the dict of that process and the dict of the
-- whole system name it for the same sockets, with the same descriptor.
pub get_all_inodes-SameOwner :
    (fds : ℕ → Fds) (p : ℕ) (pids : List ℕ) (own all : Inodes)
    → get_proc_inodes p (fds p) ≡ value own
    → get_all_inodes fds pids [] ≡ value all
    → elem p pids ≡ true
    → Unshared fds p own
    → (i : Bytes) → SameOwner p own all i
unfolding lookup
get_all_inodes-SameOwner fds p pids own all e f listed alone i = elim (Option-cases (get i own)) [
  | inr (l, h) ↦
      inl (ap owner (h ∙ sym (all-Found fds p own e i l h alone pids [] all f (inr listed))))
  | inl h ↦
      inr
        (ap (λ o. filtered (some p) (owner o).0) h, all-Foreign fds p own e i pids [] all h f refl)
]
