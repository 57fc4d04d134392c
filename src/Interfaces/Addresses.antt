-- ===== src/Interfaces/Addresses.antt =====
-- Which addresses each interface gets, and in which order.
use psutil.Prelude.{
  ◌≡◌, refl, ap, sym, ◌∙◌, true, false, Option, some, List, [], ◌∷◌, ◌++◌, map, Result, arith, ite,
  if◌then◌else◌, Bool-cases, inl, inr,
}
use mathlib.Core.List.{append_assoc, append-nil}
use psutil.Prelude.Int.{ℤ, ltb_ℤ, ◌≤ℤ◌}
use psutil.Prelude.Dict.{Dict, lookup, lookup-insert}
use psutil.Text.{Bytes}
use psutil.Environ.{same_bytes}
use psutil.Platform.{Platform}
use psutil.Interfaces.{
  RawAddr, NicAddr, Families, put_in_order, in_order, nic_addr, same_family, or_nil, append_addr,
  add_addrs, net_if_addrs,
}

-- The entries of one interface.
unfoldable pub named : Bytes → List RawAddr → List RawAddr
named name [] = []
named name (r ∷ l) = ite (same_bytes r.name name) (r ∷ named name l) (named name l)

module _ (os : Platform) (families : Families)
    (broadcast_addr : NicAddr → Result (Option Bytes)) where
  abbrev conv : RawAddr → NicAddr
  conv = nic_addr os families broadcast_addr

  by_dec :
      (a c : Bytes) (t : Dec (a ≡ c)) (look : Bytes → Option (List NicAddr)) (r : RawAddr)
      (l : List RawAddr)
      → or_nil (ite t (some (or_nil (look a) ++ (conv r ∷ []))) (look c)) ++ map conv l
        ≡ or_nil (look c) ++ map conv (ite t (r ∷ l) l)
  by_dec a c (yes p) look r l =
      append_assoc (or_nil (look a)) (conv r ∷ []) (map conv l)
      ∙ ap (λ q. or_nil (look q) ++ (conv r ∷ map conv l)) p
  by_dec a c (no p) look r l = refl

  add_addrs-named :
      (name : Bytes) (l : List RawAddr) (ret : Dict Bytes (List NicAddr))
      → or_nil (lookup same_bytes name (add_addrs os families broadcast_addr l ret))
        ≡ or_nil (lookup same_bytes name ret) ++ map conv (named name l)
  unfolding add_addrs named
  add_addrs-named name [] ret = sym (append-nil (or_nil (lookup same_bytes name ret)))
  add_addrs-named name (r ∷ l) ret =
      add_addrs-named name l (append_addr os families broadcast_addr r.name (conv r) ret)
      ∙ ap (λ (o : Option (List NicAddr)). or_nil o ++ map conv (named name l))
          (unfold append_addr in lookup-insert same_bytes r.name name _ ret)
      ∙ by_dec r.name name (same_bytes r.name name) (λ n. lookup same_bytes n ret) r (named name l)

  net_if_addrs-named :
      (name : Bytes) (rawlist : List RawAddr)
      → or_nil (lookup same_bytes name (net_if_addrs os families broadcast_addr rawlist))
        ≡ map (nic_addr os families broadcast_addr) (named name (in_order rawlist))
  unfolding net_if_addrs lookup
  net_if_addrs-named name rawlist = add_addrs-named name (in_order rawlist) []

abbrev pub From : ℤ → List RawAddr → Type 0
From f [] = Unit
From f (x ∷ l) = (f ≤ℤ x.family) × From f l

abbrev pub Ascending : List RawAddr → Type 0
Ascending [] = Unit
Ascending (x ∷ l) = From x.family l × Ascending l

From-le : (f g : ℤ) (l : List RawAddr) → f ≤ℤ g → From g l → From f l
From-le f g [] h k = tt
From-le f g (x ∷ l) h k = (omega arith, From-le f g l h k.1)

From-put_in_order :
    (f : ℤ) (r : RawAddr) (l : List RawAddr) → f ≤ℤ r.family → From f l → From f (put_in_order r l)
unfolding put_in_order
From-put_in_order f r [] h k = (h, tt)
From-put_in_order f r (x ∷ l) h k = ground (arith, k.0, From-put_in_order f r l h k.1)

ltb_ℤ_le : (a c : ℤ) → ltb_ℤ a c ≡ true → a ≤ℤ c
ltb_ℤ_le a c h = ground arith

not-ltb_ℤ_le : (a c : ℤ) → ltb_ℤ a c ≡ false → c ≤ℤ a
not-ltb_ℤ_le a c h = ground arith

put_in_order-Ascending :
    (r : RawAddr) (l : List RawAddr) → Ascending l → Ascending (put_in_order r l)
unfolding put_in_order
put_in_order-Ascending r [] h = (tt, tt)
put_in_order-Ascending r (x ∷ l) h = elim (Bool-cases (ltb_ℤ x.family r.family)) [
  | inl e ↦ rw (e) (
    From-put_in_order x.family r l (ltb_ℤ_le x.family r.family e) h.0,
    put_in_order-Ascending r l h.1,
  )
  | inr e ↦
      let le = not-ltb_ℤ_le x.family r.family e in
      rw (e) ((le, From-le r.family x.family l le h.0), h)
]

in_order-Ascending : (l : List RawAddr) → Ascending (in_order l)
unfolding in_order
in_order-Ascending [] = tt
in_order-Ascending (r ∷ l) = put_in_order-Ascending r (in_order l) (in_order-Ascending l)

-- The entries of one family.
unfoldable pub of_family : ℤ → List RawAddr → List RawAddr
of_family f [] = []
of_family f (r ∷ l) = if same_family f r.family then r ∷ of_family f l else of_family f l

of_family-put_in_order :
    (f : ℤ) (r : RawAddr) (l : List RawAddr) → of_family f (put_in_order r l) ≡ of_family f (r ∷ l)
unfolding put_in_order of_family
of_family-put_in_order f r [] = refl
of_family-put_in_order f r (x ∷ l) = ground (arith, of_family-put_in_order f r l)

of_family-in_order : (f : ℤ) (l : List RawAddr) → of_family f (in_order l) ≡ of_family f l
unfolding in_order of_family
of_family-in_order f [] = refl
of_family-in_order f (r ∷ l) =
    of_family-put_in_order f r (in_order l)
    ∙ ap (λ (t : List RawAddr). if same_family f r.family then r ∷ t else t)
        (of_family-in_order f l)

-- The list that the addresses are taken from: by family, and as they were listed within a family.
pub record IsSorted (rawlist sorted : List RawAddr) : Type 0 where
  pub ascending : Ascending sorted
  pub stable : (f : ℤ) → of_family f sorted ≡ of_family f rawlist

-- The addresses that net_if_addrs gives for a name are those of the entries of that name, each converted, in
-- the order of one list, which has the entries in increasing order of family and those of a family as they
-- were listed; for a name that is not in the dict there is no entry.
pub net_if_addrs-IsSorted :
    (os : Platform) (families : Families) (broadcast_addr : NicAddr → Result (Option Bytes))
    (rawlist : List RawAddr)
    → (sorted : List RawAddr) × IsSorted rawlist sorted
      × ((name : Bytes)
          → or_nil (lookup same_bytes name (net_if_addrs os families broadcast_addr rawlist))
            ≡ map (nic_addr os families broadcast_addr) (named name sorted))
net_if_addrs-IsSorted os families broadcast_addr rawlist = (
  in_order rawlist,
  record { ascending = in_order-Ascending rawlist; stable = λ f. of_family-in_order f rawlist },
  λ name. net_if_addrs-named os families broadcast_addr name rawlist,
)
