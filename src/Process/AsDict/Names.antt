-- ===== src/Process/AsDict/Names.antt =====
-- Which names `as_dict` returns, with which values, and which exceptions it lets through.
use Prim.Native.String.{String}
use psutil.Prelude.{
  ℕ, Bool, true, false, ◌≡◌, ◌≢◌, ◌⊎◌, inl, inr, refl, Option, none, some, List, [], ◌∷◌, map,
  Result, ok, err, Error, arith, Result-cases, Bool-cases, ok-injective, err-injective, sym, ◌∙◌,
  ap, subst,
}
use psutil.Process.Defs.{Value}
use psutil.Process.AsDict.{
  Attrs, Info, has_name, is_empty, unique, all_known, keep, stored, collect, as_dict,
}

unique_ne : (n : String) (ns : List String) → is_empty (unique (n ∷ ns)) ≡ false
unfolding unique
unique_ne n [] = refl
unique_ne n (m ∷ ms) = elim (Bool-cases (has_name n (m ∷ ms))) [
  | inl old ↦ rw old (unique_ne m ms)
  | inr new ↦ rw new
]

module _ (getter : String → Result Value) (ad : Value) where
  -- A value is what its getter returned, or `ad_value` if that raised access denied or zombie.
  abbrev pub IsExplained : String → Value → Type 0
  IsExplained n v =
      (getter n ≡ ok v)
      ⊎ ((v ≡ ad)
          × ((p : ℕ) × ((getter n ≡ err (Error.access_denied p))
                ⊎ (getter n ≡ err (Error.zombie_process p)))))

  abbrev pub AllExplained : Info → Type 0
  AllExplained [] = Unit
  AllExplained (x ∷ info) = IsExplained x.0 x.1 × AllExplained info

  keep_raises :
      (asked : Bool) (r : Result Value) (p : ℕ) {e : Error}
      → keep asked ad r ≡ err e
      → (e ≢ Error.access_denied p) × (e ≢ Error.zombie_process p)
  keep_raises asked r p h = ground arith

  keep-IsExplained :
      (asked : Bool) (n : String) (v : Value)
      → keep asked ad (getter n) ≡ ok (some v)
      → IsExplained n v
  keep-IsExplained asked n v h = elim (Result-cases (getter n)) [
    | inl (w, e) ↦ inl (ground arith)
    | inr (Error.access_denied p, e) ↦ inr (ground arith, (p, inl e))
    | inr (Error.zombie_process p, e) ↦ inr (ground arith, (p, inr e))
    | inr (_, e) ↦ absurd (ground arith)
  ]

  collect-AllExplained :
      (asked : Bool) (ns : List String) (info : Info)
      → collect getter ad asked ns ≡ ok info
      → AllExplained info
  unfolding collect
  collect-AllExplained asked [] info h = subst AllExplained (ok-injective _ _ h) tt
  collect-AllExplained asked (n ∷ ns) info h = elim (Result-cases (keep asked ad (getter n))) [
    | inr (e, raised) ↦ absurd (cc (rw raised at h))
    | inl (o, kept) ↦ elim (Result-cases (collect getter ad asked ns)) [
      | inr (e, raised) ↦ absurd (cc (rw raised at (rw kept at h)))
      | inl (rest, done) ↦
          subst AllExplained (ok-injective _ _ (rw done at (rw kept at h)))
            (stored-AllExplained rest o kept (collect-AllExplained asked ns rest done))
    ]
  ]
    where
      stored-AllExplained :
          (rest : Info) (o : Option Value)
          → keep asked ad (getter n) ≡ ok o
          → AllExplained rest
          → AllExplained (stored n o rest)
      stored-AllExplained rest none k a = a
      stored-AllExplained rest (some v) k a = (keep-IsExplained asked n v k, a)

  keys-collect :
      (ns : List String) (info : Info)
      → collect getter ad true ns ≡ ok info
      → map (λ x. x.0) info ≡ ns
  unfolding collect
  keys-collect [] info h = ground arith
  keys-collect (n ∷ ns) info h = elim (Result-cases (keep true ad (getter n))) [
    | inr (e, raised) ↦ absurd (cc (rw raised at h))
    | inl (none, kept) ↦ absurd (ground arith)
    | inl (some v, kept) ↦ elim (Result-cases (collect getter ad true ns)) [
      | inr (e, raised) ↦ absurd (cc (rw raised at (rw kept at h)))
      | inl (rest, done) ↦
          let e : (n, v) ∷ rest ≡ info = ok-injective _ _ (rw done at (rw kept at h)) in
          ap (map (λ (x : String × Value). x.0)) (sym e) ∙ ap (◌∷◌ n) (keys-collect ns rest done)
    ]
  ]

  collect_raises :
      (asked : Bool) (ns : List String) (p : ℕ) {e : Error}
      → collect getter ad asked ns ≡ err e
      → (e ≢ Error.access_denied p) × (e ≢ Error.zombie_process p)
  unfolding collect
  collect_raises asked [] p h = absurd (cc)
  collect_raises asked (n ∷ ns) p {e} h = elim (Result-cases (keep asked ad (getter n))) [
    | inr (x, raised) ↦
        subst (λ t. (t ≢ Error.access_denied p) × (t ≢ Error.zombie_process p))
          (err-injective _ _ (rw raised at h)) (keep_raises asked (getter n) p raised)
    | inl (o, kept) ↦ elim (Result-cases (collect getter ad asked ns)) [
      | inr (x, raised) ↦
          subst (λ t. (t ≢ Error.access_denied p) × (t ≢ Error.zombie_process p))
            (err-injective _ _ (rw raised at (rw kept at h))) (collect_raises asked ns p raised)
      | inl (rest, done) ↦ absurd (cc (rw done at (rw kept at h)))
    ]
  ]

  -- Names that are asked for, at least one, are all returned, each once, in the order of the set.
  pub keys-as_dict :
      (valid l : List String) (info : Info)
      → l ≢ []
      → as_dict getter ad valid (Attrs.names l) ≡ ok info
      → map (λ x. x.0) info ≡ unique l
  unfolding as_dict
  keys-as_dict valid [] info ne h = absurd (ne refl)
  keys-as_dict valid (n ∷ ns) info ne h = elim (Bool-cases (all_known valid (n ∷ ns))) [
    | inr unknown ↦ absurd (cc (rw unknown at h))
    | inl known ↦ keys-collect (unique (n ∷ ns)) info (rw (unique_ne n ns) at (rw known at h))
  ]

  -- Every value is what the getter of that name returned, or `ad_value` in place of an
  -- access denied or zombie error of that getter, whatever names were asked for.
  pub as_dict-AllExplained :
      (valid : List String) (attrs : Attrs) (info : Info)
      → as_dict getter ad valid attrs ≡ ok info
      → AllExplained info
  unfolding as_dict
  as_dict-AllExplained valid Attrs.absent info h = collect-AllExplained false valid info h
  as_dict-AllExplained valid Attrs.invalid info h = absurd (cc)
  as_dict-AllExplained valid (Attrs.names l) info h = elim (Bool-cases (all_known valid l)) [
    | inr unknown ↦ absurd (cc (rw unknown at h))
    | inl known ↦ elim (Bool-cases (is_empty (unique l))) [
      | inl all ↦ collect-AllExplained false valid info (rw all at (rw known at h))
      | inr asked ↦ collect-AllExplained true (unique l) info (rw asked at (rw known at h))
    ]
  ]

  -- Neither access denied nor the zombie error of a getter gets through.
  pub as_dict_raises :
      (valid : List String) (attrs : Attrs) (p : ℕ) {e : Error}
      → as_dict getter ad valid attrs ≡ err e
      → (e ≢ Error.access_denied p) × (e ≢ Error.zombie_process p)
  unfolding as_dict
  as_dict_raises valid Attrs.absent p h = collect_raises false valid p h
  as_dict_raises valid Attrs.invalid p h = ground arith
  as_dict_raises valid (Attrs.names l) p h = elim (Bool-cases (all_known valid l)) [
    | inr unknown ↦ ground arith
    | inl known ↦ elim (Bool-cases (is_empty (unique l))) [
      | inl all ↦ collect_raises false valid p (rw all at (rw known at h))
      | inr asked ↦ collect_raises true (unique l) p (rw asked at (rw known at h))
    ]
  ]
