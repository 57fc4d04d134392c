-- ===== src/Oneshot/Kept.antt =====
-- What a cache keeps, and for how long.
use psutil.Prelude.{
  ◌≡◌, refl, inl, inr, none, some, List, [], ◌∷◌, Result, ok, err, Exec, arith, Option-cases,
  ok-injective, ap, ◌∙◌,
}
use psutil.Prelude.Dict.{Dict, lookup, lookup-insert, lookup-insert_self}
use psutil.Oneshot.{Cache, Caches, call, calls, oneshot, cache_deactivate, oneshot_exit}

module _ {F V : Type 0} (dec : Discrete F) where
  -- The cache has `v` for `f`.
  abbrev pub Has : F → V → Cache F V → Type 0
  Has f v none = (some v) ≡ none
  Has f v (some d) = lookup dec f d ≡ some v

  call-Has :
      (f g : F) (v : V) (answer : Result V) (c : Cache F V)
      → Has f v c
      → Has f v (call dec g answer c).1
  unfolding call
  call-Has f g v answer none h = absurd (cc)
  call-Has f g v (ok w) (some d) h = elim (Option-cases (lookup dec g d)) [
    | inl missing ↦ rw (missing) (ground (arith, h, lookup-insert dec g f w d))
    | inr (u, there) ↦ rw (there) h
  ]
  call-Has f g v (err e) (some d) h = elim (Option-cases (lookup dec g d)) [
    | inl missing ↦ rw (missing) h
    | inr (u, there) ↦ rw (there) h
  ]

  calls-Has :
      (f : F) (v : V) (fs : List (F × Result V)) (c : Cache F V)
      → Has f v c
      → Has f v (calls dec fs c)
  unfolding calls
  calls-Has f v [] c h = h
  calls-Has f v ((g, answer) ∷ fs) c h =
      calls-Has f v fs (call dec g answer c).1 (call-Has f g v answer c h)

  Has-call :
      (f : F) (v : V) (d : Dict F V) (answer : Result V)
      → (call dec f answer (some d)).0 ≡ ok v
      → Has f v (call dec f answer (some d)).1
  unfolding call
  Has-call f v d (ok w) h = elim (Option-cases (lookup dec f d)) [
    | inl missing ↦
        rw (missing) (lookup-insert_self dec f w d ∙ ap some (ok-injective w v (rw missing at h)))
    | inr (u, there) ↦ rw (there) (there ∙ ap some (ok-injective u v (rw there at h)))
  ]
  Has-call f v d (err e) h = elim (Option-cases (lookup dec f d)) [
    | inl missing ↦ absurd (ground (arith, h, missing))
    | inr (u, there) ↦ rw (there) (there ∙ ap some (ok-injective u v (rw there at h)))
  ]

  call_of_Has :
      (f : F) (v : V) (answer : Result V) (c : Cache F V)
      → Has f v c
      → call dec f answer c ≡ (ok v, c)
  unfolding call
  call_of_Has f v answer none h = absurd (cc)
  call_of_Has f v answer (some d) h = rw (h) refl

  -- While the cache is active, a getter that has returned a value returns that value at any later call,
  -- whatever was called in between and whatever it would answer now, and the cache stays as it is.
  pub call_again :
      (f : F) (v : V) (d : Dict F V) (first second : Result V) (fs : List (F × Result V))
      → (call dec f first (some d)).0 ≡ ok v
      → call dec f second (calls dec fs (call dec f first (some d)).1)
        ≡ (ok v, calls dec fs (call dec f first (some d)).1)
  call_again f v d first second fs h =
      call_of_Has f v second (calls dec fs (call dec f first (some d)).1)
        (calls-Has f v fs (call dec f first (some d)).1 (Has-call f v d first h))

  -- After the outermost `oneshot`, whatever its body did or raised, every getter of the object and of its
  -- platform object answers afresh, and nothing is stored.
  pub oneshot_fresh :
      {A : Type 0} (body : Exec (Caches F V) A) (c : Caches F V) (f : F) (answer : Result V)
      → c.front ≡ none
      → (call dec f answer (oneshot body c).1.front ≡ (answer, none))
        × (call dec f answer (oneshot body c).1.platform ≡ (answer, none))
  unfolding oneshot call cache_deactivate oneshot_exit
  oneshot_fresh body c f answer outer = rw (outer) (refl, refl)
