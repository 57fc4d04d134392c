-- ===== src/WaitProcs/Passes.antt =====
-- What a look at a process, a pass and a round leave.
use psutil.Prelude.{
  AllOk, bind-AllOk, AllOk-map, ℕ, ◌≡◌, refl, inl, inr, Bool, true, false, Option, none, some, List,
  [], ◌∷◌, Result, Bool-cases, arith, elem, leb, ◌>>=◌, if◌then◌else◌,
}
use psutil.Prelude.Int.{ℤ}
use psutil.WaitProcs.{
  Ticks, Waited, Answers, Gone, set_of, pids_of, without, is_gone, judged, check_gone, pass,
  last_look,
}

-- No number twice.
abbrev pub NoDup : List ℕ → Type 0
NoDup [] = Unit
NoDup (p ∷ l) = (elem p l ≡ false) × NoDup l

abbrev pub Apart : List ℕ → List ℕ → Type 0
Apart l m = (p : ℕ) → elem p l ≡ true → elem p m ≡ false

pub elem-without :
    (p : ℕ) (l m : List ℕ) → elem p (without l m) ≡ (if elem p m then false else elem p l)
unfolding without elem
elem-without p [] m = ground arith
elem-without p (q ∷ l) m = ground (arith, elem-without p l m)

pub without-NoDup : (l m : List ℕ) → NoDup l → NoDup (without l m)
unfolding without
without-NoDup [] m h = tt
without-NoDup (q ∷ l) m h = ground (arith, elem-without q l m, without-NoDup l m h.1)

pub elem-set_of : (p : ℕ) (l : List ℕ) → elem p (set_of l) ≡ elem p l
unfolding set_of elem
elem-set_of p [] = refl
elem-set_of p (q ∷ l) = ground (arith, elem-set_of p l, elem-set_of q l)

pub set_of-NoDup : (l : List ℕ) → NoDup (set_of l)
unfolding set_of
set_of-NoDup [] = tt
set_of-NoDup (q ∷ l) = ground (arith, set_of-NoDup l)

module _ (a : Answers) where
  -- At some step the process was found gone with that code.
  abbrev pub SeenGone : ℕ → Option ℤ → Type 0
  SeenGone p code =
      (n : ℕ) × (t : Ticks) × (a.wait n p t ≡ Waited.returned code)
      × (is_gone code (a.is_running n p) ≡ true)

  abbrev pub AllSeen : List (ℕ × Option ℤ) → Type 0
  AllSeen [] = Unit
  AllSeen ((p, code) ∷ l) = SeenGone p code × AllSeen l

  abbrev pub Sound : Gone → Type 0
  Sound g = NoDup (pids_of g.procs) × AllSeen g.procs

  -- `g'` comes of `g` by looks at processes of `l`.
  pub record Looked (l : List ℕ) (g g' : Gone) : Type 0 where
    pub sound : Sound g'
    pub keeps : (p : ℕ) → elem p (pids_of g.procs) ≡ true → elem p (pids_of g'.procs) ≡ true
    pub only :
        (p : ℕ)
        → elem p l ≡ false
        → elem p (pids_of g.procs) ≡ false
        → elem p (pids_of g'.procs) ≡ false

  judged-Looked :
      (p : ℕ) (t : Ticks) (w : Waited) (running : Bool) (g : Gone)
      → a.wait g.step p t ≡ w
      → a.is_running g.step p ≡ running
      → Sound g
      → elem p (pids_of g.procs) ≡ false
      → AllOk (Looked (p ∷ []) g) (judged p running w g)
  judged-Looked p t (Waited.raised e) running g ew er s new = tt
  judged-Looked p t Waited.expired running g ew er s new = record {
    sound = s;
    keeps = λ q h. h;
    only = λ q o h. h;
  }
  judged-Looked p t (Waited.returned code) running g ew er s new =
      elim (Bool-cases (is_gone code running)) [
        | inl gone ↦ rw (gone) (record {
          sound = ((new, s.0), ((g.step, t, ew, rw er gone), s.1));
          keeps = λ q h. unfold elem in ground (arith, h);
          only = λ q o h. unfold elem in ground (arith, o, h);
        })
        | inr alive ↦ rw (alive) (record { sound = s; keeps = λ q h. h; only = λ q o h. h })
      ]

  check_gone-Looked :
      (p : ℕ) (t : Ticks) (g : Gone)
      → Sound g
      → elem p (pids_of g.procs) ≡ false
      → AllOk (Looked (p ∷ []) g) (check_gone a p t g)
  unfolding check_gone
  check_gone-Looked p t g =
      judged-Looked p t (a.wait g.step p t) (a.is_running g.step p) g refl refl

  Looked-refl : (l : List ℕ) (g : Gone) → Sound g → Looked l g g
  Looked-refl l g s = record { sound = s; keeps = λ q h. h; only = λ q o h. h }

  Looked-cons :
      (p : ℕ) (l : List ℕ) (g g₁ g₂ : Gone)
      → Looked (p ∷ []) g g₁
      → Looked l g₁ g₂
      → Looked (p ∷ l) g g₂
  Looked-cons p l g g₁ g₂ h k = record {
    sound = k.sound;
    keeps = λ q e. k.keeps q (h.keeps q e);
    only = λ q o e.
        k.only q (unfold elem in ground (arith, o)) (h.only q (unfold elem in ground (arith, o)) e);
  }

  rest-Apart :
      (p : ℕ) (l : List ℕ) (g g₁ : Gone)
      → NoDup (p ∷ l)
      → Apart (p ∷ l) (pids_of g.procs)
      → Looked (p ∷ []) g g₁
      → Apart l (pids_of g₁.procs)
  unfolding elem
  rest-Apart p l g g₁ d apart h q e =
      h.only q (ground (arith, d.0, e)) (apart q (ground (arith, e)))

  first-Apart : (p : ℕ) (l m : List ℕ) → Apart (p ∷ l) m → elem p m ≡ false
  unfolding elem
  first-Apart p l m apart = apart p (ground arith)

  cons_step :
      {X : Type 0} (to : X → Gone) (p : ℕ) (l : List ℕ) (g : Gone) (t : Ticks) (f : Gone → Result X)
      → NoDup (p ∷ l)
      → Apart (p ∷ l) (pids_of g.procs)
      → Sound g
      → ((g₁ : Gone)
          → Apart l (pids_of g₁.procs)
          → Sound g₁
          → AllOk (λ x. Looked l g₁ (to x)) (f g₁))
      → AllOk (λ x. Looked (p ∷ l) g (to x)) (check_gone a p t g >>= f)
  cons_step {X} to p l g t f d apart s next =
      bind-AllOk (λ (x : X). Looked (p ∷ l) g (to x)) (check_gone a p t g) f
        (check_gone-Looked p t g s (first-Apart p l (pids_of g.procs) apart))
        (λ g₁ h.
          AllOk-map (λ x. Looked l g₁ (to x)) (λ x. Looked (p ∷ l) g (to x)) (f g₁)
            (λ x k. Looked-cons p l g g₁ (to x) h k)
            (next g₁ (rest-Apart p l g g₁ d apart h) h.sound))

  -- A pass over some processes, none of them gone before.
  pub pass-Looked :
      (deadline : Option ℕ) (len : ℕ) (l : List ℕ) (g : Gone)
      → NoDup l
      → Apart l (pids_of g.procs)
      → Sound g
      → AllOk (λ r. Looked l g r.1) (pass a deadline len l g)
  unfolding pass
  pass-Looked deadline len [] g d apart s = Looked-refl [] g s
  pass-Looked none len (p ∷ l) g d apart s =
      cons_step (λ (r : Bool × Gone). r.1) p l g _ (pass a none len l) d apart s
        (λ g₁. pass-Looked none len l g₁ d.1)
  pass-Looked (some t) len (p ∷ l) g d apart s = elim (Bool-cases (leb t (a.timer g.step))) [
    | inl over ↦ rw (over) (Looked-refl (p ∷ l) g s)
    | inr left ↦ rw (left) (
        cons_step (λ (r : Bool × Gone). r.1) p l g _ (pass a (some t) len l) d apart s
          (λ g₁. pass-Looked (some t) len l g₁ d.1))
  ]

  pub last_look-Looked :
      (l : List ℕ) (g : Gone)
      → NoDup l
      → Apart l (pids_of g.procs)
      → Sound g
      → AllOk (Looked l g) (last_look a l g)
  unfolding last_look
  last_look-Looked [] g d apart s = Looked-refl [] g s
  last_look-Looked (p ∷ l) g d apart s =
      cons_step (λ (g' : Gone). g') p l g _ (last_look a l) d apart s
        (λ g₁. last_look-Looked l g₁ d.1)
