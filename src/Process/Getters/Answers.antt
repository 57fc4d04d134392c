-- ===== src/Process/Getters/Answers.antt =====
-- What names and executables are worth.
use psutil.Prelude.{
  ℕ, ◌≡◌, ◌≢◌, ◌<◌, refl, Bool, true, ◌&&◌, Option, none, some, List, [], ◌∷◌, Result, ok, err,
  Error, arith, length, leb, ◌==◌, ap, ◌∙◌, subst, ok-injective, Bool-cases, inl, inr,
}
use psutil.Text.{Bytes, starts_with}
use psutil.Platform.{Platform, is_posix}
use psutil.Process.Getters.{
  Names, basename, extended, extend, ask_name, name, guess, or_empty, or_ask, ask_exe, exe,
}

same_byte : (c : ℕ) → (c == c) ≡ true
same_byte c = ground arith

starts_with_self : (s : Bytes) → starts_with s s ≡ true
unfolding starts_with
starts_with_self [] = refl
starts_with_self (c ∷ s) = rw (same_byte c) (starts_with_self s)

-- What `name` may make of the kernel's name.
pub record Extends (n m : Bytes) : Type 0 where
  pub begins : starts_with m n ≡ true
  pub short : length n < 15 → m ≡ n

kept-Extends : (n : Bytes) → Extends n n
kept-Extends n = record { begins = starts_with_self n; short = λ h. refl }

extended-Extends : (n long : Bytes) → leb 15 (length n) ≡ true → Extends n (extended n long)
extended-Extends n long h = record {
  begins = ground (arith, starts_with_self n);
  short = λ k. absurd (ground (arith, h, k));
}

ok_Extends : (n l m : Bytes) → Extends n l → ok l ≡ ok m → Extends n m
ok_Extends n l m h e = subst (Extends n) (ok-injective l m e) h

extend-Extends :
    (n m : Bytes) (cmdline : Result (List Bytes)) (self : Names)
    → leb 15 (length n) ≡ true
    → (extend n cmdline self).0 ≡ ok m
    → Extends n m
extend-Extends n m (ok []) self long h = ok_Extends n n m (kept-Extends n) h
extend-Extends n m (ok (arg ∷ args)) self long h =
    ok_Extends n (extended n (basename arg)) m (extended-Extends n (basename arg) long) h
extend-Extends n m (err (Error.access_denied p)) self long h = ok_Extends n n m (kept-Extends n) h
extend-Extends n m (err (Error.zombie_process p)) self long h = ok_Extends n n m (kept-Extends n) h
extend-Extends n m (err e) self long h = absurd (ground (arith, h))

ask_name-Extends :
    (os : Platform) (n m : Bytes) (cmdline : Result (List Bytes)) (self : Names)
    → (ask_name os (ok n) cmdline self).0 ≡ ok m
    → Extends n m
ask_name-Extends os n m cmdline self h = elim (Bool-cases (is_posix os && leb 15 (length n))) [
  | inl e ↦ extend-Extends n m cmdline self (ground (arith, e)) (rw e at h)
  | inr e ↦ ok_Extends n n m (kept-Extends n) (rw e at h)
]

-- On POSIX, if name() returns, what it returns begins with the name that the kernel gave, and is that
-- name if that is shorter than 15 bytes, whatever the command line holds.
pub name-Extends :
    (os : Platform) (n m : Bytes) (cmdline : Result (List Bytes)) (self : Names)
    → is_posix os ≡ true
    → (name os (ok n) cmdline self).0 ≡ ok m
    → Extends n m
unfolding name
name-Extends Platform.windows n m cmdline self posix h = absurd (ground (arith, posix))
name-Extends os n m cmdline self posix h = ask_name-Extends os n m cmdline self h

some_of_ok : (x e : Bytes) → ok x ≡ ok e → some x ≡ some e
some_of_ok x e h = ap some (ok-injective x e h)

exe-or_empty :
    (r : Result Bytes) (self : Names) (e : Bytes)
    → (or_empty r self).0 ≡ ok e
    → (or_empty r self).1.exe ≡ some e
exe-or_empty (ok x) self e h = some_of_ok x e h
exe-or_empty (err (Error.access_denied p)) self e h = some_of_ok [] e h
exe-or_empty (err x) self e h = absurd (ground (arith, h))

exe-ask_exe :
    (runnable : Bytes → Bool) (answer : Result Bytes) (cmdline : Result (List Bytes)) (self : Names)
    (e : Bytes)
    → ((p : ℕ) → answer ≢ err (Error.access_denied p))
    → (ask_exe runnable answer cmdline self).0 ≡ ok e
    → (ask_exe runnable answer cmdline self).1.exe ≡ some e
exe-ask_exe runnable (ok []) cmdline self e ne h =
    exe-or_empty (guess runnable (ok []) cmdline) self e h
exe-ask_exe runnable (ok (c ∷ x)) cmdline self e ne h = some_of_ok (c ∷ x) e h
exe-ask_exe runnable (err (Error.access_denied p)) cmdline self e ne h = absurd (ne p refl)
exe-ask_exe runnable (err x) cmdline self e ne h = absurd (ground (arith, h))

exe-or_ask :
    (o : Option Bytes) (ask : Names → Result Bytes × Names) (self : Names) (e : Bytes)
    → self.exe ≡ o
    → ((ask self).0 ≡ ok e → (ask self).1.exe ≡ some e)
    → (or_ask o ask self).0 ≡ ok e
    → (or_ask o ask self).1.exe ≡ some e
exe-or_ask (some x) ask self e same kept h = same ∙ some_of_ok x e h
exe-or_ask none ask self e same kept h = kept h

-- Once exe() has returned, it returns the same at any later call and changes nothing, whatever the
-- system would answer then, unless its answer was guessed after the system had denied access.
pub exe_again :
    (runnable later : Bytes → Bool) (answer answer' : Result Bytes)
    (cmdline cmdline' : Result (List Bytes)) (self : Names) (e : Bytes)
    → ((p : ℕ) → answer ≢ err (Error.access_denied p))
    → (exe runnable answer cmdline self).0 ≡ ok e
    → exe later answer' cmdline' (exe runnable answer cmdline self).1
      ≡ (ok e, (exe runnable answer cmdline self).1)
unfolding exe
exe_again runnable later answer answer' cmdline cmdline' self e ne h =
    ap
      (λ (o : Option Bytes).
        or_ask o (ask_exe later answer' cmdline') (exe runnable answer cmdline self).1)
      (exe-or_ask self.exe (ask_exe runnable answer cmdline) self e refl
        (exe-ask_exe runnable answer cmdline self e ne) h)

denied_guess :
    (runnable : Bytes → Bool) (cmdline : Result (List Bytes)) (self : Names) (p : ℕ)
    → (or_empty (guess runnable (ok []) cmdline) self).0 ≢ err (Error.access_denied p)
unfolding guess
denied_guess runnable cmdline self p h = ground (arith, h)
