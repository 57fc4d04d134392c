-- ===== src/Prelude/Results.antt =====
-- The exceptions of `_common.py` and of Python that the modelled code raises or catches, results
-- that may be one, and methods that change an object and may raise.
use Prim.Native.Nat.{ℕ}
use mathlib.Core.Path.{◌≡◌, refl, ap, subst}
use mathlib.Core.Logic.{◌⊎◌, inl, inr}

-- The classes by which a handler selects. The texts of messages are left out.
pub data Error : Type 0 where
  no_such_process : ℕ → Error
  zombie_process : ℕ → Error
  access_denied : ℕ → Error
  timeout_expired : ℕ → Error
  value_error type_error key_error index_error assertion_error : Error
  not_implemented zero_division os_error runtime_error : Error

pub data Result {ℓ} (A : Type ℓ) : Type ℓ where
  ok : A → Result A
  err : Error → Result A

-- What was written before a raise stays written: the state comes back beside the error too.
abbrev pub Exec {ℓ} : Type ℓ → Type ℓ → Type ℓ
Exec S A = S → Result A × S

-- To split on a computed result and keep the equation.
pub Result-cases {ℓ} :
    {A : Type ℓ} (r : Result A) → ((a : A) × (r ≡ ok a)) ⊎ ((e : Error) × (r ≡ err e))
Result-cases (ok a) = inl (a, refl)
Result-cases (err e) = inr (e, refl)

infixl 5 ◌>>=◌
abbrev pub ◌>>=◌ {ℓ κ} : {A : Type ℓ} {B : Type κ} → Result A → (A → Result B) → Result B
ok a >>= f = f a
err e >>= f = err e

ok_or {ℓ} : {A : Type ℓ} → A → Result A → A
ok_or d (ok a) = a
ok_or d (err e) = d

pub ok-injective {ℓ} : {A : Type ℓ} (a b : A) → ok a ≡ ok b → a ≡ b
unfolding ok_or
ok-injective a b h = ap (ok_or a) h

error_or {ℓ} : {A : Type ℓ} → Error → Result A → Error
error_or d (ok a) = d
error_or d (err e) = e

pub err-injective {ℓ} : {A : Type ℓ} (a b : Error) → ◌≡◌ {A = Result A} (err a) (err b) → a ≡ b
unfolding error_or
err-injective a b h = ap (error_or a) h

-- A predicate of the value of a result, where there is one.
abbrev pub AllOk : {A : Type 0} → (A → Type 0) → Result A → Type 0
AllOk P (ok a) = P a
AllOk P (err e) = Unit

pub bind-AllOk :
    {A B : Type 0} {P : A → Type 0} (Q : B → Type 0) (r : Result A) (f : A → Result B)
    → AllOk P r
    → ((a : A) → P a → AllOk Q (f a))
    → AllOk Q (r >>= f)
bind-AllOk Q (ok a) f p h = h a p
bind-AllOk Q (err e) f p h = tt

pub AllOk-map :
    {A : Type 0} (P Q : A → Type 0) (r : Result A) → ((x : A) → P x → Q x) → AllOk P r → AllOk Q r
AllOk-map P Q (ok x) h p = h x p
AllOk-map P Q (err e) h p = tt

-- After any value.
pub any-AllOk :
    {A B : Type 0} (Q : B → Type 0) (r : Result A) (f : A → Result B)
    → ((a : A) → AllOk Q (f a))
    → AllOk Q (r >>= f)
any-AllOk Q (ok a) f h = h a
any-AllOk Q (err e) f h = tt

pub ok-AllOk : {A : Type 0} (P : A → Type 0) (r : Result A) (a : A) → r ≡ ok a → AllOk P r → P a
ok-AllOk P r a e h = subst (AllOk P) e h
