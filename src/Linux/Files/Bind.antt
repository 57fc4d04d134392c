-- ===== src/Linux/Files/Bind.antt =====
-- Chains of steps that may raise, for `do` blocks.
use psutil.Prelude.{Result, ok, err, ◌≡◌, refl}
use psutil.Linux.Files.{Outcome, value, raised, known}

infixl 5 ◌>>=◌
abbrev pub ◌>>=◌ : {A B : Type 0} → Outcome A → (A → Outcome B) → Outcome B
value a >>= f = f a
raised e >>= f = raised e

abbrev pub from_result : {A : Type 0} → Result A → Outcome A
from_result (ok a) = value a
from_result (err e) = raised (known e)

-- What a chain that returned went through.
pub >>=-eq-value :
    {A B : Type 0} (m : Outcome A) (f : A → Outcome B) {b : B}
    → (m >>= f) ≡ value b
    → (a : A) × (m ≡ value a) × (f a ≡ value b)
>>=-eq-value (value a) f h = (a, refl, h)
>>=-eq-value (raised e) f h = cc
