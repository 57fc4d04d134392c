-- ===== src/Environ.antt =====
-- psutil/_common.py: `parse_environ_block`.
pub mod RoundTrip
use psutil.Prelude.{
  ℕ, zero, suc, ◌+◌, Bool, true, false, Option, none, some, List, [], ◌∷◌, ◌==◌, if◌then◌else◌,
  take, drop, length, ℕ_discrete, ◌≡◌, refl,
}
use psutil.Prelude.Dict.{Dict, insert}
use psutil.Text.{Bytes, find, upper}

abbrev pub Environ : Type 0
Environ = Dict Bytes Bytes

abbrev same_head : {c d : ℕ} {s t : Bytes} → Dec (c ≡ d) → Dec (s ≡ t) → Dec (c ∷ s ≡ d ∷ t)
same_head (yes p) (yes q) = yes (λ i. p i ∷ q i)
same_head (yes p) (no ne) = no (λ e. ne (cc))
same_head (no ne) q = no (λ e. ne (cc))

-- `s == t`, with a proof.
unfoldable pub same_bytes : Discrete Bytes
same_bytes [] [] = yes refl
same_bytes [] (d ∷ t) = no (λ e. cc)
same_bytes (c ∷ s) [] = no (λ e. cc)
same_bytes (c ∷ s) (d ∷ t) = same_head (ℕ_discrete c d) (same_bytes s t)

-- The body of the loop for `line`, which is `data[pos:next_pos]`, if `=` is found behind its start.
abbrev pub assigned : Bool → Bytes → Option ℕ → Environ → Environ
assigned windows line none ret = ret
assigned windows line (some zero) ret = ret
assigned windows line (some (suc n)) ret =
    let key = take (suc n) line in
    insert same_bytes (if windows then upper key else key) (drop (suc n + 1) line) ret

-- `next_pos <= pos`: no NUL, or one at once.
abbrev pub after_find : Option ℕ → Environ → (ℕ → Option Environ) → Option Environ
after_find none ret go = some ret
after_find (some zero) ret go = some ret
after_find (some (suc n)) ret go = go (suc n)

-- `while True`, where `rest` is `data[pos:]`; `none` is fuel that ran out.
unfoldable pub environ_loop : ℕ → Bool → Bytes → Environ → Option Environ
unfolding find same_bytes
environ_loop zero windows rest ret = none
environ_loop (suc fuel) windows rest ret = after_find (find 0 rest) ret (λ n.
    environ_loop fuel windows (drop (n + 1) rest)
      (assigned windows (take n rest) (find b'=' (take n rest)) ret))

-- With fuel for each byte, which is enough.
unfoldable pub parse_environ_block : Bool → Bytes → Option Environ
unfolding environ_loop
parse_environ_block windows block = environ_loop (suc (length block)) windows block []
