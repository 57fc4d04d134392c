-- ===== src/Linux/Footprint/Rollup.antt =====
-- The unique set size that a rollup file gives.
use psutil.Prelude.{
  ℕ, ◌+◌, ◌≡◌, refl, ap, sym, ◌∙◌, Bool, true, false, List, [], ◌∷◌, Result, ok, err, arith, ◌>>=◌,
  if◌then◌else◌, ok-injective, Result-cases, inl, inr,
}
use psutil.Text.{Bytes, b, starts_with}
use psutil.Linux.Footprint.{Footprint, kilobytes, note_rollup, read_rollup, parse_smaps_rollup}

abbrev size_of : Result ℕ → ℕ
size_of (ok n) = n
size_of (err e) = 0

-- The sum of the sizes of the lines that begin with `Private_`.
unfoldable pub private_sum : List Bytes → ℕ
private_sum [] = 0
private_sum (line ∷ lines) =
    (if starts_with line (b "Private_") then size_of (kilobytes line) else 0) + private_sum lines

-- A step that writes what `next` makes of a size.
step_uss :
    (r : Result ℕ) (next : ℕ → Footprint) (u : ℕ) {g : Footprint}
    → ((n : ℕ) → (next n).uss ≡ u)
    → (do n ← r; ok (next n)) ≡ ok g
    → g.uss ≡ u
step_uss (ok n) next u {g = g} h e =
    ap (λ (f : Footprint). f.uss) (sym (ok-injective (next n) g e)) ∙ h n
step_uss (err x) next u h e = absurd (ground (arith, e))

private_uss :
    (r : Result ℕ) (f g : Footprint)
    → (do n ← r; ok (record f { uss = f.uss + n })) ≡ ok g
    → g.uss ≡ f.uss + size_of r
private_uss (ok n) f g e = ap (λ (h : Footprint). h.uss) (sym (ok-injective _ g e))
private_uss (err x) f g e = absurd (ground (arith, e))

other_uss :
    (r : Result ℕ) (pss swap : Bool) (f g : Footprint)
    → (if pss
        then (do n ← r; ok (record f { pss = n }))
        else if swap
        then (do n ← r; ok (record f { swap = n }))
        else ok f)
      ≡ ok g
    → g.uss ≡ f.uss + 0
other_uss r true swap f g e =
    step_uss r (λ n. record f { pss = n }) f.uss (λ n. refl) e ∙ omega arith
other_uss r false true f g e =
    step_uss r (λ n. record f { swap = n }) f.uss (λ n. refl) e ∙ omega arith
other_uss r false false f g e =
    ap (λ (h : Footprint). h.uss) (sym (ok-injective f g e)) ∙ omega arith

by_private :
    (r : Result ℕ) (private pss swap : Bool) (f g : Footprint)
    → (if private
        then (do n ← r; ok (record f { uss = f.uss + n }))
        else if pss
        then (do n ← r; ok (record f { pss = n }))
        else if swap
        then (do n ← r; ok (record f { swap = n }))
        else ok f)
      ≡ ok g
    → g.uss ≡ f.uss + (if private then size_of r else 0)
by_private r true pss swap f g e = private_uss r f g e
by_private r false pss swap f g e = other_uss r pss swap f g e

read_rollup-uss :
    (lines : List Bytes) (f g : Footprint)
    → read_rollup lines f ≡ ok g
    → g.uss ≡ f.uss + private_sum lines
unfolding read_rollup private_sum note_rollup
read_rollup-uss [] f g e = ap (λ (h : Footprint). h.uss) (sym (ok-injective f g e)) ∙ omega arith
read_rollup-uss (line ∷ lines) f g e = elim (Result-cases (note_rollup line f)) [
  | inl (m, h) ↦
      let first =
        by_private (kilobytes line) (starts_with line (b "Private_")) (starts_with line (b "Pss:"))
          (starts_with line (b "Swap:")) f m h in
      omega (arith, first, read_rollup-uss lines m g (rw h at e))
  | inr (x, h) ↦ absurd (cc (rw h at e))
]

-- If _parse_smaps_rollup returns, the unique set size is the sum of the sizes of all lines that begin with
-- `Private_`, wherever they stand.
pub parse_smaps_rollup-uss :
    (lines : List Bytes) (g : Footprint)
    → parse_smaps_rollup lines ≡ ok g
    → g.uss ≡ private_sum lines
unfolding parse_smaps_rollup
parse_smaps_rollup-uss lines g e =
    omega (arith, read_rollup-uss lines (record { uss = 0; pss = 0; swap = 0 }) g e)
