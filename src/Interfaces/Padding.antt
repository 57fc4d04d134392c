-- ===== src/Interfaces/Padding.antt =====
-- Padding of MAC addresses.
use psutil.Prelude.{ℕ, zero, suc, ◌+◌, ◌≤◌, ◌≡◌, refl, true, false, [], ◌∷◌, ◌++◌, arith, ◌==◌}
use Prim.Native.Nat.{max}
use psutil.Text.{Bytes}
use psutil.Platform.{Platform}
use psutil.Prelude.Int.{ℤ}
use psutil.Interfaces.{Families, count, null_byte, pad, separator, same_family, full_address}

count-append : (sep : ℕ) (s t : Bytes) → count sep (s ++ t) ≡ count sep s + count sep t
unfolding count
count-append sep [] t = omega arith
count-append sep (c ∷ s) t = ground (arith, count-append sep s t)

count-null_byte : (sep : ℕ) → ((sep == b'0') ≡ false) → count sep (null_byte sep) ≡ 1
unfolding count
count-null_byte sep h = ground (arith, h)

count-pad :
    (fuel sep : ℕ) (addr : Bytes)
    → ((sep == b'0') ≡ false)
    → 5 ≤ count sep addr + fuel
    → count sep (pad fuel sep addr) ≡ max 5 (count sep addr)
unfolding pad
count-pad zero sep addr h l = omega arith
count-pad (suc fuel) sep addr h l = ground (
  arith,
  count-pad fuel sep (addr ++ null_byte sep) h,
  count-append sep addr (null_byte sep),
  count-null_byte sep h,
)

separator_lem : (os : Platform) → (separator os == b'0') ≡ false
separator_lem os = ground arith

-- A link address is padded with null bytes until it has five separators, and then the loop has ended; one
-- that has as many keeps its own. Another address stays as it is.
pub full_address-count :
    (os : Platform) (families : Families) (fam : ℤ) (addr : Bytes)
    → (same_family fam families.af_link ≡ true
        → count (separator os) (full_address os families fam addr)
          ≡ max 5 (count (separator os) addr))
      × (same_family fam families.af_link ≡ false → full_address os families fam addr ≡ addr)
unfolding full_address
full_address-count os families fam addr = (
  λ h. rw (h) (count-pad 5 (separator os) addr (separator_lem os) (omega arith)),
  λ h. rw (h) refl,
)
