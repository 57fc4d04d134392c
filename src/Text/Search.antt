-- ===== src/Text/Search.antt =====
-- Finding a byte, and slicing there.
use psutil.Prelude.{
  ℕ, suc, ◌+◌, ◌≡◌, refl, ap, ◌∙◌, true, false, none, some, [], ◌∷◌, ◌++◌, arith, length, take,
  drop,
}
use psutil.Text.{Bytes, find, rfind, contains, ends_with, all_but_last}

pub rfind-contains : (c : ℕ) (s : Bytes) → contains c s ≡ false → rfind c s ≡ none
unfolding rfind contains
rfind-contains c [] h = refl
rfind-contains c (d ∷ s) h = ground (arith, h, rfind-contains c s)

pub rfind-append :
    (c : ℕ) (s t : Bytes) → contains c t ≡ false → rfind c (s ++ (c ∷ t)) ≡ some (length s)
unfolding rfind
rfind-append c [] t h = ground (arith, rfind-contains c t h)
rfind-append c (d ∷ s) t h = rw (rfind-append c s t h) refl

pub find-append :
    (c : ℕ) (s t : Bytes) → contains c s ≡ false → find c (s ++ (c ∷ t)) ≡ some (length s)
unfolding find contains
find-append c [] t h = ground arith
find-append c (d ∷ s) t h = ground (arith, h, find-append c s t)

pub take-append : (s t : Bytes) → take (length s) (s ++ t) ≡ s
take-append [] t = refl
take-append (c ∷ s) t = ap (λ (l : Bytes). c ∷ l) (take-append s t)

pub drop-append : (s t : Bytes) → drop (length s) (s ++ t) ≡ t
drop-append [] t = refl
drop-append (c ∷ s) t = drop-append s t

suc_add : (m k : ℕ) → suc m + k ≡ suc (m + k)
suc_add m k = omega arith

zero_add : (k : ℕ) → 0 + k ≡ k
zero_add k = omega arith

pub drop-append_more : (s t : Bytes) (k : ℕ) → drop (length s + k) (s ++ t) ≡ drop k t
drop-append_more [] t k = ap (λ (n : ℕ). drop n t) (zero_add k)
drop-append_more (c ∷ s) t k =
    ap (λ (n : ℕ). drop n (c ∷ (s ++ t))) (suc_add (length s) k) ∙ drop-append_more s t k

pub ends_with-append : (c : ℕ) (s : Bytes) → ends_with c (s ++ (c ∷ [])) ≡ true
unfolding ends_with
ends_with-append c [] = ground arith
ends_with-append c (d ∷ []) = ground arith
ends_with-append c (d ∷ e ∷ s) = ends_with-append c (e ∷ s)

pub all_but_last-append : (c : ℕ) (s : Bytes) → all_but_last (s ++ (c ∷ [])) ≡ s
unfolding all_but_last
all_but_last-append c [] = refl
all_but_last-append c (d ∷ []) = refl
all_but_last-append c (d ∷ e ∷ s) = ap (λ (l : Bytes). d ∷ l) (all_but_last-append c (e ∷ s))
