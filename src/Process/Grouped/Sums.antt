-- ===== src/Process/Grouped/Sums.antt =====
-- Groups of regions hold the sums.
use psutil.Prelude.{
  ℕ, zero, suc, ◌+◌, ◌≡◌, refl, sym, ap, ◌∙◌, Option, none, some, List, [], ◌∷◌, arith, get_or,
  length, ite,
}
use psutil.Prelude.Dict.{lookup, lookup-insert}
use psutil.Text.{Bytes}
use psutil.Environ.{same_bytes}
use psutil.Process.Grouped.{Mapping, add_nums, add_or, Groups, note_mapping, grouped}

-- The number `i` of a path, which is 0 where there is none.
abbrev pub num_at : ℕ → Option (List ℕ) → ℕ
num_at i none = 0
num_at i (some nums) = get_or nums i 0

unfoldable pub sum_at : ℕ → Bytes → List Mapping → ℕ
sum_at i path [] = 0
sum_at i path (r ∷ it) = ite (same_bytes r.path path) (get_or r.nums i 0) 0 + sum_at i path it

-- Each region has `n` numbers.
abbrev pub AllLong : ℕ → List Mapping → Type 0
AllLong n [] = Unit
AllLong n (r ∷ it) = (length r.nums ≡ n) × AllLong n it

abbrev IsLong : ℕ → Option (List ℕ) → Type 0
IsLong n none = Unit
IsLong n (some nums) = length nums ≡ n

get_or-add_nums :
    (xs ys : List ℕ) (i : ℕ)
    → length xs ≡ length ys
    → get_or (add_nums xs ys) i 0 ≡ get_or xs i 0 + get_or ys i 0
unfolding add_nums
get_or-add_nums [] [] i h = omega arith
get_or-add_nums [] (y ∷ ys) i h = absurd (omega arith)
get_or-add_nums (x ∷ xs) [] i h = absurd (omega arith)
get_or-add_nums (x ∷ xs) (y ∷ ys) zero h = refl
get_or-add_nums (x ∷ xs) (y ∷ ys) (suc i) h = get_or-add_nums xs ys i (omega arith)

length-add_nums : (xs ys : List ℕ) → length xs ≡ length ys → length (add_nums xs ys) ≡ length ys
unfolding add_nums
length-add_nums [] [] h = refl
length-add_nums [] (y ∷ ys) h = absurd (omega arith)
length-add_nums (x ∷ xs) [] h = absurd (omega arith)
length-add_nums (x ∷ xs) (y ∷ ys) h = ap suc (length-add_nums xs ys (omega arith))

num_at-add_or :
    (n i : ℕ) (o : Option (List ℕ)) (nums : List ℕ)
    → IsLong n o
    → length nums ≡ n
    → (get_or (add_or o nums) i 0 ≡ get_or nums i 0 + num_at i o) × (length (add_or o nums) ≡ n)
num_at-add_or n i none nums h e = (omega arith, e)
num_at-add_or n i (some old) nums h e = (
  omega (arith, get_or-add_nums old nums i (h ∙ sym e)),
  length-add_nums old nums (h ∙ sym e) ∙ e,
)

by_dec :
    (n i : ℕ) (a c : Bytes) (t : Dec (a ≡ c)) (look : Bytes → Option (List ℕ)) (nums : List ℕ)
    → ((p : Bytes) → IsLong n (look p))
    → length nums ≡ n
    → (num_at i (ite t (some (add_or (look a) nums)) (look c))
        ≡ ite t (get_or nums i 0) 0 + num_at i (look c))
      × IsLong n (ite t (some (add_or (look a) nums)) (look c))
by_dec n i a c (yes p) look nums h e =
    let (num, long) = num_at-add_or n i (look a) nums (h a) e in
    (num ∙ ap (λ q. get_or nums i 0 + num_at i (look q)) p, long)
by_dec n i a c (no p) look nums h e = (omega arith, h c)

step-num_at :
    (n i : ℕ) (path : Bytes) (r : Mapping) (d : Groups)
    → length r.nums ≡ n
    → ((p : Bytes) → IsLong n (lookup same_bytes p d))
    → (num_at i (lookup same_bytes path (note_mapping r d))
        ≡ ite (same_bytes r.path path) (get_or r.nums i 0) 0 + num_at i (lookup same_bytes path d))
      × IsLong n (lookup same_bytes path (note_mapping r d))
unfolding note_mapping
step-num_at n i path r d e long =
    rw (lookup-insert same_bytes r.path path (add_or (lookup same_bytes r.path d) r.nums) d)
      (by_dec n i r.path path (same_bytes r.path path) (λ p. lookup same_bytes p d) r.nums long e)

grouped-num_at :
    (n i : ℕ) (path : Bytes) (it : List Mapping) (d : Groups)
    → AllLong n it
    → ((p : Bytes) → IsLong n (lookup same_bytes p d))
    → num_at i (lookup same_bytes path (grouped it d))
      ≡ sum_at i path it + num_at i (lookup same_bytes path d)
unfolding grouped sum_at
grouped-num_at n i path [] d h long = omega arith
grouped-num_at n i path (r ∷ it) d h long = omega (
  arith,
  grouped-num_at n i path it (note_mapping r d) h.1 (λ p. (step-num_at n i p r d h.0 long).1),
  (step-num_at n i path r d h.0 long).0,
)

-- If every region has the same number of amounts, each amount that memory_maps reports of a path, grouped, is
-- the sum of those amounts of the regions of that path.
pub grouped-sum_at :
    (n i : ℕ) (path : Bytes) (it : List Mapping)
    → AllLong n it
    → num_at i (lookup same_bytes path (grouped it [])) ≡ sum_at i path it
unfolding lookup
grouped-sum_at n i path it h = omega (arith, grouped-num_at n i path it [] h (λ p. tt))
