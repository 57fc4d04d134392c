-- ===== src/Environ/RoundTrip.antt =====
-- An environment is read back from its block, and every block is read.
use psutil.Prelude.{
  ℕ, zero, suc, ◌+◌, ◌<◌, ◌≡◌, ◌≢◌, refl, ap, ◌∙◌, Bool, false, Option, none, some, [], ◌∷◌, ◌++◌,
  arith, length, length-append, take, drop, length-drop, Option-cases, inl, inr,
}
use mathlib.Core.List.{append_assoc, append-nil}
use psutil.Prelude.Dict.{lookup, insert, insert_absent}
use psutil.Text.{Bytes, find, contains}
use psutil.Text.Search.{find-append, take-append, drop-append_more}
use psutil.Environ.{Environ, same_bytes, assigned, after_find, environ_loop, parse_environ_block}

-- "key=value"
unfoldable pub assignment : Bytes → Bytes → Bytes
assignment key value = key ++ (b'=' ∷ value)

-- Each assignment with a NUL behind it, one more NUL, and whatever follows.
unfoldable pub block : Environ → Bytes → Bytes
unfolding assignment
block [] garbage = 0 ∷ garbage
block ((key, value) ∷ env) garbage = assignment key value ++ (0 ∷ block env garbage)

-- Keys are not empty and hold neither `=` nor NUL, values hold no NUL, and no key comes twice or is in
-- `before`.
abbrev pub IsEnviron : Environ → Environ → Type 0
IsEnviron before [] = Unit
IsEnviron before ((key, value) ∷ env) =
    (key ≢ [])
    × (contains b'=' key ≡ false)
    × (contains 0 key ≡ false)
    × (contains 0 value ≡ false)
    × (lookup same_bytes key before ≡ none)
    × IsEnviron (before ++ ((key, value) ∷ [])) env

contains-assignment :
    (key value : Bytes)
    → contains 0 key ≡ false
    → contains 0 value ≡ false
    → contains 0 (assignment key value) ≡ false
unfolding assignment contains
contains-assignment [] value h k = k
contains-assignment (c ∷ key) value h k = ground (arith, h, contains-assignment key value)

assigned-assignment :
    (key value : Bytes) (ret : Environ)
    → key ≢ []
    → contains b'=' key ≡ false
    → assigned false (assignment key value) (find b'=' (assignment key value)) ret
      ≡ insert same_bytes key value ret
unfolding assignment
assigned-assignment [] value ret ne h = absurd (ne refl)
assigned-assignment (c ∷ key) value ret ne h =
    rw
      (
        find-append b'=' (c ∷ key) value h,
        take-append (c ∷ key) (b'=' ∷ value),
        drop-append_more (c ∷ key) (b'=' ∷ value) 1,
      )
      refl

after_find_pos :
    (n : ℕ) (ret : Environ) (go : ℕ → Option Environ) → 0 < n → after_find (some n) ret go ≡ go n
after_find_pos zero ret go h = absurd (omega arith)
after_find_pos (suc n) ret go h = refl

assignment_pos : (key value : Bytes) → key ≢ [] → 0 < length (assignment key value)
unfolding assignment
assignment_pos [] value h = absurd (h refl)
assignment_pos (c ∷ key) value h = omega arith

-- One round of the loop, over one assignment.
environ_loop-assignment :
    (fuel : ℕ) (key value rest : Bytes) (ret : Environ)
    → key ≢ []
    → contains b'=' key ≡ false
    → contains 0 key ≡ false
    → contains 0 value ≡ false
    → environ_loop (suc fuel) false (assignment key value ++ (0 ∷ rest)) ret
      ≡ environ_loop fuel false rest (insert same_bytes key value ret)
unfolding environ_loop
environ_loop-assignment fuel key value rest ret ne h k l =
    let line : Bytes = assignment key value ++ (0 ∷ rest) in
    let go : ℕ → Option Environ = λ n.
      environ_loop fuel false (drop (n + 1) line)
        (assigned false (take n line) (find b'=' (take n line)) ret) in
    rw
      (
        find-append 0 (assignment key value) rest (contains-assignment key value k l),
        after_find_pos (length (assignment key value)) ret go (assignment_pos key value ne),
        take-append (assignment key value) (0 ∷ rest),
        drop-append_more (assignment key value) (0 ∷ rest) 1,
        assigned-assignment key value ret ne h,
      )
      refl

environ_loop-block :
    (env : Environ) (garbage : Bytes) (fuel : ℕ) (ret : Environ)
    → IsEnviron ret env
    → length env < fuel
    → environ_loop fuel false (block env garbage) ret ≡ some (ret ++ env)
unfolding block
environ_loop-block env garbage zero ret h enough = absurd (omega arith)
environ_loop-block [] garbage (suc fuel) ret h enough =
    unfold environ_loop find in rw (append-nil) refl
environ_loop-block ((key, value) ∷ env) garbage (suc fuel) ret (ne, h, k, l, new, more) enough =
    environ_loop-assignment fuel key value (block env garbage) ret ne h k l
    ∙ ap (environ_loop fuel false (block env garbage)) (insert_absent same_bytes key value ret new)
    ∙ environ_loop-block env garbage fuel (ret ++ ((key, value) ∷ [])) more (omega arith)
    ∙ ap some (append_assoc ret ((key, value) ∷ []) env)

length-block : (env : Environ) (garbage : Bytes) → length env < length (block env garbage)
unfolding block assignment
length-block [] garbage = omega arith
length-block ((key, value) ∷ env) garbage =
    omega (
      arith,
      length-block env garbage,
      length-append (key ++ (b'=' ∷ value)) (0 ∷ block env garbage),
    )

-- Elsewhere than on Windows, where keys are not turned into upper case, an environment with keys that are
-- not empty and hold neither `=` nor NUL, values without NUL, and no key twice, is read back from its
-- block, in order, whatever garbage follows the block.
pub parse_environ_block-block :
    (env : Environ) (garbage : Bytes)
    → IsEnviron [] env
    → parse_environ_block false (block env garbage) ≡ some env
unfolding parse_environ_block
parse_environ_block-block env garbage h =
    environ_loop-block env garbage (suc (length (block env garbage))) [] h
      (omega (arith, length-block env garbage))

find_lt : (c : ℕ) (s : Bytes) (n : ℕ) → find c s ≡ some n → n < length s
unfolding find
find_lt c [] n h = cc
find_lt c (d ∷ s) n h = elim (Option-cases (find c s)) [
  | inl e ↦ ground (arith, h, e)
  | inr (m, e) ↦ ground (arith, h, e, find_lt c s m e)
]

environ_loop_total :
    (fuel : ℕ) (windows : Bool) (rest : Bytes) (ret : Environ)
    → length rest < fuel
    → environ_loop fuel windows rest ret ≢ none
unfolding environ_loop
environ_loop_total zero windows rest ret h = absurd (omega arith)
environ_loop_total (suc fuel) windows rest ret h = elim (Option-cases (find 0 rest)) [
  | inl e ↦ rw (e) (λ q. cc)
  | inr (zero, e) ↦ rw (e) (λ q. cc)
  | inr (suc n, e) ↦ rw (e) (
      environ_loop_total fuel windows (drop (suc n + 1) rest) _
        (omega (arith, length-drop (suc n + 1) rest, find_lt 0 rest (suc n) e)))
]

-- The loop ends for every block, however it is cut or garbled.
pub parse_environ_block_total : (windows : Bool) (s : Bytes) → parse_environ_block windows s ≢ none
unfolding parse_environ_block
parse_environ_block_total windows s = environ_loop_total (suc (length s)) windows s [] (omega arith)
