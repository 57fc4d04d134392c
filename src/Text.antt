-- ===== src/Text.antt =====
-- Python's methods on `bytes` and `str` that the parsers use, on lists of bytes.
pub mod Split
pub mod Search
use Prim.Native.Char.{code}
use Prim.Native.String.{String}
use psutil.Prelude.{
  ℕ, zero, suc, ◌+◌, ◌-◌, ◌*◌, Bool, true, false, ◌&&◌, ◌||◌, not, Option, none, some, List, [],
  ◌∷◌, ◌++◌, map, Result, ok, err, Error, ◌>>=◌, ◌==◌, leb, ltb, if◌then◌else◌, take, drop, length,
}

abbrev pub Bytes : Type 0
Bytes = List ℕ

-- The bytes of an ASCII literal.
abbrev pub b : String → Bytes
b String.[] = []
b (String.◌∷◌ c s) = code c ∷ b s

-- `s == t`
unfoldable pub same : Bytes → Bytes → Bool
same [] [] = true
same [] (d ∷ t) = false
same (c ∷ s) [] = false
same (c ∷ s) (d ∷ t) = (c == d) && same s t

-- `s.startswith(t)`
unfoldable pub starts_with : Bytes → Bytes → Bool
starts_with s [] = true
starts_with [] (d ∷ t) = false
starts_with (c ∷ s) (d ∷ t) = (c == d) && starts_with s t

-- The bytes at which `split()` and `strip()` cut.
unfoldable pub is_space : ℕ → Bool
is_space c = c == b' ' || (leb 9 c && leb c 13)

unfoldable pub is_digit : ℕ → Bool
is_digit c = leb b'0' c && leb c b'9'

unfoldable pub push_head : ℕ → List Bytes → List Bytes
push_head c [] = (c ∷ []) ∷ []
push_head c (w ∷ ws) = (c ∷ w) ∷ ws

-- Cuts at every byte that satisfies `p`.
unfoldable pub split_where : (ℕ → Bool) → Bytes → List Bytes
unfolding push_head
split_where p [] = [] ∷ []
split_where p (c ∷ s) = let rest = split_where p s in if p c then [] ∷ rest else push_head c rest

-- `s.split(sep)`, for one byte
unfoldable pub split : ℕ → Bytes → List Bytes
unfolding split_where
split sep = split_where (λ c. c == sep)

unfoldable pub non_empty : List Bytes → List Bytes
non_empty [] = []
non_empty ([] ∷ ws) = non_empty ws
non_empty ((c ∷ w) ∷ ws) = (c ∷ w) ∷ non_empty ws

-- `s.split()`
unfoldable pub words : Bytes → List Bytes
unfolding split_where non_empty is_space
words s = non_empty (split_where is_space s)

-- `s.lstrip()`, `s.rstrip()` and `s.strip()`
unfoldable pub lstrip : Bytes → Bytes
unfolding is_space
lstrip [] = []
lstrip (c ∷ s) = let rest = lstrip s in if is_space c then rest else c ∷ s

abbrev keep_unless_blank : ℕ → Bytes → Bytes
keep_unless_blank c [] = if is_space c then [] else c ∷ []
keep_unless_blank c (d ∷ s) = c ∷ d ∷ s

unfoldable pub rstrip : Bytes → Bytes
unfolding is_space
rstrip [] = []
rstrip (c ∷ s) = keep_unless_blank c (rstrip s)

unfoldable pub strip : Bytes → Bytes
unfolding lstrip rstrip
strip s = rstrip (lstrip s)

abbrev pub next : Option ℕ → Option ℕ
next none = none
next (some i) = some (suc i)

abbrev later : Option ℕ → ℕ → Bool → Option ℕ
later (some i) c here = some (suc i)
later none c true = some 0
later none c false = none

-- `s.find(c)` and `s.rfind(c)`; `none` is -1.
unfoldable pub find : ℕ → Bytes → Option ℕ
find c [] = none
find c (d ∷ s) = let rest = find c s in if d == c then some 0 else next rest

unfoldable pub rfind : ℕ → Bytes → Option ℕ
rfind c [] = none
rfind c (d ∷ s) = later (rfind c s) c (d == c)

-- `s[i + n:]`, of what `find` or `rfind` found; with -1 the slice starts at n - 1.
abbrev pub slice_from : Option ℕ → ℕ → Bytes → Bytes
slice_from none n s = drop (n - 1) s
slice_from (some i) n s = drop (i + n) s

-- `s[:i]`; with -1 the last byte is left out.
abbrev pub slice_to : Option ℕ → Bytes → Bytes
slice_to none s = take (length s - 1) s
slice_to (some i) s = take i s

-- `c in s`
unfoldable pub contains : ℕ → Bytes → Bool
contains c [] = false
contains c (d ∷ s) = let rest = contains c s in if d == c then true else rest

-- The value of a digit in a base up to 16.
unfoldable pub digit : ℕ → Option ℕ
digit c =
    if leb b'0' c && leb c b'9'
    then some (c - b'0')
    else if leb b'A' c && leb c b'F'
    then some (c - 55)
    else if leb b'a' c && leb c b'f'
    then some (c - 87)
    else none

abbrev pub add_digit : ℕ → Option ℕ → ℕ → Result ℕ
add_digit base none n = err Error.value_error
add_digit base (some d) n = if ltb d base then ok (n * base + d) else err Error.value_error

-- The digits of `int(s, base)` after the number `n` was read.
unfoldable pub to_int_from : ℕ → ℕ → Bytes → Result ℕ
unfolding digit
to_int_from base n [] = ok n
to_int_from base n (c ∷ s) = do m ← add_digit base (digit c) n; to_int_from base m s

abbrev pub to_int_digits : ℕ → Bytes → Result ℕ
to_int_digits base [] = err Error.value_error
to_int_digits base (c ∷ s) = to_int_from base 0 (c ∷ s)

-- `int(s, base)`, of texts that are digits between blanks: a sign, a prefix or `_` give `ValueError`
-- here.
unfoldable pub to_int : ℕ → Bytes → Result ℕ
unfolding to_int_from strip
to_int base s = to_int_digits base (strip s)

-- `s.endswith(c)` and `s[:-1]`
unfoldable pub ends_with : ℕ → Bytes → Bool
ends_with c [] = false
ends_with c (d ∷ []) = d == c
ends_with c (d ∷ e ∷ s) = ends_with c (e ∷ s)

unfoldable pub all_but_last : Bytes → Bytes
all_but_last [] = []
all_but_last (c ∷ []) = []
all_but_last (c ∷ d ∷ s) = c ∷ all_but_last (d ∷ s)

-- `s.upper()`, of ASCII
unfoldable pub upper : Bytes → Bytes
upper [] = []
upper (c ∷ s) = (if leb b'a' c && leb c b'z' then c - 32 else c) ∷ upper s
