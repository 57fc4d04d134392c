-- ===== src/Linux/Cpus/Lists.antt =====
-- CPU lists are read back, and what `cpu_affinity_set` lets through.
use psutil.Prelude.{
  ℕ, ◌+◌, ◌-◌, ◌≡◌, ◌≢◌, ◌≤◌, ◌<◌, refl, Bool, true, false, ◌||◌, not, Option, none, List, [], ◌∷◌,
  ◌++◌, ok, Error, ◌==◌, ltb, arith, elem, Bool-cases, inl, inr,
}
use psutil.Text.{Bytes, find, contains, strip, lstrip, rstrip, to_int, is_space, split, split_where}
use psutil.Text.Split.{Uncut, AllUncut, join, split_where-join}
use psutil.Text.Search.{find-append, take-append, drop-append_more}
use psutil.Linux.Files.{OsError, Outcome, raised, known, raw}
use psutil.Linux.Cpus.{
  range_from, span, chunk_cpus, all_chunks, unless_empty, parse_cpulist, eligible_cpus,
  first_invalid, cpu_affinity_set,
}

lstrip-Uncut : (s : Bytes) → Uncut is_space s → lstrip s ≡ s
unfolding lstrip
lstrip-Uncut [] h = refl
lstrip-Uncut (c ∷ s) h = rw (h.0) refl

rstrip-Uncut : (s : Bytes) → Uncut is_space s → rstrip s ≡ s
unfolding rstrip
rstrip-Uncut [] h = refl
rstrip-Uncut (c ∷ []) h = rw (h.0) refl
rstrip-Uncut (c ∷ d ∷ s) h = rw (rstrip-Uncut (d ∷ s) h.1) refl

strip-Uncut : (s : Bytes) → Uncut is_space s → strip s ≡ s
unfolding strip
strip-Uncut s h = rw (lstrip-Uncut s h) (rstrip-Uncut s h)

append-Uncut : (p : ℕ → Bool) (s t : Bytes) → Uncut p s → Uncut p t → Uncut p (s ++ t)
append-Uncut p [] t h k = k
append-Uncut p (c ∷ s) t h k = (h.0, append-Uncut p s t h.1 k)

join-Uncut :
    (p : ℕ → Bool) (sep : ℕ) (ws : List Bytes)
    → p sep ≡ false
    → AllUncut p ws
    → Uncut p (join sep ws)
unfolding join
join-Uncut p sep [] e h = tt
join-Uncut p sep (w ∷ []) e h = h.0
join-Uncut p sep (w ∷ v ∷ ws) e h =
    append-Uncut p w (sep ∷ join sep (v ∷ ws)) h.0 (e, join-Uncut p sep (v ∷ ws) e h.1)

-- A chunk, and the CPUs it stands for: one number, or two with a dash between them.
pub data IsChunk : Bytes → List ℕ → Type 0 where
  one :
      (c : ℕ) (w : Bytes) (n : ℕ)
      → contains b'-' (c ∷ w) ≡ false
      → to_int 10 (c ∷ w) ≡ ok n
      → IsChunk (c ∷ w) (n ∷ [])
  range :
      (c : ℕ) (v w : Bytes) (m n : ℕ)
      → contains b'-' (c ∷ v) ≡ false
      → to_int 10 (c ∷ v) ≡ ok m
      → to_int 10 w ≡ ok n
      → m ≤ n
      → IsChunk ((c ∷ v) ++ (b'-' ∷ w)) (range_from m (n + 1 - m))

pub data AreChunks : List Bytes → List ℕ → Type 0 where
  no_chunk : AreChunks [] []
  more :
      {w : Bytes} {ws : List Bytes} {cpus rest : List ℕ}
      → IsChunk w cpus
      → AreChunks ws rest
      → AreChunks (w ∷ ws) (cpus ++ rest)

find-contains : (c : ℕ) (s : Bytes) → contains c s ≡ false → find c s ≡ none
unfolding find contains
find-contains c [] h = refl
find-contains c (d ∷ s) h = ground (arith, h, find-contains c s)

span_le : (m n : ℕ) → m ≤ n → span m n ≡ ok (range_from m (n + 1 - m))
span_le m n h = ground (arith, h)

chunk_cpus-IsChunk : (w : Bytes) (cpus : List ℕ) → IsChunk w cpus → chunk_cpus w ≡ ok cpus
chunk_cpus-IsChunk _ _ (one c w n h e) = rw (find-contains b'-' (c ∷ w) h, e) refl
chunk_cpus-IsChunk _ _ (range c v w m n h e f le) =
    rw
      (
        find-append b'-' (c ∷ v) w h,
        take-append (c ∷ v) (b'-' ∷ w),
        drop-append_more (c ∷ v) (b'-' ∷ w) 1,
        e,
        f,
      )
      (span_le m n le)

all_chunks-AreChunks :
    (ws : List Bytes) (cpus : List ℕ)
    → AllUncut is_space ws
    → AreChunks ws cpus
    → all_chunks ws ≡ ok cpus
unfolding all_chunks
all_chunks-AreChunks _ _ u no_chunk = refl
all_chunks-AreChunks _ _ u (more {w} {ws} {cpus} {rest} h k) =
    rw (strip-Uncut w u.0, chunk_cpus-IsChunk w cpus h, all_chunks-AreChunks ws rest u.1 k) refl

unless_empty-eq : (s : Bytes) → unless_empty s ≡ all_chunks (split b',' s)
unfolding all_chunks split split_where strip lstrip rstrip
unless_empty-eq [] = refl
unless_empty-eq (c ∷ s) = refl

comma_is_no_space : is_space b',' ≡ false
unfolding is_space
comma_is_no_space = refl

split-join :
    (w : Bytes) (ws : List Bytes)
    → AllUncut (λ c. c == b',') (w ∷ ws)
    → split b',' (join b',' (w ∷ ws)) ≡ w ∷ ws
unfolding split
split-join w ws h = split_where-join (λ c. c == b',') b',' w ws h refl

-- A list of chunks without blanks and commas in them, each a number or two numbers in order with a dash
-- between them, is read, joined by commas, as the CPUs that the chunks stand for, in their order.
pub parse_cpulist-join :
    (w : Bytes) (ws : List Bytes) (cpus : List ℕ)
    → AllUncut is_space (w ∷ ws)
    → AllUncut (λ c. c == b',') (w ∷ ws)
    → AreChunks (w ∷ ws) cpus
    → parse_cpulist (join b',' (w ∷ ws)) ≡ ok cpus
unfolding parse_cpulist
parse_cpulist-join w ws cpus blank comma h =
    rw
      (
        strip-Uncut (join b',' (w ∷ ws))
            (join-Uncut is_space b',' (w ∷ ws) comma_is_no_space blank),
        unless_empty-eq (join b',' (w ∷ ws)),
        split-join w ws comma,
      )
      (all_chunks-AreChunks (w ∷ ws) cpus blank h)

-- CPUs that exist and on which the process may run.
abbrev pub AllValid : List ℕ → ℕ → List ℕ → Type 0
AllValid eligible n [] = Unit
AllValid eligible n (cpu ∷ cpus) = (cpu < n) × (elem cpu eligible ≡ true) × AllValid eligible n cpus

first_invalid-raw :
    (eligible : List ℕ) (n : ℕ) (x : OsError) (cpus : List ℕ)
    → first_invalid eligible n (raw x) cpus ≡ raised (raw x)
    → AllValid eligible n cpus
unfolding first_invalid
first_invalid-raw eligible n x [] h = tt
first_invalid-raw eligible n x (cpu ∷ cpus) h =
    elim (Bool-cases (not (ltb cpu n) || not (elem cpu eligible))) [
      | inl e ↦ absurd (ground (arith, rw e at h))
      | inr e ↦
          (ground (arith, e), ground (arith, e), first_invalid-raw eligible n x cpus (rw e at h))
    ]

first_invalid-known :
    (eligible : List ℕ) (n : ℕ) (e : Error) (x : OsError) (cpus : List ℕ)
    → first_invalid eligible n (known e) cpus ≢ raised (raw x)
unfolding first_invalid
first_invalid-known eligible n e x [] h = absurd (ground (arith, h))
first_invalid-known eligible n e x (cpu ∷ cpus) h =
    elim (Bool-cases (not (ltb cpu n) || not (elem cpu eligible))) [
      | inl f ↦ absurd (ground (arith, rw f at h))
      | inr f ↦ first_invalid-known eligible n e x cpus (rw f at h)
    ]

-- If cpu_affinity_set lets `EINVAL` of the C function out as it is, every CPU asked for exists and is
-- one of those that the process may run on.
pub cpu_affinity_set-AllValid :
    (answer : Outcome (Unit {0})) (allowed : Option Bytes) (n : ℕ) (cpus : List ℕ)
    → cpu_affinity_set answer allowed n cpus ≡ raised (raw OsError.invalid)
    → AllValid (eligible_cpus allowed n) n cpus
unfolding cpu_affinity_set
cpu_affinity_set-AllValid (raised (raw OsError.invalid)) allowed n cpus h =
    first_invalid-raw (eligible_cpus allowed n) n OsError.invalid cpus h
cpu_affinity_set-AllValid (raised (known Error.value_error)) allowed n cpus h =
    absurd
      (first_invalid-known (eligible_cpus allowed n) n Error.value_error OsError.invalid cpus h)
cpu_affinity_set-AllValid answer allowed n cpus h = absurd (ground (arith, h))
