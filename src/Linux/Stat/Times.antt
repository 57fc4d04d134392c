-- ===== src/Linux/Stat/Times.antt =====
-- The times of threads and processes.
use mathlib.Core.List.{append_assoc}
use psutil.Prelude.{
  ℕ, ◌+◌, ◌≡◌, refl, ◌∙◌, Bool, true, false, Option, none, some, List, [], ◌∷◌, ◌++◌, Result, ok,
  ◌>>=◌, inl, inr, Result-cases, ok-injective, ◌==◌, arith, length, drop,
}
use psutil.Text.{Bytes, find, contains, split, to_int, strip}
use psutil.Text.Split.{AllUncut, join, split_where-join}
use psutil.Text.Search.{find-append, drop-append_more}
use psutil.Linux.Stat.{Stat, field, thread_values, thread_times, linux_create_time, since_epoch}
use psutil.Linux.Stat.Lines.{front, contains-append}

-- The stripped stat file of a thread.
unfoldable pub thread_line : Bytes → Bytes → Bytes → List Bytes → Bytes
unfolding join
thread_line tid name w ws = front tid name ++ (b')' ∷ b' ' ∷ join b' ' (w ∷ ws))

module _ (tid name w : Bytes) (ws : List Bytes) where
  after-thread_line :
      drop (length (front tid name) + 2) (thread_line tid name w ws) ≡ join b' ' (w ∷ ws)
  unfolding thread_line
  after-thread_line = drop-append_more (front tid name) (b')' ∷ b' ' ∷ join b' ' (w ∷ ws)) 2

  find-thread_line :
      contains b')' tid ≡ false
      → contains b')' name ≡ false
      → find b')' (thread_line tid name w ws) ≡ some (length (front tid name))
  unfolding thread_line contains
  find-thread_line h k = find-append b')' (front tid name) (b' ' ∷ join b' ' (w ∷ ws)) (
      contains-append b')' (tid ++ (b' ' ∷ [])) (b'(' ∷ name)
        (contains-append b')' tid (b' ' ∷ []) h refl) k)

  pub thread_values-thread_line :
      contains b')' tid ≡ false
      → contains b')' name ≡ false
      → AllUncut (λ c. c == b' ') (w ∷ ws)
      → thread_values (thread_line tid name w ws) ≡ w ∷ ws
  unfolding thread_values split
  thread_values-thread_line h k u =
      rw (find-thread_line h k, after-thread_line)
        (split_where-join (λ c. c == b' ') b' ' w ws u refl)

-- A name with `) ` in it reads like a shorter name and one more field.
thread_line_name :
    (tid x y w : Bytes) (ws : List Bytes)
    → thread_line tid (x ++ (b')' ∷ b' ' ∷ y)) w ws ≡ thread_line tid x (y ++ (b')' ∷ [])) (w ∷ ws)
unfolding thread_line join
thread_line_name tid x y w ws = simp append_assoc

-- What `threads` should make of the fields behind the name.
unfoldable pub times_of : List Bytes → Result (ℕ × ℕ)
times_of fields = do
  u ← field fields 11
  utime ← to_int 10 u
  s ← field fields 12
  stime ← to_int 10 s
  ok (utime, stime)

-- A thread whose name holds no closing parenthesis gets the times of its own fields 11 and 12, which
-- are its user and system time.
pub thread_times-thread_line :
    (stat tid name w : Bytes) (ws : List Bytes)
    → strip stat ≡ thread_line tid name w ws
    → contains b')' tid ≡ false
    → contains b')' name ≡ false
    → AllUncut (λ c. c == b' ') (w ∷ ws)
    → thread_times stat ≡ times_of (w ∷ ws)
unfolding thread_times times_of
thread_times-thread_line stat tid name w ws e h k u =
    rw (e, thread_values-thread_line tid name w ws h k u) refl

-- A thread whose name is x, a closing parenthesis, a blank and y, with no such parenthesis in x and no
-- blank in y, gets the times of the fields before: its `cmajflt` as user and its user time as system
-- time, or an error if one of them is missing or no number.
pub thread_times_shifted :
    (stat tid x y w : Bytes) (ws : List Bytes)
    → strip stat ≡ thread_line tid (x ++ (b')' ∷ b' ' ∷ y)) w ws
    → contains b')' tid ≡ false
    → contains b')' x ≡ false
    → AllUncut (λ c. c == b' ') ((y ++ (b')' ∷ [])) ∷ w ∷ ws)
    → thread_times stat ≡ (
        field (w ∷ ws) 10 >>= (λ u.
          to_int 10 u
          >>= (λ utime. field (w ∷ ws) 11 >>= (λ s. to_int 10 s >>= (λ stime. ok (utime, stime))))))
unfolding times_of
thread_times_shifted stat tid x y w ws e h k u =
    thread_times-thread_line stat tid x (y ++ (b')' ∷ [])) (w ∷ ws)
      (e ∙ thread_line_name tid x y w ws) h k u

-- Once `create_time(monotonic=True)` has returned, it returns the same at any later call, whatever the
-- stat file holds by then; and every later answer with `monotonic=False` is that number and the boot
-- time of that moment.
pub linux_create_time_stable :
    (parsed parsed' : Result Stat) (boot boot' : Result ℕ) (c : Option ℕ) (m : Bool) (t : ℕ)
    → (linux_create_time true parsed boot c).0 ≡ ok t
    → linux_create_time m parsed' boot' (linux_create_time true parsed boot c).1
      ≡ (since_epoch m t boot', some t)
unfolding linux_create_time
linux_create_time_stable parsed parsed' boot boot' (some s) m t h = ground (arith, h)
linux_create_time_stable parsed parsed' boot boot' none m t h =
    elim (Result-cases (parsed >>= (λ (values : Stat). to_int 10 values.create_time))) [
      | inl (s, e) ↦ rw (e) (ground (arith, ok-injective s t (rw e at h)))
      | inr (x, e) ↦ absurd (ground (arith, rw e at h))
    ]
