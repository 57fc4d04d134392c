-- ===== src/Tests/Pids.antt =====
-- A PID, and the ID of a thread of another process.
use psutil.Prelude.{◌≡◌, ◌⊎◌, refl, true, false, List, [], ◌∷◌, ok, elem}
use psutil.Text.{Bytes, b, starts_with, words, to_int, digit, strip, is_digit}
use psutil.Linux.Files.{content}
use psutil.Linux.Pids.{pids, all_digits, tgid_of, pid_exists}
use psutil.Linux.Pids.Exists.{pid_exists-listed}

abbrev status : List Bytes
status = b "Name: sh" ∷ b "Tgid: 42" ∷ b "Pid: 42" ∷ []

two_pids : pids (b "42" ∷ b "self" ∷ b "7" ∷ []) ≡ ok (42 ∷ 7 ∷ [])
unfolding pids all_digits is_digit to_int digit strip
two_pids = refl

thread : pid_exists (ok true) (content status) (ok (42 ∷ [])) 43 ≡ ok false
unfolding pid_exists tgid_of starts_with words to_int digit strip
thread = refl

pid_exists-listed_run :
    (ok true ≡ ok true)
    × (((lines : List Bytes) × (content status ≡ content lines) × (tgid_of lines ≡ ok 42))
        ⊎ (elem 42 [] ≡ true))
unfolding pid_exists tgid_of starts_with words to_int digit strip
pid_exists-listed_run = pid_exists-listed (ok true) (content status) [] 42 refl
