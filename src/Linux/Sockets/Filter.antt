-- ===== src/Linux/Sockets/Filter.antt =====
-- The connections of one process are those of the system that belong to it.
use psutil.Prelude.{
  ℕ, ◌≡◌, refl, ap, sym, ◌∙◌, Bool, Option, none, some, List, [], ◌∷◌, Result, ok, ◌>>=◌,
  if◌then◌else◌, arith, Result-cases, true, ◌⊎◌, inl, inr, elem, ok-injective, AllOk, any-AllOk,
  ok-AllOk,
}
use psutil.Prelude.Dict.{lookup}
use psutil.Text.{Bytes, words}
use psutil.Environ.{same_bytes}
use psutil.Linux.Addresses.{Family, decode_address}
use psutil.Linux.Files.{value}
use psutil.Linux.Sockets.Owners.{SameOwner, Unshared, get_all_inodes-SameOwner}
use psutil.Linux.Sockets.{
  Inodes, Fds, get_proc_inodes, get_all_inodes, SockType, Conn, owner, filtered, status_of,
  inet_conn, ten_tokens, inet_tokens, yield_some, process_inet,
}

-- The connections of process `p`.
unfoldable pub of_process : ℕ → List Conn → List Conn
of_process p [] = []
of_process p (c ∷ l) =
    let rest = of_process p l in if filtered (some p) c.pid then rest else c ∷ rest

of_process_nil : (p : ℕ) → of_process p [] ≡ []
unfolding of_process
of_process_nil p = refl

inet_conn-AllOk :
    (little : Bool) (family : Family) (sock_type : SockType) (who : Option ℕ × Option ℕ)
    (laddr raddr code : Bytes)
    → AllOk (λ c. c.pid ≡ who.0) (inet_conn little family sock_type who laddr raddr code)
unfolding inet_conn
inet_conn-AllOk little family sock_type (pid, fd) laddr raddr code =
    let P : Conn → Type 0 = λ c. c.pid ≡ pid in
    any-AllOk P (status_of sock_type code) _ (λ status.
      any-AllOk P (decode_address little family laddr) _
        (λ l. any-AllOk P (decode_address little family raddr) _ (λ r. refl)))

-- With `own` as the inodes of process `p` and `all` as those of the system.
module _ (little : Bool) (family : Family) (sock_type : SockType) (p : ℕ) (own all : Inodes)
    (same_owner : (i : Bytes) → SameOwner p own all i) where
  -- One line that makes a connection, or would make one without the filter.
  kept : Conn → Option Conn
  kept c = if filtered (some p) c.pid then none else some c

  abbrev all_lines : List Bytes → Result (List Conn)
  all_lines = process_inet little family sock_type all none

  abbrev one_of_all : Option (Bytes × Bytes × Bytes × Bytes) → Result (Option Conn)
  one_of_all = inet_tokens little family sock_type all none

  abbrev one_of_own : Option (Bytes × Bytes × Bytes × Bytes) → Result (Option Conn)
  one_of_own = inet_tokens little family sock_type own (some p)

  -- The line's socket has the owner `who` in the dict of `p`, and is `d` in the full run.
  choose :
      (who a : Option ℕ × Option ℕ) (d : Conn) (r : Option ℕ × Option ℕ → Result Conn)
      → (who ≡ a) ⊎ ((filtered (some p) who.0 ≡ true) × (filtered (some p) a.0 ≡ true))
      → r a ≡ ok d
      → d.pid ≡ a.0
      → (if filtered (some p) who.0 then ok none else (r who >>= (λ (c : Conn). ok (some c))))
        ≡ ok (kept d)
  unfolding kept
  choose who a d r (inl same) e q = rw (same, e, q) (ground arith)
  choose who a d r (inr (f, g)) e q = rw (f, q, g) refl

  one-kept :
      (t : Option (Bytes × Bytes × Bytes × Bytes)) (c : Option Conn)
      → one_of_all t ≡ ok c
      → (d : Conn) × (c ≡ some d) × (one_of_own t ≡ ok (kept d))
  one-kept none c h = cc
  one-kept (some (laddr, raddr, code, inode)) c h =
      let a = owner (lookup same_bytes inode all) in
      let conn : Option ℕ × Option ℕ → Result Conn =
        λ who. inet_conn little family sock_type who laddr raddr code in
      elim (Result-cases (conn a)) [
        | inr (x, e) ↦ absurd (ground (arith, rw e at h))
        | inl (d, e) ↦ (
          d,
          sym (ok-injective (some d) c (rw e at h)),
          choose (owner (lookup same_bytes inode own)) a d conn (same_owner inode) e (
              ok-AllOk (λ (c : Conn). c.pid ≡ a.0) (conn a) d e
                (inet_conn-AllOk little family sock_type a laddr raddr code)),
        )
      ]

  yield_some-kept :
      (d : Conn) (l : List Conn) → yield_some (kept d) (of_process p l) ≡ of_process p (d ∷ l)
  unfolding kept of_process
  yield_some-kept d l = ground arith

  -- If every line is read, the run that selects a process yields exactly the connections of the full run
  -- that belong to it.
  process_inet-SameOwner :
      (lines : List Bytes) (l : List Conn)
      → process_inet little family sock_type all none lines ≡ ok l
      → process_inet little family sock_type own (some p) lines ≡ ok (of_process p l)
  unfolding process_inet
  process_inet-SameOwner [] l h = ground (arith, h, of_process_nil p)
  process_inet-SameOwner (line ∷ lines) l h =
      elim (Result-cases (one_of_all (ten_tokens (words line)))) [
        | inr (x, e) ↦ absurd (ground (arith, rw e at h))
        | inl (c, e) ↦ elim (Result-cases (all_lines lines)) [
          | inr (x, f) ↦ absurd (ground (arith, rw (e, f) at h))
          | inl (m, f) ↦
              let (d, same, k) = one-kept (ten_tokens (words line)) c e in
              let read : yield_some c m ≡ l = ok-injective (yield_some c m) l (rw (e, f) at h) in
              rw (k, process_inet-SameOwner lines m f)
                (ap ok (yield_some-kept d m ∙ ap (of_process p) (rw same at read)))
        ]
      ]

-- If the sockets of a listed process `p` can be read and none of them is open in another process too, and
-- every line of /proc/net/tcp or udp is read, then on that state of the system the run for `p`, with the
-- inodes of `get_proc_inodes`, yields exactly the connections that the run for the whole system, with the
-- inodes of `get_all_inodes`, gives to `p`, in the same order.
pub process_inet-of_process :
    (little : Bool) (family : Family) (sock_type : SockType) (fds : ℕ → Fds) (pids : List ℕ) (p : ℕ)
    (own all : Inodes) (lines : List Bytes) (l : List Conn)
    → get_proc_inodes p (fds p) ≡ value own
    → get_all_inodes fds pids [] ≡ value all
    → elem p pids ≡ true
    → Unshared fds p own
    → process_inet little family sock_type all none lines ≡ ok l
    → process_inet little family sock_type own (some p) lines ≡ ok (of_process p l)
process_inet-of_process little family sock_type fds pids p own all lines l e f listed alone =
    process_inet-SameOwner little family sock_type p own all
      (get_all_inodes-SameOwner fds p pids own all e f listed alone) lines l
