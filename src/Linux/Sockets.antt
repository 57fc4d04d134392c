-- ===== src/Linux/Sockets.antt =====
-- psutil/_pslinux.py: the rest of `NetConnections`. An inode is its digits, a connection the named
-- tuple `sconn`, with the PID that `pconn` leaves out.
pub mod Filter
pub mod Inodes
pub mod Tables
pub mod Owners
use psutil.Prelude.{
  ℕ, zero, suc, ◌+◌, Bool, true, false, ◌&&◌, not, Option, none, some, List, [], ◌∷◌, ◌++◌, Result,
  ok, err, Error, ◌>>=◌, ◌==◌, ltb, if◌then◌else◌, get_elem?, length, drop, ite, map,
}
use psutil.Prelude.Dict.{Dict, lookup, insert}
use psutil.Text.{Bytes, b, same, starts_with, words, to_int, all_but_last, contains}
use psutil.Environ.{same_bytes}
use psutil.Linux.Files.{OsError, Read, content, failed, Raised, raw, known, Outcome, value, raised}
use psutil.Linux.Addresses.{Family, inet, inet6, unix, decode_address}

-- Which process has a socket open, and under which file descriptor.
abbrev pub Inodes : Type 0
Inodes = Dict Bytes (List (ℕ × ℕ))

abbrev or_empty : Option (List (ℕ × ℕ)) → List (ℕ × ℕ)
or_empty none = []
or_empty (some l) = l

-- `inodes[inode].append((pid, int(fd)))`, of a link "socket:[inode]"
abbrev pub note_socket : ℕ → ℕ → Bytes → Inodes → Inodes
note_socket pid fd link inodes =
    let inode = all_but_last (drop 8 link) in
    insert same_bytes inode (or_empty (lookup same_bytes inode inodes) ++ ((pid, fd) ∷ [])) inodes

abbrev pub note_link : ℕ → ℕ → Read Bytes → Inodes → Outcome Inodes
note_link pid fd (content link) inodes =
    value (if starts_with link (b "socket:[") then note_socket pid fd link inodes else inodes)
note_link pid fd (failed OsError.not_found) inodes = value inodes
note_link pid fd (failed OsError.lookup) inodes = value inodes
note_link pid fd (failed OsError.invalid) inodes = value inodes
note_link pid fd (failed OsError.name_too_long) inodes = value inodes
note_link pid fd (failed OsError.permission) inodes = raised (raw OsError.permission)
note_link pid fd (failed OsError.other) inodes = raised (raw OsError.other)

abbrev pub and_then : {A B : Type 0} → Outcome A → (A → Outcome B) → Outcome B
and_then (value a) f = f a
and_then (raised e) f = raised e

-- The loop of `get_proc_inodes` over the file descriptors and their links.
unfoldable pub note_links : ℕ → List (ℕ × Read Bytes) → Inodes → Outcome Inodes
unfolding starts_with all_but_last same_bytes
note_links pid [] inodes = value inodes
note_links pid ((fd, link) ∷ links) inodes =
    and_then (note_link pid fd link inodes) (note_links pid links)

abbrev pub Fds : Type 0
Fds = Read (List (ℕ × Read Bytes))

-- `get_proc_inodes`, of what listing the `fd` directory comes to.
unfoldable pub get_proc_inodes : ℕ → Fds → Outcome Inodes
unfolding note_links
get_proc_inodes pid (failed e) = raised (raw e)
get_proc_inodes pid (content links) = note_links pid links []

-- `dict.update`
unfoldable pub update : Inodes → Inodes → Inodes
unfolding same_bytes
update inodes [] = inodes
update inodes ((inode, pairs) ∷ more) = update (insert same_bytes inode pairs inodes) more

-- One round of `get_all_inodes`.
abbrev pub merge : Inodes → Outcome Inodes → Outcome Inodes
merge inodes (value more) = value (update inodes more)
merge inodes (raised (raw OsError.not_found)) = value inodes
merge inodes (raised (raw OsError.lookup)) = value inodes
merge inodes (raised (raw OsError.permission)) = value inodes
merge inodes (raised (raw OsError.invalid)) = raised (raw OsError.invalid)
merge inodes (raised (raw OsError.name_too_long)) = raised (raw OsError.name_too_long)
merge inodes (raised (raw OsError.other)) = raised (raw OsError.other)
merge inodes (raised (known e)) = raised (known e)

unfoldable pub get_all_inodes : (ℕ → Fds) → List ℕ → Inodes → Outcome Inodes
unfolding get_proc_inodes update
get_all_inodes fds [] inodes = value inodes
get_all_inodes fds (pid ∷ pids) inodes =
    and_then (merge inodes (get_proc_inodes pid (fds pid))) (get_all_inodes fds pids)

-- The two ends: an address of IPv4 or IPv6 where there is one, or a path.
pub data End : Type 0 where
  address : Option (Bytes × ℕ) → End
  path : Bytes → End

-- `SOCK_STREAM`, `SOCK_DGRAM`, or the number in /proc/net/unix
pub data SockType : Type 0 where
  stream dgram : SockType
  number : ℕ → SockType

pub record Conn : Type 0 where
  pub fd : Option ℕ
  pub family : Family
  pub sock_type : SockType
  pub laddr : End
  pub raddr : End
  pub status : Bytes
  pub pid : Option ℕ

-- `TCP_STATUSES`, by name
unfoldable pub tcp_statuses : Dict Bytes Bytes
tcp_statuses =
    (b "01", b "ESTABLISHED")
    ∷ (b "02", b "SYN_SENT")
    ∷ (b "03", b "SYN_RECV")
    ∷ (b "04", b "FIN_WAIT1")
    ∷ (b "05", b "FIN_WAIT2")
    ∷ (b "06", b "TIME_WAIT")
    ∷ (b "07", b "CLOSE")
    ∷ (b "08", b "CLOSE_WAIT")
    ∷ (b "09", b "LAST_ACK")
    ∷ (b "0A", b "LISTEN")
    ∷ (b "0B", b "CLOSING")
    ∷ []

abbrev no_status : Bytes
no_status = b "NONE"

abbrev or_key_error : Option Bytes → Result Bytes
or_key_error none = err Error.key_error
or_key_error (some s) = ok s

abbrev pub status_of : SockType → Bytes → Result Bytes
status_of SockType.stream code = or_key_error (lookup same_bytes code tcp_statuses)
status_of SockType.dgram code = ok no_status
status_of (SockType.number n) code = ok no_status

-- `inodes[inode][0]` where the inode is known, whose list is never empty; `none` stands for the
-- descriptor -1.
abbrev pub owner : Option (List (ℕ × ℕ)) → Option ℕ × Option ℕ
owner none = (none, none)
owner (some []) = (none, none)
owner (some ((pid, fd) ∷ l)) = (some pid, some fd)

-- `filter_pid is not None and filter_pid != pid`
abbrev pub filtered : Option ℕ → Option ℕ → Bool
filtered none pid = false
filtered (some p) none = true
filtered (some p) (some q) = not (p == q)

-- The part of the loop of `process_inet` behind the filter.
unfoldable pub inet_conn :
    Bool → Family → SockType → Option ℕ × Option ℕ → Bytes → Bytes → Bytes → Result Conn
unfolding tcp_statuses decode_address
inet_conn little family sock_type (pid, fd) laddr raddr code = do
  status ← status_of sock_type code
  l ← decode_address little family laddr
  r ← decode_address little family raddr
  ok (record {
    fd = fd;
    family = family;
    sock_type = sock_type;
    laddr = address l;
    raddr = address r;
    status = status;
    pid = pid;
  })

-- `_, laddr, raddr, status, _, _, _, _, _, inode = line.split()[:10]`; `none` is `ValueError`.
unfoldable pub ten_tokens : List Bytes → Option (Bytes × Bytes × Bytes × Bytes)
ten_tokens (t0 ∷ laddr ∷ raddr ∷ status ∷ t4 ∷ t5 ∷ t6 ∷ t7 ∷ t8 ∷ inode ∷ more) =
    some (laddr, raddr, status, inode)
ten_tokens _ = none

abbrev pub yield_some : Option Conn → List Conn → List Conn
yield_some none l = l
yield_some (some c) l = c ∷ l

-- What the section's functions are about: the byte order, the family and type of the sockets, the inodes
-- and the PID to select.
module _ (little : Bool) (family : Family) (sock_type : SockType) (inodes : Inodes)
    (filter_pid : Option ℕ) where
  abbrev pub inet_tokens : Option (Bytes × Bytes × Bytes × Bytes) → Result (Option Conn)
  inet_tokens none = err Error.runtime_error
  inet_tokens (some (laddr, raddr, status, inode)) =
      let who = owner (lookup same_bytes inode inodes) in
      if filtered filter_pid who.0
      then ok none
      else (do c ← inet_conn little family sock_type who laddr raddr status; ok (some c))

  -- `process_inet`, of the lines behind the first. A system without IPv6, whose addresses the source skips
  -- when they cannot be printed, is left out.
  unfoldable pub process_inet : List Bytes → Result (List Conn)
  unfolding words ten_tokens inet_conn same_bytes
  process_inet [] = ok []
  process_inet (line ∷ lines) = do
    c ← inet_tokens (ten_tokens (words line))
    rest ← process_inet lines
    ok (yield_some c rest)

  abbrev pub no_pair : List Conn → Error → Result (List Conn)
  no_pair [] e = ok []
  no_pair (c ∷ l) e = err e

  -- The loop over `pairs`, with the type and the path of the line.
  unfoldable pub unix_conns : ℕ → Bytes → List (Option ℕ × Option ℕ) → List Conn
  unix_conns n name [] = []
  unix_conns n name ((pid, fd) ∷ pairs) =
      let rest = unix_conns n name pairs in
      if filtered filter_pid pid
      then rest
      else (record {
        fd = fd;
        family = family;
        sock_type = SockType.number n;
        laddr = path name;
        raddr = path [];
        status = no_status;
        pid = pid;
      })
        ∷ rest

  -- `int(type_)` is only computed for a pair that is not filtered out.
  abbrev pub typed : List (Option ℕ × Option ℕ) → Result ℕ → Bytes → Result (List Conn)
  typed pairs (ok n) name = ok (unix_conns n name pairs)
  typed pairs (err e) name = no_pair (unix_conns 0 name pairs) e

  abbrev pub pairs_of : Option (List (ℕ × ℕ)) → List (Option ℕ × Option ℕ)
  pairs_of none = (none, none) ∷ []
  pairs_of (some l) = map (λ q. (some q.0, some q.1)) l

  -- `tokens[-1] if len(tokens) == 8 else ''`
  abbrev pub path_of : List Bytes → Bytes
  path_of (name ∷ []) = name
  path_of _ = []

  abbrev pub unix_tokens : Bytes → List Bytes → Result (List Conn)
  unix_tokens line (t0 ∷ t1 ∷ t2 ∷ t3 ∷ type_ ∷ t5 ∷ inode ∷ more) =
      typed (pairs_of (lookup same_bytes inode inodes)) (to_int 10 type_) (path_of more)
  unix_tokens line _ = if contains b' ' line then err Error.runtime_error else ok []

  -- `process_unix`, of the lines behind the first.
  unfoldable pub process_unix : List Bytes → Result (List Conn)
  unfolding words unix_conns same_bytes to_int contains
  process_unix [] = ok []
  process_unix (line ∷ lines) = do
    l ← unix_tokens line (words line)
    rest ← process_unix lines
    ok (l ++ rest)
