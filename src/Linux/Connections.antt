-- ===== src/Linux/Connections.antt =====
-- psutil/_pslinux.py: `NetConnections.tmap` and `retrieve`, `net_connections` and
-- `Process.net_connections`. The set of connections that is returned is given as the list of what is
-- added to it.
pub mod Kinds
use psutil.Prelude.{
  ℕ, Bool, true, false, Option, none, some, List, [], ◌∷◌, ◌++◌, Result, ok, err, ◌>>=◌,
  if◌then◌else◌,
}
use psutil.Text.{Bytes}
use psutil.Linux.Files.{Read, content, failed, raw, known, Outcome, value, raised}
use psutil.Linux.Addresses.{Family}
use psutil.Linux.Sockets.{
  Inodes, Fds, SockType, stream, dgram, number, Conn, get_proc_inodes, get_all_inodes, process_inet,
  process_unix, and_then,
}

pub data Kind : Type 0 where
  all tcp tcp4 tcp6 udp udp4 udp6 unix inet inet4 inet6 : Kind

-- The five files of /proc/net.
pub data Proto : Type 0 where
  tcp4 tcp6 udp4 udp6 unix : Proto

-- `self.tmap[kind]`
unfoldable pub tmap : Kind → List Proto
tmap Kind.all = Proto.tcp4 ∷ Proto.tcp6 ∷ Proto.udp4 ∷ Proto.udp6 ∷ Proto.unix ∷ []
tmap Kind.tcp = Proto.tcp4 ∷ Proto.tcp6 ∷ []
tmap Kind.tcp4 = Proto.tcp4 ∷ []
tmap Kind.tcp6 = Proto.tcp6 ∷ []
tmap Kind.udp = Proto.udp4 ∷ Proto.udp6 ∷ []
tmap Kind.udp4 = Proto.udp4 ∷ []
tmap Kind.udp6 = Proto.udp6 ∷ []
tmap Kind.unix = Proto.unix ∷ []
tmap Kind.inet = Proto.tcp4 ∷ Proto.tcp6 ∷ Proto.udp4 ∷ Proto.udp6 ∷ []
tmap Kind.inet4 = Proto.tcp4 ∷ Proto.udp4 ∷ []
tmap Kind.inet6 = Proto.tcp6 ∷ Proto.udp6 ∷ []

-- What /proc/net holds: the lines behind the first of each file, or the error at opening it.
abbrev pub NetFiles : Type 0
NetFiles = Proto → Read (List Bytes)

module _ (little : Bool) (files : NetFiles) (inodes : Inodes) (pid : Option ℕ) where
  abbrev pub read_inet : Family → SockType → Read (List Bytes) → Outcome (Result (List Conn))
  read_inet family sock_type (content lines) =
      value (process_inet little family sock_type inodes pid lines)
  read_inet family sock_type (failed e) = raised (raw e)

  -- `not os.path.exists(file)`, of the files whose names end in 6, yields nothing.
  abbrev pub read_inet6 : SockType → Bool → Read (List Bytes) → Outcome (Result (List Conn))
  read_inet6 sock_type false file = value (ok [])
  read_inet6 sock_type true file = read_inet Family.inet6 sock_type file

  abbrev pub read_unix : Read (List Bytes) → Outcome (Result (List Conn))
  read_unix (content lines) = value (process_unix little Family.unix stream inodes pid lines)
  read_unix (failed e) = raised (raw e)

  -- One of the files, with whether it exists.
  unfoldable pub read_proto : (Proto → Bool) → Proto → Outcome (Result (List Conn))
  unfolding process_inet process_unix
  read_proto exists Proto.tcp4 = read_inet Family.inet stream (files Proto.tcp4)
  read_proto exists Proto.tcp6 = read_inet6 stream (exists Proto.tcp6) (files Proto.tcp6)
  read_proto exists Proto.udp4 = read_inet Family.inet dgram (files Proto.udp4)
  read_proto exists Proto.udp6 = read_inet6 dgram (exists Proto.udp6) (files Proto.udp6)
  read_proto exists Proto.unix = read_unix (files Proto.unix)

  abbrev pub added : Outcome (Result (List Conn)) → Outcome (List Conn) → Outcome (List Conn)
  added (value (ok l)) (value m) = value (l ++ m)
  added (value (ok l)) (raised e) = raised e
  added (value (err e)) rest = raised (known e)
  added (raised e) rest = raised e

  -- The loop of `retrieve` over the protocols.
  unfoldable pub read_protos : (Proto → Bool) → List Proto → Outcome (List Conn)
  unfolding read_proto
  read_protos exists [] = value []
  read_protos exists (proto ∷ protos) = added (read_proto exists proto) (read_protos exists protos)

abbrev pub with_inodes :
    Bool → NetFiles → (Proto → Bool) → List Proto → ℕ → Inodes → Outcome (List Conn)
with_inodes little files exists protos pid [] = value []
with_inodes little files exists protos pid (e ∷ inodes) =
    read_protos little files (e ∷ inodes) (some pid) exists protos

-- `retrieve(kind, pid)`: `fds` are the descriptors of each process, `pids` the PIDs that are listed.
unfoldable pub retrieve :
    Bool → NetFiles → (Proto → Bool) → (ℕ → Fds) → List ℕ → Kind → Option ℕ → Outcome (List Conn)
unfolding tmap read_protos get_proc_inodes get_all_inodes
retrieve little files exists fds pids kind (some pid) =
    and_then (get_proc_inodes pid (fds pid)) (with_inodes little files exists (tmap kind) pid)
retrieve little files exists fds pids kind none =
    and_then (get_all_inodes fds pids [])
      (λ inodes. read_protos little files inodes none exists (tmap kind))
