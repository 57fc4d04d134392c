-- ===== src/Tests/Network.antt =====
-- Addresses, sockets and device counters.
use psutil.Prelude.{
  ℕ, ◌≡◌, refl, Bool, true, false, none, some, List, [], ◌∷◌, Result, ok, err, arith, ℕ_discrete,
  ◌≢◌, sym, ◌∙◌, ap, subst, Bool-cases, inl, inr, ◌==◌, if◌then◌else◌, if_neg, elem,
}
use psutil.Prelude.Dict.{lookup, insert}
use psutil.Text.{Bytes, b, starts_with, strip, words, to_int, digit, same, all_but_last}
use psutil.Environ.{same_bytes}
use psutil.Linux.Files.{Read, content, failed, OsError, Outcome, value, raised}
use psutil.Linux.Addresses.{Family, decode_address}
use psutil.Linux.Addresses.RoundTrip.{four, show_address, decode_address-show_address}
use psutil.Linux.Sockets.{
  Inodes, SockType, Conn, process_inet, inet_conn, ten_tokens, get_proc_inodes, Fds, get_all_inodes,
  note_links, update,
}
use psutil.Linux.Sockets.Owners.{Unshared}
use psutil.Linux.Sockets.Inodes.{owners, pairs, pairs-get_proc_inodes}
use psutil.Linux.Sockets.Filter.{of_process, process_inet-of_process}
use psutil.Linux.Connections.{Kind, NetFiles, retrieve}
use psutil.Linux.Connections.Kinds.{both, tcp_udp, retrieve-Joins}
use psutil.Linux.Counters.{DiskStats, procfs, disk_io_counters}
use psutil.Linux.Counters.Lines.{Agree, disk_io_counters-Agree}

abbrev localhost : Bytes
localhost = 127 ∷ 0 ∷ 0 ∷ 1 ∷ []

-- Port 22 at 127.0.0.1, as a little-endian machine writes it.
shown : show_address true localhost 22 ≡ b "0100007F:0016"
unfolding show_address
shown = refl

decode_address-show_address_example :
    decode_address true Family.inet (show_address true localhost 22) ≡ ok (some (localhost, 22))
decode_address-show_address_example =
    decode_address-show_address true 22 (four 127 0 0 1 (omega arith)) (omega arith)

abbrev table : List Bytes
table =
    b "0: 0100007F:0016 00000000:0000 0A 0:0 0:0 0 0 0 900 1"
    ∷ b "1: 0100007F:0017 0100007F:0050 01 0:0 0:0 0 0 0 901 1"
    ∷ []

abbrev or_none : Result (List Conn) → List Conn
or_none (ok l) = l
or_none (err e) = []

abbrev of_two : ℕ → Fds
of_two q =
    if q == 43
    then content ((5, content (b "socket:[901]")) ∷ [])
    else content ((3, content (b "socket:[900]")) ∷ [])

abbrev found : Outcome Inodes → Inodes
found (value m) = m
found (raised e) = []

abbrev own_inodes : Inodes
own_inodes = found (get_proc_inodes 43 (of_two 43))

abbrev all_inodes : Inodes
all_inodes = found (get_all_inodes of_two (42 ∷ 43 ∷ []) [])

server_inodes :
    (q : ℕ) → q ≢ 43 → get_proc_inodes q (of_two q) ≡ value ((b "900", (q, 3) ∷ []) ∷ [])
unfolding get_proc_inodes starts_with all_but_last same_bytes ℕ_discrete lookup insert note_links
server_inodes q ne = elim (Bool-cases (q == 43)) [
  | inl e ↦ absurd (ground (arith, ne, e))
  | inr e ↦ rw (e) refl
]

of_two-Unshared : Unshared of_two 43 own_inodes
unfolding get_proc_inodes starts_with all_but_last same_bytes ℕ_discrete lookup insert note_links
of_two-Unshared q m i ne e = elim (same_bytes (b "901") i) [
  | no n ↦ inl (if_neg (same_bytes (b "901") i) n (some ((43, 5) ∷ [])) none)
  | yes h ↦
      let m_eq : value m ≡ value ((b "900", (q, 3) ∷ []) ∷ []) = sym e ∙ server_inodes q ne in
      inr (
        subst (λ j. lookup same_bytes j m ≡ none) h
          (ap (λ (o : Outcome Inodes). lookup same_bytes (b "901") (found o)) m_eq))
]

abbrev conns : List Conn
conns = or_none (process_inet true Family.inet SockType.stream all_inodes none table)

process_inet-of_process_example :
    process_inet true Family.inet SockType.stream own_inodes (some 43) table
    ≡ ok (of_process 43 conns)
unfolding process_inet words inet_conn ten_tokens same_bytes ℕ_discrete lookup to_int digit strip
    get_all_inodes get_proc_inodes note_links starts_with all_but_last insert update elem
process_inet-of_process_example =
    process_inet-of_process true Family.inet SockType.stream of_two (42 ∷ 43 ∷ []) 43 own_inodes
      all_inodes table conns refl refl refl of_two-Unshared refl

abbrev links : List (ℕ × Read Bytes)
links =
    (0, content (b "/dev/null"))
    ∷ (3, content (b "socket:[900]"))
    ∷ (4, failed OsError.not_found)
    ∷ (7, content (b "socket:[900]"))
    ∷ []

pairs-get_proc_inodes_run :
    pairs (b "900") (found (get_proc_inodes 42 (content links))) ≡ owners 42 (b "900") links
unfolding get_proc_inodes starts_with all_but_last same_bytes ℕ_discrete lookup insert
pairs-get_proc_inodes_run =
    pairs-get_proc_inodes 42 (b "900") links (found (get_proc_inodes 42 (content links))) refl

abbrev files : NetFiles
files p = content table

abbrev fds : ℕ → Fds
fds pid = content links

retrieve-Joins_example :
    retrieve true files (λ p. true) fds (42 ∷ []) Kind.inet none
    ≡ both
        (retrieve true files (λ p. true) fds (42 ∷ []) Kind.tcp none)
        (retrieve true files (λ p. true) fds (42 ∷ []) Kind.udp none)
retrieve-Joins_example = retrieve-Joins true files (λ p. true) fds (42 ∷ []) tcp_udp

abbrev diskstats : DiskStats
diskstats =
    procfs (b "8 0 sda 10 0 80 5 20 0 160 7 0 9 12" ∷ b "8 1 sda1 8 0 64 4 20 0 160 7 0 9 12" ∷ [])

abbrev is_disk : Bytes → Bool
is_disk name = same name (b "sda")

disk_io_counters-Agree_example :
    Agree is_disk
      (disk_io_counters false is_disk diskstats)
      (disk_io_counters true is_disk diskstats)
disk_io_counters-Agree_example = disk_io_counters-Agree is_disk diskstats
