-- ===== src/Linux/Connections/Kinds.antt =====
-- How the kinds of connections make each other up.
use psutil.Prelude.{
  ℕ, ◌≡◌, refl, ap, ◌∙◌, sym, Bool, Option, none, List, [], ◌∷◌, ◌++◌, Result, ok, err,
}
use mathlib.Core.List.{append_assoc}
use mathlib.Core.Path.{fun_ext}
use psutil.Linux.Files.{Outcome, value, raised}
use psutil.Linux.Sockets.{Inodes, Fds, Conn, and_then, get_all_inodes}
use psutil.Linux.Connections.{Kind, Proto, NetFiles, tmap, added, read_proto, read_protos, retrieve}

-- The connections of two runs together; the first error is raised.
unfoldable pub both : Outcome (List Conn) → Outcome (List Conn) → Outcome (List Conn)
both (value l) (value m) = value (l ++ m)
both (value l) (raised e) = raised e
both (raised e) o = raised e

both_nil : (o : Outcome (List Conn)) → o ≡ both (value []) o
unfolding both
both_nil (value l) = refl
both_nil (raised e) = refl

module _ (little : Bool) (files : NetFiles) (inodes : Inodes) (pid : Option ℕ)
    (exists : Proto → Bool) where
  added-both :
      (first : Outcome (Result (List Conn))) (o o' : Outcome (List Conn))
      → added little files inodes pid first (both o o')
        ≡ both (added little files inodes pid first o) o'
  unfolding both
  added-both (value (ok l)) (value m) (value n) = ap value (sym (append_assoc l m n))
  added-both (value (ok l)) (value m) (raised e) = refl
  added-both (value (ok l)) (raised e) o' = refl
  added-both (value (err e)) o o' = refl
  added-both (raised e) o o' = refl

  read_protos-append :
      (ps qs : List Proto)
      → read_protos little files inodes pid exists (ps ++ qs)
        ≡ both
            (read_protos little files inodes pid exists ps)
            (read_protos little files inodes pid exists qs)
  unfolding read_protos both
  read_protos-append [] qs = both_nil (read_protos little files inodes pid exists qs)
  read_protos-append (p ∷ ps) qs =
      ap (added little files inodes pid (read_proto little files inodes pid exists p))
        (read_protos-append ps qs)
      ∙ added-both (read_proto little files inodes pid exists p)
          (read_protos little files inodes pid exists ps)
          (read_protos little files inodes pid exists qs)

both-and_then :
    (o : Outcome Inodes) (f g : Inodes → Outcome (List Conn))
    → and_then o (λ i. both (f i) (g i)) ≡ both (and_then o f) (and_then o g)
unfolding both
both-and_then (value i) f g = refl
both-and_then (raised e) f g = refl

-- What `kind` makes up of two others, for the whole system.
pub data Joins : Kind → Kind → Kind → Type 0 where
  tcp_udp : Joins Kind.inet Kind.tcp Kind.udp
  inet_unix : Joins Kind.all Kind.inet Kind.unix
  tcp_4_6 : Joins Kind.tcp Kind.tcp4 Kind.tcp6
  udp_4_6 : Joins Kind.udp Kind.udp4 Kind.udp6
  tcp_udp_4 : Joins Kind.inet4 Kind.tcp4 Kind.udp4
  tcp_udp_6 : Joins Kind.inet6 Kind.tcp6 Kind.udp6

tmap-Joins : {k l m : Kind} → Joins k l m → tmap k ≡ tmap l ++ tmap m
unfolding tmap
tmap-Joins tcp_udp = refl
tmap-Joins inet_unix = refl
tmap-Joins tcp_4_6 = refl
tmap-Joins udp_4_6 = refl
tmap-Joins tcp_udp_4 = refl
tmap-Joins tcp_udp_6 = refl

-- On one state of the system, the connections of the kinds inet, all, tcp, udp, inet4 and inet6 are those
-- of the two kinds that make each of them up, and so are the errors: the first one that reading meets.
pub retrieve-Joins :
    {k l m : Kind} (little : Bool) (files : NetFiles) (exists : Proto → Bool) (fds : ℕ → Fds)
    (pids : List ℕ)
    → Joins k l m
    → retrieve little files exists fds pids k none
      ≡ both
          (retrieve little files exists fds pids l none)
          (retrieve little files exists fds pids m none)
unfolding retrieve
retrieve-Joins {k} {l} {m} little files exists fds pids j =
    ap
      (λ (ps : List Proto).
        and_then (get_all_inodes fds pids [])
          (λ inodes. read_protos little files inodes none exists ps))
      (tmap-Joins j)
    ∙ ap (and_then (get_all_inodes fds pids []))
        (fun_ext (λ inodes. read_protos-append little files inodes none exists (tmap l) (tmap m)))
    ∙ both-and_then (get_all_inodes fds pids [])
        (λ inodes. read_protos little files inodes none exists (tmap l))
        (λ inodes. read_protos little files inodes none exists (tmap m))
