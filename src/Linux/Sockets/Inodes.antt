-- ===== src/Linux/Sockets/Inodes.antt =====
-- Which descriptors a socket is found under.
use mathlib.Core.List.{append_assoc, append-nil}
use psutil.Prelude.{
  ℕ, ◌≡◌, refl, ap, ◌∙◌, List, [], ◌∷◌, ◌++◌, ite, if◌then◌else◌, arith, Bool-cases, inl, inr, drop,
  if_pos, if_neg,
}
use psutil.Prelude.Dict.{lookup, insert, lookup-insert}
use psutil.Text.{Bytes, b, starts_with, all_but_last}
use psutil.Environ.{same_bytes}
use psutil.Linux.Files.{OsError, Read, content, failed, value}
use psutil.Linux.Sockets.{Inodes, or_empty, note_socket, note_links, get_proc_inodes}

-- The descriptors whose links name the inode, in the order of the directory.
abbrev pub owners : ℕ → Bytes → List (ℕ × Read Bytes) → List (ℕ × ℕ)
owners pid i [] = []
owners pid i ((fd, content link) ∷ links) =
    if starts_with link (b "socket:[")
    then ite (same_bytes (all_but_last (drop 8 link)) i) ((pid, fd) ∷ owners pid i links)
        (owners pid i links)
    else owners pid i links
owners pid i ((fd, failed e) ∷ links) = owners pid i links

-- What the dict has for an inode.
abbrev pub pairs : Bytes → Inodes → List (ℕ × ℕ)
pairs i inodes = or_empty (lookup same_bytes i inodes)

pairs-insert :
    (k i : Bytes) (v : List (ℕ × ℕ)) (inodes : Inodes)
    → pairs i (insert same_bytes k v inodes) ≡ ite (same_bytes k i) v (pairs i inodes)
pairs-insert k i v inodes = ground (arith, lookup-insert same_bytes k i v inodes)

pairs-note_socket :
    (pid fd : ℕ) (k i : Bytes) (inodes : Inodes)
    → pairs i (insert same_bytes k (pairs k inodes ++ ((pid, fd) ∷ [])) inodes)
      ≡ ite (same_bytes k i) (pairs i inodes ++ ((pid, fd) ∷ [])) (pairs i inodes)
pairs-note_socket pid fd k i inodes = elim (same_bytes k i) [
  | yes p ↦
      pairs-insert k i (pairs k inodes ++ ((pid, fd) ∷ [])) inodes
      ∙ rw (if_pos (same_bytes k i) p, if_pos (same_bytes k i) p)
          (ap (λ (j : Bytes). pairs j inodes ++ ((pid, fd) ∷ [])) p)
  | no p ↦
      pairs-insert k i (pairs k inodes ++ ((pid, fd) ∷ [])) inodes
      ∙ rw (if_neg (same_bytes k i) p, if_neg (same_bytes k i) p) refl
]

module _ (pid : ℕ) (i : Bytes) where
  -- One link, with what the rest of the directory adds.
  noted-cons :
      (fd : ℕ) (link : Bytes) (links : List (ℕ × Read Bytes)) (inodes : Inodes)
      → pairs i (if starts_with link (b "socket:[") then note_socket pid fd link inodes else inodes)
          ++ owners pid i links
        ≡ pairs i inodes ++ owners pid i ((fd, content link) ∷ links)
  noted-cons fd link links inodes = elim (Bool-cases (starts_with link (b "socket:["))) [
    | inr e ↦ rw (e) refl
    | inl e ↦ rw (e) (socket (all_but_last (drop 8 link)))
  ]
    where
      socket :
          (k : Bytes)
          → pairs i (
                insert same_bytes k
                  (or_empty (lookup same_bytes k inodes) ++ ((pid, fd) ∷ []))
                  inodes)
              ++ owners pid i links
            ≡ pairs i inodes
              ++ ite (same_bytes k i) ((pid, fd) ∷ owners pid i links) (owners pid i links)
      socket k = elim (same_bytes k i) [
        | yes p ↦
            ap (λ (l : List (ℕ × ℕ)). l ++ owners pid i links) (pairs-note_socket pid fd k i inodes)
            ∙ rw (if_pos (same_bytes k i) p, if_pos (same_bytes k i) p)
                (append_assoc (pairs i inodes) ((pid, fd) ∷ []) (owners pid i links))
        | no p ↦
            ap (λ (l : List (ℕ × ℕ)). l ++ owners pid i links) (pairs-note_socket pid fd k i inodes)
            ∙ rw (if_neg (same_bytes k i) p, if_neg (same_bytes k i) p) refl
      ]

  -- If the directory is read without an error that is let out, a socket's list grows by exactly the
  -- descriptors whose links name it, in the order of the directory.
  note_links-owners :
      (links : List (ℕ × Read Bytes)) (inodes m : Inodes)
      → note_links pid links inodes ≡ value m
      → pairs i m ≡ pairs i inodes ++ owners pid i links
  unfolding note_links
  note_links-owners [] inodes m h = ground (arith, h, append-nil (pairs i inodes))
  note_links-owners ((fd, content link) ∷ links) inodes m h =
      note_links-owners links _ m h ∙ noted-cons fd link links inodes
  note_links-owners ((fd, failed OsError.not_found) ∷ links) inodes m h =
      note_links-owners links inodes m h
  note_links-owners ((fd, failed OsError.lookup) ∷ links) inodes m h =
      note_links-owners links inodes m h
  note_links-owners ((fd, failed OsError.invalid) ∷ links) inodes m h =
      note_links-owners links inodes m h
  note_links-owners ((fd, failed OsError.name_too_long) ∷ links) inodes m h =
      note_links-owners links inodes m h
  note_links-owners ((fd, failed OsError.permission) ∷ links) inodes m h = cc
  note_links-owners ((fd, failed OsError.other) ∷ links) inodes m h = cc

-- If `get_proc_inodes` returns, a socket stands in its dict under exactly the descriptors of the process
-- whose links name it, in the order of the directory; links that vanished or are none are left out.
pub pairs-get_proc_inodes :
    (pid : ℕ) (i : Bytes) (links : List (ℕ × Read Bytes)) (m : Inodes)
    → get_proc_inodes pid (content links) ≡ value m
    → pairs i m ≡ owners pid i links
unfolding get_proc_inodes lookup
pairs-get_proc_inodes pid i links m h = note_links-owners pid i links [] m h
