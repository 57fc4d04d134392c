-- ===== src/Linux/Stat/Parents.antt =====
-- The dict of parents that `Process.children` walks.
use psutil.Prelude.{
  ℕ, ◌≡◌, refl, ap, ◌∙◌, Bool, true, Option, none, some, List, [], ◌∷◌, ok, arith, ℕ_discrete, elem,
  ite, if◌then◌else◌, if_pos, if_neg,
}
use psutil.Prelude.Dict.{Dict, lookup, insert, lookup-insert}
use psutil.Text.{Bytes, to_int}
use psutil.Linux.Files.{OsError, Read, content, failed}
use psutil.Linux.Stat.{note_parent, ppid_map}
use psutil.Linux.Stat.Lines.{stat_line, IsLine, fields_of-stat_line}

-- What reading the stat file of `pid` comes to, where `parent pid` is the parent, or nothing if the
-- process is gone by then.
pub data Reads (stat : ℕ → Read Bytes) (parent : ℕ → Option ℕ) (pid : ℕ) : Type 0 where
  there :
      (text name w v : Bytes) (ws : List Bytes) (ppid : ℕ)
      → IsLine text w (v ∷ ws)
      → to_int 10 v ≡ ok ppid
      → stat pid ≡ content (stat_line text name w (v ∷ ws))
      → parent pid ≡ some ppid
      → Reads stat parent pid
  gone : stat pid ≡ failed OsError.not_found → parent pid ≡ none → Reads stat parent pid
  lost : stat pid ≡ failed OsError.lookup → parent pid ≡ none → Reads stat parent pid

abbrev pub AllRead : (ℕ → Read Bytes) → (ℕ → Option ℕ) → List ℕ → Type 0
AllRead stat parent [] = Unit
AllRead stat parent (pid ∷ pids) = Reads stat parent pid × AllRead stat parent pids

abbrev put : ℕ → Option ℕ → Dict ℕ ℕ → Dict ℕ ℕ
put pid none ret = ret
put pid (some ppid) ret = insert ℕ_discrete pid ppid ret

elem-cons :
    (j pid : ℕ) (pids : List ℕ) → elem j (pid ∷ pids) ≡ ite (ℕ_discrete pid j) true (elem j pids)
unfolding elem
elem-cons j pid pids = refl

module _ (stat : ℕ → Read Bytes) (parent : ℕ → Option ℕ) where
  note_parent-put :
      (pid : ℕ) (ret : Dict ℕ ℕ)
      → Reads stat parent pid
      → note_parent pid (stat pid) ret ≡ ok (put pid (parent pid) ret)
  unfolding note_parent
  note_parent-put pid ret (there text name w v ws ppid h e f p) =
      rw (f, p, fields_of-stat_line text name w (v ∷ ws) h, e) refl
  note_parent-put pid ret (gone f p) = rw (f, p) refl
  note_parent-put pid ret (lost f p) = rw (f, p) refl

  or_else : Option ℕ → Option ℕ → Option ℕ
  or_else none o = o
  or_else (some p) o = some p

  lookup-put :
      (pid j : ℕ) (o : Option ℕ) (ret : Dict ℕ ℕ)
      → lookup ℕ_discrete j (put pid o ret)
        ≡ ite (ℕ_discrete pid j) (or_else o (lookup ℕ_discrete j ret)) (lookup ℕ_discrete j ret)
  unfolding or_else
  lookup-put pid j none ret = ground arith
  lookup-put pid j (some p) ret = lookup-insert ℕ_discrete pid j p ret

  right_none : (o : Option ℕ) → or_else o none ≡ o
  unfolding or_else
  right_none none = refl
  right_none (some p) = refl

  -- What is in the dict under `j` when the rest of the PIDs has been gone through.
  noted : ℕ → List ℕ → Option ℕ → Option ℕ
  unfolding or_else
  noted j pids before = if elem j pids then or_else (parent j) before else before

  twice :
      (o : Option ℕ) (later : Bool) (before : Option ℕ)
      → (if later then or_else o (or_else o before) else or_else o before) ≡ or_else o before
  unfolding or_else
  twice none later before = ground arith
  twice (some p) later before = ground arith

  noted-step :
      (pid j : ℕ) (pids : List ℕ) (before : Option ℕ)
      → noted j pids (ite (ℕ_discrete pid j) (or_else (parent pid) before) before)
        ≡ noted j (pid ∷ pids) before
  unfolding noted or_else
  noted-step pid j pids before = elim (ℕ_discrete pid j) [
    | yes p ↦
        rw
          (
            elem-cons j pid pids,
            if_pos (ℕ_discrete pid j) p,
            if_pos (ℕ_discrete pid j) p,
            ap parent p,
          )
          (twice (parent j) (elem j pids) before)
    | no p ↦
        rw (elem-cons j pid pids, if_neg (ℕ_discrete pid j) p, if_neg (ℕ_discrete pid j) p) refl
  ]

  ppid_map-noted :
      (pids : List ℕ) (ret : Dict ℕ ℕ)
      → AllRead stat parent pids
      → (d : Dict ℕ ℕ) × (ppid_map stat pids ret ≡ ok d)
        × ((j : ℕ) → lookup ℕ_discrete j d ≡ noted j pids (lookup ℕ_discrete j ret))
  unfolding ppid_map noted elem
  ppid_map-noted [] ret h = (ret, refl, λ j. refl)
  ppid_map-noted (pid ∷ pids) ret h =
      let (d, e, k) = ppid_map-noted pids (put pid (parent pid) ret) h.1 in
      (
        d,
        rw (note_parent-put pid ret h.0) e,
        λ j.
            k j
            ∙ ap (noted j pids) (lookup-put pid j (parent pid) ret)
            ∙ noted-step pid j pids (lookup ℕ_discrete j ret),
      )

  -- Where each stat file that is read is well formed, and others are missing because their process is
  -- gone, the dict has exactly the processes that were listed and not gone, each with its parent.
  pub ppid_map-lookup :
      (pids : List ℕ)
      → AllRead stat parent pids
      → (d : Dict ℕ ℕ) × (ppid_map stat pids [] ≡ ok d)
        × ((j : ℕ) → lookup ℕ_discrete j d ≡ (if elem j pids then parent j else none))
  unfolding noted or_else lookup
  ppid_map-lookup pids h =
      let (d, e, k) = ppid_map-noted pids [] h in
      (
        d,
        e,
        λ j. k j ∙ ap (λ (o : Option ℕ). if elem j pids then o else none) (right_none (parent j)),
      )
