-- ===== src/Linux/Cmdline/Args.antt =====
-- The arguments of a process are read back.
use mathlib.Core.List.{append_assoc}
use psutil.Prelude.{
  ℕ, ◌≡◌, refl, ap, sym, ◌∙◌, List, [], ◌∷◌, ◌++◌, ◌==◌, ◌&&◌, if◌then◌else◌, map, Bool, false,
  Bool-cases, inl, inr, arith,
}
use psutil.Text.{Bytes, contains, split}
use psutil.Text.Split.{Uncut, AllUncut, join, join_end, split_where-join}
use psutil.Text.Search.{ends_with-append, all_but_last-append}
use psutil.Linux.Files.{Read, value}
use psutil.Linux.Cmdline.{
  separator, args_of, split_args, lines_from, read_text, cmdline_of, cmdline,
}

join_end-join :
    (sep : ℕ) (w : Bytes) (ws : List Bytes)
    → join_end sep (w ∷ ws) ≡ join sep (w ∷ ws) ++ (sep ∷ [])
unfolding join join_end
join_end-join sep w [] = refl
join_end-join sep w (v ∷ ws) =
    ap (λ (l : Bytes). w ++ (sep ∷ l)) (join_end-join sep v ws)
    ∙ sym (append_assoc w (sep ∷ join sep (v ∷ ws)) (sep ∷ []))

args_of-append : (s : Bytes) → args_of (s ++ (0 ∷ [])) ≡ split_args 0 s
unfolding args_of separator
args_of-append s = rw (ends_with-append 0 s, ends_with-append 0 s, all_but_last-append 0 s) refl

-- What `args_of` makes of arguments with a NUL behind each.
abbrev pub read_back : List Bytes → List Bytes
read_back (w ∷ []) = if contains b' ' w then split b' ' w else w ∷ []
read_back ws = ws

split_args-join :
    (w : Bytes) (ws : List Bytes)
    → AllUncut (λ c. c == 0) (w ∷ ws)
    → split_args 0 (join 0 (w ∷ ws)) ≡ read_back (w ∷ ws)
unfolding split join
split_args-join w [] h = rw (split_where-join (λ c. c == 0) 0 w [] h refl) refl
split_args-join w (v ∷ ws) h = rw (split_where-join (λ c. c == 0) 0 w (v ∷ ws) h refl) refl

args_of-join_end :
    (w : Bytes) (ws : List Bytes)
    → AllUncut (λ c. c == 0) (w ∷ ws)
    → args_of (join_end 0 (w ∷ ws)) ≡ read_back (w ∷ ws)
args_of-join_end w ws h =
    ap args_of (join_end-join 0 w ws) ∙ args_of-append (join 0 (w ∷ ws)) ∙ split_args-join w ws h

cmdline_of-join_end :
    (pid : ℕ) (stat : Read Bytes) (w : Bytes) (ws : List Bytes)
    → cmdline_of pid stat (join_end 0 (w ∷ ws)) ≡ value (args_of (join_end 0 (w ∷ ws)))
unfolding cmdline_of join_end
cmdline_of-join_end pid stat [] ws = refl
cmdline_of-join_end pid stat (c ∷ w) ws = refl

lines_from-append :
    (after_cr : Bool) (w s : Bytes)
    → lines_from after_cr (w ++ (0 ∷ s)) ≡ lines_from after_cr w ++ (0 ∷ lines_from false s)
unfolding lines_from
lines_from-append after_cr [] s = refl
lines_from-append after_cr (c ∷ w) s = ground (arith, lines_from-append (c == 13) w s)

read_text-join_end : (ws : List Bytes) → read_text (join_end 0 ws) ≡ join_end 0 (map read_text ws)
unfolding read_text join_end
read_text-join_end [] = refl
read_text-join_end (w ∷ ws) =
    lines_from-append false w (join_end 0 ws)
    ∙ ap (λ (s : Bytes). read_text w ++ (0 ∷ s)) (read_text-join_end ws)

lines_from-Uncut :
    (after_cr : Bool) (w : Bytes)
    → Uncut (λ c. c == 0) w
    → Uncut (λ c. c == 0) (lines_from after_cr w)
unfolding lines_from
lines_from-Uncut after_cr [] h = tt
lines_from-Uncut after_cr (c ∷ w) h =
    let rest = lines_from-Uncut (c == 13) w h.1 in
    elim (Bool-cases (c == 13)) [
      | inl e ↦ rw (e) (refl, rw e at rest)
      | inr e ↦ elim (Bool-cases (c == 10 && after_cr)) [
        | inl f ↦ rw (e, f) (rw e at rest)
        | inr f ↦ rw (e, f) (h.0, rw e at rest)
      ]
    ]

read_text-AllUncut :
    (ws : List Bytes) → AllUncut (λ c. c == 0) ws → AllUncut (λ c. c == 0) (map read_text ws)
unfolding read_text
read_text-AllUncut [] h = tt
read_text-AllUncut (w ∷ ws) h = (lines_from-Uncut false w h.0, read_text-AllUncut ws h.1)

-- The arguments of a process, as the kernel stores them, are read back whatever they hold but NUL, with
-- each CRLF and each other CR in them turned into LF; only a single argument in which there is a blank is
-- split at each blank.
pub cmdline-join_end :
    (pid : ℕ) (stat : Read Bytes) (w : Bytes) (ws : List Bytes)
    → AllUncut (λ c. c == 0) (w ∷ ws)
    → cmdline pid stat (join_end 0 (w ∷ ws)) ≡ value (read_back (map read_text (w ∷ ws)))
unfolding cmdline
cmdline-join_end pid stat w ws h =
    ap (cmdline_of pid stat) (read_text-join_end (w ∷ ws))
    ∙ cmdline_of-join_end pid stat (read_text w) (map read_text ws)
    ∙ ap value (args_of-join_end (read_text w) (map read_text ws) (read_text-AllUncut (w ∷ ws) h))
