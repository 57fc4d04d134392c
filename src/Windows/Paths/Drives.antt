-- ===== src/Windows/Paths/Drives.antt =====
-- How `convert_dos_path` cuts a path.
use psutil.Prelude.{
  ℕ, ◌≡◌, refl, ap, ◌∙◌, sym, Bool, true, false, ◌==◌, List, [], ◌∷◌, ◌++◌, drop, length, arith,
  if◌then◌else◌,
}
use mathlib.Core.List.{append_assoc}
use psutil.Text.{Bytes, b, same, starts_with, split}
use psutil.Text.Split.{join, Uncut, split_where-append}
use psutil.Text.Search.{drop-append}
use psutil.Windows.Errors.{Call, returned, ◌>>=◌}
use psutil.Windows.Paths.{backslash, is_network, by_drive, by_parts, convert_dos_path}

abbrev pub Part : Bytes → Type 0
Part = Uncut (λ c. c == backslash)

-- A path of a drive: `\v\w\rest`.
abbrev pub path_of : Bytes → Bytes → Bytes → Bytes
path_of v w rest = backslash ∷ (v ++ (backslash ∷ (w ++ (backslash ∷ rest))))

-- `\v\w`
abbrev pub drive_of : Bytes → Bytes → Bytes
drive_of v w = backslash ∷ (v ++ (backslash ∷ w))

split-path :
    (v w rest : Bytes)
    → Part v
    → Part w
    → split backslash (path_of v w rest) ≡ [] ∷ v ∷ w ∷ split backslash rest
unfolding split
split-path v w rest hv hw =
    split_where-append (λ c. c == backslash) [] (v ++ (backslash ∷ (w ++ (backslash ∷ rest))))
      backslash tt refl
    ∙ ap (λ (l : List Bytes). [] ∷ l)
        (split_where-append (λ c. c == backslash) v (w ++ (backslash ∷ rest)) backslash hv refl
          ∙ ap (λ (l : List Bytes). v ∷ l)
              (split_where-append (λ c. c == backslash) w rest backslash hw refl))

no_share : (c : ℕ) (v s : Bytes) → Part (c ∷ v) → starts_with (backslash ∷ c ∷ s) (b "\\\\") ≡ false
unfolding starts_with
no_share c v s h = ground (arith, h.0)

-- A raw drive begins with `\??\` exactly if its first part is `??`.
starts_with-same :
    (v w : Bytes) → Part v → starts_with (drive_of v w) (b "\\??\\") ≡ same v (b "??")
unfolding starts_with same
starts_with-same [] w h = refl
starts_with-same (c ∷ []) w h = ground arith
starts_with-same (c ∷ d ∷ []) w h = ground arith
starts_with-same (c ∷ d ∷ e ∷ v) w h = ground (arith, h.1.1.0)

after_drive :
    (v w rest : Bytes) → drop (length (drive_of v w)) (path_of v w rest) ≡ backslash ∷ rest
after_drive v w rest =
    ap (λ (s : Bytes). drop (length (v ++ (backslash ∷ w))) s)
      (sym (append_assoc v (backslash ∷ w) (backslash ∷ rest)))
    ∙ drop-append (v ++ (backslash ∷ w)) (backslash ∷ rest)

split-share :
    (server share rest : Bytes)
    → Part server
    → Part share
    → split backslash (server ++ (backslash ∷ (share ++ (backslash ∷ rest))))
      ≡ server ∷ share ∷ split backslash rest
unfolding split
split-share server share rest hs hp =
    split_where-append (λ c. c == backslash) server (share ++ (backslash ∷ rest)) backslash hs refl
    ∙ ap (λ (l : List Bytes). server ∷ l)
        (split_where-append (λ c. c == backslash) share rest backslash hp refl)

-- `\v\w\server\share`
abbrev share_of : Bytes → Bytes → Bytes → Bytes → Bytes
share_of v w server share = backslash ∷ (v ++ (backslash ∷ (w ++ drive_of server share)))

after_share :
    (v w server share rest : Bytes)
    → drop
        (length (share_of v w server share))
        (path_of v w (server ++ (backslash ∷ (share ++ (backslash ∷ rest)))))
      ≡ backslash ∷ rest
after_share v w server share rest =
    let path : share_of v w server share ++ (backslash ∷ rest)
        ≡ path_of v w (server ++ (backslash ∷ (share ++ (backslash ∷ rest)))) =
      simp append_assoc refl in
    ap (λ (s : Bytes). drop (length (share_of v w server share)) s) (sym path)
    ∙ drop-append (share_of v w server share) (backslash ∷ rest)

pick :
    {A B : Type 0} (t : Bool) (a : A) (q : Call A) (f : A → Call B)
    → (if t then f a else (q >>= f)) ≡ ((if t then returned a else q) >>= f)
pick true a q f = refl
pick false a q f = refl

module _ (path_join : Bytes → Bytes → Bytes) (query : Bytes → Call Bytes) where
  -- What the first two parts of a path stand for: a drive letter after `??`, or a device.
  abbrev pub letter_of : Bytes → Bytes → Call Bytes
  letter_of v w = if same v (b "??") then returned w else query (drive_of v w)

  convert_parts :
      (c : ℕ) (v w rest : Bytes)
      → Part (c ∷ v)
      → Part w
      → convert_dos_path path_join query (path_of (c ∷ v) w rest)
        ≡ by_drive path_join query
            (path_of (c ∷ v) w rest)
            ([] ∷ (c ∷ v) ∷ w ∷ split backslash rest)
            (drive_of (c ∷ v) w)
  unfolding convert_dos_path
  convert_parts c v w rest hv hw =
      ap (by_parts path_join query (path_of (c ∷ v) w rest)) (split-path (c ∷ v) w rest hv hw)
      ∙ rw (no_share c v (v ++ (backslash ∷ (w ++ (backslash ∷ rest)))) hv) (unfold join in refl)

  -- A path `\v\w\rest` that is not of a network, whose parts have no backslash, is converted to what
  -- os.path.join makes of the drive letter and `\rest`: the letter is `w` itself where `v` is `??`, and
  -- otherwise what QueryDosDevice answers for `\v\w`.
  pub convert_dos_path-path_of :
      (c : ℕ) (v w rest : Bytes)
      → Part (c ∷ v)
      → Part w
      → is_network (drive_of (c ∷ v) w) ≡ false
      → convert_dos_path path_join query (path_of (c ∷ v) w rest)
        ≡ (do letter ← letter_of (c ∷ v) w; returned (path_join letter (backslash ∷ rest)))
  convert_dos_path-path_of c v w rest hv hw h =
      convert_parts c v w rest hv hw
      ∙ rw (h, starts_with-same (c ∷ v) w hv, after_drive (c ∷ v) w rest)
          (pick (same (c ∷ v) (b "??")) w (query (drive_of (c ∷ v) w))
            (λ letter. returned (path_join letter (backslash ∷ rest))))

  -- A path `\v\w\server\share\rest` of a network, whose parts have no backslash, is converted to what
  -- os.path.join makes of `\\server\share` and `\rest`; QueryDosDevice is not called.
  pub convert_dos_path_network :
      (c : ℕ) (v w server share rest : Bytes)
      → Part (c ∷ v)
      → Part w
      → Part server
      → Part share
      → is_network (drive_of (c ∷ v) w) ≡ true
      → convert_dos_path path_join query
          (path_of (c ∷ v) w (server ++ (backslash ∷ (share ++ (backslash ∷ rest)))))
        ≡ returned (path_join (backslash ∷ drive_of server share) (backslash ∷ rest))
  unfolding join
  convert_dos_path_network c v w server share rest hv hw hs hp h =
      convert_parts c v w (server ++ (backslash ∷ (share ++ (backslash ∷ rest)))) hv hw
      ∙ rw (h, split-share server share rest hs hp, after_share (c ∷ v) w server share rest) refl
