-- ===== src/Text/Split.antt =====
-- Splitting a text that was joined.
use psutil.Prelude.{
  ℕ, ◌≡◌, ◌≢◌, refl, ap, ◌∙◌, Bool, true, false, ◌&&◌, not, List, [], ◌∷◌, ◌++◌, arith,
}
use mathlib.Core.List.{append_assoc}
use psutil.Text.{Bytes, split_where, push_head, non_empty, words, is_space}

-- No byte of the text is one at which to cut.
abbrev pub Uncut : (ℕ → Bool) → Bytes → Type 0
Uncut p [] = Unit
Uncut p (c ∷ s) = (p c ≡ false) × Uncut p s

-- The pieces, each followed by a separator.
unfoldable pub join_end : ℕ → List Bytes → Bytes
join_end sep [] = []
join_end sep (w ∷ ws) = w ++ (sep ∷ join_end sep ws)

-- `sep.join(ws)`
unfoldable pub join : ℕ → List Bytes → Bytes
join sep [] = []
join sep (w ∷ []) = w
join sep (w ∷ v ∷ ws) = w ++ (sep ∷ join sep (v ∷ ws))

abbrev pub AllUncut : (ℕ → Bool) → List Bytes → Type 0
AllUncut p [] = Unit
AllUncut p (w ∷ ws) = Uncut p w × AllUncut p ws

module _ (p : ℕ → Bool) where
  pub split_where-Uncut : (w : Bytes) → Uncut p w → split_where p w ≡ w ∷ []
  unfolding split_where push_head
  split_where-Uncut [] h = refl
  split_where-Uncut (c ∷ w) h = rw (h.0, split_where-Uncut w h.1) refl

  pub split_where-append :
      (w s : Bytes) (sep : ℕ)
      → Uncut p w
      → p sep ≡ true
      → split_where p (w ++ (sep ∷ s)) ≡ w ∷ split_where p s
  unfolding split_where push_head
  split_where-append [] s sep h e = rw (e) refl
  split_where-append (c ∷ w) s sep h e = rw (h.0, split_where-append w s sep h.1 e) refl

  pub split_where-join :
      (sep : ℕ) (w : Bytes) (ws : List Bytes)
      → AllUncut p (w ∷ ws)
      → p sep ≡ true
      → split_where p (join sep (w ∷ ws)) ≡ w ∷ ws
  unfolding join
  split_where-join sep w [] h e = split_where-Uncut w h.0
  split_where-join sep w (v ∷ ws) h e =
      split_where-append w (join sep (v ∷ ws)) sep h.0 e
      ∙ ap (λ (l : List Bytes). w ∷ l) (split_where-join sep v ws h.1 e)

-- Texts that are words: not empty, and no blanks in them.
abbrev pub AllWords : List Bytes → Type 0
AllWords [] = Unit
AllWords (w ∷ ws) = (w ≢ []) × Uncut is_space w × AllWords ws

words-AllUncut : (ws : List Bytes) → AllWords ws → AllUncut is_space ws
words-AllUncut [] h = tt
words-AllUncut (w ∷ ws) h = (h.1, words-AllUncut ws h.2)

non_empty_words : (ws : List Bytes) → AllWords ws → non_empty ws ≡ ws
unfolding non_empty
non_empty_words [] h = refl
non_empty_words ([] ∷ ws) h = absurd (h.0 refl)
non_empty_words ((c ∷ w) ∷ ws) h = ap (λ (l : List Bytes). (c ∷ w) ∷ l) (non_empty_words ws h.2)

-- Fields joined by one blank are read back by `split()`.
pub words-join :
    (sep : ℕ) (ws : List Bytes) → AllWords ws → is_space sep ≡ true → words (join sep ws) ≡ ws
unfolding words join split_where non_empty
words-join sep [] h e = refl
words-join sep (w ∷ ws) h e =
    ap non_empty (split_where-join is_space sep w ws (words-AllUncut (w ∷ ws) h) e)
    ∙ non_empty_words (w ∷ ws) h

split_where-join_end :
    (p : ℕ → Bool) (sep stop : ℕ) (w : Bytes) (ws : List Bytes)
    → AllUncut p (w ∷ ws)
    → p sep ≡ true
    → p stop ≡ true
    → split_where p (join sep (w ∷ ws) ++ (stop ∷ [])) ≡ (w ∷ ws) ++ ([] ∷ [])
unfolding join split_where
split_where-join_end p sep stop w [] h e e' = split_where-append p w [] stop h.0 e'
split_where-join_end p sep stop w (v ∷ ws) h e e' =
    ap (split_where p) (append_assoc w (sep ∷ join sep (v ∷ ws)) (stop ∷ []))
    ∙ split_where-append p w (join sep (v ∷ ws) ++ (stop ∷ [])) sep h.0 e
    ∙ ap (λ (l : List Bytes). w ∷ l) (split_where-join_end p sep stop v ws h.1 e e')

non_empty_line : (ws : List Bytes) → AllWords ws → non_empty (ws ++ ([] ∷ [])) ≡ ws
unfolding non_empty
non_empty_line [] h = refl
non_empty_line ([] ∷ ws) h = absurd (h.0 refl)
non_empty_line ((c ∷ w) ∷ ws) h = ap (λ (l : List Bytes). (c ∷ w) ∷ l) (non_empty_line ws h.2)

-- The same for a line, which ends with one more blank.
pub words-join_line :
    (sep stop : ℕ) (w : Bytes) (ws : List Bytes)
    → AllWords (w ∷ ws)
    → is_space sep ≡ true
    → is_space stop ≡ true
    → words (join sep (w ∷ ws) ++ (stop ∷ [])) ≡ w ∷ ws
unfolding words
words-join_line sep stop w ws h e e' =
    ap non_empty (split_where-join_end is_space sep stop w ws (words-AllUncut (w ∷ ws) h) e e')
    ∙ non_empty_line (w ∷ ws) h

-- Tests that compute, for concrete texts.
unfoldable pub uncut : (ℕ → Bool) → Bytes → Bool
uncut p [] = true
uncut p (c ∷ s) = not (p c) && uncut p s

unfoldable pub all_words : List Bytes → Bool
unfolding uncut is_space
all_words [] = true
all_words ([] ∷ ws) = false
all_words ((c ∷ w) ∷ ws) = uncut is_space (c ∷ w) && all_words ws

pub test-Uncut : (p : ℕ → Bool) (s : Bytes) → uncut p s ≡ true → Uncut p s
unfolding uncut
test-Uncut p [] h = tt
test-Uncut p (c ∷ s) h = (ground (arith, h), test-Uncut p s (ground (arith, h)))

pub test-AllWords : (ws : List Bytes) → all_words ws ≡ true → AllWords ws
unfolding all_words
test-AllWords [] h = tt
test-AllWords ([] ∷ ws) h = cc
test-AllWords ((c ∷ w) ∷ ws) h = (
  (λ e. cc),
  test-Uncut is_space (c ∷ w) (ground (arith, h)),
  test-AllWords ws (ground (arith, h)),
)
