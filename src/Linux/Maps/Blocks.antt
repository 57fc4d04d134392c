-- ===== src/Linux/Maps/Blocks.antt =====
-- What `memory_maps` makes of the blocks of an smaps file.
use psutil.Prelude.{
  ℕ, ◌≡◌, ◌≢◌, refl, ap, sym, ◌∙◌, Option, none, some, List, [], ◌∷◌, ◌++◌, map, arith, get_elem?,
  get_elem?-map, subst,
}
use psutil.Prelude.Dict.{lookup, insert, lookup-insert}
use psutil.Text.{Bytes}
use psutil.Environ.{same_bytes}
use psutil.Linux.Files.{Read, Outcome, value, raised}
use psutil.Linux.Files.Bind.{◌>>=◌, >>=-eq-value}
use psutil.Linux.Maps.{
  Fields, Line, header, amount, skipped, bad, read_line, Region, field_names, amount_of, amounts_of,
  region, by_line, blocks, of_lines, of_header, split_max, clean_path,
}

-- A line of a block: an amount, or the flags.
abbrev pub IsField : Line → Type 0
IsField (amount key n) = Unit
IsField skipped = Unit
IsField header = ⊥
IsField (bad e) = ⊥

abbrev pub AllFields : List Bytes → Type 0
AllFields [] = Unit
AllFields (line ∷ lines) = IsField (read_line line) × AllFields lines

abbrev pub written : Line → Fields → Fields
written (amount key n) fields = insert same_bytes key n fields
written _ fields = fields

-- The dict behind the lines of a block.
unfoldable pub carried : List Bytes → Fields → Fields
carried [] fields = fields
carried (line ∷ lines) fields = carried lines (written (read_line line) fields)

-- A header and the lines of its block.
abbrev pub Section : Type 0
Section = Bytes × List Bytes

abbrev pub AllSections : List Section → Type 0
AllSections [] = Unit
AllSections ((head, body) ∷ sections) =
    (read_line head ≡ header) × AllFields body × AllSections sections

unfoldable pub lines_of : List Section → List Bytes
lines_of [] = []
lines_of ((head, body) ∷ sections) = head ∷ (body ++ lines_of sections)

or_else : Option ℕ → Option ℕ → Option ℕ
or_else none o = o
or_else (some n) o = some n

lookup-written :
    (key : Bytes) (line : Line) (fields : Fields)
    → lookup same_bytes key (written line fields)
      ≡ or_else (lookup same_bytes key (written line [])) (lookup same_bytes key fields)
unfolding or_else lookup
lookup-written key (amount k n) fields =
    ground (arith, lookup-insert same_bytes k key n fields, lookup-insert same_bytes k key n [])
lookup-written key header fields = refl
lookup-written key skipped fields = refl
lookup-written key (bad e) fields = refl

or_else_assoc : (a c d : Option ℕ) → or_else (or_else a c) d ≡ or_else a (or_else c d)
unfolding or_else
or_else_assoc none c d = refl
or_else_assoc (some n) c d = refl

-- A block's own amounts come first, then those of the blocks before.
lookup-carried :
    (key : Bytes) (body : List Bytes) (fields : Fields)
    → lookup same_bytes key (carried body fields)
      ≡ or_else (lookup same_bytes key (carried body [])) (lookup same_bytes key fields)
unfolding carried or_else lookup
lookup-carried key [] fields = refl
lookup-carried key (line ∷ body) fields =
    let w = written (read_line line) in
    lookup-carried key body (w fields)
    ∙ ap (or_else (lookup same_bytes key (carried body [])))
        (lookup-written key (read_line line) fields)
    ∙ sym (
        or_else_assoc (lookup same_bytes key (carried body [])) (lookup same_bytes key (w []))
          (lookup same_bytes key fields))
    ∙ ap (λ (o : Option ℕ). or_else o (lookup same_bytes key fields))
        (sym (lookup-carried key body (w [])))

module _ (stat : Bytes → Read (Unit {0})) where
  by_line-IsField :
      (l : Line) (line head : Bytes) (fields : Fields) (go : Bytes → Fields → Outcome (List Region))
      → IsField l
      → by_line stat head line fields go l ≡ go head (written l fields)
  by_line-IsField (amount key n) line head fields go h = refl
  by_line-IsField skipped line head fields go h = refl
  by_line-IsField header line head fields go h = absurd h
  by_line-IsField (bad e) line head fields go h = absurd h

  blocks-body :
      (body rest : List Bytes) (head : Bytes) (fields : Fields)
      → AllFields body
      → blocks stat (body ++ rest) head fields ≡ blocks stat rest head (carried body fields)
  unfolding blocks carried
  blocks-body [] rest head fields h = refl
  blocks-body (line ∷ body) rest head fields h =
      by_line-IsField (read_line line) line head fields (blocks stat (body ++ rest)) h.0
      ∙ blocks-body body rest head (written (read_line line) fields) h.1

  -- The regions of sections, each with the amounts that `amounts` gives of its block, and of the blocks
  -- before it.
  unfoldable pub regions :
      (List Bytes → Fields → Fields) → Fields → List Section → Outcome (List Region)
  unfolding region
  regions next fields [] = value []
  regions next fields ((head, body) ∷ sections) = do
    r ← region stat head (next body fields)
    rest ← regions next (next body fields) sections
    value (r ∷ rest)

  end_block :
      (head : Bytes) (fields : Fields)
      → blocks stat [] head fields ≡ (region stat head fields >>= (λ r. value (r ∷ [])))
  unfolding blocks
  end_block head fields = refl

  next_block :
      (line : Bytes) (lines : List Bytes) (head : Bytes) (fields : Fields)
      → blocks stat (line ∷ lines) head fields
        ≡ by_line stat head line fields (blocks stat lines) (read_line line)
  unfolding blocks
  next_block line lines head fields = refl

  blocks-sections :
      (body : List Bytes) (sections : List Section) (head : Bytes) (fields : Fields)
      → AllFields body
      → AllSections sections
      → blocks stat (body ++ lines_of sections) head fields
        ≡ regions carried fields ((head, body) ∷ sections)
  unfolding lines_of regions
  blocks-sections body [] head fields h k =
      blocks-body body [] head fields h ∙ end_block head (carried body fields)
  blocks-sections body ((head', body') ∷ sections) head fields h k =
      blocks-body body (head' ∷ (body' ++ lines_of sections)) head fields h
      ∙ next_block head' (body' ++ lines_of sections) head (carried body fields)
      ∙ ap
          (by_line stat head head' (carried body fields) (blocks stat (body' ++ lines_of sections)))
          k.0
      ∙ ap
          (λ (o : Outcome (List Region)).
            region stat head (carried body fields) >>= (λ r. o >>= (λ rest. value (r ∷ rest))))
          (blocks-sections body' sections head' (carried body fields) k.1 k.2)

  -- Each region with the amounts of its own block alone.
  abbrev pub own : List Bytes → Fields → Fields
  own body fields = carried body []

  -- Every amount that is reported stands in the block.
  abbrev pub Names : List Bytes → Fields → Type 0
  Names [] fields = Unit
  Names (key ∷ keys) fields = (lookup same_bytes key fields ≢ none) × Names keys fields

  abbrev pub AllComplete : List Section → Type 0
  AllComplete [] = Unit
  AllComplete ((head, body) ∷ sections) = Names field_names (carried body []) × AllComplete sections

  or_else_own : (o d : Option ℕ) → o ≢ none → or_else o d ≡ o
  unfolding or_else
  or_else_own none d h = absurd (h refl)
  or_else_own (some n) d h = refl

  amount_of-eq :
      (key : Bytes) (f g : Fields)
      → lookup same_bytes key f ≡ lookup same_bytes key g
      → amount_of key f ≡ amount_of key g
  unfolding amount_of
  amount_of-eq key f g e = rw e refl

  amounts_own :
      (keys body : List Bytes) (fields : Fields)
      → Names keys (carried body [])
      → map (λ key. amount_of key (carried body fields)) keys
        ≡ map (λ key. amount_of key (carried body [])) keys
  amounts_own [] body fields h = refl
  amounts_own (key ∷ keys) body fields h =
      let same : amount_of key (carried body fields) ≡ amount_of key (carried body []) =
        amount_of-eq key (carried body fields) (carried body []) (
          lookup-carried key body fields
          ∙ or_else_own (lookup same_bytes key (carried body [])) (lookup same_bytes key fields)
              h.0) in
      rw (same, amounts_own keys body fields h.1) refl

  region-own :
      (head : Bytes) (body : List Bytes) (fields : Fields)
      → Names field_names (carried body [])
      → region stat head (carried body fields) ≡ region stat head (carried body [])
  unfolding region amounts_of
  region-own head body fields h =
      ap (λ (a : List ℕ). of_header stat a (split_max 5 head))
        (amounts_own field_names body fields h)

  regions-own :
      (sections : List Section) (fields fields' : Fields)
      → AllComplete sections
      → regions carried fields sections ≡ regions own fields' sections
  unfolding regions
  regions-own [] fields fields' h = refl
  regions-own ((head, body) ∷ sections) fields fields' h =
      ap
        (λ (o : Outcome Region).
          o
          >>= (λ r. regions carried (carried body fields) sections >>= (λ rest. value (r ∷ rest))))
        (region-own head body fields h.0)
      ∙ ap
          (λ (o : Outcome (List Region)).
            region stat head (carried body []) >>= (λ r. o >>= (λ rest. value (r ∷ rest))))
          (regions-own sections (carried body fields) (own body fields') h.1)

  -- Of an smaps file that consists of headers, each with the lines of its block, where each block has all
  -- ten amounts that are reported, the regions have the amounts of their own blocks, in order.
  pub of_lines-own :
      (sections : List Section)
      → AllSections sections
      → AllComplete sections
      → of_lines stat (lines_of sections) ≡ regions own [] sections
  unfolding lines_of
  of_lines-own [] h k = unfold regions in refl
  of_lines-own ((head, body) ∷ sections) h k =
      blocks-sections body sections head [] h.1 h.2 ∙ regions-own ((head, body) ∷ sections) [] [] k

  HasAmounts : List ℕ → Outcome Region → Type 0
  HasAmounts a (value r) = r.amounts ≡ a
  HasAmounts a (raised e) = Unit

  made : Bytes → Bytes → List ℕ → Bytes → Region
  made addr perms a path = record { addr = addr; perms = perms; path = path; amounts = a }

  with_clean :
      (addr perms : Bytes) (a : List ℕ) (o : Outcome Bytes)
      → HasAmounts a (o >>= (λ p. value (made addr perms a p)))
  unfolding HasAmounts made
  with_clean addr perms a (value p) = refl
  with_clean addr perms a (raised e) = tt

  of_header-HasAmounts : (a : List ℕ) (head : List Bytes) → HasAmounts a (of_header stat a head)
  unfolding HasAmounts made
  of_header-HasAmounts a (addr ∷ perms ∷ offset ∷ dev ∷ inode ∷ path ∷ []) =
      with_clean addr perms a (clean_path stat path)
  of_header-HasAmounts a (addr ∷ perms ∷ offset ∷ dev ∷ inode ∷ []) =
      with_clean addr perms a (clean_path stat [])
  of_header-HasAmounts a _ = tt

  region-HasAmounts :
      (head : Bytes) (fields : Fields) (r : Region)
      → region stat head fields ≡ value r
      → r.amounts ≡ amounts_of fields
  unfolding region HasAmounts
  region-HasAmounts head fields r e =
      subst (HasAmounts (amounts_of fields)) e
        (of_header-HasAmounts (amounts_of fields) (split_max 5 head))

  amounts_at :
      (head : Bytes) (fields : Fields) (r : Region) (i : ℕ) (key : Bytes)
      → region stat head fields ≡ value r
      → get_elem? field_names i ≡ some key
      → get_elem? r.amounts i ≡ some (amount_of key fields)
  unfolding amounts_of
  amounts_at head fields r i key e at =
      ap (λ (a : List ℕ). get_elem? a i) (region-HasAmounts head fields r e)
      ∙ get_elem?-map field_names (λ k. amount_of k fields) i at

  two_regions :
      (head head' : Bytes) (f f' : Fields) (r r' : Region)
      → (region stat head f >>= (λ q.
          (region stat head' f' >>= (λ q'. value (q' ∷ []))) >>= (λ rest. value (q ∷ rest))))
        ≡ value (r ∷ r' ∷ [])
      → (region stat head f ≡ value r) × (region stat head' f' ≡ value r')
  two_regions head head' f f' r r' h =
      let (q, e, k) = >>=-eq-value (region stat head f) _ h in
      let (l, m, n) = >>=-eq-value (region stat head' f' >>= (λ q'. value (q' ∷ []))) _ k in
      let (q', e', n') = >>=-eq-value (region stat head' f') _ m in (cc, cc)

  -- If the second block of two lacks one of the amounts, its region is reported with that amount of the
  -- first region: the dict is not emptied between blocks.
  pub of_lines_leaks :
      (head head' : Bytes) (body body' : List Bytes) (r r' : Region) (i : ℕ) (key : Bytes)
      → AllSections ((head, body) ∷ (head', body') ∷ [])
      → of_lines stat (lines_of ((head, body) ∷ (head', body') ∷ [])) ≡ value (r ∷ r' ∷ [])
      → get_elem? field_names i ≡ some key
      → lookup same_bytes key (carried body' []) ≡ none
      → get_elem? r'.amounts i ≡ get_elem? r.amounts i
  unfolding lines_of or_else
  of_lines_leaks head head' body body' r r' i key h e at missing =
      let (first, second) =
        two_regions head head' (carried body []) (carried body' (carried body [])) r r' (
          unfold regions in sym (blocks-sections body ((head', body') ∷ []) head [] h.1 h.2) ∙ e) in
      amounts_at head' (carried body' (carried body [])) r' i key second at
      ∙ ap some (
          amount_of-eq key (carried body' (carried body [])) (carried body []) (
            lookup-carried key body' (carried body [])
            ∙ ap (λ (o : Option ℕ). or_else o (lookup same_bytes key (carried body []))) missing))
      ∙ sym (amounts_at head (carried body []) r i key first at)
