-- ===== src/Catalog/RoundTrip.antt =====
-- The text that `save` of catalog/Catalog.cpp writes is read back by `load`.
use sql_engine.Base.{
  ℕ, zero, suc, ◌≤◌, Bool, true, false, ◌≡◌, ◌≢◌, refl, sym, ap, ◌∙◌, Option, none, some, List, [],
  ◌∷◌, ◌++◌, map, length, length-append, Text, codes, All, All-append, All_mono, if◌then◌else◌, ok,
  subst, arith,
}
use sql_engine.Base.Equality.{list_beq, list_beq_iff, text_eq}
use sql_engine.Base.Assoc.{find, insert, find-insert, IsUnique}
use sql_engine.Base.Texts.{decimal}
use sql_engine.Base.Numbers.{is_space}
use sql_engine.Schema.{Column}
use sql_engine.Wal.Read.{split, split_from}
use sql_engine.Wal.Tokens.{split_part}
use sql_engine.Catalog.{Catalog, TableMeta, IndexInfo, data_type_to_string}
use sql_engine.Catalog.Saved.{
  column_line, spaced, index_line, table_lines, joined, saved_lines, save, load_loop, load,
}
use sql_engine.Catalog.Words.{IsName, decimal-IsName}
use sql_engine.Catalog.Loading.{
  IsSavedColumn, IsSavedIndex, IsSaved, data_type_to_string-IsName, columns_tag, indexes_tag,
  stats_tag, table_lines-body, read_table-body,
}

-- A table of the catalog, or else one that was there before.
abbrev first_of : Option TableMeta → Option TableMeta → Option TableMeta
first_of none before = before
first_of (some t) before = some t

abbrev found_in : Text → Catalog → Catalog → Option TableMeta
found_in k c before = first_of (find k c) (find k before)

more_lines :
    (name : Text) (t : TableMeta) (rest : List Text)
    → suc (length rest) ≤ length (table_lines name t ++ rest)
unfolding table_lines
more_lines name t rest = omega (arith, length-append (table_lines name t) rest)

-- A table that was put in before the others.
first_of-put :
    (b : Bool) (t : TableMeta) (later before : Option TableMeta)
    → (b ≡ true → later ≡ none)
    → first_of later (if b then some t else before) ≡ first_of (if b then some t else later) before
first_of-put true t later before h = ap (λ o. first_of o (some t)) (h refl)
first_of-put false t later before h = refl

found_in-insert :
    (name k : Text) (t : TableMeta) (c before : Catalog)
    → find name c ≡ none
    → found_in k c (insert name t before) ≡ found_in k ((name, t) ∷ c) before
unfolding find
found_in-insert name k t c before u =
    ap (first_of (find k c)) (find-insert name k t before)
    ∙ first_of-put (list_beq name k) t (find k c) (find k before)
        (λ e. ap (λ x. find x c) (sym ((list_beq_iff name k).0 e)) ∙ u)

load_loop-saved_lines :
    (fuel : ℕ) (c before : Catalog)
    → All IsSaved c
    → IsUnique c
    → length (saved_lines c) ≤ fuel
    → (c' : Catalog) × (load_loop fuel (saved_lines c) before ≡ ok c')
      × ((k : Text) → find k c' ≡ found_in k c before)
unfolding load_loop saved_lines find
load_loop-saved_lines fuel [] before h u l = (before, refl, λ k. refl)
load_loop-saved_lines zero ((name, t) ∷ c) before h u l =
    absurd (omega (arith, l, more_lines name t (saved_lines c)))
load_loop-saved_lines (suc fuel) ((name, t) ∷ c) before h u l =
    let lines = table_lines-body name t (saved_lines c) in
    let (c', runs, finds) =
      load_loop-saved_lines fuel c (insert name t before) h.1 u.1
        (omega (arith, l, more_lines name t (saved_lines c))) in
    (
      c',
      ap (λ ls. load_loop (suc fuel) ls before) lines
          ∙ rw (read_table-body name t (saved_lines c) h.0, load_loop) runs,
      λ k. finds k ∙ found_in-insert name k t c before u.0,
    )

-- The lines of the text come apart again.
split-joined : (ls : List Text) → All (All (λ c. c ≢ 10)) ls → split_from 10 [] (joined ls) ≡ ls
unfolding joined split_from
split-joined [] h = refl
split-joined (l ∷ ls) h = split_part 10 l (joined ls) h.0 ∙ ap (◌∷◌ l) (split-joined ls h.1)

no_newline : (s : Text) → All (λ c. is_space c ≡ false) s → All (λ c. c ≢ 10) s
no_newline =
    All_mono (λ c. is_space c ≡ false) (λ c. c ≢ 10) (λ c h e. absurd (ground (arith, h, e)))

-- Two texts with a space between them.
two_words :
    (s rest : Text)
    → All (λ c. c ≢ 10) s
    → All (λ c. c ≢ 10) rest
    → All (λ c. c ≢ 10) (s ++ 32 ∷ rest)
two_words s rest h g = All-append (λ c. c ≢ 10) s (32 ∷ rest) h (omega arith, g)

decimal_line : (n : ℕ) → All (λ c. c ≢ 10) (decimal n)
decimal_line n = no_newline (decimal n) (decimal-IsName n).1

spaced_line : (ws : List Text) → All IsName ws → All (λ c. c ≢ 10) (spaced ws)
unfolding spaced
spaced_line [] h = tt
spaced_line (w ∷ ws) h =
    (omega arith, All-append (λ c. c ≢ 10) w (spaced ws) (no_newline w h.0.1) (spaced_line ws h.1))

column_lines-All :
    (cs : List Column) → All IsSavedColumn cs → All (All (λ c. c ≢ 10)) (map column_line cs)
unfolding column_line
column_lines-All [] h = tt
column_lines-All (c ∷ cs) h = (
  two_words c.name (data_type_to_string c.type ++ 32 ∷ decimal c.length) (no_newline c.name h.0.0.1)
      (two_words (data_type_to_string c.type) (decimal c.length)
        (no_newline (data_type_to_string c.type) (data_type_to_string-IsName c.type).1)
        (decimal_line c.length)),
  column_lines-All cs h.1,
)

index_lines-All :
    (is : List IndexInfo) → All IsSavedIndex is → All (All (λ c. c ≢ 10)) (map index_line is)
unfolding index_line
index_lines-All [] h = tt
index_lines-All (i ∷ is) h = (
  two_words i.name (decimal (length i.columns) ++ spaced i.columns) (no_newline i.name h.0.0.1) (
      All-append (λ c. c ≢ 10) (decimal (length i.columns)) (spaced i.columns)
        (decimal_line (length i.columns)) (spaced_line i.columns h.0.1)),
  index_lines-All is h.1,
)

tagged_line :
    (tag : Text) (n : ℕ)
    → All (λ c. is_space c ≡ false) tag
    → All (λ c. c ≢ 10) (tag ++ 32 ∷ decimal n)
tagged_line tag n h = two_words tag (decimal n) (no_newline tag h) (decimal_line n)

saved_lines-All : (c : Catalog) → All IsSaved c → All (All (λ x. x ≢ 10)) (saved_lines c)
unfolding saved_lines
saved_lines-All [] h = tt
saved_lines-All ((name, t) ∷ c) h =
    let (plain, made, cols, idxs, num_cols, num_idx, rows) = h.0 in
    let end_line = no_newline (codes "END") (refl, (refl, (refl, tt))) in
    let stats_line = tagged_line stats_tag t.row_count (refl, (refl, (refl, (refl, (refl, tt))))) in
    subst (All (All (λ x. x ≢ 10))) (sym (table_lines-body name t (saved_lines c))) (
      two_words (codes "TABLE") name
          (no_newline (codes "TABLE") (refl, (refl, (refl, (refl, (refl, tt)))))) plain,
      (
        tagged_line columns_tag (length t.schema.columns)
            (refl, (refl, (refl, (refl, (refl, (refl, (refl, tt))))))),
        All-append (All (λ x. x ≢ 10)) (map column_line t.schema.columns) _
            (column_lines-All t.schema.columns cols)
            (
              tagged_line indexes_tag (length t.indexes)
                  (refl, (refl, (refl, (refl, (refl, (refl, (refl, tt))))))),
              All-append (All (λ x. x ≢ 10)) (map index_line t.indexes) _
                  (index_lines-All t.indexes idxs) (stats_line, (end_line, saved_lines-All c h.1)),
            ),
      ),
    )

-- A catalog that `load` reads from the file that `save` wrote has the same tables: the same schema,
-- indexes and number of rows under each name. No two tables have one name; names of columns and indexes
-- have no blanks and are not empty, names of tables have no newline, schemas are such as their
-- constructor accepts, and numbers have 64 bits.
pub load-save :
    (c before : Catalog)
    → All IsSaved c
    → IsUnique c
    → (c' : Catalog) × (load (some (save c)) before ≡ ok c') × ((k : Text) → find k c' ≡ find k c)
unfolding load save split find
load-save c before h u =
    let lines = split-joined (saved_lines c) (saved_lines-All c h) in
    let (c', runs, finds) = load_loop-saved_lines (length (saved_lines c)) c [] h u (omega arith) in
    (
      c',
      ap (λ ls. load_loop (length ls) ls []) lines ∙ runs,
      λ k. finds k ∙ nothing_before (find k c),
    )
  where
    nothing_before : (o : Option TableMeta) → first_of o none ≡ o
    nothing_before none = refl
    nothing_before (some t) = refl
