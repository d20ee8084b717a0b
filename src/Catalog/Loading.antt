-- ===== src/Catalog/Loading.antt =====
-- What `load` of catalog/Catalog.cpp reads from the text that `save` writes.
use sql_engine.Base.{
  ℕ, ◌<◌, ◌≡◌, ◌≢◌, refl, sym, ap, ◌∙◌, List, [], ◌∷◌, ◌++◌, append_assoc, append-nil, map, length,
  Text, codes, All, ok,
}
use sql_engine.Base.Equality.{text_eq}
use sql_engine.Base.Texts.{decimal}
use sql_engine.Schema.{Column, DataType, int_type, string_type, make_schema}
use sql_engine.Catalog.{TableMeta, IndexInfo, data_type_to_string, string_to_data_type}
use sql_engine.Catalog.Saved.{
  column_line, spaced, index_line, table_lines, extract_size, next_line, read_column, read_columns,
  read_index, read_indexes, read_count, read_table,
}
use sql_engine.Catalog.Words.{
  IsName, extract_word-name, extract_word-spaced, extract_size-decimal, read_words-spaced,
  spaced-IsEnd,
}

-- A std::size_t.
abbrev pub IsSize : ℕ → Type 0
IsSize n = n < 18446744073709551616

abbrev pub IsSavedColumn : Column → Type 0
IsSavedColumn c = IsName c.name × IsSize c.length

abbrev pub IsSavedIndex : IndexInfo → Type 0
IsSavedIndex i = IsName i.name × All IsName i.columns × IsSize (length i.columns)

-- The names of columns and indexes have no blanks, that of the table no newline; the schema is one that
-- its constructor accepts, and the numbers have 64 bits.
abbrev pub IsSaved : Text × TableMeta → Type 0
IsSaved e =
    All (λ c. c ≢ 10) e.0
    × (make_schema e.1.schema.columns ≡ ok e.1.schema)
    × All IsSavedColumn e.1.schema.columns
    × All IsSavedIndex e.1.indexes
    × IsSize (length e.1.schema.columns)
    × IsSize (length e.1.indexes)
    × IsSize e.1.row_count

pub data_type_to_string-IsName : (t : DataType) → IsName (data_type_to_string t)
unfolding data_type_to_string
data_type_to_string-IsName int_type = (λ e. cc, (refl, (refl, (refl, tt))))
data_type_to_string-IsName string_type =
    (λ e. cc, (refl, (refl, (refl, (refl, (refl, (refl, tt)))))))

string_to_data_type-data_type_to_string :
    (t : DataType) → string_to_data_type (data_type_to_string t) ≡ ok t
unfolding data_type_to_string string_to_data_type
string_to_data_type-data_type_to_string int_type = refl
string_to_data_type-data_type_to_string string_type = refl

size_at_end : (n : ℕ) → IsSize n → extract_size (32 ∷ decimal n) ≡ ok (n, [])
size_at_end n h =
    ap (λ s. extract_size (32 ∷ s)) (sym (append-nil (decimal n))) ∙ extract_size-decimal n [] h tt

read_column-column_line : (c : Column) → IsSavedColumn c → read_column (column_line c) ≡ ok c
unfolding read_column column_line
read_column-column_line c h =
    rw
      (
        extract_word-name c.name (32 ∷ (data_type_to_string c.type ++ 32 ∷ decimal c.length)) h.0
            refl,
        extract_word-spaced (data_type_to_string c.type) (32 ∷ decimal c.length)
            (data_type_to_string-IsName c.type) refl,
        size_at_end c.length h.1,
        string_to_data_type-data_type_to_string c.type,
      )
      refl

read_columns-map :
    (cs : List Column) (rest : List Text)
    → All IsSavedColumn cs
    → read_columns (length cs) (map column_line cs ++ rest) ≡ ok (cs, rest)
unfolding read_columns next_line
read_columns-map [] rest h = refl
read_columns-map (c ∷ cs) rest h =
    rw (read_column-column_line c h.0, read_columns) (rw (read_columns-map cs rest h.1) refl)

read_index-index_line : (i : IndexInfo) → IsSavedIndex i → read_index (index_line i) ≡ ok i
unfolding read_index index_line
read_index-index_line i h =
    rw
      (
        extract_word-name i.name (32 ∷ (decimal (length i.columns) ++ spaced i.columns)) h.0 refl,
        extract_size-decimal (length i.columns) (spaced i.columns) h.2 (spaced-IsEnd i.columns),
        read_words-spaced i.columns h.1,
      )
      refl

read_indexes-map :
    (is : List IndexInfo) (rest : List Text)
    → All IsSavedIndex is
    → read_indexes (length is) (map index_line is ++ rest) ≡ ok (is, rest)
unfolding read_indexes next_line
read_indexes-map [] rest h = refl
read_indexes-map (i ∷ is) rest h =
    rw (read_index-index_line i h.0, read_indexes) (rw (read_indexes-map is rest h.1) refl)

read_count-tag :
    (tag : Text) (n : ℕ) → IsName tag → IsSize n → read_count (tag ++ 32 ∷ decimal n) ≡ ok n
unfolding read_count
read_count-tag tag n t h =
    rw (extract_word-name tag (32 ∷ decimal n) t refl, size_at_end n h, read_count) refl

abbrev pub columns_tag : Text
columns_tag = codes "COLUMNS"

abbrev pub indexes_tag : Text
indexes_tag = codes "INDEXES"

abbrev pub stats_tag : Text
stats_tag = codes "STATS"

-- The lines of a table behind the first, and those that follow it.
abbrev body_lines : TableMeta → List Text → List Text
body_lines t rest =
    (columns_tag ++ 32 ∷ decimal (length t.schema.columns))
    ∷ (map column_line t.schema.columns
        ++ (indexes_tag ++ 32 ∷ decimal (length t.indexes))
          ∷ (map index_line t.indexes
              ++ (stats_tag ++ 32 ∷ decimal t.row_count) ∷ codes "END" ∷ rest))

pub table_lines-body :
    (name : Text) (t : TableMeta) (rest : List Text)
    → table_lines name t ++ rest ≡ (codes "TABLE " ++ name) ∷ body_lines t rest
unfolding table_lines
table_lines-body name t rest =
    ap
      (λ ls.
        (codes "TABLE " ++ name) ∷ (columns_tag ++ 32 ∷ decimal (length t.schema.columns)) ∷ ls)
      (append_assoc (map column_line t.schema.columns) _ rest
        ∙ ap
            (λ ls.
              map column_line t.schema.columns
              ++ (indexes_tag ++ 32 ∷ decimal (length t.indexes)) ∷ ls)
            (append_assoc (map index_line t.indexes) _ rest))

pub read_table-body :
    (name : Text) (t : TableMeta) (rest : List Text)
    → IsSaved (name, t)
    → read_table (body_lines t rest) ≡ ok (t, rest)
unfolding read_table next_line
read_table-body name t rest h =
    let (plain, made, cols, idxs, num_cols, num_idx, rows) = h in
    let behind = (stats_tag ++ 32 ∷ decimal t.row_count) ∷ codes "END" ∷ rest in
    rw
      (
        read_count-tag columns_tag (length t.schema.columns)
            ((λ e. cc), (refl, (refl, (refl, (refl, (refl, (refl, (refl, tt)))))))) num_cols,
        read_columns-map t.schema.columns
            ((indexes_tag ++ 32 ∷ decimal (length t.indexes))
              ∷ (map index_line t.indexes ++ behind))
            cols,
        made,
      )
      (rw
        (
          read_count-tag indexes_tag (length t.indexes)
              ((λ e. cc), (refl, (refl, (refl, (refl, (refl, (refl, (refl, tt)))))))) num_idx,
          read_indexes-map t.indexes behind idxs,
        )
        (rw
          (read_count-tag stats_tag t.row_count
            ((λ e. cc), (refl, (refl, (refl, (refl, (refl, tt)))))) rows)
          refl))
