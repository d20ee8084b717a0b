-- ===== src/Catalog/Saved.antt =====
-- `save` and `load` of catalog/Catalog.cpp: the tables as the text of catalog.meta, and read back. A
-- line of the text ends with a newline. What the code does with a number that is missing or malformed
-- is `undefined`, and a load that throws leaves no catalog here.
use sql_engine.Base.{
  ℕ, zero, suc, Bool, true, ◌&&◌, Option, none, some, List, [], ◌∷◌, ◌++◌, map, length, drop, take,
  Text, codes, ltb, if◌then◌else◌, Result, ok, err, ◌>>=◌, undefined, out_of_fuel,
}
use sql_engine.Base.Equality.{list_beq, text_eq}
use sql_engine.Base.Assoc.{insert}
use sql_engine.Base.Texts.{decimal}
use sql_engine.Base.Numbers.{is_digit, is_space, read_unsigned}
use sql_engine.Schema.{Column, make_schema}
use sql_engine.Wal.Read.{split}
use sql_engine.Catalog.{Catalog, TableMeta, IndexInfo, data_type_to_string, string_to_data_type}

-- out << c.name << ' ' << dataTypeToString(c.type) << ' ' << c.length
unfoldable pub column_line : Column → Text
unfolding data_type_to_string decimal
column_line c = c.name ++ 32 ∷ (data_type_to_string c.type ++ 32 ∷ decimal c.length)

-- Each text behind a space.
unfoldable pub spaced : List Text → Text
spaced [] = []
spaced (w ∷ ws) = 32 ∷ (w ++ spaced ws)

unfoldable pub index_line : IndexInfo → Text
unfolding decimal spaced
index_line i = i.name ++ 32 ∷ (decimal (length i.columns) ++ spaced i.columns)

unfoldable pub table_lines : Text → TableMeta → List Text
unfolding column_line index_line decimal
table_lines name t =
    (codes "TABLE " ++ name)
    ∷ (codes "COLUMNS " ++ decimal (length t.schema.columns))
    ∷ (map column_line t.schema.columns
        ++ (codes "INDEXES " ++ decimal (length t.indexes))
          ∷ (map index_line t.indexes
              ++ (codes "STATS " ++ decimal t.row_count) ∷ codes "END" ∷ []))

-- Lines, each with its newline.
unfoldable pub joined : List Text → Text
joined [] = []
joined (l ∷ ls) = l ++ 10 ∷ joined ls

unfoldable pub saved_lines : Catalog → List Text
unfolding table_lines
saved_lines [] = []
saved_lines ((name, t) ∷ c) = table_lines name t ++ saved_lines c

-- The content of the file that `save` writes.
unfoldable pub save : Catalog → Text
unfolding saved_lines joined
save c = joined (saved_lines c)

-- in >> word: the word and what follows it; it is empty at the end of the line.
unfoldable pub skip_spaces : Text → Text
skip_spaces [] = []
skip_spaces (c ∷ cs) = let rest = skip_spaces cs in if is_space c then rest else c ∷ cs

unfoldable pub span_word : Text → Text × Text
span_word [] = ([], [])
span_word (c ∷ cs) =
    let (word, rest) = span_word cs in if is_space c then ([], c ∷ cs) else (c ∷ word, rest)

unfoldable pub extract_word : Text → Text × Text
unfolding skip_spaces span_word
extract_word s = span_word (skip_spaces s)

unfoldable pub all_digits : Text → Bool
all_digits [] = true
all_digits (c ∷ cs) = is_digit c && all_digits cs

-- A std::size_t.
unfoldable pub size_in : Text → Result ℕ
unfolding all_digits read_unsigned
size_in w = elim (read_unsigned w) [
  | none ↦ err undefined
  | some n ↦ if all_digits w && ltb n 18446744073709551616 then ok n else err undefined
]

unfoldable pub extract_size : Text → Result (ℕ × Text)
unfolding extract_word size_in
extract_size s = do n ← size_in (extract_word s).0; ok (n, (extract_word s).1)

-- std::getline; it leaves an empty line at the end of the file.
unfoldable pub next_line : List Text → Text × List Text
next_line [] = ([], [])
next_line (l ∷ ls) = (l, ls)

unfoldable pub read_column : Text → Result Column
unfolding extract_word extract_size string_to_data_type
read_column line =
    let (name, r1) = extract_word line in
    let (dt, r2) = extract_word r1 in
    do
      (len, r3) ← extract_size r2
      type ← string_to_data_type dt
      ok (record { name = name; type = type; length = len })

unfoldable pub read_columns : ℕ → List Text → Result (List Column × List Text)
unfolding next_line read_column
read_columns zero lines = ok ([], lines)
read_columns (suc n) lines = do
  c ← read_column (next_line lines).0
  (cs, rest) ← read_columns n (next_line lines).1
  ok (c ∷ cs, rest)

unfoldable pub read_words : ℕ → Text → List Text
unfolding extract_word
read_words zero s = []
read_words (suc n) s = (extract_word s).0 ∷ read_words n (extract_word s).1

unfoldable pub read_index : Text → Result IndexInfo
unfolding extract_word extract_size read_words
read_index line = do
  (count, rest) ← extract_size (extract_word line).1
  ok (record { name = (extract_word line).0; columns = read_words count rest })

unfoldable pub read_indexes : ℕ → List Text → Result (List IndexInfo × List Text)
unfolding next_line read_index
read_indexes zero lines = ok ([], lines)
read_indexes (suc n) lines = do
  i ← read_index (next_line lines).0
  (is, rest) ← read_indexes n (next_line lines).1
  ok (i ∷ is, rest)

-- A tag and a number.
unfoldable pub read_count : Text → Result ℕ
unfolding extract_word extract_size
read_count line = do (n, rest) ← extract_size (extract_word line).1; ok n

-- What stands behind the line of a table.
unfoldable pub read_table : List Text → Result (TableMeta × List Text)
unfolding next_line read_count read_columns read_indexes make_schema
read_table lines = do
  num_cols ← read_count (next_line lines).0
  (cols, r1) ← read_columns num_cols (next_line lines).1
  schema ← make_schema cols
  num_idx ← read_count (next_line r1).0
  (idxs, r2) ← read_indexes num_idx (next_line r1).1
  row_count ← read_count (next_line r2).0
  ok (
    record { schema = schema; indexes = idxs; row_count = row_count },
    (next_line (next_line r2).1).1,
  )

-- The loop over the lines. It takes a line in each round.
unfoldable pub load_loop : ℕ → List Text → Catalog → Result Catalog
unfolding read_table insert
load_loop fuel [] c = ok c
load_loop zero (l ∷ ls) c = err out_of_fuel
load_loop (suc fuel) (l ∷ ls) c =
    let skipped = load_loop fuel ls c in
    if list_beq (take 6 l) (codes "TABLE ")
    then (do (t, rest) ← read_table ls; load_loop fuel rest (insert (drop 6 l) t c))
    else skipped

-- `none`: there is no such file.
unfoldable pub load : Option Text → Catalog → Result Catalog
unfolding load_loop split
load none c = ok c
load (some content) c = load_loop (length (split content 10)) (split content 10) []
