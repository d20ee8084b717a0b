-- ===== src/Engine/Examples.antt =====
-- A table of INT ids and short names on pages of 32 bytes, with an index of up to four keys.
use sql_engine.Base.{
  ℕ, true, false, ◌≡◌, refl, none, some, List, [], ◌∷◌, ◌++◌, map, get_elem?, replicate, ℤ, pos,
  codes, Text, Result, ok, err, if◌then◌else◌, arith, deleted_record, table_registered,
}
use sql_engine.Base.Int.{eq_ℤ}
use sql_engine.Base.Equality.{text_eq}
use sql_engine.Base.Assoc.{find, insert, contains}
use sql_engine.Schema.{int_type, string_type, Column, make_schema, get_column}
use sql_engine.Record.{FieldValue, Row, int, str, make_row, serialize, of_word, word_of}
use sql_engine.Record.Fields.{as_stored}
use sql_engine.Files.{get_page_count, read_page}
use sql_engine.Buffer.{BufferManager, fetch_page}
use sql_engine.Heap.Slots.{place, set_slot_alive, set_record}
use sql_engine.Heap.{RecordId, TableHeap, insert_record, delete_record, update_record}
use sql_engine.Tree.Nodes.{BPlusTree, leaf_node, find_key, remove_key}
use sql_engine.Tree.Insert.{empty_leaf, new_tree, insert_key}
use sql_engine.Tree.History.{new_tree-IsLeafOf}
use sql_engine.Engine.{
  Parts, TableInfo, StorageEngine, insert_record as insert_row, register_table, delete_by_key,
  update_by_key, find_by_key, fetch_record,
}
use sql_engine.Engine.Keys.{
  Entries, with_entry, Laws, insert_record-find_by_key, delete_by_key-find_by_key,
  update_by_key-find_by_key,
}
use sql_engine.Ast.{Ast, insert as insert_ast, InsertStmt, int_literal, str_literal}
use sql_engine.Parser.{parse}
use sql_engine.Parser.Lexer.{tokenize}
use sql_engine.Parser.Statement.{parse_statement}
use sql_engine.Binder.{bind}
use sql_engine.Catalog.{Catalog, get_table, get_column_info}
use sql_engine.Engine.Statements.{literal_values, execute_query}
use sql_engine.Engine.Inserts.{execute_query-find_by_key}
use sql_engine.Engine.Paged.{paged_parts, paged_parts-Laws, IsPagedIndex, IsPagedRow, stored_row}

abbrev customer_columns : List Column
customer_columns =
    (record { name = codes "id"; type = int_type; length = 0 })
    ∷ (record { name = codes "name"; type = string_type; length = 8 })
    ∷ []

abbrev customers : TableHeap
customers = record {
  file_id = 1;
  schema = record { columns = customer_columns; record_size = 12 };
  max_slots = 2;
}

abbrev alice : List FieldValue
alice = int (pos 7) ∷ str (codes "Alice") ∷ []

abbrev alicia : List FieldValue
alicia = int (pos 7) ∷ str (codes "Alicia") ∷ []

abbrev empty_pool : BufferManager
empty_pool = record {
  files = record {
    next_file_id = 2;
    files = (1, record { content = replicate 32 0; free_list = [] }) ∷ [];
  };
  frames =
      (record { is_valid = false; is_dirty = false; pin_count = 0; pid = none; bytes = [] }) ∷ [];
  page_table = [];
  clock_hand = 0;
}

abbrev first : RecordId
first = record { page_id = pos 0; slot_num = pos 0 }

abbrev no_id : RecordId
no_id = record { page_id = pos 0; slot_num = pos 0 }

-- The pool with a page of these bytes.
abbrev pool_with : List ℕ → BufferManager
pool_with page = record {
  files = empty_pool.files;
  frames =
      (record {
        is_valid = true;
        is_dirty = true;
        pin_count = 0;
        pid = some (record { file_id = 1; page_id = 0 });
        bytes = page;
      })
      ∷ [];
  page_table = (record { file_id = 1; page_id = 0 }, 0) ∷ [];
  clock_hand = 0;
}

-- The page with the record of alice, with the byte that tells whether it is alive and those of her name.
abbrev page_with : ℕ → List ℕ → List ℕ
page_with alive name = 1 ∷ 0 ∷ 0 ∷ 0 ∷ alive ∷ 7 ∷ 0 ∷ 0 ∷ 0 ∷ (name ++ replicate 15 0)

abbrev alice_name : List ℕ
alice_name = 65 ∷ 108 ∷ 105 ∷ 99 ∷ 101 ∷ 0 ∷ 0 ∷ 0 ∷ []

abbrev alicia_name : List ℕ
alicia_name = 65 ∷ 108 ∷ 105 ∷ 99 ∷ 105 ∷ 97 ∷ 0 ∷ 0 ∷ []

abbrev index_with : ℕ → ℤ → BPlusTree RecordId
index_with count key = record {
  root_page = 1;
  next_page = 2;
  pages =
      (
        1,
        leaf_node
            (record {
              num_keys = count;
              keys = key ∷ replicate 3 (pos 0);
              values = replicate 4 first;
            })
            none,
      )
      ∷ [];
}

abbrev parts : Parts BufferManager TableHeap (BPlusTree RecordId)
parts = paged_parts 32 4 0 no_id (λ path. []) (λ b fid. index_with 0 (pos 0))

abbrev IsIdx : BPlusTree RecordId → BufferManager → Entries → Type 0
IsIdx = IsPagedIndex 32 4 0 no_id (λ path. []) (λ b fid. index_with 0 (pos 0))

abbrev IsRow : TableHeap → List FieldValue → Type 0
IsRow = IsPagedRow 32 4 0 no_id (λ path. []) (λ b fid. index_with 0 (pos 0))

abbrev stored_here : TableHeap → List FieldValue → Row
stored_here = stored_row 32 4 0 no_id (λ path. []) (λ b fid. index_with 0 (pos 0))

abbrev laws : Laws parts IsIdx IsRow stored_here
laws = paged_parts-Laws 32 4 0 no_id (λ path. []) (λ b fid. index_with 0 (pos 0))

abbrev table_with : BPlusTree RecordId → TableInfo TableHeap (BPlusTree RecordId)
table_with index = record {
  schema = customers.schema;
  heap = customers;
  index = index;
  pk_col_idx = 0;
}

abbrev engine_with :
    BufferManager → BPlusTree RecordId → StorageEngine BufferManager TableHeap (BPlusTree RecordId)
engine_with pool index = record { pool = pool; tables = (codes "c", table_with index) ∷ [] }

-- Before and after the insertion of alice, and after her update and her removal.
abbrev no_rows : StorageEngine BufferManager TableHeap (BPlusTree RecordId)
no_rows = engine_with empty_pool (index_with 0 (pos 0))

abbrev with_alice : StorageEngine BufferManager TableHeap (BPlusTree RecordId)
with_alice = engine_with (pool_with (page_with 1 alice_name)) (index_with 1 (pos 7))

abbrev with_alicia : StorageEngine BufferManager TableHeap (BPlusTree RecordId)
with_alicia = engine_with (pool_with (page_with 1 alicia_name)) (index_with 1 (pos 7))

abbrev without_alice : StorageEngine BufferManager TableHeap (BPlusTree RecordId)
without_alice = engine_with (pool_with (page_with 0 alice_name)) (index_with 0 (pos 7))

inserted : insert_row parts no_rows (codes "c") alice ≡ (with_alice, ok first)
unfolding insert_row insert_record fetch_page find insert make_row serialize get_page_count
    read_page place of_word word_of insert_key
inserted = refl

updated : update_by_key parts with_alice (codes "c") (pos 7) alicia ≡ (with_alicia, ok true)
unfolding update_by_key update_record fetch_page find insert make_row serialize get_page_count
    set_record of_word word_of find_key
updated = refl

deleted : delete_by_key parts with_alice (codes "c") (pos 7) ≡ (without_alice, ok true)
unfolding delete_by_key delete_record fetch_page find insert get_page_count set_slot_alive of_word
    word_of find_key remove_key
deleted = refl

registered :
    (register_table parts
      (engine_with empty_pool (index_with 0 (pos 0)))
      (codes "c")
      customers.schema
      []
      []
      (codes "id")).1
    ≡ err (table_registered (codes "c"))
unfolding register_table contains find
registered = refl

empty_index : IsIdx (index_with 0 (pos 0)) empty_pool (λ k. none)
unfolding new_tree insert
empty_index = (empty_leaf 4 no_id, new_tree-IsLeafOf 4 no_id)

-- The index holds alice.
one_entry :
    IsIdx (index_with 1 (pos 7)) with_alice.pool (with_entry (λ k. none) (pos 7) (some first))
unfolding insert_key find insert
one_entry =
    (laws.inserted (index_with 0 (pos 0)) (index_with 1 (pos 7)) with_alice.pool with_alice.pool
      (λ k. none) (pos 7) first empty_index refl).0

accepted : make_schema customer_columns ≡ ok customers.schema
unfolding make_schema
accepted = refl

here :
    (e : StorageEngine BufferManager TableHeap (BPlusTree RecordId))
    (ti : TableInfo TableHeap (BPlusTree RecordId))
    → e.tables ≡ (codes "c", ti) ∷ []
    → find (codes "c") e.tables ≡ some ti
unfolding find
here e ti h = rw h refl

insert_record-find_by_key_example :
    (key : ℤ) × (get_elem? alice 0 ≡ some (int key))
    × ((k : ℤ)
        → (find_by_key parts with_alice (codes "c") k).1
          ≡ ok (if eq_ℤ k key then some first else none))
    × ((fetch_record parts with_alice (codes "c") first).1 ≡ ok (map as_stored alice))
insert_record-find_by_key_example =
    insert_record-find_by_key parts IsIdx IsRow stored_here laws no_rows with_alice (codes "c")
      (table_with (index_with 0 (pos 0))) (λ k. none) alice first
      (here no_rows (table_with (index_with 0 (pos 0))) refl) empty_index
      (customer_columns, accepted, omega arith, (refl, (tt, tt))) inserted

update_by_key-find_by_key_example :
    (rid : RecordId) × (with_entry (λ k. none) (pos 7) (some first) (pos 7) ≡ some rid)
    × (get_elem? alicia 0 ≡ some (int (pos 7)))
    × ((k : ℤ)
        → (find_by_key parts with_alicia (codes "c") k).1
          ≡ ok (with_entry (λ k. none) (pos 7) (some first) k))
    × ((fetch_record parts with_alicia (codes "c") rid).1 ≡ ok (map as_stored alicia))
update_by_key-find_by_key_example =
    update_by_key-find_by_key parts IsIdx IsRow stored_here laws with_alice with_alicia (codes "c")
      (table_with (index_with 1 (pos 7))) (with_entry (λ k. none) (pos 7) (some first)) (pos 7)
      alicia (here with_alice (table_with (index_with 1 (pos 7))) refl) one_entry
      (customer_columns, accepted, omega arith, (refl, (tt, tt))) updated

delete_by_key-find_by_key_example :
    (rid : RecordId) × (with_entry (λ k. none) (pos 7) (some first) (pos 7) ≡ some rid)
    × ((k : ℤ)
        → (find_by_key parts without_alice (codes "c") k).1
          ≡ ok (if eq_ℤ k (pos 7) then none else with_entry (λ k. none) (pos 7) (some first) k))
    × ((fetch_record parts without_alice (codes "c") rid).1 ≡ err deleted_record)
delete_by_key-find_by_key_example =
    delete_by_key-find_by_key parts IsIdx IsRow stored_here laws with_alice without_alice
      (codes "c") (table_with (index_with 1 (pos 7))) (with_entry (λ k. none) (pos 7) (some first))
      (pos 7) (here with_alice (table_with (index_with 1 (pos 7))) refl) one_entry deleted

abbrev cat : Catalog
cat = (codes "c", record { schema = customers.schema; indexes = []; row_count = 0 }) ∷ []

abbrev sql : Text
sql = codes "INSERT INTO c VALUES (7, 'Alice')"

abbrev insertion : List Text → InsertStmt
insertion columns = record {
  table = codes "c";
  columns = columns;
  values = int_literal (pos 7) ∷ str_literal (codes "Alice") ∷ [];
}

parsed : parse sql ≡ ok (insert_ast (insertion []))
unfolding parse tokenize parse_statement
parsed = refl

bound :
    bind [] cat (insert_ast (insertion []))
    ≡ ok (insert_ast (insertion (codes "id" ∷ codes "name" ∷ [])))
unfolding bind get_table get_column_info find get_column
bound = refl

abbrev no_query :
    StorageEngine BufferManager TableHeap (BPlusTree RecordId)
    → Ast
    → StorageEngine BufferManager TableHeap (BPlusTree RecordId) × Result (List (List FieldValue))
no_query e ast = (e, ok [])

executed : execute_query parts (λ schema name. 0) cat no_query [] no_rows sql ≡ (with_alice, ok [])
unfolding execute_query insert_row insert_record fetch_page find insert make_row serialize
    get_page_count read_page place of_word word_of insert_key parse tokenize parse_statement bind
    get_table get_column_info get_column
executed = refl

literals : literal_values (int_literal (pos 7) ∷ str_literal (codes "Alice") ∷ []) ≡ ok alice
unfolding literal_values
literals = refl

execute_query-find_by_key_example :
    (key : ℤ) × (rid : RecordId) × (get_elem? alice 0 ≡ some (int key))
    × ((k : ℤ)
        → (find_by_key parts with_alice (codes "c") k).1
          ≡ ok (if eq_ℤ k key then some rid else none))
    × ((fetch_record parts with_alice (codes "c") rid).1 ≡ ok (map as_stored alice))
execute_query-find_by_key_example =
    execute_query-find_by_key parts (λ schema name. 0) cat IsIdx IsRow stored_here laws no_query []
      no_rows with_alice sql (insert_ast (insertion []))
      (insertion (codes "id" ∷ codes "name" ∷ [])) alice [] (table_with (index_with 0 (pos 0)))
      (λ k. none) parsed bound literals (here no_rows (table_with (index_with 0 (pos 0))) refl)
      empty_index (customer_columns, accepted, omega arith, (refl, (tt, tt))) executed
