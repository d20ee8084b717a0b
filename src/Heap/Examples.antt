-- ===== src/Heap/Examples.antt =====
-- A table of INT ids and short names on pages of 32 bytes, in a pool of one frame.
use sql_engine.Base.{
  ℕ, true, false, ◌≡◌, refl, none, some, List, [], ◌∷◌, map, replicate, pos, codes, ok, err, arith,
  deleted_record,
}
use sql_engine.Base.Equality.{nat_eq}
use sql_engine.Base.Assoc.{find, insert}
use sql_engine.Schema.{int_type, string_type, Column, make_schema}
use sql_engine.Record.{
  FieldValue, int, str, make_row, serialize, deserialize, of_word, word_of, int_bytes,
}
use sql_engine.Record.Fields.{as_stored}
use sql_engine.Files.{get_page_count, read_page}
use sql_engine.Buffer.{BufferManager, fetch_page, unpin_page}
use sql_engine.Heap.Slots.{row_at, place, get_num_slots, set_slot_alive, set_record}
use sql_engine.Heap.{
  RecordId, TableHeap, insert_record, delete_record, update_record, get_record, table_scan,
}
use sql_engine.Heap.Place.{IsPlaced, place-IsPlaced}
use sql_engine.Heap.RoundTrip.{get_record-insert_record}
use sql_engine.Heap.Delete.{get_record-delete_record}
use sql_engine.Record.Typed.{Conforms}
use sql_engine.Heap.Typed.{get_record-Conforms}
use sql_engine.Heap.Update.{get_record-update_record}

abbrev customer_columns : List Column
customer_columns =
    (record { name = codes "id"; type = int_type; length = 0 })
    ∷ (record { name = codes "name"; type = string_type; length = 8 })
    ∷ []

abbrev customers : TableHeap
customers = record {
  file_id = 1;
  schema = record { columns = customer_columns; record_size = 12 };
  max_slots = 2;
}

abbrev alice : List FieldValue
alice = int (pos 7) ∷ str (codes "Alice") ∷ []

-- The file has one page with no slots.
abbrev empty_table : BufferManager
empty_table = record {
  files = record {
    next_file_id = 2;
    files = (1, record { content = replicate 32 0; free_list = [] }) ∷ [];
  };
  frames =
      (record { is_valid = false; is_dirty = false; pin_count = 0; pid = none; bytes = [] }) ∷ [];
  page_table = [];
  clock_hand = 0;
}

abbrev first : RecordId
first = record { page_id = pos 0; slot_num = pos 0 }

-- The pool when the page has the record, with the byte that tells whether it is alive.
abbrev with_alice : ℕ → BufferManager
with_alice alive = record {
  files = empty_table.files;
  frames =
      (record {
        is_valid = true;
        is_dirty = true;
        pin_count = 0;
        pid = some (record { file_id = 1; page_id = 0 });
        bytes =
            1
            ∷ 0
            ∷ 0
            ∷ 0
            ∷ alive
            ∷ 7
            ∷ 0
            ∷ 0
            ∷ 0
            ∷ 65
            ∷ 108
            ∷ 105
            ∷ 99
            ∷ 101
            ∷ 0
            ∷ 0
            ∷ 0
            ∷ replicate 15 0;
      })
      ∷ [];
  page_table = (record { file_id = 1; page_id = 0 }, 0) ∷ [];
  clock_hand = 0;
}

inserted : insert_record 32 customers empty_table alice ≡ (with_alice 1, ok first)
unfolding insert_record fetch_page find insert make_row serialize get_page_count read_page place
    of_word word_of
inserted = refl

deleted : delete_record 32 customers (with_alice 1) first ≡ (with_alice 0, ok true)
unfolding delete_record fetch_page find insert get_page_count of_word word_of set_slot_alive
deleted = refl

scanned : (table_scan 32 customers (with_alice 1)).1 ≡ ok (first ∷ [])
unfolding table_scan fetch_page find insert get_page_count get_num_slots of_word word_of unpin_page
scanned = refl

accepted : make_schema customer_columns ≡ ok customers.schema
unfolding make_schema
accepted = refl

get_record-insert_record_example :
    (get_record 32 customers (with_alice 1) first).1
    ≡ ok (record { schema = customers.schema; values = map as_stored alice })
get_record-insert_record_example =
    get_record-insert_record 32 customers customer_columns empty_table (with_alice 1) alice first
      accepted (omega arith) (refl, (tt, tt)) inserted

get_record-delete_record_example :
    (get_record 32 customers (with_alice 0) first).1 ≡ err deleted_record
get_record-delete_record_example =
    get_record-delete_record 32 customers (with_alice 1) (with_alice 0) first deleted

abbrev bob : List FieldValue
bob = int (pos 9) ∷ str (codes "Bob") ∷ []

-- The pool when the record is that of bob.
abbrev with_bob : BufferManager
with_bob = record {
  files = empty_table.files;
  frames =
      (record {
        is_valid = true;
        is_dirty = true;
        pin_count = 0;
        pid = some (record { file_id = 1; page_id = 0 });
        bytes =
            1 ∷ 0 ∷ 0 ∷ 0 ∷ 1 ∷ 9 ∷ 0 ∷ 0 ∷ 0 ∷ 66 ∷ 111 ∷ 98 ∷ 0 ∷ 0 ∷ 0 ∷ 0 ∷ 0 ∷ replicate 15 0;
      })
      ∷ [];
  page_table = (record { file_id = 1; page_id = 0 }, 0) ∷ [];
  clock_hand = 0;
}

updated : update_record 32 customers (with_alice 1) first bob ≡ (with_bob, ok true)
unfolding update_record fetch_page find insert get_page_count make_row serialize set_record of_word
    word_of
updated = refl

get_record-update_record_example :
    (get_record 32 customers with_bob first).1
    ≡ ok (record { schema = customers.schema; values = map as_stored bob })
get_record-update_record_example =
    get_record-update_record 32 customers customer_columns (with_alice 1) with_bob first bob
      accepted (refl, (tt, tt)) updated

-- The bytes of alice, and the page before and after the insertion.
abbrev alice_bytes : List ℕ
alice_bytes = 7 ∷ 0 ∷ 0 ∷ 0 ∷ 65 ∷ 108 ∷ 105 ∷ 99 ∷ 101 ∷ 0 ∷ 0 ∷ 0 ∷ []

abbrev page_with_alice : List ℕ
page_with_alice =
    1 ∷ 0 ∷ 0 ∷ 0 ∷ 1 ∷ 7 ∷ 0 ∷ 0 ∷ 0 ∷ 65 ∷ 108 ∷ 105 ∷ 99 ∷ 101 ∷ 0 ∷ 0 ∷ 0 ∷ replicate 15 0

placed : place 12 2 (replicate 32 0) alice_bytes ≡ ok (some (0, page_with_alice))
unfolding place of_word word_of int_bytes
placed = refl

place-IsPlaced_example : IsPlaced 12 (replicate 32 0) page_with_alice 0 alice_bytes
place-IsPlaced_example =
    place-IsPlaced 12 2 (replicate 32 0) page_with_alice 0 alice_bytes placed refl (omega arith)

read :
    get_record 32 customers (with_alice 1) first
    ≡ (with_alice 1, ok (record { schema = customers.schema; values = alice }))
unfolding get_record fetch_page find insert get_page_count of_word word_of unpin_page deserialize
    make_row row_at
read = refl

get_record-Conforms_example :
    (customers.schema ≡ customers.schema) × Conforms customer_columns alice
get_record-Conforms_example =
    get_record-Conforms 32 customers (with_alice 1) (with_alice 1) first
      (record { schema = customers.schema; values = alice }) read
