-- ===== src/Wal/Runs.antt =====
-- A recovery of the engine: a table of INT ids and short names on a page of 32 bytes, in a pool of one
-- frame. Transaction 1 has inserted a record and committed, transaction 2 has updated it and not ended.
use sql_engine.Base.{
  ℕ, false, ◌≡◌, refl, sym, ◌∙◌, subst, none, List, [], ◌∷◌, map, replicate, pos, codes, Text, ok,
  err, ok-injective, arith,
}
use sql_engine.Base.Equality.{text_eq}
use sql_engine.Base.Assoc.{find, insert}
use sql_engine.Schema.{int_type, string_type, Column, make_schema}
use sql_engine.Record.{FieldValue, int, str, make_row, serialize, cut, of_word, word_of}
use sql_engine.Record.Fields.{as_stored}
use sql_engine.Files.{read_page}
use sql_engine.Buffer.{BufferManager, fetch_page, unpin_page}
use sql_engine.Heap.{RecordId, TableHeap, page_bytes, insert_at, update_at, delete_at}
use sql_engine.Heap.Slots.{grown_page, set_slot_alive, set_record, get_num_slots, is_slot_alive}
use sql_engine.Heap.Replayed.{IsTidy}
use sql_engine.Heap.Recovered.{fetched, content}
use sql_engine.Tree.Nodes.{BPlusTree}
use sql_engine.Tree.Insert.{new_tree, insert_key}
use sql_engine.Engine.{Parts, Engine, redo_insert, redo_update, redo_delete}
use sql_engine.Engine.Paged.{paged_parts}
use sql_engine.Wal.{LogRecord, insert_op, update_op, commit_op}
use sql_engine.Wal.Recovery.{is_commit, is_abort, tx_ids, has_tx, redo_loop, undo_loop, replay}
use sql_engine.Wal.Orderly.{committed_value}
use sql_engine.Wal.Stored.{engine_redo, IsReady, engine_recovers}

abbrev customer_columns : List Column
customer_columns =
    (record { name = codes "id"; type = int_type; length = 0 })
    ∷ (record { name = codes "name"; type = string_type; length = 8 })
    ∷ []

abbrev customers : TableHeap
customers = record {
  file_id = 1;
  schema = record { columns = customer_columns; record_size = 12 };
  max_slots = 2;
}

abbrev ada : List FieldValue
ada = int (pos 7) ∷ str (codes "Ada") ∷ []

abbrev bea : List FieldValue
bea = int (pos 7) ∷ str (codes "Bea") ∷ []

abbrev id : RecordId
id = record { page_id = pos 0; slot_num = pos 0 }

abbrev pool : BufferManager
pool = record {
  files = record {
    next_file_id = 2;
    files = (1, record { content = replicate 32 0; free_list = [] }) ∷ [];
  };
  frames =
      (record { is_valid = false; is_dirty = false; pin_count = 0; pid = none; bytes = [] }) ∷ [];
  page_table = [];
  clock_hand = 0;
}

abbrev no_path : Text → List ℕ
no_path path = []

abbrev load : BufferManager → ℕ → BPlusTree RecordId
load b fid = new_tree 4 id

abbrev parts : Parts BufferManager TableHeap (BPlusTree RecordId)
parts = paged_parts 32 4 0 id no_path load

abbrev engine : Engine parts
engine = record {
  pool = pool;
  tables =
      (
        codes "c",
        record {
          schema = customers.schema;
          heap = customers;
          index = new_tree 4 id;
          pk_col_idx = 0;
        },
      )
      ∷ [];
}

abbrev log : List LogRecord
log =
    (record {
      op = insert_op;
      tx_id = pos 1;
      table = codes "c";
      rid = id;
      old_values = [];
      new_values = ada;
    })
    ∷ (record {
      op = commit_op;
      tx_id = pos 1;
      table = [];
      rid = id;
      old_values = [];
      new_values = [];
    })
    ∷ (record {
      op = update_op;
      tx_id = pos 2;
      table = codes "c";
      rid = id;
      old_values = ada;
      new_values = bea;
    })
    ∷ []

accepted : make_schema customer_columns ≡ ok customers.schema
unfolding make_schema
accepted = refl

fetched_page : fetched 32 customers 0 pool ≡ ok (replicate 32 0)
unfolding fetched fetch_page find insert read_page page_bytes
fetched_page = refl

page-IsTidy : IsTidy 12 0 (replicate 32 0)
unfolding get_num_slots is_slot_alive of_word word_of
page-IsTidy = (pos 0, false, refl, refl, λ q. refl)

engine-IsReady :
    IsReady 32 4 0 id no_path load (codes "c") customers customer_columns accepted 0 0 engine
unfolding find
engine-IsReady = (
  record { schema = customers.schema; heap = customers; index = new_tree 4 id; pk_col_idx = 0 },
  refl,
  refl,
  λ page h. subst (IsTidy 12 0) (ok-injective (sym fetched_page ∙ h)) page-IsTidy,
)

recovered : Engine parts
unfolding replay tx_ids redo_loop undo_loop redo_insert redo_update redo_delete insert_at update_at
    delete_at fetch_page find insert read_page make_row serialize grown_page set_slot_alive
    set_record of_word word_of unpin_page insert_key new_tree
recovered = elim (replay (engine_redo parts) log engine) as (λ r. Engine parts) [
  | ok e ↦ e
  | err x ↦ engine
]

runs : replay (engine_redo parts) log engine ≡ ok recovered
unfolding recovered replay tx_ids redo_loop undo_loop redo_insert redo_update redo_delete insert_at
    update_at delete_at fetch_page find insert read_page make_row serialize grown_page
    set_slot_alive set_record of_word word_of unpin_page insert_key new_tree
runs = refl

ada-kept : map as_stored ada ≡ ada
unfolding as_stored cut
ada-kept = refl

bea-kept : map as_stored bea ≡ bea
unfolding as_stored cut
bea-kept = refl

engine_recovers_example :
    content 32 customers customer_columns accepted 0 0 recovered.pool
    ≡ committed_value (tx_ids is_commit log) (tx_ids is_abort log) (codes "c") id log none
unfolding tx_ids has_tx
engine_recovers_example =
    engine_recovers 32 4 0 id no_path load (codes "c") customers customer_columns accepted 0 0 log
      none engine recovered engine-IsReady
      (
        (λ c. (
          (refl, 0, refl, (omega arith, tt, refl)),
          (refl, 0, refl, (omega arith, (refl, (tt, tt)), ada-kept)),
        )),
        (
          (λ c. absurd (cc)),
          (
            (λ c. (
              (refl, 0, refl, (omega arith, (refl, (tt, tt)), ada-kept)),
              (refl, 0, refl, (omega arith, (refl, (tt, tt)), bea-kept)),
            )),
            tt,
          ),
        ),
      )
      (refl, refl, (refl, refl, tt)) ((λ q. absurd (cc)), (λ q. absurd (cc))) runs
