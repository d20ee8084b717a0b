-- ===== src/Engine.antt =====
-- storageEngine/StorageEngine.h and StorageEngine.cpp: tables by name, each a heap and an index on its
-- primary key. The heap and the index are parts with their own modules; both work on the pages of the
-- one pool, which each call of them takes and leaves. A method returns the engine that it leaves, also
-- when it throws.
pub mod Calls
pub mod Keys
pub mod Paged
pub mod Statements
pub mod Inserts
mod Examples
use sql_engine.Base.{
  ℕ, zero, suc, ◌+◌, Bool, true, false, Option, none, some, List, [], ◌∷◌, get_elem?, Text, ℤ,
  if◌then◌else◌, Result, Error, ok, err, undefined, out_of_range, bad_variant, unknown_table,
  table_registered, no_primary_key, key_not_int, key_update,
}
use sql_engine.Base.Equality.{◌==◌, text_eq}
use sql_engine.Base.Int.{eq_ℤ}
use sql_engine.Base.Assoc.{Map, find, insert, contains}
use sql_engine.Schema.{Column, Schema}
use sql_engine.Record.{FieldValue, int, str, Row}
use sql_engine.Heap.{RecordId}

-- The calls of FileManager, TableHeap and BPlusTree that the engine makes: `P` is what the pool and the
-- file manager hold, `H` a heap, and `I` an index.
pub record Parts (P H I : Type 0) : Type 0 where
  pub open_file : P → Text → P × Result ℕ
  pub open_heap : P → Text → Schema → P × Result H
  pub open_index : P → ℕ → P × Result I
  pub heap_insert : H → P → List FieldValue → P × Result RecordId
  pub heap_delete : H → P → RecordId → P × Result Bool
  pub heap_update : H → P → RecordId → List FieldValue → P × Result Bool
  pub heap_get : H → P → RecordId → P × Result Row
  pub heap_scan : H → P → P × Result (List RecordId)
  pub heap_insert_at : H → P → RecordId → List FieldValue → P × Result (Unit {0})
  pub heap_delete_at : H → P → RecordId → P × Result (Unit {0})
  pub heap_update_at : H → P → RecordId → List FieldValue → P × Result (Unit {0})
  pub index_find : I → P → ℤ → P × Result (Option RecordId)
  pub index_insert : I → P → ℤ → RecordId → P × Result I
  pub index_remove : I → P → ℤ → P × Result (I × Bool)

pub record TableInfo (H I : Type 0) : Type 0 where
  pub schema : Schema
  pub heap : H
  pub index : I
  pub pk_col_idx : ℕ

pub record StorageEngine (P H I : Type 0) : Type 0 where
  pub pool : P
  pub tables : Map Text (TableInfo H I)

-- The first column with the name.
unfoldable pub key_column : Text → ℕ → List Column → Option ℕ
key_column name i [] = none
key_column name i (c ∷ cs) = if c.name == name then some i else key_column name (i + 1) cs

-- Whether the field is an INT with this value.
abbrev pub is_int : FieldValue → ℤ → Bool
is_int (int z) key = eq_ℤ z key
is_int (str s) key = false

module _ {P H I : Type 0} (parts : Parts P H I) where
  abbrev pub Engine : Type 0
  Engine = StorageEngine P H I

  abbrev pub Reply : Type 0 → Type 0
  Reply A = Engine × Result A

  -- tables_.find(tableName), or the error of every method.
  abbrev pub with_table : {A : Type 0} → Engine → Text → Error → (TableInfo H I → Reply A) → Reply A
  with_table e name missing next = elim (find name e.tables) [
    | none ↦ (e, err missing)
    | some ti ↦ next ti
  ]

  -- A call of a part, and what follows when it returns.
  abbrev pub calling : {A B : Type 0} → Engine → P × Result A → (Engine → A → Reply B) → Reply B
  calling e (p, err x) next = (record e { pool = p }, err x)
  calling e (p, ok a) next = next (record e { pool = p }) a

  -- The table with another index.
  abbrev pub put_index : Engine → Text → TableInfo H I → I → Engine
  put_index e name ti i = record e { tables = insert name (record ti { index = i }) e.tables }

  -- What follows values[ti.pkColIdx] as an INT.
  abbrev pub with_key : {A : Type 0} → Engine → Option FieldValue → Error → (ℤ → Reply A) → Reply A
  with_key e none other next = (e, err undefined)
  with_key e (some (int key)) other next = next key
  with_key e (some (str s)) other next = (e, err other)

  unfoldable pub register_table : Engine → Text → Schema → Text → Text → Text → Reply (Unit {0})
  unfolding key_column contains
  register_table e name schema data_file index_file pk_column =
      if contains name e.tables
      then (e, err (table_registered name))
      else calling e (parts.open_file e.pool data_file) (λ e1 fid1.
        calling e1 (parts.open_file e1.pool index_file) (λ e2 fid2.
          calling e2 (parts.open_heap e2.pool data_file schema) (λ e3 heap.
            calling e3 (parts.open_file e3.pool index_file) (λ e4 fid.
              calling e4 (parts.open_index e4.pool fid) (λ e5 index.
                elim (key_column pk_column 0 schema.columns) [
                  | none ↦ (e5, err (no_primary_key pk_column))
                  | some i ↦
                      let ti : TableInfo H I = record {
                        schema = schema;
                        heap = heap;
                        index = index;
                        pk_col_idx = i;
                      } in
                      (record e5 { tables = insert name ti e5.tables }, ok tt)
                ])))))

  unfoldable pub insert_record : Engine → Text → List FieldValue → Reply RecordId
  insert_record e name values = with_table e name (unknown_table name) (λ ti.
      calling e (parts.heap_insert ti.heap e.pool values) (λ e1 rid.
        with_key e1 (get_elem? values ti.pk_col_idx) key_not_int (λ key.
          calling e1 (parts.index_insert ti.index e1.pool key rid)
            (λ e2 index. (put_index e2 name ti index, ok rid)))))

  unfoldable pub delete_by_key : Engine → Text → ℤ → Reply Bool
  delete_by_key e name key = with_table e name (unknown_table name) (λ ti.
      calling e (parts.index_find ti.index e.pool key) (λ e1 found. elim found [
        | none ↦ (e1, ok false)
        | some rid ↦ calling e1 (parts.heap_delete ti.heap e1.pool rid) (λ e2 deleted.
            if deleted
            then calling e2 (parts.index_remove ti.index e2.pool key)
                (λ e3 removed. (put_index e3 name ti removed.0, ok true))
            else (e2, ok false))
      ]))

  unfoldable pub update_by_key : Engine → Text → ℤ → List FieldValue → Reply Bool
  update_by_key e name key values = with_table e name (unknown_table name) (λ ti.
      calling e (parts.index_find ti.index e.pool key) (λ e1 found. elim found [
        | none ↦ (e1, ok false)
        | some rid ↦ elim (get_elem? values ti.pk_col_idx) [
          | none ↦ (e1, err undefined)
          | some field ↦
              if is_int field key
              then calling e1 (parts.heap_update ti.heap e1.pool rid values)
                  (λ e2 done. (e2, ok done))
              else (e1, err key_update)
        ]
      ]))

  unfoldable pub find_by_key : Engine → Text → ℤ → Reply (Option RecordId)
  find_by_key e name key =
      with_table e name (unknown_table name)
        (λ ti. calling e (parts.index_find ti.index e.pool key) (λ e1 found. (e1, ok found)))

  unfoldable pub scan_table : Engine → Text → Reply (List RecordId)
  scan_table e name =
      with_table e name (unknown_table name)
        (λ ti. calling e (parts.heap_scan ti.heap e.pool) (λ e1 rids. (e1, ok rids)))

  unfoldable pub fetch_record : Engine → Text → RecordId → Reply (List FieldValue)
  fetch_record e name rid =
      with_table e name (unknown_table name)
        (λ ti. calling e (parts.heap_get ti.heap e.pool rid) (λ e1 row. (e1, ok row.values)))

  -- Recovery: tables_.at(table) throws its own error, and so does std::get.
  unfoldable pub redo_insert : Engine → Text → RecordId → List FieldValue → Reply (Unit {0})
  redo_insert e name rid values = with_table e name out_of_range (λ ti.
      calling e (parts.heap_insert_at ti.heap e.pool rid values) (λ e1 done.
        with_key e1 (get_elem? values ti.pk_col_idx) bad_variant (λ key.
          calling e1 (parts.index_insert ti.index e1.pool key rid)
            (λ e2 index. (put_index e2 name ti index, ok tt)))))

  unfoldable pub redo_delete : Engine → Text → RecordId → Reply (Unit {0})
  redo_delete e name rid =
      with_table e name out_of_range
        (λ ti. calling e (parts.heap_delete_at ti.heap e.pool rid) (λ e1 done. (e1, ok tt)))

  unfoldable pub redo_update : Engine → Text → RecordId → List FieldValue → Reply (Unit {0})
  redo_update e name rid values =
      with_table e name out_of_range
        (λ ti. calling e (parts.heap_update_at ti.heap e.pool rid values) (λ e1 done. (e1, ok tt)))
