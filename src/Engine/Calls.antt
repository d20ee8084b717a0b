-- ===== src/Engine/Calls.antt =====
-- What the calls of the parts leave behind in the methods of storageEngine/StorageEngine.cpp.
use sql_engine.Base.{
  ◌≡◌, refl, ap, ◌∙◌, Option, none, some, List, Text, ℤ, Result, Error, ok, err, then_case,
  unknown_table,
}
use sql_engine.Base.Equality.{text_eq, eq_self}
use sql_engine.Base.Assoc.{find, find-insert}
use sql_engine.Record.{FieldValue, int, str, Row}
use sql_engine.Heap.{RecordId}
use sql_engine.Engine.{
  Parts, TableInfo, Engine, Reply, with_table, calling, put_index, with_key, fetch_record,
}

-- What getRecord says, fetchRecord says.
abbrev pub values_of : Result Row → Result (List FieldValue)
values_of (err x) = err x
values_of (ok row) = ok row.values

module _ {P H I : Type 0} (parts : Parts P H I) where
  -- A call of a part that returned.
  pub calling-ok :
      {A B : Type 0} (e : Engine parts) (call : P × Result A)
      (next : Engine parts → A → Reply parts B) {e' : Engine parts} {b : B}
      → calling parts e call next ≡ (e', ok b)
      → (p : P) × (a : A) × (call ≡ (p, ok a)) × (next (record e { pool = p }) a ≡ (e', ok b))
  calling-ok e (p, err x) next h = absurd (cc)
  calling-ok e (p, ok a) next h = (p, a, refl, h)

  pub with_table-found :
      {A : Type 0} (e : Engine parts) (name : Text) (missing : Error)
      (next : TableInfo H I → Reply parts A) (ti : TableInfo H I)
      → find name e.tables ≡ some ti
      → with_table parts e name missing next ≡ next ti
  with_table-found {A = A} e name missing next ti f =
      ap
        (λ (o : Option (TableInfo H I)). elim o as (λ x. Reply parts A) [
          | none ↦ (e, err missing)
          | some t ↦ next t
        ])
        f

  pub fetch_record-get :
      (e : Engine parts) (name : Text) (ti : TableInfo H I) (rid : RecordId)
      → find name e.tables ≡ some ti
      → (fetch_record parts e name rid).1 ≡ values_of (parts.heap_get ti.heap e.pool rid).1
  unfolding fetch_record
  fetch_record-get e name ti rid f =
      ap (λ o. o.1)
        (with_table-found e name (unknown_table name)
          (λ t. calling parts e (parts.heap_get t.heap e.pool rid) (λ e1 row. (e1, ok row.values)))
          ti f)
      ∙ after (parts.heap_get ti.heap e.pool rid)
    where
      after :
          (call : P × Result Row)
          → (calling parts e call (λ e1 row. (e1, ok row.values))).1 ≡ values_of call.1
      after (p, err x) = refl
      after (p, ok row) = refl

  -- The table once its index was put back.
  pub put_index-found :
      (e : Engine parts) (name : Text) (ti : TableInfo H I) (index : I)
      → find name (put_index parts e name ti index).tables ≡ some (record ti { index = index })
  put_index-found e name ti index =
      find-insert name name (record ti { index = index }) e.tables ∙ then_case _ _ (eq_self name)

  -- An INT in the column of the primary key.
  pub with_key-ok :
      {A : Type 0} (e : Engine parts) (field : Option FieldValue) (other : Error)
      (next : ℤ → Reply parts A) {e' : Engine parts} {a : A}
      → with_key parts e field other next ≡ (e', ok a)
      → (key : ℤ) × (field ≡ some (int key)) × (next key ≡ (e', ok a))
  with_key-ok e none other next h = absurd (cc)
  with_key-ok e (some (int key)) other next h = (key, refl, h)
  with_key-ok e (some (str s)) other next h = absurd (cc)
