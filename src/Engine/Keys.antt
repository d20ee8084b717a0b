-- ===== src/Engine/Keys.antt =====
-- What the methods of storageEngine/StorageEngine.cpp do to the rows under a primary key, from what the
-- heap and the index promise.
use sql_engine.Base.{
  Bool, true, false, ◌≡◌, sym, ap, ap₂, ◌∙◌, Option, none, some, List, get_elem?, Text, ℤ,
  if◌then◌else◌, Result, ok, err, ok-injective, Option-cases, Bool-cases, inl, inr, then_case,
  else_case, undefined, deleted_record, unknown_table, key_not_int, key_update,
}
use sql_engine.Base.Equality.{text_eq}
use sql_engine.Base.Int.{eq_ℤ, eq_ℤ_iff}
use sql_engine.Base.Assoc.{find}
use sql_engine.Record.{FieldValue, int, str, Row}
use sql_engine.Heap.{RecordId}
use sql_engine.Engine.{
  Parts, TableInfo, is_int, Engine, Reply, with_table, calling, put_index, with_key, insert_record,
  delete_by_key, update_by_key, find_by_key, fetch_record,
}
use sql_engine.Engine.Calls.{
  calling-ok, with_table-found, values_of, fetch_record-get, put_index-found, with_key-ok,
}

-- The entries of an index.
abbrev pub Entries : Type 0
Entries = ℤ → Option RecordId

abbrev pub with_entry : Entries → ℤ → Option RecordId → Entries
with_entry entries key new k = if eq_ℤ k key then new else entries k

-- What the engine relies on. `IsIndex` says what entries an index has, `IsAccepted` that a heap keeps
-- these values, and `stored` which row it then gives back. A call of an index leaves the rows of every
-- heap, and a call of a heap the entries of every index.
pub record Laws {P H I : Type 0} (parts : Parts P H I) (IsIndex : I → P → Entries → Type 0)
    (IsAccepted : H → List FieldValue → Type 0) (stored : H → List FieldValue → Row) : Type 0 where
  pub found :
      (i : I) (p : P) (m : Entries) (key : ℤ)
      → IsIndex i p m
      → (p' : P) × (parts.index_find i p key ≡ (p', ok (m key))) × IsIndex i p' m
  pub inserted :
      (i i' : I) (p p' : P) (m : Entries) (key : ℤ) (rid : RecordId)
      → IsIndex i p m
      → parts.index_insert i p key rid ≡ (p', ok i')
      → IsIndex i' p' (with_entry m key (some rid))
        × ((h : H) (r : RecordId) → (parts.heap_get h p' r).1 ≡ (parts.heap_get h p r).1)
  pub removed :
      (i : I) (p : P) (m : Entries) (key : ℤ)
      → IsIndex i p m
      → (p' : P) × (i' : I) × (was : Bool) × (parts.index_remove i p key ≡ (p', ok (i', was)))
        × IsIndex i' p' (with_entry m key none)
        × ((h : H) (r : RecordId) → (parts.heap_get h p' r).1 ≡ (parts.heap_get h p r).1)
  pub row_inserted :
      (h : H) (p p' : P) (values : List FieldValue) (rid : RecordId)
      → parts.heap_insert h p values ≡ (p', ok rid)
      → (IsAccepted h values → (parts.heap_get h p' rid).1 ≡ ok (stored h values))
        × ((i : I) (m : Entries) → IsIndex i p m → IsIndex i p' m)
  pub row_deleted :
      (h : H) (p p' : P) (rid : RecordId)
      → parts.heap_delete h p rid ≡ (p', ok true)
      → ((parts.heap_get h p' rid).1 ≡ err deleted_record)
        × ((i : I) (m : Entries) → IsIndex i p m → IsIndex i p' m)
  pub row_updated :
      (h : H) (p p' : P) (rid : RecordId) (values : List FieldValue)
      → parts.heap_update h p rid values ≡ (p', ok true)
      → (IsAccepted h values → (parts.heap_get h p' rid).1 ≡ ok (stored h values))
        × ((i : I) (m : Entries) → IsIndex i p m → IsIndex i p' m)

module _ {P H I : Type 0} (parts : Parts P H I) (IsIndex : I → P → Entries → Type 0)
    (IsAccepted : H → List FieldValue → Type 0) (stored : H → List FieldValue → Row)
    (laws : Laws parts IsIndex IsAccepted stored) where
  find_by_key-IsIndex :
      (e : Engine parts) (name : Text) (ti : TableInfo H I) (m : Entries) (key : ℤ)
      → find name e.tables ≡ some ti
      → IsIndex ti.index e.pool m
      → (find_by_key parts e name key).1 ≡ ok (m key)
  unfolding find_by_key
  find_by_key-IsIndex e name ti m key f w =
      let (p, runs, _) = laws.found ti.index e.pool m key w in
      let next : TableInfo H I → Reply parts (Option RecordId) =
        λ t. calling parts e (parts.index_find t.index e.pool key) (λ e1 rid. (e1, ok rid)) in
      ap (λ o. o.1) (with_table-found parts e name (unknown_table name) next ti f)
      ∙ ap (λ (c : P × Result (Option RecordId)). (calling parts e c (λ e1 rid. (e1, ok rid))).1)
          runs

  -- A record that insertRecord has inserted is found under its primary key and has the values that were
  -- inserted; every other key is found as before. The values are such as the heap keeps.
  pub insert_record-find_by_key :
      (e e' : Engine parts) (name : Text) (ti : TableInfo H I) (m : Entries)
      (values : List FieldValue) (rid : RecordId)
      → find name e.tables ≡ some ti
      → IsIndex ti.index e.pool m
      → IsAccepted ti.heap values
      → insert_record parts e name values ≡ (e', ok rid)
      → (key : ℤ) × (get_elem? values ti.pk_col_idx ≡ some (int key))
        × ((k : ℤ) → (find_by_key parts e' name k).1 ≡ ok (if eq_ℤ k key then some rid else m k))
        × ((fetch_record parts e' name rid).1 ≡ ok (stored ti.heap values).values)
  unfolding insert_record
  insert_record-find_by_key e e' name ti m values rid f w accepted h =
      let next : TableInfo H I → Reply parts RecordId = λ t.
        calling parts e (parts.heap_insert t.heap e.pool values) (λ e1 r.
          with_key parts e1 (get_elem? values t.pk_col_idx) key_not_int (λ key.
            calling parts e1 (parts.index_insert t.index e1.pool key r)
              (λ e2 index. (put_index parts e2 name t index, ok r)))) in
      let h0 = sym (with_table-found parts e name (unknown_table name) next ti f) ∙ h in
      let (p1, r, runs, h1) = calling-ok parts e (parts.heap_insert ti.heap e.pool values) _ h0 in
      let (key, is_key, h2) =
        with_key-ok parts (record e { pool = p1 }) (get_elem? values ti.pk_col_idx) key_not_int _
          h1 in
      let (p2, index, puts, h3) =
        calling-ok parts (record e { pool = p1 }) (parts.index_insert ti.index p1 key r) _ h2 in
      let (entered, kept) =
        laws.inserted ti.index index p1 p2 m key r
          ((laws.row_inserted ti.heap e.pool p1 values r runs).1 ti.index m w) puts in
      let e2 : Engine parts = put_index parts (record e { pool = p2 }) name ti index in
      let left : e2 ≡ e' = ap (λ o. o.0) h3 in
      let same : r ≡ rid = ok-injective (ap (λ o. o.1) h3) in
      let there = put_index-found parts (record e { pool = p2 }) name ti index in
      (
        key,
        is_key,
        λ k.
            ap (λ x. (find_by_key parts x name k).1) (sym left)
            ∙ (find_by_key-IsIndex e2 name (record ti { index = index }) (with_entry m key (some r))
                  k there entered
                ∙ ap (λ x. ok (with_entry m key (some x) k)) same),
        ap₂ (λ x y. (fetch_record parts x name y).1) (sym left) (sym same)
            ∙ (fetch_record-get parts e2 name (record ti { index = index }) r there
                ∙ ap values_of (
                    kept ti.heap r
                    ∙ (laws.row_inserted ti.heap e.pool p1 values r runs).0 accepted)),
      )

  -- A method that finds a record by its key and goes on with it, once it returned true.
  key_found :
      (e e' : Engine parts) (name : Text) (ti : TableInfo H I) (m : Entries) (key : ℤ)
      (next : TableInfo H I → Engine parts → RecordId → Reply parts Bool)
      → find name e.tables ≡ some ti
      → IsIndex ti.index e.pool m
      → with_table parts e name (unknown_table name) (λ t.
        calling parts e (parts.index_find t.index e.pool key) (λ e1 found.
          elim found as (λ x. Reply parts Bool) [
            | none ↦ (e1, ok false)
            | some rid ↦ next t e1 rid
          ]))
        ≡ (e', ok true)
      → (rid : RecordId) × (p : P) × (m key ≡ some rid)
        × IsIndex ti.index p m
        × (next ti (record e { pool = p }) rid ≡ (e', ok true))
  key_found e e' name ti m key next f w h =
      let choose : TableInfo H I → Engine parts → Option RecordId → Reply parts Bool = λ t e1 found.
        elim found as (λ x. Reply parts Bool) [
          | none ↦ (e1, ok false)
          | some rid ↦ next t e1 rid
        ] in
      let (p, runs, w1) = laws.found ti.index e.pool m key w in
      let h0 =
        ap (λ c. calling parts e c (choose ti)) (sym runs)
        ∙ (sym (
              with_table-found parts e name (unknown_table name)
                (λ t. calling parts e (parts.index_find t.index e.pool key) (choose t)) ti f)
            ∙ h) in
      elim (Option-cases (m key)) [
        | inl absent ↦
            let h1 = ap (choose ti (record e { pool = p })) (sym absent) ∙ h0 in absurd (cc)
        | inr (rid, there) ↦
            (rid, p, there, w1, ap (choose ti (record e { pool = p })) (sym there) ∙ h0)
      ]

  -- After a record was deleted by its primary key (deleteByKey returned true) the key is found no more,
  -- every other key is found as before, and to read the record by its id throws that it is deleted.
  pub delete_by_key-find_by_key :
      (e e' : Engine parts) (name : Text) (ti : TableInfo H I) (m : Entries) (key : ℤ)
      → find name e.tables ≡ some ti
      → IsIndex ti.index e.pool m
      → delete_by_key parts e name key ≡ (e', ok true)
      → (rid : RecordId) × (m key ≡ some rid)
        × ((k : ℤ) → (find_by_key parts e' name k).1 ≡ ok (if eq_ℤ k key then none else m k))
        × ((fetch_record parts e' name rid).1 ≡ err deleted_record)
  unfolding delete_by_key
  delete_by_key-find_by_key e e' name ti m key f w h =
      let (rid, p1, there, w1, h1) =
        key_found e e' name ti m key
          (λ t e1 r. calling parts e1 (parts.heap_delete t.heap e1.pool r) (λ e2 deleted.
            if deleted
            then calling parts e2 (parts.index_remove t.index e2.pool key)
                (λ e3 removed. (put_index parts e3 name t removed.0, ok true))
            else (e2, ok false)))
          f w h in
      let (p2, deleted, deletes, h2) =
        calling-ok parts (record e { pool = p1 }) (parts.heap_delete ti.heap p1 rid) _ h1 in
      let (others, dead) = gone deleted p1 p2 rid w1 deletes h2 in (rid, there, others, dead)
    where
      gone :
          (deleted : Bool) (p1 p2 : P) (rid : RecordId)
          → IsIndex ti.index p1 m
          → parts.heap_delete ti.heap p1 rid ≡ (p2, ok deleted)
          → (if deleted
              then calling parts
                  (record e { pool = p2 })
                  (parts.index_remove ti.index p2 key)
                  (λ e3 removed. (put_index parts e3 name ti removed.0, ok true))
              else (record e { pool = p2 }, ok false))
            ≡ (e', ok true)
          → ((k : ℤ) → (find_by_key parts e' name k).1 ≡ ok (if eq_ℤ k key then none else m k))
            × ((fetch_record parts e' name rid).1 ≡ err deleted_record)
      gone false p1 p2 rid w1 deletes h2 = absurd (cc)
      gone true p1 p2 rid w1 deletes h2 =
          let (dead, kept) = laws.row_deleted ti.heap p1 p2 rid deletes in
          let (p3, index, was, removes, w3, same) =
            laws.removed ti.index p2 m key (kept ti.index m w1) in
          let e3 : Engine parts = put_index parts (record e { pool = p3 }) name ti index in
          let next : Engine parts → I × Bool → Reply parts Bool =
            λ e3 removed. (put_index parts e3 name ti removed.0, ok true) in
          let h3 = ap (λ c. calling parts (record e { pool = p2 }) c next) (sym removes) ∙ h2 in
          let left : e3 ≡ e' = ap (λ o. o.0) h3 in
          let there = put_index-found parts (record e { pool = p3 }) name ti index in
          (
            λ k.
                ap (λ x. (find_by_key parts x name k).1) (sym left)
                ∙ find_by_key-IsIndex e3 name (record ti { index = index }) (with_entry m key none)
                    k there w3,
            ap (λ x. (fetch_record parts x name rid).1) (sym left)
                ∙ (fetch_record-get parts e3 name (record ti { index = index }) rid there
                    ∙ ap values_of (same ti.heap rid ∙ dead)),
          )

  -- After a record was updated by its primary key (updateByKey returned true) it has the values that were
  -- given, and every key is found as before. The primary key among the values is the key, and the values
  -- are such as the heap keeps.
  pub update_by_key-find_by_key :
      (e e' : Engine parts) (name : Text) (ti : TableInfo H I) (m : Entries) (key : ℤ)
      (values : List FieldValue)
      → find name e.tables ≡ some ti
      → IsIndex ti.index e.pool m
      → IsAccepted ti.heap values
      → update_by_key parts e name key values ≡ (e', ok true)
      → (rid : RecordId) × (m key ≡ some rid)
        × (get_elem? values ti.pk_col_idx ≡ some (int key))
        × ((k : ℤ) → (find_by_key parts e' name k).1 ≡ ok (m k))
        × ((fetch_record parts e' name rid).1 ≡ ok (stored ti.heap values).values)
  unfolding update_by_key
  update_by_key-find_by_key e e' name ti m key values f w accepted h =
      let (rid, p1, there, w1, h1) =
        key_found e e' name ti m key
          (λ t e1 r. elim (get_elem? values t.pk_col_idx) as (λ x. Reply parts Bool) [
            | none ↦ (e1, err undefined)
            | some field ↦
                if is_int field key
                then calling parts e1 (parts.heap_update t.heap e1.pool r values)
                    (λ e2 done. (e2, ok done))
                else (e1, err key_update)
          ])
          f w h in
      let (field, h2) = changed (get_elem? values ti.pk_col_idx) (record e { pool = p1 }) rid h1 in
      let (p2, done, updates, h3) =
        calling-ok parts (record e { pool = p1 }) (parts.heap_update ti.heap p1 rid values) _ h2 in
      let is_done : done ≡ true = ok-injective (ap (λ o. o.1) h3) in
      let left : record e { pool = p2 } ≡ e' = ap (λ o. o.0) h3 in
      let (has, kept) =
        laws.row_updated ti.heap p1 p2 rid values (updates ∙ ap (λ d. (p2, ok d)) is_done) in
      (
        rid,
        there,
        field,
        λ k.
            ap (λ x. (find_by_key parts x name k).1) (sym left)
            ∙ find_by_key-IsIndex (record e { pool = p2 }) name ti m k f (kept ti.index m w1),
        ap (λ x. (fetch_record parts x name rid).1) (sym left)
            ∙ (fetch_record-get parts (record e { pool = p2 }) name ti rid f
                ∙ ap values_of (has accepted)),
      )
    where
      changed :
          (field : Option FieldValue) (e1 : Engine parts) (rid : RecordId)
          → elim field as (λ x. Reply parts Bool) [
            | none ↦ (e1, err undefined)
            | some fv ↦
                if is_int fv key
                then calling parts e1
                    (parts.heap_update ti.heap e1.pool rid values)
                    (λ e2 done. (e2, ok done))
                else (e1, err key_update)
          ]
            ≡ (e', ok true)
          → (field ≡ some (int key))
            × (calling parts e1
                  (parts.heap_update ti.heap e1.pool rid values)
                  (λ e2 done. (e2, ok done))
                ≡ (e', ok true))
      changed none e1 rid g = absurd (cc)
      changed (some (str s)) e1 rid g = absurd (cc)
      changed (some (int z)) e1 rid g = elim (Bool-cases (eq_ℤ z key)) [
        | inl same ↦
            (ap (λ x. some (int x)) ((eq_ℤ_iff z key).0 same), sym (then_case _ _ same) ∙ g)
        | inr other ↦ let none_left = sym (else_case _ _ other) ∙ g in absurd (cc)
      ]
