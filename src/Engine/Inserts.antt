-- ===== src/Engine/Inserts.antt =====
-- From the text of an INSERT to its row (the second executeQuery of
-- queryOptimizerAndPlanner/QueryEngine.h).
use sql_engine.Base.{
  ℕ, ◌≡◌, refl, sym, ap, ◌∙◌, some, List, get_elem?, Text, ℤ, Result, ok, err, ok-injective,
  if◌then◌else◌,
}
use sql_engine.Base.Int.{eq_ℤ}
use sql_engine.Base.Equality.{text_eq}
use sql_engine.Base.Assoc.{find}
use sql_engine.Ast.{Ast, insert, InsertStmt}
use sql_engine.Schema.{Schema}
use sql_engine.Catalog.{Catalog}
use sql_engine.Functions.{Registry}
use sql_engine.Record.{FieldValue, int, Row}
use sql_engine.Heap.{RecordId}
use sql_engine.Parser.{parse}
use sql_engine.Binder.{bind}
use sql_engine.Engine.{Parts, TableInfo, Engine, Reply, insert_record, find_by_key, fetch_record}
use sql_engine.Engine.Keys.{Entries, Laws, insert_record-find_by_key}
use sql_engine.Engine.Statements.{
  literal_values, after_call, computing, Rows, run_insert, run_bound, execute_query,
}

module _ {P H I : Type 0} (parts : Parts P H I) (get_column_index : Schema → Text → ℕ)
    (cat : Catalog) where
  computing-ok :
      {A B : Type 0} (e : Engine parts) (r : Result A) (next : A → Reply parts B)
      {e' : Engine parts} {b : B}
      → computing parts get_column_index cat e r next ≡ (e', ok b)
      → (a : A) × (r ≡ ok a) × (next a ≡ (e', ok b))
  computing-ok e (err x) next h = absurd (cc)
  computing-ok e (ok a) next h = (a, refl, h)

  after_call-ok :
      {A B : Type 0} (call : Reply parts A) (next : Engine parts → A → Reply parts B)
      {e' : Engine parts} {b : B}
      → after_call parts get_column_index cat call next ≡ (e', ok b)
      → (e1 : Engine parts) × (a : A) × (call ≡ (e1, ok a)) × (next e1 a ≡ (e', ok b))
  after_call-ok (e, err x) next h = absurd (cc)
  after_call-ok (e, ok a) next h = (e, a, refl, h)

  run_insert-ok :
      (e e' : Engine parts) (q : InsertStmt) (rows : Rows parts get_column_index cat)
      → run_insert parts get_column_index cat e q ≡ (e', ok rows)
      → (values : List FieldValue) × (rid : RecordId) × (literal_values q.values ≡ ok values)
        × (insert_record parts e q.table values ≡ (e', ok rid))
  unfolding run_insert
  run_insert-ok e e' q rows h =
      let (values, hv, h1) = computing-ok e (literal_values q.values) _ h in
      let (e1, rid, hr, h2) = after_call-ok (insert_record parts e q.table values) _ h1 in
      (values, rid, hv, hr ∙ ap (λ o. (o.0, ok rid)) h2)

  -- The text of an INSERT that was executed without an error has put a record into its table: it is
  -- found under the INT that stands in the place of the primary key among the values, it has the values
  -- as the text gives them, from the first column on, and every other key is found as before. The
  -- values are such as the heap keeps.
  pub execute_query-find_by_key :
      (IsIndex : I → P → Entries → Type 0) (IsAccepted : H → List FieldValue → Type 0)
      (stored : H → List FieldValue → Row) (laws : Laws parts IsIndex IsAccepted stored)
      (query : Engine parts → Ast → Reply parts (Rows parts get_column_index cat)) (reg : Registry)
      (e e' : Engine parts) (sql : Text) (ast : Ast) (q : InsertStmt) (values : List FieldValue)
      (rows : Rows parts get_column_index cat) (ti : TableInfo H I) (m : Entries)
      → parse sql ≡ ok ast
      → bind reg cat ast ≡ ok (insert q)
      → literal_values q.values ≡ ok values
      → find q.table e.tables ≡ some ti
      → IsIndex ti.index e.pool m
      → IsAccepted ti.heap values
      → execute_query parts get_column_index cat query reg e sql ≡ (e', ok rows)
      → (key : ℤ) × (rid : RecordId) × (get_elem? values ti.pk_col_idx ≡ some (int key))
        × ((k : ℤ) → (find_by_key parts e' q.table k).1 ≡ ok (if eq_ℤ k key then some rid else m k))
        × ((fetch_record parts e' q.table rid).1 ≡ ok (stored ti.heap values).values)
  unfolding execute_query run_bound
  execute_query-find_by_key IsIndex IsAccepted stored laws query reg e e' sql ast q values rows ti m
        hp hb hl f w accepted h =
      let (ast', ha, h1) = computing-ok e (parse sql) _ h in
      let same_ast : ast' ≡ ast = ok-injective (sym ha ∙ hp) in
      let (bound, hd, h2) = computing-ok e (bind reg cat ast') _ h1 in
      let is_insert : bound ≡ insert q =
        ok-injective (sym hd ∙ (ap (bind reg cat) same_ast ∙ hb)) in
      let h3 : run_insert parts get_column_index cat e q ≡ (e', ok rows) =
        ap (run_bound parts get_column_index cat query e) (sym is_insert) ∙ h2 in
      let (vs, rid, hv, hr) = run_insert-ok e e' q rows h3 in
      let same : vs ≡ values = ok-injective (sym hv ∙ hl) in
      let (key, is_key, finds, reads) =
        insert_record-find_by_key parts IsIndex IsAccepted stored laws e e' q.table ti m values rid
          f w accepted (ap (insert_record parts e q.table) (sym same) ∙ hr) in
      (key, rid, is_key, finds, reads)
