-- ===== src/Exec/Examples.antt =====
-- Queries over a small storage, and the theorems at them.
use sql_engine.Base.{
  negsuc, ℕ, zero, suc, ◌*◌, ◌≡◌, refl, ok, err, [], ◌∷◌, Bool, false, arith, codes, pos, undefined,
}
use sql_engine.Base.Int.{leb_ℤ}
use sql_engine.Base.Assoc.{find}
use sql_engine.Ast.{Expr, column_ref, int_literal, binary_op, op_gte}
use sql_engine.Record.{int}
use sql_engine.Eval.{Row, ColumnIndex, eval, eval_boolean}
use sql_engine.Heap.{RecordId}
use sql_engine.Exec.{Storage, table_scan, filter, project, join, eval_all, execute}
use sql_engine.Exec.Streams.{fetch_all}
use sql_engine.Exec.Relational.{select_rows}
use sql_engine.Exec.Joins.{cross, join_rows}

abbrev rid : ℕ → RecordId
rid n = record { page_id = pos 0; slot_num = pos n }

-- The record in slot n has the id n and the age 3 * n.
abbrev two_records : Storage
two_records = record {
  scan_table = λ t. ok (rid 1 ∷ rid 2 ∷ []);
  fetch_record = λ t r. elim r.slot_num [
    | negsuc n ↦ err undefined
    | pos zero ↦ err undefined
    | pos (suc n) ↦ ok (int (pos (suc n)) ∷ int (pos (3 * suc n)) ∷ [])
  ];
}

abbrev index : ColumnIndex
index = (codes "t.id", 0) ∷ (codes "t.age", 1) ∷ []

abbrev adult : Expr
adult = binary_op op_gte (column_ref (codes "t.age")) (int_literal (pos 5))

abbrev is_adult : Row → Bool
is_adult (a ∷ int z ∷ []) = leb_ℤ (pos 5) z
is_adult _ = false

abbrev id_of : Row → Row
id_of (a ∷ rest) = a ∷ []
id_of [] = []

abbrev first_row : Row
first_row = int (pos 1) ∷ int (pos 3) ∷ []

abbrev second_row : Row
second_row = int (pos 2) ∷ int (pos 6) ∷ []

select_rows_example :
    execute [] two_records 9 9 (
      project
        (filter (table_scan (codes "t") []) adult index)
        (column_ref (codes "t.id") ∷ [])
        index)
    ≡ ok ((int (pos 2) ∷ []) ∷ [])
unfolding fetch_all eval_boolean eval_all eval find
select_rows_example =
    select_rows [] two_records (codes "t") (rid 1 ∷ rid 2 ∷ []) (first_row ∷ second_row ∷ []) adult
      (column_ref (codes "t.id") ∷ []) index index is_adult id_of 9 9 refl refl (refl, (refl, tt))
      (refl, tt) (omega arith) (omega arith)

join_rows_example :
    execute [] two_records 9 9
      (join (table_scan (codes "t") []) (table_scan (codes "u") []) [] false)
    ≡ ok (cross (first_row ∷ second_row ∷ []) (first_row ∷ second_row ∷ []))
unfolding fetch_all
join_rows_example =
    join_rows [] two_records (codes "t") (codes "u") (rid 1 ∷ rid 2 ∷ []) (rid 1 ∷ rid 2 ∷ [])
      (first_row ∷ second_row ∷ []) (first_row ∷ second_row ∷ []) 9 9 refl refl refl refl
      (omega arith) (omega arith)
