-- ===== src/Exec.antt =====
-- The operators of physicalOperator/ (TableScan, Filter, Project), of
-- queryOptimizerAndPlanner/nestedLoopJoin/NestedLoopJoin.h and the loop of
-- physicalOperator/executor/Executor.h. Storage is behind two calls. An operator's `next` takes fuel
-- for its loops and its depth; an exception ends the query, so the operators that it leaves behind are
-- not looked at.
pub mod Streams
pub mod Relational
pub mod Joins
mod Examples
use sql_engine.Base.{
  ℕ, zero, suc, Bool, true, false, Option, none, some, List, [], ◌∷◌, ◌++◌, Text, if◌then◌else◌,
  Result, ok, err, ◌>>=◌, out_of_fuel,
}
use sql_engine.Ast.{Expr}
use sql_engine.Heap.{RecordId}
use sql_engine.Record.{FieldValue}
use sql_engine.Functions.{Registry}
use sql_engine.Eval.{Row, ColumnIndex, eval, eval_boolean}

-- What the operators use of the storage engine: scanTable and fetchRecord.
pub record Storage : Type 0 where
  pub scan_table : Text → Result (List RecordId)
  pub fetch_record : Text → RecordId → Result Row

-- An operator with its state. A scan keeps the record ids from `idx_` on; a join its left row and
-- `leftDone_`.
pub data Operator : Type 0 where
  table_scan : Text → List RecordId → Operator
  filter : Operator → Expr → ColumnIndex → Operator
  project : Operator → List Expr → ColumnIndex → Operator
  join : Operator → Operator → Row → Bool → Operator

-- The values of a projected row.
unfoldable pub eval_all : Registry → Row → ColumnIndex → List Expr → Result Row
unfolding eval
eval_all reg row idx [] = ok []
eval_all reg row idx (e ∷ es) = do v ← eval reg row idx e; vs ← eval_all reg row idx es; ok (v ∷ vs)

unfoldable pub close : Operator → Operator
close (table_scan t rids) = table_scan t []
close (filter c e idx) = filter (close c) e idx
close (project c es idx) = project (close c) es idx
close (join l r row done) = join (close l) (close r) row done

abbrev pub Step : Type 0
Step = Result (Operator × Option Row)

module _ (reg : Registry) (s : Storage) where
  -- open() of a join takes the first left row, and next() of a join opens its right side again: both
  -- are the two modes of one function.
  unfoldable pub run : ℕ → Bool → Operator → Step
  unfolding eval_all close
  run zero opening op = err out_of_fuel
  run (suc f) true (table_scan t rids) = do rids' ← s.scan_table t; ok (table_scan t rids', none)
  run (suc f) true (filter c e idx) = do (c', _) ← run f true c; ok (filter c' e idx, none)
  run (suc f) true (project c es idx) = do (c', _) ← run f true c; ok (project c' es idx, none)
  run (suc f) true (join l r row done) = do
    (l', _) ← run f true l
    (r', _) ← run f true r
    (l'', first) ← run f false l'
    ok (elim first [
      | none ↦ (join l'' r' row true, none)
      | some row' ↦ (join l'' r' row' false, none)
    ])
  run (suc f) false (table_scan t []) = ok (table_scan t [], none)
  run (suc f) false (table_scan t (rid ∷ rids)) = do
    row ← s.fetch_record t rid
    ok (table_scan t rids, some row)
  run (suc f) false (filter c e idx) = do
    (c', found) ← run f false c
    elim found [
      | none ↦ ok (filter c' e idx, none)
      | some row ↦ (do
        keep ← eval_boolean reg row idx e
        elim keep [ true ↦ ok (filter c' e idx, some row) | false ↦ run f false (filter c' e idx) ])
    ]
  run (suc f) false (project c es idx) = do
    (c', found) ← run f false c
    elim found [
      | none ↦ ok (project c' es idx, none)
      | some row ↦ (do out ← eval_all reg row idx es; ok (project c' es idx, some out))
    ]
  run (suc f) false (join l r row true) = ok (join l r row true, none)
  run (suc f) false (join l r row false) = do
    (r', found) ← run f false r
    elim found [
      | some right ↦ ok (join l r' row false, some (row ++ right))
      | none ↦ (do
        (r'', _) ← run f true (close r')
        (l', next) ← run f false l
        elim next [
          | none ↦ ok (join l' r'' row true, none)
          | some row' ↦ run f false (join l' r'' row' false)
        ])
    ]

  abbrev pub open_op : ℕ → Operator → Step
  open_op f = run f true

  abbrev pub next : ℕ → Operator → Step
  next f = run f false

  -- `while (root->next(row)) results.push_back(row)`, a round for each unit of fuel.
  unfoldable pub collect : ℕ → ℕ → Operator → Result (List Row)
  unfolding run
  collect zero f op = err out_of_fuel
  collect (suc n) f op = do
    (op', found) ← next f op
    elim found [ none ↦ ok [] | some row ↦ (do rows ← collect n f op'; ok (row ∷ rows)) ]

  unfoldable pub execute : ℕ → ℕ → Operator → Result (List Row)
  unfolding run collect
  execute n f root = do (root', _) ← open_op f root; collect n f root'
