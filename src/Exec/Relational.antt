-- ===== src/Exec/Relational.antt =====
-- What a projection of a filter of a scan in Exec.antt returns.
use sql_engine.Base.{
  ℕ, zero, suc, ◌+◌, ◌≤◌, ◌<◌, Bool, ◌≡◌, refl, none, List, [], ◌∷◌, map, Text, arith, ok, length,
  All, Bool-cases, inl, inr,
}
use sql_engine.Ast.{Expr}
use sql_engine.Functions.{Registry}
use sql_engine.Eval.{Row, ColumnIndex, eval_boolean}
use sql_engine.Heap.{RecordId}
use sql_engine.Exec.{
  Storage, Operator, table_scan, filter, project, eval_all, run, open_op, collect, execute,
}
use sql_engine.Exec.Streams.{fetch_all, keep, Yields, scan-Yields, filter-Yields, project-Yields}

length-map-keep :
    (p : Row → Bool) (out : Row → Row) (rows : List Row)
    → length (map out (keep p rows)) ≤ length rows
length-map-keep p out [] = omega arith
length-map-keep p out (row ∷ rows) =
    let rest = length-map-keep p out rows in
    elim (Bool-cases (p row)) [ inl t ↦ rw t (omega arith) | inr t ↦ rw t (omega arith) ]

module _ (reg : Registry) (s : Storage) where
  pub collect_enough :
      (n m f : ℕ) (op : Operator) (rows : List Row)
      → Yields reg s n op rows
      → n ≤ f
      → length rows < m
      → collect reg s m f op ≡ ok rows
  unfolding collect
  collect_enough n zero f op rows y h l = absurd (omega arith)
  collect_enough n (suc m) f op [] (op', y) h l = rw (y f h, collect) refl
  collect_enough n (suc m) f op (row ∷ rows) (op', y, ys) h l =
      rw (y f h, collect) (rw (collect_enough n m f op' rows ys h (omega arith)) refl)

  pub scan_open :
      (t : Text) (rids before : List RecordId)
      → s.scan_table t ≡ ok rids
      → (f : ℕ) → 1 ≤ f
      → open_op reg s f (table_scan t before) ≡ ok (table_scan t rids, none)
  unfolding run
  scan_open t rids before h zero l = absurd (omega arith)
  scan_open t rids before h (suc f) l = rw h refl

  select_open :
      (t : Text) (rids : List RecordId) (e : Expr) (es : List Expr) (idx idx' : ColumnIndex)
      → s.scan_table t ≡ ok rids
      → (f : ℕ) → 3 ≤ f
      → open_op reg s f (project (filter (table_scan t []) e idx) es idx')
        ≡ ok (project (filter (table_scan t rids) e idx) es idx', none)
  unfolding run
  select_open t rids e es idx idx' h zero l = absurd (omega arith)
  select_open t rids e es idx idx' h (suc zero) l = absurd (omega arith)
  select_open t rids e es idx idx' h (suc (suc f)) l =
      rw (scan_open t rids [] h f (omega arith), run) refl

  -- A projection of a filter of a scan returns, when the scan's record ids can be fetched and the
  -- predicate and the projections evaluate on each row, the projected values of the rows that satisfy
  -- the predicate, in the order of the scan. More rounds than rows and four more units of fuel than
  -- rows are enough.
  pub select_rows :
      (t : Text) (rids : List RecordId) (rows : List Row) (e : Expr) (es : List Expr)
      (idx idx' : ColumnIndex) (p : Row → Bool) (out : Row → Row) (n f : ℕ)
      → s.scan_table t ≡ ok rids
      → fetch_all s t rids ≡ ok rows
      → All (λ row. eval_boolean reg row idx e ≡ ok (p row)) rows
      → All (λ row. eval_all reg row idx' es ≡ ok (out row)) (keep p rows)
      → length rows < n
      → 4 + length rows ≤ f
      → execute reg s n f (project (filter (table_scan t []) e idx) es idx')
        ≡ ok (map out (keep p rows))
  unfolding execute
  select_rows t rids rows e es idx idx' p out n f hs hf hp ho ln lf =
      let scanned = scan-Yields reg s t rids rows hf in
      let kept = filter-Yields reg s 1 (table_scan t rids) e idx p rows scanned hp in
      let projected =
        project-Yields reg s (suc (1 + length rows)) (filter (table_scan t rids) e idx) es idx' out
          (keep p rows) kept ho in
      let few = length-map-keep p out rows in
      rw (select_open t rids e es idx idx' hs f (omega arith)) (
        collect_enough (suc (suc (1 + length rows))) n f
          (project (filter (table_scan t rids) e idx) es idx') (map out (keep p rows)) projected
          (omega arith) (omega arith))
