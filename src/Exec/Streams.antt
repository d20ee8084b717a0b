-- ===== src/Exec/Streams.antt =====
-- The rows that an operator of Exec.antt hands out, one call of `next` after another.
use sql_engine.Base.{
  ℕ, zero, suc, ◌+◌, ◌≤◌, Bool, true, false, ◌≡◌, refl, ap, ◌∙◌, subst, >>=-eq-ok, ok-injective,
  none, some, List, [], ◌∷◌, map, Text, if◌then◌else◌, arith, Result, ok, ◌>>=◌, length, All,
  Bool-cases, inl, inr,
}
use sql_engine.Ast.{Expr}
use sql_engine.Functions.{Registry}
use sql_engine.Eval.{Row, ColumnIndex, eval_boolean}
use sql_engine.Heap.{RecordId}
use sql_engine.Exec.{Storage, Operator, table_scan, filter, project, eval_all, run, next}

-- The rows of a list of record ids.
unfoldable pub fetch_all : Storage → Text → List RecordId → Result (List Row)
fetch_all s t [] = ok []
fetch_all s t (rid ∷ rids) = do
  row ← s.fetch_record t rid
  rows ← fetch_all s t rids
  ok (row ∷ rows)

-- The rows that satisfy a predicate.
abbrev pub keep : (Row → Bool) → List Row → List Row
keep p [] = []
keep p (row ∷ rows) = if p row then row ∷ keep p rows else keep p rows

module _ (reg : Registry) (s : Storage) where
  -- With fuel `n` or more the calls of `next` hand out exactly these rows, and then the end.
  abbrev pub Yields : ℕ → Operator → List Row → Type 0
  Yields n op [] = (op' : Operator) × ((f : ℕ) → n ≤ f → next reg s f op ≡ ok (op', none))
  Yields n op (row ∷ rows) =
      (op' : Operator) × ((f : ℕ) → n ≤ f → next reg s f op ≡ ok (op', some row))
      × Yields n op' rows

  pub Yields-mono :
      (n m : ℕ) (op : Operator) (rows : List Row) → n ≤ m → Yields n op rows → Yields m op rows
  Yields-mono n m op [] h (op', y) = (op', λ f l. y f (omega arith))
  Yields-mono n m op (row ∷ rows) h (op', y, ys) =
      (op', (λ f l. y f (omega arith)), Yields-mono n m op' rows h ys)

  scan_next :
      (t : Text) (rid : RecordId) (rids : List RecordId) (row : Row)
      → s.fetch_record t rid ≡ ok row
      → (f : ℕ) → 1 ≤ f
      → next reg s f (table_scan t (rid ∷ rids)) ≡ ok (table_scan t rids, some row)
  unfolding run
  scan_next t rid rids row h zero l = absurd (omega arith)
  scan_next t rid rids row h (suc f) l = rw h refl

  -- A scan hands out the rows of its record ids, in their order.
  pub scan-Yields :
      (t : Text) (rids : List RecordId) (rows : List Row)
      → fetch_all s t rids ≡ ok rows
      → Yields 1 (table_scan t rids) rows
  unfolding fetch_all run
  scan-Yields t [] [] h = (table_scan t [], ended)
    where
      ended : (f : ℕ) → 1 ≤ f → next reg s f (table_scan t []) ≡ ok (table_scan t [], none)
      ended zero l = absurd (omega arith)
      ended (suc f) l = refl
  scan-Yields t [] (row ∷ rows) h = absurd (ground arith)
  scan-Yields t (rid ∷ rids) rows h =
      let (row, hr, h1) = >>=-eq-ok (s.fetch_record t rid) _ h in
      let (rest, hs, h2) = >>=-eq-ok (fetch_all s t rids) _ h1 in
      subst (Yields 1 (table_scan t (rid ∷ rids))) (ok-injective h2)
        (table_scan t rids, scan_next t rid rids row hr, scan-Yields t rids rest hs)

  filter_next :
      (g : ℕ) (c c' : Operator) (e : Expr) (idx : ColumnIndex) (row : Row) (b : Bool)
      → next reg s g c ≡ ok (c', some row)
      → eval_boolean reg row idx e ≡ ok b
      → next reg s (suc g) (filter c e idx)
        ≡ (if b then ok (filter c' e idx, some row) else next reg s g (filter c' e idx))
  unfolding run
  filter_next g c c' e idx row true h k = rw (h, run) (rw k refl)
  filter_next g c c' e idx row false h k = rw (h, run) (rw k refl)

  filter_end :
      (g : ℕ) (c c' : Operator) (e : Expr) (idx : ColumnIndex)
      → next reg s g c ≡ ok (c', none)
      → next reg s (suc g) (filter c e idx) ≡ ok (filter c' e idx, none)
  unfolding run
  filter_end g c c' e idx h = rw (h, run) refl

  -- A first call that is put off by one row.
  pub later :
      (n m : ℕ) (op op' : Operator) (rows : List Row)
      → ((f : ℕ) → m ≤ f → (g : ℕ) × (f ≡ suc g) × (n ≤ g) × (next reg s f op ≡ next reg s g op'))
      → n ≤ m
      → Yields n op' rows
      → Yields m op rows
  later n m op op' [] step l (op'', y) = (op'', λ f h. let (g, _, k, e) = step f h in e ∙ y g k)
  later n m op op' (row ∷ rows) step l (op'', y, ys) =
      (op'', (λ f h. let (g, _, k, e) = step f h in e ∙ y g k), Yields-mono n m op'' rows l ys)

  -- A filter hands out the rows of its child that satisfy its predicate.
  pub filter-Yields :
      (n : ℕ) (c : Operator) (e : Expr) (idx : ColumnIndex) (p : Row → Bool) (rows : List Row)
      → Yields n c rows
      → All (λ row. eval_boolean reg row idx e ≡ ok (p row)) rows
      → Yields (suc (n + length rows)) (filter c e idx) (keep p rows)
  filter-Yields n c e idx p [] (c', y) h = (filter c' e idx, ended)
    where
      ended : (f : ℕ) → suc (n + 0) ≤ f → next reg s f (filter c e idx) ≡ ok (filter c' e idx, none)
      ended zero l = absurd (omega arith)
      ended (suc g) l = filter_end g c c' e idx (y g (omega arith))
  filter-Yields n c e idx p (row ∷ rows) (c', y, ys) h =
      let rest = filter-Yields n c' e idx p rows ys h.1 in
      let m = suc (n + length rows) in
      elim (Bool-cases (p row)) [
        | inl t ↦ rw t (
          filter c' e idx,
          kept t,
          Yields-mono m (suc (n + suc (length rows))) (filter c' e idx) (keep p rows) (omega arith)
              rest,
        )
        | inr t ↦ rw t (
            later m (suc (n + suc (length rows))) (filter c e idx) (filter c' e idx) (keep p rows)
              (passed t) (omega arith) rest)
      ]
    where
      kept :
          p row ≡ true
          → (f : ℕ) → suc (n + suc (length rows)) ≤ f
          → next reg s f (filter c e idx) ≡ ok (filter c' e idx, some row)
      kept t zero l = absurd (omega arith)
      kept t (suc g) l = filter_next g c c' e idx row true (y g (omega arith)) (h.0 ∙ ap ok t)

      passed :
          p row ≡ false
          → (f : ℕ) → suc (n + suc (length rows)) ≤ f
          → (g : ℕ) × (f ≡ suc g)
            × (suc (n + length rows) ≤ g)
            × (next reg s f (filter c e idx) ≡ next reg s g (filter c' e idx))
      passed t zero l = absurd (omega arith)
      passed t (suc g) l = (
        g,
        refl,
        omega arith,
        filter_next g c c' e idx row false (y g (omega arith)) (h.0 ∙ ap ok t),
      )

  -- A projection hands out a row of its values for each row of its child.
  pub project-Yields :
      (n : ℕ) (c : Operator) (es : List Expr) (idx : ColumnIndex) (out : Row → Row)
      (rows : List Row)
      → Yields n c rows
      → All (λ row. eval_all reg row idx es ≡ ok (out row)) rows
      → Yields (suc n) (project c es idx) (map out rows)
  unfolding run
  project-Yields n c es idx out [] (c', y) h = (project c' es idx, ended)
    where
      ended : (f : ℕ) → suc n ≤ f → next reg s f (project c es idx) ≡ ok (project c' es idx, none)
      ended zero l = absurd (omega arith)
      ended (suc g) l = rw (y g (omega arith), run) refl
  project-Yields n c es idx out (row ∷ rows) (c', y, ys) h =
      (project c' es idx, step, project-Yields n c' es idx out rows ys h.1)
    where
      step :
          (f : ℕ)
          → suc n ≤ f
          → next reg s f (project c es idx) ≡ ok (project c' es idx, some (out row))
      step zero l = absurd (omega arith)
      step (suc g) l = rw (y g (omega arith), run) (rw h.0 refl)
