-- ===== src/Exec/Joins.antt =====
-- What the join of two scans in Exec.antt returns.
use sql_engine.Base.{
  ℕ, zero, suc, ◌+◌, ◌≤◌, ◌<◌, true, false, ◌≡◌, refl, subst, >>=-eq-ok, none, some, List, [], ◌∷◌,
  ◌++◌, map, Text, arith, ok, length, ok-injective,
}
use sql_engine.Functions.{Registry}
use sql_engine.Eval.{Row}
use sql_engine.Heap.{RecordId}
use sql_engine.Exec.{Storage, Operator, table_scan, join, close, run, next, open_op, execute}
use sql_engine.Exec.Streams.{fetch_all, Yields, Yields-mono, scan-Yields, later}
use sql_engine.Exec.Relational.{collect_enough, scan_open}

-- Each row of the left side before each of the right side.
abbrev pub cross : List Row → List Row → List Row
cross [] rs = []
cross (l ∷ ls) rs = map (λ r. l ++ r) rs ++ cross ls rs

module _ (reg : Registry) (s : Storage) where
  -- The right side is exhausted and opened again, and the left side has another row.
  join_advance :
      (g : ℕ) (u : Text) (sids : List RecordId) (l l' : Operator) (row row' : Row)
      → 1 ≤ g
      → s.scan_table u ≡ ok sids
      → next reg s g l ≡ ok (l', some row')
      → next reg s (suc g) (join l (table_scan u []) row false)
        ≡ next reg s g (join l' (table_scan u sids) row' false)
  unfolding run close
  join_advance zero u sids l l' row row' h hs hl = absurd (omega arith)
  join_advance (suc g) u sids l l' row row' h hs hl = rw (hs, hl, run) refl

  join_end :
      (g : ℕ) (u : Text) (sids : List RecordId) (l l' : Operator) (row : Row)
      → 1 ≤ g
      → s.scan_table u ≡ ok sids
      → next reg s g l ≡ ok (l', none)
      → next reg s (suc g) (join l (table_scan u []) row false)
        ≡ ok (join l' (table_scan u sids) row true, none)
  unfolding run close
  join_end zero u sids l l' row h hs hl = absurd (omega arith)
  join_end (suc g) u sids l l' row h hs hl = rw (hs, hl, run) refl

  join_step :
      (g : ℕ) (u : Text) (sid : RecordId) (sids : List RecordId) (l : Operator) (row right : Row)
      → 1 ≤ g
      → s.fetch_record u sid ≡ ok right
      → next reg s (suc g) (join l (table_scan u (sid ∷ sids)) row false)
        ≡ ok (join l (table_scan u sids) row false, some (row ++ right))
  unfolding run
  join_step zero u sid sids l row right h hr = absurd (omega arith)
  join_step (suc g) u sid sids l row right h hr = rw hr refl

  -- What the join hands out before its right side is exhausted.
  join_rights :
      (n : ℕ) (u : Text) (sids : List RecordId) (rights rows : List Row) (l : Operator) (row : Row)
      → fetch_all s u sids ≡ ok rights
      → Yields reg s (suc (suc n)) (join l (table_scan u []) row false) rows
      → Yields reg s
          (suc (suc n))
          (join l (table_scan u sids) row false)
          (map (λ r. row ++ r) rights ++ rows)
  unfolding fetch_all
  join_rights n u [] [] rows l row hf y = y
  join_rights n u [] (right ∷ rights) rows l row hf y = absurd (ground arith)
  join_rights n u (sid ∷ sids) rights rows l row hf y =
      let (right, hr, h1) = >>=-eq-ok (s.fetch_record u sid) _ hf in
      let (rest, hs, h2) = >>=-eq-ok (fetch_all s u sids) _ h1 in
      subst
        (λ rs.
          Yields reg s (suc (suc n)) (join l (table_scan u (sid ∷ sids)) row false)
            (map (λ r. row ++ r) rs ++ rows))
        (ok-injective h2)
        (
          join l (table_scan u sids) row false,
          step right hr,
          join_rights n u sids rest rows l row hs y,
        )
    where
      step :
          (right : Row)
          → s.fetch_record u sid ≡ ok right
          → (f : ℕ) → suc (suc n) ≤ f
          → next reg s f (join l (table_scan u (sid ∷ sids)) row false)
            ≡ ok (join l (table_scan u sids) row false, some (row ++ right))
      step right hr zero k = absurd (omega arith)
      step right hr (suc g) k = join_step g u sid sids l row right (omega arith) hr

  -- And after: the rows of the left side that are still to come, each with the whole right side.
  join_lefts :
      (n : ℕ) (u : Text) (sids : List RecordId) (rights lefts : List Row) (l : Operator) (row : Row)
      → s.scan_table u ≡ ok sids
      → fetch_all s u sids ≡ ok rights
      → Yields reg s n l lefts
      → Yields reg s
          (suc (suc (n + length lefts)))
          (join l (table_scan u []) row false)
          (cross lefts rights)
  join_lefts n u sids rights [] l row h hf (l', y) = (join l' (table_scan u sids) row true, ended)
    where
      ended :
          (f : ℕ)
          → suc (suc (n + 0)) ≤ f
          → next reg s f (join l (table_scan u []) row false)
            ≡ ok (join l' (table_scan u sids) row true, none)
      ended zero k = absurd (omega arith)
      ended (suc g) k = join_end g u sids l l' row (omega arith) h (y g (omega arith))
  join_lefts n u sids rights (row' ∷ lefts) l row h hf (l', y, ys) =
      let m = n + length lefts in
      let rest = join_lefts n u sids rights lefts l' row' h hf ys in
      let pairs = join_rights m u sids rights (cross lefts rights) l' row' hf rest in
      later reg s (suc (suc m)) (suc (suc (n + suc (length lefts))))
        (join l (table_scan u []) row false) (join l' (table_scan u sids) row' false)
        (map (λ r. row' ++ r) rights ++ cross lefts rights) advanced (omega arith) pairs
    where
      advanced :
          (f : ℕ)
          → suc (suc (n + suc (length lefts))) ≤ f
          → (g : ℕ) × (f ≡ suc g)
            × (suc (suc (n + length lefts)) ≤ g)
            × (next reg s f (join l (table_scan u []) row false)
                ≡ next reg s g (join l' (table_scan u sids) row' false))
      advanced zero k = absurd (omega arith)
      advanced (suc g) k = (
        g,
        refl,
        omega arith,
        join_advance g u sids l l' row row' (omega arith) h (y g (omega arith)),
      )

  -- Opening the join takes the first left row, or finds that there is none.
  join_open :
      (t u : Text) (rids sids : List RecordId) (rights lefts : List Row)
      → s.scan_table t ≡ ok rids
      → s.scan_table u ≡ ok sids
      → fetch_all s t rids ≡ ok lefts
      → fetch_all s u sids ≡ ok rights
      → (f : ℕ) → 2 ≤ f
      → (op : Operator) × (open_op reg s f (join (table_scan t []) (table_scan u []) [] false)
          ≡ ok (op, none))
        × Yields reg s (3 + length lefts) op (cross lefts rights)
  unfolding run
  join_open t u rids sids rights lefts h k hf hg zero l = absurd (omega arith)
  join_open t u rids sids rights lefts h k hf hg (suc f) l =
      first lefts (scan-Yields reg s t rids lefts hf)
    where
      ended :
          (l' : Operator)
          → (f : ℕ) → 3 ≤ f
          → next reg s f (join l' (table_scan u sids) [] true)
            ≡ ok (join l' (table_scan u sids) [] true, none)
      ended l' zero k = absurd (omega arith)
      ended l' (suc g) k = refl

      first :
          (lefts : List Row)
          → Yields reg s 1 (table_scan t rids) lefts
          → (op : Operator) × (open_op reg s
                (suc f)
                (join (table_scan t []) (table_scan u []) [] false)
              ≡ ok (op, none))
            × Yields reg s (3 + length lefts) op (cross lefts rights)
      first [] (l', y) = (
        join l' (table_scan u sids) [] true,
        rw
            (
              scan_open reg s t rids [] h f (omega arith),
              scan_open reg s u sids [] k f (omega arith),
              y f (omega arith),
              run,
            )
            refl,
        (join l' (table_scan u sids) [] true, ended l'),
      )
      first (row ∷ lefts) (l', y, ys) = (
        join l' (table_scan u sids) row false,
        rw
            (
              scan_open reg s t rids [] h f (omega arith),
              scan_open reg s u sids [] k f (omega arith),
              y f (omega arith),
              run,
            )
            refl,
        Yields-mono reg s (suc (suc (1 + length lefts))) (3 + suc (length lefts))
            (join l' (table_scan u sids) row false) (cross (row ∷ lefts) rights) (omega arith)
            (join_rights (1 + length lefts) u sids rights (cross lefts rights) l' row hg
              (join_lefts 1 u sids rights lefts l' row k hg ys)),
      )

  -- The nested loop join of two scans returns every left row followed by every right row, left rows
  -- outermost, each side in the order of its scan, when the record ids of both scans can be fetched.
  -- More rounds than result rows, and three more units of fuel than left rows, are enough.
  pub join_rows :
      (t u : Text) (rids sids : List RecordId) (lefts rights : List Row) (n f : ℕ)
      → s.scan_table t ≡ ok rids
      → s.scan_table u ≡ ok sids
      → fetch_all s t rids ≡ ok lefts
      → fetch_all s u sids ≡ ok rights
      → length (cross lefts rights) < n
      → 3 + length lefts ≤ f
      → execute reg s n f (join (table_scan t []) (table_scan u []) [] false)
        ≡ ok (cross lefts rights)
  unfolding execute
  join_rows t u rids sids lefts rights n f h k hf hg ln lf =
      let (op, opened, y) = join_open t u rids sids rights lefts h k hf hg f (omega arith) in
      rw opened (collect_enough reg s (3 + length lefts) n f op (cross lefts rights) y lf ln)
