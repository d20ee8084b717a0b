-- ===== src/Plan/Examples.antt =====
-- Plans of queries, and the theorems on the rewriter at them.
use sql_engine.Base.{◌≡◌, refl, ok, err, [], ◌∷◌, codes, pos, some, none, not_single_table}
use sql_engine.Ast.{Expr, column_ref, int_literal, binary_op, op_gte, SelectStmt, select}
use sql_engine.Plan.{Plan, seq_scan, filter, project, join, build_logical_plan, join_plan}
use sql_engine.Plan.Rewrite.{rewrite_plan}
use sql_engine.Plan.Skeleton.{skeleton, rewrite_plan-skeleton, rewrite_planned}
use sql_engine.Plan.Order.{push_stops_early, numbered, prefix_dropped}

abbrev age : Expr
age = column_ref (codes "t.age")

abbrev adult : Expr
adult = binary_op op_gte age (int_literal (pos 18))

abbrev adults : SelectStmt
adults = record { select_list = age ∷ []; tables = codes "t" ∷ []; where_clause = some adult }

abbrev two_tables : SelectStmt
two_tables = record {
  select_list = age ∷ [];
  tables = codes "t" ∷ codes "u" ∷ [];
  where_clause = none;
}

abbrev filter_on_top : Plan
filter_on_top =
    filter (some adult) (project (age ∷ []) (join (seq_scan (codes "t")) (seq_scan (codes "u"))))

pushed :
    rewrite_plan filter_on_top
    ≡ project (age ∷ []) (filter (some adult) (join (seq_scan (codes "t")) (seq_scan (codes "u"))))
unfolding rewrite_plan
pushed = refl

planned :
    build_logical_plan (select adults)
    ≡ ok (project (age ∷ []) (filter (some adult) (seq_scan (codes "t"))))
unfolding build_logical_plan
planned = refl

-- The planner refuses a join; the code under its second label for SELECT would plan it.
join_unplanned :
    (build_logical_plan (select two_tables) ≡ err not_single_table)
    × (join_plan two_tables
        ≡ ok (project (age ∷ []) (join (seq_scan (codes "t")) (seq_scan (codes "u")))))
unfolding build_logical_plan join_plan
join_unplanned = (refl, refl)

rewrite_plan-skeleton_example : skeleton (rewrite_plan filter_on_top) ≡ skeleton filter_on_top
rewrite_plan-skeleton_example = rewrite_plan-skeleton filter_on_top

rewrite_planned_run :
    rewrite_plan (project (age ∷ []) (filter (some adult) (seq_scan (codes "t"))))
    ≡ project (age ∷ []) (filter (some adult) (seq_scan (codes "t")))
rewrite_planned_run =
    rewrite_planned adults adult (project (age ∷ []) (filter (some adult) (seq_scan (codes "t"))))
      refl planned

stops_early :
    rewrite_plan (
      project (age ∷ []) (
        filter (some adult) (
          project
            (age ∷ [])
            (project (age ∷ []) (join (seq_scan (codes "t")) (seq_scan (codes "u")))))))
    ≡ project (age ∷ []) (
        project (age ∷ []) (
          filter
            (some adult)
            (project (age ∷ []) (join (seq_scan (codes "t")) (seq_scan (codes "u"))))))
stops_early = push_stops_early (age ∷ []) [] (age ∷ []) age (some adult) (codes "t") (codes "u")

prefix_dropped_run :
    rewrite_plan (project (numbered (codes "t") 0 2) (seq_scan (codes "t"))) ≡ seq_scan (codes "t")
prefix_dropped_run = prefix_dropped (codes "t") 2
