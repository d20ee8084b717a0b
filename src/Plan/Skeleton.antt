-- ===== src/Plan/Skeleton.antt =====
-- What the rewriter of queryOptimizerAndPlanner/rewriter/Rewriter.cpp leaves alone.
use sql_engine.Base.{
  ℕ, zero, suc, ◌≡◌, refl, sym, ap, ap₂, ◌∙◌, Option, some, List, [], ◌∷◌, Text, arith, Bool-cases,
  inl, inr, ok,
}
use sql_engine.Ast.{Expr, select, SelectStmt}
use sql_engine.Plan.{Plan, seq_scan, filter, project, join, build_logical_plan, select_plan}
use sql_engine.Plan.Rewrite.{
  swap_filter, push_down_predicates, drop_identity, prune_projections, rewrite_round,
  rewrite_rounds, rewrite_plan,
}

-- The plan without its projections: scans, joins and filters in their places.
unfoldable pub skeleton : Plan → Plan
skeleton (filter e p) = filter e (skeleton p)
skeleton (project es p) = skeleton p
skeleton (join l r) = join (skeleton l) (skeleton r)
skeleton p = p

swap-skeleton :
    (e : Option Expr) (p : Plan) → skeleton (swap_filter (filter e p)).0 ≡ filter e (skeleton p)
unfolding swap_filter skeleton
swap-skeleton e (project es p) = refl
swap-skeleton e _ = refl

push-skeleton : (p : Plan) → skeleton (push_down_predicates p).0 ≡ skeleton p
unfolding push_down_predicates skeleton
push-skeleton (filter e p) =
    swap-skeleton e (push_down_predicates p).0 ∙ ap (filter e) (push-skeleton p)
push-skeleton (project es p) = push-skeleton p
push-skeleton (join l r) = ap₂ join (push-skeleton l) (push-skeleton r)
push-skeleton _ = refl

drop-skeleton : (es : List Expr) (p : Plan) → skeleton (drop_identity (project es p)).0 ≡ skeleton p
unfolding drop_identity skeleton
drop-skeleton es (seq_scan t) = ground arith
drop-skeleton es _ = refl

prune-skeleton : (p : Plan) → skeleton (prune_projections p).0 ≡ skeleton p
unfolding prune_projections skeleton
prune-skeleton (filter e p) = ap (filter e) (prune-skeleton p)
prune-skeleton (project es p) = drop-skeleton es (prune_projections p).0 ∙ prune-skeleton p
prune-skeleton (join l r) = ap₂ join (prune-skeleton l) (prune-skeleton r)
prune-skeleton _ = refl

round-skeleton : (p : Plan) → skeleton (rewrite_round p).0 ≡ skeleton p
unfolding rewrite_round
round-skeleton p = prune-skeleton (push_down_predicates p).0 ∙ push-skeleton p

rounds-skeleton : (n : ℕ) (p : Plan) → skeleton (rewrite_rounds n p) ≡ skeleton p
unfolding rewrite_rounds
rounds-skeleton zero p = refl
rounds-skeleton (suc n) p =
    let after = rounds-skeleton n (rewrite_round p).0 ∙ round-skeleton p in
    elim (Bool-cases (rewrite_round p).1) [ inl e ↦ rw e after | inr e ↦ rw e (round-skeleton p) ]

-- Rewriting adds, drops and moves projections only: without them the plan has the same scans, joins
-- and filters, each in its place, as before.
pub rewrite_plan-skeleton : (p : Plan) → skeleton (rewrite_plan p) ≡ skeleton p
unfolding rewrite_plan
rewrite_plan-skeleton p = rounds-skeleton 5 p

planned_shape :
    (s : SelectStmt) (e : Expr) (p : Plan) (ts : List Text)
    → s.tables ≡ ts
    → s.where_clause ≡ some e
    → select_plan s ≡ ok p
    → (t : Text) × (p ≡ project s.select_list (filter (some e) (seq_scan t)))
unfolding select_plan
planned_shape s e p [] q h k = absurd (ground arith)
planned_shape s e p (t ∷ []) q h k = (t, ground arith)
planned_shape s e p (t ∷ u ∷ us) q h k = absurd (ground arith)

planned_stays :
    (es : List Expr) (e : Expr) (t : Text)
    → rewrite_plan (project es (filter (some e) (seq_scan t)))
      ≡ project es (filter (some e) (seq_scan t))
unfolding rewrite_plan
planned_stays es e t = refl

-- The rewriter does nothing to the plan of a SELECT with a condition: the planner puts the projection
-- on top already, and a projection over a filter is never dropped.
pub rewrite_planned :
    (s : SelectStmt) (e : Expr) (p : Plan)
    → s.where_clause ≡ some e
    → build_logical_plan (select s) ≡ ok p
    → rewrite_plan p ≡ p
unfolding build_logical_plan
rewrite_planned s e p h k =
    let (t, q) = planned_shape s e p s.tables refl h k in
    ap rewrite_plan q ∙ planned_stays s.select_list e t ∙ sym q
