-- ===== src/Plan/Rewrite.antt =====
-- queryOptimizerAndPlanner/rewriter/Rewriter.h and Rewriter.cpp. The rules work in place and return a
-- pointer to the root; rewritePlan compares pointers. So a rule returns the plan that the tree has
-- become, and whether its root is another node than before.
use sql_engine.Base.{
  ℕ, zero, suc, ◌+◌, Bool, true, false, ◌||◌, ◌&&◌, List, [], ◌∷◌, Text, if◌then◌else◌,
}
use sql_engine.Base.Equality.{list_beq}
use sql_engine.Base.Texts.{decimal}
use sql_engine.Ast.{Expr, column_ref}
use sql_engine.Binder.{qualified}
use sql_engine.Plan.{Plan, seq_scan, filter, project, join}

-- Filter over Project: swap them.
unfoldable pub swap_filter : Plan → Plan × Bool
swap_filter (filter e (project es p)) = (project es (filter e p), true)
swap_filter p = (p, false)

unfoldable pub push_down_predicates : Plan → Plan × Bool
unfolding swap_filter
push_down_predicates (filter e p) = swap_filter (filter e (push_down_predicates p).0)
push_down_predicates (project es p) = (project es (push_down_predicates p).0, false)
push_down_predicates (join l r) =
    (join (push_down_predicates l).0 (push_down_predicates r).0, false)
push_down_predicates p = (p, false)

-- `identity`: the i-th projection is the column "table.i".
unfoldable pub is_identity : Text → ℕ → List Expr → Bool
is_identity t i [] = true
is_identity t i (column_ref n ∷ es) =
    list_beq n (qualified t (decimal i)) && is_identity t (i + 1) es
is_identity t i (e ∷ es) = false

-- Project over SeqScan: dropped if it is an identity.
unfoldable pub drop_identity : Plan → Plan × Bool
unfolding is_identity
drop_identity (project es (seq_scan t)) =
    if is_identity t 0 es then (seq_scan t, true) else (project es (seq_scan t), false)
drop_identity p = (p, false)

unfoldable pub prune_projections : Plan → Plan × Bool
unfolding drop_identity
prune_projections (filter e p) = (filter e (prune_projections p).0, false)
prune_projections (project es p) = drop_identity (project es (prune_projections p).0)
prune_projections (join l r) = (join (prune_projections l).0 (prune_projections r).0, false)
prune_projections p = (p, false)

-- Not implemented in the source either.
abbrev pub flatten_subqueries : Plan → Plan × Bool
flatten_subqueries p = (p, false)

-- One round: the three rules in turn, and whether the root is another node at the end. No rule puts
-- back a root that an earlier one replaced.
unfoldable pub rewrite_round : Plan → Plan × Bool
unfolding push_down_predicates prune_projections
rewrite_round p =
    let (p1, b1) = push_down_predicates p in
    let (p2, b2) = prune_projections p1 in
    let (p3, b3) = flatten_subqueries p2 in (p3, b1 || b2 || b3)

-- At most `n` rounds, until the root stays.
unfoldable pub rewrite_rounds : ℕ → Plan → Plan
unfolding rewrite_round
rewrite_rounds zero p = p
rewrite_rounds (suc n) p =
    let (p', moved) = rewrite_round p in
    let rest = rewrite_rounds n p' in if moved then rest else p'

unfoldable pub rewrite_plan : Plan → Plan
unfolding rewrite_rounds
rewrite_plan = rewrite_rounds 5
