-- ===== src/Plan/Order.antt =====
-- The loop of rewritePlan (queryOptimizerAndPlanner/rewriter/Rewriter.h): when the rules have pushed
-- every filter below the projections, and when they have not.
use sql_engine.Base.{ℕ, zero, suc, true, ◌≡◌, refl, Option, List, [], ◌∷◌, Text, arith, ◌+◌}
use sql_engine.Base.Texts.{decimal}
use sql_engine.Ast.{Expr, column_ref}
use sql_engine.Binder.{qualified}
use sql_engine.Base.Equality.{eq_self, text_eq}
use sql_engine.Plan.{seq_scan, filter, project, join}
use sql_engine.Plan.Rewrite.{is_identity, rewrite_plan}

-- A filter over two projections, under one more projection: the root stays in the first round, so the
-- loop ends with the filter above a projection.
pub push_stops_early :
    (es fs gs : List Expr) (h : Expr) (e : Option Expr) (t u : Text)
    → rewrite_plan
        (project es (filter e (project (h ∷ fs) (project gs (join (seq_scan t) (seq_scan u))))))
      ≡ project es (project (h ∷ fs) (filter e (project gs (join (seq_scan t) (seq_scan u)))))
unfolding rewrite_plan
push_stops_early es fs gs h e t u = refl

-- The first `n` columns of a table by their numbers.
unfoldable pub numbered : Text → ℕ → ℕ → List Expr
numbered t i zero = []
numbered t i (suc n) = column_ref (qualified t (decimal i)) ∷ numbered t (i + 1) n

numbered-identity : (t : Text) (i n : ℕ) → is_identity t i (numbered t i n) ≡ true
unfolding is_identity numbered
numbered-identity t i zero = refl
numbered-identity t i (suc n) =
    ground (arith, eq_self {Key = Text} (qualified t (decimal i)), numbered-identity t (i + 1) n)

-- A projection on a scan is dropped whenever its items are the columns numbered 0, 1, … of the table,
-- however few they are: the number of columns of the table is not looked at.
pub prefix_dropped :
    (t : Text) (n : ℕ) → rewrite_plan (project (numbered t 0 n) (seq_scan t)) ≡ seq_scan t
unfolding rewrite_plan
prefix_dropped t n = rw (numbered-identity t 0 n, rewrite_plan) refl
