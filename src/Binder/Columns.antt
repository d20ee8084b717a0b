-- ===== src/Binder/Columns.antt =====
-- What binder/Binder.cpp makes of the columns of a statement.
use sql_engine.Base.{
  ◌≡◌, refl, sym, ◌≢◌, ◌⊎◌, inl, inr, none, List, [], ◌∷◌, ◌++◌, Text, arith, All, Result, ok, err,
  guard, >>=-eq-ok, Option-cases, Error, column_not_found, unknown_function, subst, ok-injective,
}
use sql_engine.Ast.{
  Expr, Exprs, no_args, arg, column_ref, int_literal, str_literal, binary_op, function_call, Op,
}
use sql_engine.Schema.{Column, DataType}
use sql_engine.Catalog.{Catalog, get_table, get_column_info}
use sql_engine.Functions.{Registry, has_function}
use sql_engine.Binder.{
  split_dot, qualified, search_tables, qualify_column, resolve_columns, resolve_args, operand_type,
  type_check, bind_expr,
}

search_found :
    (cat : Catalog) (col found : Text) (ts : List Text)
    → found ≢ []
    → search_tables cat col found ts ≡ found
unfolding search_tables
search_found cat col found [] h = refl
search_found cat col [] (t ∷ ts) h = absurd (h refl)
search_found cat col (b ∷ bs) (t ∷ ts) h = ground (arith, search_found cat col (b ∷ bs) ts h)

-- No table of the list has the column.
abbrev Lacks : Catalog → Text → Text → Type 0
Lacks cat col t = (e : Error) × (get_column_info cat t col ≡ err e)

search_first :
    (cat : Catalog) (col : Text) (before : List Text) (t : Text) (after : List Text) (c : Column)
    → All (Lacks cat col) before
    → get_column_info cat t col ≡ ok c
    → search_tables cat col [] (before ++ t ∷ after) ≡ qualified t col
unfolding search_tables
search_first cat col [] t after c lacks has =
    rw (has, search_tables)
      (search_found cat col (qualified t col) after (qualified_nonempty t col))
  where
    qualified_nonempty : (t col : Text) → qualified t col ≢ []
    qualified_nonempty [] col e = cc
    qualified_nonempty (b ∷ bs) col e = cc
search_first cat col (u ∷ before) t after c lacks has =
    rw (lacks.0.1, search_tables) (search_first cat col before t after c lacks.1 has)

-- An unqualified column is taken from the first table of the list that has one of its name, also when
-- later tables have one too: no column is ever refused as ambiguous.
pub qualify_first :
    (cat : Catalog) (col : Text) (before : List Text) (t : Text) (after : List Text) (c : Column)
    → split_dot col ≡ none
    → All (λ u. (e : Error) × (get_column_info cat u col ≡ err e)) before
    → get_column_info cat t col ≡ ok c
    → qualify_column cat col (before ++ t ∷ after) ≡ ok (qualified t col)
unfolding qualify_column
qualify_first cat col before t after c plain lacks has =
    rw (plain, qualify_column, search_first cat col before t after c lacks has) (whole t)
  where
    whole :
        (t : Text)
        → (elim (qualified t col) as (λ f. Result Text) [
          | [] ↦ err (column_not_found col)
          | b ∷ bs ↦ ok (b ∷ bs)
        ])
          ≡ ok (qualified t col)
    whole [] = refl
    whole (b ∷ bs) = refl

-- The name is that of a column of a table of the catalog.
abbrev pub IsKnown : Catalog → Text → Type 0
IsKnown cat n =
    (t : Text) × (c : Text) × (col : Column) × (n ≡ qualified t c)
    × (get_column_info cat t c ≡ ok col)

-- Every column that an expression names is known.
mutual
  pub AllKnown : Catalog → Expr → Type 0
  AllKnown cat (column_ref n) = IsKnown cat n
  AllKnown cat (int_literal z) = Unit
  AllKnown cat (str_literal s) = Unit
  AllKnown cat (binary_op op l r) = AllKnown cat l × AllKnown cat r
  AllKnown cat (function_call n args) = AllKnownArgs cat args

  pub AllKnownArgs : Catalog → Exprs → Type 0
  AllKnownArgs cat no_args = Unit
  AllKnownArgs cat (arg e es) = AllKnown cat e × AllKnownArgs cat es

Known : Catalog → Text → Type 0
Known cat found = (found ≡ []) ⊎ IsKnown cat found

found_next :
    (cat : Catalog) (col t found : Text) (r : Result Column)
    → get_column_info cat t col ≡ r
    → Known cat found
    → Known cat (elim r as (λ r. Text) [
      | err e ↦ found
      | ok c ↦ elim found [ [] ↦ qualified t col | b ∷ bs ↦ b ∷ bs ]
    ])
unfolding Known
found_next cat col t found (err e) q h = h
found_next cat col t [] (ok c) q h = inr (t, col, c, refl, q)
found_next cat col t (b ∷ bs) (ok c) q h = h

search-IsKnown :
    (cat : Catalog) (col : Text) (ts : List Text) (found : Text)
    → Known cat found
    → Known cat (search_tables cat col found ts)
unfolding search_tables
search-IsKnown cat col [] found h = h
search-IsKnown cat col (t ∷ ts) found h =
    search-IsKnown cat col ts _ (found_next cat col t found (get_column_info cat t col) refl h)

final_name :
    (cat : Catalog) (col found m : Text)
    → Known cat found
    → (elim found as (λ f. Result Text) [ [] ↦ err (column_not_found col) | b ∷ bs ↦ ok (b ∷ bs) ])
      ≡ ok m
    → IsKnown cat m
unfolding Known
final_name cat col [] m k h = cc
final_name cat col (b ∷ bs) m (inl e) h = cc
final_name cat col (b ∷ bs) m (inr (t, c, i, e, q)) h = (t, c, i, ground arith, q)

qualify-IsKnown :
    (cat : Catalog) (n m : Text) (ts : List Text) → qualify_column cat n ts ≡ ok m → IsKnown cat m
unfolding qualify_column
qualify-IsKnown cat n m ts h = elim (Option-cases (split_dot n)) [
  | inl e ↦
      final_name cat n (search_tables cat n [] ts) m
        (search-IsKnown cat n ts [] (unfold Known in inl refl)) (rw (e, qualify_column) at h)
  | inr (d, e) ↦
      let (s, _, h1) = >>=-eq-ok (get_table cat d.0) _ (rw (e, qualify_column) at h) in
      let (c, has, h2) = >>=-eq-ok (get_column_info cat d.0 d.1) _ h1 in
      (d.0, d.1, c, ground arith, has)
]

mutual
  unfolding resolve_columns resolve_args AllKnown AllKnownArgs

  resolve-AllKnown :
      (reg : Registry) (cat : Catalog) (ts : List Text) (e : Expr) {e' : Expr}
      → resolve_columns reg cat ts e ≡ ok e'
      → AllKnown cat e'
  resolve-AllKnown reg cat ts (column_ref n) h =
      let (n', q, r) = >>=-eq-ok (qualify_column cat n ts) _ h in
      subst (AllKnown cat) (ok-injective r) (qualify-IsKnown cat n n' ts q)
  resolve-AllKnown reg cat ts (int_literal z) h = subst (AllKnown cat) (ok-injective h) tt
  resolve-AllKnown reg cat ts (str_literal s) h = subst (AllKnown cat) (ok-injective h) tt
  resolve-AllKnown reg cat ts (binary_op op l r) h =
      let (l', hl, h1) = >>=-eq-ok (resolve_columns reg cat ts l) _ h in
      let (r', hr, h2) = >>=-eq-ok (resolve_columns reg cat ts r) _ h1 in
      subst (AllKnown cat) (ok-injective h2)
        (resolve-AllKnown reg cat ts l hl, resolve-AllKnown reg cat ts r hr)
  resolve-AllKnown reg cat ts (function_call n args) h =
      let (args', ha, h1) = >>=-eq-ok (resolve_args reg cat ts args) _ h in
      let (_, hf, h2) = >>=-eq-ok (guard (has_function reg n) (unknown_function n)) _ h1 in
      subst (AllKnown cat) (ok-injective h2) (resolve_args-AllKnown reg cat ts args ha)

  resolve_args-AllKnown :
      (reg : Registry) (cat : Catalog) (ts : List Text) (es : Exprs) {es' : Exprs}
      → resolve_args reg cat ts es ≡ ok es'
      → AllKnownArgs cat es'
  resolve_args-AllKnown reg cat ts no_args h = subst (AllKnownArgs cat) (ok-injective h) tt
  resolve_args-AllKnown reg cat ts (arg e es) h =
      let (e', he, h1) = >>=-eq-ok (resolve_columns reg cat ts e) _ h in
      let (es', hs, h2) = >>=-eq-ok (resolve_args reg cat ts es) _ h1 in
      subst (AllKnownArgs cat) (ok-injective h2)
        (resolve-AllKnown reg cat ts e he, resolve_args-AllKnown reg cat ts es hs)

-- Every column that a bound expression names is written `table.column`, and the catalog has that
-- column in that table.
pub bind_expr-AllKnown :
    (reg : Registry) (cat : Catalog) (ts : List Text) (e e' : Expr)
    → bind_expr reg cat ts e ≡ ok e'
    → AllKnown cat e'
unfolding bind_expr
bind_expr-AllKnown reg cat ts e e' h =
    let (r, hr, h1) = >>=-eq-ok (resolve_columns reg cat ts e) _ h in
    let (_, hc, h2) = >>=-eq-ok (type_check cat r) _ h1 in
    subst (AllKnown cat) (ok-injective h2) (resolve-AllKnown reg cat ts e hr)

-- A binary operator stands between operands that are no operators and no calls.
abbrev pub IsOperand : Expr → Type 0
IsOperand (binary_op op l r) = ⊥
IsOperand (function_call n args) = ⊥
IsOperand _ = Unit

typed-IsOperand :
    (cat : Catalog) (e : Expr) (t : DataType) → operand_type cat e ≡ ok t → IsOperand e
unfolding operand_type
typed-IsOperand cat (binary_op op l r) t h = cc
typed-IsOperand cat (function_call n args) t h = cc
typed-IsOperand cat (column_ref n) t h = tt
typed-IsOperand cat (int_literal z) t h = tt
typed-IsOperand cat (str_literal s) t h = tt

-- Resolving names makes no operand of an operator.
resolve-IsOperand :
    (reg : Registry) (cat : Catalog) (ts : List Text) (e e' : Expr)
    → resolve_columns reg cat ts e ≡ ok e'
    → IsOperand e'
    → IsOperand e
unfolding resolve_columns
resolve-IsOperand reg cat ts (binary_op op l r) e' h k =
    let (l', hl, h1) = >>=-eq-ok (resolve_columns reg cat ts l) _ h in
    let (r', hr, h2) = >>=-eq-ok (resolve_columns reg cat ts r) _ h1 in
    subst IsOperand (sym (ok-injective h2)) k
resolve-IsOperand reg cat ts (function_call n args) e' h k =
    let (args', ha, h1) = >>=-eq-ok (resolve_args reg cat ts args) _ h in
    let (_, hf, h2) = >>=-eq-ok (guard (has_function reg n) (unknown_function n)) _ h1 in
    subst IsOperand (sym (ok-injective h2)) k
resolve-IsOperand reg cat ts (column_ref n) e' h k = tt
resolve-IsOperand reg cat ts (int_literal z) e' h k = tt
resolve-IsOperand reg cat ts (str_literal s) e' h k = tt

type_check-IsOperand :
    (cat : Catalog) (op : Op) (l r : Expr)
    → type_check cat (binary_op op l r) ≡ ok tt
    → IsOperand l × IsOperand r
unfolding type_check
type_check-IsOperand cat op l r h =
    let (_, _, h1) = >>=-eq-ok (type_check cat l) _ h in
    let (_, _, h2) = >>=-eq-ok (type_check cat r) _ h1 in
    let (lt, hl, h3) = >>=-eq-ok (operand_type cat l) _ h2 in
    let (rt, hr, h4) = >>=-eq-ok (operand_type cat r) _ h3 in
    (typed-IsOperand cat l lt hl, typed-IsOperand cat r rt hr)

-- If a condition is accepted, then each operand of its operator is a column or a literal. So AND and
-- OR between comparisons are refused whatever the catalog holds, also with brackets.
pub bind_expr-IsOperand :
    (reg : Registry) (cat : Catalog) (ts : List Text) (op : Op) (l r e : Expr)
    → bind_expr reg cat ts (binary_op op l r) ≡ ok e
    → IsOperand l × IsOperand r
unfolding bind_expr resolve_columns
bind_expr-IsOperand reg cat ts op l r e h =
    let (b, hb, h1) = >>=-eq-ok (resolve_columns reg cat ts (binary_op op l r)) _ h in
    let (u, hc, _) = >>=-eq-ok (type_check cat b) _ h1 in
    let (l', hl, h2) = >>=-eq-ok (resolve_columns reg cat ts l) _ hb in
    let (r', hr, h3) = >>=-eq-ok (resolve_columns reg cat ts r) _ h2 in
    let checked =
      type_check-IsOperand cat op l' r'
        (subst (λ x. type_check cat x ≡ ok tt) (sym (ok-injective h3)) hc) in
    (resolve-IsOperand reg cat ts l l' hl checked.0, resolve-IsOperand reg cat ts r r' hr checked.1)
