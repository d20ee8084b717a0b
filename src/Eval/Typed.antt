-- ===== src/Eval/Typed.antt =====
-- Conditions that binder/Binder.cpp accepts, under the evaluator of
-- physicalOperator/expressionEvaluator/ExpressionEvaluator.cpp on the rows of a table.
use sql_engine.Base.{
  ℕ, zero, suc, Bool, true, false, none, some, List, [], ◌∷◌, ◌≡◌, refl, sym, ap, ◌∙◌, subst, Text,
  arith, ok, >>=-eq-ok, ok-injective, get_elem?, Option-cases, Result-cases, inl, inr, guard,
  unknown_function,
}
use sql_engine.Base.Equality.{text_eq}
use sql_engine.Ast.{
  Expr, column_ref, int_literal, str_literal, binary_op, function_call, Op, op_eq, op_neq, op_lt,
  op_gt, op_lte, op_gte,
}
use sql_engine.Schema.{Column, Schema, DataType, int_type, string_type}
use sql_engine.Catalog.{Catalog, get_table, column_named, get_column_info}
use sql_engine.Binder.{
  split_dot, qualified, search_tables, qualify_column, resolve_columns, resolve_args, operand_type,
  type_check, is_comparison, same_type, check_operator, bind_expr,
}
use sql_engine.Record.{FieldValue, int, str}
use sql_engine.Record.Typed.{IsOf, Conforms}
use sql_engine.Functions.{Registry, has_function}
use sql_engine.Eval.{Row, ColumnIndex, eval, eval_boolean, column_value, apply_op, truth, of_bool}
use sql_engine.Physical.{index_columns}
use sql_engine.Physical.Index.{IsDistinct, column_position}

-- The value is of the type.
abbrev HasType : DataType → FieldValue → Type 0
HasType int_type (int z) = Unit
HasType string_type (str s) = Unit
HasType _ _ = ⊥

-- An operand is written without the name of a table.
abbrev pub IsPlain : Expr → Type 0
IsPlain (column_ref n) = split_dot n ≡ none
IsPlain e = Unit

-- The first dot of `table.column` is the one between them, if the name of the table has none.
split_dot-qualified : (t n : Text) → split_dot t ≡ none → split_dot (qualified t n) ≡ some (t, n)
unfolding split_dot
split_dot-qualified [] n h = refl
split_dot-qualified (c ∷ cs) n h = elim (Option-cases (split_dot cs)) [
  | inl e ↦ ground (arith, e, split_dot-qualified cs n e)
  | inr ((a, b), e) ↦ absurd (ground (arith, e))
]

IsOf-HasType : (t : DataType) (n : ℕ) (v : FieldValue) → IsOf t n v → HasType t v
IsOf-HasType int_type n (int z) h = tt
IsOf-HasType int_type n (str s) h = h
IsOf-HasType string_type n (int z) h = h
IsOf-HasType string_type n (str s) h = tt

-- The value of a row at the position of a column.
value_at :
    (cs : List Column) (row : Row) (j : ℕ) (c : Column)
    → Conforms cs row
    → get_elem? cs j ≡ some c
    → (v : FieldValue) × (get_elem? row j ≡ some v) × HasType c.type v
value_at [] row j c h e = absurd (cc)
value_at (b ∷ cs) [] j c h e = absurd h
value_at (b ∷ cs) (v ∷ vs) zero c h e =
    let same : b ≡ c = cc in
    (v, refl, subst (λ (x : Column). HasType x.type v) same (IsOf-HasType b.type b.length v h.0))
value_at (b ∷ cs) (v ∷ vs) (suc j) c h e = value_at cs vs j c h.1 e

column_found :
    (cat : Catalog) (t n : Text) (s : Schema) (c : Column)
    → get_table cat t ≡ ok s
    → get_column_info cat t n ≡ ok c
    → column_named n s.columns ≡ some c
unfolding get_column_info
column_found cat t n s c g h = elim (Option-cases (column_named n s.columns)) [
  | inl e ↦ absurd (ground (arith, g, e, h))
  | inr (d, e) ↦ ground (arith, g, e, h)
]

-- What a column that is written without a table is resolved to, when there is one table.
plain_column :
    (cat : Catalog) (t n q : Text)
    → split_dot n ≡ none
    → qualify_column cat n (t ∷ []) ≡ ok q
    → (c : Column) × (get_column_info cat t n ≡ ok c) × (q ≡ qualified t n)
unfolding qualify_column search_tables
plain_column cat [] n q h k = elim (Result-cases (get_column_info cat [] n)) [
  | inl (x, e) ↦ absurd (ground (arith, h, k, e))
  | inr (c, e) ↦ (c, e, ground (arith, h, k, e))
]
plain_column cat (a ∷ t) n q h k = elim (Result-cases (get_column_info cat (a ∷ t) n)) [
  | inl (x, e) ↦ absurd (ground (arith, h, k, e))
  | inr (c, e) ↦ (c, e, ground (arith, h, k, e))
]

module _ (reg : Registry) (cat : Catalog) (t : Text) (s : Schema) (row : Row)
    (schema_of : get_table cat t ≡ ok s) (distinct : IsDistinct s.columns)
    (one_name : split_dot t ≡ none) (typed : Conforms s.columns row) where
  abbrev index : ColumnIndex
  index = index_columns t 0 s.columns []

  column_evaluates :
      (n : Text) (c : Column) (ty : DataType)
      → get_column_info cat t n ≡ ok c
      → operand_type cat (column_ref (qualified t n)) ≡ ok ty
      → (v : FieldValue) × (column_value row index (qualified t n) ≡ ok v) × HasType ty v
  unfolding operand_type column_value
  column_evaluates n c ty known h =
      let (j, at, found) =
        column_position t n s.columns c distinct (column_found cat t n s c schema_of known) in
      let (v, there, has) = value_at s.columns row j c typed at in
      let named = split_dot-qualified t n one_name in
      let same : c.type ≡ ty = ground (arith, known, named, h) in
      (v, rw (found, there) refl, subst (λ x. HasType x v) same has)

  -- An operand that the binder has resolved, and whose type it knows, has a value of this type.
  operand_evaluates :
      (e e' : Expr) (ty : DataType)
      → IsPlain e
      → resolve_columns reg cat (t ∷ []) e ≡ ok e'
      → operand_type cat e' ≡ ok ty
      → (v : FieldValue) × (eval reg row index e' ≡ ok v) × HasType ty v
  unfolding resolve_columns eval operand_type
  operand_evaluates (column_ref n) e' ty p r h =
      let (q, hq, he) = >>=-eq-ok (qualify_column cat n (t ∷ [])) _ r in
      let (c, known, named) = plain_column cat t n q p hq in
      let is_column : column_ref (qualified t n) ≡ e' =
        ap column_ref (sym named) ∙ ok-injective he in
      subst
        (λ x.
          operand_type cat x ≡ ok ty
          → (v : FieldValue) × (eval reg row index x ≡ ok v) × HasType ty v)
        is_column (column_evaluates n c ty known) h
  operand_evaluates (int_literal z) e' ty p r h =
      let same : int_type ≡ ty = ground (arith, r, h) in
      (int z, ground (arith, r), subst (λ x. HasType x (int z)) same tt)
  operand_evaluates (str_literal w) e' ty p r h =
      let same : string_type ≡ ty = ground (arith, r, h) in
      (str w, ground (arith, r), subst (λ x. HasType x (str w)) same tt)
  operand_evaluates (binary_op op a b) e' ty p r h =
      let (a', ha, r1) = >>=-eq-ok (resolve_columns reg cat (t ∷ []) a) _ r in
      let (b', hb, r2) = >>=-eq-ok (resolve_columns reg cat (t ∷ []) b) _ r1 in
      absurd (ground (arith, r2, h))
  operand_evaluates (function_call n args) e' ty p r h =
      let (args', ha, r1) = >>=-eq-ok (resolve_args reg cat (t ∷ []) args) _ r in
      let (u, hu, r2) = >>=-eq-ok (guard (has_function reg n) (unknown_function n)) _ r1 in
      absurd (ground (arith, r2, h))

-- A comparison of two values of one type is 0 or 1.
compare_truth :
    (op : Op) (t : DataType) (a b : FieldValue)
    → is_comparison op ≡ true
    → HasType t a
    → HasType t b
    → (v : Bool) × (apply_op op a b ≡ ok (of_bool v))
unfolding apply_op
compare_truth op int_type (int a) (int b) h ha hb = ints op h
  where
    ints :
        (op : Op)
        → is_comparison op ≡ true
        → (v : Bool) × (apply_op op (int a) (int b) ≡ ok (of_bool v))
    ints op_eq h = (_, refl)
    ints op_neq h = (_, refl)
    ints op_lt h = (_, refl)
    ints op_gt h = (_, refl)
    ints op_lte h = (_, refl)
    ints op_gte h = (_, refl)
    ints _ h = cc
compare_truth op string_type (str a) (str b) h ha hb = strings op h
  where
    strings :
        (op : Op)
        → is_comparison op ≡ true
        → (v : Bool) × (apply_op op (str a) (str b) ≡ ok (of_bool v))
    strings op_eq h = (_, refl)
    strings op_neq h = (_, refl)
    strings op_lt h = (_, refl)
    strings op_gt h = (_, refl)
    strings op_lte h = (_, refl)
    strings op_gte h = (_, refl)
    strings _ h = cc
compare_truth op int_type (int a) (str b) h ha hb = absurd hb
compare_truth op int_type (str a) b h ha hb = absurd ha
compare_truth op string_type (int a) b h ha hb = absurd ha
compare_truth op string_type (str a) (int b) h ha hb = absurd hb

truth-of_bool : (b : Bool) → truth (of_bool b) ≡ ok b
unfolding truth
truth-of_bool true = refl
truth-of_bool false = refl

same_type-eq : (a b : DataType) → same_type a b ≡ true → a ≡ b
same_type-eq int_type int_type h = refl
same_type-eq int_type string_type h = cc
same_type-eq string_type int_type h = cc
same_type-eq string_type string_type h = refl

checked_types :
    (op : Op) (lt rt : DataType)
    → is_comparison op ≡ true
    → check_operator op lt rt ≡ ok tt
    → lt ≡ rt
unfolding check_operator
checked_types op lt rt c h = same_type-eq lt rt (ground arith)

-- The comparison, once both of its sides are resolved.
resolved_evaluates :
    (reg : Registry) (cat : Catalog) (t : Text) (s : Schema) (row : Row) (op : Op)
    (l r l' r' : Expr)
    → get_table cat t ≡ ok s
    → IsDistinct s.columns
    → split_dot t ≡ none
    → Conforms s.columns row
    → IsPlain l
    → IsPlain r
    → is_comparison op ≡ true
    → resolve_columns reg cat (t ∷ []) l ≡ ok l'
    → resolve_columns reg cat (t ∷ []) r ≡ ok r'
    → type_check cat (binary_op op l' r') ≡ ok tt
    → (b : Bool) × (eval_boolean reg row (index_columns t 0 s.columns []) (binary_op op l' r')
        ≡ ok b)
unfolding type_check eval_boolean eval
resolved_evaluates reg cat t s row op l r l' r' table dist one typed pl pr comparison hl hr h =
    let (_, _, h1) = >>=-eq-ok (type_check cat l') _ h in
    let (_, _, h2) = >>=-eq-ok (type_check cat r') _ h1 in
    let (lt, tl, h3) = >>=-eq-ok (operand_type cat l') _ h2 in
    let (rt, tr, h4) = >>=-eq-ok (operand_type cat r') _ h3 in
    let same = checked_types op lt rt comparison h4 in
    let (a, ea, ta) = operand_evaluates reg cat t s row table dist one typed l l' lt pl hl tl in
    let (b, eb, tb) = operand_evaluates reg cat t s row table dist one typed r r' rt pr hr tr in
    let (v, ev) = compare_truth op rt a b comparison (subst (λ t. HasType t a) same ta) tb in
    (v, ground (arith, ea, eb, ev, truth-of_bool v))

-- Let a comparison of literals and of columns that are written without a table be bound for one table,
-- whose name has no dot and whose columns have distinct names. On each row that has one value of the
-- declared type and length for each column of the table, the bound comparison evaluates to a truth
-- value, its columns standing where the scan of the table puts them: none of the evaluator's exceptions
-- is thrown.
pub comparison_evaluates :
    (reg : Registry) (cat : Catalog) (t : Text) (s : Schema) (row : Row) (op : Op) (l r e : Expr)
    → get_table cat t ≡ ok s
    → IsDistinct s.columns
    → split_dot t ≡ none
    → Conforms s.columns row
    → IsPlain l
    → IsPlain r
    → is_comparison op ≡ true
    → bind_expr reg cat (t ∷ []) (binary_op op l r) ≡ ok e
    → (b : Bool) × (eval_boolean reg row (index_columns t 0 s.columns []) e ≡ ok b)
unfolding bind_expr resolve_columns
comparison_evaluates reg cat t s row op l r e schema_of distinct one_name typed pl pr comparison h =
    let (bound, h0, h1) = >>=-eq-ok (resolve_columns reg cat (t ∷ []) (binary_op op l r)) _ h in
    let (_, checked, h2) = >>=-eq-ok (type_check cat bound) _ h1 in
    let (l', hl, h3) = >>=-eq-ok (resolve_columns reg cat (t ∷ []) l) _ h0 in
    let (r', hr, h4) = >>=-eq-ok (resolve_columns reg cat (t ∷ []) r) _ h3 in
    let is_bound : binary_op op l' r' ≡ bound = ok-injective h4 in
    subst (λ x. (b : Bool) × (eval_boolean reg row (index_columns t 0 s.columns []) x ≡ ok b))
      (is_bound ∙ ok-injective h2)
      (resolved_evaluates reg cat t s row op l r l' r' schema_of distinct one_name typed pl pr
        comparison hl hr (subst (λ x. type_check cat x ≡ ok tt) (sym is_bound) checked))
