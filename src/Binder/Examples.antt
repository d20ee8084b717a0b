-- ===== src/Binder/Examples.antt =====
-- Names of two tables that share a column, and the theorems on names at them.
use sql_engine.Base.{◌≡◌, refl, ok, List, [], ◌∷◌, Text, codes, pos}
use sql_engine.Base.Equality.{text_eq}
use sql_engine.Base.Assoc.{find}
use sql_engine.Schema.{Schema, Column, int_type}
use sql_engine.Catalog.{Catalog, get_column_info}
use sql_engine.Ast.{Expr, column_ref, int_literal, binary_op, op_eq}
use sql_engine.Binder.{split_dot, qualify_column, bind_expr}
use sql_engine.Binder.Columns.{
  AllKnown, IsOperand, qualify_first, bind_expr-AllKnown, bind_expr-IsOperand,
}

abbrev id : Column
id = record { name = codes "id"; type = int_type; length = 0 }

abbrev ids : Schema
ids = record { columns = id ∷ []; record_size = 4 }

abbrev both : Catalog
both =
    (codes "t", record { schema = ids; indexes = []; row_count = 0 })
    ∷ (codes "u", record { schema = ids; indexes = []; row_count = 0 })
    ∷ []

abbrev tables : List Text
tables = codes "v" ∷ codes "t" ∷ codes "u" ∷ []

abbrev condition : Expr
condition = binary_op op_eq (column_ref (codes "id")) (int_literal (pos 1))

abbrev bound : Expr
bound = binary_op op_eq (column_ref (codes "t.id")) (int_literal (pos 1))

binds : bind_expr [] both tables condition ≡ ok bound
unfolding bind_expr get_column_info find
binds = refl

qualify_first_run : qualify_column both (codes "id") tables ≡ ok (codes "t.id")
unfolding get_column_info find split_dot
qualify_first_run =
    qualify_first both (codes "id") (codes "v" ∷ []) (codes "t") (codes "u" ∷ []) id refl
      ((_, refl), tt) refl

bind_expr-AllKnown_example : AllKnown both bound
bind_expr-AllKnown_example = bind_expr-AllKnown [] both tables condition bound binds

bind_expr-IsOperand_example : IsOperand (column_ref (codes "id")) × IsOperand (int_literal (pos 1))
bind_expr-IsOperand_example =
    bind_expr-IsOperand [] both tables op_eq (column_ref (codes "id")) (int_literal (pos 1)) bound
      binds
