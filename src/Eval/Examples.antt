-- ===== src/Eval/Examples.antt =====
-- A comparison at a row, and the theorem at it.
use sql_engine.Base.{◌≡◌, refl, ok, [], ◌∷◌, Bool, codes, pos, arith}
use sql_engine.Base.Assoc.{find}
use sql_engine.Schema.{Schema, int_type, string_type}
use sql_engine.Catalog.{Catalog, get_table, get_column_info, column_named}
use sql_engine.Binder.{split_dot, bind_expr, type_check, resolve_columns}
use sql_engine.Ast.{column_ref, int_literal, binary_op, op_gte}
use sql_engine.Record.{int, str}
use sql_engine.Eval.{Row, ColumnIndex, eval, eval_boolean}
use sql_engine.Physical.{index_columns}
use sql_engine.Eval.Typed.{comparison_evaluates}

-- Two tables: users with an INT and a STRING column, and t with one INT column.
abbrev users : Schema
users = record {
  columns =
      (record { name = codes "age"; type = int_type; length = 0 })
      ∷ (record { name = codes "name"; type = string_type; length = 8 })
      ∷ [];
  record_size = 12;
}

abbrev ages : Catalog
ages =
    (codes "users", record { schema = users; indexes = []; row_count = 0 })
    ∷ (
      codes "t",
      record {
        schema = record {
          columns = (record { name = codes "age"; type = int_type; length = 0 }) ∷ [];
          record_size = 4;
        };
        indexes = [];
        row_count = 0;
      },
    )
    ∷ []

abbrev index : ColumnIndex
index = (codes "users.age", 0) ∷ (codes "users.name", 1) ∷ []

abbrev row : Row
row = int (pos 5) ∷ str (codes "Al") ∷ []

compared :
    eval [] row index (binary_op op_gte (column_ref (codes "users.age")) (int_literal (pos 3)))
    ≡ ok (int (pos 1))
unfolding eval find
compared = refl

-- age >= 3 over users.
comparison_evaluates_example :
    (b : Bool) × (eval_boolean [] row
        (index_columns (codes "users") 0 users.columns [])
        (binary_op op_gte (column_ref (codes "users.age")) (int_literal (pos 3)))
      ≡ ok b)
unfolding bind_expr resolve_columns type_check get_table get_column_info column_named find split_dot
comparison_evaluates_example =
    comparison_evaluates [] ages (codes "users") users row op_gte (column_ref (codes "age"))
      (int_literal (pos 3))
      (binary_op op_gte (column_ref (codes "users.age")) (int_literal (pos 3))) refl
      (refl, (refl, tt)) refl (tt, (omega arith, tt)) refl tt refl refl
