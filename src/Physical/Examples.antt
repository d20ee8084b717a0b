-- ===== src/Physical/Examples.antt =====
-- A query from its text to its rows, and the theorems at it.
use sql_engine.Base.{
  negsuc, ℕ, zero, suc, ◌*◌, ◌≡◌, refl, ok, err, List, [], ◌∷◌, Bool, false, arith, Text, codes,
  pos, undefined, some, get_elem?,
}
use sql_engine.Base.Int.{leb_ℤ}
use sql_engine.Base.Equality.{text_eq}
use sql_engine.Base.Assoc.{find, insert}
use sql_engine.Ast.{Expr, column_ref, int_literal, binary_op, op_gte, select, SelectStmt}
use sql_engine.Schema.{Column, Schema, int_type}
use sql_engine.Catalog.{Catalog, get_table, get_column_info, column_named}
use sql_engine.Record.{int}
use sql_engine.Parser.Lexer.{tokenize}
use sql_engine.Parser.Statement.{parse_statement}
use sql_engine.Parser.{parse}
use sql_engine.Binder.{bind}
use sql_engine.Eval.{Row, eval, eval_boolean}
use sql_engine.Heap.{RecordId}
use sql_engine.Exec.{Storage, eval_all}
use sql_engine.Exec.Streams.{fetch_all}
use sql_engine.Physical.{index_columns, execute_query}
use sql_engine.Physical.Index.{column_position}
use sql_engine.Physical.Select.{execute_query_rows}

abbrev rid : ℕ → RecordId
rid n = record { page_id = pos 0; slot_num = pos n }

-- The record in slot n has the id n and the age 3 * n.
abbrev two_records : Storage
two_records = record {
  scan_table = λ t. ok (rid 1 ∷ rid 2 ∷ []);
  fetch_record = λ t r. elim r.slot_num [
    | negsuc n ↦ err undefined
    | pos zero ↦ err undefined
    | pos (suc n) ↦ ok (int (pos (suc n)) ∷ int (pos (3 * suc n)) ∷ [])
  ];
}

abbrev id : Column
id = record { name = codes "id"; type = int_type; length = 0 }

abbrev age : Column
age = record { name = codes "age"; type = int_type; length = 0 }

abbrev people : Schema
people = record { columns = id ∷ age ∷ []; record_size = 8 }

abbrev cat : Catalog
cat = (codes "t", record { schema = people; indexes = []; row_count = 2 }) ∷ []

abbrev sql : Text
sql = codes "SELECT id FROM t WHERE age >= 5"

abbrev read : SelectStmt
read = record {
  select_list = column_ref (codes "id") ∷ [];
  tables = codes "t" ∷ [];
  where_clause = some (binary_op op_gte (column_ref (codes "age")) (int_literal (pos 5)));
}

abbrev adult : Expr
adult = binary_op op_gte (column_ref (codes "t.age")) (int_literal (pos 5))

abbrev bound : SelectStmt
bound = record {
  select_list = column_ref (codes "t.id") ∷ [];
  tables = codes "t" ∷ [];
  where_clause = some adult;
}

reads : parse sql ≡ ok (select read)
unfolding parse tokenize parse_statement
reads = refl

binds : bind [] cat (select read) ≡ ok (select bound)
unfolding bind get_table get_column_info find
binds = refl

abbrev is_adult : Row → Bool
is_adult (a ∷ int z ∷ []) = leb_ℤ (pos 5) z
is_adult _ = false

abbrev id_of : Row → Row
id_of (a ∷ rest) = a ∷ []
id_of [] = []

abbrev both_rows : List Row
both_rows = (int (pos 1) ∷ int (pos 3) ∷ []) ∷ (int (pos 2) ∷ int (pos 6) ∷ []) ∷ []

execute_query_rows_example :
    execute_query (λ m. m) cat [] two_records 9 9 sql ≡ ok ((int (pos 2) ∷ []) ∷ [])
unfolding fetch_all eval_boolean eval_all eval find get_table index_columns insert
execute_query_rows_example =
    execute_query_rows (λ m. m) cat [] two_records sql (select read) bound adult (codes "t") people
      (rid 1 ∷ rid 2 ∷ []) both_rows is_adult id_of 9 9 reads binds refl refl refl refl refl
      (refl, (refl, tt)) (refl, tt) (omega arith) (omega arith)

column_position_run :
    (j : ℕ) × (get_elem? (id ∷ age ∷ []) j ≡ some age)
    × (find (codes "t.age") (index_columns (codes "t") 0 (id ∷ age ∷ []) []) ≡ some j)
unfolding column_named
column_position_run =
    column_position (codes "t") (codes "age") (id ∷ age ∷ []) age (refl, (refl, tt)) refl
