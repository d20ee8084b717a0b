-- ===== src/Functions/Examples.antt =====
-- A registered function, and the theorem at it.
use sql_engine.Base.{◌≡◌, ok, [], codes, pos}
use sql_engine.Record.{int}
use sql_engine.Functions.{Udf, get_function, register_function, normalize, get-register}

abbrev one : Udf
one args = ok (int (pos 1))

get-register_run : get_function (register_function [] (codes "Abs") one) (codes "aBS") ≡ ok one
unfolding normalize
get-register_run = get-register [] (codes "Abs") (codes "aBS") one
