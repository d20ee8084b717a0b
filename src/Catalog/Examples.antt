-- ===== src/Catalog/Examples.antt =====
-- A catalog as it grows, and the theorems at it.
use sql_engine.Base.{
  ◌≡◌, refl, ◌≢◌, ok, err, some, [], ◌∷◌, ◌++◌, All, arith, Text, codes, table_not_found,
}
use sql_engine.Base.Equality.{text_eq}
use sql_engine.Base.Assoc.{find, insert, erase, contains}
use sql_engine.Schema.{Schema, int_type, make_schema}
use sql_engine.Catalog.{
  Catalog, IndexInfo, get_table, get_indexes, add_table, drop_table, register_index,
}
use sql_engine.Catalog.Saved.{save, load}
use sql_engine.Catalog.Words.{IsName}
use sql_engine.Catalog.Loading.{IsSaved}
use sql_engine.Catalog.RoundTrip.{load-save}
use sql_engine.Catalog.Tables.{add_table_lem, drop_table_lem, register_index_lem}

abbrev ids : Schema
ids = record {
  columns = (record { name = codes "id"; type = int_type; length = 0 }) ∷ [];
  record_size = 4;
}

abbrev users : Text
users = codes "users"

abbrev with_users : Catalog
with_users = (users, record { schema = ids; indexes = []; row_count = 0 }) ∷ []

abbrev by_id : IndexInfo
by_id = record { name = codes "by_id"; columns = codes "id" ∷ [] }

abbrev with_index : Catalog
with_index = (users, record { schema = ids; indexes = by_id ∷ []; row_count = 0 }) ∷ []

added : add_table [] users ids ≡ ok with_users
unfolding add_table contains find insert
added = refl

dropped : drop_table with_users users ≡ ok []
unfolding drop_table contains find erase
dropped = refl

registered : register_index with_users users (codes "by_id") (codes "id" ∷ []) ≡ ok with_index
unfolding register_index find insert
registered = refl

add_table_lem_run :
    (get_table [] users ≡ err (table_not_found users))
    × (get_table with_users users ≡ ok ids)
    × (get_indexes with_users users ≡ ok [])
add_table_lem_run = add_table_lem [] with_users users users ids added

drop_table_lem_run :
    (get_table with_users users ≢ err (table_not_found users))
    × (get_table [] users ≡ err (table_not_found users))
drop_table_lem_run = drop_table_lem with_users [] users users dropped

register_index_lem_run :
    (get_table with_index users ≡ get_table with_users users)
    × (get_indexes with_index users ≡ ok (by_id ∷ []))
unfolding get_indexes find
register_index_lem_run =
    register_index_lem with_users with_index users (codes "by_id") users (codes "id" ∷ []) []
      registered refl

-- The catalog with the index, written and read back.
saved :
    save with_index
    ≡ codes "TABLE users"
      ++ 10 ∷ codes "COLUMNS 1"
      ++ 10 ∷ codes "id INT 0"
      ++ 10 ∷ codes "INDEXES 1"
      ++ 10 ∷ codes "by_id 1 id"
      ++ 10 ∷ codes "STATS 0"
      ++ 10 ∷ codes "END"
      ++ 10 ∷ []
unfolding save
saved = refl

id-IsName : IsName (codes "id")
id-IsName = (λ e. cc, (refl, (refl, tt)))

with_index-IsSaved : All IsSaved with_index
unfolding make_schema
with_index-IsSaved = (
  (
    (omega arith, (omega arith, (omega arith, (omega arith, (omega arith, tt))))),
    refl,
    ((id-IsName, omega arith), tt),
    (((λ e. cc, (refl, (refl, (refl, (refl, (refl, tt)))))), (id-IsName, tt), omega arith), tt),
    omega arith,
    omega arith,
    omega arith,
  ),
  tt,
)

load-save_example :
    (c' : Catalog) × (load (some (save with_index)) [] ≡ ok c')
    × ((k : Text) → find k c' ≡ find k with_index)
unfolding find
load-save_example = load-save with_index [] with_index-IsSaved (refl, tt)
