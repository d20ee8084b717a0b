-- ===== src/Session/Examples.antt =====
-- A session whose tables are a list of texts: every text that is not a word of the session is parsed
-- as an INSERT, which adds a row for the table.
use sql_engine.Base.{
  true, ◌≡◌, refl, List, [], ◌∷◌, ◌++◌, Text, codes, pos, ok, err, if◌then◌else◌, arith,
  no_transaction,
}
use sql_engine.Base.Equality.{nat_eq}
use sql_engine.Base.Assoc.{find, insert}
use sql_engine.Base.Numbers.{to_string}
use sql_engine.Ast.{Ast}
use sql_engine.Lock.{release_transaction_locks}
use sql_engine.Tx.{
  active, committed, aborted, init, begin_transaction, abort_transaction, get_state,
}
use sql_engine.Tx.States.{init-IsValid}
use sql_engine.Wal.{open_wal}
use sql_engine.Session.{Session, Engine, trim, has_prefix, execute_query, session_run}
use sql_engine.Session.Control.{Agrees, session_run-Agrees}
use sql_engine.Session.Plain.{
  StmtType, insert_type, begin_type, commit_type, rollback_type, PlainSession, Stages, plain_run,
  IsSteady, plain_run-IsSteady,
}
use sql_engine.Session.Endings.{commit_succeeds, rollback_keeps_store}

abbrev tables : Engine (List Text) Text
tables = record {
  analyze = λ s t. (s, ok tt);
  parse = λ t. ok (Ast.insert (record { table = t; columns = []; values = [] }));
  bind = λ s ast. ok ast;
  change = λ w ast tx. ((codes "row" ∷ w.0, w.1, w.2), ok tt);
  query = λ s ast. ok [];
}

abbrev opened : Session (List Text)
opened = record { store = []; locks = []; wal = open_wal []; transactions = init; current = 0 }

opened-Agrees : Agrees opened
unfolding find get_state
opened-Agrees = record { valid = init-IsValid; opened = λ n. absurd (n refl); only = λ tx h. cc }

abbrev client : List Text
client = codes " begin" ∷ codes "INSERT" ∷ []

session_run-Agrees_example : Agrees (session_run tables opened client)
session_run-Agrees_example = session_run-Agrees tables opened client opened-Agrees

abbrev inside : Session (List Text)
inside = record {
  store = codes "row" ∷ [];
  locks = [];
  wal = open_wal [];
  transactions = record { next_tx_id = 2; tx_table = (1, active) ∷ [] };
  current = 1;
}

runs : session_run tables opened client ≡ inside
unfolding session_run begin_transaction insert
runs = refl

inside-Agrees : Agrees inside
unfolding session_run begin_transaction insert
inside-Agrees = session_run-Agrees tables opened client opened-Agrees

commits_word : has_prefix (trim (codes "commit ")) (codes "COMMIT") ≡ true
unfolding has_prefix trim
commits_word = refl

rollback_word : has_prefix (trim (codes "Rollback")) (codes "ROLLBACK") ≡ true
unfolding has_prefix trim
rollback_word = refl

refused : (execute_query tables opened (codes "COMMIT")).1 ≡ err no_transaction
unfolding execute_query
refused = refl

commit_succeeds_example :
    (s' : Session (List Text)) × (execute_query tables inside (codes "commit ") ≡ (s', ok []))
    × (s'.current ≡ 0)
    × (get_state s'.transactions 1 ≡ ok committed)
    × (s'.locks ≡ release_transaction_locks [] 1)
    × (s'.wal.file ≡ [] ++ ([] ++ ((codes "COMMIT," ++ to_string (pos 1)) ++ 10 ∷ [])))
commit_succeeds_example =
    commit_succeeds tables inside (codes "commit ") commits_word inside-Agrees
      (λ e. absurd (omega (arith, e)))

rollback_keeps_store_run :
    (s' : Session (List Text)) × (execute_query tables inside (codes "Rollback") ≡ (s', ok []))
    × (get_state s'.transactions 1 ≡ ok aborted)
    × (s'.locks ≡ release_transaction_locks [] 1)
    × (s'.store ≡ codes "row" ∷ [])
rollback_keeps_store_run =
    rollback_keeps_store tables inside (codes "Rollback") rollback_word inside-Agrees
      (λ e. absurd (omega (arith, e)))

-- A session without locks: a text is the word of a statement.
abbrev type_of_word : Text → StmtType
type_of_word sql =
    if has_prefix sql (codes "BEGIN")
    then begin_type
    else if has_prefix sql (codes "COMMIT")
    then commit_type
    else if has_prefix sql (codes "ROLLBACK")
    then rollback_type
    else insert_type

abbrev words : Stages Text (List Text) Text
words = record {
  parse = λ t. ok t;
  type_of = type_of_word;
  bind = λ s t. ok t;
  run = λ s t. (t ∷ s, ok []);
}

abbrev plain_opened : PlainSession (List Text)
plain_opened = record { store = []; transactions = init; current = 0 }

abbrev plain_client : List Text
plain_client =
    codes "INSERT"
    ∷ codes "BEGIN"
    ∷ codes "BEGIN"
    ∷ codes "INSERT"
    ∷ codes "ROLLBACK"
    ∷ codes "BEGIN"
    ∷ []

one_row : (plain_run words plain_opened plain_client).store ≡ codes "INSERT" ∷ []
unfolding plain_run has_prefix begin_transaction abort_transaction insert find
one_row = refl

plain_run-IsSteady_example : IsSteady words (plain_run words plain_opened plain_client)
plain_run-IsSteady_example = plain_run-IsSteady words plain_opened plain_client opened-Agrees
