-- ===== src/Wal/Examples.antt =====
-- Runs of the write-ahead log on concrete inputs.
use sql_engine.Base.{
  sym, ap, ◌∙◌, some, Result, err, out_of_range, if◌then◌else◌, then_case, ok-injective, Bool-cases,
  inl, inr, arith, false, ◌≡◌, refl, none, List, [], ◌∷◌, map, Text, codes, pos, All, ok,
}
use sql_engine.Base.Equality.{list_beq}
use sql_engine.Record.{FieldValue, int, str}
use sql_engine.Heap.{RecordId}
use sql_engine.Wal.{
  LogRecord, open_wal, flush, LogCall, insert_call, update_call, commit_call, log_run,
}
use sql_engine.Wal.Tokens.{IsWord}
use sql_engine.Wal.Read.{split_from, split, read_lines, read_log}
use sql_engine.Wal.Lines.{IsLoggableCall, IsLoggableRow, above_separators, record_of}
use sql_engine.Wal.RoundTrip.{read_log-log_run}
use sql_engine.Wal.Recovery.{
  Redo, is_commit, is_abort, tx_ids, has_tx, redo_loop, undo_loop, replay, recover,
  recover_silences,
}
use sql_engine.Wal.Orderly.{Content, same_record, overwritten, IsOrderly, committed_value}
use sql_engine.Wal.Committed.{Keeps, recovery_restores}

abbrev users : Text
users = codes "users"

abbrev first : RecordId
first = record { page_id = pos 0; slot_num = pos 0 }

abbrev second : RecordId
second = record { page_id = pos 0; slot_num = pos 1 }

abbrev alice : List FieldValue
alice = int (pos 1) ∷ str (codes "Alice") ∷ []

abbrev bob : List FieldValue
bob = int (pos 2) ∷ str (codes "Bob") ∷ []

-- Transaction 1 commits, transaction 2 does not.
abbrev calls : List LogCall
calls =
    insert_call (pos 1) users first alice
    ∷ commit_call (pos 1)
    ∷ update_call (pos 2) users first alice bob
    ∷ insert_call (pos 2) users second bob
    ∷ []

users-IsWord : IsWord users
users-IsWord = (λ h. cc, above_separators users refl)

alice-IsLoggableRow : IsLoggableRow alice
alice-IsLoggableRow = (λ h. cc, (refl, ((λ h. cc, above_separators (codes "Alice") refl), tt)))

bob-IsLoggableRow : IsLoggableRow bob
bob-IsLoggableRow = (λ h. cc, (refl, ((λ h. cc, above_separators (codes "Bob") refl), tt)))

calls-IsLoggable : All IsLoggableCall calls
calls-IsLoggable = (
  (refl, users-IsWord, (refl, refl), alice-IsLoggableRow),
  (
    refl,
    (
      (refl, users-IsWord, (refl, refl), alice-IsLoggableRow, bob-IsLoggableRow),
      ((refl, users-IsWord, (refl, refl), bob-IsLoggableRow), tt),
    ),
  ),
)

read_log-log_run_example :
    read_log (flush (log_run (open_wal []) calls)).file ≡ ok (map record_of calls)
read_log-log_run_example = read_log-log_run calls calls-IsLoggable

-- A storage with one table, users, whose calls throw for every other table.
abbrev Slots : Type 0
Slots = Text → RecordId → Content

abbrev rewritten : Slots → Text → RecordId → (Content → Content) → Result Slots
rewritten m t r change =
    if list_beq t users
    then ok (λ u q. if same_record t r u q then change (m u q) else m u q)
    else err out_of_range

abbrev slots : Redo Slots
slots = record {
  redo_insert = λ m t r v. rewritten m t r (λ c. some v);
  redo_delete = λ m t r. rewritten m t r (λ c. none);
  redo_update = λ m t r v. rewritten m t r (λ c. overwritten c v);
}

abbrev Always : Slots → Type 0
Always m = Unit

abbrev Any : Text → RecordId → List FieldValue → Type 0
Any t r values = Unit

abbrev first_content : Slots → Content
first_content m = m users first

rewritten-content :
    (m m' : Slots) (u : Text) (q : RecordId) (change : Content → Content)
    → rewritten m u q change ≡ ok m'
    → Always m'
      × (m' users first
          ≡ (if same_record u q users first then change (m users first) else m users first))
rewritten-content m m' u q change h = elim (Bool-cases (list_beq u users)) [
  | inl e ↦
      let same = ok-injective (sym (then_case _ _ e) ∙ h) in
      (tt, ap (λ (f : Slots). f users first) (sym same))
  | inr e ↦ absurd (ground (arith, e, h))
]

slots-Keeps : Keeps slots users first Always Any first_content
slots-Keeps = record {
  inserted = λ m m' u q values g w h. rewritten-content m m' u q (λ c. some values) h;
  deleted = λ m m' u q values g w h. rewritten-content m m' u q (λ c. none) h;
  updated = λ m m' u q values g w h. rewritten-content m m' u q (λ c. overwritten c values) h;
}

abbrev nothing : Slots
nothing t rid = none

abbrev records : List LogRecord
records = map record_of calls

records-IsOrderly :
    IsOrderly (tx_ids is_commit records) (tx_ids is_abort records) users first none records
unfolding tx_ids has_tx
records-IsOrderly = (refl, refl, (refl, refl, tt))

recover_empty :
    recover slots (open_wal []) nothing
    ≡ ok (record { file = []; buffer = []; out_good = false }, nothing)
unfolding recover read_log read_lines split split_from replay tx_ids redo_loop undo_loop
recover_empty = refl

-- Redo inserts the first record; undo takes the second away and writes the old values of the first.
abbrev final : Slots
unfolding replay tx_ids redo_loop undo_loop
final = elim (replay slots records nothing) as (λ r. Slots) [ ok m ↦ m | err x ↦ nothing ]

final_row : final users first ≡ some alice
unfolding final
final_row = refl

slots_recovered :
    first_content final
    ≡ committed_value (tx_ids is_commit records) (tx_ids is_abort records) users first records none
unfolding final replay tx_ids redo_loop undo_loop
slots_recovered =
    recovery_restores slots users first Always Any first_content records none nothing final
      slots-Keeps tt ((λ c. (tt, tt)), ((λ c. (tt, tt)), ((λ c. (tt, tt)), ((λ c. (tt, tt)), tt))))
      records-IsOrderly ((λ quiet. refl), (λ quiet. refl)) refl

recover_silences_run :
    (flush (log_run (record { file = []; buffer = []; out_good = false }) calls)).file ≡ []
recover_silences_run =
    recover_silences slots (open_wal []) (record { file = []; buffer = []; out_good = false })
      nothing nothing calls recover_empty
