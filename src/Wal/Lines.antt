-- ===== src/Wal/Lines.antt =====
-- A line that a log call of _WALManager/WALManager.cpp writes, and what recover reads from it.
use sql_engine.Base.{
  ℕ, Bool, true, false, ◌≡◌, ◌≢◌, refl, sym, ap, ◌∙◌, some, List, [], ◌∷◌, ◌++◌, map, append_assoc,
  append-nil, Text, codes, ℤ, All, All-append, All_mono, arith, ok, ltb, ◌&&◌, drop,
}
use sql_engine.Base.Equality.{list_beq}
use sql_engine.Base.Numbers.{to_string, to_string-ne, number_in-to_string, fits64}
use sql_engine.Record.{FieldValue, int, str}
use sql_engine.Heap.{RecordId}
use sql_engine.Wal.{
  insert_op, delete_op, update_op, commit_op, abort_op, LogRecord, fv_to_string, values_text,
  line_start, LogCall, insert_call, delete_call, update_call, commit_call, abort_call,
}
use sql_engine.Wal.Read.{
  split_from, split, old_new_parts, parse_fvs, end_record, read_values, read_line,
}
use sql_engine.Wal.Tokens.{
  IsPlain, IsWord, IsLoggable, to_string-IsPlain, split_part, split_last, cut_at-append,
  parse_fvs-map,
}

-- The line that a call writes, and the record that it stands for.
unfoldable pub line_of : LogCall → Text
line_of (insert_call tx t rid new) = line_start (codes "INSERT") tx t rid ++ values_text new
line_of (delete_call tx t rid old) = line_start (codes "DELETE") tx t rid ++ values_text old
line_of (update_call tx t rid old new) =
    line_start (codes "UPDATE") tx t rid ++ (values_text old ++ 59 ∷ values_text new)
line_of (commit_call tx) = codes "COMMIT," ++ to_string tx
line_of (abort_call tx) = codes "ABORT," ++ to_string tx

abbrev pub record_of : LogCall → LogRecord
record_of (insert_call tx t rid new) = record {
  op = insert_op;
  tx_id = tx;
  table = t;
  rid = rid;
  old_values = [];
  new_values = new;
}
record_of (delete_call tx t rid old) = record {
  op = delete_op;
  tx_id = tx;
  table = t;
  rid = rid;
  old_values = old;
  new_values = [];
}
record_of (update_call tx t rid old new) = record {
  op = update_op;
  tx_id = tx;
  table = t;
  rid = rid;
  old_values = old;
  new_values = new;
}
record_of (commit_call tx) = end_record commit_op tx
record_of (abort_call tx) = end_record abort_op tx

-- The values of a row: at least one, and each can be read back.
abbrev pub IsLoggableRow : List FieldValue → Type 0
IsLoggableRow vs = (vs ≢ []) × All IsLoggable vs

abbrev pub FitsId : RecordId → Type 0
FitsId rid = (fits64 rid.page_id ≡ true) × (fits64 rid.slot_num ≡ true)

-- The ids are 64-bit numbers, the table name and the values can be read back.
abbrev pub IsLoggableCall : LogCall → Type 0
IsLoggableCall (insert_call tx t rid new) =
    (fits64 tx ≡ true) × IsWord t × FitsId rid × IsLoggableRow new
IsLoggableCall (delete_call tx t rid old) =
    (fits64 tx ≡ true) × IsWord t × FitsId rid × IsLoggableRow old
IsLoggableCall (update_call tx t rid old new) =
    (fits64 tx ≡ true) × IsWord t × FitsId rid × IsLoggableRow old × IsLoggableRow new
IsLoggableCall (commit_call tx) = fits64 tx ≡ true
IsLoggableCall (abort_call tx) = fits64 tx ≡ true

-- A test that the words of the log pass.
abbrev pub all_above : Text → Bool
all_above [] = true
all_above (c ∷ cs) = ltb 59 c && all_above cs

pub above_separators : (s : Text) → all_above s ≡ true → All IsPlain s
above_separators [] h = tt
above_separators (c ∷ cs) h = (ground arith, above_separators cs (ground arith))

abbrev no_comma : (s : Text) → All IsPlain s → All (λ c. c ≢ 44) s
no_comma = All_mono IsPlain (λ c. c ≢ 44) (λ c h. h.0)

-- The text of a value.
fv_to_string-IsPlain : (v : FieldValue) → IsLoggable v → All IsPlain (fv_to_string v)
unfolding fv_to_string
fv_to_string-IsPlain (int z) h = (
  (omega arith, omega arith, omega arith),
  ((omega arith, omega arith, omega arith), to_string-IsPlain z),
)
fv_to_string-IsPlain (str s) h =
    ((omega arith, omega arith, omega arith), ((omega arith, omega arith, omega arith), h.1))

fv_to_string-ne : (v : FieldValue) → fv_to_string v ≢ []
unfolding fv_to_string
fv_to_string-ne (int z) h = cc
fv_to_string-ne (str s) h = cc

-- The values of a row come apart at the commas.
split-values :
    (v : FieldValue) (vs : List FieldValue)
    → All IsLoggable (v ∷ vs)
    → split_from 44 [] (fv_to_string v ++ values_text vs) ≡ map fv_to_string (v ∷ vs)
unfolding values_text
split-values v [] h =
    ap (split_from 44 []) (append-nil (fv_to_string v))
    ∙ split_last 44 (fv_to_string v) (fv_to_string-ne v)
        (no_comma (fv_to_string v) (fv_to_string-IsPlain v h.0))
split-values v (w ∷ vs) h =
    split_part 44 (fv_to_string v) (fv_to_string w ++ values_text vs)
      (no_comma (fv_to_string v) (fv_to_string-IsPlain v h.0))
    ∙ ap (◌∷◌ (fv_to_string v)) (split-values w vs h.1)

split_first :
    (s more rest : Text)
    → All IsPlain s
    → split_from 44 [] ((s ++ 44 ∷ more) ++ rest) ≡ s ∷ split_from 44 [] (more ++ rest)
split_first s more rest h =
    ap (split_from 44 []) (append_assoc s (44 ∷ more) rest)
    ∙ split_part 44 s (more ++ rest) (no_comma s h)

-- The first five parts of a line.
split-line_start :
    (op : Text) (tx : ℤ) (t : Text) (rid : RecordId) (rest : Text)
    → All IsPlain op
    → All IsPlain t
    → split_from 44 [] (line_start op tx t rid ++ 44 ∷ rest)
      ≡ op
        ∷ to_string tx
        ∷ t
        ∷ to_string rid.page_id
        ∷ to_string rid.slot_num
        ∷ split_from 44 [] rest
unfolding line_start
split-line_start op tx t rid rest ho ht =
    let tail = 44 ∷ rest in
    let slot = to_string rid.slot_num in
    let page = to_string rid.page_id ++ 44 ∷ slot in
    split_first op (to_string tx ++ 44 ∷ (t ++ 44 ∷ page)) tail ho
    ∙ ap (◌∷◌ op) (
        split_first (to_string tx) (t ++ 44 ∷ page) tail (to_string-IsPlain tx)
        ∙ ap (◌∷◌ (to_string tx)) (
            split_first t page tail ht
            ∙ ap (◌∷◌ t) (
                split_first (to_string rid.page_id) slot tail (to_string-IsPlain rid.page_id)
                ∙ ap (◌∷◌ (to_string rid.page_id))
                    (split_part 44 slot rest (no_comma slot (to_string-IsPlain rid.slot_num))))))

-- A line of INSERT, DELETE or UPDATE up to its values.
read_start :
    (line op : Text) (tx : ℤ) (t : Text) (rid : RecordId) (more : List Text)
    → list_beq op (codes "COMMIT") ≡ false
    → list_beq op (codes "ABORT") ≡ false
    → fits64 tx ≡ true
    → FitsId rid
    → split line 44 ≡ op ∷ to_string tx ∷ t ∷ to_string rid.page_id ∷ to_string rid.slot_num ∷ more
    → read_line line
      ≡ read_values line
          (op ∷ to_string tx ∷ t ∷ to_string rid.page_id ∷ to_string rid.slot_num ∷ more)
          op
          tx
          t
          rid
unfolding read_line
read_start line op tx t rid more hc ha htx hid h =
    rw (h, read_line)
      (rw
        (
          number_in-to_string fits64 tx htx,
          hc,
          ha,
          number_in-to_string fits64 rid.page_id hid.0,
          number_in-to_string fits64 rid.slot_num hid.1,
        )
        refl)

read_insert :
    (tx : ℤ) (t : Text) (rid : RecordId) (new : List FieldValue)
    → IsLoggableCall (insert_call tx t rid new)
    → read_line (line_of (insert_call tx t rid new))
      ≡ ok (some (record_of (insert_call tx t rid new)))
unfolding line_of values_text read_values split
read_insert tx t rid [] h = absurd (h.3.0 refl)
read_insert tx t rid (v ∷ vs) h =
    let op = codes "INSERT" in
    let line = line_start op tx t rid ++ 44 ∷ (fv_to_string v ++ values_text vs) in
    let parts =
      split-line_start op tx t rid (fv_to_string v ++ values_text vs) (above_separators op refl)
        h.1.1 in
    read_start line op tx t rid (split_from 44 [] (fv_to_string v ++ values_text vs)) refl refl h.0
      h.2 parts
    ∙ rw (split-values v vs h.3.1, read_values) (rw (parse_fvs-map (v ∷ vs) h.3.1) refl)

read_delete :
    (tx : ℤ) (t : Text) (rid : RecordId) (old : List FieldValue)
    → IsLoggableCall (delete_call tx t rid old)
    → read_line (line_of (delete_call tx t rid old))
      ≡ ok (some (record_of (delete_call tx t rid old)))
unfolding line_of values_text read_values split
read_delete tx t rid [] h = absurd (h.3.0 refl)
read_delete tx t rid (v ∷ vs) h =
    let op = codes "DELETE" in
    let line = line_start op tx t rid ++ 44 ∷ (fv_to_string v ++ values_text vs) in
    let parts =
      split-line_start op tx t rid (fv_to_string v ++ values_text vs) (above_separators op refl)
        h.1.1 in
    read_start line op tx t rid (split_from 44 [] (fv_to_string v ++ values_text vs)) refl refl h.0
      h.2 parts
    ∙ rw (split-values v vs h.3.1, read_values) (rw (parse_fvs-map (v ∷ vs) h.3.1) refl)

abbrev no_semicolon : (s : Text) → All IsPlain s → All (λ c. c ≢ 59) s
no_semicolon = All_mono IsPlain (λ c. c ≢ 59) (λ c h. h.1)

-- The bytes of a line, up to a property that the separators of its parts have too.
module _ (P : ℕ → Type 0) (plain : (c : ℕ) → IsPlain c → P c) (comma : P 44) where
  pub line_start-All :
      (op : Text) (tx : ℤ) (t : Text) (rid : RecordId)
      → All IsPlain op
      → All IsPlain t
      → All P (line_start op tx t rid)
  unfolding line_start
  line_start-All op tx t rid ho ht =
      let word = All_mono IsPlain P plain in
      let slot = to_string rid.slot_num in
      let page = to_string rid.page_id ++ 44 ∷ slot in
      All-append P op (44 ∷ (to_string tx ++ 44 ∷ (t ++ 44 ∷ page))) (word op ho) (
        comma,
        All-append P (to_string tx) (44 ∷ (t ++ 44 ∷ page))
            (word (to_string tx) (to_string-IsPlain tx))
            (
              comma,
              All-append P t (44 ∷ page) (word t ht) (
                comma,
                All-append P (to_string rid.page_id) (44 ∷ slot)
                    (word (to_string rid.page_id) (to_string-IsPlain rid.page_id))
                    (comma, word slot (to_string-IsPlain rid.slot_num)),
              ),
            ),
      )

  pub values_text-All : (vs : List FieldValue) → All IsLoggable vs → All P (values_text vs)
  unfolding values_text
  values_text-All [] h = tt
  values_text-All (v ∷ vs) h = (
    comma,
    All-append P (fv_to_string v) (values_text vs)
        (All_mono IsPlain P plain (fv_to_string v) (fv_to_string-IsPlain v h.0))
        (values_text-All vs h.1),
  )

update_values :
    (line before behind : Text) (parts : List Text) (tx : ℤ) (t : Text) (rid : RecordId)
    (old new : List FieldValue)
    → old_new_parts line ≡ (before, behind)
    → parse_fvs (drop 5 (split before 44)) ≡ ok old
    → parse_fvs (drop 1 (split behind 44)) ≡ ok new
    → read_values line parts (codes "UPDATE") tx t rid
      ≡ ok (some (record_of (update_call tx t rid old new)))
unfolding read_values
update_values line before behind parts tx t rid old new h ho hn = rw (h, ho, hn, read_values) refl

old_new :
    (before behind : Text)
    → All (λ c. c ≢ 59) before
    → old_new_parts (before ++ 59 ∷ behind) ≡ (before, behind)
unfolding old_new_parts
old_new before behind h = rw (cut_at-append 59 before behind h, old_new_parts) refl

read_update :
    (tx : ℤ) (t : Text) (rid : RecordId) (old new : List FieldValue)
    → IsLoggableCall (update_call tx t rid old new)
    → read_line (line_of (update_call tx t rid old new))
      ≡ ok (some (record_of (update_call tx t rid old new)))
unfolding line_of values_text read_values split
read_update tx t rid [] new h = absurd (h.3.0 refl)
read_update tx t rid (v ∷ vs) [] h = absurd (h.4.0 refl)
read_update tx t rid (v ∷ vs) (w ∷ ws) h =
    let op = codes "UPDATE" in
    let start = line_start op tx t rid in
    let old = fv_to_string v ++ values_text vs in
    let new = fv_to_string w ++ values_text ws in
    let line = start ++ 44 ∷ (old ++ 59 ∷ 44 ∷ new) in
    let word = above_separators op refl in
    let plain_start =
      line_start-All (λ c. c ≢ 59) (λ c h. h.1) (omega arith) op tx t rid word h.1.1 in
    let plain_old = values_text-All (λ c. c ≢ 59) (λ c h. h.1) (omega arith) (v ∷ vs) h.3.1 in
    let cut_line : old_new_parts line ≡ (start ++ 44 ∷ old, 44 ∷ new) =
      ap old_new_parts (sym (append_assoc start (44 ∷ old) (59 ∷ 44 ∷ new)))
      ∙ old_new (start ++ 44 ∷ old) (44 ∷ new)
          (All-append (λ c. c ≢ 59) start (44 ∷ old) plain_start plain_old) in
    let read_old : parse_fvs (drop 5 (split (start ++ 44 ∷ old) 44)) ≡ ok (v ∷ vs) =
      ap (λ ps. parse_fvs (drop 5 ps)) (split-line_start op tx t rid old word h.1.1)
      ∙ (ap parse_fvs (split-values v vs h.3.1) ∙ parse_fvs-map (v ∷ vs) h.3.1) in
    let read_new : parse_fvs (drop 1 (split (44 ∷ new) 44)) ≡ ok (w ∷ ws) =
      ap (λ ps. parse_fvs (drop 1 ps)) (split_part 44 [] new tt)
      ∙ (ap parse_fvs (split-values w ws h.4.1) ∙ parse_fvs-map (w ∷ ws) h.4.1) in
    let more = split_from 44 [] (old ++ 59 ∷ 44 ∷ new) in
    read_start line op tx t rid more refl refl h.0 h.2
      (split-line_start op tx t rid (old ++ 59 ∷ 44 ∷ new) word h.1.1)
    ∙ update_values line (start ++ 44 ∷ old) (44 ∷ new)
        (op ∷ to_string tx ∷ t ∷ to_string rid.page_id ∷ to_string rid.slot_num ∷ more) tx t rid
        (v ∷ vs) (w ∷ ws) cut_line read_old read_new

-- A line of COMMIT or ABORT.
read_end :
    (word : Text) (tx : ℤ)
    → All IsPlain word
    → split (word ++ 44 ∷ to_string tx) 44 ≡ word ∷ to_string tx ∷ []
unfolding split
read_end word tx h =
    split_part 44 word (to_string tx) (no_comma word h)
    ∙ ap (◌∷◌ word) (
        split_last 44 (to_string tx) (to_string-ne tx)
          (no_comma (to_string tx) (to_string-IsPlain tx)))

read_commit :
    (tx : ℤ)
    → fits64 tx ≡ true
    → read_line (line_of (commit_call tx)) ≡ ok (some (end_record commit_op tx))
unfolding line_of read_line
read_commit tx h =
    rw (read_end (codes "COMMIT") tx (above_separators (codes "COMMIT") refl), read_line)
      (rw (number_in-to_string fits64 tx h) refl)

read_abort :
    (tx : ℤ)
    → fits64 tx ≡ true
    → read_line (line_of (abort_call tx)) ≡ ok (some (end_record abort_op tx))
unfolding line_of read_line
read_abort tx h =
    rw (read_end (codes "ABORT") tx (above_separators (codes "ABORT") refl), read_line)
      (rw (number_in-to_string fits64 tx h) refl)

pub read_line-line_of :
    (c : LogCall) → IsLoggableCall c → read_line (line_of c) ≡ ok (some (record_of c))
read_line-line_of (insert_call tx t rid new) h = read_insert tx t rid new h
read_line-line_of (delete_call tx t rid old) h = read_delete tx t rid old h
read_line-line_of (update_call tx t rid old new) h = read_update tx t rid old new h
read_line-line_of (commit_call tx) h = read_commit tx h
read_line-line_of (abort_call tx) h = read_abort tx h
