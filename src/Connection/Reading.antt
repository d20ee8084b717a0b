-- ===== src/Connection/Reading.antt =====
-- The statements of a client of connectionManager/ConnectionManager.cpp, however they are cut into reads.
use sql_engine.Base.{
  ℕ, suc, ◌≡◌, ◌≢◌, refl, sym, ap, ◌∙◌, none, List, [], ◌∷◌, ◌++◌, append_assoc, append-nil, length,
  map, Text, All, All-append, Result, Error, ok, arith,
}
use sql_engine.Record.{FieldValue}
use sql_engine.Session.{trim}
use sql_engine.Wal.Read.{cut_at}
use sql_engine.Wal.Tokens.{cut_at-append}
use sql_engine.Connection.{read_loop, read_statement, reply_text, handle_client}

-- A statement as it comes: reads without a semicolon, then one with it.
pub record Sent : Type 0 where
  pub before : List Text
  pub last : Text
  pub behind : Text

abbrev pub reads_of : Sent → List Text
reads_of q = q.before ++ (q.last ++ 59 ∷ q.behind) ∷ []

abbrev pub joined : List Text → Text
joined [] = []
joined (t ∷ ts) = t ++ joined ts

-- What it says.
abbrev pub text_of : Sent → Text
text_of q = joined q.before ++ q.last

abbrev pub all_reads : List Sent → List Text
all_reads [] = []
all_reads (q ∷ qs) = reads_of q ++ all_reads qs

-- No semicolon before the last, no read that returned nothing, and a statement that is not blank.
abbrev pub HasNoSemicolon : Text → Type 0
HasNoSemicolon = All (λ c. c ≢ 59)

abbrev pub IsStatement : Sent → Type 0
IsStatement q =
    All (λ t. (t ≢ []) × HasNoSemicolon t) q.before
    × HasNoSemicolon q.last
    × (trim (text_of q) ≢ [])

cut_at-none : (s : Text) → HasNoSemicolon s → cut_at 59 s ≡ none
unfolding cut_at
cut_at-none [] h = refl
cut_at-none (c ∷ cs) h = ground (arith, h.0, cut_at-none cs h.1)

read_loop-last :
    (stmt last behind : Text) (reads : List Text)
    → HasNoSemicolon stmt
    → HasNoSemicolon last
    → read_loop stmt ((last ++ 59 ∷ behind) ∷ reads) ≡ (trim (stmt ++ last), reads)
unfolding read_loop
read_loop-last stmt [] behind reads h g =
    rw (cut_at-append 59 stmt behind h, read_loop)
      (ap (λ s. (trim s, reads)) (sym (append-nil stmt)))
read_loop-last stmt (c ∷ cs) behind reads h g =
    rw
      (
        sym (append_assoc stmt (c ∷ cs) (59 ∷ behind)),
        cut_at-append 59 (stmt ++ c ∷ cs) behind (All-append (λ x. x ≢ 59) stmt (c ∷ cs) h g),
        read_loop,
      )
      refl

read_loop-before :
    (before : List Text) (stmt last behind : Text) (reads : List Text)
    → All (λ t. (t ≢ []) × HasNoSemicolon t) before
    → HasNoSemicolon stmt
    → HasNoSemicolon last
    → read_loop stmt (before ++ (last ++ 59 ∷ behind) ∷ reads)
      ≡ (trim (stmt ++ (joined before ++ last)), reads)
unfolding read_loop
read_loop-before [] stmt last behind reads b h g = read_loop-last stmt last behind reads h g
read_loop-before ([] ∷ ts) stmt last behind reads b h g = absurd (b.0.0 refl)
read_loop-before ((c ∷ cs) ∷ ts) stmt last behind reads b h g =
    let more = All-append (λ x. x ≢ 59) stmt (c ∷ cs) h b.0.1 in
    rw (cut_at-none (stmt ++ c ∷ cs) more, read_loop)
      (read_loop-before ts (stmt ++ c ∷ cs) last behind reads b.1 more g
        ∙ ap (λ s. (trim s, reads))
            (append_assoc stmt (c ∷ cs) (joined ts ++ last)
              ∙ ap (◌++◌ stmt) (sym (append_assoc (c ∷ cs) (joined ts) last))))

module _ {S : Type 0} (execute : S → Text → S × Result (List (List FieldValue)))
    (what : Error → Text) where
  -- The statements executed one after the other.
  abbrev pub answers : S → List Text → S × List Text
  answers s [] = (s, [])
  answers s (sql ∷ rest) =
      let (s1, r) = execute s sql in
      let (s2, replies) = answers s1 rest in (s2, reply_text execute what r ∷ replies)

  -- A statement is executed and answered, then the rest.
  handle_statement :
      (fuel : ℕ) (s : S) (sql : Text) (rest reads : List Text) (later : List Text)
      → sql ≢ []
      → read_statement reads ≡ (sql, rest)
      → ((s1 : S) → handle_client execute what fuel s1 rest ≡ ok (answers s1 later))
      → handle_client execute what (suc fuel) s reads ≡ ok (answers s (sql ∷ later))
  unfolding handle_client
  handle_statement fuel s [] rest reads later full h next = absurd (full refl)
  handle_statement fuel s (c ∷ cs) rest reads later full h next =
      rw (h, handle_client) (rw (h, next (execute s (c ∷ cs)).0) refl)

  -- However the texts of a client are cut into reads, each of its statements, without the blanks around
  -- it, is executed in its turn and answered, whether it throws or not, until the connection ends. What
  -- a read has behind a semicolon is lost: it is nothing to the result. The statements are not blank.
  pub handle_client-answers :
      (s : S) (qs : List Sent)
      → All IsStatement qs
      → handle_client execute what (suc (length qs)) s (all_reads qs)
        ≡ ok (answers s (map (λ q. trim (text_of q)) qs))
  unfolding handle_client read_statement read_loop
  handle_client-answers s [] h = refl
  handle_client-answers s (q ∷ qs) h =
      let (before, last, full) = h.0 in
      let reads : read_statement (reads_of q ++ all_reads qs) ≡ (trim (text_of q), all_reads qs) =
        ap (read_loop []) (append_assoc q.before ((q.last ++ 59 ∷ q.behind) ∷ []) (all_reads qs))
        ∙ read_loop-before q.before [] q.last q.behind (all_reads qs) before tt last in
      handle_statement (suc (length qs)) s (trim (text_of q)) (all_reads qs)
        (reads_of q ++ all_reads qs) (map (λ x. trim (text_of x)) qs) full reads
        (λ s1. handle_client-answers s1 qs h.1)
