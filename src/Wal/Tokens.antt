-- ===== src/Wal/Tokens.antt =====
-- How the parts of a line of the log come apart again (split, find and parseFV of
-- _WALManager/WALManager.cpp).
use sql_engine.Base.{
  ℕ, zero, suc, ◌+◌, ◌/◌, ◌%◌, ◌<◌, true, ◌≡◌, ◌≢◌, refl, sym, ap, ◌∙◌, some, List, [], ◌∷◌, ◌++◌,
  map, append_assoc, append-nil, Text, ℤ, pos, negsuc, All, arith, ok, ltb, ltb→lt, Bool-cases, inl,
  inr,
}
use sql_engine.Base.Int.{fits32}
use sql_engine.Base.Texts.{decimal, decimal_digits}
use sql_engine.Base.Numbers.{to_string, number_in, number_in-to_string, read_signed}
use sql_engine.Record.{FieldValue, int, str}
use sql_engine.Wal.{fv_to_string}
use sql_engine.Wal.Read.{split_from, cut_at, parse_fv, parse_fvs}

-- A byte that separates nothing.
abbrev pub IsPlain : ℕ → Type 0
IsPlain c = (c ≢ 44) × (c ≢ 59) × (c ≢ 10)

-- A text of such bytes, which is not empty.
abbrev pub IsWord : Text → Type 0
IsWord s = (s ≢ []) × All IsPlain s

-- A value whose text is such a word: an `int32_t`, or a string of plain bytes that is not empty.
abbrev pub IsLoggable : FieldValue → Type 0
IsLoggable (int z) = fits32 z ≡ true
IsLoggable (str s) = IsWord s

digit-IsPlain : (n : ℕ) → n < 10 → IsPlain (48 + n)
digit-IsPlain n h = (omega arith, omega arith, omega arith)

decimal_digits-IsPlain :
    (f n : ℕ) (acc : Text) → All IsPlain acc → All IsPlain (decimal_digits f n acc)
unfolding decimal_digits
decimal_digits-IsPlain zero n acc h = h
decimal_digits-IsPlain (suc f) n acc h = elim (Bool-cases (ltb n 10)) [
  | inl e ↦ rw e (digit-IsPlain n (ltb→lt n 10 e), h)
  | inr e ↦ rw e (
      decimal_digits-IsPlain f (n / 10) ((48 + n % 10) ∷ acc)
        (digit-IsPlain (n % 10) (omega arith), h))
]

pub to_string-IsPlain : (z : ℤ) → All IsPlain (to_string z)
unfolding to_string decimal
to_string-IsPlain (pos n) = decimal_digits-IsPlain (suc n) n [] tt
to_string-IsPlain (negsuc n) =
    ((omega arith, omega arith, omega arith), decimal_digits-IsPlain (suc (suc n)) (suc n) [] tt)

pub split_from-append :
    (d : ℕ) (tok s rest : Text)
    → All (λ c. c ≢ d) s
    → split_from d tok (s ++ rest) ≡ split_from d (tok ++ s) rest
unfolding split_from
split_from-append d tok [] rest h = ap (λ t. split_from d t rest) (sym (append-nil tok))
split_from-append d tok (c ∷ cs) rest h =
    ground (arith, split_from-append d (tok ++ c ∷ []) cs rest h.1, append_assoc tok (c ∷ []) cs)

-- A part that ends with the separator.
pub split_part :
    (d : ℕ) (s rest : Text)
    → All (λ c. c ≢ d) s
    → split_from d [] (s ++ d ∷ rest) ≡ s ∷ split_from d [] rest
unfolding split_from
split_part d s rest h = split_from-append d [] s (d ∷ rest) h ∙ ground arith

-- A last part.
pub split_last : (d : ℕ) (s : Text) → s ≢ [] → All (λ c. c ≢ d) s → split_from d [] s ≡ s ∷ []
unfolding split_from
split_last d [] n h = absurd (n refl)
split_last d (c ∷ cs) n h =
    ap (split_from d []) (sym (append-nil (c ∷ cs))) ∙ split_from-append d [] (c ∷ cs) [] h

pub cut_at-append :
    (d : ℕ) (s rest : Text) → All (λ c. c ≢ d) s → cut_at d (s ++ d ∷ rest) ≡ some (s, rest)
unfolding cut_at
cut_at-append d [] rest h = ground arith
cut_at-append d (c ∷ cs) rest h = ground (arith, cut_at-append d cs rest h.1)

no_number : (z : ℤ) → number_in fits32 [] ≢ ok z
unfolding number_in read_signed
no_number z h = ground arith

parse_int : (s : Text) (z : ℤ) → number_in fits32 s ≡ ok z → parse_fv (73 ∷ 58 ∷ s) ≡ ok (int z)
unfolding parse_fv
parse_int [] z h = absurd (no_number z h)
parse_int (c ∷ cs) z h = rw h refl

pub parse_fv-fv_to_string : (v : FieldValue) → IsLoggable v → parse_fv (fv_to_string v) ≡ ok v
unfolding parse_fv fv_to_string
parse_fv-fv_to_string (int z) h = parse_int (to_string z) z (number_in-to_string fits32 z h)
parse_fv-fv_to_string (str []) h = absurd (h.0 refl)
parse_fv-fv_to_string (str (c ∷ cs)) h = refl

pub parse_fvs-map :
    (vs : List FieldValue) → All IsLoggable vs → parse_fvs (map fv_to_string vs) ≡ ok vs
unfolding parse_fvs
parse_fvs-map [] h = refl
parse_fvs-map (v ∷ vs) h =
    rw (parse_fv-fv_to_string v h.0, parse_fvs) (rw (parse_fvs-map vs h.1) refl)
