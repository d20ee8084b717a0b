-- ===== src/Catalog/Words.antt =====
-- What `load` of catalog/Catalog.cpp reads from the parts of a line that `save` writes.
use sql_engine.Base.{
  ℕ, zero, suc, ◌+◌, ◌/◌, ◌%◌, ◌<◌, true, false, ◌≡◌, ◌≢◌, refl, ap, ◌∙◌, List, [], ◌∷◌, ◌++◌,
  length, Text, All, pos, ltb, lt→ltb, else_case, ok, Bool-cases, inl, inr, arith,
}
use sql_engine.Base.Texts.{decimal, decimal_digits}
use sql_engine.Base.Numbers.{is_space, read_unsigned-decimal, to_string, to_string-ne}
use sql_engine.Catalog.Saved.{
  skip_spaces, span_word, extract_word, all_digits, size_in, extract_size, spaced, read_words,
}

-- A name without blanks, which is not empty.
abbrev pub IsName : Text → Type 0
IsName s = (s ≢ []) × All (λ c. is_space c ≡ false) s

-- A word ends there.
abbrev pub IsEnd : Text → Type 0
IsEnd [] = Unit
IsEnd (c ∷ cs) = is_space c ≡ true

span_word-append :
    (w rest : Text)
    → All (λ c. is_space c ≡ false) w
    → IsEnd rest
    → span_word (w ++ rest) ≡ (w, rest)
unfolding span_word
span_word-append [] [] h e = refl
span_word-append [] (c ∷ cs) h e = rw e refl
span_word-append (c ∷ cs) rest h e =
    rw (h.0, span_word) (ap (λ p. (c ∷ p.0, p.1)) (span_word-append cs rest h.1 e))

pub extract_word-name :
    (w rest : Text) → IsName w → IsEnd rest → extract_word (w ++ rest) ≡ (w, rest)
unfolding extract_word skip_spaces
extract_word-name [] rest h e = absurd (h.0 refl)
extract_word-name (c ∷ cs) rest h e =
    ap span_word (else_case _ _ h.1.0) ∙ span_word-append (c ∷ cs) rest h.1 e

pub extract_word-spaced :
    (w rest : Text) → IsName w → IsEnd rest → extract_word (32 ∷ (w ++ rest)) ≡ (w, rest)
unfolding extract_word skip_spaces
extract_word-spaced w rest h e = extract_word-name w rest h e

-- The text of a number.
all_digits-decimal_digits :
    (f n : ℕ) (acc : Text) → all_digits acc ≡ true → all_digits (decimal_digits f n acc) ≡ true
unfolding decimal_digits all_digits
all_digits-decimal_digits zero n acc h = h
all_digits-decimal_digits (suc f) n acc h = elim (Bool-cases (ltb n 10)) [
  | inl e ↦ ground (arith, e, h)
  | inr e ↦ rw e (all_digits-decimal_digits f (n / 10) ((48 + n % 10) ∷ acc) (ground (arith, h)))
]

pub all_digits-decimal : (n : ℕ) → all_digits (decimal n) ≡ true
unfolding decimal all_digits
all_digits-decimal n = all_digits-decimal_digits (suc n) n [] refl

no_spaces : (s : Text) → all_digits s ≡ true → All (λ c. is_space c ≡ false) s
unfolding all_digits
no_spaces [] h = tt
no_spaces (c ∷ cs) h = (ground (arith, h), no_spaces cs (ground (arith, h)))

decimal-ne : (n : ℕ) → decimal n ≢ []
unfolding to_string
decimal-ne n = to_string-ne (pos n)

pub decimal-IsName : (n : ℕ) → IsName (decimal n)
decimal-IsName n = (decimal-ne n, no_spaces (decimal n) (all_digits-decimal n))

size_in-decimal : (n : ℕ) → n < 18446744073709551616 → size_in (decimal n) ≡ ok n
unfolding size_in
size_in-decimal n h =
    rw (read_unsigned-decimal n, all_digits-decimal n, size_in, lt→ltb n 18446744073709551616 h)
      refl

pub extract_size-decimal :
    (n : ℕ) (rest : Text)
    → n < 18446744073709551616
    → IsEnd rest
    → extract_size (32 ∷ (decimal n ++ rest)) ≡ ok (n, rest)
unfolding extract_size
extract_size-decimal n rest h e =
    rw (extract_word-spaced (decimal n) rest (decimal-IsName n) e, size_in-decimal n h) refl

pub spaced-IsEnd : (ws : List Text) → IsEnd (spaced ws)
unfolding spaced
spaced-IsEnd [] = tt
spaced-IsEnd (w ∷ ws) = refl

pub read_words-spaced : (ws : List Text) → All IsName ws → read_words (length ws) (spaced ws) ≡ ws
unfolding read_words spaced
read_words-spaced [] h = refl
read_words-spaced (w ∷ ws) h =
    rw (extract_word-spaced w (spaced ws) h.0 (spaced-IsEnd ws), read_words)
      (ap (◌∷◌ w) (read_words-spaced ws h.1))
