-- ===== src/Record/Bytes.antt =====
-- The bytes of the values of record/Record.cpp.
use sql_engine.Base.{
  ℕ, zero, suc, ◌+◌, ◌-◌, ◌*◌, ◌/◌, ◌%◌, ◌≡◌, refl, true, List, [], ◌∷◌, ◌++◌, ℤ, pos, negsuc, Text,
  arith, ltb, ◌==◌, if◌then◌else◌, replicate,
}
use sql_engine.Base.Int.{fits32}

-- The bit pattern of an `int32_t`, and the number that a pattern stands for.
unfoldable pub to_word : ℤ → ℕ
to_word (pos n) = n
to_word (negsuc n) = 4294967295 - n

unfoldable pub of_word : ℕ → ℤ
of_word w = if ltb w 2147483648 then pos w else negsuc (4294967295 - w)

-- memcpy of an `int32_t`.
unfoldable pub int_bytes : ℤ → List ℕ
unfolding to_word
int_bytes z =
    let w = to_word z in (w % 256) ∷ (w / 256 % 256) ∷ (w / 65536 % 256) ∷ (w / 16777216 % 256) ∷ []

unfoldable pub word_of : List ℕ → ℕ
word_of [] = 0
word_of (b ∷ bs) = b + 256 * word_of bs

-- `s.find('\0')` and `s.resize(pos)`.
unfoldable pub cut : Text → Text
cut [] = []
cut (b ∷ bs) = if b == 0 then [] else b ∷ cut bs

pub word_of_bytes : (z : ℤ) → fits32 z ≡ true → word_of (int_bytes z) ≡ to_word z
unfolding word_of int_bytes
word_of_bytes (pos n) h = ground arith
word_of_bytes (negsuc n) h = ground arith

pub word_round : (z : ℤ) → fits32 z ≡ true → of_word (to_word z) ≡ z
unfolding of_word to_word
word_round (pos n) h = ground arith
word_round (negsuc n) h = ground arith

pub cut-padded : (s : Text) (n : ℕ) → cut (s ++ replicate n 0) ≡ cut s
unfolding cut
cut-padded [] zero = refl
cut-padded [] (suc n) = ground arith
cut-padded (b ∷ s) n = ground (arith, cut-padded s n)
