-- ===== src/Base/Numbers.antt =====
-- std::to_string and the readers std::stoi and std::stoll of decimal numbers.
use Prim.Native.Nat.{ℕ, zero, suc, ◌+◌, ◌-◌, ◌*◌, ◌/◌, ◌%◌, ◌<◌}
use mathlib.Core.Path.{◌≡◌, refl, ◌∙◌, ap}
use mathlib.Core.Logic.{◌≢◌}
use mathlib.Core.Bool.{Bool, true, ◌||◌, ◌&&◌}
use mathlib.Core.Option.{Option, none, some}
use mathlib.Core.List.{[], ◌∷◌}
use native.Mathlib.Omega.{arith}
use sql_engine.Base.Tests.{ltb, leb, ◌==◌, if◌then◌else◌}
use sql_engine.Base.Int.{ℤ, pos, negsuc, sub_ℕ}
use sql_engine.Base.Texts.{Text, decimal, decimal_digits}
use sql_engine.Base.Results.{Result, ok, err, bad_number}

abbrev pub is_digit : ℕ → Bool
is_digit c = leb 48 c && leb c 57

abbrev pub is_space : ℕ → Bool
is_space c = (c == 32) || (leb 9 c && leb c 13)

-- std::to_string
unfoldable pub to_string : ℤ → Text
unfolding decimal
to_string (pos n) = decimal n
to_string (negsuc n) = 45 ∷ decimal (suc n)

-- The digits at the front of the text, after the value `v` of those before them.
unfoldable pub read_digits : ℕ → Text → ℕ
read_digits v [] = v
read_digits v (c ∷ cs) =
    let more = read_digits (v * 10 + (c - 48)) cs in if is_digit c then more else v

-- At least one digit; what follows the digits is not looked at.
unfoldable pub read_unsigned : Text → Option ℕ
unfolding read_digits
read_unsigned [] = none
read_unsigned (c ∷ cs) = if is_digit c then some (read_digits 0 (c ∷ cs)) else none

-- Spaces, a sign, digits. The sign is that of the first byte behind the spaces.
unfoldable pub read_signed : Text → Option ℤ
unfolding read_unsigned
read_signed [] = none
read_signed (c ∷ cs) =
    let skipped = read_signed cs in
    if is_space c
    then skipped
    else if c == 45
    then elim (read_unsigned cs) [ none ↦ none | some n ↦ some (sub_ℕ 0 n) ]
    else if c == 43
    then elim (read_unsigned cs) [ none ↦ none | some n ↦ some (pos n) ]
    else elim (read_unsigned (c ∷ cs)) [ none ↦ none | some n ↦ some (pos n) ]

-- std::invalid_argument and std::out_of_range are one error here.
unfoldable pub number_in : (ℤ → Bool) → Text → Result ℤ
unfolding read_signed
number_in fits s = elim (read_signed s) [
  | none ↦ err bad_number
  | some z ↦ if fits z then ok z else err bad_number
]

-- The values of an `int64_t`.
abbrev pub fits64 : ℤ → Bool
fits64 (pos n) = ltb n 9223372036854775808
fits64 (negsuc n) = ltb n 9223372036854775808

read_digits-decimal :
    (f n : ℕ) (acc : Text) → n < f → read_digits 0 (decimal_digits f n acc) ≡ read_digits n acc
unfolding decimal_digits read_digits
read_digits-decimal zero n acc h = absurd (omega arith)
read_digits-decimal (suc f) n acc h =
    ground (arith, read_digits-decimal f (n / 10) ((48 + n % 10) ∷ acc))

-- The text of a number begins with a digit.
StartsWithDigit : Text → Type 0
StartsWithDigit [] = ⊥
StartsWithDigit (c ∷ cs) = is_digit c ≡ true

decimal_digits-StartsWithDigit :
    (f n : ℕ) (acc : Text) → n < f → StartsWithDigit (decimal_digits f n acc)
unfolding decimal_digits StartsWithDigit
decimal_digits-StartsWithDigit zero n acc h = absurd (omega arith)
decimal_digits-StartsWithDigit (suc f) n acc h =
    ground (arith, decimal_digits-StartsWithDigit f (n / 10) ((48 + n % 10) ∷ acc))

read_unsigned-start : (s : Text) → StartsWithDigit s → read_unsigned s ≡ some (read_digits 0 s)
unfolding read_unsigned StartsWithDigit
read_unsigned-start [] h = absurd h
read_unsigned-start (c ∷ cs) h = rw h refl

pub read_unsigned-decimal : (n : ℕ) → read_unsigned (decimal n) ≡ some n
unfolding decimal read_digits
read_unsigned-decimal n =
    read_unsigned-start (decimal_digits (suc n) n [])
      (decimal_digits-StartsWithDigit (suc n) n [] (omega arith))
    ∙ ap some (read_digits-decimal (suc n) n [] (omega arith))

read_signed-start : (s : Text) → StartsWithDigit s → read_signed s ≡ some (pos (read_digits 0 s))
unfolding read_signed read_unsigned StartsWithDigit
read_signed-start [] h = absurd h
read_signed-start (c ∷ cs) h = ground arith

decimal-StartsWithDigit : (n : ℕ) → StartsWithDigit (decimal n)
unfolding decimal
decimal-StartsWithDigit n = decimal_digits-StartsWithDigit (suc n) n [] (omega arith)

read_digits-whole : (n : ℕ) → read_digits 0 (decimal n) ≡ n
unfolding decimal read_digits
read_digits-whole n = read_digits-decimal (suc n) n [] (omega arith)

read_signed-minus :
    (s : Text) (n : ℕ) → read_unsigned s ≡ some (suc n) → read_signed (45 ∷ s) ≡ some (negsuc n)
unfolding read_signed
read_signed-minus s n h = rw h (ap some (ground arith))

-- A number that is printed is read back.
pub read_signed-to_string : (z : ℤ) → read_signed (to_string z) ≡ some z
unfolding to_string
read_signed-to_string (pos n) =
    read_signed-start (decimal n) (decimal-StartsWithDigit n)
    ∙ ap (λ k. some (pos k)) (read_digits-whole n)
read_signed-to_string (negsuc n) =
    read_signed-minus (decimal (suc n)) n (read_unsigned-decimal (suc n))

pub number_in-to_string :
    (fits : ℤ → Bool) (z : ℤ) → fits z ≡ true → number_in fits (to_string z) ≡ ok z
unfolding number_in
number_in-to_string fits z h = rw (read_signed-to_string z, h, number_in) refl

pub to_string-ne : (z : ℤ) → to_string z ≢ []
unfolding read_signed
to_string-ne z h = go (ap read_signed h)
  where
    go : read_signed (to_string z) ≢ none
    go e = cc (read_signed-to_string z)
