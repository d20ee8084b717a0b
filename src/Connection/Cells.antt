-- ===== src/Connection/Cells.antt =====
-- The lines of a result of connectionManager/ConnectionManager.cpp and their cells.
use sql_engine.Base.{
  ℕ, suc, false, ◌==◌, ◌≡◌, ◌≢◌, refl, ap, ap₂, ◌∙◌, List, [], ◌∷◌, map, Text, ℤ, pos, negsuc, All,
  All-append, All_mono, Bool-cases, inl, inr, arith,
}
use sql_engine.Base.Numbers.{to_string, is_space}
use sql_engine.Base.Texts.{decimal}
use sql_engine.Catalog.Words.{decimal-IsName}
use sql_engine.Record.{FieldValue, int, str}
use sql_engine.Wal.Read.{split}
use sql_engine.Wal.Tokens.{split_part, split_last}
use sql_engine.Connection.{escape, fv_to_string, row_line, result_text}

abbrev IsCellByte : ℕ → Type 0
IsCellByte c = (c ≢ 9) × (c ≢ 10)

escape-IsCellByte : (s : Text) → All IsCellByte (escape s)
unfolding escape
escape-IsCellByte [] = tt
escape-IsCellByte (c ∷ cs) =
    let rest = escape-IsCellByte cs in
    elim (Bool-cases (c == 9)) [
      | inl e ↦ rw e ((omega arith, omega arith), ((omega arith, omega arith), rest))
      | inr e ↦ elim (Bool-cases (c == 10)) [
        | inl f ↦ rw (e, f) ((omega arith, omega arith), ((omega arith, omega arith), rest))
        | inr f ↦ rw (e, f) ((ground (arith, e), ground (arith, f)), rest)
      ]
    ]

decimal-IsCellByte : (n : ℕ) → All IsCellByte (decimal n)
decimal-IsCellByte n =
    All_mono (λ c. is_space c ≡ false) IsCellByte
      (λ c h. (λ e. absurd (ground (arith, h, e)), λ e. absurd (ground (arith, h, e)))) (decimal n)
      (decimal-IsName n).1

to_string-IsCellByte : (z : ℤ) → All IsCellByte (to_string z)
unfolding to_string
to_string-IsCellByte (pos n) = decimal-IsCellByte n
to_string-IsCellByte (negsuc n) = ((omega arith, omega arith), decimal-IsCellByte (suc n))

cell-IsCellByte : (v : FieldValue) → All IsCellByte (fv_to_string v)
unfolding fv_to_string
cell-IsCellByte (int z) = to_string-IsCellByte z
cell-IsCellByte (str s) = escape-IsCellByte s

row_line-no_newline : (row : List FieldValue) → All (λ c. c ≢ 10) (row_line row)
unfolding row_line
row_line-no_newline [] = tt
row_line-no_newline (v ∷ []) =
    All_mono IsCellByte (λ c. c ≢ 10) (λ c h. h.1) (fv_to_string v) (cell-IsCellByte v)
row_line-no_newline (v ∷ w ∷ vs) =
    All-append (λ c. c ≢ 10) (fv_to_string v) (9 ∷ row_line (w ∷ vs))
      (All_mono IsCellByte (λ c. c ≢ 10) (λ c h. h.1) (fv_to_string v) (cell-IsCellByte v))
      (omega arith, row_line-no_newline (w ∷ vs))

no_tab : (v : FieldValue) → All (λ c. c ≢ 9) (fv_to_string v)
no_tab v = All_mono IsCellByte (λ c. c ≢ 9) (λ c h. h.0) (fv_to_string v) (cell-IsCellByte v)

-- A row with a value, none of which is written as the empty text.
abbrev pub IsShown : List FieldValue → Type 0
IsShown row = (row ≢ []) × All (λ v. fv_to_string v ≢ []) row

split-row_line :
    (row : List FieldValue) → IsShown row → split (row_line row) 9 ≡ map fv_to_string row
unfolding row_line split
split-row_line [] h = absurd (h.0 refl)
split-row_line (v ∷ []) h = split_last 9 (fv_to_string v) h.1.0 (no_tab v)
split-row_line (v ∷ w ∷ vs) h =
    split_part 9 (fv_to_string v) (row_line (w ∷ vs)) (no_tab v)
    ∙ ap (◌∷◌ (fv_to_string v)) (split-row_line (w ∷ vs) ((λ e. cc), h.1.1))

-- A client that takes the text of a result apart at the newlines, and each line at the tabs, has the
-- rows and their cells, whatever bytes the strings have: none of them makes a line or a cell of its
-- own. Each row has a value, and none that is the empty string.
pub split-result_text :
    (rows : List (List FieldValue))
    → All IsShown rows
    → map (λ line. split line 9) (split (result_text rows) 10) ≡ map (map fv_to_string) rows
unfolding result_text split
split-result_text [] h = refl
split-result_text (row ∷ rows) h =
    ap (map (λ line. split line 9))
      (split_part 10 (row_line row) (result_text rows) (row_line-no_newline row))
    ∙ ap₂ (λ x xs. x ∷ xs) (split-row_line row h.0) (split-result_text rows h.1)
