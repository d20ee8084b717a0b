-- ===== src/Stats/Sets.antt =====
-- The sets of texts of StatsManager/StatsManager.cpp.
use sql_engine.Base.{
  ℕ, ◌≡◌, ◌⊎◌, ◌↔◌, sym, ◌∙◌, none, some, List, [], ◌∷◌, get_elem?, Text, Bool-cases, inl, inr,
  arith,
}
use sql_engine.Base.Equality.{list_beq, list_beq_iff, text_eq}
use sql_engine.Record.{FieldValue}
use sql_engine.Tree.Ranges.{IsIn}
use sql_engine.Stats.{fv_to_string, insert_text}

-- No text twice.
abbrev pub IsDistinct : List Text → Type 0
IsDistinct [] = Unit
IsDistinct (t ∷ ts) = (¬ IsIn t ts) × IsDistinct ts

pub insert_text-IsIn :
    (t s : Text) (ss : List Text) → IsIn s (insert_text t ss) ↔ ((s ≡ t) ⊎ IsIn s ss)
unfolding insert_text
insert_text-IsIn t s [] = (λ h. h, λ h. h)
insert_text-IsIn t s (x ∷ xs) = elim (Bool-cases (list_beq x t)) [
  | inl e ↦
      rw e (λ h. inr h, λ h. elim h [ inl p ↦ inl (p ∙ sym ((list_beq_iff x t).0 e)) | inr m ↦ m ])
  | inr e ↦
      let later = insert_text-IsIn t s xs in
      rw e (
        λ h. elim h [
          | inl p ↦ inr (inl p)
          | inr m ↦ elim (later.0 m) [ inl p ↦ inl p | inr q ↦ inr (inr q) ]
        ],
        λ h. elim h [
          | inl p ↦ inr (later.1 (inl p))
          | inr m ↦ elim m [ inl p ↦ inl p | inr q ↦ inr (later.1 (inr q)) ]
        ],
      )
]

pub insert_text-IsDistinct :
    (t : Text) (ss : List Text) → IsDistinct ss → IsDistinct (insert_text t ss)
unfolding insert_text
insert_text-IsDistinct t [] h = (λ m. m, tt)
insert_text-IsDistinct t (x ∷ xs) h = elim (Bool-cases (list_beq x t)) [
  | inl e ↦ rw e h
  | inr e ↦ rw e (
    λ m. elim ((insert_text-IsIn t x xs).0 m) [
      | inl p ↦ absurd (ground (arith, e, (list_beq_iff x t).1 p))
      | inr q ↦ h.0 q
    ],
    insert_text-IsDistinct t xs h.1,
  )
]

-- The texts of a column, and the set that they make.
abbrev pub cell : ℕ → List FieldValue → Text
cell i row = elim (get_elem? row i) as (λ x. Text) [ none ↦ [] | some v ↦ fv_to_string v ]

abbrev pub text_set : List Text → List Text → List Text
text_set [] set = set
text_set (t ∷ ts) set = text_set ts (insert_text t set)

pub text_set-IsIn :
    (ts set : List Text) (s : Text) → IsIn s (text_set ts set) ↔ (IsIn s ts ⊎ IsIn s set)
text_set-IsIn [] set s = (λ h. inr h, λ h. elim h [ inl m ↦ absurd m | inr m ↦ m ])
text_set-IsIn (t ∷ ts) set s =
    let later = text_set-IsIn ts (insert_text t set) s in
    let here = insert_text-IsIn t s set in
    (
      λ h. elim (later.0 h) [
        | inl m ↦ inl (inr m)
        | inr m ↦ elim (here.0 m) [ inl p ↦ inl (inl p) | inr q ↦ inr q ]
      ],
      λ h. elim h [
        | inl m ↦ elim m [ inl p ↦ later.1 (inr (here.1 (inl p))) | inr q ↦ later.1 (inl q) ]
        | inr m ↦ later.1 (inr (here.1 (inr m)))
      ],
    )

pub text_set-IsDistinct : (ts set : List Text) → IsDistinct set → IsDistinct (text_set ts set)
text_set-IsDistinct [] set h = h
text_set-IsDistinct (t ∷ ts) set h =
    text_set-IsDistinct ts (insert_text t set) (insert_text-IsDistinct t set h)
