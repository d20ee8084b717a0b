-- ===== src/Heap/Bytes.antt =====
-- Reads and writes at offsets of a page.
use sql_engine.Base.{
  ℕ, zero, suc, ◌+◌, ◌-◌, ◌≤◌, ◌≡◌, refl, ap, ◌∙◌, List, [], ◌∷◌, ◌++◌, length, take, drop,
  length-append, length-take, length-drop, take-append_length, drop-append_length, ok, Bool-cases,
  inl, inr, leb, leb→le, arith,
}
use sql_engine.Record.{read_bytes, write_bytes}

take_front :
    {A : Type 0} (n o : ℕ) (b x : List A) → n ≤ o → o ≤ length b → take n (take o b ++ x) ≡ take n b
take_front zero o b x h l = refl
take_front (suc n) zero b x h l = absurd (omega arith)
take_front (suc n) (suc o) [] x h l = absurd (omega arith)
take_front (suc n) (suc o) (y ∷ b) x h l =
    ap (◌∷◌ y) (take_front n o b x (omega arith) (omega arith))

before_write :
    {A : Type 0} (p n o : ℕ) (b x : List A)
    → p + n ≤ o
    → o ≤ length b
    → take n (drop p (take o b ++ x)) ≡ take n (drop p b)
before_write zero n o b x h l = take_front n o b x (omega arith) l
before_write (suc p) n zero b x h l = absurd (omega arith)
before_write (suc p) n (suc o) [] x h l = absurd (omega arith)
before_write (suc p) n (suc o) (y ∷ b) x h l = before_write p n o b x (omega arith) (omega arith)

drop_nil : {A : Type 0} (i : ℕ) → [] ≡ drop {A = A} i []
drop_nil zero = refl
drop_nil (suc i) = refl

drop-drop : {A : Type 0} (i j : ℕ) (b : List A) → drop j (drop i b) ≡ drop (i + j) b
drop-drop zero j b = ap (λ k. drop k b) (omega arith)
drop-drop (suc i) zero [] = drop_nil (suc i + 0)
drop-drop (suc i) (suc j) [] = drop_nil (suc i + suc j)
drop-drop (suc i) j (y ∷ b) =
    let next : suc (i + j) ≡ suc i + j = omega arith in
    drop-drop i j b ∙ ap (λ k. drop k (y ∷ b)) next

-- What a write says of the page and of the page after.
written :
    (b b' bs : List ℕ) (o : ℕ)
    → write_bytes b o bs ≡ ok b'
    → (o + length bs ≤ length b) × (b' ≡ take o b ++ (bs ++ drop (o + length bs) b))
unfolding write_bytes
written b b' bs o h = elim (Bool-cases (leb (o + length bs) (length b))) [
  | inl e ↦ (leb→le (o + length bs) (length b) e, ground (arith, e, h))
  | inr e ↦ absurd (ground (arith, e, h))
]

pub length-written : (b b' bs : List ℕ) (o : ℕ) → write_bytes b o bs ≡ ok b' → length b' ≡ length b
length-written b b' bs o h =
    let (l, e) = written b b' bs o h in
    rw e (
      omega (
        arith,
        l,
        length-append (take o b) (bs ++ drop (o + length bs) b),
        length-append bs (drop (o + length bs) b),
        length-take o b,
        length-drop (o + length bs) b,
      ))

-- What was written is read.
pub read_written :
    (b b' bs : List ℕ) (o : ℕ) → write_bytes b o bs ≡ ok b' → read_bytes b' o (length bs) ≡ ok bs
unfolding read_bytes
read_written b b' bs o h =
    let (l, e) = written b b' bs o h in
    let rest = bs ++ drop (o + length bs) b in
    let fills : o ≡ length (take o b) + 0 = omega (arith, l, length-take o b) in
    let at_end : drop o b' ≡ rest =
      ap (drop o) e
      ∙ (ap (λ k. drop k (take o b ++ rest)) fills ∙ drop-append_length (take o b) rest 0) in
    ground (
      arith,
      l,
      length-written b b' bs o h,
      ap (take (length bs)) at_end,
      take-append_length bs (drop (o + length bs) b),
    )

-- What stands before the bytes that were written, and what stands behind them, is not changed.
pub read_before :
    (b b' bs : List ℕ) (o p n : ℕ)
    → write_bytes b o bs ≡ ok b'
    → p + n ≤ o
    → read_bytes b' p n ≡ read_bytes b p n
unfolding read_bytes
read_before b b' bs o p n h k =
    let (l, e) = written b b' bs o h in
    ground (
      arith,
      length-written b b' bs o h,
      ap (λ x. take n (drop p x)) e,
      before_write p n o b (bs ++ drop (o + length bs) b) k (omega (arith, l)),
    )

pub read_behind :
    (b b' bs : List ℕ) (o p n : ℕ)
    → write_bytes b o bs ≡ ok b'
    → o + length bs ≤ p
    → read_bytes b' p n ≡ read_bytes b p n
unfolding read_bytes
read_behind b b' bs o p n h k =
    let (l, e) = written b b' bs o h in
    let m = o + length bs in
    let j = p - m in
    let rest = bs ++ drop m b in
    let fills : p ≡ length (take o b) + (length bs + j) = omega (arith, l, k, length-take o b) in
    let at_end : drop p b' ≡ drop p b =
      ap (drop p) e
      ∙ (ap (λ i. drop i (take o b ++ rest)) fills
          ∙ (drop-append_length (take o b) rest (length bs + j)
              ∙ (drop-append_length bs (drop m b) j
                  ∙ (drop-drop m j b ∙ ap (λ i. drop i b) (omega (arith, k)))))) in
    ground (arith, length-written b b' bs o h, ap (take n) at_end)
