-- ===== src/Tree/Arrays.antt =====
-- What the loops of bPlusTree/BPlusTree.h leave at each index of an array.
use sql_engine.Base.{
  ℕ, zero, suc, ◌+◌, ◌-◌, ◌<◌, true, false, ◌&&◌, ◌≡◌, refl, sym, ap, ◌∙◌, some, List, [], ◌∷◌,
  length, get_elem?, set, take, ltb, leb, ℤ, if◌then◌else◌, ok, >>=-eq-ok, ok-injective,
  Option-cases, Bool-cases, inl, inr, ==_iff, ◌==◌, ltb→lt, arith,
}
use sql_engine.Base.Int.{ltb_ℤ}
use sql_engine.Tree.{read_array, write_array, lower_bound, shift}
use sql_engine.Tree.Nodes.{shift_down}

pub get_elem?-set {ℓ} :
    {A : Type ℓ} (xs : List A) (i j : ℕ) (a : A)
    → i < length xs
    → get_elem? (set xs i a) j ≡ (if i == j then some a else get_elem? xs j)
get_elem?-set [] i j a h = absurd (omega (arith, h))
get_elem?-set (x ∷ xs) zero zero a h = refl
get_elem?-set (x ∷ xs) zero (suc j) a h = ground arith
get_elem?-set (x ∷ xs) (suc i) zero a h = ground arith
get_elem?-set (x ∷ xs) (suc i) (suc j) a h =
    ground (arith, get_elem?-set xs i j a (omega (arith, h)), ==_iff i j, ==_iff (suc i) (suc j))

pub get_elem?-take {ℓ} :
    {A : Type ℓ} (n i : ℕ) (xs : List A) → i < n → get_elem? (take n xs) i ≡ get_elem? xs i
get_elem?-take zero i xs h = absurd (omega (arith, h))
get_elem?-take (suc n) i [] h = refl
get_elem?-take (suc n) zero (x ∷ xs) h = refl
get_elem?-take (suc n) (suc i) (x ∷ xs) h = get_elem?-take n i xs (omega (arith, h))

-- An access that is defined.
pub read_array-ok {ℓ} :
    {A : Type ℓ} (xs : List A) (i : ℕ) {a : A} → read_array xs i ≡ ok a → get_elem? xs i ≡ some a
read_array-ok xs i h = elim (Option-cases (get_elem? xs i)) [
  | inl e ↦ absurd (ground (arith, e, h))
  | inr (b, e) ↦ ground (arith, e, h)
]

pub write_array-ok {ℓ} :
    {A : Type ℓ} (xs ys : List A) (i : ℕ) (a : A)
    → write_array xs i a ≡ ok ys
    → (j : ℕ) → get_elem? ys j ≡ (if i == j then some a else get_elem? xs j)
unfolding write_array
write_array-ok xs ys i a h j = elim (Bool-cases (ltb i (length xs))) [
  | inl e ↦
      let same : set xs i a ≡ ys = ground (arith, e, h) in
      ap (λ zs. get_elem? zs j) (sym same) ∙ get_elem?-set xs i j a (ltb→lt i (length xs) e)
  | inr e ↦ absurd (ground (arith, e, h))
]

-- The keys before the lower bound are smaller, the one at it is not.
pub lower_bound_below :
    (key : ℤ) (ks : List ℤ) (i : ℕ) (a : ℤ)
    → i < lower_bound key ks
    → get_elem? ks i ≡ some a
    → ltb_ℤ a key ≡ true
unfolding lower_bound
lower_bound_below key [] i a h e = absurd (omega (arith, h))
lower_bound_below key (k ∷ ks) zero a h e = ground (arith, h, e)
lower_bound_below key (k ∷ ks) (suc i) a h e = lower_bound_below key ks i a (ground (arith, h)) e

pub lower_bound_at :
    (key : ℤ) (ks : List ℤ) (a : ℤ)
    → get_elem? ks (lower_bound key ks) ≡ some a
    → ltb_ℤ a key ≡ false
unfolding lower_bound
lower_bound_at key [] a e = absurd (ground (arith, e))
lower_bound_at key (k ∷ ks) a e = elim (Bool-cases (ltb_ℤ k key)) [
  | inl c ↦ lower_bound_at key ks a (sym (rw (c, lower_bound) refl) ∙ e)
  | inr c ↦ ground (arith, c, e)
]

-- The entries behind `at` have moved up by one.
abbrev pub Shifted : {A : Type 0} → ℕ → ℕ → List A → List A → Type 0
Shifted rounds at xs ys =
    (j : ℕ)
    → get_elem? ys j
      ≡ (if ltb at j && leb j (at + rounds) then get_elem? xs (j - 1) else get_elem? xs j)

Shifted-step :
    {A : Type 0} (rounds at : ℕ) (xs xs' ys : List A) (a : A)
    → read_array xs (at + rounds) ≡ ok a
    → write_array xs (at + suc rounds) a ≡ ok xs'
    → Shifted rounds at xs' ys
    → Shifted (suc rounds) at xs ys
Shifted-step rounds at xs xs' ys a hr hw s j =
    let r = read_array-ok xs (at + rounds) hr in
    elim (Bool-cases (at + suc rounds == j)) [
      | inl e ↦
          let top : j ≡ at + suc rounds = ground (arith, e) in
          let before : j - 1 ≡ at + rounds = omega (arith, top) in
          ground (
            arith,
            s j,
            write_array-ok xs xs' (at + suc rounds) a hw j,
            e,
            r,
            ap (get_elem? xs) before,
          )
      | inr e ↦ ground (
        arith,
        s j,
        write_array-ok xs xs' (at + suc rounds) a hw j,
        write_array-ok xs xs' (at + suc rounds) a hw (j - 1),
        e,
      )
    ]

pub shift-Shifted :
    {V : Type 0} (rounds at : ℕ) (keys ks : List ℤ) (values vs : List V)
    → shift rounds at keys values ≡ ok (ks, vs)
    → Shifted rounds at keys ks × Shifted rounds at values vs
unfolding shift
shift-Shifted zero at keys ks values vs h =
    let same = ok-injective h in
    (
      λ j. ground (arith, ap (λ p. get_elem? p.0 j) same),
      λ j. ground (arith, ap (λ p. get_elem? p.1 j) same),
    )
shift-Shifted (suc rounds) at keys ks values vs h =
    let (k, hk, h1) = >>=-eq-ok (read_array keys (at + rounds)) _ h in
    let (keys', wk, h2) = >>=-eq-ok (write_array keys (at + suc rounds) k) _ h1 in
    let (v, hv, h3) = >>=-eq-ok (read_array values (at + rounds)) _ h2 in
    let (values', wv, h4) = >>=-eq-ok (write_array values (at + suc rounds) v) _ h3 in
    let (a, b) = shift-Shifted rounds at keys' ks values' vs h4 in
    (
      Shifted-step rounds at keys keys' ks k hk wk a,
      Shifted-step rounds at values values' vs v hv wv b,
    )

-- The entries from `at` on have moved down by one.
abbrev pub Lowered : {A : Type 0} → ℕ → ℕ → List A → List A → Type 0
Lowered rounds at xs ys =
    (j : ℕ)
    → get_elem? ys j
      ≡ (if leb at j && ltb j (at + rounds) then get_elem? xs (j + 1) else get_elem? xs j)

Lowered-step :
    {A : Type 0} (rounds at : ℕ) (xs xs' ys : List A) (a : A)
    → read_array xs (at + 1) ≡ ok a
    → write_array xs at a ≡ ok xs'
    → Lowered rounds (at + 1) xs' ys
    → Lowered (suc rounds) at xs ys
Lowered-step rounds at xs xs' ys a hr hw s j =
    let r = read_array-ok xs (at + 1) hr in
    elim (Bool-cases (at == j)) [
      | inl e ↦
          let top : j + 1 ≡ at + 1 = ground (arith, e) in
          ground (arith, s j, write_array-ok xs xs' at a hw j, e, r, ap (get_elem? xs) top)
      | inr e ↦
          ground
            (arith, s j, write_array-ok xs xs' at a hw j, write_array-ok xs xs' at a hw (j + 1), e)
    ]

pub shift_down-Lowered :
    {V : Type 0} (rounds at : ℕ) (keys ks : List ℤ) (values vs : List V)
    → shift_down rounds at keys values ≡ ok (ks, vs)
    → Lowered rounds at keys ks × Lowered rounds at values vs
unfolding shift_down
shift_down-Lowered zero at keys ks values vs h =
    let same = ok-injective h in
    (
      λ j. ground (arith, ap (λ p. get_elem? p.0 j) same),
      λ j. ground (arith, ap (λ p. get_elem? p.1 j) same),
    )
shift_down-Lowered (suc rounds) at keys ks values vs h =
    let (k, hk, h1) = >>=-eq-ok (read_array keys (at + 1)) _ h in
    let (keys', wk, h2) = >>=-eq-ok (write_array keys at k) _ h1 in
    let (v, hv, h3) = >>=-eq-ok (read_array values (at + 1)) _ h2 in
    let (values', wv, h4) = >>=-eq-ok (write_array values at v) _ h3 in
    let (a, b) = shift_down-Lowered rounds (at + 1) keys' ks values' vs h4 in
    (
      Lowered-step rounds at keys keys' ks k hk wk a,
      Lowered-step rounds at values values' vs v hv wv b,
    )
