-- ===== src/Buffer/Clock.antt =====
-- selectVictimFrame of bufferManager/BufferManager.cpp: the hand goes once round the frames.
use sql_engine.Base.{
  ℕ, suc, zero, ◌+◌, ◌-◌, ◌%◌, ◌<◌, ◌≤◌, true, false, ◌≡◌, ◌≢◌, ◌↔◌, refl, sym, ap, ◌∙◌, none, some,
  some-injective, List, length, get_elem?, get_elem?_in, get_elem?_bound, if◌then◌else◌, Bool-cases,
  Option-cases, inl, inr, ltb, ltb→lt, ==_iff, ◌==◌, arith,
}
use native.Mathlib.Nat.{mod-eq_of_lt, mod_self}
use sql_engine.Buffer.{Frame, BufferManager, is_free, clock, select_victim}

clock_free :
    (frames : List Frame) (rounds hand i : ℕ) (f : Frame)
    → clock frames rounds hand ≡ some (i, f)
    → (get_elem? frames i ≡ some f) × (is_free f ≡ true)
unfolding clock
clock_free frames zero hand i f h = cc
clock_free frames (suc rounds) hand i f h =
    elim (Option-cases (get_elem? frames ((hand + 1) % length frames))) [
      | inl e ↦ absurd (ground (arith, e, h))
      | inr (g, e) ↦ elim (Bool-cases (is_free g)) [
        | inr b ↦
            clock_free frames rounds ((hand + 1) % length frames) i f
              (sym (rw (e, b, clock) refl) ∙ h)
        | inl b ↦
            let same =
              some-injective (((hand + 1) % length frames), g) (i, f)
                (sym (rw (e, b, clock) refl) ∙ h) in
            (
              ap (get_elem? frames) (sym (ap (λ x. x.0) same)) ∙ (e ∙ ap (λ x. some x.1) same),
              ap (λ x. is_free x.1) (sym same) ∙ b,
            )
      ]
    ]

-- The frame that is taken is one of the pool, and free.
pub victim_free :
    (b : BufferManager) (i : ℕ) (f : Frame)
    → select_victim b ≡ some (i, f)
    → (get_elem? b.frames i ≡ some f) × (is_free f ≡ true)
unfolding select_victim
victim_free b i f h = clock_free b.frames (length b.frames) b.clock_hand i f h

-- The rounds that the hand needs to come to the frame.
abbrev rounds_to : ℕ → ℕ → ℕ → ℕ
rounds_to n hand i = if ltb hand i then i - hand else i + n - hand

next_hand : (n hand : ℕ) → hand < n → ((hand + 1) % n) ≡ (if ltb (hand + 1) n then hand + 1 else 0)
next_hand n hand h = elim (Bool-cases (ltb (hand + 1) n)) [
  | inl e ↦ rw e (mod-eq_of_lt (ltb→lt (hand + 1) n e))
  | inr e ↦ let whole : hand + 1 ≡ n = ground arith in rw e (ap (λ k. k % n) whole ∙ mod_self n)
]

-- A round brings the hand one frame nearer to every frame but the one that it comes to.
nearer :
    (n hand i next rounds : ℕ)
    → hand < n
    → i < n
    → next ≡ (if ltb (hand + 1) n then hand + 1 else 0)
    → rounds_to n hand i ≤ suc rounds
    → next ≢ i
    → (next < n) × (rounds_to n next i ≤ rounds)
nearer n hand i next rounds h l e r d = ground arith

clock_finds :
    (frames : List Frame) (rounds hand i : ℕ) (f : Frame)
    → hand < length frames
    → i < length frames
    → get_elem? frames i ≡ some f
    → is_free f ≡ true
    → rounds_to (length frames) hand i ≤ rounds
    → clock frames rounds hand ≢ none
unfolding clock
clock_finds frames zero hand i f h l g u r miss = absurd (ground arith)
clock_finds frames (suc rounds) hand i f h l g u r miss =
    let n = length frames in
    let next = (hand + 1) % n in
    elim (Bool-cases (next == i)) [
      | inl c ↦ absurd (ground (arith, miss, ap (get_elem? frames) ((==_iff next i).0 c), g, u))
      | inr c ↦
          let (h', r') =
            nearer n hand i next rounds h l (next_hand n hand h) r
              (λ s. ground (arith, (==_iff next i).1 s, c)) in
          let later = clock_finds frames rounds next i f h' l g u r' in
          let (k, e) = get_elem?_in frames next h' in absurd (ground (arith, miss, e, later))
    ]

-- Each frame holds a page that is pinned.
abbrev pub IsFull : List Frame → Type 0
IsFull frames = (i : ℕ) (f : Frame) → get_elem? frames i ≡ some f → is_free f ≡ false

unfree : (frames : List Frame) (rounds hand : ℕ) → IsFull frames → clock frames rounds hand ≡ none
unfree frames rounds hand h = elim (Option-cases (clock frames rounds hand)) [
  | inl e ↦ e
  | inr ((i, f), e) ↦
      let (g, u) = clock_free frames rounds hand i f e in absurd (ground (arith, h i f g, u))
]

-- No victim is found exactly when each frame holds a page that is pinned: one round of the hand misses
-- no frame. The hand is at a frame of the pool.
pub select_victim_fails_iff :
    (b : BufferManager)
    → b.clock_hand < length b.frames
    → (select_victim b ≡ none) ↔ IsFull b.frames
unfolding select_victim
select_victim_fails_iff b h = (
  λ miss i f g. elim (Bool-cases (is_free f)) [
    | inr e ↦ e
    | inl e ↦
        let l = get_elem?_bound b.frames i g in
        absurd (clock_finds b.frames (length b.frames) b.clock_hand i f h l g e (ground arith) miss)
  ],
  unfree b.frames (length b.frames) b.clock_hand,
)
