-- ===== src/Debug/Counts.antt =====
-- The counters of src/debug.c: what is counted is what is read.
use synccom_linux.Prelude.{
  ℕ, zero, suc, ◌+◌, ◌*◌, ◌/◌, ◌%◌, ◌^◌, ◌≤◌, ◌<◌, ◌≡◌, refl, sym, ap, ◌∙◌, inl, inr, Bool-cases,
  ==_iff, some, [], ◌∷◌, arith, ◌==◌, get_or, length,
}
use synccom_linux.Prelude.Bits.{bit_and-ones, digit}
use native.Mathlib.Nat.{pow-suc, one-le-pow}
use synccom_linux.Debug.{Tracker, increment_from, increment_all, index_from, count_at, get_count}

-- The index of the highest bit.
index_from_lem :
    (k fuel b i : ℕ) → k < fuel → b < 2 ^ k → 2 ^ k ≤ 2 * b + 1 → index_from fuel b i ≡ some (i + k)
unfolding index_from
index_from_lem k zero b i h lt le = absurd (omega arith)
index_from_lem zero (suc fuel) b i h lt le = ground arith
index_from_lem (suc k) (suc fuel) b i h lt le =
    let pos = one-le-pow k 2 (omega arith) in
    let double = pow-suc 2 k in
    ground (arith, index_from_lem k fuel (b / 2) (suc i) (omega arith) (omega arith) (omega arith))

digit_zero : (k : ℕ) → digit 0 k ≡ 0
digit_zero zero = refl
digit_zero (suc k) = digit_zero k

-- A counter, one higher in 32 bits if a bit is set.
abbrev pub counted : ℕ → ℕ → ℕ
counted count zero = count
counted count (suc b) = (count + 1) % 2 ^ 32

increment_from_lem :
    (tracker : Tracker) (isr_value k : ℕ)
    → k < length tracker
    → get_or (increment_from tracker isr_value) k 0
      ≡ counted (get_or tracker k 0) (digit isr_value k)
unfolding increment_from
increment_from_lem [] isr_value k h = absurd (omega arith)
increment_from_lem (count ∷ counts) isr_value zero h = elim (Bool-cases (isr_value % 2 == 0)) [
  | inl clear ↦
      ground (arith, bit_and-ones 1 isr_value)
      ∙ sym (ap (counted count) {x = isr_value % 2} {y = 0} (ground arith))
  | inr raised ↦
      ground (arith, bit_and-ones 1 isr_value)
      ∙ sym (ap (counted count) {x = isr_value % 2} {y = 1} (ground arith))
]
increment_from_lem (count ∷ counts) isr_value (suc k) h =
    increment_from_lem counts (isr_value / 2) k (omega arith)

-- The counter of the highest bit.
get_count_lem :
    (tracker : Tracker) (isr_bit k : ℕ)
    → k < 32
    → 2 ^ k ≤ isr_bit
    → isr_bit < 2 ^ suc k
    → get_count (some tracker) isr_bit ≡ some (get_or tracker k 0)
unfolding get_count
get_count_lem tracker isr_bit k lt low high =
    let pos = one-le-pow k 2 (omega arith) in
    let double = pow-suc 2 k in
    let index = index_from_lem k 33 (isr_bit / 2) 0 (omega arith) (omega arith) (omega arith) in
    let raised : get_count (some tracker) isr_bit
        ≡ count_at tracker (index_from 33 (isr_bit / 2) 0) =
      ground arith in
    raised
    ∙ ap (count_at tracker) index
    ∙ ap (λ i. some (get_or tracker i 0)) {x = 0 + k} {y = k} (omega arith)

-- For a tracker of 32 counters, and a word whose highest bit is bit k: what `get_count` returns for it
-- behind `increment_all` is the count before, and one more in 32 bits if bit k of the interrupts is set.
pub get_count-increment_all :
    (tracker : Tracker) (isr_value isr_bit k : ℕ)
    → length tracker ≡ 32
    → k < 32
    → 2 ^ k ≤ isr_bit
    → isr_bit < 2 ^ suc k
    → get_count (increment_all (some tracker) isr_value) isr_bit
      ≡ some (counted (get_or tracker k 0) (digit isr_value k))
unfolding increment_all
get_count-increment_all tracker isr_value isr_bit k n lt low high =
    elim (Bool-cases (isr_value == 0)) [
      | inl nothing ↦
          (let zero_value = (==_iff isr_value 0).0 nothing in
            let kept : increment_all (some tracker) isr_value ≡ some tracker = ground arith in
            ap (λ t. get_count t isr_bit) kept
            ∙ get_count_lem tracker isr_bit k lt low high
            ∙ sym (
                ap (λ b. some (counted (get_or tracker k 0) b))
                  (ap (λ v. digit v k) zero_value ∙ digit_zero k)))
      | inr something ↦
          (let bumped = increment_from_lem tracker isr_value k (omega arith) in
            let moved : increment_all (some tracker) isr_value
                ≡ some (increment_from tracker isr_value) =
              ground arith in
            ap (λ t. get_count t isr_bit) moved
            ∙ get_count_lem (increment_from tracker isr_value) isr_bit k lt low high
            ∙ ap some bumped)
    ]
