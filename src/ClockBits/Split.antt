-- ===== src/ClockBits/Split.antt =====
-- The output dividers from 38 on, in table 5 of lib/raw/calculate-clock-bits.c: the loop finds a way to
-- write each divider that the search tries.
use synccom_linux.Prelude.{
  ℕ, zero, suc, ◌+◌, ◌-◌, ◌*◌, ◌/◌, ◌%◌, ◌≤◌, ◌<◌, ◌≡◌, ◌≢◌, Bool-cases, Option-cases, ap, ◌∙◌, inl,
  inr, Bool, true, ◌&&◌, ◌||◌, Option, none, some, arith, leb, ◌==◌, ==_iff,
}
use synccom_linux.ClockBits.Tables.{
  Split, split_1, split_2, split_3, split_4, split_5, split_6, split_7, split_8, split_at,
  first_split,
}

-- The output dividers that the search tries.
abbrev pub is_out_divider : ℕ → Bool
is_out_divider x =
    leb 2 x
    && (leb x 1030
        || (x % 2 == 0 && leb x 2060)
        || (x % 4 == 0 && leb x 4120)
        || (x % 8 == 0 && leb x 8232))

-- The divider of a branch.
abbrev pub value : ℕ → Split → ℕ
value i split_1 = (i + 3) * 2
value i split_2 = (i + 3) * 2 * 2
value i split_3 = (i + 3) * 2 * 4
value i split_4 = (i + 3) * 2 * 8
value i split_5 = (i + 3) * 2 + 1
value i split_6 = ((i + 3) * 2 + 1) * 2
value i split_7 = ((i + 3) * 2 + 1) * 4
value i split_8 = ((i + 3) * 2 + 1) * 8

split_at-value : (x i : ℕ) (s : Split) → split_at x i ≡ some s → value i s ≡ x
unfolding split_at
split_at-value x i s h = ground arith

split_at-none : (x i : ℕ) (s : Split) → split_at x i ≡ none → value i s ≢ x
unfolding split_at
split_at-none x i s h = ground arith

abbrev pub IsSplit : ℕ → ℕ → Option (ℕ × Split) → Type 0
IsSplit x n o = (i : ℕ) × (s : Split) × (o ≡ some (i, s)) × (i < n) × (value i s ≡ x)

pub first_split_lem :
    (n i x j : ℕ) (s : Split)
    → i ≤ j
    → j < i + n
    → value j s ≡ x
    → IsSplit x (i + n) (first_split n i x)
unfolding first_split
first_split_lem zero i x j s h k e = absurd (omega arith)
first_split_lem (suc n) i x j s h k e = elim (Option-cases (split_at x i)) [
  | inr (s', here) ↦ (i, s', ground arith, omega arith, split_at-value x i s' here)
  | inl not_here ↦ elim (Bool-cases (i == j)) [
    | inl same ↦
        absurd (split_at-none x i s not_here (ap (λ t. value t s) ((==_iff i j).0 same) ∙ e))
    | inr other ↦
        (let (i', s', later, less, same) =
            first_split_lem n (suc i) x j s (ground arith) (omega arith) e in
          (i', s', ground arith, omega arith, same))
  ]
]

-- A way to write a divider.
abbrev pub HasSplit : ℕ → Type 0
HasSplit x = (j : ℕ) × (s : Split) × (j < 512) × (value j s ≡ x)

-- A number from 6 to 1029 is a half, and 0 or 1.
HasSplit-times :
    (x q : ℕ) (even odd : Split)
    → 6 ≤ q
    → q ≤ 1029
    → ((j : ℕ) → j * 2 + 6 ≡ q → value j even ≡ x)
    → ((j : ℕ) → j * 2 + 7 ≡ q → value j odd ≡ x)
    → HasSplit x
HasSplit-times x q even odd h k e o = elim (Bool-cases (q % 2 == 0)) [
  | inl two ↦ (q / 2 - 3, even, ground arith, e (q / 2 - 3) (ground arith))
  | inr not_two ↦ (q / 2 - 3, odd, ground arith, o (q / 2 - 3) (ground arith))
]

pub has_split : (x : ℕ) → 38 ≤ x → is_out_divider x ≡ true → HasSplit x
has_split x h k = elim (Bool-cases (leb x 1029)) [
  | inl a ↦
      HasSplit-times x x split_1 split_5 (omega arith) (ground arith) (λ j e. omega arith)
        (λ j e. omega arith)
  | inr a ↦ elim (Bool-cases (leb x 2058 && (x % 2 == 0))) [
    | inl b ↦
        (let two : (x ≤ 2058) × (x % 2 ≡ 0) = ground arith in
          HasSplit-times x (x / 2) split_2 split_6 (ground arith) (omega arith) (λ j e. omega arith)
            (λ j e. omega arith))
    | inr b ↦ elim (Bool-cases (leb x 4116 && (x % 4 == 0))) [
      | inl c ↦
          (let four : (x ≤ 4116) × (x % 4 ≡ 0) = ground arith in
            HasSplit-times x (x / 4) split_3 split_7 (ground arith) (omega arith)
              (λ j e. omega arith) (λ j e. omega arith))
      | inr c ↦
          (let eight : (x ≤ 8232) × (x % 8 ≡ 0) × (4116 < x) = ground arith in
            HasSplit-times x (x / 8) split_4 split_8 (omega arith) (omega arith)
              (λ j e. omega arith) (λ j e. omega arith))
    ]
  ]
]
