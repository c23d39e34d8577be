-- ===== src/ClockBits/Encode.antt =====
-- The tables of lib/raw/calculate-clock-bits.c against the reading of the bytes: what is encoded is what is
-- decoded.
use synccom_linux.Prelude.{
  ℕ, zero, suc, ◌+◌, ◌-◌, ◌*◌, ◌/◌, ◌%◌, ◌^◌, ◌≤◌, ◌<◌, ◌≡◌, refl, Bool-cases, ==_iff, ap, ◌∙◌, inl,
  inr, Bool, true, ◌&&◌, ◌||◌, some, List, [], ◌∷◌, map, arith, if◌then◌else◌, ltb, leb, ◌==◌,
  bit_and, bit_or, get_or, set,
}
use synccom_linux.Prelude.Bits.{bit_and-ones, bit_or-above, bit_or-below, zero-bit_or}
use mathlib.Core.Path.{ap₂}
use synccom_linux.ClockBits.Tables.{
  Edit, put, mask, mark, edit, edits, initial_progdata, complement_shifted, input_divider,
  vco_divider,
}
use synccom_linux.ClockBits.Decode.{decode_input, decode_vco}

-- A test that holds below n holds of each number below n.
abbrev pub all_below : ℕ → (ℕ → Bool) → Bool
all_below zero test = true
all_below (suc n) test = test n && all_below n test

pub and_true : (a b : Bool) → (a && b) ≡ true → (a ≡ true) × (b ≡ true)
and_true a b h = ground arith

pub all_below_lem : (n k : ℕ) (test : ℕ → Bool) → all_below n test ≡ true → k < n → test k ≡ true
all_below_lem zero k test h lt = absurd (omega arith)
all_below_lem (suc n) k test h lt =
    let (last, before) = and_true (test n) (all_below n test) h in
    elim (Bool-cases (k == n)) [
      | inl same ↦ ap test ((==_iff k n).0 same) ∙ last
      | inr other ↦ all_below_lem n k test before (ground arith)
    ]

-- The bytes behind the first three and the first two, before the tables.
abbrev pub tail_progdata : List ℕ
tail_progdata =
    0 ∷ 0 ∷ 0 ∷ 0 ∷ 0 ∷ 0 ∷ 0 ∷ 0 ∷ 0 ∷ 0 ∷ 0x40 ∷ 0x01 ∷ 0x04 ∷ 0 ∷ 0xff ∷ 0xff ∷ 0xff ∷ []

abbrev rest_progdata : List ℕ
rest_progdata = 0 ∷ tail_progdata

-- The first two bytes with an input divider.
abbrev pub input_byte_0 : ℕ → ℕ
input_byte_0 x =
    if x == 1
    then 0
    else if x == 2
    then 1
    else if leb x 17
    then (17 - x) * 4 + 2
    else (x - 8) % 64 * 4 + 3

abbrev pub input_byte_1 : ℕ → ℕ
input_byte_1 x = if leb x 17 then 0 else (x - 8) / 64

pub decode-input_bytes :
    (x : ℕ)
    → 0 < x
    → x ≤ 2055
    → (input_byte_1 x < 32) × (decode_input (input_byte_0 x) (input_byte_1 x) ≡ x)
unfolding decode_input
decode-input_bytes x h k = ground arith

-- The byte of a complement, looked through.
abbrev complement_byte : ℕ → ℕ
complement_byte x = bit_or (bit_and (bit_and (complement_shifted x 2) 0xff) 0x3e) 0x02

complement_byte_lem : (x : ℕ) → 3 ≤ x → x ≤ 17 → complement_byte x ≡ (17 - x) * 4 + 2
complement_byte_lem x h k =
    let all =
      all_below_lem 18 x (λ x. ltb x 3 || (complement_byte x == (17 - x) * 4 + 2)) refl
        (omega arith) in
    ground arith

long_bytes :
    (x : ℕ)
    → 18 ≤ x
    → x ≤ 2055
    → (bit_or (bit_and ((x - 8) * 2 ^ 2) 0xff) 0x03 ≡ (x - 8) % 64 * 4 + 3)
      × (bit_and ((x - 8) * 2 ^ 2 / 2 ^ 8) 0xff ≡ (x - 8) / 64)
long_bytes x h k = (
  ap (λ b. bit_or b 0x03) {x = bit_and ((x - 8) * 2 ^ 2) 0xff} {y = (x - 8) % 64 * 2 ^ 2}
        (omega (arith, bit_and-ones 8 ((x - 8) * 2 ^ 2)))
      ∙ bit_or-below 2 ((x - 8) % 64) 3 (omega arith),
  omega (arith, bit_and-ones 8 ((x - 8) * 2 ^ 2 / 2 ^ 8)),
)

pub input_divider_lem :
    (x : ℕ)
    → 0 < x
    → x ≤ 2055
    → (es : List Edit) × (input_divider x ≡ some es)
      × (edits es initial_progdata ≡ input_byte_0 x ∷ input_byte_1 x ∷ rest_progdata)
unfolding input_divider
input_divider_lem x h k = elim (Bool-cases (leb x 2)) [
  | inl small ↦ elim (Bool-cases (x == 1)) [
    | inl one ↦ (mask 0 0xfc ∷ mask 1 0xf0 ∷ [], ground arith, ground arith)
    | inr two ↦ (mask 0 0xfc ∷ mark 0 0x01 ∷ mask 1 0xf0 ∷ [], ground arith, ground arith)
  ]
  | inr large ↦ elim (Bool-cases (leb x 17)) [
    | inl short ↦ (
      put 0 (bit_and (complement_shifted x 2) 0xff) ∷ mask 0 0x3e ∷ mark 0 0x02 ∷ [],
      ground arith,
      ground (arith, complement_byte_lem x),
    )
    | inr long ↦ (
      put 0 (bit_and ((x - 8) * 2 ^ 2) 0xff)
          ∷ put 1 (bit_and ((x - 8) * 2 ^ 2 / 2 ^ 8) 0xff)
          ∷ mark 0 0x03
          ∷ [],
      ground arith,
      ground (arith, long_bytes x),
    )
  ]
]

-- The second and third bytes with a VCO divider.
pub vco_divider_lem :
    (x b0 b1 : ℕ)
    → 12 ≤ x
    → x ≤ 2055
    → b1 < 32
    → (es : List Edit) × (vco_divider x ≡ some es)
      × (edits es (b0 ∷ b1 ∷ rest_progdata)
          ≡ b0 ∷ (b1 + (x - 8) % 8 * 32) ∷ ((x - 8) / 8) ∷ tail_progdata)
unfolding vco_divider
vco_divider_lem x b0 b1 h k small = (
  mark 1 (bit_and ((x - 8) * 2 ^ 5) 0xff) ∷ mark 2 (bit_and ((x - 8) * 2 ^ 5 / 2 ^ 8) 0xff) ∷ [],
  ground arith,
  ap₂ (λ (c1 c2 : ℕ). b0 ∷ c1 ∷ c2 ∷ tail_progdata)
      (ap (bit_or b1) {x = bit_and ((x - 8) * 2 ^ 5) 0xff} {y = (x - 8) % 8 * 2 ^ 5}
          (omega (arith, bit_and-ones 8 ((x - 8) * 2 ^ 5)))
        ∙ bit_or-above 5 b1 ((x - 8) % 8) small
        ∙ omega arith)
      (zero-bit_or (bit_and ((x - 8) * 2 ^ 5 / 2 ^ 8) 0xff)
        ∙ omega (arith, bit_and-ones 8 ((x - 8) * 2 ^ 5 / 2 ^ 8))),
)

pub decode-vco_bytes :
    (x b0 b1 : ℕ)
    → 12 ≤ x
    → b1 < 32
    → (decode_vco (b1 + (x - 8) % 8 * 32) ((x - 8) / 8) ≡ x)
      × (decode_input b0 (b1 + (x - 8) % 8 * 32) ≡ decode_input b0 b1)
unfolding decode_vco decode_input
decode-vco_bytes x b0 b1 h small = ground arith

-- An assignment behind the first bytes leaves these, and is one to the rest.
abbrev behind : ℕ → Edit → Bool
behind n (put i m) = leb n i
behind n (mask i m) = leb n i
behind n (mark i m) = leb n i

abbrev pub all_behind : ℕ → List Edit → Bool
all_behind n [] = true
all_behind n (e ∷ es) = behind n e && all_behind n es

abbrev pub moved : ℕ → Edit → Edit
moved n (put i m) = put (i - n) m
moved n (mask i m) = mask (i - n) m
moved n (mark i m) = mark (i - n) m

set-behind :
    (b0 b1 b2 : ℕ) (xs : List ℕ) (i v : ℕ)
    → 3 ≤ i
    → set (b0 ∷ b1 ∷ b2 ∷ xs) i v ≡ b0 ∷ b1 ∷ b2 ∷ set xs (i - 3) v
set-behind b0 b1 b2 xs i v h =
    ap (λ j. set (b0 ∷ b1 ∷ b2 ∷ xs) j v) {x = i} {y = suc (suc (suc (i - 3)))} (omega arith)

get_or-behind :
    (b0 b1 b2 : ℕ) (xs : List ℕ) (i : ℕ)
    → 3 ≤ i
    → get_or (b0 ∷ b1 ∷ b2 ∷ xs) i 0 ≡ get_or xs (i - 3) 0
get_or-behind b0 b1 b2 xs i h =
    ap (λ j. get_or (b0 ∷ b1 ∷ b2 ∷ xs) j 0) {x = i} {y = suc (suc (suc (i - 3)))} (omega arith)

edit-behind :
    (b0 b1 b2 : ℕ) (xs : List ℕ) (e : Edit)
    → behind 3 e ≡ true
    → edit e (b0 ∷ b1 ∷ b2 ∷ xs) ≡ b0 ∷ b1 ∷ b2 ∷ edit (moved 3 e) xs
edit-behind b0 b1 b2 xs (put i m) h = set-behind b0 b1 b2 xs i m (ground arith)
edit-behind b0 b1 b2 xs (mask i m) h =
    ap (λ v. set (b0 ∷ b1 ∷ b2 ∷ xs) i (bit_and v m)) (get_or-behind b0 b1 b2 xs i (ground arith))
    ∙ set-behind b0 b1 b2 xs i _ (ground arith)
edit-behind b0 b1 b2 xs (mark i m) h =
    ap (λ v. set (b0 ∷ b1 ∷ b2 ∷ xs) i (bit_or v m)) (get_or-behind b0 b1 b2 xs i (ground arith))
    ∙ set-behind b0 b1 b2 xs i _ (ground arith)

pub edits-behind :
    (b0 b1 b2 : ℕ) (xs : List ℕ) (es : List Edit)
    → all_behind 3 es ≡ true
    → edits es (b0 ∷ b1 ∷ b2 ∷ xs) ≡ b0 ∷ b1 ∷ b2 ∷ edits (map (moved 3) es) xs
edits-behind b0 b1 b2 xs [] h = refl
edits-behind b0 b1 b2 xs (e ∷ es) h =
    let (first, others) = and_true (behind 3 e) (all_behind 3 es) h in
    ap (edits es) (edit-behind b0 b1 b2 xs e first)
    ∙ edits-behind b0 b1 b2 (edit (moved 3 e) xs) es others
