-- ===== src/ClockBits/Filter.antt =====
-- The tables 3 to 5 of lib/raw/calculate-clock-bits.c, on the bytes behind the first three, against the
-- reading of these.
use synccom_linux.Prelude.{
  ℕ, zero, suc, ◌%◌, ◌≤◌, ◌≡◌, refl, Bool-cases, ==_iff, ap, ◌∙◌, inl, inr, Bool, true, false, ◌&&◌,
  ◌||◌, Option, none, some, List, [], ◌∷◌, map, arith, ltb, ◌==◌, get_or, set,
}
use synccom_linux.ClockBits.Tables.{
  Edit, put, mask, mark, edit, edits, loop_filter_resistor, charge_pump_current, output_divider,
}
use synccom_linux.ClockBits.Search.{resistors, currents}
use synccom_linux.ClockBits.Decode.{
  decode_resistor, decode_current, field_resistor, field_current, decode_output,
}
use synccom_linux.ClockBits.Encode.{all_below, and_true, tail_progdata, all_behind, moved}

abbrev pub is_listed : ℕ → List ℕ → Bool
is_listed x [] = false
is_listed x (y ∷ ys) = x == y || is_listed x ys

abbrev pub all_listed : (ℕ → Bool) → List ℕ → Bool
all_listed test [] = true
all_listed test (x ∷ xs) = test x && all_listed test xs

pub all_listed_lem :
    (test : ℕ → Bool) (xs : List ℕ) (x : ℕ)
    → all_listed test xs ≡ true
    → is_listed x xs ≡ true
    → test x ≡ true
all_listed_lem test [] x h k = ground arith
all_listed_lem test (y ∷ ys) x h k =
    let (first, others) = and_true (test y) (all_listed test ys) h in
    elim (Bool-cases (x == y)) [
      | inl same ↦ ap test ((==_iff x y).0 same) ∙ first
      | inr other ↦ all_listed_lem test ys x others (ground arith)
    ]

abbrev pub same_list : List ℕ → List ℕ → Bool
same_list [] [] = true
same_list [] (y ∷ ys) = false
same_list (x ∷ xs) [] = false
same_list (x ∷ xs) (y ∷ ys) = x == y && same_list xs ys

pub same_list_lem : (xs ys : List ℕ) → same_list xs ys ≡ true → xs ≡ ys
same_list_lem [] [] h = refl
same_list_lem [] (y ∷ ys) h = ground arith
same_list_lem (x ∷ xs) [] h = ground arith
same_list_lem (x ∷ xs) (y ∷ ys) h = ground (arith, same_list_lem xs ys)

-- The bytes from the fourth on, with those of the loop filter and the output divider given.
abbrev pub filter_bytes : ℕ → ℕ → ℕ → ℕ → ℕ → List ℕ
filter_bytes b11 b12 b13 b15 b16 =
    0 ∷ 0 ∷ 0 ∷ 0 ∷ 0 ∷ 0 ∷ 0 ∷ 0 ∷ b11 ∷ b12 ∷ b13 ∷ 0x01 ∷ b15 ∷ b16 ∷ 0xff ∷ 0xff ∷ 0xff ∷ []

abbrev pub reads_filter : ℕ → ℕ → ℕ → ℕ → ℕ → Bool
reads_filter rs icpnum b11 b15 b16 =
    decode_resistor b11 == rs && decode_current b11 b15 b16 == icpnum

-- The test of the bytes that a filter leaves.
abbrev pub bytes_test : ℕ → ℕ → List ℕ → Bool
bytes_test rs icpnum p =
    let b11 = get_or p 8 0 in
    let b15 = get_or p 12 0 in
    let b16 = get_or p 13 0 in
    ltb b11 64
    && reads_filter rs icpnum b11 b15 b16
    && same_list p (filter_bytes b11 0 0x40 b15 b16)

-- The test of the assignments of tables 4 and 3.
abbrev pub edits_test : ℕ → ℕ → Option (List Edit) → Option (List Edit) → Bool
edits_test rs icpnum none o3 = false
edits_test rs icpnum (some e4) none = false
edits_test rs icpnum (some e4) (some e3) =
    all_behind 3 e4
    && all_behind 3 e3
    && bytes_test rs icpnum (edits (map (moved 3) e3) (edits (map (moved 3) e4) tail_progdata))

abbrev pub filter_test : ℕ → ℕ → Bool
filter_test rs icpnum = edits_test rs icpnum (loop_filter_resistor rs) (charge_pump_current icpnum)

pub filter_tests : all_listed (λ rs. all_listed (filter_test rs) currents) resistors ≡ true
unfolding loop_filter_resistor charge_pump_current decode_resistor decode_current field_resistor
    field_current
filter_tests = refl

-- Assignments in front of a byte leave it.
abbrev pub all_before : ℕ → List Edit → Bool
all_before n [] = true
all_before n (put i m ∷ es) = ltb i n && all_before n es
all_before n (mask i m ∷ es) = ltb i n && all_before n es
all_before n (mark i m ∷ es) = ltb i n && all_before n es

get_or-set_above :
    (xs : List ℕ) (i n v : ℕ) → ltb i n ≡ true → get_or (set xs i v) n 0 ≡ get_or xs n 0
get_or-set_above [] i n v h = refl
get_or-set_above (x ∷ xs) zero zero v h = ground arith
get_or-set_above (x ∷ xs) zero (suc n) v h = refl
get_or-set_above (x ∷ xs) (suc i) zero v h = ground arith
get_or-set_above (x ∷ xs) (suc i) (suc n) v h = get_or-set_above xs i n v (ground arith)

pub get_or-edits :
    (es : List Edit) (xs : List ℕ) (n k : ℕ)
    → all_before n es ≡ true
    → n ≤ k
    → get_or (edits es xs) k 0 ≡ get_or xs k 0
get_or-edits [] xs n k h le = refl
get_or-edits (put i m ∷ es) xs n k h le =
    let (first, others) = and_true (ltb i n) (all_before n es) h in
    get_or-edits es (edit (put i m) xs) n k others le ∙ get_or-set_above xs i k m (ground arith)
get_or-edits (mask i m ∷ es) xs n k h le =
    let (first, others) = and_true (ltb i n) (all_before n es) h in
    get_or-edits es (edit (mask i m) xs) n k others le ∙ get_or-set_above xs i k _ (ground arith)
get_or-edits (mark i m ∷ es) xs n k h le =
    let (first, others) = and_true (ltb i n) (all_before n es) h in
    get_or-edits es (edit (mark i m) xs) n k others le ∙ get_or-set_above xs i k _ (ground arith)

-- The test of an output divider's assignments, on the bytes of a filter.
abbrev pub output_test : ℕ → ℕ → ℕ → ℕ → Option (List Edit) → Bool
output_test b15 b16 b11 od none = false
output_test b15 b16 b11 od (some e5) =
    let p = edits (map (moved 3) e5) (filter_bytes b11 0 0x40 b15 b16) in
    all_behind 3 e5
    && all_before 12 (map (moved 3) e5)
    && (get_or p 8 0 % 128 == b11)
    && (decode_output (get_or p 8 0) (get_or p 9 0) (get_or p 10 0) == od)

pub output_tests :
    (b15 b16 : ℕ)
    → all_below 64
        (λ b11. all_below 38 (λ od. ltb od 2 || output_test b15 b16 b11 od (output_divider od)))
      ≡ true
unfolding output_divider decode_output
output_tests b15 b16 = refl
