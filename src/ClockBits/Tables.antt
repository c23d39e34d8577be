-- ===== src/ClockBits/Tables.antt =====
-- The tables 1 to 5 of `GetICS30703Data`: each gives the assignments to `progdata` for a divider, a
-- resistor or a current, or `none` where the code returns an error. `unsigned long` has 64 bits.
use synccom_linux.Prelude.{
  ℕ, zero, suc, ◌+◌, ◌-◌, ◌*◌, ◌/◌, ◌%◌, ◌^◌, ◌&&◌, Option, none, some, List, [], ◌∷◌, ◌++◌,
  if◌then◌else◌, leb, ◌==◌, bit_and, bit_or, get_or, set,
}

-- `struct ResultStruct` and `struct IcpRsStruct` without their doubles.
pub record Solution : Type 0 where
  pub ref_div : ℕ
  pub vco_div : ℕ
  pub out_div : ℕ
  pub rs : ℕ
  pub icpnum : ℕ

-- The assignments `progdata[i] = m`, `progdata[i] &= m` and `progdata[i] |= m`.
pub data Edit : Type 0 where
  put mask mark : ℕ → ℕ → Edit

abbrev pub edit : Edit → List ℕ → List ℕ
edit (put i m) p = set p i m
edit (mask i m) p = set p i (bit_and (get_or p i 0) m)
edit (mark i m) p = set p i (bit_or (get_or p i 0) m)

-- One assignment after the other.
abbrev pub edits : List Edit → List ℕ → List ℕ
edits [] p = p
edits (e ∷ es) p = edits es (edit e p)

-- `progdata` before the tables, with CLK1 and the power-up bit set.
abbrev pub initial_progdata : List ℕ
initial_progdata =
    0 ∷ 0 ∷ 0 ∷ 0 ∷ 0 ∷ 0 ∷ 0 ∷ 0 ∷ 0 ∷ 0 ∷ 0 ∷ 0 ∷ 0 ∷ 0x40 ∷ 0x01 ∷ 0x04 ∷ 0 ∷ 0xff ∷ 0xff ∷ 0xff
    ∷ []

-- `temp = ~(x - base); temp = (temp << 2);`
abbrev pub complement_shifted : ℕ → ℕ → ℕ
complement_shifted x base = (2 ^ 64 - 1 - (x - base)) * 2 ^ 2 % 2 ^ 64

-- Table 1: Input Divider
unfoldable pub input_divider : ℕ → Option (List Edit)
input_divider x =
    if x == 1
    then some (mask 0 0xfc ∷ mask 1 0xf0 ∷ [])
    else if x == 2
    then some (mask 0 0xfc ∷ mark 0 0x01 ∷ mask 1 0xf0 ∷ [])
    else if leb 3 x && leb x 17
    then some (put 0 (bit_and (complement_shifted x 2) 0xff) ∷ mask 0 0x3e ∷ mark 0 0x02 ∷ [])
    else if leb 18 x && leb x 2055
    then (let temp = (x - 8) * 2 ^ 2 in
        some (put 0 (bit_and temp 0xff) ∷ put 1 (bit_and (temp / 2 ^ 8) 0xff) ∷ mark 0 0x03 ∷ []))
    else none

-- Table 2: VCO Divider
unfoldable pub vco_divider : ℕ → Option (List Edit)
vco_divider x =
    if leb 12 x && leb x 2055
    then (let temp = (x - 8) * 2 ^ 5 in
        some (mark 1 (bit_and temp 0xff) ∷ mark 2 (bit_and (temp / 2 ^ 8) 0xff) ∷ []))
    else none

-- Table 4: Loop Filter Resistor
unfoldable pub loop_filter_resistor : ℕ → Option (List Edit)
loop_filter_resistor x =
    if x == 64000
    then some (mask 11 0xf9 ∷ [])
    else if x == 52000
    then some (mask 11 0xf9 ∷ mark 11 0x04 ∷ [])
    else if x == 16000
    then some (mask 11 0xf9 ∷ mark 11 0x02 ∷ [])
    else if x == 4000
    then some (mark 11 0x06 ∷ [])
    else none

-- The cases of a `switch`, as an association list.
abbrev pub find_case : ℕ → List (ℕ × List Edit) → Option (List Edit)
find_case x [] = none
find_case x ((label, body) ∷ cases) = if x == label then some body else find_case x cases

-- Table 3: Charge Pump Current
abbrev pub charge_pump_cases : List (ℕ × List Edit)
charge_pump_cases =
    (125, mark 11 0x38 ∷ mask 15 0x7f ∷ mask 16 0xfe ∷ [])
    ∷ (250, mark 11 0x38 ∷ mark 15 0x80 ∷ mask 16 0xfe ∷ [])
    ∷ (375, mark 11 0x38 ∷ mask 15 0x7f ∷ mark 16 0x01 ∷ [])
    ∷ (500, mark 11 0x38 ∷ mark 15 0x80 ∷ mark 16 0x01 ∷ [])
    ∷ (625, mark 11 0x18 ∷ mask 11 0xdf ∷ mask 15 0x7f ∷ mask 16 0xfe ∷ [])
    ∷ (750, mark 11 0x10 ∷ mask 11 0xd7 ∷ mask 15 0x7f ∷ mask 16 0xfe ∷ [])
    ∷ (875, mark 11 0x08 ∷ mask 11 0xcf ∷ mask 15 0x7f ∷ mask 16 0xfe ∷ [])
    ∷ (1000, mask 11 0xc7 ∷ mask 15 0x7f ∷ mask 16 0xfe ∷ [])
    ∷ (1125, mark 11 0x28 ∷ mask 11 0xef ∷ mask 15 0x7f ∷ mark 16 0x01 ∷ [])
    ∷ (1250, mark 11 0x18 ∷ mask 11 0xdf ∷ mark 15 0x80 ∷ mask 16 0xfe ∷ [])
    ∷ (1500, mark 11 0x28 ∷ mask 11 0xef ∷ mark 15 0x80 ∷ mark 16 0x01 ∷ [])
    ∷ (1750, mark 11 0x08 ∷ mask 11 0xcf ∷ mark 15 0x80 ∷ mask 16 0xfe ∷ [])
    ∷ (1875, mark 11 0x18 ∷ mask 11 0xdf ∷ mask 15 0x7f ∷ mark 16 0x01 ∷ [])
    ∷ (2000, mask 11 0xc7 ∷ mark 15 0x80 ∷ mask 16 0xfe ∷ [])
    ∷ (2250, mark 11 0x10 ∷ mask 15 0x7f ∷ mark 16 0x01 ∷ [])
    ∷ (2500, mark 11 0x18 ∷ mask 11 0xdf ∷ mark 15 0x80 ∷ mark 16 0x01 ∷ [])
    ∷ (2625, mark 11 0x08 ∷ mask 11 0xcf ∷ mask 15 0x7f ∷ mark 16 0x01 ∷ [])
    ∷ (3000, mask 11 0xc7 ∷ mask 15 0x7f ∷ mark 16 0x01 ∷ [])
    ∷ (3500, mark 11 0x08 ∷ mask 11 0xcf ∷ mark 15 0x80 ∷ mark 16 0x01 ∷ [])
    ∷ (4000, mask 11 0xc7 ∷ mark 15 0x80 ∷ mark 16 0x01 ∷ [])
    ∷ []

unfoldable pub charge_pump_current : ℕ → Option (List Edit)
charge_pump_current x = find_case x charge_pump_cases

-- Table 5: the dividers with a case of their own.
abbrev pub small_divider_cases : List (ℕ × List Edit)
small_divider_cases =
    (2, mask 11 0x7f ∷ mask 12 0x00 ∷ mask 13 0xc0 ∷ [])
    ∷ (3, mark 11 0x80 ∷ mask 12 0x00 ∷ mask 13 0xc0 ∷ [])
    ∷ (4, mask 11 0x7f ∷ mark 12 0x04 ∷ mask 13 0xc0 ∷ [])
    ∷ (5, mask 11 0x7f ∷ mark 12 0x01 ∷ mask 13 0xc0 ∷ [])
    ∷ (6, mark 11 0x80 ∷ mark 12 0x04 ∷ mask 13 0xc0 ∷ [])
    ∷ (7, mark 11 0x80 ∷ mark 12 0x01 ∷ mask 13 0xc0 ∷ [])
    ∷ (11, mark 11 0x80 ∷ mark 12 0x09 ∷ mask 13 0xc0 ∷ [])
    ∷ (9, mark 11 0x80 ∷ mark 12 0x05 ∷ mask 13 0xc0 ∷ [])
    ∷ (13, mark 11 0x80 ∷ mark 12 0x0d ∷ mask 13 0xc0 ∷ [])
    ∷ []

-- A divider as ((i + 3) * 2 + y) * 2 ^ z: the branches of the loop, in their order.
pub data Split : Type 0 where
  split_1 split_2 split_3 split_4 split_5 split_6 split_7 split_8 : Split

-- The branch that the divider x takes at the index i.
unfoldable pub split_at : ℕ → ℕ → Option Split
split_at x i =
    if x == ((i + 3) * 2 + 0) * 1
    then some split_1
    else if x == ((i + 3) * 2 + 0) * 2
    then some split_2
    else if x == ((i + 3) * 2 + 0) * 4
    then some split_3
    else if x == ((i + 3) * 2 + 0) * 8
    then some split_4
    else if x == ((i + 3) * 2 + 1) * 1
    then some split_5
    else if x == ((i + 3) * 2 + 1) * 2
    then some split_6
    else if x == ((i + 3) * 2 + 1) * 4
    then some split_7
    else if x == ((i + 3) * 2 + 1) * 8
    then some split_8
    else none

-- The loop `for (i = 0; i < 512; i++)`, for the rounds left.
unfoldable pub first_split : ℕ → ℕ → ℕ → Option (ℕ × Split)
first_split zero i x = none
first_split (suc n) i x =
    let rest = first_split n (suc i) x in elim (split_at x i) [ none ↦ rest | some s ↦ some (i, s) ]

-- The last assignments of each branch.
abbrev pub split_edits : Split → List Edit
split_edits split_1 = mask 12 0xe7 ∷ mark 12 0x04 ∷ []
split_edits split_2 = mask 12 0xef ∷ mark 12 0x0c ∷ []
split_edits split_3 = mask 12 0xf7 ∷ mark 12 0x14 ∷ []
split_edits split_4 = mark 12 0x1c ∷ []
split_edits split_5 = mask 12 0xe3 ∷ []
split_edits split_6 = mask 12 0xeb ∷ mark 12 0x08 ∷ []
split_edits split_7 = mask 12 0xf7 ∷ mark 12 0x10 ∷ []
split_edits split_8 = mask 12 0xfb ∷ mark 12 0x18 ∷ []

-- The assignments of the loop.
unfoldable pub loop_edits : Option (ℕ × Split) → List Edit
loop_edits none = []
loop_edits (some (i, s)) =
    mark 12 (bit_and (i * 2 ^ 5) 0xff) ∷ mark 13 (bit_and (i * 2 ^ 5 / 2 ^ 8) 0xff) ∷ split_edits s

-- Table 5: Output Divider for Output 1
unfoldable pub output_divider : ℕ → Option (List Edit)
output_divider x =
    if leb 2 x && leb x 8232
    then elim (find_case x small_divider_cases) [
      | some body ↦ some body
      | none ↦
          (if leb x 37
            then some (
                put 12 (bit_and (complement_shifted x 6 % 2 ^ 8) 0x7f)
                ∷ mask 11 0x7f
                ∷ mask 12 0xfe
                ∷ mark 12 0x02
                ∷ mask 13 0xc0
                ∷ [])
            else some (
                loop_edits (first_split 512 0 x)
                ++ (mark 11 0x80 ∷ mask 12 0xfe ∷ mark 12 0x02 ∷ [])))
    ]
    else none

-- A table's assignments, or the error code that is returned in place of the rest.
unfoldable pub then_table : ℕ → Option (List Edit) → (List ℕ → ℕ × List ℕ) → List ℕ → ℕ × List ℕ
then_table code none rest p = (code, p)
then_table code (some es) rest p = rest (edits es p)

-- The tables in the order of the code.
unfoldable pub encode : Solution → List ℕ → ℕ × List ℕ
encode s = then_table 3 (input_divider s.ref_div) (
    then_table 4 (vco_divider s.vco_div) (
      then_table 5 (loop_filter_resistor s.rs) (
        then_table 6 (charge_pump_current s.icpnum)
          (then_table 7 (output_divider s.out_div) (λ p. (0, p))))))
