-- ===== src/ClockBits/Decode.antt =====
-- The dividers and the loop filter that the twenty bytes stand for, field by field.
use synccom_linux.Prelude.{ℕ, ◌+◌, ◌-◌, ◌*◌, ◌/◌, ◌%◌, ◌^◌, List, if◌then◌else◌, leb, ◌==◌, get_or}
use synccom_linux.ClockBits.Tables.{Solution}

-- Bits 0 and 1 of the first byte say how the input divider is written: 1, 2, up to 17 in a complement of
-- four bits, or less eight in eleven bits.
unfoldable pub decode_input : ℕ → ℕ → ℕ
decode_input b0 b1 =
    if b0 % 4 == 0
    then 1
    else if b0 % 4 == 1
    then 2
    else if b0 % 4 == 2
    then 17 - b0 / 4 % 16
    else b0 / 4 + b1 % 32 * 64 + 8

-- The VCO divider less eight, in eleven bits over two bytes.
unfoldable pub decode_vco : ℕ → ℕ → ℕ
decode_vco b1 b2 = b1 / 32 + b2 * 8 + 8

-- The resistor of a field.
unfoldable pub field_resistor : ℕ → ℕ
field_resistor f =
    if f == 0 then 64000 else if f == 2 then 52000 else if f == 1 then 16000 else 4000

-- The resistor, in bits 1 and 2.
unfoldable pub decode_resistor : ℕ → ℕ
decode_resistor b11 = field_resistor (b11 / 2 % 4)

-- The current of a coarse and a fine field.
unfoldable pub field_current : ℕ → ℕ → ℕ
field_current f fine =
    let scale = (if fine == 0 then 1 else if fine == 1 then 2 else if fine == 2 then 3 else 4) in
    if f == 7
    then 125 * scale
    else if f == 3
    then 625 * scale
    else if f == 2
    then 750 * scale
    else if f == 1
    then 875 * scale
    else if f == 0
    then 1000 * scale
    else 375 * scale

-- The current: the coarse field is in bits 3 to 5 of byte 11, the fine one in bit 7 of 15 and bit 0 of 16.
unfoldable pub decode_current : ℕ → ℕ → ℕ → ℕ
decode_current b11 b15 b16 = field_current (b11 / 8 % 8) (b15 / 128 + b16 % 2 * 2)

-- The output divider: bit 7 of byte 11 and the low bits of byte 12 say how it is written.
unfoldable pub decode_output : ℕ → ℕ → ℕ → ℕ
decode_output b11 b12 b13 =
    if b12 % 4 == 2
    then (if leb 128 b11
        then ((b12 / 32 + b13 % 64 * 8 + 3) * 2 + (1 - b12 / 4 % 2)) * 2 ^ (b12 / 8 % 4)
        else 37 - b12 / 4)
    else if leb 128 b11
    then (if b12 % 2 == 0
        then (if b12 == 0 then 3 else 6)
        else if b12 == 1
        then 7
        else b12 / 4 * 2 + 7)
    else (if b12 == 0 then 2 else if b12 == 4 then 4 else 5)

unfoldable pub decode : List ℕ → Solution
decode p = record {
  ref_div = decode_input (get_or p 0 0) (get_or p 1 0);
  vco_div = decode_vco (get_or p 1 0) (get_or p 2 0);
  out_div = decode_output (get_or p 11 0) (get_or p 12 0) (get_or p 13 0);
  rs = decode_resistor (get_or p 11 0);
  icpnum = decode_current (get_or p 11 0) (get_or p 15 0) (get_or p 16 0);
}
