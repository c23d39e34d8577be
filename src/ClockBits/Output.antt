-- ===== src/ClockBits/Output.antt =====
-- The output dividers from 38 on, in table 5 of lib/raw/calculate-clock-bits.c: the bytes that are written
-- for a divider read as that divider.
use synccom_linux.Prelude.{
  ℕ, ◌+◌, ◌-◌, ◌*◌, ◌/◌, ◌%◌, ◌^◌, ◌≤◌, ◌<◌, ◌≡◌, refl, ap, ◌∙◌, true, some, List, [], ◌∷◌, ◌++◌,
  map, arith, leb, ◌==◌, ==_iff, bit_and, bit_or,
}
use mathlib.Core.Path.{ap₂}
use synccom_linux.Prelude.Bits.{bit_and-ones, bit_or-above, bit_or-below, zero-bit_or}
use synccom_linux.ClockBits.Tables.{
  Edit, mask, mark, edits, output_divider, Split, split_1, split_2, split_3, split_4, split_5,
  split_6, split_7, split_8, first_split, loop_edits,
}
use synccom_linux.ClockBits.Decode.{decode_output}
use synccom_linux.ClockBits.Encode.{all_below_lem, all_behind, moved}
use synccom_linux.ClockBits.Filter.{filter_bytes}
use synccom_linux.ClockBits.Split.{is_out_divider, value, first_split_lem, has_split}

-- The second byte of the divider, behind the first assignment of the loop.
abbrev branch_byte : Split → ℕ → ℕ
branch_byte split_1 w = bit_or (bit_and w 0xe7) 0x04
branch_byte split_2 w = bit_or (bit_and w 0xef) 0x0c
branch_byte split_3 w = bit_or (bit_and w 0xf7) 0x14
branch_byte split_4 w = bit_or w 0x1c
branch_byte split_5 w = bit_and w 0xe3
branch_byte split_6 w = bit_or (bit_and w 0xeb) 0x08
branch_byte split_7 w = bit_or (bit_and w 0xf7) 0x10
branch_byte split_8 w = bit_or (bit_and w 0xfb) 0x18

abbrev final_byte : Split → ℕ → ℕ
final_byte s w = bit_or (bit_and (branch_byte s w) 0xfe) 0x02

-- The low five bits of that byte.
abbrev pub code : Split → ℕ
code split_1 = 0x06
code split_2 = 0x0e
code split_3 = 0x16
code split_4 = 0x1e
code split_5 = 0x02
code split_6 = 0x0a
code split_7 = 0x12
code split_8 = 0x1a

final_byte_lem : (s : Split) (k : ℕ) → k < 8 → final_byte s (k * 32) ≡ k * 32 + code s
final_byte_lem s k h = (==_iff _ _).0 (go s)
  where
    go : (s : Split) → (final_byte s (k * 32) == k * 32 + code s) ≡ true
    go split_1 = all_below_lem 8 k (λ k. final_byte split_1 (k * 32) == k * 32 + 0x06) refl h
    go split_2 = all_below_lem 8 k (λ k. final_byte split_2 (k * 32) == k * 32 + 0x0e) refl h
    go split_3 = all_below_lem 8 k (λ k. final_byte split_3 (k * 32) == k * 32 + 0x16) refl h
    go split_4 = all_below_lem 8 k (λ k. final_byte split_4 (k * 32) == k * 32 + 0x1e) refl h
    go split_5 = all_below_lem 8 k (λ k. final_byte split_5 (k * 32) == k * 32 + 0x02) refl h
    go split_6 = all_below_lem 8 k (λ k. final_byte split_6 (k * 32) == k * 32 + 0x0a) refl h
    go split_7 = all_below_lem 8 k (λ k. final_byte split_7 (k * 32) == k * 32 + 0x12) refl h
    go split_8 = all_below_lem 8 k (λ k. final_byte split_8 (k * 32) == k * 32 + 0x1a) refl h

-- The reading of a divider by its fields.
decode_long :
    (b11 b12 b13 i c z : ℕ)
    → 128 ≤ b11
    → b12 % 4 ≡ 2
    → b12 / 32 + b13 % 64 * 8 ≡ i
    → b12 / 4 % 2 ≡ c
    → b12 / 8 % 4 ≡ z
    → decode_output b11 b12 b13 ≡ ((i + 3) * 2 + (1 - c)) * 2 ^ z
unfolding decode_output
decode_long b11 b12 b13 i c z h low e ec ez =
    let marked : leb 128 b11 ≡ true = ground arith in
    let long : (b12 % 4 == 2) ≡ true = ground arith in ground (arith, ap (λ t. 2 ^ t) ez)

-- The same, with the bytes that a branch leaves, by the low five bits n of the second.
decode_fields :
    (b11 i n c z : ℕ)
    → i < 512
    → n < 32
    → n % 4 ≡ 2
    → n / 4 % 2 ≡ c
    → n / 8 % 4 ≡ z
    → decode_output (b11 + 128) (i % 8 * 32 + n) (64 + i / 8) ≡ ((i + 3) * 2 + (1 - c)) * 2 ^ z
decode_fields b11 i n c z h lt a b d =
    decode_long (b11 + 128) (i % 8 * 32 + n) (64 + i / 8) i c z (omega arith) (omega arith)
      (omega arith) (omega arith) (omega arith)

pub decode-split :
    (b11 i : ℕ) (s : Split)
    → i < 512
    → decode_output (b11 + 128) (i % 8 * 32 + code s) (64 + i / 8) ≡ value i s
decode-split b11 i split_1 h =
    decode_fields b11 i 0x06 1 0 h (omega arith) refl refl refl ∙ omega arith
decode-split b11 i split_2 h =
    decode_fields b11 i 0x0e 1 1 h (omega arith) refl refl refl ∙ omega arith
decode-split b11 i split_3 h =
    decode_fields b11 i 0x16 1 2 h (omega arith) refl refl refl ∙ omega arith
decode-split b11 i split_4 h =
    decode_fields b11 i 0x1e 1 3 h (omega arith) refl refl refl ∙ omega arith
decode-split b11 i split_5 h =
    decode_fields b11 i 0x02 0 0 h (omega arith) refl refl refl ∙ omega arith
decode-split b11 i split_6 h =
    decode_fields b11 i 0x0a 0 1 h (omega arith) refl refl refl ∙ omega arith
decode-split b11 i split_7 h =
    decode_fields b11 i 0x12 0 2 h (omega arith) refl refl refl ∙ omega arith
decode-split b11 i split_8 h =
    decode_fields b11 i 0x1a 0 3 h (omega arith) refl refl refl ∙ omega arith

-- The three bytes that the loop writes, looked through.
written_bytes :
    (b11 b15 b16 i : ℕ) (s : Split)
    → b11 < 128
    → i < 512
    → filter_bytes
        (bit_or b11 0x80)
        (final_byte s (bit_or 0 (bit_and (i * 2 ^ 5) 0xff)))
        (bit_or 0x40 (bit_and (i * 2 ^ 5 / 2 ^ 8) 0xff))
        b15
        b16
      ≡ filter_bytes (b11 + 128) (i % 8 * 32 + code s) (64 + i / 8) b15 b16
written_bytes b11 b15 b16 i s h k =
    let low : bit_or 0 (bit_and (i * 2 ^ 5) 0xff) ≡ i % 8 * 32 =
      zero-bit_or (bit_and (i * 2 ^ 5) 0xff) ∙ omega (arith, bit_and-ones 8 (i * 2 ^ 5)) in
    let marked : bit_or b11 0x80 ≡ b11 + 128 = bit_or-above 7 b11 1 h ∙ omega arith in
    let high : bit_or 0x40 (bit_and (i * 2 ^ 5 / 2 ^ 8) 0xff) ≡ 64 + i / 8 =
      ap (bit_or 0x40) {x = bit_and (i * 2 ^ 5 / 2 ^ 8) 0xff} {y = i / 8}
        (omega (arith, bit_and-ones 8 (i * 2 ^ 5 / 2 ^ 8)))
      ∙ bit_or-below 6 1 (i / 8) (omega arith) in
    ap₂
      (λ (c11 c13 : ℕ).
        filter_bytes c11 (final_byte s (bit_or 0 (bit_and (i * 2 ^ 5) 0xff))) c13 b15 b16)
      marked high
    ∙ ap (λ c12. filter_bytes (b11 + 128) c12 (64 + i / 8) b15 b16)
        (ap (final_byte s) low ∙ final_byte_lem s (i % 8) (omega arith))

-- The assignments of the loop and behind it.
abbrev pub long_edits : ℕ → Split → List Edit
long_edits i s = loop_edits (some (i, s)) ++ (mark 11 0x80 ∷ mask 12 0xfe ∷ mark 12 0x02 ∷ [])

pub loop_edits_lem :
    (b11 b15 b16 i : ℕ) (s : Split)
    → b11 < 128
    → i < 512
    → (edits (map (moved 3) (long_edits i s)) (filter_bytes b11 0 0x40 b15 b16)
        ≡ filter_bytes (b11 + 128) (i % 8 * 32 + code s) (64 + i / 8) b15 b16)
      × (all_behind 3 (long_edits i s) ≡ true)
unfolding loop_edits
loop_edits_lem b11 b15 b16 i split_1 h k = (written_bytes b11 b15 b16 i split_1 h k, refl)
loop_edits_lem b11 b15 b16 i split_2 h k = (written_bytes b11 b15 b16 i split_2 h k, refl)
loop_edits_lem b11 b15 b16 i split_3 h k = (written_bytes b11 b15 b16 i split_3 h k, refl)
loop_edits_lem b11 b15 b16 i split_4 h k = (written_bytes b11 b15 b16 i split_4 h k, refl)
loop_edits_lem b11 b15 b16 i split_5 h k = (written_bytes b11 b15 b16 i split_5 h k, refl)
loop_edits_lem b11 b15 b16 i split_6 h k = (written_bytes b11 b15 b16 i split_6 h k, refl)
loop_edits_lem b11 b15 b16 i split_7 h k = (written_bytes b11 b15 b16 i split_7 h k, refl)
loop_edits_lem b11 b15 b16 i split_8 h k = (written_bytes b11 b15 b16 i split_8 h k, refl)

-- A divider from 38 on has no case of its own, and is left to the loop.
output_divider_loop :
    (od : ℕ)
    → 38 ≤ od
    → od ≤ 8232
    → output_divider od
      ≡ some
          (loop_edits (first_split 512 0 od) ++ (mark 11 0x80 ∷ mask 12 0xfe ∷ mark 12 0x02 ∷ []))
unfolding output_divider
output_divider_loop od h k = ground arith

-- The divider's assignments are those of some branch with its value.
pub output_divider_long :
    (od : ℕ)
    → 38 ≤ od
    → is_out_divider od ≡ true
    → (i : ℕ) × (s : Split) × (output_divider od ≡ some (long_edits i s))
      × (i < 512)
      × (value i s ≡ od)
output_divider_long od h k =
    let (j, s', lt, same) = has_split od h k in
    let (i, s, first, small, here) =
      first_split_lem 512 0 od j s' (omega arith) (omega arith) same in
    (
      i,
      s,
      output_divider_loop od h (ground arith)
          ∙ ap (λ o. some (loop_edits o ++ (mark 11 0x80 ∷ mask 12 0xfe ∷ mark 12 0x02 ∷ [])))
              first,
      omega arith,
      here,
    )
