-- ===== src/ClockBits/RoundTrip.antt =====
-- The encoding of a solution in lib/raw/calculate-clock-bits.c and the reading of the bytes.
use synccom_linux.Prelude.{
  ℕ, ◌+◌, ◌-◌, ◌*◌, ◌/◌, ◌%◌, ◌≤◌, ◌<◌, ◌≡◌, refl, sym, Bool-cases, ==_iff, ap, ◌∙◌, inl, inr, true,
  ◌&&◌, ◌||◌, Option, none, some, List, ◌∷◌, map, arith, ltb, ◌==◌, get_or,
}
use mathlib.Core.Path.{ap₂}
use synccom_linux.ClockBits.Tables.{
  Solution, Edit, edits, initial_progdata, input_divider, vco_divider, loop_filter_resistor,
  charge_pump_current, output_divider, then_table, encode,
}
use synccom_linux.ClockBits.Search.{resistors, currents}
use synccom_linux.ClockBits.Decode.{
  decode_input, decode_vco, decode_resistor, decode_current, field_resistor, field_current,
  decode_output, decode,
}
use synccom_linux.ClockBits.Encode.{
  and_true, all_below, all_below_lem, tail_progdata, input_byte_0, input_byte_1, decode-input_bytes,
  input_divider_lem, vco_divider_lem, decode-vco_bytes, all_behind, moved, edits-behind,
}
use synccom_linux.ClockBits.Filter.{
  is_listed, all_listed, all_listed_lem, same_list, same_list_lem, filter_bytes, reads_filter,
  bytes_test, edits_test, filter_test, filter_tests, all_before, get_or-edits, output_test,
  output_tests,
}
use synccom_linux.ClockBits.Split.{is_out_divider}
use synccom_linux.ClockBits.Output.{
  code, decode-split, long_edits, loop_edits_lem, output_divider_long,
}

-- What the tables can write.
pub record IsEncodable (s : Solution) : Type 0 where
  pub ref_pos : 0 < s.ref_div
  pub ref_small : s.ref_div ≤ 2055
  pub vco_large : 12 ≤ s.vco_div
  pub vco_small : s.vco_div ≤ 2055
  pub out_div_ok : is_out_divider s.out_div ≡ true
  pub rs_ok : is_listed s.rs resistors ≡ true
  pub icpnum_ok : is_listed s.icpnum currents ≡ true

-- The assignments of a resistor and a current, and the bytes that they leave.
abbrev WritesFilter : ℕ → ℕ → Type 0
WritesFilter rs icpnum =
    (e4 : List Edit) × (e3 : List Edit) × (b11 : ℕ) × (b15 : ℕ) × (b16 : ℕ) × (loop_filter_resistor
        rs
      ≡ some e4)
    × (charge_pump_current icpnum ≡ some e3)
    × (b11 < 64)
    × (decode_resistor b11 ≡ rs)
    × (decode_current b11 b15 b16 ≡ icpnum)
    × ((c0 c1 c2 : ℕ)
        → edits e3 (edits e4 (c0 ∷ c1 ∷ c2 ∷ tail_progdata))
          ≡ c0 ∷ c1 ∷ c2 ∷ filter_bytes b11 0 0x40 b15 b16)

edits_test_lem :
    (rs icpnum : ℕ) (o4 o3 : Option (List Edit))
    → loop_filter_resistor rs ≡ o4
    → charge_pump_current icpnum ≡ o3
    → edits_test rs icpnum o4 o3 ≡ true
    → WritesFilter rs icpnum
edits_test_lem rs icpnum none o3 r4 r3 h = ground arith
edits_test_lem rs icpnum (some e4) none r4 r3 h = ground arith
edits_test_lem rs icpnum (some e4) (some e3) r4 r3 h =
    let p = edits (map (moved 3) e3) (edits (map (moved 3) e4) tail_progdata) in
    let reads_test = reads_filter rs icpnum (get_or p 8 0) (get_or p 12 0) (get_or p 13 0) in
    let same_test =
      same_list p (filter_bytes (get_or p 8 0) 0 0x40 (get_or p 12 0) (get_or p 13 0)) in
    let (behind, bytes) =
      and_true (all_behind 3 e4 && all_behind 3 e3) (bytes_test rs icpnum p) h in
    let (a4, a3) = and_true (all_behind 3 e4) (all_behind 3 e3) behind in
    let (first, same) = and_true (ltb (get_or p 8 0) 64 && reads_test) same_test bytes in
    let (small, reads) = and_true (ltb (get_or p 8 0) 64) reads_test first in
    let (reads_rs, reads_icpnum) =
      and_true (decode_resistor (get_or p 8 0) == rs)
        (decode_current (get_or p 8 0) (get_or p 12 0) (get_or p 13 0) == icpnum) reads in
    (
      e4,
      e3,
      get_or p 8 0,
      get_or p 12 0,
      get_or p 13 0,
      r4,
      r3,
      ground arith,
      (==_iff _ _).0 reads_rs,
      (==_iff _ _).0 reads_icpnum,
      λ c0 c1 c2.
          ap (edits e3) (edits-behind c0 c1 c2 tail_progdata e4 a4)
          ∙ edits-behind c0 c1 c2 (edits (map (moved 3) e4) tail_progdata) e3 a3
          ∙ ap (λ q. c0 ∷ c1 ∷ c2 ∷ q) (same_list_lem p _ same),
    )

writes_filter :
    (rs icpnum : ℕ)
    → is_listed rs resistors ≡ true
    → is_listed icpnum currents ≡ true
    → WritesFilter rs icpnum
writes_filter rs icpnum hr hi =
    edits_test_lem rs icpnum (loop_filter_resistor rs) (charge_pump_current icpnum) refl refl (
      all_listed_lem (filter_test rs) currents icpnum
        (all_listed_lem (λ r. all_listed (filter_test r) currents) resistors rs filter_tests hr) hi)

-- The assignments of an output divider behind a filter, and the bytes that they leave.
abbrev WritesOutput : ℕ → ℕ → ℕ → ℕ → Type 0
WritesOutput od b11 b15 b16 =
    (e5 : List Edit) × (q : List ℕ) × (output_divider od ≡ some e5)
    × ((c0 c1 c2 : ℕ)
        → edits e5 (c0 ∷ c1 ∷ c2 ∷ filter_bytes b11 0 0x40 b15 b16) ≡ c0 ∷ c1 ∷ c2 ∷ q)
    × (decode_output (get_or q 8 0) (get_or q 9 0) (get_or q 10 0) ≡ od)
    × (get_or q 8 0 % 128 ≡ b11)
    × (get_or q 12 0 ≡ b15)
    × (get_or q 13 0 ≡ b16)

output_test_lem :
    (od b11 b15 b16 : ℕ) (o5 : Option (List Edit))
    → output_divider od ≡ o5
    → output_test b15 b16 b11 od o5 ≡ true
    → WritesOutput od b11 b15 b16
output_test_lem od b11 b15 b16 none r5 h = ground arith
output_test_lem od b11 b15 b16 (some e5) r5 h =
    let f = filter_bytes b11 0 0x40 b15 b16 in
    let p = edits (map (moved 3) e5) f in
    let before_test = all_before 12 (map (moved 3) e5) in
    let same_test = get_or p 8 0 % 128 == b11 in
    let reads_test = decode_output (get_or p 8 0) (get_or p 9 0) (get_or p 10 0) == od in
    let (first, reads) = and_true (all_behind 3 e5 && before_test && same_test) reads_test h in
    let (kept, same) = and_true (all_behind 3 e5 && before_test) same_test first in
    let (a5, before) = and_true (all_behind 3 e5) before_test kept in
    (
      e5,
      p,
      r5,
      λ c0 c1 c2. edits-behind c0 c1 c2 f e5 a5,
      (==_iff _ _).0 reads,
      (==_iff _ _).0 same,
      get_or-edits (map (moved 3) e5) f 12 12 before (omega arith),
      get_or-edits (map (moved 3) e5) f 12 13 before (omega arith),
    )

writes_output :
    (od b11 b15 b16 : ℕ) → b11 < 64 → is_out_divider od ≡ true → WritesOutput od b11 b15 b16
writes_output od b11 b15 b16 small h = elim (Bool-cases (ltb od 38)) [
  | inl short ↦
      (let test =
          all_below_lem 38 od (λ d. ltb d 2 || output_test b15 b16 b11 d (output_divider d))
            (all_below_lem 64 b11
              (λ b. all_below 38 (λ d. ltb d 2 || output_test b15 b16 b d (output_divider d)))
              (output_tests b15 b16) small)
            (ground arith) in
        output_test_lem od b11 b15 b16 (output_divider od) refl (ground arith))
  | inr long ↦
      (let (i, s, r5, lt, here) = output_divider_long od (ground arith) h in
        let (bytes, a5) = loop_edits_lem b11 b15 b16 i s (omega arith) lt in
        (
          long_edits i s,
          filter_bytes (b11 + 128) (i % 8 * 32 + code s) (64 + i / 8) b15 b16,
          r5,
          λ c0 c1 c2.
              edits-behind c0 c1 c2 (filter_bytes b11 0 0x40 b15 b16) (long_edits i s) a5
              ∙ ap (λ q. c0 ∷ c1 ∷ c2 ∷ q) bytes,
          decode-split b11 i s lt ∙ here,
          omega arith,
          refl,
          refl,
        ))
]

-- The filter's fields do not have the highest bit.
decode_filter_mod :
    (b b15 b16 : ℕ)
    → (decode_resistor (b % 128) ≡ decode_resistor b)
      × (decode_current (b % 128) b15 b16 ≡ decode_current b b15 b16)
unfolding decode_resistor decode_current
decode_filter_mod b b15 b16 =
    let low : b % 128 / 2 % 4 ≡ b / 2 % 4 = omega arith in
    let high : b % 128 / 8 % 8 ≡ b / 8 % 8 = omega arith in
    (ap field_resistor low, ap (λ f. field_current f (b15 / 128 + b16 % 2 * 2)) high)

decode_lem :
    (p : List ℕ) (s : Solution)
    → decode_input (get_or p 0 0) (get_or p 1 0) ≡ s.ref_div
    → decode_vco (get_or p 1 0) (get_or p 2 0) ≡ s.vco_div
    → decode_output (get_or p 11 0) (get_or p 12 0) (get_or p 13 0) ≡ s.out_div
    → decode_resistor (get_or p 11 0) ≡ s.rs
    → decode_current (get_or p 11 0) (get_or p 15 0) (get_or p 16 0) ≡ s.icpnum
    → decode p ≡ s
unfolding decode
decode_lem p s ref vco out rs icpnum =
    λ i. record { ref_div = ref i; vco_div = vco i; out_div = out i; rs = rs i; icpnum = icpnum i }

-- The tables one after the other, none of which returns an error.
encode_lem :
    (s : Solution) (e1 e2 e4 e3 e5 : List Edit) (p : List ℕ)
    → input_divider s.ref_div ≡ some e1
    → vco_divider s.vco_div ≡ some e2
    → loop_filter_resistor s.rs ≡ some e4
    → charge_pump_current s.icpnum ≡ some e3
    → output_divider s.out_div ≡ some e5
    → encode s p ≡ (0, edits e5 (edits e3 (edits e4 (edits e2 (edits e1 p)))))
unfolding encode then_table
encode_lem s e1 e2 e4 e3 e5 p r1 r2 r4 r3 r5 = rw (r1, r2, r4, r3, r5) refl

-- On a solution that the tables can write, the encoding returns 0, and its bytes decode to the solution.
pub encode-decode :
    (s : Solution)
    → IsEncodable s
    → (p : List ℕ) × (encode s initial_progdata ≡ (0, p)) × (decode p ≡ s)
encode-decode s ok =
    let (e1, r1, p1) = input_divider_lem s.ref_div ok.ref_pos ok.ref_small in
    let b0 = input_byte_0 s.ref_div in
    let b1 = input_byte_1 s.ref_div in
    let (small, input) = decode-input_bytes s.ref_div ok.ref_pos ok.ref_small in
    let (e2, r2, p2) = vco_divider_lem s.vco_div b0 b1 ok.vco_large ok.vco_small small in
    let (vco, input_kept) = decode-vco_bytes s.vco_div b0 b1 ok.vco_large small in
    let (e4, e3, b11, b15, b16, r4, r3, b11_small, rs, icpnum, p3) =
      writes_filter s.rs s.icpnum ok.rs_ok ok.icpnum_ok in
    let (e5, q, r5, p5, out_div, q8, q12, q13) =
      writes_output s.out_div b11 b15 b16 b11_small ok.out_div_ok in
    let c1 = b1 + (s.vco_div - 8) % 8 * 32 in
    let c2 = (s.vco_div - 8) / 8 in
    let (kept_rs, kept_icpnum) = decode_filter_mod (get_or q 8 0) b15 b16 in
    (
      b0 ∷ c1 ∷ c2 ∷ q,
      encode_lem s e1 e2 e4 e3 e5 initial_progdata r1 r2 r4 r3 r5
          ∙ ap (λ p. (0, edits e5 (edits e3 (edits e4 (edits e2 p))))) p1
          ∙ ap (λ p. (0, edits e5 (edits e3 (edits e4 p)))) p2
          ∙ ap (λ p. (0, edits e5 p)) (p3 b0 c1 c2)
          ∙ ap (λ p. (0, p)) (p5 b0 c1 c2),
      decode_lem (b0 ∷ c1 ∷ c2 ∷ q) s (input_kept ∙ input) vco out_div
          (sym kept_rs ∙ ap decode_resistor q8 ∙ rs)
          (ap₂ (λ (d15 d16 : ℕ). decode_current (get_or q 8 0) d15 d16) q12 q13
            ∙ sym kept_icpnum
            ∙ ap (λ b. decode_current b b15 b16) q8
            ∙ icpnum),
    )
