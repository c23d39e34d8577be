-- ===== src/Tests/ClockBits.antt =====
-- The clock calculation of lib/raw/calculate-clock-bits.c with exact fractions for the doubles.
use synccom_linux.Prelude.{
  ℕ, ◌+◌, ◌-◌, ◌*◌, ◌/◌, ◌≤◌, ◌≡◌, ◌≢◌, refl, ◌&&◌, some, List, arith, leb, replicate,
}
use synccom_linux.ClockBits.{calculate_clock_bits}
use synccom_linux.ClockBits.Tables.{Solution, encode, initial_progdata}
use synccom_linux.ClockBits.Search.{Doubles, found, out_of_fuel, vco_limit, clamp_vco, search}
use synccom_linux.ClockBits.Decode.{decode}
use synccom_linux.ClockBits.RoundTrip.{IsEncodable, encode-decode}
use synccom_linux.ClockBits.Least.{IsCandidate, search-returns, search_complete}
use synccom_linux.ClockBits.Calculation.{Outcome, calculate-cases, calculate_complete}

-- The tests with a clock of 24 MHz, each quotient multiplied out.
abbrev exact : Doubles
exact = record {
  pdf_in_range = λ r. leb (20000 * r) 24000000 && leb 24000000 (100000000 * r);
  vco_start = λ ppm desired r od. (desired * 1000000 - ppm * desired) * r * od / 24000000000000;
  vco_in_range = λ r v limit. leb (90000000 * r) (24000000 * v) && leb (24000000 * v) (limit * r);
  close = λ ppm desired r od v.
      leb (24000000 * v * 1000000) (desired * r * od * (1000000 + ppm))
      && leb (desired * r * od * 1000000) (24000000 * v * 1000000 + desired * r * od * ppm);
  is_stable = λ rs icpnum r v.
      leb 70 (150796320000 * v / (310 * r * rs * icpnum) + 1)
      && leb (150796320000 * v / (310 * r * rs * icpnum) + 1) 300
      && leb (rs * rs * icpnum * 93) (1600000000000 * v)
      && leb (16000000000 * v) (rs * rs * icpnum * 93);
}

-- 24 MHz over 2, times 24, over 12.
abbrev twelfth : Solution
twelfth = record { ref_div = 2; vco_div = 24; out_div = 12; rs = 16000; icpnum = 1250 }

abbrev long_divider : Solution
long_divider = record { ref_div = 1000; vco_div = 2055; out_div = 4128; rs = 4000; icpnum = 4000 }

long_divider_ok : IsEncodable long_divider
long_divider_ok = record {
  ref_pos = omega arith;
  ref_small = omega arith;
  vco_large = omega arith;
  vco_small = omega arith;
  out_div_ok = refl;
  rs_ok = refl;
  icpnum_ok = refl;
}

twelfth-IsCandidate : IsCandidate exact 24000000 0 twelfth
unfolding clamp_vco vco_limit
twelfth-IsCandidate = record {
  ref_from = omega arith;
  ref_below = omega arith;
  pdf_ok = refl;
  out_ok = refl;
  vco_from = omega arith;
  vco_to = omega arith;
  tests = record {
    vco_ok = refl;
    close_ok = refl;
    rs_ok = refl;
    icpnum_ok = refl;
    stable_ok = refl;
  };
}

encode-decode_example :
    (p : List ℕ) × (encode long_divider initial_progdata ≡ (0, p)) × (decode p ≡ long_divider)
encode-decode_example = encode-decode long_divider long_divider_ok

search-returns_example : search exact 24000000 10 ≢ out_of_fuel
search-returns_example = search-returns exact 24000000 10

search_complete_example :
    (s : Solution) × (p : ℕ) × (search exact 24000000 10 ≡ found s)
    × (p ≤ 0)
    × IsCandidate exact 24000000 p s
search_complete_example =
    search_complete exact 24000000 10 0 twelfth (omega arith) twelfth-IsCandidate

calculate_complete_example :
    (bytes : List ℕ) × (p : ℕ) × (calculate_clock_bits exact 24000000 10 (replicate 20 0)
      ≡ some (0, bytes))
    × (p ≤ 0)
    × IsCandidate exact 24000000 p (decode bytes)
calculate_complete_example =
    calculate_complete exact 24000000 10 0 (replicate 20 0) twelfth (omega arith) (omega arith)
      (omega arith) twelfth-IsCandidate

calculate-cases_example : Outcome exact 24000000 10 (replicate 20 0)
calculate-cases_example = calculate-cases exact 24000000 10 (replicate 20 0)
