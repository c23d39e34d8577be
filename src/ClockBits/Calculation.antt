-- ===== src/ClockBits/Calculation.antt =====
-- `calculate_clock_bits` of lib/raw/calculate-clock-bits.c from its arguments to the bytes.
use synccom_linux.Prelude.{
  ℕ, ◌≤◌, ◌<◌, ◌≡◌, refl, ap, ◌∙◌, Bool-cases, ◌⊎◌, inl, inr, ◌||◌, List, some, arith, ltb, get_or,
  get_or-take, take,
}
use mathlib.Core.Path.{subst⁻¹}
use synccom_linux.ClockBits.{
  with_progdata, after_search, get_ics30703_data, return_bits, calculate_clock_bits,
}
use synccom_linux.ClockBits.Tables.{Solution}
use synccom_linux.ClockBits.Search.{Doubles, Found, found, exhausted, out_of_fuel, search}
use synccom_linux.ClockBits.Decode.{decode}
use synccom_linux.ClockBits.RoundTrip.{IsEncodable, encode-decode}
use synccom_linux.ClockBits.Sound.{clamp_vco_lem}
use synccom_linux.ClockBits.Least.{IsCandidate, search-returns, search_found, search_complete}

-- The bytes that are read are among the first twenty.
decode-take : (p : List ℕ) → decode (take 20 p) ≡ decode p
unfolding decode
decode-take p =
    let same : (i : ℕ) → i < 20 → get_or (take 20 p) i 0 ≡ get_or p i 0 =
      λ i h. get_or-take 20 i p 0 h in
    rw
      (
        same 0 (omega arith),
        same 1 (omega arith),
        same 2 (omega arith),
        same 11 (omega arith),
        same 12 (omega arith),
        same 13 (omega arith),
        same 15 (omega arith),
        same 16 (omega arith),
      )
      refl

-- The tables can write each solution that passes the tests.
candidate-IsEncodable :
    (doubles : Doubles) (desired ppm : ℕ) (s : Solution)
    → IsCandidate doubles desired ppm s
    → IsEncodable s
candidate-IsEncodable doubles desired ppm s c =
    let start = clamp_vco_lem (doubles.vco_start ppm desired s.ref_div s.out_div) in
    record {
      ref_pos = c.ref_from;
      ref_small = omega (arith, c.ref_below);
      vco_large = omega (arith, c.vco_from);
      vco_small = c.vco_to;
      out_div_ok = c.out_ok;
      rs_ok = c.tests.rs_ok;
      icpnum_ok = c.tests.icpnum_ok;
    }

in_range :
    (doubles : Doubles) (freq ppm : ℕ)
    → 15000 ≤ freq
    → freq ≤ 270000000
    → get_ics30703_data doubles freq ppm ≡ after_search (search doubles freq ppm)
unfolding get_ics30703_data
in_range doubles freq ppm low high = ground arith

-- With a solution that the search finds, `calculate_clock_bits` returns 0 and bytes that decode to it.
calculate_found :
    (doubles : Doubles) (freq ppm : ℕ) (progbytes : List ℕ) (s : Solution) (q : ℕ)
    → 15000 ≤ freq
    → freq ≤ 270000000
    → search doubles freq ppm ≡ found s
    → IsCandidate doubles freq q s
    → (bytes : List ℕ) × (calculate_clock_bits doubles freq ppm progbytes ≡ some (0, bytes))
      × (decode bytes ≡ s)
unfolding calculate_clock_bits
calculate_found doubles freq ppm progbytes s q low high e c =
    let (p, coded, reads) = encode-decode s (candidate-IsEncodable doubles freq q s c) in
    (
      take 20 p,
      ap (return_bits progbytes) (in_range doubles freq ppm low high)
          ∙ ap (λ f. return_bits progbytes (after_search f)) e
          ∙ ap (λ r. return_bits progbytes (with_progdata s r)) coded,
      decode-take p ∙ reads,
    )

-- For a frequency from 15 kHz to 270 MHz that some solution reaches with an error q that is allowed,
-- `calculate_clock_bits` returns 0 and bytes that decode to a solution with an error of at most q.
pub calculate_complete :
    (doubles : Doubles) (freq ppm q : ℕ) (progbytes : List ℕ) (t : Solution)
    → 15000 ≤ freq
    → freq ≤ 270000000
    → q ≤ ppm
    → IsCandidate doubles freq q t
    → (bytes : List ℕ) × (p : ℕ) × (calculate_clock_bits doubles freq ppm progbytes
        ≡ some (0, bytes))
      × (p ≤ q)
      × IsCandidate doubles freq p (decode bytes)
calculate_complete doubles freq ppm q progbytes t low high h c =
    let (s, p, e, lt, candidate) = search_complete doubles freq ppm q t h c in
    let (bytes, returned, reads) =
      calculate_found doubles freq ppm progbytes s p low high e candidate in
    (bytes, p, returned, lt, subst⁻¹ (IsCandidate doubles freq p) reads candidate)

-- What `calculate_clock_bits` returns: 0 and bytes that decode to a solution with an allowed error, for a
-- frequency in the range, or 1 and the bytes as they were.
abbrev pub Outcome : Doubles → ℕ → ℕ → List ℕ → Type 0
Outcome doubles freq ppm progbytes =
    ((bytes : List ℕ) × (p : ℕ) × (calculate_clock_bits doubles freq ppm progbytes
        ≡ some (0, bytes))
      × (15000 ≤ freq)
      × (freq ≤ 270000000)
      × (p ≤ ppm)
      × IsCandidate doubles freq p (decode bytes))
    ⊎ (calculate_clock_bits doubles freq ppm progbytes ≡ some (1, progbytes))

-- `calculate_clock_bits` returns, and there are two outcomes: 0 and bytes that decode to a solution that
-- passes the tests with an error of at most ppm, the frequency being from 15 kHz to 270 MHz; or 1, and the
-- bytes are as they were.
pub calculate-cases :
    (doubles : Doubles) (freq ppm : ℕ) (progbytes : List ℕ) → Outcome doubles freq ppm progbytes
unfolding calculate_clock_bits get_ics30703_data
calculate-cases doubles freq ppm progbytes =
    elim (Bool-cases (ltb freq 15000 || ltb 270000000 freq)) [
      | inl bad ↦ inr (ground arith)
      | inr good ↦ go (search doubles freq ppm) refl (ground arith) (ground arith)
    ]
  where
    go :
        (f : Found)
        → search doubles freq ppm ≡ f
        → 15000 ≤ freq
        → freq ≤ 270000000
        → Outcome doubles freq ppm progbytes
    go (found s) e low high =
        let (p, lt, candidate) = search_found doubles freq ppm s e in
        let (bytes, returned, reads) =
          calculate_found doubles freq ppm progbytes s p low high e candidate in
        inl
          (bytes, p, returned, low, high, lt, subst⁻¹ (IsCandidate doubles freq p) reads candidate)
    go exhausted e low high = inr (
        ap (return_bits progbytes) (in_range doubles freq ppm low high)
        ∙ ap (λ f. return_bits progbytes (after_search f)) e)
    go out_of_fuel e low high = absurd (search-returns doubles freq ppm e)
