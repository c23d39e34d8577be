-- ===== src/ClockBits/Sound.antt =====
-- The search of `GetICS30703Data` in lib/raw/calculate-clock-bits.c: the loops over the dividers and the
-- error that is allowed, against the set of the solutions that pass the tests.
use synccom_linux.Prelude.{
  ℕ, zero, suc, ◌-◌, ◌≤◌, ◌<◌, ◌≡◌, ap, ◌∙◌, Bool-cases, ==_iff, inl, inr, true, ◌||◌, arith, ltb,
  leb, ◌==◌,
}
use synccom_linux.ClockBits.Tables.{Solution}
use synccom_linux.ClockBits.Search.{Doubles, next_od, clamp_vco, try_vcos, try_ods}
use synccom_linux.ClockBits.Split.{is_out_divider}
use synccom_linux.ClockBits.Finds.{
  Finds, Finds-or_else, Finds-if, PassesTests, InVcos, Finds-try_vcos,
}

-- A divider of the search and the next one: there is none between.
next_od_lem :
    (od : ℕ)
    → is_out_divider od ≡ true
    → (next_od od < od)
      × (0 < next_od od)
      × (leb (next_od od) 1 || is_out_divider (next_od od) ≡ true)
unfolding next_od
next_od_lem od h = ground arith

next_od_least :
    (od x : ℕ) → is_out_divider od ≡ true → is_out_divider x ≡ true → x < od → x ≤ next_od od
unfolding next_od
next_od_least od x h k lt = ground arith

pub clamp_vco_lem : (v : ℕ) → (12 ≤ clamp_vco v) × (clamp_vco v ≤ 2055)
unfolding clamp_vco
clamp_vco_lem v = ground arith

module _ (doubles : Doubles) where
  open doubles use {pdf_in_range, vco_start}

  module _ (ppm desired : ℕ) where
    -- The solutions with an input divider, and an output divider up to od.
    pub record InOds (r od : ℕ) (s : Solution) : Type 0 where
      pub ref_is : s.ref_div ≡ r
      pub out_ok : is_out_divider s.out_div ≡ true
      pub out_to : s.out_div ≤ od
      pub vco_from : clamp_vco (vco_start ppm desired s.ref_div s.out_div) ≤ s.vco_div
      pub vco_to : s.vco_div ≤ 2055
      pub tests : PassesTests doubles ppm desired s

    -- The solutions with an output divider, from the divider v that the loop over v starts at.
    vcos_ods :
        (r od : ℕ) (s : Solution)
        → is_out_divider od ≡ true
        → InVcos doubles ppm desired r od
            (clamp_vco (vco_start ppm desired r od))
            (2056 - clamp_vco (vco_start ppm desired r od))
            s
        → InOds r od s
    vcos_ods r od s h p =
        let start = clamp_vco_lem (vco_start ppm desired r od) in
        let ref_is = p.ref_is in
        let out_is = p.out_is in
        let same : clamp_vco (vco_start ppm desired s.ref_div s.out_div)
            ≡ clamp_vco (vco_start ppm desired r od) =
          cc in
        record {
          ref_is = p.ref_is;
          out_ok = ap is_out_divider p.out_is ∙ h;
          out_to = omega (arith, p.out_is);
          vco_from = omega (arith, p.vco_from);
          vco_to = omega (arith, p.vco_below);
          tests = p.tests;
        }

    ods_vcos :
        (r od : ℕ) (s : Solution)
        → s.out_div ≡ od
        → InOds r od s
        → InVcos doubles ppm desired r od
            (clamp_vco (vco_start ppm desired r od))
            (2056 - clamp_vco (vco_start ppm desired r od))
            s
    ods_vcos r od s out_is p =
        let start = clamp_vco_lem (vco_start ppm desired r od) in
        let ref_is = p.ref_is in
        let same : clamp_vco (vco_start ppm desired s.ref_div s.out_div)
            ≡ clamp_vco (vco_start ppm desired r od) =
          cc in
        record {
          ref_is = p.ref_is;
          out_is = out_is;
          vco_from = omega (arith, p.vco_from);
          vco_below = omega (arith, p.vco_to);
          tests = p.tests;
        }

    ods_to : {r od od' : ℕ} {s : Solution} → InOds r od s → s.out_div ≤ od' → InOds r od' s
    ods_to p h = record {
      ref_is = p.ref_is;
      out_ok = p.out_ok;
      out_to = h;
      vco_from = p.vco_from;
      vco_to = p.vco_to;
      tests = p.tests;
    }

    -- Each divider with the larger ones tried already, for the fuel that it needs.
    pub Finds-try_ods :
        (fuel r od : ℕ)
        → 0 < od
        → od ≤ fuel
        → (leb od 1 || is_out_divider od) ≡ true
        → Finds (InOds r od) (try_ods doubles ppm desired fuel r od)
    unfolding try_ods
    Finds-try_ods zero r od h k ok = absurd (omega arith)
    Finds-try_ods (suc fuel) r od h k ok =
        Finds-if (InOds r od) (ltb 1 od) _ _
          (λ more.
            let ok_od : is_out_divider od ≡ true = ground arith in
            let (falls, next_pos, next_ok) = next_od_lem od ok_od in
            let start = clamp_vco (vco_start ppm desired r od) in
            Finds-or_else (InVcos doubles ppm desired r od start (2056 - start))
              (InOds r (next_od od)) (InOds r od)
              (try_vcos doubles ppm desired (2056 - start) r od start)
              (try_ods doubles ppm desired fuel r (next_od od)) (λ s p. vcos_ods r od s ok_od p)
              (λ s p. ods_to p (omega (arith, p.out_to)))
              (λ s p. elim (Bool-cases (s.out_div == od)) [
                | inl here ↦ inl (ods_vcos r od s ((==_iff s.out_div od).0 here) p)
                | inr later ↦ inr (
                    ods_to p (next_od_least od s.out_div ok_od p.out_ok (ground (arith, p.out_to))))
              ])
              (Finds-try_vcos doubles ppm desired (2056 - start) r od start)
              (Finds-try_ods fuel r (next_od od) next_pos (omega arith) next_ok))
          (λ last s p. ground (arith, p.out_ok, p.out_to))
