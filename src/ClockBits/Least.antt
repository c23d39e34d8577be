-- ===== src/ClockBits/Least.antt =====
-- The search of `GetICS30703Data` in lib/raw/calculate-clock-bits.c as a whole: it ends, and finds a
-- solution that passes the tests with the least error, if there is any.
use synccom_linux.Prelude.{
  ℕ, zero, suc, ◌+◌, ◌≤◌, ◌<◌, ◌≡◌, ◌≢◌, refl, sym, ap, ◌∙◌, Bool-cases, ==_iff, inl, inr, true,
  arith, if◌then◌else◌, ltb, ◌==◌,
}
use mathlib.Core.Path.{subst}
use synccom_linux.ClockBits.Tables.{Solution}
use synccom_linux.ClockBits.Search.{
  Doubles, Found, found, exhausted, out_of_fuel, or_else, clamp_vco, max_r, first_od, try_ods,
  try_rs, try_ppms, search,
}
use synccom_linux.ClockBits.Split.{is_out_divider}
use synccom_linux.ClockBits.Finds.{Finds, Finds-or_else, Finds-if, Finds-iff, PassesTests}
use synccom_linux.ClockBits.Sound.{InOds, Finds-try_ods}

module _ (doubles : Doubles) where
  open doubles use {pdf_in_range, vco_start}

  module _ (ppm desired : ℕ) where
    -- The solutions that pass the tests, with an input divider from r on.
    pub record InRs (r n : ℕ) (s : Solution) : Type 0 where
      pub ref_from : r ≤ s.ref_div
      pub ref_below : s.ref_div < r + n
      pub pdf_ok : pdf_in_range s.ref_div ≡ true
      pub out_ok : is_out_divider s.out_div ≡ true
      pub vco_from : clamp_vco (vco_start ppm desired s.ref_div s.out_div) ≤ s.vco_div
      pub vco_to : s.vco_div ≤ 2055
      pub tests : PassesTests doubles ppm desired s

    in_rs :
        {r n r' n' : ℕ} {s : Solution}
        → InRs r n s
        → r' ≤ s.ref_div
        → s.ref_div < r' + n'
        → InRs r' n' s
    in_rs p h k = record {
      ref_from = h;
      ref_below = k;
      pdf_ok = p.pdf_ok;
      out_ok = p.out_ok;
      vco_from = p.vco_from;
      vco_to = p.vco_to;
      tests = p.tests;
    }

    Finds-round :
        (r : ℕ)
        → Finds
            (InRs r 1)
            (if pdf_in_range r then try_ods doubles ppm desired first_od r first_od else exhausted)
    Finds-round r =
        Finds-if (InRs r 1) (pdf_in_range r) _ _
          (λ ok.
            Finds-iff (InOds doubles ppm desired r first_od) (InRs r 1)
              (try_ods doubles ppm desired first_od r first_od)
              (λ s p. record {
                ref_from = omega (arith, p.ref_is);
                ref_below = omega (arith, p.ref_is);
                pdf_ok = ap pdf_in_range p.ref_is ∙ ok;
                out_ok = p.out_ok;
                vco_from = p.vco_from;
                vco_to = p.vco_to;
                tests = p.tests;
              })
              (λ s p. record {
                ref_is = omega (arith, p.ref_from, p.ref_below);
                out_ok = p.out_ok;
                out_to = ground (arith, p.out_ok);
                vco_from = p.vco_from;
                vco_to = p.vco_to;
                tests = p.tests;
              })
              (Finds-try_ods doubles ppm desired first_od r first_od (omega arith) (omega arith)
                refl))
          (λ bad s p.
            let ref_is : s.ref_div ≡ r = omega (arith, p.ref_from, p.ref_below) in
            let same = sym (ap pdf_in_range ref_is) ∙ p.pdf_ok in ground arith)

    Finds-try_rs : (n r : ℕ) → Finds (InRs r n) (try_rs doubles ppm desired n r)
    unfolding try_rs
    Finds-try_rs zero r = λ s p. omega (arith, p.ref_from, p.ref_below)
    Finds-try_rs (suc n) r =
        Finds-or_else (InRs r 1) (InRs (suc r) n) (InRs r (suc n))
          (if pdf_in_range r then try_ods doubles ppm desired first_od r first_od else exhausted)
          (try_rs doubles ppm desired n (suc r))
          (λ s p. in_rs p p.ref_from (omega (arith, p.ref_below)))
          (λ s p. in_rs p (omega (arith, p.ref_from)) (omega (arith, p.ref_below)))
          (λ s p. elim (Bool-cases (s.ref_div == r)) [
            | inl here ↦ inl (in_rs p p.ref_from (ground arith))
            | inr later ↦ inr (in_rs p (ground (arith, p.ref_from)) (omega (arith, p.ref_below)))
          ])
          (Finds-round r) (Finds-try_rs n (suc r))

  -- A solution that passes the tests for a frequency, with an error of ppm millionths allowed.
  abbrev pub IsCandidate : ℕ → ℕ → Solution → Type 0
  IsCandidate desired ppm s = InRs ppm desired 1 max_r s

  -- What the search finds from an error on: a candidate, and none with a lesser error.
  abbrev pub FindsLeast : ℕ → ℕ → ℕ → Found → Type 0
  FindsLeast desired n ppm (found s) =
      (p : ℕ) × (ppm ≤ p)
      × (p < ppm + n)
      × IsCandidate desired p s
      × ((q : ℕ) → ppm ≤ q → q < p → (t : Solution) → ¬ IsCandidate desired q t)
  FindsLeast desired n ppm exhausted =
      (q : ℕ) → ppm ≤ q → q < ppm + n → (t : Solution) → ¬ IsCandidate desired q t
  FindsLeast desired n ppm out_of_fuel = ⊥

  FindsLeast-or_else :
      (desired n ppm : ℕ) (a b : Found)
      → Finds (IsCandidate desired ppm) a
      → FindsLeast desired n (suc ppm) b
      → FindsLeast desired (suc n) ppm (or_else a b)
  FindsLeast-or_else desired n ppm (found s) b h k =
      (ppm, omega arith, omega arith, h, λ q le lt t c. omega arith)
  FindsLeast-or_else desired n ppm out_of_fuel b h k = elim h [ ]
  FindsLeast-or_else desired n ppm exhausted out_of_fuel h k = elim k [ ]
  FindsLeast-or_else desired n ppm exhausted exhausted h k = λ q le lt t c.
      elim (Bool-cases (q == ppm)) [
        | inl same ↦ h t (subst (λ e. IsCandidate desired e t) ((==_iff q ppm).0 same) c)
        | inr later ↦ k q (ground arith) (omega arith) t c
      ]
  FindsLeast-or_else desired n ppm exhausted (found s) h k =
      let (p, from, below, candidate, least) = k in
      (
        p,
        omega arith,
        omega arith,
        candidate,
        λ q le lt t c. elim (Bool-cases (q == ppm)) [
          | inl same ↦ h t (subst (λ e. IsCandidate desired e t) ((==_iff q ppm).0 same) c)
          | inr later ↦ least q (ground arith) lt t c
        ],
      )

  FindsLeast-try_ppms :
      (desired n ppm : ℕ) → FindsLeast desired n ppm (try_ppms doubles desired n ppm)
  unfolding try_ppms
  FindsLeast-try_ppms desired zero ppm = λ q le lt t c. omega arith
  FindsLeast-try_ppms desired (suc n) ppm =
      FindsLeast-or_else desired n ppm (try_rs doubles ppm desired max_r 1)
        (try_ppms doubles desired n (suc ppm)) (Finds-try_rs ppm desired max_r 1)
        (FindsLeast-try_ppms desired n (suc ppm))

FindsLeast-search :
    (doubles : Doubles) (desired requestedppm : ℕ)
    → FindsLeast doubles desired (suc requestedppm) 0 (search doubles desired requestedppm)
unfolding search
FindsLeast-search doubles desired requestedppm =
    FindsLeast-try_ppms doubles desired (suc requestedppm) 0

-- The search ends: it never runs out of the fuel of the loop over the output dividers, whatever the tests
-- of the doubles say.
pub search-returns :
    (doubles : Doubles) (desired requestedppm : ℕ)
    → search doubles desired requestedppm ≢ out_of_fuel
search-returns doubles desired requestedppm e =
    subst (FindsLeast doubles desired (suc requestedppm) 0) e
      (FindsLeast-search doubles desired requestedppm)

-- A solution that the search finds passes the tests with an error that is allowed.
pub search_found :
    (doubles : Doubles) (desired requestedppm : ℕ) (s : Solution)
    → search doubles desired requestedppm ≡ found s
    → (p : ℕ) × (p ≤ requestedppm) × IsCandidate doubles desired p s
search_found doubles desired requestedppm s e =
    let (p, from, below, candidate, least) =
      subst (FindsLeast doubles desired (suc requestedppm) 0) e
        (FindsLeast-search doubles desired requestedppm) in
    (p, omega arith, candidate)

-- Where some solution passes the tests with an error q that is allowed, the search finds a solution, and
-- what it finds passes the tests with an error of at most q.
pub search_complete :
    (doubles : Doubles) (desired requestedppm q : ℕ) (t : Solution)
    → q ≤ requestedppm
    → IsCandidate doubles desired q t
    → (s : Solution) × (p : ℕ) × (search doubles desired requestedppm ≡ found s)
      × (p ≤ q)
      × IsCandidate doubles desired p s
search_complete doubles desired requestedppm q t h c =
    go (search doubles desired requestedppm) refl (FindsLeast-search doubles desired requestedppm)
  where
    go :
        (f : Found)
        → search doubles desired requestedppm ≡ f
        → FindsLeast doubles desired (suc requestedppm) 0 f
        → (s : Solution) × (p : ℕ) × (search doubles desired requestedppm ≡ found s)
          × (p ≤ q)
          × IsCandidate doubles desired p s
    go (found s) e (p, from, below, candidate, least) = elim (Bool-cases (ltb q p)) [
      | inl lesser ↦ absurd (least q (omega arith) (ground arith) t c)
      | inr other ↦ (s, p, e, ground arith, candidate)
    ]
    go exhausted e k = absurd (k q (omega arith) (omega arith) t c)
    go out_of_fuel e k = elim k [ ]
