-- ===== src/ClockBits/Finds.antt =====
-- The loops of `GetICS30703Data` in lib/raw/calculate-clock-bits.c against the set of the solutions that
-- pass the tests, up to the loop over v: each finds one of the set that it goes through, if there is any.
use synccom_linux.Prelude.{
  ℕ, zero, suc, ◌+◌, ◌≤◌, ◌<◌, ◌≡◌, refl, ◌∙◌, Bool-cases, ==_iff, ◌⊎◌, inl, inr, Bool, true, false,
  ◌&&◌, List, [], ◌∷◌, arith, if◌then◌else◌, ◌==◌,
}
use synccom_linux.ClockBits.Tables.{Solution}
use synccom_linux.ClockBits.Search.{
  Doubles, Found, found, exhausted, out_of_fuel, or_else, resistors, currents, vco_limit,
  try_currents, try_resistors, try_vco, try_vcos,
}
use synccom_linux.ClockBits.Encode.{and_true}
use synccom_linux.ClockBits.Filter.{is_listed}

-- What a part of the search finds: a solution of the set, or nothing where the set is empty.
abbrev pub Finds : (Solution → Type 0) → Found → Type 0
Finds P (found s) = P s
Finds P exhausted = (s : Solution) → ¬ P s
Finds P out_of_fuel = ⊥

-- Two parts that share a set out find one of it.
pub Finds-or_else :
    (P Q R : Solution → Type 0) (a b : Found)
    → ((s : Solution) → P s → R s)
    → ((s : Solution) → Q s → R s)
    → ((s : Solution) → R s → P s ⊎ Q s)
    → Finds P a
    → Finds Q b
    → Finds R (or_else a b)
Finds-or_else P Q R (found s) b f g h p q = f s p
Finds-or_else P Q R exhausted (found s) f g h p q = g s q
Finds-or_else P Q R out_of_fuel b f g h p q = elim p [ ]
Finds-or_else P Q R exhausted out_of_fuel f g h p q = elim q [ ]
Finds-or_else P Q R exhausted exhausted f g h p q =
    λ s r. elim (h s r) [ inl here ↦ p s here | inr later ↦ q s later ]

pub Finds-if :
    (R : Solution → Type 0) (b : Bool) (f g : Found)
    → (b ≡ true → Finds R f)
    → (b ≡ false → Finds R g)
    → Finds R (if b then f else g)
Finds-if R true f g p q = p refl
Finds-if R false f g p q = q refl

-- Two sets with the same solutions.
pub Finds-iff :
    (P Q : Solution → Type 0) (f : Found)
    → ((s : Solution) → P s → Q s)
    → ((s : Solution) → Q s → P s)
    → Finds P f
    → Finds Q f
Finds-iff P Q (found s) g h p = g s p
Finds-iff P Q exhausted g h p = λ s q. p s (h s q)
Finds-iff P Q out_of_fuel g h p = p

module _ (doubles : Doubles) where
  open doubles use {pdf_in_range, vco_start, vco_in_range, close, is_stable}

  -- The solutions with these dividers and a stable loop filter of the lists.
  pub record InFilters (r od v : ℕ) (rss icpnums : List ℕ) (s : Solution) : Type 0 where
    pub ref_is : s.ref_div ≡ r
    pub out_is : s.out_div ≡ od
    pub vco_is : s.vco_div ≡ v
    pub rs_ok : is_listed s.rs rss ≡ true
    pub icpnum_ok : is_listed s.icpnum icpnums ≡ true
    pub stable_ok : is_stable s.rs s.icpnum s.ref_div s.vco_div ≡ true

  with_lists :
      {r od v : ℕ} {rss icpnums rss' icpnums' : List ℕ} {s : Solution}
      → InFilters r od v rss icpnums s
      → is_listed s.rs rss' ≡ true
      → is_listed s.icpnum icpnums' ≡ true
      → InFilters r od v rss' icpnums' s
  with_lists p h k = record {
    ref_is = p.ref_is;
    out_is = p.out_is;
    vco_is = p.vco_is;
    rs_ok = h;
    icpnum_ok = k;
    stable_ok = p.stable_ok;
  }

  -- A current that is not stable is not among the solutions.
  other_current :
      (r od v rs x : ℕ) (xs : List ℕ) (s : Solution)
      → is_stable rs x r v ≡ false
      → InFilters r od v (rs ∷ []) (x ∷ xs) s
      → is_listed s.icpnum xs ≡ true
  other_current r od v rs x xs s unstable p = elim (Bool-cases (s.icpnum == x)) [
    | inl same ↦
        (let rs_is : s.rs ≡ rs = ground (arith, p.rs_ok) in
          let x_is = (==_iff s.icpnum x).0 same in
          let ref_is = p.ref_is in
          let vco_is = p.vco_is in
          let stable = p.stable_ok in
          let same_filter : is_stable rs x r v ≡ is_stable s.rs s.icpnum s.ref_div s.vco_div = cc in
          ground arith)
    | inr other ↦ ground (arith, p.icpnum_ok)
  ]

  Finds-try_currents :
      (r od v rs : ℕ) (icpnums : List ℕ)
      → Finds (InFilters r od v (rs ∷ []) icpnums) (try_currents doubles r od v rs icpnums)
  unfolding try_currents
  Finds-try_currents r od v rs [] = λ s p. ground (arith, p.icpnum_ok)
  Finds-try_currents r od v rs (x ∷ xs) =
      Finds-if (InFilters r od v (rs ∷ []) (x ∷ xs)) (is_stable rs x r v) _ _
        (λ stable. record {
          ref_is = refl;
          out_is = refl;
          vco_is = refl;
          rs_ok = ground arith;
          icpnum_ok = ground arith;
          stable_ok = stable;
        })
        (λ unstable.
          Finds-iff (InFilters r od v (rs ∷ []) xs) (InFilters r od v (rs ∷ []) (x ∷ xs))
            (try_currents doubles r od v rs xs)
            (λ s p. with_lists p p.rs_ok (ground (arith, p.icpnum_ok)))
            (λ s p. with_lists p p.rs_ok (other_current r od v rs x xs s unstable p))
            (Finds-try_currents r od v rs xs))

  Finds-try_resistors :
      (r od v : ℕ) (rss : List ℕ)
      → Finds (InFilters r od v rss currents) (try_resistors doubles r od v rss)
  unfolding try_resistors
  Finds-try_resistors r od v [] = λ s p. ground (arith, p.rs_ok)
  Finds-try_resistors r od v (rs ∷ rss) =
      Finds-or_else (InFilters r od v (rs ∷ []) currents) (InFilters r od v rss currents)
        (InFilters r od v (rs ∷ rss) currents) (try_currents doubles r od v rs currents)
        (try_resistors doubles r od v rss)
        (λ s p. with_lists p (ground (arith, p.rs_ok)) p.icpnum_ok)
        (λ s p. with_lists p (ground (arith, p.rs_ok)) p.icpnum_ok)
        (λ s p. elim (Bool-cases (s.rs == rs)) [
          | inl here ↦ inl (with_lists p (ground arith) p.icpnum_ok)
          | inr later ↦ inr (with_lists p (ground (arith, p.rs_ok)) p.icpnum_ok)
        ])
        (Finds-try_currents r od v rs currents) (Finds-try_resistors r od v rss)

  module _ (ppm desired : ℕ) where
    -- The tests of a round of the loop over v, and of the loops in it.
    pub record PassesTests (s : Solution) : Type 0 where
      pub vco_ok : vco_in_range s.ref_div s.vco_div (vco_limit s.out_div) ≡ true
      pub close_ok : close ppm desired s.ref_div s.out_div s.vco_div ≡ true
      pub rs_ok : is_listed s.rs resistors ≡ true
      pub icpnum_ok : is_listed s.icpnum currents ≡ true
      pub stable_ok : is_stable s.rs s.icpnum s.ref_div s.vco_div ≡ true

    pub record InVcos (r od v n : ℕ) (s : Solution) : Type 0 where
      pub ref_is : s.ref_div ≡ r
      pub out_is : s.out_div ≡ od
      pub vco_from : v ≤ s.vco_div
      pub vco_below : s.vco_div < v + n
      pub tests : PassesTests s

    in_vcos :
        {r od v n v' n' : ℕ} {s : Solution}
        → InVcos r od v n s
        → v' ≤ s.vco_div
        → s.vco_div < v' + n'
        → InVcos r od v' n' s
    in_vcos p from below = record {
      ref_is = p.ref_is;
      out_is = p.out_is;
      vco_from = from;
      vco_below = below;
      tests = p.tests;
    }

    same_tests :
        (r od v : ℕ) (s : Solution)
        → s.ref_div ≡ r
        → s.out_div ≡ od
        → s.vco_div ≡ v
        → (vco_in_range s.ref_div s.vco_div (vco_limit s.out_div)
            && close ppm desired s.ref_div s.out_div s.vco_div)
          ≡ (vco_in_range r v (vco_limit od) && close ppm desired r od v)
    same_tests r od v s ref_is out_is vco_is = cc

    Finds-try_vco : (r od v : ℕ) → Finds (InVcos r od v 1) (try_vco doubles ppm desired r od v)
    unfolding try_vco
    Finds-try_vco r od v =
        Finds-if (InVcos r od v 1) (vco_in_range r v (vco_limit od) && close ppm desired r od v) _ _
          (λ ok.
            Finds-iff (InFilters r od v resistors currents) (InVcos r od v 1)
              (try_resistors doubles r od v resistors)
              (λ s p.
                let same = same_tests r od v s p.ref_is p.out_is p.vco_is ∙ ok in
                let (vco_ok, close_ok) = and_true _ _ same in
                record {
                  ref_is = p.ref_is;
                  out_is = p.out_is;
                  vco_from = omega (arith, p.vco_is);
                  vco_below = omega (arith, p.vco_is);
                  tests = record {
                    vco_ok = vco_ok;
                    close_ok = close_ok;
                    rs_ok = p.rs_ok;
                    icpnum_ok = p.icpnum_ok;
                    stable_ok = p.stable_ok;
                  };
                })
              (λ s p. record {
                ref_is = p.ref_is;
                out_is = p.out_is;
                vco_is = omega (arith, p.vco_from, p.vco_below);
                rs_ok = p.tests.rs_ok;
                icpnum_ok = p.tests.icpnum_ok;
                stable_ok = p.tests.stable_ok;
              })
              (Finds-try_resistors r od v resistors))
          (λ bad s p.
            let vco_is : s.vco_div ≡ v = omega (arith, p.vco_from, p.vco_below) in
            let same = same_tests r od v s p.ref_is p.out_is vco_is ∙ bad in
            let vco_ok = p.tests.vco_ok in let close_ok = p.tests.close_ok in ground arith)

    pub Finds-try_vcos :
        (n r od v : ℕ) → Finds (InVcos r od v n) (try_vcos doubles ppm desired n r od v)
    unfolding try_vcos
    Finds-try_vcos zero r od v = λ s p. omega (arith, p.vco_from, p.vco_below)
    Finds-try_vcos (suc n) r od v =
        Finds-or_else (InVcos r od v 1) (InVcos r od (suc v) n) (InVcos r od v (suc n))
          (try_vco doubles ppm desired r od v) (try_vcos doubles ppm desired n r od (suc v))
          (λ s p. in_vcos p p.vco_from (omega (arith, p.vco_below)))
          (λ s p. in_vcos p (omega (arith, p.vco_from)) (omega (arith, p.vco_below)))
          (λ s p. elim (Bool-cases (s.vco_div == v)) [
            | inl here ↦ inl (in_vcos p p.vco_from (ground arith))
            | inr later ↦ inr (in_vcos p (ground (arith, p.vco_from)) (omega (arith, p.vco_below)))
          ])
          (Finds-try_vco r od v) (Finds-try_vcos n r od (suc v))
