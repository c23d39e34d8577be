-- ===== src/ClockBits/Search.antt =====
-- The search of `GetICS30703Data`: the loops over the error that is allowed, the input divider r, the
-- output divider od, the VCO divider v, and the loop filter. The first solution ends it.
use synccom_linux.Prelude.{
  ℕ, zero, suc, ◌-◌, Bool, ◌&&◌, List, [], ◌∷◌, if◌then◌else◌, ltb, leb, ◌==◌,
}
use synccom_linux.ClockBits.Tables.{Solution}

-- What the code computes and compares in `double`: `pdf_in_range r` that the tests of `rule2` pass;
-- `vco_start ppm desired r od` the value of `V_Divstart` before it is brought into its range;
-- `vco_in_range r v limit` that `rule1` is from 90 MHz to the limit; `close ppm desired r od v` that the
-- frequency's error is allowed; `is_stable rs icpnum r v` that the tests of `ratio` and `df` pass.
pub record Doubles : Type 0 where
  pub pdf_in_range : ℕ → Bool
  pub vco_start : ℕ → ℕ → ℕ → ℕ → ℕ
  pub vco_in_range : ℕ → ℕ → ℕ → Bool
  pub close : ℕ → ℕ → ℕ → ℕ → ℕ → Bool
  pub is_stable : ℕ → ℕ → ℕ → ℕ → Bool

-- How a part of the search ends.
pub data Found : Type 0 where
  found : Solution → Found
  exhausted out_of_fuel : Found

-- The first part, and the second if that has found nothing.
abbrev pub or_else : Found → Found → Found
or_else (found s) next = found s
or_else exhausted next = next
or_else out_of_fuel next = out_of_fuel

abbrev pub resistors : List ℕ
resistors = 64000 ∷ 52000 ∷ 16000 ∷ 4000 ∷ []

abbrev pub currents : List ℕ
currents =
    125 ∷ 250 ∷ 375 ∷ 500 ∷ 625 ∷ 750 ∷ 875 ∷ 1000 ∷ 1125 ∷ 1250 ∷ 1500 ∷ 1750 ∷ 1875 ∷ 2000 ∷ 2250
    ∷ 2500 ∷ 2625 ∷ 3000 ∷ 3500 ∷ 4000 ∷ []

-- The largest VCO frequency with an output divider.
unfoldable pub vco_limit : ℕ → ℕ
vco_limit od =
    if od == 2
    then 540000000
    else if od == 3
    then 720000000
    else if leb 38 od && leb od 1029
    then 570000000
    else 730000000

-- The step to the next output divider.
unfoldable pub next_od : ℕ → ℕ
next_od od =
    if leb od 1030
    then od - 1
    else if leb od 2060
    then od - 2
    else if leb od 4120
    then od - 4
    else od - 8

-- `V_Divstart` in the range of the VCO divider.
unfoldable pub clamp_vco : ℕ → ℕ
clamp_vco v = if ltb v 12 then 12 else if ltb 2055 v then 2055 else v

abbrev pub max_r : ℕ
max_r = 1200

abbrev pub first_od : ℕ
first_od = 8232

module _ (doubles : Doubles) where
  open doubles use {pdf_in_range, vco_start, vco_in_range, close, is_stable}

  -- The loop over the currents j, with a resistor.
  unfoldable pub try_currents : ℕ → ℕ → ℕ → ℕ → List ℕ → Found
  try_currents r od v rs [] = exhausted
  try_currents r od v rs (icpnum ∷ icpnums) =
      if is_stable rs icpnum r v
      then found (record { ref_div = r; vco_div = v; out_div = od; rs = rs; icpnum = icpnum })
      else try_currents r od v rs icpnums

  -- The loop over the resistors i.
  unfoldable pub try_resistors : ℕ → ℕ → ℕ → List ℕ → Found
  try_resistors r od v [] = exhausted
  try_resistors r od v (rs ∷ rss) =
      or_else (try_currents r od v rs currents) (try_resistors r od v rss)

  module _ (ppm desired : ℕ) where
    -- The body of the loop over v.
    unfoldable pub try_vco : ℕ → ℕ → ℕ → Found
    try_vco r od v =
        if vco_in_range r v (vco_limit od) && close ppm desired r od v
        then try_resistors r od v resistors
        else exhausted

    -- The loop over v, for the rounds left.
    unfoldable pub try_vcos : ℕ → ℕ → ℕ → ℕ → Found
    try_vcos zero r od v = exhausted
    try_vcos (suc n) r od v = or_else (try_vco r od v) (try_vcos n r od (suc v))

    -- The loop `while (od > 1)`.
    unfoldable pub try_ods : ℕ → ℕ → ℕ → Found
    try_ods zero r od = out_of_fuel
    try_ods (suc fuel) r od =
        let rest = try_ods fuel r (next_od od) in
        let start = clamp_vco (vco_start ppm desired r od) in
        if ltb 1 od then or_else (try_vcos (2056 - start) r od start) rest else exhausted

    -- The loop over r, for the rounds left. The divider falls by at least one a round.
    unfoldable pub try_rs : ℕ → ℕ → Found
    try_rs zero r = exhausted
    try_rs (suc n) r =
        or_else (if pdf_in_range r then try_ods first_od r first_od else exhausted)
          (try_rs n (suc r))

  -- The jumps to `increaseppm`, for the values of `ppm` left.
  unfoldable pub try_ppms : ℕ → ℕ → ℕ → Found
  try_ppms desired zero ppm = exhausted
  try_ppms desired (suc n) ppm = or_else (try_rs ppm desired max_r 1) (try_ppms desired n (suc ppm))

  -- The search for a frequency, with an error of at most `requestedppm`.
  unfoldable pub search : ℕ → ℕ → Found
  search desired requestedppm = try_ppms desired (suc requestedppm) 0
