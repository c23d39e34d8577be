-- ===== src/Port/Settings/Modes.antt =====
-- What the settings of src/port.c mean: the streaming test by the register fields, the modifiers that are
-- accepted, and what a getter returns after a setter.
use synccom_linux.Prelude.{
  ℕ, ◌*◌, ◌/◌, ◌%◌, ◌^◌, ◌≤◌, ◌<◌, ◌≡◌, ◌≢◌, ◌⊎◌, ◌↔◌, true, false, not, ◌&&◌, ◌||◌, arith,
  if◌then◌else◌, ◌==◌, nonneg32,
}
use synccom_linux.Prelude.Bits.{bit_and-ones, bit_and-field}
use synccom_linux.Port.{Port, MemoryCap, done, fail, eopnotsupp, einval}
use synccom_linux.Port.Settings.{
  truth, flag, ccr0, ccr2, is_streaming_mode, is_streaming, set_append_status, get_append_status,
  set_tx_modifiers, get_tx_modifiers, set_memory_cap, get_input_memory_cap, get_output_memory_cap,
}

is_streaming_mode-fields :
    (c0 c2 : ℕ)
    → is_streaming_mode c0 c2
      ≡ ((c0 % 4 == 2) || (c0 % 4 == 1))
        && not (
            truth (c2 / 2 ^ 16 % 2 ^ 16 * 2 ^ 16)
            || truth (c0 / 2 ^ 8 % 8 * 2 ^ 8)
            || truth (c0 / 2 ^ 16 % 8 * 2 ^ 16 / 2 ^ 16))
unfolding is_streaming_mode
is_streaming_mode-fields c0 c2 =
    rw (bit_and-ones 2 c0, bit_and-field 16 16 c2, bit_and-field 8 3 c0, bit_and-field 16 3 c0)

-- A port streams exactly when the mode field of CCR0 (bits 0 and 1) is 1 or 2, the fields of the frame
-- sync and of the number of termination bytes (bits 8 to 10 and 16 to 18 of CCR0) are 0, and the
-- receive length in the upper half of CCR2 is 0.
pub is_streaming_iff :
    (p : Port)
    → (is_streaming p ≡ true) ↔ (
        ((ccr0 p % 4 ≡ 1) ⊎ (ccr0 p % 4 ≡ 2))
        × (ccr0 p / 2 ^ 8 % 8 ≡ 0)
        × (ccr0 p / 2 ^ 16 % 8 ≡ 0)
        × (ccr2 p / 2 ^ 16 % 2 ^ 16 ≡ 0))
unfolding is_streaming
is_streaming_iff p = rw (is_streaming_mode-fields (ccr0 p) (ccr2 p)) (ground arith)

-- `set_append_status` refuses to switch the status on while the port streams, and leaves it as it was;
-- else the getter returns 1 or 0 afterwards as the value is true or not, and streaming or not is as it
-- was.
pub set_append_status_lem :
    (p : Port) (value : ℕ)
    → let (r, p') = set_append_status p value in
      (is_streaming p' ≡ is_streaming p)
      × (((value ≢ 0) × (is_streaming p ≡ true) × (r ≡ fail eopnotsupp) × (p' ≡ p))
          ⊎ (((value ≡ 0) ⊎ (is_streaming p ≡ false))
              × (r ≡ done 1)
              × (get_append_status p' ≡ flag (truth value))))
unfolding set_append_status get_append_status is_streaming
set_append_status_lem p value = ground arith

-- Exactly the values up to 4 are accepted as transmit modifiers, and then returned by the getter; any
-- other is an error that leaves the port unchanged.
pub set_tx_modifiers_lem :
    (p : Port) (value : ℕ)
    → let (r, p') = set_tx_modifiers p value in
      ((value ≤ 4) × (r ≡ done 1) × (get_tx_modifiers p' ≡ value))
      ⊎ ((4 < value) × (r ≡ fail einval) × (p' ≡ p))
unfolding set_tx_modifiers get_tx_modifiers
set_tx_modifiers_lem p value = ground arith

-- The memory caps of a port are not negative.
abbrev pub HasCaps : Port → Type 0
HasCaps p = (p.memory_cap.input < 2 ^ 31) × (p.memory_cap.output < 2 ^ 31)

-- `set_memory_cap` sets each part that is not negative, leaves the other parts, and keeps both caps of a
-- port from being negative.
pub set_memory_cap_lem :
    (p : Port) (value : MemoryCap)
    → HasCaps p
    → let p' = set_memory_cap p value in
      HasCaps p'
      × (get_input_memory_cap p'
          ≡ (if nonneg32 value.input then value.input else get_input_memory_cap p))
      × (get_output_memory_cap p'
          ≡ (if nonneg32 value.output then value.output else get_output_memory_cap p))
unfolding set_memory_cap get_input_memory_cap get_output_memory_cap
set_memory_cap_lem p value h = ground arith
