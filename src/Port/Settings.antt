-- ===== src/Port/Settings.antt =====
-- The settings of a port, src/port.c: append status and timestamp, ignore timeout, receive multiple,
-- transmit modifiers, memory cap, and the test for transparent streaming. The debug prints that tell a
-- changed setting from an unchanged one are left out.
pub mod Modes
use synccom_linux.Prelude.{
  ℕ, ◌*◌, ◌/◌, ◌^◌, Bool, true, false, not, ◌||◌, ◌&&◌, if◌then◌else◌, ◌==◌, bit_and, bit_or,
  nonneg32, get_or,
}
use synccom_linux.Port.{Port, MemoryCap, Ret, done, fail, eopnotsupp, einval}

-- `enum transmit_modifiers`
abbrev pub xf : ℕ
xf = 0

abbrev pub xrep : ℕ
xrep = 1

abbrev pub txt : ℕ
txt = 2

abbrev pub txext : ℕ
txext = 4

-- C's truth of a number, and a truth as a number.
abbrev pub truth : ℕ → Bool
truth v = not (v == 0)

abbrev pub flag : Bool → ℕ
flag b = if b then 1 else 0

-- The registers CCR0 and CCR2 of the storage.
abbrev pub ccr0 : Port → ℕ
ccr0 p = get_or p.register_storage 7 0

abbrev pub ccr2 : Port → ℕ
ccr2 p = get_or p.register_storage 9 0

-- `synccom_port_is_streaming`, from the values of the two registers.
unfoldable pub is_streaming_mode : ℕ → ℕ → Bool
is_streaming_mode ccr0 ccr2 =
    let transparent_mode = bit_and ccr0 0x3 == 0x2 in
    let xsync_mode = bit_and ccr0 0x3 == 0x1 in
    let rlc_mode = truth (bit_and ccr2 0xffff0000) in
    let fsc_mode = truth (bit_and ccr0 0x700) in
    let ntb = bit_and ccr0 0x70000 / 2 ^ 16 in
    (transparent_mode || xsync_mode) && not (rlc_mode || fsc_mode || truth ntb)

unfoldable pub is_streaming : Port → Bool
is_streaming p = is_streaming_mode (ccr0 p) (ccr2 p)

-- `synccom_port_set_append_status` and `synccom_port_get_append_status`
unfoldable pub set_append_status : Port → ℕ → Ret × Port
set_append_status p value =
    if truth value && is_streaming p
    then (fail eopnotsupp, p)
    else (done 1, record p { append_status = flag (truth value) })

unfoldable pub get_append_status : Port → ℕ
get_append_status p = flag (not (is_streaming p) && truth p.append_status)

-- `synccom_port_set_append_timestamp` is not implemented; it always refuses.
unfoldable pub set_append_timestamp : Port → ℕ → Ret × Port
set_append_timestamp p value = (fail eopnotsupp, p)

unfoldable pub get_append_timestamp : Port → ℕ
get_append_timestamp p = flag (not (is_streaming p) && truth p.append_timestamp)

-- `synccom_port_set_ignore_timeout` and `synccom_port_get_ignore_timeout`
unfoldable pub set_ignore_timeout : Port → ℕ → Port
set_ignore_timeout p value = record p { ignore_timeout = flag (truth value) }

unfoldable pub get_ignore_timeout : Port → ℕ
get_ignore_timeout p = p.ignore_timeout

-- `synccom_port_set_rx_multiple` and `synccom_port_get_rx_multiple`
unfoldable pub set_rx_multiple : Port → ℕ → Port
set_rx_multiple p value = record p { rx_multiple = flag (truth value) }

unfoldable pub get_rx_multiple : Port → ℕ
get_rx_multiple p = p.rx_multiple

-- `synccom_port_set_tx_modifiers` and `synccom_port_get_tx_modifiers`
unfoldable pub set_tx_modifiers : Port → ℕ → Ret × Port
set_tx_modifiers p value =
    if value == xf
      || value == bit_or xf txt
      || value == bit_or xf txext
      || value == xrep
      || value == bit_or xrep txt
    then (done 1, record p { tx_modifiers = value })
    else (fail einval, p)

unfoldable pub get_tx_modifiers : Port → ℕ
get_tx_modifiers p = p.tx_modifiers

-- `synccom_port_set_memory_cap`: a part that is negative is left as it was.
unfoldable pub set_memory_cap : Port → MemoryCap → Port
set_memory_cap p value =
    let p' =
      (if nonneg32 value.input
        then record p { memory_cap = record p.memory_cap { input = value.input } }
        else p) in
    if nonneg32 value.output
    then record p' { memory_cap = record p'.memory_cap { output = value.output } }
    else p'

-- `synccom_port_get_input_memory_cap` and `synccom_port_get_output_memory_cap`
unfoldable pub get_input_memory_cap : Port → ℕ
get_input_memory_cap p = p.memory_cap.input

unfoldable pub get_output_memory_cap : Port → ℕ
get_output_memory_cap p = p.memory_cap.output
