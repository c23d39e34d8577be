-- ===== src/Sysfs.antt =====
-- The sysfs attributes of src/sysfs.c. What the kernel's `simple_strtoul` reads from the text of a store
-- is the argument `strtoul`, of the text and the base; an attribute is known by its name. A show is
-- modelled up to the number that it prints.
pub mod Overrun
pub mod Attributes
pub mod Answers
use synccom_linux.Prelude.{
  ℕ, ◌-◌, ◌^◌, Bool, Option, none, some, String, List, length, if◌then◌else◌, u32,
}
use synccom_linux.Registers.{str_to_register_offset}
use synccom_linux.Port.{Port, MemoryCap}
use synccom_linux.Port.Usb.{get_register, set_register}
use synccom_linux.Port.Settings.{
  set_append_status, get_append_status, set_append_timestamp, get_append_timestamp,
  set_ignore_timeout, get_ignore_timeout, set_rx_multiple, get_rx_multiple, set_tx_modifiers,
  get_tx_modifiers, set_memory_cap, get_input_memory_cap, get_output_memory_cap,
}
use synccom_linux.Port.Memory.{purge_tx, purge_rx, get_input_memory_usage, get_output_memory_usage}

-- `register_store`, for the text `buf` of `count` bytes: the count, or 0 for an unknown name.
unfoldable pub register_store : (List ℕ → ℕ → ℕ) → Port → String → List ℕ → ℕ → ℕ × Port
register_store strtoul p name buf bar =
    let value = u32 (strtoul buf 16) in
    elim (str_to_register_offset name) [
      | some offset ↦ (length buf, (set_register p bar offset value).1)
      | none ↦ (0, p)
    ]

-- `register_show`: the value that is printed, or nothing for an unknown name.
unfoldable pub register_show : Port → String → ℕ → Option ℕ × Port
register_show p name bar = elim (str_to_register_offset name) [
  | some offset ↦ (let (v, p') = get_register p bar offset in (some v, p'))
  | none ↦ (none, p)
]

-- `bar0_register_store`, `bar0_register_show`, `bar2_register_store` and `bar2_register_show`
unfoldable pub bar0_register_store : (List ℕ → ℕ → ℕ) → Port → String → List ℕ → ℕ × Port
bar0_register_store strtoul p name buf = register_store strtoul p name buf 0

unfoldable pub bar0_register_show : Port → String → Option ℕ × Port
bar0_register_show p name = register_show p name 0

unfoldable pub bar2_register_store : (List ℕ → ℕ → ℕ) → Port → String → List ℕ → ℕ × Port
bar2_register_store strtoul p name buf = register_store strtoul p name buf 2

unfoldable pub bar2_register_show : Port → String → Option ℕ × Port
bar2_register_show p name = register_show p name 2

-- The commands `purge_tx` and `purge_rx`; what is written does not matter.
unfoldable pub purge_tx_store : Port → List ℕ → ℕ × Port
purge_tx_store p buf = (length buf, (purge_tx p).1)

unfoldable pub purge_rx_store : Port → List ℕ → ℕ × Port
purge_rx_store p buf = (length buf, (purge_rx p).1)

-- The information attributes.
unfoldable pub output_memory_show : Port → ℕ
output_memory_show p = get_output_memory_usage p

unfoldable pub input_memory_show : Port → ℕ
input_memory_show p = get_input_memory_usage p

-- The settings. A store drops what the setter returns.
module _ (strtoul : List ℕ → ℕ → ℕ) (p : Port) (buf : List ℕ) where
  unfoldable pub tx_modifiers_store : ℕ × Port
  tx_modifiers_store = (length buf, (set_tx_modifiers p (u32 (strtoul buf 16))).1)

  unfoldable pub ignore_timeout_store : ℕ × Port
  ignore_timeout_store = (length buf, set_ignore_timeout p (u32 (strtoul buf 16)))

  unfoldable pub rx_multiple_store : ℕ × Port
  rx_multiple_store = (length buf, set_rx_multiple p (u32 (strtoul buf 16)))

  unfoldable pub append_status_store : ℕ × Port
  append_status_store = (length buf, (set_append_status p (u32 (strtoul buf 16))).1)

  unfoldable pub append_timestamp_store : ℕ × Port
  append_timestamp_store = (length buf, (set_append_timestamp p (u32 (strtoul buf 16))).1)

  -- `SYNCCOM_MEMORY_CAP_INIT` sets the other part to -1, which leaves it alone.
  unfoldable pub input_memory_cap_store : ℕ × Port
  input_memory_cap_store =
      (length buf, set_memory_cap p (record { input = u32 (strtoul buf 10); output = 2 ^ 32 - 1 }))

  unfoldable pub output_memory_cap_store : ℕ × Port
  output_memory_cap_store =
      (length buf, set_memory_cap p (record { input = 2 ^ 32 - 1; output = u32 (strtoul buf 10) }))

unfoldable pub tx_modifiers_show : Port → ℕ
tx_modifiers_show p = get_tx_modifiers p

unfoldable pub ignore_timeout_show : Port → ℕ
ignore_timeout_show p = get_ignore_timeout p

unfoldable pub rx_multiple_show : Port → ℕ
rx_multiple_show p = get_rx_multiple p

unfoldable pub append_status_show : Port → ℕ
append_status_show p = get_append_status p

unfoldable pub append_timestamp_show : Port → ℕ
append_timestamp_show p = get_append_timestamp p

unfoldable pub input_memory_cap_show : Port → ℕ
input_memory_cap_show p = get_input_memory_cap p

unfoldable pub output_memory_cap_show : Port → ℕ
output_memory_cap_show p = get_output_memory_cap p
