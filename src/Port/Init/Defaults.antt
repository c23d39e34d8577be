-- ===== src/Port/Init/Defaults.antt =====
-- What a port has been set to when `initialize` of src/port.c is done.
use synccom_linux.Prelude.{ℕ, ◌%◌, ◌^◌, ◌≤◌, ◌<◌, ◌≡◌, ◌≢◌, ◌⊎◌, refl, get_or}
use synccom_linux.Registers.{num_registers}
use synccom_linux.Port.{Port}
use synccom_linux.Port.Usb.Storage.{set_registers_lem}
use synccom_linux.Port.Settings.{
  set_append_status, set_ignore_timeout, xf, set_tx_modifiers, set_rx_multiple,
}
use synccom_linux.Port.Init.{default_memory_cap, default_registers, default_settings}

-- With the default settings, the memory caps are the default ones, and each register of the storage
-- is as it was set before `set_registers` if it is STAR or VSTR or its default is negative, and else the low
-- 32 bits of its default.
pub default_settings_lem :
    (p : Port) (j : ℕ)
    → j < num_registers
    → let p' = default_settings p in
      let default = get_or default_registers j 0 in
      let stored = get_or p'.register_storage j 0 in
      (p'.memory_cap ≡ default_memory_cap)
      × ((((j ≡ 6) ⊎ (j ≡ 19) ⊎ (2 ^ 63 ≤ default)) × (stored ≡ default))
          ⊎ ((j ≢ 6) × (j ≢ 19) × (default < 2 ^ 63) × (stored ≡ default % 2 ^ 32)))
unfolding default_settings set_append_status set_ignore_timeout set_tx_modifiers set_rx_multiple
default_settings_lem p j h =
    let start = record p {
      register_storage = default_registers;
      memory_cap = default_memory_cap;
      append_status = 0;
      ignore_timeout = 0;
      rx_multiple = 0;
      tx_modifiers = xf;
    } in
    let (_, caps, _, stored) = set_registers_lem start default_registers j refl refl h in
    (caps, stored)
