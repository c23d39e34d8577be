-- ===== src/Tests/Registers.antt =====
-- The registers: src/utils.c, their access in src/port.c, and the clock.
use synccom_linux.Prelude.{
  ℕ, ◌≡◌, ◌≢◌, ◌%◌, ◌≤◌, ◌<◌, ◌^◌, ◌⊎◌, inl, refl, [], ◌∷◌, length, get_or, arith,
}
use synccom_linux.Registers.{cmdr_offset, port_offset}
use synccom_linux.Registers.Address.{port_offset_bar0, port_offset_injective}
use synccom_linux.Port.{Message}
use synccom_linux.Port.Usb.{get_register, set_register, set_registers}
use synccom_linux.Port.Usb.Wire.{parse, read_from, write_to, get_register_lem, set_register_lem}
use synccom_linux.Port.Usb.Storage.{set_registers_lem}
use synccom_linux.Port.Init.{default_registers}
use synccom_linux.Tests.{idle}

port_offset_example : (port_offset 0 0 0x14 < 2 ^ 16) × (◌≡◌ {A = ℕ} 0 0) × (◌≡◌ {A = ℕ} 0x14 0x14)
port_offset_example =
    port_offset_injective 0 0x14 0 0x14 (inl refl) (inl refl) (omega arith) (omega arith) refl

port_offset_bar0_example : port_offset 1 0 0x14 ≡ 0x8028
port_offset_bar0_example = port_offset_bar0 1 0x14 (omega arith)

get_register_example :
    ((get_register idle 0 cmdr_offset).0 ≡ 5)
    × (m : Message) × ((get_register idle 0 cmdr_offset).1.sent ≡ m ∷ [])
    × (parse m.bytes ≡ read_from (port_offset 0 0 cmdr_offset))
unfolding port_offset
get_register_example =
    get_register_lem idle 0 cmdr_offset 5 (omega arith) (omega arith) (omega arith) refl

set_register_example :
    let (ok, p') = set_register idle 0 cmdr_offset 77 in
    ((0 ≤ 2)
      × (ok ≡ 1)
      × (m : Message) × (p'.sent ≡ m ∷ [])
      × (parse m.bytes ≡ write_to (port_offset 0 0 cmdr_offset) 77))
    ⊎ ((2 < 0) × (ok ≡ 0) × (p' ≡ idle))
unfolding port_offset
set_register_example = set_register_lem idle 0 cmdr_offset 77 (omega arith) (omega arith)

set_registers_example :
    let (ok, p') = set_registers idle default_registers in
    let stored = get_or p'.register_storage 7 0 in
    (ok ≡ 1)
    × (p'.memory_cap ≡ idle.memory_cap)
    × (length p'.register_storage ≡ 24)
    × ((((◌≡◌ {A = ℕ} 7 6) ⊎ (◌≡◌ {A = ℕ} 7 19) ⊎ (2 ^ 63 ≤ 0x00112004)) × (stored ≡ 0))
        ⊎ ((◌≢◌ {A = ℕ} 7 6)
            × (◌≢◌ {A = ℕ} 7 19)
            × (0x00112004 < 2 ^ 63)
            × (stored ≡ 0x00112004 % 2 ^ 32)))
set_registers_example = set_registers_lem idle default_registers 7 refl refl (omega arith)
