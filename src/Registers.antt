-- ===== src/Registers.antt =====
-- The registers of a port: the offsets of src/port.h, the struct of src/synccom.h, and
-- the lookups of src/utils.c. An offset is in bytes; `struct synccom_registers` holds one `__s64` for
-- each 4 bytes, so a register stands at index offset / 4.
pub mod Address
use synccom_linux.Prelude.{
  ℕ, ◌+◌, ◌-◌, ◌*◌, ◌^◌, Bool, true, false, ◌||◌, Option, none, some, String, List, [], ◌∷◌,
  if◌then◌else◌, ◌==◌, u32, bit_or, replicate,
}
use text.Mathlib.Text.{◌==◌ as str_eq}

-- port.h
abbrev pub fcr_offset : ℕ
fcr_offset = 0x40

abbrev pub fifo_offset : ℕ
fifo_offset = 0x00

abbrev pub bc_fifo_l_offset : ℕ
bc_fifo_l_offset = 0x04

abbrev pub fifot_offset : ℕ
fifot_offset = 0x08

abbrev pub fifo_bc_offset : ℕ
fifo_bc_offset = 0x0c

abbrev pub fifo_fc_offset : ℕ
fifo_fc_offset = 0x10

abbrev pub cmdr_offset : ℕ
cmdr_offset = 0x14

abbrev pub star_offset : ℕ
star_offset = 0x18

abbrev pub ccr0_offset : ℕ
ccr0_offset = 0x1c

abbrev pub ccr1_offset : ℕ
ccr1_offset = 0x20

abbrev pub ccr2_offset : ℕ
ccr2_offset = 0x24

abbrev pub bgr_offset : ℕ
bgr_offset = 0x28

abbrev pub ssr_offset : ℕ
ssr_offset = 0x2c

abbrev pub smr_offset : ℕ
smr_offset = 0x30

abbrev pub tsr_offset : ℕ
tsr_offset = 0x34

abbrev pub tmr_offset : ℕ
tmr_offset = 0x38

abbrev pub rar_offset : ℕ
rar_offset = 0x3c

abbrev pub ramr_offset : ℕ
ramr_offset = 0x40

abbrev pub ppr_offset : ℕ
ppr_offset = 0x44

abbrev pub tcr_offset : ℕ
tcr_offset = 0x48

abbrev pub vstr_offset : ℕ
vstr_offset = 0x4c

abbrev pub isr_offset : ℕ
isr_offset = 0x50

abbrev pub imr_offset : ℕ
imr_offset = 0x54

abbrev pub dpllr_offset : ℕ
dpllr_offset = 0x58

abbrev pub max_offset : ℕ
max_offset = 0x58

abbrev pub dmaccr_offset : ℕ
dmaccr_offset = 0x04

abbrev pub dma_rx_base_offset : ℕ
dma_rx_base_offset = 0x0c

abbrev pub dma_tx_base_offset : ℕ
dma_tx_base_offset = 0x10

abbrev pub dma_current_rx_base_offset : ℕ
dma_current_rx_base_offset = 0x20

abbrev pub dma_current_tx_base_offset : ℕ
dma_current_tx_base_offset = 0x24

-- The fields of `struct synccom_registers`, reserved ones included: FCR is the last, at index 23.
abbrev pub num_registers : ℕ
num_registers = 24

-- A value of the struct; a register is the 64-bit pattern of its `__s64`.
abbrev pub Registers : Type 0
Registers = List ℕ

-- `SYNCCOM_REGISTERS_INIT`: every register is -1, which `set_registers` skips.
abbrev pub registers_init : Registers
registers_init = replicate num_registers (2 ^ 64 - 1)

-- `SYNCCOM_UPDATE_VALUE`, -2: `get_registers` fills such a register in.
abbrev pub update_value : ℕ
update_value = 2 ^ 64 - 2

-- The names that `str_to_register_offset` compares with, in its order, and their offsets.
abbrev pub named_offsets : List (String × ℕ)
named_offsets =
    ("fifo", fifo_offset)
    ∷ ("bcfl", bc_fifo_l_offset)
    ∷ ("fifot", fifot_offset)
    ∷ ("fifobc", fifo_bc_offset)
    ∷ ("fifofc", fifo_fc_offset)
    ∷ ("cmdr", cmdr_offset)
    ∷ ("star", star_offset)
    ∷ ("ccr0", ccr0_offset)
    ∷ ("ccr1", ccr1_offset)
    ∷ ("ccr2", ccr2_offset)
    ∷ ("bgr", bgr_offset)
    ∷ ("ssr", ssr_offset)
    ∷ ("smr", smr_offset)
    ∷ ("tsr", tsr_offset)
    ∷ ("tmr", tmr_offset)
    ∷ ("rar", rar_offset)
    ∷ ("ramr", ramr_offset)
    ∷ ("ppr", ppr_offset)
    ∷ ("tcr", tcr_offset)
    ∷ ("vstr", vstr_offset)
    ∷ ("isr", isr_offset)
    ∷ ("imr", imr_offset)
    ∷ ("dpllr", dpllr_offset)
    ∷ ("fstel", 0x5c)
    ∷ ("fstew", 0x60)
    ∷ ("fcr", fcr_offset)
    ∷ []

-- The chain of `strcmp` tests: the first name that is equal decides.
abbrev pub first_match : String → List (String × ℕ) → Option ℕ
first_match str [] = none
first_match str ((name, offset) ∷ rest) =
    if str_eq str name then some offset else first_match str rest

-- `str_to_register_offset`; `none` is the -1 of an unknown name.
unfoldable pub str_to_register_offset : String → Option ℕ
str_to_register_offset str = first_match str named_offsets

-- `is_read_only_register`
unfoldable pub is_read_only_register : ℕ → Bool
is_read_only_register offset = offset == star_offset || offset == vstr_offset

-- `port_offset`; `channel` is that of the port.
unfoldable pub port_offset : ℕ → ℕ → ℕ → ℕ
port_offset channel bar offset =
    if bar == 0
    then bit_or (0x80 * 2 ^ 8) (u32 (offset * 2))
    else if bar == 2
    then (if offset == dmaccr_offset
        then (if channel == 0 then offset else offset + 0x04)
        else if offset == dma_rx_base_offset
            || offset == dma_tx_base_offset
            || offset == dma_current_rx_base_offset
            || offset == dma_current_tx_base_offset
        then (if channel == 0 then offset else offset + 0x08)
        else offset)
    else offset
