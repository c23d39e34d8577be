-- ===== src/Port/Usb.antt =====
-- Register access over USB, src/port.c: a command is written to endpoint 1, and for a read the answer is
-- fetched from there. The mutex around a command is not modelled. A message's size is `sizeof(msg)`, the
-- size of a pointer: 8 bytes on the 64-bit systems that the model is about. The bytes of a message
-- are taken as granted, and the transfer as sent: the code uses the first without a test, and drops the
-- result of the second.
pub mod Wire
pub mod Storage
use synccom_linux.Prelude.{
  ℕ, zero, suc, ◌+◌, ◌*◌, ◌/◌, ◌%◌, ◌^◌, min, Bool, true, false, not, ◌||◌, ◌&&◌, List, [], ◌∷◌,
  if◌then◌else◌, ltb, leb, ◌==◌, u32, nonneg64, bit_and, bit_or, set, get_or, length,
}
use synccom_linux.Registers.{
  Registers, num_registers, update_value, is_read_only_register, port_offset, max_offset,
  fcr_offset, cmdr_offset, star_offset, vstr_offset, fifo_bc_offset,
}
use synccom_linux.Port.{Port, bulk_out}

abbrev pub register_endpoint : ℕ
register_endpoint = 1

abbrev pub pointer_size : ℕ
pointer_size = 8

-- `x >> k`, and one byte of it.
abbrev pub shr : ℕ → ℕ → ℕ
shr x k = x / 2 ^ k

abbrev pub byte_at : ℕ → ℕ → ℕ
byte_at x k = bit_and (shr x k) 0xff

-- The four bytes of a word, the highest first, as they are put into a message.
abbrev pub word_bytes : ℕ → List ℕ
word_bytes v = byte_at v 24 ∷ byte_at v 16 ∷ byte_at v 8 ∷ bit_and v 0xff ∷ []

-- The swap of the four bytes of an answer, as it is written in `get_register` and `get_nonvolatile`.
unfoldable pub swap_word : ℕ → ℕ
swap_word v =
    bit_or
      (bit_or (bit_or (bit_and (shr v 24) 0xff) (bit_and (u32 (v * 2 ^ 8)) 0xff0000))
        (bit_and (shr v 8) 0xff00))
      (bit_and (u32 (v * 2 ^ 24)) 0xff000000)

-- The command bytes 0x6b and 0x6a with a register's address.
abbrev pub read_command : ℕ → List ℕ
read_command offset = 0x6b ∷ byte_at offset 8 ∷ bit_and offset 0xff ∷ []

abbrev pub write_command : ℕ → ℕ → List ℕ
write_command offset value = 0x6a ∷ byte_at offset 8 ∷ bit_and offset 0xff ∷ word_bytes value

-- `synccom_port_get_register`
unfoldable pub get_register : Port → ℕ → ℕ → ℕ × Port
get_register p bar register_offset =
    if leb bar 2
    then (let offset = port_offset p.channel bar register_offset in
        let p' = bulk_out p register_endpoint (read_command offset) pointer_size in
        (swap_word (u32 (p'.device p'.sent)), p'))
    else (0, p)

-- `((synccom_register *)&port->register_storage)[i] = value`. The struct has 24 registers of 8 bytes,
-- and `memory_cap`, two `int`s, follows it in `struct synccom_port`: the write at index 24 lands
-- there, low half first. No caller has a higher index.
unfoldable pub store_register : Port → ℕ → ℕ → Port
store_register p i value =
    if ltb i num_registers
    then record p { register_storage = set p.register_storage i value }
    else if i == num_registers
    then record p { memory_cap = record { input = u32 value; output = u32 (shr value 32) } }
    else p

-- `synccom_port_set_register`
unfoldable pub set_register : Port → ℕ → ℕ → ℕ → ℕ × Port
set_register p bar register_offset value =
    if leb bar 2
    then (let offset = port_offset p.channel bar register_offset in
        let p' = bulk_out p register_endpoint (write_command offset value) pointer_size in
        (
          1,
          (if bar == 0
              then store_register p' (register_offset / 4) value
              else if register_offset == fcr_offset
              then store_register p' 23 value
              else p'),
        ))
    else (0, p)

-- `synccom_port_execute_TRES` and `synccom_port_execute_RRES`
unfoldable pub execute_tres : Port → ℕ × Port
execute_tres p = set_register p 0 cmdr_offset 0x08000000

unfoldable pub execute_rres : Port → ℕ × Port
execute_rres p = set_register p 0 cmdr_offset 0x00020000

-- A register that `set_registers` skips: read only, or negative in the struct.
unfoldable pub is_skipped : ℕ → ℕ → Bool
is_skipped i r = is_read_only_register (i * 4) || not (nonneg64 r)

-- One round of the loop of `set_registers`, at index i; the `__s64` is cut to the `__u32` argument.
unfoldable pub set_one : Port → ℕ → ℕ → Port
set_one p i r =
    if is_skipped i r
    then p
    else if leb (i * 4) max_offset
    then (set_register p 0 (i * 4) (u32 r)).1
    else (set_register p 2 fcr_offset (u32 r)).1

-- `synccom_port_set_registers`: the loop from index i on. `set_register` never returns -ETIMEDOUT, so
-- `stalled` stays 0 and the result is 1.
set_registers_from : Port → ℕ → Registers → Port
set_registers_from p i [] = p
set_registers_from p i (r ∷ regs) = set_registers_from (set_one p i r) (suc i) regs

unfoldable pub set_registers : Port → Registers → ℕ × Port
unfolding set_registers_from
set_registers p regs = (1, set_registers_from p 0 regs)

-- `synccom_port_get_registers`: the loop from index i on. Only a register that is -2 is read.
get_registers_from : Port → ℕ → Registers → Registers × Port
get_registers_from p i [] = ([], p)
get_registers_from p i (r ∷ regs) =
    let (v, p') =
      (if r == update_value
        then (if leb (i * 4) max_offset
            then get_register p 0 (i * 4)
            else get_register p 2 fcr_offset)
        else (r, p)) in
    let (vs, p'') = get_registers_from p' (suc i) regs in (v ∷ vs, p'')

unfoldable pub get_registers : Port → Registers → Registers × Port
unfolding get_registers_from
get_registers p regs = get_registers_from p 0 regs

-- `synccom_port_get_TXCNT`
unfoldable pub get_txcnt : Port → ℕ × Port
get_txcnt p = let (v, p') = get_register p 0 fifo_bc_offset in (shr (bit_and v 0x1fff0000) 16, p')

-- `synccom_port_get_RXCNT`
unfoldable pub get_rxcnt : Port → ℕ × Port
get_rxcnt p = let (v, p') = get_register p 0 fifo_bc_offset in (min (bit_and v 0x00003fff) 8192, p')

-- `synccom_port_get_FREV`, `_PREV`, `_PDEV` and `_CE`
unfoldable pub get_frev : Port → ℕ × Port
get_frev p = let (v, p') = get_register p 0 vstr_offset in (bit_and v 0x000000ff, p')

unfoldable pub get_prev : Port → ℕ × Port
get_prev p = let (v, p') = get_register p 0 vstr_offset in (shr (bit_and v 0x0000ff00) 8, p')

unfoldable pub get_pdev : Port → ℕ × Port
get_pdev p = let (v, p') = get_register p 0 vstr_offset in (shr (bit_and v 0xffff0000) 16, p')

unfoldable pub get_ce : Port → ℕ × Port
get_ce p = let (v, p') = get_register p 0 star_offset in (shr (bit_and v 0x00040000) 18, p')

-- `synccom_port_timed_out`: as many polls as `tries` allows; 1 if the command is still executing then.
timed_out_within : ℕ → Port → ℕ × Port
timed_out_within zero p = (1, p)
timed_out_within (suc tries) p =
    let (v, p') = get_register p 0 star_offset in
    let rest = timed_out_within tries p' in if bit_and v 0x00040000 == 0 then (0, p') else rest

unfoldable pub timed_out : Port → ℕ × Port
unfolding timed_out_within
timed_out p = timed_out_within 50 p

-- `synccom_port_can_support_nonvolatile`
unfoldable pub can_support_nonvolatile : Port → Bool
can_support_nonvolatile p = leb 0x110 p.fx2_rev

-- `synccom_port_get_nonvolatile`
unfoldable pub get_nonvolatile : Port → ℕ × Port
get_nonvolatile p =
    let p' = bulk_out p register_endpoint (0x6f ∷ []) pointer_size in
    (swap_word (u32 (p'.device p'.sent)), p')

-- `synccom_port_set_nonvolatile`
unfoldable pub set_nonvolatile : Port → ℕ → ℕ × Port
set_nonvolatile p value = (1, bulk_out p register_endpoint (0x6e ∷ word_bytes value) pointer_size)

-- A `char` as it stands in 32-bit arithmetic. Kernels before 6.2 have it signed on x86.
abbrev pub char_value : Bool → ℕ → ℕ
char_value signed c = if signed && leb 0x80 c then c + 0xffffff00 else c

-- `synccom_port_get_fx2`: the first two bytes of the answer.
unfoldable pub get_fx2 : Bool → Port → ℕ × Port
get_fx2 signed p =
    let p' = bulk_out p register_endpoint (0x02 ∷ []) 1 in
    let answer = p'.device p'.sent in
    let high = char_value signed (bit_and answer 0xff) in
    let low = char_value signed (byte_at answer 8) in (bit_or (u32 (high * 2 ^ 8)) low, p')
