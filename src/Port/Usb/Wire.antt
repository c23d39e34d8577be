-- ===== src/Port/Usb/Wire.antt =====
-- What the register commands of src/port.c look like on the wire.
use synccom_linux.Prelude.{
  ℕ, ◌+◌, ◌*◌, ◌/◌, ◌%◌, ◌^◌, ◌≤◌, ◌<◌, ◌≡◌, ap, ◌⊎◌, inl, inr, if◌then◌else◌, ◌==◌, ◌∙◌, List, [],
  ◌∷◌, ◌++◌, arith, u32, bit_and, bit_or,
}
use synccom_linux.Prelude.Bits.{
  bit_and-ones, bit_and-field, bit_or-above, bit_or-below, bit_or-amid,
}
use mathlib.Core.Path.{ap₂}
use native.Mathlib.Decide.{dec_le}
use synccom_linux.Registers.{port_offset}
use synccom_linux.Port.{Port, Message, bulk_out}
use synccom_linux.Port.Usb.{
  register_endpoint, pointer_size, shr, byte_at, store_register, word_bytes, swap_word,
  read_command, write_command, get_register, set_register,
}

-- The number that four bytes stand for, the lowest first, as an x86 load reads them.
abbrev pub load_le : List ℕ → ℕ
load_le [] = 0
load_le (b ∷ bs) = b + load_le bs * 256

-- The same with the highest first: the order of the wire.
abbrev pub load_be_from : ℕ → List ℕ → ℕ
load_be_from acc [] = acc
load_be_from acc (b ∷ bs) = load_be_from (acc * 256 + b) bs

abbrev pub load_be : List ℕ → ℕ
load_be = load_be_from 0

byte_at-eq : (x k : ℕ) → byte_at x k ≡ shr x k % 256
byte_at-eq x k = bit_and-ones 8 (shr x k)

-- Four bytes that are put side by side, in the order of `swap_word`.
four_fields :
    (a b c d : ℕ)
    → a < 256
    → b < 256
    → c < 256
    → bit_or (bit_or (bit_or a (b * 2 ^ 16)) (c * 2 ^ 8)) (d * 2 ^ 24)
      ≡ d * 2 ^ 24 + b * 2 ^ 16 + c * 2 ^ 8 + a
four_fields a b c d ha hb hc =
    let first : bit_or a (b * 2 ^ 16) ≡ b * 2 ^ 8 * 2 ^ 8 + a =
      omega (arith, bit_or-above 16 a b (omega arith)) in
    let second : bit_or (b * 2 ^ 8 * 2 ^ 8 + a) (c * 2 ^ 8) ≡ b * 2 ^ 16 + c * 2 ^ 8 + a =
      omega
        (arith, bit_or-amid 8 (b * 2 ^ 8) a c (omega arith), bit_or-below 8 b c (omega arith)) in
    ap (λ t. bit_or (bit_or t (c * 2 ^ 8)) (d * 2 ^ 24)) first
    ∙ ap (λ t. bit_or t (d * 2 ^ 24)) second
    ∙ bit_or-above 24 (b * 2 ^ 16 + c * 2 ^ 8 + a) d (omega arith)
    ∙ omega arith

-- The swap exchanges the first byte with the last, and the second with the third.
pub swap_word-sum :
    (v : ℕ)
    → v < 2 ^ 32
    → swap_word v
      ≡ v % 256 * 2 ^ 24 + v / 2 ^ 8 % 256 * 2 ^ 16 + v / 2 ^ 16 % 256 * 2 ^ 8 + v / 2 ^ 24
unfolding swap_word
swap_word-sum v h = rw (
  a_field,
  b_field,
  c_field,
  d_field,
  four_fields (v / 2 ^ 24) (v / 2 ^ 8 % 256) (v / 2 ^ 16 % 256) (v % 256) (omega arith)
      (omega arith) (omega arith),
)
  where
    a_field : bit_and (v / 2 ^ 24) 0xff ≡ v / 2 ^ 24
    a_field = omega (arith, bit_and-ones 8 (v / 2 ^ 24))

    b_field : bit_and (u32 (v * 2 ^ 8)) 0xff0000 ≡ v / 2 ^ 8 % 256 * 2 ^ 16
    b_field = omega (arith, bit_and-field 16 8 (u32 (v * 2 ^ 8)))

    c_field : bit_and (v / 2 ^ 8) 0xff00 ≡ v / 2 ^ 16 % 256 * 2 ^ 8
    c_field = omega (arith, bit_and-field 8 8 (v / 2 ^ 8))

    d_field : bit_and (u32 (v * 2 ^ 24)) 0xff000000 ≡ v % 256 * 2 ^ 24
    d_field = omega (arith, bit_and-field 24 8 (u32 (v * 2 ^ 24)))

-- The commands that port.h lists for the firmware: 0x6A with a two-byte address and a four-byte value,
-- and 0x6B with an address, the highest byte first.
pub data Command : Type 0 where
  read_from : ℕ → Command
  write_to : ℕ → ℕ → Command
  unknown : Command

unfoldable pub parse : List ℕ → Command
parse (op ∷ a1 ∷ a0 ∷ []) = if op == 0x6b then read_from (load_be (a1 ∷ a0 ∷ [])) else unknown
parse (op ∷ a1 ∷ a0 ∷ v3 ∷ v2 ∷ v1 ∷ v0 ∷ []) =
    if op == 0x6a
    then write_to (load_be (a1 ∷ a0 ∷ [])) (load_be (v3 ∷ v2 ∷ v1 ∷ v0 ∷ []))
    else unknown
parse _ = unknown

-- A firmware that follows the list of commands reads from the bytes of a register command, for an
-- address of sixteen bits and a value of 32, the address and the value that the driver meant.
pub parse-command :
    (offset value : ℕ)
    → offset < 2 ^ 16
    → value < 2 ^ 32
    → (parse (read_command offset) ≡ read_from offset)
      × (parse (write_command offset value) ≡ write_to offset value)
unfolding parse
parse-command offset value h k = (
  ap read_from (omega (arith, bit_and-ones 8 (shr offset 8), bit_and-ones 8 offset)),
  ap₂ write_to (omega (arith, bit_and-ones 8 (shr offset 8), bit_and-ones 8 offset)) (
      omega (
        arith,
        bit_and-ones 8 (shr value 24),
        bit_and-ones 8 (shr value 16),
        bit_and-ones 8 (shr value 8),
        bit_and-ones 8 value,
      )),
)

-- An answer whose bytes are those of a word, the highest first, loaded as a little-endian processor
-- does, comes back as that word.
pub swap_word-word_bytes : (v : ℕ) → v < 2 ^ 32 → swap_word (load_le (word_bytes v)) ≡ v
swap_word-word_bytes v h = omega (
  arith,
  swap_word-sum (load_le (word_bytes v)),
  bit_and-ones 8 (shr v 24),
  bit_and-ones 8 (shr v 16),
  bit_and-ones 8 (shr v 8),
  bit_and-ones 8 v,
)

-- The port after a read command for a register.
abbrev pub after_read : Port → ℕ → ℕ → Port
after_read p bar register_offset =
    bulk_out p register_endpoint (read_command (port_offset p.channel bar register_offset))
      pointer_size

pub get_register-eq :
    (p : Port) (bar register_offset : ℕ)
    → bar ≤ 2
    → let p' = after_read p bar register_offset in
      get_register p bar register_offset ≡ (swap_word (u32 (p'.device p'.sent)), p')
unfolding get_register
get_register-eq p bar register_offset h = ground arith

load_le-word_bytes-lt : (v : ℕ) → load_le (word_bytes v) < 2 ^ 32
load_le-word_bytes-lt v = omega (
  arith,
  bit_and-ones 8 (shr v 24),
  bit_and-ones 8 (shr v 16),
  bit_and-ones 8 (shr v 8),
  bit_and-ones 8 v,
)

-- For a bar of at most 2, a register whose bus address fits sixteen bits, and a device that answers its
-- read command with the bytes of a word below 2 ^ 32, the highest first: `get_register` returns the
-- word, and has sent one message, which the firmware reads as a read of that address.
pub get_register_lem :
    (p : Port) (bar register_offset v : ℕ)
    → bar ≤ 2
    → v < 2 ^ 32
    → port_offset p.channel bar register_offset < 2 ^ 16
    → p.device (after_read p bar register_offset).sent ≡ load_le (word_bytes v)
    → ((get_register p bar register_offset).0 ≡ v)
      × (m : Message) × ((get_register p bar register_offset).1.sent ≡ p.sent ++ (m ∷ []))
      × (parse m.bytes ≡ read_from (port_offset p.channel bar register_offset))
get_register_lem p bar register_offset v hb hv ho answer = (
  ap (λ t. t.0) (get_register-eq p bar register_offset hb)
      ∙ ap swap_word (ap u32 answer ∙ omega (arith, load_le-word_bytes-lt v))
      ∙ swap_word-word_bytes v hv,
  record {
    endpoint = register_endpoint;
    bytes = read_command (port_offset p.channel bar register_offset);
    size = pointer_size;
  },
  ap (λ t. t.1.sent) (get_register-eq p bar register_offset hb),
  (parse-command (port_offset p.channel bar register_offset) 0 ho (omega arith)).0,
)

sent-store_register : (p : Port) (i value : ℕ) → (store_register p i value).sent ≡ p.sent
unfolding store_register
sent-store_register p i value = ground arith

set_register-sent :
    (p : Port) (bar register_offset value : ℕ)
    → bar ≤ 2
    → ((set_register p bar register_offset value).0 ≡ 1)
      × ((set_register p bar register_offset value).1.sent
          ≡ (bulk_out p register_endpoint
              (write_command (port_offset p.channel bar register_offset) value)
              pointer_size).sent)
unfolding set_register
set_register-sent p bar register_offset value h =
    let p' =
      bulk_out p register_endpoint (write_command (port_offset p.channel bar register_offset) value)
        pointer_size in
    ground
      (arith, sent-store_register p' (register_offset / 4) value, sent-store_register p' 23 value)

set_register-refused :
    (p : Port) (bar register_offset value : ℕ)
    → 2 < bar
    → set_register p bar register_offset value ≡ (0, p)
unfolding set_register
set_register-refused p bar register_offset value h = ground arith

-- A write command, for a bar of at most 2, a register whose bus address fits sixteen bits, and a value of
-- 32 bits: the result is 1 and one message has been sent, which the firmware reads as a write of the
-- value to that address. For any other bar the result is 0 and the port is unchanged.
pub set_register_lem :
    (p : Port) (bar register_offset value : ℕ)
    → value < 2 ^ 32
    → port_offset p.channel bar register_offset < 2 ^ 16
    → let (ok, p') = set_register p bar register_offset value in
      ((bar ≤ 2)
        × (ok ≡ 1)
        × (m : Message) × (p'.sent ≡ p.sent ++ (m ∷ []))
        × (parse m.bytes ≡ write_to (port_offset p.channel bar register_offset) value))
      ⊎ ((2 < bar) × (ok ≡ 0) × (p' ≡ p))
set_register_lem p bar register_offset value hv ho = elim (dec_le bar 2) [
  | yes h ↦ inl (
    h,
    (set_register-sent p bar register_offset value h).0,
    record {
      endpoint = register_endpoint;
      bytes = write_command (port_offset p.channel bar register_offset) value;
      size = pointer_size;
    },
    (set_register-sent p bar register_offset value h).1,
    (parse-command (port_offset p.channel bar register_offset) value ho hv).1,
  )
  | no h ↦ inr (
    omega arith,
    ap (λ t. t.0) (set_register-refused p bar register_offset value (omega arith)),
    ap (λ t. t.1) (set_register-refused p bar register_offset value (omega arith)),
  )
]
