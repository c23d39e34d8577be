-- ===== src/Port/Clock.antt =====
-- The programming of the clock generator, `synccom_port_set_clock_bits` of src/port.c: the twenty bytes
-- are shifted out bit by bit over three pins of the register FCR, data, clock and strobe.
pub mod Words
pub mod Received
pub mod Sent
use synccom_linux.Prelude.{
  ℕ, zero, suc, ◌-◌, ◌*◌, ◌/◌, ◌%◌, ◌^◌, Bool, List, [], ◌∷◌, ◌++◌, if◌then◌else◌, ◌==◌, bit_and,
  bit_or, get_or, set, u32,
}
use synccom_linux.Registers.{fcr_offset}
use synccom_linux.Port.{Port, bulk_out}
use synccom_linux.Port.Usb.{get_register, register_endpoint, shr}

-- `~x` on 32 bits.
abbrev pub complement : ℕ → ℕ
complement x = 2 ^ 32 - 1 - x

abbrev pub clock_bytes : ℕ
clock_bytes = 20

-- The pins of a channel: `value` of channel 0, and eight bits higher on channel 1.
abbrev pub pin : ℕ → ℕ → ℕ
pin channel value = if channel == 1 then u32 (value * 2 ^ 8) else value

abbrev pub strb_base : ℕ
strb_base = 0x00000008

abbrev pub dta_base : ℕ
dta_base = 0x00000001

abbrev pub clk_base : ℕ
clk_base = 0x00000002

-- The bits j - 1 to 0 of a byte, in the order of the inner loop.
unfoldable pub byte_bits : ℕ → ℕ → List ℕ
byte_bits byte zero = []
byte_bits byte (suc j) = bit_and (shr byte j) 1 ∷ byte_bits byte j

-- The bits of the bytes i - 1 to 0, in the order of both loops.
unfoldable pub clock_bits_from : List ℕ → ℕ → List ℕ
clock_bits_from clock_data zero = []
clock_bits_from clock_data (suc i) =
    byte_bits (get_or clock_data i 0) 8 ++ clock_bits_from clock_data i

-- The two words of each bit: the data pin set up with the clock pin high, then with it low.
unfoldable pub bit_words : ℕ → ℕ → ℕ → List ℕ → List ℕ
bit_words base dta clk [] = []
bit_words base dta clk (b ∷ bits) =
    let with_data = (if b == 0 then bit_and base (complement dta) else bit_or base dta) in
    let high = bit_or with_data clk in
    high ∷ bit_and high (complement clk) ∷ bit_words base dta clk bits

-- The array `data` when the loops are done, of the value of FCR before.
unfoldable pub clock_words : ℕ → ℕ → List ℕ → List ℕ
clock_words channel orig clock_data =
    let base = bit_and orig 0xfffff0f0 in
    let clk = pin channel clk_base in
    base
    ∷ (bit_words base (pin channel dta_base) clk (clock_bits_from clock_data clock_bytes)
        ++ (bit_and (bit_or base (pin channel strb_base)) (complement clk) ∷ orig ∷ []))

-- `synccom_port_set_clock`, for the four bytes of one word. Its address bytes are written out; the
-- register that it is called with does not reach the message. Its seven bytes are taken as granted, and the
-- transfer as sent: the code tests neither.
unfoldable pub set_clock : Port → ℕ → Port
set_clock p word =
    bulk_out p register_endpoint
      (0x6a
        ∷ 0x00
        ∷ 0x40
        ∷ shr word 24 % 256
        ∷ shr word 16 % 256
        ∷ shr word 8 % 256
        ∷ word % 256
        ∷ [])
      7

-- The loop that sends the words.
unfoldable pub send_words : Port → List ℕ → Port
send_words p [] = p
send_words p (w ∷ ws) = send_words (set_clock p w) ws

-- `synccom_port_set_clock_bits`; `granted` is for the array of 323 words, which is filled whole.
unfoldable pub set_clock_bits : Port → List ℕ → Bool → Port
set_clock_bits p clock_data granted =
    if granted
    then (let (orig, p') = get_register p 2 fcr_offset in
        send_words p'
          (clock_words p.channel orig (set clock_data 15 (bit_or (get_or clock_data 15 0) 0x04))))
    else p
