-- ===== src/Port/Clock/Received.antt =====
-- What a clock generator on the three pins makes of the words of `synccom_port_set_clock_bits`, src/port.c.
use synccom_linux.Prelude.{
  ℕ, zero, suc, ◌+◌, ◌*◌, ◌^◌, ◌≤◌, ◌<◌, ◌≡◌, refl, ap, ◌∙◌, Bool-cases, inl, inr, Bool, true,
  false, ◌&&◌, List, [], ◌∷◌, ◌++◌, arith, if◌then◌else◌, ltb, ◌==◌, bit_and, bit_or, get_or, take,
  take-all, length, append-nil, u32,
}
use synccom_linux.Prelude.Bits.{digit, digit-le, digit-bit_and, digit-bit_or, bit_and-ones}
use synccom_linux.Port.Usb.{shr}
use synccom_linux.Port.Clock.{
  clock_bytes, complement, pin, strb_base, dta_base, clk_base, byte_bits, clock_bits_from,
  bit_words, clock_words,
}

-- The data pin d at each word whose clock pin c is low, behind one with the clock pin high.
abbrev pub sampled : ℕ → ℕ → ℕ → List ℕ → List ℕ
sampled c d clock [] = []
sampled c d clock (w ∷ ws) =
    if clock == 1 && digit w c == 0
    then digit w d ∷ sampled c d (digit w c) ws
    else sampled c d (digit w c) ws

-- Bytes, high bit first, each in front of the ones before.
abbrev pub collect : List ℕ → List ℕ → List ℕ
collect (b7 ∷ b6 ∷ b5 ∷ b4 ∷ b3 ∷ b2 ∷ b1 ∷ b0 ∷ bits) bytes =
    collect bits ((b7 * 128 + b6 * 64 + b5 * 32 + b4 * 16 + b3 * 8 + b2 * 4 + b1 * 2 + b0) ∷ bytes)
collect bits bytes = bytes

abbrev are_bits : List ℕ → Bool
are_bits [] = true
are_bits (b ∷ bits) = ltb b 2 && are_bits bits

-- How the pins of a channel lie in a word.
record HasPins (c d dta clk : ℕ) : Type 0 where
  dta_data : digit dta d ≡ 1
  not_dta_data : digit (complement dta) d ≡ 0
  clk_clock : digit clk c ≡ 1
  clk_data : digit clk d ≡ 0
  not_clk_clock : digit (complement clk) c ≡ 0
  not_clk_data : digit (complement clk) d ≡ 1

sampled_pair :
    (c d high low b : ℕ) (ws : List ℕ)
    → digit high c ≡ 1
    → digit low c ≡ 0
    → digit low d ≡ b
    → sampled c d 0 (high ∷ low ∷ ws) ≡ b ∷ sampled c d 0 ws
sampled_pair c d high low b ws e f g = rw (e, f, g) refl

sampled-bit_words :
    (c d base dta clk : ℕ) (bits ws : List ℕ)
    → HasPins c d dta clk
    → are_bits bits ≡ true
    → sampled c d 0 (bit_words base dta clk bits ++ ws) ≡ bits ++ sampled c d 0 ws
unfolding bit_words
sampled-bit_words c d base dta clk [] ws pins h = refl
sampled-bit_words c d base dta clk (b ∷ bits) ws pins h =
    let with_data = (if b == 0 then bit_and base (complement dta) else bit_or base dta) in
    let high = bit_or with_data clk in
    let low = bit_and high (complement clk) in
    let data_set : digit with_data d ≡ b = elim (Bool-cases (b == 0)) [
      | inl zero_bit ↦ ground (arith, digit-bit_and d base (complement dta), pins.not_dta_data)
      | inr one_bit ↦ ground (arith, digit-bit_or d base dta, pins.dta_data, digit-le base d)
    ] in
    let clock_high : digit high c ≡ 1 =
      omega (arith, digit-bit_or c with_data clk, pins.clk_clock, digit-le with_data c) in
    let clock_low : digit low c ≡ 0 =
      omega (arith, digit-bit_and c high (complement clk), pins.not_clk_clock) in
    let data_low : digit low d ≡ b = omega (
      arith,
      digit-bit_and d high (complement clk),
      digit-bit_or d with_data clk,
      pins.clk_data,
      pins.not_clk_data,
      digit-le with_data d,
      data_set,
    ) in
    sampled_pair c d high low b (bit_words base dta clk bits ++ ws) clock_high clock_low data_low
    ∙ ap (λ bs. b ∷ bs) (sampled-bit_words c d base dta clk bits ws pins (ground arith))

are_bits-append :
    (bits more : List ℕ)
    → are_bits bits ≡ true
    → are_bits more ≡ true
    → are_bits (bits ++ more) ≡ true
are_bits-append [] more h k = k
are_bits-append (b ∷ bits) more h k = ground (arith, are_bits-append bits more (ground arith) k)

are_bits-byte_bits : (byte j : ℕ) → are_bits (byte_bits byte j) ≡ true
unfolding byte_bits
are_bits-byte_bits byte zero = refl
are_bits-byte_bits byte (suc j) =
    ground (arith, bit_and-ones 1 (shr byte j), are_bits-byte_bits byte j)

are_bits-clock_bits_from :
    (clock_data : List ℕ) (i : ℕ) → are_bits (clock_bits_from clock_data i) ≡ true
unfolding clock_bits_from
are_bits-clock_bits_from clock_data zero = refl
are_bits-clock_bits_from clock_data (suc i) =
    are_bits-append (byte_bits (get_or clock_data i 0) 8) (clock_bits_from clock_data i)
      (are_bits-byte_bits (get_or clock_data i 0) 8) (are_bits-clock_bits_from clock_data i)

-- The pins of a channel, by the number of their bit.
abbrev pub clock_pin : ℕ → ℕ
clock_pin channel = if channel == 1 then 9 else 1

abbrev pub data_pin : ℕ → ℕ
data_pin channel = if channel == 1 then 8 else 0

pins_lem :
    (b : Bool)
    → HasPins
        (if b then 9 else 1)
        (if b then 8 else 0)
        (if b then u32 (dta_base * 2 ^ 8) else dta_base)
        (if b then u32 (clk_base * 2 ^ 8) else clk_base)
pins_lem true = record {
  dta_data = refl;
  not_dta_data = refl;
  clk_clock = refl;
  clk_data = refl;
  not_clk_clock = refl;
  not_clk_data = refl;
}
pins_lem false = record {
  dta_data = refl;
  not_dta_data = refl;
  clk_clock = refl;
  clk_data = refl;
  not_clk_clock = refl;
  not_clk_data = refl;
}

mask_lem : (b : Bool) → digit 0xfffff0f0 (if b then 9 else 1) ≡ 0
mask_lem true = refl
mask_lem false = refl

sampled_ends :
    (c d first strobe orig : ℕ) (bits words : List ℕ)
    → digit first c ≡ 0
    → digit strobe c ≡ 0
    → ((ws : List ℕ) → sampled c d 0 (words ++ ws) ≡ bits ++ sampled c d 0 ws)
    → sampled c d 0 (first ∷ (words ++ (strobe ∷ orig ∷ []))) ≡ bits ++ []
sampled_ends c d first strobe orig bits words e f h = rw e (h (strobe ∷ orig ∷ []) ∙ rw f refl)

sampled-clock_words :
    (channel orig : ℕ) (clock_data : List ℕ)
    → sampled (clock_pin channel) (data_pin channel) 0 (clock_words channel orig clock_data)
      ≡ clock_bits_from clock_data clock_bytes
unfolding clock_words
sampled-clock_words channel orig clock_data =
    let base = bit_and orig 0xfffff0f0 in
    let c = clock_pin channel in
    let clk = pin channel clk_base in
    let strobed = bit_or base (pin channel strb_base) in
    let bits = clock_bits_from clock_data clock_bytes in
    let pins = pins_lem (channel == 1) in
    sampled_ends c (data_pin channel) base (bit_and strobed (complement clk)) orig bits
      (bit_words base (pin channel dta_base) clk bits)
      (omega (arith, digit-bit_and c orig 0xfffff0f0, mask_lem (channel == 1)))
      (omega (arith, digit-bit_and c strobed (complement clk), pins.not_clk_clock))
      (λ ws.
        sampled-bit_words c (data_pin channel) base (pin channel dta_base) clk bits ws pins
          (are_bits-clock_bits_from clock_data clock_bytes))
    ∙ append-nil bits

byte_value :
    (b : ℕ) (bits bytes : List ℕ)
    → b < 256
    → collect (byte_bits b 8 ++ bits) bytes ≡ collect bits (b ∷ bytes)
unfolding byte_bits
byte_value b bits bytes h =
    ap (λ v. collect bits (v ∷ bytes))
      (omega (
        arith,
        bit_and-ones 1 (shr b 0),
        bit_and-ones 1 (shr b 1),
        bit_and-ones 1 (shr b 2),
        bit_and-ones 1 (shr b 3),
        bit_and-ones 1 (shr b 4),
        bit_and-ones 1 (shr b 5),
        bit_and-ones 1 (shr b 6),
        bit_and-ones 1 (shr b 7),
      ))

-- Each of the list is a byte.
abbrev pub are_bytes : List ℕ → Bool
are_bytes [] = true
are_bytes (b ∷ bytes) = ltb b 256 && are_bytes bytes

pub get_or-byte : (bytes : List ℕ) (i : ℕ) → are_bytes bytes ≡ true → get_or bytes i 0 < 256
get_or-byte [] i h = omega arith
get_or-byte (b ∷ bytes) zero h = ground arith
get_or-byte (b ∷ bytes) (suc i) h = get_or-byte bytes i (ground arith)

take_step :
    (xs ys : List ℕ) (i : ℕ)
    → i < length xs
    → take i xs ++ (get_or xs i 0 ∷ ys) ≡ take (suc i) xs ++ ys
take_step [] ys i h = absurd (omega arith)
take_step (x ∷ xs) ys zero h = refl
take_step (x ∷ xs) ys (suc i) h = ap (λ t. x ∷ t) (take_step xs ys i (omega arith))

collect-clock_bits_from :
    (clock_data bytes : List ℕ) (i : ℕ)
    → i ≤ length clock_data
    → are_bytes clock_data ≡ true
    → collect (clock_bits_from clock_data i) bytes ≡ take i clock_data ++ bytes
unfolding clock_bits_from
collect-clock_bits_from clock_data bytes zero h k = refl
collect-clock_bits_from clock_data bytes (suc i) h k =
    byte_value (get_or clock_data i 0) (clock_bits_from clock_data i) bytes
      (get_or-byte clock_data i k)
    ∙ collect-clock_bits_from clock_data (get_or clock_data i 0 ∷ bytes) i (omega arith) k
    ∙ take_step clock_data bytes i (omega arith)

-- For twenty bytes, on either channel and whatever FCR is: a device that takes the data pin at each falling
-- edge of the clock pin between the words, and puts the bits together to bytes, has the bytes at the end.
pub collect-clock_words :
    (channel orig : ℕ) (clock_data : List ℕ)
    → length clock_data ≡ 20
    → are_bytes clock_data ≡ true
    → collect
        (sampled (clock_pin channel) (data_pin channel) 0 (clock_words channel orig clock_data))
        []
      ≡ clock_data
collect-clock_words channel orig clock_data n h =
    ap (λ bits. collect bits []) (sampled-clock_words channel orig clock_data)
    ∙ collect-clock_bits_from clock_data [] clock_bytes (omega arith) h
    ∙ append-nil (take 20 clock_data)
    ∙ take-all 20 clock_data (omega arith)
