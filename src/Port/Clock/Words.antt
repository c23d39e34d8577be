-- ===== src/Port/Clock/Words.antt =====
-- The words that `synccom_port_set_clock_bits` of src/port.c shifts out, against the array that it
-- allocates for them.
use synccom_linux.Prelude.{
  ℕ, zero, suc, ◌*◌, ◌≡◌, refl, List, [], ◌∷◌, arith, length, length-append, bit_and, bit_or,
  get_or,
}
use synccom_linux.Port.Clock.{
  clock_bytes, complement, pin, strb_base, dta_base, clk_base, byte_bits, clock_bits_from,
  bit_words, clock_words,
}

-- The array has 323 words.
abbrev pub array_size : ℕ
array_size = 323

length-byte_bits : (byte j : ℕ) → length (byte_bits byte j) ≡ j
unfolding byte_bits
length-byte_bits byte zero = refl
length-byte_bits byte (suc j) = omega (arith, length-byte_bits byte j)

length-clock_bits_from :
    (clock_data : List ℕ) (i : ℕ) → length (clock_bits_from clock_data i) ≡ 8 * i
unfolding clock_bits_from
length-clock_bits_from clock_data zero = refl
length-clock_bits_from clock_data (suc i) = omega (
  arith,
  length-append (byte_bits (get_or clock_data i 0) 8) (clock_bits_from clock_data i),
  length-byte_bits (get_or clock_data i 0) 8,
  length-clock_bits_from clock_data i,
)

length-bit_words :
    (base dta clk : ℕ) (bits : List ℕ) → length (bit_words base dta clk bits) ≡ 2 * length bits
unfolding bit_words
length-bit_words base dta clk [] = refl
length-bit_words base dta clk (b ∷ bits) = omega (arith, length-bit_words base dta clk bits)

-- However the clock bits and FCR are, the loops fill the array exactly.
pub length-clock_words :
    (channel orig : ℕ) (clock_data : List ℕ)
    → length (clock_words channel orig clock_data) ≡ array_size
unfolding clock_words
length-clock_words channel orig clock_data =
    let base = bit_and orig 0xfffff0f0 in
    let clk = pin channel clk_base in
    let bits = clock_bits_from clock_data clock_bytes in
    let words = bit_words base (pin channel dta_base) clk bits in
    omega (
      arith,
      length-append words
          (bit_and (bit_or base (pin channel strb_base)) (complement clk) ∷ orig ∷ []),
      length-bit_words base (pin channel dta_base) clk bits,
      length-clock_bits_from clock_data clock_bytes,
    )
