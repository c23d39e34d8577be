-- ===== src/Registers/Address.antt =====
-- The bus addresses of src/utils.c: every register has one of its own, and it fits the two address bytes
-- of a command.
use synccom_linux.Prelude.{
  ℕ, ◌+◌, ◌*◌, ◌^◌, ◌%◌, ◌≤◌, ◌<◌, ◌≡◌, ◌⊎◌, inl, inr, refl, ◌∙◌, some, List, [], ◌∷◌, String,
  arith, bit_or, u32,
}
use synccom_linux.Prelude.Bits.{bit_or-split, bit_or-zero, zero-bit_or}
use synccom_linux.Registers.{named_offsets, first_match, str_to_register_offset, port_offset}
use mathlib.Core.Path.{ap₂}

-- A register of bar 0 stands at twice its offset, with the top bit of sixteen set.
pub port_offset_bar0 :
    (channel offset : ℕ) → offset < 2 ^ 14 → port_offset channel 0 offset ≡ 0x8000 + offset * 2
unfolding port_offset
port_offset_bar0 channel offset h =
    let top : 0x8000 ≡ 1 * 2 ^ 15 + 0 = refl in
    let low : u32 (offset * 2) ≡ 0 * 2 ^ 15 + offset * 2 = omega arith in
    ap₂ bit_or top low
    ∙ bit_or-split 15 1 0 0 (offset * 2) (omega arith) (omega arith)
    ∙ omega (arith, bit_or-zero 1, zero-bit_or (offset * 2))

port_offset_bar2 : (offset : ℕ) → port_offset 0 2 offset ≡ offset
unfolding port_offset
port_offset_bar2 offset = ground arith

-- On channel 0: registers of the bars 0 and 2 with offsets below 2 ^ 14 that share a bus address are the
-- same register of the same bar, and the address fits sixteen bits.
pub port_offset_injective :
    (bar offset bar' offset' : ℕ)
    → (bar ≡ 0) ⊎ (bar ≡ 2)
    → (bar' ≡ 0) ⊎ (bar' ≡ 2)
    → offset < 2 ^ 14
    → offset' < 2 ^ 14
    → port_offset 0 bar offset ≡ port_offset 0 bar' offset'
    → (port_offset 0 bar offset < 2 ^ 16) × (bar ≡ bar') × (offset ≡ offset')
port_offset_injective bar offset bar' offset' (inl e) (inl e') h h' =
    rw (e, e') (λ same. omega (arith, port_offset_bar0 0 offset h, port_offset_bar0 0 offset' h'))
port_offset_injective bar offset bar' offset' (inl e) (inr e') h h' =
    rw (e, e') (λ same. omega (arith, port_offset_bar0 0 offset h, port_offset_bar2 offset'))
port_offset_injective bar offset bar' offset' (inr e) (inl e') h h' =
    rw (e, e') (λ same. omega (arith, port_offset_bar2 offset, port_offset_bar0 0 offset' h'))
port_offset_injective bar offset bar' offset' (inr e) (inr e') h h' =
    rw (e, e') (λ same. omega (arith, port_offset_bar2 offset, port_offset_bar2 offset'))

-- Every entry of a table holds a multiple of four, 0x60 at most.
abbrev AreOffsets : List (String × ℕ) → Type 0
AreOffsets [] = Unit
AreOffsets ((name, offset) ∷ rest) = (offset ≤ 0x60) × (offset % 4 ≡ 0) × AreOffsets rest

first_match-AreOffsets :
    (str : String) (table : List (String × ℕ)) (offset : ℕ)
    → AreOffsets table
    → first_match str table ≡ some offset
    → (offset ≤ 0x60) × (offset % 4 ≡ 0)
first_match-AreOffsets str [] offset t h = cc
first_match-AreOffsets str ((name, o) ∷ rest) offset t h =
    ground (arith, first_match-AreOffsets str rest offset t.2)

-- Every name that `str_to_register_offset` knows stands at a multiple of four, 0x60 at most.
pub str_to_register_offset_bounds :
    (str : String) (offset : ℕ)
    → str_to_register_offset str ≡ some offset
    → (offset ≤ 0x60) × (offset % 4 ≡ 0)
unfolding str_to_register_offset
str_to_register_offset_bounds str offset h =
    first_match-AreOffsets str named_offsets offset (omega arith) h
