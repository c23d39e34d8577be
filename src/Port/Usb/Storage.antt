-- ===== src/Port/Usb/Storage.antt =====
-- The copy of the registers that a port keeps, src/port.c: what `set_register` and `set_registers` do to
-- it, and what they leave alone.
use synccom_linux.Prelude.{
  ℕ, zero, suc, ◌+◌, ◌*◌, ◌/◌, ◌≤◌, ◌<◌, ◌≡◌, ◌≢◌, ◌⊎◌, ◌%◌, ◌^◌, true, false, refl, ap, ◌∙◌, [],
  ◌∷◌, arith, if◌then◌else◌, u32, length, get_or, set, length-set, get_or-set,
}
use native.Mathlib.Nat.{add-zero, zero-add}
use synccom_linux.Registers.{Registers, is_read_only_register, num_registers, fcr_offset}
use synccom_linux.Port.{Port}
use synccom_linux.Port.Usb.{
  store_register, set_register, is_skipped, set_one, set_registers_from, set_registers,
  get_register,
}

-- `p` with the transfers, the registers and the memory cap of `q`.
abbrev pub with_registers : Port → Port → Port
with_registers p q = record p {
  sent = q.sent;
  register_storage = q.register_storage;
  memory_cap = q.memory_cap;
}

store_register-frame :
    (p : Port) (i value : ℕ)
    → store_register p i value ≡ with_registers p (store_register p i value)
unfolding store_register
store_register-frame p i value = ground arith

-- `set_register` changes nothing else.
pub set_register-frame :
    (p : Port) (bar offset value : ℕ)
    → (set_register p bar offset value).1 ≡ with_registers p (set_register p bar offset value).1
unfolding set_register store_register
set_register-frame p bar offset value = ground arith

-- `get_register` changes the transfers alone.
pub get_register-frame :
    (p : Port) (bar offset : ℕ)
    → (get_register p bar offset).1 ≡ record p { sent = (get_register p bar offset).1.sent }
unfolding get_register
get_register-frame p bar offset = ground arith

-- A register of bar 0 within the struct is stored at its index, and the memory cap stays.
pub set_register-bar0 :
    (p : Port) (i value : ℕ)
    → i < num_registers
    → ((set_register p 0 (i * 4) value).1.register_storage ≡ set p.register_storage i value)
      × ((set_register p 0 (i * 4) value).1.memory_cap ≡ p.memory_cap)
unfolding set_register store_register
set_register-bar0 p i value h = let index : i * 4 / 4 ≡ i = omega arith in rw index (ground arith)

set_register-fcr :
    (p : Port) (value : ℕ)
    → ((set_register p 2 fcr_offset value).1.register_storage ≡ set p.register_storage 23 value)
      × ((set_register p 2 fcr_offset value).1.memory_cap ≡ p.memory_cap)
unfolding set_register store_register
set_register-fcr p value = (refl, refl)

set_one_lem :
    (p : Port) (i r : ℕ)
    → i < num_registers
    → ((set_one p i r).register_storage
        ≡ (if is_skipped i r then p.register_storage else set p.register_storage i (u32 r)))
      × ((set_one p i r).memory_cap ≡ p.memory_cap)
unfolding set_one
set_one_lem p i r h = ground (arith, set_register-bar0 p i (u32 r) h, set_register-fcr p (u32 r))

-- The storage keeps its length, and the memory cap stays.
set_registers_from-length :
    (regs : Registers) (p : Port) (i : ℕ)
    → length p.register_storage ≡ num_registers
    → i + length regs ≤ num_registers
    → let p' = set_registers_from p i regs in
      (length p'.register_storage ≡ num_registers) × (p'.memory_cap ≡ p.memory_cap)
unfolding set_registers_from
set_registers_from-length [] p i h k = (h, refl)
set_registers_from-length (r ∷ regs) p i h k = ground (
  arith,
  set_one_lem p i r,
  length-set p.register_storage i (u32 r),
  set_registers_from-length regs (set_one p i r) (suc i),
)

-- A register before the loop's index stays.
set_registers_from-before :
    (regs : Registers) (p : Port) (i j : ℕ)
    → length p.register_storage ≡ num_registers
    → i + length regs ≤ num_registers
    → j < i
    → get_or (set_registers_from p i regs).register_storage j 0 ≡ get_or p.register_storage j 0
unfolding set_registers_from
set_registers_from-before [] p i j h k lt = refl
set_registers_from-before (r ∷ regs) p i j h k lt = ground (
  arith,
  set_one_lem p i r,
  length-set p.register_storage i (u32 r),
  get_or-set p.register_storage i j (u32 r) 0,
  set_registers_from-before regs (set_one p i r) (suc i) j,
)

-- The register at a place of the struct that the loop reaches.
set_registers_from-at :
    (regs : Registers) (p : Port) (i n : ℕ)
    → length p.register_storage ≡ num_registers
    → i + length regs ≤ num_registers
    → n < length regs
    → get_or (set_registers_from p i regs).register_storage (i + n) 0 ≡ (
        if is_skipped (i + n) (get_or regs n 0)
        then get_or p.register_storage (i + n) 0
        else u32 (get_or regs n 0))
unfolding set_registers_from
set_registers_from-at [] p i n h k lt = absurd (omega arith)
set_registers_from-at (r ∷ regs) p i zero h k lt = rw (add-zero i) (
    set_registers_from-before regs (set_one p i r) (suc i) i
      (ground (arith, set_one_lem p i r, length-set p.register_storage i (u32 r))) (omega arith)
      (omega arith)
    ∙ ground (arith, set_one_lem p i r, get_or-set p.register_storage i i (u32 r) 0))
set_registers_from-at (r ∷ regs) p i (suc n) h k lt =
    let index : i + suc n ≡ suc i + n = omega arith in
    rw index (
      set_registers_from-at regs (set_one p i r) (suc i) n
        (ground (arith, set_one_lem p i r, length-set p.register_storage i (u32 r))) (omega arith)
        (omega arith)
      ∙ ap (λ t. if is_skipped (suc i + n) (get_or regs n 0) then t else u32 (get_or regs n 0))
          (ground
            (arith, set_one_lem p i r, get_or-set p.register_storage i (suc i + n) (u32 r) 0)))

-- STAR is at index 6 of the struct, VSTR at 19.
is_skipped_lem :
    (j r : ℕ)
    → ((is_skipped j r ≡ true) × ((j ≡ 6) ⊎ (j ≡ 19) ⊎ (2 ^ 63 ≤ r)))
      ⊎ ((is_skipped j r ≡ false) × (j ≢ 6) × (j ≢ 19) × (r < 2 ^ 63))
unfolding is_skipped is_read_only_register
is_skipped_lem j r = ground arith

-- `set_registers`, on a port whose storage and a struct of 24 registers: the result is 1, the memory cap
-- is as before, and each register of the storage is as before if it is STAR or VSTR, at the index 6 or 19, or its
-- 64 bits in the struct are negative, and in no other case; else it is the low 32 bits of the struct's.
pub set_registers_lem :
    (p : Port) (regs : Registers) (j : ℕ)
    → length p.register_storage ≡ num_registers
    → length regs ≡ num_registers
    → j < num_registers
    → let (ok, p') = set_registers p regs in
      let r = get_or regs j 0 in
      let stored = get_or p'.register_storage j 0 in
      (ok ≡ 1)
      × (p'.memory_cap ≡ p.memory_cap)
      × (length p'.register_storage ≡ num_registers)
      × ((((j ≡ 6) ⊎ (j ≡ 19) ⊎ (2 ^ 63 ≤ r)) × (stored ≡ get_or p.register_storage j 0))
          ⊎ ((j ≢ 6) × (j ≢ 19) × (r < 2 ^ 63) × (stored ≡ r % 2 ^ 32)))
unfolding set_registers
set_registers_lem p regs j h k lt =
    let kept = set_registers_from-length regs p 0 h (omega arith) in
    (
      refl,
      kept.1,
      kept.0,
      ground (
        arith,
        rw (zero-add j) at (set_registers_from-at regs p 0 j h (omega arith) (omega arith)),
        is_skipped_lem j (get_or regs j 0),
      ),
    )
