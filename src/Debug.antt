-- ===== src/Debug.antt =====
-- The counters of interrupts and the messages of src/debug.c.
pub mod Counts
use synccom_linux.Prelude.{
  ℕ, zero, suc, ◌+◌, ◌/◌, ◌%◌, ◌^◌, ◌*◌, Bool, true, false, Option, none, some, List, [], ◌∷◌,
  if◌then◌else◌, ◌==◌, bit_and, get_or, replicate, String,
}
use synccom_linux.Port.{Port}

-- `struct debug_interrupt_tracker`, which the code goes through as an array of 32 counters.
abbrev pub Tracker : Type 0
Tracker = List ℕ

-- `debug_interrupt_tracker_new`. `none` is the `memset` of a NULL pointer.
unfoldable pub tracker_new : Bool → Option Tracker
tracker_new granted = if granted then some (replicate 32 0) else none

-- `debug_interrupt_tracker_delete`: NULL is left, and another tracker is given back.
unfoldable pub tracker_delete : Option Tracker → Option Tracker
tracker_delete tracker = none

-- The loop over the counters.
unfoldable pub increment_from : Tracker → ℕ → Tracker
increment_from [] isr_value = []
increment_from (count ∷ counts) isr_value =
    (if bit_and isr_value 1 == 0 then count else (count + 1) % 2 ^ 32)
    ∷ increment_from counts (isr_value / 2)

-- `debug_interrupt_tracker_increment_all`
unfoldable pub increment_all : Option Tracker → ℕ → Option Tracker
increment_all none isr_value = none
increment_all (some tracker) isr_value =
    if isr_value == 0 then some tracker else some (increment_from tracker isr_value)

-- The loop `while (isr_bit)`, from the index i. `none` is a loop out of fuel.
unfoldable pub index_from : ℕ → ℕ → ℕ → Option ℕ
index_from zero isr_bit i = none
index_from (suc fuel) isr_bit i =
    let rest = index_from fuel (isr_bit / 2) (suc i) in if isr_bit == 0 then some i else rest

-- The count at an index of the tracker.
abbrev pub count_at : Tracker → Option ℕ → Option ℕ
count_at tracker none = none
count_at tracker (some i) = some (get_or tracker i 0)

-- `debug_interrupt_tracker_get_count`, with a round for each bit and one for the end.
unfoldable pub get_count : Option Tracker → ℕ → Option ℕ
get_count none isr_bit = some 0
get_count (some tracker) isr_bit =
    if isr_bit == 0 then some 0 else count_at tracker (index_from 33 (isr_bit / 2) 0)

-- The interrupts that are printed, in their order, with the bits of src/port.h.
abbrev pub interrupts : List (ℕ × String)
interrupts =
    (0x4, "RFE")
    ∷ (0x2, "RFT")
    ∷ (0x1, "RFS")
    ∷ (0x8, "RFO")
    ∷ (0x10, "RDO")
    ∷ (0x20, "RFL")
    ∷ (0x100, "TIN")
    ∷ (0x10000, "TFT")
    ∷ (0x40000, "TDU")
    ∷ (0x20000, "ALLS")
    ∷ (0x1000000, "CTSS")
    ∷ (0x2000000, "DSRC")
    ∷ (0x4000000, "CDC")
    ∷ (0x8000, "DT_STOP")
    ∷ (0x4000, "DR_STOP")
    ∷ (0x2000, "DT_FE")
    ∷ (0x1000, "DR_FE")
    ∷ (0x800, "DT_HI")
    ∷ (0x400, "DR_HI")
    ∷ []

-- The `if`s of `debug_interrupt_display`.
abbrev pub messages : List (ℕ × String) → ℕ → List String
messages [] isr_value = []
messages ((mask, name) ∷ rest) isr_value =
    if bit_and isr_value mask == 0 then messages rest isr_value else name ∷ messages rest isr_value

-- `debug_interrupt_display`: the value printed and the names behind it, and the port.
unfoldable pub interrupt_display : Port → (ℕ × List String) × Port
interrupt_display p =
    ((p.last_isr_value, messages interrupts p.last_isr_value), record p { last_isr_value = 0 })
