-- ===== src/Driver/Poll.antt =====
-- `synccom_poll` of src/main.c against the calls that it answers for.
use synccom_linux.Prelude.{ℕ, ◌+◌, ◌≡◌, ◌≢◌, ◌↔◌, Bool, true, false, [], arith, ltb, leb, bit_and}
use synccom_linux.Port.{Port}
use synccom_linux.Port.Memory.{get_output_memory_usage}
use synccom_linux.Port.Settings.{get_output_memory_cap}
use synccom_linux.Port.Rx.{has_incoming_data}
use synccom_linux.Driver.{ready, wait_until, has_room, poll}

-- The mask of `synccom_poll` by its two tests.
mask : Bool → Bool → ℕ
mask true true = 0x145
mask true false = 0x41
mask false true = 0x104
mask false false = 0

poll-mask :
    (p : Port)
    → poll p
      ≡ mask (has_incoming_data p) (ltb (get_output_memory_usage p) (get_output_memory_cap p))
unfolding poll mask
poll-mask p = ground arith

mask_bits :
    (incoming room : Bool)
    → ((bit_and (mask incoming room) 0x0001 ≢ 0) ↔ (incoming ≡ true))
      × ((bit_and (mask incoming room) 0x0004 ≢ 0) ↔ (room ≡ true))
unfolding mask
mask_bits true true = ground arith
mask_bits true false = ground arith
mask_bits false true = ground arith
mask_bits false false = ground arith

one_byte : (usage cap : ℕ) → ltb usage cap ≡ leb (usage + 1) cap
one_byte usage cap = ground arith

-- Poll reports POLLIN exactly when the waiting loop of a read that may not block would end at once, and
-- POLLOUT exactly when there is room for one byte to be written.
pub poll_lem :
    (p : Port)
    → ((bit_and (poll p) 0x0001 ≢ 0) ↔ (wait_until has_incoming_data true p [] ≡ ready p))
      × ((bit_and (poll p) 0x0004 ≢ 0) ↔ (has_room 1 p ≡ true))
unfolding wait_until has_room
poll_lem p = rw (poll-mask p) (
    ground (
      arith,
      mask_bits (has_incoming_data p) (ltb (get_output_memory_usage p) (get_output_memory_cap p)),
    ))
