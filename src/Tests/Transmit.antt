-- ===== src/Tests/Transmit.antt =====
-- The transmit path of src/port.c and the write of src/main.c.
use synccom_linux.Prelude.{
  ℕ, ◌≡◌, ◌≤◌, ◌<◌, ◌+◌, ◌⊎◌, inr, refl, true, false, none, some, List, [], ◌∷◌, length, arith,
}
use synccom_linux.Frame
use synccom_linux.Port.{done, fail, enobufs, eagain, enomem, Port}
use synccom_linux.Port.Tx
use synccom_linux.Port.Memory.{get_output_memory_usage}
use synccom_linux.Port.Settings.{get_output_memory_cap}
use synccom_linux.Port.Tx.Send.{accepting, data_bytes, runs, worker_sends_frame}
use synccom_linux.Port.Tx.Queue.{waiting, IsPadded}
use synccom_linux.Port.Tx.Flow.{granting, drained, flow_lem}
use synccom_linux.Port.Tx.Stuck.{worker, write_call, steps, failed_copy_blocks}
use synccom_linux.Driver
use synccom_linux.Driver.{returned}
use synccom_linux.Driver.Caps.{write_within_cap, write_nonblock_lem}
use synccom_linux.Tests.{three, idle, granted, uncopied}

abbrev sending : Port
sending = record idle { pending_oframe = some three }

worker_sends_frame_example :
    let p' = runs 1 sending in
    (p'.pending_oframe ≡ none)
    × (pad : List ℕ) × (data_bytes p'.sent ≡ 1 ∷ 2 ∷ 3 ∷ pad)
    × (length pad < 4)
unfolding data_bytes
worker_sends_frame_example =
    worker_sends_frame 0 sending three
      (record { sized = refl; fits = omega arith; small = omega arith }) refl refl (omega arith)
      (omega arith)

write_within_cap_example :
    let p' = (Tx.write idle (8 ∷ 9 ∷ []) granted).1 in
    (◌≡◌ {A = ℕ} 2 2) × (get_output_memory_usage p' ≤ get_output_memory_cap p')
unfolding Driver.write Driver.write_after Driver.wait_until Driver.has_room get_output_memory_usage
    get_output_memory_cap Tx.write Frame.new
write_within_cap_example =
    write_within_cap idle true (8 ∷ 9 ∷ []) true [] granted 2 (Tx.write idle (8 ∷ 9 ∷ []) granted).1
      (omega arith) (omega arith) refl

write_nonblock_example :
    let cap = get_output_memory_cap idle in
    let usage = get_output_memory_usage idle in
    let outcome = Driver.write idle true (8 ∷ 9 ∷ []) true [] granted in
    ((cap < 2) × (outcome ≡ returned (fail enobufs) idle))
    ⊎ ((2 ≤ cap) × (cap < usage + 2) × (outcome ≡ returned (fail eagain) idle))
    ⊎ ((usage + 2 ≤ cap) × (true ≡ false) × (outcome ≡ returned (fail enomem) idle))
    ⊎ ((usage + 2 ≤ cap)
        × (true ≡ true)
        × (outcome ≡ returned (done 2) (Tx.write idle (8 ∷ 9 ∷ []) granted).1))
write_nonblock_example = write_nonblock_lem idle (8 ∷ 9 ∷ []) [] granted (omega arith)

flow_example :
    let p' =
      drained idle
        (write_call (8 ∷ 9 ∷ []) granting ∷ worker accepting ∷ write_call (5 ∷ []) granting ∷ []) in
    (waiting p' ≡ [])
    × ((out : List ℕ) × (data_bytes p'.sent ≡ out) × IsPadded ((8 ∷ 9 ∷ []) ∷ (5 ∷ []) ∷ []) out)
unfolding data_bytes
flow_example =
    flow_lem
      (write_call (8 ∷ 9 ∷ []) granting ∷ worker accepting ∷ write_call (5 ∷ []) granting ∷ []) idle
      [] refl tt (refl, omega arith, omega arith, (refl, (refl, omega arith, omega arith, tt)))

failed_copy_blocks_example :
    ((Tx.write idle (8 ∷ 9 ∷ []) uncopied).0 ≡ done 0)
    × ((steps
          (Tx.write idle (8 ∷ 9 ∷ []) uncopied).1
          (worker accepting ∷ write_call (5 ∷ []) granted ∷ worker accepting ∷ [])).sent
        ≡ [])
failed_copy_blocks_example =
    failed_copy_blocks idle (8 ∷ 9 ∷ []) uncopied accepting
      (write_call (5 ∷ []) granted ∷ worker accepting ∷ []) refl (inr (omega arith)) (omega arith)
      (omega arith) refl refl
