-- ===== src/Driver/Caps.antt =====
-- The output memory cap of a port under `synccom_write` of src/main.c.
use synccom_linux.Prelude.{
  ℕ, ◌+◌, ◌≤◌, ◌<◌, ◌≡◌, refl, ◌⊎◌, Bool, true, false, List, [], ◌∷◌, arith, if◌then◌else◌, length,
  u32_mod,
}
use synccom_linux.Frame
use synccom_linux.Frame.{Frame, empty_frame}
use synccom_linux.Flist
use synccom_linux.Port.{Port, Ret, done, fail, enobufs, eagain, enomem}
use synccom_linux.Port.Memory.{get_output_memory_usage}
use synccom_linux.Port.Settings.{get_output_memory_cap}
use synccom_linux.Port.Tx
use synccom_linux.Port.Tx.{WriteAnswers}
use synccom_linux.Driver.{
  Wake, interrupted, woken, Waited, ready, gave_up, asleep, wait_until, returned, has_room,
  write_result, write_after, write,
}

-- A waiting loop ends only when its test holds.
pub wait_until-ready :
    (test : Port → Bool) (nonblock : Bool) (p : Port) (wakes : List Wake) (p' : Port)
    → wait_until test nonblock p wakes ≡ ready p'
    → test p' ≡ true
unfolding wait_until
wait_until-ready test nonblock p [] p' h = ground arith
wait_until-ready test nonblock p (interrupted q ∷ wakes) p' h = ground arith
wait_until-ready test nonblock p (woken q ∷ wakes) p' h =
    ground (arith, wait_until-ready test nonblock q wakes p')

-- What a user's bytes add to a new frame: all of them or none.
pub length-new_frame :
    (number : ℕ) (bytes : List ℕ) (granted : Bool) (uncopied : ℕ)
    → length bytes < u32_mod
    → (Frame.add_data_from_user (empty_frame number) bytes granted uncopied).1.data_length
      ≤ length bytes
unfolding Frame.add_data_from_user Frame.append_bytes Frame.scribble Frame.ensure_room
    Frame.update_buffer_size
length-new_frame number bytes granted uncopied h = ground arith

usage-write :
    (p : Port) (bytes : List ℕ) (answers : WriteAnswers)
    → length bytes < u32_mod
    → (get_output_memory_usage (Tx.write p bytes answers).1
        ≤ get_output_memory_usage p + length bytes)
      × (get_output_memory_cap (Tx.write p bytes answers).1 ≡ get_output_memory_cap p)
unfolding Tx.write Flist.add_frame Frame.new Frame.get_length get_output_memory_usage
    get_output_memory_cap
usage-write p bytes answers h =
    ground (arith, length-new_frame p.frame_counter bytes answers.buffer_granted answers.uncopied h)

write_result-done :
    (bytes : List ℕ) (r : Ret) (q : Port) (n : ℕ) (p' : Port)
    → returned (write_result bytes r) q ≡ returned (done n) p'
    → (n ≡ length bytes) × (p' ≡ q)
write_result-done bytes (done m) q n p' h = ground arith
write_result-done bytes (fail e) q n p' h = ground arith

write_after-done :
    (bytes : List ℕ) (answers : WriteAnswers) (w : Waited) (n : ℕ) (p' : Port)
    → write_after bytes answers w ≡ returned (done n) p'
    → (q : Port) × (w ≡ ready q) × (n ≡ length bytes) × (p' ≡ (Tx.write q bytes answers).1)
unfolding write_after
write_after-done bytes answers (ready q) n p' h =
    let (count, same) =
      write_result-done bytes (Tx.write q bytes answers).0 (Tx.write q bytes answers).1 n p' h in
    (q, refl, count, same)
write_after-done bytes answers (gave_up e q) n p' h = ground arith
write_after-done bytes answers (asleep q) n p' h = ground arith

has_room_lem :
    (count : ℕ) (p : Port)
    → has_room count p ≡ true
    → get_output_memory_usage p + count ≤ get_output_memory_cap p
unfolding has_room
has_room_lem count p h = ground arith

write-done :
    (p : Port) (nonblock : Bool) (bytes : List ℕ) (taken : Bool) (wakes : List Wake)
    (answers : WriteAnswers) (n : ℕ) (p' : Port)
    → 0 < length bytes
    → write p nonblock bytes taken wakes answers ≡ returned (done n) p'
    → (length bytes ≤ get_output_memory_cap p)
      × (write_after bytes answers (wait_until (has_room (length bytes)) nonblock p wakes)
          ≡ returned (done n) p')
unfolding write
write-done p nonblock bytes taken wakes answers n p' h e = ground arith

-- A write of at least one byte on a port whose caps are 32-bit numbers, blocking or not and however often
-- it sleeps, that returns a count: the count is that of its bytes, and what waits to be sent is within
-- the output memory cap of the port then.
pub write_within_cap :
    (p : Port) (nonblock : Bool) (bytes : List ℕ) (taken : Bool) (wakes : List Wake)
    (answers : WriteAnswers) (n : ℕ) (p' : Port)
    → 0 < length bytes
    → get_output_memory_cap p < u32_mod
    → write p nonblock bytes taken wakes answers ≡ returned (done n) p'
    → (n ≡ length bytes) × (get_output_memory_usage p' ≤ get_output_memory_cap p')
write_within_cap p nonblock bytes taken wakes answers n p' h k e =
    let (fits, after) = write-done p nonblock bytes taken wakes answers n p' h e in
    let (q, went, count, same) =
      write_after-done bytes answers (wait_until (has_room (length bytes)) nonblock p wakes) n p'
        after in
    let room =
      has_room_lem (length bytes) q
        (wait_until-ready (has_room (length bytes)) nonblock p wakes q went) in
    let used = usage-write q bytes answers (omega arith) in (count, rw same (omega arith))

-- What `synccom_port_write` gives back.
write_result-write :
    (p : Port) (bytes : List ℕ) (answers : WriteAnswers)
    → let (r, p') = Tx.write p bytes answers in
      ((answers.frame_granted ≡ false) × (r ≡ fail enomem) × (p' ≡ p))
      ⊎ ((answers.frame_granted ≡ true) × (r ≡ done 0))
unfolding Tx.write Frame.new
write_result-write p bytes answers = ground arith

wait_until_nonblock :
    (test : Port → Bool) (p : Port) (wakes : List Wake)
    → wait_until test true p wakes ≡ (if test p then ready p else gave_up eagain p)
unfolding wait_until
wait_until_nonblock test p [] = refl
wait_until_nonblock test p (interrupted q ∷ wakes) = refl
wait_until_nonblock test p (woken q ∷ wakes) = refl

-- A write that may not block, of at least one byte, and whose semaphore was taken: it is refused with
-- ENOBUFS if its bytes are more than the output memory cap, and with EAGAIN if they are more than the
-- cap leaves beside what waits, both with the port unchanged; else it returns ENOMEM with the port
-- unchanged if no memory is granted for the frame, and otherwise the count of its bytes.
pub write_nonblock_lem :
    (p : Port) (bytes : List ℕ) (wakes : List Wake) (answers : WriteAnswers)
    → 0 < length bytes
    → let cap = get_output_memory_cap p in
      let usage = get_output_memory_usage p in
      let outcome = write p true bytes true wakes answers in
      ((cap < length bytes) × (outcome ≡ returned (fail enobufs) p))
      ⊎ ((length bytes ≤ cap) × (cap < usage + length bytes) × (outcome ≡ returned (fail eagain) p))
      ⊎ ((usage + length bytes ≤ cap)
          × (answers.frame_granted ≡ false)
          × (outcome ≡ returned (fail enomem) p))
      ⊎ ((usage + length bytes ≤ cap)
          × (answers.frame_granted ≡ true)
          × (outcome ≡ returned (done (length bytes)) (Tx.write p bytes answers).1))
unfolding write write_after has_room
write_nonblock_lem p bytes wakes answers h = ground (
  arith,
  wait_until_nonblock (has_room (length bytes)) p wakes,
  write_result-write p bytes answers,
)
