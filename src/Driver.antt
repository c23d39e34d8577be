-- ===== src/Driver.antt =====
-- The file operations of src/main.c: read, write, poll and flush; its child Ioctl has the ioctls. The
-- semaphores and signals, and what other threads do while a call sleeps, come in as a list of events.
pub mod Ioctl
pub mod Caps
pub mod Poll
pub mod Semaphore
pub mod Writers
pub mod Readers
use synccom_linux.Prelude.{
  ℕ, ◌+◌, Bool, true, false, not, Option, none, some, List, [], ◌∷◌, if◌then◌else◌, ltb, leb, ◌==◌,
  bit_or, length,
}
use synccom_linux.Port.{Port, Errno, Ret, done, fail, enobufs, eagain, erestartsys, epipe, eio}
use synccom_linux.Port.Memory.{get_output_memory_usage}
use synccom_linux.Port.Settings.{get_output_memory_cap}
use synccom_linux.Port.Tx
use synccom_linux.Port.Tx.{WriteAnswers}
use synccom_linux.Port.Rx
use synccom_linux.Port.Rx.{UserWrite, has_incoming_data}

-- How a sleep on a wait queue ends, with the port in the state that others have brought it to: by a
-- signal, in the wait or in taking the semaphore again, or with the semaphore taken.
pub data Wake : Type 0 where
  interrupted woken : Port → Wake

-- Where a waiting loop stands after the events so far: it has ended, it has given up, or it sleeps.
pub data Waited : Type 0 where
  ready : Port → Waited
  gave_up : Errno → Port → Waited
  asleep : Port → Waited

-- The `while` loops of `synccom_read` and `synccom_write`, entered with the semaphore held: the test is
-- made again after each sleep, and a call that may not block gives up at once.
unfoldable pub wait_until : (Port → Bool) → Bool → Port → List Wake → Waited
wait_until test nonblock p [] =
    if test p then ready p else if nonblock then gave_up eagain p else asleep p
wait_until test nonblock p (interrupted p' ∷ wakes) =
    if test p then ready p else if nonblock then gave_up eagain p else gave_up erestartsys p'
wait_until test nonblock p (woken p' ∷ wakes) =
    if test p
    then ready p
    else if nonblock
    then gave_up eagain p
    else wait_until test nonblock p' wakes

-- A call that has returned, or that still sleeps.
pub data Outcome (A : Type 0) : Type 0 where
  returned : A → Port → Outcome A
  sleeps : Port → Outcome A

-- A frame of `count` bytes fits beside what waits to be sent.
unfoldable pub has_room : ℕ → Port → Bool
has_room count p = leb (get_output_memory_usage p + count) (get_output_memory_cap p)

-- What a write returns: the error of `synccom_port_write`, or the count.
abbrev pub write_result : List ℕ → Ret → Ret
write_result bytes (fail e) = fail e
write_result bytes (done _) = done (length bytes)

-- The rest of `synccom_write` behind its waiting loop.
unfoldable pub write_after : List ℕ → WriteAnswers → Waited → Outcome Ret
write_after bytes answers (ready p) =
    let (r, p') = Tx.write p bytes answers in returned (write_result bytes r) p'
write_after bytes answers (gave_up e p) = returned (fail e) p
write_after bytes answers (asleep p) = sleeps p

-- `synccom_write`. `taken` says that the first `down_interruptible` was not interrupted.
unfoldable pub write : Port → Bool → List ℕ → Bool → List Wake → WriteAnswers → Outcome Ret
write p nonblock bytes taken wakes answers =
    if length bytes == 0
    then returned (done 0) p
    else if ltb (get_output_memory_cap p) (length bytes)
    then returned (fail enobufs) p
    else if taken
    then write_after bytes answers (wait_until (has_room (length bytes)) nonblock p wakes)
    else returned (fail erestartsys) p

-- `synccom_read`, with what it puts into the user's buffer; `none` is `frame_read` out of fuel.
unfoldable pub read :
    Port → Bool → ℕ → Bool → List Wake → (ℕ → ℕ) → Option (Outcome (Ret × List UserWrite))
read p nonblock count taken wakes copies =
    if count == 0
    then some (returned (done 0, []) p)
    else if taken
    then elim (wait_until has_incoming_data nonblock p wakes) [
      | ready p' ↦ (elim (Rx.read p' count copies) [
        | none ↦ none
        | some (r, writes, p'') ↦ some (returned (r, writes) p'')
      ])
      | gave_up e p' ↦ some (returned (fail e, []) p')
      | asleep p' ↦ some (sleeps p')
    ]
    else some (returned (fail erestartsys, []) p)

-- `synccom_poll`, with POLLIN, POLLRDNORM, POLLOUT and POLLWRNORM of <linux/poll.h>.
unfoldable pub poll : Port → ℕ
poll p =
    let mask = (if has_incoming_data p then bit_or 0x0001 0x0040 else 0) in
    if ltb (get_output_memory_usage p) (get_output_memory_cap p)
    then bit_or mask (bit_or 0x0004 0x0100)
    else mask

-- `synccom_flush`: the last error of a transfer is read out and forgotten. (The driver anchors no
-- transfer, so there is none to draw down.)
unfoldable pub flush : Port → Ret × Port
flush p = (
  elim p.errors [ none ↦ done 0 | some e ↦ (elim e [ epipe ↦ fail epipe | _ ↦ fail eio ]) ],
  record p { errors = none },
)
