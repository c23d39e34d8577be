-- ===== src/Driver/Readers.antt =====
-- Several threads in `synccom_read` of src/main.c at once, on one port, with the semaphore
-- `read_semaphore`; between their steps receive transfers end. A step is what a thread does between two
-- changes of the semaphore or of the port; the copies to the user succeed.
pub mod Fed
pub mod Moves
use synccom_linux.Prelude.{
  ℕ, suc, ◌-◌, Bool, true, false, none, some, Option, List, [], ◌∷◌, if◌then◌else◌, ◌==◌,
}
use synccom_linux.Port.{Port, Ret, done, fail, eagain, erestartsys}
use synccom_linux.Port.Rx
use synccom_linux.Port.Rx.{Urb, UserWrite, has_incoming_data, read_data_callback}
use synccom_linux.Driver.Semaphore.{update}

-- Where a thread stands: it has returned; it takes the semaphore; it has it and is to test for data; it
-- found none; it is to call `synccom_port_read`; it has done that; it sleeps. The Boolean is O_NONBLOCK.
pub data Reader : Type 0 where
  resting : Ret → Reader
  taking testing no_data : ℕ → Bool → Reader
  reading : ℕ → Reader
  leaving : Ret → Reader
  sleeping : ℕ → Reader

-- Between `down_interruptible` and `up`.
abbrev pub holds : Reader → Bool
holds (resting r) = false
holds (taking count nonblock) = false
holds (sleeping count) = false
holds (testing count nonblock) = true
holds (no_data count nonblock) = true
holds (reading count) = true
holds (leaving r) = true

-- A call of `synccom_read`, up to the semaphore.
unfoldable pub enter : ℕ → Bool → Reader
enter count nonblock = if count == 0 then resting (done 0) else taking count nonblock

-- What a thread makes of `synccom_port_read`; `none` is a read that does not end.
abbrev pub after_read : Port → ℕ → ℕ → Option (Ret × List UserWrite × Port) → Port × ℕ × Reader
after_read p sem count none = (p, sem, reading count)
after_read p sem count (some (r, writes, p')) = (p', sem, leaving r)

-- One step of a thread, with the port and the count of the semaphore; `interrupted` says whether a signal
-- ends its wait.
unfoldable pub turn : Port → ℕ → Reader → Bool → Port × ℕ × Reader
turn p sem (resting r) interrupted = (p, sem, resting r)
turn p sem (taking count nonblock) interrupted =
    if interrupted
    then (p, sem, resting (fail erestartsys))
    else if sem == 0
    then (p, sem, taking count nonblock)
    else (p, sem - 1, testing count nonblock)
turn p sem (testing count nonblock) interrupted =
    (p, sem, (if has_incoming_data p then reading count else no_data count nonblock))
turn p sem (no_data count nonblock) interrupted =
    (p, suc sem, (if nonblock then resting (fail eagain) else sleeping count))
turn p sem (sleeping count) interrupted =
    if has_incoming_data p
    then (p, sem, taking count false)
    else if interrupted
    then (p, sem, resting (fail erestartsys))
    else (p, sem, sleeping count)
turn p sem (reading count) interrupted = after_read p sem count (Rx.read p count (λ _. 0))
turn p sem (leaving r) interrupted = (p, suc sem, resting r)

-- The port, the count of its semaphore, and its threads.
pub record World : Type 0 where
  pub port : Port
  pub semaphore : ℕ
  pub readers : ℕ → Reader

-- A thread that is not in a call makes one; a thread goes on; a receive transfer ends, with memory granted.
pub data Event : Type 0 where
  calls : ℕ → ℕ → Bool → Event
  turns : ℕ → Bool → Event
  arrives : Urb → Event

abbrev pub called : ℕ → Bool → Reader → Reader
called count nonblock (resting r) = enter count nonblock
called count nonblock other = other

-- What a step of a thread leaves.
abbrev pub after : (ℕ → Reader) → ℕ → Port × ℕ × Reader → World
after rs i (p, sem, a) = record { port = p; semaphore = sem; readers = update rs i a }

-- `none` is an access outside the buffer of a transfer.
unfoldable pub move : World → Event → Option World
move w (calls i count nonblock) =
    some (record w { readers = update w.readers i (called count nonblock (w.readers i)) })
move w (turns i interrupted) =
    some (after w.readers i (turn w.port w.semaphore (w.readers i) interrupted))
move w (arrives urb) = elim (read_data_callback w.port urb true) [
  | none ↦ none
  | some p ↦ some (record w { port = p })
]

unfoldable pub moves : World → List Event → Option World
moves w [] = some w
moves w (e ∷ es) = elim (move w e) [ none ↦ none | some w' ↦ moves w' es ]
