-- ===== src/Driver/Writers.antt =====
-- Several threads in `synccom_write` of src/main.c at once, on one port, with the semaphore
-- `write_semaphore`; between their steps the tasklet, its timer and purges of src/port.c run. A step is
-- what a thread does under one lock: `synccom_port_get_output_memory_usage` is two steps, one for the
-- list's lock and one for the pending frame's; `oframe_worker` holds the pending frame's lock all along. A purge,
-- which takes its locks one after another, is one step, as is the test of a sleeper that is woken.
pub mod Room
pub mod Safe
pub mod Moves
pub mod Exclude
pub mod Leaves
pub mod Alone
use synccom_linux.Prelude.{
  ℕ, suc, ◌+◌, ◌-◌, Bool, true, false, List, [], ◌∷◌, if◌then◌else◌, ltb, leb, ◌==◌, add32, length,
}
use synccom_linux.Port.{Port, Ret, done, fail, enobufs, eagain, erestartsys}
use synccom_linux.Port.Memory
use synccom_linux.Port.Memory.{purge_tx}
use synccom_linux.Port.Settings.{get_output_memory_cap}
use synccom_linux.Port.Tx
use synccom_linux.Port.Tx.{WriteAnswers, SubmitAnswers, oframe_worker, timer_handler}
use synccom_linux.Driver.Semaphore.{update}
use synccom_linux.Driver.{has_room, write_result}

-- Where a thread stands: it has returned; it takes the semaphore; it has it and is to read the count of
-- the queue, or has read it; it found no room; it is to call `synccom_port_write`; it has done that; it
-- sleeps. The Boolean is O_NONBLOCK.
pub data Writer : Type 0 where
  resting : Ret → Writer
  taking testing no_room : List ℕ → Bool → Writer
  summing : List ℕ → Bool → ℕ → Writer
  filling : List ℕ → Writer
  leaving : Ret → Writer
  sleeping : List ℕ → Writer

-- Between `down_interruptible` and `up`.
abbrev pub holds : Writer → Bool
holds (resting r) = false
holds (taking bytes nonblock) = false
holds (sleeping bytes) = false
holds (testing bytes nonblock) = true
holds (no_room bytes nonblock) = true
holds (summing bytes nonblock queued) = true
holds (filling bytes) = true
holds (leaving r) = true

-- What the kernel answers to a thread in a step: whether a signal interrupts its wait, and the requests
-- of `synccom_port_write`.
pub record TurnAnswers : Type 0 where
  pub interrupted : Bool
  pub write_answers : WriteAnswers

-- A call of `synccom_write`, up to the semaphore.
unfoldable pub enter : Port → List ℕ → Bool → Writer
enter p bytes nonblock =
    if length bytes == 0
    then resting (done 0)
    else if ltb (get_output_memory_cap p) (length bytes)
    then resting (fail enobufs)
    else taking bytes nonblock

-- The rest of the usage from the count of the queue, and the test of the loop.
unfoldable pub after_sum : Port → List ℕ → Bool → ℕ → Writer
after_sum p bytes nonblock queued =
    let usage = add32 queued (Memory.pending_length p.pending_oframe) in
    if ltb (get_output_memory_cap p) (usage + length bytes)
    then no_room bytes nonblock
    else filling bytes

-- One step of a thread, with the port and the count of the semaphore.
unfoldable pub turn : Port → ℕ → Writer → TurnAnswers → Port × ℕ × Writer
turn p sem (resting r) answers = (p, sem, resting r)
turn p sem (taking bytes nonblock) answers =
    if answers.interrupted
    then (p, sem, resting (fail erestartsys))
    else if sem == 0
    then (p, sem, taking bytes nonblock)
    else (p, sem - 1, testing bytes nonblock)
turn p sem (testing bytes nonblock) answers =
    (p, sem, summing bytes nonblock p.queued_oframes.estimated_memory_usage)
turn p sem (summing bytes nonblock queued) answers = (p, sem, after_sum p bytes nonblock queued)
turn p sem (no_room bytes nonblock) answers =
    (p, suc sem, (if nonblock then resting (fail eagain) else sleeping bytes))
turn p sem (sleeping bytes) answers =
    if has_room (length bytes) p
    then (p, sem, taking bytes false)
    else if answers.interrupted
    then (p, sem, resting (fail erestartsys))
    else (p, sem, sleeping bytes)
turn p sem (filling bytes) answers =
    let (r, p') = Tx.write p bytes answers.write_answers in
    (p', sem, leaving (write_result bytes r))
turn p sem (leaving r) answers = (p, suc sem, resting r)

-- The port, the count of its semaphore, and its threads.
pub record World : Type 0 where
  pub port : Port
  pub semaphore : ℕ
  pub writers : ℕ → Writer

-- A thread that is not in a call makes one; a thread goes on; the tasklet, its timer or a purge runs.
pub data Event : Type 0 where
  calls : ℕ → List ℕ → Bool → Event
  turns : ℕ → TurnAnswers → Event
  works : SubmitAnswers → Event
  ticks purges : Event

abbrev pub called : Port → List ℕ → Bool → Writer → Writer
called p bytes nonblock (resting r) = enter p bytes nonblock
called p bytes nonblock other = other

-- What a step of a thread leaves.
abbrev pub after : (ℕ → Writer) → ℕ → Port × ℕ × Writer → World
after ws i (p, sem, a) = record { port = p; semaphore = sem; writers = update ws i a }

unfoldable pub move : World → Event → World
move w (calls i bytes nonblock) = record w {
  writers = update w.writers i (called w.port bytes nonblock (w.writers i));
}
move w (turns i answers) = after w.writers i (turn w.port w.semaphore (w.writers i) answers)
move w (works answers) = record w { port = oframe_worker w.port answers }
move w ticks = record w { port = timer_handler w.port }
move w purges = record w { port = (purge_tx w.port).1 }

unfoldable pub moves : World → List Event → World
moves w [] = w
moves w (e ∷ es) = moves (move w e) es
