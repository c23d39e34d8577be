-- ===== src/Driver/Writers/Safe.antt =====
-- The invariant of the threads in `synccom_write` of src/main.c and of their port, and the steps that keep
-- it.
use synccom_linux.Prelude.{
  ℕ, ◌+◌, ◌≤◌, ◌<◌, ◌≡◌, sym, ap, true, false, List, arith, u32_mod, length,
}
use mathlib.Core.Path.{subst}
use synccom_linux.Port.{Port}
use synccom_linux.Port.Tx
use synccom_linux.Port.Tx.{oframe_worker, timer_handler}
use synccom_linux.Driver.{write_result}
use synccom_linux.Driver.Writers.{
  holds, Writer, resting, taking, testing, no_room, summing, filling, leaving, sleeping,
  TurnAnswers, turn, World, after,
}
use synccom_linux.Driver.Semaphore.{all-update, others_idle, update, IsExclusive, same-IsExclusive}
use synccom_linux.Driver.Writers.Room.{queued, pending, IsCounted, IsLower, write-adds}

-- What a thread knows of the port: the count that it has read is no less than the queue's, or its bytes
-- fit.
abbrev pub HasRoom : Port → Writer → Type 0
HasRoom p (summing bytes nonblock count) = (queued p ≤ count) × (count ≤ p.memory_cap.output)
HasRoom p (filling bytes) = queued p + pending p + length bytes ≤ p.memory_cap.output
HasRoom p (resting r) = Unit
HasRoom p (taking bytes nonblock) = Unit
HasRoom p (testing bytes nonblock) = Unit
HasRoom p (no_room bytes nonblock) = Unit
HasRoom p (leaving r) = Unit
HasRoom p (sleeping bytes) = Unit

-- The invariant of the threads and the port.
pub record IsSafe (w : World) : Type 0 where
  pub exclusive : IsExclusive holds w.semaphore w.writers
  pub counted : IsCounted w.port
  pub within : queued w.port + pending w.port ≤ w.port.memory_cap.output
  pub capped : w.port.memory_cap.output + w.port.memory_cap.output < u32_mod
  pub room : (i : ℕ) → HasRoom w.port (w.writers i)

lower-HasRoom : (p p' : Port) (a : Writer) → IsLower p p' → HasRoom p a → HasRoom p' a
lower-HasRoom p p' (summing bytes nonblock count) l (low, high) =
    (omega (arith, l.queue), rw l.caps high)
lower-HasRoom p p' (filling bytes) l h = rw l.caps (omega (arith, l.both))
lower-HasRoom p p' (resting r) l h = tt
lower-HasRoom p p' (taking bytes nonblock) l h = tt
lower-HasRoom p p' (testing bytes nonblock) l h = tt
lower-HasRoom p p' (no_room bytes nonblock) l h = tt
lower-HasRoom p p' (leaving r) l h = tt
lower-HasRoom p p' (sleeping bytes) l h = tt

pub idle-HasRoom : (p : Port) (a : Writer) → holds a ≡ false → HasRoom p a
idle-HasRoom p (summing bytes nonblock count) h = ground arith
idle-HasRoom p (filling bytes) h = ground arith
idle-HasRoom p (resting r) h = tt
idle-HasRoom p (taking bytes nonblock) h = tt
idle-HasRoom p (testing bytes nonblock) h = tt
idle-HasRoom p (no_room bytes nonblock) h = tt
idle-HasRoom p (leaving r) h = tt
idle-HasRoom p (sleeping bytes) h = tt

pub lower-IsSafe :
    (w : World) (p' : Port) → IsSafe w → IsLower w.port p' → IsSafe (record w { port = p' })
lower-IsSafe w p' s l = record {
  exclusive = s.exclusive;
  counted = l.counted;
  within = rw l.caps (omega (arith, l.both, s.within));
  capped = rw l.caps s.capped;
  room = λ i. lower-HasRoom w.port p' (w.writers i) l (s.room i);
}

-- A thread that goes on without the port, its hold on the semaphore being the given one.
pub stay-IsSafe :
    (w : World) (i sem : ℕ) (a : Writer)
    → IsSafe w
    → IsExclusive holds sem (update w.writers i a)
    → HasRoom w.port a
    → IsSafe (after w.writers i (w.port, sem, a))
stay-IsSafe w i sem a s e h = record {
  exclusive = e;
  counted = s.counted;
  within = s.within;
  capped = s.capped;
  room = all-update (HasRoom w.port) w.writers i a h (λ j _. s.room j);
}

pub keep :
    (w : World) (i : ℕ) (a : Writer)
    → IsSafe w
    → holds (w.writers i) ≡ holds a
    → HasRoom w.port a
    → IsSafe (after w.writers i (w.port, w.semaphore, a))
keep w i a s same h =
    stay-IsSafe w i w.semaphore a s
      (same-IsExclusive holds w.semaphore w.writers i a s.exclusive (sym same)) h

-- A thread that has checked for room queues its frame.
pub fill-IsSafe :
    (w : World) (i : ℕ) (bytes : List ℕ) (answers : TurnAnswers)
    → w.writers i ≡ filling bytes
    → IsSafe w
    → IsSafe (after w.writers i (turn w.port w.semaphore (filling bytes) answers))
unfolding turn
fill-IsSafe w i bytes answers at s =
    let a = leaving (write_result bytes (Tx.write w.port bytes answers.write_answers).0) in
    let p' = (Tx.write w.port bytes answers.write_answers).1 in
    let fits : queued w.port + pending w.port + length bytes ≤ w.port.memory_cap.output =
      subst (HasRoom w.port) at (s.room i) in
    let (c, more, kept, caps) =
      write-adds w.port bytes answers.write_answers s.counted (omega (arith, s.capped)) in
    let mine : holds (w.writers i) ≡ true = ap holds at in
    record {
      exclusive = same-IsExclusive holds w.semaphore w.writers i a s.exclusive (sym mine);
      counted = c;
      within = rw caps (rw kept (omega arith));
      capped = rw caps s.capped;
      room = all-update (HasRoom p') w.writers i a tt (λ j other.
          idle-HasRoom p' (w.writers j)
            (others_idle holds w.semaphore w.writers i j s.exclusive mine other));
    }
