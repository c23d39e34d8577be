-- ===== src/Driver/Writers/Moves.antt =====
-- Any number of threads in `synccom_write` of src/main.c, in any order of their steps, under the semaphore
-- and the output memory cap.
use synccom_linux.Prelude.{
  ℕ, suc, ◌+◌, ◌-◌, ◌≤◌, ◌<◌, ◌≡◌, refl, ap, ◌∙◌, Bool, false, List, [], ◌∷◌, arith, u32_mod,
  length, if_both, ltb, ◌==◌, add32,
}
use mathlib.Core.Path.{subst}
use synccom_linux.Port.{Port, Ret, fail, eagain, erestartsys}
use synccom_linux.Port.Memory.{purge_tx, get_output_memory_usage}
use synccom_linux.Port.Settings.{get_output_memory_cap}
use synccom_linux.Port.Tx
use synccom_linux.Port.Tx.{oframe_worker, timer_handler}
use synccom_linux.Driver.{has_room}
use synccom_linux.Driver.Writers.{
  holds, Writer, resting, taking, testing, no_room, summing, filling, leaving, sleeping,
  TurnAnswers, enter, after_sum, turn, World, Event, calls, turns, works, ticks, purges, called,
  after, move, moves,
}
use synccom_linux.Driver.Semaphore.{start-IsExclusive, take-IsExclusive, leave-IsExclusive}
use synccom_linux.Driver.Writers.Room.{
  queued, pending, IsCounted, worker-IsLower, timer-IsLower, purge-IsLower,
}
use synccom_linux.Driver.Writers.Safe.{
  HasRoom, idle-HasRoom, IsSafe, lower-IsSafe, stay-IsSafe, keep, fill-IsSafe,
}

-- A thread that has the count of the queue reads the pending frame and tests.
sum-IsSafe :
    (w : World) (i : ℕ) (bytes : List ℕ) (nonblock : Bool) (count : ℕ)
    → w.writers i ≡ summing bytes nonblock count
    → IsSafe w
    → queued w.port ≤ count
    → count ≤ w.port.memory_cap.output
    → IsSafe (after w.writers i (w.port, w.semaphore, after_sum w.port bytes nonblock count))
unfolding after_sum get_output_memory_cap
sum-IsSafe w i bytes nonblock count at s low high =
    if_both (λ a. IsSafe (after w.writers i (w.port, w.semaphore, a)))
      (ltb w.port.memory_cap.output (add32 count (pending w.port) + length bytes))
      (λ _. keep w i (no_room bytes nonblock) s (ap holds at) tt)
      (λ room. keep w i (filling bytes) s (ap holds at) (ground (arith, s.within, s.capped)))

turn-IsSafe :
    (w : World) (i : ℕ) (answers : TurnAnswers) (a : Writer)
    → w.writers i ≡ a
    → IsSafe w
    → IsSafe (after w.writers i (turn w.port w.semaphore a answers))
unfolding turn
turn-IsSafe w i answers (resting r) at s = keep w i (resting r) s (ap holds at) tt
turn-IsSafe w i answers (testing bytes nonblock) at s =
    keep w i (summing bytes nonblock w.port.queued_oframes.estimated_memory_usage) s (ap holds at)
      (omega (arith, s.counted), omega (arith, s.counted, s.within))
turn-IsSafe w i answers (summing bytes nonblock count) at s =
    let (low, high) : HasRoom w.port (summing bytes nonblock count) =
      subst (HasRoom w.port) at (s.room i) in
    sum-IsSafe w i bytes nonblock count at s low high
turn-IsSafe w i answers (filling bytes) at s = fill-IsSafe w i bytes answers at s
turn-IsSafe w i answers (leaving r) at s =
    stay-IsSafe w i (suc w.semaphore) (resting r) s
      (leave-IsExclusive holds w.semaphore w.writers i (resting r) s.exclusive (ap holds at) refl)
      tt
turn-IsSafe w i answers (no_room bytes nonblock) at s =
    if_both (λ a. IsSafe (after w.writers i (w.port, suc w.semaphore, a))) nonblock
      (λ _.
        stay-IsSafe w i (suc w.semaphore) (resting (fail eagain)) s
          (leave-IsExclusive holds w.semaphore w.writers i (resting (fail eagain)) s.exclusive
            (ap holds at) refl)
          tt)
      (λ _.
        stay-IsSafe w i (suc w.semaphore) (sleeping bytes) s
          (leave-IsExclusive holds w.semaphore w.writers i (sleeping bytes) s.exclusive
            (ap holds at) refl)
          tt)
turn-IsSafe w i answers (taking bytes nonblock) at s =
    if_both (λ t. IsSafe (after w.writers i t)) answers.interrupted
      (λ _. keep w i (resting (fail erestartsys)) s (ap holds at) tt)
      (λ _.
        if_both (λ t. IsSafe (after w.writers i t)) (w.semaphore == 0)
          (λ _. keep w i (taking bytes nonblock) s (ap holds at) tt)
          (λ h.
            stay-IsSafe w i (w.semaphore - 1) (testing bytes nonblock) s
              (take-IsExclusive holds w.semaphore w.writers i (testing bytes nonblock) s.exclusive
                (ground arith) refl)
              tt))
turn-IsSafe w i answers (sleeping bytes) at s =
    if_both (λ t. IsSafe (after w.writers i t)) (has_room (length bytes) w.port)
      (λ _. keep w i (taking bytes false) s (ap holds at) tt)
      (λ _.
        if_both (λ t. IsSafe (after w.writers i t)) answers.interrupted
          (λ _. keep w i (resting (fail erestartsys)) s (ap holds at) tt)
          (λ _. keep w i (sleeping bytes) s (ap holds at) tt))

called_lem :
    (p : Port) (bytes : List ℕ) (nonblock : Bool) (a : Writer)
    → HasRoom p a
    → (holds a ≡ holds (called p bytes nonblock a)) × HasRoom p (called p bytes nonblock a)
unfolding enter
called_lem p bytes nonblock (resting r) h =
    if_both (λ a. (false ≡ holds a) × HasRoom p a) (length bytes == 0) (λ _. (refl, tt))
      (λ _.
        if_both (λ a. (false ≡ holds a) × HasRoom p a)
          (ltb (get_output_memory_cap p) (length bytes)) (λ _. (refl, tt)) (λ _. (refl, tt)))
called_lem p bytes nonblock (taking b n) h = (refl, h)
called_lem p bytes nonblock (testing b n) h = (refl, h)
called_lem p bytes nonblock (no_room b n) h = (refl, h)
called_lem p bytes nonblock (summing b n c) h = (refl, h)
called_lem p bytes nonblock (filling b) h = (refl, h)
called_lem p bytes nonblock (leaving r) h = (refl, h)
called_lem p bytes nonblock (sleeping b) h = (refl, h)

small : (w : World) → IsSafe w → queued w.port < u32_mod
small w s = omega (arith, s.within, s.capped)

move-IsSafe : (w : World) (e : Event) → IsSafe w → IsSafe (move w e)
unfolding move
move-IsSafe w (calls i bytes nonblock) s =
    let (same, room) = called_lem w.port bytes nonblock (w.writers i) (s.room i) in
    keep w i (called w.port bytes nonblock (w.writers i)) s same room
move-IsSafe w (turns i answers) s = turn-IsSafe w i answers (w.writers i) refl s
move-IsSafe w (works answers) s =
    lower-IsSafe w (oframe_worker w.port answers) s
      (worker-IsLower w.port answers s.counted (small w s))
move-IsSafe w ticks s = lower-IsSafe w (timer_handler w.port) s (timer-IsLower w.port s.counted)
move-IsSafe w purges s = lower-IsSafe w (purge_tx w.port).1 s (purge-IsLower w.port)

moves-IsSafe : (es : List Event) (w : World) → IsSafe w → IsSafe (moves w es)
unfolding moves
moves-IsSafe [] w s = s
moves-IsSafe (e ∷ es) w s = moves-IsSafe es (move w e) (move-IsSafe w e s)

-- A port that no thread is writing to, as `synccom_port_initialize` makes its semaphore, with what waits
-- counted and within its cap, which is below 2 ^ 31.
pub record IsStart (w : World) : Type 0 where
  pub one : w.semaphore ≡ 1
  pub idle : (i : ℕ) → (r : Ret) × (w.writers i ≡ resting r)
  pub counted : IsCounted w.port
  pub within : queued w.port + pending w.port ≤ w.port.memory_cap.output
  pub capped : w.port.memory_cap.output + w.port.memory_cap.output < u32_mod

resting-holds : (w : World) → IsStart w → (i : ℕ) → holds (w.writers i) ≡ false
resting-holds w s i = let (r, at) = s.idle i in ap holds at

start-IsSafe : (w : World) → IsStart w → IsSafe w
start-IsSafe w s = record {
  exclusive = start-IsExclusive holds w.semaphore w.writers s.one (resting-holds w s);
  counted = s.counted;
  within = s.within;
  capped = s.capped;
  room = λ i. idle-HasRoom w.port (w.writers i) (resting-holds w s i);
}

usage-IsSafe :
    (w : World) → IsSafe w → get_output_memory_usage w.port ≡ queued w.port + pending w.port
unfolding get_output_memory_usage
usage-IsSafe w s = omega (arith, s.counted, s.within, s.capped)

caps-turn :
    (p : Port) (sem : ℕ) (a : Writer) (answers : TurnAnswers)
    → (turn p sem a answers).0.memory_cap ≡ p.memory_cap
unfolding turn Tx.write
caps-turn p sem (resting r) answers = refl
caps-turn p sem (testing bytes nonblock) answers = refl
caps-turn p sem (summing bytes nonblock count) answers = refl
caps-turn p sem (filling bytes) answers = ground arith
caps-turn p sem (leaving r) answers = refl
caps-turn p sem (no_room bytes nonblock) answers = refl
caps-turn p sem (taking bytes nonblock) answers = ground arith
caps-turn p sem (sleeping bytes) answers = ground arith

caps-move : (w : World) (e : Event) → IsSafe w → (move w e).port.memory_cap ≡ w.port.memory_cap
unfolding move
caps-move w (calls i bytes nonblock) s = refl
caps-move w (turns i answers) s = caps-turn w.port w.semaphore (w.writers i) answers
caps-move w (works answers) s = (worker-IsLower w.port answers s.counted (small w s)).caps
caps-move w ticks s = (timer-IsLower w.port s.counted).caps
caps-move w purges s = (purge-IsLower w.port).caps

caps-moves :
    (es : List Event) (w : World) → IsSafe w → (moves w es).port.memory_cap ≡ w.port.memory_cap
unfolding moves
caps-moves [] w s = refl
caps-moves (e ∷ es) w s = caps-moves es (move w e) (move-IsSafe w e s) ∙ caps-move w e s

-- From a port that no thread is writing to, whose waiting bytes are within its output memory cap, which
-- is below 2 ^ 31, over any number of threads that call `synccom_write` and go on, runs of the tasklet,
-- its timer and purges, in any order, with any answers of the kernel: the output memory usage is within
-- the cap, which is the same; and the bytes of a thread that is about to queue its frame fit beside
-- what waits then.
pub writers_within_cap :
    (es : List Event) (w : World)
    → IsStart w
    → let w' = moves w es in
      (get_output_memory_usage w'.port ≤ get_output_memory_cap w'.port)
      × (get_output_memory_cap w'.port ≡ get_output_memory_cap w.port)
      × ((i : ℕ) (bytes : List ℕ)
          → w'.writers i ≡ filling bytes
          → get_output_memory_usage w'.port + length bytes ≤ get_output_memory_cap w'.port)
unfolding get_output_memory_cap
writers_within_cap es w start =
    let w' = moves w es in
    let s = moves-IsSafe es w (start-IsSafe w start) in
    let usage = usage-IsSafe w' s in
    (
      omega (arith, s.within),
      ap (λ c. c.output) (caps-moves es w (start-IsSafe w start)),
      λ i bytes at.
          (let fits : queued w'.port + pending w'.port + length bytes ≤ w'.port.memory_cap.output =
              subst (HasRoom w'.port) at (s.room i) in
            omega arith),
    )
