-- ===== src/Tests/Writers.antt =====
-- Threads in `synccom_write` of src/main.c.
use synccom_linux.Prelude.{ℕ, ◌≡◌, ◌↔◌, ◌≤◌, ◌+◌, refl, true, false, List, [], ◌∷◌, length, arith}
use synccom_linux.Port.{done}
use synccom_linux.Port.Memory.{get_output_memory_usage}
use synccom_linux.Port.Settings.{get_output_memory_cap}
use synccom_linux.Port.Tx.Send.{accepting}
use synccom_linux.Driver
use synccom_linux.Driver.Writers.{
  holds, resting, filling, testing, TurnAnswers, World, Event, calls, turns, works, ticks, purges,
  moves,
}
use synccom_linux.Driver.Writers.Moves.{IsStart, writers_within_cap}
use synccom_linux.Driver.Writers.Exclude.{writers_exclude}
use synccom_linux.Driver.Writers.Leaves.{LeavesIn, holder_leaves}
use synccom_linux.Driver.Writers.Alone.{outcome, alone_lem}
use synccom_linux.Tests.{idle, granted}

abbrev quiet : World
quiet = record { port = idle; semaphore = 1; writers = λ _. resting (done 0) }

abbrev calm : TurnAnswers
calm = record { interrupted = false; write_answers = granted }

-- Two threads call, the first takes the semaphore and comes to its frame, the second tries.
abbrev two_calls : List Event
two_calls =
    calls 0 (8 ∷ 9 ∷ []) false
    ∷ calls 1 (5 ∷ []) false
    ∷ turns 0 calm
    ∷ turns 1 calm
    ∷ turns 0 calm
    ∷ ticks
    ∷ turns 0 calm
    ∷ []

quiet-IsStart : IsStart quiet
quiet-IsStart = record {
  one = refl;
  idle = λ i. (done 0, refl);
  counted = refl;
  within = omega arith;
  capped = omega arith;
}

writers_exclude_example :
    let w' = moves quiet two_calls in
    (w'.semaphore ≤ 1)
    × ((w'.semaphore ≡ 0) ↔ ((i : ℕ) × (holds (w'.writers i) ≡ true)))
    × ((i j : ℕ) → holds (w'.writers i) ≡ true → holds (w'.writers j) ≡ true → i ≡ j)
writers_exclude_example = writers_exclude two_calls quiet refl (λ i. refl)

writers_within_cap_example :
    let w' = moves quiet two_calls in
    (get_output_memory_usage w'.port ≤ get_output_memory_cap w'.port)
    × (get_output_memory_cap w'.port ≡ get_output_memory_cap idle)
    × ((i : ℕ) (bytes : List ℕ)
        → w'.writers i ≡ filling bytes
        → get_output_memory_usage w'.port + length bytes ≤ get_output_memory_cap w'.port)
writers_within_cap_example = writers_within_cap two_calls quiet quiet-IsStart

holder_leaves_example :
    LeavesIn
      (record { port = idle; semaphore = 0; writers = λ _. testing (5 ∷ []) true })
      3
      (turns 3 calm ∷ purges ∷ turns 3 calm ∷ turns 3 calm ∷ works accepting ∷ turns 3 calm ∷ [])
holder_leaves_example =
    holder_leaves
      (turns 3 calm ∷ purges ∷ turns 3 calm ∷ turns 3 calm ∷ works accepting ∷ turns 3 calm ∷ [])
      (record { port = idle; semaphore = 0; writers = λ _. testing (5 ∷ []) true }) 3 refl
      (omega arith)

alone_example :
    let w' = moves quiet (
      calls 0 (8 ∷ 9 ∷ []) true
      ∷ turns 0 calm
      ∷ turns 0 calm
      ∷ turns 0 calm
      ∷ turns 0 calm
      ∷ turns 0 calm
      ∷ []) in
    (w'.semaphore ≡ 1)
    × (outcome w'.port (w'.writers 0) ≡ Driver.write idle true (8 ∷ 9 ∷ []) true [] granted)
alone_example = alone_lem quiet 0 (8 ∷ 9 ∷ []) true calm (done 0) refl refl refl
