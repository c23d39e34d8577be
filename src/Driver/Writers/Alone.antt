-- ===== src/Driver/Writers/Alone.antt =====
-- A thread in `synccom_write` of src/main.c that no other disturbs, beside the single function `write` of
-- Driver.
use synccom_linux.Prelude.{
  ℕ, zero, suc, ◌≡◌, refl, ap, ◌∙◌, Bool, true, false, List, [], ◌∷◌, arith, length, replicate,
  if◌then◌else◌,
}
use synccom_linux.Port.{Port, Ret, done, fail, enobufs}
use synccom_linux.Port.Memory.{get_output_memory_usage}
use synccom_linux.Driver
use synccom_linux.Driver.{
  Outcome, returned, sleeps, has_room, write_result, write_after, wait_until,
}
use synccom_linux.Driver.Writers.{
  Writer, resting, taking, no_room, filling, TurnAnswers, enter, after_sum, turn, World, calls,
  turns, called, move, moves,
}
use synccom_linux.Driver.Semaphore.{at_self}

-- Turns of one thread.
solo : ℕ → Port × ℕ × Writer → TurnAnswers → Port × ℕ × Writer
solo zero t answers = t
solo (suc n) (p, sem, a) answers = solo n (turn p sem a answers) answers

abbrev pub outcome : Port → Writer → Outcome Ret
outcome p (resting r) = returned r p
outcome p other = sleeps p

moves-solo :
    (n : ℕ) (w : World) (i : ℕ) (answers : TurnAnswers)
    → let w' = moves w (replicate n (turns i answers)) in
      (w'.port, w'.semaphore, w'.writers i) ≡ solo n (w.port, w.semaphore, w.writers i) answers
unfolding moves move solo
moves-solo zero w i answers = refl
moves-solo (suc n) w i answers =
    let (p, sem, a) = turn w.port w.semaphore (w.writers i) answers in
    moves-solo n (move w (turns i answers)) i answers
    ∙ ap (λ b. solo n (p, sem, b) answers) (at_self w.writers i a)

solo-resting :
    (n : ℕ) (p : Port) (r : Ret) (answers : TurnAnswers)
    → solo n (p, 1, resting r) answers ≡ (p, 1, resting r)
unfolding solo turn
solo-resting zero p r answers = refl
solo-resting (suc n) p r answers = solo-resting n p r answers

has_room-after_sum :
    (p : Port) (bytes : List ℕ) (nonblock : Bool)
    → after_sum p bytes nonblock p.queued_oframes.estimated_memory_usage
      ≡ (if has_room (length bytes) p then filling bytes else no_room bytes nonblock)
unfolding after_sum has_room get_output_memory_usage
has_room-after_sum p bytes nonblock = ground arith

solo-taking :
    (p : Port) (bytes : List ℕ) (nonblock : Bool) (answers : TurnAnswers)
    → answers.interrupted ≡ false
    → let (p', sem, a) = solo 5 (p, 1, taking bytes nonblock) answers in
      (sem ≡ 1)
      × (outcome p' a
          ≡ write_after bytes answers.write_answers
              (wait_until (has_room (length bytes)) nonblock p []))
unfolding solo turn write_after wait_until
solo-taking p bytes nonblock answers calm = ground (arith, has_room-after_sum p bytes nonblock)

solo-enter :
    (p : Port) (bytes : List ℕ) (nonblock : Bool) (answers : TurnAnswers)
    → answers.interrupted ≡ false
    → let (p', sem, a) = solo 5 (p, 1, enter p bytes nonblock) answers in
      (sem ≡ 1) × (outcome p' a ≡ Driver.write p nonblock bytes true [] answers.write_answers)
unfolding enter Driver.write
solo-enter p bytes nonblock answers calm = ground (
  arith,
  solo-taking p bytes nonblock answers calm,
  solo-resting 5 p (done 0) answers,
  solo-resting 5 p (fail enobufs) answers,
)

-- A thread that is not in a call, on a port whose semaphore is free, calls `synccom_write`, makes five
-- steps with no other in between, and no signal comes: the semaphore is free again, and the thread and the
-- port are where the function `write` with no wake-up takes them: returned with its result, or asleep.
pub alone_lem :
    (w : World) (i : ℕ) (bytes : List ℕ) (nonblock : Bool) (answers : TurnAnswers) (r : Ret)
    → w.semaphore ≡ 1
    → w.writers i ≡ resting r
    → answers.interrupted ≡ false
    → let w' = moves w (calls i bytes nonblock ∷ replicate 5 (turns i answers)) in
      (w'.semaphore ≡ 1)
      × (outcome w'.port (w'.writers i)
          ≡ Driver.write w.port nonblock bytes true [] answers.write_answers)
unfolding moves move
alone_lem w i bytes nonblock answers r one at calm =
    let e = calls i bytes nonblock in
    let a = enter w.port bytes nonblock in
    let entered : (move w e).writers i ≡ a =
      at_self w.writers i (called w.port bytes nonblock (w.writers i))
      ∙ ap (called w.port bytes nonblock) at in
    let ran =
      moves-solo 5 (move w e) i answers
      ∙ ap (λ sem. solo 5 (w.port, sem, (move w e).writers i) answers) one
      ∙ ap (λ b. solo 5 (w.port, 1, b) answers) entered in
    let (free, same) = solo-enter w.port bytes nonblock answers calm in
    (ap (λ t. t.1) ran ∙ free, ap (λ t. outcome t.0 t.2) ran ∙ same)
