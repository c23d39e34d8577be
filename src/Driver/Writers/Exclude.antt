-- ===== src/Driver/Writers/Exclude.antt =====
-- The semaphore among the threads in `synccom_write` of src/main.c, whatever the state of the port.
use synccom_linux.Prelude.{
  ℕ, suc, ◌≡◌, refl, sym, ap, ◌∙◌, Bool, true, false, List, [], ◌∷◌, arith, length, if_both,
  if◌then◌else◌, ◌≤◌, ◌↔◌, ◌==◌,
}
use synccom_linux.Port.{Port, fail, eagain, erestartsys}
use synccom_linux.Port.Tx
use synccom_linux.Driver.{has_room, write_result}
use synccom_linux.Driver.Writers.{
  holds, Writer, resting, taking, testing, no_room, summing, filling, leaving, sleeping,
  TurnAnswers, enter, after_sum, turn, World, Event, calls, turns, works, ticks, purges, called,
  move, moves,
}
use synccom_linux.Driver.Semaphore.{
  update, IsExclusive, start-IsExclusive, same-IsExclusive, take-IsExclusive, leave-IsExclusive,
}

holds-after_sum :
    (p : Port) (bytes : List ℕ) (nonblock : Bool) (count : ℕ)
    → holds (after_sum p bytes nonblock count) ≡ true
unfolding after_sum
holds-after_sum p bytes nonblock count = ground arith

holds-called :
    (p : Port) (bytes : List ℕ) (nonblock : Bool) (a : Writer)
    → holds (called p bytes nonblock a) ≡ holds a
unfolding enter
holds-called p bytes nonblock (resting r) = ground arith
holds-called p bytes nonblock (taking b n) = refl
holds-called p bytes nonblock (testing b n) = refl
holds-called p bytes nonblock (no_room b n) = refl
holds-called p bytes nonblock (summing b n c) = refl
holds-called p bytes nonblock (filling b) = refl
holds-called p bytes nonblock (leaving r) = refl
holds-called p bytes nonblock (sleeping b) = refl

-- The semaphore and the threads when one of them, at a place, has made a step.
abbrev IsKept : (ℕ → Writer) → ℕ → Port × ℕ × Writer → Type 0
IsKept ws i (p, sem, a) = IsExclusive holds sem (update ws i a)

module _ (ws : ℕ → Writer) (i : ℕ) (p : Port) (sem : ℕ) (e : IsExclusive holds sem ws) where
  stays : (q : Port) (a : Writer) → holds a ≡ holds (ws i) → IsKept ws i (q, sem, a)
  stays q a same = same-IsExclusive holds sem ws i a e same

  leaves : (a : Writer) → holds (ws i) ≡ true → holds a ≡ false → IsKept ws i (p, suc sem, a)
  leaves a mine out = leave-IsExclusive holds sem ws i a e mine out

  turn-IsExclusive :
      (answers : TurnAnswers) (a : Writer) → ws i ≡ a → IsKept ws i (turn p sem a answers)
  unfolding turn
  turn-IsExclusive answers (resting r) at = stays p (resting r) (ap holds (sym at))
  turn-IsExclusive answers (testing bytes nonblock) at =
      stays p (summing bytes nonblock p.queued_oframes.estimated_memory_usage) (ap holds (sym at))
  turn-IsExclusive answers (summing bytes nonblock count) at =
      stays p (after_sum p bytes nonblock count)
        (holds-after_sum p bytes nonblock count ∙ ap holds (sym at))
  turn-IsExclusive answers (filling bytes) at =
      let (r, q) = Tx.write p bytes answers.write_answers in
      stays q (leaving (write_result bytes r)) (ap holds (sym at))
  turn-IsExclusive answers (leaving r) at = leaves (resting r) (ap holds at) refl
  turn-IsExclusive answers (no_room bytes nonblock) at =
      leaves (if nonblock then resting (fail eagain) else sleeping bytes) (ap holds at)
        (ground arith)
  turn-IsExclusive answers (taking bytes nonblock) at =
      if_both (IsKept ws i) answers.interrupted
        (λ _. stays p (resting (fail erestartsys)) (ap holds (sym at)))
        (λ _.
          if_both (IsKept ws i) (sem == 0)
            (λ _. stays p (taking bytes nonblock) (ap holds (sym at)))
            (λ h. take-IsExclusive holds sem ws i (testing bytes nonblock) e (ground arith) refl))
  turn-IsExclusive answers (sleeping bytes) at =
      if_both (IsKept ws i) (has_room (length bytes) p)
        (λ _. stays p (taking bytes false) (ap holds (sym at)))
        (λ _.
          if_both (IsKept ws i) answers.interrupted
            (λ _. stays p (resting (fail erestartsys)) (ap holds (sym at)))
            (λ _. stays p (sleeping bytes) (ap holds (sym at))))

moves-IsExclusive :
    (es : List Event) (w : World)
    → IsExclusive holds w.semaphore w.writers
    → IsExclusive holds (moves w es).semaphore (moves w es).writers
unfolding moves move
moves-IsExclusive [] w e = e
moves-IsExclusive (calls i bytes nonblock ∷ es) w e =
    moves-IsExclusive es (move w (calls i bytes nonblock)) (
      same-IsExclusive holds w.semaphore w.writers i (called w.port bytes nonblock (w.writers i)) e
        (holds-called w.port bytes nonblock (w.writers i)))
moves-IsExclusive (turns i answers ∷ es) w e =
    moves-IsExclusive es (move w (turns i answers))
      (turn-IsExclusive w.writers i w.port w.semaphore e answers (w.writers i) refl)
moves-IsExclusive (works answers ∷ es) w e = moves-IsExclusive es (move w (works answers)) e
moves-IsExclusive (ticks ∷ es) w e = moves-IsExclusive es (move w ticks) e
moves-IsExclusive (purges ∷ es) w e = moves-IsExclusive es (move w purges) e

-- From any state of the port, with the semaphore at its count of 1 and no thread between taking it and
-- giving it back, over any number of threads that call `synccom_write` and go on, runs of the tasklet, its
-- timer and purges, in any order: the count is never above 1, and it is 0 exactly when some thread is between taking the
-- semaphore and giving it back; and two threads there are the same thread.
pub writers_exclude :
    (es : List Event) (w : World)
    → w.semaphore ≡ 1
    → ((i : ℕ) → holds (w.writers i) ≡ false)
    → let w' = moves w es in
      (w'.semaphore ≤ 1)
      × ((w'.semaphore ≡ 0) ↔ ((i : ℕ) × (holds (w'.writers i) ≡ true)))
      × ((i j : ℕ) → holds (w'.writers i) ≡ true → holds (w'.writers j) ≡ true → i ≡ j)
writers_exclude es w one none_holds =
    let e = moves-IsExclusive es w (start-IsExclusive holds w.semaphore w.writers one none_holds) in
    (e.binary, (e.held, λ h. e.free h.0 h.1), e.unique)
