-- ===== src/Driver/Writers/Leaves.antt =====
-- The steps of a thread between taking the semaphore of `synccom_write`, src/main.c, and giving it back.
use synccom_linux.Prelude.{
  ℕ, suc, ◌≤◌, ◌<◌, ◌≡◌, refl, ap, ◌∙◌, ◌⊎◌, inl, inr, Bool, true, false, List, [], ◌∷◌, ◌++◌,
  arith, if◌then◌else◌, ◌==◌,
}
use mathlib.Core.Path.{subst}
use native.Mathlib.Decide.{ℕ_discrete}
use synccom_linux.Port.{Port}
use synccom_linux.Driver.Writers.{
  holds, Writer, resting, taking, testing, no_room, summing, filling, leaving, sleeping,
  TurnAnswers, after_sum, turn, World, Event, calls, turns, works, ticks, purges, called, move,
  moves,
}
use synccom_linux.Driver.Semaphore.{update, at_self, at_other}

-- The steps that a thread needs at most until it has given the semaphore back.
abbrev rank : Writer → ℕ
rank (testing bytes nonblock) = 4
rank (summing bytes nonblock count) = 3
rank (filling bytes) = 2
rank (leaving r) = 1
rank (no_room bytes nonblock) = 1
rank (resting r) = 0
rank (taking bytes nonblock) = 0
rank (sleeping bytes) = 0

-- The steps of one thread among the events.
abbrev pub own : ℕ → List Event → ℕ
own i [] = 0
own i (turns j answers ∷ es) = if j == i then suc (own i es) else own i es
own i (calls j bytes nonblock ∷ es) = own i es
own i (works answers ∷ es) = own i es
own i (ticks ∷ es) = own i es
own i (purges ∷ es) = own i es

rank_bounds : (a : Writer) → holds a ≡ true → (0 < rank a) × (rank a ≤ 4)
rank_bounds (testing bytes nonblock) h = (omega arith, omega arith)
rank_bounds (summing bytes nonblock count) h = (omega arith, omega arith)
rank_bounds (filling bytes) h = (omega arith, omega arith)
rank_bounds (leaving r) h = (omega arith, omega arith)
rank_bounds (no_room bytes nonblock) h = (omega arith, omega arith)
rank_bounds (resting r) h = ground arith
rank_bounds (taking bytes nonblock) h = ground arith
rank_bounds (sleeping bytes) h = ground arith

-- One step of a thread with the semaphore.
rank-turn :
    (p : Port) (sem : ℕ) (a : Writer) (answers : TurnAnswers)
    → holds a ≡ true
    → let (_, _, b) = turn p sem a answers in
      (holds b ≡ false) ⊎ ((holds b ≡ true) × (rank b < rank a))
unfolding turn after_sum
rank-turn p sem (testing bytes nonblock) answers h = inr (refl, omega arith)
rank-turn p sem (summing bytes nonblock count) answers h = inr (ground arith)
rank-turn p sem (filling bytes) answers h = inr (refl, omega arith)
rank-turn p sem (leaving r) answers h = inl refl
rank-turn p sem (no_room bytes nonblock) answers h = inl (ground arith)
rank-turn p sem (resting r) answers h = ground arith
rank-turn p sem (taking bytes nonblock) answers h = ground arith
rank-turn p sem (sleeping bytes) answers h = ground arith

called-holds :
    (p : Port) (bytes : List ℕ) (nonblock : Bool) (a : Writer)
    → holds a ≡ true
    → called p bytes nonblock a ≡ a
called-holds p bytes nonblock (testing b n) h = refl
called-holds p bytes nonblock (summing b n c) h = refl
called-holds p bytes nonblock (filling b) h = refl
called-holds p bytes nonblock (leaving r) h = refl
called-holds p bytes nonblock (no_room b n) h = refl
called-holds p bytes nonblock (resting r) h = ground arith
called-holds p bytes nonblock (taking b n) h = refl
called-holds p bytes nonblock (sleeping b) h = refl

update-own : (f : ℕ → Writer) (ws : ℕ → Writer) (i j : ℕ) → j ≡ i → update ws j (f j) i ≡ f i
update-own f ws i j same = subst (λ k. update ws j (f j) k ≡ f k) same (at_self ws j (f j))

update-called :
    (p : Port) (bytes : List ℕ) (nonblock : Bool) (ws : ℕ → Writer) (i j : ℕ)
    → holds (ws i) ≡ true
    → update ws j (called p bytes nonblock (ws j)) i ≡ ws i
update-called p bytes nonblock ws i j h = elim (ℕ_discrete j i) [
  | yes same ↦
      update-own (λ k. called p bytes nonblock (ws k)) ws i j same
      ∙ called-holds p bytes nonblock (ws i) h
  | no other ↦ at_other ws j i (called p bytes nonblock (ws j)) other
]

-- The thread has given the semaphore back after some of the events.
abbrev pub LeavesIn : World → ℕ → List Event → Type 0
LeavesIn w i es =
    (done : List Event) × (rest : List Event) × (es ≡ done ++ rest)
    × (holds ((moves w done).writers i) ≡ false)

further :
    (w : World) (e : Event) (i : ℕ) (es : List Event)
    → LeavesIn (move w e) i es
    → LeavesIn w i (e ∷ es)
unfolding moves
further w e i es (done, rest, all, left) = (e ∷ done, rest, ap (λ l. e ∷ l) all, left)

leaves_from :
    (es : List Event) (w : World) (i : ℕ)
    → holds (w.writers i) ≡ true
    → rank (w.writers i) ≤ own i es
    → LeavesIn w i es
unfolding move moves
leaves_from [] w i h enough = absurd (omega (arith, rank_bounds (w.writers i) h))
leaves_from (works answers ∷ es) w i h enough =
    further w (works answers) i es (leaves_from es (move w (works answers)) i h enough)
leaves_from (ticks ∷ es) w i h enough =
    further w ticks i es (leaves_from es (move w ticks) i h enough)
leaves_from (purges ∷ es) w i h enough =
    further w purges i es (leaves_from es (move w purges) i h enough)
leaves_from (calls j bytes nonblock ∷ es) w i h enough =
    let e = calls j bytes nonblock in
    let same = update-called w.port bytes nonblock w.writers i j h in
    further w e i es (leaves_from es (move w e) i (ap holds same ∙ h) (omega (arith, ap rank same)))
leaves_from (turns j answers ∷ es) w i h enough =
    let e = turns j answers in
    let step_of = λ (k : ℕ). (turn w.port w.semaphore (w.writers k) answers).2 in
    elim (ℕ_discrete j i) [
      | yes same ↦
          (let at = update-own step_of w.writers i j same in
            let count : own i (e ∷ es) ≡ suc (own i es) = ground arith in
            elim (rank-turn w.port w.semaphore (w.writers i) answers h) [
              | inl left ↦ (e ∷ [], es, refl, ap holds at ∙ left)
              | inr (still, less) ↦
                  further w e i es
                    (leaves_from es (move w e) i (ap holds at ∙ still) (omega (arith, ap rank at)))
            ])
      | no other ↦
          (let at = at_other w.writers j i (step_of j) other in
            let count : own i (e ∷ es) ≡ own i es = ground arith in
            further w e i es
              (leaves_from es (move w e) i (ap holds at ∙ h) (omega (arith, ap rank at))))
    ]

-- A thread that has the semaphore, over any events in which it makes at least four steps, with any steps
-- of other threads, further calls, runs of the tasklet, its timer and purges between them, has given the
-- semaphore back after some of those events.
pub holder_leaves :
    (es : List Event) (w : World) (i : ℕ)
    → holds (w.writers i) ≡ true
    → 4 ≤ own i es
    → LeavesIn w i es
holder_leaves es w i h enough = leaves_from es w i h (omega (arith, rank_bounds (w.writers i) h))
