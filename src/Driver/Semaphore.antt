-- ===== src/Driver/Semaphore.antt =====
-- A binary semaphore of src/port.c among any number of threads, each at a place of some type.
use synccom_linux.Prelude.{
  ℕ, suc, ◌-◌, ◌≤◌, ◌≡◌, ◌≢◌, sym, ap, ◌∙◌, Bool, true, false, Bool-cases, inl, inr, arith,
}
use mathlib.Core.Path.{subst, subst⁻¹}
use mathlib.Core.Logic.{ite}
use native.Mathlib.Decide.{ℕ_discrete}

-- The threads after one of them has gone to another place.
abbrev pub update : {A : Type 0} → (ℕ → A) → ℕ → A → ℕ → A
update ws i a j = ite (ℕ_discrete i j) a (ws j)

pub at_self : {A : Type 0} (ws : ℕ → A) (i : ℕ) (a : A) → update ws i a i ≡ a
at_self ws i a = ground arith

pub at_other : {A : Type 0} (ws : ℕ → A) (i j : ℕ) (a : A) → i ≢ j → update ws i a j ≡ ws j
at_other ws i j a other = ground arith

-- What holds of the place that one thread has gone to and of the places of the others.
pub all-update :
    {A : Type 0} (P : A → Type 0) (ws : ℕ → A) (i : ℕ) (a : A)
    → P a
    → ((j : ℕ) → i ≢ j → P (ws j))
    → (j : ℕ) → P (update ws i a j)
all-update P ws i a here others j = elim (ℕ_discrete i j) [
  | yes same ↦ subst (λ n. P (update ws i a n)) same (subst⁻¹ P (at_self ws i a) here)
  | no other ↦ subst⁻¹ P (at_other ws i j a other) (others j other)
]

-- `holds` says at which places a thread is between `down_interruptible` and `up`.
module _ {A : Type 0} (holds : A → Bool) where
  -- The count is 1 with no thread holding the semaphore, or 0 with one.
  pub record IsExclusive (sem : ℕ) (ws : ℕ → A) : Type 0 where
    pub binary : sem ≤ 1
    pub free : (i : ℕ) → holds (ws i) ≡ true → sem ≡ 0
    pub held : sem ≡ 0 → (i : ℕ) × (holds (ws i) ≡ true)
    pub unique : (i j : ℕ) → holds (ws i) ≡ true → holds (ws j) ≡ true → i ≡ j

  holds-update :
      (ws : ℕ → A) (i j : ℕ) (a : A)
      → holds a ≡ holds (ws i)
      → holds (update ws i a j) ≡ holds (ws j)
  holds-update ws i j a same = ground arith

  pub same-IsExclusive :
      (sem : ℕ) (ws : ℕ → A) (i : ℕ) (a : A)
      → IsExclusive sem ws
      → holds a ≡ holds (ws i)
      → IsExclusive sem (update ws i a)
  same-IsExclusive sem ws i a e same = record {
    binary = e.binary;
    free = λ j h. e.free j (sym (holds-update ws i j a same) ∙ h);
    held = λ h. (let (j, k) = e.held h in (j, holds-update ws i j a same ∙ k));
    unique = λ j k h l.
        e.unique j k (sym (holds-update ws i j a same) ∙ h) (sym (holds-update ws i k a same) ∙ l);
  }

  pub take-IsExclusive :
      (sem : ℕ) (ws : ℕ → A) (i : ℕ) (a : A)
      → IsExclusive sem ws
      → sem ≢ 0
      → holds a ≡ true
      → IsExclusive (sem - 1) (update ws i a)
  take-IsExclusive sem ws i a e nonzero takes = record {
    binary = omega (arith, e.binary);
    free = λ j h. omega (arith, e.binary);
    held = λ h. (i, ap holds (at_self ws i a) ∙ takes);
    unique = λ j k h l. sym (taken j h) ∙ taken k l;
  }
    where
      taken : (j : ℕ) → holds (update ws i a j) ≡ true → i ≡ j
      taken j h = elim (ℕ_discrete i j) [
        | yes same ↦ same
        | no other ↦ absurd (nonzero (e.free j (sym (ap holds (at_other ws i j a other)) ∙ h)))
      ]

  pub leave-IsExclusive :
      (sem : ℕ) (ws : ℕ → A) (i : ℕ) (a : A)
      → IsExclusive sem ws
      → holds (ws i) ≡ true
      → holds a ≡ false
      → IsExclusive (suc sem) (update ws i a)
  leave-IsExclusive sem ws i a e held leaves = record {
    binary = omega (arith, e.free i held);
    free = λ j h. absurd (left j h);
    held = λ h. absurd (omega arith);
    unique = λ j k h l. absurd (left j h);
  }
    where
      left : (j : ℕ) → holds (update ws i a j) ≢ true
      left j h = elim (ℕ_discrete i j) [
        | yes same ↦
            (let mixed : false ≡ true =
                sym leaves
                ∙ sym (ap holds (at_self ws i a))
                ∙ ap (λ k. holds (update ws i a k)) same
                ∙ h in
              ground arith)
        | no other ↦ other (e.unique i j held (sym (ap holds (at_other ws i j a other)) ∙ h))
      ]

  pub start-IsExclusive :
      (sem : ℕ) (ws : ℕ → A) → sem ≡ 1 → ((i : ℕ) → holds (ws i) ≡ false) → IsExclusive sem ws
  start-IsExclusive sem ws one none_holds = record {
    binary = omega arith;
    free = λ i h. (let mixed : false ≡ true = sym (none_holds i) ∙ h in ground arith);
    held = λ h. absurd (omega arith);
    unique = λ i j h k. (let mixed : false ≡ true = sym (none_holds i) ∙ h in ground arith);
  }

  -- Beside a thread that has the semaphore no other has it.
  pub others_idle :
      (sem : ℕ) (ws : ℕ → A) (i j : ℕ)
      → IsExclusive sem ws
      → holds (ws i) ≡ true
      → i ≢ j
      → holds (ws j) ≡ false
  others_idle sem ws i j e mine other = elim (Bool-cases (holds (ws j))) [
    | inl yes_holds ↦ absurd (other (e.unique i j mine yes_holds))
    | inr not_holds ↦ not_holds
  ]
