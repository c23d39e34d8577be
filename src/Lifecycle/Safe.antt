-- ===== src/Lifecycle/Safe.antt =====
-- The life of a port in src/main.c over any calls: when it is freed, and which calls fault.
use synccom_linux.Prelude.{
  ◌+◌, ◌<◌, ◌≡◌, ◌≢◌, ap, ◌∙◌, ◌⊎◌, inl, inr, Bool-cases, ==_iff, true, false, none, some, arith,
  ◌==◌,
}
use mathlib.Core.Path.{subst}
use synccom_linux.Port.{done}
use synccom_linux.Lifecycle.{Device, World, returned, faulted, release, disconnect}
use synccom_linux.Lifecycle.Calls.{release_lem, disconnect_lem}
use synccom_linux.Lifecycle.Count.{
  System, held, IsCounted, disconnected, Reach, here, next, held-IsLive, last_lem, Step-IsCounted,
}
use synccom_linux.Lifecycle.Probe.{ProbeAnswers, probe}
use synccom_linux.Lifecycle.Probed.{probe_lem}

Reach-IsCounted : {s t : System} → IsCounted s → Reach s t → IsCounted t
Reach-IsCounted ok here = ok
Reach-IsCounted ok (next r step) = Step-IsCounted step (Reach-IsCounted ok r)

probed-IsCounted :
    (w w' : World) (a : ProbeAnswers)
    → probe w a ≡ returned (done 0) w'
    → IsCounted (record { world = w'; files = 0; bound = true })
probed-IsCounted w w' a h = elim (probe_lem w a) [
  | inl (refused, e) ↦ ground arith
  | inr rest ↦ elim rest [
    | inl (given, unusable, e) ↦ ground arith
    | inr (given, usable, (v, e, ok)) ↦
        (let same : v ≡ w' = ground arith in
          subst (λ x. IsCounted (record { world = x; files = 0; bound = true })) same ok)
  ]
]

-- Behind a probe that returns 0 and any opens, releases, suspends, resets and disconnects that return, the
-- port's references are those of the files that hold it and of the binding; it is freed just when there
-- are none of these.
pub probe-Reach :
    (w w' : World) (a : ProbeAnswers) (t : System)
    → probe w a ≡ returned (done 0) w'
    → Reach (record { world = w'; files = 0; bound = true }) t
    → IsCounted t
probe-Reach w w' a t h r = Reach-IsCounted (probed-IsCounted w w' a h) r

-- In a system whose port is counted, the release of a file whose port's `io_mutex` is free returns 0; it
-- frees the port if this is the last file and the interface is unbound, and keeps it otherwise.
pub release-frees :
    (s : System) (d : Device)
    → IsCounted s
    → 0 < s.files
    → s.world.device ≡ some d
    → d.io_locked ≡ false
    → (w' : World) × (release s.world true ≡ returned (done 0) w')
      × (((s.files ≡ 1) × (s.bound ≡ false) × (w'.device ≡ none))
          ⊎ ((1 < s.files + held s.bound) × (w'.device ≢ none)))
release-frees s d ok h there unlocked =
    let (d', u, there', eu, count, pos, bound) = held-IsLive s ok (omega arith) in
    let same : d' ≡ d = ground arith in
    let unlocked' = ap (λ x. x.io_locked) same ∙ unlocked in
    let (w', e, left, data_kept, registered_kept) =
      release_lem s.world d' u there' eu pos unlocked' in
    (
      w',
      e,
      elim (Bool-cases (d'.kref == 1)) [
        | inl last ↦
            (let (only, unbound) =
                last_lem s.files s.bound h (omega (arith, (==_iff d'.kref 1).0 last)) in
              inl (only, unbound, ground arith))
        | inr other ↦ inr (ground arith, ground arith)
      ],
    )

-- In a system whose port is counted and whose interface is bound, with the port's `io_mutex` free, a
-- disconnect while no file is open uses the port behind its release; with a file open it returns, and
-- leaves a counted port that is unbound.
pub disconnect-faults :
    (s : System) (d : Device)
    → IsCounted s
    → s.bound ≡ true
    → s.world.device ≡ some d
    → d.io_locked ≡ false
    → ((s.files ≡ 0) × (disconnect s.world ≡ faulted))
      ⊎ ((0 < s.files)
          × ((w' : World) × (disconnect s.world ≡ returned (done 0) w')
              × IsCounted (record { world = w'; files = s.files; bound = false })))
disconnect-faults s d ok b there unlocked =
    let (d', u, there', eu, count, pos, bound) = held-IsLive s ok (omega (arith, ap held b)) in
    let same : d' ≡ d = ground arith in
    let unlocked' = ap (λ x. x.io_locked) same ∙ unlocked in
    elim (disconnect_lem s.world d' u there' eu pos unlocked' (ok.data_ok ∙ b)) [
      | inl (last, e) ↦ inl (omega (arith, ap held b), e)
      | inr (other, e) ↦
          inr (omega (arith, ap held b), (_, e, Step-IsCounted (disconnected s _ (done 0) b e) ok))
    ]
