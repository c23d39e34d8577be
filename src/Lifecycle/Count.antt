-- ===== src/Lifecycle/Count.antt =====
-- The reference count of a port in src/main.c over the calls of a file system and the USB core.
use synccom_linux.Prelude.{
  ℕ, ◌+◌, ◌-◌, ◌<◌, ◌≡◌, refl, sym, ap, ◌∙◌, ◌⊎◌, inl, inr, Bool-cases, ==_iff, Bool, true, false,
  Option, none, some, arith, ◌==◌,
}
use mathlib.Core.Path.{subst⁻¹}
use synccom_linux.Port.{Errno, Ret, done, fail, epipe}
use synccom_linux.Lifecycle.Calls.{
  open_lem, open_data, not_opened_lem, suspend_lem, pre_reset_lem, post_reset_lem, released_lem,
  disconnected_lem,
}
use synccom_linux.Lifecycle.{
  Urbs, Device, World, returned, open_file, release, draw_down, disconnect, suspend, pre_reset,
  post_reset,
}

-- The driver with the files that hold the port, and whether the interface is bound to the driver.
pub record System : Type 0 where
  pub world : World
  pub files : ℕ
  pub bound : Bool

-- The references that the binding holds.
abbrev pub held : Bool → ℕ
held true = 1
held false = 0

-- A port that is there has its arrays, a reference for each file and one for the binding, at least one of
-- them; a port that is not has neither files nor a binding.
pub data IsCountedPort : Option Device → ℕ → Bool → Type 0 where
  gone : IsCountedPort none 0 false
  live :
      (d : Device) (u : Urbs) (files : ℕ) (bound : Bool)
      → d.urbs ≡ some u
      → d.kref ≡ files + held bound
      → 0 < d.kref
      → d.has_interface ≡ bound
      → IsCountedPort (some d) files bound

pub record IsCounted (s : System) : Type 0 where
  pub port_ok : IsCountedPort s.world.device s.files s.bound
  pub data_ok : s.world.intfdata ≡ s.bound
  pub registered_ok : s.world.registered ≡ s.bound

-- The calls that return. A file holds the port if its open has returned 0; the USB core disconnects and
-- resets an interface that is bound.
pub data Step : System → System → Type 0 where
  opened :
      (s : System) (w : World) (is_found : Bool) (e : Option Errno)
      → open_file s.world is_found e ≡ returned (done 0) w
      → Step s (record { world = w; files = s.files + 1; bound = s.bound })
  not_opened :
      (s : System) (w : World) (is_found : Bool) (e : Option Errno) (error : Errno)
      → open_file s.world is_found e ≡ returned (fail error) w
      → Step s (record { world = w; files = s.files; bound = s.bound })
  released :
      (s : System) (w : World) (r : Ret)
      → 0 < s.files
      → release s.world true ≡ returned r w
      → Step s (record { world = w; files = s.files - 1; bound = s.bound })
  suspended :
      (s : System) (w : World) (r : Ret)
      → s.bound ≡ true
      → suspend s.world ≡ returned r w
      → Step s (record { world = w; files = s.files; bound = s.bound })
  before_reset :
      (s : System) (w : World) (r : Ret)
      → s.bound ≡ true
      → pre_reset s.world ≡ returned r w
      → Step s (record { world = w; files = s.files; bound = s.bound })
  behind_reset :
      (s : System) (w : World) (r : Ret)
      → s.bound ≡ true
      → post_reset s.world ≡ returned r w
      → Step s (record { world = w; files = s.files; bound = s.bound })
  disconnected :
      (s : System) (w : World) (r : Ret)
      → s.bound ≡ true
      → disconnect s.world ≡ returned r w
      → Step s (record { world = w; files = s.files; bound = false })

pub data Reach (s : System) : System → Type 0 where
  here : Reach s s
  next : {t u : System} → Reach s t → Step t u → Reach s u

-- A port that is there, with its arrays and references.
abbrev pub IsLive : World → ℕ → Bool → Type 0
IsLive w files bound =
    (d : Device) × (u : Urbs) × (w.device ≡ some d)
    × (d.urbs ≡ some u)
    × (d.kref ≡ files + held bound)
    × (0 < d.kref)
    × (d.has_interface ≡ bound)

port_cases :
    {o : Option Device} {files : ℕ} {bound : Bool} (w : World)
    → w.device ≡ o
    → IsCountedPort o files bound
    → ((w.device ≡ none) × (files ≡ 0) × (bound ≡ false)) ⊎ IsLive w files bound
port_cases w e gone = inl (e, refl, refl)
port_cases w e (live d u files bound a b c f) = inr (d, u, e, a, b, c, f)

pub live-IsCounted :
    (w : World) (files : ℕ) (bound : Bool)
    → IsLive w files bound
    → w.intfdata ≡ bound
    → w.registered ≡ bound
    → IsCounted (record { world = w; files = files; bound = bound })
live-IsCounted w files bound (d, u, e, a, b, c, f) h k = record {
  port_ok = subst⁻¹ (λ o. IsCountedPort o files bound) e (live d u files bound a b c f);
  data_ok = h;
  registered_ok = k;
}

-- A port with a file or a binding is there.
pub held-IsLive :
    (s : System) → IsCounted s → 0 < s.files + held s.bound → IsLive s.world s.files s.bound
held-IsLive s ok h = elim (port_cases s.world refl ok.port_ok) [
  | inl (none_there, no_files, unbound) ↦ absurd (omega (arith, ap held unbound))
  | inr there ↦ there
]

gone-IsCounted :
    (w : World) (files : ℕ) (bound : Bool)
    → w.device ≡ none
    → files ≡ 0
    → bound ≡ false
    → w.intfdata ≡ bound
    → w.registered ≡ bound
    → IsCounted (record { world = w; files = files; bound = bound })
gone-IsCounted w files bound e f b h k = record {
  port_ok = rw (e, f, b) gone;
  data_ok = h;
  registered_ok = k;
}

-- A file that holds the only reference.
pub last_lem :
    (files : ℕ) (bound : Bool) → 0 < files → files + held bound ≡ 1 → (files ≡ 1) × (bound ≡ false)
last_lem files true h e = absurd (omega arith)
last_lem files false h e = (omega arith, refl)

-- The port behind a release.
release-IsCounted :
    (w w' : World) (files : ℕ) (bound : Bool) (r : Ret)
    → IsLive w files bound
    → w.intfdata ≡ bound
    → w.registered ≡ bound
    → 0 < files
    → release w true ≡ returned r w'
    → IsCounted (record { world = w'; files = files - 1; bound = bound })
release-IsCounted w w' files bound r (d, u, e, eu, count, pos, there) hd hr h k =
    let (left, data_kept, registered_kept) = released_lem w w' d u r e eu pos k in
    elim (Bool-cases (d.kref == 1)) [
      | inl last ↦
          (let (only, unbound) = last_lem files bound h (omega (arith, (==_iff d.kref 1).0 last)) in
            gone-IsCounted w' (files - 1) bound (ground arith) (omega arith) unbound
              (data_kept ∙ hd) (registered_kept ∙ hr))
      | inr other ↦
          live-IsCounted w' (files - 1) bound
            (record d { kref = d.kref - 1 }, u, ground arith, eu, omega arith, ground arith, there)
            (data_kept ∙ hd) (registered_kept ∙ hr)
    ]

pub Step-IsCounted : {s t : System} → Step s t → IsCounted s → IsCounted t
unfolding draw_down
Step-IsCounted (opened s w is_found e h) ok =
    let b = sym ok.data_ok ∙ open_data s.world w is_found e h in
    let (d, u, there, eu, count, pos, bound) = held-IsLive s ok (omega (arith, ap held b)) in
    let (there', data_kept, registered_kept) = open_lem s.world w is_found e d there h in
    live-IsCounted w (s.files + 1) s.bound
      (record d { kref = d.kref + 1 }, u, there', eu, omega arith, omega arith, bound)
      (data_kept ∙ ok.data_ok) (registered_kept ∙ ok.registered_ok)
Step-IsCounted (not_opened s w is_found e error h) ok = record {
  port_ok =
      subst⁻¹ (λ x. IsCountedPort x.device s.files s.bound)
        (not_opened_lem s.world w is_found e error h) ok.port_ok;
  data_ok = ap (λ x. x.intfdata) (not_opened_lem s.world w is_found e error h) ∙ ok.data_ok;
  registered_ok =
      ap (λ x. x.registered) (not_opened_lem s.world w is_found e error h) ∙ ok.registered_ok;
}
Step-IsCounted (released s w r pos h) ok =
    release-IsCounted s.world w s.files s.bound r (held-IsLive s ok (omega arith)) ok.data_ok
      ok.registered_ok pos h
Step-IsCounted (suspended s w r b h) ok =
    let (d, u, e, eu, count, pos, there) = held-IsLive s ok (omega (arith, ap held b)) in
    let (e', data_kept, registered_kept) = suspend_lem s.world w d r e (ok.data_ok ∙ b) h in
    live-IsCounted w s.files s.bound (draw_down d, u, e', eu, count, pos, there)
      (data_kept ∙ ok.data_ok) (registered_kept ∙ ok.registered_ok)
Step-IsCounted (before_reset s w r b h) ok =
    let (d, u, e, eu, count, pos, there) = held-IsLive s ok (omega (arith, ap held b)) in
    let (e', data_kept, registered_kept) = pre_reset_lem s.world w d r e (ok.data_ok ∙ b) h in
    live-IsCounted w s.files s.bound
      (draw_down (record d { io_locked = true }), u, e', eu, count, pos, there)
      (data_kept ∙ ok.data_ok) (registered_kept ∙ ok.registered_ok)
Step-IsCounted (behind_reset s w r b h) ok =
    let (d, u, e, eu, count, pos, there) = held-IsLive s ok (omega (arith, ap held b)) in
    let (e', data_kept, registered_kept) = post_reset_lem s.world w d r e (ok.data_ok ∙ b) h in
    live-IsCounted w s.files s.bound
      (record d { errors = some epipe; io_locked = false }, u, e', eu, count, pos, there)
      (data_kept ∙ ok.data_ok) (registered_kept ∙ ok.registered_ok)
Step-IsCounted (disconnected s w r b h) ok =
    let (d, u, e, eu, count, pos, there) = held-IsLive s ok (omega (arith, ap held b)) in
    let (more, e', no_data, no_minor) =
      disconnected_lem s.world w d u r e eu pos (ok.data_ok ∙ b) h in
    live-IsCounted w s.files false
      (
        record d { has_interface = false; anchored = 0; kref = d.kref - 1; timer = false },
        u,
        e',
        eu,
        omega (arith, ap held b),
        omega arith,
        refl,
      )
      no_data no_minor
