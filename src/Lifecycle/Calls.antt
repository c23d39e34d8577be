-- ===== src/Lifecycle/Calls.antt =====
-- What each call of src/main.c on a port that is there leaves.
use synccom_linux.Prelude.{
  ◌+◌, ◌-◌, ◌<◌, ◌≡◌, refl, ◌⊎◌, inl, inr, Bool-cases, Bool, true, false, Option, none, some, arith,
  if◌then◌else◌, ◌==◌,
}
use synccom_linux.Port.{Errno, Ret, done, fail, epipe}
use synccom_linux.Lifecycle.{
  Urbs, Device, World, returned, faulted, delete, put, open_file, release, draw_down, disconnect,
  suspend, pre_reset, post_reset,
}

pub open_lem :
    (w w' : World) (is_found : Bool) (e : Option Errno) (d : Device)
    → w.device ≡ some d
    → open_file w is_found e ≡ returned (done 0) w'
    → (w'.device ≡ some (record d { kref = d.kref + 1 }))
      × (w'.intfdata ≡ w.intfdata)
      × (w'.registered ≡ w.registered)
unfolding open_file
open_lem w w' is_found e d there h = ground arith

pub open_data :
    (w w' : World) (is_found : Bool) (e : Option Errno)
    → open_file w is_found e ≡ returned (done 0) w'
    → w.intfdata ≡ true
unfolding open_file
open_data w w' is_found e h = ground arith

pub not_opened_lem :
    (w w' : World) (is_found : Bool) (e : Option Errno) (error : Errno)
    → open_file w is_found e ≡ returned (fail error) w'
    → w' ≡ w
unfolding open_file
not_opened_lem w w' is_found e error h = ground arith

pub suspend_lem :
    (w w' : World) (d : Device) (r : Ret)
    → w.device ≡ some d
    → w.intfdata ≡ true
    → suspend w ≡ returned r w'
    → (w'.device ≡ some (draw_down d)) × (w'.intfdata ≡ w.intfdata) × (w'.registered ≡ w.registered)
unfolding suspend
suspend_lem w w' d r there has_data h = ground arith

pub pre_reset_lem :
    (w w' : World) (d : Device) (r : Ret)
    → w.device ≡ some d
    → w.intfdata ≡ true
    → pre_reset w ≡ returned r w'
    → (w'.device ≡ some (draw_down (record d { io_locked = true })))
      × (w'.intfdata ≡ w.intfdata)
      × (w'.registered ≡ w.registered)
unfolding pre_reset
pre_reset_lem w w' d r there has_data h = ground arith

pub post_reset_lem :
    (w w' : World) (d : Device) (r : Ret)
    → w.device ≡ some d
    → w.intfdata ≡ true
    → post_reset w ≡ returned r w'
    → (w'.device ≡ some (record d { errors = some epipe; io_locked = false }))
      × (w'.intfdata ≡ w.intfdata)
      × (w'.registered ≡ w.registered)
unfolding post_reset
post_reset_lem w w' d r there has_data h = ground arith

-- The last reference that a file or the binding puts down frees the port, and another one does not.
pub release_lem :
    (w : World) (d : Device) (u : Urbs)
    → w.device ≡ some d
    → d.urbs ≡ some u
    → 0 < d.kref
    → d.io_locked ≡ false
    → (w' : World) × (release w true ≡ returned (done 0) w')
      × (w'.device ≡ (if d.kref == 1 then none else some (record d { kref = d.kref - 1 })))
      × (w'.intfdata ≡ w.intfdata)
      × (w'.registered ≡ w.registered)
unfolding release put delete
release_lem w d u e eu h unlocked = elim (Bool-cases (d.kref == 1)) [
  | inl last ↦ (
    record w { device = none; pm_count = (if d.has_interface then w.pm_count - 1 else w.pm_count) },
    ground arith,
    ground arith,
    refl,
    refl,
  )
  | inr other ↦ (
    record w {
      device = some (record d { kref = d.kref - 1 });
      pm_count = (if d.has_interface then w.pm_count - 1 else w.pm_count);
    },
    ground arith,
    ground arith,
    refl,
    refl,
  )
]

pub disconnect_lem :
    (w : World) (d : Device) (u : Urbs)
    → w.device ≡ some d
    → d.urbs ≡ some u
    → 0 < d.kref
    → d.io_locked ≡ false
    → w.intfdata ≡ true
    → ((d.kref ≡ 1) × (disconnect w ≡ faulted))
      ⊎ ((1 < d.kref)
          × (disconnect w
              ≡ returned (done 0) (record w {
                intfdata = false;
                registered = false;
                device = some (record d {
                  has_interface = false;
                  anchored = 0;
                  kref = d.kref - 1;
                  timer = false;
                });
              })))
unfolding disconnect put delete
disconnect_lem w d u e eu h unlocked has_data = elim (Bool-cases (d.kref == 1)) [
  | inl last ↦ inl (ground arith, ground arith)
  | inr other ↦ inr (ground arith, ground arith)
]

pub released_lem :
    (w w' : World) (d : Device) (u : Urbs) (r : Ret)
    → w.device ≡ some d
    → d.urbs ≡ some u
    → 0 < d.kref
    → release w true ≡ returned r w'
    → (w'.device ≡ (if d.kref == 1 then none else some (record d { kref = d.kref - 1 })))
      × (w'.intfdata ≡ w.intfdata)
      × (w'.registered ≡ w.registered)
unfolding release put delete
released_lem w w' d u r e eu h k = elim (Bool-cases (d.kref == 1)) [
  | inl last ↦ ground arith
  | inr other ↦ ground arith
]

pub disconnected_lem :
    (w w' : World) (d : Device) (u : Urbs) (r : Ret)
    → w.device ≡ some d
    → d.urbs ≡ some u
    → 0 < d.kref
    → w.intfdata ≡ true
    → disconnect w ≡ returned r w'
    → (1 < d.kref)
      × (w'.device
          ≡ some
              (record d { has_interface = false; anchored = 0; kref = d.kref - 1; timer = false }))
      × (w'.intfdata ≡ false)
      × (w'.registered ≡ false)
unfolding disconnect put delete
disconnected_lem w w' d u r e eu h k g = elim (Bool-cases (d.kref == 1)) [
  | inl last ↦ ground arith
  | inr other ↦ ground arith
]
