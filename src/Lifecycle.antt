-- ===== src/Lifecycle.antt =====
-- The life of a port in src/main.c: probe, open, release, suspend, reset and disconnect, the reference count
-- that they keep, and the arrays of receive transfers of src/port.c. What `initialize` does to the other
-- fields is in Port/Init.
pub mod Calls
pub mod Count
pub mod Probe
pub mod Probed
pub mod Safe
use synccom_linux.Prelude.{
  ℕ, zero, suc, ◌+◌, ◌-◌, Bool, true, false, ◌&&◌, ◌||◌, not, Option, none, some, List, [], ◌∷◌,
  if◌then◌else◌, ◌==◌,
}
use synccom_linux.Port.{Errno, Ret, done, fail, enomem, enodev, epipe}
use synccom_linux.Port.Init.{number_of_urbs}

-- `bulk_in_urbs` and `bulk_in_buffers`: which of the pointers are not NULL.
pub record Urbs : Type 0 where
  pub urbs : List Bool
  pub buffers : List Bool

-- The fields of `struct synccom_port` that its life depends on. `urbs` is `none` while the arrays are NULL;
-- `io_locked` says that `io_mutex` is held between two calls, `timer` that the timer is set up, `anchored`
-- counts the transfers on the anchor `submitted`.
pub record Device : Type 0 where
  pub urbs : Option Urbs
  pub kref : ℕ
  pub has_interface : Bool
  pub timer : Bool
  pub io_locked : Bool
  pub anchored : ℕ
  pub errors : Option Errno
  pub bulk_in_size : ℕ
  pub bulk_in_address : ℕ
  pub bulk_out_address : ℕ
  pub bulk_out_address2 : ℕ

-- The port in memory, `none` before it is allocated and after it is freed, and the interface: whether its
-- data points to the port, whether it has a minor, and its count of users that keep it awake.
pub record World : Type 0 where
  pub device : Option Device
  pub intfdata : Bool
  pub registered : Bool
  pub pm_count : ℕ

-- A call that returns, that reads freed memory or a NULL pointer, or that waits for `io_mutex`.
pub data Call : Type 0 where
  returned : Ret → World → Call
  faulted : Call
  waits : World → Call

-- The loop of `synccom_port_create_urbs`, for the rounds left: the answers to the requests for a URB and a
-- buffer. `usb_fill_bulk_urb` writes to the URB.
unfoldable pub create_from : ℕ → ℕ → (ℕ → Bool) → (ℕ → Bool) → Option Urbs
create_from zero i urb_granted buffer_granted = some (record { urbs = []; buffers = [] })
create_from (suc n) i urb_granted buffer_granted =
    let rest = create_from n (suc i) urb_granted buffer_granted in
    if urb_granted i
    then elim rest [
      | none ↦ none
      | some r ↦ some (record { urbs = true ∷ r.urbs; buffers = buffer_granted i ∷ r.buffers })
    ]
    else none

-- `synccom_port_create_urbs`, with the answers to the requests for the two arrays.
unfoldable pub create_urbs : Bool → Bool → (ℕ → Bool) → (ℕ → Bool) → Option Urbs
create_urbs urbs_granted buffers_granted urb_granted buffer_granted =
    if urbs_granted && buffers_granted
    then create_from number_of_urbs 0 urb_granted buffer_granted
    else none

-- `synccom_delete`: `synccom_port_destroy_urbs` reads the arrays. `none` is a fault.
unfoldable pub delete : World → Option Urbs → Option World
delete w none = none
delete w (some urbs) = some (record w { device = none })

-- `kref_put(&port->kref, synccom_delete)`
unfoldable pub put : World → Option World
put w = elim w.device [
  | none ↦ none
  | some d ↦
      (let deleted = delete w d.urbs in
        let kept = some (record w { device = some (record d { kref = d.kref - 1 }) }) in
        if d.kref == 1 then deleted else kept)
]

-- `synccom_open`: whether the interface is found for the minor, and how it is woken up.
unfoldable pub open_file : World → Bool → Option Errno → Call
open_file w is_found pm_error =
    if not (is_found && w.intfdata) then returned (fail enodev) w else elim pm_error [
      | some e ↦ returned (fail e) w
      | none ↦ (elim w.device [
        | none ↦ faulted
        | some d ↦
            returned (done 0) (record w {
              device = some (record d { kref = d.kref + 1 });
              pm_count = w.pm_count + 1;
            })
      ])
    ]

-- What a call that puts the reference down at its end returns.
abbrev pub after_put : Option World → Call
after_put none = faulted
after_put (some w) = returned (done 0) w

-- `synccom_release`, for a file with or without `private_data`.
unfoldable pub release : World → Bool → Call
release w has_private_data =
    if has_private_data
    then elim w.device [
      | none ↦ faulted
      | some d ↦
          (if d.io_locked
            then waits w
            else after_put
                (put (if d.has_interface then record w { pm_count = w.pm_count - 1 } else w)))
    ]
    else returned (fail enodev) w

-- `synccom_draw_down`: at its end, after the wait or the kill, nothing is anchored.
unfoldable pub draw_down : Device → Device
draw_down d = record d { anchored = 0 }

-- `del_timer`, behind the last use of the reference in `synccom_disconnect`.
abbrev pub stop_timer : Option World → Call
stop_timer none = faulted
stop_timer (some w) = elim w.device [
  | none ↦ faulted
  | some d ↦ returned (done 0) (record w { device = some (record d { timer = false }) })
]

-- `synccom_disconnect`
unfoldable pub disconnect : World → Call
disconnect w =
    let w' = record w { intfdata = false; registered = false } in
    if w.intfdata
    then elim w.device [
      | none ↦ faulted
      | some d ↦
          (if d.io_locked
            then waits w'
            else stop_timer (
                put
                  (record w' { device = some (record d { has_interface = false; anchored = 0 }) })))
    ]
    else faulted

-- `synccom_suspend`
unfoldable pub suspend : World → Call
suspend w =
    if w.intfdata
    then elim w.device [
      | none ↦ faulted
      | some d ↦ returned (done 0) (record w { device = some (draw_down d) })
    ]
    else returned (done 0) w

-- `synccom_pre_reset`, which keeps the mutex.
unfoldable pub pre_reset : World → Call
pre_reset w =
    if w.intfdata
    then elim w.device [
      | none ↦ faulted
      | some d ↦
          (if d.io_locked
            then waits w
            else returned (done 0)
                (record w { device = some (draw_down (record d { io_locked = true })) }))
    ]
    else faulted

-- `synccom_post_reset`
unfoldable pub post_reset : World → Call
post_reset w =
    if w.intfdata
    then elim w.device [
      | none ↦ faulted
      | some d ↦
          returned (done 0)
            (record w { device = some (record d { errors = some epipe; io_locked = false }) })
    ]
    else faulted
