-- ===== src/Lifecycle/Probe.antt =====
-- `synccom_probe` of src/main.c: the port is allocated, its endpoints are looked up, and it gets a minor.
use synccom_linux.Prelude.{
  ℕ, Bool, true, false, ◌&&◌, ◌||◌, not, Option, none, some, List, [], ◌∷◌, if◌then◌else◌, ◌==◌,
}
use synccom_linux.Port.{Errno, Ret, done, fail, enomem}
use synccom_linux.Lifecycle.{Urbs, Device, World, Call, returned, faulted, create_urbs, put}

-- `struct usb_endpoint_descriptor` with what `usb_endpoint_is_bulk_in` and `_out` say of it.
pub record Endpoint : Type 0 where
  pub address : ℕ
  pub max_packet : ℕ
  pub is_bulk_in : Bool
  pub is_bulk_out : Bool

-- What comes from outside: the answers to requests for memory, the endpoints, and the error of
-- `usb_register_dev`.
pub record ProbeAnswers : Type 0 where
  pub port_granted : Bool
  pub endpoints : List Endpoint
  pub register_error : Option Errno
  pub urbs_granted : Bool
  pub buffers_granted : Bool
  pub urb_granted : ℕ → Bool
  pub buffer_granted : ℕ → Bool

-- The port behind `kzalloc`, with a reference and its interface.
abbrev pub fresh : Device
fresh = record {
  urbs = none;
  kref = 1;
  has_interface = true;
  timer = false;
  io_locked = false;
  anchored = 0;
  errors = none;
  bulk_in_size = 0;
  bulk_in_address = 0;
  bulk_out_address = 0;
  bulk_out_address2 = 0;
}

-- A round of the loop over the endpoints: the first bulk-in and the first bulk-out endpoint, and the last
-- bulk-out endpoint.
unfoldable pub scan_endpoint : Device → Endpoint → Device
scan_endpoint d e =
    let d1 =
      (if d.bulk_in_address == 0 && e.is_bulk_in
        then record d { bulk_in_size = e.max_packet; bulk_in_address = e.address }
        else d) in
    let d2 =
      (if d1.bulk_out_address == 0 && e.is_bulk_out
        then record d1 { bulk_out_address = e.address }
        else d1) in
    if not (d2.bulk_out_address == 0) && e.is_bulk_out
    then record d2 { bulk_out_address2 = e.address }
    else d2

unfoldable pub scan_endpoints : Device → List Endpoint → Device
scan_endpoints d [] = d
scan_endpoints d (e ∷ es) = scan_endpoints (scan_endpoint d e) es

-- `error:`, with the port.
abbrev pub probe_error : Ret → Option World → Call
probe_error r none = faulted
probe_error r (some w) = returned r w

-- The end of `synccom_probe`: `initialize` creates the transfers and starts the timer.
abbrev pub attach : World → Device → Option Urbs → Call
attach w d none = faulted
attach w d (some urbs) =
    returned (done 0) (record w { device = some (record d { urbs = some urbs; timer = true }) })

-- `synccom_probe`
unfoldable pub probe : World → ProbeAnswers → Call
probe w answers =
    let d = scan_endpoints fresh answers.endpoints in
    let w1 = record w { device = some d } in
    let urbs =
      create_urbs answers.urbs_granted answers.buffers_granted answers.urb_granted
        answers.buffer_granted in
    if not answers.port_granted
    then returned (fail enomem) w
    else if d.bulk_in_address == 0 || d.bulk_out_address == 0
    then probe_error (fail enomem) (put w1)
    else elim answers.register_error [
      | some e ↦ probe_error (fail e) (put (record w1 { intfdata = false }))
      | none ↦ attach (record w1 { intfdata = true; registered = true }) d urbs
    ]
