-- ===== src/Lifecycle/Probed.antt =====
-- What `synccom_probe` of src/main.c comes to, and what it needs.
use synccom_linux.Prelude.{
  ℕ, zero, suc, ◌≡◌, refl, ◌⊎◌, inl, inr, Bool-cases, Option-cases, Bool, true, false, ◌&&◌, ◌||◌,
  not, none, some, List, [], ◌∷◌, arith, ◌==◌,
}
use synccom_linux.Port.{done, fail, enomem}
use synccom_linux.Lifecycle.{
  Urbs, Device, World, returned, faulted, create_from, create_urbs, delete, put,
}
use synccom_linux.Port.Init.{number_of_urbs}
use synccom_linux.Lifecycle.Count.{IsCounted, live}
use synccom_linux.Lifecycle.Probe.{
  Endpoint, ProbeAnswers, fresh, scan_endpoint, scan_endpoints, probe,
}

-- There is an endpoint of a kind, with an address.
abbrev pub has_endpoint : (Endpoint → Bool) → List Endpoint → Bool
has_endpoint test [] = false
has_endpoint test (e ∷ es) = (test e && not (e.address == 0)) || has_endpoint test es

scan_kept :
    (d : Device) (es : List Endpoint)
    → ((scan_endpoints d es).urbs ≡ d.urbs)
      × ((scan_endpoints d es).kref ≡ d.kref)
      × ((scan_endpoints d es).has_interface ≡ d.has_interface)
unfolding scan_endpoints scan_endpoint
scan_kept d [] = (refl, refl, refl)
scan_kept d (e ∷ es) = ground (arith, scan_kept (scan_endpoint d e) es)

scan_in :
    (d : Device) (es : List Endpoint)
    → ((scan_endpoints d es).bulk_in_address == 0)
      ≡ (d.bulk_in_address == 0 && not (has_endpoint (λ e. e.is_bulk_in) es))
unfolding scan_endpoints scan_endpoint
scan_in d [] = ground arith
scan_in d (e ∷ es) = ground (arith, scan_in (scan_endpoint d e) es)

scan_out :
    (d : Device) (es : List Endpoint)
    → ((scan_endpoints d es).bulk_out_address == 0)
      ≡ (d.bulk_out_address == 0 && not (has_endpoint (λ e. e.is_bulk_out) es))
unfolding scan_endpoints scan_endpoint
scan_out d [] = ground arith
scan_out d (e ∷ es) = ground (arith, scan_out (scan_endpoint d e) es)

-- The requests for URBs from i on are granted.
abbrev pub all_granted : ℕ → ℕ → (ℕ → Bool) → Bool
all_granted zero i granted = true
all_granted (suc n) i granted = granted i && all_granted n (suc i) granted

create_from_lem :
    (n i : ℕ) (urb_granted buffer_granted : ℕ → Bool)
    → ((all_granted n i urb_granted ≡ true)
        × ((u : Urbs) × (create_from n i urb_granted buffer_granted ≡ some u)))
      ⊎ ((all_granted n i urb_granted ≡ false)
          × (create_from n i urb_granted buffer_granted ≡ none))
unfolding create_from
create_from_lem zero i f g = inl (refl, (record { urbs = []; buffers = [] }, refl))
create_from_lem (suc n) i f g = elim (Bool-cases (f i)) [
  | inr refused ↦ inr (ground arith, ground arith)
  | inl given ↦ elim (create_from_lem n (suc i) f g) [
    | inl (all, made) ↦
        (let (u, e) = made in
          inl (
            ground arith,
            (record { urbs = true ∷ u.urbs; buffers = g i ∷ u.buffers }, ground arith),
          ))
    | inr (some_refused, e) ↦ inr (ground arith, ground arith)
  ]
]

-- What a probe needs behind the memory for the port: an endpoint of each direction, a minor, and the memory
-- for the transfers, but for their buffers.
abbrev pub is_usable : ProbeAnswers → Bool
is_usable a =
    has_endpoint (λ e. e.is_bulk_in) a.endpoints
    && has_endpoint (λ e. e.is_bulk_out) a.endpoints
    && elim a.register_error [ none ↦ true | some e ↦ false ]
    && (a.urbs_granted && a.buffers_granted && all_granted number_of_urbs 0 a.urb_granted)

-- A fresh port has no arrays, so that putting its reference down faults.
put-fresh :
    (w : World) (es : List Endpoint) (data_kept : Bool)
    → put (record w { device = some (scan_endpoints fresh es); intfdata = data_kept }) ≡ none
unfolding put delete
put-fresh w es kept = ground (arith, scan_kept fresh es)

abbrev pub ProbeOutcome : World → ProbeAnswers → Type 0
ProbeOutcome w a =
    ((a.port_granted ≡ false) × (probe w a ≡ returned (fail enomem) w))
    ⊎ ((a.port_granted ≡ true) × (is_usable a ≡ false) × (probe w a ≡ faulted))
    ⊎ ((a.port_granted ≡ true)
        × (is_usable a ≡ true)
        × ((w' : World) × (probe w a ≡ returned (done 0) w')
            × IsCounted (record { world = w'; files = 0; bound = true })))

create_urbs_lem :
    (a : ProbeAnswers)
    → ((a.urbs_granted && a.buffers_granted && all_granted number_of_urbs 0 a.urb_granted ≡ true)
        × ((u : Urbs) × (create_urbs a.urbs_granted a.buffers_granted a.urb_granted a.buffer_granted
              ≡ some u)))
      ⊎ ((a.urbs_granted && a.buffers_granted && all_granted number_of_urbs 0 a.urb_granted ≡ false)
          × (create_urbs a.urbs_granted a.buffers_granted a.urb_granted a.buffer_granted ≡ none))
unfolding create_urbs
create_urbs_lem a = elim (create_from_lem number_of_urbs 0 a.urb_granted a.buffer_granted) [
  | inl (all, made) ↦
      (let (u, e) = made in
        elim (Bool-cases (a.urbs_granted && a.buffers_granted)) [
          | inl arrays ↦ inl (ground arith, (u, ground arith))
          | inr no_arrays ↦ inr (ground arith, ground arith)
        ])
  | inr (refused, e) ↦ inr (ground arith, ground arith)
]

-- The loop finds both endpoints where there are both.
missing_lem :
    (es : List Endpoint)
    → ((scan_endpoints fresh es).bulk_in_address == 0
        || (scan_endpoints fresh es).bulk_out_address == 0)
      ≡ not (has_endpoint (λ e. e.is_bulk_in) es && has_endpoint (λ e. e.is_bulk_out) es)
missing_lem es = ground (arith, scan_in fresh es, scan_out fresh es)

-- What a probe comes to: without memory for the port it returns ENOMEM and nothing has changed; with it,
-- and with something else missing that it needs, it follows a NULL pointer; and where nothing is missing it
-- returns 0 and leaves a port with its transfers, whose one reference is that of the binding.
pub probe_lem : (w : World) (a : ProbeAnswers) → ProbeOutcome w a
unfolding probe
probe_lem w a = elim (Bool-cases a.port_granted) [
  | inr refused ↦ inl (refused, ground arith)
  | inl given ↦ elim (Bool-cases (d.bulk_in_address == 0 || d.bulk_out_address == 0)) [
    | inl missing ↦ inr (
        inl (
          given,
          ground (arith, missing_lem a.endpoints),
          ground (arith, put-fresh w a.endpoints w.intfdata),
        ))
    | inr complete ↦ elim (Option-cases a.register_error) [
      | inr (e, no_minor) ↦
          inr (inl (given, ground arith, ground (arith, put-fresh w a.endpoints false)))
      | inl minor ↦ elim (create_urbs_lem a) [
        | inr (refused, failed) ↦ inr (inl (given, ground arith, ground arith))
        | inl (all, made) ↦
            (let (u, created) = made in
              inr (
                inr (
                  given,
                  ground (arith, missing_lem a.endpoints),
                  (
                    record w {
                      device = some (record d { urbs = some u; timer = true });
                      intfdata = true;
                      registered = true;
                    },
                    ground arith,
                    record {
                      port_ok =
                          live (record d { urbs = some u; timer = true }) u 0 true refl
                            (scan_kept fresh a.endpoints).1
                            (ground (arith, scan_kept fresh a.endpoints))
                            (scan_kept fresh a.endpoints).2;
                      data_ok = refl;
                      registered_ok = refl;
                    },
                  ),
                )))
      ]
    ]
  ]
]
  where
    d : Device
    d = scan_endpoints fresh a.endpoints
