-- ===== src/Tests/Lifecycle.antt =====
-- A device with a bulk-in and two bulk-out endpoints through its life, src/main.c.
use synccom_linux.Prelude.{
  ℕ, ◌+◌, ◌<◌, ◌≡◌, ◌≢◌, ◌⊎◌, refl, true, false, none, some, [], ◌∷◌, arith, replicate,
}
use synccom_linux.Port.{done}
use synccom_linux.Lifecycle.{
  Device, World, returned, faulted, create_from, create_urbs, open_file, put, release, disconnect,
}
use synccom_linux.Lifecycle.Count.{System, held, IsCounted, opened, disconnected, Reach, here, next}
use synccom_linux.Lifecycle.Probe.{ProbeAnswers, fresh, scan_endpoint, scan_endpoints, probe}
use synccom_linux.Lifecycle.Probed.{ProbeOutcome, probe_lem}
use synccom_linux.Lifecycle.Safe.{probe-Reach, release-frees, disconnect-faults}

abbrev nothing : World
nothing = record { device = none; intfdata = false; registered = false; pm_count = 0 }

abbrev adapter : ProbeAnswers
adapter = record {
  port_granted = true;
  endpoints =
      record { address = 0x01; max_packet = 512; is_bulk_in = false; is_bulk_out = true }
      ∷ record { address = 0x82; max_packet = 512; is_bulk_in = true; is_bulk_out = false }
      ∷ record { address = 0x06; max_packet = 512; is_bulk_in = false; is_bulk_out = true }
      ∷ [];
  register_error = none;
  urbs_granted = true;
  buffers_granted = true;
  urb_granted = λ _. true;
  buffer_granted = λ _. true;
}

abbrev scanned : Device
scanned = record fresh {
  urbs = some (record { urbs = replicate 8 true; buffers = replicate 8 true });
  timer = true;
  bulk_in_size = 512;
  bulk_in_address = 0x82;
  bulk_out_address = 0x01;
  bulk_out_address2 = 0x06;
}

abbrev attached : World
attached = record { device = some scanned; intfdata = true; registered = true; pm_count = 0 }

abbrev in_use : World
in_use = record attached { device = some (record scanned { kref = 2 }); pm_count = 1 }

abbrev unplugged : World
unplugged = record {
  device = some (record scanned { has_interface = false; timer = false });
  intfdata = false;
  registered = false;
  pm_count = 1;
}

attached-probe : probe nothing adapter ≡ returned (done 0) attached
unfolding probe create_urbs create_from scan_endpoints scan_endpoint
attached-probe = refl

in_use-open_file : open_file attached true none ≡ returned (done 0) in_use
unfolding open_file
in_use-open_file = refl

unplugged-disconnect : disconnect in_use ≡ returned (done 0) unplugged
unfolding disconnect put
unplugged-disconnect = refl

abbrev attached_system : System
attached_system = record { world = attached; files = 0; bound = true }

abbrev in_use_system : System
in_use_system = record { world = in_use; files = 1; bound = true }

abbrev unplugged_system : System
unplugged_system = record { world = unplugged; files = 1; bound = false }

Reach-unplugged : Reach attached_system unplugged_system
Reach-unplugged =
    next (next here (opened attached_system in_use true none in_use-open_file))
      (disconnected in_use_system unplugged (done 0) refl unplugged-disconnect)

attached-IsCounted : IsCounted attached_system
attached-IsCounted = probe-Reach nothing attached adapter attached_system attached-probe here

unplugged-IsCounted : IsCounted unplugged_system
unplugged-IsCounted =
    probe-Reach nothing attached adapter unplugged_system attached-probe Reach-unplugged

probe-Reach_example : IsCounted unplugged_system
probe-Reach_example =
    probe-Reach nothing attached adapter unplugged_system attached-probe Reach-unplugged

probe_example : ProbeOutcome nothing adapter
probe_example = probe_lem nothing adapter

release-frees_example :
    (w' : World) × (release unplugged true ≡ returned (done 0) w')
    × (((◌≡◌ {A = ℕ} 1 1) × (false ≡ false) × (w'.device ≡ none))
        ⊎ ((1 < 1 + held false) × (w'.device ≢ none)))
release-frees_example =
    release-frees unplugged_system (record scanned { has_interface = false; timer = false })
      unplugged-IsCounted (omega arith) refl refl

disconnect-faults_example :
    ((◌≡◌ {A = ℕ} 0 0) × (disconnect attached ≡ faulted))
    ⊎ ((0 < 0)
        × ((w' : World) × (disconnect attached ≡ returned (done 0) w')
            × IsCounted (record { world = w'; files = 0; bound = false })))
disconnect-faults_example =
    disconnect-faults attached_system scanned attached-IsCounted refl refl refl
