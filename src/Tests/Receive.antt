-- ===== src/Tests/Receive.antt =====
-- The receive path of src/port.c.
use synccom_linux.Prelude.{
  ℕ, ◌≡◌, ◌≤◌, ◌<◌, refl, true, false, if◌then◌else◌, ◌==◌, none, some, List, [], ◌∷◌, ◌++◌, length,
  take, get_or, replicate, arith,
}
use synccom_linux.Frame
use synccom_linux.Frame.{contents}
use synccom_linux.Frame.Valid.{IsValid}
use synccom_linux.Port.{Port, Ret, done}
use synccom_linux.Port.Settings
use synccom_linux.Port.Memory.{get_input_memory_usage}
use synccom_linux.Port.Rx.{
  Urb, UserWrite, payload_of, read_data_callback, update_bc_buffer, frame_read,
}
use synccom_linux.Port.Rx.Receive.{receive_lem, receive_within_cap}
use synccom_linux.Port.Rx.Stream.{IsWhole, IsStream}
use synccom_linux.Port.Rx.Flow.{reading, arrival, flow, reads_in_order}
use synccom_linux.Port.Rx.Listing.{Makes, update_bc_buffer-frame_read}
use synccom_linux.Port.Rx.Spec.{all_long, deliver, gather, prepend}
use synccom_linux.Port.Rx.Round.{sizes_of}
use synccom_linux.Port.Rx.Deliver.{frame_read_lem}
use synccom_linux.Driver.Readers.{
  Event, calls, turns, arrives, World, holds, resting, leaving, moves,
}
use synccom_linux.Driver.Readers.Moves.{readers_get_bytes}
use synccom_linux.Tests.{three, six, idle}

-- A port whose stream holds six bytes, of which the first three are a frame.
abbrev received : Port
received = record idle {
  istream = six;
  queued_iframes = record { frames = three ∷ []; estimated_memory_usage = 0 };
}

-- Four bytes of payload.
abbrev transfer : Urb
transfer = record {
  status = none;
  actual_length = 6;
  transfer_buffer = 0 ∷ 4 ∷ 102 ∷ 101 ∷ 104 ∷ 103 ∷ replicate 506 0;
}

six-IsValid : IsValid six
six-IsValid = record { sized = refl; fits = omega arith; small = omega arith }

receive_example :
    (p' : Port) × (read_data_callback received transfer true ≡ some p')
    × IsValid p'.istream
    × (length (contents p'.istream) ≡ 10)
    × (take 6 (contents p'.istream) ≡ 10 ∷ 11 ∷ 12 ∷ 13 ∷ 14 ∷ 15 ∷ [])
    × (get_or (contents p'.istream) 6 0 ≡ 101)
    × (p'.submitted_urbs ≡ 8)
unfolding payload_of get_input_memory_usage Frame.get_length
receive_example =
    receive_lem received transfer 0 six-IsValid refl (omega arith) refl (omega arith) (omega arith)
      (omega arith) (omega arith) (omega arith) (omega arith)

receive_within_cap_example :
    (p' : Port) × (read_data_callback received transfer true ≡ some p')
    × (p'.memory_cap ≡ idle.memory_cap)
    × (get_input_memory_usage p' ≤ p'.memory_cap.input)
unfolding payload_of get_input_memory_usage Frame.get_length
receive_within_cap_example =
    receive_within_cap received transfer true (omega arith) (omega arith) (omega arith)
      (omega arith) (omega arith)

frame_read_example :
    (writes : List UserWrite) × (p' : Port) × (frame_read received 100 (λ _. 0)
      ≡ some (done 1, writes, p'))
    × (gather 0 writes ≡ some (10 ∷ []))
    × (1 ≤ 100)
    × (sizes_of p'.queued_iframes.frames ≡ [])
    × (contents p'.istream ≡ 13 ∷ 14 ∷ 15 ∷ [])
    × IsValid p'.istream
unfolding all_long deliver prepend
frame_read_example = frame_read_lem received 100 six-IsValid refl refl (omega arith)

-- A port in transparent mode, whose stream holds six bytes.
abbrev streaming : Port
streaming = record idle { istream = six; register_storage = replicate 7 0 ++ (2 ∷ replicate 16 0) }

streaming-IsStream : IsStream streaming
unfolding Settings.is_streaming Settings.is_streaming_mode
streaming-IsStream = record {
  valid = six-IsValid;
  streaming = refl;
  none_listed = refl;
  none_pending = refl;
  within = omega arith;
  capped = omega arith;
}

transfer-IsWhole : IsWhole transfer
transfer-IsWhole = record {
  full = refl;
  not_one = omega arith;
  within = omega arith;
  spelt = omega arith;
}

reads_in_order_example :
    (taken given : List ℕ) × (q : Port) × (flow
        (reading 4 ∷ arrival transfer ∷ reading 100 ∷ [])
        streaming
      ≡ some (taken, given, q))
    × ((10 ∷ 11 ∷ 12 ∷ 13 ∷ 14 ∷ 15 ∷ []) ++ taken ≡ given ++ contents q.istream)
    × IsStream q
    × (q.memory_cap ≡ idle.memory_cap)
reads_in_order_example =
    reads_in_order (reading 4 ∷ arrival transfer ∷ reading 100 ∷ []) streaming streaming-IsStream
      (transfer-IsWhole, tt)

-- Two threads that call, and the first, which finds data.
abbrev two_reads : List Event
two_reads =
    calls 0 4 false
    ∷ calls 1 4 true
    ∷ turns 0 false
    ∷ turns 1 false
    ∷ turns 0 false
    ∷ arrives transfer
    ∷ turns 0 false
    ∷ []

readers_get_bytes_example :
    (w' : World) × (moves
        (record { port = streaming; semaphore = 1; readers = λ _. resting (done 0) })
        two_reads
      ≡ some w')
    × ((i j : ℕ) → holds (w'.readers i) ≡ true → holds (w'.readers j) ≡ true → i ≡ j)
    × ((i : ℕ) (r : Ret) → w'.readers i ≡ leaving r → (n : ℕ) × (r ≡ done n) × (0 < n))
readers_get_bytes_example =
    readers_get_bytes two_reads
      (record { port = streaming; semaphore = 1; readers = λ _. resting (done 0) })
      (record { one = refl; idle = λ i. (done 0, refl); stream = streaming-IsStream })
      (transfer-IsWhole, tt)

-- A port whose device has two frames of three bytes ready.
abbrev reporting : Port
reporting = record idle {
  istream = six;
  device = λ sent. (if length sent == 1 then 0x02000000 else 0x03000000);
}

update_bc_buffer-frame_read_example :
    (p' : Port) × (update_bc_buffer reporting (λ _. true) (λ _. []) ≡ some p')
    × Makes p' 100 (deliver false false 100 (3 ∷ 3 ∷ []) (10 ∷ 11 ∷ 12 ∷ 13 ∷ 14 ∷ 15 ∷ []))
unfolding all_long
update_bc_buffer-frame_read_example =
    update_bc_buffer-frame_read reporting (λ _. []) (3 ∷ 3 ∷ []) 100
      (2, omega arith, refl, refl, (omega arith, refl, (omega arith, refl, tt))) six-IsValid refl
      refl (omega arith)
