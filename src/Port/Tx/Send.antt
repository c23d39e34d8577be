-- ===== src/Port/Tx/Send.antt =====
-- What `oframe_worker` of src/port.c makes of a frame that waits: the bytes that reach the data endpoint
-- over as many runs as the frame needs, when the USB core takes every transfer.
use synccom_linux.Prelude.{
  ℕ, zero, suc, ◌+◌, ◌*◌, ◌/◌, ◌%◌, ◌≤◌, ◌<◌, min, ◌≡◌, refl, sym, ap, ◌∙◌, ◌⊎◌, true, false,
  Option, none, some, List, [], ◌∷◌, ◌++◌, append_assoc, append-nil, arith, if◌then◌else◌, leb,
  ◌==◌, length, take, drop, length-take, take-take, length-drop, append-take-drop,
}
use synccom_linux.Frame
use synccom_linux.Frame.{Frame, block, contents, shift_out}
use synccom_linux.Frame.Valid.{IsValid, max_size, four_aligned_bounds, shift_out_lem}
use synccom_linux.Registers.{port_offset, cmdr_offset, bc_fifo_l_offset}
use synccom_linux.Port.{Port, Message, bulk_out}
use synccom_linux.Port.Usb.{
  register_endpoint, pointer_size, write_command, set_register, store_register,
}
use synccom_linux.Port.Tx.{
  SubmitAnswers, data_write_endpoint, write_data, prepare_frame_for_fifo, transmit_frame,
  transmit_length, transmit_command, execute_transmit, next_oframe, send_oframe, oframe_worker,
}

-- The bytes that a list of transfers brings to the data endpoint.
unfoldable pub data_bytes : List Message → List ℕ
data_bytes [] = []
data_bytes (m ∷ ms) =
    if m.endpoint == data_write_endpoint then m.bytes ++ data_bytes ms else data_bytes ms

data_bytes-append : (xs ys : List Message) → data_bytes (xs ++ ys) ≡ data_bytes xs ++ data_bytes ys
unfolding data_bytes
data_bytes-append [] ys = refl
data_bytes-append (m ∷ xs) ys =
    ground (arith, data_bytes-append xs ys, append_assoc m.bytes (data_bytes xs) (data_bytes ys))

data_bytes-data :
    (xs : List Message) (bytes : List ℕ) (size : ℕ)
    → data_bytes
        (xs ++ (record { endpoint = data_write_endpoint; bytes = bytes; size = size } ∷ []))
      ≡ data_bytes xs ++ bytes
unfolding data_bytes
data_bytes-data xs bytes size =
    data_bytes-append xs _ ∙ ap (λ ys. data_bytes xs ++ ys) (append-nil bytes)

data_bytes-command :
    (xs : List Message) (bytes : List ℕ) (size : ℕ)
    → data_bytes (xs ++ (record { endpoint = register_endpoint; bytes = bytes; size = size } ∷ []))
      ≡ data_bytes xs
unfolding data_bytes
data_bytes-command xs bytes size = data_bytes-append xs _ ∙ append-nil (data_bytes xs)

-- The room of the FIFO, cut to a multiple of four.
abbrev pub fifo_space : ℕ
fifo_space = 99996

abbrev pub accepting : SubmitAnswers
accepting = record { urb_granted = true; buffer_granted = true; accepted = true }

store_register-sent : (p : Port) (i value : ℕ) → (store_register p i value).sent ≡ p.sent
unfolding store_register
store_register-sent p i value = ground arith

pub data_bytes-set_register :
    (p : Port) (offset value : ℕ)
    → data_bytes (set_register p 0 offset value).1.sent ≡ data_bytes p.sent
unfolding set_register
data_bytes-set_register p offset value =
    let bytes = write_command (port_offset p.channel 0 offset) value in
    let p' = bulk_out p register_endpoint bytes pointer_size in
    ap data_bytes (store_register-sent p' (offset / 4) value)
    ∙ data_bytes-command p.sent bytes pointer_size

transmit_length_lem :
    (n : ℕ)
    → 0 < n
    → n ≤ max_size
    → (0 < transmit_length n)
      × (transmit_length n < n + 4)
      × (transmit_length n ≤ fifo_space)
      × (transmit_length n % 4 ≡ 0)
      × ((n ≤ transmit_length n) ⊎ ((transmit_length n ≡ fifo_space) × (fifo_space < n)))
unfolding transmit_length
transmit_length_lem n h k = ground (arith, four_aligned_bounds n k)

data_bytes-write_data :
    (p : Port) (bytes : List ℕ)
    → 0 < length bytes
    → let (ok, p') = write_data p bytes accepting in
      (ok ≡ true) × (data_bytes p'.sent ≡ data_bytes p.sent ++ bytes)
unfolding write_data
data_bytes-write_data p bytes h = ground (arith, data_bytes-data p.sent bytes (length bytes))

-- One hand-over of a waiting frame: what reaches the data endpoint, and what is left.
prepare_lem :
    (p : Port) (f : Frame)
    → IsValid f
    → f.buffer_size % 4 ≡ 0
    → 0 < f.data_length
    → let n = transmit_length f.data_length in
      let (result, f', p') = prepare_frame_for_fifo p f accepting in
      (n ≤ f.buffer_size)
      × (data_bytes p'.sent ≡ data_bytes p.sent ++ take n (block f.buffer))
      × (f' ≡ shift_out f (min n f.data_length))
      × (result ≡ (if leb f.data_length n then 2 else 1))
unfolding prepare_frame_for_fifo Frame.get_length Frame.get_frame_size Frame.is_empty
    Frame.remove_data shift_out
prepare_lem p f v aligned h =
    let n = transmit_length f.data_length in
    let bytes = take n (block f.buffer) in
    ground (
      arith,
      transmit_length_lem f.data_length h (omega arith),
      data_bytes-write_data p bytes,
      data_bytes-set_register (write_data p bytes accepting).1 bc_fifo_l_offset f.frame_size,
      length-take n (block f.buffer),
    )

-- The runs of the worker, with the runs of its timer left out.
unfoldable pub runs : ℕ → Port → Port
runs zero p = p
runs (suc k) p = runs k (oframe_worker p accepting)

-- What one run of the worker makes of a pending frame: either it is all handed over, with less than four
-- bytes behind it, or a FIFO's worth of it is.
run_lem :
    (p : Port) (f : Frame)
    → IsValid f
    → f.buffer_size % 4 ≡ 0
    → 0 < f.data_length
    → p.pending_oframe ≡ some f
    → let n = transmit_length f.data_length in
      let p' = oframe_worker p accepting in
      (data_bytes p'.sent ≡ data_bytes p.sent ++ take n (block f.buffer))
      × (p'.pending_oframe ≡ (if leb f.data_length n then none else some (shift_out f n)))
unfolding oframe_worker next_oframe send_oframe transmit_frame execute_transmit
run_lem p f v aligned h pending =
    let start = record p { send_oframe_scheduled = false } in
    let (result, f', p') = prepare_frame_for_fifo start f accepting in
    ground (
      arith,
      prepare_lem start f v aligned h,
      data_bytes-set_register p' cmdr_offset (transmit_command p'.tx_modifiers),
      transmit_length_lem f.data_length h (omega arith),
    )

-- The padding of a transfer: the bytes of the block behind the data, less than four of them.
take-contents :
    (f : Frame) (n : ℕ)
    → IsValid f
    → n ≤ f.buffer_size
    → f.data_length ≤ n
    → n < f.data_length + 4
    → (pad : List ℕ) × (take n (block f.buffer) ≡ contents f ++ pad) × (length pad < 4)
take-contents f n v h k less =
    let sent = take n (block f.buffer) in
    (
      drop f.data_length sent,
      sym (append-take-drop f.data_length sent)
          ∙ ap (λ bytes. bytes ++ drop f.data_length sent)
              (take-take f.data_length n (block f.buffer) k),
      omega (arith, length-drop f.data_length sent, length-take n (block f.buffer)),
    )

pub run_last :
    (p : Port) (f : Frame)
    → IsValid f
    → f.buffer_size % 4 ≡ 0
    → p.pending_oframe ≡ some f
    → 0 < f.data_length
    → f.data_length ≤ fifo_space
    → let p' = oframe_worker p accepting in
      (p'.pending_oframe ≡ none)
      × (pad : List ℕ) × (data_bytes p'.sent ≡ data_bytes p.sent ++ (contents f ++ pad))
      × (length pad < 4)
run_last p f v aligned pending more enough =
    let n = transmit_length f.data_length in
    let (sent, left) = run_lem p f v aligned more pending in
    let (_, near, _, four, all) = transmit_length_lem f.data_length more (omega arith) in
    let (pad, same, short) = take-contents f n v (omega arith) (omega arith) near in
    (ground arith, pad, sent ∙ ap (λ bytes. data_bytes p.sent ++ bytes) same, short)

not_all : {o : Option Frame} (dl n : ℕ) → n < dl → (if leb dl n then none else o) ≡ o
not_all dl n h = ground arith

pub run_part :
    (p : Port) (f : Frame)
    → IsValid f
    → f.buffer_size % 4 ≡ 0
    → p.pending_oframe ≡ some f
    → fifo_space < f.data_length
    → let p' = oframe_worker p accepting in
      (p'.pending_oframe ≡ some (shift_out f fifo_space))
      × (data_bytes p'.sent ≡ data_bytes p.sent ++ take fifo_space (contents f))
run_part p f v aligned pending more =
    let n = transmit_length f.data_length in
    let (sent, left) = run_lem p f v aligned (omega arith) pending in
    let (_, _, within, _, full) = transmit_length_lem f.data_length (omega arith) (omega arith) in
    let whole : n ≡ fifo_space = omega arith in
    (
      left ∙ not_all f.data_length n (omega arith) ∙ ap (λ m. some (shift_out f m)) whole,
      sent
          ∙ ap (λ m. data_bytes p.sent ++ take m (block f.buffer)) whole
          ∙ ap (λ bytes. data_bytes p.sent ++ bytes)
              (sym (take-take fifo_space f.data_length (block f.buffer) (omega arith))),
    )

pub aligned-shift_out :
    (f : Frame) (n : ℕ) → f.buffer_size % 4 ≡ 0 → (shift_out f n).buffer_size % 4 ≡ 0
unfolding shift_out
aligned-shift_out f n h = h

-- The first part of a list, and what comes behind it.
join :
    (xs cs rest pad : List ℕ) (n : ℕ)
    → rest ≡ drop n cs
    → (xs ++ take n cs) ++ (rest ++ pad) ≡ xs ++ (cs ++ pad)
join xs cs rest pad n h =
    append_assoc xs (take n cs) (rest ++ pad)
    ∙ ap (λ ys. xs ++ ys)
        (sym (append_assoc (take n cs) rest pad)
          ∙ ap (λ ys. ys ++ pad) (ap (λ ys. take n cs ++ ys) h ∙ append-take-drop n cs))

-- A valid frame with at least one byte, in a block of a multiple of four bytes, is the pending one, and
-- the USB core takes every transfer: the worker has handed all of it over after as many runs as there
-- are parts of 99996 bytes in it, the last counted full. What reached the data endpoint in these runs
-- are the bytes of the frame, in order and each once, and less than four bytes behind them.
pub worker_sends_frame :
    (k : ℕ) (p : Port) (f : Frame)
    → IsValid f
    → f.buffer_size % 4 ≡ 0
    → p.pending_oframe ≡ some f
    → k * fifo_space < f.data_length
    → f.data_length ≤ suc k * fifo_space
    → let p' = runs (suc k) p in
      (p'.pending_oframe ≡ none)
      × (pad : List ℕ) × (data_bytes p'.sent ≡ data_bytes p.sent ++ (contents f ++ pad))
      × (length pad < 4)
unfolding runs
worker_sends_frame zero p f v aligned pending more enough =
    run_last p f v aligned pending more enough
worker_sends_frame (suc k) p f v aligned pending more enough =
    let (next, sent) = run_part p f v aligned pending (omega arith) in
    let (v', rest, len, _) = shift_out_lem f fifo_space v (omega arith) in
    let (ended, pad, same, short) =
      worker_sends_frame k (oframe_worker p accepting) (shift_out f fifo_space) v'
        (aligned-shift_out f fifo_space aligned) next (omega arith) (omega arith) in
    (
      ended,
      pad,
      same
          ∙ ap (λ ys. ys ++ (contents (shift_out f fifo_space) ++ pad)) sent
          ∙ join (data_bytes p.sent) (contents f) (contents (shift_out f fifo_space)) pad fifo_space
              rest,
      short,
    )
