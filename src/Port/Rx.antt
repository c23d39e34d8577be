-- ===== src/Port/Rx.antt =====
-- The receive path, src/port.c and src/frame.c: the callback of a receive transfer appends its bytes to
-- the stream `istream`; `update_bc_buffer` asks the device for the sizes of the frames that are
-- complete; `read` hands out bytes of the stream, or whole frames cut from it by those sizes.
-- Each function runs as one step: what another thread does while its locks are free is not modelled.
pub mod Receive
pub mod Round
pub mod Deliver
pub mod Stream
pub mod Flow
pub mod Listing
pub mod Spec
use synccom_linux.Prelude.{
  ℕ, zero, suc, ◌+◌, ◌-◌, ◌*◌, ◌/◌, ◌%◌, ◌^◌, min, Bool, true, false, not, ◌||◌, ◌&&◌, Option, none,
  some, List, [], ◌∷◌, ◌++◌, if◌then◌else◌, ltb, leb, ◌==◌, u32, add32, sub32, nonneg32, bit_and,
  bit_or, length, take, drop, get_or,
}
use synccom_linux.Frame
use synccom_linux.Frame.{Frame, timestamp_size}
use synccom_linux.Flist
use synccom_linux.Registers.{fifo_fc_offset, bc_fifo_l_offset}
use synccom_linux.Port.{Port, Errno, Ret, done, fail, enobufs}
use synccom_linux.Port.Usb.{get_register}
use synccom_linux.Port.Settings.{truth, is_streaming}
use synccom_linux.Port.Memory.{get_input_memory_usage}

-- A receive transfer that has ended: its status, `none` for 0, its length, and its buffer, which has
-- `URB_BUFFER_SIZE` bytes.
pub record Urb : Type 0 where
  pub status : Option Errno
  pub actual_length : ℕ
  pub transfer_buffer : List ℕ

abbrev pub urb_buffer_size : ℕ
urb_buffer_size = 512

-- The loop of the callback that exchanges the bytes of each pair, for a number of pairs.
unfoldable pub swap_pairs : ℕ → List ℕ → List ℕ
swap_pairs zero xs = xs
swap_pairs (suc n) (a ∷ b ∷ xs) = b ∷ a ∷ swap_pairs n xs
swap_pairs (suc n) (a ∷ []) = a ∷ []
swap_pairs (suc n) [] = []

-- How many pairs the loop `for (i = 0; i < payload + 2; i += 2)` exchanges.
abbrev pub pairs_to_swap : ℕ → ℕ
pairs_to_swap payload = (add32 payload 2 + 1) / 2

-- The size of the payload: the first two bytes of the buffer, unless these repeat the last two of the
-- previous transfer and are equal; then what the transfer holds behind them.
unfoldable pub payload_of : Port → Urb → ℕ
payload_of p urb =
    let first = get_or urb.transfer_buffer 0 0 in
    let second = get_or urb.transfer_buffer 1 0 in
    if p.errorcheck1 == first && p.errorcheck2 == second && p.errorcheck1 == p.errorcheck2
    then sub32 urb.actual_length 2
    else bit_or (first * 2 ^ 8) second

-- The transfer is handed back to the USB core.
abbrev pub resubmit : Port → Port
resubmit p = record p { submitted_urbs = p.submitted_urbs + 1 }

-- The last two bytes are kept for the comparison above.
abbrev pub remember : Port → Urb → Port
remember p urb = record p {
  errorcheck1 = get_or urb.transfer_buffer (urb.actual_length - 1) 0;
  errorcheck2 = get_or urb.transfer_buffer (urb.actual_length - 2) 0;
}

-- The payload, its bytes exchanged in pairs, goes behind the stream, and the reader or the worker that
-- asks for frame sizes is told. The result of `add_data` is dropped.
unfoldable pub accept_payload : Port → List ℕ → ℕ → Bool → Port
accept_payload p buffer payload granted =
    let bytes = take payload (drop 2 (swap_pairs (pairs_to_swap payload) buffer)) in
    let p' = record p { istream = (Frame.add_data p.istream bytes granted).1 } in
    if is_streaming p'
    then resubmit (record p' { input_woken = true })
    else resubmit (record p' { bclist_scheduled = true })

-- Whether the loop stays inside the buffer.
abbrev pub in_buffer : ℕ → Bool
in_buffer payload = leb (pairs_to_swap payload * 2) urb_buffer_size

-- `read_data_callback`, at the end of a transfer that was submitted. `none` is an access outside the
-- buffer of the transfer: to the byte before it, when the transfer has one byte, or behind its end, in
-- the loop. (The byte before the buffer is read before the memory test, and the loop runs after it.)
unfoldable pub read_data_callback : Port → Urb → Bool → Option Port
read_data_callback p urb granted =
    let p' = record p { submitted_urbs = p.submitted_urbs - 1 } in
    elim urb.status [
      | some e ↦ some (record p' { errors = some e })
      | none ↦
          (if urb.actual_length == 0
            then some (resubmit p')
            else (let payload = payload_of p' urb in
                let p'' = remember p' urb in
                if urb.actual_length == 1
                then none
                else if ltb p''.memory_cap.input (add32 (get_input_memory_usage p'') payload)
                then some (resubmit p'')
                else if in_buffer payload
                then some (accept_payload p'' urb.transfer_buffer payload granted)
                else none))
    ]

-- The loop of `update_bc_buffer`: one new frame for each size that the device has ready. For the rounds
-- left, `granted` says which requests for a frame succeed, and `clock` gives the bytes of the time; a
-- refused request is a NULL dereference, `none`.
unfoldable pub update_bc_from : ℕ → Port → (ℕ → Bool) → (ℕ → List ℕ) → Option Port
update_bc_from zero p granted clock = some p
update_bc_from (suc n) p granted clock =
    let (made, counter) = Frame.new p.frame_counter (granted n) in
    elim made [
      | none ↦ none
      | some frame ↦
          (let (size, p') = get_register p 0 bc_fifo_l_offset in
            update_bc_from n
              (record p' {
                frame_counter = counter;
                queued_iframes =
                    Flist.add_frame p'.queued_iframes
                      (record frame { frame_size = size; timestamp = clock n });
              })
              granted clock)
    ]

-- `update_bc_buffer`, the body of the work item `frame_count_worker`, which is no longer scheduled when
-- it starts.
unfoldable pub update_bc_buffer : Port → (ℕ → Bool) → (ℕ → List ℕ) → Option Port
unfolding update_bc_from
update_bc_buffer p granted clock =
    let (count, p') = get_register (record p { bclist_scheduled = false }) 0 fifo_fc_offset in
    elim (update_bc_from (bit_and count 0x3ff) p' granted clock) [
      | none ↦ none
      | some p'' ↦ some (record p'' { input_woken = true })
    ]

-- `synccom_port_has_incoming_data`
unfoldable pub has_incoming_data : Port → Bool
has_incoming_data p =
    if is_streaming p
    then not (Frame.is_empty p.istream)
    else elim (Flist.peek_front p.queued_iframes) [
      | none ↦ false
      | some frame ↦ leb frame.frame_size (Frame.get_length p.istream)
    ]

-- Bytes that a read puts into the user's buffer, with the place in the buffer.
abbrev pub UserWrite : Type 0
UserWrite = ℕ × List ℕ

-- `synccom_port_stream_read`, with a buffer of the user that is not NULL. The result of the removal is
-- dropped.
unfoldable pub stream_read : Port → ℕ → ℕ → Ret × List UserWrite × Port
stream_read p len uncopied =
    let out_length = min len (Frame.get_length p.istream) in
    let (ok, istream, bytes) = Frame.remove_data p.istream true out_length uncopied in
    (done out_length, (0, bytes) ∷ [], record p { istream = istream })

-- The longest frame that is let through, as the pattern of an `int`.
unfoldable pub max_frame_length : Port → ℕ → ℕ
max_frame_length p remaining =
    if truth p.append_status && truth p.append_timestamp
    then sub32 remaining timestamp_size
    else if truth p.append_status
    then remaining
    else if truth p.append_timestamp
    then sub32 (add32 remaining 2) timestamp_size
    else add32 remaining 2

-- The frame that the next round of `frame_read` delivers, if it does not break off.
unfoldable pub next_iframe : Port → ℕ → Option Frame
next_iframe p remaining =
    let limit = max_frame_length p remaining in
    if nonneg32 limit
    then elim (Flist.peek_front p.queued_iframes) [
      | none ↦ none
      | some frame ↦
          (if ltb limit frame.frame_size || ltb (Frame.get_length p.istream) frame.frame_size
            then none
            else some frame)
    ]
    else none

-- The rest of the round: the frame leaves the queue, its bytes the stream. `uncopied` is what
-- `copy_to_user` leaves; the results of the removals are dropped.
unfoldable pub deliver_frame : Port → Frame → ℕ → ℕ → ℕ × List UserWrite × Port
deliver_frame p frame out_length uncopied =
    let queue = (Flist.remove_frame p.queued_iframes).1 in
    let status = truth p.append_status in
    let current = (if status then frame.frame_size else sub32 frame.frame_size 2) in
    let (ok, istream, bytes) = Frame.remove_data p.istream true current uncopied in
    let istream' = (if status then istream else (Frame.remove_data istream false 2 0).1) in
    let out_length' = add32 out_length current in
    let p' = record p { queued_iframes = queue; istream = istream' } in
    if truth p.append_timestamp
    then (
      add32 out_length' timestamp_size,
      (out_length, bytes) ∷ (out_length', frame.timestamp) ∷ [],
      p',
    )
    else (out_length', (out_length, bytes) ∷ [], p')

-- The rounds of the `do` loop. `copies` gives what `copy_to_user` leaves uncopied in the n-th round;
-- `none` means that the fuel has run out.
unfoldable pub frame_read_from : ℕ → Port → ℕ → ℕ → ℕ → (ℕ → ℕ) → Option (ℕ × List UserWrite × Port)
frame_read_from zero p buf_length out_length n copies = none
frame_read_from (suc fuel) p buf_length out_length n copies =
    elim (next_iframe p (sub32 (u32 buf_length) out_length)) [
      | none ↦ some (out_length, [], p)
      | some frame ↦
          (let (out_length', writes, p') = deliver_frame p frame out_length (copies n) in
            elim (truth p'.rx_multiple) [
              | false ↦ some (out_length', writes, p')
              | true ↦ (elim (frame_read_from fuel p' buf_length out_length' (suc n) copies) [
                | none ↦ none
                | some (total, more, p'') ↦ some (total, writes ++ more, p'')
              ])
            ])
    ]

-- `synccom_port_frame_read`. Each round but the last takes a frame off the queue, so one round more than
-- there are frames is enough.
unfoldable pub frame_read : Port → ℕ → (ℕ → ℕ) → Option (Ret × List UserWrite × Port)
frame_read p buf_length copies =
    elim (frame_read_from (suc (length p.queued_iframes.frames)) p buf_length 0 0 copies) [
      | none ↦ none
      | some (out_length, writes, p') ↦
          some ((if out_length == 0 then fail enobufs else done out_length), writes, p')
    ]

-- `synccom_port_read`
unfoldable pub read : Port → ℕ → (ℕ → ℕ) → Option (Ret × List UserWrite × Port)
read p count copies =
    if is_streaming p then some (stream_read p count (copies 0)) else frame_read p count copies
