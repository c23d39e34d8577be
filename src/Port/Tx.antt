-- ===== src/Port/Tx.antt =====
-- The transmit path, src/port.c: `synccom_port_write` queues a frame, and the tasklet `oframe_worker`
-- hands the first waiting frame to the device, a FIFO's worth at a time.
pub mod Send
pub mod Queue
pub mod Flow
pub mod Stuck
use synccom_linux.Prelude.{
  ℕ, ◌+◌, ◌-◌, ◌*◌, ◌%◌, Bool, true, false, not, Option, none, some, List, if◌then◌else◌, ltb, ◌==◌,
  length, take, bit_and, bit_or, add32,
}
use synccom_linux.Frame
use synccom_linux.Frame.{Frame, block}
use synccom_linux.Flist
use synccom_linux.Registers.{cmdr_offset, bc_fifo_l_offset}
use synccom_linux.Port.{Port, Errno, Ret, done, fail, enomem, bulk_out}
use synccom_linux.Port.Usb.{set_register}
use synccom_linux.Port.Settings.{truth, xrep, txt, txext}

abbrev pub data_write_endpoint : ℕ
data_write_endpoint = 6

abbrev pub tx_fifo_size : ℕ
tx_fifo_size = 100000

-- What the kernel answers to a write's three requests: the frame, its buffer, and the copy from the
-- user, by the number of bytes that were left uncopied.
pub record WriteAnswers : Type 0 where
  pub frame_granted : Bool
  pub buffer_granted : Bool
  pub uncopied : ℕ

-- `synccom_port_write`: `bytes` are the `length` bytes of the user. The result of the copy is dropped.
unfoldable pub write : Port → List ℕ → WriteAnswers → Ret × Port
write p bytes answers =
    let (made, counter) = Frame.new p.frame_counter answers.frame_granted in
    elim made [
      | none ↦ (fail enomem, p)
      | some frame ↦
          (let filled =
              (Frame.add_data_from_user frame bytes answers.buffer_granted answers.uncopied).1 in
            (
              done 0,
              record p {
                frame_counter = counter;
                queued_oframes =
                    Flist.add_frame p.queued_oframes (record filled { frame_size = length bytes });
                send_oframe_scheduled = true;
              },
            ))
    ]

-- What the USB core answers to a data transfer: whether the URB and its buffer can be had, and
-- whether it takes the URB.
pub record SubmitAnswers : Type 0 where
  pub urb_granted : Bool
  pub buffer_granted : Bool
  pub accepted : Bool

-- `synccom_port_write_data`: true for C's 0. The bytes go to the data endpoint.
unfoldable pub write_data : Port → List ℕ → SubmitAnswers → Bool × Port
write_data p bytes answers =
    if length bytes == 0
    then (false, p)
    else if answers.urb_granted
    then (if answers.buffer_granted
        then (if answers.accepted
            then (true, bulk_out p data_write_endpoint bytes (length bytes))
            else (false, p))
        else (false, p))
    else (false, p)

-- `synccom_port_execute_transmit`
unfoldable pub transmit_command : ℕ → ℕ
transmit_command tx_modifiers =
    let with_xrep =
      (if truth (bit_and tx_modifiers xrep) then bit_or 0x01000000 0x02000000 else 0x01000000) in
    let with_txt =
      (if truth (bit_and tx_modifiers txt) then bit_or with_xrep 0x10000000 else with_xrep) in
    if truth (bit_and tx_modifiers txext) then bit_or with_txt 0x20000000 else with_txt

unfoldable pub execute_transmit : Port → Port
execute_transmit p = (set_register p 0 cmdr_offset (transmit_command p.tx_modifiers)).1

-- The part of a frame that goes into one transfer: its length rounded up to a multiple of four, and at
-- most the room of the FIFO.
unfoldable pub transmit_length : ℕ → ℕ
unfolding Frame.four_aligned
transmit_length current_length =
    let size_in_fifo = Frame.four_aligned current_length in
    let fifo_space = tx_fifo_size - 1 - (tx_fifo_size - 1) % 4 in
    if ltb fifo_space size_in_fifo then fifo_space else size_in_fifo

-- `prepare_frame_for_fifo`: 0 if there is nothing to send, 1 if some of the frame is left, 2 if it has
-- all been handed over; then the frame and the port.
unfoldable pub prepare_frame_for_fifo : Port → Frame → SubmitAnswers → ℕ × Frame × Port
prepare_frame_for_fifo p frame answers =
    let current_length = Frame.get_length frame in
    let frame_size = Frame.get_frame_size frame in
    let size = transmit_length current_length in
    if size == 0
    then (0, frame, p)
    else (let (taken, p') = write_data p (take size (block frame.buffer)) answers in
        let frame' = (if taken then (Frame.remove_data frame false size 0).1 else frame) in
        let p'' =
          (if current_length == frame_size
            then (set_register p' 0 bc_fifo_l_offset frame_size).1
            else p') in
        (if Frame.is_empty frame' then 2 else 1, frame', p''))

-- `synccom_port_transmit_frame`
unfoldable pub transmit_frame : Port → Frame → SubmitAnswers → ℕ × Frame × Port
transmit_frame p frame answers =
    let (result, frame', p') = prepare_frame_for_fifo p frame answers in
    (result, frame', (if result == 0 then p' else execute_transmit p'))

-- The frame that the worker is to send: the pending one, or else the first of the queue.
unfoldable pub next_oframe : Port → Option Frame × Port
next_oframe p = elim p.pending_oframe [
  | some frame ↦ (some frame, p)
  | none ↦
      (let (front, rest) = Flist.remove_frame p.queued_oframes in
        (front, record p { queued_oframes = rest; pending_oframe = front }))
]

-- What the worker does with a frame.
unfoldable pub send_oframe : Port → Frame → SubmitAnswers → Port
send_oframe p frame answers =
    let (result, frame', p') = transmit_frame p frame answers in
    if result == 0 then record p' { pending_oframe = some frame' } else record p' {
      pending_oframe = (if result == 2 then none else some frame');
      output_woken = true;
      send_oframe_scheduled = true;
    }

-- `oframe_worker`, the body of the tasklet, which is no longer scheduled when it starts.
unfoldable pub oframe_worker : Port → SubmitAnswers → Port
oframe_worker p answers =
    let (frame, p') = next_oframe (record p { send_oframe_scheduled = false }) in
    elim frame [ none ↦ p' | some f ↦ send_oframe p' f answers ]

-- `timer_handler`
unfoldable pub timer_handler : Port → Port
timer_handler p = record p { send_oframe_scheduled = true }

-- `write_data_callback`, with the error in `urb->status` or none: whether it frees the transfer and its
-- buffer, and the port. The bytes and the URB of a transfer that has failed stay allocated.
unfoldable pub write_data_callback : Port → Option Errno → Bool × Port
write_data_callback p none = (true, p)
write_data_callback p (some e) = (false, record p { errors = some e })
