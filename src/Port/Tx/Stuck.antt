-- ===== src/Port/Tx/Stuck.antt =====
-- A frame without bytes on the transmit path: how `synccom_port_write` of src/port.c comes to queue one,
-- and what `oframe_worker` does with it.
use synccom_linux.Prelude.{
  ℕ, ◌<◌, ◌≡◌, ◌≢◌, refl, ◌∙◌, ◌⊎◌, Bool, true, false, none, some, List, [], ◌∷◌, arith, length,
  u32_mod,
}
use synccom_linux.Frame
use synccom_linux.Frame.{Frame, empty_frame}
use synccom_linux.Flist
use synccom_linux.Port.{Port, done}
use synccom_linux.Port.Tx.{
  WriteAnswers, SubmitAnswers, write, prepare_frame_for_fifo, transmit_frame, transmit_length,
  next_oframe, send_oframe, oframe_worker, timer_handler,
}

-- The worker, the timer that schedules it, and further writes, in any order.
pub data Step : Type 0 where
  worker : SubmitAnswers → Step
  timer : Step
  write_call : List ℕ → WriteAnswers → Step

unfoldable pub step : Port → Step → Port
step p (worker answers) = oframe_worker p answers
step p timer = timer_handler p
step p (write_call bytes answers) = (write p bytes answers).1

unfoldable pub steps : Port → List Step → Port
steps p [] = p
steps p (s ∷ ss) = steps (step p s) ss

send_oframe_empty :
    (p : Port) (f : Frame) (answers : SubmitAnswers)
    → f.data_length ≡ 0
    → send_oframe p f answers ≡ record p { pending_oframe = some f }
unfolding send_oframe transmit_frame prepare_frame_for_fifo transmit_length Frame.four_aligned
    Frame.get_length
send_oframe_empty p f answers h = ground arith

step_stuck :
    (p : Port) (f : Frame) (s : Step)
    → f.data_length ≡ 0
    → p.pending_oframe ≡ some f
    → ((step p s).pending_oframe ≡ some f) × ((step p s).sent ≡ p.sent)
unfolding step oframe_worker next_oframe timer_handler write Frame.new
step_stuck p f (worker answers) h k =
    ground (arith, send_oframe_empty (record p { send_oframe_scheduled = false }) f answers h)
step_stuck p f timer h k = (k, refl)
step_stuck p f (write_call bytes answers) h k = ground arith

-- While a frame without bytes is the pending one, no run of the worker, the timer or a write, in any
-- order and number, sends anything to the device, and the frame stays the pending one.
pub empty_frame_blocks :
    (p : Port) (f : Frame) (ss : List Step)
    → f.data_length ≡ 0
    → p.pending_oframe ≡ some f
    → ((steps p ss).pending_oframe ≡ some f) × ((steps p ss).sent ≡ p.sent)
unfolding steps
empty_frame_blocks p f [] h k = (k, refl)
empty_frame_blocks p f (s ∷ ss) h k =
    let (kept, quiet) = step_stuck p f s h k in
    let (kept', quiet') = empty_frame_blocks (step p s) f ss h kept in (kept', quiet' ∙ quiet)

-- A frame that could not be filled, the answer for its buffer or for the copy having been a failure.
fill_failed :
    (number : ℕ) (bytes : List ℕ) (granted : Bool) (uncopied : ℕ)
    → (granted ≡ false) ⊎ (uncopied ≢ 0)
    → 0 < length bytes
    → length bytes < u32_mod
    → (Frame.add_data_from_user (empty_frame number) bytes granted uncopied).1.data_length ≡ 0
unfolding Frame.add_data_from_user Frame.ensure_room Frame.update_buffer_size Frame.scribble
fill_failed number bytes granted uncopied fails h k = ground arith

next_oframe_first :
    (p : Port) (f : Frame) (rest : List Frame)
    → p.pending_oframe ≡ none
    → p.queued_oframes.frames ≡ f ∷ rest
    → ((next_oframe p).0 ≡ some f) × ((next_oframe p).1.sent ≡ p.sent)
unfolding next_oframe Flist.remove_frame
next_oframe_first p f rest idle front = ground arith

worker_first :
    (p : Port) (f : Frame) (rest : List Frame) (answers : SubmitAnswers)
    → f.data_length ≡ 0
    → p.pending_oframe ≡ none
    → p.queued_oframes.frames ≡ f ∷ rest
    → ((oframe_worker p answers).pending_oframe ≡ some f)
      × ((oframe_worker p answers).sent ≡ p.sent)
unfolding oframe_worker
worker_first p f rest answers h idle front =
    let start = record p { send_oframe_scheduled = false } in
    ground (
      arith,
      next_oframe_first start f rest idle front,
      send_oframe_empty (next_oframe start).1 f answers h,
    )

-- The queue behind a write onto a port that has none waiting.
write_queues :
    (p : Port) (bytes : List ℕ) (answers : WriteAnswers)
    → answers.frame_granted ≡ true
    → p.queued_oframes.frames ≡ []
    → let f =
        record (Frame.add_data_from_user
          (empty_frame p.frame_counter)
          bytes
          answers.buffer_granted
          answers.uncopied).1 { frame_size = length bytes } in
      let (r, p') = write p bytes answers in
      (r ≡ done 0)
      × (p'.queued_oframes.frames ≡ f ∷ [])
      × (p'.pending_oframe ≡ p.pending_oframe)
      × (p'.sent ≡ p.sent)
unfolding write Frame.new Flist.add_frame
write_queues p bytes answers made empty = ground arith

-- A write of at least one byte whose copy from the user fails, or whose buffer is refused, onto a port
-- on which no frame waits: it returns 0, the success, and from the worker's next run on nothing is sent to
-- the device by the worker, the timer or writes, in any order and number.
pub failed_copy_blocks :
    (p : Port) (bytes : List ℕ) (answers : WriteAnswers) (first : SubmitAnswers) (ss : List Step)
    → answers.frame_granted ≡ true
    → (answers.buffer_granted ≡ false) ⊎ (answers.uncopied ≢ 0)
    → 0 < length bytes
    → length bytes < u32_mod
    → p.pending_oframe ≡ none
    → p.queued_oframes.frames ≡ []
    → ((write p bytes answers).0 ≡ done 0)
      × ((steps (write p bytes answers).1 (worker first ∷ ss)).sent ≡ p.sent)
unfolding steps step
failed_copy_blocks p bytes answers first ss made fails h k idle empty =
    let filled =
      record (Frame.add_data_from_user (empty_frame p.frame_counter) bytes answers.buffer_granted
        answers.uncopied).1 { frame_size = length bytes } in
    let (result, queue, pending, quiet) = write_queues p bytes answers made empty in
    let bare =
      fill_failed p.frame_counter bytes answers.buffer_granted answers.uncopied fails h k in
    let (stays, quiet1) =
      worker_first (write p bytes answers).1 filled [] first bare (pending ∙ idle) queue in
    let (_, quiet2) =
      empty_frame_blocks (oframe_worker (write p bytes answers).1 first) filled ss bare stays in
    (result, quiet2 ∙ quiet1 ∙ quiet)
