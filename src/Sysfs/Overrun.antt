-- ===== src/Sysfs/Overrun.antt =====
-- The attribute `fstew` of src/sysfs.c. Its register has no place in `struct synccom_registers`, so what
-- is stored to it is written behind the struct, over the memory cap.
use synccom_linux.Prelude.{
  ℕ, ◌<◌, ◌≡◌, refl, ◌∙◌, ap, Bool, false, Option, none, some, List, [], ◌∷◌, arith, length, u32,
}
use synccom_linux.Frame
use synccom_linux.Frame.{Frame}
use synccom_linux.Port.{Port, fail, enobufs}
use synccom_linux.Port.Usb.{store_register, set_register}
use synccom_linux.Port.Settings.{get_input_memory_cap, get_output_memory_cap}
use synccom_linux.Port.Tx.{
  WriteAnswers, SubmitAnswers, write, write_data, prepare_frame_for_fifo, transmit_frame,
  execute_transmit, next_oframe, send_oframe, oframe_worker, timer_handler,
}
use synccom_linux.Port.Tx.Stuck.{Step, worker, timer, write_call, step, steps}
use synccom_linux.Driver
use synccom_linux.Driver.{Wake, returned}
use synccom_linux.Registers.{str_to_register_offset}
use synccom_linux.Sysfs.{bar0_register_store, register_store}

send_oframe-cap :
    (p : Port) (f : Frame) (answers : SubmitAnswers)
    → (send_oframe p f answers).memory_cap ≡ p.memory_cap
unfolding send_oframe transmit_frame prepare_frame_for_fifo write_data execute_transmit set_register
    store_register
send_oframe-cap p f answers = ground arith

next_oframe-cap : (p : Port) → (next_oframe p).1.memory_cap ≡ p.memory_cap
unfolding next_oframe
next_oframe-cap p = ground arith

oframe_worker-cap :
    (p : Port) (answers : SubmitAnswers) (o : Option Frame)
    → (next_oframe (record p { send_oframe_scheduled = false })).0 ≡ o
    → (oframe_worker p answers).memory_cap ≡ p.memory_cap
unfolding oframe_worker
oframe_worker-cap p answers none front =
    let start = record p { send_oframe_scheduled = false } in
    let goes : oframe_worker p answers ≡ (next_oframe start).1 = ground arith in
    ap (λ q. q.memory_cap) goes ∙ next_oframe-cap start
oframe_worker-cap p answers (some f) front =
    let start = record p { send_oframe_scheduled = false } in
    let goes : oframe_worker p answers ≡ send_oframe (next_oframe start).1 f answers =
      ground arith in
    ap (λ q. q.memory_cap) goes
    ∙ send_oframe-cap (next_oframe start).1 f answers
    ∙ next_oframe-cap start

-- Neither the tasklet nor its timer nor a write touches the caps.
step-cap : (p : Port) (s : Step) → (step p s).memory_cap ≡ p.memory_cap
unfolding step timer_handler write Frame.new
step-cap p (worker answers) =
    oframe_worker-cap p answers (next_oframe (record p { send_oframe_scheduled = false })).0 refl
step-cap p timer = refl
step-cap p (write_call bytes answers) = ground arith

steps-cap : (p : Port) (ss : List Step) → (steps p ss).memory_cap ≡ p.memory_cap
unfolding steps
steps-cap p [] = refl
steps-cap p (s ∷ ss) = steps-cap (step p s) ss ∙ step-cap p s

write-no_cap :
    (p : Port) (nonblock : Bool) (bytes : List ℕ) (taken : Bool) (wakes : List Wake)
    (answers : WriteAnswers)
    → 0 < length bytes
    → get_output_memory_cap p ≡ 0
    → Driver.write p nonblock bytes taken wakes answers ≡ returned (fail enobufs) p
unfolding Driver.write
write-no_cap p nonblock bytes taken wakes answers h zero_cap = ground arith

-- Whatever is stored to `fstew`: the store reports success, the registers that the port keeps stay, the
-- input memory cap becomes the value, and the output memory cap becomes 0; the tasklet, its timer and
-- writes that run afterwards, in any order and number, leave that, and a call of `synccom_write` behind
-- them with at least one byte is refused with ENOBUFS.
pub fstew_overruns :
    (strtoul : List ℕ → ℕ → ℕ) (p : Port) (buf : List ℕ) (ss : List Step) (nonblock : Bool)
    (bytes : List ℕ) (taken : Bool) (wakes : List Wake) (answers : WriteAnswers)
    → 0 < length bytes
    → let (count, p') = bar0_register_store strtoul p "fstew" buf in
      (count ≡ length buf)
      × (p'.register_storage ≡ p.register_storage)
      × (get_input_memory_cap p' ≡ u32 (strtoul buf 16))
      × (get_output_memory_cap p' ≡ 0)
      × (Driver.write (steps p' ss) nonblock bytes taken wakes answers
          ≡ returned (fail enobufs) (steps p' ss))
unfolding bar0_register_store register_store str_to_register_offset set_register store_register
    get_input_memory_cap get_output_memory_cap
fstew_overruns strtoul p buf ss nonblock bytes taken wakes answers h =
    let q = (bar0_register_store strtoul p "fstew" buf).1 in
    let empty : (steps q ss).memory_cap.output ≡ 0 =
      ap (λ c. c.output) (steps-cap q ss) ∙ omega arith in
    (
      refl,
      refl,
      omega arith,
      omega arith,
      write-no_cap (steps q ss) nonblock bytes taken wakes answers h empty,
    )
