-- ===== src/Driver/Writers/Room.antt =====
-- The bytes that wait to be sent, under the steps of src/main.c and src/port.c: the tasklet, its timer, a
-- purge and a write.
use synccom_linux.Prelude.{
  ℕ, ◌+◌, ◌≤◌, ◌<◌, ◌≡◌, refl, sym, ap, ◌∙◌, false, Option, none, some, List, [], ◌∷◌, arith,
  u32_mod, length,
}
use mathlib.Core.Path.{subst⁻¹}
use synccom_linux.Frame
use synccom_linux.Frame.{Frame, empty_frame}
use synccom_linux.Flist
use synccom_linux.Flist.Usage.{total, total-append}
use synccom_linux.Port.{Port}
use synccom_linux.Port.Usb.{set_register, store_register, execute_tres}
use synccom_linux.Port.Memory.{purge_tx, pending_length}
use synccom_linux.Port.Tx
use synccom_linux.Port.Tx.{
  SubmitAnswers, WriteAnswers, write_data, prepare_frame_for_fifo, transmit_frame, transmit_length,
  execute_transmit, next_oframe, send_oframe, oframe_worker, timer_handler,
}
use synccom_linux.Driver.Caps.{length-new_frame}

-- The bytes of the queue and of the pending frame, as an unbounded sum.
abbrev pub queued : Port → ℕ
queued p = total p.queued_oframes.frames

abbrev pub pending : Port → ℕ
pending p = pending_length p.pending_oframe

-- The count of the queue is its sum.
abbrev pub IsCounted : Port → Type 0
IsCounted p = p.queued_oframes.estimated_memory_usage ≡ queued p

-- A step that adds no bytes, to the queue or to both.
pub record IsLower (p p' : Port) : Type 0 where
  pub counted : IsCounted p'
  pub queue : queued p' ≤ queued p
  pub both : queued p' + pending p' ≤ queued p + pending p
  pub caps : p'.memory_cap ≡ p.memory_cap

length-remove_data :
    (f : Frame) (len : ℕ) → (Frame.remove_data f false len 0).1.data_length ≤ f.data_length
unfolding Frame.remove_data Frame.shift_out
length-remove_data f len = ground arith

send_oframe_lem :
    (p : Port) (f : Frame) (answers : SubmitAnswers)
    → let p' = send_oframe p f answers in
      (p'.queued_oframes ≡ p.queued_oframes)
      × (p'.memory_cap ≡ p.memory_cap)
      × (pending p' ≤ f.data_length)
unfolding send_oframe transmit_frame prepare_frame_for_fifo write_data execute_transmit set_register
    store_register Frame.get_length
send_oframe_lem p f answers = ground (arith, length-remove_data f (transmit_length f.data_length))

-- A frame that is sent from a port whose queue has shrunk by it, or on which it was pending.
sent-IsLower :
    (p q : Port) (f : Frame) (answers : SubmitAnswers)
    → IsCounted q
    → queued q ≤ queued p
    → queued q + f.data_length ≤ queued p + pending p
    → q.memory_cap ≡ p.memory_cap
    → IsLower p (send_oframe q f answers)
sent-IsLower p q f answers c less both caps =
    let (queue, caps', few) = send_oframe_lem q f answers in
    record {
      counted = rw queue c;
      queue = rw queue less;
      both = rw queue (omega arith);
      caps = caps' ∙ caps;
    }

remove-none :
    (l : Flist.Flist)
    → l.frames ≡ []
    → l.estimated_memory_usage ≡ total l.frames
    → let rest = (Flist.remove_frame l).1 in (rest.frames ≡ []) × (rest.estimated_memory_usage ≡ 0)
unfolding Flist.remove_frame
remove-none l queue c = let all = ap total queue in ground arith

remove-some :
    (l : Flist.Flist) (f : Frame) (fs : List Frame)
    → l.frames ≡ f ∷ fs
    → l.estimated_memory_usage ≡ total l.frames
    → total l.frames < u32_mod
    → let rest = (Flist.remove_frame l).1 in
      (rest.frames ≡ fs) × (rest.estimated_memory_usage ≡ total fs)
unfolding Flist.remove_frame Frame.get_length
remove-some l f fs queue c h = let all = ap total queue in ground arith

worker_cases :
    (p : Port) (answers : SubmitAnswers) (o : Option Frame) (fs : List Frame)
    → p.pending_oframe ≡ o
    → p.queued_oframes.frames ≡ fs
    → IsCounted p
    → queued p < u32_mod
    → IsLower p (oframe_worker p answers)
unfolding oframe_worker next_oframe Flist.remove_frame Frame.get_length
worker_cases p answers (some f) fs front queue c h =
    let start = record p { send_oframe_scheduled = false } in
    let goes : oframe_worker p answers ≡ send_oframe start f answers = ground arith in
    let size : pending p ≡ f.data_length = ground arith in
    subst⁻¹ (IsLower p) goes
      (sent-IsLower p start f answers c (omega arith) (omega (arith, size)) refl)
worker_cases p answers none [] front queue c h =
    let rest = (Flist.remove_frame p.queued_oframes).1 in
    let start = record p {
      send_oframe_scheduled = false;
      queued_oframes = rest;
      pending_oframe = none;
    } in
    let goes : oframe_worker p answers ≡ start = ground arith in
    let (left, count) = remove-none p.queued_oframes queue c in
    subst⁻¹ (IsLower p) goes (record {
      counted = count ∙ ap total (sym left);
      queue = omega (arith, ap total left);
      both = omega (arith, ap total left);
      caps = refl;
    })
worker_cases p answers none (f ∷ fs) front queue c h =
    let rest = (Flist.remove_frame p.queued_oframes).1 in
    let start = record p {
      send_oframe_scheduled = false;
      queued_oframes = rest;
      pending_oframe = some f;
    } in
    let goes : oframe_worker p answers ≡ send_oframe start f answers = ground arith in
    let (left, count) = remove-some p.queued_oframes f fs queue c h in
    let all = ap total queue in
    let fewer = ap total left in
    subst⁻¹ (IsLower p) goes
      (sent-IsLower p start f answers (count ∙ sym fewer) (omega arith) (omega arith) refl)

pub worker-IsLower :
    (p : Port) (answers : SubmitAnswers)
    → IsCounted p
    → queued p < u32_mod
    → IsLower p (oframe_worker p answers)
worker-IsLower p answers c h =
    worker_cases p answers p.pending_oframe p.queued_oframes.frames refl refl c h

pub timer-IsLower : (p : Port) → IsCounted p → IsLower p (timer_handler p)
unfolding timer_handler
timer-IsLower p c = record { counted = c; queue = omega arith; both = omega arith; caps = refl }

pub purge-IsLower : (p : Port) → IsLower p (purge_tx p).1
unfolding purge_tx Flist.clear execute_tres set_register store_register
purge-IsLower p = record { counted = refl; queue = omega arith; both = omega arith; caps = refl }

pub write-adds :
    (p : Port) (bytes : List ℕ) (answers : WriteAnswers)
    → IsCounted p
    → queued p + length bytes < u32_mod
    → let p' = (Tx.write p bytes answers).1 in
      IsCounted p'
      × (queued p' ≤ queued p + length bytes)
      × (p'.pending_oframe ≡ p.pending_oframe)
      × (p'.memory_cap ≡ p.memory_cap)
unfolding Tx.write Flist.add_frame Frame.new Frame.get_length
write-adds p bytes answers c h =
    let filled =
      (Frame.add_data_from_user (empty_frame p.frame_counter) bytes answers.buffer_granted
        answers.uncopied).1 in
    ground (
      arith,
      total-append p.queued_oframes.frames (record filled { frame_size = length bytes } ∷ []),
      length-new_frame p.frame_counter bytes answers.buffer_granted answers.uncopied (omega arith),
    )
