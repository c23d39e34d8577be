-- ===== src/Port/Tx/Queue.antt =====
-- The queue of frames under `oframe_worker` of src/port.c, when the USB core takes every transfer.
use synccom_linux.Prelude.{
  ℕ, suc, ◌+◌, ◌-◌, ◌/◌, ◌%◌, ◌≤◌, ◌<◌, ◌≡◌, refl, sym, ap, ◌∙◌, ◌⊎◌, inl, inr, Bool-cases,
  Option-cases, false, take, drop, Option, none, some, List, [], ◌∷◌, ◌++◌, append_assoc,
  append-take-drop, arith, leb, length,
}
use mathlib.Core.Path.{ap₂, subst, subst⁻¹}
use synccom_linux.Frame.{Frame, contents, shift_out}
use synccom_linux.Frame.Valid.{IsValid, shift_out_lem}
use synccom_linux.Flist
use synccom_linux.Port.{Port}
use synccom_linux.Port.Usb.{set_register, store_register}
use synccom_linux.Port.Tx.{
  write_data, prepare_frame_for_fifo, transmit_frame, execute_transmit, next_oframe, send_oframe,
  oframe_worker,
}
use synccom_linux.Port.Tx.Send.{
  data_bytes, fifo_space, accepting, run_part, run_last, aligned-shift_out,
}

-- A frame that the worker can send: a valid one with a byte, in a block of a multiple of four bytes.
pub record IsSendable (f : Frame) : Type 0 where
  pub valid : IsValid f
  pub aligned : f.buffer_size % 4 ≡ 0
  pub has_byte : 0 < f.data_length

abbrev pub AreSendable : List Frame → Type 0
AreSendable [] = Unit
AreSendable (f ∷ fs) = IsSendable f × AreSendable fs

-- The runs behind the first that a frame needs.
abbrev pub more_runs : Frame → ℕ
more_runs f = (f.data_length - 1) / fifo_space

abbrev pub queue_runs : List Frame → ℕ
queue_runs [] = 0
queue_runs (f ∷ fs) = suc (more_runs f) + queue_runs fs

-- The bytes are those of the list, one behind another, each followed by less than four more.
abbrev pub IsPadded : List (List ℕ) → List ℕ → Type 0
IsPadded [] out = out ≡ []
IsPadded (bytes ∷ more) out =
    (pad : List ℕ) × (rest : List ℕ) × (out ≡ bytes ++ (pad ++ rest))
    × (length pad < 4)
    × IsPadded more rest

queued-send_oframe :
    (p : Port) (f : Frame) → (send_oframe p f accepting).queued_oframes ≡ p.queued_oframes
unfolding send_oframe transmit_frame prepare_frame_for_fifo write_data execute_transmit set_register
    store_register
queued-send_oframe p f = ground arith

queued-worker :
    (p : Port) (f : Frame)
    → p.pending_oframe ≡ some f
    → (oframe_worker p accepting).queued_oframes ≡ p.queued_oframes
unfolding oframe_worker next_oframe
queued-worker p f pending =
    ground (arith, queued-send_oframe (record p { send_oframe_scheduled = false }) f)

-- The worker with no frame pending takes the first of the queue.
worker-takes :
    (p : Port) (f : Frame) (fs : List Frame)
    → p.pending_oframe ≡ none
    → p.queued_oframes.frames ≡ f ∷ fs
    → (q : Port) × (oframe_worker p accepting ≡ oframe_worker q accepting)
      × (q.pending_oframe ≡ some f)
      × (q.queued_oframes.frames ≡ fs)
      × (q.sent ≡ p.sent)
unfolding oframe_worker next_oframe Flist.remove_frame
worker-takes p f fs idle front = (
  record p { pending_oframe = some f; queued_oframes = (Flist.remove_frame p.queued_oframes).1 },
  ground arith,
  refl,
  ground arith,
  refl,
)

-- The frames that wait: the pending one, and those of the queue.
abbrev pub behind_pending : Option Frame → List Frame → List Frame
behind_pending none fs = fs
behind_pending (some f) fs = f ∷ fs

abbrev pub waiting : Port → List Frame
waiting p = behind_pending p.pending_oframe p.queued_oframes.frames

-- What a run of the worker makes of the frames that wait, the first of them f, and of the bytes at the
-- data endpoint.
abbrev pub IsRun : Frame → List Frame → List ℕ → List Frame → List ℕ → Type 0
IsRun f fs before left after =
    ((f.data_length ≤ fifo_space)
      × (left ≡ fs)
      × ((pad : List ℕ) × (after ≡ before ++ (contents f ++ pad)) × (length pad < 4)))
    ⊎ ((fifo_space < f.data_length)
        × (left ≡ shift_out f fifo_space ∷ fs)
        × (after ≡ before ++ take fifo_space (contents f)))

pending-IsRun :
    (p : Port) (f : Frame)
    → IsSendable f
    → p.pending_oframe ≡ some f
    → IsRun f p.queued_oframes.frames
        (data_bytes p.sent)
        (waiting (oframe_worker p accepting))
        (data_bytes (oframe_worker p accepting).sent)
pending-IsRun p f s pending =
    let queue = ap (λ l. l.frames) (queued-worker p f pending) in
    elim (Bool-cases (leb f.data_length fifo_space)) [
      | inl short ↦
          (let (ended, pad, out, few) =
              run_last p f s.valid s.aligned pending s.has_byte (ground arith) in
            inl (ground arith, ap₂ behind_pending ended queue, (pad, out, few)))
      | inr long ↦
          (let (next, out) = run_part p f s.valid s.aligned pending (ground arith) in
            inr (ground arith, ap₂ behind_pending next queue, out))
    ]

-- A port on which frames wait runs like one that has the first of them pending.
pending_first :
    (p : Port) (f : Frame) (fs : List Frame)
    → waiting p ≡ f ∷ fs
    → (q : Port) × (oframe_worker p accepting ≡ oframe_worker q accepting)
      × (q.pending_oframe ≡ some f)
      × (q.queued_oframes.frames ≡ fs)
      × (q.sent ≡ p.sent)
pending_first p f fs front = elim (Option-cases p.pending_oframe) [
  | inr (g, pending) ↦ (p, refl, ground arith, ground arith, refl)
  | inl idle ↦ worker-takes p f fs idle (ground arith)
]

pub waiting-IsRun :
    (p : Port) (f : Frame) (fs : List Frame)
    → IsSendable f
    → waiting p ≡ f ∷ fs
    → IsRun f fs
        (data_bytes p.sent)
        (waiting (oframe_worker p accepting))
        (data_bytes (oframe_worker p accepting).sent)
waiting-IsRun p f fs s front =
    let (q, same, pending, queue, sent) = pending_first p f fs front in
    subst⁻¹ (λ r. IsRun f fs (data_bytes p.sent) (waiting r) (data_bytes r.sent)) same
      (subst
        (λ xs.
          IsRun f fs (data_bytes xs) (waiting (oframe_worker q accepting))
            (data_bytes (oframe_worker q accepting).sent))
        sent
        (subst
          (λ l.
            IsRun f l (data_bytes q.sent) (waiting (oframe_worker q accepting))
              (data_bytes (oframe_worker q accepting).sent))
          queue (pending-IsRun q f s pending)))

pub run_nothing :
    (p : Port)
    → waiting p ≡ []
    → (waiting (oframe_worker p accepting) ≡ []) × ((oframe_worker p accepting).sent ≡ p.sent)
unfolding oframe_worker next_oframe Flist.remove_frame
run_nothing p h = ground arith

-- Sending a part of the first frame, and then the rest of it with the others.
pub IsPadded-part :
    (n : ℕ) (bytes rest : List ℕ) (more : List (List ℕ)) (out : List ℕ)
    → rest ≡ drop n bytes
    → IsPadded (rest ∷ more) out
    → IsPadded (bytes ∷ more) (take n bytes ++ out)
IsPadded-part n bytes rest more out e (pad, behind, same, few, padded) = (
  pad,
  behind,
  ap (λ xs. take n bytes ++ xs) (same ∙ ap (λ r. r ++ (pad ++ behind)) e)
      ∙ sym (append_assoc (take n bytes) (drop n bytes) (pad ++ behind))
      ∙ ap (λ xs. xs ++ (pad ++ behind)) (append-take-drop n bytes),
  few,
  padded,
)

pub shift_out-IsSendable :
    (f : Frame)
    → IsSendable f
    → fifo_space < f.data_length
    → IsSendable (shift_out f fifo_space)
      × (contents (shift_out f fifo_space) ≡ drop fifo_space (contents f))
      × (suc (more_runs (shift_out f fifo_space)) ≡ more_runs f)
shift_out-IsSendable f s long =
    let (v, rest, len, _) = shift_out_lem f fifo_space s.valid (omega arith) in
    (
      record {
        valid = v;
        aligned = aligned-shift_out f fifo_space s.aligned;
        has_byte = omega arith;
      },
      rest,
      omega arith,
    )
