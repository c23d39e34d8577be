-- ===== src/Port/Tx/Flow.antt =====
-- From `synccom_port_write` of src/port.c to the data endpoint.
use synccom_linux.Prelude.{
  ℕ, zero, suc, ◌%◌, ◌≤◌, ◌<◌, ◌≡◌, refl, sym, ap, ◌∙◌, inl, inr, true, Option, none, some, List,
  [], ◌∷◌, ◌++◌, map, append_assoc, append-nil, arith, length, take,
}
use mathlib.Core.Path.{ap₂, subst, subst⁻¹}
use synccom_linux.Frame
use synccom_linux.Frame.{Frame, contents, shift_out, empty_frame}
use synccom_linux.Frame.Valid.{IsValid, max_size, four_aligned_bounds, length-contents}
use synccom_linux.Frame.Bytes.{add_data_from_user_lem}
use synccom_linux.Flist
use synccom_linux.Port.{Port, done}
use synccom_linux.Port.Tx.{WriteAnswers, write, oframe_worker, timer_handler}
use synccom_linux.Port.Tx.Send.{data_bytes, accepting, runs, fifo_space}
use synccom_linux.Port.Tx.Queue.{
  IsSendable, AreSendable, queue_runs, IsPadded, behind_pending, waiting, IsRun, waiting-IsRun,
  run_nothing, IsPadded-part, shift_out-IsSendable,
}
use synccom_linux.Port.Tx.Stuck.{Step, worker, timer, write_call, step, steps}

abbrev pub granting : WriteAnswers
granting = record { frame_granted = true; buffer_granted = true; uncopied = 0 }

-- The frame that a write fills.
abbrev filled : ℕ → List ℕ → Frame
filled number bytes = (Frame.add_data_from_user (empty_frame number) bytes true 0).1

empty-IsValid : (number : ℕ) → IsValid (empty_frame number)
empty-IsValid number = record { sized = refl; fits = omega arith; small = omega arith }

filled-aligned :
    (number : ℕ) (bytes : List ℕ)
    → 0 < length bytes
    → length bytes ≤ max_size
    → (filled number bytes).buffer_size % 4 ≡ 0
unfolding Frame.add_data_from_user Frame.ensure_room Frame.update_buffer_size Frame.append_bytes
filled-aligned number bytes h k = ground (arith, four_aligned_bounds (length bytes) k)

-- A write queues a frame with its bytes behind the others.
write_lem :
    (p : Port) (bytes : List ℕ)
    → 0 < length bytes
    → length bytes ≤ max_size
    → (f : Frame) × ((write p bytes granting).0 ≡ done 0)
      × ((write p bytes granting).1.queued_oframes.frames ≡ p.queued_oframes.frames ++ (f ∷ []))
      × ((write p bytes granting).1.pending_oframe ≡ p.pending_oframe)
      × ((write p bytes granting).1.sent ≡ p.sent)
      × IsSendable f
      × (contents f ≡ bytes)
unfolding write Frame.new Flist.add_frame
write_lem p bytes h k =
    let f = filled p.frame_counter bytes in
    let (v, _, result) =
      add_data_from_user_lem (empty_frame p.frame_counter) bytes true 0
        (empty-IsValid p.frame_counter) (omega arith) h in
    let same : contents f ≡ bytes = ground arith in
    (
      record f { frame_size = length bytes },
      refl,
      refl,
      refl,
      refl,
      record {
        valid = record { sized = v.sized; fits = v.fits; small = v.small };
        aligned = filled-aligned p.frame_counter bytes h k;
        has_byte = omega (arith, length-contents v, ap length same);
      },
      same,
    )

-- Nothing waits, and what has reached the data endpoint since are the bytes of the list.
abbrev pub IsDelivered : List ℕ → List (List ℕ) → Port → Type 0
IsDelivered before ins p =
    (waiting p ≡ []) × ((out : List ℕ) × (data_bytes p.sent ≡ before ++ out) × IsPadded ins out)

-- A run in front of a delivery of what it leaves.
run-IsDelivered :
    (f : Frame) (fs : List Frame) (before after : List ℕ) (left : List Frame) (tail : List (List ℕ))
    (p : Port)
    → IsSendable f
    → IsRun f fs before left after
    → IsDelivered after (map contents left ++ tail) p
    → IsDelivered before (contents f ∷ (map contents fs ++ tail)) p
run-IsDelivered f fs before after left tail p s (inl (_, same, (pad, sent, few)))
      (none_left, (out, all, padded)) =
    (
      none_left,
      (
        contents f ++ (pad ++ out),
        all
            ∙ ap (λ xs. xs ++ out) sent
            ∙ append_assoc before (contents f ++ pad) out
            ∙ ap (λ xs. before ++ xs) (append_assoc (contents f) pad out),
        (pad, out, refl, few, subst (λ l. IsPadded (map contents l ++ tail) out) same padded),
      ),
    )
run-IsDelivered f fs before after left tail p s (inr (long, same, sent))
      (none_left, (out, all, padded)) =
    let (_, rest, _) = shift_out-IsSendable f s long in
    (
      none_left,
      (
        take fifo_space (contents f) ++ out,
        all ∙ ap (λ xs. xs ++ out) sent ∙ append_assoc before (take fifo_space (contents f)) out,
        IsPadded-part fifo_space (contents f) (contents (shift_out f fifo_space))
            (map contents fs ++ tail) out rest
            (subst (λ l. IsPadded (map contents l ++ tail) out) same padded),
      ),
    )

-- What a run leaves can be sent, in one run less.
run-AreSendable :
    (f : Frame) (fs : List Frame) (before after : List ℕ) (left : List Frame)
    → IsSendable f
    → AreSendable fs
    → IsRun f fs before left after
    → AreSendable left × (suc (queue_runs left) ≡ queue_runs (f ∷ fs))
run-AreSendable f fs before after left s ss (inl (short, same, _)) =
    (subst⁻¹ AreSendable same ss, omega (arith, ap queue_runs same, s.has_byte))
run-AreSendable f fs before after left s ss (inr (long, same, _)) =
    let (s', _, fewer) = shift_out-IsSendable f s long in
    (subst⁻¹ AreSendable same (s', ss), omega (arith, ap queue_runs same, fewer))

-- Enough runs deliver all that waits.
drain :
    (n : ℕ) (p : Port) (ws : List Frame)
    → waiting p ≡ ws
    → AreSendable ws
    → queue_runs ws ≡ n
    → IsDelivered (data_bytes p.sent) (map contents ws ++ []) (runs n p)
unfolding runs
drain zero p [] front s count = (front, ([], sym (append-nil (data_bytes p.sent)), refl))
drain (suc n) p [] front s count = absurd (omega arith)
drain zero p (f ∷ fs) front s count = absurd (omega arith)
drain (suc n) p (f ∷ fs) front (s, ss) count =
    let p' = oframe_worker p accepting in
    let ran = waiting-IsRun p f fs s front in
    let (s', fewer) =
      run-AreSendable f fs (data_bytes p.sent) (data_bytes p'.sent) (waiting p') s ss ran in
    run-IsDelivered f fs (data_bytes p.sent) (data_bytes p'.sent) (waiting p') [] (runs n p') s ran
      (drain n p' (waiting p') refl s' (omega arith))

-- The steps of a transmission without failures: the worker with transfers that are taken, the timer, and
-- writes of at least one byte that get their memory.
abbrev pub AreGranted : List Step → Type 0
AreGranted [] = Unit
AreGranted (worker answers ∷ ss) = (answers ≡ accepting) × AreGranted ss
AreGranted (timer ∷ ss) = AreGranted ss
AreGranted (write_call bytes answers ∷ ss) =
    (answers ≡ granting) × (0 < length bytes) × (length bytes ≤ max_size) × AreGranted ss

-- What is written.
abbrev pub written : List Step → List (List ℕ)
written [] = []
written (write_call bytes answers ∷ ss) = bytes ∷ written ss
written (s ∷ ss) = written ss

AreSendable-append :
    (fs : List Frame) (f : Frame) → AreSendable fs → IsSendable f → AreSendable (fs ++ (f ∷ []))
AreSendable-append [] f ss s = (s, tt)
AreSendable-append (g ∷ fs) f (s', ss) s = (s', AreSendable-append fs f ss s)

map-append :
    (fs : List Frame) (f : Frame) (tail : List (List ℕ))
    → map contents (fs ++ (f ∷ [])) ++ tail ≡ map contents fs ++ (contents f ∷ tail)
map-append [] f tail = refl
map-append (g ∷ fs) f tail = ap (λ l. contents g ∷ l) (map-append fs f tail)

behind_pending-append :
    (o : Option Frame) (fs : List Frame) (f : Frame)
    → behind_pending o (fs ++ (f ∷ [])) ≡ behind_pending o fs ++ (f ∷ [])
behind_pending-append none fs f = refl
behind_pending-append (some g) fs f = refl

-- The port when the steps are done and the worker has run once more for each part that waits then.
abbrev pub drained : Port → List Step → Port
drained p ss = runs (queue_runs (waiting (steps p ss))) (steps p ss)

waiting-write :
    (p : Port) (ws : List Frame) (f : Frame) (p' : Port)
    → waiting p ≡ ws
    → p'.queued_oframes.frames ≡ p.queued_oframes.frames ++ (f ∷ [])
    → p'.pending_oframe ≡ p.pending_oframe
    → waiting p' ≡ ws ++ (f ∷ [])
waiting-write p ws f p' front queue pending =
    ap₂ behind_pending pending queue
    ∙ behind_pending-append p.pending_oframe p.queued_oframes.frames f
    ∙ ap (λ l. l ++ (f ∷ [])) front

-- A port on which all that waits can be sent, over any writes, runs of the worker and runs of its timer, in
-- any order, with memory granted and every transfer taken: when the worker has then run once more for each
-- part of 99996 bytes that waits, nothing waits any more, and the data endpoint has got the bytes of the
-- frames that waited at first and those of each write, in that order and each once, with less than four
-- more bytes behind each frame.
pub flow_lem :
    (ss : List Step) (p : Port) (ws : List Frame)
    → waiting p ≡ ws
    → AreSendable ws
    → AreGranted ss
    → IsDelivered (data_bytes p.sent) (map contents ws ++ written ss) (drained p ss)
unfolding steps step timer_handler
flow_lem [] p ws front s granted =
    drain (queue_runs (waiting p)) p ws front s (ap queue_runs (sym front))
flow_lem (timer ∷ ss) p ws front s granted = flow_lem ss (timer_handler p) ws front s granted
flow_lem (write_call bytes answers ∷ ss) p ws front s (grants, has_byte, small, granted) =
    let (f, _, queue, pending, sent, sf, same) = write_lem p bytes has_byte small in
    let p' = (write p bytes granting).1 in
    let front' = waiting-write p ws f p' front queue pending in
    let rest = flow_lem ss p' (ws ++ (f ∷ [])) front' (AreSendable-append ws f s sf) granted in
    subst⁻¹
      (λ a.
        IsDelivered (data_bytes p.sent) (map contents ws ++ (bytes ∷ written ss))
          (drained (write p bytes a).1 ss))
      grants
      (subst
        (λ xs.
          IsDelivered (data_bytes xs) (map contents ws ++ (bytes ∷ written ss)) (drained p' ss))
        sent
        (subst (λ l. IsDelivered (data_bytes p'.sent) l (drained p' ss))
          (map-append ws f (written ss) ∙ ap (λ b. map contents ws ++ (b ∷ written ss)) same) rest))
flow_lem (worker answers ∷ ss) p [] front s (grants, granted) =
    let p' = oframe_worker p accepting in
    let (front', sent) = run_nothing p front in
    subst⁻¹ (λ a. IsDelivered (data_bytes p.sent) (written ss) (drained (oframe_worker p a) ss))
      grants
      (subst (λ xs. IsDelivered (data_bytes xs) (written ss) (drained p' ss)) sent
        (flow_lem ss p' [] front' tt granted))
flow_lem (worker answers ∷ ss) p (f ∷ fs) front (s, rest) (grants, granted) =
    let p' = oframe_worker p accepting in
    let ran = waiting-IsRun p f fs s front in
    let (s', _) =
      run-AreSendable f fs (data_bytes p.sent) (data_bytes p'.sent) (waiting p') s rest ran in
    subst⁻¹
      (λ a.
        IsDelivered (data_bytes p.sent) (contents f ∷ (map contents fs ++ written ss))
          (drained (oframe_worker p a) ss))
      grants
      (run-IsDelivered f fs (data_bytes p.sent) (data_bytes p'.sent) (waiting p') (written ss)
        (drained p' ss) s ran (flow_lem ss p' (waiting p') refl s' granted))
