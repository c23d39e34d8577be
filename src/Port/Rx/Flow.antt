-- ===== src/Port/Rx/Flow.antt =====
-- From the receive transfers to the user through the stream of a port in a streaming mode:
-- `read_data_callback` and `synccom_port_stream_read` of src/port.c, in any order.
use synccom_linux.Prelude.{
  ℕ, ◌≡◌, refl, sym, ap, ◌∙◌, true, Option, none, some, List, [], ◌∷◌, ◌++◌, append_assoc,
  append-nil, arith,
}
use synccom_linux.Frame.{contents}
use synccom_linux.Port.{Port, Ret}
use synccom_linux.Port.Rx.{Urb, UserWrite, read_data_callback, stream_read, read}
use synccom_linux.Port.Rx.Stream.{
  IsWhole, IsStream, arrived, user_bytes, transfer-Gains, reading_lem,
}

-- The end of a receive transfer, with memory granted, or a read of so many bytes that are all copied.
pub data Event : Type 0 where
  arrival : Urb → Event
  reading : ℕ → Event

-- The events in order: the bytes that came in, those that were handed out, and the port after them.
-- `none` is an access outside a buffer, or a read that does not end.
unfoldable pub flow : List Event → Port → Option (List ℕ × List ℕ × Port)
flow [] p = some ([], [], p)
flow (arrival urb ∷ es) p = elim (read_data_callback p urb true) [
  | none ↦ none
  | some p' ↦ (elim (flow es p') [
    | none ↦ none
    | some (taken, given, q) ↦ some (arrived p urb ++ taken, given, q)
  ])
]
flow (reading count ∷ es) p = elim (read p count (λ _. 0)) [
  | none ↦ none
  | some (result, writes, p') ↦ (elim (flow es p') [
    | none ↦ none
    | some (taken, given, q) ↦ some (taken, user_bytes writes ++ given, q)
  ])
]

abbrev pub AreWhole : List Event → Type 0
AreWhole [] = Unit
AreWhole (arrival urb ∷ es) = IsWhole urb × AreWhole es
AreWhole (reading count ∷ es) = AreWhole es

flow-arrival :
    (urb : Urb) (es : List Event) (p p' q : Port) (taken given : List ℕ)
    → read_data_callback p urb true ≡ some p'
    → flow es p' ≡ some (taken, given, q)
    → flow (arrival urb ∷ es) p ≡ some (arrived p urb ++ taken, given, q)
unfolding flow
flow-arrival urb es p p' q taken given result ran = ground arith

flow-reading :
    (count : ℕ) (es : List Event) (p p' q : Port) (result : Ret) (writes : List UserWrite)
    (taken given : List ℕ)
    → read p count (λ _. 0) ≡ some (result, writes, p')
    → flow es p' ≡ some (taken, given, q)
    → flow (reading count ∷ es) p ≡ some (taken, user_bytes writes ++ given, q)
unfolding flow
flow-reading count es p p' q result writes taken given ended ran = ground arith

-- A port in a streaming mode whose stream is valid and within the input memory cap, and any receive
-- transfers and reads in any order; the transfers may have failed, be empty, or bring more than the cap
-- leaves, but none has a length of 1 or spells a payload size that leaves its buffer; memory is granted and
-- copies to the user succeed. Then no transfer reads outside its buffer and every read ends, the bytes of the stream
-- at first and those that arrived behind them are those that the reads handed out and those of the
-- stream at last behind them, in order and each once, and the stream is valid and within the cap, which
-- is the same.
pub reads_in_order :
    (es : List Event) (p : Port)
    → IsStream p
    → AreWhole es
    → (taken given : List ℕ) × (q : Port) × (flow es p ≡ some (taken, given, q))
      × (contents p.istream ++ taken ≡ given ++ contents q.istream)
      × IsStream q
      × (q.memory_cap ≡ p.memory_cap)
unfolding flow
reads_in_order [] p s w = ([], [], p, refl, append-nil (contents p.istream), s, refl)
reads_in_order (arrival urb ∷ es) p s (w, ws) =
    let (p', result, s', gained, caps) = transfer-Gains p urb s w in
    let (taken, given, q, ran, same, sq, caps') = reads_in_order es p' s' ws in
    (
      arrived p urb ++ taken,
      given,
      q,
      flow-arrival urb es p p' q taken given result ran,
      sym (append_assoc (contents p.istream) (arrived p urb) taken)
          ∙ ap (λ l. l ++ taken) (sym gained)
          ∙ same,
      sq,
      caps' ∙ caps,
    )
reads_in_order (reading count ∷ es) p s ws =
    let (s', result, lost, caps) = reading_lem p count s in
    let (answer, writes, p') = stream_read p count 0 in
    let (taken, given, q, ran, same, sq, caps') = reads_in_order es p' s' ws in
    (
      taken,
      user_bytes writes ++ given,
      q,
      flow-reading count es p p' q answer writes taken given result ran,
      ap (λ l. l ++ taken) lost
          ∙ append_assoc (user_bytes writes) (contents p'.istream) taken
          ∙ ap (λ l. user_bytes writes ++ l) same
          ∙ sym (append_assoc (user_bytes writes) given (contents q.istream)),
      sq,
      caps' ∙ caps,
    )
