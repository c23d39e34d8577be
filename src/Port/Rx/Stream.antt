-- ===== src/Port/Rx/Stream.antt =====
-- The stream of a port in a streaming mode, under one receive transfer, `read_data_callback` of src/port.c,
-- and under one `synccom_port_stream_read`.
use synccom_linux.Prelude.{
  ℕ, ◌+◌, ◌-◌, ◌*◌, ◌^◌, ◌≤◌, ◌≡◌, ◌≢◌, min, refl, sym, ap, ◌∙◌, ◌⊎◌, inl, inr, Bool, true, Option,
  Option-cases, none, some, List, [], ◌∷◌, ◌++◌, append-nil, append-take-drop, arith, if◌then◌else◌,
  leb, ◌==◌, bit_or, length, drop, get_or, length-append, length-take,
}
use synccom_linux.Frame
use synccom_linux.Frame.{Frame, contents}
use synccom_linux.Frame.Valid.{IsValid, max_size, length-contents}
use synccom_linux.Frame.Bytes.{remove_data_lem}
use synccom_linux.Port.{Port, Errno}
use synccom_linux.Port.Settings.{is_streaming}
use synccom_linux.Port.Memory.{get_input_memory_usage}
use synccom_linux.Port.Rx.{
  Urb, UserWrite, urb_buffer_size, payload_of, resubmit, remember, accept_payload,
  read_data_callback, stream_read, read, swap_pairs, pairs_to_swap,
}
use synccom_linux.Port.Rx.Receive.{payload_bytes, accept_payload_lem, stream_gains}

-- What the device may send: a transfer that is empty or has at least the two bytes of a size, in a buffer
-- that has room for it and for the size that they spell.
pub record IsWhole (urb : Urb) : Type 0 where
  pub full : length urb.transfer_buffer ≡ urb_buffer_size
  pub not_one : urb.actual_length ≢ 1
  pub within : urb.actual_length ≤ urb_buffer_size
  pub spelt : bit_or (get_or urb.transfer_buffer 0 0 * 2 ^ 8) (get_or urb.transfer_buffer 1 0) ≤ 510

-- A port in a streaming mode, with no frames listed, and its stream within the input memory cap.
pub record IsStream (p : Port) : Type 0 where
  pub valid : IsValid p.istream
  pub streaming : is_streaming p ≡ true
  pub none_listed : p.queued_iframes.estimated_memory_usage ≡ 0
  pub none_pending : p.pending_iframe ≡ none
  pub within : p.istream.data_length ≤ p.memory_cap.input
  pub capped : p.memory_cap.input + 510 ≤ max_size

payload-IsWhole :
    (p : Port) (urb : Urb) → IsWhole urb → urb.actual_length ≢ 0 → payload_of p urb ≤ 510
unfolding payload_of
payload-IsWhole p urb w some_bytes = ground (arith, w.within, w.spelt)

-- The bytes that a transfer has for the user: none if it failed, is empty, or has more than the input
-- memory cap leaves.
unfoldable pub arrived : Port → Urb → List ℕ
arrived p urb = elim urb.status [
  | some e ↦ []
  | none ↦
      (if urb.actual_length == 0
        then []
        else if leb (p.istream.data_length + payload_of p urb) p.memory_cap.input
        then payload_bytes urb.transfer_buffer (payload_of p urb)
        else [])
]

abbrev pub user_bytes : List UserWrite → List ℕ
user_bytes [] = []
user_bytes ((at, bytes) ∷ writes) = bytes ++ user_bytes writes

gains :
    (f : Frame) (bytes : List ℕ)
    → IsValid f
    → f.data_length + length bytes ≤ max_size
    → let f' = (Frame.add_data f bytes true).1 in IsValid f' × (contents f' ≡ contents f ++ bytes)
unfolding Frame.add_data
gains f [] v h = (v, sym (append-nil (contents f)))
gains f (b ∷ bytes) v h = stream_gains f (b ∷ bytes) v h (omega arith)

usage-IsStream : {p : Port} → IsStream p → get_input_memory_usage p ≡ p.istream.data_length
unfolding get_input_memory_usage Frame.get_length
usage-IsStream {p} s = ground (arith, s.none_listed, s.none_pending, s.within, s.capped)

streaming-accept_payload :
    (p : Port) (buffer : List ℕ) (payload : ℕ) (granted : Bool)
    → is_streaming (accept_payload p buffer payload granted) ≡ is_streaming p
unfolding accept_payload is_streaming
streaming-accept_payload p buffer payload granted = ground arith

accepting-IsStream :
    (p : Port) (buffer : List ℕ) (payload : ℕ)
    → IsStream p
    → length (payload_bytes buffer payload) ≤ payload
    → p.istream.data_length + payload ≤ p.memory_cap.input
    → let p' = accept_payload p buffer payload true in
      IsStream p'
      × (contents p'.istream ≡ contents p.istream ++ payload_bytes buffer payload)
      × (p'.memory_cap ≡ p.memory_cap)
accepting-IsStream p buffer payload s few room =
    let p' = accept_payload p buffer payload true in
    let (stream, _, caps, listed, pending) = accept_payload_lem p buffer payload true in
    let bytes = payload_bytes buffer payload in
    let (v, gained) = gains p.istream bytes s.valid (omega (arith, s.capped)) in
    let all = ap contents stream ∙ gained in
    let v' : IsValid p'.istream = rw stream v in
    let counted : p'.istream.data_length ≡ p.istream.data_length + length bytes =
      sym (length-contents v')
      ∙ ap length all
      ∙ length-append (contents p.istream) bytes
      ∙ omega (arith, length-contents s.valid) in
    (
      record {
        valid = v';
        streaming = streaming-accept_payload p buffer payload true ∙ s.streaming;
        none_listed = ap (λ l. l.estimated_memory_usage) listed ∙ s.none_listed;
        none_pending = pending ∙ s.none_pending;
        within = rw caps (omega arith);
        capped = rw caps s.capped;
      },
      all,
      caps,
    )

length-payload_bytes :
    (buffer : List ℕ) (payload : ℕ) → length (payload_bytes buffer payload) ≤ payload
unfolding payload_bytes
length-payload_bytes buffer payload =
    omega (arith, length-take payload (drop 2 (swap_pairs (pairs_to_swap payload) buffer)))

-- What becomes of a transfer that ended well.
good-cases :
    (p : Port) (urb : Urb)
    → IsStream p
    → IsWhole urb
    → urb.status ≡ none
    → let start = record p { submitted_urbs = p.submitted_urbs - 1 } in
      let result = read_data_callback p urb true in
      ((result ≡ some (resubmit start)) × (arrived p urb ≡ []))
      ⊎ ((result ≡ some (resubmit (remember start urb))) × (arrived p urb ≡ []))
      ⊎ ((p.istream.data_length + payload_of p urb ≤ p.memory_cap.input)
          × (result
              ≡ some
                  (accept_payload (remember start urb) urb.transfer_buffer (payload_of p urb) true))
          × (arrived p urb ≡ payload_bytes urb.transfer_buffer (payload_of p urb)))
unfolding read_data_callback payload_of get_input_memory_usage arrived
good-cases p urb s w ok =
    ground (arith, payload-IsWhole p urb w, usage-IsStream s, w.not_one, s.capped)

bad-cases :
    (p : Port) (urb : Urb) (e : Errno)
    → urb.status ≡ some e
    → (read_data_callback p urb true
        ≡ some (record p { submitted_urbs = p.submitted_urbs - 1; errors = some e }))
      × (arrived p urb ≡ [])
unfolding read_data_callback arrived
bad-cases p urb e ended = ground arith

-- The stream gains what arrived by a transfer.
abbrev pub Gains : Port → Urb → Type 0
Gains p urb =
    (p' : Port) × (read_data_callback p urb true ≡ some p')
    × IsStream p'
    × (contents p'.istream ≡ contents p.istream ++ arrived p urb)
    × (p'.memory_cap ≡ p.memory_cap)

quiet-Gains :
    (p : Port) (urb : Urb) (p' : Port)
    → IsStream p'
    → p'.istream ≡ p.istream
    → p'.memory_cap ≡ p.memory_cap
    → read_data_callback p urb true ≡ some p'
    → arrived p urb ≡ []
    → Gains p urb
quiet-Gains p urb p' s stream caps result nothing = (
  p',
  result,
  s,
  ap contents stream
      ∙ sym (append-nil (contents p.istream))
      ∙ ap (λ l. contents p.istream ++ l) (sym nothing),
  caps,
)

-- What a transfer does to the fields that the stream does not need.
start-IsStream :
    (p : Port) (urbs e1 e2 : ℕ) (e : Option Errno)
    → IsStream p
    → IsStream (record p { submitted_urbs = urbs; errorcheck1 = e1; errorcheck2 = e2; errors = e })
unfolding is_streaming
start-IsStream p urbs e1 e2 e s = record {
  valid = s.valid;
  streaming = s.streaming;
  none_listed = s.none_listed;
  none_pending = s.none_pending;
  within = s.within;
  capped = s.capped;
}

pub transfer-Gains : (p : Port) (urb : Urb) → IsStream p → IsWhole urb → Gains p urb
transfer-Gains p urb s w = elim (Option-cases urb.status) [
  | inr (e, ended) ↦
      (let (result, nothing) = bad-cases p urb e ended in
        quiet-Gains p urb _
          (start-IsStream p (p.submitted_urbs - 1) p.errorcheck1 p.errorcheck2 (some e) s) refl refl
          result nothing)
  | inl ok ↦ (elim (good-cases p urb s w ok) [
    | inl (result, nothing) ↦
        quiet-Gains p urb _
          (start-IsStream p (p.submitted_urbs - 1 + 1) p.errorcheck1 p.errorcheck2 p.errors s) refl
          refl result nothing
    | inr (inl (result, nothing)) ↦
        quiet-Gains p urb _
          (start-IsStream p (p.submitted_urbs - 1 + 1)
            (get_or urb.transfer_buffer (urb.actual_length - 1) 0)
            (get_or urb.transfer_buffer (urb.actual_length - 2) 0) p.errors s)
          refl refl result nothing
    | inr (inr (room, result, all)) ↦
        (let start = remember (record p { submitted_urbs = p.submitted_urbs - 1 }) urb in
          let s' =
            start-IsStream p (p.submitted_urbs - 1)
              (get_or urb.transfer_buffer (urb.actual_length - 1) 0)
              (get_or urb.transfer_buffer (urb.actual_length - 2) 0) p.errors s in
          let (s'', gained, caps) =
            accepting-IsStream start urb.transfer_buffer (payload_of p urb) s'
              (length-payload_bytes urb.transfer_buffer (payload_of p urb)) room in
          (_, result, s'', gained ∙ ap (λ l. contents p.istream ++ l) (sym all), caps))
  ])
]

removes :
    (f : Frame) (n : ℕ)
    → IsValid f
    → let (ok, f', out) = Frame.remove_data f true n 0 in
      IsValid f' × (f'.data_length ≤ f.data_length) × (contents f ≡ out ++ contents f')
removes f n v =
    ground
      (arith, remove_data_lem f true n 0 v, append-take-drop (min n f.data_length) (contents f))

-- One read: the stream loses what is handed out.
pub reading_lem :
    (p : Port) (count : ℕ)
    → IsStream p
    → let (result, writes, p') = stream_read p count 0 in
      IsStream p'
      × (read p count (λ _. 0) ≡ some (stream_read p count 0))
      × (contents p.istream ≡ user_bytes writes ++ contents p'.istream)
      × (p'.memory_cap ≡ p.memory_cap)
unfolding stream_read read Frame.get_length is_streaming
reading_lem p count s =
    let n = min count p.istream.data_length in
    let (v, less, same) = removes p.istream n s.valid in
    (
      record {
        valid = v;
        streaming = s.streaming;
        none_listed = s.none_listed;
        none_pending = s.none_pending;
        within = omega (arith, s.within);
        capped = s.capped;
      },
      rw s.streaming refl,
      same
          ∙ ap (λ l. l ++ contents (Frame.remove_data p.istream true n 0).1)
              (sym (append-nil (Frame.remove_data p.istream true n 0).2)),
      refl,
    )
