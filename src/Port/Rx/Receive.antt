-- ===== src/Port/Rx/Receive.antt =====
-- What `read_data_callback` of src/port.c does with the bytes of a transfer: the order in which they
-- reach the stream, and the input memory cap.
use synccom_linux.Prelude.{
  ℕ, zero, suc, ◌+◌, ◌-◌, ◌*◌, ◌%◌, ◌≤◌, ◌<◌, ◌≡◌, ◌≢◌, refl, sym, ap, ◌∙◌, ◌⊎◌, inl, inr,
  Option-cases, Bool, true, none, some, List, [], ◌∷◌, ◌++◌, arith, if◌then◌else◌, ◌==◌, u32_mod,
  length, take, drop, get_or, get_or-take, get_or-append, take-append_self, length-append,
  length-take, length-drop,
}
use synccom_linux.Frame
use synccom_linux.Frame.{Frame, contents}
use synccom_linux.Frame.Valid.{IsValid, max_size, length-contents}
use synccom_linux.Frame.Bytes.{add_data_lem}
use synccom_linux.Port.{Port, Errno}
use synccom_linux.Port.Memory.{get_input_memory_usage}
use synccom_linux.Port.Rx.{
  Urb, urb_buffer_size, swap_pairs, pairs_to_swap, payload_of, resubmit, remember, accept_payload,
  read_data_callback,
}

-- The index of the other byte of a pair.
abbrev pub partner : ℕ → ℕ
partner i = if i % 2 == 0 then suc i else i - 1

partner-suc : (i : ℕ) → partner (suc (suc i)) ≡ suc (suc (partner i))
partner-suc i = ground arith

get_or-swap_pairs :
    (n : ℕ) (xs : List ℕ) (i : ℕ)
    → i < n * 2
    → n * 2 ≤ length xs
    → get_or (swap_pairs n xs) i 0 ≡ get_or xs (partner i) 0
unfolding swap_pairs
get_or-swap_pairs zero xs i h k = absurd (omega arith)
get_or-swap_pairs (suc n) [] i h k = absurd (omega arith)
get_or-swap_pairs (suc n) (a ∷ []) i h k = absurd (omega arith)
get_or-swap_pairs (suc n) (a ∷ b ∷ xs) zero h k = refl
get_or-swap_pairs (suc n) (a ∷ b ∷ xs) (suc zero) h k = refl
get_or-swap_pairs (suc n) (a ∷ b ∷ xs) (suc (suc i)) h k =
    get_or-swap_pairs n xs i (omega arith) (omega arith)
    ∙ ap (λ j. get_or (a ∷ b ∷ xs) j 0) (sym (partner-suc i))

length-swap_pairs : (n : ℕ) (xs : List ℕ) → length (swap_pairs n xs) ≡ length xs
unfolding swap_pairs
length-swap_pairs zero xs = refl
length-swap_pairs (suc n) [] = refl
length-swap_pairs (suc n) (a ∷ []) = refl
length-swap_pairs (suc n) (a ∷ b ∷ xs) = omega (arith, length-swap_pairs n xs)

get_or-drop_two : (i : ℕ) (xs : List ℕ) → get_or (drop 2 xs) i 0 ≡ get_or xs (suc (suc i)) 0
get_or-drop_two i [] = refl
get_or-drop_two i (a ∷ []) = refl
get_or-drop_two i (a ∷ b ∷ xs) = refl

-- The bytes that a payload brings.
unfoldable pub payload_bytes : List ℕ → ℕ → List ℕ
payload_bytes buffer payload = take payload (drop 2 (swap_pairs (pairs_to_swap payload) buffer))

payload_bytes_lem :
    (buffer : List ℕ) (payload i : ℕ)
    → length buffer ≡ urb_buffer_size
    → payload ≤ 510
    → i < payload
    → (length (payload_bytes buffer payload) ≡ payload)
      × (get_or (payload_bytes buffer payload) i 0 ≡ get_or buffer (suc (suc (partner i))) 0)
unfolding payload_bytes
payload_bytes_lem buffer payload i full h k =
    let n = pairs_to_swap payload in
    let swapped = swap_pairs n buffer in
    (
      omega (
        arith,
        length-take payload (drop 2 swapped),
        length-drop 2 swapped,
        length-swap_pairs n buffer,
      ),
      get_or-take payload i (drop 2 swapped) 0 k
          ∙ get_or-drop_two i swapped
          ∙ get_or-swap_pairs n buffer (suc (suc i)) (omega arith) (omega arith)
          ∙ ap (λ j. get_or buffer j 0) (partner-suc i),
    )

pub accept_payload_lem :
    (p : Port) (buffer : List ℕ) (payload : ℕ) (granted : Bool)
    → let p' = accept_payload p buffer payload granted in
      (p'.istream ≡ (Frame.add_data p.istream (payload_bytes buffer payload) granted).1)
      × (p'.submitted_urbs ≡ suc p.submitted_urbs)
      × (p'.memory_cap ≡ p.memory_cap)
      × (p'.queued_iframes ≡ p.queued_iframes)
      × (p'.pending_iframe ≡ p.pending_iframe)
unfolding accept_payload payload_bytes
accept_payload_lem p buffer payload granted = ground arith

pub stream_gains :
    (f : Frame) (bytes : List ℕ)
    → IsValid f
    → f.data_length + length bytes ≤ max_size
    → 0 < length bytes
    → let f' = (Frame.add_data f bytes true).1 in IsValid f' × (contents f' ≡ contents f ++ bytes)
stream_gains f bytes v h k = ground (arith, add_data_lem f bytes true v h k)

callback-accepts :
    (p : Port) (urb : Urb)
    → urb.status ≡ none
    → 2 ≤ urb.actual_length
    → payload_of p urb ≤ 510
    → get_input_memory_usage p + payload_of p urb ≤ p.memory_cap.input
    → p.memory_cap.input < u32_mod
    → let p' = remember (record p { submitted_urbs = p.submitted_urbs - 1 }) urb in
      read_data_callback p urb true
      ≡ some (accept_payload p' urb.transfer_buffer (payload_of p urb) true)
unfolding read_data_callback payload_of get_input_memory_usage
callback-accepts p urb ok two small room cap = ground arith

-- A transfer of at least two bytes that ended well, into a full-size buffer, with a payload size from 1
-- to 510 that the input memory cap has room for, on a valid stream that has room for it, with memory
-- granted: the stream keeps its bytes, and behind them come those of the payload, as many as its size,
-- with the two bytes of each pair exchanged; the transfer waits for data again.
pub receive_lem :
    (p : Port) (urb : Urb) (i : ℕ)
    → IsValid p.istream
    → urb.status ≡ none
    → 2 ≤ urb.actual_length
    → length urb.transfer_buffer ≡ urb_buffer_size
    → payload_of p urb ≤ 510
    → i < payload_of p urb
    → get_input_memory_usage p + payload_of p urb ≤ p.memory_cap.input
    → p.memory_cap.input < u32_mod
    → p.istream.data_length + payload_of p urb ≤ max_size
    → 0 < p.submitted_urbs
    → (p' : Port) × (read_data_callback p urb true ≡ some p')
      × IsValid p'.istream
      × (length (contents p'.istream) ≡ p.istream.data_length + payload_of p urb)
      × (take p.istream.data_length (contents p'.istream) ≡ contents p.istream)
      × (get_or (contents p'.istream) (p.istream.data_length + i) 0
          ≡ get_or urb.transfer_buffer (suc (suc (partner i))) 0)
      × (p'.submitted_urbs ≡ p.submitted_urbs)
receive_lem p urb i v ok two full small inside room capped fits waits =
    let payload = payload_of p urb in
    let bytes = payload_bytes urb.transfer_buffer payload in
    let p' = remember (record p { submitted_urbs = p.submitted_urbs - 1 }) urb in
    let (stream, again, _, _, _) = accept_payload_lem p' urb.transfer_buffer payload true in
    let (count, swapped) = payload_bytes_lem urb.transfer_buffer payload i full small inside in
    let (v', gained) = stream_gains p.istream bytes v (omega arith) (omega arith) in
    let all = ap contents stream ∙ gained in
    let old = length-contents v in
    (
      accept_payload p' urb.transfer_buffer payload true,
      callback-accepts p urb ok two small room capped,
      rw stream v',
      ap length all ∙ length-append (contents p.istream) bytes ∙ omega arith,
      ap (λ (n : ℕ). take n (contents (accept_payload p' urb.transfer_buffer payload true).istream))
            (sym old)
          ∙ ap (λ xs. take (length (contents p.istream)) xs) all
          ∙ take-append_self (contents p.istream) bytes,
      ap
            (λ (n : ℕ).
              get_or (contents (accept_payload p' urb.transfer_buffer payload true).istream) (n + i)
                0)
            (sym old)
          ∙ ap (λ xs. get_or xs (length (contents p.istream) + i) 0) all
          ∙ get_or-append (contents p.istream) bytes i 0
          ∙ swapped,
      omega arith,
    )

length-add_data :
    (f : Frame) (bytes : List ℕ) (granted : Bool)
    → f.data_length + length bytes < u32_mod
    → let f' = (Frame.add_data f bytes granted).1 in
      (f'.data_length ≡ f.data_length) ⊎ (f'.data_length ≡ f.data_length + length bytes)
unfolding Frame.add_data Frame.append_bytes Frame.ensure_room Frame.update_buffer_size
length-add_data f bytes granted h = ground arith

usage-accept_payload :
    (p : Port) (buffer : List ℕ) (payload : ℕ) (granted : Bool)
    → p.istream.data_length + payload < u32_mod
    → get_input_memory_usage p + payload < u32_mod
    → get_input_memory_usage (accept_payload p buffer payload granted)
      ≤ get_input_memory_usage p + payload
unfolding get_input_memory_usage Frame.get_length payload_bytes
usage-accept_payload p buffer payload granted h k = ground (
  arith,
  accept_payload_lem p buffer payload granted,
  length-add_data p.istream (payload_bytes buffer payload) granted,
  length-take payload (drop 2 (swap_pairs (pairs_to_swap payload) buffer)),
)

-- The ways in which the callback ends, but for an access outside its buffer.
pub callback-cases :
    (p : Port) (urb : Urb) (granted : Bool)
    → urb.actual_length ≢ 1
    → payload_of p urb ≤ 510
    → p.memory_cap.input + payload_of p urb < u32_mod
    → get_input_memory_usage p ≤ p.memory_cap.input
    → let start = record p { submitted_urbs = p.submitted_urbs - 1 } in
      let result = read_data_callback p urb granted in
      ((e : Errno) × (result ≡ some (record start { errors = some e })))
      ⊎ (result ≡ some (resubmit start))
      ⊎ (result ≡ some (resubmit (remember start urb)))
      ⊎ ((get_input_memory_usage p + payload_of p urb ≤ p.memory_cap.input)
          × (result
              ≡ some (
                  accept_payload
                    (remember start urb)
                    urb.transfer_buffer
                    (payload_of p urb)
                    granted)))
unfolding read_data_callback payload_of get_input_memory_usage
callback-cases p urb granted long small capped within = elim (Option-cases urb.status) [
  | inl ok ↦ inr (ground arith)
  | inr (e, ended) ↦ inl (e, ground arith)
]

-- A transfer of any status and any length but 1, whose payload size does not leave its buffer or wrap the
-- count of bytes, on a port whose input memory usage is within its cap: the callback ends, memory granted
-- or not, and the usage is within the cap again, which is the same.
pub receive_within_cap :
    (p : Port) (urb : Urb) (granted : Bool)
    → urb.actual_length ≢ 1
    → payload_of p urb ≤ 510
    → p.istream.data_length + payload_of p urb < u32_mod
    → get_input_memory_usage p ≤ p.memory_cap.input
    → p.memory_cap.input + payload_of p urb < u32_mod
    → (p' : Port) × (read_data_callback p urb granted ≡ some p')
      × (p'.memory_cap ≡ p.memory_cap)
      × (get_input_memory_usage p' ≤ p'.memory_cap.input)
unfolding get_input_memory_usage
receive_within_cap p urb granted long small fits within capped =
    elim (callback-cases p urb granted long small capped within) [
      | inl (e, result) ↦ (_, result, refl, within)
      | inr (inl result) ↦ (_, result, refl, within)
      | inr (inr (inl result)) ↦ (_, result, refl, within)
      | inr (inr (inr (room, result))) ↦
          (let start = remember (record p { submitted_urbs = p.submitted_urbs - 1 }) urb in
            let payload = payload_of p urb in
            let (_, _, same, _, _) = accept_payload_lem start urb.transfer_buffer payload granted in
            let used =
              usage-accept_payload start urb.transfer_buffer payload granted fits (omega arith) in
            (_, result, same, rw same (omega arith)))
    ]
