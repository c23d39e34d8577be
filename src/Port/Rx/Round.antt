-- ===== src/Port/Rx/Round.antt =====
-- One round of `synccom_port_frame_read` of src/port.c, and what a delivery is.
use synccom_linux.Prelude.{
  ℕ, suc, ◌+◌, ◌-◌, ◌^◌, ◌≤◌, ◌<◌, min, ◌≡◌, refl, sym, ap, ◌∙◌, Bool, true, false, ◌&&◌, none,
  some, List, [], ◌∷◌, ◌++◌, map, arith, if◌then◌else◌, leb, length, take, length-take, drop,
  drop-drop, length-append, u32, sub32,
}
use synccom_linux.Frame
use synccom_linux.Frame.{Frame, contents}
use synccom_linux.Frame.Valid.{IsValid, length-contents}
use synccom_linux.Frame.Bytes.{remove_data_lem}
use synccom_linux.Flist
use synccom_linux.Port.{Port}
use synccom_linux.Port.Settings.{truth}
use synccom_linux.Port.Rx.{UserWrite, max_frame_length, next_iframe, deliver_frame, frame_read_from}
use synccom_linux.Port.Rx.Spec.{trailer, Delivery, prepend, gather}

-- The sizes of the frames of a list.
abbrev pub sizes_of : List Frame → List ℕ
sizes_of = map (λ (f : Frame). f.frame_size)

-- A removal of bytes that are there.
remove_exact :
    (f : Frame) (to_user : Bool) (n : ℕ)
    → IsValid f
    → n ≤ f.data_length
    → let (_, f', bytes) = Frame.remove_data f to_user n 0 in
      IsValid f'
      × (contents f' ≡ drop n (contents f))
      × (f'.data_length ≡ f.data_length - n)
      × (bytes ≡ (if to_user then take n (contents f) else []))
remove_exact f to_user n v h =
    let whole : min n f.data_length ≡ n = omega arith in
    ground (arith, remove_data_lem f to_user n 0 v)

-- What the removal of a frame's bytes, and of its trailer, leaves of the stream.
shown_lem :
    (f : Frame) (status : Bool) (n : ℕ)
    → IsValid f
    → trailer status ≤ n
    → n ≤ f.data_length
    → let (_, f', bytes) = Frame.remove_data f true (n - trailer status) 0 in
      let f'' = (if status then f' else (Frame.remove_data f' false 2 0).1) in
      IsValid f''
      × (contents f'' ≡ drop n (contents f))
      × (bytes ≡ take (n - trailer status) (contents f))
shown_lem f true n v h k =
    let (v', left, len, out) = remove_exact f true (n - 0) v (omega arith) in
    (v', left ∙ ap (λ k. drop k (contents f)) {x = n - 0} {y = n} (omega arith), out)
shown_lem f false n v h k =
    let (v', left, len, out) = remove_exact f true (n - 2) v (omega arith) in
    let (v'', left', _, _) =
      remove_exact (Frame.remove_data f true (n - 2) 0).1 false 2 v' (omega arith) in
    (
      v'',
      left'
          ∙ ap (drop 2) left
          ∙ drop-drop 2 (n - 2) (contents f)
          ∙ ap (λ k. drop k (contents f)) {x = n - 2 + 2} {y = n} (omega arith),
      out,
    )

-- A round on the first frame of the queue, if it is delivered.
pub deliver_frame_lem :
    (p : Port) (f : Frame) (fs : List Frame) (status : Bool) (out_length : ℕ)
    → IsValid p.istream
    → p.queued_iframes.frames ≡ f ∷ fs
    → truth p.append_timestamp ≡ false
    → truth p.append_status ≡ status
    → trailer status ≤ f.frame_size
    → f.frame_size ≤ p.istream.data_length
    → out_length + f.frame_size < 2 ^ 32
    → let shown = f.frame_size - trailer status in
      let (out_length', writes, p') = deliver_frame p f out_length 0 in
      IsValid p'.istream
      × (contents p'.istream ≡ drop f.frame_size (contents p.istream))
      × (p'.queued_iframes.frames ≡ fs)
      × (p'.append_status ≡ p.append_status)
      × (p'.append_timestamp ≡ p.append_timestamp)
      × (p'.rx_multiple ≡ p.rx_multiple)
      × (out_length' ≡ out_length + shown)
      × (writes ≡ (out_length, take shown (contents p.istream)) ∷ [])
unfolding deliver_frame Flist.remove_frame
deliver_frame_lem p f fs status out_length v front plain st long enough small =
    let shown = f.frame_size - trailer status in
    let current : (if status then f.frame_size else sub32 f.frame_size 2) ≡ shown = ground arith in
    ground (arith, shown_lem p.istream status f.frame_size v long enough)

-- Whether a round delivers the first frame.
pub next_iframe-none :
    (p : Port) (room : ℕ) → p.queued_iframes.frames ≡ [] → next_iframe p room ≡ none
unfolding next_iframe Flist.peek_front
next_iframe-none p room empty = ground arith

next_iframe-some :
    (p : Port) (f : Frame) (fs : List Frame) (status : Bool) (room : ℕ)
    → p.queued_iframes.frames ≡ f ∷ fs
    → truth p.append_timestamp ≡ false
    → truth p.append_status ≡ status
    → room < 2 ^ 31 - 2
    → next_iframe p room ≡ (
        if leb f.frame_size (room + trailer status) && leb f.frame_size p.istream.data_length
        then some f
        else none)
unfolding next_iframe max_frame_length Flist.peek_front Frame.get_length
next_iframe-some p f fs status room front plain st small = ground arith

-- That a run of the loop, which began with `off` bytes in the user's buffer, made a delivery.
pub record IsDelivery (off : ℕ) (d : Delivery) (result : ℕ × List UserWrite × Port) : Type 0 where
  pub total : result.0 ≡ off + length d.out
  pub writes : gather off result.1 ≡ some d.out
  pub sizes : sizes_of result.2.queued_iframes.frames ≡ d.sizes
  pub stream : contents result.2.istream ≡ d.stream
  pub valid : IsValid result.2.istream

-- Nothing is delivered.
pub nothing-IsDelivery :
    (p : Port) (off : ℕ) (sizes : List ℕ)
    → IsValid p.istream
    → sizes_of p.queued_iframes.frames ≡ sizes
    → IsDelivery off (record { out = []; sizes = sizes; stream = contents p.istream }) (off, [], p)
unfolding gather
nothing-IsDelivery p off sizes v same = record {
  total = omega arith;
  writes = refl;
  sizes = same;
  stream = refl;
  valid = v;
}

pub gather_one : (off : ℕ) (bytes : List ℕ) → gather off ((off, bytes) ∷ []) ≡ some (bytes ++ [])
unfolding gather
gather_one off bytes = ground arith

-- A frame's bytes, and a delivery behind them.
pub prepend-IsDelivery :
    (off shown : ℕ) (bytes : List ℕ) (d : Delivery) (result : ℕ × List UserWrite × Port)
    → length bytes ≡ shown
    → IsDelivery (off + shown) d result
    → IsDelivery off (prepend bytes d) (result.0, (off, bytes) ∷ result.1, result.2)
unfolding prepend gather
prepend-IsDelivery off shown bytes d result len r = record {
  total = omega (arith, r.total, length-append bytes d.out);
  writes = ground (arith, r.writes);
  sizes = r.sizes;
  stream = r.stream;
  valid = r.valid;
}

module _ (p : Port) (f : Frame) (fuel buf_length out_length n : ℕ) where
  pub round_ends :
      next_iframe p (sub32 (u32 buf_length) out_length) ≡ none
      → frame_read_from (suc fuel) p buf_length out_length n (λ _. 0) ≡ some (out_length, [], p)
  unfolding frame_read_from
  round_ends h = ground arith

  pub round_last :
      next_iframe p (sub32 (u32 buf_length) out_length) ≡ some f
      → truth (deliver_frame p f out_length 0).2.rx_multiple ≡ false
      → frame_read_from (suc fuel) p buf_length out_length n (λ _. 0)
        ≡ some (deliver_frame p f out_length 0)
  unfolding frame_read_from
  round_last h k = ground arith

  pub round_more :
      (result : ℕ × List UserWrite × Port)
      → let (out_length', writes, p') = deliver_frame p f out_length 0 in
        next_iframe p (sub32 (u32 buf_length) out_length) ≡ some f
        → truth p'.rx_multiple ≡ true
        → frame_read_from fuel p' buf_length out_length' (suc n) (λ _. 0) ≡ some result
        → frame_read_from (suc fuel) p buf_length out_length n (λ _. 0)
          ≡ some (result.0, writes ++ result.1, result.2)
  unfolding frame_read_from
  round_more result h k e = ground arith

-- The room that is left in the user's buffer.
room_left :
    (buf_length out_length : ℕ)
    → buf_length < 2 ^ 31 - 2
    → out_length ≤ buf_length
    → sub32 (u32 buf_length) out_length ≡ buf_length - out_length
room_left buf_length out_length small room = omega arith

-- The test on the first frame, as the delivery makes it.
abbrev pub goes : Bool → ℕ → ℕ → List ℕ → Bool
goes status room n stream = leb n (room + trailer status) && leb n (length stream)

pub next_frame :
    (p : Port) (f : Frame) (fs : List Frame) (status : Bool) (buf_length out_length : ℕ)
    → IsValid p.istream
    → p.queued_iframes.frames ≡ f ∷ fs
    → truth p.append_timestamp ≡ false
    → truth p.append_status ≡ status
    → buf_length < 2 ^ 31 - 2
    → out_length ≤ buf_length
    → next_iframe p (sub32 (u32 buf_length) out_length) ≡ (
        if goes status (buf_length - out_length) f.frame_size (contents p.istream)
        then some f
        else none)
next_frame p f fs status buf_length out_length v queue plain st small room =
    ap (next_iframe p) (room_left buf_length out_length small room)
    ∙ next_iframe-some p f fs status (buf_length - out_length) queue plain st (omega arith)
    ∙ ap
        (λ (k : ℕ).
          if leb f.frame_size (buf_length - out_length + trailer status) && leb f.frame_size k
          then some f
          else none)
        (sym (length-contents v))

-- What a test that holds says.
pub goes_lem :
    (status : Bool) (room n : ℕ) (stream : List ℕ)
    → goes status room n stream ≡ true
    → (n ≤ room + trailer status)
      × (n ≤ length stream)
      × (trailer status ≤ 2)
      × (length (take (n - trailer status) stream) ≡ n - trailer status)
goes_lem status room n stream h = ground (arith, length-take (n - trailer status) stream)

unfoldable pub Delivers : Port → ℕ → ℕ → ℕ → ℕ → Delivery → Type 0
Delivers p fuel buf_length out_length n d =
    (result : ℕ × List UserWrite × Port) × (frame_read_from fuel p buf_length out_length n (λ _. 0)
      ≡ some result)
    × IsDelivery out_length d result
