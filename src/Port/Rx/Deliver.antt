-- ===== src/Port/Rx/Deliver.antt =====
-- `synccom_port_frame_read` of src/port.c against the delivery of whole frames.
use synccom_linux.Prelude.{
  ℕ, suc, ◌+◌, ◌-◌, ◌^◌, ◌≤◌, ◌<◌, ◌≡◌, refl, sym, ap, ◌∙◌, inl, inr, Bool, true, false, Bool-cases,
  none, some, List, [], ◌∷◌, ◌++◌, arith, if◌then◌else◌, ◌==◌, length, take, drop, length-append,
}
use synccom_linux.Frame
use synccom_linux.Frame.{Frame, contents}
use synccom_linux.Frame.Valid.{IsValid, length-contents}
use synccom_linux.Port.{Port, done, fail, enobufs}
use synccom_linux.Port.Settings.{truth}
use synccom_linux.Port.Rx.{UserWrite, deliver_frame, frame_read}
use synccom_linux.Port.Rx.Spec.{
  deliver-nil, deliver-refuses, deliver-last, deliver-more, deliver-fits, trailer, Delivery,
  prepend, deliver, all_long, gather,
}
use synccom_linux.Port.Rx.Round.{
  sizes_of, deliver_frame_lem, next_iframe-none, IsDelivery, nothing-IsDelivery, gather_one,
  prepend-IsDelivery, round_ends, round_last, round_more, goes, next_frame, goes_lem, Delivers,
}

-- The last round, of a read that takes one frame.
final_round :
    (p : Port) (f : Frame) (fs : List Frame) (status : Bool) (fuel buf_length out_length n : ℕ)
    → IsValid p.istream
    → p.queued_iframes.frames ≡ f ∷ fs
    → truth p.append_timestamp ≡ false
    → truth p.append_status ≡ status
    → truth p.rx_multiple ≡ false
    → trailer status ≤ f.frame_size
    → buf_length < 2 ^ 31 - 2
    → out_length ≤ buf_length
    → goes status (buf_length - out_length) f.frame_size (contents p.istream) ≡ true
    → Delivers p (suc fuel) buf_length out_length n (
        prepend (take (f.frame_size - trailer status) (contents p.istream)) (record {
          out = [];
          sizes = sizes_of fs;
          stream = drop f.frame_size (contents p.istream);
        }))
unfolding Delivers deliver_frame prepend
final_round p f fs status fuel buf_length out_length n v queue plain st mu enough small room test =
    let next = next_frame p f fs status buf_length out_length v queue plain st small room in
    let (fits, there, two, count_take) =
      goes_lem status (buf_length - out_length) f.frame_size (contents p.istream) test in
    let (v', stream, queue', st', plain', mu', count, writes) =
      deliver_frame_lem p f fs status out_length v queue plain st enough
        (omega (arith, length-contents v)) (omega arith) in
    (
      deliver_frame p f out_length 0,
      round_last p f fuel buf_length out_length n (next ∙ ap (λ b. if b then some f else none) test)
          (ap truth mu' ∙ mu),
      record {
        total =
            omega
              (arith, length-append (take (f.frame_size - trailer status) (contents p.istream)) []);
        writes =
            ap (gather out_length) writes
            ∙ gather_one out_length (take (f.frame_size - trailer status) (contents p.istream));
        sizes = ap sizes_of queue';
        stream = stream;
        valid = v';
      },
    )

-- A round, and a delivery behind it.
inner_round :
    (p : Port) (f : Frame) (fs : List Frame) (status : Bool) (fuel buf_length out_length n : ℕ)
    (d : Delivery)
    → IsValid p.istream
    → p.queued_iframes.frames ≡ f ∷ fs
    → truth p.append_timestamp ≡ false
    → truth p.append_status ≡ status
    → truth p.rx_multiple ≡ true
    → trailer status ≤ f.frame_size
    → buf_length < 2 ^ 31 - 2
    → out_length ≤ buf_length
    → goes status (buf_length - out_length) f.frame_size (contents p.istream) ≡ true
    → Delivers
        (deliver_frame p f out_length 0).2
        fuel
        buf_length
        (out_length + (f.frame_size - trailer status))
        (suc n)
        d
    → Delivers p
        (suc fuel)
        buf_length
        out_length
        n
        (prepend (take (f.frame_size - trailer status) (contents p.istream)) d)
unfolding Delivers
inner_round p f fs status fuel buf_length out_length n d v queue plain st mu enough small room test
      rest =
    let next = next_frame p f fs status buf_length out_length v queue plain st small room in
    let (fits, there, two, count_take) =
      goes_lem status (buf_length - out_length) f.frame_size (contents p.istream) test in
    let (v', stream, queue', st', plain', mu', count, writes) =
      deliver_frame_lem p f fs status out_length v queue plain st enough
        (omega (arith, length-contents v)) (omega arith) in
    let (result, same, made) = rest in
    (
      (result.0, (deliver_frame p f out_length 0).1 ++ result.1, result.2),
      round_more p f fuel buf_length out_length n result
          (next ∙ ap (λ b. if b then some f else none) test) (ap truth mu' ∙ mu) (rw count same),
      rw writes (
          prepend-IsDelivery out_length (f.frame_size - trailer status)
            (take (f.frame_size - trailer status) (contents p.istream)) d result count_take made),
    )

all_long_lem :
    (status : Bool) (n : ℕ) (ns : List ℕ)
    → all_long status (n ∷ ns) ≡ true
    → (trailer status ≤ n) × (all_long status ns ≡ true)
unfolding all_long
all_long_lem status n ns h = ground arith

-- The round that breaks off.
stop_lem :
    (f : Frame) (fs : List Frame) (p : Port) (status multiple : Bool) (buf_length out_length n : ℕ)
    → IsValid p.istream
    → p.queued_iframes.frames ≡ f ∷ fs
    → truth p.append_timestamp ≡ false
    → truth p.append_status ≡ status
    → buf_length < 2 ^ 31 - 2
    → out_length ≤ buf_length
    → goes status (buf_length - out_length) f.frame_size (contents p.istream) ≡ false
    → Delivers p
        (suc (suc (length fs)))
        buf_length
        out_length
        n
        (deliver status multiple (buf_length - out_length) (sizes_of (f ∷ fs)) (contents p.istream))
unfolding Delivers
stop_lem f fs p status multiple buf_length out_length n v queue plain st small room test =
    let next = next_frame p f fs status buf_length out_length v queue plain st small room in
    (
      (out_length, [], p),
      round_ends p f (suc (length fs)) buf_length out_length n
          (next ∙ ap (λ b. if b then some f else none) test),
      rw
          (deliver-refuses status (buf_length - out_length) f.frame_size (sizes_of fs)
            (contents p.istream) multiple test)
          (nothing-IsDelivery p out_length (sizes_of (f ∷ fs)) v (ap sizes_of queue)),
    )

rest_room : (a b c : ℕ) → a - b - c ≡ a - (b + c)
rest_room a b c = omega arith

frame_read_from_lem :
    (fs : List Frame) (p : Port) (status multiple : Bool) (buf_length out_length n : ℕ)
    → IsValid p.istream
    → p.queued_iframes.frames ≡ fs
    → truth p.append_timestamp ≡ false
    → truth p.append_status ≡ status
    → truth p.rx_multiple ≡ multiple
    → all_long status (sizes_of fs) ≡ true
    → buf_length < 2 ^ 31 - 2
    → out_length ≤ buf_length
    → Delivers p
        (suc (length fs))
        buf_length
        out_length
        n
        (deliver status multiple (buf_length - out_length) (sizes_of fs) (contents p.istream))
unfolding Delivers
frame_read_from_lem [] p status multiple buf_length out_length n v queue plain st mu long small
      room =
    (
      (out_length, [], p),
      round_ends p (Frame.empty_frame 0) 0 buf_length out_length n (next_iframe-none p _ queue),
      rw (deliver-nil status multiple (buf_length - out_length) (contents p.istream))
          (nothing-IsDelivery p out_length [] v (ap sizes_of queue)),
    )
frame_read_from_lem (f ∷ fs) p status false buf_length out_length n v queue plain st mu long small
      room =
    let left = buf_length - out_length in
    let (enough, _) = all_long_lem status f.frame_size (sizes_of fs) long in
    elim (Bool-cases (goes status left f.frame_size (contents p.istream))) [
      | inr stops ↦
          stop_lem f fs p status false buf_length out_length n v queue plain st small room stops
      | inl goes_on ↦
          rw (deliver-last status left f.frame_size (sizes_of fs) (contents p.istream) goes_on) (
            final_round p f fs status (suc (length fs)) buf_length out_length n v queue plain st mu
              enough small room goes_on)
    ]
frame_read_from_lem (f ∷ fs) p status true buf_length out_length n v queue plain st mu long small
      room =
    let left = buf_length - out_length in
    let (enough, longs) = all_long_lem status f.frame_size (sizes_of fs) long in
    elim (Bool-cases (goes status left f.frame_size (contents p.istream))) [
      | inr stops ↦
          stop_lem f fs p status true buf_length out_length n v queue plain st small room stops
      | inl goes_on ↦
          let (fits, there, two, _) =
            goes_lem status left f.frame_size (contents p.istream) goes_on in
          let (v', stream', queue', st', plain', mu', _, _) =
            deliver_frame_lem p f fs status out_length v queue plain st enough
              (omega (arith, length-contents v)) (omega arith) in
          rw (deliver-more status left f.frame_size (sizes_of fs) (contents p.istream) goes_on) (
            inner_round p f fs status (suc (length fs)) buf_length out_length n _ v queue plain st
              mu enough small room goes_on
              (rw (rest_room buf_length out_length (f.frame_size - trailer status)) (
                rw (sym stream') (
                  frame_read_from_lem fs (deliver_frame p f out_length 0).2 status true buf_length
                    (out_length + (f.frame_size - trailer status)) (suc n) v' queue'
                    (ap truth plain' ∙ plain) (ap truth st' ∙ st) (ap truth mu' ∙ mu) longs small
                    (omega arith)))))
    ]

whole_room :
    (status multiple : Bool) (buf_length : ℕ) (sizes stream : List ℕ)
    → deliver status multiple (buf_length - 0) sizes stream
      ≡ deliver status multiple buf_length sizes stream
whole_room status multiple buf_length sizes stream =
    ap (λ room. deliver status multiple room sizes stream) {x = buf_length - 0} {y = buf_length}
      (omega arith)

same_delivery :
    {off : ℕ} {d d' : Delivery} {result : ℕ × List UserWrite × Port}
    → d ≡ d'
    → IsDelivery off d result
    → IsDelivery off d' result
same_delivery h made = rw (sym h) made

-- A read of whole frames with no timestamps, on a valid stream and a queue whose frames all have the
-- bytes of their trailer, into less than 2 ^ 31 - 2 bytes of memory that can be written: it ends, and makes
-- the delivery of whole frames. The user's memory gets the delivered bytes, one frame behind another from its
-- start and none behind its end; the queue keeps the other frames, and the stream the other bytes. The
-- result is the count of the bytes, or ENOBUFS if there are none.
pub frame_read_lem :
    (p : Port) (buf_length : ℕ)
    → IsValid p.istream
    → truth p.append_timestamp ≡ false
    → all_long (truth p.append_status) (sizes_of p.queued_iframes.frames) ≡ true
    → buf_length < 2 ^ 31 - 2
    → let d =
        deliver
          (truth p.append_status)
          (truth p.rx_multiple)
          buf_length
          (sizes_of p.queued_iframes.frames)
          (contents p.istream) in
      (writes : List UserWrite) × (p' : Port) × (frame_read p buf_length (λ _. 0)
        ≡ some ((if length d.out == 0 then fail enobufs else done (length d.out)), writes, p'))
      × (gather 0 writes ≡ some d.out)
      × (length d.out ≤ buf_length)
      × (sizes_of p'.queued_iframes.frames ≡ d.sizes)
      × (contents p'.istream ≡ d.stream)
      × IsValid p'.istream
unfolding frame_read Delivers
frame_read_lem p buf_length v plain long small =
    let frames = p.queued_iframes.frames in
    let status = truth p.append_status in
    let multiple = truth p.rx_multiple in
    let (result, same, made) =
      frame_read_from_lem frames p status multiple buf_length 0 0 v refl plain refl refl long small
        (omega arith) in
    let made' =
      same_delivery (whole_room status multiple buf_length (sizes_of frames) (contents p.istream))
        made in
    (
      result.1,
      result.2,
      ground (arith, same, made'.total),
      made'.writes,
      deliver-fits status multiple buf_length (sizes_of frames) (contents p.istream) long,
      made'.sizes,
      made'.stream,
      made'.valid,
    )
