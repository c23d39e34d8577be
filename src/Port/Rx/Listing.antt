-- ===== src/Port/Rx/Listing.antt =====
-- From the sizes of frames that the device has ready to the frames that a user reads: `update_bc_buffer` of
-- src/frame.c, and `synccom_port_frame_read` of src/port.c behind it.
use synccom_linux.Prelude.{
  ℕ, ◌-◌, ◌^◌, ◌≤◌, ◌<◌, ◌≡◌, refl, sym, ap, ◌∙◌, Bool, true, false, Option, none, some, List, [],
  ◌∷◌, ◌++◌, append_assoc, append-nil, arith, bit_and, add32, length, if◌then◌else◌, ◌==◌,
}
use mathlib.Core.Path.{subst}
use synccom_linux.Frame
use synccom_linux.Frame.{Frame, contents}
use synccom_linux.Frame.Valid.{IsValid}
use synccom_linux.Flist
use synccom_linux.Registers.{port_offset, fifo_fc_offset, bc_fifo_l_offset}
use synccom_linux.Registers.Address.{port_offset_bar0}
use synccom_linux.Port.{Port, Message, done, fail, enobufs}
use synccom_linux.Port.Settings.{truth}
use synccom_linux.Port.Usb.{get_register, word_bytes, register_endpoint, pointer_size, read_command}
use synccom_linux.Port.Usb.Wire.{load_le, get_register_lem}
use synccom_linux.Port.Rx.{UserWrite, update_bc_from, update_bc_buffer, frame_read}
use synccom_linux.Port.Rx.Spec.{Delivery, deliver, all_long, gather}
use synccom_linux.Port.Rx.Round.{sizes_of}
use synccom_linux.Port.Rx.Deliver.{frame_read_lem}

-- The transfers when a read of a register of bar 0 has been sent.
abbrev asked : ℕ → ℕ → List Message → List Message
asked channel register_offset sent =
    sent
    ++ (record {
      endpoint = register_endpoint;
      bytes = read_command (port_offset channel 0 register_offset);
      size = pointer_size;
    }
        ∷ [])

-- The device answers the next reads of the size of a frame with these words, the highest byte first.
abbrev pub Answers : (List Message → ℕ) → ℕ → List Message → List ℕ → Type 0
Answers device channel sent [] = Unit
Answers device channel sent (v ∷ vs) =
    let sent' = asked channel bc_fifo_l_offset sent in
    (v < 2 ^ 32) × (device sent' ≡ load_le (word_bytes v)) × Answers device channel sent' vs

-- The device answers the read of the number of frames with a word whose low ten bits are their number,
-- and then gives their sizes.
abbrev pub Reports : Port → List ℕ → Type 0
Reports p sizes =
    let sent' = asked p.channel fifo_fc_offset p.sent in
    (word : ℕ) × (word < 2 ^ 32)
    × (p.device sent' ≡ load_le (word_bytes word))
    × (bit_and word 0x3ff ≡ length sizes)
    × Answers p.device p.channel sent' sizes

get_register-answer :
    (p : Port) (register_offset v : ℕ)
    → register_offset < 2 ^ 14
    → v < 2 ^ 32
    → p.device (asked p.channel register_offset p.sent) ≡ load_le (word_bytes v)
    → (get_register p 0 register_offset).0 ≡ v
get_register-answer p register_offset v low h answer =
    (get_register_lem p 0 register_offset v (omega arith) h
      (omega (arith, port_offset_bar0 p.channel register_offset low)) answer).0

-- What listing leaves alone, and what it adds.
abbrev pub IsListed : Port → List ℕ → Port → Type 0
IsListed p sizes p' =
    (sizes_of p'.queued_iframes.frames ≡ sizes_of p.queued_iframes.frames ++ sizes)
    × (p'.istream ≡ p.istream)
    × (p'.append_status ≡ p.append_status)
    × (p'.append_timestamp ≡ p.append_timestamp)
    × (p'.rx_multiple ≡ p.rx_multiple)

sizes_of-append :
    (fs : List Frame) (f : Frame) → sizes_of (fs ++ (f ∷ [])) ≡ sizes_of fs ++ (f.frame_size ∷ [])
sizes_of-append [] f = refl
sizes_of-append (g ∷ fs) f = ap (λ l. g.frame_size ∷ l) (sizes_of-append fs f)

list_from :
    (sizes : List ℕ) (p : Port) (clock : ℕ → List ℕ)
    → Answers p.device p.channel p.sent sizes
    → (p' : Port) × (update_bc_from (length sizes) p (λ _. true) clock ≡ some p')
      × IsListed p sizes p'
unfolding update_bc_from get_register Frame.new Flist.add_frame
list_from [] p clock answers =
    (p, refl, (sym (append-nil (sizes_of p.queued_iframes.frames)), refl, refl, refl, refl))
list_from (v ∷ vs) p clock (small, answer, answers) =
    let (size, asked_port) = get_register p 0 bc_fifo_l_offset in
    let frame = record (Frame.empty_frame p.frame_counter) {
      frame_size = size;
      timestamp = clock (length vs);
    } in
    let next = record asked_port {
      frame_counter = add32 p.frame_counter 1;
      queued_iframes = Flist.add_frame p.queued_iframes frame;
    } in
    let (p', ran, (sizes, stream, status, stamp, multiple)) = list_from vs next clock answers in
    let same : size ≡ v = get_register-answer p bc_fifo_l_offset v (omega arith) small answer in
    (
      p',
      ran,
      (
        sizes
            ∙ ap (λ l. l ++ vs) (sizes_of-append p.queued_iframes.frames frame)
            ∙ append_assoc (sizes_of p.queued_iframes.frames) (size ∷ []) vs
            ∙ ap (λ n. sizes_of p.queued_iframes.frames ++ (n ∷ vs)) same,
        stream,
        status,
        stamp,
        multiple,
      ),
    )

abbrev woken : Option Port → Option Port
woken none = none
woken (some p) = some (record p { input_woken = true })

update_bc_buffer-woken :
    (p : Port) (granted : ℕ → Bool) (clock : ℕ → List ℕ)
    → let (count, q) = get_register (record p { bclist_scheduled = false }) 0 fifo_fc_offset in
      update_bc_buffer p granted clock
      ≡ woken (update_bc_from (bit_and count 0x3ff) q granted clock)
unfolding update_bc_buffer
update_bc_buffer-woken p granted clock = ground arith

-- With memory for the frames granted, on a device that reports a number of frames and their sizes:
-- `update_bc_buffer` ends, frames of these sizes stand behind the others of the queue, in their order, the
-- readers have been woken, and the stream is as it was.
update_bc_buffer_lem :
    (p : Port) (clock : ℕ → List ℕ) (sizes : List ℕ)
    → Reports p sizes
    → (p' : Port) × (update_bc_buffer p (λ _. true) clock ≡ some p')
      × IsListed p sizes p'
      × (p'.input_woken ≡ true)
unfolding update_bc_buffer get_register
update_bc_buffer_lem p clock sizes (word, small, answer, number, answers) =
    let start = record p { bclist_scheduled = false } in
    let (count, asked_port) = get_register start 0 fifo_fc_offset in
    let (p', ran, listed) = list_from sizes asked_port clock answers in
    let same : count ≡ word =
      get_register-answer start fifo_fc_offset word (omega arith) small answer in
    let rounds : bit_and count 0x3ff ≡ length sizes = ap (λ n. bit_and n 0x3ff) same ∙ number in
    (
      record p' { input_woken = true },
      update_bc_buffer-woken p (λ _. true) clock
          ∙ ap (λ n. woken (update_bc_from n asked_port (λ _. true) clock)) rounds
          ∙ ap woken ran,
      listed,
      refl,
    )

-- The frame read of a port makes a delivery.
abbrev pub Makes : Port → ℕ → Delivery → Type 0
Makes p buf_length d =
    (writes : List UserWrite) × (p' : Port) × (frame_read p buf_length (λ _. 0)
      ≡ some ((if length d.out == 0 then fail enobufs else done (length d.out)), writes, p'))
    × (gather 0 writes ≡ some d.out)
    × (length d.out ≤ buf_length)
    × (sizes_of p'.queued_iframes.frames ≡ d.sizes)
    × (contents p'.istream ≡ d.stream)
    × IsValid p'.istream

same-deliver :
    {status status' multiple multiple' : Bool} {sizes sizes' stream stream' : List ℕ} (room : ℕ)
    → status ≡ status'
    → multiple ≡ multiple'
    → sizes ≡ sizes'
    → stream ≡ stream'
    → deliver status multiple room sizes stream ≡ deliver status' multiple' room sizes' stream'
same-deliver room a b c d = rw a (rw b (rw c (rw d refl)))

-- A port whose stream is valid, with no timestamps and memory granted, on a device that reports sizes of
-- frames that, like those on the list before them, have the bytes of their trailer: `update_bc_buffer`
-- ends, and a read of whole frames behind it, into less than 2 ^ 31 - 2 bytes that can be written, makes
-- the delivery that cuts the stream by the listed sizes and then the reported ones, one frame after
-- another.
pub update_bc_buffer-frame_read :
    (p : Port) (clock : ℕ → List ℕ) (sizes : List ℕ) (buf_length : ℕ)
    → Reports p sizes
    → IsValid p.istream
    → truth p.append_timestamp ≡ false
    → all_long (truth p.append_status) (sizes_of p.queued_iframes.frames ++ sizes) ≡ true
    → buf_length < 2 ^ 31 - 2
    → (p' : Port) × (update_bc_buffer p (λ _. true) clock ≡ some p')
      × Makes p' buf_length (
          deliver
            (truth p.append_status)
            (truth p.rx_multiple)
            buf_length
            (sizes_of p.queued_iframes.frames ++ sizes)
            (contents p.istream))
update_bc_buffer-frame_read p clock sizes buf_length reports v plain long small =
    let (p', ran, (all, stream, status, stamp, multiple), _) =
      update_bc_buffer_lem p clock sizes reports in
    let long' : all_long (truth p'.append_status) (sizes_of p'.queued_iframes.frames) ≡ true =
      rw status (rw all long) in
    let made = frame_read_lem p' buf_length (rw stream v) (ap truth stamp ∙ plain) long' small in
    (
      p',
      ran,
      subst (Makes p' buf_length)
          (same-deliver buf_length (ap truth status) (ap truth multiple) all (ap contents stream))
          made,
    )
