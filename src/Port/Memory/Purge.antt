-- ===== src/Port/Memory/Purge.antt =====
-- A purge of src/port.c, and what readers, the tasklet and writers find behind it.
use synccom_linux.Prelude.{
  ℕ, ◌<◌, ◌^◌, ◌≡◌, ◌⊎◌, inl, inr, refl, ap, none, some, List, [], ◌∷◌, ◌++◌, true, false, arith,
}
use synccom_linux.Frame
use synccom_linux.Frame.{contents}
use synccom_linux.Flist
use synccom_linux.Registers.{cmdr_offset, port_offset}
use synccom_linux.Registers.Address.{port_offset_bar0}
use synccom_linux.Port.{Port, Message, done, fail, enobufs}
use synccom_linux.Port.Settings.{is_streaming}
use synccom_linux.Port.Usb.{execute_rres, set_register}
use synccom_linux.Port.Usb.Wire.{parse, write_to, set_register_lem}
use synccom_linux.Port.Usb.Storage.{set_register-frame}
use synccom_linux.Port.Memory.{get_input_memory_usage, purge_rx}
use synccom_linux.Port.Rx
use synccom_linux.Port.Rx.{
  UserWrite, has_incoming_data, frame_read, frame_read_from, next_iframe, stream_read,
}
use synccom_linux.Port.Tx.{SubmitAnswers, oframe_worker}

-- The commands RRES and TRES of the register CMDR.
abbrev pub rres : ℕ
rres = 0x00020000

abbrev pub tres : ℕ
tres = 0x08000000

-- One message has been sent, which the firmware reads as a write of the command to CMDR.
abbrev pub IsCommanded : Port → ℕ → Port → Type 0
IsCommanded p command p' =
    (m : Message) × (p'.sent ≡ p.sent ++ (m ∷ []))
    × (parse m.bytes ≡ write_to (port_offset p.channel 0 cmdr_offset) command)

commanded :
    (p : Port) (command : ℕ)
    → command < 2 ^ 32
    → IsCommanded p command (set_register p 0 cmdr_offset command).1
commanded p command h =
    elim (set_register_lem p 0 cmdr_offset command h
      (omega (arith, port_offset_bar0 p.channel cmdr_offset (omega arith)))) [
        | inl (_, _, m, sent, meant) ↦ (m, sent, meant)
        | inr (low, _, _) ↦ absurd (omega arith)
      ]

-- A reader gets nothing: 0 bytes in a streaming mode, and else ENOBUFS.
abbrev pub HasNothing : Port → ℕ → (ℕ → ℕ) → Type 0
HasNothing p count copies =
    (has_incoming_data p ≡ false)
    × (((is_streaming p ≡ true) × (Rx.read p count copies ≡ some (done 0, (0, []) ∷ [], p)))
        ⊎ ((is_streaming p ≡ false) × (Rx.read p count copies ≡ some (fail enobufs, [], p))))

frame_read_nothing :
    (p : Port) (count : ℕ) (copies : ℕ → ℕ)
    → p.queued_iframes.frames ≡ []
    → frame_read p count copies ≡ some (fail enobufs, [], p)
unfolding frame_read frame_read_from next_iframe Flist.peek_front
frame_read_nothing p count copies empty = ground arith

stream_read_nothing :
    (p : Port) (count uncopied : ℕ)
    → p.istream.data_length ≡ 0
    → stream_read p count uncopied ≡ (done 0, (0, []) ∷ [], p)
unfolding stream_read Frame.get_length Frame.remove_data
stream_read_nothing p count uncopied empty = ground arith

empty-HasNothing :
    (p : Port) (count : ℕ) (copies : ℕ → ℕ)
    → p.queued_iframes.frames ≡ []
    → p.istream.data_length ≡ 0
    → HasNothing p count copies
unfolding Rx.read has_incoming_data Frame.is_empty Flist.peek_front
empty-HasNothing p count copies none_listed empty = ground (
  arith,
  frame_read_nothing p count copies none_listed,
  stream_read_nothing p count (copies 0) empty,
)

-- The commands are written to CMDR, and nothing but the transfers and the kept registers changes.
execute_rres-IsCommanded : (p : Port) → IsCommanded p rres (execute_rres p).1
unfolding execute_rres
execute_rres-IsCommanded p = commanded p rres (omega arith)

execute_rres-output :
    (p : Port)
    → ((execute_rres p).1.queued_oframes ≡ p.queued_oframes)
      × ((execute_rres p).1.pending_oframe ≡ p.pending_oframe)
unfolding execute_rres
execute_rres-output p =
    let same = set_register-frame p 0 cmdr_offset rres in
    (ap (λ q. q.queued_oframes) same, ap (λ q. q.pending_oframe) same)

-- Any purge of the receiver: the result is 1; one message has been sent, which the firmware reads as a
-- write of RRES to CMDR; no frame is listed, listed as pending or pending, the stream is empty, and no
-- memory is counted; there is nothing to wake a reader for, and a read of any size returns 0 bytes in a
-- streaming mode and ENOBUFS in any other; what waits to be sent stays.
pub purge_rx_lem :
    (p : Port) (count : ℕ) (copies : ℕ → ℕ)
    → let (r, p') = purge_rx p in
      (r ≡ done 1)
      × IsCommanded p rres p'
      × (p'.queued_iframes.frames ≡ [])
      × (p'.pending_iframes.frames ≡ [])
      × (p'.pending_iframe ≡ none)
      × (contents p'.istream ≡ [])
      × (get_input_memory_usage p' ≡ 0)
      × HasNothing p' count copies
      × (p'.queued_oframes ≡ p.queued_oframes)
      × (p'.pending_oframe ≡ p.pending_oframe)
unfolding purge_rx get_input_memory_usage Flist.clear Frame.clear Frame.update_buffer_size
    Frame.get_length
purge_rx_lem p count copies = (
  refl,
  execute_rres-IsCommanded p,
  refl,
  refl,
  refl,
  refl,
  refl,
  empty-HasNothing (purge_rx p).1 count copies refl refl,
  (execute_rres-output p).0,
  (execute_rres-output p).1,
)

-- The tasklet once for each of the answers.
abbrev pub workers : Port → List SubmitAnswers → Port
workers p [] = p
workers p (a ∷ answers) = workers (oframe_worker p a) answers
