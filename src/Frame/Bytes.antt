-- ===== src/Frame/Bytes.antt =====
-- The frame as a queue of bytes: what `add_data`, `add_data_from_user`, `remove_data` and
-- `transfer_data` of src/frame.c do to the bytes in use, on each of their branches.
use synccom_linux.Prelude.{
  ℕ, ◌+◌, ◌-◌, ◌≤◌, ◌<◌, min, ◌≡◌, ◌≢◌, ◌⊎◌, Bool, true, false, List, [], ◌++◌, arith,
  if◌then◌else◌, length, take, drop, replicate, take-take, length-take,
}
use synccom_linux.Frame.{
  Frame, block, contents, update_buffer_size, ensure_room, add_data, add_data_from_user,
  remove_data, transfer_data,
}
use synccom_linux.Frame.Valid.{
  IsValid, max_size, ensure_room_lem, append_bytes_lem, shift_out_lem, update_buffer_size-IsValid,
  contents-update_buffer_size, length-contents, scribble_lem,
}

ensure_room_granted : (f : Frame) (len : ℕ) → (ensure_room f len true).0 ≡ 1
unfolding ensure_room update_buffer_size
ensure_room_granted f len = ground arith

-- A valid frame whose new length still fits 32 bits after rounding up, given at least one byte: if the
-- request for memory is granted, the bytes are appended and the result is 1; in any case the frame
-- stays valid with the same `frame_size`, and the result is 1 with the bytes appended, or 0 with the
-- frame unchanged.
pub add_data_lem :
    (f : Frame) (bytes : List ℕ) (granted : Bool)
    → IsValid f
    → f.data_length + length bytes ≤ max_size
    → 0 < length bytes
    → let (ok, f') = add_data f bytes granted in
      IsValid f'
      × (f'.frame_size ≡ f.frame_size)
      × (((ok ≡ 1) × (contents f' ≡ contents f ++ bytes))
          ⊎ ((ok ≡ 0) × (granted ≡ false) × (f' ≡ f)))
unfolding add_data
add_data_lem f bytes granted v h k = ground (
  arith,
  ensure_room_lem f (length bytes) granted v h,
  ensure_room_granted f (length bytes),
  append_bytes_lem (ensure_room f (length bytes) granted).1 bytes,
)

-- `add_data_from_user` on a valid frame, a length that fits, and at least one byte: if the request for
-- memory is granted and the kernel copies every byte, they are appended and the result is 1. In any case
-- the frame stays valid, with the same `frame_size`, and the result is 1 with the bytes appended, or 0
-- with the bytes in use those from before.
pub add_data_from_user_lem :
    (f : Frame) (bytes : List ℕ) (granted : Bool) (uncopied : ℕ)
    → IsValid f
    → f.data_length + length bytes ≤ max_size
    → 0 < length bytes
    → let (ok, f') = add_data_from_user f bytes granted uncopied in
      IsValid f'
      × (f'.frame_size ≡ f.frame_size)
      × (((ok ≡ 1) × (uncopied ≡ 0) × (contents f' ≡ contents f ++ bytes))
          ⊎ ((ok ≡ 0) × ((granted ≡ false) ⊎ (uncopied ≢ 0)) × (contents f' ≡ contents f)))
unfolding add_data_from_user
add_data_from_user_lem f bytes granted uncopied v h k = ground (
  arith,
  ensure_room_lem f (length bytes) granted v h,
  ensure_room_granted f (length bytes),
  append_bytes_lem (ensure_room f (length bytes) granted).1 bytes,
  scribble_lem (ensure_room f (length bytes) granted).1
      (take (length bytes - uncopied) bytes ++ replicate uncopied 0),
)

-- A valid frame asked for `len` bytes: its `frame_size` stays, and it stays valid. If there are bytes to
-- give, a destination, and a copy that leaves some uncopied, the result is 0, the frame is unchanged, and
-- the user has got the first bytes but for as many as were left. Else the result is 1, the first
-- `min len data_length` bytes are gone from the frame, the rest stays in order, and with a destination
-- they are what the user has got.
pub remove_data_lem :
    (f : Frame) (to_user : Bool) (len uncopied : ℕ)
    → IsValid f
    → let (ok, f', out) = remove_data f to_user len uncopied in
      let n = min len f.data_length in
      IsValid f'
      × (f'.frame_size ≡ f.frame_size)
      × (((ok ≡ 1)
            × (contents f' ≡ drop n (contents f))
            × (f'.data_length ≡ f.data_length - n)
            × (out ≡ (if to_user then take n (contents f) else []))
            × ((n ≡ 0) ⊎ (to_user ≡ false) ⊎ (uncopied ≡ 0)))
          ⊎ ((ok ≡ 0)
              × (0 < n)
              × (to_user ≡ true)
              × (uncopied ≢ 0)
              × (f' ≡ f)
              × (out ≡ take (n - uncopied) (contents f))))
unfolding remove_data
remove_data_lem f to_user len uncopied v = ground (
  arith,
  shift_out_lem f (min len f.data_length) v,
  take-take (min len f.data_length) f.data_length (block f.buffer),
  take-take (min len f.data_length - uncopied) f.data_length (block f.buffer),
)

frame_size-update :
    (d : Frame) → (update_buffer_size d d.frame_size true).1.frame_size ≡ d.frame_size
unfolding update_buffer_size
frame_size-update d = ground arith

-- `transfer_data` between two valid frames, with every request for memory granted, of `len` bytes that
-- the source holds: the result is 1, the source loses its first `len` bytes, and the destination, cut
-- to its `frame_size`, gains them at its end.
pub transfer_data_lem :
    (d s : Frame) (len : ℕ)
    → IsValid d
    → IsValid s
    → 0 < len
    → len ≤ s.data_length
    → d.frame_size + len ≤ max_size
    → let (ok, d', s') = transfer_data d s len true true true in
      (ok ≡ 1)
      × IsValid d'
      × IsValid s'
      × (contents d' ≡ take d.frame_size (contents d) ++ take len (contents s))
      × (contents s' ≡ drop len (contents s))
unfolding transfer_data
transfer_data_lem d s len vd vs p q h = ground (
  arith,
  update_buffer_size-IsValid d d.frame_size true vd (omega arith),
  contents-update_buffer_size d d.frame_size vd (omega arith),
  frame_size-update d,
  add_data_lem grown moved true,
  length-contents (update_buffer_size-IsValid d d.frame_size true vd (omega arith)),
  length-take d.frame_size (contents d),
  shift_out_lem s len vs q,
  take-take len s.data_length (block s.buffer),
  length-take len (contents s),
  length-contents vs,
)
  where
    grown : Frame
    grown = (update_buffer_size d d.frame_size true).1

    moved : List ℕ
    moved = take len (block s.buffer)
