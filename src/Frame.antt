-- ===== src/Frame.antt =====
-- `struct synccom_frame` and its operations, src/frame.c. A frame owns a buffer, NULL or an allocated
-- block; `data_length` of its bytes are in use. Each function returns C's `int` result beside the new
-- frame. Where the code calls `kmalloc`, a Boolean argument says whether that request is granted, and
-- where it copies from or to user space, a number says how many bytes the kernel left uncopied.
pub mod Valid
pub mod Bytes
use synccom_linux.Prelude.{
  ℕ, ◌-◌, ◌%◌, min, Bool, true, false, Option, none, some, List, [], ◌++◌, if◌then◌else◌, ltb, ◌==◌,
  add32, length, take, drop, replicate, write_at,
}

-- The links of the list that a frame is on are the model's lists. `timestamp` holds the sixteen bytes of
-- a `struct timespec64`, and `port` is the port that holds the frame.
pub record Frame : Type 0 where
  pub buffer : Option (List ℕ)
  pub data_length : ℕ
  pub buffer_size : ℕ
  pub frame_size : ℕ
  pub lost_bytes : ℕ
  pub number : ℕ
  pub timestamp : List ℕ

-- `sizeof(synccom_timestamp)`
abbrev pub timestamp_size : ℕ
timestamp_size = 16

-- The block behind `buffer`; a NULL pointer has no bytes.
abbrev pub block : Option (List ℕ) → List ℕ
block none = []
block (some b) = b

-- The bytes in use.
abbrev pub contents : Frame → List ℕ
contents f = take f.data_length (block f.buffer)

-- A write into the block behind `buffer`; the pointer stays.
abbrev pub edit : (List ℕ → List ℕ) → Option (List ℕ) → Option (List ℕ)
edit change none = none
edit change (some b) = some (change b)

-- A frame as `synccom_frame_new` makes it.
abbrev pub empty_frame : ℕ → Frame
empty_frame number = record {
  buffer = none;
  data_length = 0;
  buffer_size = 0;
  frame_size = 0;
  lost_bytes = 0;
  number = number;
  timestamp = replicate timestamp_size 0;
}

-- `synccom_frame_new`: the frame, if the request is granted, and the next value of `frame_counter`.
unfoldable pub new : ℕ → Bool → Option Frame × ℕ
new frame_counter granted =
    if granted
    then (some (empty_frame frame_counter), add32 frame_counter 1)
    else (none, frame_counter)

unfoldable pub get_length : Frame → ℕ
get_length f = f.data_length

unfoldable pub get_buffer_size : Frame → ℕ
get_buffer_size f = f.buffer_size

unfoldable pub get_frame_size : Frame → ℕ
get_frame_size f = f.frame_size

unfoldable pub is_empty : Frame → Bool
is_empty f = f.data_length == 0

-- A size rounded up to a multiple of four, in 32 bits.
unfoldable pub four_aligned : ℕ → ℕ
four_aligned size = if size % 4 == 0 then size else add32 size (4 - size % 4)

-- The move of the old bytes into a zeroed new block, and the length in use after it: cut to `size`.
-- With a NULL buffer nothing is copied and the length stays.
carry_over : Option (List ℕ) → ℕ → ℕ → List ℕ → List ℕ × ℕ
carry_over none data_length size new_buffer = (new_buffer, data_length)
carry_over (some old) data_length size new_buffer =
    if data_length == 0
    then (new_buffer, data_length)
    else (let kept = min data_length size in (write_at 0 (take kept old) new_buffer, kept))

-- `synccom_frame_update_buffer_size`
unfoldable pub update_buffer_size : Frame → ℕ → Bool → ℕ × Frame
unfolding carry_over four_aligned
update_buffer_size f size granted =
    if size == 0
    then (1, record f { buffer = none; buffer_size = 0; data_length = 0 })
    else if granted
    then (let (moved, kept) =
          carry_over f.buffer f.data_length size (replicate (four_aligned size) 0) in
        (1, record f { buffer = some moved; buffer_size = four_aligned size; data_length = kept }))
    else (0, f)

-- `synccom_frame_delete`: the buffer goes, and then the frame.
unfoldable pub delete : Frame → Frame
unfolding update_buffer_size
delete f = (update_buffer_size f 0 true).1

-- `synccom_frame_clear`
unfoldable pub clear : Frame → Frame
unfolding update_buffer_size
clear f = (update_buffer_size f 0 true).1

-- The test and the growth that both `add_data` functions begin with.
unfoldable pub ensure_room : Frame → ℕ → Bool → ℕ × Frame
ensure_room f len granted =
    if ltb f.buffer_size (add32 f.data_length len)
    then update_buffer_size f (add32 f.data_length len) granted
    else (1, f)

-- The move of `bytes` to the end of the data.
unfoldable pub append_bytes : Frame → List ℕ → Frame
append_bytes f bytes = record f {
  buffer = edit (write_at f.data_length bytes) f.buffer;
  data_length = add32 f.data_length (length bytes);
}

-- A move of `bytes` behind the data that does not count them in.
unfoldable pub scribble : Frame → List ℕ → Frame
scribble f bytes = record f { buffer = edit (write_at f.data_length bytes) f.buffer }

-- `synccom_frame_add_data`; `bytes` are the `length` bytes at `data`.
unfoldable pub add_data : Frame → List ℕ → Bool → ℕ × Frame
add_data f bytes granted =
    if length bytes == 0
    then (0, f)
    else (let (ok, f') = ensure_room f (length bytes) granted in
        if ok == 0 then (0, f') else (1, append_bytes f' bytes))

-- `synccom_frame_add_data_from_user`; `copy_from_user` moves all but the last
-- `uncopied` bytes, and puts zeros in their place.
unfoldable pub add_data_from_user : Frame → List ℕ → Bool → ℕ → ℕ × Frame
add_data_from_user f bytes granted uncopied =
    if length bytes == 0
    then (0, f)
    else (let (ok, f') = ensure_room f (length bytes) granted in
        if ok == 0
        then (0, f')
        else if uncopied == 0
        then (1, append_bytes f' bytes)
        else (0, scribble f' (take (length bytes - uncopied) bytes ++ replicate uncopied 0)))

-- The removal of the first `n` bytes in use: the rest moves to the front of the block.
unfoldable pub shift_out : Frame → ℕ → Frame
shift_out f n = record f {
  buffer = edit (λ b. write_at 0 (take (f.data_length - n) (drop n b)) b) f.buffer;
  data_length = f.data_length - n;
}

-- `synccom_frame_remove_data`: C's result, the frame, and the bytes that reached `destination`.
-- `uncopied` is the answer of `copy_to_user`, and `to_user` is false for a NULL destination.
unfoldable pub remove_data : Frame → Bool → ℕ → ℕ → ℕ × Frame × List ℕ
remove_data f to_user len uncopied =
    if len == 0
    then (1, f, [])
    else if f.data_length == 0
    then (1, f, [])
    else (let n = min len f.data_length in
        if to_user
        then (if uncopied == 0
            then (1, shift_out f n, take n (block f.buffer))
            else (0, f, take (n - uncopied) (block f.buffer)))
        else (1, shift_out f n, []))

-- `synccom_frame_transfer_data`. Its result is followed by the new destination and source. Three
-- requests may fail: the scratch buffer, the growth to `frame_size`, and the growth for the new bytes;
-- the results of the last two are dropped.
unfoldable pub transfer_data : Frame → Frame → ℕ → Bool → Bool → Bool → ℕ × Frame × Frame
transfer_data destination source len scratch grow add =
    if len == 0
    then (1, destination, source)
    else if source.data_length == 0
    then (1, destination, source)
    else if ltb source.data_length len
    then (0, destination, source)
    else if scratch
    then (let grown = (update_buffer_size destination destination.frame_size grow).1 in
        (1, (add_data grown (take len (block source.buffer)) add).1, shift_out source len))
    else (0, destination, source)
