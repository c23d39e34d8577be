-- ===== src/Frame/Valid.antt =====
-- The representation invariant of a frame: the block is as long as `buffer_size` says, and holds the
-- bytes in use. What the growth and the moves of src/frame.c do to the bytes, with the invariant.
use synccom_linux.Prelude.{
  ℕ, zero, suc, ◌+◌, ◌-◌, ◌%◌, ◌^◌, ◌≤◌, ◌<◌, min, ◌≡◌, refl, sym, ◌∙◌, Bool, true, Option, none,
  some, List, [], ◌∷◌, ◌++◌, ◌⊎◌, arith, add32, length, take, drop, replicate, write_at,
  length-write_at, length-replicate, length-take, length-drop, take-write_at, take-write_at_zero,
  take-write_at_before, take-drop, take-nil, take-min, take-all,
}
use synccom_linux.Frame.{
  Frame, block, edit, contents, four_aligned, carry_over, update_buffer_size, ensure_room,
  append_bytes, scribble, shift_out,
}

pub record IsValid (f : Frame) : Type 0 where
  pub sized : length (block f.buffer) ≡ f.buffer_size
  pub fits : f.data_length ≤ f.buffer_size
  pub small : f.buffer_size < 2 ^ 32

-- The largest size that can be rounded up to a multiple of four in 32 bits.
abbrev pub max_size : ℕ
max_size = 2 ^ 32 - 4

pub four_aligned_bounds :
    (n : ℕ)
    → n ≤ max_size
    → (n ≤ four_aligned n)
      × (four_aligned n < n + 4)
      × (four_aligned n < 2 ^ 32)
      × (four_aligned n % 4 ≡ 0)
unfolding four_aligned
four_aligned_bounds n h = ground arith

pub length-contents : {f : Frame} → IsValid f → length (contents f) ≡ f.data_length
length-contents {f} v = omega (arith, length-take f.data_length (block f.buffer))

-- What the move into a new block of at least `size` bytes keeps: the bytes up to `size`.
carry_over_lem :
    (o : Option (List ℕ)) (dl size : ℕ) (fresh : List ℕ)
    → dl ≤ length (block o)
    → size ≤ length fresh
    → let (moved, kept) = carry_over o dl size fresh in
      (length moved ≡ length fresh)
      × (kept ≡ min dl size)
      × (take kept moved ≡ take size (take dl (block o)))
unfolding carry_over
carry_over_lem none zero size fresh h k = (refl, omega arith, sym (take-nil size))
carry_over_lem none (suc dl) size fresh h k = absurd (omega arith)
carry_over_lem (some old) zero size fresh h k = (refl, omega arith, sym (take-nil size))
carry_over_lem (some old) (suc dl) size fresh h k = ground (
  arith,
  length-write_at 0 (take (min (suc dl) size) old) fresh,
  length-take (min (suc dl) size) old,
  take-write_at_zero (min (suc dl) size) (take (min (suc dl) size) old) fresh,
  take-min (suc dl) size old,
)

-- Growing or cutting a frame keeps the invariant and the bytes up to the new size; a refused request
-- changes nothing.
pub update_buffer_size-IsValid :
    (f : Frame) (size : ℕ) (granted : Bool)
    → IsValid f
    → size ≤ max_size
    → IsValid (update_buffer_size f size granted).1
unfolding update_buffer_size
update_buffer_size-IsValid f size granted v h = ground (
  arith,
  four_aligned_bounds size h,
  length-replicate {A = ℕ} (four_aligned size) 0,
  carry_over_lem f.buffer f.data_length size (replicate (four_aligned size) 0),
)

pub contents-update_buffer_size :
    (f : Frame) (size : ℕ)
    → IsValid f
    → size ≤ max_size
    → contents (update_buffer_size f size true).1 ≡ take size (contents f)
unfolding update_buffer_size
contents-update_buffer_size f zero v h = refl
contents-update_buffer_size f (suc size) v h = ground (
  arith,
  four_aligned_bounds (suc size) h,
  length-replicate {A = ℕ} (four_aligned (suc size)) 0,
  carry_over_lem f.buffer f.data_length (suc size) (replicate (four_aligned (suc size)) 0),
)

-- A request for at least the bytes in use: they all stay, and the block has the size asked for.
pub update_buffer_size_grow :
    (f : Frame) (size : ℕ) (granted : Bool)
    → IsValid f
    → size ≤ max_size
    → f.data_length < size
    → let (ok, f') = update_buffer_size f size granted in
      (f'.data_length ≡ f.data_length)
      × (f'.frame_size ≡ f.frame_size)
      × (contents f' ≡ contents f)
      × (((ok ≡ 1) × (size ≤ f'.buffer_size)) ⊎ ((ok ≡ 0) × (f' ≡ f)))
unfolding update_buffer_size
update_buffer_size_grow f size granted v h k = ground (
  arith,
  four_aligned_bounds size h,
  length-replicate {A = ℕ} (four_aligned size) 0,
  carry_over_lem f.buffer f.data_length size (replicate (four_aligned size) 0),
  take-all size (contents f),
  length-contents v,
)

-- A frame has room for the bytes that are to be added, or the request for it was refused and the frame
-- is as it was.
pub ensure_room_lem :
    (f : Frame) (len : ℕ) (granted : Bool)
    → IsValid f
    → f.data_length + len ≤ max_size
    → let (ok, f') = ensure_room f len granted in
      IsValid f'
      × (contents f' ≡ contents f)
      × (f'.data_length ≡ f.data_length)
      × (f'.frame_size ≡ f.frame_size)
      × (((ok ≡ 1) × (f.data_length + len ≤ f'.buffer_size)) ⊎ ((ok ≡ 0) × (f' ≡ f)))
unfolding ensure_room
ensure_room_lem f len granted v h = ground (
  arith,
  update_buffer_size_grow f (add32 f.data_length len) granted v,
  update_buffer_size-IsValid f (add32 f.data_length len) granted v,
)

length-edit :
    (change : List ℕ → List ℕ)
    → ((b : List ℕ) → length (change b) ≡ length b)
    → (o : Option (List ℕ)) → length (block (edit change o)) ≡ length (block o)
length-edit change same none = refl
length-edit change same (some b) = same b

take-edit_append :
    (o : Option (List ℕ)) (n : ℕ) (bytes : List ℕ)
    → n + length bytes ≤ length (block o)
    → take (n + length bytes) (block (edit (write_at n bytes) o)) ≡ take n (block o) ++ bytes
take-edit_append none zero [] h = refl
take-edit_append none zero (b ∷ bytes) h = absurd (omega arith)
take-edit_append none (suc n) bytes h = absurd (omega arith)
take-edit_append (some b) n bytes h = take-write_at n (n + length bytes) bytes b refl h

take-edit_before :
    (o : Option (List ℕ)) (n : ℕ) (src : List ℕ)
    → take n (block (edit (write_at n src) o)) ≡ take n (block o)
take-edit_before none n src = refl
take-edit_before (some b) n src = take-write_at_before n src b

take-edit_shift :
    (o : Option (List ℕ)) (dl n : ℕ)
    → n ≤ dl
    → dl ≤ length (block o)
    → take (dl - n) (block (edit (λ b. write_at 0 (take (dl - n) (drop n b)) b) o))
      ≡ drop n (take dl (block o))
take-edit_shift none zero zero h k = refl
take-edit_shift none zero (suc n) h k = absurd (omega arith)
take-edit_shift none (suc dl) n h k = absurd (omega arith)
take-edit_shift (some b) dl n h k =
    take-write_at_zero (dl - n) (take (dl - n) (drop n b)) b
      (omega (arith, length-take (dl - n) (drop n b), length-drop n b)) (omega arith)
    ∙ take-drop dl n b h

-- Bytes that fit are appended.
pub append_bytes_lem :
    (f : Frame) (bytes : List ℕ)
    → IsValid f
    → f.data_length + length bytes ≤ f.buffer_size
    → let f' = append_bytes f bytes in
      IsValid f'
      × (contents f' ≡ contents f ++ bytes)
      × (f'.data_length ≡ f.data_length + length bytes)
      × (f'.frame_size ≡ f.frame_size)
unfolding append_bytes
append_bytes_lem f bytes v h = ground (
  arith,
  length-edit (write_at f.data_length bytes) (length-write_at f.data_length bytes) f.buffer,
  take-edit_append f.buffer f.data_length bytes,
)

-- The first bytes in use are removed.
pub shift_out_lem :
    (f : Frame) (n : ℕ)
    → IsValid f
    → n ≤ f.data_length
    → let f' = shift_out f n in
      IsValid f'
      × (contents f' ≡ drop n (contents f))
      × (f'.data_length ≡ f.data_length - n)
      × (f'.frame_size ≡ f.frame_size)
unfolding shift_out
shift_out_lem f n v h = ground (
  arith,
  length-edit (λ (b : List ℕ). write_at 0 (take (f.data_length - n) (drop n b)) b)
      (λ b. length-write_at 0 (take (f.data_length - n) (drop n b)) b) f.buffer,
  take-edit_shift f.buffer f.data_length n,
)

-- A write behind the bytes in use leaves the frame valid, and those bytes.
pub scribble_lem :
    (f : Frame) (src : List ℕ)
    → IsValid f
    → let f' = scribble f src in
      IsValid f' × (contents f' ≡ contents f) × (f'.frame_size ≡ f.frame_size)
unfolding scribble
scribble_lem f src v = ground (
  arith,
  length-edit (write_at f.data_length src) (length-write_at f.data_length src) f.buffer,
  take-edit_before f.buffer f.data_length src,
)
