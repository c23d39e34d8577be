-- ===== src/Flist.antt =====
-- `struct synccom_flist` and its operations, src/flist.c: a list of frames in arrival order, with a
-- running count of the bytes that they hold. A function that takes a frame off the list returns it, or
-- `none` for C's NULL, beside the new list.
pub mod Usage
pub mod Fifo
use synccom_linux.Prelude.{
  ℕ, suc, Bool, true, false, not, ◌||◌, Option, none, some, List, [], ◌∷◌, ◌++◌, if◌then◌else◌, ltb,
  ◌==◌, add32, sub32,
}
use synccom_linux.Frame
use synccom_linux.Frame.{Frame}

pub record Flist : Type 0 where
  pub frames : List Frame
  pub estimated_memory_usage : ℕ

-- `synccom_flist_init`
abbrev pub init : Flist
init = record { frames = []; estimated_memory_usage = 0 }

-- `synccom_flist_add_frame`
unfoldable pub add_frame : Flist → Frame → Flist
unfolding Frame.get_length
add_frame l frame = record l {
  frames = l.frames ++ (frame ∷ []);
  estimated_memory_usage = add32 l.estimated_memory_usage (Frame.get_length frame);
}

-- `synccom_flist_peek_front`
abbrev front : List Frame → Option Frame
front [] = none
front (x ∷ xs) = some x

unfoldable pub peek_front : Flist → Option Frame
peek_front l = front l.frames

-- `synccom_flist_peek_back`
abbrev back : List Frame → Option Frame
back [] = none
back (x ∷ []) = some x
back (x ∷ y ∷ xs) = back (y ∷ xs)

unfoldable pub peek_back : Flist → Option Frame
peek_back l = back l.frames

-- The list without its first frame, and the count without that frame's bytes.
abbrev unlink : Frame → List Frame → ℕ → Option Frame × Flist
unlink x xs usage =
    (some x, record { frames = xs; estimated_memory_usage = sub32 usage (Frame.get_length x) })

-- `synccom_flist_remove_frame`
abbrev remove_first : List Frame → ℕ → Option Frame × Flist
remove_first [] usage = (none, record { frames = []; estimated_memory_usage = usage })
remove_first (x ∷ xs) usage = unlink x xs usage

unfoldable pub remove_frame : Flist → Option Frame × Flist
unfolding Frame.get_length
remove_frame l = remove_first l.frames l.estimated_memory_usage

-- `synccom_flist_remove_frame_if_lte`: only a frame that is all there, and of at most `size` bytes.
abbrev remove_first_if_lte : List Frame → ℕ → ℕ → Option Frame × Flist
remove_first_if_lte [] usage size = (none, record { frames = []; estimated_memory_usage = usage })
remove_first_if_lte (x ∷ xs) usage size =
    if not (Frame.get_length x == Frame.get_frame_size x) || ltb size (Frame.get_length x)
    then (none, record { frames = x ∷ xs; estimated_memory_usage = usage })
    else unlink x xs usage

unfoldable pub remove_frame_if_lte : Flist → ℕ → Option Frame × Flist
unfolding Frame.get_length Frame.get_frame_size
remove_frame_if_lte l size = remove_first_if_lte l.frames l.estimated_memory_usage size

-- `synccom_flist_clear`: every frame is unlinked and deleted.
unfoldable pub clear : Flist → Flist
clear l = record { frames = []; estimated_memory_usage = 0 }

-- `synccom_flist_delete`
unfoldable pub delete : Flist → Flist
unfolding clear
delete l = clear l

-- `synccom_flist_is_empty`
unfoldable pub is_empty : Flist → Bool
is_empty l = elim l.frames [ [] ↦ true | x ∷ xs ↦ false ]

-- `synccom_flist_calculate_memory_usage`: the loop from a sum so far.
calculate_from : ℕ → List Frame → ℕ
calculate_from memory [] = memory
calculate_from memory (x ∷ xs) = calculate_from (add32 memory (Frame.get_length x)) xs

unfoldable pub calculate_memory_usage : Flist → ℕ
unfolding calculate_from Frame.get_length
calculate_memory_usage l = calculate_from 0 l.frames

-- `synccom_flist_length`: the loop from a count so far.
length_from : ℕ → List Frame → ℕ
length_from num_frames [] = num_frames
length_from num_frames (x ∷ xs) = length_from (add32 num_frames 1) xs

unfoldable pub num_frames : Flist → ℕ
unfolding length_from
num_frames l = length_from 0 l.frames
