-- ===== src/Flist/Usage.antt =====
-- The running count `estimated_memory_usage` of src/flist.c against the sum over the list.
use synccom_linux.Prelude.{
  ℕ, ◌+◌, ◌%◌, ◌<◌, ◌≡◌, refl, sym, ◌∙◌, List, [], ◌∷◌, ◌++◌, arith, u32_mod, add32, length,
}
use synccom_linux.Frame
use synccom_linux.Frame.{Frame}
use synccom_linux.Flist.{
  Flist, add_frame, remove_first, remove_first_if_lte, remove_frame, remove_frame_if_lte, clear,
  calculate_from, calculate_memory_usage, length_from,
}

-- The bytes of a list of frames, as an unbounded sum.
abbrev pub total : List Frame → ℕ
total [] = 0
total (x ∷ xs) = x.data_length + total xs

calculate_from_lem :
    (m : ℕ) (xs : List Frame) → calculate_from m xs % u32_mod ≡ (m + total xs) % u32_mod
unfolding calculate_from Frame.get_length
calculate_from_lem m [] = omega arith
calculate_from_lem m (x ∷ xs) = omega (arith, calculate_from_lem (add32 m x.data_length) xs)

calculate_from-lt : (m : ℕ) (xs : List Frame) → m < u32_mod → calculate_from m xs < u32_mod
unfolding calculate_from
calculate_from-lt m [] h = h
calculate_from-lt m (x ∷ xs) h = calculate_from-lt (add32 m (Frame.get_length x)) xs (omega arith)

-- `synccom_flist_calculate_memory_usage` is the sum of the frames' bytes, in 32 bits.
pub calculate_memory_usage-total : (l : Flist) → calculate_memory_usage l ≡ total l.frames % u32_mod
unfolding calculate_memory_usage
calculate_memory_usage-total l =
    omega (arith, calculate_from_lem 0 l.frames, calculate_from-lt 0 l.frames (omega arith))

-- The running count is what a walk over the list would compute.
abbrev pub IsAccounted : Flist → Type 0
IsAccounted l = l.estimated_memory_usage ≡ calculate_memory_usage l

pub total-append : (xs ys : List Frame) → total (xs ++ ys) ≡ total xs + total ys
total-append [] ys = omega arith
total-append (x ∷ xs) ys = omega (arith, total-append xs ys)

pub add_frame-IsAccounted : (l : Flist) (x : Frame) → IsAccounted l → IsAccounted (add_frame l x)
unfolding add_frame
add_frame-IsAccounted l x h = omega (
  arith,
  calculate_memory_usage-total l,
  calculate_memory_usage-total (add_frame l x),
  total-append l.frames (x ∷ []),
)

-- The same by the unbounded sum, on the parts of a list.
abbrev Matches : Flist → Type 0
Matches l = l.estimated_memory_usage ≡ total l.frames % u32_mod

remove_first-Matches :
    (xs : List Frame) (usage : ℕ) → usage ≡ total xs % u32_mod → Matches (remove_first xs usage).1
unfolding Frame.get_length
remove_first-Matches [] usage h = h
remove_first-Matches (x ∷ xs) usage h = omega arith

remove_first_if_lte-Matches :
    (xs : List Frame) (usage size : ℕ)
    → usage ≡ total xs % u32_mod
    → Matches (remove_first_if_lte xs usage size).1
unfolding Frame.get_length
remove_first_if_lte-Matches [] usage size h = h
remove_first_if_lte-Matches (x ∷ xs) usage size h = ground arith

pub remove_frame-IsAccounted : (l : Flist) → IsAccounted l → IsAccounted (remove_frame l).1
unfolding remove_frame
remove_frame-IsAccounted l h =
    remove_first-Matches l.frames l.estimated_memory_usage (h ∙ calculate_memory_usage-total l)
    ∙ sym (calculate_memory_usage-total (remove_frame l).1)

pub remove_frame_if_lte-IsAccounted :
    (l : Flist) (size : ℕ) → IsAccounted l → IsAccounted (remove_frame_if_lte l size).1
unfolding remove_frame_if_lte
remove_frame_if_lte-IsAccounted l size h =
    remove_first_if_lte-Matches l.frames l.estimated_memory_usage size
      (h ∙ calculate_memory_usage-total l)
    ∙ sym (calculate_memory_usage-total (remove_frame_if_lte l size).1)

pub clear-IsAccounted : (l : Flist) → IsAccounted (clear l)
unfolding clear calculate_memory_usage
clear-IsAccounted l = refl

length_from_lem : (n : ℕ) (xs : List Frame) → length_from n xs % u32_mod ≡ (n + length xs) % u32_mod
unfolding length_from
length_from_lem n [] = omega arith
length_from_lem n (x ∷ xs) = omega (arith, length_from_lem (add32 n 1) xs)
