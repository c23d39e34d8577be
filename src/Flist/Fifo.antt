-- ===== src/Flist/Fifo.antt =====
-- The frame list of src/flist.c as a first-in first-out queue, over any sequence of its operations.
use synccom_linux.Prelude.{
  ℕ, ◌≡◌, refl, sym, ap, ◌∙◌, Option, none, some, List, [], ◌∷◌, ◌++◌, append-nil, append_assoc,
  arith,
}
use synccom_linux.Frame.{Frame}
use synccom_linux.Flist.{
  Flist, add_frame, remove_first, remove_first_if_lte, remove_frame, remove_frame_if_lte,
}
use synccom_linux.Flist.Usage.{
  IsAccounted, add_frame-IsAccounted, remove_frame-IsAccounted, remove_frame_if_lte-IsAccounted,
}

-- The operations that put a frame on the list or take one off.
pub data Op : Type 0 where
  add : Frame → Op
  remove : Op
  remove_if_lte : ℕ → Op

-- One operation, with the frame that it hands to its caller.
pub apply : Flist → Op → Option Frame × Flist
apply l (add x) = (none, add_frame l x)
apply l remove = remove_frame l
apply l (remove_if_lte size) = remove_frame_if_lte l size

abbrev collect : Option Frame → List Frame → List Frame
collect none xs = xs
collect (some x) xs = x ∷ xs

-- The frames handed out over a sequence of operations, in order, and the list at its end.
pub run : Flist → List Op → List Frame × Flist
run l [] = ([], l)
run l (op ∷ ops) =
    let (out, l') = apply l op in let (outs, l'') = run l' ops in (collect out outs, l'')

-- The frames that a sequence puts on the list, in order.
abbrev pub added : List Op → List Frame
added [] = []
added (add x ∷ ops) = x ∷ added ops
added (remove ∷ ops) = added ops
added (remove_if_lte size ∷ ops) = added ops

remove_first_lem :
    (xs : List Frame) (usage : ℕ)
    → let (out, l) = remove_first xs usage in collect out l.frames ≡ xs
remove_first_lem [] usage = refl
remove_first_lem (x ∷ xs) usage = refl

remove_first_if_lte_lem :
    (xs : List Frame) (usage size : ℕ)
    → let (out, l) = remove_first_if_lte xs usage size in collect out l.frames ≡ xs
remove_first_if_lte_lem [] usage size = refl
remove_first_if_lte_lem (x ∷ xs) usage size = ground arith

-- A frame that is handed out goes in front of what is handed out later.
collect-append :
    (o : Option Frame) (outs left rest xs later : List Frame)
    → outs ++ left ≡ rest ++ later
    → collect o rest ≡ xs
    → collect o outs ++ left ≡ xs ++ later
collect-append none outs left rest xs later e k = e ∙ ap (λ t. t ++ later) k
collect-append (some x) outs left rest xs later e k = ap (λ t. x ∷ t) e ∙ ap (λ t. t ++ later) k

-- From any list, over any sequence of additions and removals: the frames handed out, followed by those
-- still on the list, are those that were on it at first, followed by those added, in that order. No
-- frame is lost, doubled or overtaken, and the running byte count stays that of a walk over the list.
pub run_fifo :
    (ops : List Op) (l : Flist)
    → IsAccounted l
    → let (outs, l') = run l ops in (outs ++ l'.frames ≡ l.frames ++ added ops) × IsAccounted l'
unfolding run apply add_frame remove_frame remove_frame_if_lte
run_fifo [] l h = (sym (append-nil l.frames), h)
run_fifo (add x ∷ ops) l h =
    let ih = run_fifo ops (add_frame l x) (add_frame-IsAccounted l x h) in
    (ih.0 ∙ append_assoc l.frames (x ∷ []) (added ops), ih.1)
run_fifo (remove ∷ ops) l h =
    let ih = run_fifo ops (remove_frame l).1 (remove_frame-IsAccounted l h) in
    (
      collect-append (remove_frame l).0 (run (remove_frame l).1 ops).0
          (run (remove_frame l).1 ops).1.frames (remove_frame l).1.frames l.frames (added ops) ih.0
          (remove_first_lem l.frames l.estimated_memory_usage),
      ih.1,
    )
run_fifo (remove_if_lte size ∷ ops) l h =
    let ih =
      run_fifo ops (remove_frame_if_lte l size).1 (remove_frame_if_lte-IsAccounted l size h) in
    let l' = (remove_frame_if_lte l size).1 in
    (
      collect-append (remove_frame_if_lte l size).0 (run l' ops).0 (run l' ops).1.frames l'.frames
          l.frames (added ops) ih.0
          (remove_first_if_lte_lem l.frames l.estimated_memory_usage size),
      ih.1,
    )
