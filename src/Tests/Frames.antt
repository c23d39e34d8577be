-- ===== src/Tests/Frames.antt =====
-- The frames of src/frame.c and the lists of src/flist.c.
use synccom_linux.Prelude.{ℕ, ◌≡◌, ◌<◌, ◌≢◌, ◌⊎◌, refl, true, false, [], ◌∷◌, ◌++◌, arith}
use synccom_linux.Frame.{contents, add_data, add_data_from_user, remove_data, transfer_data}
use synccom_linux.Frame.Valid.{IsValid}
use synccom_linux.Frame.Bytes.{
  add_data_lem, add_data_from_user_lem, remove_data_lem, transfer_data_lem,
}
use synccom_linux.Flist
use synccom_linux.Flist.Usage.{IsAccounted}
use synccom_linux.Flist.Fifo.{add, remove, remove_if_lte, run, run_fifo}
use synccom_linux.Tests.{three, six}

three-IsValid : IsValid three
three-IsValid = record { sized = refl; fits = omega arith; small = omega arith }

six-IsValid : IsValid six
six-IsValid = record { sized = refl; fits = omega arith; small = omega arith }

add_data_example :
    let (ok, f') = add_data three (4 ∷ 5 ∷ []) true in
    IsValid f'
    × (f'.frame_size ≡ 3)
    × (((ok ≡ 1) × (contents f' ≡ 1 ∷ 2 ∷ 3 ∷ 4 ∷ 5 ∷ []))
        ⊎ ((ok ≡ 0) × (true ≡ false) × (f' ≡ three)))
add_data_example = add_data_lem three (4 ∷ 5 ∷ []) true three-IsValid (omega arith) (omega arith)

add_data_from_user_example :
    let (ok, f') = add_data_from_user three (4 ∷ 5 ∷ []) true 1 in
    IsValid f'
    × (f'.frame_size ≡ 3)
    × (((ok ≡ 1) × (◌≡◌ {A = ℕ} 1 0) × (contents f' ≡ 1 ∷ 2 ∷ 3 ∷ 4 ∷ 5 ∷ []))
        ⊎ ((ok ≡ 0) × ((true ≡ false) ⊎ (◌≢◌ {A = ℕ} 1 0)) × (contents f' ≡ 1 ∷ 2 ∷ 3 ∷ [])))
add_data_from_user_example =
    add_data_from_user_lem three (4 ∷ 5 ∷ []) true 1 three-IsValid (omega arith) (omega arith)

remove_data_example :
    let (ok, f', out) = remove_data six true 4 3 in
    IsValid f'
    × (f'.frame_size ≡ 6)
    × (((ok ≡ 1)
          × (contents f' ≡ 14 ∷ 15 ∷ [])
          × (f'.data_length ≡ 2)
          × (out ≡ 10 ∷ 11 ∷ 12 ∷ 13 ∷ [])
          × ((◌≡◌ {A = ℕ} 4 0) ⊎ (true ≡ false) ⊎ (◌≡◌ {A = ℕ} 3 0)))
        ⊎ ((ok ≡ 0) × (0 < 4) × (true ≡ true) × (◌≢◌ {A = ℕ} 3 0) × (f' ≡ six) × (out ≡ 10 ∷ [])))
remove_data_example = remove_data_lem six true 4 3 six-IsValid

transfer_data_example :
    let (ok, d', s') = transfer_data three six 4 true true true in
    (ok ≡ 1)
    × IsValid d'
    × IsValid s'
    × (contents d' ≡ 1 ∷ 2 ∷ 3 ∷ 10 ∷ 11 ∷ 12 ∷ 13 ∷ [])
    × (contents s' ≡ 14 ∷ 15 ∷ [])
transfer_data_example =
    transfer_data_lem three six 4 three-IsValid six-IsValid (omega arith) (omega arith)
      (omega arith)

run_fifo_example :
    let (outs, l') = run Flist.init (add three ∷ add six ∷ remove_if_lte 2 ∷ remove ∷ []) in
    (outs ++ l'.frames ≡ three ∷ six ∷ []) × IsAccounted l'
unfolding Flist.calculate_memory_usage
run_fifo_example = run_fifo (add three ∷ add six ∷ remove_if_lte 2 ∷ remove ∷ []) Flist.init refl
