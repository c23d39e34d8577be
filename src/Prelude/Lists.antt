-- ===== src/Prelude/Lists.antt =====
-- Lists measured and indexed by native numbers, under the library's names, and C's `memmove` into
-- an array.
use Prim.Native.Nat.{ℕ, zero, suc, ◌+◌, ◌-◌, ◌≤◌, ◌<◌, min}
use mathlib.Core.Path.{◌≡◌, refl, sym, ap, ◌∙◌}
use mathlib.Core.List.{List, [], ◌∷◌, ◌++◌}
use native.Mathlib.Omega.{arith}
use synccom_linux.Prelude.Tests.{if◌then◌else◌, ◌==◌}

module _ {ℓ} {A : Type ℓ} where
  abbrev pub length : List A → ℕ
  length [] = 0
  length (x ∷ xs) = suc (length xs)

  abbrev pub get_or : List A → ℕ → A → A
  get_or [] i d = d
  get_or (x ∷ xs) zero d = x
  get_or (x ∷ xs) (suc i) d = get_or xs i d

  -- A write out of bounds changes nothing.
  abbrev pub set : List A → ℕ → A → List A
  set [] i v = []
  set (x ∷ xs) zero v = v ∷ xs
  set (x ∷ xs) (suc i) v = x ∷ set xs i v

  abbrev pub take : ℕ → List A → List A
  take zero xs = []
  take (suc n) [] = []
  take (suc n) (x ∷ xs) = x ∷ take n xs

  abbrev pub drop : ℕ → List A → List A
  drop zero xs = xs
  drop (suc n) [] = []
  drop (suc n) (x ∷ xs) = drop n xs

  abbrev pub replicate : ℕ → A → List A
  replicate zero a = []
  replicate (suc n) a = a ∷ replicate n a

  -- `memmove(buf + off, src, length src)`. What falls behind the end of `buf` is lost.
  abbrev pub write_at : ℕ → List A → List A → List A
  write_at off src [] = []
  write_at zero [] (b ∷ buf) = b ∷ buf
  write_at zero (x ∷ src) (b ∷ buf) = x ∷ write_at zero src buf
  write_at (suc off) src (b ∷ buf) = b ∷ write_at off src buf

module _ {ℓ} {A : Type ℓ} where
  pub length-append : (xs ys : List A) → length (xs ++ ys) ≡ length xs + length ys
  length-append [] ys = omega arith
  length-append (x ∷ xs) ys = omega (arith, length-append xs ys)

  pub length-set : (xs : List A) (i : ℕ) (v : A) → length (set xs i v) ≡ length xs
  length-set [] i v = refl
  length-set (x ∷ xs) zero v = refl
  length-set (x ∷ xs) (suc i) v = ap suc (length-set xs i v)

  pub length-take : (n : ℕ) (xs : List A) → length (take n xs) ≡ min n (length xs)
  length-take zero xs = omega arith
  length-take (suc n) [] = omega arith
  length-take (suc n) (x ∷ xs) = omega (arith, length-take n xs)

  pub length-drop : (n : ℕ) (xs : List A) → length (drop n xs) ≡ length xs - n
  length-drop zero xs = omega arith
  length-drop (suc n) [] = omega arith
  length-drop (suc n) (x ∷ xs) = omega (arith, length-drop n xs)

  pub length-replicate : (n : ℕ) (a : A) → length (replicate n a) ≡ n
  length-replicate zero a = refl
  length-replicate (suc n) a = ap suc (length-replicate n a)

  pub length-write_at : (off : ℕ) (src buf : List A) → length (write_at off src buf) ≡ length buf
  length-write_at zero src [] = refl
  length-write_at (suc off) src [] = refl
  length-write_at zero [] (b ∷ buf) = refl
  length-write_at zero (x ∷ src) (b ∷ buf) = ap suc (length-write_at zero src buf)
  length-write_at (suc off) src (b ∷ buf) = ap suc (length-write_at off src buf)

  pub take-all : (n : ℕ) (xs : List A) → length xs ≤ n → take n xs ≡ xs
  take-all zero [] h = refl
  take-all zero (x ∷ xs) h = absurd (omega arith)
  take-all (suc n) [] h = refl
  take-all (suc n) (x ∷ xs) h = ap (λ t. x ∷ t) (take-all n xs (omega arith))

  pub take-write_at_zero :
      (n : ℕ) (src buf : List A)
      → length src ≡ n
      → n ≤ length buf
      → take n (write_at 0 src buf) ≡ src
  take-write_at_zero zero [] buf e h = refl
  take-write_at_zero zero (x ∷ src) buf e h = absurd (omega arith)
  take-write_at_zero (suc n) [] buf e h = absurd (omega arith)
  take-write_at_zero (suc n) (x ∷ src) [] e h = absurd (omega arith)
  take-write_at_zero (suc n) (x ∷ src) (b ∷ buf) e h =
      ap (λ t. x ∷ t) (take-write_at_zero n src buf (omega arith) (omega arith))

  -- What a write at `off` that fits leaves in front of its end.
  pub take-write_at :
      (off n : ℕ) (src buf : List A)
      → n ≡ off + length src
      → n ≤ length buf
      → take n (write_at off src buf) ≡ take off buf ++ src
  take-write_at zero n src buf e h = take-write_at_zero n src buf (omega arith) h
  take-write_at (suc off) zero src buf e h = absurd (omega arith)
  take-write_at (suc off) (suc n) src [] e h = absurd (omega arith)
  take-write_at (suc off) (suc n) src (b ∷ buf) e h =
      ap (λ t. b ∷ t) (take-write_at off n src buf (omega arith) (omega arith))

  pub take-take : (n m : ℕ) (xs : List A) → n ≤ m → take n (take m xs) ≡ take n xs
  take-take zero m xs h = refl
  take-take (suc n) zero xs h = absurd (omega arith)
  take-take (suc n) (suc m) [] h = refl
  take-take (suc n) (suc m) (x ∷ xs) h = ap (λ t. x ∷ t) (take-take n m xs (omega arith))

  pub take-nil : (n : ℕ) → take {A = A} n [] ≡ []
  take-nil zero = refl
  take-nil (suc n) = refl

  pub take-drop : (n m : ℕ) (xs : List A) → m ≤ n → take (n - m) (drop m xs) ≡ drop m (take n xs)
  take-drop n zero xs h = ap (λ (k : ℕ). take k xs) (omega arith)
  take-drop zero (suc m) xs h = absurd (omega arith)
  take-drop (suc n) (suc m) [] h = take-nil (suc n - suc m)
  take-drop (suc n) (suc m) (x ∷ xs) h =
      ap (λ (k : ℕ). take k (drop m xs)) (omega arith) ∙ take-drop n m xs (omega arith)

  pub append-take-drop : (n : ℕ) (xs : List A) → take n xs ++ drop n xs ≡ xs
  append-take-drop zero xs = refl
  append-take-drop (suc n) [] = refl
  append-take-drop (suc n) (x ∷ xs) = ap (λ t. x ∷ t) (append-take-drop n xs)

  pub take-append : (n : ℕ) (xs ys : List A) → n ≤ length xs → take n (xs ++ ys) ≡ take n xs
  take-append zero xs ys h = refl
  take-append (suc n) [] ys h = absurd (omega arith)
  take-append (suc n) (x ∷ xs) ys h = ap (λ t. x ∷ t) (take-append n xs ys (omega arith))

  pub take-append_self : (xs ys : List A) → take (length xs) (xs ++ ys) ≡ xs
  take-append_self [] ys = refl
  take-append_self (x ∷ xs) ys = ap (λ t. x ∷ t) (take-append_self xs ys)

  pub drop-append_self : (xs ys : List A) → drop (length xs) (xs ++ ys) ≡ ys
  drop-append_self [] ys = refl
  drop-append_self (x ∷ xs) ys = drop-append_self xs ys

  pub take-min : (n m : ℕ) (xs : List A) → take (min n m) xs ≡ take m (take n xs)
  take-min zero m xs =
      ap (λ (k : ℕ). take k xs) {x = min zero m} {y = 0} (omega arith) ∙ sym (take-nil m)
  take-min (suc n) zero xs = ap (λ (k : ℕ). take k xs) {x = min (suc n) zero} {y = 0} (omega arith)
  take-min (suc n) (suc m) [] = take-nil (min (suc n) (suc m))
  take-min (suc n) (suc m) (x ∷ xs) =
      ap (λ (k : ℕ). take k (x ∷ xs)) {x = min (suc n) (suc m)} {y = suc (min n m)} (omega arith)
      ∙ ap (λ t. x ∷ t) (take-min n m xs)

  -- A write behind the first n leaves them.
  pub take-write_at_before : (n : ℕ) (src buf : List A) → take n (write_at n src buf) ≡ take n buf
  take-write_at_before zero src buf = refl
  take-write_at_before (suc n) src [] = refl
  take-write_at_before (suc n) src (b ∷ buf) = ap (λ t. b ∷ t) (take-write_at_before n src buf)

  -- What stands at each index after a write within the list.
  pub get_or-set :
      (xs : List A) (i j : ℕ) (v d : A)
      → i < length xs
      → get_or (set xs i v) j d ≡ (if i == j then v else get_or xs j d)
  get_or-set [] i j v d h = absurd (omega arith)
  get_or-set (x ∷ xs) zero zero v d h = refl
  get_or-set (x ∷ xs) zero (suc j) v d h = ground arith
  get_or-set (x ∷ xs) (suc i) zero v d h = ground arith
  get_or-set (x ∷ xs) (suc i) (suc j) v d h = ground (arith, get_or-set xs i j v d)

  pub get_or-take : (n i : ℕ) (xs : List A) (d : A) → i < n → get_or (take n xs) i d ≡ get_or xs i d
  get_or-take zero i xs d h = absurd (omega arith)
  get_or-take (suc n) i [] d h = refl
  get_or-take (suc n) zero (x ∷ xs) d h = refl
  get_or-take (suc n) (suc i) (x ∷ xs) d h = get_or-take n i xs d (omega arith)

  pub get_or-append :
      (xs ys : List A) (i : ℕ) (d : A) → get_or (xs ++ ys) (length xs + i) d ≡ get_or ys i d
  get_or-append [] ys i d = ap (λ j. get_or ys j d) {x = 0 + i} {y = i} (omega arith)
  get_or-append (x ∷ xs) ys i d =
      ap (λ j. get_or (x ∷ xs ++ ys) j d) {x = suc (length xs) + i} {y = suc (length xs + i)}
        (omega arith)
      ∙ get_or-append xs ys i d

  pub drop-nil : (n : ℕ) → drop {A = A} n [] ≡ []
  drop-nil zero = refl
  drop-nil (suc n) = refl

  pub drop-drop : (n m : ℕ) (xs : List A) → drop n (drop m xs) ≡ drop (m + n) xs
  drop-drop n zero xs = ap (λ k. drop k xs) {x = n} {y = 0 + n} (omega arith)
  drop-drop n (suc m) [] = drop-nil n ∙ sym (drop-nil (suc m + n))
  drop-drop n (suc m) (x ∷ xs) =
      drop-drop n m xs ∙ ap (λ k. drop k (x ∷ xs)) {x = suc (m + n)} {y = suc m + n} (omega arith)
