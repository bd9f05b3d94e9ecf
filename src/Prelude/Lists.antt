-- ===== src/Prelude/Lists.antt =====
-- Lists measured and indexed by native numbers, under the library's names, with windows of a list
-- (`slice`) and overwriting in place (`splice`).
use Prim.Native.Nat.{ℕ, zero, suc, ◌+◌, ◌-◌, ◌≤◌, min}
use mathlib.Core.Path.{◌≡◌, refl, sym, ap, ◌∙◌}
use mathlib.Core.List.{List, [], ◌∷◌, ◌++◌, append-nil}
use mathlib.Core.Option.{Option, none, some}
use native.Mathlib.Omega.{arith}

module _ {ℓ} {A : Type ℓ} where
  abbrev pub length : List A → ℕ
  length [] = 0
  length (x ∷ xs) = suc (length xs)

  abbrev pub get_elem? : List A → ℕ → Option A
  get_elem? [] i = none
  get_elem? (x ∷ xs) zero = some x
  get_elem? (x ∷ xs) (suc i) = get_elem? xs i

  abbrev pub take : ℕ → List A → List A
  take zero xs = []
  take (suc n) [] = []
  take (suc n) (x ∷ xs) = x ∷ take n xs

  abbrev pub drop : ℕ → List A → List A
  drop zero xs = xs
  drop (suc n) [] = []
  drop (suc n) (x ∷ xs) = drop n xs

  abbrev pub replicate : ℕ → A → List A
  replicate zero a = []
  replicate (suc n) a = a ∷ replicate n a

  -- The `n` elements from index `i` on.
  abbrev pub slice : ℕ → ℕ → List A → List A
  slice i n xs = take n (drop i xs)

  -- `xs` with `ys` written over it from index `i` on.
  abbrev pub splice : List A → ℕ → List A → List A
  splice xs i ys = take i xs ++ (ys ++ drop (i + length ys) xs)

module _ {ℓ} {A : Type ℓ} where
  pub length-append : (xs ys : List A) → length (xs ++ ys) ≡ length xs + length ys
  length-append [] ys = omega arith
  length-append (x ∷ xs) ys = omega (arith, length-append xs ys)

  pub length-take : (n : ℕ) (xs : List A) → length (take n xs) ≡ min n (length xs)
  length-take zero xs = omega arith
  length-take (suc n) [] = omega arith
  length-take (suc n) (x ∷ xs) = omega (arith, length-take n xs)

  pub length-drop : (n : ℕ) (xs : List A) → length (drop n xs) ≡ length xs - n
  length-drop zero xs = omega arith
  length-drop (suc n) [] = omega arith
  length-drop (suc n) (x ∷ xs) = omega (arith, length-drop n xs)

  pub length-replicate : (n : ℕ) (a : A) → length (replicate n a) ≡ n
  length-replicate zero a = refl
  length-replicate (suc n) a = ap suc (length-replicate n a)

  pub take-append-drop : (n : ℕ) (xs : List A) → take n xs ++ drop n xs ≡ xs
  take-append-drop zero xs = refl
  take-append-drop (suc n) [] = refl
  take-append-drop (suc n) (x ∷ xs) = ap (λ l. x ∷ l) (take-append-drop n xs)

  pub take_of_length-le : (n : ℕ) (xs : List A) → length xs ≤ n → take n xs ≡ xs
  take_of_length-le zero [] h = refl
  take_of_length-le zero (x ∷ xs) h = absurd (omega arith)
  take_of_length-le (suc n) [] h = refl
  take_of_length-le (suc n) (x ∷ xs) h = ap (λ l. x ∷ l) (take_of_length-le n xs (omega arith))

  pub drop_of_length-le : (n : ℕ) (xs : List A) → length xs ≤ n → drop n xs ≡ []
  drop_of_length-le zero [] h = refl
  drop_of_length-le zero (x ∷ xs) h = absurd (omega arith)
  drop_of_length-le (suc n) [] h = refl
  drop_of_length-le (suc n) (x ∷ xs) h = drop_of_length-le n xs (omega arith)

  pub take-append_of_le : (n : ℕ) (xs ys : List A) → n ≤ length xs → take n (xs ++ ys) ≡ take n xs
  take-append_of_le zero xs ys h = refl
  take-append_of_le (suc n) [] ys h = absurd (omega arith)
  take-append_of_le (suc n) (x ∷ xs) ys h =
      ap (λ l. x ∷ l) (take-append_of_le n xs ys (omega arith))

  pub drop-append_of_le :
      (n : ℕ) (xs ys : List A) → n ≤ length xs → drop n (xs ++ ys) ≡ drop n xs ++ ys
  drop-append_of_le zero xs ys h = refl
  drop-append_of_le (suc n) [] ys h = absurd (omega arith)
  drop-append_of_le (suc n) (x ∷ xs) ys h = drop-append_of_le n xs ys (omega arith)

  pub take-append_past :
      (k n : ℕ) (xs ys : List A) → k ≡ length xs + n → take k (xs ++ ys) ≡ xs ++ take n ys
  take-append_past k n [] ys e = ap (λ j. take j ys) (omega arith)
  take-append_past zero n (x ∷ xs) ys e = absurd (omega arith)
  take-append_past (suc k) n (x ∷ xs) ys e =
      ap (λ l. x ∷ l) (take-append_past k n xs ys (omega arith))

  pub drop-take : (n m : ℕ) (xs : List A) → drop n (take m xs) ≡ take (m - n) (drop n xs)
  drop-take zero m xs = ap (λ j. take j xs) (omega arith)
  drop-take (suc n) zero xs = rw (sub-nil) refl
    where
      sub-nil : zero - suc n ≡ zero
      sub-nil = omega arith
  drop-take (suc n) (suc m) [] = sym (take-empty (suc m - suc n))
    where
      take-empty : (k : ℕ) → take {A = A} k [] ≡ []
      take-empty zero = refl
      take-empty (suc k) = refl
  drop-take (suc n) (suc m) (x ∷ xs) = drop-take n m xs ∙ ap (λ j. take j (drop n xs)) (omega arith)

  pub drop-drop : (m n k : ℕ) (xs : List A) → k ≡ m + n → drop n (drop m xs) ≡ drop k xs
  drop-drop zero n k xs e = ap (λ j. drop j xs) (omega arith)
  drop-drop (suc m) n zero xs e = absurd (omega arith)
  drop-drop (suc m) zero (suc k) [] e = refl
  drop-drop (suc m) (suc n) (suc k) [] e = refl
  drop-drop (suc m) n (suc k) (x ∷ xs) e = drop-drop m n k xs (omega arith)

  pub length-slice : (i n : ℕ) (xs : List A) → i + n ≤ length xs → length (slice i n xs) ≡ n
  length-slice i n xs h = omega (arith, length-take n (drop i xs), length-drop i xs)

  pub length-splice :
      (xs : List A) (i : ℕ) (ys : List A)
      → i + length ys ≤ length xs
      → length (splice xs i ys) ≡ length xs
  length-splice xs i ys h = omega (
    arith,
    length-append (take i xs) (ys ++ drop (i + length ys) xs),
    length-append ys (drop (i + length ys) xs),
    length-take i xs,
    length-drop (i + length ys) xs,
  )

  -- A window that ends where the writing starts grows by what is written.
  pub slice-splice :
      (xs : List A) (r i n : ℕ) (ys : List A)
      → r ≤ i
      → i + length ys ≤ length xs
      → n ≡ i - r + length ys
      → slice r n (splice xs i ys) ≡ slice r (i - r) xs ++ ys
  slice-splice xs r i n ys h fits e =
      ap (take n) (
        drop-append_of_le r (take i xs) rest (omega (arith, length-take i xs))
        ∙ ap (λ l. l ++ rest) (drop-take r i xs))
      ∙ take-append_past n (length ys) window rest
          (omega (arith, length-slice r (i - r) xs (omega arith)))
      ∙ ap (λ l. window ++ l)
          (take-append_past (length ys) 0 ys (drop (i + length ys) xs) (omega arith)
            ∙ append-nil ys)
    where
      window : List A
      window = slice r (i - r) xs

      rest : List A
      rest = ys ++ drop (i + length ys) xs

  -- A window that lies in the first part of a list.
  pub slice-append_of_le :
      (r n : ℕ) (xs ys : List A) → r + n ≤ length xs → slice r n (xs ++ ys) ≡ slice r n xs
  slice-append_of_le r n xs ys h =
      ap (take n) (drop-append_of_le r xs ys (omega arith))
      ∙ take-append_of_le n (drop r xs) ys (omega (arith, length-drop r xs))

  pub drop-slice : (r m n : ℕ) (xs : List A) → drop m (slice r n xs) ≡ slice (r + m) (n - m) xs
  drop-slice r m n xs =
      drop-take m n (drop r xs) ∙ ap (take (n - m)) (drop-drop r m (r + m) xs refl)

  pub take-slice : (r m n : ℕ) (xs : List A) → m ≤ n → take m (slice r n xs) ≡ slice r m xs
  take-slice r m n xs h = take-take m n (drop r xs) h
    where
      take-take : (m n : ℕ) (l : List A) → m ≤ n → take m (take n l) ≡ take m l
      take-take zero n l h = refl
      take-take (suc m) zero l h = absurd (omega arith)
      take-take (suc m) (suc n) [] h = refl
      take-take (suc m) (suc n) (x ∷ l) h = ap (λ t. x ∷ t) (take-take m n l (omega arith))
