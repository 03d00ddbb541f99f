-- ===== src/Object/Slices.antt =====
-- src/object: parts of files, and vectors that grow.
use aziky.Prelude.{ℕ, zero, suc, ◌+◌, ◌≤◌, ◌≡◌, refl, ap, arith, List, [], ◌∷◌, ◌++◌, length, take}

unfoldable pub drop : ℕ → List ℕ → List ℕ
drop zero xs = xs
drop (suc n) [] = []
drop (suc n) (x ∷ xs) = drop n xs

-- The bytes of a file from an offset on.
unfoldable pub slice : ℕ → ℕ → List ℕ → List ℕ
slice offset size file = take size (drop offset file)

-- `Vec::resize` with zeros, which cuts a longer vector.
unfoldable pub resize : ℕ → List ℕ → List ℕ
resize zero xs = []
resize (suc n) [] = 0 ∷ resize n []
resize (suc n) (x ∷ xs) = x ∷ resize n xs

pub length-resize : (n : ℕ) (xs : List ℕ) → length (resize n xs) ≡ n
unfolding resize
length-resize zero xs = refl
length-resize (suc n) [] = ap suc (length-resize n [])
length-resize (suc n) (x ∷ xs) = ap suc (length-resize n xs)

-- A vector that is not cut stays in front.
pub resize-grows :
    (n : ℕ) (xs : List ℕ) → length xs ≤ n → (added : List ℕ) × (resize n xs ≡ xs ++ added)
unfolding resize
resize-grows n [] h = (resize n [], refl)
resize-grows zero (x ∷ xs) h = absurd (omega arith)
resize-grows (suc n) (x ∷ xs) h =
    let (added, e) = resize-grows n xs (omega arith) in (added, ap (◌∷◌ x) e)

take-append : (n : ℕ) (xs ys : List ℕ) → n ≤ length xs → take n (xs ++ ys) ≡ take n xs
take-append zero xs ys h = refl
take-append (suc n) [] ys h = absurd (omega arith)
take-append (suc n) (x ∷ xs) ys h = ap (◌∷◌ x) (take-append n xs ys (omega arith))

take-all : (xs ys : List ℕ) → take (length xs) (xs ++ ys) ≡ xs
take-all [] ys = refl
take-all (x ∷ xs) ys = ap (◌∷◌ x) (take-all xs ys)

-- What is written behind does not change what is in front.
pub slice-append :
    (offset size : ℕ) (xs ys : List ℕ)
    → offset + size ≤ length xs
    → slice offset size (xs ++ ys) ≡ slice offset size xs
unfolding slice drop
slice-append zero size xs ys h = take-append size xs ys (omega arith)
slice-append (suc offset) zero [] ys h = absurd (omega arith)
slice-append (suc offset) (suc size) [] ys h = absurd (omega arith)
slice-append (suc offset) size (x ∷ xs) ys h = slice-append offset size xs ys (omega arith)

-- What is written at the end is found there.
pub slice-at_end :
    (offset : ℕ) (xs ys zs : List ℕ)
    → length xs ≡ offset
    → slice offset (length ys) (xs ++ (ys ++ zs)) ≡ ys
unfolding slice drop
slice-at_end zero [] ys zs h = take-all ys zs
slice-at_end zero (x ∷ xs) ys zs h = absurd (omega arith)
slice-at_end (suc offset) [] ys zs h = absurd (omega arith)
slice-at_end (suc offset) (x ∷ xs) ys zs h = slice-at_end offset xs ys zs (omega arith)

-- What is in front of the new end stays, whether the vector grows or is cut.
pub slice-resize :
    (offset size n : ℕ) (xs : List ℕ)
    → offset + size ≤ n
    → offset + size ≤ length xs
    → slice offset size (resize n xs) ≡ slice offset size xs
unfolding slice drop resize
slice-resize zero zero n xs h k = refl
slice-resize zero (suc size) zero xs h k = absurd (omega arith)
slice-resize zero (suc size) (suc n) [] h k = absurd (omega arith)
slice-resize zero (suc size) (suc n) (x ∷ xs) h k =
    ap (◌∷◌ x) (slice-resize zero size n xs (omega arith) (omega arith))
slice-resize (suc offset) size zero xs h k = absurd (omega arith)
slice-resize (suc offset) size (suc n) [] h k = absurd (omega arith)
slice-resize (suc offset) size (suc n) (x ∷ xs) h k =
    slice-resize offset size n xs (omega arith) (omega arith)
