-- ===== src/Bytes/Copy.antt =====
-- What `copy` into a slice changes, and what it leaves.
use memif.Prelude.{
  ℕ, zero, suc, ◌+◌, ◌-◌, ◌≤◌, ◌≡◌, refl, ap, ◌∙◌, List, [], ◌∷◌, arith, take, drop, length,
  length-take, length-drop, sym, ◌⊎◌, inl, inr, ◌++◌,
}
use memif.Bytes.{copy, copy_at, bytes_at}

pub length-copy : (dst src : List ℕ) → length (copy dst src) ≡ length dst
unfolding copy
length-copy [] src = refl
length-copy (x ∷ dst) [] = refl
length-copy (x ∷ dst) (y ∷ src) = ap suc (length-copy dst src)

pub length-copy_at :
    (dst : List ℕ) (off : ℕ) (src : List ℕ) → length (copy_at dst off src) ≡ length dst
unfolding copy_at
length-copy_at dst zero src = length-copy dst src
length-copy_at [] (suc off) src = refl
length-copy_at (x ∷ dst) (suc off) src = ap suc (length-copy_at dst off src)

pub copy_shorter :
    (dst src : List ℕ) → length src ≤ length dst → take (length src) (copy dst src) ≡ src
unfolding copy
copy_shorter dst [] h = refl
copy_shorter [] (y ∷ src) h = absurd (omega arith)
copy_shorter (x ∷ dst) (y ∷ src) h = ap (◌∷◌ y) (copy_shorter dst src (omega arith))

-- A source that fits is read back where it was copied.
pub bytes_at-copy_at_self :
    (dst : List ℕ) (off : ℕ) (src : List ℕ)
    → off + length src ≤ length dst
    → bytes_at off (length src) (copy_at dst off src) ≡ src
unfolding copy_at
bytes_at-copy_at_self dst zero src h = copy_shorter dst src (omega arith)
bytes_at-copy_at_self [] (suc off) src h = absurd (omega arith)
bytes_at-copy_at_self (x ∷ dst) (suc off) src h = bytes_at-copy_at_self dst off src (omega arith)

take-copy_at :
    (dst : List ℕ) (off n : ℕ) (src : List ℕ) → n ≤ off → take n (copy_at dst off src) ≡ take n dst
unfolding copy_at
take-copy_at dst off zero src h = refl
take-copy_at dst zero (suc n) src h = absurd (omega arith)
take-copy_at [] (suc off) (suc n) src h = refl
take-copy_at (x ∷ dst) (suc off) (suc n) src h =
    ap (◌∷◌ x) (take-copy_at dst off n src (omega arith))

-- Bytes below the copied ones stay.
pub bytes_at-copy_at_below :
    (dst : List ℕ) (off : ℕ) (src : List ℕ) (lo n : ℕ)
    → lo + n ≤ off
    → bytes_at lo n (copy_at dst off src) ≡ bytes_at lo n dst
unfolding copy_at
bytes_at-copy_at_below dst off src zero n h = take-copy_at dst off n src (omega arith)
bytes_at-copy_at_below dst zero src (suc lo) n h = absurd (omega arith)
bytes_at-copy_at_below [] (suc off) src (suc lo) n h = refl
bytes_at-copy_at_below (x ∷ dst) (suc off) src (suc lo) n h =
    bytes_at-copy_at_below dst off src lo n (omega arith)

drop-copy : (dst src : List ℕ) (lo : ℕ) → length src ≤ lo → drop lo (copy dst src) ≡ drop lo dst
unfolding copy
drop-copy [] src lo h = refl
drop-copy (x ∷ dst) [] lo h = refl
drop-copy (x ∷ dst) (y ∷ src) zero h = absurd (omega arith)
drop-copy (x ∷ dst) (y ∷ src) (suc lo) h = drop-copy dst src lo (omega arith)

-- Bytes above the copied ones stay.
pub drop-copy_at :
    (dst : List ℕ) (off : ℕ) (src : List ℕ) (lo : ℕ)
    → off + length src ≤ lo
    → drop lo (copy_at dst off src) ≡ drop lo dst
unfolding copy_at
drop-copy_at dst zero src lo h = drop-copy dst src lo (omega arith)
drop-copy_at [] (suc off) src lo h = refl
drop-copy_at (x ∷ dst) (suc off) src zero h = absurd (omega arith)
drop-copy_at (x ∷ dst) (suc off) src (suc lo) h = drop-copy_at dst off src lo (omega arith)

-- Bytes apart from the copied ones stay, on either side.
pub bytes_at-copy_at_apart :
    (dst : List ℕ) (off : ℕ) (src : List ℕ) (lo n : ℕ)
    → (lo + n ≤ off) ⊎ (off + length src ≤ lo)
    → bytes_at lo n (copy_at dst off src) ≡ bytes_at lo n dst
bytes_at-copy_at_apart dst off src lo n (inl h) = bytes_at-copy_at_below dst off src lo n h
bytes_at-copy_at_apart dst off src lo n (inr h) = ap (take n) (drop-copy_at dst off src lo h)

take-nil : (n : ℕ) → take {A = ℕ} n [] ≡ []
take-nil zero = refl
take-nil (suc n) = refl

drop-nil : (n : ℕ) → drop {A = ℕ} n [] ≡ []
drop-nil zero = refl
drop-nil (suc n) = refl

-- A copy of a whole slice of the same length.
pub copy-same_length : (dst src : List ℕ) → length src ≡ length dst → copy dst src ≡ src
unfolding copy
copy-same_length [] [] h = refl
copy-same_length [] (y ∷ src) h = absurd (omega arith)
copy-same_length (x ∷ dst) [] h = absurd (omega arith)
copy-same_length (x ∷ dst) (y ∷ src) h = ap (◌∷◌ y) (copy-same_length dst src (omega arith))

drop-take : (lo len : ℕ) (xs : List ℕ) → drop lo (take len xs) ≡ take (len - lo) (drop lo xs)
drop-take zero len xs = ap (λ k. take k xs) (omega arith)
drop-take (suc lo) zero xs = let e : 0 - suc lo ≡ 0 = omega arith in rw e
drop-take (suc lo) (suc len) [] = sym (take-nil (suc len - suc lo))
drop-take (suc lo) (suc len) (x ∷ xs) =
    drop-take lo len xs ∙ ap (λ k. take k (drop lo xs)) (omega arith)

take-take : (n m : ℕ) (xs : List ℕ) → n ≤ m → take n (take m xs) ≡ take n xs
take-take zero m xs h = refl
take-take (suc n) zero xs h = absurd (omega arith)
take-take (suc n) (suc m) [] h = refl
take-take (suc n) (suc m) (x ∷ xs) h = ap (◌∷◌ x) (take-take n m xs (omega arith))

drop-drop : (lo off : ℕ) (xs : List ℕ) → drop lo (drop off xs) ≡ drop (off + lo) xs
drop-drop lo zero xs = ap (λ k. drop k xs) (omega arith)
drop-drop lo (suc off) [] = drop-nil lo ∙ sym (drop-nil (suc off + lo))
drop-drop lo (suc off) (x ∷ xs) =
    let e : suc off + lo ≡ suc (off + lo) = omega arith in rw e (drop-drop lo off xs)

-- Bytes of a slice are bytes of the whole.
pub bytes_at-bytes_at :
    (xs : List ℕ) (off len lo n : ℕ)
    → lo + n ≤ len
    → bytes_at lo n (bytes_at off len xs) ≡ bytes_at (off + lo) n xs
bytes_at-bytes_at xs off len lo n h =
    ap (take n) (drop-take lo len (drop off xs))
    ∙ take-take n (len - lo) _ (omega arith)
    ∙ ap (take n) (drop-drop lo off xs)

pub length-bytes_at :
    (xs : List ℕ) (off n : ℕ) → off + n ≤ length xs → length (bytes_at off n xs) ≡ n
length-bytes_at xs off n h = omega (arith, length-take n (drop off xs), length-drop off xs)

-- A copy from a source that is long enough fills the destination.
pub copy-eq-take :
    (dst src : List ℕ) → length dst ≤ length src → copy dst src ≡ take (length dst) src
unfolding copy
copy-eq-take [] src h = refl
copy-eq-take (x ∷ dst) [] h = absurd (omega arith)
copy-eq-take (x ∷ dst) (y ∷ src) h = ap (◌∷◌ y) (copy-eq-take dst src (omega arith))

copy-append :
    (dst xs ys : List ℕ)
    → length xs ≤ length dst
    → copy_at (copy dst xs) (length xs) ys ≡ copy dst (xs ++ ys)
unfolding copy copy_at
copy-append [] [] ys h = refl
copy-append (x ∷ dst) [] ys h = refl
copy-append [] (y ∷ xs) ys h = absurd (omega arith)
copy-append (x ∷ dst) (y ∷ xs) ys h = ap (λ r. y ∷ r) (copy-append dst xs ys (omega arith))

-- Two copies, one behind the other, are one of both.
pub copy_at-append :
    (dst : List ℕ) (off : ℕ) (xs ys : List ℕ)
    → off + length xs ≤ length dst
    → copy_at (copy_at dst off xs) (off + length xs) ys ≡ copy_at dst off (xs ++ ys)
unfolding copy copy_at
copy_at-append dst zero xs ys h =
    let z : 0 + length xs ≡ length xs = omega arith in rw z (copy-append dst xs ys (omega arith))
copy_at-append [] (suc off) xs ys h = absurd (omega arith)
copy_at-append (x ∷ dst) (suc off) xs ys h =
    let e : suc off + length xs ≡ suc (off + length xs) = omega arith in
    rw e (ap (λ r. x ∷ r) (copy_at-append dst off xs ys (omega arith)))
