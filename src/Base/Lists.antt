-- ===== src/Base/Lists.antt =====
-- C buffers and arrays as lists indexed by native numbers.
use Prim.Native.Nat.{ℕ, zero, suc, ◌+◌, ◌-◌, ◌<◌, ◌≤◌, min}
use mathlib.Core.Path.{◌≡◌, refl, ap, ◌∙◌}
use mathlib.Core.Logic.{◌≢◌}
use mathlib.Core.List.{List, [], ◌∷◌, ◌++◌}
use native.Mathlib.Omega.{arith}

module _ {ℓ} {A : Type ℓ} where
  abbrev pub length : List A → ℕ
  length [] = 0
  length (x ∷ xs) = suc (length xs)

  abbrev pub get_or : List A → ℕ → A → A
  get_or [] i d = d
  get_or (x ∷ xs) zero d = x
  get_or (x ∷ xs) (suc i) d = get_or xs i d

  -- A write out of bounds changes nothing; the invariants rule it out.
  abbrev pub set : List A → ℕ → A → List A
  set [] i v = []
  set (x ∷ xs) zero v = v ∷ xs
  set (x ∷ xs) (suc i) v = x ∷ set xs i v

  abbrev pub take : ℕ → List A → List A
  take zero xs = []
  take (suc n) [] = []
  take (suc n) (x ∷ xs) = x ∷ take n xs

  abbrev pub drop : ℕ → List A → List A
  drop zero xs = xs
  drop (suc n) [] = []
  drop (suc n) (x ∷ xs) = drop n xs

  abbrev pub replicate : ℕ → A → List A
  replicate zero a = []
  replicate (suc n) a = a ∷ replicate n a

module _ {ℓ} {A : Type ℓ} where
  -- memcpy(buf, src, len) for the `len` bytes `src`: the bytes behind them stay.
  abbrev pub overwrite : List A → List A → List A
  overwrite buf src = src ++ drop (length src) buf

  pub length-append : (xs ys : List A) → length (xs ++ ys) ≡ length xs + length ys
  length-append [] ys = omega arith
  length-append (x ∷ xs) ys = omega (arith, length-append xs ys)

  pub length-set : (xs : List A) (i : ℕ) (v : A) → length (set xs i v) ≡ length xs
  length-set [] i v = refl
  length-set (x ∷ xs) zero v = refl
  length-set (x ∷ xs) (suc i) v = ap suc (length-set xs i v)

  pub get_or-set_self :
      (xs : List A) (i : ℕ) (v d : A) → i < length xs → get_or (set xs i v) i d ≡ v
  get_or-set_self [] i v d h = absurd (omega arith)
  get_or-set_self (x ∷ xs) zero v d h = refl
  get_or-set_self (x ∷ xs) (suc i) v d h = get_or-set_self xs i v d (omega arith)

  pub get_or-set_ne :
      (xs : List A) (i j : ℕ) (v d : A) → i ≢ j → get_or (set xs i v) j d ≡ get_or xs j d
  get_or-set_ne [] i j v d h = refl
  get_or-set_ne (x ∷ xs) zero zero v d h = absurd (h refl)
  get_or-set_ne (x ∷ xs) zero (suc j) v d h = refl
  get_or-set_ne (x ∷ xs) (suc i) zero v d h = refl
  get_or-set_ne (x ∷ xs) (suc i) (suc j) v d h = get_or-set_ne xs i j v d (λ e. h (ap suc e))

  pub length-take : (n : ℕ) (xs : List A) → length (take n xs) ≡ min n (length xs)
  length-take zero xs = omega arith
  length-take (suc n) [] = omega arith
  length-take (suc n) (x ∷ xs) = omega (arith, length-take n xs)

  pub length-drop : (n : ℕ) (xs : List A) → length (drop n xs) ≡ length xs - n
  length-drop zero xs = omega arith
  length-drop (suc n) [] = omega arith
  length-drop (suc n) (x ∷ xs) = omega (arith, length-drop n xs)

  pub length-replicate : (n : ℕ) (a : A) → length (replicate n a) ≡ n
  length-replicate zero a = refl
  length-replicate (suc n) a = ap suc (length-replicate n a)

  pub take_all : (n : ℕ) (xs : List A) → length xs ≤ n → take n xs ≡ xs
  take_all zero [] h = refl
  take_all zero (x ∷ xs) h = absurd (omega arith)
  take_all (suc n) [] h = refl
  take_all (suc n) (x ∷ xs) h = ap (λ t. x ∷ t) (take_all n xs (omega arith))

  pub take-append : (xs ys : List A) → take (length xs) (xs ++ ys) ≡ xs
  take-append [] ys = refl
  take-append (x ∷ xs) ys = ap (λ t. x ∷ t) (take-append xs ys)

  pub take-append_of_length : (n : ℕ) (xs ys : List A) → length xs ≡ n → take n (xs ++ ys) ≡ xs
  take-append_of_length zero [] ys h = refl
  take-append_of_length zero (x ∷ xs) ys h = absurd (omega arith)
  take-append_of_length (suc n) [] ys h = absurd (omega arith)
  take-append_of_length (suc n) (x ∷ xs) ys h =
      ap (λ t. x ∷ t) (take-append_of_length n xs ys (omega arith))

  pub drop-append_of_length : (n : ℕ) (xs ys : List A) → length xs ≡ n → drop n (xs ++ ys) ≡ ys
  drop-append_of_length zero [] ys h = refl
  drop-append_of_length zero (x ∷ xs) ys h = absurd (omega arith)
  drop-append_of_length (suc n) [] ys h = absurd (omega arith)
  drop-append_of_length (suc n) (x ∷ xs) ys h = drop-append_of_length n xs ys (omega arith)

  pub drop-append : (xs ys : List A) → drop (length xs) (xs ++ ys) ≡ ys
  drop-append [] ys = refl
  drop-append (x ∷ xs) ys = drop-append xs ys

  pub take-append-drop : (n : ℕ) (xs : List A) → take n xs ++ drop n xs ≡ xs
  take-append-drop zero xs = refl
  take-append-drop (suc n) [] = refl
  take-append-drop (suc n) (x ∷ xs) = ap (λ t. x ∷ t) (take-append-drop n xs)

  -- The `n` elements from index `a` on.
  abbrev pub slice : List A → ℕ → ℕ → List A
  slice xs a n = take n (drop a xs)

take-nil {ℓ} : (A : Type ℓ) (n : ℕ) → take {A = A} n [] ≡ []
take-nil A zero = refl
take-nil A (suc n) = refl

drop-nil {ℓ} : (A : Type ℓ) (n : ℕ) → drop {A = A} n [] ≡ []
drop-nil A zero = refl
drop-nil A (suc n) = refl

module _ {ℓ} {A : Type ℓ} where
  pub take-append_take : (m n : ℕ) (xs : List A) → take (m + n) xs ≡ take m xs ++ slice xs m n
  take-append_take zero n xs = ap (λ k. take k xs) (omega arith)
  take-append_take (suc m) n [] = rw (take-nil A (suc m + n), take-nil A n)
  take-append_take (suc m) n (x ∷ xs) =
      let e : suc m + n ≡ suc (m + n) = omega arith in
      rw e (ap (λ t. x ∷ t) (take-append_take m n xs))

  pub slice-append :
      (a m n : ℕ) (xs : List A) → slice xs a (m + n) ≡ slice xs a m ++ slice xs (a + m) n
  slice-append zero m n xs = let e : 0 + m ≡ m = omega arith in rw e (take-append_take m n xs)
  slice-append (suc a) m n [] =
      rw (take-nil A (m + n), take-nil A m, drop-nil A (suc a + m), take-nil A n)
  slice-append (suc a) m n (x ∷ xs) =
      let e : suc a + m ≡ suc (a + m) = omega arith in rw e (slice-append a m n xs)

  pub length-slice : (xs : List A) (a n : ℕ) → a + n ≤ length xs → length (slice xs a n) ≡ n
  length-slice xs a n h = omega (arith, length-take n (drop a xs), length-drop a xs)

  pub slice-suc :
      (xs : List A) (a n : ℕ) (d : A)
      → a < length xs
      → slice xs a (suc n) ≡ get_or xs a d ∷ slice xs (a + 1) n
  slice-suc [] a n d h = absurd (omega arith)
  slice-suc (x ∷ xs) zero n d h = refl
  slice-suc (x ∷ xs) (suc a) n d h =
      let e : suc a + 1 ≡ suc (a + 1) = omega arith in rw e (slice-suc xs a n d (omega arith))

  pub slice-append_left :
      (xs ys : List A) (a n : ℕ) → a + n ≤ length xs → slice (xs ++ ys) a n ≡ slice xs a n
  slice-append_left xs ys a zero h = refl
  slice-append_left [] ys a (suc n) h = absurd (omega arith)
  slice-append_left (x ∷ xs) ys zero (suc n) h =
      ap (λ t. x ∷ t) (slice-append_left xs ys 0 n (omega arith))
  slice-append_left (x ∷ xs) ys (suc a) (suc n) h = slice-append_left xs ys a (suc n) (omega arith)

  pub get_or-append_left :
      (xs ys : List A) (i : ℕ) (d : A) → i < length xs → get_or (xs ++ ys) i d ≡ get_or xs i d
  get_or-append_left [] ys i d h = absurd (omega arith)
  get_or-append_left (x ∷ xs) ys zero d h = refl
  get_or-append_left (x ∷ xs) ys (suc i) d h = get_or-append_left xs ys i d (omega arith)

  pub get_or-append_right :
      (xs ys : List A) (i : ℕ) (d : A) → get_or (xs ++ ys) (length xs + i) d ≡ get_or ys i d
  get_or-append_right [] ys i d = ap (λ k. get_or ys k d) (omega arith)
  get_or-append_right (x ∷ xs) ys i d =
      let e : suc (length xs) + i ≡ suc (length xs + i) = omega arith in
      rw e (get_or-append_right xs ys i d)

module _ {ℓ} {A : Type ℓ} where
  pub drop-take : (k m : ℕ) (xs : List A) → drop k (take m xs) ≡ take (m - k) (drop k xs)
  drop-take zero m xs = ap (λ n. take n xs) (omega arith)
  drop-take (suc k) zero xs = let e : zero - suc k ≡ 0 = omega arith in rw (e, drop-nil A (suc k))
  drop-take (suc k) (suc m) [] = rw (take-nil A (suc m - suc k))
  drop-take (suc k) (suc m) (x ∷ xs) =
      let e : suc m - suc k ≡ m - k = omega arith in rw e (drop-take k m xs)

  pub drop-drop : (k a : ℕ) (xs : List A) → drop k (drop a xs) ≡ drop (a + k) xs
  drop-drop k zero xs = ap (λ n. drop n xs) (omega arith)
  drop-drop k (suc a) [] = rw (drop-nil A k, drop-nil A (suc a + k))
  drop-drop k (suc a) (x ∷ xs) =
      let e : suc a + k ≡ suc (a + k) = omega arith in rw e (drop-drop k a xs)

  pub take-take : (n m : ℕ) (xs : List A) → n ≤ m → take n (take m xs) ≡ take n xs
  take-take zero m xs h = refl
  take-take (suc n) zero xs h = absurd (omega arith)
  take-take (suc n) (suc m) [] h = refl
  take-take (suc n) (suc m) (x ∷ xs) h = ap (λ t. x ∷ t) (take-take n m xs (omega arith))

  -- A slice of a slice, and what is behind the first part of one.
  pub slice-slice :
      (a m k n : ℕ) (xs : List A) → k + n ≤ m → slice (slice xs a m) k n ≡ slice xs (a + k) n
  slice-slice a m k n xs h =
      ap (take n) (drop-take k m (drop a xs))
      ∙ take-take n (m - k) (drop k (drop a xs)) (omega arith)
      ∙ ap (take n) (drop-drop k a xs)

  pub drop-slice : (a m k : ℕ) (xs : List A) → drop k (slice xs a m) ≡ slice xs (a + k) (m - k)
  drop-slice a m k xs = drop-take k m (drop a xs) ∙ ap (take (m - k)) (drop-drop k a xs)
