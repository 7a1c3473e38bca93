-- ===== src/Base/Lists.antt =====
-- Lists measured by native numbers, and byte memory: slices of a buffer and block copies into it.
use Prim.Native.Nat.{ℕ, zero, suc, ◌+◌, ◌-◌, ◌≤◌, ◌<◌, min}
use mathlib.Core.Path.{◌≡◌, refl, sym, ap, ap₂, ◌∙◌}
use mathlib.Core.List.{List, [], ◌∷◌, ◌++◌, map}
use mathlib.Core.Option.{Option, none, some}
use native.Mathlib.Omega.{arith}

module _ {ℓ} {A : Type ℓ} where
  abbrev pub length : List A → ℕ
  length [] = 0
  length (x ∷ xs) = suc (length xs)

  abbrev pub get_elem? : List A → ℕ → Option A
  get_elem? [] i = none
  get_elem? (x ∷ xs) zero = some x
  get_elem? (x ∷ xs) (suc i) = get_elem? xs i

  abbrev pub get_or : List A → ℕ → A → A
  get_or [] i d = d
  get_or (x ∷ xs) zero d = x
  get_or (x ∷ xs) (suc i) d = get_or xs i d

  -- A write out of bounds changes nothing.
  abbrev pub set : List A → ℕ → A → List A
  set [] i v = []
  set (x ∷ xs) zero v = v ∷ xs
  set (x ∷ xs) (suc i) v = x ∷ set xs i v

  abbrev pub take : ℕ → List A → List A
  take zero xs = []
  take (suc n) [] = []
  take (suc n) (x ∷ xs) = x ∷ take n xs

  abbrev pub drop : ℕ → List A → List A
  drop zero xs = xs
  drop (suc n) [] = []
  drop (suc n) (x ∷ xs) = drop n xs

  abbrev pub replicate : ℕ → A → List A
  replicate zero a = []
  replicate (suc n) a = a ∷ replicate n a

  -- The `n` elements from offset `o` on.
  abbrev pub slice : ℕ → ℕ → List A → List A
  slice o n xs = take n (drop o xs)

  -- `bcopy(ds, buf + o, length ds)`; what would fall outside the buffer is not written.
  abbrev pub blit : List A → ℕ → List A → List A
  blit [] o ds = []
  blit (x ∷ xs) (suc o) ds = x ∷ blit xs o ds
  blit (x ∷ xs) zero [] = x ∷ xs
  blit (x ∷ xs) zero (d ∷ ds) = d ∷ blit xs zero ds

  pub length-append : (xs ys : List A) → length (xs ++ ys) ≡ length xs + length ys
  length-append [] ys = omega arith
  length-append (x ∷ xs) ys = omega (arith, length-append xs ys)

  pub length-replicate : (n : ℕ) (a : A) → length (replicate n a) ≡ n
  length-replicate zero a = refl
  length-replicate (suc n) a = ap suc (length-replicate n a)

module _ {ℓ} {A : Type ℓ} where
  pub append_assoc : (xs ys zs : List A) → (xs ++ ys) ++ zs ≡ xs ++ (ys ++ zs)
  append_assoc [] ys zs = refl
  append_assoc (x ∷ xs) ys zs = ap (◌∷◌ x) (append_assoc xs ys zs)

  pub append_nil : (xs : List A) → xs ++ [] ≡ xs
  append_nil [] = refl
  append_nil (x ∷ xs) = ap (◌∷◌ x) (append_nil xs)

  pub length-map {κ} : {B : Type κ} (f : A → B) (xs : List A) → length (map f xs) ≡ length xs
  length-map f [] = refl
  length-map f (x ∷ xs) = ap suc (length-map f xs)

  pub length-take : (n : ℕ) (xs : List A) → length (take n xs) ≡ min n (length xs)
  length-take zero xs = omega arith
  length-take (suc n) [] = omega arith
  length-take (suc n) (x ∷ xs) = omega (arith, length-take n xs)

  pub length-drop : (n : ℕ) (xs : List A) → length (drop n xs) ≡ length xs - n
  length-drop zero xs = omega arith
  length-drop (suc n) [] = omega arith
  length-drop (suc n) (x ∷ xs) = omega (arith, length-drop n xs)

  pub length-blit : (xs : List A) (o : ℕ) (ds : List A) → length (blit xs o ds) ≡ length xs
  length-blit [] o ds = refl
  length-blit (x ∷ xs) zero [] = refl
  length-blit (x ∷ xs) zero (d ∷ ds) = ap suc (length-blit xs zero ds)
  length-blit (x ∷ xs) (suc o) ds = ap suc (length-blit xs o ds)

  pub drop-nil : (n : ℕ) → drop {A = A} n [] ≡ []
  drop-nil zero = refl
  drop-nil (suc n) = refl

  pub take-nil : (n : ℕ) → take {A = A} n [] ≡ []
  take-nil zero = refl
  take-nil (suc n) = refl

  pub nil_of_length : (xs : List A) → length xs ≡ 0 → xs ≡ []
  nil_of_length [] h = refl
  nil_of_length (x ∷ xs) h = absurd (omega arith)

  pub take_all : (n : ℕ) (xs : List A) → length xs ≤ n → take n xs ≡ xs
  take_all zero [] h = refl
  take_all zero (x ∷ xs) h = absurd (omega arith)
  take_all (suc n) [] h = refl
  take_all (suc n) (x ∷ xs) h = ap (◌∷◌ x) (take_all n xs (omega arith))

  pub take-append_le : (n : ℕ) (xs ys : List A) → n ≤ length xs → take n (xs ++ ys) ≡ take n xs
  take-append_le zero xs ys h = refl
  take-append_le (suc n) [] ys h = absurd (omega arith)
  take-append_le (suc n) (x ∷ xs) ys h = ap (◌∷◌ x) (take-append_le n xs ys (omega arith))

  pub take-add : (n m : ℕ) (xs : List A) → take (n + m) xs ≡ take n xs ++ take m (drop n xs)
  take-add zero m xs = let e : zero + m ≡ m = omega arith in ap (λ k. take k xs) e
  take-add (suc n) m [] = rw (take-nil (suc n + m), take-nil m)
  take-add (suc n) m (x ∷ xs) =
      let e : suc n + m ≡ suc (n + m) = omega arith in
      ap (λ k. take k (x ∷ xs)) e ∙ ap (◌∷◌ x) (take-add n m xs)

  pub drop-drop : (n m : ℕ) (xs : List A) → drop m (drop n xs) ≡ drop (n + m) xs
  drop-drop zero m xs = let e : m ≡ zero + m = omega arith in ap (λ k. drop k xs) e
  drop-drop (suc n) m [] = rw (drop-nil m, drop-nil (suc n + m))
  drop-drop (suc n) m (x ∷ xs) =
      let e : suc (n + m) ≡ suc n + m = omega arith in
      drop-drop n m xs ∙ ap (λ k. drop k (x ∷ xs)) e

  -- Two neighbouring slices make one.
  pub slice-append :
      (o n m : ℕ) (xs : List A) → slice o (n + m) xs ≡ slice o n xs ++ slice (o + n) m xs
  slice-append o n m xs =
      take-add n m (drop o xs) ∙ ap (λ ys. slice o n xs ++ take m ys) (drop-drop o n xs)

  pub length-slice : (o n : ℕ) (xs : List A) → o + n ≤ length xs → length (slice o n xs) ≡ n
  length-slice o n xs h = omega (arith, length-take n (drop o xs), length-drop o xs)

  pub get_or-slice :
      (xs : List A) (o n i : ℕ) (d : A) → i < n → get_or (slice o n xs) i d ≡ get_or xs (o + i) d
  get_or-slice [] zero zero i d h = elim h [ ]
  get_or-slice [] zero (suc n) i d h = refl
  get_or-slice [] (suc o) n i d h = rw take-nil
  get_or-slice (x ∷ xs) zero zero i d h = elim h [ ]
  get_or-slice (x ∷ xs) zero (suc n) zero d h = refl
  get_or-slice (x ∷ xs) zero (suc n) (suc i) d h =
      let e : zero + suc i ≡ suc (zero + i) = omega arith in
      get_or-slice xs zero n i d (omega arith) ∙ ap (λ k. get_or (x ∷ xs) k d) (sym e)
  get_or-slice (x ∷ xs) (suc o) n i d h =
      let e : suc (o + i) ≡ suc o + i = omega arith in
      get_or-slice xs o n i d h ∙ ap (λ k. get_or (x ∷ xs) k d) e

  -- A slice just written reads back.
  pub slice-blit_self :
      (xs : List A) (o : ℕ) (ds : List A)
      → o + length ds ≤ length xs
      → slice o (length ds) (blit xs o ds) ≡ ds
  slice-blit_self [] zero [] h = refl
  slice-blit_self [] (suc o) [] h = refl
  slice-blit_self [] o (d ∷ ds) h = absurd (omega arith)
  slice-blit_self (x ∷ xs) zero [] h = refl
  slice-blit_self (x ∷ xs) zero (d ∷ ds) h = ap (◌∷◌ d) (slice-blit_self xs zero ds (omega arith))
  slice-blit_self (x ∷ xs) (suc o) ds h = slice-blit_self xs o ds (omega arith)

  -- A slice that ends before the block is left alone.
  pub slice-blit_before :
      (xs : List A) (o : ℕ) (ds : List A) (p n : ℕ)
      → p + n ≤ o
      → slice p n (blit xs o ds) ≡ slice p n xs
  slice-blit_before [] o ds p n h = refl
  slice-blit_before (x ∷ xs) zero ds p zero h = refl
  slice-blit_before (x ∷ xs) zero ds p (suc n) h = absurd (omega arith)
  slice-blit_before (x ∷ xs) (suc o) ds zero zero h = refl
  slice-blit_before (x ∷ xs) (suc o) ds zero (suc n) h =
      ap (◌∷◌ x) (slice-blit_before xs o ds zero n (omega arith))
  slice-blit_before (x ∷ xs) (suc o) ds (suc p) n h = slice-blit_before xs o ds p n (omega arith)

  -- A slice that starts after the block is left alone.
  pub slice-blit_after :
      (xs : List A) (o : ℕ) (ds : List A) (p n : ℕ)
      → o + length ds ≤ p
      → slice p n (blit xs o ds) ≡ slice p n xs
  slice-blit_after [] o ds p n h = refl
  slice-blit_after (x ∷ xs) zero [] p n h = refl
  slice-blit_after (x ∷ xs) zero (d ∷ ds) zero n h = absurd (omega arith)
  slice-blit_after (x ∷ xs) zero (d ∷ ds) (suc p) n h =
      slice-blit_after xs zero ds p n (omega arith)
  slice-blit_after (x ∷ xs) (suc o) ds zero n h = absurd (omega arith)
  slice-blit_after (x ∷ xs) (suc o) ds (suc p) n h = slice-blit_after xs o ds p n (omega arith)

  -- What is copied behind the first bytes of a block is held behind them.
  pub slice-blit_next :
      (xs : List A) (n : ℕ) (ds : List A)
      → n + length ds ≤ length xs
      → slice 0 (n + length ds) (blit xs n ds) ≡ slice 0 n xs ++ ds
  slice-blit_next xs n ds fits =
      slice-append 0 n (length ds) (blit xs n ds)
      ∙ ap₂ ◌++◌ (slice-blit_before xs n ds 0 n (omega arith)) (
          ap (λ o. slice o (length ds) (blit xs n ds)) (omega arith) ∙ slice-blit_self xs n ds fits)

  pub take-drop : (n : ℕ) (xs : List A) → take n xs ++ drop n xs ≡ xs
  take-drop zero xs = refl
  take-drop (suc n) [] = refl
  take-drop (suc n) (x ∷ xs) = ap (◌∷◌ x) (take-drop n xs)

  -- Appended lists with first parts of one length are equal part by part.
  pub append-cancel :
      (xs m ys r : List A) → length xs ≡ length m → xs ++ ys ≡ m ++ r → (xs ≡ m) × (ys ≡ r)
  append-cancel [] [] ys r e h = (refl, h)
  append-cancel [] (b ∷ m) ys r e h = absurd (omega arith)
  append-cancel (a ∷ xs) [] ys r e h = absurd (omega arith)
  append-cancel (a ∷ xs) (b ∷ m) ys r e h =
      let rest : (xs ≡ m) × (ys ≡ r) = append-cancel xs m ys r (omega arith) (cc h) in
      (ap₂ ◌∷◌ (cc h) rest.0, rest.1)
