-- ===== src/Pipeline/Pool/Chains.antt =====
-- Chains of nodes in the heap, and how the updates of `next` change them.
use gaminganywhere.Base.{
  ℕ, zero, suc, ◌≤◌, ◌≡◌, ◌≢◌, refl, sym, List, [], ◌∷◌, ◌++◌, none, some, arith, length,
}
use gaminganywhere.Pipeline.Pool.{Ptr, update, free_loop}

-- Following `next` from `p` goes through these nodes, and ends at NULL.
abbrev pub Linked : (ℕ → Ptr) → Ptr → List ℕ → Type 0
Linked next p [] = p ≡ none
Linked next p (x ∷ xs) = (p ≡ some x) × Linked next (next x) xs

abbrev pub last : List ℕ → Ptr
last [] = none
last (x ∷ []) = some x
last (x ∷ y ∷ xs) = last (y ∷ xs)

abbrev pub NotIn : ℕ → List ℕ → Type 0
NotIn x [] = Unit {0}
NotIn x (y ∷ ys) = (x ≢ y) × NotIn x ys

abbrev pub Distinct : List ℕ → Type 0
Distinct [] = Unit {0}
Distinct (x ∷ xs) = NotIn x xs × Distinct xs

pub NotIn-append : (x : ℕ) (xs ys : List ℕ) → NotIn x xs → NotIn x ys → NotIn x (xs ++ ys)
NotIn-append x [] ys h k = k
NotIn-append x (z ∷ xs) ys h k = (h.0, NotIn-append x xs ys h.1 k)

pub NotIn-split : (x : ℕ) (xs ys : List ℕ) → NotIn x (xs ++ ys) → NotIn x xs × NotIn x ys
NotIn-split x [] ys h = (tt, h)
NotIn-split x (z ∷ xs) ys h = ((h.0, (NotIn-split x xs ys h.1).0), (NotIn-split x xs ys h.1).1)

pub Distinct-snoc : (x : ℕ) (xs : List ℕ) → NotIn x xs → Distinct xs → Distinct (xs ++ (x ∷ []))
Distinct-snoc x [] h d = (tt, tt)
Distinct-snoc x (y ∷ xs) h d =
    (NotIn-append y xs (x ∷ []) d.0 ((λ e. h.0 (sym e)), tt), Distinct-snoc x xs h.1 d.1)

pub Distinct-split : (xs ys : List ℕ) → Distinct (xs ++ ys) → Distinct xs × Distinct ys
Distinct-split [] ys d = (tt, d)
Distinct-split (x ∷ xs) ys d =
    (((NotIn-split x xs ys d.0).0, (Distinct-split xs ys d.1).0), (Distinct-split xs ys d.1).1)

-- A node taken out of the middle is no longer there.
pub Distinct-remove :
    (xs : List ℕ) (x : ℕ) (ys : List ℕ)
    → Distinct (xs ++ (x ∷ ys))
    → Distinct (xs ++ ys) × NotIn x (xs ++ ys)
Distinct-remove [] x ys d = (d.1, d.0)
Distinct-remove (z ∷ xs) x ys d =
    let r = Distinct-remove xs x ys d.1 in
    let s = NotIn-split z xs (x ∷ ys) d.0 in
    ((NotIn-append z xs ys s.0 s.1.1, r.0), ((λ e. s.1.0 (sym e)), r.1))

-- A write to a node outside a chain leaves the chain alone.
pub Linked-update :
    (next : ℕ → Ptr) (x : ℕ) (q : Ptr) (p : Ptr) (xs : List ℕ)
    → NotIn x xs
    → Linked next p xs
    → Linked (update next x q) p xs
Linked-update next x q p [] h l = l
Linked-update next x q p (y ∷ ys) h l =
    (l.0, rw (update_other) (Linked-update next x q (next y) ys h.1 l.1))
  where
    update_other : update next x q y ≡ next y
    update_other = ground arith

pub last-ne : (x t : ℕ) (xs : List ℕ) → NotIn x xs → last xs ≡ some t → x ≢ t
last-ne x t [] h e = cc
last-ne x t (y ∷ []) h e = ground arith
last-ne x t (y ∷ z ∷ xs) h e = last-ne x t (z ∷ xs) h.1 e

-- A node appended behind the last one.
pub Linked-snoc :
    (next : ℕ → Ptr) (x t : ℕ) (p : Ptr) (xs : List ℕ)
    → NotIn x xs
    → Distinct xs
    → last xs ≡ some t
    → Linked next p xs
    → Linked (update (update next x none) t (some x)) p (xs ++ (x ∷ []))
Linked-snoc next x t p [] h d e l = cc
Linked-snoc next x t p (y ∷ []) h d e l = ground arith
Linked-snoc next x t p (y ∷ z ∷ xs) h d e l =
    (l.0, rw (other) (Linked-snoc next x t (next y) (z ∷ xs) h.1 d.1 e l.1))
  where
    other : update (update next x none) t (some x) y ≡ next y
    other = ground (arith, last-ne y t (z ∷ xs) d.0 e)

pub last-snoc : (x : ℕ) (xs : List ℕ) → last (xs ++ (x ∷ [])) ≡ some x
last-snoc x [] = refl
last-snoc x (y ∷ []) = refl
last-snoc x (y ∷ z ∷ xs) = last-snoc x (z ∷ xs)

-- With fuel for its length, `datapool_free` frees exactly the nodes of a chain, in order.
pub free_loop-Linked :
    (fuel : ℕ) (next : ℕ → Ptr) (p : Ptr) (xs : List ℕ)
    → Linked next p xs
    → length xs ≤ fuel
    → free_loop fuel next p ≡ some xs
unfolding free_loop
free_loop-Linked zero next p [] l h = rw l
free_loop-Linked (suc fuel) next p [] l h = rw l
free_loop-Linked zero next p (x ∷ xs) l h = absurd (omega arith)
free_loop-Linked (suc fuel) next p (x ∷ xs) l h =
    rw (l.0) (rw (free_loop-Linked fuel next (next x) xs l.1 (omega arith)))

pub last-NotIn : (xs ys : List ℕ) (t : ℕ) → Distinct (xs ++ ys) → last ys ≡ some t → NotIn t xs
last-NotIn [] ys t d e = tt
last-NotIn (x ∷ xs) ys t d e =
    ((λ p. last-ne x t ys (NotIn-split x xs ys d.0).1 e (sym p)), last-NotIn xs ys t d.1 e)

-- A node from outside may be put in anywhere.
pub Distinct-insert :
    (xs : List ℕ) (x : ℕ) (ys : List ℕ)
    → NotIn x (xs ++ ys)
    → Distinct (xs ++ ys)
    → Distinct (xs ++ (x ∷ ys))
Distinct-insert [] x ys h d = (h, d)
Distinct-insert (z ∷ xs) x ys h d =
    let apart = NotIn-split z xs ys d.0 in
    (
      NotIn-append z xs (x ∷ ys) apart.0 ((λ e. h.0 (sym e)), apart.1),
      Distinct-insert xs x ys h.1 d.1,
    )
