-- ===== src/Pipeline/Pool/Transit/Places.antt =====
-- Where the buffers of a pipeline are while a writer and a reader use it.
use mathlib.Core.List.Sublist
use mathlib.Core.List.{Sublist}
use gaminganywhere.Base.{ℕ, ◌≡◌, refl, sym, ap, arith, List, [], ◌∷◌, ◌++◌, map}
use gaminganywhere.Pipeline.Pool.Chains.{NotIn}
use gaminganywhere.Pipeline.Pool.Transit.{Writer, filling, filled, Reader, holding, done, put}

-- The buffer that a thread has.
abbrev pub writer_node : Writer → List ℕ
writer_node Writer.idle = []
writer_node (filling x) = x ∷ []
writer_node (filled x) = x ∷ []

abbrev pub reader_node : Reader → List ℕ
reader_node Reader.idle = []
reader_node (holding x) = x ∷ []
reader_node (done x) = x ∷ []

-- The buffers that are still to be read, or to be stored.
abbrev pub pending : Reader → List ℕ
pending Reader.idle = []
pending (holding x) = x ∷ []
pending (done x) = []

abbrev pub stored_next : Writer → List ℕ
stored_next Writer.idle = []
stored_next (filling x) = []
stored_next (filled x) = x ∷ []

-- Nothing of the second list stands in the first.
abbrev pub AllOut : List ℕ → List ℕ → Type 0
AllOut xs [] = Unit {0}
AllOut xs (y ∷ ys) = NotIn y xs × AllOut xs ys

pub AllOut-remove :
    (xs ys : List ℕ) (y : ℕ) (zs : List ℕ)
    → AllOut xs (ys ++ (y ∷ zs))
    → NotIn y xs × AllOut xs (ys ++ zs)
AllOut-remove xs [] y zs h = h
AllOut-remove xs (z ∷ ys) y zs h = let r = AllOut-remove xs ys y zs h.1 in (r.0, (h.0, r.1))

pub AllOut-insert :
    (xs ys : List ℕ) (y : ℕ) (zs : List ℕ)
    → NotIn y xs
    → AllOut xs (ys ++ zs)
    → AllOut xs (ys ++ (y ∷ zs))
AllOut-insert xs [] y zs n h = (n, h)
AllOut-insert xs (z ∷ ys) y zs n h = (h.0, AllOut-insert xs ys y zs n h.1)

pub one-AllOut : (x : ℕ) (ys : List ℕ) → NotIn x ys → AllOut (x ∷ []) ys
one-AllOut x [] h = tt
one-AllOut x (y ∷ ys) h = (((λ e. h.0 (sym e)), tt), one-AllOut x ys h.1)

pub AllOut-one : (x : ℕ) (ys : List ℕ) → AllOut (x ∷ []) ys → NotIn x ys
AllOut-one x [] h = tt
AllOut-one x (y ∷ ys) h = ((λ e. h.0.0 (sym e)), AllOut-one x ys h.1)

pub map-put :
    {A : Type 0} (c : ℕ → A) (x : ℕ) (a : A) (ys : List ℕ)
    → NotIn x ys
    → map (put c x a) ys ≡ map c ys
map-put c x a [] h = refl
map-put c x a (y ∷ ys) h =
    let same : put c x a y ≡ c y = ground (arith, h.0) in rw (same, map-put c x a ys h.1)

pub nil-AllOut : (ys : List ℕ) → AllOut [] ys
nil-AllOut [] = tt
nil-AllOut (y ∷ ys) = (tt, nil-AllOut ys)

pub NotIn-pending : (r : Reader) (x : ℕ) → NotIn x (reader_node r) → NotIn x (pending r)
NotIn-pending Reader.idle x h = tt
NotIn-pending (holding y) x h = h
NotIn-pending (done y) x h = tt

pub drop-Sublist :
    {A : Type 0} (c : ℕ → A) (xs : List ℕ) (y : ℕ) (ys : List ℕ)
    → Sublist (map c (xs ++ ys)) (map c (xs ++ (y ∷ ys)))
drop-Sublist c [] y ys = Sublist.cons (c y) (Sublist.refl (map c ys))
drop-Sublist c (x ∷ xs) y ys = Sublist.cons-cons (c x) (drop-Sublist c xs y ys)

pub map-snoc :
    {A : Type 0} (c : ℕ → A) (xs ys : List ℕ) (x : ℕ)
    → map c (xs ++ (ys ++ (x ∷ []))) ≡ map c (xs ++ ys) ++ (c x ∷ [])
map-snoc c [] [] x = refl
map-snoc c [] (y ∷ ys) x = ap (◌∷◌ (c y)) (map-snoc c [] ys x)
map-snoc c (z ∷ xs) ys x = ap (◌∷◌ (c z)) (map-snoc c xs ys x)
