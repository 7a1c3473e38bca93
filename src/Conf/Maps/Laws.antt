-- ===== src/Conf/Maps/Laws.antt =====
-- The laws of the maps.
use gaminganywhere.Base.{if◌then◌else◌, List, [], ◌∷◌, some, true, ◌≡◌, refl, arith}
use gaminganywhere.Conf.Maps.{Bytes, eqb, find, assign}

pub eqb_refl : (s : Bytes) → eqb s s ≡ true
unfolding eqb
eqb_refl [] = refl
eqb_refl (a ∷ s) = ground (arith, eqb_refl s)

pub eqb→eq : (s t : Bytes) → eqb s t ≡ true → s ≡ t
unfolding eqb
eqb→eq [] [] h = refl
eqb→eq [] (b ∷ t) h = cc
eqb→eq (a ∷ s) [] h = cc
eqb→eq (a ∷ s) (b ∷ t) h = ground (arith, eqb→eq s t)

module _ {A : Type 0} where
  -- A lookup after an assignment: the new value at its key, the old one elsewhere.
  pub find-assign :
      (m : List (Bytes × A)) (k : Bytes) (v : A) (q : Bytes)
      → find (assign m k v) q ≡ (if eqb k q then some v else find m q)
  unfolding find assign
  find-assign [] k v q = refl
  find-assign ((j, w) ∷ m) k v q =
      ground
        (arith, find-assign m k v q, eqb→eq j k, eqb→eq k q, eqb→eq j q, eqb_refl j, eqb_refl k)
