-- ===== src/Conf/Maps.antt =====
-- `std::map` with a string for a key, as the configuration uses it: bindings in the order of their
-- keys, and an iterator that is the key it stands at, or none at the end.
pub mod Laws
use gaminganywhere.Base.{
  ℕ, ltb, ◌==◌, if◌then◌else◌, ◌&&◌, List, [], ◌∷◌, Option, none, some, Bool, true, false,
}

abbrev pub Bytes : Type 0
Bytes = List ℕ

unfoldable pub eqb : Bytes → Bytes → Bool
eqb [] [] = true
eqb [] (b ∷ t) = false
eqb (a ∷ s) [] = false
eqb (a ∷ s) (b ∷ t) = (a == b) && eqb s t

-- `operator <` of strings
unfoldable pub before : Bytes → Bytes → Bool
before [] [] = false
before [] (b ∷ t) = true
before (a ∷ s) [] = false
before (a ∷ s) (b ∷ t) = let rest = before s t in if a == b then rest else ltb a b

module _ {A : Type 0} where
  unfoldable pub find : List (Bytes × A) → Bytes → Option A
  unfolding eqb
  find [] k = none
  find ((j, v) ∷ m) k = if eqb j k then some v else find m k

  -- `m[k] = v`
  unfoldable pub assign : List (Bytes × A) → Bytes → A → List (Bytes × A)
  unfolding eqb before
  assign [] k v = (k, v) ∷ []
  assign ((j, w) ∷ m) k v =
      let rest = assign m k v in
      if eqb j k then (j, v) ∷ m else if before k j then (k, v) ∷ (j, w) ∷ m else (j, w) ∷ rest

  -- `m.erase(k)`
  unfoldable pub erase : List (Bytes × A) → Bytes → List (Bytes × A)
  unfolding eqb
  erase [] k = []
  erase ((j, v) ∷ m) k = let rest = erase m k in if eqb j k then m else (j, v) ∷ rest

  -- `m.begin()`
  unfoldable pub begin : List (Bytes × A) → Option Bytes
  begin [] = none
  begin ((j, v) ∷ m) = some j

  -- `++mi`, of an iterator that stands at `k`
  unfoldable pub next : List (Bytes × A) → Bytes → Option Bytes
  unfolding eqb begin
  next [] k = none
  next ((j, v) ∷ m) k = if eqb j k then begin m else next m k
