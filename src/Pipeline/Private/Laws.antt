-- ===== src/Pipeline/Private/Laws.antt =====
-- Private data that is set is what is got.
use gaminganywhere.Base.{
  ℕ, ◌≤◌, ◌≡◌, ◌∙◌, refl, arith, List, Option, none, some, slice, blit, length, le→leb, length-blit,
  slice-blit_self,
}
use gaminganywhere.Pipeline.Private.{PrivData, alloc_privdata, set_privdata, get_privdata}

-- Where `malloc` gives a block of the size asked for, a block that fits is set and got as its front,
-- and the size of the private data stays.
pub get-set_privdata :
    (malloc : ℕ → Option (List ℕ)) (p : PrivData) (size : ℕ) (b ptr : List ℕ)
    → p.privdata ≡ none
    → malloc size ≡ some b
    → length b ≡ size
    → length ptr ≤ size
    → let q = (set_privdata (alloc_privdata malloc p size).1 ptr).1 in
      (d : List ℕ) × (get_privdata q ≡ some d) × (slice 0 (length ptr) d ≡ ptr) × (length d ≡ size)
unfolding alloc_privdata set_privdata get_privdata
get-set_privdata malloc p size b ptr null given sized fits = (
  blit b 0 ptr,
  rw (null, alloc_privdata) (rw given (rw (le→leb _ _ fits) refl)),
  slice-blit_self b 0 ptr (omega arith),
  length-blit b 0 ptr ∙ sized,
)
