-- ===== src/Pipeline/Private.antt =====
-- The private data of a pipeline, of ga/core/pipeline.cpp: the constructor, alloc_privdata,
-- set_privdata and the getters. The constructor sets its argument `privdata_size`, which hides the
-- field: the field stays as `new` leaves it, and nothing is allocated. `malloc` gives an answer.
pub mod Laws
use gaminganywhere.Base.{
  ℕ, ◌+◌, ltb, leb, if◌then◌else◌, List, [], ◌∷◌, Option, none, some, take, blit, length,
}

-- `privdata`, `privdata_size`, and how many blocks were freed
pub record PrivData : Type 0 where
  pub privdata : Option (List ℕ)
  pub privdata_size : ℕ
  pub freed : ℕ

-- The constructor, over the value that the memory held.
unfoldable pub fresh : ℕ → ℕ → PrivData
fresh garbage privdata_size = record { privdata = none; privdata_size = garbage; freed = 0 }

abbrev pub alloc_again : Option (List ℕ) → ℕ → PrivData → Option (List ℕ) × PrivData
alloc_again none size p = (none, record p { privdata = none; privdata_size = 0 })
alloc_again (some b) size p = (some b, record p { privdata = some b; privdata_size = size })

-- The result is `privdata`, with NULL for none.
unfoldable pub alloc_privdata : (ℕ → Option (List ℕ)) → PrivData → ℕ → Option (List ℕ) × PrivData
alloc_privdata malloc p size = elim p.privdata [
  | none ↦ alloc_again (malloc size) size p
  | some b ↦
      if leb size p.privdata_size
      then (some b, p)
      else alloc_again (malloc size) size (record p { freed = p.freed + 1 })
]

-- `bcopy(ptr, privdata, size)` of the bytes `ptr`; a NULL `privdata` takes none.
abbrev pub copy_to : Option (List ℕ) → List ℕ → Option (List ℕ)
copy_to none ptr = none
copy_to (some b) ptr = some (blit b 0 ptr)

unfoldable pub set_privdata : PrivData → List ℕ → Option (List ℕ) × PrivData
set_privdata p ptr =
    if leb (length ptr) p.privdata_size
    then (copy_to p.privdata ptr, record p { privdata = copy_to p.privdata ptr })
    else (none, p)

unfoldable pub get_privdata : PrivData → Option (List ℕ)
get_privdata p = p.privdata
