-- ===== src/Pipeline/Pool/Transit/Tests.antt =====
-- The theorem on a writer and a reader at a pipeline of one buffer, with the image 7 on its way.
use gaminganywhere.Base.{ℕ, [], ◌∷◌, ◌≡◌, some}
use mathlib.Core.List.{Sublist}
use gaminganywhere.Pipeline.Pool.{Pool, empty, allocate_data, store_data, release_data, unlink_head}
use gaminganywhere.Pipeline.Pool.Chains.{NotIn}
use gaminganywhere.Pipeline.Pool.Refine.{
  Holds, allocate-free, load_refines, store_refines, release_refines, empty-Holds,
}
use gaminganywhere.Pipeline.Pool.Transit.{
  Writer, done, Transit, put, allocate, fill, store, load, read, here, then, at_start, Reach,
}
use gaminganywhere.Pipeline.Pool.Transit.Order.{Passes, Reach-order}

abbrev one_free : Pool
one_free = release_data empty 1

one_free-Holds : Holds one_free (1 ∷ []) []
one_free-Holds = release_refines 1 tt empty-Holds

abbrev blank : ℕ → ℕ
blank n = 0

taken : (s : Pool) × (allocate_data one_free ≡ some (1, s)) × Holds s [] [] × NotIn 1 []
taken = allocate-free one_free-Holds

stored-Holds : Holds (store_data taken.0 1) [] (1 ∷ [])
stored-Holds = store_refines 1 [] [] tt taken.2

abbrev at_end : Transit ℕ
at_end = record {
  pool = unlink_head (store_data taken.0 1) 1;
  contents = put blank 1 7;
  writer = Writer.idle;
  reader = done 1;
  written = 7 ∷ [];
  got = 7 ∷ [];
}

passed : Reach (at_start one_free blank) at_end
passed =
    then
      (then (then (then (then here (allocate taken.1)) (fill 1 7)) (store 1))
        (load (load_refines stored-Holds).0))
      (read 1)

Reach-order_example : Sublist at_end.got at_end.written × Passes at_end
Reach-order_example = Reach-order blank (1 ∷ []) one_free-Holds passed
