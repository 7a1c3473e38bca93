-- ===== src/Pipeline/Registry.antt =====
-- The pipelines by name, of ga/core/pipeline.cpp: do_register, do_unregister and lookup on
-- `pipelinemap`. A pipeline is its address. Each runs under `pipelinemutex`, but for the name that
-- do_register writes to the pipeline behind it.
pub mod Laws
use gaminganywhere.Base.{ℕ, Bool, true, false, List, ◌∷◌, Option, none, some}
use gaminganywhere.Conf.Maps.{Bytes, find, assign, erase}

-- `pipelinemap`, and the names that were written to pipelines, the last one first.
pub record Registry : Type 0 where
  pub pipelinemap : List (Bytes × ℕ)
  pub named : List (ℕ × Bytes)

abbrev pub registered : Registry → Bytes → ℕ → Registry
registered r provider pipe = record r {
  pipelinemap = assign r.pipelinemap provider pipe;
  named = (pipe, provider) ∷ r.named;
}

-- The flag is false for -1.
unfoldable pub do_register : Registry → Bytes → ℕ → Bool × Registry
do_register r provider pipe = elim (find r.pipelinemap provider) [
  | none ↦ (true, registered r provider pipe)
  | some p ↦ (false, r)
]

unfoldable pub do_unregister : Registry → Bytes → Registry
do_unregister r provider = record r { pipelinemap = erase r.pipelinemap provider }

-- NULL is none.
unfoldable pub lookup : Registry → Bytes → Option ℕ
lookup r provider = find r.pipelinemap provider
