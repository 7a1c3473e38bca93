-- ===== src/Pipeline/Registry/Laws.antt =====
-- What is registered is what is found.
use gaminganywhere.Base.{ℕ, ◌≡◌, refl, if◌then◌else◌, true, false, none, some}
use gaminganywhere.Conf.Maps.{Bytes, eqb}
use gaminganywhere.Conf.Maps.Laws.{find-assign}
use gaminganywhere.Pipeline.Registry.{Registry, do_register, lookup}

-- A name that is free is given to the pipeline; one that is taken is refused, and nothing changes.
-- Either way the names of the others stay.
pub lookup-do_register :
    (r : Registry) (provider : Bytes) (pipe : ℕ) (q : Bytes)
    → lookup r provider ≡ none
    → ((do_register r provider pipe).0 ≡ true)
      × (lookup (do_register r provider pipe).1 q
          ≡ (if eqb provider q then some pipe else lookup r q))
unfolding lookup do_register
lookup-do_register r provider pipe q free =
    rw (free, do_register) (refl, find-assign r.pipelinemap provider pipe q)

pub do_register-taken :
    (r : Registry) (provider : Bytes) (pipe p : ℕ)
    → lookup r provider ≡ some p
    → do_register r provider pipe ≡ (false, r)
unfolding lookup do_register
do_register-taken r provider pipe p taken = rw (taken, do_register) refl
