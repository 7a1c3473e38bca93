-- ===== src/Pipeline/Clients.antt =====
-- The clients that wait for a pipeline's data, of ga/core/pipeline.cpp: client_register and its kin,
-- and notify_all and notify_one. `condmap` is a map from a thread's id to its condition, in the order
-- of the ids; each method runs under `condMutex`. What is signalled is a list of conditions.
pub mod Laws
use gaminganywhere.Base.{
  ℕ, ◌+◌, ltb, ◌==◌, if◌then◌else◌, List, [], ◌∷◌, Option, none, some, length, map,
}

abbrev pub CondMap : Type 0
CondMap = List (ℕ × ℕ)

-- `condmap[tid] = cond`
unfoldable pub client_register : CondMap → ℕ → ℕ → CondMap
client_register [] tid cond = (tid, cond) ∷ []
client_register ((t, c) ∷ m) tid cond =
    let rest = client_register m tid cond in
    if t == tid
    then (t, cond) ∷ m
    else if ltb tid t
    then (tid, cond) ∷ (t, c) ∷ m
    else (t, c) ∷ rest

unfoldable pub client_unregister : CondMap → ℕ → CondMap
client_unregister [] tid = []
client_unregister ((t, c) ∷ m) tid =
    let rest = client_unregister m tid in if t == tid then m else (t, c) ∷ rest

-- The conditions signalled.
unfoldable pub notify_all : CondMap → List ℕ
notify_all [] = []
notify_all ((t, c) ∷ m) = c ∷ notify_all m

unfoldable pub notify_one : CondMap → ℕ → List ℕ
notify_one [] tid = []
notify_one ((t, c) ∷ m) tid = let rest = notify_one m tid in if t == tid then c ∷ [] else rest

unfoldable pub client_count : CondMap → ℕ
client_count m = length m
