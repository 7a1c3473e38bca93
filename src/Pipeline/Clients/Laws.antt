-- ===== src/Pipeline/Clients/Laws.antt =====
-- Who is notified.
use gaminganywhere.Base.{ℕ, suc, ◌<◌, ◌≡◌, refl, ap, arith, ◌==◌, if◌then◌else◌, [], ◌∷◌, length}
use gaminganywhere.Pipeline.Clients.{
  CondMap, client_register, client_unregister, notify_all, notify_one, client_count,
}

-- The ids grow.
abbrev pub Above : ℕ → CondMap → Type 0
Above t [] = Unit
Above t ((u, c) ∷ m) = (t < u) × Above u m

abbrev pub IsCondMap : CondMap → Type 0
IsCondMap [] = Unit
IsCondMap ((t, c) ∷ m) = Above t m

-- A client that registers is the one that notify_one signals, and no other is signalled for its id.
pub notify_one-register :
    (m : CondMap) (tid cond q : ℕ)
    → notify_one (client_register m tid cond) q ≡ (if tid == q then cond ∷ [] else notify_one m q)
unfolding notify_one client_register
notify_one-register [] tid cond q = refl
notify_one-register ((t, c) ∷ m) tid cond q = ground (arith, notify_one-register m tid cond q)

-- The signals of notify_all are as many as the clients.
pub length-notify_all : (m : CondMap) → length (notify_all m) ≡ client_count m
unfolding notify_all client_count
length-notify_all [] = refl
length-notify_all ((t, c) ∷ m) = ap suc (length-notify_all m)

Above-IsCondMap : (t : ℕ) (m : CondMap) → Above t m → IsCondMap m
Above-IsCondMap t [] a = tt
Above-IsCondMap t ((u, c) ∷ m) a = a.1

unregister-Above : (s t : ℕ) (m : CondMap) → s < t → Above t m → Above s m
unregister-Above s t [] h a = tt
unregister-Above s t ((u, c) ∷ m) h a = (omega (arith, a.0), a.1)

notify_one-Above : (t : ℕ) (m : CondMap) (q : ℕ) → Above t m → q ≡ t → notify_one m q ≡ []
unfolding notify_one
notify_one-Above t [] q a e = refl
notify_one-Above t ((u, c) ∷ m) q a e =
    ground (arith, notify_one-Above q m q (unregister-Above q u m (omega (arith, a.0)) a.1))

-- A client that has unregistered is signalled no more, and the others are as before.
pub notify_one-unregister :
    (m : CondMap) (tid q : ℕ)
    → IsCondMap m
    → notify_one (client_unregister m tid) q ≡ (if tid == q then [] else notify_one m q)
unfolding notify_one client_unregister
notify_one-unregister [] tid q a = ground arith
notify_one-unregister ((t, c) ∷ m) tid q a =
    ground (arith, notify_one-Above t m q a, notify_one-unregister m tid q (Above-IsCondMap t m a))
