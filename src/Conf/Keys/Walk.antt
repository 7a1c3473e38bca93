-- ===== src/Conf/Keys/Walk.antt =====
-- A walk by ga_conf_reset and ga_conf_nextkey passes each variable once.
use gaminganywhere.Base.{
  ℕ, zero, suc, ◌≡◌, refl, sym, ap, ◌∙◌, arith, List, [], ◌∷◌, ◌++◌, Option, none, some, false,
  length, ◌<◌, append_assoc,
}
use gaminganywhere.Conf.Maps.{Bytes, eqb, begin, next}
use gaminganywhere.Conf.Maps.Laws.{eqb_refl}
use gaminganywhere.Conf.Store.{Var, Vars}
use gaminganywhere.Conf.Keys.{ga_conf_reset, ga_conf_key, ga_conf_nextkey}

-- The names seen: the one at `vmi`, and those of the following calls, `n` at most.
unfoldable pub names_from : ℕ → Vars → Option Bytes → List Bytes
names_from zero vars vmi = []
names_from (suc n) vars vmi =
    let rest = names_from n vars (ga_conf_nextkey vars vmi).1 in
    elim (ga_conf_key vmi) [ none ↦ [] | some k ↦ k ∷ rest ]

-- No name is that of an earlier variable.
abbrev pub Absent : Bytes → Vars → Type 0
Absent k [] = Unit
Absent k ((j, v) ∷ vars) = (eqb k j ≡ false) × Absent k vars

abbrev pub Distinct : Vars → Type 0
Distinct [] = Unit
Distinct ((j, v) ∷ vars) = (Absent j vars) × Distinct vars

abbrev pub names : Vars → List Bytes
names [] = []
names ((j, v) ∷ vars) = j ∷ names vars

abbrev AllBefore : Vars → Bytes → Type 0
AllBefore [] k = Unit
AllBefore ((j, v) ∷ vars) k = (eqb j k ≡ false) × AllBefore vars k

-- Behind variables of other names the iterator moves to the next one.
next-append :
    (front : Vars) (k : Bytes) (v : Var) (rest : Vars)
    → AllBefore front k
    → next (front ++ (k, v) ∷ rest) k ≡ begin rest
unfolding next begin
next-append [] k v rest other = rw (eqb_refl k) refl
next-append ((j, w) ∷ front) k v rest other = rw other.0 (next-append front k v rest other.1)

AllBefore-append :
    (front : Vars) (j : Bytes) (w : Var) (k : Bytes)
    → AllBefore front k
    → eqb j k ≡ false
    → AllBefore (front ++ (j, w) ∷ []) k
AllBefore-append [] j w k before e = (e, tt)
AllBefore-append ((i, v) ∷ front) j w k before e =
    (before.0, AllBefore-append front j w k before.1 e)

abbrev Fresh : Vars → Vars → Type 0
Fresh front [] = Unit
Fresh front ((k, v) ∷ rest) = AllBefore front k × Fresh front rest

Fresh-append :
    (front : Vars) (j : Bytes) (w : Var) (rest : Vars)
    → Fresh front rest
    → Absent j rest
    → Fresh (front ++ (j, w) ∷ []) rest
Fresh-append front j w [] fresh absent = tt
Fresh-append front j w ((k, v) ∷ rest) fresh absent =
    (AllBefore-append front j w k fresh.0 absent.0, Fresh-append front j w rest fresh.1 absent.1)

Fresh-nil : (rest : Vars) → Fresh [] rest
Fresh-nil [] = tt
Fresh-nil ((k, v) ∷ rest) = (tt, Fresh-nil rest)

names_from-begin :
    (n : ℕ) (front rest : Vars)
    → length rest < n
    → Fresh front rest
    → Distinct rest
    → names_from n (front ++ rest) (begin rest) ≡ names rest
unfolding names_from ga_conf_key ga_conf_nextkey begin
names_from-begin zero front rest enough fresh distinct = absurd (omega arith)
names_from-begin (suc n) front [] enough fresh distinct = refl
names_from-begin (suc n) front ((k, v) ∷ rest) enough fresh distinct =
    let moved : next (front ++ (k, v) ∷ rest) k ≡ begin rest = next-append front k v rest fresh.0 in
    let same : front ++ (k, v) ∷ rest ≡ (front ++ (k, v) ∷ []) ++ rest =
      sym (append_assoc front ((k, v) ∷ []) rest) in
    ap (◌∷◌ k) (
      ap (names_from n (front ++ (k, v) ∷ rest)) moved
      ∙ ap (λ vs. names_from n vs (begin rest)) same
      ∙ names_from-begin n (front ++ (k, v) ∷ []) rest (omega arith)
          (Fresh-append front k v rest fresh.1 distinct.0) distinct.1)

-- From ga_conf_reset on, ga_conf_key and the following calls of ga_conf_nextkey give the name of each
-- variable once, in the order of the map, and NULL then.
pub names_from-reset :
    (vars : Vars) (n : ℕ)
    → length vars < n
    → Distinct vars
    → names_from n vars (ga_conf_reset vars) ≡ names vars
unfolding ga_conf_reset
names_from-reset vars n enough distinct =
    names_from-begin n [] vars enough (Fresh-nil vars) distinct
