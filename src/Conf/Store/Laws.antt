-- ===== src/Conf/Store/Laws.antt =====
-- What is written to the configuration is what is read from it.
use gaminganywhere.Base.{ℕ, if◌then◌else◌, ◌∷◌, Option, ◌≡◌, arith}
use gaminganywhere.Conf.Maps.{Bytes, eqb}
use gaminganywhere.Conf.Maps.Laws.{eqb_refl, find-assign}
use gaminganywhere.Conf.Store.{
  Vars, copy_out, of_value, with_entry, entry_of, copy_nonempty, entry, ga_conf_readv,
  ga_conf_writev, ga_conf_mapreadv, ga_conf_mapwritev,
}

-- After `ga_conf_writev`, `ga_conf_readv` gives the value at that key, as far as the caller's buffer
-- holds it, and at every other key what it gave before.
pub readv-writev :
    (vars : Vars) (k v q : Bytes) (store : Option ℕ)
    → ga_conf_readv (ga_conf_writev vars k v) q store
      ≡ (if eqb k q then copy_out store v else ga_conf_readv vars q store)
unfolding ga_conf_readv ga_conf_writev
readv-writev vars k v q store = ground (arith, find-assign vars k (of_value v) q)

-- After `ga_conf_mapwritev` of a value that is not empty, `ga_conf_mapreadv` gives the value at that
-- key, as far as the caller's buffer holds it.
pub mapreadv-mapwritev :
    (vars : Vars) (name k : Bytes) (c : ℕ) (v : Bytes) (store : Option ℕ)
    → (ga_conf_mapreadv (ga_conf_mapwritev vars name k (c ∷ v)) name k store).0
      ≡ copy_out store (c ∷ v)
unfolding ga_conf_mapreadv ga_conf_mapwritev entry with_entry copy_nonempty
mapreadv-mapwritev vars name k c v store = ground (
  arith,
  eqb_refl name,
  eqb_refl k,
  find-assign vars name (with_entry (entry_of vars name) k (c ∷ v)) name,
  find-assign (entry_of vars name).mapdata k (c ∷ v) k,
)
