-- ===== src/Conf/Store.antt =====
-- The variables of the configuration, of ga/core/ga-conf.cpp and ga/core/ga-confvar.cpp. A variable
-- that `operator[]` makes starts with its iterator at the end of its own map. `strtol` is a
-- parameter; a null `store`, for which the readers return a fresh copy, is `none` for a size.
pub mod Laws
use Prim.Native.Char.{code}
use Prim.Native.String.{String}
use gaminganywhere.Base.{
  ℕ, zero, suc, ◌+◌, ltb, leb, ◌==◌, if◌then◌else◌, ◌&&◌, ◌||◌, List, [], ◌∷◌, ◌++◌, Option, none,
  some, Bool, true, false, length, take,
}
use gaminganywhere.Conf.Maps.{Bytes, eqb, find, assign, erase, begin, next}

abbrev pub codes : String → Bytes
codes String.[] = []
codes (String.◌∷◌ c s) = code c ∷ codes s

-- `class gaConfVar`
pub record Var : Type 0 where
  pub data_ : Bytes
  pub mapdata : List (Bytes × Bytes)
  pub mi : Option Bytes

-- `ga_vars`
abbrev pub Vars : Type 0
Vars = List (Bytes × Var)

-- `gaConfVar::clear`
abbrev pub cleared : Var
cleared = record { data_ = []; mapdata = []; mi = none }

-- `operator=(const char *)`
unfoldable pub of_value : Bytes → Var
of_value v = record { data_ = v; mapdata = []; mi = none }

-- `var[key] = value`: the iterator stays where it is.
unfoldable pub with_entry : Var → Bytes → Bytes → Var
unfolding assign
with_entry var k v = record var { mapdata = assign var.mapdata k v }

-- `gaConfVar::haskey`
unfoldable pub haskey : Var → Bytes → Bool
unfolding find
haskey var k = elim (find var.mapdata k) [ none ↦ false | some v ↦ true ]

-- `gaConfVar::mreset`
unfoldable pub mreset : Var → Var
unfolding begin
mreset var = record var { mi = begin var.mapdata }

-- `gaConfVar::mkey`
unfoldable pub mkey : Var → Bytes
mkey var = elim var.mi [ none ↦ [] | some k ↦ k ]

-- `gaConfVar::mvalue`
unfoldable pub mvalue : Var → Bytes
unfolding find
mvalue var = elim var.mi [
  | none ↦ []
  | some k ↦ elim (find var.mapdata k) [ none ↦ [] | some v ↦ v ]
]

-- `gaConfVar::mnextkey`
unfoldable pub mnextkey : Var → Bytes × Var
unfolding next
mnextkey var = elim var.mi [
  | none ↦ ([], var)
  | some k ↦
      (let moved = next var.mapdata k in
        (elim moved [ none ↦ [] | some j ↦ j ], record var { mi = moved }))
]

-- What a read leaves in the caller's buffer: nothing where it returns NULL; `unterminated` where
-- `strncpy` fills the buffer without the final null byte, so that its use runs out of it.
pub data Reading : Type 0 where
  absent unterminated : Reading
  value : Bytes → Reading

unfoldable pub copy_out : Option ℕ → Bytes → Reading
copy_out none v = value v
copy_out (some n) v = if ltb (length v) n then value v else unterminated

-- The empty string is NULL.
unfoldable pub copy_nonempty : Option ℕ → Bytes → Reading
unfolding copy_out
copy_nonempty store [] = absent
copy_nonempty store (c ∷ v) = copy_out store (c ∷ v)

unfoldable pub ga_conf_readv : Vars → Bytes → Option ℕ → Reading
unfolding find copy_out
ga_conf_readv vars k store = elim (find vars k) [
  | none ↦ absent
  | some var ↦ copy_out store var.data_
]

unfoldable pub ga_conf_writev : Vars → Bytes → Bytes → Vars
unfolding assign of_value
ga_conf_writev vars k v = assign vars k (of_value v)

unfoldable pub ga_conf_erase : Vars → Bytes → Vars
unfolding erase
ga_conf_erase vars k = erase vars k

unfoldable pub ga_conf_haskey : Vars → Bytes → Bytes → Bool
unfolding find haskey
ga_conf_haskey vars name k = elim (find vars name) [ none ↦ false | some var ↦ haskey var k ]

unfoldable pub ga_conf_mapsize : Vars → Bytes → ℕ
unfolding find
ga_conf_mapsize vars name = elim (find vars name) [ none ↦ 0 | some var ↦ length var.mapdata ]

unfoldable pub ga_conf_ismap : Vars → Bytes → Bool
unfolding ga_conf_mapsize
ga_conf_ismap vars name = ltb 0 (ga_conf_mapsize vars name)

-- `mi->second[key]`: the entry, which is made, empty, where it is missing.
unfoldable pub entry : Var → Bytes → Bytes × Var
unfolding find with_entry
entry var k = elim (find var.mapdata k) [ none ↦ ([], with_entry var k []) | some v ↦ (v, var) ]

unfoldable pub ga_conf_mapreadv : Vars → Bytes → Bytes → Option ℕ → Reading × Vars
unfolding find entry assign copy_nonempty
ga_conf_mapreadv vars name k store = elim (find vars name) [
  | none ↦ (absent, vars)
  | some var ↦
      (let (v, moved_var) = entry var k in (copy_nonempty store v, assign vars name moved_var))
]

-- `ga_vars[name]`
unfoldable pub entry_of : Vars → Bytes → Var
unfolding find
entry_of vars name = elim (find vars name) [ none ↦ cleared | some var ↦ var ]

unfoldable pub ga_conf_mapwritev : Vars → Bytes → Bytes → Bytes → Vars
unfolding entry_of with_entry assign
ga_conf_mapwritev vars name k v = assign vars name (with_entry (entry_of vars name) k v)

-- The whole variable goes, not the key alone.
unfoldable pub ga_conf_maperase : Vars → Bytes → Bytes → Vars
unfolding erase
ga_conf_maperase vars name k = erase vars name

unfoldable pub ga_conf_mapreset : Vars → Bytes → Vars
unfolding find mreset assign
ga_conf_mapreset vars name = elim (find vars name) [
  | none ↦ vars
  | some var ↦ assign vars name (mreset var)
]

unfoldable pub ga_conf_mapkey : Vars → Bytes → Option ℕ → Reading
unfolding find mkey copy_nonempty
ga_conf_mapkey vars name store = elim (find vars name) [
  | none ↦ absent
  | some var ↦ copy_nonempty store (mkey var)
]

unfoldable pub ga_conf_mapvalue : Vars → Bytes → Option ℕ → Reading
unfolding find mkey mvalue copy_out
ga_conf_mapvalue vars name store = elim (find vars name) [
  | none ↦ absent
  | some var ↦ elim (mkey var) [ [] ↦ absent | _ ∷ _ ↦ copy_out store (mvalue var) ]
]

unfoldable pub ga_conf_mapnextkey : Vars → Bytes → Option ℕ → Reading × Vars
unfolding find mnextkey assign copy_nonempty
ga_conf_mapnextkey vars name store = elim (find vars name) [
  | none ↦ (absent, vars)
  | some var ↦
      (let (k, moved_var) = mnextkey var in (copy_nonempty store k, assign vars name moved_var))
]
