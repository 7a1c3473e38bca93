-- ===== src/Conf/Parser.antt =====
-- The reader of configuration files, of ga/core/ga-conf.cpp: ga_conf_trim, ga_conf_parse and
-- ga_conf_load. Texts are bytes without the null byte that ends them. A file is the list of what
-- `fgets` returns of it; `dirname` is a parameter. Paths are shorter than PATH_MAX.
pub mod Trim
pub mod Lines
pub mod Load
use gaminganywhere.Base.{
  ℕ, zero, suc, ◌+◌, ltb, leb, ◌==◌, if◌then◌else◌, ◌&&◌, ◌||◌, List, [], ◌∷◌, ◌++◌, Option, none,
  some, Bool, true, false,
}
use gaminganywhere.Conf.Maps.{Bytes, eqb}
use gaminganywhere.Conf.Store.{Vars, codes, ga_conf_writev, ga_conf_mapwritev}

-- `isspace`
abbrev pub is_space : ℕ → Bool
is_space c = (c == 32) || (leb 9 c && leb c 13)

unfoldable pub skip_head : Bytes → Bytes
skip_head [] = []
skip_head (c ∷ s) = let rest = skip_head s in if is_space c then rest else c ∷ s

-- `if((ptr = strchr(buf, c)) != NULL) *ptr = '\0';`
unfoldable pub cut : ℕ → Bytes → Bytes
cut c [] = []
cut c (d ∷ s) = let rest = cut c s in if d == c then [] else d ∷ rest

abbrev pub starts : ℕ → Bytes → Bool
starts c [] = false
starts c (d ∷ s) = d == c

-- Only the first slash is looked at.
unfoldable pub cut_slashes : Bytes → Bytes
cut_slashes [] = []
cut_slashes (d ∷ s) =
    let rest = cut_slashes s in
    if d == b'/' then (if starts b'/' s then [] else d ∷ s) else d ∷ rest

abbrev pub is_empty : Bytes → Bool
is_empty [] = true
is_empty (c ∷ s) = false

unfoldable pub drop_tail : Bytes → Bytes
drop_tail [] = []
drop_tail (c ∷ s) = let rest = drop_tail s in if is_space c && is_empty rest then [] else c ∷ rest

-- The second search for `#` finds none.
unfoldable pub ga_conf_trim : Bytes → Bytes
ga_conf_trim s =
    let buf = skip_head s in
    if starts b'[' buf then [] else drop_tail (cut b'#' (cut_slashes (cut b';' (cut b'#' buf))))

-- DELIM
abbrev pub is_delim : ℕ → Bool
is_delim c = (c == b'=') || (c == 10) || (c == 13)

-- A token, and what is left behind the delimiter that ends it.
unfoldable pub token : Bytes → Bytes × Bytes
token [] = ([], [])
token (c ∷ s) = let (t, rest) = token s in if is_delim c then ([], s) else (c ∷ t, rest)

unfoldable pub skip_delims : Bytes → Bytes
skip_delims [] = []
skip_delims (c ∷ s) = let rest = skip_delims s in if is_delim c then rest else c ∷ s

abbrev pub some_token : Bytes → Option (Bytes × Bytes)
some_token [] = none
some_token (c ∷ s) = some (token (c ∷ s))

-- `strtok_r`
unfoldable pub strtok : Bytes → Option (Bytes × Bytes)
strtok s = some_token (skip_delims s)

-- What a line asks for.
pub data Line : Type 0 where
  ignored malformed : Line
  include_file : Bytes → Line
  variable : Bytes → Bytes → Line
  map_entry : Bytes → Bytes → Bytes → Line

-- The text in front of the first `c` and the text behind it.
unfoldable pub strchr : ℕ → Bytes → Option (Bytes × Bytes)
strchr c [] = none
strchr c (d ∷ s) =
    let found = strchr c s in
    if d == c then some ([], s) else elim found [ none ↦ none | some (a, b) ↦ some (d ∷ a, b) ]

-- `option[key`, split at its left bracket, with the value.
unfoldable pub parse_map : Bytes → Bytes → Bytes → Line
parse_map name rest value = elim (strchr b']' rest) [
  | none ↦ malformed
  | some (k, behind) ↦
      if is_empty k
      then malformed
      else if is_empty behind
      then map_entry name k value
      else malformed
]

unfoldable pub parse_option : Bytes → Bytes → Line
parse_option option value =
    if eqb option (codes "include") then include_file value else elim (strchr b'[' option) [
      | none ↦ variable option value
      | some (name, rest) ↦ parse_map name rest value
    ]

-- From the value on, behind the option.
unfoldable pub parse_value : Bytes → Bytes → Line
parse_value option rest = elim (strtok rest) [
  | none ↦ ignored
  | some (t, left) ↦
      (let value = ga_conf_trim t in if is_empty value then ignored else parse_option option value)
]

unfoldable pub parse_line : Bytes → Line
parse_line buf = elim (strtok buf) [
  | none ↦ ignored
  | some (t, rest) ↦
      (let option = ga_conf_trim t in if is_empty option then ignored else parse_value option rest)
]

-- `fopen` and what `fgets` returns of the file, and `dirname`
pub record Files : Type 0 where
  pub lines : Bytes → Option (List Bytes)
  pub dirname : Bytes → Bytes

abbrev pub include_path : Files → Bytes → Bytes → Bytes
include_path fs filename t = if starts b'/' t then t else fs.dirname filename ++ (b'/' ∷ t)

-- The flag is false for a negative result. `load` is `ga_conf_load`.
unfoldable pub ga_conf_parse :
    Files → (Vars → Bytes → Option ℕ × Vars) → Bytes → Vars → Bytes → Bool × Vars
ga_conf_parse fs load filename vars buf = elim (parse_line buf) [
  | ignored ↦ (true, vars)
  | malformed ↦ (false, vars)
  | include_file t ↦
      (let (n, after) = load vars (include_path fs filename t) in
        (elim n [ none ↦ false | some k ↦ true ], after))
  | variable name value ↦ (true, ga_conf_writev vars name value)
  | map_entry name k value ↦ (true, ga_conf_mapwritev vars name k value)
]

-- The loop over the lines, with `lineno`.
unfoldable pub load_lines :
    Files → (Vars → Bytes → Option ℕ × Vars) → Bytes → ℕ → Vars → List Bytes → Option ℕ × Vars
load_lines fs load filename lineno vars [] = (some lineno, vars)
load_lines fs load filename lineno vars (l ∷ ls) =
    let (fine, next) = ga_conf_parse fs load filename vars l in
    let rest = load_lines fs load filename (lineno + 1) next ls in
    if fine then rest else (none, next)

-- The fuel is the number of files that the process may still open: each include keeps its file open,
-- and `fopen` fails where there is none left. The result is none for -1.
unfoldable pub ga_conf_load : Files → ℕ → Vars → Bytes → Option ℕ × Vars
ga_conf_load fs zero vars filename = (none, vars)
ga_conf_load fs (suc handles) vars filename = elim (fs.lines filename) [
  | none ↦ (none, vars)
  | some ls ↦ load_lines fs (ga_conf_load fs handles) filename 0 vars ls
]
