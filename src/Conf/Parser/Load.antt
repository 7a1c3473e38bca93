-- ===== src/Conf/Parser/Load.antt =====
-- A configuration file that is written as a list of settings loads as these settings.
use gaminganywhere.Base.{
  ℕ, suc, ◌+◌, ◌≡◌, refl, ap, ◌∙◌, arith, List, [], ◌∷◌, ◌++◌, Option, some, true, false, length,
  map,
}
use gaminganywhere.Conf.Maps.{Bytes, eqb}
use gaminganywhere.Conf.Store.{Vars, codes, ga_conf_writev, ga_conf_mapwritev}
use gaminganywhere.Conf.Parser.{Files, ga_conf_parse, load_lines, ga_conf_load}
use gaminganywhere.Conf.Parser.Trim.{IsTrimmed}
use gaminganywhere.Conf.Parser.Lines.{
  bracketed, IsName, name-IsTrimmed, bracketed-IsTrimmed, parse_line-print, parse-setting,
  parse-map_setting, parse_line-comment, parse_line-section,
}

-- A setting, an entry of a map, a comment, or a section line.
pub data Entry : Type 0 where
  setting : Bytes → Bytes → Entry
  map_setting : Bytes → Bytes → Bytes → Entry
  comment section : Bytes → Entry

-- The line of an entry, as `fgets` returns it.
unfoldable pub print : Entry → Bytes
print (setting name value) = name ++ b'=' ∷ (value ++ 10 ∷ [])
print (map_setting name key value) = bracketed name key ++ b'=' ∷ (value ++ 10 ∷ [])
print (comment text) = b'#' ∷ (text ++ 10 ∷ [])
print (section text) = b'[' ∷ (text ++ 10 ∷ [])

abbrev pub IsEntry : Entry → Type 0
IsEntry (setting name value) = IsName name × (eqb name (codes "include") ≡ false) × IsTrimmed value
IsEntry (map_setting name key value) = IsName name × IsName key × IsTrimmed value
IsEntry (comment text) = Unit
IsEntry (section text) = Unit

abbrev pub AllEntries : List Entry → Type 0
AllEntries [] = Unit
AllEntries (e ∷ es) = IsEntry e × AllEntries es

-- What an entry does to the variables.
unfoldable pub perform : Vars → Entry → Vars
perform vars (setting name value) = ga_conf_writev vars name value
perform vars (map_setting name key value) = ga_conf_mapwritev vars name key value
perform vars (comment text) = vars
perform vars (section text) = vars

unfoldable pub perform_all : Vars → List Entry → Vars
perform_all vars [] = vars
perform_all vars (e ∷ es) = perform_all (perform vars e) es

parse-perform :
    (fs : Files) (load : Vars → Bytes → Option ℕ × Vars) (filename : Bytes) (vars : Vars)
    (e : Entry)
    → IsEntry e
    → ga_conf_parse fs load filename vars (print e) ≡ (true, perform vars e)
unfolding ga_conf_parse print perform
parse-perform fs load filename vars (setting name value) (n, other, v) =
    rw
      (
        parse_line-print name value (name-IsTrimmed name n) v ∙ parse-setting name value n other,
        ga_conf_parse,
      )
      refl
parse-perform fs load filename vars (map_setting name key value) (n, k, v) =
    rw
      (
        parse_line-print (bracketed name key) value (bracketed-IsTrimmed name key n k.1) v
            ∙ parse-map_setting name key value n k,
        ga_conf_parse,
      )
      refl
parse-perform fs load filename vars (comment text) e =
    rw (parse_line-comment (text ++ 10 ∷ []), ga_conf_parse) refl
parse-perform fs load filename vars (section text) e =
    rw (parse_line-section (text ++ 10 ∷ []), ga_conf_parse) refl

load_lines-print :
    (fs : Files) (load : Vars → Bytes → Option ℕ × Vars) (filename : Bytes) (n : ℕ) (vars : Vars)
    (es : List Entry)
    → AllEntries es
    → load_lines fs load filename n vars (map print es)
      ≡ (some (n + length es), perform_all vars es)
unfolding load_lines perform_all
load_lines-print fs load filename n vars [] all =
    let e : n ≡ n + 0 = omega arith in ap (λ (k : ℕ). (some k, vars)) e
load_lines-print fs load filename n vars (e ∷ es) all =
    let sum : n + 1 + length es ≡ n + suc (length es) = omega arith in
    rw (parse-perform fs load filename vars e all.0) (
      load_lines-print fs load filename (n + 1) (perform vars e) es all.1
      ∙ ap (λ (k : ℕ). (some k, perform_all (perform vars e) es)) sum)

-- A file that holds the lines of the entries `es`, and can be opened, loads as the entries one after
-- another, and the result is their number: `name=value` is `ga_conf_writev`, `name[key]=value` is
-- `ga_conf_mapwritev`, and lines that start with `#` or `[` change nothing. Names and keys are not
-- empty and have no spaces, brackets or bytes at which a line is cut; a name is not `include`; a value
-- has none of the latter, no space at its ends and no bracket at its start.
pub load-print :
    (fs : Files) (handles : ℕ) (vars : Vars) (filename : Bytes) (es : List Entry)
    → fs.lines filename ≡ some (map print es)
    → AllEntries es
    → ga_conf_load fs (suc handles) vars filename ≡ (some (length es), perform_all vars es)
unfolding ga_conf_load
load-print fs handles vars filename es holds all =
    let sum : 0 + length es ≡ length es = omega arith in
    rw (holds, ga_conf_load)
      (load_lines-print fs (ga_conf_load fs handles) filename 0 vars es all
        ∙ ap (λ (k : ℕ). (some k, perform_all vars es)) sum)
