-- ===== src/Conf/Parser/Lines.antt =====
-- The lines of names, values and brackets, as ga_conf_parse splits them.
use gaminganywhere.Base.{
  ℕ, ◌≡◌, ◌≢◌, refl, ap, arith, ◌==◌, ◌&&◌, ◌||◌, not, [], ◌∷◌, ◌++◌, none, some, Bool, true, false,
  Bool-cases, inl, inr, append_nil,
}
use mathlib.Core.Path.{subst}
use gaminganywhere.Conf.Maps.{Bytes, eqb}
use gaminganywhere.Conf.Maps.Laws.{eqb→eq}
use gaminganywhere.Conf.Store.{codes}
use gaminganywhere.Conf.Parser.{
  ignored, variable, map_entry, is_space, is_empty, strchr, strtok, token, ga_conf_trim, skip_head,
  cut, cut_slashes, drop_tail, skip_delims, parse_map, parse_option, parse_value, parse_line,
}
use gaminganywhere.Conf.Parser.Trim.{
  is_text, AllText, BeginsWell, EndsWell, IsTrimmed, trim-IsTrimmed, strtok-IsTrimmed,
}

abbrev pub bracketed : Bytes → Bytes → Bytes
bracketed name key = name ++ b'[' ∷ (key ++ b']' ∷ [])

-- A byte of a name or a key.
abbrev pub is_name : ℕ → Bool
is_name c = is_text c && not (is_space c || (c == b'[') || (c == b']'))

abbrev pub AllName : Bytes → Type 0
AllName [] = Unit
AllName (c ∷ s) = (is_name c ≡ true) × AllName s

abbrev pub IsName : Bytes → Type 0
IsName s = (is_empty s ≡ false) × AllName s

name_facts :
    (c : ℕ)
    → is_name c ≡ true
    → (is_text c ≡ true) × (is_space c ≡ false) × ((c == b'[') ≡ false) × ((c == b']') ≡ false)
name_facts c h = (ground arith, ground arith, ground arith, ground arith)

-- The first bracket behind a name ends it.
strchr-AllName :
    (c : ℕ) (s rest : Bytes)
    → AllName s
    → ((d : ℕ) → is_name d ≡ true → (d == c) ≡ false)
    → strchr c (s ++ c ∷ rest) ≡ some (s, rest)
unfolding strchr
strchr-AllName c [] rest a other = ground arith
strchr-AllName c (d ∷ s) rest a other = rw (other d a.0, strchr-AllName c s rest a.1 other) refl

strchr-none : (s : Bytes) → AllName s → strchr b'[' s ≡ none
unfolding strchr
strchr-none [] a = refl
strchr-none (d ∷ s) a = rw ((name_facts d a.0).2, strchr-none s a.1) refl

AllName-AllText : (s : Bytes) → AllName s → AllText s
AllName-AllText [] a = tt
AllName-AllText (c ∷ s) a = ((name_facts c a.0).0, AllName-AllText s a.1)

AllText-append : (s t : Bytes) → AllText s → AllText t → AllText (s ++ t)
AllText-append [] t a b = b
AllText-append (c ∷ s) t a b = (a.0, AllText-append s t a.1 b)

AllName-EndsWell : (s : Bytes) → AllName s → EndsWell s
AllName-EndsWell [] a = tt
AllName-EndsWell (c ∷ []) a = (name_facts c a.0).1
AllName-EndsWell (c ∷ d ∷ s) a = AllName-EndsWell (d ∷ s) a.1

EndsWell-append : (s : Bytes) (c : ℕ) (t : Bytes) → EndsWell (c ∷ t) → EndsWell (s ++ c ∷ t)
EndsWell-append [] c t e = e
EndsWell-append (a ∷ []) c t e = e
EndsWell-append (a ∷ b ∷ s) c t e = EndsWell-append (b ∷ s) c t e

name-BeginsWell : (s t : Bytes) → IsName s → BeginsWell (s ++ t)
name-BeginsWell [] t n = absurd (cc n.0)
name-BeginsWell (c ∷ s) t n = ((name_facts c n.1.0).1, (name_facts c n.1.0).2)

pub name-IsTrimmed : (s : Bytes) → IsName s → IsTrimmed s
name-IsTrimmed s n = record {
  text = AllName-AllText s n.1;
  begins = subst BeginsWell (append_nil s) (name-BeginsWell s [] n);
  ends = AllName-EndsWell s n.1;
}

pub bracketed-IsTrimmed :
    (name key : Bytes) → IsName name → AllName key → IsTrimmed (bracketed name key)
bracketed-IsTrimmed name key n k = record {
  text =
      AllText-append name _ (AllName-AllText name n.1)
        (refl, AllText-append key _ (AllName-AllText key k) (refl, tt));
  begins = name-BeginsWell name _ n;
  ends = EndsWell-append name b'[' _ (EndsWell-append (b'[' ∷ key) b']' [] refl);
}

-- A line of an option and a value, neither with anything to trim.
pub parse_line-print :
    (option value : Bytes)
    → IsTrimmed option
    → IsTrimmed value
    → parse_line (option ++ b'=' ∷ (value ++ 10 ∷ [])) ≡ parse_option option value
unfolding parse_line parse_value
parse_line-print [] value o v = absurd o.begins
parse_line-print (c ∷ s) [] o v = absurd v.begins
parse_line-print (c ∷ s) (d ∷ t) o v =
    rw (strtok-IsTrimmed (c ∷ s) b'=' ((d ∷ t) ++ 10 ∷ []) o refl, parse_line)
      (rw (trim-IsTrimmed (c ∷ s) o) (
        rw (strtok-IsTrimmed (d ∷ t) 10 [] v refl, parse_value)
          (rw (trim-IsTrimmed (d ∷ t) v) refl)))

pub parse-setting :
    (name value : Bytes)
    → IsName name
    → eqb name (codes "include") ≡ false
    → parse_option name value ≡ variable name value
unfolding parse_option
parse-setting name value n other = rw (other, strchr-none name n.1) refl

include-ne-bracketed : (name key : Bytes) → AllName name → bracketed name key ≢ codes "include"
unfolding strchr
include-ne-bracketed name key n e =
    let found : strchr b'[' (bracketed name key) ≡ some (name, key ++ b']' ∷ []) =
      strchr-AllName b'[' name _ n (λ d h. (name_facts d h).2) in
    let nothing : strchr b'[' (codes "include") ≡ none = refl in
    cc (found, nothing, ap (strchr b'[') e)

pub parse-map_setting :
    (name key value : Bytes)
    → IsName name
    → IsName key
    → parse_option (bracketed name key) value ≡ map_entry name key value
unfolding parse_option parse_map
parse-map_setting name key value n k =
    rw (other, found)
      (rw (strchr-AllName b']' key [] k.1 (λ d h. (name_facts d h).3), parse_map) (rw k.0 refl))
  where
    found : strchr b'[' (bracketed name key) ≡ some (name, key ++ b']' ∷ [])
    found = strchr-AllName b'[' name _ n.1 (λ d h. (name_facts d h).2)

    other : eqb (bracketed name key) (codes "include") ≡ false
    other = elim (Bool-cases (eqb (bracketed name key) (codes "include"))) [
      | inl same ↦ absurd (include-ne-bracketed name key n.1 (eqb→eq _ _ same))
      | inr e ↦ e
    ]

trim-comment : (s : Bytes) → ga_conf_trim (b'#' ∷ s) ≡ []
unfolding ga_conf_trim skip_head cut cut_slashes drop_tail
trim-comment s = refl

trim-section : (s : Bytes) → ga_conf_trim (b'[' ∷ s) ≡ []
unfolding ga_conf_trim skip_head
trim-section s = refl

pub parse_line-comment : (s : Bytes) → parse_line (b'#' ∷ s) ≡ ignored
unfolding parse_line strtok skip_delims token
parse_line-comment s = rw (trim-comment (token s).0) refl

pub parse_line-section : (s : Bytes) → parse_line (b'[' ∷ s) ≡ ignored
unfolding parse_line strtok skip_delims token
parse_line-section s = rw (trim-section (token s).0) refl
