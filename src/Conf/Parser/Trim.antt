-- ===== src/Conf/Parser/Trim.antt =====
-- `ga_conf_trim` and `strtok_r` on texts with nothing to trim and nothing to cut at.
use gaminganywhere.Base.{
  ℕ, ◌≡◌, refl, ap, arith, ◌==◌, ◌||◌, not, [], ◌∷◌, ◌++◌, some, Bool, true, false,
}
use gaminganywhere.Conf.Maps.{Bytes}
use gaminganywhere.Conf.Parser.{
  is_space, skip_head, cut, cut_slashes, drop_tail, ga_conf_trim, is_delim, token, skip_delims,
  strtok,
}

-- A byte at which nothing is cut.
abbrev pub is_text : ℕ → Bool
is_text c = not (is_delim c || (c == b'#') || (c == b';') || (c == b'/'))

abbrev pub AllText : Bytes → Type 0
AllText [] = Unit
AllText (c ∷ s) = (is_text c ≡ true) × AllText s

abbrev pub EndsWell : Bytes → Type 0
EndsWell [] = Unit
EndsWell (c ∷ []) = is_space c ≡ false
EndsWell (c ∷ d ∷ s) = EndsWell (d ∷ s)

abbrev pub BeginsWell : Bytes → Type 0
BeginsWell [] = ⊥
BeginsWell (c ∷ s) = (is_space c ≡ false) × ((c == b'[') ≡ false)

-- A text with no space at its ends, which does not look like a section or a comment.
pub record IsTrimmed (s : Bytes) : Type 0 where
  pub text : AllText s
  pub begins : BeginsWell s
  pub ends : EndsWell s

cut-AllText : (s : Bytes) → AllText s → (cut b'#' s ≡ s) × (cut b';' s ≡ s) × (cut_slashes s ≡ s)
unfolding cut cut_slashes
cut-AllText [] t = (refl, refl, refl)
cut-AllText (c ∷ s) t =
    let ih = cut-AllText s t.1 in
    let text : is_text c ≡ true = t.0 in
    (ground (arith, ih.0), ground (arith, ih.1), ground (arith, ih.2))

drop_tail-EndsWell : (s : Bytes) → EndsWell s → drop_tail s ≡ s
unfolding drop_tail
drop_tail-EndsWell [] e = refl
drop_tail-EndsWell (c ∷ []) e = rw e refl
drop_tail-EndsWell (c ∷ d ∷ s) e = ground (arith, drop_tail-EndsWell (d ∷ s) e)

pub trim-IsTrimmed : (s : Bytes) → IsTrimmed s → ga_conf_trim s ≡ s
unfolding ga_conf_trim skip_head
trim-IsTrimmed [] t = absurd t.begins
trim-IsTrimmed (c ∷ s) t =
    let cuts = cut-AllText (c ∷ s) t.text in
    let head : skip_head (c ∷ s) ≡ c ∷ s = rw t.begins.0 refl in
    rw (head, t.begins.1)
      (rw (cuts.0, cuts.1, cuts.2, cuts.0, drop_tail-EndsWell (c ∷ s) t.ends) refl)

pub token-AllText :
    (s : Bytes) (d : ℕ) (rest : Bytes)
    → AllText s
    → is_delim d ≡ true
    → token (s ++ d ∷ rest) ≡ (s, rest)
unfolding token
token-AllText [] d rest t e = rw e refl
token-AllText (c ∷ s) d rest t e =
    let text : is_text c ≡ true = t.0 in
    let plain : is_delim c ≡ false = ground arith in rw (plain, token-AllText s d rest t.1 e) refl

pub strtok-IsTrimmed :
    (s : Bytes) (d : ℕ) (rest : Bytes)
    → IsTrimmed s
    → is_delim d ≡ true
    → strtok (s ++ d ∷ rest) ≡ some (s, rest)
unfolding strtok skip_delims
strtok-IsTrimmed [] d rest t e = absurd t.begins
strtok-IsTrimmed (c ∷ s) d rest t e =
    let text : is_text c ≡ true = t.text.0 in
    let plain : is_delim c ≡ false = ground arith in
    let head : skip_delims (c ∷ (s ++ d ∷ rest)) ≡ c ∷ (s ++ d ∷ rest) = rw plain refl in
    rw head (ap some (token-AllText (c ∷ s) d rest t.text e))
