-- ===== src/Conf/Numbers.antt =====
-- Numbers and flags of the configuration: `strtol` in base 0 as the C library defines it, on a
-- 64-bit `long`, its conversion to a 32-bit `int`, and the readers of ga/core/ga-conf.cpp.
use gaminganywhere.Base.{
  ℕ, zero, suc, ◌+◌, ◌-◌, ◌*◌, ◌%◌, ◌^◌, ltb, leb, ◌==◌, if◌then◌else◌, ◌&&◌, ◌||◌, List, [], ◌∷◌,
  map, some, Bool, true, false, drop,
}
use gaminganywhere.Conf.Checked.{Checked, ok, overrun}
use gaminganywhere.Conf.Maps.{Bytes, eqb}
use gaminganywhere.Conf.Store.{
  Vars, Reading, absent, unterminated, value, codes, ga_conf_readv, ga_conf_mapreadv,
}

pub data ℤ : Type 0 where
  pos negsuc : ℕ → ℤ

abbrev pub int_min : ℤ
int_min = negsuc (2 ^ 31 - 1)

abbrev pub is_space : ℕ → Bool
is_space c = c == 32 || leb 9 c && leb c 13

-- The value of a digit, or 99.
unfoldable pub digit : ℕ → ℕ
digit c =
    if leb 48 c && leb c 57
    then c - 48
    else if leb 97 c && leb c 122
    then c - 87
    else if leb 65 c && leb c 90
    then c - 55
    else 99

-- The value of the leading digits, and how many they are.
unfoldable pub digits : ℕ → ℕ → Bytes → ℕ × ℕ
unfolding digit
digits base acc [] = (acc, 0)
digits base acc (c ∷ cs) =
    let (v, n) = digits base (acc * base + digit c) cs in
    if ltb (digit c) base then (v, suc n) else (acc, 0)

-- The prefix `0x` counts where a digit follows it.
unfoldable pub unsigned : Bytes → ℕ × ℕ
unfolding digits digit
unsigned [] = (0, 0)
unsigned (c ∷ []) = digits 10 0 (c ∷ [])
unsigned (c ∷ d ∷ []) = if c == 48 then digits 8 0 (c ∷ d ∷ []) else digits 10 0 (c ∷ d ∷ [])
unsigned (c ∷ d ∷ e ∷ cs) =
    if c == 48
    then (if (d == 120 || d == 88) && ltb (digit e) 16
        then (let (v, n) = digits 16 0 (e ∷ cs) in (v, 2 + n))
        else digits 8 0 (c ∷ d ∷ e ∷ cs))
    else digits 10 0 (c ∷ d ∷ e ∷ cs)

-- A value out of the range of a `long` is cut to its end.
unfoldable pub signed : Bool → ℕ → ℤ
signed false v = if ltb v (2 ^ 63) then pos v else pos (2 ^ 63 - 1)
signed true zero = pos 0
signed true (suc v) = if ltb v (2 ^ 63) then negsuc v else negsuc (2 ^ 63 - 1)

-- After the white space, of which `skipped` bytes were met: the value, and how far `endptr` is.
unfoldable pub after_space : ℕ → Bytes → ℤ × ℕ
unfolding unsigned signed
after_space skipped [] = (pos 0, 0)
after_space skipped (c ∷ cs) =
    let marked = c == 45 || c == 43 in
    let (v, n) = unsigned (if marked then cs else c ∷ cs) in
    if n == 0 then (pos 0, 0) else (signed (c == 45) v, skipped + (if marked then 1 else 0) + n)

unfoldable pub strtol_from : ℕ → Bytes → ℤ × ℕ
unfolding after_space
strtol_from skipped [] = (pos 0, 0)
strtol_from skipped (c ∷ cs) =
    let rest = strtol_from (suc skipped) cs in
    if is_space c then rest else after_space skipped (c ∷ cs)

-- `strtol(ptr, &endptr, 0)`: the value and `endptr - ptr`
unfoldable pub strtol : Bytes → ℤ × ℕ
unfolding strtol_from
strtol s = strtol_from 0 s

-- the conversion of a `long` to an `int`
unfoldable pub to_int : ℤ → ℤ
to_int (pos n) = let m = n % 2 ^ 32 in if ltb m (2 ^ 31) then pos m else negsuc (2 ^ 32 - 1 - m)
to_int (negsuc n) = let m = n % 2 ^ 32 in if ltb m (2 ^ 31) then negsuc m else pos (2 ^ 32 - 1 - m)

unfoldable pub int_of : Reading → Checked ℤ
unfolding strtol to_int
int_of absent = ok int_min
int_of unterminated = overrun
int_of (value v) = ok (to_int (strtol v).0)

unfoldable pub ga_conf_readint : Vars → Bytes → Checked ℤ
unfolding int_of ga_conf_readv
ga_conf_readint vars k = int_of (ga_conf_readv vars k (some 64))

unfoldable pub ga_conf_mapreadint : Vars → Bytes → Bytes → Checked ℤ × Vars
unfolding int_of ga_conf_mapreadv
ga_conf_mapreadint vars name k =
    let (r, after) = ga_conf_mapreadv vars name k (some 64) in (int_of r, after)

-- `ga_conf_multiple_int`, for the `n` numbers that are left to read
unfoldable pub ga_conf_multiple_int : Bytes → ℕ → List ℤ
unfolding strtol to_int
ga_conf_multiple_int ptr zero = []
ga_conf_multiple_int ptr (suc n) =
    let (v, used) = strtol ptr in
    let rest = ga_conf_multiple_int (drop used ptr) n in if used == 0 then [] else to_int v ∷ rest

unfoldable pub ints_of : Reading → ℕ → Checked (List ℤ)
unfolding ga_conf_multiple_int
ints_of absent n = ok []
ints_of unterminated n = overrun
ints_of (value v) n = ok (ga_conf_multiple_int v n)

unfoldable pub ga_conf_readints : Vars → Bytes → ℕ → Checked (List ℤ)
unfolding ints_of ga_conf_readv
ga_conf_readints vars k n = ints_of (ga_conf_readv vars k (some 1024)) n

unfoldable pub ga_conf_mapreadints : Vars → Bytes → Bytes → ℕ → Checked (List ℤ) × Vars
unfolding ints_of ga_conf_mapreadv
ga_conf_mapreadints vars name k n =
    let (r, after) = ga_conf_mapreadv vars name k (some 1024) in (ints_of r n, after)

abbrev pub lower : ℕ → ℕ
lower c = if leb 65 c && leb c 90 then c + 32 else c

-- `strcasecmp(s, t) == 0`, for a `t` in small letters
unfoldable pub eq_any_case : Bytes → Bytes → Bool
unfolding eqb
eq_any_case s t = eqb (map lower s) t

unfoldable pub one_of : Bytes → List Bytes → Bool
unfolding eq_any_case
one_of s [] = false
one_of s (t ∷ ts) = eq_any_case s t || one_of s ts

abbrev pub true_words : List Bytes
true_words =
    codes "true" ∷ codes "1" ∷ codes "y" ∷ codes "yes" ∷ codes "enabled" ∷ codes "enable" ∷ []

abbrev pub false_words : List Bytes
false_words =
    codes "false" ∷ codes "0" ∷ codes "n" ∷ codes "no" ∷ codes "disabled" ∷ codes "disable" ∷ []

unfoldable pub ga_conf_boolval : Bytes → ℤ → ℤ
unfolding one_of
ga_conf_boolval s default =
    if one_of s true_words then pos 1 else if one_of s false_words then pos 0 else default

unfoldable pub bool_of : Reading → ℤ → Checked ℤ
unfolding ga_conf_boolval
bool_of absent default = ok default
bool_of unterminated default = overrun
bool_of (value v) default = ok (ga_conf_boolval v default)

unfoldable pub ga_conf_readbool : Vars → Bytes → ℤ → Checked ℤ
unfolding bool_of ga_conf_readv
ga_conf_readbool vars k default = bool_of (ga_conf_readv vars k (some 64)) default

unfoldable pub ga_conf_mapreadbool : Vars → Bytes → Bytes → ℤ → Checked ℤ × Vars
unfolding bool_of ga_conf_mapreadv
ga_conf_mapreadbool vars name k default =
    let (r, after) = ga_conf_mapreadv vars name k (some 64) in (bool_of r default, after)
