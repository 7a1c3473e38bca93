-- ===== src/Conf/Settings/Parse/Specific.antt =====
-- The options of the video encoder: what the loop over the map collects.
use gaminganywhere.Base.{
  ℕ, zero, suc, ◌==◌, if◌then◌else◌, List, [], ◌∷◌, ◌++◌, none, some, Bool, true, false, length,
  ◌≡◌, refl, sym, ap, ◌∙◌, arith, ◌<◌, append_nil, append_assoc, Bool-cases, inl, inr,
  nil_of_length, ==_iff,
}
use mathlib.Core.Path.{ap₂, subst₃}
use gaminganywhere.Conf.Checked.{ok, overrun, ◌>>=◌}
use gaminganywhere.Conf.Maps.{Bytes, eqb, find, assign, begin, next}
use gaminganywhere.Conf.Maps.Laws.{eqb_refl, find-assign}
use gaminganywhere.Conf.Store.{
  Var, Vars, Reading, absent, unterminated, value, codes, copy_out, copy_nonempty, mkey, mvalue,
  mnextkey, mreset, ga_conf_mapvalue, ga_conf_mapnextkey, ga_conf_mapkey, ga_conf_mapreset,
  ga_conf_mapsize,
}
use gaminganywhere.Conf.Settings.{RtspConf}
use gaminganywhere.Conf.Settings.Parse.{specific_loop, parse_specific}

-- no key equals `k`
abbrev pub Fresh : Bytes → List (Bytes × Bytes) → Type 0
Fresh k [] = Unit
Fresh k ((j, v) ∷ m) = (eqb k j ≡ false) × Fresh k m

-- Bindings whose keys are different, not empty and shorter than the buffer, as their values are.
abbrev pub Readable : List (Bytes × Bytes) → Type 0
Readable [] = Unit
Readable ((k, v) ∷ m) =
    (0 < length k) × (length k < 1024) × (length v < 1024) × Fresh k m × Readable m

-- The options: each key and its value, where it has one.
abbrev pub options : List (Bytes × Bytes) → List Bytes
options [] = []
options ((k, v) ∷ m) = let rest = options m in if length v == 0 then rest else k ∷ v ∷ rest

-- In the map `d`, an iterator at the first key of `m` finds the values of `m` and moves along it.
abbrev Walk : List (Bytes × Bytes) → List (Bytes × Bytes) → Type 0
Walk d [] = Unit
Walk d ((k, v) ∷ m) = (find d k ≡ some v) × (next d k ≡ begin m) × Walk d m

Walk-cons : (d m : List (Bytes × Bytes)) (k v : Bytes) → Fresh k m → Walk d m → Walk ((k, v) ∷ d) m
unfolding find next
Walk-cons d [] k v f w = tt
Walk-cons d ((j, u) ∷ m) k v f w =
    (ground (arith, f.0, w.0), ground (arith, f.0, w.1), Walk-cons d m k v f.1 w.2)

Walk-self : (m : List (Bytes × Bytes)) → Readable m → Walk m m
unfolding find next
Walk-self [] h = tt
Walk-self ((k, v) ∷ m) h = (
  ground (arith, eqb_refl k),
  ground (arith, eqb_refl k),
  Walk-cons m m k v h.3 (Walk-self m h.4),
)

-- what the calls for a key leave at the first key of `m`
abbrev key_of : List (Bytes × Bytes) → Reading
key_of [] = absent
key_of ((k, v) ∷ m) = value k

copy-value :
    (c : ℕ) (v : Bytes) → length (c ∷ v) < 1024 → copy_nonempty (some 1024) (c ∷ v) ≡ value (c ∷ v)
unfolding copy_nonempty copy_out
copy-value c v h = ground arith

key-copy :
    (m : List (Bytes × Bytes))
    → Readable m
    → copy_nonempty (some 1024) (elim (begin m) [ none ↦ [] | some j ↦ j ]) ≡ key_of m
unfolding begin copy_nonempty
key-copy [] h = refl
key-copy (([], v) ∷ m) h = absurd (omega (arith, h.0))
key-copy ((c ∷ k, v) ∷ m) h = copy-value c k h.1

mapnextkey_lem :
    (vars : Vars) (name : Bytes) (var : Var) (k v : Bytes) (m : List (Bytes × Bytes))
    → find vars name ≡ some var
    → var.mi ≡ some k
    → Walk var.mapdata ((k, v) ∷ m)
    → Readable m
    → ga_conf_mapnextkey vars name (some 1024)
      ≡ (key_of m, assign vars name (record var { mi = begin m }))
unfolding ga_conf_mapnextkey mnextkey
mapnextkey_lem vars name var k v m e at w h = ground (arith, key-copy m h, w.1)

mapvalue_lem :
    (vars : Vars) (name : Bytes) (var : Var) (c : ℕ) (k v : Bytes)
    → find vars name ≡ some var
    → var.mi ≡ some (c ∷ k)
    → find var.mapdata (c ∷ k) ≡ some v
    → length v < 1024
    → ga_conf_mapvalue vars name (some 1024) ≡ value v
unfolding ga_conf_mapvalue mvalue mkey copy_nonempty copy_out
mapvalue_lem vars name var c k v e at f h = ground arith

-- One pass of the loop.
loop-step :
    (m : List (Bytes × Bytes)) (n c : ℕ) (k v : Bytes) (vars : Vars) (var : Var) (vso : List Bytes)
    → find vars (codes "video-specific") ≡ some var
    → var.mi ≡ some (c ∷ k)
    → Walk var.mapdata ((c ∷ k, v) ∷ m)
    → Readable m
    → length v < 1024
    → specific_loop (suc n) vars (value (c ∷ k)) vso ≡ (
        if length v == 0
        then specific_loop n
            (assign vars (codes "video-specific") (record var { mi = begin m }))
            (key_of m)
            vso
        else specific_loop n
            (assign vars (codes "video-specific") (record var { mi = begin m }))
            (key_of m)
            (vso ++ ((c ∷ k) ∷ v ∷ [])))
unfolding specific_loop
loop-step m n c k v vars var vso e at w h short =
    ap₂
      (λ r x. elim x [
        | absent ↦ specific_loop n r.1 r.0 vso
        | unterminated ↦ overrun
        | value u ↦
            (if length u == 0
              then specific_loop n r.1 r.0 vso
              else specific_loop n r.1 r.0 (vso ++ ((c ∷ k) ∷ u ∷ [])))
      ])
      (mapnextkey_lem vars (codes "video-specific") var (c ∷ k) v m e at w h)
      (mapvalue_lem vars (codes "video-specific") var c k v e at (w.0) short)

-- What a call of the loop collects, added to `vso`.
abbrev Collects : ℕ → Vars → Reading → List Bytes → List Bytes → Type 0
Collects n vars key vso found =
    (after : Vars) × (specific_loop n vars key vso ≡ ok (vso ++ found, after))

Collects-if :
    (b : Bool) (m : List (Bytes × Bytes)) (n : ℕ) (k v : Bytes) (vars moved : Vars)
    (vso : List Bytes)
    → specific_loop (suc n) vars (value k) vso ≡ (
        if b
        then specific_loop n moved (key_of m) vso
        else specific_loop n moved (key_of m) (vso ++ (k ∷ v ∷ [])))
    → ((vs : List Bytes) → Collects n moved (key_of m) vs (options m))
    → Collects (suc n) vars (value k) vso (if b then options m else k ∷ v ∷ options m)
Collects-if true m n k v vars moved vso e rest = ((rest vso).0, e ∙ (rest vso).1)
Collects-if false m n k v vars moved vso e rest =
    let r = rest (vso ++ (k ∷ v ∷ [])) in
    (r.0, e ∙ r.1 ∙ ap (λ l. ok (l, r.0)) (append_assoc vso (k ∷ v ∷ []) (options m)))

find-moved : (vars : Vars) (k : Bytes) (var : Var) → find (assign vars k var) k ≡ some var
find-moved vars k var = ground (arith, find-assign vars k var k, eqb_refl k)

-- The loop with a call for each binding that is left, and one for the end.
loop-Collects :
    (m : List (Bytes × Bytes)) (n : ℕ) (vars : Vars) (var : Var) (vso : List Bytes)
    → find vars (codes "video-specific") ≡ some var
    → var.mi ≡ begin m
    → Walk var.mapdata m
    → Readable m
    → length m < n
    → Collects n vars (key_of m) vso (options m)
unfolding specific_loop begin
loop-Collects [] zero vars var vso e at w h le = absurd (omega arith)
loop-Collects [] (suc n) vars var vso e at w h le =
    (vars, ap (λ l. ok (l, vars)) (sym (append_nil vso)))
loop-Collects ((k, v) ∷ m) zero vars var vso e at w h le = absurd (omega arith)
loop-Collects (([], v) ∷ m) (suc n) vars var vso e at w h le = absurd (omega (arith, h.0))
loop-Collects ((c ∷ k, v) ∷ m) (suc n) vars var vso e at w h le =
    Collects-if (length v == 0) m n (c ∷ k) v vars
      (assign vars (codes "video-specific") (record var { mi = begin m })) vso
      (loop-step m n c k v vars var vso e at w h.4 h.2)
      (λ vs.
        loop-Collects m n (assign vars (codes "video-specific") (record var { mi = begin m }))
          (record var { mi = begin m }) vs
          (find-moved vars (codes "video-specific") (record var { mi = begin m })) refl w.2 h.4
          (omega arith))

mapreset_lem :
    (vars : Vars) (name : Bytes) (var : Var)
    → find vars name ≡ some var
    → (ga_conf_mapreset vars name ≡ assign vars name (record var { mi = begin var.mapdata }))
      × (ga_conf_mapsize vars name ≡ length var.mapdata)
unfolding ga_conf_mapreset ga_conf_mapsize mreset
mapreset_lem vars name var e = (rw (e, ga_conf_mapreset), rw (e, ga_conf_mapsize))

mapkey_lem :
    (vars : Vars) (name : Bytes) (var : Var) (m : List (Bytes × Bytes))
    → find vars name ≡ some var
    → var.mi ≡ begin m
    → Readable m
    → ga_conf_mapkey vars name (some 1024) ≡ key_of m
unfolding ga_conf_mapkey mkey
mapkey_lem vars name var m e at h = ground (arith, key-copy m h)

-- The calls in front of the loop.
begun-Collects :
    (vars : Vars) (var : Var) (vso : List Bytes)
    → find vars (codes "video-specific") ≡ some var
    → Readable var.mapdata
    → Collects
        (suc (ga_conf_mapsize vars (codes "video-specific")))
        (ga_conf_mapreset vars (codes "video-specific"))
        (ga_conf_mapkey
          (ga_conf_mapreset vars (codes "video-specific"))
          (codes "video-specific")
          (some 1024))
        vso
        (options var.mapdata)
begun-Collects vars var vso e h =
    subst₃ (λ n vs key. Collects (suc n) vs key vso (options var.mapdata))
      (sym (mapreset_lem vars (codes "video-specific") var e).1)
      (sym (mapreset_lem vars (codes "video-specific") var e).0)
      (sym (
        mapkey_lem (ga_conf_mapreset vars (codes "video-specific")) (codes "video-specific") begun
          var.mapdata there refl h))
      (loop-Collects var.mapdata (suc (length var.mapdata))
        (assign vars (codes "video-specific") begun) begun vso
        (find-moved vars (codes "video-specific") begun) refl (Walk-self var.mapdata h) h
        (omega arith))
  where
    begun : Var
    begun = record var { mi = begin var.mapdata }

    there :
        find (ga_conf_mapreset vars (codes "video-specific")) (codes "video-specific") ≡ some begun
    there =
        ap (λ vs. find vs (codes "video-specific"))
          (mapreset_lem vars (codes "video-specific") var e).0
        ∙ find-moved vars (codes "video-specific") begun

-- The last part of `rtspconf_parse` ends, with its loop at the iterator's end, and puts into `vso`,
-- behind what it holds and in the order of the keys, each key and its value but for the empty values:
-- for a map whose keys are not empty and, as its values, shorter than the buffer.
pub specific-collects :
    (vars : Vars) (var : Var) (conf : RtspConf)
    → find vars (codes "video-specific") ≡ some var
    → Readable var.mapdata
    → (after : Vars) × (parse_specific vars conf
        ≡ ok (record conf { vso = conf.vso ++ options var.mapdata }, after))
unfolding parse_specific
specific-collects vars var conf e h =
    elim (Bool-cases (ga_conf_mapsize vars (codes "video-specific") == 0)) [
      | inl empty ↦
          let nothing : var.mapdata ≡ [] =
            nil_of_length var.mapdata
              (sym (mapreset_lem vars (codes "video-specific") var e).1 ∙ (==_iff _ _).0 empty) in
          (
            vars,
            rw empty (
                ap (λ l. ok (record conf { vso = l }, vars))
                  (sym (append_nil conf.vso) ∙ ap (λ m. conf.vso ++ options m) (sym nothing))),
          )
      | inr filled ↦
          let (after, collected) = begun-Collects vars var conf.vso e h in
          (after, rw filled (ap (λ m. m >>= (λ r. ok (record conf { vso = r.0 }, r.1))) collected))
    ]
