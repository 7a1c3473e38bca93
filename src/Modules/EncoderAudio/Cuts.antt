-- ===== src/Modules/EncoderAudio/Cuts.antt =====
-- How the bytes that the audio encoder reads lie in the frames that it gives to its codec, and in its
-- block.
use gaminganywhere.Base.{
  ℕ, ◌+◌, ◌*◌, ◌≤◌, ◌<◌, ◌≡◌, refl, sym, ap, ◌∙◌, arith, false, List, [], ◌∷◌, ◌++◌, length, slice,
  map, Bool-cases, inl, inr, append_assoc, append_nil,
}
use gaminganywhere.Modules.EncoderAudio.{Setup, Encoding, handle_pts, convert_with}

-- The bytes of a frame as the codec gets them.
abbrev pub converted : Setup → List ℕ → List ℕ
converted p b = convert_with p.convert b

abbrev pub concat : List (List ℕ) → List ℕ
concat [] = []
concat (b ∷ bs) = b ++ concat bs

abbrev pub AllLength : ℕ → List (List ℕ) → Type 0
AllLength n [] = Unit
AllLength n (b ∷ bs) = (length b ≡ n) × AllLength n bs

abbrev pub bytes_of : List (List ℕ × ℕ) → List (List ℕ)
bytes_of [] = []
bytes_of ((b, t) ∷ fs) = b ∷ bytes_of fs

-- The time stamps begin at `from`, each frame ends before the next begins, and the last by `end`.
abbrev pub Spaced : ℕ → ℕ → List (List ℕ × ℕ) → ℕ → Type 0
Spaced size from [] end = from ≤ end
Spaced size from ((b, t) ∷ fs) end = (from ≤ t) × Spaced size (t + size) fs end

-- The bytes read are the frames given to the codec, each whole and in order, and a rest.
pub record Cut (p : Setup) (s : Encoding) (rest : List ℕ) : Type 0 where
  pub chunks : List (List ℕ)
  pub fed : bytes_of s.frames ≡ map (converted p) chunks
  pub whole_frames : AllLength (p.frame_size * p.frameunit) chunks
  pub in_order : s.taken ≡ concat chunks ++ rest
  pub until : ℕ
  pub timed : Spaced p.frame_size 0 s.frames until

-- The block holds the rest, which is less than a frame.
pub record Holds (p : Setup) (s : Encoding) (rest : List ℕ) : Type 0 where
  pub held : slice 0 s.samplebytes s.samples ≡ rest
  pub below : s.nsamples < p.frame_size
  pub counted : s.samplebytes ≡ s.nsamples * p.frameunit
  pub memory : length s.samples ≡ p.frame_size * p.frameunit
  pub spaced : Spaced p.frame_size 0 s.frames s.pts
  pub idle : s.started ≡ false → s.pts ≡ 0

pub concat-snoc : (bs : List (List ℕ)) (b : List ℕ) → concat (bs ++ (b ∷ [])) ≡ concat bs ++ b
concat-snoc [] b = append_nil b
concat-snoc (c ∷ bs) b = ap (◌++◌ c) (concat-snoc bs b) ∙ sym (append_assoc c (concat bs) b)

pub AllLength-snoc :
    (n : ℕ) (bs : List (List ℕ)) (b : List ℕ)
    → AllLength n bs
    → length b ≡ n
    → AllLength n (bs ++ (b ∷ []))
AllLength-snoc n [] b all e = (e, tt)
AllLength-snoc n (c ∷ bs) b all e = (all.0, AllLength-snoc n bs b all.1 e)

pub bytes_of-snoc :
    (fs : List (List ℕ × ℕ)) (b : List ℕ) (t : ℕ)
    → bytes_of (fs ++ ((b, t) ∷ [])) ≡ bytes_of fs ++ (b ∷ [])
bytes_of-snoc [] b t = refl
bytes_of-snoc ((c, u) ∷ fs) b t = ap (◌∷◌ c) (bytes_of-snoc fs b t)

pub map-snoc :
    (f : List ℕ → List ℕ) (bs : List (List ℕ)) (b : List ℕ)
    → map f (bs ++ (b ∷ [])) ≡ map f bs ++ (f b ∷ [])
map-snoc f [] b = refl
map-snoc f (c ∷ bs) b = ap (◌∷◌ (f c)) (map-snoc f bs b)

pub Spaced-snoc :
    (size from : ℕ) (fs : List (List ℕ × ℕ)) (b : List ℕ) (t : ℕ)
    → Spaced size from fs t
    → Spaced size from (fs ++ ((b, t) ∷ [])) (t + size)
Spaced-snoc size from [] b t h = (h, omega arith)
Spaced-snoc size from ((c, u) ∷ fs) b t h = (h.0, Spaced-snoc size (u + size) fs b t h.1)

pub Spaced-later :
    (size from : ℕ) (fs : List (List ℕ × ℕ)) (t u : ℕ)
    → Spaced size from fs t
    → t ≤ u
    → Spaced size from fs u
Spaced-later size from [] t u h le = omega arith
Spaced-later size from ((c, v) ∷ fs) t u h le = (h.0, Spaced-later size (v + size) fs t u h.1 le)

pub handle_pts-grows :
    (rate r us sync : ℕ) (s : Encoding)
    → (s.started ≡ false → s.pts ≡ 0)
    → s.pts ≤ (handle_pts rate r us sync s).pts
handle_pts-grows rate r us sync s idle = elim (Bool-cases s.started) [
  | inl yet ↦ rw yet (ground arith)
  | inr first ↦ rw first (omega (arith, idle first))
]
