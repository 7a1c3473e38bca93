-- ===== src/Controller/Queue/Layout.antt =====
-- How the queue lies in its buffer: `count` units, of which `used` hold messages, from unit `first`
-- on and round the end; one unit always stays free.
use native.Mathlib.Nat.{mul-le-mul_right, suc-mul}
use gaminganywhere.Base.{
  ℕ, zero, suc, ◌+◌, ◌*◌, ◌≤◌, ◌<◌, ◌≡◌, ◌≢◌, refl, ap, List, [], ◌∷◌, ◌++◌, arith, ◌⊎◌, inl, inr,
  dec_lt, length, ◌==◌, if◌then◌else◌,
}
use gaminganywhere.Controller.Queue.{MsgQueue, msgsize_at, msg_at, advance, sizeof_queuemsg}

-- the unit after unit `i`
abbrev pub after : ℕ → ℕ → ℕ
after count i = if suc i == count then 0 else suc i

-- the unit `n` units further on, for `n` up to `count`
abbrev pub ahead : ℕ → ℕ → ℕ → ℕ
ahead count i zero = i
ahead count i (suc n) = ahead count (after count i) n

-- the messages in `n` units from unit `i` on
abbrev pub messages : List ℕ → ℕ → ℕ → ℕ → ℕ → List (List ℕ)
messages buf unit count i zero = []
messages buf unit count i (suc n) =
    msg_at buf (i * unit) ∷ messages buf unit count (after count i) n

-- each of these units holds a size that fits
abbrev pub Fits : List ℕ → ℕ → ℕ → ℕ → ℕ → Type 0
Fits buf unit count i zero = Unit {0}
Fits buf unit count i (suc n) =
    (msgsize_at buf (i * unit) + sizeof_queuemsg ≤ unit) × Fits buf unit count (after count i) n

pub record Layout (q : MsgQueue) (count first used : ℕ) : Type 0 where
  pub room : sizeof_queuemsg ≤ q.qunit
  pub size : q.qsize ≡ count * q.qunit
  pub memory : length q.qbuffer ≡ q.qsize
  pub first_in : first < count
  pub one_free : used < count
  pub head : q.qhead ≡ first * q.qunit
  pub tail : q.qtail ≡ ahead count first used * q.qunit
  pub fits : Fits q.qbuffer q.qunit count first used

pub after-lt : (count i : ℕ) → i < count → after count i < count
after-lt count i h = ground arith

pub ahead-lt : (count i n : ℕ) → i < count → ahead count i n < count
ahead-lt count i zero h = h
ahead-lt count i (suc n) h = ahead-lt count (after count i) n (after-lt count i h)

pub ahead-suc : (count i n : ℕ) → ahead count i (suc n) ≡ after count (ahead count i n)
ahead-suc count i zero = refl
ahead-suc count i (suc n) = ahead-suc count (after count i) n

-- Where `n` steps lead, as a number.
pub ahead_lem :
    (count i n : ℕ)
    → i < count
    → n ≤ count
    → (ahead count i n ≡ i + n) × (i + n < count)
      ⊎ (ahead count i n + count ≡ i + n) × (count ≤ i + n)
ahead_lem count i zero h k = ground arith
ahead_lem count i (suc n) h k =
    ground (arith, ahead_lem count i n, ahead-suc count i n, ahead-lt count i n)

-- Positions are equal only where the units are.
pub unit_injective : (u i j : ℕ) → 0 < u → i * u ≡ j * u → i ≡ j
unit_injective u i j h e = grind arith

pub unit_step : (u i j : ℕ) → i < j → i * u + u ≤ j * u
unit_step u i j h = omega (arith, mul-le-mul_right {m = suc i} {n = j} u h, suc-mul i u)

-- Another unit lies wholly before or wholly behind.
pub unit_disjoint : (u i j : ℕ) → i ≢ j → (i * u + u ≤ j * u) ⊎ (j * u + u ≤ i * u)
unit_disjoint u i j ne = elim (dec_lt i j) [
  | yes h ↦ inl (unit_step u i j h)
  | no h ↦ inr (unit_step u j i (omega arith))
]

-- The code's step on positions is the step on units.
pub advance-after :
    (q : MsgQueue) (count i : ℕ)
    → 0 < q.qunit
    → q.qsize ≡ count * q.qunit
    → i < count
    → advance q (i * q.qunit) ≡ after count i * q.qunit
advance-after q count i pos s h =
    ground (arith, suc-mul i q.qunit, unit_injective q.qunit (suc i) count)

-- No unit of the window is the unit `w`.
abbrev pub Misses : ℕ → ℕ → ℕ → ℕ → Type 0
Misses count i zero w = Unit {0}
Misses count i (suc n) w = (i ≢ w) × Misses count (after count i) n w

pub Misses-ahead :
    (count i n m : ℕ) → i < count → n ≤ m → m < count → Misses count i n (ahead count i m)
Misses-ahead count i zero m h k l = tt
Misses-ahead count i (suc n) zero h k l = absurd (omega arith)
Misses-ahead count i (suc n) (suc m) h k l = (
  ground (arith, ahead_lem count i (suc m)),
  Misses-ahead count (after count i) n m (after-lt count i h) (omega arith) (omega arith),
)

module _ (buf : List ℕ) (unit count : ℕ) where
  pub messages-suc :
      (i n : ℕ)
      → messages buf unit count i (suc n)
        ≡ messages buf unit count i n ++ (msg_at buf (ahead count i n * unit) ∷ [])
  messages-suc i zero = refl
  messages-suc i (suc n) = ap (◌∷◌ (msg_at buf (i * unit))) (messages-suc (after count i) n)

  pub Fits-suc :
      (i n : ℕ)
      → Fits buf unit count i n
      → msgsize_at buf (ahead count i n * unit) + sizeof_queuemsg ≤ unit
      → Fits buf unit count i (suc n)
  Fits-suc i zero f h = (h, tt)
  Fits-suc i (suc n) f h = (f.0, Fits-suc (after count i) n f.1 h)

-- Going round comes back to the start after `count` steps, and not before.
pub ahead_return :
    (count i n : ℕ) → i < count → n ≤ count → ahead count i n ≡ i → (n ≡ 0) ⊎ (n ≡ count)
ahead_return count i n h k e = ground (arith, ahead_lem count i n)

pub ahead_round : (count i : ℕ) → i < count → ahead count i count ≡ i
ahead_round count i h = ground (arith, ahead_lem count i count)
