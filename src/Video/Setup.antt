-- ===== src/Video/Setup.antt =====
-- A setup that succeeds has every channel's sizes and pipeline in place.
use gaminganywhere.Base.{
  ℕ, ◌+◌, ◌<◌, ◌≤◌, ◌≡◌, ◌≢◌, refl, sym, ap, ◌∙◌, arith, if◌then◌else◌, Bool, true, false, List, [],
  ◌∷◌, none, some, length, get_elem?, Bool-cases, Option-cases, get_elem?-set_self,
  get_elem?-set_ne, length-set, inl, inr,
}
use mathlib.Core.Path.{subst}
use gaminganywhere.Conf.Maps.{Bytes, eqb}
use gaminganywhere.Conf.Maps.Laws.{eqb_refl, eqb→eq}
use gaminganywhere.Pipeline.Registry.{Registry, do_register, lookup}
use gaminganywhere.Pipeline.Registry.Laws.{lookup-do_register, do_register-taken}
use gaminganywhere.Video.{
  Config, Answers, Source, with_channel, with_privdata, setup_channel, setup_loop, setup_ex,
  channel_max,
}

-- The arrays have an element for each channel.
pub record IsSource (s : Source) : Type 0 where
  pub widths : length s.width ≡ channel_max
  pub heights : length s.height ≡ channel_max
  pub strides : length s.stride ≡ channel_max
  pub pipes : length s.pipe ≡ channel_max

-- Channel `i` is set up as configured, and its pipeline is found under its name.
pub record IsChannel (name : ℕ → Bytes) (i : ℕ) (c : Config) (pipe : ℕ) (s : Source) : Type 0 where
  pub width : get_elem? s.width i ≡ some c.width
  pub height : get_elem? s.height i ≡ some c.height
  pub stride : get_elem? s.stride i ≡ some c.stride
  pub pipe_lem : get_elem? s.pipe i ≡ some (some pipe)
  pub found : lookup s.registry (name i) ≡ some pipe

abbrev filled : (ℕ → Bytes) → ℕ → Config → ℕ → Source → Source
filled name idx c pipe s =
    let u = with_privdata idx c pipe (with_channel idx c pipe s) in
    record u { registry = (do_register s.registry (name idx) pipe).1 }

channel-true :
    (name : ℕ → Bytes) (idx : ℕ) (c : Config) (a : Answers) (s : Source)
    → (setup_channel name idx c a s).0 ≡ true
    → ((setup_channel name idx c a s).1 ≡ filled name idx c a.pipe s)
      × ((do_register s.registry (name idx) a.pipe).0 ≡ true)
unfolding setup_channel
channel-true name idx c a s h = ground arith

-- A name that could be registered was free.
was_free :
    (r : Registry) (q : Bytes) (pipe : ℕ) → (do_register r q pipe).0 ≡ true → lookup r q ≡ none
was_free r q pipe ok = elim (Option-cases (lookup r q)) [
  | inl free ↦ free
  | inr (p, taken) ↦
      absurd (cc (sym ok ∙ ap (λ (x : Bool × Registry). x.0) (do_register-taken r q pipe p taken)))
]

module _ (name : ℕ → Bytes) (idx : ℕ) (c : Config) (pipe : ℕ) (s : Source)
    (ok : (do_register s.registry (name idx) pipe).0 ≡ true) where
  found_now :
      (q : Bytes)
      → lookup (do_register s.registry (name idx) pipe).1 q
        ≡ (if eqb (name idx) q then some pipe else lookup s.registry q)
  found_now q =
      (lookup-do_register s.registry (name idx) pipe q (was_free s.registry (name idx) pipe ok)).1

  filled-IsSource : IsSource s → IsSource (filled name idx c pipe s)
  filled-IsSource v = record {
    widths = length-set s.width idx c.width ∙ v.widths;
    heights = length-set s.height idx c.height ∙ v.heights;
    strides = length-set s.stride idx c.stride ∙ v.strides;
    pipes = length-set s.pipe idx (some pipe) ∙ v.pipes;
  }

  filled-IsChannel :
      IsSource s → idx < channel_max → IsChannel name idx c pipe (filled name idx c pipe s)
  filled-IsChannel v small = record {
    width = get_elem?-set_self s.width idx c.width (omega (arith, v.widths));
    height = get_elem?-set_self s.height idx c.height (omega (arith, v.heights));
    stride = get_elem?-set_self s.stride idx c.stride (omega (arith, v.strides));
    pipe_lem = get_elem?-set_self s.pipe idx (some pipe) (omega (arith, v.pipes));
    found = found_now (name idx) ∙ rw (eqb_refl (name idx)) refl;
  }

  other_name : (j p : ℕ) → lookup s.registry (name j) ≡ some p → eqb (name idx) (name j) ≡ false
  other_name j p there = elim (Bool-cases (eqb (name idx) (name j))) [
    | inr e ↦ e
    | inl same ↦ absurd (
        cc (
          sym there
          ∙ sym (ap (lookup s.registry) (eqb→eq (name idx) (name j) same))
          ∙ was_free s.registry (name idx) pipe ok))
  ]

  filled-keeps :
      (j : ℕ) (d : Config) (p : ℕ)
      → j ≢ idx
      → IsChannel name j d p s
      → IsChannel name j d p (filled name idx c pipe s)
  filled-keeps j d p ne h = record {
    width = get_elem?-set_ne s.width idx j c.width ne ∙ h.width;
    height = get_elem?-set_ne s.height idx j c.height ne ∙ h.height;
    stride = get_elem?-set_ne s.stride idx j c.stride ne ∙ h.stride;
    pipe_lem = get_elem?-set_ne s.pipe idx j (some pipe) ne ∙ h.pipe_lem;
    found = found_now (name j) ∙ rw (other_name j p h.found) h.found;
  }

abbrev pub AllChannels : (ℕ → Bytes) → ℕ → List (Config × Answers) → Source → Type 0
AllChannels name idx [] s = Unit
AllChannels name idx ((c, a) ∷ cs) s =
    IsChannel name idx c a.pipe s × AllChannels name (idx + 1) cs s

-- A round that goes on has filled its channel.
loop-step :
    (name : ℕ → Bytes) (idx : ℕ) (c : Config) (a : Answers) (cs : List (Config × Answers))
    (s : Source)
    → (setup_loop name idx ((c, a) ∷ cs) s).0 ≡ true
    → ((do_register s.registry (name idx) a.pipe).0 ≡ true)
      × (setup_loop name idx ((c, a) ∷ cs) s
          ≡ setup_loop name (idx + 1) cs (filled name idx c a.pipe s))
unfolding setup_loop
loop-step name idx c a cs s h = elim (Bool-cases (setup_channel name idx c a s).0) [
  | inl ok ↦
      let t = channel-true name idx c a s ok in
      (t.1, rw (ok, setup_loop) (ap (setup_loop name (idx + 1) cs) t.0))
  | inr failed ↦
      let stopped : (setup_loop name idx ((c, a) ∷ cs) s).0 ≡ false =
        rw (failed, setup_loop) refl in
      absurd (cc (sym h ∙ stopped))
]

module _ (name : ℕ → Bytes) where
  loop-keeps :
      (idx : ℕ) (cs : List (Config × Answers)) (s : Source) (j : ℕ) (d : Config) (p : ℕ)
      → (setup_loop name idx cs s).0 ≡ true
      → j < idx
      → IsChannel name j d p s
      → IsChannel name j d p (setup_loop name idx cs s).1
  unfolding setup_loop
  loop-keeps idx [] s j d p ok lt h = h
  loop-keeps idx ((c, a) ∷ cs) s j d p ok lt h =
      let step = loop-step name idx c a cs s ok in
      let t = filled name idx c a.pipe s in
      subst (IsChannel name j d p) (sym (ap (λ (x : Bool × Source). x.1) step.1)) (
        loop-keeps (idx + 1) cs t j d p (sym (ap (λ (x : Bool × Source). x.0) step.1) ∙ ok)
          (omega arith) (filled-keeps name idx c a.pipe s step.0 j d p (omega arith) h))

  loop-AllChannels :
      (idx : ℕ) (cs : List (Config × Answers)) (s : Source)
      → (setup_loop name idx cs s).0 ≡ true
      → IsSource s
      → idx + length cs ≤ channel_max
      → AllChannels name idx cs (setup_loop name idx cs s).1
  unfolding setup_loop
  loop-AllChannels idx [] s ok v room = tt
  loop-AllChannels idx ((c, a) ∷ cs) s ok v room =
      let step = loop-step name idx c a cs s ok in
      let t = filled name idx c a.pipe s in
      let rest_ok : (setup_loop name (idx + 1) cs t).0 ≡ true =
        sym (ap (λ (x : Bool × Source). x.0) step.1) ∙ ok in
      subst (AllChannels name idx ((c, a) ∷ cs)) (sym (ap (λ (x : Bool × Source). x.1) step.1)) (
        loop-keeps (idx + 1) cs t idx c a.pipe rest_ok (omega arith)
            (filled-IsChannel name idx c a.pipe s step.0 v (omega arith)),
        loop-AllChannels (idx + 1) cs t rest_ok (filled-IsSource name idx c a.pipe s step.0 v)
            (omega arith),
      )

-- The count of the channels is another field.
AllChannels-count :
    (name : ℕ → Bytes) (idx n : ℕ) (cs : List (Config × Answers)) (s : Source)
    → AllChannels name idx cs s
    → AllChannels name idx cs (record s { channels = n })
AllChannels-count name idx n [] s all = tt
AllChannels-count name idx n ((c, a) ∷ cs) s (h, all) = (
  record {
    width = h.width;
    height = h.height;
    stride = h.stride;
    pipe_lem = h.pipe_lem;
    found = h.found;
  },
  AllChannels-count name (idx + 1) n cs s all,
)

setup_ex-true :
    (name : ℕ → Bytes) (cs : List (Config × Answers)) (s : Source)
    → (setup_ex name cs s).0 ≡ true
    → (length cs ≤ channel_max)
      × ((setup_loop name 0 cs s).0 ≡ true)
      × ((setup_ex name cs s).1 ≡ record (setup_loop name 0 cs s).1 { channels = length cs })
unfolding setup_ex
setup_ex-true name cs s ok = (ground arith, ground arith, ground arith)

-- After a video_source_setup_ex that succeeds, on arrays of 8 elements, there are as many channels as
-- configurations, each channel has its width, height, stride and pipeline, and the pipeline is found
-- under the channel's name.
pub setup_ex-AllChannels :
    (name : ℕ → Bytes) (cs : List (Config × Answers)) (s : Source)
    → IsSource s
    → (setup_ex name cs s).0 ≡ true
    → ((setup_ex name cs s).1.channels ≡ length cs) × AllChannels name 0 cs (setup_ex name cs s).1
setup_ex-AllChannels name cs s v ok =
    let t = setup_ex-true name cs s ok in
    (
      ap (λ (x : Source). x.channels) t.2,
      subst (AllChannels name 0 cs) (sym t.2) (
          AllChannels-count name 0 (length cs) cs (setup_loop name 0 cs s).1
            (loop-AllChannels name 0 cs s t.1 v (omega (arith, t.0)))),
    )
