-- ===== src/BatteryCare/Hold.antt =====
-- The measured hold over a sequence of readings.
use mimirheim.Prelude.{
  ℕ, ◌+◌, ◌≡◌, refl, ◌∙◌, true, false, Option, none, some, List, [], ◌∷◌, ◌++◌, leb, arith, All,
  if◌then◌else◌,
}
use mimirheim.Prelude.Float.{Float}
use mimirheim.BatteryCare.{
  SocRatchetConfig, full_threshold_kwh, observe_full_charge, track_full_charge,
}

pub record Reading (F : Type 0) : Type 0 where
  pub soc_kwh : F
  pub at : ℕ

module _ {F : Type 0} ⦃f : Float F⦄ (config : SocRatchetConfig F) (capacity_kwh : F) where
  -- The caller threads the run from reading to reading; this is the run after all of them.
  pub run_after : Option ℕ → List (Reading F) → Option ℕ
  run_after run [] = run
  run_after run (r ∷ rs) = run_after (track_full_charge config capacity_kwh r.soc_kwh r.at run).0 rs

  -- The reading is at or above the threshold.
  abbrev pub AtTop : Reading F → Type 0
  AtTop r = f.le (full_threshold_kwh config capacity_kwh) r.soc_kwh ≡ true

  abbrev pub BelowTop : Reading F → Type 0
  BelowTop r = f.le (full_threshold_kwh config capacity_kwh) r.soc_kwh ≡ false

  run_after-append :
      (run : Option ℕ) (rs ss : List (Reading F))
      → run_after run (rs ++ ss) ≡ run_after (run_after run rs) ss
  unfolding run_after
  run_after-append run [] ss = refl
  run_after-append run (r ∷ rs) ss =
      run_after-append (track_full_charge config capacity_kwh r.soc_kwh r.at run).0 rs ss

  module _ (on : config.enabled ≡ true) where
    below_ends :
        (r : Reading F) (run : Option ℕ)
        → BelowTop r
        → (track_full_charge config capacity_kwh r.soc_kwh r.at run).0 ≡ none
    unfolding track_full_charge observe_full_charge
    below_ends r none h = ground arith
    below_ends r (some t) h = ground arith

    top_starts :
        (r : Reading F)
        → AtTop r
        → (track_full_charge config capacity_kwh r.soc_kwh r.at none).0 ≡ some r.at
    unfolding track_full_charge observe_full_charge
    top_starts r h = ground arith

    top_continues :
        (r : Reading F) (t : ℕ)
        → AtTop r
        → (track_full_charge config capacity_kwh r.soc_kwh r.at (some t)).0 ≡ some t
    unfolding track_full_charge observe_full_charge
    top_continues r t h = ground arith

    stays : (t : ℕ) (rs : List (Reading F)) → All AtTop rs → run_after (some t) rs ≡ some t
    unfolding run_after
    stays t [] h = refl
    stays t (r ∷ rs) h = rw (top_continues r t h.0) (stays t rs h.1)

    recorded :
        (r : Reading F) (t : ℕ)
        → (track_full_charge config capacity_kwh r.soc_kwh r.at (some t)).1
          ≡ (if leb (t + config.hold) r.at then some r.at else none)
    unfolding track_full_charge observe_full_charge
    recorded r t = ground arith

    -- Whatever was read before, after a reading below the threshold and then only readings at or
    -- above it, of which `first` is the first, the run in progress starts at `first`; and the next
    -- reading, wherever it lies, records a full charge at its own time exactly if `hold_hours`
    -- have passed since `first`.
    pub track_full_charge_hold :
        (run : Option ℕ) (before : List (Reading F)) (below first : Reading F)
        (top : List (Reading F)) (next : Reading F)
        → BelowTop below
        → AtTop first
        → All AtTop top
        → let now_run = run_after run (before ++ below ∷ first ∷ top) in
          (now_run ≡ some first.at)
          × ((track_full_charge config capacity_kwh next.soc_kwh next.at now_run).1
              ≡ (if leb (first.at + config.hold) next.at then some next.at else none))
    unfolding run_after
    track_full_charge_hold run before below first top next b h hs =
        let e : run_after run (before ++ below ∷ first ∷ top) ≡ some first.at =
          run_after-append run before (below ∷ first ∷ top)
          ∙ rw (below_ends below (run_after run before) b, top_starts first h)
              (stays first.at top hs) in
        (e, rw e (recorded next first.at))
