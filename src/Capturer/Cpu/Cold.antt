-- ===== src/Capturer/Cpu/Cold.antt =====
-- The first capture of CPUCapturer, capturer/cpu.go.
use mini_edr.Prelude.{
  nat_eq, Text, Bool, true, false, List, [], ◌∷◌, Option, none, some, Float64, Option-cases, inl,
  inr, ◌≡◌, refl, ap, ◌∙◌, sym, subst,
}
use mini_edr.Prelude.World.{World, time_now}
use mini_edr.Detection.Rules.{eval_cpu_high, metric}
use mini_edr.Prelude.Fallible.{Fallible, value, failure}
use mini_edr.Capturer.Info.{Time}
use mini_edr.Capturer.Cpu.{
  CpuError, no_times_fn, TimesStat, CpuSnapshot, CpuCapturer, capture_cpu, with_per_core, take_cpu,
  read_percent, add_percent, times_snapshot,
}
use mini_edr.Capturer.Cpu.Report.{
  usage_since, total_usage, usages_since, core_usages, core_metrics, total_metrics, cpu_metrics,
  cpu_report, cpu_info,
}

module _ {F : Type 0} ⦃fl : Float64 F⦄ where
  add_percent-cold :
      (r : Fallible (List F)) (snap : CpuSnapshot F) → (add_percent false r snap).0 ≡ snap
  unfolding add_percent
  add_percent-cold (failure err) snap = refl
  add_percent-cold (value []) snap = refl
  add_percent-cold (value (v ∷ pct)) snap = refl

  cold_report :
      (rfc3339 : Time → Text) (at : Time) (per tot : List (TimesStat F))
      → (cpu_report rfc3339 none (times_snapshot at per tot)).metrics ≡ none
  unfolding cpu_report cpu_metrics total_usage usage_since core_usages usages_since times_snapshot
      total_metrics core_metrics
  cold_report rfc3339 at per tot = refl

  module _ {E : Type 0} (rfc3339 : Time → Text) where
    -- A capturer that has shown nothing yet
    abbrev Shows : CpuCapturer F E → Type 0
    Shows c = (cpu_info rfc3339 c).metrics ≡ none

    new-Shows : (c : CpuCapturer F E) → c.curr ≡ none → Shows c
    unfolding cpu_info
    new-Shows c no_curr = rw no_curr

    read_percent-some :
        (c : CpuCapturer F E) (f : World E → Fallible (List F) × World E) (snap : CpuSnapshot F)
        (w : World E)
        → c.percent_fn ≡ some f
        → read_percent c snap w ≡ (add_percent c.percent_warm (f w).0 snap, (f w).1)
    unfolding read_percent
    read_percent-some c f snap w found = rw found

    read_percent-cold :
        (c : CpuCapturer F E) (snap : CpuSnapshot F) (w : World E)
        → c.percent_warm ≡ false
        → (read_percent c snap w).0.0 ≡ snap
    unfolding read_percent
    read_percent-cold c snap w cold = elim (Option-cases c.percent_fn) [
      | inl missing ↦ rw missing
      | inr (f, found) ↦
          ap (λ (r : (CpuSnapshot F × Bool) × World E). r.0.0) (read_percent-some c f snap w found)
          ∙ subst (λ warm. (add_percent warm (f w).0 snap).0 ≡ snap) (sym cold)
              (add_percent-cold (f w).0 snap)
    ]

    take_cpu-Shows :
        (c : CpuCapturer F E) (per : List (TimesStat F)) (tot : Fallible (List (TimesStat F)))
        (w : World E)
        → c.curr ≡ none
        → c.percent_warm ≡ false
        → Shows (take_cpu c per tot w).1
    unfolding take_cpu cpu_info
    take_cpu-Shows c per (failure err) w no_curr cold = new-Shows c no_curr
    take_cpu-Shows c per (value tot) w no_curr cold =
        let (at, w') = time_now w in
        let same = read_percent-cold c (times_snapshot at per tot) w' cold in
        subst
          (λ (s : CpuSnapshot F × Option (CpuSnapshot F)).
            (cpu_report rfc3339 s.1 s.0).metrics ≡ none)
          (λ i. (sym same i, sym no_curr i)) (cold_report rfc3339 at per tot)

    with_per_core-Shows :
        (c : CpuCapturer F E) (f : Bool → World E → Fallible (List (TimesStat F)) × World E)
        (per : Fallible (List (TimesStat F))) (w : World E)
        → c.curr ≡ none
        → c.percent_warm ≡ false
        → Shows (with_per_core c f per w).1
    unfolding with_per_core
    with_per_core-Shows c f (failure err) w no_curr cold = new-Shows c no_curr
    with_per_core-Shows c f (value per) w no_curr cold =
        take_cpu-Shows c per (f false w).0 (f false w).1 no_curr cold

    capture_cpu-none :
        (c : CpuCapturer F E) (w : World E)
        → c.times_fn ≡ none
        → capture_cpu c w ≡ (some no_times_fn, c, w)
    unfolding capture_cpu
    capture_cpu-none c w missing = rw missing

    capture_cpu-some :
        (c : CpuCapturer F E) (f : Bool → World E → Fallible (List (TimesStat F)) × World E)
        (w : World E)
        → c.times_fn ≡ some f
        → capture_cpu c w ≡ with_per_core c f (f true w).0 (f true w).1
    unfolding capture_cpu
    capture_cpu-some c f w found = rw found

    capture_cpu-Shows :
        (c : CpuCapturer F E) (w : World E)
        → c.curr ≡ none
        → c.percent_warm ≡ false
        → Shows (capture_cpu c w).1
    unfolding capture_cpu
    capture_cpu-Shows c w no_curr cold = elim (Option-cases c.times_fn) [
      | inl missing ↦
          subst (λ (r : Option CpuError × CpuCapturer F E × World E). Shows r.1)
            (sym (capture_cpu-none c w missing)) (new-Shows c no_curr)
      | inr (f, found) ↦
          subst (λ (r : Option CpuError × CpuCapturer F E × World E). Shows r.1)
            (sym (capture_cpu-some c f w found))
            (with_per_core-Shows c f (f true w).0 (f true w).1 no_curr cold)
    ]

  -- The first capture of a new capturer sets off no alert on the processor, whatever TimesFn and
  -- PercentFn give and whatever the threshold is: a percentage needs a capture to start from.
  pub eval_cpu_high-cold :
      {E : Type 0} (rfc3339 : Time → Text) (c : CpuCapturer F E) (w : World E) (threshold : F)
      → c.curr ≡ none
      → c.percent_warm ≡ false
      → eval_cpu_high threshold (cpu_info rfc3339 (capture_cpu c w).1) ≡ []
  unfolding eval_cpu_high metric
  eval_cpu_high-cold rfc3339 c w threshold no_curr cold =
      rw (capture_cpu-Shows rfc3339 c w no_curr cold)
