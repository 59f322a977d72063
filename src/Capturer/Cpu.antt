-- ===== src/Capturer/Cpu.antt =====
-- CPUCapturer of capturer/cpu.go. The times and percentages come from gopsutil; `none` stands for
-- the NaN that cpuUsagePct returns.
pub mod Report
pub mod Verbose
pub mod Bounds
pub mod Cold
use mini_edr.Prelude.World.{World, time_now}
use mini_edr.Prelude.Fallible.{Fallible, value, failure}
use mini_edr.Prelude.{
  pos, is_some, Text, Bool, true, false, ◌||◌, List, [], ◌∷◌, Option, none, some, if◌then◌else◌,
  Float64,
}
use mini_edr.Capturer.Info.{Time, count_float}

-- cpu.TimesStat
pub record TimesStat (F : Type 0) : Type 0 where
  pub user : F
  pub system : F
  pub idle : F
  pub nice : F
  pub iowait : F
  pub irq : F
  pub softirq : F
  pub steal : F
  pub guest : F
  pub guest_nice : F

pub record CpuSnapshot (F : Type 0) : Type 0 where
  pub at : Time
  pub per_core : List (TimesStat F)
  pub total : List (TimesStat F)
  pub total_pct : F
  pub per_core_pct : List F
  pub has_percent : Bool
  pub has_per_core : Bool

-- TimesFn and PercentFn: a value or an error, and the world after the call; `none` is a nil function.
-- PercentFn is called with the interval 0 and for each core.
pub record CpuCapturer (F E : Type 0) : Type 0 where
  pub times_fn : Option (Bool → World E → Fallible (List (TimesStat F)) × World E)
  pub percent_fn : Option (World E → Fallible (List F) × World E)
  pub prev : Option (CpuSnapshot F)
  pub curr : Option (CpuSnapshot F)
  pub percent_warm : Bool

pub data CpuError : Type 0 where
  no_times_fn : CpuError
  per_core_failed : Text → CpuError
  total_failed : Text → CpuError

module _ {F : Type 0} ⦃fl : Float64 F⦄ where
  -- totalCPUTime
  unfoldable pub total_cpu_time : TimesStat F → F
  total_cpu_time t =
      fl.add
        (fl.add
          (fl.add
            (fl.add
              (fl.add (fl.add (fl.add (fl.add (fl.add t.user t.nice) t.system) t.idle) t.iowait)
                t.irq)
              t.softirq)
            t.steal)
          t.guest)
        t.guest_nice

  -- `if pct < 0 { pct = 0 }; if pct > 100 { pct = 100 }`
  unfoldable pub clamp_percent : F → F
  clamp_percent pct =
      let at_least_zero = if fl.lt pct (fl.of_int (pos 0)) then fl.of_int (pos 0) else pct in
      if fl.lt (fl.of_int (pos 100)) at_least_zero then fl.of_int (pos 100) else at_least_zero

  -- The share of the time that was not idle.
  unfoldable pub busy_percent : F → F → Option F
  busy_percent total_delta idle_delta =
      let pct = fl.mul (fl.div (fl.sub total_delta idle_delta) total_delta) (fl.of_int (pos 100)) in
      if fl.is_nan pct || fl.is_inf pct then none else some (clamp_percent pct)

  -- cpuUsagePct
  unfoldable pub cpu_usage_pct : TimesStat F → TimesStat F → Option F
  cpu_usage_pct a b =
      let ta = total_cpu_time a in
      let tb = total_cpu_time b in
      let ia = fl.add a.idle a.iowait in
      let ib = fl.add b.idle b.iowait in
      if fl.lt tb ta
      then none
      else if fl.le (fl.sub tb ta) (fl.of_int (pos 0))
      then none
      else if fl.lt ib ia
      then none
      else busy_percent (fl.sub tb ta) (fl.sub ib ia)

  unfoldable pub sum_floats : F → List F → F
  sum_floats sum [] = sum
  sum_floats sum (v ∷ pct) = sum_floats (fl.add sum v) pct

  -- The snapshot without percentages
  unfoldable pub times_snapshot : Time → List (TimesStat F) → List (TimesStat F) → CpuSnapshot F
  times_snapshot at per tot = record {
    at = at;
    per_core = per;
    total = tot;
    total_pct = fl.of_int (pos 0);
    per_core_pct = [];
    has_percent = false;
    has_per_core = false;
  }

  -- The percentages of a call of PercentFn, which are used from the second call on.
  unfoldable pub add_percent : Bool → Fallible (List F) → CpuSnapshot F → CpuSnapshot F × Bool
  add_percent warm (failure err) snap = (snap, warm)
  add_percent warm (value []) snap = (snap, warm)
  add_percent false (value (v ∷ pct)) snap = (snap, true)
  add_percent true (value (v ∷ pct)) snap = (
    record snap {
      per_core_pct = v ∷ pct;
      has_per_core = true;
      total_pct = fl.div (sum_floats (fl.of_int (pos 0)) (v ∷ pct)) (count_float (v ∷ pct));
      has_percent = true;
    },
    true,
  )

  module _ {E : Type 0} where
    unfoldable pub read_percent :
        CpuCapturer F E → CpuSnapshot F → World E → (CpuSnapshot F × Bool) × World E
    read_percent c snap w = elim c.percent_fn [
      | none ↦ ((snap, c.percent_warm), w)
      | some f ↦ let (pct, w') = f w in (add_percent c.percent_warm pct snap, w')
    ]

    -- Capture after TimesFn has returned twice.
    unfoldable pub take_cpu :
        CpuCapturer F E
        → List (TimesStat F)
        → Fallible (List (TimesStat F))
        → World E
        → Option CpuError × CpuCapturer F E × World E
    take_cpu c per (failure err) w = (some (total_failed err), c, w)
    take_cpu c per (value tot) w =
        let (at, w') = time_now w in
        let ((snap, warm), w'') = read_percent c (times_snapshot at per tot) w' in
        (none, record c { prev = c.curr; curr = some snap; percent_warm = warm }, w'')

    unfoldable pub with_per_core :
        CpuCapturer F E
        → (Bool → World E → Fallible (List (TimesStat F)) × World E)
        → Fallible (List (TimesStat F))
        → World E
        → Option CpuError × CpuCapturer F E × World E
    with_per_core c f (failure err) w = (some (per_core_failed err), c, w)
    with_per_core c f (value per) w = let (tot, w') = f false w in take_cpu c per tot w'

    -- (*CPUCapturer).Capture
    unfoldable pub capture_cpu :
        CpuCapturer F E → World E → Option CpuError × CpuCapturer F E × World E
    capture_cpu c w = elim c.times_fn [
      | none ↦ (some no_times_fn, c, w)
      | some f ↦ let (per, w') = f true w in with_per_core c f per w'
    ]

    -- IsWarm
    abbrev pub cpu_is_warm : CpuCapturer F E → Bool
    cpu_is_warm c = is_some c.prev
