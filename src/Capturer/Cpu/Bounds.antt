-- ===== src/Capturer/Cpu/Bounds.antt =====
-- The metrics that CPUCapturer of capturer/cpu.go computes from times.
use mini_edr.Prelude.{
  ◌||◌, ℕ, suc, ◌+◌, length, get_elem?, ◌==◌, nat_eq, pos, Text, bytes, true, false, List, [], ◌∷◌,
  Option, none, some, All, All-append, All-imp, Float64, Bool-cases, inl, inr, ◌≡◌, ◌⊎◌,
  Option-cases, ◌∙◌, ap, refl, arith,
}
use mini_edr.Prelude.Float.{ComparesInts, PropagatesNan}
use mini_edr.Capturer.Cpu.{
  total_cpu_time, TimesStat, CpuSnapshot, cpu_usage_pct, busy_percent, clamp_percent,
}
use mini_edr.Capturer.Cpu.Report.{
  single_usage, usage_since, total_usage, usages, usages_since, core_usages, core_metrics,
  total_metrics, cpu_metrics, core_key,
}

module _ {F : Type 0} ⦃fl : Float64 F⦄ where
  -- `0 <= x && x <= 100`, which NaN does not meet
  abbrev pub IsPercent : F → Type 0
  IsPercent x = (fl.le (fl.of_int (pos 0)) x ≡ true) × (fl.le x (fl.of_int (pos 100)) ≡ true)

  -- The total time has grown, and the idle time has not fallen.
  pub record Advances (a b : TimesStat F) : Type 0 where
    pub no_reset : fl.le (total_cpu_time a) (total_cpu_time b) ≡ true
    pub grew : fl.lt (fl.of_int (pos 0)) (fl.sub (total_cpu_time b) (total_cpu_time a)) ≡ true
    pub idle_no_reset : fl.le (fl.add a.idle a.iowait) (fl.add b.idle b.iowait) ≡ true

  -- A usage between two times
  pub record IsUsage (a b : TimesStat F) (u : F) : Type 0 where
    pub advances : Advances a b
    pub is_percent : IsPercent u
    pub is_computed : cpu_usage_pct a b ≡ some u

  -- The times of a core in both snapshots, and its usage
  pub record IsCoreUsage (ps qs : List (TimesStat F)) (k : ℕ) (u : F) : Type 0 where
    pub before : TimesStat F
    pub now : TimesStat F
    pub at_before : get_elem? ps k ≡ some before
    pub at_now : get_elem? qs k ≡ some now
    pub is_usage : IsUsage before now u

  -- The usage of all cores together, if both snapshots have it
  pub record IsTotalUsage (ps qs : List (TimesStat F)) (u : F) : Type 0 where
    pub before : TimesStat F
    pub now : TimesStat F
    pub only_before : ps ≡ before ∷ []
    pub only_now : qs ≡ now ∷ []
    pub is_usage : IsUsage before now u

  -- The key of a metric names the times that its value comes from.
  abbrev pub IsMeasured : Option (CpuSnapshot F) → CpuSnapshot F → Text × F → Type 0
  IsMeasured none curr e = ⊥
  IsMeasured (some prev) curr e =
      ((e.0 ≡ bytes "cpu.total_pct") × IsTotalUsage prev.total curr.total e.1)
      ⊎ ((i : ℕ) × (e.0 ≡ core_key i) × IsCoreUsage prev.per_core curr.per_core i e.1)

  module _ (compares : ComparesInts F) (nans : PropagatesNan F) where
    -- The numbers that a usage comes from are no NaN.
    busy_percent-numbers :
        (total idle u : F)
        → busy_percent total idle ≡ some u
        → fl.is_nan total || fl.is_nan idle ≡ false
    unfolding busy_percent
    busy_percent-numbers total idle u h =
        let busy = fl.sub total idle in
        let share = fl.div busy total in
        ground (
          arith,
          h,
          nans.nan_sub total idle,
          nans.nan_div busy total,
          nans.nan_mul share (fl.of_int (pos 100)),
        )

    clamp_percent-IsPercent : (pct : F) → fl.is_nan pct ≡ false → IsPercent (clamp_percent pct)
    unfolding clamp_percent
    clamp_percent-IsPercent pct number =
        let zero_number = compares.is_nan-of_int (pos 0) in
        let hundred_number = compares.is_nan-of_int (pos 100) in
        ground (
          arith,
          compares.lt-of_int 0 0,
          compares.lt-of_int 0 100,
          compares.lt-of_int 100 0,
          compares.lt-of_int 100 100,
          compares.le-not_lt (fl.of_int (pos 0)) (fl.of_int (pos 0)) zero_number zero_number,
          compares.le-not_lt (fl.of_int (pos 0)) (fl.of_int (pos 100)) zero_number hundred_number,
          compares.le-not_lt (fl.of_int (pos 100)) (fl.of_int (pos 100)) hundred_number
              hundred_number,
          compares.le-not_lt (fl.of_int (pos 0)) pct zero_number number,
          compares.le-not_lt pct (fl.of_int (pos 100)) number hundred_number,
        )

    busy_percent-IsPercent : (total idle u : F) → busy_percent total idle ≡ some u → IsPercent u
    unfolding busy_percent
    busy_percent-IsPercent total idle u h =
        let pct = fl.mul (fl.div (fl.sub total idle) total) (fl.of_int (pos 100)) in
        ground (arith, h, clamp_percent-IsPercent pct)

    cpu_usage_pct-IsUsage : (a b : TimesStat F) (u : F) → cpu_usage_pct a b ≡ some u → IsUsage a b u
    unfolding cpu_usage_pct
    cpu_usage_pct-IsUsage a b u h =
        let ta = total_cpu_time a in
        let tb = total_cpu_time b in
        let ia = fl.add a.idle a.iowait in
        let ib = fl.add b.idle b.iowait in
        let busy : busy_percent (fl.sub tb ta) (fl.sub ib ia) ≡ some u = ground (arith, h) in
        let numbers = busy_percent-numbers (fl.sub tb ta) (fl.sub ib ia) u busy in
        record {
          advances = record {
            no_reset = ground (arith, h, numbers, nans.nan_sub tb ta, compares.le-not_lt ta tb);
            grew =
                let zero_number = compares.is_nan-of_int (pos 0) in
                ground (
                  arith,
                  h,
                  numbers,
                  compares.le-not_lt (fl.sub tb ta) (fl.of_int (pos 0)),
                  zero_number,
                );
            idle_no_reset =
                ground (arith, h, numbers, nans.nan_sub ib ia, compares.le-not_lt ia ib);
          };
          is_percent = busy_percent-IsPercent (fl.sub tb ta) (fl.sub ib ia) u busy;
          is_computed = h;
        }

    abbrev FromCore : ℕ → List (TimesStat F) → List (TimesStat F) → Text × F → Type 0
    FromCore i ps qs e = (k : ℕ) × (e.0 ≡ core_key (i + k)) × IsCoreUsage ps qs k e.1

    FromCore-later :
        (i : ℕ) (a b : TimesStat F) (ps qs : List (TimesStat F)) (e : Text × F)
        → FromCore (suc i) ps qs e
        → FromCore i (a ∷ ps) (b ∷ qs) e
    FromCore-later i a b ps qs e (k, named, c) = (
      suc k,
      named ∙ ap core_key (omega arith),
      record {
        before = c.before;
        now = c.now;
        at_before = c.at_before;
        at_now = c.at_now;
        is_usage = c.is_usage;
      },
    )

    core_metrics-FromCore :
        (i : ℕ) (ps qs : List (TimesStat F))
        → All (FromCore i ps qs) (core_metrics i (usages ps qs))
    unfolding usages core_metrics
    core_metrics-FromCore i [] qs = tt
    core_metrics-FromCore i (a ∷ ps) [] = tt
    core_metrics-FromCore i (a ∷ ps) (b ∷ qs) =
        let later =
          All-imp {Q = FromCore i (a ∷ ps) (b ∷ qs)} (core_metrics (suc i) (usages ps qs))
            (FromCore-later i a b ps qs) (core_metrics-FromCore (suc i) ps qs) in
        elim (Option-cases (cpu_usage_pct a b)) [
          | inl missing ↦ rw missing later
          | inr (u, found) ↦ rw found (
            (
              0,
              ap core_key (omega arith),
              record {
                before = a;
                now = b;
                at_before = refl;
                at_now = refl;
                is_usage = cpu_usage_pct-IsUsage a b u found;
              },
            ),
            later,
          )
        ]

    single_usage-IsTotalUsage :
        (ps qs : List (TimesStat F)) (u : F) → single_usage ps qs ≡ some u → IsTotalUsage ps qs u
    unfolding single_usage
    single_usage-IsTotalUsage [] qs u h = ground (arith, h)
    single_usage-IsTotalUsage (a ∷ b ∷ ps) qs u h = ground (arith, h)
    single_usage-IsTotalUsage (a ∷ []) [] u h = ground (arith, h)
    single_usage-IsTotalUsage (a ∷ []) (b ∷ c ∷ qs) u h = ground (arith, h)
    single_usage-IsTotalUsage (a ∷ []) (b ∷ []) u h = record {
      before = a;
      now = b;
      only_before = refl;
      only_now = refl;
      is_usage = cpu_usage_pct-IsUsage a b u h;
    }

    total_metrics-IsMeasured :
        (prev curr : CpuSnapshot F)
        → All (IsMeasured (some prev) curr) (total_metrics (single_usage prev.total curr.total))
    unfolding total_metrics
    total_metrics-IsMeasured prev curr = elim (Option-cases (single_usage prev.total curr.total)) [
      | inl missing ↦ rw missing tt
      | inr (u, found) ↦
          rw found (inl (refl, single_usage-IsTotalUsage prev.total curr.total u found), tt)
    ]

    usages_since-IsMeasured :
        (prev curr : CpuSnapshot F)
        → All (IsMeasured (some prev) curr) (core_metrics 0 (usages_since (some prev) curr))
    unfolding usages_since core_metrics
    usages_since-IsMeasured prev curr =
        elim (Bool-cases (length prev.per_core == length curr.per_core)) [
          | inl same ↦ rw same (
              All-imp (core_metrics 0 (usages prev.per_core curr.per_core))
                (λ e c. inr (c.0, c.1 ∙ ap core_key (omega arith), c.2))
                (core_metrics-FromCore 0 prev.per_core curr.per_core))
          | inr apart ↦ rw apart tt
        ]

    -- Every metric that is computed from times is the usage in total or that of a core, and stands
    -- under the name for it: it comes from the entry of the last snapshot and the entry of the new one
    -- that the name says, between which the total time grew and the idle time did not fall, and it is
    -- a percentage between 0 and 100, never NaN. Without a last snapshot there is no metric. The
    -- snapshot has no percentages of PercentFn. Of floats it is used that whole numbers are no NaN and
    -- that `<` compares them, that `<=` on two that are no NaN is the negation of `<` turned around,
    -- and that `-`, `*` and `/` give NaN for NaN.
    pub cpu_metrics-IsMeasured :
        (prev : Option (CpuSnapshot F)) (curr : CpuSnapshot F)
        → curr.has_percent ≡ false
        → curr.has_per_core ≡ false
        → All (IsMeasured prev curr) (cpu_metrics prev curr)
    unfolding cpu_metrics total_usage core_usages usage_since usages_since total_metrics
        core_metrics
    cpu_metrics-IsMeasured none curr no_total no_cores = simp (no_total, no_cores) tt
    cpu_metrics-IsMeasured (some prev) curr no_total no_cores =
        simp (no_total, no_cores)
          (All-append (IsMeasured (some prev) curr)
            (total_metrics (single_usage prev.total curr.total))
            (core_metrics 0 (usages_since (some prev) curr)) (total_metrics-IsMeasured prev curr)
            (usages_since-IsMeasured prev curr))
