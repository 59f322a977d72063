-- ===== src/Capturer/Cpu/Report.antt =====
-- GetInfo of CPUCapturer, capturer/cpu.go.
use mini_edr.Prelude.Strings.{decimal, texts, trim_space}
use mini_edr.Prelude.{
  ℕ, suc, Text, bytes, ltb, nat_eq, ◌==◌, not, ◌&&◌, List, [], ◌∷◌, ◌++◌, map, Option, none, some,
  GoMap, length, is_empty, if◌then◌else◌, Float64,
}
use mini_edr.Capturer.Info.{Time, InfoData, zero_meta, summary_only}
use mini_edr.Capturer.Cpu.{TimesStat, CpuSnapshot, CpuCapturer, cpu_usage_pct}

abbrev pub core_key : ℕ → Text
core_key i = texts (bytes "cpu.core" ∷ decimal i ∷ bytes "_pct" ∷ [])

module _ {F : Type 0} ⦃fl : Float64 F⦄ where
  -- The usage between two lists of times with one entry each
  unfoldable pub single_usage : List (TimesStat F) → List (TimesStat F) → Option F
  single_usage (a ∷ []) (b ∷ []) = cpu_usage_pct a b
  single_usage ps qs = none

  unfoldable pub usage_since : Option (CpuSnapshot F) → CpuSnapshot F → Option F
  usage_since none curr = none
  usage_since (some prev) curr = single_usage prev.total curr.total

  unfoldable pub total_usage : Option (CpuSnapshot F) → CpuSnapshot F → Option F
  total_usage prev curr = if curr.has_percent then some curr.total_pct else usage_since prev curr

  unfoldable pub unless_nan : F → Option F
  unless_nan u = if fl.is_nan u then none else some u

  unfoldable pub usages : List (TimesStat F) → List (TimesStat F) → List (Option F)
  usages [] qs = []
  usages (a ∷ ps) [] = []
  usages (a ∷ ps) (b ∷ qs) = cpu_usage_pct a b ∷ usages ps qs

  unfoldable pub usages_since : Option (CpuSnapshot F) → CpuSnapshot F → List (Option F)
  usages_since none curr = []
  usages_since (some prev) curr =
      if length prev.per_core == length curr.per_core
      then usages prev.per_core curr.per_core
      else []

  -- The usage of each core, `none` for NaN
  unfoldable pub core_usages : Option (CpuSnapshot F) → CpuSnapshot F → List (Option F)
  core_usages prev curr =
      if curr.has_per_core && not (is_empty curr.per_core_pct)
      then map unless_nan curr.per_core_pct
      else usages_since prev curr

  unfoldable pub core_metrics : ℕ → List (Option F) → GoMap Text F
  core_metrics i [] = []
  core_metrics i (none ∷ cores) = core_metrics (suc i) cores
  core_metrics i (some u ∷ cores) = (core_key i, u) ∷ core_metrics (suc i) cores

  -- The first four cores in the summary
  unfoldable pub core_texts : ℕ → List (Option F) → Text
  core_texts i [] = []
  core_texts i (none ∷ cores) = core_texts (suc i) cores
  core_texts i (some u ∷ cores) =
      (if ltb i 4
        then texts (bytes "cpu" ∷ decimal i ∷ bytes "=" ∷ fl.fixed 1 u ∷ bytes "% " ∷ [])
        else [])
      ++ core_texts (suc i) cores

  unfoldable pub core_info : List (Option F) → Text
  core_info cores =
      let text = trim_space (core_texts 0 cores) in if is_empty text then [] else bytes ", " ++ text

  unfoldable pub percent_text : Option F → Text
  percent_text none = bytes "n/a"
  percent_text (some u) = fl.fixed 2 u ++ bytes "%"

  unfoldable pub total_metrics : Option F → GoMap Text F
  total_metrics none = []
  total_metrics (some u) = (bytes "cpu.total_pct", u) ∷ []

  unfoldable pub cpu_metrics : Option (CpuSnapshot F) → CpuSnapshot F → GoMap Text F
  cpu_metrics prev curr =
      total_metrics (total_usage prev curr) ++ core_metrics 0 (core_usages prev curr)

  unfoldable pub cpu_report : (Time → Text) → Option (CpuSnapshot F) → CpuSnapshot F → InfoData F
  cpu_report rfc3339 prev curr =
      let metrics = cpu_metrics prev curr in
      record {
        summary = texts (
            bytes "CPUSnapshot(at="
            ∷ rfc3339 curr.at
            ∷ bytes ", totalUsage="
            ∷ percent_text (total_usage prev curr)
            ∷ core_info (core_usages prev curr)
            ∷ bytes ")"
            ∷ []);
        metrics = if is_empty metrics then none else some metrics;
        fields = none;
        meta = zero_meta;
      }

  -- (*CPUCapturer).GetInfo, which gives no error
  unfoldable pub cpu_info : {E : Type 0} → (Time → Text) → CpuCapturer F E → InfoData F
  cpu_info rfc3339 c = elim c.curr [
    | none ↦ summary_only (bytes "CPUSnapshot(empty)")
    | some s ↦ cpu_report rfc3339 c.prev s
  ]
