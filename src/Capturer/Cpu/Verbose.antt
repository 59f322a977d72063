-- ===== src/Capturer/Cpu/Verbose.antt =====
-- GetVerboseInfo of CPUCapturer, capturer/cpu.go.
use mini_edr.Prelude.Strings.{decimal, texts, trim_suffix}
use mini_edr.Prelude.{
  ℕ, suc, Text, bytes, ltb, nat_eq, ◌==◌, ◌&&◌, List, [], ◌∷◌, ◌++◌, Option, none, some, length,
  get_elem?, if◌then◌else◌, Float64,
}
use mini_edr.Capturer.Cpu.{TimesStat, CpuSnapshot, CpuCapturer, cpu_usage_pct}
use mini_edr.Capturer.Cpu.Report.{percent_text, total_usage}

module _ {F : Type 0} ⦃fl : Float64 F⦄ where
  -- ` key=%.2fs` for each time
  unfoldable pub times_text : TimesStat F → Text
  times_text t =
      let part : Text → F → Text =
        λ key x. texts (bytes " " ∷ key ∷ bytes "=" ∷ fl.fixed 2 x ∷ bytes "s" ∷ []) in
      texts (
        part (bytes "user") t.user
        ∷ part (bytes "system") t.system
        ∷ part (bytes "idle") t.idle
        ∷ part (bytes "nice") t.nice
        ∷ part (bytes "iowait") t.iowait
        ∷ part (bytes "irq") t.irq
        ∷ part (bytes "softirq") t.softirq
        ∷ part (bytes "steal") t.steal
        ∷ part (bytes "guest") t.guest
        ∷ part (bytes "guestNice") t.guest_nice
        ∷ [])

  unfoldable pub total_line : Text → List (TimesStat F) → Text
  total_line usage (t ∷ []) = texts (bytes "total usage=" ∷ usage ∷ times_text t ∷ bytes "\n" ∷ [])
  total_line usage total = []

  -- The usage of core i since the last snapshot, if that has as many cores.
  unfoldable pub core_since : Option (CpuSnapshot F) → ℕ → ℕ → TimesStat F → Option F
  core_since none count i t = none
  core_since (some prev) count i t =
      if length prev.per_core == count
      then elim (get_elem? prev.per_core i) [ none ↦ none | some a ↦ cpu_usage_pct a t ]
      else none

  unfoldable pub core_usage : Option (CpuSnapshot F) → CpuSnapshot F → ℕ → TimesStat F → Option F
  core_usage prev curr i t =
      if curr.has_per_core && ltb i (length curr.per_core_pct)
      then get_elem? curr.per_core_pct i
      else core_since prev (length curr.per_core) i t

  unfoldable pub core_lines : Option (CpuSnapshot F) → CpuSnapshot F → ℕ → List (TimesStat F) → Text
  core_lines prev curr i [] = []
  core_lines prev curr i (t ∷ per) =
      texts (
        bytes "cpu"
        ∷ decimal i
        ∷ bytes " usage="
        ∷ percent_text (core_usage prev curr i t)
        ∷ times_text t
        ∷ bytes "\n"
        ∷ [])
      ++ core_lines prev curr (suc i) per

  -- GetVerboseInfo, which gives no error
  unfoldable pub cpu_verbose : {E : Type 0} → CpuCapturer F E → Text
  cpu_verbose c = elim c.curr [
    | none ↦ bytes "CPUSnapshot(verbose-empty)"
    | some s ↦
        trim_suffix
          (total_line (percent_text (total_usage c.prev s)) s.total
            ++ core_lines c.prev s 0 s.per_core)
          (bytes "\n")
  ]
