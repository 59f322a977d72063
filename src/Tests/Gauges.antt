-- ===== src/Tests/Gauges.antt =====
-- The gauges of capturer/net.go and capturer/cpu.go: runs and instances.
use mini_edr.Prelude.Maps.{Keyed}
use mini_edr.Prelude.Float.{int_floats-ComparesInts, int_floats-PropagatesNan}
use mini_edr.Prelude.Strings.{decimal, decimal_fuel, texts}
use mini_edr.Prelude.Fallible.{value}
use mini_edr.Prelude.World.{World}
use mini_edr.Prelude.{
  ℕ, ◌+◌, ◌%◌, ◌^◌, ◌-ℤ◌, ◌+ℤ◌, ℤ, pos, Text, text_eq, text_beq, bytes, false, [], ◌∷◌, none, some,
  GoMap, lookup, All, ◌≡◌, refl, arith, int_floats,
}
use mini_edr.Capturer.Rates.{sum_rises, add_rises}
use mini_edr.Capturer.Rates.Window.{SameNames, Grows, summed, summed-total}
use mini_edr.Capturer.Rates.Totals.{total}
use mini_edr.Capturer.Net.{IfCounters, net_rises}
use mini_edr.Capturer.Cpu.{
  TimesStat, CpuSnapshot, CpuCapturer, times_snapshot, capture_cpu, cpu_usage_pct, total_cpu_time,
  busy_percent, clamp_percent,
}
use mini_edr.Capturer.Cpu.Report.{
  cpu_metrics, cpu_info, total_usage, usage_since, single_usage, core_usages, usages_since, usages,
  core_metrics, total_metrics,
}
use mini_edr.Capturer.Cpu.Bounds.{IsMeasured, cpu_metrics-IsMeasured}
use mini_edr.Capturer.Cpu.Cold.{eval_cpu_high-cold}
use mini_edr.Detection.Rules.{eval_cpu_high}

abbrev moved : Text → ℕ → ℕ → IfCounters
moved name sent recv = record {
  name = name;
  bytes_sent = sent;
  bytes_recv = recv;
  packets_sent = 0;
  packets_recv = 0;
  err_in = 0;
  err_out = 0;
  drop_in = 0;
  drop_out = 0;
}

abbrev table : ℕ → ℕ → GoMap Text IfCounters
table lo eth =
    (bytes "lo", moved (bytes "lo") lo lo) ∷ (bytes "eth0", moved (bytes "eth0") 7 eth) ∷ []

-- The same interfaces, listed the other way round
abbrev turned : ℕ → ℕ → GoMap Text IfCounters
turned lo eth =
    (bytes "eth0", moved (bytes "eth0") 7 eth) ∷ (bytes "lo", moved (bytes "lo") lo lo) ∷ []

-- A counter that was reset, and an interface that was not there, count for nothing.
net_rises_run :
    net_rises
      (record { at = 0; per_if = table 100 5000 })
      (record {
        at = 1000000000;
        per_if = (bytes "wlan0", moved (bytes "wlan0") 9 9) ∷ table 130 40;
      })
    ≡ (30, 30)
unfolding net_rises sum_rises add_rises lookup text_beq
net_rises_run = refl

table-turned : SameNames (table 100 5000) (turned 130 5600)
unfolding lookup
table-turned k = ground (arith, text_eq.same_iff (bytes "lo") k, text_eq.same_iff (bytes "eth0") k)

table-Keyed : Keyed (table 100 5000)
unfolding lookup text_beq
table-Keyed = (refl, (refl, tt))

turned-Keyed : (lo eth : ℕ) → Keyed (turned lo eth)
unfolding lookup text_beq
turned-Keyed lo eth = (refl, (refl, tt))

table-Grows :
    Grows (λ c. c.bytes_recv) (table 100 5000) (turned 130 5600)
    × Grows (λ c. c.bytes_sent) (table 100 5000) (turned 130 5600)
unfolding lookup
table-Grows = (
  λ k p c hp hc.
      ground (arith, text_eq.same_iff (bytes "lo") k, text_eq.same_iff (bytes "eth0") k, hp, hc),
  λ k p c hp hc.
      ground (arith, text_eq.same_iff (bytes "lo") k, text_eq.same_iff (bytes "eth0") k, hp, hc),
)

turned-Grows :
    Grows (λ c. c.bytes_recv) (turned 130 5600) (turned 150 9000)
    × Grows (λ c. c.bytes_sent) (turned 130 5600) (turned 150 9000)
unfolding lookup
turned-Grows = (
  λ k p c hp hc.
      ground (arith, text_eq.same_iff (bytes "lo") k, text_eq.same_iff (bytes "eth0") k, hp, hc),
  λ k p c hp hc.
      ground (arith, text_eq.same_iff (bytes "lo") k, text_eq.same_iff (bytes "eth0") k, hp, hc),
)

turned_same : SameNames (turned 130 5600) (turned 150 9000)
unfolding lookup
turned_same k = ground (arith, text_eq.same_iff (bytes "lo") k, text_eq.same_iff (bytes "eth0") k)

summed-total_example :
    let sums =
      summed
        (λ c. c.bytes_recv)
        (λ c. c.bytes_sent)
        (table 100 5000)
        (turned 130 5600 ∷ turned 150 9000 ∷ []) in
    ((sums.0 + total (λ c. c.bytes_recv) (table 100 5000)) % 2 ^ 64
      ≡ total (λ c. c.bytes_recv) (turned 150 9000) % 2 ^ 64)
    × ((sums.1 + total (λ c. c.bytes_sent) (table 100 5000)) % 2 ^ 64
        ≡ total (λ c. c.bytes_sent) (turned 150 9000) % 2 ^ 64)
summed-total_example =
    summed-total (λ c. c.bytes_recv) (λ c. c.bytes_sent) (table 100 5000)
      (turned 130 5600 ∷ turned 150 9000 ∷ []) table-Keyed
      (
        turned-Keyed 130 5600,
        table-turned,
        table-Grows.0,
        (turned-Keyed 150 9000, turned_same, turned-Grows.0, tt),
      )
      (
        turned-Keyed 130 5600,
        table-turned,
        table-Grows.1,
        (turned-Keyed 150 9000, turned_same, turned-Grows.1, tt),
      )

-- A processor that was idle for `idle` seconds of a hundred
abbrev spent : ℕ → ℕ → TimesStat ℤ
spent busy idle = record {
  user = pos busy;
  system = pos 0;
  idle = pos idle;
  nice = pos 0;
  iowait = pos 0;
  irq = pos 0;
  softirq = pos 0;
  steal = pos 0;
  guest = pos 0;
  guest_nice = pos 0;
}

abbrev before : CpuSnapshot ℤ
before = times_snapshot 0 (spent 10 90 ∷ spent 0 100 ∷ []) (spent 10 190 ∷ [])

abbrev now : CpuSnapshot ℤ
now = times_snapshot 1000000000 (spent 110 90 ∷ spent 0 50 ∷ []) (spent 110 240 ∷ [])

cpu_metrics-IsMeasured_example : All (IsMeasured (some before) now) (cpu_metrics (some before) now)
unfolding times_snapshot
cpu_metrics-IsMeasured_example =
    cpu_metrics-IsMeasured int_floats-ComparesInts int_floats-PropagatesNan (some before) now refl
      refl

-- A core that was busy all the time counts, and one whose times fell does not.
cpu_metrics_run :
    cpu_metrics (some before) now
    ≡ (bytes "cpu.total_pct", pos 0) ∷ (bytes "cpu.core0_pct", pos 100) ∷ []
unfolding cpu_metrics total_usage usage_since single_usage cpu_usage_pct total_cpu_time busy_percent
    clamp_percent core_usages usages_since usages core_metrics total_metrics times_snapshot texts
    decimal decimal_fuel ◌-ℤ◌ ◌+ℤ◌
cpu_metrics_run = refl

abbrev starting : CpuCapturer ℤ ℕ
starting = record {
  times_fn = some (λ percpu w. (value (spent 10 90 ∷ []), w));
  percent_fn = some (λ w. (value (pos 97 ∷ []), w));
  prev = none;
  curr = none;
  percent_warm = false;
}

abbrev quiet : World ℕ
quiet = record { clock = λ n. n; reads = 0; outside = 0 }

eval_cpu_high-cold_example :
    eval_cpu_high (pos 90) (cpu_info (λ t. []) (capture_cpu starting quiet).1) ≡ []
eval_cpu_high-cold_example = eval_cpu_high-cold (λ t. []) starting quiet (pos 90) refl refl
