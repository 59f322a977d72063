-- ===== src/Capturer/Mem.antt =====
-- MEMCapturer of capturer/mem.go. The statistics come from gopsutil. `rfc3339` is the layout of
-- Time.Format.
pub mod Verbose
use mini_edr.Prelude.Strings.{decimal, texts}
use mini_edr.Prelude.World.{World, time_now}
use mini_edr.Prelude.Fallible.{Fallible, value, failure}
use mini_edr.Prelude.{
  ℕ, pos, Text, bytes, ltb, [], ◌∷◌, Option, none, some, GoMap, if◌then◌else◌, Float64,
}
use mini_edr.Capturer.Info.{Time, InfoData, zero_meta, summary_only}

-- mem.VirtualMemoryStat and mem.SwapMemoryStat, with the fields that the capturer reads
pub record VirtualMemory (F : Type 0) : Type 0 where
  pub total : ℕ
  pub available : ℕ
  pub used : ℕ
  pub used_percent : F
  pub free : ℕ
  pub active : ℕ
  pub inactive : ℕ
  pub wired : ℕ
  pub buffers : ℕ
  pub cached : ℕ
  pub swap_cached : ℕ
  pub dirty : ℕ
  pub write_back : ℕ
  pub slab : ℕ
  pub sreclaimable : ℕ
  pub sunreclaim : ℕ
  pub page_tables : ℕ
  pub shared : ℕ

pub record SwapMemory (F : Type 0) : Type 0 where
  pub total : ℕ
  pub used : ℕ
  pub used_percent : F
  pub free : ℕ
  pub sin : ℕ
  pub sout : ℕ
  pub pg_in : ℕ
  pub pg_out : ℕ
  pub pg_fault : ℕ
  pub pg_maj_fault : ℕ

-- The statistics are pointers; `none` is a nil one.
pub record MemSnapshot (F : Type 0) : Type 0 where
  pub at : Time
  pub virtual : Option (VirtualMemory F)
  pub swap : Option (SwapMemory F)

-- VirtualFn and SwapFn: a value or an error, and the world after the call; `none` is a nil function.
pub record MemCapturer (F E : Type 0) : Type 0 where
  pub virtual_fn : Option (World E → Fallible (Option (VirtualMemory F)) × World E)
  pub swap_fn : Option (World E → Fallible (Option (SwapMemory F)) × World E)
  pub snapshot : MemSnapshot F
  pub prev : Option (MemSnapshot F)

pub data MemError : Type 0 where
  no_virtual_fn : MemError
  no_swap_fn : MemError
  virtual_failed : Text → MemError
  swap_failed : Text → MemError

module _ {F : Type 0} where
  -- Both statistics of a snapshot, if neither is nil
  unfoldable pub both_stats : MemSnapshot F → Option (VirtualMemory F × SwapMemory F)
  both_stats s = elim s.virtual [
    | none ↦ none
    | some v ↦ elim s.swap [ none ↦ none | some sw ↦ some (v, sw) ]
  ]

  -- The snapshot becomes the last one only if it is complete.
  unfoldable pub last_mem : MemSnapshot F → Option (MemSnapshot F) → Option (MemSnapshot F)
  last_mem s prev = elim (both_stats s) [ none ↦ prev | some stats ↦ some s ]

module _ {F E : Type 0} where
  -- Capture after SwapFn has returned.
  unfoldable pub take_mem :
      MemCapturer F E
      → Option (VirtualMemory F)
      → Fallible (Option (SwapMemory F))
      → World E
      → Option MemError × MemCapturer F E × World E
  take_mem c v (failure err) w = (some (swap_failed err), c, w)
  take_mem c v (value s) w =
      let (at, w') = time_now w in
      (
        none,
        record c {
          prev = last_mem c.snapshot c.prev;
          snapshot = record { at = at; virtual = v; swap = s };
        },
        w',
      )

  unfoldable pub with_virtual :
      MemCapturer F E
      → (World E → Fallible (Option (SwapMemory F)) × World E)
      → Fallible (Option (VirtualMemory F))
      → World E
      → Option MemError × MemCapturer F E × World E
  with_virtual c swap_fn (failure err) w = (some (virtual_failed err), c, w)
  with_virtual c swap_fn (value v) w = let (s, w') = swap_fn w in take_mem c v s w'

  -- (*MEMCapturer).Capture
  unfoldable pub capture_mem :
      MemCapturer F E → World E → Option MemError × MemCapturer F E × World E
  capture_mem c w = elim c.virtual_fn [
    | none ↦ (some no_virtual_fn, c, w)
    | some f ↦ elim c.swap_fn [
      | none ↦ (some no_swap_fn, c, w)
      | some g ↦ let (v, w') = f w in with_virtual c g v w'
    ]
  ]

module _ {F : Type 0} ⦃fl : Float64 F⦄ where
  -- Without any swap the quotient is not formed.
  unfoldable pub swap_percent : SwapMemory F → F
  swap_percent s =
      if ltb 0 s.total
      then fl.mul (fl.div (fl.of_int (pos s.used)) (fl.of_int (pos s.total))) (fl.of_int (pos 100))
      else fl.of_int (pos 0)

  unfoldable pub mem_summary : (Time → Text) → Time → VirtualMemory F → SwapMemory F → Text
  mem_summary rfc3339 at v s = texts (
      bytes "MEMSnapshot(at="
      ∷ rfc3339 at
      ∷ bytes ", RAM: Total="
      ∷ decimal v.total
      ∷ bytes "B Avail="
      ∷ decimal v.available
      ∷ bytes "B UsedApprox="
      ∷ decimal v.used
      ∷ bytes "B ("
      ∷ fl.fixed 2 v.used_percent
      ∷ bytes "%), Free="
      ∷ decimal v.free
      ∷ bytes "B Buffers="
      ∷ decimal v.buffers
      ∷ bytes "B Cached="
      ∷ decimal v.cached
      ∷ bytes "B; Swap: Total="
      ∷ decimal s.total
      ∷ bytes "B Used="
      ∷ decimal s.used
      ∷ bytes "B ("
      ∷ fl.fixed 2 (swap_percent s)
      ∷ bytes "%) Free="
      ∷ decimal s.free
      ∷ bytes "B, Sin="
      ∷ decimal s.sin
      ∷ bytes "B Sout="
      ∷ decimal s.sout
      ∷ bytes "B)"
      ∷ [])

  unfoldable pub mem_metrics : VirtualMemory F → SwapMemory F → GoMap Text F
  mem_metrics v s =
      (bytes "mem.ram.total_bytes", fl.of_int (pos v.total))
      ∷ (bytes "mem.ram.used_bytes", fl.of_int (pos v.used))
      ∷ (bytes "mem.ram.used_pct", v.used_percent)
      ∷ (bytes "mem.swap.total_bytes", fl.of_int (pos s.total))
      ∷ (bytes "mem.swap.used_bytes", fl.of_int (pos s.used))
      ∷ (bytes "mem.swap.used_pct", swap_percent s)
      ∷ []

  unfoldable pub mem_report : (Time → Text) → Time → VirtualMemory F → SwapMemory F → InfoData F
  mem_report rfc3339 at v s = record {
    summary = mem_summary rfc3339 at v s;
    metrics = some (mem_metrics v s);
    fields = none;
    meta = zero_meta;
  }

  -- (*MEMCapturer).GetInfo, which gives no error
  unfoldable pub mem_info : {E : Type 0} → (Time → Text) → MemCapturer F E → InfoData F
  mem_info rfc3339 c = elim (both_stats c.snapshot) [
    | none ↦ summary_only (bytes "MEMSnapshot(empty)")
    | some (v, s) ↦ mem_report rfc3339 c.snapshot.at v s
  ]
