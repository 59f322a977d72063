-- ===== src/Capturer/Mem/Verbose.antt =====
-- GetVerboseInfo of MEMCapturer, capturer/mem.go. `interval_text` prints a duration rounded to
-- milliseconds.
use mini_edr.Prelude.Strings.{decimal, texts, signed}
use mini_edr.Prelude.{
  ℕ, ◌+◌, ◌-◌, ◌%◌, ◌^◌, ℤ, pos, ◌-ℤ◌, Text, bytes, ltb, List, [], ◌∷◌, ◌++◌, Option, none, some,
  if◌then◌else◌, Float64,
}
use mini_edr.Capturer.Info.{Time}
use mini_edr.Capturer.Since.{interval_part}
use mini_edr.Capturer.Mem.{VirtualMemory, SwapMemory, MemSnapshot, MemCapturer, both_stats}

-- int64(cur) - int64(prev), which wraps around
unfoldable pub int64_delta : ℕ → ℕ → ℤ
int64_delta prev cur =
    let bits = (cur + 2 ^ 64 - prev) % 2 ^ 64 in
    if ltb bits (2 ^ 63) then pos bits else pos bits -ℤ pos (2 ^ 64)

-- ` key=%dB` for each entry
unfoldable pub byte_counts : List (Text × ℕ) → Text
byte_counts [] = []
byte_counts (entry ∷ rest) =
    texts (bytes " " ∷ entry.0 ∷ bytes "=" ∷ decimal entry.1 ∷ bytes "B" ∷ byte_counts rest ∷ [])

-- ` key=%+dB` for each entry
unfoldable pub byte_deltas : List (Text × ℤ) → Text
byte_deltas [] = []
byte_deltas (entry ∷ rest) =
    texts (bytes " " ∷ entry.0 ∷ bytes "=" ∷ signed entry.1 ∷ bytes "B" ∷ byte_deltas rest ∷ [])

module _ {F : Type 0} ⦃fl : Float64 F⦄ where
  unfoldable pub ram_line : VirtualMemory F → Text
  ram_line v = texts (
      bytes "RAM:"
      ∷ byte_counts
          ((bytes "total", v.total) ∷ (bytes "avail", v.available) ∷ (bytes "used", v.used) ∷ [])
      ∷ bytes " used%="
      ∷ fl.fixed 2 v.used_percent
      ∷ byte_counts (
          (bytes "free", v.free)
          ∷ (bytes "active", v.active)
          ∷ (bytes "inactive", v.inactive)
          ∷ (bytes "wired", v.wired)
          ∷ (bytes "buffers", v.buffers)
          ∷ (bytes "cached", v.cached)
          ∷ (bytes "swapCached", v.swap_cached)
          ∷ (bytes "dirty", v.dirty)
          ∷ (bytes "writeback", v.write_back)
          ∷ (bytes "slab", v.slab)
          ∷ (bytes "sreclaimable", v.sreclaimable)
          ∷ (bytes "sunreclaim", v.sunreclaim)
          ∷ (bytes "pageTables", v.page_tables)
          ∷ (bytes "shared", v.shared)
          ∷ [])
      ∷ bytes "\n"
      ∷ [])

  unfoldable pub swap_line : SwapMemory F → Text
  swap_line s = texts (
      bytes "Swap:"
      ∷ byte_counts ((bytes "total", s.total) ∷ (bytes "used", s.used) ∷ [])
      ∷ bytes " used%="
      ∷ fl.fixed 2 s.used_percent
      ∷ byte_counts ((bytes "free", s.free) ∷ (bytes "sin", s.sin) ∷ (bytes "sout", s.sout) ∷ [])
      ∷ bytes " pgIn="
      ∷ decimal s.pg_in
      ∷ bytes " pgOut="
      ∷ decimal s.pg_out
      ∷ bytes " pgFault="
      ∷ decimal s.pg_fault
      ∷ bytes " pgMajFault="
      ∷ decimal s.pg_maj_fault
      ∷ [])

module _ {F : Type 0} where
  unfoldable pub ram_delta : Option (VirtualMemory F) → VirtualMemory F → Text
  ram_delta none v = []
  ram_delta (some p) v = texts (
      bytes "RAM Delta:"
      ∷ byte_deltas (
          (bytes "avail", int64_delta p.available v.available)
          ∷ (bytes "used", int64_delta p.used v.used)
          ∷ (bytes "free", int64_delta p.free v.free)
          ∷ (bytes "active", int64_delta p.active v.active)
          ∷ (bytes "inactive", int64_delta p.inactive v.inactive)
          ∷ (bytes "buffers", int64_delta p.buffers v.buffers)
          ∷ (bytes "cached", int64_delta p.cached v.cached)
          ∷ [])
      ∷ bytes "\n"
      ∷ [])

  unfoldable pub swap_delta : Option (SwapMemory F) → SwapMemory F → Text
  swap_delta none s = []
  swap_delta (some p) s =
      bytes "\nSwap Delta:"
      ++ byte_deltas (
          (bytes "used", int64_delta p.used s.used)
          ∷ (bytes "free", int64_delta p.free s.free)
          ∷ (bytes "sin", int64_delta p.sin s.sin)
          ∷ (bytes "sout", int64_delta p.sout s.sout)
          ∷ [])

  unfoldable pub virtual_of : Option (MemSnapshot F) → Option (VirtualMemory F)
  virtual_of none = none
  virtual_of (some s) = s.virtual

  unfoldable pub swap_of : Option (MemSnapshot F) → Option (SwapMemory F)
  swap_of none = none
  swap_of (some s) = s.swap

module _ {F : Type 0} ⦃fl : Float64 F⦄ where
  unfoldable pub mem_details :
      (Time → Text)
      → (ℤ → Text)
      → Option (MemSnapshot F)
      → MemSnapshot F
      → VirtualMemory F
      → SwapMemory F
      → Text
  mem_details rfc3339 interval_text prev curr v s = texts (
      bytes "MEMSnapshot(at="
      ∷ rfc3339 curr.at
      ∷ interval_part interval_text (λ t. t.at) prev curr
      ∷ bytes ")\n"
      ∷ ram_line v
      ∷ ram_delta (virtual_of prev) v
      ∷ swap_line s
      ∷ swap_delta (swap_of prev) s
      ∷ [])

  -- GetVerboseInfo, which gives no error
  unfoldable pub mem_verbose : {E : Type 0} → (Time → Text) → (ℤ → Text) → MemCapturer F E → Text
  mem_verbose rfc3339 interval_text c = elim (both_stats c.snapshot) [
    | none ↦ bytes "MEMSnapshot(verbose-empty)"
    | some (v, s) ↦ mem_details rfc3339 interval_text c.prev c.snapshot v s
  ]
