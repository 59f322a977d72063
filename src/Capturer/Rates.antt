-- ===== src/Capturer/Rates.antt =====
-- The rates of capturer/net.go and capturer/disk.go, whose loops over counters are alike, and
-- deltaUint64 of capturer/disk.go. A counter is a uint64.
pub mod Totals
pub mod Window
use mini_edr.Prelude.{
  ℕ, ◌+◌, ◌-◌, ◌/◌, ◌%◌, ◌^◌, suc, ℤ, pos, negsuc, ◌-ℤ◌, Text, text_eq, leb, [], ◌∷◌, Option, none,
  some, GoMap, lookup, if◌then◌else◌, Float64,
}
use mini_edr.Capturer.Info.{Time}

-- `if cur >= prev { acc += cur - prev }`
unfoldable pub add_rise : ℕ → ℕ → ℕ → ℕ
add_rise prev cur acc = if leb prev cur then (acc + (cur - prev)) % 2 ^ 64 else acc

-- deltaUint64
unfoldable pub delta_uint64 : ℕ → ℕ → ℕ
delta_uint64 prev cur = if leb prev cur then cur - prev else 0

module _ {C : Type 0} (one other : C → ℕ) where
  -- What a counter of now adds to the two sums, if there was one of its name.
  unfoldable pub add_rises : Option C → C → ℕ × ℕ → ℕ × ℕ
  unfolding add_rise
  add_rises none cur sums = sums
  add_rises (some prev) cur sums =
      (add_rise (one prev) (one cur) sums.0, add_rise (other prev) (other cur) sums.1)

  -- `for name, cur := range curr { prev, ok := prev[name]; ... }`
  unfoldable pub sum_rises : GoMap Text C → GoMap Text C → ℕ × ℕ → ℕ × ℕ
  sum_rises prev [] sums = sums
  sum_rises prev (entry ∷ curr) sums =
      sum_rises prev curr (add_rises (lookup entry.0 prev) entry.1 sums)

module _ {F : Type 0} ⦃fl : Float64 F⦄ where
  -- d.Seconds(): both parts of a negative duration are negative.
  unfoldable pub duration_seconds : ℤ → F
  duration_seconds (pos n) =
      fl.add (fl.of_int (pos (n / 1000000000)))
        (fl.div (fl.of_int (pos (n % 1000000000))) (fl.of_int (pos 1000000000)))
  duration_seconds (negsuc n) =
      fl.add (fl.of_int (pos 0 -ℤ pos (suc n / 1000000000)))
        (fl.div (fl.of_int (pos 0 -ℤ pos (suc n % 1000000000))) (fl.of_int (pos 1000000000)))

  -- curr.At.Sub(prev.At).Seconds()
  unfoldable pub elapsed : Time → Time → F
  unfolding duration_seconds
  elapsed before now = duration_seconds (pos now -ℤ pos before)
