-- ===== src/Capturer/Net.antt =====
-- NETCapturer of capturer/net.go. The counters of the interfaces come from gopsutil. `rfc3339` is
-- the layout of Time.Format, `interval_text` prints a duration rounded to milliseconds, and
-- `sort_strings` is sort.Strings.
pub mod Verbose
use mini_edr.Prelude.Strings.{decimal, decimal_ℤ, texts}
use mini_edr.Prelude.World.{World, time_now}
use mini_edr.Prelude.Fallible.{Fallible, value, failure}
use mini_edr.Prelude.{
  ℕ, pos, Text, text_eq, bytes, List, [], ◌∷◌, ◌++◌, Option, none, some, GoMap, insert, is_some,
  Bool, length, if◌then◌else◌, Float64, arith,
}
use mini_edr.Capturer.Info.{Time, InfoData, zero_meta, summary_only}
use mini_edr.Capturer.Rates.{sum_rises, elapsed}

-- IOCountersStat, with the fields that the capturer reads
pub record IfCounters : Type 0 where
  pub name : Text
  pub bytes_sent : ℕ
  pub bytes_recv : ℕ
  pub packets_sent : ℕ
  pub packets_recv : ℕ
  pub err_in : ℕ
  pub err_out : ℕ
  pub drop_in : ℕ
  pub drop_out : ℕ

pub record NetSnapshot : Type 0 where
  pub at : Time
  pub per_if : GoMap Text IfCounters

-- IOFn: the counters or an error, and the world after the call; `none` is a nil function.
pub record NetCapturer (E : Type 0) : Type 0 where
  pub io_fn : Option (World E → Fallible (List IfCounters) × World E)
  pub prev : Option NetSnapshot
  pub curr : Option NetSnapshot

pub data NetError : Type 0 where
  no_io_fn : NetError
  io_failed : Text → NetError

-- `for _, x := range list { m[x.Name] = x }`
unfoldable pub if_map : List IfCounters → GoMap Text IfCounters → GoMap Text IfCounters
if_map [] m = m
if_map (x ∷ list) m = if_map list (insert x.name x m)

module _ {E : Type 0} where
  -- Capture after IOFn has returned.
  unfoldable pub take_net :
      NetCapturer E
      → Fallible (List IfCounters)
      → World E
      → Option NetError × NetCapturer E × World E
  take_net c (failure err) w = (some (io_failed err), c, w)
  take_net c (value list) w =
      let (at, w') = time_now w in
      (
        none,
        record c { prev = c.curr; curr = some (record { at = at; per_if = if_map list [] }) },
        w',
      )

  -- (*NETCapturer).Capture
  unfoldable pub capture_net : NetCapturer E → World E → Option NetError × NetCapturer E × World E
  capture_net c w = elim c.io_fn [
    | none ↦ (some no_io_fn, c, w)
    | some f ↦ let (list, w') = f w in take_net c list w'
  ]

  -- IsWarm
  abbrev pub net_is_warm : NetCapturer E → Bool
  net_is_warm c = is_some c.prev

-- The bytes received and sent since the last snapshot
unfoldable pub net_rises : NetSnapshot → NetSnapshot → ℕ × ℕ
net_rises prev curr =
    sum_rises (λ c. c.bytes_recv) (λ c. c.bytes_sent) prev.per_if curr.per_if (0, 0)

module _ {F : Type 0} ⦃fl : Float64 F⦄ where
  -- The rates, if time has passed since the last snapshot.
  unfoldable pub net_rates : Option NetSnapshot → NetSnapshot → Option (F × F)
  net_rates none curr = none
  net_rates (some prev) curr =
      let sec = elapsed prev.at curr.at in
      let (rx, tx) = net_rises prev curr in
      if fl.lt (fl.of_int (pos 0)) sec
      then some (fl.div (fl.of_int (pos rx)) sec, fl.div (fl.of_int (pos tx)) sec)
      else none

  -- `fmt.Sprintf("%dB/s", uint64(rate))`
  abbrev pub rate_text : F → Text
  rate_text rate = decimal_ℤ (fl.trunc rate) ++ bytes "B/s"

  unfoldable pub net_metrics : Option (F × F) → Option (GoMap Text F)
  net_metrics none = none
  net_metrics (some (rx, tx)) =
      some ((bytes "net.rx_bytes_per_sec", rx) ∷ (bytes "net.tx_bytes_per_sec", tx) ∷ [])

  unfoldable pub net_rate_texts : Option (F × F) → Text × Text
  net_rate_texts none = (bytes "0B/s", bytes "0B/s")
  net_rate_texts (some (rx, tx)) = (rate_text rx, rate_text tx)

  unfoldable pub net_report : (Time → Text) → Option NetSnapshot → NetSnapshot → InfoData F
  net_report rfc3339 prev curr =
      let (rx_rate, tx_rate) = net_rate_texts (net_rates prev curr) in
      record {
        summary = texts (
            bytes "NETSnapshot(at="
            ∷ rfc3339 curr.at
            ∷ bytes ", ifaces="
            ∷ decimal (length curr.per_if)
            ∷ bytes ", rxRate="
            ∷ rx_rate
            ∷ bytes ", txRate="
            ∷ tx_rate
            ∷ bytes ")"
            ∷ []);
        metrics = net_metrics (net_rates prev curr);
        fields = none;
        meta = zero_meta;
      }

  -- (*NETCapturer).GetInfo, which gives no error
  unfoldable pub net_info : {E : Type 0} → (Time → Text) → NetCapturer E → InfoData F
  net_info rfc3339 c = elim c.curr [
    | none ↦ summary_only (bytes "NETSnapshot(empty)")
    | some s ↦ net_report rfc3339 c.prev s
  ]
