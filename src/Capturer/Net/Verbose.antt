-- ===== src/Capturer/Net/Verbose.antt =====
-- GetVerboseInfo of NETCapturer, capturer/net.go. `sort_strings` is sort.Strings, and
-- `interval_text` prints a duration rounded to milliseconds.
use mini_edr.Prelude.Strings.{decimal, texts, trim_suffix}
use mini_edr.Prelude.{
  ℕ, ℤ, pos, Text, text_eq, bytes, List, [], ◌∷◌, ◌++◌, Option, none, some, GoMap, lookup, keys,
  keys_missing, length, map, join, is_empty, if◌then◌else◌, Float64,
}
use mini_edr.Capturer.Info.{Time}
use mini_edr.Capturer.Since.{prev_count, interval_part}
use mini_edr.Capturer.Rates.{delta_uint64, elapsed}
use mini_edr.Capturer.Net.{IfCounters, NetSnapshot, NetCapturer}

-- n.prev.PerIF[ifname], which is the zero value for a new interface
unfoldable pub counters_or_zero : Option IfCounters → IfCounters
counters_or_zero (some c) = c
counters_or_zero none = record {
  name = [];
  bytes_sent = 0;
  bytes_recv = 0;
  packets_sent = 0;
  packets_recv = 0;
  err_in = 0;
  err_out = 0;
  drop_in = 0;
  drop_out = 0;
}

-- diffKeys
unfoldable pub diff_keys :
    (List Text → List Text) → GoMap Text IfCounters → GoMap Text IfCounters → List Text × List Text
diff_keys sort_strings prev cur =
    (sort_strings (keys_missing cur prev), sort_strings (keys_missing prev cur))

unfoldable pub name_line : Text → List Text → Text
name_line title names =
    if is_empty names then [] else texts (title ∷ join (bytes ", ") names ∷ bytes "\n" ∷ [])

unfoldable pub changed_names : (List Text → List Text) → Option NetSnapshot → NetSnapshot → Text
changed_names sort_strings none curr = []
changed_names sort_strings (some prev) curr =
    let (new_if, gone_if) = diff_keys sort_strings prev.per_if curr.per_if in
    name_line (bytes "New ifaces: ") new_if ++ name_line (bytes "Removed ifaces: ") gone_if

-- The counters as they are, behind a remark.
unfoldable pub plain_if : Text → Text → IfCounters → Text
plain_if name remark cur = texts (
    bytes "- "
    ∷ name
    ∷ remark
    ∷ bytes " rx="
    ∷ decimal cur.bytes_recv
    ∷ bytes "B tx="
    ∷ decimal cur.bytes_sent
    ∷ bytes "B pkts="
    ∷ decimal cur.packets_recv
    ∷ bytes "/"
    ∷ decimal cur.packets_sent
    ∷ bytes " err="
    ∷ decimal cur.err_in
    ∷ bytes "/"
    ∷ decimal cur.err_out
    ∷ bytes " drop="
    ∷ decimal cur.drop_in
    ∷ bytes "/"
    ∷ decimal cur.drop_out
    ∷ bytes "\n"
    ∷ [])

module _ {F : Type 0} ⦃fl : Float64 F⦄ where
  -- float64(deltaUint64(prev, cur)) / sec
  abbrev pub rise_per : F → ℕ → ℕ → F
  rise_per sec prev cur = fl.div (fl.of_int (pos (delta_uint64 prev cur))) sec

  -- The loop that adds up the rates of all interfaces.
  unfoldable pub add_rates : F → GoMap Text IfCounters → GoMap Text IfCounters → F × F → F × F
  add_rates sec prev [] rates = rates
  add_rates sec prev (entry ∷ curr) rates =
      let p = counters_or_zero (lookup entry.0 prev) in
      add_rates sec prev curr (
        fl.add rates.0 (rise_per sec p.bytes_recv entry.1.bytes_recv),
        fl.add rates.1 (rise_per sec p.bytes_sent entry.1.bytes_sent),
      )

  unfoldable pub if_rates : F → Text → IfCounters → IfCounters → Text
  if_rates sec name prev cur = texts (
      bytes "- "
      ∷ name
      ∷ bytes " rx="
      ∷ fl.fixed 0 (rise_per sec prev.bytes_recv cur.bytes_recv)
      ∷ bytes "B/s tx="
      ∷ fl.fixed 0 (rise_per sec prev.bytes_sent cur.bytes_sent)
      ∷ bytes "B/s pkts="
      ∷ fl.fixed 1 (rise_per sec prev.packets_recv cur.packets_recv)
      ∷ bytes "/"
      ∷ fl.fixed 1 (rise_per sec prev.packets_sent cur.packets_sent)
      ∷ bytes " per sec err="
      ∷ decimal (delta_uint64 prev.err_in cur.err_in)
      ∷ bytes "/"
      ∷ decimal (delta_uint64 prev.err_out cur.err_out)
      ∷ bytes " drop="
      ∷ decimal (delta_uint64 prev.drop_in cur.drop_in)
      ∷ bytes "/"
      ∷ decimal (delta_uint64 prev.drop_out cur.drop_out)
      ∷ bytes "\n"
      ∷ [])

  -- An interface that the last snapshot has, or has not.
  unfoldable pub if_since : F → Text → Option IfCounters → IfCounters → Text
  if_since sec name none cur = plain_if name (bytes " (no-prev)") cur
  if_since sec name (some prev) cur = if_rates sec name prev cur

module _ (F : Type 0) ⦃fl : Float64 F⦄ where
  unfoldable pub total_rates : Option NetSnapshot → NetSnapshot → Text
  total_rates none curr = []
  total_rates (some prev) curr =
      let sec : F = elapsed prev.at curr.at in
      let (rx, tx) = add_rates sec prev.per_if curr.per_if (fl.of_int (pos 0), fl.of_int (pos 0)) in
      if fl.lt (fl.of_int (pos 0)) sec
      then texts (
          bytes " rxRate=" ∷ fl.fixed 0 rx ∷ bytes "B/s txRate=" ∷ fl.fixed 0 tx ∷ bytes "B/s" ∷ [])
      else []

  unfoldable pub if_line : Option NetSnapshot → Time → Text → IfCounters → Text
  if_line none now name cur = plain_if name [] cur
  if_line (some prev) now name cur =
      let sec : F = elapsed prev.at now in
      if fl.le sec (fl.of_int (pos 0))
      then plain_if name [] cur
      else if_since sec name (lookup name prev.per_if) cur

  unfoldable pub if_lines : (List Text → List Text) → Option NetSnapshot → NetSnapshot → Text
  if_lines sort_strings prev curr = texts (
      map
        (λ name. elim (lookup name curr.per_if) [
          | none ↦ []
          | some cur ↦ if_line prev curr.at name cur
        ])
        (sort_strings (keys curr.per_if)))

  unfoldable pub net_details :
      (Time → Text) → (ℤ → Text) → (List Text → List Text) → Option NetSnapshot → NetSnapshot → Text
  net_details rfc3339 interval_text sort_strings prev curr = texts (
      bytes "NETSnapshot(at="
      ∷ rfc3339 curr.at
      ∷ interval_part interval_text (λ s. s.at) prev curr
      ∷ bytes ")\nInterfaces: total="
      ∷ decimal (length curr.per_if)
      ∷ prev_count (λ s. length s.per_if) prev curr
      ∷ total_rates prev curr
      ∷ bytes "\n"
      ∷ changed_names sort_strings prev curr
      ∷ if_lines sort_strings prev curr
      ∷ [])

  -- GetVerboseInfo, which gives no error
  unfoldable pub net_verbose :
      {E : Type 0} → (Time → Text) → (ℤ → Text) → (List Text → List Text) → NetCapturer E → Text
  net_verbose rfc3339 interval_text sort_strings c = elim c.curr [
    | none ↦ bytes "NETSnapshot(verbose-empty)"
    | some s ↦ trim_suffix (net_details rfc3339 interval_text sort_strings c.prev s) (bytes "\n")
  ]
