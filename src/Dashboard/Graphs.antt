-- ===== src/Dashboard/Graphs.antt =====
-- The scales and gauges of dashboard/dashboard.go: updateNetScale, updateCountScale, countGauge and
-- what they call. A map of maps that is nil reads like an empty one.
pub mod Derived
pub mod Bounds
use mini_edr.Prelude.Strings.{decimal_ℤ}
use mini_edr.Prelude.{
  ℕ, ℤ, pos, leb_ℤ, Text, text_eq, bytes, Bool, ◌&&◌, [], ◌++◌, Option, none, some, GoMap, lookup,
  insert, if◌then◌else◌, Float64,
}

-- graphInfo
pub record Graph (F : Type 0) : Type 0 where
  pub label : Text
  pub shown_value : F
  pub display : F
  pub value_text : Text
  pub max_hint : Text

module _ {F : Type 0} ⦃fl : Float64 F⦄ where
  -- A whole number as a float64, and `x >= y`
  abbrev whole : ℕ → F
  whole n = fl.of_int (pos n)

  abbrev at_least : F → ℕ → Bool
  at_least x n = fl.le (whole n) x

  -- autoNetScale
  unfoldable pub auto_net_scale : F → F
  auto_net_scale total =
      if at_least total 104857600
      then whole 104857600
      else if at_least total 52428800
      then whole 52428800
      else if at_least total 10485760
      then whole 10485760
      else if at_least total 5242880
      then whole 5242880
      else if at_least total 1048576
      then whole 1048576
      else if at_least total 524288
      then whole 524288
      else whole 262144

  -- math.Max(v, 10) for a v that is no NaN
  abbrev max_ten : F → F
  max_ten v = if fl.lt (whole 10) v then v else whole 10

  -- autoCountScale
  unfoldable pub auto_count_scale : F → F
  auto_count_scale v =
      if at_least v 100000
      then whole 120000
      else if at_least v 50000
      then whole 60000
      else if at_least v 10000
      then whole 12000
      else if at_least v 5000
      then whole 6000
      else if at_least v 1000
      then whole 1200
      else if at_least v 500
      then whole 700
      else if at_least v 200
      then whole 250
      else if at_least v 100
      then whole 120
      else if at_least v 50
      then whole 70
      else if at_least v 10
      then whole 15
      else if fl.le v (whole 0)
      then whole 10
      else max_ten v

  -- m[k], or 0
  unfoldable pub scale_at : Text → GoMap Text F → F
  scale_at k m = elim (lookup k m) [ none ↦ whole 0 | some scale ↦ scale ]

  unfoldable pub scale_or : F → F → F
  scale_or automatic scale = if fl.le scale (whole 0) then automatic else scale

  unfoldable pub raised : F → F → F
  raised value scale = if fl.lt scale value then value else scale

  -- The scale falls where the traffic is much lower.
  unfoldable pub decayed : F → F → F
  decayed total scale =
      let lower = fl.mul scale (fl.div (whole 7) (whole 10)) in
      let bounded = if fl.lt lower (whole 262144) then whole 262144 else lower in
      if fl.lt total (fl.div scale (whole 3)) then bounded else scale

  -- updateNetScale, for the rates that extractRatesMetrics gives
  unfoldable pub update_net_scale : Text → Option (F × F) → GoMap Text F → F × GoMap Text F
  update_net_scale name none scales = (whole 0, scales)
  update_net_scale name (some (rx, tx)) scales =
      let total = fl.add rx tx in
      let scale =
        decayed total (raised total (scale_or (auto_net_scale total) (scale_at name scales))) in
      if fl.le total (whole 0) then (whole 0, scales) else (scale, insert name scale scales)

  unfoldable pub labels_of : Text → GoMap Text (GoMap Text F) → GoMap Text F
  labels_of item scales = elim (lookup item scales) [ none ↦ [] | some labels ↦ labels ]

  -- updateCountScale
  unfoldable pub update_count_scale :
      Text → Text → F → GoMap Text (GoMap Text F) → F × GoMap Text (GoMap Text F)
  update_count_scale item label val scales =
      let labels = labels_of item scales in
      let scale = raised val (scale_or (auto_count_scale val) (scale_at label labels)) in
      if fl.lt val (whole 0)
      then (whole 0, scales)
      else (scale, insert item (insert label scale labels) scales)

  -- clampGraphValue: a small value stays visible.
  unfoldable pub clamp_graph_value : F → F
  clamp_graph_value v =
      let low = if fl.lt v (whole 0) then whole 0 else v in
      let high = if fl.lt (whole 100) low then whole 100 else low in
      if fl.lt (whole 0) high && fl.lt high (whole 1) then whole 1 else high

module _ (F : Type 0) ⦃fl : Float64 F⦄ where
  -- formatCount
  unfoldable pub format_count : ℤ → Text
  format_count v =
      if leb_ℤ (pos 1000000) v
      then fl.fixed 1 (fl.div (fl.of_int v) (fl.of_int (pos 1000000))) ++ bytes "m"
      else if leb_ℤ (pos 1000) v
      then fl.fixed 1 (fl.div (fl.of_int v) (fl.of_int (pos 1000))) ++ bytes "k"
      else decimal_ℤ v

module _ {F : Type 0} ⦃fl : Float64 F⦄ where
  -- countGauge
  unfoldable pub count_gauge : Text → ℤ → F → Graph F
  count_gauge label val given =
      let v = fl.of_int val in
      let scale = scale_or (auto_count_scale v) given in
      let pct = if fl.lt (whole 0) scale then fl.mul (fl.div v scale) (whole 100) else whole 0 in
      record {
        label = label;
        shown_value = v;
        display = clamp_graph_value pct;
        value_text = format_count F val;
        max_hint = bytes "max=" ++ format_count F (fl.trunc scale);
      }

  -- humanBytes
  unfoldable pub human_bytes : F → Text
  human_bytes v =
      if at_least v 1073741824
      then fl.fixed 1 (fl.div v (whole 1073741824)) ++ bytes "GB"
      else if at_least v 1048576
      then fl.fixed 1 (fl.div v (whole 1048576)) ++ bytes "MB"
      else if at_least v 1024
      then fl.fixed 1 (fl.div v (whole 1024)) ++ bytes "KB"
      else fl.fixed 0 v ++ bytes "B"
