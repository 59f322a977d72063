-- ===== src/Dashboard/Graphs/Bounds.antt =====
-- What the gauges of dashboard/dashboard.go show.
use mini_edr.Prelude.Strings.{to_upper, contains}
use mini_edr.Prelude.Float.{ComparesInts}
use mini_edr.Prelude.{
  ℤ, pos, leb_ℤ, Text, bytes, Bool, List, [], ◌∷◌, ◌++◌, Option, none, some, if◌then◌else◌, All,
  All-append, Bool-cases, inl, inr, arith, Float64, false, ◌≡◌,
}
use mini_edr.Capturer.Info.{InfoData}
use mini_edr.Capturer.Cpu.Bounds.{IsPercent}
use mini_edr.Dashboard.Graphs.{Graph, clamp_graph_value, count_gauge}
use mini_edr.Dashboard.Graphs.Derived.{percent_graph, net_graph, count_graphs, derive_graphs}

module _ {F : Type 0} ⦃fl : Float64 F⦄ (compares : ComparesInts F) where
  -- A percentage, unless it is NaN
  abbrev pub IsDrawn : F → Type 0
  IsDrawn v = fl.is_nan v ≡ false → IsPercent v

  clamp_graph_value-IsDrawn : (v : F) → IsDrawn (clamp_graph_value v)
  unfolding clamp_graph_value
  clamp_graph_value-IsDrawn v number =
      let zero_number = compares.is_nan-of_int (pos 0) in
      let one_number = compares.is_nan-of_int (pos 1) in
      let hundred_number = compares.is_nan-of_int (pos 100) in
      ground (
        arith,
        number,
        compares.lt-of_int 0 0,
        compares.lt-of_int 0 1,
        compares.lt-of_int 1 0,
        compares.lt-of_int 0 100,
        compares.lt-of_int 100 0,
        compares.lt-of_int 100 1,
        compares.lt-of_int 100 100,
        compares.le-not_lt (fl.of_int (pos 0)) (fl.of_int (pos 0)) zero_number zero_number,
        compares.le-not_lt (fl.of_int (pos 0)) (fl.of_int (pos 1)) zero_number one_number,
        compares.le-not_lt (fl.of_int (pos 1)) (fl.of_int (pos 100)) one_number hundred_number,
        compares.le-not_lt (fl.of_int (pos 0)) (fl.of_int (pos 100)) zero_number hundred_number,
        compares.le-not_lt (fl.of_int (pos 100)) (fl.of_int (pos 100)) hundred_number
            hundred_number,
        compares.le-not_lt (fl.of_int (pos 0)) v zero_number,
        compares.le-not_lt v (fl.of_int (pos 100)),
      )

  -- Every gauge shows a percentage, or NaN.
  abbrev pub AreDrawn : List (Graph F) → Type 0
  AreDrawn graphs = All (λ g. IsDrawn g.display) graphs

  percent_graph-AreDrawn : (label : Text) (pct : Option F) → AreDrawn (percent_graph label pct)
  unfolding percent_graph
  percent_graph-AreDrawn label none = tt
  percent_graph-AreDrawn label (some pct) = (clamp_graph_value-IsDrawn pct, tt)

  net_graph-AreDrawn : (scale : F) (rates : Option (F × F)) → AreDrawn (net_graph scale rates)
  unfolding net_graph
  net_graph-AreDrawn scale none = tt
  net_graph-AreDrawn scale (some (rx, tx)) = (clamp_graph_value-IsDrawn _, tt)

  count_gauge-IsDrawn :
      (label : Text) (val : ℤ) (scale : F) → IsDrawn (count_gauge label val scale).display
  unfolding count_gauge
  count_gauge-IsDrawn label val scale = clamp_graph_value-IsDrawn _

  module _ (find : Text → Text → List Text) {S : Type 0} (count_scale : Text → F → S → F × S) where
    count_graphs-AreDrawn :
        (counts : List (Text × ℤ)) (scales : S)
        → AreDrawn (count_graphs find count_scale counts scales).0
    unfolding count_graphs
    count_graphs-AreDrawn [] scales = tt
    count_graphs-AreDrawn (entry ∷ counts) scales = elim (Bool-cases (leb_ℤ (pos 0) entry.1)) [
      | inl counted ↦
          let (scale, scales') = count_scale entry.0 (fl.of_int entry.1) scales in
          rw counted
            (count_gauge-IsDrawn entry.0 entry.1 scale, count_graphs-AreDrawn counts scales')
      | inr unknown ↦ rw unknown (count_graphs-AreDrawn counts scales)
    ]

    record Drawn (g : List (Graph F) × S) : Type 0 where
      drawn : AreDrawn g.0

    gauges_if :
        (test : Bool) {a b : List (Graph F) × S} → Drawn a → Drawn b → Drawn (if test then a else b)
    gauges_if test ha hb = elim (Bool-cases test) [ inl e ↦ rw e ha | inr e ↦ rw e hb ]

    one_percent :
        (label : Text) (pct : Option F) (scales : S) → Drawn (percent_graph label pct, scales)
    one_percent label pct scales = record { drawn = percent_graph-AreDrawn label pct }

    two_percents :
        (l k : Text) (p q : Option F) (scales : S)
        → Drawn (percent_graph l p ++ percent_graph k q, scales)
    two_percents l k p q scales = record {
      drawn =
          All-append (λ g. IsDrawn g.display) (percent_graph l p) (percent_graph k q)
            (percent_graph-AreDrawn l p) (percent_graph-AreDrawn k q);
    }

    traffic :
        (scale : F) (rates : Option (F × F)) (scales : S) → Drawn (net_graph scale rates, scales)
    traffic scale rates scales = record { drawn = net_graph-AreDrawn scale rates }

    all_counts :
        (counts : List (Text × ℤ)) (scales : S)
        → Drawn (count_graphs find count_scale counts scales)
    all_counts counts scales = record { drawn = count_graphs-AreDrawn counts scales }

    derive_graphs-Drawn :
        (name : Text) (info : InfoData F) (net_scale : F) (scales : S)
        → Drawn (derive_graphs find count_scale name info net_scale scales)
    unfolding derive_graphs
    derive_graphs-Drawn name info net_scale scales =
        let up = to_upper name in
        gauges_if (contains up (bytes "MEM")) (two_percents _ _ _ _ scales) (
          gauges_if (contains up (bytes "CPU")) (one_percent _ _ scales) (
            gauges_if (contains up (bytes "DISK")) (one_percent _ _ scales) (
              gauges_if (contains up (bytes "NET")) (traffic _ _ scales) (
                gauges_if (contains up (bytes "CONN")) (all_counts _ scales) (
                  gauges_if (contains up (bytes "FILECHANGE")) (all_counts _ scales) (
                    gauges_if (contains up (bytes "PROC")) (all_counts _ scales) (
                      gauges_if (contains up (bytes "PERSIST")) (all_counts _ scales)
                        (record { drawn = tt }))))))))

    -- Whatever a capturer reports, and whatever the scales are, what a gauge of deriveGraphs shows is
    -- between 0 and 100 unless it is NaN. Whole numbers are no NaN and `<` compares them, and `<=` on
    -- two floats that are no NaN is the negation of `<` turned around.
    pub derive_graphs-AreDrawn :
        (name : Text) (info : InfoData F) (net_scale : F) (scales : S)
        → AreDrawn (derive_graphs find count_scale name info net_scale scales).0
    derive_graphs-AreDrawn name info net_scale scales =
        (derive_graphs-Drawn name info net_scale scales).drawn
