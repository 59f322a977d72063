-- ===== src/Detection/Rules/Keys.antt =====
-- The alerts of the built-in rules of detection_rules.go, told apart by rule and key.
use mini_edr.Prelude.{
  ℤ, pos, Text, bytes, List, [], ◌∷◌, ◌++◌, none, some, ◌≡◌, ◌≢◌, ◌⊎◌, inl, sym, subst, All-imp,
  arith, All, Pairs, Pairs-append, All-append, Float64,
}
use mini_edr.Capturer.Info.{InfoData}
use mini_edr.Detection.Types.{Alert, RuleSpec}
use mini_edr.Detection.Rules.{
  eval_cpu_high, eval_mem_pressure, ram_alert, swap_alert, eval_proc_burst, eval_net_spike,
  eval_file_event_burst, eval_persistence_change, default_rules,
}

module _ {F : Type 0} where
  -- What the rules of a list give for a report, in order.
  abbrev pub eval_all : List (RuleSpec F) → InfoData F → List (Alert F)
  eval_all [] info = []
  eval_all (r ∷ rs) info = elim r.eval [ none ↦ [] | some f ↦ f info ] ++ eval_all rs info

  -- Two alerts differ in their rule or in the key that the rule gives.
  abbrev pub IsApart : Alert F → Alert F → Type 0
  IsApart a b = (a.rule_id ≢ b.rule_id) ⊎ (a.dedup_key ≢ b.dedup_key)

  -- The alerts of one rule, apart from each other.
  abbrev pub OfRule : Text → List (Alert F) → Type 0
  OfRule id alerts = All (λ a. a.rule_id ≡ id) alerts × Pairs IsApart alerts

  -- The alerts of groups by rule.
  abbrev all_alerts : List (Text × List (Alert F)) → List (Alert F)
  all_alerts [] = []
  all_alerts (g ∷ gs) = g.1 ++ all_alerts gs

  all_alerts-foreign :
      (id : Text) (gs : List (Text × List (Alert F)))
      → All (λ g. id ≢ g.0) gs
      → All (λ g. OfRule g.0 g.1) gs
      → All (λ a. id ≢ a.rule_id) (all_alerts gs)
  all_alerts-foreign id [] others h = tt
  all_alerts-foreign id (g ∷ gs) others h =
      All-append (λ a. id ≢ a.rule_id) g.1 (all_alerts gs)
        (All-imp g.1 (λ a q. subst (λ x. id ≢ x) (sym q) others.0) h.0.0)
        (all_alerts-foreign id gs others.1 h.1)

  all_alerts-IsApart :
      (gs : List (Text × List (Alert F)))
      → Pairs (λ g h. g.0 ≢ h.0) gs
      → All (λ g. OfRule g.0 g.1) gs
      → Pairs IsApart (all_alerts gs)
  all_alerts-IsApart [] distinct h = tt
  all_alerts-IsApart (g ∷ gs) distinct h =
      Pairs-append IsApart g.1 (all_alerts gs) h.0.1
        (All-imp g.1
          (λ a q.
            All-imp (all_alerts gs) (λ b ne. inl (subst (λ x. x ≢ b.rule_id) (sym q) ne))
              (all_alerts-foreign g.0 gs distinct.0 h.1))
          h.0.0)
        (all_alerts-IsApart gs distinct.1 h.1)

module _ {F : Type 0} ⦃fl : Float64 F⦄ where
  eval_cpu_high-OfRule :
      (t : F) (info : InfoData F) → OfRule (bytes "cpu.high_usage") (eval_cpu_high t info)
  unfolding eval_cpu_high
  eval_cpu_high-OfRule t info = ground arith

  eval_mem_pressure-OfRule :
      (t u : F) (info : InfoData F) → OfRule (bytes "mem.pressure") (eval_mem_pressure t u info)
  unfolding eval_mem_pressure ram_alert swap_alert
  eval_mem_pressure-OfRule t u info = ground arith

  eval_proc_burst-OfRule :
      (n : ℤ) (info : InfoData F) → OfRule (bytes "proc.burst") (eval_proc_burst n info)
  unfolding eval_proc_burst
  eval_proc_burst-OfRule n info = ground arith

  eval_net_spike-OfRule :
      (t : F) (info : InfoData F) → OfRule (bytes "net.spike") (eval_net_spike t info)
  unfolding eval_net_spike
  eval_net_spike-OfRule t info = ground arith

  eval_file_event_burst-OfRule :
      (n : ℤ) (info : InfoData F)
      → OfRule (bytes "file.events_burst") (eval_file_event_burst n info)
  unfolding eval_file_event_burst
  eval_file_event_burst-OfRule n info = ground arith

  eval_persistence_change-OfRule :
      (n : ℤ) (info : InfoData F) → OfRule (bytes "persist.change") (eval_persistence_change n info)
  unfolding eval_persistence_change
  eval_persistence_change-OfRule n info = ground arith

  -- Any two alerts that the default rules raise for one report differ in their rule or in the key that
  -- the rule gives them.
  default_rules-IsApart : (info : InfoData F) → Pairs IsApart (eval_all default_rules info)
  default_rules-IsApart info =
      all_alerts-IsApart
        ((bytes "cpu.high_usage", eval_cpu_high (fl.of_int (pos 90)) info)
          ∷ (bytes "mem.pressure", eval_mem_pressure (fl.of_int (pos 90)) (fl.of_int (pos 60)) info)
          ∷ (bytes "proc.burst", eval_proc_burst (pos 10) info)
          ∷ (bytes "net.spike", eval_net_spike (fl.of_int (pos 1048576)) info)
          ∷ (bytes "file.events_burst", eval_file_event_burst (pos 50) info)
          ∷ (bytes "persist.change", eval_persistence_change (pos 1) info)
          ∷ [])
        (ground arith)
        (
          eval_cpu_high-OfRule _ info,
          (
            eval_mem_pressure-OfRule _ _ info,
            (
              eval_proc_burst-OfRule _ info,
              (
                eval_net_spike-OfRule _ info,
                (eval_file_event_burst-OfRule _ info, (eval_persistence_change-OfRule _ info, tt)),
              ),
            ),
          ),
        )
