-- ===== src/Dashboard/History/Current.antt =====
-- Which alerts the snapshot of dashboard/dashboard.go shows.
use mini_edr.Prelude.{
  ℕ, suc, ◌-◌, ◌≤◌, ℤ, Text, text_eq, List, [], ◌∷◌, ◌++◌, Option, length, is_empty, Bool-cases,
  inl, inr, All, All-append, All-imp, ◌==◌, nat_eq, ◌≡◌, ◌⊎◌, refl, subst, arith,
}
use mini_edr.Dashboard.Overlap.{AlertEntry}
use mini_edr.Dashboard.Overlap.Correlate.{Indexed, correlate_alerts}
use mini_edr.Dashboard.History.{
  LogEntry, Job, History, stored, finished, Changes, no_change, and_then, drop, last_of, store_log,
  store_entries, kickoff_correlation, publish, store, finish_job,
}

length-drop : {A : Type 0} (n : ℕ) (xs : List A) → length (drop n xs) ≤ length xs - n
unfolding drop
length-drop n [] = omega arith
length-drop n (x ∷ xs) = ground (arith, length-drop (n - 1) xs)

length-last_of : {A : Type 0} (n : ℕ) (xs : List A) → length (last_of n xs) ≤ n
unfolding last_of
length-last_of n xs = ground (arith, length-drop (length xs - n) xs)

-- A goroutine of the present version has what is stored at present; no goroutine is of a later one.
abbrev IsTimely : History → Job → Type 0
IsTimely h j =
    (j.version ≤ h.corr_version)
    × (j.version ≡ h.corr_version
        → (j.entries ≡ h.global_alerts)
          × (j.intervals ≡ h.item_intervals)
          × (j.default_interval ≡ h.display_interval))

-- Before the first capture
abbrev pub no_history : ℤ → History
no_history display_interval = record {
  logs = [];
  alert_history = [];
  global_alerts = [];
  item_intervals = [];
  display_interval = display_interval;
  corr_version = 0;
  snapshot_alerts = [];
  jobs = [];
}

store_entries-bounded :
    (name : Text) (entries : List AlertEntry) (h : History)
    → length h.global_alerts ≤ 50
    → length (store_entries name entries h).global_alerts ≤ 50
unfolding store_entries
store_entries-bounded name entries h few =
    ground (arith, few, length-last_of 50 (h.global_alerts ++ entries))

store_entries-kept :
    (name : Text) (entries : List AlertEntry) (h : History)
    → ((store_entries name entries h).jobs ≡ h.jobs)
      × ((store_entries name entries h).corr_version ≡ h.corr_version)
unfolding store_entries
store_entries-kept name entries h = ground arith

All-middle :
    {A : Type 0} (P : A → Type 0) (xs : List A) (y : A) (ys : List A)
    → All P (xs ++ y ∷ ys)
    → P y × All P (xs ++ ys)
All-middle P [] y ys h = h
All-middle P (x ∷ xs) y ys h = let rest = All-middle P xs y ys h.1 in (rest.0, (h.0, rest.1))

module _ (decode : Text → Option (List Text)) (encode : List Text → Option Text)
    (sort_by_time : List Indexed → List Indexed) where
  -- The snapshot shows the alerts that are stored, or these correlated.
  abbrev pub IsCurrent : History → Type 0
  IsCurrent h =
      (h.snapshot_alerts ≡ h.global_alerts)
      ⊎ (h.snapshot_alerts
          ≡ correlate_alerts decode encode sort_by_time h.global_alerts h.item_intervals
              h.display_interval)

  record Inv (h : History) : Type 0 where
    pub bounded : length h.global_alerts ≤ 50
    pub timely : All (IsTimely h) h.jobs
    pub current : IsCurrent h

  publish-Inv :
      (h : History)
      → length h.global_alerts ≤ 50
      → All (λ j. j.version ≤ h.corr_version) h.jobs
      → Inv (publish h)
  unfolding publish kickoff_correlation
  publish-Inv h few old =
      let h' = record h { corr_version = suc h.corr_version; snapshot_alerts = h.global_alerts } in
      let earlier : All (IsTimely h') h.jobs =
        All-imp h.jobs (λ j le. (omega (arith, le), λ e. absurd (omega (arith, le, e)))) old in
      elim (Bool-cases (is_empty h.global_alerts)) [
        | inl nothing ↦ rw nothing (record { bounded = few; timely = earlier; current = inl refl })
        | inr alerts ↦ rw alerts (record {
          bounded = few;
          timely =
              All-append (IsTimely h') h.jobs _ earlier
                ((omega arith, λ e. (refl, refl, refl)), tt);
          current = inl refl;
        })
      ]

  store-Inv :
      (name : Text) (log : LogEntry) (entries : List AlertEntry) (interval : ℤ) (h : History)
      → Inv h
      → Inv (store name log entries interval h)
  unfolding store store_log
  store-Inv name log entries interval h inv =
      let kept = store_entries-kept name entries h in
      publish-Inv _ (store_entries-bounded name entries h inv.bounded)
        (rw (kept.0, kept.1) (All-imp h.jobs (λ j t. t.0) inv.timely))

  finish-Inv :
      (job : Job) (before after : List Job) (h : History)
      → h.jobs ≡ before ++ job ∷ after
      → Inv h
      → Inv (record (finish_job decode encode sort_by_time job h) { jobs = before ++ after })
  unfolding finish_job
  finish-Inv job before after h e inv =
      let (mine, others) =
        All-middle (IsTimely h) before job after (subst (All (IsTimely h)) e inv.timely) in
      elim (Bool-cases (h.corr_version == job.version)) [
        | inl same ↦ rw same (record {
          bounded = inv.bounded;
          timely = others;
          current = inr (let (x, y, z) = mine.1 (ground (arith, same)) in cc (x, y, z));
        })
        | inr stale ↦
            rw stale (record { bounded = inv.bounded; timely = others; current = inv.current })
      ]

  Changes-Inv : (h t : History) → Changes decode encode sort_by_time h t → Inv h → Inv t
  Changes-Inv h _ no_change inv = inv
  Changes-Inv h _ (and_then {t} steps (stored name log entries interval)) inv =
      store-Inv name log entries interval t (Changes-Inv h t steps inv)
  Changes-Inv h _ (and_then {t} steps (finished job before after e)) inv =
      finish-Inv job before after t e (Changes-Inv h t steps inv)

  -- Whatever the order in which captures store their alerts and goroutines finish their correlation, fifty
  -- alerts are kept at most, and the snapshot is never stale: it shows the alerts that are stored now, or
  -- what correlateAlerts makes of them with the intervals of now.
  pub history-IsCurrent :
      (display_interval : ℤ) (h : History)
      → Changes decode encode sort_by_time (no_history display_interval) h
      → (length h.global_alerts ≤ 50) × IsCurrent h
  history-IsCurrent display_interval h steps =
      let start : Inv (no_history display_interval) = record {
        bounded = omega arith;
        timely = tt;
        current = inl refl;
      } in
      let inv = Changes-Inv (no_history display_interval) h steps start in
      (inv.bounded, inv.current)
