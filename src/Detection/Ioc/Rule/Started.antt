-- ===== src/Detection/Ioc/Rule/Started.antt =====
-- From ProcCapturer of capturer/process.go through RuleIOCMatch of ioc.go to the process killer of
-- response_actions.go.
use mini_edr.Prelude.Strings.{to_lower}
use mini_edr.Prelude.{
  ◌≤◌, ℤ, int_eq, Text, text_eq, text_beq, false, List, [], ◌∷◌, ◌++◌, Option, none, some, lookup,
  has, Among, Among-append, Among-Any, Any, gather, take_all, length, ◌≡◌, ◌↔◌, ◌⊎◌, ap, ◌∙◌, arith,
  inl, inr, Option-cases, Float64,
}
use mini_edr.Capturer.Info.{Time, ProcMeta, InfoData}
use mini_edr.Capturer.Process.{
  ProcReading, ProcSnapshot, proc_map, proc_snapshot, new_procs, proc_fields, proc_report,
}
use mini_edr.Capturer.Process.Started.{proc_map-own_all, Among-gather, new_procs-Among}
use mini_edr.Detection.Types.{Alert}
use mini_edr.Detection.Ioc.Matcher.{IocMatcher, match_process}
use mini_edr.Detection.Ioc.Matcher.Matches.{Hits, match_process_iff}
use mini_edr.Detection.Ioc.Rule.{
  process_alert, file_alert, conn_alert, eval_ioc, extract_proc_meta, extract_file_events,
  extract_conn_ids,
}
use mini_edr.Detection.Ioc.Rule.Limit.{all_matches, eval_ioc-take}
use mini_edr.Response.Killer.{extract_alert_pids}
use mini_edr.Response.Killer.Targets.{process_alert-target}

-- Some field of the process has one of the indicators in it.
abbrev pub IsIndicated : IocMatcher → ProcMeta → Type 0
IsIndicated m p =
    Hits m.proc_names (to_lower p.name)
    ⊎ Hits m.proc_paths (to_lower p.exe)
    ⊎ Hits m.proc_cmdlines (to_lower p.cmdline)

extract-proc_fields :
    (s : ProcSnapshot) (p : ProcMeta)
    → Among p (new_procs s)
    → Among p (extract_proc_meta (proc_fields s))
unfolding extract_proc_meta proc_fields lookup text_beq new_procs gather
extract-proc_fields s p h = ground (arith, h)

module _ {F : Type 0} ⦃fl : Float64 F⦄ where
  process_alert-none :
      (m : IocMatcher) (p : ProcMeta)
      → process_alert {F = F} m p ≡ none
      → (match_process m p).0 ≡ []
  unfolding process_alert
  process_alert-none m p h = ground (arith, h)

  process_alert-made :
      (m : IocMatcher) (p : ProcMeta)
      → IsIndicated m p
      → (a : Alert F) × (process_alert m p ≡ some a)
  process_alert-made m p h = elim (Option-cases (process_alert {F = F} m p)) [
    | inr found ↦ found
    | inl missed ↦ absurd ((match_process_iff m p).1 h (process_alert-none m p missed))
  ]

  all_matches-Among :
      (m : IocMatcher) (info : InfoData F) (a : Alert F)
      → Among a (gather (process_alert m) (extract_proc_meta info.fields))
      → Among a (all_matches (some m) info)
  all_matches-Among m info a h =
      let found = gather (process_alert {F = F} m) (extract_proc_meta info.fields) in
      let changed = gather (file_alert {F = F} m) (extract_file_events info.fields) in
      let opened = gather (conn_alert {F = F} m) (extract_conn_ids info.fields) in
      ground (arith, h, Among-append a (found ++ changed) opened, Among-append a found changed)

-- A process that a capture finds under an identifier that no process of the last snapshot has, and
-- whose name, executable or command line has an indicator in it, raises an alert of RuleIOCMatch, and
-- the alert names this process, and no other, to the process killer. The capture finds no more than
-- two hundred new identifiers, and the report holds no more than fifty matches; sort.Slice keeps the
-- elements.
pub started-Reported :
    (F : Type 0) ⦃fl : Float64 F⦄ (sort_pids : List ℤ → List ℤ) (rfc3339 : Time → Text)
    (last : ProcSnapshot) (at : Time) (list : List (Option ProcReading)) (pid : ℤ) (p : ProcMeta)
    (m : IocMatcher)
    → ((xs : List ℤ) (x : ℤ) → Among x (sort_pids xs) ↔ Among x xs)
    → let s = proc_snapshot sort_pids (some last) at (proc_map list []) in
      let info = proc_report {F = F} rfc3339 s in
      length s.new_pids ≤ 200
      → length (all_matches (some m) info) ≤ 50
      → lookup pid (proc_map list []) ≡ some p
      → has pid last.running ≡ false
      → IsIndicated m p
      → Any (λ (a : Alert F). extract_alert_pids a.evidence ≡ pid ∷ []) (eval_ioc (some m) info)
unfolding proc_report
started-Reported F sort_pids rfc3339 last at list pid p m sorts few rare here fresh bad =
    let running = proc_map list [] in
    let s = proc_snapshot sort_pids (some last) at running in
    let info = proc_report {F = F} rfc3339 s in
    let (a, made) = process_alert-made m p bad in
    let reported =
      extract-proc_fields s p
        (new_procs-Among sort_pids sorts last at running pid p few here fresh) in
    let matched =
      Among-gather (process_alert m) (extract_proc_meta (proc_fields s)) p a made reported in
    let own = proc_map-own_all list pid p here in
    let target = process_alert-target m p a made ∙ ap (λ k. k ∷ []) own in
    rw (eval_ioc-take (some m) info, take_all 50 (all_matches (some m) info) rare)
      (Among-Any (λ b. extract_alert_pids b.evidence ≡ pid ∷ []) (all_matches (some m) info) a
        target (all_matches-Among m info a matched))
