-- ===== src/Detection/Ioc/Rule.antt =====
-- RuleIOCMatch of ioc.go.
pub mod Limit
pub mod Started
use mini_edr.Prelude.Strings.{decimal_ℤ}
use mini_edr.Prelude.{
  ℕ, Text, text_eq, bytes, Bool, true, false, List, [], ◌∷◌, ◌++◌, Option, none, some, GoMap,
  lookup, is_empty, length, leb, if◌then◌else◌, Float64,
}
use mini_edr.Capturer.Info.{
  InfoData, ProcMeta, FileEvent, ConnId, Field, procs, proc_ptrs, file_events, file_event_ptrs,
  conns, conn_ptrs,
}
use mini_edr.Detection.Types.{Alert, RuleSpec, scalar, text, int32, other, severity_high, new_alert}
use mini_edr.Detection.Ioc.{IocConfig, normalize_ioc_config}
use mini_edr.Detection.Ioc.Matcher.{
  IocMatcher, new_ioc_matcher, match_process, match_file, match_remote_ip,
}

-- `if p != nil { out = append(out, *p) }` over a slice of pointers
unfoldable pub non_nil : {A : Type 0} → List (Option A) → List A
non_nil [] = []
non_nil (none ∷ xs) = non_nil xs
non_nil (some x ∷ xs) = x ∷ non_nil xs

-- fields[key], where a nil map has no entry
abbrev pub field_of : Text → Option (GoMap Text Field) → Option Field
field_of key none = none
field_of key (some fields) = lookup key fields

abbrev pub as_procs : Option Field → List ProcMeta
as_procs (some (procs xs)) = xs
as_procs (some (proc_ptrs xs)) = non_nil xs
as_procs _ = []

abbrev pub as_file_events : Option Field → List FileEvent
as_file_events (some (file_events xs)) = xs
as_file_events (some (file_event_ptrs xs)) = non_nil xs
as_file_events _ = []

abbrev pub as_conns : Option Field → List ConnId
as_conns (some (conns xs)) = xs
as_conns (some (conn_ptrs xs)) = non_nil xs
as_conns _ = []

unfoldable pub extract_proc_meta : Option (GoMap Text Field) → List ProcMeta
extract_proc_meta fields = as_procs (field_of (bytes "proc.new") fields)

unfoldable pub extract_file_events : Option (GoMap Text Field) → List FileEvent
extract_file_events fields = as_file_events (field_of (bytes "file.events") fields)

unfoldable pub extract_conn_ids : Option (GoMap Text Field) → List ConnId
extract_conn_ids fields = as_conns (field_of (bytes "conn.new") fields)

unfoldable pub proc_label : ProcMeta → Text
proc_label p =
    if is_empty p.name
    then if is_empty p.exe
      then if is_empty p.cmdline then bytes "pid=" ++ decimal_ℤ p.pid else p.cmdline
      else p.exe
    else p.name

-- One of the three loops: the alerts, and whether the limit was reached.
unfoldable pub scan : {A B : Type 0} → (A → Option B) → ℕ → List A → List B → List B × Bool
scan alert_for limit [] alerts = (alerts, false)
scan alert_for limit (x ∷ xs) alerts = elim (alert_for x) [
  | none ↦ scan alert_for limit xs alerts
  | some a ↦
      let alerts' = alerts ++ a ∷ [] in
      let rest = scan alert_for limit xs alerts' in
      if leb limit (length alerts') then (alerts', true) else rest
]

-- The three loops: the next one runs unless the limit was reached.
unfoldable pub scan_three :
    {A B C D : Type 0}
    → (A → Option D)
    → (B → Option D)
    → (C → Option D)
    → ℕ
    → List A
    → List B
    → List C
    → List D
scan_three f g h limit xs ys zs =
    let (by_first, full₁) = scan f limit xs [] in
    let (by_second, full₂) = scan g limit ys by_first in
    let (by_third, full₃) = scan h limit zs by_second in
    if full₁ then by_first else if full₂ then by_second else by_third

module _ {F : Type 0} ⦃fl : Float64 F⦄ where
  -- The alerts of the three loops, for an element that matches.
  unfoldable pub process_alert : IocMatcher → ProcMeta → Option (Alert F)
  process_alert m p =
      let (indicator, field) = match_process m p in
      if is_empty indicator
      then none
      else some (
          new_alert (bytes "ioc.match")
            (bytes "IOC match on process "
              ++ proc_label p
              ++ bytes " ("
              ++ field
              ++ bytes "="
              ++ indicator
              ++ bytes ")")
            ((bytes "kind", scalar (text (bytes "process")))
              ∷ (bytes "indicator", scalar (text indicator))
              ∷ (bytes "field", scalar (text field))
              ∷ (bytes "pid", scalar (int32 p.pid))
              ∷ (bytes "name", scalar (text p.name))
              ∷ (bytes "exe", scalar (text p.exe))
              ∷ (bytes "cmdline", scalar (text p.cmdline))
              ∷ [])
            (bytes "ioc|process|" ++ indicator ++ bytes "|" ++ decimal_ℤ p.pid))

  -- FileEventType is a string type of its own.
  unfoldable pub file_alert : IocMatcher → FileEvent → Option (Alert F)
  file_alert m e =
      let indicator = match_file m e.path in
      if is_empty indicator
      then none
      else some (
          new_alert (bytes "ioc.match")
            (bytes "IOC match on file " ++ e.path ++ bytes " (path=" ++ indicator ++ bytes ")")
            ((bytes "kind", scalar (text (bytes "file")))
              ∷ (bytes "indicator", scalar (text indicator))
              ∷ (bytes "path", scalar (text e.path))
              ∷ (bytes "event", scalar other)
              ∷ [])
            (bytes "ioc|file|" ++ indicator ++ bytes "|" ++ e.path))

  -- The port is a uint32.
  unfoldable pub conn_alert : IocMatcher → ConnId → Option (Alert F)
  conn_alert m c =
      let indicator = match_remote_ip m c.rip in
      if is_empty indicator
      then none
      else some (
          new_alert (bytes "ioc.match") (bytes "IOC match on remote IP " ++ c.rip)
            ((bytes "kind", scalar (text (bytes "connection")))
              ∷ (bytes "indicator", scalar (text indicator))
              ∷ (bytes "remote_ip", scalar (text c.rip))
              ∷ (bytes "remote_port", scalar other)
              ∷ (bytes "pid", scalar (int32 c.pid))
              ∷ [])
            (bytes "ioc|conn|" ++ indicator ++ bytes "|" ++ c.rip ++ bytes "|" ++ decimal_ℤ c.pid))

  -- The body of Eval for a matcher.
  unfoldable pub match_all : IocMatcher → ℕ → InfoData F → List (Alert F)
  unfolding scan_three
  match_all m limit info =
      scan_three (process_alert m) (file_alert m) (conn_alert m) limit
        (extract_proc_meta info.fields) (extract_file_events info.fields)
        (extract_conn_ids info.fields)

  unfoldable pub eval_ioc : Option IocMatcher → InfoData F → List (Alert F)
  eval_ioc none info = []
  eval_ioc (some m) info = match_all m 50 info

  unfoldable pub rule_ioc_match : IocConfig → RuleSpec F
  rule_ioc_match cfg = record {
    id = bytes "ioc.match";
    title = bytes "IOC match";
    description = [];
    severity = severity_high;
    tags = [];
    source = [];
    dedup_key = [];
    eval = some (eval_ioc (new_ioc_matcher (normalize_ioc_config cfg)));
  }
