-- ===== src/Dashboard/Summary.antt =====
-- summarizeInfo of dashboard/dashboard.go, with displayName. `find` is FindStringSubmatch of a
-- regular expression, which gives the match and its groups.
use mini_edr.Prelude.Strings.{decimal, decimal_ℤ, texts, to_upper, contains, trim_suffix}
use mini_edr.Prelude.{
  ℕ, pos, leb_ℤ, Text, bytes, List, [], ◌∷◌, ◌++◌, join, Option, none, some, is_some, is_empty,
  ◌||◌, if◌then◌else◌, Float64,
}
use mini_edr.Capturer.Info.{InfoData}
use mini_edr.Capturer.Cpu.Report.{core_key}
use mini_edr.Detection.Rules.{metric, or_zero}
use mini_edr.Dashboard.Graphs.{human_bytes}
use mini_edr.Dashboard.Graphs.Derived.{metric_int}

-- displayName, for the name that CapturerName gives
unfoldable pub display_name : Text → Text
display_name raw =
    let upper = to_upper (trim_suffix raw (bytes "Capturer")) in
    if is_empty upper then raw else upper

-- A space, a middle dot in UTF-8, and a space
abbrev pub dot : Text
dot = 32 ∷ 194 ∷ 183 ∷ 32 ∷ []

-- `if len(parts) == 0 { return summary }`
unfoldable pub parts_or : Text → List Text → Text
parts_or summary parts = if is_empty parts then summary else join dot parts

unfoldable pub first_group : List Text → Text
first_group (match ∷ group ∷ groups) = group
first_group other = []

unfoldable pub two_groups : List Text → Text × Text
two_groups (match ∷ one ∷ two ∷ groups) = (one, two)
two_groups other = ([], [])

-- A part for a group that is not empty
unfoldable pub group_part : (Text → Text) → Text → List Text
group_part show group = if is_empty group then [] else show group ∷ []

module _ (find : Text → Text → List Text) where
  -- captureGroup and captureGroup2
  unfoldable pub capture_group : Text → Text → Text
  capture_group s pattern = first_group (find pattern s)

  unfoldable pub capture_group2 : Text → Text → Text × Text
  capture_group2 s pattern = two_groups (find pattern s)

module _ (F : Type 0) ⦃fl : Float64 F⦄ where
  -- humanBytesString
  unfoldable pub human_bytes_string : Text → Text
  human_bytes_string s = elim (fl.parse s) [ none ↦ [] | some v ↦ human_bytes v ]

module _ {F : Type 0} ⦃fl : Float64 F⦄ where
  -- The usage of core i, if it is a metric
  unfoldable pub core_part : InfoData F → ℕ → List Text
  core_part info i = elim (metric info (core_key i)) [
    | none ↦ []
    | some core ↦
        texts (bytes "cpu" ∷ decimal i ∷ bytes "=" ∷ fl.fixed 1 core ∷ bytes "%" ∷ []) ∷ []
  ]

  -- The part of a whole number, if it is not negative
  unfoldable pub count_part : InfoData F → Text → Text → List Text
  count_part info label key =
      let n = metric_int info key in
      if leb_ℤ (pos 0) n then texts (label ∷ bytes " " ∷ decimal_ℤ n ∷ []) ∷ [] else []

  unfoldable pub percent_part : Text → F → Text
  percent_part label v = texts (label ∷ bytes " " ∷ fl.fixed 2 v ∷ bytes "%" ∷ [])

  unfoldable pub truncated_part : Text → F → Text
  truncated_part label v = texts (label ∷ bytes " " ∷ decimal_ℤ (fl.trunc v) ∷ [])

  unfoldable pub rate_part : Text → F → Text
  rate_part label v = texts (label ∷ bytes " " ∷ human_bytes v ∷ bytes "/s" ∷ [])

  unfoldable pub swap_percent_text : Option F → Text
  swap_percent_text none = []
  swap_percent_text (some pct) = texts (bytes " (" ∷ fl.fixed 2 pct ∷ bytes "%)" ∷ [])

  module _ (find : Text → Text → List Text) where
    -- A part from a metric, or else from a group in the summary
    unfoldable pub metric_part : InfoData F → Text → (F → Text) → Text → (Text → Text) → List Text
    metric_part info key show pattern show_group = elim (metric info key) [
      | some v ↦ show v ∷ []
      | none ↦ group_part show_group (capture_group find info.summary pattern)
    ]

    unfoldable pub swap_part : InfoData F → List Text
    swap_part info = elim (metric info (bytes "mem.swap.used_bytes")) [
      | some used ↦
          texts (
            bytes "Swap "
            ∷ human_bytes used
            ∷ swap_percent_text (metric info (bytes "mem.swap.used_pct"))
            ∷ [])
          ∷ []
      | none ↦
          let (used, pct) =
            capture_group2 find info.summary
              (bytes "Swap: Total=[\\d]+B Used=([\\d]+)B \\(([\\d\\.]+)%\\)") in
          group_part
            (λ u.
              texts (bytes "Swap " ∷ human_bytes_string F u ∷ bytes " (" ∷ pct ∷ bytes "%)" ∷ []))
            used
    ]

    unfoldable pub io_part : InfoData F → List Text
    io_part info =
        let r = metric info (bytes "disk.read_bytes_per_sec") in
        let w = metric info (bytes "disk.write_bytes_per_sec") in
        if is_some r || is_some w
        then texts (
            bytes "ioRate=read "
            ∷ human_bytes (or_zero r)
            ∷ bytes "/s write "
            ∷ human_bytes (or_zero w)
            ∷ bytes "/s"
            ∷ [])
          ∷ []
        else group_part (λ io. io) (capture_group find info.summary (bytes "ioRate=([^,]+)"))

    unfoldable pub cpu_parts : InfoData F → List Text
    cpu_parts info =
        metric_part info (bytes "cpu.total_pct") (percent_part (bytes "Avg"))
          (bytes "totalUsage=([\\d\\.]+)%") (λ avg. texts (bytes "Avg " ∷ avg ∷ bytes "%" ∷ []))
        ++ core_part info 0
        ++ core_part info 1
        ++ core_part info 2
        ++ core_part info 3

    unfoldable pub mem_parts : InfoData F → List Text
    mem_parts info =
        metric_part info (bytes "mem.ram.used_pct") (percent_part (bytes "RAM"))
          (bytes "UsedApprox=[^()]*\\(([\\d\\.]+)%\\)")
          (λ used. texts (bytes "RAM " ∷ used ∷ bytes "%" ∷ []))
        ++ metric_part info (bytes "mem.ram.total_bytes")
            (λ total. bytes "Total " ++ human_bytes total) (bytes "RAM: Total=([\\d]+)B")
            (λ total. bytes "Total " ++ human_bytes_string F total)
        ++ swap_part info

    unfoldable pub disk_parts : InfoData F → List Text
    disk_parts info =
        metric_part info (bytes "disk.used_pct") (percent_part (bytes "Used"))
          (bytes "used=([\\d\\.]+)%") (λ used. texts (bytes "Used " ∷ used ∷ bytes "%" ∷ []))
        ++ io_part info

    unfoldable pub net_parts : InfoData F → List Text
    net_parts info =
        metric_part info (bytes "net.rx_bytes_per_sec") (rate_part (bytes "RX"))
          (bytes "rxRate=([^,]+)") (λ rx. bytes "RX " ++ rx)
        ++ metric_part info (bytes "net.tx_bytes_per_sec") (rate_part (bytes "TX"))
            (bytes "txRate=([^\\)]+)") (λ tx. bytes "TX " ++ tx)

    unfoldable pub file_parts : InfoData F → List Text
    file_parts info =
        metric_part info (bytes "file.events") (truncated_part (bytes "Events"))
          (bytes "events=([\\d]+)") (λ ev. bytes "Events " ++ ev)
        ++ metric_part info (bytes "file.files") (truncated_part (bytes "Files"))
            (bytes "files=([\\d]+)") (λ files. bytes "Files " ++ files)

    unfoldable pub parts_for : Text → InfoData F → List Text
    parts_for up info =
        if contains up (bytes "CPU")
        then cpu_parts info
        else if contains up (bytes "MEM")
        then mem_parts info
        else if contains up (bytes "DISK")
        then disk_parts info
        else if contains up (bytes "NET")
        then net_parts info
        else if contains up (bytes "FILECHANGE")
        then file_parts info
        else if contains up (bytes "CONN")
        then count_part info (bytes "Conns") (bytes "conn.total")
          ++ count_part info (bytes "New") (bytes "conn.new")
          ++ count_part info (bytes "Closed") (bytes "conn.dead")
        else if contains up (bytes "PROC")
        then count_part info (bytes "Procs") (bytes "proc.total")
          ++ count_part info (bytes "New") (bytes "proc.new")
          ++ count_part info (bytes "Dead") (bytes "proc.dead")
        else if contains up (bytes "PERSIST")
        then count_part info (bytes "Added") (bytes "persist.added")
          ++ count_part info (bytes "Changed") (bytes "persist.changed")
          ++ count_part info (bytes "Removed") (bytes "persist.removed")
        else []

    -- summarizeInfo
    unfoldable pub summarize_info : Text → InfoData F → Text
    summarize_info name info = parts_or info.summary (parts_for (to_upper name) info)
