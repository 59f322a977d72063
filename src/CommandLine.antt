-- ===== src/CommandLine.antt =====
-- resolveConfigPath and printStartupHelp of cli/main.go, and SnapshotManager of
-- capturer/manager.go. `is_file` tells whether os.Stat finds a file that is no directory, and
-- `join_path` is filepath.Join.
pub mod Alerts
pub mod Dry
use mini_edr.Prelude.Strings.{has_prefix, decimal, texts}
use mini_edr.Prelude.World.{World}
use mini_edr.Prelude.Fallible.{Fallible, value, failure}
use mini_edr.Prelude.{
  ℕ, suc, Text, bytes, Bool, not, ◌&&◌, List, [], ◌∷◌, ◌++◌, Option, none, some, is_empty, length,
  if◌then◌else◌,
}
use mini_edr.Capturer.Info.{InfoData}

-- `try`
abbrev found : (Text → Bool) → Text → Bool
found is_file p = not (is_empty p) && is_file p

-- The file beside the executable, or in the folder above; `none` is an error of os.Executable.
unfoldable pub beside_executable : (Text → Bool) → (List Text → Text) → Option Text → Text
beside_executable is_file join_path none = []
beside_executable is_file join_path (some dir) =
    let here = join_path (dir ∷ bytes "config.json" ∷ []) in
    let above = join_path (dir ∷ bytes ".." ∷ bytes "config.json" ∷ []) in
    if found is_file here then here else if found is_file above then above else []

-- resolveConfigPath
unfoldable pub resolve_config_path : (Text → Bool) → (List Text → Text) → Option Text → Text → Text
resolve_config_path is_file join_path exe_dir user_path =
    if found is_file user_path
    then user_path
    else if found is_file (bytes "config.json")
    then bytes "config.json"
    else beside_executable is_file join_path exe_dir

-- The line that printStartupHelp logs about the dashboard
unfoldable pub startup_help : Bool → Text → Text
startup_help dashboard addr =
    let url =
      bytes "http://"
      ++ (if has_prefix addr (bytes ":") then bytes "localhost" ++ addr else addr) in
    if dashboard
    then texts (bytes "dashboard enabled at " ∷ url ∷ bytes " (disable with -dashboard=false)" ∷ [])
    else texts (
        bytes "dashboard disabled (enable with -dashboard=true, default addr "
        ∷ url
        ∷ bytes ")"
        ∷ [])

-- A capturer in the list of SnapshotManager, with its %T
pub record Managed (F E : Type 0) : Type 0 where
  pub type_name : Text
  pub capture : World E → Option Text × World E
  pub get_info : World E → Fallible (InfoData F) × World E

pub data ManagerError : Type 0 where
  no_capturer : ManagerError
  capture_failed : ℕ → Text → Text → ManagerError
  info_failed : ℕ → Text → Text → ManagerError

module _ {F E : Type 0} where
  -- The loop of Capture, which ends at the first error
  unfoldable pub capture_from : ℕ → List (Managed F E) → World E → Option ManagerError × World E
  capture_from i [] w = (none, w)
  capture_from i (c ∷ cs) w =
      let (err, w') = c.capture w in
      elim err [
        | some e ↦ (some (capture_failed i c.type_name e), w')
        | none ↦ capture_from (suc i) cs w'
      ]

  -- (*SnapshotManager).Capture
  unfoldable pub manager_capture : List (Managed F E) → World E → Option ManagerError × World E
  manager_capture cs w = if is_empty cs then (some no_capturer, w) else capture_from 0 cs w

  -- The loop of GetInfo, with the text so far
  unfoldable pub infos_from :
      ℕ → List (Managed F E) → Text → World E → Option ManagerError × Text × World E
  infos_from i [] b w = (none, b, w)
  infos_from i (c ∷ cs) b w =
      let (info, w') = c.get_info w in
      elim info [
        | failure err ↦ (some (info_failed i c.type_name err), [], w')
        | value report ↦
            infos_from (suc i) cs
              (b
                ++ texts (
                    bytes "- ["
                    ∷ decimal i
                    ∷ bytes "] "
                    ∷ c.type_name
                    ∷ bytes ": "
                    ∷ report.summary
                    ∷ bytes "\n"
                    ∷ []))
              w'
      ]

  -- (*SnapshotManager).GetInfo; `out_type` is the %T of its writer.
  unfoldable pub manager_info :
      Text → List (Managed F E) → World E → Option ManagerError × Text × World E
  manager_info out_type cs w =
      if is_empty cs
      then (none, bytes "SnapshotManager(capturers=0)\n", w)
      else infos_from 0 cs
          (texts (
            bytes "SnapshotManager(out="
            ∷ out_type
            ∷ bytes ", capturers="
            ∷ decimal (length cs)
            ∷ bytes ")\n"
            ∷ []))
          w
