-- ===== src/Capturer/Config.antt =====
-- The configuration of capturer/config.go, and CapturersBuilder of capturer/capturer.go. `decode` is
-- json.Unmarshal into a configuration, `read_file` os.ReadFile, and `watch_paths` what
-- defaultWatchPaths finds on the host.
use mini_edr.Prelude.Strings.{trim_space}
use mini_edr.Prelude.Fallible.{Fallible, value, failure}
use mini_edr.Prelude.{
  ℤ, pos, is_nonpos, Text, bytes, Bool, true, List, [], ◌∷◌, ◌++◌, map, join, is_empty,
  if◌then◌else◌, ◌≡◌, ◌⊎◌, inl, inr, refl,
}

pub record CapturersConfig : Type 0 where
  pub cpu_enabled : Bool
  pub conn_enabled : Bool
  pub conn_kind : Text
  pub disk_enabled : Bool
  pub disk_paths : List Text
  pub file_enabled : Bool
  pub file_paths : List Text
  pub file_max : ℤ
  pub mem_enabled : Bool
  pub net_enabled : Bool
  pub persist_enabled : Bool
  pub proc_enabled : Bool

-- defaultCapturersConfig
abbrev pub default_capturers_config : CapturersConfig
default_capturers_config = record {
  cpu_enabled = true;
  conn_enabled = true;
  conn_kind = bytes "all";
  disk_enabled = true;
  disk_paths = bytes "/" ∷ [];
  file_enabled = true;
  file_paths = [];
  file_max = pos 50000;
  mem_enabled = true;
  net_enabled = true;
  persist_enabled = true;
  proc_enabled = true;
}

-- The capturers, by their constructors, with what Build sets in them.
pub data Built : Type 0 where
  built_cpu : Built
  built_conn : Text → Built
  built_disk : Text → Built
  built_file : List Text → ℤ → Built
  built_mem : Built
  built_net : Built
  built_persist : Built
  built_proc : Built

pub record CapturersBuilder : Type 0 where
  pub config : List Text
  pub config_file : Text

abbrev pub if_enabled : Bool → List Built → List Built
if_enabled enabled built = if enabled then built else []

abbrev pub text_or_default : Text → Text → Text
text_or_default fallback t = if is_empty t then fallback else t

-- `if len(paths) == 0 { … }`
abbrev pub paths_or : List Text → List Text → List Text
paths_or fallback paths = if is_empty paths then fallback else paths

module _ (watch_paths : List Text) where
  -- The capturers of a configuration, in the order of Build.
  unfoldable pub built_of : CapturersConfig → List Built
  built_of cfg =
      if_enabled cfg.cpu_enabled (built_cpu ∷ [])
      ++ if_enabled cfg.conn_enabled (built_conn (text_or_default (bytes "all") cfg.conn_kind) ∷ [])
      ++ if_enabled cfg.disk_enabled (map built_disk (paths_or (bytes "/" ∷ []) cfg.disk_paths))
      ++ if_enabled cfg.file_enabled (
          built_file (paths_or watch_paths cfg.file_paths)
            (if is_nonpos cfg.file_max then pos 50000 else cfg.file_max)
          ∷ [])
      ++ if_enabled cfg.mem_enabled (built_mem ∷ [])
      ++ if_enabled cfg.net_enabled (built_net ∷ [])
      ++ if_enabled cfg.persist_enabled (built_persist ∷ [])
      ++ if_enabled cfg.proc_enabled (built_proc ∷ [])

pub data BuildError : Type 0 where
  read_failed : Text → Text → BuildError
  parse_failed : Text → BuildError
  none_enabled : BuildError

module _ (read_file : Text → Fallible Text) where
  -- os.ReadFile of the configuration, with its error
  unfoldable pub read_config : Text → BuildError ⊎ Text
  read_config path = elim (read_file path) [
    | value text ↦ inr text
    | failure err ↦ inl (read_failed path err)
  ]

  -- rawConfig
  unfoldable pub raw_config : CapturersBuilder → BuildError ⊎ Text
  raw_config b =
      let from_file = if is_empty b.config_file then inr [] else read_config b.config_file in
      if is_empty b.config then from_file else inr (join (bytes "\n") b.config)

module _ (decode : Text → CapturersConfig → Fallible CapturersConfig) where
  unfoldable pub parse_config : Text → BuildError ⊎ CapturersConfig
  parse_config text = elim (decode text default_capturers_config) [
    | value cfg ↦ inr cfg
    | failure err ↦ inl (parse_failed err)
  ]

  -- loadConfig after rawConfig has returned
  unfoldable pub load_raw : BuildError ⊎ Text → BuildError ⊎ CapturersConfig
  load_raw (inl err) = inl err
  load_raw (inr raw) =
      let text = trim_space raw in
      if is_empty text then inr default_capturers_config else parse_config text

module _ (watch_paths : List Text) where
  -- Build after loadConfig has returned
  unfoldable pub build_with : BuildError ⊎ CapturersConfig → BuildError ⊎ List Built
  build_with (inl err) = inl err
  build_with (inr cfg) =
      let built = built_of watch_paths cfg in if is_empty built then inl none_enabled else inr built

-- (*CapturersBuilder).Build
unfoldable pub build :
    List Text
    → (Text → Fallible Text)
    → (Text → CapturersConfig → Fallible CapturersConfig)
    → CapturersBuilder
    → BuildError ⊎ List Built
build watch_paths read_file decode b =
    build_with watch_paths (load_raw decode (raw_config read_file b))

-- Without a configuration Build gives every capturer, one disk among them.
build-default :
    (watch_paths : List Text) (read_file : Text → Fallible Text)
    (decode : Text → CapturersConfig → Fallible CapturersConfig)
    → build watch_paths read_file decode (record { config = []; config_file = [] })
      ≡ inr (
          built_cpu
          ∷ built_conn (bytes "all")
          ∷ built_disk (bytes "/")
          ∷ built_file watch_paths (pos 50000)
          ∷ built_mem
          ∷ built_net
          ∷ built_persist
          ∷ built_proc
          ∷ [])
unfolding build build_with load_raw raw_config built_of trim_space
build-default watch_paths read_file decode = refl
