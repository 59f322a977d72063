-- ===== src/Detection/Ioc.antt =====
-- ioc.go: lists of indicators, and the rule that matches a report against them.
pub mod Indicators
pub mod Matcher
pub mod Rule
use mini_edr.Prelude.Strings.{to_lower, trim_space}
use mini_edr.Prelude.{
  Text, text_eq, Bool, not, ◌&&◌, List, [], ◌∷◌, GoMap, has, insert, is_empty, if◌then◌else◌,
}

pub record IocConfig : Type 0 where
  pub process_names : List Text
  pub process_paths : List Text
  pub process_cmdlines : List Text
  pub file_paths : List Text
  pub remote_ips : List Text

-- strings.ToLower(strings.TrimSpace(v))
unfoldable pub normalize : Text → Text
normalize v = to_lower (trim_space v)

-- The loop of normalizeIndicators, over the values that are left and the ones seen.
unfoldable pub normalize_loop : List Text → GoMap Text (Unit {0}) → List Text
normalize_loop [] seen = []
normalize_loop (v ∷ vals) seen =
    let w = normalize v in
    let fresh = not (is_empty w) && not (has w seen) in
    let rest = normalize_loop vals (if fresh then insert w tt seen else seen) in
    if fresh then w ∷ rest else rest

unfoldable pub normalize_indicators : List Text → List Text
normalize_indicators vals = normalize_loop vals []

unfoldable pub normalize_ioc_config : IocConfig → IocConfig
normalize_ioc_config cfg = record {
  process_names = normalize_indicators cfg.process_names;
  process_paths = normalize_indicators cfg.process_paths;
  process_cmdlines = normalize_indicators cfg.process_cmdlines;
  file_paths = normalize_indicators cfg.file_paths;
  remote_ips = normalize_indicators cfg.remote_ips;
}

-- IOCConfig.empty
abbrev pub has_no_indicators : IocConfig → Bool
has_no_indicators c =
    is_empty c.process_names
    && is_empty c.process_paths
    && is_empty c.process_cmdlines
    && is_empty c.file_paths
    && is_empty c.remote_ips
