-- ===== src/Dashboard/Settings/Restart.antt =====
-- Rules that handleRules of dashboard/dashboard.go saved, as loadRulesConfig reads them after a
-- restart.
use mini_edr.Prelude.Fallible.{Fallible, value, failure}
use mini_edr.Prelude.{
  Text, bytes, Bool, true, false, List, [], ◌∷◌, ◌++◌, Option, none, some, if◌then◌else◌, ◌≡◌, ◌≢◌,
  refl, ◌∙◌, sym, All, Float64,
}
use mini_edr.Dashboard.Rules.{RuleDefinition, normalize_rules_config, rebuild_detector}
use mini_edr.Dashboard.Settings.{
  Files, Settings, rebuild, put_rules, write_encoded, save_rules_config, decoded_rules,
  load_rules_config,
}
use mini_edr.Dashboard.Settings.Handlers.{post, encoded, saved_rules, serve_rules}

-- What the restart relies on: a file that was written is read as it was written, and json reads rules
-- that it wrote, if each has a source, since a source that is empty is left out of the text.
pub record ReadsBack {F E : Type 0} (files : Files F E) (defaults : List (RuleDefinition F))
    : Type 0 where
  pub read-write_file :
      (path text : Text) (w w' : E)
      → files.write_file path text w ≡ (none, w')
      → files.read_file path w' ≡ some text
  pub decode-encode :
      (cfg : List (RuleDefinition F)) (text : Text)
      → All (λ r. r.source ≢ []) cfg
      → files.encode_rules cfg ≡ value text
      → files.decode_rules defaults (text ++ bytes "\n") ≡ some cfg

module _ {F : Type 0} ⦃fl : Float64 F⦄ where
  shown_rules :
      (b : Bool) (t : Settings F) → (if b then record t { shown = t.rules } else t).rules ≡ t.rules
  shown_rules true t = refl
  shown_rules false t = refl

  put_rules-rules :
      (cfg : List (RuleDefinition F)) (s : Settings F)
      → (put_rules cfg s).rules ≡ normalize_rules_config cfg
  unfolding put_rules rebuild rebuild_detector
  put_rules-rules cfg s = shown_rules s.has_snapshot (rebuild (record s { rules = cfg }))

module _ {F E : Type 0} (files : Files F E) (defaults : List (RuleDefinition F)) where
  decoded_rules-read :
      (text : Text) (cfg : List (RuleDefinition F))
      → files.decode_rules defaults text ≡ some cfg
      → decoded_rules files defaults (some text) ≡ normalize_rules_config cfg
  unfolding decoded_rules
  decoded_rules-read text cfg h = rw (h, decoded_rules)

  written-loaded :
      ReadsBack files defaults
      → (path : Text) (cfg : List (RuleDefinition F)) (t : Fallible Text) (w w' : E)
      → files.encode_rules cfg ≡ t
      → write_encoded files path t w ≡ (none, w')
      → All (λ r. r.source ≢ []) cfg
      → decoded_rules files defaults (files.read_file path w') ≡ normalize_rules_config cfg
  unfolding write_encoded
  written-loaded back path cfg (failure err) w w' e done sources = cc
  written-loaded back path cfg (value text) w w' e done sources =
      rw (back.read-write_file path (text ++ bytes "\n") w w' done)
        (decoded_rules-read (text ++ bytes "\n") cfg (back.decode-encode cfg text sources e))

module _ {F E : Type 0} ⦃fl : Float64 F⦄ (files : Files F E) (defaults : List (RuleDefinition F))
    (back : ReadsBack files defaults) where
  save-loaded :
      (path : Text) (cfg : List (RuleDefinition F)) (w w' : E)
      → save_rules_config files path cfg w ≡ (none, w')
      → path ≢ []
      → All (λ r. r.source ≢ []) cfg
      → load_rules_config files defaults path w' ≡ normalize_rules_config cfg
  unfolding save_rules_config load_rules_config
  save-loaded [] cfg w w' e path sources = absurd (path refl)
  save-loaded (c ∷ path) cfg w w' e full sources =
      written-loaded files defaults back (c ∷ path) cfg (files.encode_rules cfg) w w' refl e sources

  saved-loaded :
      (cfg : List (RuleDefinition F)) (s : Settings F) (r : Option Text × E) (w : E)
      (answer : List (RuleDefinition F))
      → save_rules_config files s.rules_path cfg w ≡ r
      → (saved_rules files cfg s r).0 ≡ encoded answer
      → s.rules_path ≢ []
      → All (λ r. r.source ≢ []) cfg
      → load_rules_config files defaults s.rules_path (saved_rules files cfg s r).2 ≡ answer
  unfolding saved_rules
  saved-loaded cfg s (some err, w') w answer e ans path sources = cc
  saved-loaded cfg s (none, w') w answer e ans path sources =
      save-loaded s.rules_path cfg w w' e path sources ∙ sym (put_rules-rules cfg s) ∙ cc

  -- Rules that a user saves survive a restart: if handleRules answers a POST with rules, then
  -- loadRulesConfig reads these same rules from the files that it left, although both normalize
  -- them. The server has a path for its rules, each saved rule has a source, and reading gives back
  -- what was written.
  pub load_rules_config-serve_rules :
      (req : List (RuleDefinition F)) (s : Settings F) (w : E) (answer : List (RuleDefinition F))
      → s.rules_path ≢ []
      → All (λ r. r.source ≢ []) (normalize_rules_config req)
      → (serve_rules files (post (value req)) s w).0 ≡ encoded answer
      → load_rules_config files defaults s.rules_path (serve_rules files (post (value req)) s w).2
        ≡ answer
  unfolding serve_rules
  load_rules_config-serve_rules req s w answer path sources h =
      let cfg = normalize_rules_config req in
      saved-loaded cfg s (save_rules_config files s.rules_path cfg w) w answer refl h path sources
