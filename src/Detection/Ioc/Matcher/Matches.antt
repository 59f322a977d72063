-- ===== src/Detection/Ioc/Matcher/Matches.antt =====
-- When the matcher of ioc.go finds an indicator.
use mini_edr.Prelude.Strings.{to_lower, contains}
use mini_edr.Prelude.{Text, true, List, [], ◌∷◌, ◌≡◌, ◌≢◌, ◌↔◌, ◌⊎◌, arith, Any}
use mini_edr.Capturer.Info.{ProcMeta}
use mini_edr.Detection.Ioc.Matcher.{IocMatcher, find_indicator, match_process}

-- Some indicator that is not empty stands in the text.
abbrev pub Hits : List Text → Text → Type 0
Hits inds s = Any (λ ind. (ind ≢ []) × (contains s ind ≡ true)) inds

find_indicator_iff : (inds : List Text) (s : Text) → (find_indicator inds s ≢ []) ↔ Hits inds s
unfolding find_indicator
find_indicator_iff [] s = ground arith
find_indicator_iff (ind ∷ inds) s = ground (arith, find_indicator_iff inds s)

-- A process matches exactly if its name, its executable or its command line, in lower case, has one
-- of the indicators of that kind in it.
pub match_process_iff :
    (m : IocMatcher) (p : ProcMeta)
    → ((match_process m p).0 ≢ []) ↔ (
        Hits m.proc_names (to_lower p.name)
        ⊎ Hits m.proc_paths (to_lower p.exe)
        ⊎ Hits m.proc_cmdlines (to_lower p.cmdline))
unfolding match_process
match_process_iff m p = ground (
  arith,
  find_indicator_iff m.proc_names (to_lower p.name),
  find_indicator_iff m.proc_paths (to_lower p.exe),
  find_indicator_iff m.proc_cmdlines (to_lower p.cmdline),
)
