-- ===== src/CommandLine/Dry.antt =====
-- The alert pipeline of cli/main.go without -response-kill, or with its dry run.
use mini_edr.Prelude.World.{World}
use mini_edr.Prelude.Fallible.{Fallible, value, failure}
use mini_edr.Prelude.{
  Text, Bool, true, false, not, ◌&&◌, List, [], ◌∷◌, none, some, is_empty, if◌then◌else◌, All,
  All-append, ◌≡◌, refl, ap, ◌∙◌, arith, Float64,
}
use mini_edr.Capturer.Info.{InfoData}
use mini_edr.Detection.Types.{Alert}
use mini_edr.Detection.Ioc.{IocConfig}
use mini_edr.Detection.Responders.{ResponderPipeline, log_responder, log_handle, log_encoded}
use mini_edr.Response.Killer.{ProcessKiller}
use mini_edr.Response.Killer.Targets.{kill_handle-dry}
use mini_edr.Pipeline.Delivery.{Keeps, KeepsAll}
use mini_edr.Pipeline.Reports.{process_all, process_all-Keeps}
use mini_edr.CommandLine.Alerts.{
  Host, HostCalls, AlertFlags, print_line, host_killer, file_responder, kill_responder,
  with_alert_file, chosen_responders, build_alert_pipeline,
}

one_if :
    {A : Type 0} (P : A → Type 0) (b : Bool) (x : A)
    → (b ≡ true → P x)
    → All P (if b then x ∷ [] else [])
one_if P true x h = (h refl, tt)
one_if P false x h = tt

one_unless :
    {A : Type 0} (P : A → Type 0) (b : Bool) (x : A) → P x → All P (if b then [] else x ∷ [])
one_unless P true x h = tt
one_unless P false x h = (h, tt)

module _ {F P : Type 0} ⦃fl : Float64 F⦄ (calls : HostCalls P) (encode : Alert F → Fallible Text)
    (before : P) where
  Untouched : Host P → Type 0
  Untouched h = h.processes ≡ before

  log_encoded-Untouched :
      (encoded : Fallible Text) (w : World (Host P))
      → Untouched w.outside
      → Untouched (log_encoded (print_line calls) encoded w).1.outside
  unfolding log_encoded Untouched
  log_encoded-Untouched (failure err) w j = j
  log_encoded-Untouched (value text) w j = j

  log_responder-Keeps : Keeps Untouched (some (log_responder encode (some (print_line calls))))
  unfolding log_responder log_handle
  log_responder-Keeps a w good j = log_encoded-Untouched (encode a) w j

  file_responder-Keeps : Keeps Untouched (some (file_responder encode))
  unfolding file_responder Untouched
  file_responder-Keeps a w good j = j

  kill_responder-Keeps :
      (r : ProcessKiller (Host P))
      → r.dry_run ≡ true
      → Keeps Untouched (some (kill_responder {F = F} r))
  unfolding kill_responder Untouched
  kill_responder-Keeps r dry a w good j =
      ap (λ (v : World (Host P)). v.outside.processes) (kill_handle-dry r a w dry) ∙ j

  some_if :
      (rs : ResponderPipeline F (Host P))
      → All (Keeps Untouched) rs
      → KeepsAll Untouched (if is_empty rs then none else some rs)
  some_if [] h = tt
  some_if (r ∷ rs) h = h

  chosen_responders-Keeps :
      (flags : AlertFlags)
      → flags.response_kill && not flags.response_kill_dry_run ≡ false
      → All (Keeps Untouched) (chosen_responders calls encode flags)
  unfolding chosen_responders
  chosen_responders-Keeps flags no_kill =
      All-append (Keeps Untouched) _ _
        (one_if (Keeps Untouched) flags.alerts_stdout _ (λ e. log_responder-Keeps))
        (All-append (Keeps Untouched) _ _
          (one_unless (Keeps Untouched) (is_empty flags.alert_file) _ file_responder-Keeps)
          (one_if (Keeps Untouched) flags.response_kill _ (λ e.
            kill_responder-Keeps (host_killer calls flags.response_kill_dry_run) (ground arith))))

with_alert_file-processes :
    {P : Type 0} (flags : AlertFlags) (h : Host P)
    → (with_alert_file flags h).processes ≡ h.processes
unfolding with_alert_file
with_alert_file-processes flags h = ground arith

-- Without -response-kill, or with its dry run, the pipeline that the command line builds leaves the
-- processes of the host as they are, over any run of reports and whatever the indicators are.
pub build_alert_pipeline-processes :
    {F P : Type 0} ⦃fl : Float64 F⦄ (calls : HostCalls P) (encode : Alert F → Fallible Text)
    (ioc : IocConfig) (flags : AlertFlags) (infos : List (InfoData F)) (w : World (Host P))
    → flags.response_kill && not flags.response_kill_dry_run ≡ false
    → let (p, h) = build_alert_pipeline calls encode ioc flags w.outside in
      (process_all p infos (record w { outside = h })).outside.processes ≡ w.outside.processes
unfolding build_alert_pipeline Untouched
build_alert_pipeline-processes calls encode ioc flags infos w no_kill =
    let h = with_alert_file flags w.outside in
    let built = build_alert_pipeline calls encode ioc flags w.outside in
    process_all-Keeps (Untouched calls encode w.outside.processes) built.0.responder built.0 infos
      (record w { outside = h }) (record { no_router = refl; responders = refl; no_source = refl })
      (some_if calls encode w.outside.processes (chosen_responders calls encode flags)
        (chosen_responders-Keeps calls encode w.outside.processes flags no_kill))
      (with_alert_file-processes flags w.outside)
