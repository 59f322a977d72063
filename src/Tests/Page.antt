-- ===== src/Tests/Page.antt =====
-- The gauges and metrics of dashboard/dashboard.go, and cli/main.go: instances.
use mini_edr.Prelude.Float.{int_floats-ComparesInts}
use mini_edr.Prelude.{
  ℤ, pos, int_eq, Text, text_eq, text_beq, bytes, true, List, [], ◌∷◌, ◌++◌, none, some, ◌≡◌, refl,
  int_floats,
}
use mini_edr.Capturer.Info.{InfoData, proc_ptrs}
use mini_edr.Dashboard.Metric.Order.{is_merged, merge_metrics}
use mini_edr.Dashboard.Metric.Order.Merged.{times, times-merge_metrics}
use mini_edr.Dashboard.Graphs.{update_count_scale}
use mini_edr.Dashboard.Graphs.Derived.{derive_graphs}
use mini_edr.Dashboard.Graphs.Bounds.{AreDrawn, derive_graphs-AreDrawn}
use mini_edr.CommandLine.Alerts.{Host, HostCalls, AlertFlags, build_alert_pipeline}
use mini_edr.CommandLine.Dry.{build_alert_pipeline-processes}
use mini_edr.Pipeline.Reports.{process_all}
use mini_edr.Files.Rotating.{new_alert_file_responder}
use mini_edr.Prelude.Fallible.{Fallible, value}
use mini_edr.Detection.Types.{Alert}
use mini_edr.Tests.Samples.{blank_info, world_at}
use mini_edr.Detection.Ioc.{IocConfig}

abbrev no_indicators : IocConfig
no_indicators = record {
  process_names = [];
  process_paths = [];
  process_cmdlines = [];
  file_paths = [];
  remote_ips = [];
}

-- A metric that stands in both lists is listed once.
times-merge_metrics_example :
    times
      (bytes "cpu")
      (merge_metrics (λ less names. names) (bytes "cpu" ∷ [] ∷ []) (bytes "mem" ∷ bytes "cpu" ∷ []))
    ≡ 1
unfolding is_merged text_beq
times-merge_metrics_example =
    times-merge_metrics (λ less names. names) (λ less p names. refl) (bytes "cpu")
      (bytes "cpu" ∷ [] ∷ []) (bytes "mem" ∷ bytes "cpu" ∷ [])

abbrev flooded : InfoData ℤ
flooded = record blank_info {
  metrics = some (
      (bytes "net.rx_bytes_per_sec", pos 900000000)
      ∷ (bytes "net.tx_bytes_per_sec", pos 900000000)
      ∷ []);
}

-- More traffic than the scale allows is shown as the full scale.
derive_graphs-AreDrawn_example :
    AreDrawn int_floats-ComparesInts
      (derive_graphs
        (λ pattern s. [])
        (update_count_scale (bytes "CONN"))
        (bytes "NET")
        flooded
        (pos 262144)
        []).0
derive_graphs-AreDrawn_example =
    derive_graphs-AreDrawn int_floats-ComparesInts (λ pattern s. [])
      (update_count_scale (bytes "CONN")) (bytes "NET") flooded (pos 262144) []

-- A host whose processes are the list of those that were killed
abbrev calls : HostCalls (List ℤ)
calls = record {
  write_stdout = λ text out. (none, out ++ text);
  find_process = λ pid killed. (none, killed);
  kill_process = λ pid killed. (none, pid ∷ killed);
}

abbrev host : Host (List ℤ)
host = record {
  stdout = [];
  disk = record { files = []; faults = λ n. none; calls = 0 };
  alert_file = new_alert_file_responder [] (pos 0);
  processes = [];
}

abbrev flags : AlertFlags
flags = record {
  alerts_stdout = true;
  alert_file = [];
  alert_file_max_bytes = pos 0;
  response_kill = true;
  response_kill_dry_run = true;
}

-- A report that raises an alert about a new process
abbrev suspect : InfoData ℤ
suspect = record blank_info {
  fields = some (
      (
        bytes "proc.new",
        proc_ptrs (
            some (record {
              pid = pos 42;
              ppid = pos 1;
              name = bytes "evil";
              exe = bytes "/tmp/evil";
              cmdline = [];
              create_time = 0;
            })
            ∷ []),
      )
      ∷ []);
}

abbrev indicators : IocConfig
indicators = record {
  process_names = bytes "evil" ∷ [];
  process_paths = [];
  process_cmdlines = [];
  file_paths = [];
  remote_ips = [];
}

abbrev encoded : Alert ℤ → Fallible Text
encoded a = value a.rule_id

build_alert_pipeline-processes_example :
    let (p, h) = build_alert_pipeline calls encoded indicators flags host in
    (process_all p (suspect ∷ suspect ∷ []) (world_at 0 h)).outside.processes ≡ []
build_alert_pipeline-processes_example =
    build_alert_pipeline-processes calls encoded indicators flags (suspect ∷ suspect ∷ [])
      (world_at 0 host) refl
