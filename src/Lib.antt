-- ===== src/Lib.antt =====
-- miniEDR, a small endpoint detection and response agent. Capturers take snapshots of the host and
-- report each as an InfoData; a Detector turns a report into alerts by rules, completes them, drops
-- repetitions and flags what exceeds a rate; an AlertPipeline hands the alerts that are not flagged
-- to a ResponseRouter, whose PolicyEngine decides which of them reach the responders, or to the
-- responders directly. The dashboard adds custom metrics, whose expressions a user writes, to a
-- report before its rules run.
--
-- Which file models which part:
--   Prelude          strings, maps, signed integers, floats and equality of Go
--   Capturer/Info    the reports: capturer/info.go, and the records of process.go, file.go, conn.go
--   Capturer/Conn, Capturer/Process    capturer/conn.go and capturer/process.go
--   Capturer/Persist       capturer/persistent.go
--   Capturer/Net, Capturer/Disk, Capturer/Mem, Capturer/Cpu    capturer/net.go, disk.go, mem.go and
--                          cpu.go, with their verbose texts; Rates and Since hold what they share
--   Capturer/Config        capturer/config.go, and CapturersBuilder of capturer/capturer.go
--   Capturer/Files         capturer/file.go: the scan, and in Changes the events and the report
--   Detection/Types  the types of detection.go, and the clock
--   Detection/Enrich       enrichAlert and mergeMeta of detection.go
--   Detection/Dedup        AlertDeduper of detection.go
--   Detection/RateLimit    RateLimiter of detection.go
--   Detection/Detector     Evaluate of detection.go
--   Detection/Responders   ResponderPipeline of detection.go
--   Response/Policy, Response/Router   PolicyEngine and ResponseRouter of response.go
--   Detection/Rules        the built-in rules of detection_rules.go
--   Detection/Ioc          RuleIOCMatch, its matcher and its configuration of ioc.go
--   Response/Killer        ProcessKillerResponder of response_actions.go
--   Pipeline               AlertPipeline of pipeline.go, and in Reports a run of reports
--   Agent                  processInfo of agent/agent.go, with the statistics of the sinks
--   Agent/Queue            the channel of agent/agent.go, with pipelineLoop and the captures as steps
--   Agent/Capture          captureOnce of agent/agent.go up to the channel
--   Agent/SetUp            NewCollectAgent, AddSink, AddResponder and the checks of Run;
--                          capturer/interval.go and schedule.go
--   EdrAgent               EDRAgent of agent.go, up to its goroutines
--   Files                  JSONFileSink of telemetry.go and AlertFileResponder of response_actions.go
--   Dashboard/Metric       MetricExpr of dashboard/dashboard.go: parseMetricExpr (Lexer, Parser),
--                          formatMetricExpr (Printer), evalMetricExpr, applyCustomMetrics (Eval),
--                          toCustomMetricPayload, normalizeCustomMetrics (Saved), metricLess and
--                          mergeMetrics (Order), deriveDefaultMetrics (Defaults)
--   Dashboard/Rules        RuleDefinition of dashboard/dashboard.go: normalizeRulesConfig,
--                          buildMetricRule and the rebuilding of the detector
--   Dashboard/Settings     the rules and custom metrics of dashboard/dashboard.go with their files,
--                          handleRules and handleMetrics
--   Dashboard/Graphs       deriveGraphs of dashboard/dashboard.go, with the scales of its gauges
--   Dashboard/Item, Dashboard/Summary    captureSingle of dashboard/dashboard.go up to its lock, and
--                          summarizeInfo
--   Dashboard/History      captureSingle of dashboard/dashboard.go as far as it stores logs and
--                          alerts, and kickoffCorrelation
--   Dashboard/Auth         extractAuthToken and authorize of dashboard/dashboard.go; Cookie holds
--                          SetCookie and Cookie of net/http
--   Dashboard/Overlap      alertsOverlap of dashboard/dashboard.go; correlateAlerts and
--                          mergeRelatedJSON in Correlate
--   CommandLine            resolveConfigPath and printStartupHelp of cli/main.go, and SnapshotManager of
--                          capturer/manager.go; Alerts: buildAlertPipeline of cli/main.go
-- A child module of these states and proves a property of its parent. Tests holds runs of the
-- definitions and an instance of each theorem that has hypotheses.
--
-- How the code is modelled. A method with a pointer receiver returns the receiver's new value; a nil
-- pointer is `none`. A mutex makes each call one step, and a history of calls is a list. The reading
-- of time.Now() is a sequence of times without any assumption, unless a theorem names one; the rest
-- of the world is a parameter that responders and hooks change. A time is a number of nanoseconds
-- after the zero time, without the bound of 64 bits. A Go map is an association list. A string is
-- the list of its bytes; strings.ToLower and strings.TrimSpace treat ASCII only. The floats are an
-- interface, Float64, without laws on rounding or on printing; a theorem that needs it takes as a
-- hypothesis the order of the whole numbers among them, and that `<=` is the negation of `<` turned
-- around unless a number is NaN, or that an operation on NaN gives NaN. Rules, responders, hooks and
-- the source of identifiers are functions that the theorems take as they are.
-- The parser recurses on fuel, four units for a byte of the input and eight more: a token takes a
-- byte at least, and between two tokens there are at most four calls.
--
-- A capturer takes what it reads of the host as functions, and time.Format and sort.Slice are
-- parameters; the theorems assume of sort.Slice that it keeps the elements. The agent's goroutines
-- are a relation between states: a step is a channel operation, a processInfo, or the end of the
-- context, and the steps come in any order. The items captured and processed are listed in the state
-- for the statements alone. The agent's counters have no bound.
--
-- The counters that gauges add up are 64 bits wide and wrap around. The files of the dashboard, their
-- JSON, and the regular expressions that find numbers in a summary are parameters.
--
-- Not modelled: the sources of the persistence capturer, tickers, the flags, the
-- goroutines of agent.go, and the HTTP server with its other handlers and its pages.
-- A write that fails is taken to have written nothing.
pub mod Prelude
pub mod Capturer
pub mod Detection
pub mod Response
pub mod Pipeline
pub mod Agent
pub mod Files
pub mod Dashboard
pub mod CommandLine
pub mod EdrAgent
mod Tests
