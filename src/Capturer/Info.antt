-- ===== src/Capturer/Info.antt =====
-- capturer/info.go, and the element types of capturer/process.go, capturer/file.go and
-- capturer/conn.go that a report carries. A `time.Time` is the number of nanoseconds since Go's
-- zero time, so `IsZero` is a comparison with 0.
use mini_edr.Prelude.{
  ℕ, ℤ, pos, Text, Bool, List, [], Option, none, length, Float64, GoMap, ◌==◌, nat_eq,
}

abbrev pub Time : Type 0
Time = ℕ

abbrev pub is_zero : Time → Bool
is_zero t = t == 0

pub record ProcMeta : Type 0 where
  pub pid : ℤ
  pub ppid : ℤ
  pub name : Text
  pub exe : Text
  pub cmdline : Text
  pub create_time : Time

pub record FileMeta : Type 0 where
  pub size : ℤ
  pub mode : ℕ
  pub mod_time : Time

pub record FileEvent : Type 0 where
  pub at : Time
  pub type_of : Text
  pub path : Text
  pub file_meta : Option FileMeta

pub record ConnId : Type 0 where
  pub family : ℕ
  pub type_of : ℕ
  pub pid : ℤ
  pub status : Text
  pub lip : Text
  pub lport : ℕ
  pub rip : Text
  pub rport : ℕ

-- The dynamic types that an entry of `Fields` is tested for; a nil pointer in a slice is `none`.
pub data Field : Type 0 where
  procs : List ProcMeta → Field
  proc_ptrs : List (Option ProcMeta) → Field
  file_events : List FileEvent → Field
  file_event_ptrs : List (Option FileEvent) → Field
  conns : List ConnId → Field
  conn_ptrs : List (Option ConnId) → Field
  other_field : Field

pub record TelemetryMeta (F : Type 0) : Type 0 where
  pub host : Text
  pub agent_version : Text
  pub agent_build : Text
  pub session : Text
  pub timezone : Text
  pub captured_at : Time
  pub os : Text
  pub arch : Text
  pub capturer : Text
  pub interval_sec : F
  pub max_files : ℤ

-- `none` is a nil map.
pub record InfoData (F : Type 0) : Type 0 where
  pub summary : Text
  pub metrics : Option (GoMap Text F)
  pub fields : Option (GoMap Text Field)
  pub meta : TelemetryMeta F

module _ {F : Type 0} ⦃fl : Float64 F⦄ where
  -- TelemetryMeta{}
  abbrev pub zero_meta : TelemetryMeta F
  zero_meta = record {
    host = [];
    agent_version = [];
    agent_build = [];
    session = [];
    timezone = [];
    captured_at = 0;
    os = [];
    arch = [];
    capturer = [];
    interval_sec = fl.of_int (pos 0);
    max_files = pos 0;
  }

  -- InfoData{Summary: summary}
  abbrev pub summary_only : Text → InfoData F
  summary_only summary = record {
    summary = summary;
    metrics = none;
    fields = none;
    meta = zero_meta;
  }

  -- float64(len(xs))
  abbrev pub count_float {ℓ} : {A : Type ℓ} → List A → F
  count_float xs = fl.of_int (pos (length xs))
