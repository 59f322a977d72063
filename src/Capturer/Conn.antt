-- ===== src/Capturer/Conn.antt =====
-- ConnCapturer of capturer/conn.go. `rfc3339` is the layout of Time.Format.
pub mod Changes
pub mod Verbose
use mini_edr.Prelude.Strings.{decimal}
use mini_edr.Prelude.{
  ℕ, ℤ, Text, text_eq, text_beq, text_beq_iff, bytes, Bool, true, ◌&&◌, ◌==◌, nat_eq, int_eq, GoEq,
  List, [], ◌∷◌, ◌++◌, Option, none, some, GoMap, insert, keys_missing, length, take, is_empty,
  if◌then◌else◌, Float64, ◌≡◌, ◌↔◌, arith,
}
use mini_edr.Capturer.Info.{
  Time, ConnId, InfoData, zero_meta, Field, conns, summary_only, count_float,
}
use mini_edr.Prelude.World.{World, time_now}
use mini_edr.Prelude.Fallible.{Fallible, value, failure}

unfoldable pub conn_id_beq : ConnId → ConnId → Bool
conn_id_beq a b =
    a.family == b.family
    && a.type_of == b.type_of
    && a.pid == b.pid
    && text_beq a.status b.status
    && text_beq a.lip b.lip
    && a.lport == b.lport
    && text_beq a.rip b.rip
    && a.rport == b.rport

pub conn_id_beq_iff : (a b : ConnId) → (conn_id_beq a b ≡ true) ↔ (a ≡ b)
unfolding conn_id_beq
conn_id_beq_iff a b = ground (
  arith,
  text_beq_iff a.status b.status,
  text_beq_iff a.lip b.lip,
  text_beq_iff a.rip b.rip,
  int_eq.same_iff a.pid b.pid,
)

instance abbrev pub conn_id_eq : GoEq ConnId
conn_id_eq = record { same = conn_id_beq; same_iff = conn_id_beq_iff }

-- An address and a connection as gopsutil reports it, with the fields that the capturer reads.
pub record Addr : Type 0 where
  pub ip : Text
  pub port : ℕ

pub record ConnectionStat : Type 0 where
  pub family : ℕ
  pub type_of : ℕ
  pub laddr : Addr
  pub raddr : Addr
  pub status : Text
  pub pid : ℤ

pub record ConnSnapshot : Type 0 where
  pub at : Time
  pub live : GoMap ConnId ConnectionStat
  pub new_ids : List ConnId
  pub dead_ids : List ConnId

-- ConnectionsFn: the connections or an error, and the world after the call; `none` is a nil function.
pub record ConnCapturer (E : Type 0) : Type 0 where
  pub connections_fn : Option (Text → World E → Fallible (List ConnectionStat) × World E)
  pub kind : Text
  pub prev : Option ConnSnapshot
  pub curr : Option ConnSnapshot

pub data ConnError : Type 0 where
  no_connections_fn : ConnError
  connections_failed : Text → Text → ConnError

unfoldable pub conn_id : ConnectionStat → ConnId
conn_id cs = record {
  family = cs.family;
  type_of = cs.type_of;
  pid = cs.pid;
  status = cs.status;
  lip = cs.laddr.ip;
  lport = cs.laddr.port;
  rip = cs.raddr.ip;
  rport = cs.raddr.port;
}

-- `for _, cs := range list { next.Conns[id] = cs }`
unfoldable pub conn_map :
    List ConnectionStat → GoMap ConnId ConnectionStat → GoMap ConnId ConnectionStat
conn_map [] m = m
conn_map (cs ∷ list) m = conn_map list (insert (conn_id cs) cs m)

-- The snapshot with its differences to the last one.
unfoldable pub conn_snapshot :
    Option ConnSnapshot → Time → GoMap ConnId ConnectionStat → ConnSnapshot
conn_snapshot none at live = record { at = at; live = live; new_ids = []; dead_ids = [] }
conn_snapshot (some last) at live = record {
  at = at;
  live = live;
  new_ids = keys_missing live last.live;
  dead_ids = keys_missing last.live live;
}

module _ {E : Type 0} where
  -- Capture after ConnectionsFn has returned.
  unfoldable pub take_conns :
      ConnCapturer E
      → Fallible (List ConnectionStat)
      → World E
      → Option ConnError × ConnCapturer E × World E
  take_conns c (failure err) w = (some (connections_failed c.kind err), c, w)
  take_conns c (value list) w =
      let (at, w') = time_now w in
      (
        none,
        record c { prev = c.curr; curr = some (conn_snapshot c.curr at (conn_map list [])) },
        w',
      )

  -- (*ConnCapturer).Capture
  unfoldable pub capture_conns :
      ConnCapturer E → World E → Option ConnError × ConnCapturer E × World E
  capture_conns c w = elim c.connections_fn [
    | none ↦ (some no_connections_fn, c, w)
    | some f ↦ let (list, w') = f c.kind w in take_conns c list w'
  ]

unfoldable pub conn_fields : List ConnId → Option (GoMap Text Field)
conn_fields ids =
    if is_empty ids then none else some ((bytes "conn.new", conns (take 200 ids)) ∷ [])

module _ {F : Type 0} ⦃fl : Float64 F⦄ where
  unfoldable pub conn_report : (Time → Text) → Text → ConnSnapshot → InfoData F
  conn_report rfc3339 kind s = record {
    summary =
        bytes "ConnSnapshot(at="
        ++ (rfc3339 s.at
            ++ (bytes ", kind="
                ++ (kind
                    ++ (bytes ", conns="
                        ++ (decimal (length s.live)
                            ++ (bytes ", new="
                                ++ (decimal (length s.new_ids)
                                    ++ (bytes ", dead="
                                        ++ (decimal (length s.dead_ids) ++ bytes ")")))))))));
    metrics = some (
        (bytes "conn.total", count_float s.live)
        ∷ (bytes "conn.new", count_float s.new_ids)
        ∷ (bytes "conn.dead", count_float s.dead_ids)
        ∷ []);
    fields = conn_fields s.new_ids;
    meta = zero_meta;
  }

  -- (*ConnCapturer).GetInfo, which gives no error
  unfoldable pub conn_info : {E : Type 0} → (Time → Text) → ConnCapturer E → InfoData F
  conn_info rfc3339 c = elim c.curr [
    | none ↦ summary_only (bytes "ConnSnapshot(empty)")
    | some s ↦ conn_report rfc3339 c.kind s
  ]
