-- ===== src/Capturer/Conn/Verbose.antt =====
-- GetVerboseInfo of ConnCapturer, capturer/conn.go. `rfc3339` is the layout of Time.Format, and
-- `sort_strings` is sort.Strings, or sort.Slice by `<` on the names of protocols.
use mini_edr.Prelude.Strings.{decimal, decimal_ℤ, signed, texts, trim_suffix}
use mini_edr.Prelude.{
  ℕ, suc, pos, ◌-ℤ◌, Text, text_eq, bytes, nat_eq, int_eq, ◌==◌, ltb, ◌&&◌, ◌||◌, List, [], ◌∷◌,
  map, join, take, length, is_empty, Option, none, some, is_some, Bool, GoMap, lookup, insert, keys,
  if◌then◌else◌,
}
use mini_edr.Capturer.Since.{prev_total, more_text}
use mini_edr.Capturer.Info.{Time, ConnId}
use mini_edr.Capturer.Conn.{ConnectionStat, ConnSnapshot, ConnCapturer, conn_id_eq}

-- connProtoFromType
unfoldable pub conn_proto_from_type : ℕ → Text
conn_proto_from_type t =
    if t == 1 then bytes "tcp" else if t == 2 then bytes "udp" else bytes "unknown"

-- out[k], or 0
unfoldable pub count_at : Text → GoMap Text ℕ → ℕ
count_at k m = elim (lookup k m) [ none ↦ 0 | some n ↦ n ]

-- `for _, cs := range conns { out[key]++ }`
unfoldable pub count_by :
    (ConnectionStat → Text) → GoMap ConnId ConnectionStat → GoMap Text ℕ → GoMap Text ℕ
count_by key [] out = out
count_by key (entry ∷ conns) out =
    let k = key entry.1 in count_by key conns (insert k (suc (count_at k out)) out)

-- countConnStates; a nil map and an empty one are alike.
unfoldable pub count_conn_states : GoMap ConnId ConnectionStat → GoMap Text ℕ
count_conn_states conns = count_by (λ cs. cs.status) conns []

-- countConnProtos
unfoldable pub count_conn_protos : GoMap ConnId ConnectionStat → GoMap Text ℕ
count_conn_protos conns = count_by (λ cs. conn_proto_from_type cs.type_of) conns []

-- One count with its change, if there were counts before and this one is another
unfoldable pub count_line : GoMap Text ℕ → GoMap Text ℕ → Text → Text
count_line cur prev k =
    let d = pos (count_at k cur) -ℤ pos (count_at k prev) in
    texts (
      k
      ∷ bytes "="
      ∷ decimal (count_at k cur)
      ∷ (if is_empty prev || d == pos 0 then [] else texts (bytes "(" ∷ signed d ∷ bytes ")" ∷ []))
      ∷ [])

-- prevConns
unfoldable pub prev_conns : Option ConnSnapshot → GoMap ConnId ConnectionStat
prev_conns none = []
prev_conns (some prev) = prev.live

-- connIDKey
unfoldable pub conn_id_key : ConnId → Text
conn_id_key id = join (bytes "|") (
    decimal id.family
    ∷ decimal id.type_of
    ∷ decimal_ℤ id.pid
    ∷ id.status
    ∷ id.lip
    ∷ decimal id.lport
    ∷ id.rip
    ∷ decimal id.rport
    ∷ [])

-- `idMap[key] = id`
unfoldable pub id_map : List ConnId → GoMap Text ConnId → GoMap Text ConnId
id_map [] m = m
id_map (id ∷ ids) m = id_map ids (insert (conn_id_key id) id m)

-- idMap[key], which is the zero value for a key that is missing
unfoldable pub id_or_zero : Option ConnId → ConnId
id_or_zero (some id) = id
id_or_zero none = record {
  family = 0;
  type_of = 0;
  pid = pos 0;
  status = [];
  lip = [];
  lport = 0;
  rip = [];
  rport = 0;
}

-- source[id].Status
unfoldable pub status_in : GoMap ConnId ConnectionStat → ConnId → Text
status_in source id = elim (lookup id source) [ none ↦ [] | some cs ↦ cs.status ]

unfoldable pub conn_line : GoMap ConnId ConnectionStat → ConnId → Text
conn_line source id = texts (
    conn_proto_from_type id.type_of
    ∷ bytes " pid="
    ∷ decimal_ℤ id.pid
    ∷ bytes " "
    ∷ id.lip
    ∷ bytes ":"
    ∷ decimal id.lport
    ∷ bytes " -> "
    ∷ id.rip
    ∷ bytes ":"
    ∷ decimal id.rport
    ∷ bytes " status="
    ∷ status_in source id
    ∷ [])

-- `if limit > 0 && len(sorted) > limit { sorted = sorted[:limit] }`
unfoldable pub limited : ℕ → List Text → List Text
limited limit sorted =
    if ltb 0 limit && ltb limit (length sorted) then take limit sorted else sorted

module _ (sort_strings : List Text → List Text) where
  -- formatCountDelta and formatProtoDelta
  unfoldable pub format_count_delta : GoMap Text ℕ → GoMap Text ℕ → List Text
  format_count_delta cur prev = map (count_line cur prev) (sort_strings (keys cur))

  -- A line of counts, unless there is no connection
  unfoldable pub counts_text :
      Text
      → (GoMap ConnId ConnectionStat → GoMap Text ℕ)
      → Option ConnSnapshot
      → ConnSnapshot
      → Text
  counts_text title count prev curr =
      let lines = format_count_delta (count curr.live) (count (prev_conns prev)) in
      if is_empty curr.live || is_empty lines
      then []
      else texts (title ∷ join (bytes " ") lines ∷ bytes "\n" ∷ [])

  -- formatConnIDs
  unfoldable pub format_conn_ids : List ConnId → GoMap ConnId ConnectionStat → ℕ → List Text
  format_conn_ids ids source limit =
      map (λ key. conn_line source (id_or_zero (lookup key (id_map ids []))))
        (limited limit (sort_strings (map conn_id_key ids)))

  unfoldable pub ids_text : Text → List ConnId → GoMap ConnId ConnectionStat → Text
  ids_text title ids source =
      let lines = format_conn_ids ids source 10 in
      if is_empty ids
      then []
      else texts (
          title
          ∷ texts (map (λ ln. texts (bytes "- " ∷ ln ∷ bytes "\n" ∷ [])) lines)
          ∷ more_text (bytes "  ") (length ids) (length lines)
          ∷ [])

  unfoldable pub conn_details : (Time → Text) → Text → Option ConnSnapshot → ConnSnapshot → Text
  conn_details rfc3339 kind prev curr = texts (
      bytes "ConnSnapshot(at="
      ∷ rfc3339 curr.at
      ∷ bytes ", kind="
      ∷ kind
      ∷ bytes ", total="
      ∷ decimal (length curr.live)
      ∷ prev_total (λ s. length s.live) prev curr
      ∷ bytes ")\nChurn: new="
      ∷ decimal (length curr.new_ids)
      ∷ bytes " dead="
      ∷ decimal (length curr.dead_ids)
      ∷ bytes "\n"
      ∷ counts_text (bytes "States: ") count_conn_states prev curr
      ∷ counts_text (bytes "Protocols: ") count_conn_protos prev curr
      ∷ ids_text (bytes "New:\n") curr.new_ids curr.live
      ∷ ids_text (bytes "Closed:\n") curr.dead_ids (prev_conns prev)
      ∷ [])

  -- GetVerboseInfo, which gives no error
  unfoldable pub conn_verbose : {E : Type 0} → (Time → Text) → ConnCapturer E → Text
  conn_verbose rfc3339 c = elim c.curr [
    | none ↦ bytes "ConnSnapshot(verbose-empty)"
    | some s ↦ trim_suffix (conn_details rfc3339 c.kind c.prev s) (bytes "\n")
  ]

-- IsWarm
abbrev pub conn_is_warm : {E : Type 0} → ConnCapturer E → Bool
conn_is_warm c = is_some c.prev
