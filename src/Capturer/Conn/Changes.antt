-- ===== src/Capturer/Conn/Changes.antt =====
-- The changes that ConnCapturer of capturer/conn.go reports, capture after capture.
use mini_edr.Prelude.World.{World, time_now}
use mini_edr.Prelude.Fallible.{Fallible, value, failure}
use mini_edr.Prelude.{
  is_some, ◌++◌, true, List, [], ◌∷◌, Option, none, some, GoMap, has, keys_missing_iff, Among, ◌≡◌,
  ◌↔◌, ◌⊎◌, refl, ap, sym, ◌∙◌, Any, insert, lookup-insert, arith,
}
use mini_edr.Capturer.Info.{Time, ConnId}
use mini_edr.Capturer.Conn.{
  conn_id, conn_id_eq, ConnectionStat, ConnSnapshot, ConnCapturer, ConnError, conn_snapshot,
  conn_map, take_conns,
}

-- What a reader of the reports knows to be open after one more report.
abbrev pub Patched : (ConnId → Type 0) → ConnSnapshot → ConnId → Type 0
Patched P s id = (P id × (Among id s.dead_ids → ⊥)) ⊎ Among id s.new_ids

-- The same after a series of reports.
abbrev pub Replayed : (ConnId → Type 0) → List ConnSnapshot → ConnId → Type 0
Replayed P [] id = P id
Replayed P (s ∷ reports) id = Replayed (Patched P s) reports id

-- The map of a snapshot has the connections of the list, and no others than it had.
pub conn_map_iff :
    (list : List ConnectionStat) (m : GoMap ConnId ConnectionStat) (id : ConnId)
    → (has id (conn_map list m) ≡ true) ↔ (Any (λ cs. conn_id cs ≡ id) list ⊎ (has id m ≡ true))
unfolding conn_map
conn_map_iff [] m id = ground arith
conn_map_iff (cs ∷ list) m id = ground (
  arith,
  conn_map_iff list (insert (conn_id cs) cs m) id,
  lookup-insert (conn_id cs) id cs m,
  conn_id_eq.same_iff (conn_id cs) id,
)

abbrev pub live_of : Option ConnSnapshot → GoMap ConnId ConnectionStat
live_of none = []
live_of (some s) = s.live

-- A report turns what was open at the last snapshot into what is open now.
conn_snapshot-Patched :
    (last : Option ConnSnapshot) (at : Time) (live : GoMap ConnId ConnectionStat)
    (P : ConnId → Type 0)
    → is_some last ≡ true
    → ((id : ConnId) → P id ↔ (has id (live_of last) ≡ true))
    → (id : ConnId)
    → Patched P (conn_snapshot last at live) id ↔ (has id (conn_snapshot last at live).live ≡ true)
unfolding conn_snapshot
conn_snapshot-Patched none at live P some_last known id = cc
conn_snapshot-Patched (some last) at live P some_last known id =
    ground (arith, known id, keys_missing_iff id live last.live, keys_missing_iff id last.live live)

-- The report of a capture, if it took a snapshot.
abbrev reported : Option ConnError → Option ConnSnapshot → List ConnSnapshot
reported none (some s) = s ∷ []
reported _ _ = []

module _ {E : Type 0} where
  -- The snapshots that a series of captures takes, and the capturer after it. An outcome is what
  -- ConnectionsFn returns.
  unfoldable pub capture_all :
      ConnCapturer E
      → List (Fallible (List ConnectionStat))
      → World E
      → List ConnSnapshot × ConnCapturer E
  capture_all c [] w = ([], c)
  capture_all c (outcome ∷ outcomes) w =
      let (err, c', w') = take_conns c outcome w in
      let (reports, c'') = capture_all c' outcomes w' in (reported err c'.curr ++ reports, c'')

  capture_all-Replayed :
      (c : ConnCapturer E) (outcomes : List (Fallible (List ConnectionStat))) (w : World E)
      (P : ConnId → Type 0)
      → is_some c.curr ≡ true
      → ((id : ConnId) → P id ↔ (has id (live_of c.curr) ≡ true))
      → (id : ConnId)
      → Replayed P (capture_all c outcomes w).0 id
        ↔ (has id (live_of (capture_all c outcomes w).1.curr) ≡ true)
  unfolding capture_all take_conns time_now
  capture_all-Replayed c [] w P taken known id = known id
  capture_all-Replayed c (failure err ∷ outcomes) w P taken known id =
      capture_all-Replayed c outcomes w P taken known id
  capture_all-Replayed c (value list ∷ outcomes) w P taken known id =
      let live = conn_map list [] in
      let now = w.clock w.reads in
      let snap = conn_snapshot c.curr now live in
      capture_all-Replayed (record c { prev = c.curr; curr = some snap }) outcomes _
        (Patched P snap) refl (conn_snapshot-Patched c.curr now live P taken known) id

  -- From a first snapshot on, the differences in the snapshots are exact: whoever starts with the
  -- connections of that snapshot, and for each later one strikes out its dead and adds its new, has in
  -- the end exactly the connections of the last snapshot. Captures that fail in between are harmless.
  pub captures-Replayed :
      (c : ConnCapturer E) (first : ConnSnapshot) (outcomes : List (Fallible (List ConnectionStat)))
      (w : World E) (id : ConnId)
      → c.curr ≡ some first
      → Replayed (λ j. has j first.live ≡ true) (capture_all c outcomes w).0 id
        ↔ (has id (live_of (capture_all c outcomes w).1.curr) ≡ true)
  captures-Replayed c first outcomes w id e =
      capture_all-Replayed c outcomes w (λ j. has j first.live ≡ true) (ap is_some e)
        (λ j.
          (λ h. ap (λ o. has j (live_of o)) e ∙ h, λ h. sym (ap (λ o. has j (live_of o)) e) ∙ h))
        id
