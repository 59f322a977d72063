-- ===== src/Capturer/Process/Started.antt =====
-- What ProcCapturer of capturer/process.go reports under identifiers that the last
-- snapshot does not have.
use mini_edr.Prelude.{
  ℕ, ◌≤◌, ℤ, int_eq, text_eq, false, List, [], ◌∷◌, Option, none, some, GoMap, lookup, insert, has,
  lookup-insert, keys_missing, keys_missing_iff, Among, gather, take_all, length, ◌≡◌, ◌↔◌, ap,
  is_some, arith,
}
use mini_edr.Capturer.Info.{ProcMeta}
use mini_edr.Capturer.Process.{
  ProcReading, ProcSnapshot, proc_meta, proc_map, proc_snapshot, new_procs,
}

-- The entry under an identifier is that of a process with this identifier.
pub proc_map-own :
    (list : List (Option ProcReading)) (m : GoMap ℤ ProcMeta)
    → ((pid : ℤ) (p : ProcMeta) → lookup pid m ≡ some p → p.pid ≡ pid)
    → (pid : ℤ) (p : ProcMeta) → lookup pid (proc_map list m) ≡ some p
    → p.pid ≡ pid
unfolding proc_map proc_meta
proc_map-own [] m own pid p h = own pid p h
proc_map-own (none ∷ list) m own pid p h = proc_map-own list m own pid p h
proc_map-own (some r ∷ list) m own pid p h =
    proc_map-own list (insert r.pid (proc_meta r) m)
      (λ k q e.
        ground (arith, own k q, lookup-insert r.pid k (proc_meta r) m, int_eq.same_iff r.pid k))
      pid p h

pub proc_map-own_all :
    (list : List (Option ProcReading)) (pid : ℤ) (p : ProcMeta)
    → lookup pid (proc_map list []) ≡ some p
    → p.pid ≡ pid
unfolding lookup
proc_map-own_all list pid p h = proc_map-own list [] (λ k q e. ground (arith, e)) pid p h

pub Among-gather :
    {A B : Type 0} (f : A → Option B) (xs : List A) (a : A) (b : B)
    → f a ≡ some b
    → Among a xs
    → Among b (gather f xs)
unfolding gather
Among-gather f [] a b q h = h
Among-gather f (x ∷ xs) a b q h = ground (arith, Among-gather f xs a b q)

module _ (sort_pids : List ℤ → List ℤ)
    (sorts : (xs : List ℤ) (x : ℤ) → Among x (sort_pids xs) ↔ Among x xs) where
  -- A process that the last snapshot did not have is reported with its entry, unless more than two
  -- hundred processes are new.
  pub new_procs-Among :
      (last : ProcSnapshot) (at : ℕ) (running : GoMap ℤ ProcMeta) (pid : ℤ) (p : ProcMeta)
      → let s = proc_snapshot sort_pids (some last) at running in
        length s.new_pids ≤ 200
        → lookup pid running ≡ some p
        → has pid last.running ≡ false
        → Among p (new_procs s)
  unfolding proc_snapshot new_procs
  new_procs-Among last at running pid p few here fresh =
      let new = sort_pids (keys_missing running last.running) in
      let reported =
        (sorts (keys_missing running last.running) pid).1
          ((keys_missing_iff pid running last.running).1 (ap is_some here, fresh)) in
      rw (take_all 200 new few) (Among-gather (λ k. lookup k running) new pid p here reported)
