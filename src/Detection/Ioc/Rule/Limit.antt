-- ===== src/Detection/Ioc/Rule/Limit.antt =====
-- Which matches RuleIOCMatch of ioc.go reports.
use mini_edr.Prelude.{
  ℕ, ◌<◌, true, List, [], ◌∷◌, ◌++◌, Option, none, some, ◌≡◌, refl, sym, leb→le, arith, length, leb,
  take, gather, length-append, take-append, take_all, append_nil, append_assoc, Option-cases,
  Bool-cases, inl, inr, Float64,
}
use mini_edr.Capturer.Info.{InfoData}
use mini_edr.Detection.Types.{Alert}
use mini_edr.Detection.Ioc.Matcher.{IocMatcher}
use mini_edr.Detection.Ioc.Rule.{
  scan, scan_three, match_all, eval_ioc, process_alert, file_alert, conn_alert, extract_proc_meta,
  extract_file_events, extract_conn_ids,
}

module _ {A B : Type 0} (f : A → Option B) (limit : ℕ) where
  take_full :
      (acc : List B) (a : B) (rest : List B)
      → length acc < limit
      → leb limit (length (acc ++ a ∷ [])) ≡ true
      → take limit (acc ++ a ∷ rest) ≡ acc ++ a ∷ []
  take_full acc a rest h full =
      let le = leb→le limit (length (acc ++ a ∷ [])) full in
      rw (sym (append_assoc acc (a ∷ []) rest), take-append limit (acc ++ a ∷ []) rest le)
        (take_all limit (acc ++ a ∷ []) (omega (arith, h, length-append acc (a ∷ []))))

  scan-take :
      (xs : List A) (acc : List B)
      → length acc < limit
      → scan f limit xs acc
        ≡ (take limit (acc ++ gather f xs), leb limit (length (acc ++ gather f xs)))
  unfolding scan gather
  scan-take [] acc h = rw (append_nil acc, take_all limit acc (omega (arith, h))) (ground arith)
  scan-take (x ∷ xs) acc h = elim (Option-cases (f x)) [
    | inl q ↦ rw (q, scan, gather) (scan-take xs acc h)
    | inr (a, q) ↦ elim (Bool-cases (leb limit (length (acc ++ a ∷ [])))) [
      | inl full ↦ ground (
        arith,
        q,
        full,
        take_full acc a (gather f xs) h full,
        length-append acc (a ∷ gather f xs),
        length-append acc (a ∷ []),
      )
      | inr room ↦ ground (
        arith,
        q,
        room,
        scan-take xs (acc ++ a ∷ []) (ground (arith, room)),
        append_assoc acc (a ∷ []) (gather f xs),
      )
    ]
  ]

module _ {A B C D : Type 0} (f : A → Option D) (g : B → Option D) (h : C → Option D)
    (limit : ℕ) where
  scan_three-take :
      (xs : List A) (ys : List B) (zs : List C)
      → 0 < limit
      → scan_three f g h limit xs ys zs ≡ take limit (gather f xs ++ gather g ys ++ gather h zs)
  unfolding scan_three
  scan_three-take xs ys zs some_room = elim (Bool-cases (leb limit (length (gather f xs)))) [
    | inl full₁ ↦
        let le = leb→le limit (length (gather f xs)) full₁ in
        ground (
          arith,
          scan-take f limit xs [] some_room,
          full₁,
          take-append limit (gather f xs) (gather g ys ++ gather h zs) le,
          append_assoc (gather f xs) (gather g ys) (gather h zs),
        )
    | inr room₁ ↦
        let short₁ = take_all limit (gather f xs) (ground (arith, room₁)) in
        let second = scan-take g limit ys (gather f xs) (ground (arith, room₁)) in
        elim (Bool-cases (leb limit (length (gather f xs ++ gather g ys)))) [
          | inl full₂ ↦ ground (
            arith,
            scan-take f limit xs [] some_room,
            room₁,
            short₁,
            second,
            full₂,
            take-append limit (gather f xs ++ gather g ys) (gather h zs)
                (leb→le limit (length (gather f xs ++ gather g ys)) full₂),
          )
          | inr room₂ ↦ ground (
            arith,
            scan-take f limit xs [] some_room,
            room₁,
            short₁,
            second,
            room₂,
            take_all limit (gather f xs ++ gather g ys) (ground (arith, room₂)),
            scan-take h limit zs (gather f xs ++ gather g ys) (ground (arith, room₂)),
          )
        ]
  ]

module _ {F : Type 0} ⦃fl : Float64 F⦄ where
  -- An alert for each match: of the processes, then of the file events, then of the connections.
  abbrev pub all_matches : Option IocMatcher → InfoData F → List (Alert F)
  all_matches none info = []
  all_matches (some m) info =
      gather (process_alert m) (extract_proc_meta info.fields)
      ++ gather (file_alert m) (extract_file_events info.fields)
      ++ gather (conn_alert m) (extract_conn_ids info.fields)

  -- RuleIOCMatch reports the first fifty of all the matches, in the order processes, file events,
  -- connections: below the limit none is left out, although the loops stop in the middle.
  pub eval_ioc-take :
      (m : Option IocMatcher) (info : InfoData F) → eval_ioc m info ≡ take 50 (all_matches m info)
  unfolding eval_ioc match_all
  eval_ioc-take none info = refl
  eval_ioc-take (some m) info =
      scan_three-take (process_alert m) (file_alert m) (conn_alert m) 50
        (extract_proc_meta info.fields) (extract_file_events info.fields)
        (extract_conn_ids info.fields) (omega arith)
