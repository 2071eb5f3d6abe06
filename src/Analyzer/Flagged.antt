-- ===== src/Analyzer/Flagged.antt =====
-- What `Detect` reports, in terms of the records that it is given.
use axiaops.Common.{
  if◌then◌else◌, Option-cases, In, In-append_right, ◌==◌, string_eq, nat_eq, String, ◌≡◌, refl, sym,
  ap, ◌∙◌, ◌↔◌, inl, inr, true, Option, none, some, List, [], ◌∷◌, ◌++◌, arith,
}
use axiaops.Common.Float.{Float}
use mathlib.Core.List.{append-nil, append_assoc}
use axiaops.Common.Dict.{Dict, lookup, lookup-insert, lookup-nil}
use axiaops.Catalog.{CostRecord, ZombieResource}
use axiaops.Analyzer.Rules.{Rule, service_rules}
use axiaops.Analyzer.{
  UsageRecord, index_usage, zombie_of, flag, append_if, detect_from, detect, insert, judge,
}

module _ {F : Type 0} where
  -- The last usage record of a resource.
  abbrev pub last_usage : String → List (UsageRecord F) → Option (UsageRecord F)
  last_usage id [] = none
  last_usage id (u ∷ us) = elim (last_usage id us) [
    | some v ↦ some v
    | none ↦ if id == u.resource_id then some u else none
  ]

  abbrev first_some : Option (UsageRecord F) → Option (UsageRecord F) → Option (UsageRecord F)
  first_some (some a) b = some a
  first_some none b = b

  lookup-index_usage_from :
      (id : String) (index : Dict String (UsageRecord F)) (us : List (UsageRecord F))
      → lookup id (index_usage index us) ≡ first_some (last_usage id us) (lookup id index)
  unfolding index_usage
  lookup-index_usage_from id index [] = refl
  lookup-index_usage_from id index (u ∷ us) = ground (
    arith,
    lookup-index_usage_from id (insert u.resource_id u index) us,
    lookup-insert id u.resource_id u index,
  )

  -- The index holds the last record of each resource.
  pub lookup-index_usage :
      (id : String) (us : List (UsageRecord F)) → lookup id (index_usage [] us) ≡ last_usage id us
  lookup-index_usage id us =
      ground (arith, lookup-index_usage_from id [] us, lookup-nil {V = UsageRecord F} id)

module _ (fl : Float) where
  open fl use {F, of_nat, le}

  -- The cost record `c` is reported as `z`: its service has a rule, its resource has a usage
  -- record, and the average of the last one is at most the rule's threshold.
  abbrev pub Flagged : List (UsageRecord F) → String → CostRecord F → ZombieResource F → Type 0
  Flagged usage internal_account_id c z =
      (r : Rule) × (u : UsageRecord F) × (lookup c.service service_rules ≡ some r)
      × (last_usage c.resource_id usage ≡ some u)
      × (le u.avg (of_nat r.threshold) ≡ true)
      × (z ≡ zombie_of internal_account_id c u r)

  judge-some :
      (id : String) (c : CostRecord F) (rule : Option Rule) (usage : Option (UsageRecord F))
      (z : ZombieResource F)
      → judge fl id c rule usage ≡ some z
      → (r : Rule) × (u : UsageRecord F) × (rule ≡ some r)
        × (usage ≡ some u)
        × (le u.avg (of_nat r.threshold) ≡ true)
        × (z ≡ zombie_of id c u r)
  unfolding judge
  judge-some id c none usage z h = cc
  judge-some id c (some r) none z h = cc
  judge-some id c (some r) (some u) z h = (r, u, refl, refl, ground arith, ground arith)

  flag-Flagged :
      (usage : List (UsageRecord F)) (id : String) (c : CostRecord F) (z : ZombieResource F)
      → flag fl (index_usage [] usage) id c ≡ some z
      → Flagged usage id c z
  unfolding flag
  flag-Flagged usage id c z h =
      let (r, u, er, eu, at_most, ez) =
        judge-some id c (lookup c.service service_rules)
          (lookup c.resource_id (index_usage [] usage)) z h in
      (r, u, er, sym (lookup-index_usage c.resource_id usage) ∙ eu, at_most, ez)

  Flagged-flag :
      (usage : List (UsageRecord F)) (id : String) (c : CostRecord F) (z : ZombieResource F)
      → Flagged usage id c z
      → flag fl (index_usage [] usage) id c ≡ some z
  unfolding flag judge
  Flagged-flag usage id c z (r, u, er, eu, at_most, ez) =
      ground (arith, lookup-index_usage c.resource_id usage)

  -- The zombies of a list of costs, each cost on its own.
  flagged : Dict String (UsageRecord F) → String → List (CostRecord F) → List (ZombieResource F)
  flagged index id [] = []
  flagged index id (c ∷ cs) = append_if fl [] (flag fl index id c) ++ flagged index id cs

  append_if-eq :
      (acc : List (ZombieResource F)) (o : Option (ZombieResource F))
      (rest : List (ZombieResource F))
      → append_if fl acc o ++ rest ≡ acc ++ (append_if fl [] o ++ rest)
  append_if-eq acc none rest = refl
  append_if-eq acc (some z) rest = append_assoc acc (z ∷ []) rest

  detect_from-eq-flagged :
      (index : Dict String (UsageRecord F)) (id : String) (acc : List (ZombieResource F))
      (cs : List (CostRecord F))
      → detect_from fl index id acc cs ≡ acc ++ flagged index id cs
  unfolding detect_from flagged
  detect_from-eq-flagged index id acc [] = sym (append-nil acc)
  detect_from-eq-flagged index id acc (c ∷ cs) =
      detect_from-eq-flagged index id (append_if fl acc (flag fl index id c)) cs
      ∙ append_if-eq acc (flag fl index id c) (flagged index id cs)

  In-flagged :
      (index : Dict String (UsageRecord F)) (id : String) (z : ZombieResource F)
      (cs : List (CostRecord F))
      → In z (flagged index id cs)
      → (c : CostRecord F) × In c cs × (flag fl index id c ≡ some z)
  unfolding flagged
  In-flagged index id z [] h = elim h [ ]
  In-flagged index id z (c ∷ cs) h = elim (Option-cases (flag fl index id c)) [
    | inl skip ↦ let (c', i, e) = In-flagged index id z cs (rw skip at h) in (c', inr i, e)
    | inr (z', hit) ↦ elim (rw hit at h) [
      | inl e ↦ (c, inl refl, hit ∙ ap some (sym e))
      | inr later ↦ let (c', i, e) = In-flagged index id z cs later in (c', inr i, e)
    ]
  ]

  flagged-In :
      (index : Dict String (UsageRecord F)) (id : String) (z : ZombieResource F)
      (cs : List (CostRecord F)) (c : CostRecord F)
      → In c cs
      → flag fl index id c ≡ some z
      → In z (flagged index id cs)
  unfolding flagged
  flagged-In index id z [] c h e = elim h [ ]
  flagged-In index id z (d ∷ cs) c (inl same) e =
      rw (ap (flag fl index id) (sym same) ∙ e) (inl refl)
  flagged-In index id z (d ∷ cs) c (inr later) e =
      In-append_right z (append_if fl [] (flag fl index id d)) (flagged index id cs)
        (flagged-In index id z cs c later e)

  -- A zombie is reported exactly when some cost record of the list has a service with a rule, its
  -- resource has usage records, and the average of the last of them is at most the threshold; the
  -- report is the one built from that cost record, that usage record and that rule.
  pub detect_iff :
      (costs : List (CostRecord F)) (usage : List (UsageRecord F)) (id : String)
      (z : ZombieResource F)
      → In z (detect fl costs usage id) ↔ ((c : CostRecord F) × In c costs × Flagged usage id c z)
  unfolding detect
  detect_iff costs usage id z = (
    λ h.
        let (c, i, e) =
          In-flagged (index_usage [] usage) id z costs
            (rw (detect_from-eq-flagged (index_usage [] usage) id [] costs) at h) in
        (c, i, flag-Flagged usage id c z e),
    λ h.
        rw (detect_from-eq-flagged (index_usage [] usage) id [] costs)
          (flagged-In (index_usage [] usage) id z costs h.0 h.1 (Flagged-flag usage id h.0 z h.2)),
  )
