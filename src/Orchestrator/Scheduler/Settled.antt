-- ===== src/Orchestrator/Scheduler/Settled.antt =====
-- packages/orchestrator/src/adaptive-primitive-scheduler.ts: what it means that no evidence need is
-- open and that no candidate is to be repaired.
use deliberum.Prelude.{
  String, ◌≡◌, refl, ◌⊎◌, inl, inr, true, false, ◌&&◌, some, List, [], ◌∷◌, ◌++◌, map, eq_iff, ◌==◌,
  Bool-cases, filter, contains, to_set, In, In-append_left, In-filter_intro, In→contains, In-to_set,
}
use deliberum.Prelude.{In-map_intro, In-append_right, In→contains}
use mathlib.Core.Path.{subst}
use deliberum.Protocol.Deliberation.{
  EvidenceNeed, EvidenceNeedStatus, Objection, ObjectionStatus, QualityObligation,
  QualityObligationStatus,
}
use deliberum.Core.Projections.{
  Derived, AcceptedDeliberationObjectsProjection, CandidateFrontierProjection,
}
use deliberum.Core.FinalOutcome.Evidence.{is_open_objection, is_open_obligation}
use deliberum.Orchestrator.Gaps.{
  is_open_need, unresolved_target, open_evidence_need_ids, quality_target, quality_targets,
  objection_targets, repair_targets,
}

abbrev pub candidate_ids : CandidateFrontierProjection → List String
candidate_ids frontier = map (λ c. c.object.id) frontier.candidates

-- The states in which nothing is left to do.
abbrev pub IsClosedNeed : EvidenceNeedStatus → Type 0
IsClosedNeed s = (s ≡ EvidenceNeedStatus.satisfied) ⊎ (s ≡ EvidenceNeedStatus.waived)

abbrev pub IsResolvedObjection : ObjectionStatus → Type 0
IsResolvedObjection s =
    (s ≡ ObjectionStatus.answered)
    ⊎ ((s ≡ ObjectionStatus.downgraded) ⊎ (s ≡ ObjectionStatus.archived))

abbrev pub IsMetObligation : QualityObligationStatus → Type 0
IsMetObligation s = (s ≡ QualityObligationStatus.answered) ⊎ (s ≡ QualityObligationStatus.waived)

-- Each evidence need is closed, each objection to a candidate of the frontier resolved, and each
-- quality obligation of such a candidate met.
abbrev pub Settles : AcceptedDeliberationObjectsProjection → CandidateFrontierProjection → Type 0
Settles objects frontier =
    ((n : Derived EvidenceNeed) → In n objects.evidence_needs → IsClosedNeed n.object.status)
    × ((o : Derived Objection)
        → In o objects.objections
        → (¬ In o.object.target_id (candidate_ids frontier)) ⊎ IsResolvedObjection o.object.status)
    × ((q : Derived QualityObligation) (target : String)
        → In q objects.quality_obligations
        → q.object.target_candidate_id ≡ some target
        → (target ≡ "")
          ⊎ ((¬ In target (candidate_ids frontier)) ⊎ IsMetObligation q.object.status))

closed_need : (s : EvidenceNeedStatus) → is_open_need s ≡ false → IsClosedNeed s
unfolding is_open_need
closed_need EvidenceNeedStatus.open_status e = cc e
closed_need EvidenceNeedStatus.in_progress e = cc e
closed_need EvidenceNeedStatus.unresolved e = cc e
closed_need EvidenceNeedStatus.satisfied e = inl refl
closed_need EvidenceNeedStatus.waived e = inr refl

resolved_objection : (s : ObjectionStatus) → is_open_objection s ≡ false → IsResolvedObjection s
unfolding is_open_objection
resolved_objection ObjectionStatus.open_status e = cc e
resolved_objection ObjectionStatus.partially_answered e = cc e
resolved_objection ObjectionStatus.accepted e = cc e
resolved_objection ObjectionStatus.unresolved e = cc e
resolved_objection ObjectionStatus.answered e = inl refl
resolved_objection ObjectionStatus.downgraded e = inr (inl refl)
resolved_objection ObjectionStatus.archived e = inr (inr refl)

met_obligation : (s : QualityObligationStatus) → is_open_obligation s ≡ false → IsMetObligation s
unfolding is_open_obligation
met_obligation QualityObligationStatus.unanswered e = cc e
met_obligation QualityObligationStatus.partially_answered e = cc e
met_obligation QualityObligationStatus.challenged e = cc e
met_obligation QualityObligationStatus.unresolved e = cc e
met_obligation QualityObligationStatus.answered e = inl refl
met_obligation QualityObligationStatus.waived e = inr refl

-- Nothing stands in a list that is empty.
nothing_in : {A : Type 0} (x : A) (xs : List A) → xs ≡ [] → ¬ In x xs
nothing_in x xs e m = let bad : In x [] = subst (λ ys. In x ys) e m in elim bad [ ]

In-quality_targets :
    (active : List String) (q : Derived QualityObligation) (qs : List (Derived QualityObligation))
    (t : String)
    → In q qs
    → In t (quality_target active q)
    → In t (quality_targets active qs)
unfolding quality_targets
In-quality_targets active q [] t m k = elim m [ ]
In-quality_targets active q (x ∷ qs) t (inl e) k =
    In-append_left t (quality_target active x) (quality_targets active qs)
      (subst (λ y. In t (quality_target active y)) e k)
In-quality_targets active q (x ∷ qs) t (inr m) k =
    In-append_right t (quality_target active x) (quality_targets active qs)
      (In-quality_targets active q qs t m k)

module _ (objects : AcceptedDeliberationObjectsProjection)
    (frontier : CandidateFrontierProjection) where
  abbrev active : List String
  active = to_set (candidate_ids frontier)

  not_active : (t : String) → contains active t ≡ false → ¬ In t (candidate_ids frontier)
  not_active t e m =
      let there : contains active t ≡ true =
        In→contains active t ((In-to_set (candidate_ids frontier) t).1 m) in
      cc

  closed_needs :
      (n : Derived EvidenceNeed)
      → open_evidence_need_ids objects ≡ []
      → In n objects.evidence_needs
      → IsClosedNeed n.object.status
  unfolding open_evidence_need_ids
  closed_needs n e m = elim (Bool-cases (is_open_need n.object.status)) [
    | inr done ↦ closed_need n.object.status done
    | inl unsettled ↦ absurd (
        nothing_in n.object.id (open_evidence_need_ids objects) e (
          In-map_intro (λ x. x.object.id) n
            (filter (λ x. is_open_need x.object.status) objects.evidence_needs)
            (In-filter_intro (λ x. is_open_need x.object.status) n objects.evidence_needs m
              unsettled)))
  ]

  -- A target of either kind is one to repair.
  no_objection_target :
      (t : String)
      → repair_targets frontier objects ≡ []
      → ¬ In t (objection_targets active objects.objections)
  unfolding repair_targets
  no_objection_target t e m = nothing_in t (repair_targets frontier objects) e (
      (In-to_set
          (to_set (objection_targets active objects.objections)
            ++ to_set (quality_targets active objects.quality_obligations))
          t).1
        (In-append_left t (to_set (objection_targets active objects.objections))
          (to_set (quality_targets active objects.quality_obligations))
          ((In-to_set (objection_targets active objects.objections) t).1 m)))

  no_quality_target :
      (t : String)
      → repair_targets frontier objects ≡ []
      → ¬ In t (quality_targets active objects.quality_obligations)
  unfolding repair_targets
  no_quality_target t e m = nothing_in t (repair_targets frontier objects) e (
      (In-to_set
          (to_set (objection_targets active objects.objections)
            ++ to_set (quality_targets active objects.quality_obligations))
          t).1
        (In-append_right t (to_set (objection_targets active objects.objections))
          (to_set (quality_targets active objects.quality_obligations))
          ((In-to_set (quality_targets active objects.quality_obligations) t).1 m)))

  resolved_objections :
      (o : Derived Objection)
      → repair_targets frontier objects ≡ []
      → In o objects.objections
      → (¬ In o.object.target_id (candidate_ids frontier)) ⊎ IsResolvedObjection o.object.status
  unfolding objection_targets
  resolved_objections o e m = elim (Bool-cases (contains active o.object.target_id)) [
    | inr other ↦ inl (not_active o.object.target_id other)
    | inl on_active ↦ elim (Bool-cases (is_open_objection o.object.status)) [
      | inr done ↦ inr (resolved_objection o.object.status done)
      | inl unsettled ↦ absurd (
          no_objection_target o.object.target_id e (
            In-map_intro (λ x. x.object.target_id) o
              (filter (λ x. contains active x.object.target_id && is_open_objection x.object.status)
                objects.objections)
              (In-filter_intro
                (λ x. contains active x.object.target_id && is_open_objection x.object.status) o
                objects.objections m (rw (on_active, unsettled) refl))))
    ]
  ]

  met_obligations :
      (q : Derived QualityObligation) (target : String)
      → repair_targets frontier objects ≡ []
      → In q objects.quality_obligations
      → q.object.target_candidate_id ≡ some target
      → (target ≡ "") ⊎ ((¬ In target (candidate_ids frontier)) ⊎ IsMetObligation q.object.status)
  unfolding quality_target unresolved_target
  met_obligations q target e m named = elim (Bool-cases (target == "")) [
    | inl blank ↦ inl ((eq_iff target "").0 blank)
    | inr filled ↦ elim (Bool-cases (contains active target)) [
      | inr other ↦ inr (inl (not_active target other))
      | inl on_active ↦ elim (Bool-cases (is_open_obligation q.object.status)) [
        | inr done ↦ inr (inr (met_obligation q.object.status done))
        | inl unsettled ↦ absurd (
            no_quality_target target e (
              In-quality_targets active q objects.quality_obligations target m
                (rw (named, filled, on_active, unsettled) (inl refl))))
      ]
    ]
  ]

  pub nothing_open-Settles :
      open_evidence_need_ids objects ≡ []
      → repair_targets frontier objects ≡ []
      → Settles objects frontier
  nothing_open-Settles e f = (
    λ n m. closed_needs n e m,
    λ o m. resolved_objections o f m,
    λ q target m named. met_obligations q target f m named,
  )
