-- ===== src/Orchestrator/Scheduler/Keeps.antt =====
-- suggestAdaptivePrimitiveProposals of
-- packages/orchestrator/src/adaptive-primitive-scheduler.ts: what each of its steps keeps.
use deliberum.Prelude.{
  ℕ, ◌≤◌, String, ◌≡◌, refl, sym, ◌≢◌, ◌⊎◌, inl, inr, Bool, true, false, Option, none, some, List,
  [], ◌∷◌, ◌++◌, arith, leb, if◌then◌else◌, Bool-cases, length, length-append, In, In-append_one,
}
use mathlib.Core.Path.{subst}
use deliberum.Errors.{Result, ok, and_then, Result-cases, ok_injective}
use deliberum.Protocol.Deliberation.{Candidate}
use deliberum.Protocol.Proposals.{ProcessProposal, ProcessProposalStatus, process_proposal_schema}
use deliberum.Protocol.Events.{EventEnvelope}
use deliberum.Core.Projections.{
  Derived, AcceptedDeliberationObjectsProjection, CandidateFrontierProjection,
}
use deliberum.Core.ProcessProposals.States.{ProcessProposalState}
use deliberum.Orchestrator.Gaps.{
  SealedDivergenceRoundState, DeliberationRunRecord, ProposalDraft, Suggestions,
  open_evidence_need_ids, repair_targets, last_of,
}
use deliberum.Orchestrator.Scheduler.{
  proposal_of, create_process_proposal, add_proposal, observe, suggest, suggest_divergence,
  suggest_retry, suggest_mapping, suggest_review, suggest_evidence, suggest_repair, suggest_audit,
  suggest_contest, suggest_final, suggest_after_extraction, suggest_after_reveal, suggest_for_round,
  final_of_round, observe_no_gap,
}

-- A final contest is proposed only when nothing is left to check or to repair.
abbrev pub IsSuggested : List String → List String → ProcessProposal → Type 0
IsSuggested needs repairs p =
    (process_proposal_schema p ≡ true)
    × (p.status ≡ ProcessProposalStatus.proposed)
    × ((p.primitive ≢ "final_contest") ⊎ ((needs ≡ []) × (repairs ≡ [])))

module _ (stable_hash : List String → String → String → String) (run : DeliberationRunRecord)
    (max_proposals : ℕ) (needs repairs : List String) where
  abbrev pub IsWithin : Suggestions → Type 0
  IsWithin s =
      (length s.proposals ≤ max_proposals)
      × ((p : ProcessProposal) → In p s.proposals → IsSuggested needs repairs p)

  abbrev pub Keeps : (Suggestions → Result Suggestions) → Type 0
  Keeps f = (s t : Suggestions) → IsWithin s → f s ≡ ok t → IsWithin t

  Keeps-and_then :
      (f g : Suggestions → Result Suggestions) → Keeps f → Keeps g → Keeps (λ s. and_then (f s) g)
  Keeps-and_then f g kf kg s t w done = elim (Result-cases (f s)) [
    | inl out ↦ kg out.0 t (kf s out.0 w out.1) (rw out.1 at done)
    | inr bad ↦ cc (rw bad.1 at done)
  ]

  Keeps-ok : Keeps ok
  Keeps-ok s t w done = subst IsWithin (ok_injective s t done) w

  Keeps-if :
      (b : Bool) (f g : Suggestions → Result Suggestions)
      → Keeps f
      → Keeps g
      → Keeps (λ s. if b then f s else g s)
  Keeps-if true f g kf kg = kf
  Keeps-if false f g kf kg = kg

  observe-Keeps : (text : String) → Keeps (observe stable_hash run max_proposals text)
  unfolding observe
  observe-Keeps text s t w done = subst IsWithin (ok_injective _ t done) w

  abbrev FitsDraft : ProposalDraft → Type 0
  FitsDraft d = (d.primitive ≢ "final_contest") ⊎ ((needs ≡ []) × (repairs ≡ []))

  create_process_proposal-IsSuggested :
      (d : ProposalDraft) (p : ProcessProposal)
      → FitsDraft d
      → create_process_proposal stable_hash run max_proposals d ≡ ok p
      → IsSuggested needs repairs p
  unfolding create_process_proposal
  create_process_proposal-IsSuggested d p fits done =
      elim (Bool-cases (process_proposal_schema (proposal_of stable_hash run max_proposals d))) [
        | inl y ↦
            subst (IsSuggested needs repairs) (ok_injective _ p (rw y at done)) (y, refl, fits)
        | inr n ↦ cc (rw n at done)
      ]

  with_proposal :
      (s : Suggestions) (p : ProcessProposal)
      → leb max_proposals (length s.proposals) ≡ false
      → IsWithin s
      → IsSuggested needs repairs p
      → IsWithin (record s { proposals = s.proposals ++ p ∷ [] })
  with_proposal s p room w fine = (
    grind (arith, room, length-append s.proposals (p ∷ [])),
    λ x m. elim (In-append_one x s.proposals p m) [
      | inl old ↦ w.1 x old
      | inr e ↦ subst (IsSuggested needs repairs) (sym e) fine
    ],
  )

  add_proposal-Keeps :
      (d : ProposalDraft) → FitsDraft d → Keeps (add_proposal stable_hash run max_proposals d)
  unfolding add_proposal
  add_proposal-Keeps d fits s t w done =
      elim (Bool-cases (leb max_proposals (length s.proposals))) [
        | inl full ↦ Keeps-ok s t w (rw full at done)
        | inr room ↦ elim (Result-cases (create_process_proposal stable_hash run max_proposals d)) [
          | inl p ↦
              subst IsWithin (ok_injective _ t (rw (room, p.1) at done))
                (with_proposal s p.0 room w (create_process_proposal-IsSuggested d p.0 fits p.1))
          | inr bad ↦ cc (rw (room, bad.1) at done)
        ]
      ]

  suggest-Keeps :
      (d : ProposalDraft) (text : String)
      → FitsDraft d
      → Keeps (suggest stable_hash run max_proposals d text)
  unfolding suggest
  suggest-Keeps d text fits =
      Keeps-and_then (add_proposal stable_hash run max_proposals d)
        (observe stable_hash run max_proposals text) (add_proposal-Keeps d fits)
        (observe-Keeps text)

  suggest_divergence-Keeps : Keeps (suggest_divergence stable_hash run max_proposals)
  unfolding suggest_divergence
  suggest_divergence-Keeps = suggest-Keeps _ _ (inl (λ e. cc))

  suggest_retry-Keeps :
      (round : SealedDivergenceRoundState)
      → Keeps (suggest_retry stable_hash run max_proposals round)
  unfolding suggest_retry
  suggest_retry-Keeps round = suggest-Keeps _ _ (inl (λ e. cc))

  suggest_mapping-Keeps :
      (events : List EventEnvelope) (round : SealedDivergenceRoundState)
      → Keeps (suggest_mapping stable_hash run max_proposals events round)
  unfolding suggest_mapping
  suggest_mapping-Keeps events round = suggest-Keeps _ _ (inl (λ e. cc))

  suggest_review-Keeps :
      (ids : List String) → Keeps (suggest_review stable_hash run max_proposals ids)
  unfolding suggest_review
  suggest_review-Keeps ids =
      Keeps-if _ ok (suggest stable_hash run max_proposals _ _) Keeps-ok
        (suggest-Keeps _ _ (inl (λ e. cc)))

  suggest_evidence-Keeps :
      (ids : List String) → Keeps (suggest_evidence stable_hash run max_proposals ids)
  unfolding suggest_evidence
  suggest_evidence-Keeps [] = Keeps-ok
  suggest_evidence-Keeps (id ∷ ids) = suggest-Keeps _ _ (inl (λ e. cc))

  suggest_repair-Keeps :
      (ids : List String) → Keeps (suggest_repair stable_hash run max_proposals ids)
  unfolding suggest_repair
  suggest_repair-Keeps [] = Keeps-ok
  suggest_repair-Keeps (id ∷ ids) = suggest-Keeps _ _ (inl (λ e. cc))

  suggest_audit-Keeps :
      (states : List ProcessProposalState) (id : String) (audits : List String)
      → Keeps (suggest_audit stable_hash run max_proposals states id audits)
  unfolding suggest_audit
  suggest_audit-Keeps states id [] = suggest-Keeps _ _ (inl (λ e. cc))
  suggest_audit-Keeps states id (a ∷ audits) =
      Keeps-if _ ok (suggest stable_hash run max_proposals _ _) Keeps-ok
        (suggest-Keeps _ _ (inl (λ e. cc)))

  suggest_contest-Keeps :
      (candidates : List (Derived Candidate)) (ns rs : List String)
      → needs ≡ ns
      → repairs ≡ rs
      → Keeps (suggest_contest stable_hash run max_proposals candidates ns rs)
  unfolding suggest_contest
  suggest_contest-Keeps [] ns rs en er = Keeps-ok
  suggest_contest-Keeps (c ∷ cs) (n ∷ ns) rs en er = Keeps-ok
  suggest_contest-Keeps (c ∷ cs) [] (r ∷ rs) en er = Keeps-ok
  suggest_contest-Keeps (c ∷ cs) [] [] en er = suggest-Keeps _ _ (inr (en, er))

  suggest_final-Keeps :
      (states : List ProcessProposalState) (final : Option (String × List String))
      (candidates : List (Derived Candidate))
      → Keeps (suggest_final stable_hash run max_proposals states final candidates needs repairs)
  unfolding suggest_final
  suggest_final-Keeps states none candidates =
      suggest_contest-Keeps candidates needs repairs refl refl
  suggest_final-Keeps states (some (id, audits)) candidates = suggest_audit-Keeps states id audits

  no_gap-Keeps :
      (ps : List ProcessProposal) (texts : List String) (t : Suggestions)
      → IsWithin (record { proposals = ps; observations = texts })
      → observe_no_gap stable_hash run max_proposals
          (record { proposals = ps; observations = texts })
        ≡ ok t
      → IsWithin t
  unfolding observe_no_gap
  no_gap-Keeps [] texts = observe-Keeps _ (record { proposals = []; observations = texts })
  no_gap-Keeps (p ∷ ps) texts = Keeps-ok (record { proposals = p ∷ ps; observations = texts })

  observe_no_gap-Keeps : Keeps (observe_no_gap stable_hash run max_proposals)
  observe_no_gap-Keeps s = no_gap-Keeps s.proposals s.observations

module _ (stable_hash : List String → String → String → String) (run : DeliberationRunRecord)
    (max_proposals : ℕ) (events : List EventEnvelope)
    (objects : AcceptedDeliberationObjectsProjection) (frontier : CandidateFrontierProjection)
    (states : List ProcessProposalState) where
  abbrev KeepsHere : (Suggestions → Result Suggestions) → Type 0
  KeepsHere =
      Keeps stable_hash run max_proposals (open_evidence_need_ids objects)
        (repair_targets frontier objects)

  suggest_after_extraction-Keeps :
      (ids : List String)
      → KeepsHere (
          suggest_after_extraction stable_hash run max_proposals events objects frontier states ids)
  unfolding suggest_after_extraction
  suggest_after_extraction-Keeps ids =
      let needs : List String = open_evidence_need_ids objects in
      let repairs : List String = repair_targets frontier objects in
      let final : Option (String × List String) =
        final_of_round stable_hash run max_proposals (last_of run.finalization_rounds) in
      Keeps-and_then stable_hash run max_proposals needs repairs _ _
        (suggest_review-Keeps stable_hash run max_proposals needs repairs ids)
        (Keeps-and_then stable_hash run max_proposals needs repairs _ _
          (suggest_evidence-Keeps stable_hash run max_proposals needs repairs needs)
          (Keeps-and_then stable_hash run max_proposals needs repairs _ _
            (suggest_repair-Keeps stable_hash run max_proposals needs repairs repairs)
            (Keeps-and_then stable_hash run max_proposals needs repairs _ _
              (suggest_final-Keeps stable_hash run max_proposals needs repairs states final
                frontier.candidates)
              (observe_no_gap-Keeps stable_hash run max_proposals needs repairs))))

  suggest_after_reveal-Keeps :
      (round : SealedDivergenceRoundState) (ids : Option (List String))
      → KeepsHere (
          suggest_after_reveal stable_hash run max_proposals events objects frontier states round
            ids)
  unfolding suggest_after_reveal
  suggest_after_reveal-Keeps round none = suggest_mapping-Keeps _ _ _ _ _ events round
  suggest_after_reveal-Keeps round (some []) = suggest_mapping-Keeps _ _ _ _ _ events round
  suggest_after_reveal-Keeps round (some (id ∷ ids)) = suggest_after_extraction-Keeps (id ∷ ids)

  pub suggest_for_round-Keeps :
      (round : Option SealedDivergenceRoundState)
      → KeepsHere
          (suggest_for_round stable_hash run max_proposals events objects frontier states round)
  unfolding suggest_for_round
  suggest_for_round-Keeps none = suggest_divergence-Keeps _ _ _ _ _
  suggest_for_round-Keeps (some round) =
      Keeps-if stable_hash run _ _ _ _ _ _ (suggest_retry-Keeps _ _ _ _ _ round) (
        Keeps-if stable_hash run _ _ _ _ _ _ (observe-Keeps _ _ _ _ _ _)
          (suggest_after_reveal-Keeps round (last_of run.extraction_rounds)))
