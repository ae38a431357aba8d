-- ===== src/Resources/Planner/Chosen.antt =====
-- The loop of planDelivery in packages/resources/src/delivery-planner.ts: which mode it takes.
use deliberum.Prelude.{
  String, ◌≡◌, refl, sym, ap, ◌∙◌, ◌≢◌, inl, inr, true, false, Option, none, some, List, [], ◌∷◌,
  ◌++◌, ◌==◌, Bool-cases, Option-cases, In,
}
use mathlib.Core.Path.{subst}
use deliberum.Errors.{ok, Result-cases, ok_injective}
use deliberum.Protocol.Resources.{Resource, ResourcePrivacy}
use deliberum.Resources.Types.{
  EffectivePolicy, ResourceDeliveryPolicy, ResourceDeliveryRequest, ResourceDeliveryPlan,
  resource_sensitivity_from_privacy,
}
use deliberum.Resources.Broker.{InMemoryResourceBroker, get_resource}
use deliberum.Resources.Runtime.{Runtime}
use deliberum.Resources.Planner.{
  resolve_policy, validate_policy, create_none_plan, requested_modes, plan_mode, after_denial,
  plan_modes, plan_resource, plan_sensitivity, plan_found, plan_delivery,
}

module _ (rt : Runtime) (broker : InMemoryResourceBroker) (request : ResourceDeliveryRequest)
    (resource : Resource) (policy : EffectivePolicy) where
  -- The plan is that of `mode`, and every mode before it was tried and denied.
  pub record Chosen (modes : List String) (plan : ResourceDeliveryPlan) : Type 0 where
    pub earlier : List String
    pub mode : String
    pub others : List String
    pub at : modes ≡ earlier ++ mode ∷ others
    pub mode_plan : plan ≡ plan_mode rt broker request resource policy mode
    pub selects : (mode == "none") ≡ false
    pub denied_before :
        (m : String)
        → In m earlier
        → ((m == "none") ≡ false)
          × ((plan_mode rt broker request resource policy m).allowed ≡ false)

  denial_left :
      (plan : ResourceDeliveryPlan) (asked : Option String) (rest : ResourceDeliveryPlan)
      → (after_denial rt broker request resource policy plan asked rest).allowed ≡ true
      → after_denial rt broker request resource policy plan asked rest ≡ rest
  unfolding after_denial create_none_plan
  denial_left plan none rest sent = refl
  denial_left plan (some m) rest sent = cc sent

  -- The two ways in which a mode that is tried leads to a plan.
  tried_now :
      (ds : List String) (mode : String) (modes : List String)
      → (mode == "none") ≡ false
      → (plan_mode rt broker request resource policy mode).allowed ≡ true
      → plan_modes rt broker request resource policy ds (mode ∷ modes)
        ≡ plan_mode rt broker request resource policy mode
  unfolding plan_modes
  tried_now ds mode modes some_mode fine = rw (some_mode, fine) refl

  tried_later :
      (ds : List String) (mode : String) (modes : List String)
      → (mode == "none") ≡ false
      → (plan_mode rt broker request resource policy mode).allowed ≡ false
      → plan_modes rt broker request resource policy ds (mode ∷ modes)
        ≡ after_denial rt broker request resource policy
            (plan_mode rt broker request resource policy mode)
            policy.requested_mode
            (plan_modes rt broker request resource policy
              (ds ++ (plan_mode rt broker request resource policy mode).reason ∷ [])
              modes)
  unfolding plan_modes
  tried_later ds mode modes some_mode bad = rw (some_mode, bad) refl

  never_mode :
      (ds : List String) (mode : String) (modes : List String)
      → (mode == "none") ≡ true
      → (plan_modes rt broker request resource policy ds (mode ∷ modes)).allowed ≡ false
  unfolding plan_modes create_none_plan
  never_mode ds mode modes no_mode = rw no_mode refl

  no_modes :
      (ds : List String) → (plan_modes rt broker request resource policy ds []).allowed ≡ false
  unfolding plan_modes create_none_plan
  no_modes ds = refl

  plan_modes-Chosen :
      (ds : List String) (modes : List String)
      → (plan_modes rt broker request resource policy ds modes).allowed ≡ true
      → Chosen modes (plan_modes rt broker request resource policy ds modes)
  plan_modes-Chosen ds [] sent = cc (sent, no_modes ds)
  plan_modes-Chosen ds (mode ∷ modes) sent = elim (Bool-cases (mode == "none")) [
    | inl no_mode ↦ cc (sent, never_mode ds mode modes no_mode)
    | inr some_mode ↦ elim (Bool-cases (plan_mode rt broker request resource policy mode).allowed) [
      | inl fine ↦ record {
        earlier = [];
        mode = mode;
        others = modes;
        at = refl;
        mode_plan = tried_now ds mode modes some_mode fine;
        selects = some_mode;
        denied_before = λ m k. elim k [ ];
      }
      | inr bad ↦
          let plan = plan_mode rt broker request resource policy mode in
          let next = ds ++ plan.reason ∷ [] in
          let rest = plan_modes rt broker request resource policy next modes in
          let turned = tried_later ds mode modes some_mode bad in
          let left =
            turned
            ∙ denial_left plan policy.requested_mode rest
                (subst (λ (p : ResourceDeliveryPlan). p.allowed ≡ true) turned sent) in
          let c =
            plan_modes-Chosen next modes
              (subst (λ (p : ResourceDeliveryPlan). p.allowed ≡ true) left sent) in
          record {
            earlier = mode ∷ c.earlier;
            mode = c.mode;
            others = c.others;
            at = ap (λ l. mode ∷ l) c.at;
            mode_plan = left ∙ c.mode_plan;
            selects = c.selects;
            denied_before =
                λ m k. elim k [ inl q ↦ rw q (some_mode, bad) | inr k' ↦ c.denied_before m k' ];
          }
    ]
  ]

  not_sensitive :
      (p : ResourcePrivacy)
      → (plan_sensitivity rt broker request resource policy
          (resource_sensitivity_from_privacy p)).allowed
        ≡ true
      → (p ≢ ResourcePrivacy.sensitive)
        × (plan_sensitivity rt broker request resource policy (resource_sensitivity_from_privacy p)
            ≡ plan_modes rt broker request resource policy [] (requested_modes policy))
  unfolding plan_sensitivity resource_sensitivity_from_privacy create_none_plan
  not_sensitive ResourcePrivacy.sensitive sent = cc sent
  not_sensitive ResourcePrivacy.public sent = (λ e. cc e, refl)
  not_sensitive ResourcePrivacy.private sent = (λ e. cc e, refl)

  resource_allowed :
      (plan_resource rt broker request resource policy).allowed ≡ true
      → (resource.privacy ≢ ResourcePrivacy.sensitive)
        × Chosen (requested_modes policy) (plan_resource rt broker request resource policy)
  unfolding plan_resource
  resource_allowed sent =
      let (other, same) = not_sensitive resource.privacy sent in
      (
        other,
        subst (λ p. Chosen (requested_modes policy) p) (sym same)
            (plan_modes-Chosen [] (requested_modes policy)
              (subst (λ (p : ResourceDeliveryPlan). p.allowed ≡ true) same sent)),
      )

module _ (rt : Runtime) (broker : InMemoryResourceBroker) (default_policy : ResourceDeliveryPolicy)
    (request : ResourceDeliveryRequest) (plan : ResourceDeliveryPlan) where
  abbrev pub effective : EffectivePolicy
  effective = resolve_policy default_policy request.policy request.participant_id

  planned :
      plan_delivery rt broker default_policy request ≡ ok plan
      → (resource : Resource) × (get_resource broker request.resource_id ≡ some resource)
        × (validate_policy effective ≡ ok tt)
        × (plan_resource rt broker request resource effective ≡ plan)
  unfolding plan_delivery plan_found
  planned done = elim (Option-cases (get_resource broker request.resource_id)) [
    | inl missing ↦ cc (rw (plan_delivery, missing) at done)
    | inr found ↦ elim (Result-cases (validate_policy effective)) [
      | inr bad ↦ cc (rw (plan_delivery, found.1, bad.1) at done)
      | inl fine ↦ (
        found.0,
        found.1,
        fine.1,
        ok_injective (plan_resource rt broker request found.0 effective) plan
            (rw (plan_delivery, found.1, fine.1) at done),
      )
    ]
  ]

  -- A delivery that is allowed is of a registered resource that is not sensitive, under a valid
  -- policy, by the first of the requested modes that can be planned: every mode before it was
  -- tried and denied, and none of them nor the mode itself is "none".
  pub plan_delivery-Chosen :
      plan_delivery rt broker default_policy request ≡ ok plan
      → plan.allowed ≡ true
      → (resource : Resource) × (get_resource broker request.resource_id ≡ some resource)
        × (resource.privacy ≢ ResourcePrivacy.sensitive)
        × (validate_policy effective ≡ ok tt)
        × Chosen rt broker request resource effective (requested_modes effective) plan
  plan_delivery-Chosen done sent =
      let (resource, found, valid, same) = planned done in
      let (other, chosen) =
        resource_allowed rt broker request resource effective
          (ap (λ (p : ResourceDeliveryPlan). p.allowed) same ∙ sent) in
      (
        resource,
        found,
        other,
        valid,
        subst (λ p. Chosen rt broker request resource effective (requested_modes effective) p) same
            chosen,
      )
