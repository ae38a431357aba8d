-- ===== src/Resources/Planner.antt =====
-- packages/resources/src/delivery-planner.ts: planDelivery.
pub mod Chosen
pub mod Sent
pub mod Clean
pub mod Permitted
use deliberum.Prelude.{
  ℕ, String, Bool, true, false, ◌&&◌, ◌||◌, not, Option, none, some, List, [], ◌∷◌, ◌++◌, ◌==◌,
  if◌then◌else◌, all, get, get_or,
}
use deliberum.Errors.{Result, ok, err, resource_not_found, invalid_resource_policy}
use deliberum.Protocol.Resources.{Resource, UrlVariant, Base64Variant, ResourceUrlExposure, public}
use deliberum.Resources.Types.{
  ResourceDeliveryMode, url_mode, base64_mode, none_mode, ResourceSensitivity, sensitive, ByteLimit,
  bytes, not_a_size, EffectivePolicy, ResourceDeliveryPolicyOverrides, ResourceDeliveryPolicy,
  ResourceDeliveryRequest, UrlDeliveryMaterial, Base64DeliveryMaterial, by_url, by_base64,
  ResourceDeliveryPlan, resource_sensitivity_from_privacy, url_variants, base64_variants,
}
use deliberum.Resources.Broker.{
  InMemoryResourceBroker, get_resource, get_explicit_in_memory_content,
}
use deliberum.Resources.Runtime.{Runtime}
use deliberum.Resources.Url.{
  Safe, safe, denied, is_allowed, get_url_exposure_denial_reason, create_safe_url_material,
}
use deliberum.Resources.Base64.{create_safe_base64_material}

abbrev pub default_mode_preference : List String
default_mode_preference = "url" ∷ "base64" ∷ "none" ∷ []

abbrev pub no_overrides : ResourceDeliveryPolicyOverrides
no_overrides = record {
  preferred_modes = none;
  requested_mode = none;
  allow_localhost_url = none;
  allow_lan_url = none;
  allow_public_url = none;
  allow_base64 = none;
  max_base64_size_bytes = none;
  allow_hosted_content_url = none;
  max_hosted_content_size_bytes = none;
}

abbrev pub empty_policy : EffectivePolicy
empty_policy = record {
  preferred_modes = none;
  requested_mode = none;
  allow_localhost_url = none;
  allow_lan_url = none;
  allow_public_url = none;
  allow_base64 = none;
  max_base64_size_bytes = none;
  allow_hosted_content_url = none;
  max_hosted_content_size_bytes = none;
}

-- A field of `{ ...a, ...b }`: one that b has replaces that of a, undefined or not.
unfoldable pub later_field {ℓ} : {A : Type ℓ} → Option A → Option (Option A) → Option A
later_field a none = a
later_field a (some b) = b

unfoldable pub spread : EffectivePolicy → ResourceDeliveryPolicyOverrides → EffectivePolicy
unfolding later_field
spread a b = record {
  preferred_modes = later_field a.preferred_modes b.preferred_modes;
  requested_mode = later_field a.requested_mode b.requested_mode;
  allow_localhost_url = later_field a.allow_localhost_url b.allow_localhost_url;
  allow_lan_url = later_field a.allow_lan_url b.allow_lan_url;
  allow_public_url = later_field a.allow_public_url b.allow_public_url;
  allow_base64 = later_field a.allow_base64 b.allow_base64;
  max_base64_size_bytes = later_field a.max_base64_size_bytes b.max_base64_size_bytes;
  allow_hosted_content_url = later_field a.allow_hosted_content_url b.allow_hosted_content_url;
  max_hosted_content_size_bytes =
      later_field a.max_hosted_content_size_bytes b.max_hosted_content_size_bytes;
}

-- `policy.participantOverrides?.[participantId]`, which spreads nothing if it is missing.
unfoldable pub overrides_for : ResourceDeliveryPolicy → String → ResourceDeliveryPolicyOverrides
unfolding get get_or
overrides_for policy participant_id =
    get_or no_overrides (get (get_or [] policy.participant_overrides) participant_id)

unfoldable pub resolve_policy :
    ResourceDeliveryPolicy → Option ResourceDeliveryPolicy → String → EffectivePolicy
unfolding spread overrides_for
resolve_policy default_policy none participant_id =
    spread (spread empty_policy default_policy.own) (overrides_for default_policy participant_id)
resolve_policy default_policy (some policy) participant_id =
    spread
      (spread
        (spread (spread empty_policy default_policy.own)
          (overrides_for default_policy participant_id))
        policy.own)
      (overrides_for policy participant_id)

unfoldable pub is_size : Option ByteLimit → Bool
is_size none = true
is_size (some (bytes n)) = true
is_size (some not_a_size) = false

unfoldable pub is_resource_delivery_mode : String → Bool
is_resource_delivery_mode m = m == "url" || (m == "base64" || m == "none")

unfoldable pub is_mode : Option String → Bool
unfolding is_resource_delivery_mode
is_mode none = true
is_mode (some m) = is_resource_delivery_mode m

unfoldable pub validate_policy : EffectivePolicy → Result (Unit {0})
unfolding is_size all get_or is_mode is_resource_delivery_mode
validate_policy policy =
    if is_size policy.max_base64_size_bytes
      && (is_size policy.max_hosted_content_size_bytes
          && (all is_resource_delivery_mode (get_or [] policy.preferred_modes)
              && is_mode policy.requested_mode))
    then ok tt
    else err invalid_resource_policy

unfoldable pub create_none_plan :
    ResourceDeliveryRequest → String → List String → ResourceDeliveryPlan
create_none_plan request reason warnings = record {
  resource_id = request.resource_id;
  participant_id = request.participant_id;
  selected_mode = none_mode;
  allowed = false;
  reason = reason;
  warnings = warnings;
  delivery = none;
}

unfoldable pub exposure_warnings : ResourceUrlExposure → List String
exposure_warnings public = "Public URL delivery was explicitly allowed by policy." ∷ []
exposure_warnings _ = []

abbrev pub url_plan :
    ResourceDeliveryRequest → UrlVariant → UrlDeliveryMaterial → ResourceDeliveryPlan
url_plan request variant material = record {
  resource_id = request.resource_id;
  participant_id = request.participant_id;
  selected_mode = url_mode;
  allowed = true;
  reason = "URL delivery is explicitly allowed by policy.";
  warnings = exposure_warnings variant.exposure;
  delivery = some (by_url material);
}

abbrev pub base64_plan : ResourceDeliveryRequest → Base64DeliveryMaterial → ResourceDeliveryPlan
base64_plan request material = record {
  resource_id = request.resource_id;
  participant_id = request.participant_id;
  selected_mode = base64_mode;
  allowed = true;
  reason = "Base64 delivery is explicitly allowed by policy and within size limit.";
  warnings = "Base64 delivery sends resource content to the participant." ∷ [];
  delivery = some (by_base64 material);
}

-- `policy.requestedMode ? [it] : policy.preferredModes if there are any : the default`
unfoldable pub requested_modes : EffectivePolicy → List String
requested_modes policy = elim policy.requested_mode [
  | some m ↦ m ∷ []
  | none ↦ elim (get_or [] policy.preferred_modes) [
    | [] ↦ default_mode_preference
    | m ∷ ms ↦ m ∷ ms
  ]
]

unfoldable pub first_or : String → List String → String
first_or default [] = default
first_or default (x ∷ xs) = x

unfoldable pub rest_of : List String → List String
rest_of [] = []
rest_of (x ∷ xs) = xs

module _ (rt : Runtime) where
  unfoldable pub get_first_url_denial_reason :
      List UrlVariant → ResourceSensitivity → EffectivePolicy → String
  get_first_url_denial_reason [] sensitivity policy = "No safe URL variant is available."
  get_first_url_denial_reason (v ∷ vs) sensitivity policy =
      let rest = get_first_url_denial_reason vs sensitivity policy in
      elim (get_url_exposure_denial_reason v sensitivity policy) [
        | some reason ↦ reason
        | none ↦ elim (create_safe_url_material rt v policy) [
          | denied reason ↦ reason
          | safe material ↦ rest
        ]
      ]

  -- The loop over the URL variants: the first that may be handed out.
  unfoldable pub first_url_plan :
      ResourceDeliveryRequest
      → ResourceSensitivity
      → EffectivePolicy
      → List UrlVariant
      → Option ResourceDeliveryPlan
  first_url_plan request sensitivity policy [] = none
  first_url_plan request sensitivity policy (v ∷ vs) =
      let rest = first_url_plan request sensitivity policy vs in
      elim (get_url_exposure_denial_reason v sensitivity policy) [
        | some reason ↦ rest
        | none ↦ elim (create_safe_url_material rt v policy) [
          | denied reason ↦ rest
          | safe material ↦ some (url_plan request v material)
        ]
      ]

  unfoldable pub plan_url_delivery :
      ResourceDeliveryRequest
      → ResourceSensitivity
      → EffectivePolicy
      → List UrlVariant
      → ResourceDeliveryPlan
  plan_url_delivery request sensitivity policy [] =
      create_none_plan request "Resource has no URL variant." []
  plan_url_delivery request sensitivity policy (v ∷ vs) =
      get_or (create_none_plan request (get_first_url_denial_reason (v ∷ vs) sensitivity policy) [])
        (first_url_plan request sensitivity policy (v ∷ vs))

  -- The loop over the Base64 variants: the first that has contents decides.
  unfoldable pub first_base64_plan :
      InMemoryResourceBroker
      → ResourceDeliveryRequest
      → ℕ
      → List Base64Variant
      → ResourceDeliveryPlan
  first_base64_plan broker request max_size [] =
      create_none_plan request
        "No base64 variant has explicit in-memory content within the configured size limit." []
  first_base64_plan broker request max_size (v ∷ vs) =
      let rest = first_base64_plan broker request max_size vs in
      elim (get_explicit_in_memory_content broker v.data_ref) [
        | none ↦ rest
        | some content ↦ elim (create_safe_base64_material rt v content max_size) [
          | denied reason ↦ create_none_plan request reason []
          | safe material ↦ base64_plan request material
        ]
      ]

  -- A limit that is no size has been refused before.
  unfoldable pub plan_within :
      InMemoryResourceBroker
      → ResourceDeliveryRequest
      → List Base64Variant
      → Option ByteLimit
      → ResourceDeliveryPlan
  plan_within broker request variants (some (bytes n)) = first_base64_plan broker request n variants
  plan_within broker request variants _ =
      create_none_plan request "Base64 delivery requires maxBase64SizeBytes policy." []

  unfoldable pub plan_base64_delivery :
      InMemoryResourceBroker
      → ResourceDeliveryRequest
      → EffectivePolicy
      → List Base64Variant
      → ResourceDeliveryPlan
  plan_base64_delivery broker request policy [] =
      create_none_plan request "Resource has no base64 variant." []
  plan_base64_delivery broker request policy (v ∷ vs) =
      if not (is_allowed policy.allow_base64)
      then create_none_plan request "Base64 delivery requires allowBase64 policy." []
      else plan_within broker request (v ∷ vs) policy.max_base64_size_bytes

  module _ (broker : InMemoryResourceBroker) (request : ResourceDeliveryRequest)
      (resource : Resource) (policy : EffectivePolicy) where
    unfoldable pub plan_mode : String → ResourceDeliveryPlan
    plan_mode mode =
        if mode == "url"
        then plan_url_delivery request (resource_sensitivity_from_privacy resource.privacy) policy
            (url_variants resource.variants)
        else plan_base64_delivery broker request policy (base64_variants resource.variants)

    -- A mode that the policy requests is the only one that is tried.
    unfoldable pub after_denial :
        ResourceDeliveryPlan → Option String → ResourceDeliveryPlan → ResourceDeliveryPlan
    after_denial plan none rest = rest
    after_denial plan (some m) rest = create_none_plan request plan.reason plan.warnings

    unfoldable pub plan_modes : List String → List String → ResourceDeliveryPlan
    plan_modes denied_reasons [] =
        create_none_plan request
          (first_or "No allowed resource delivery mode is available." denied_reasons)
          (rest_of denied_reasons)
    plan_modes denied_reasons (mode ∷ modes) =
        let plan = plan_mode mode in
        let rest = plan_modes (denied_reasons ++ plan.reason ∷ []) modes in
        if mode == "none"
        then create_none_plan request "No resource delivery mode was selected." denied_reasons
        else if plan.allowed
        then plan
        else after_denial plan policy.requested_mode rest

    unfoldable pub plan_sensitivity : ResourceSensitivity → ResourceDeliveryPlan
    plan_sensitivity sensitive =
        create_none_plan request "Sensitive resources are not deliverable in Stage 12."
          ("Sensitive resource delivery requires a future explicit secure workflow." ∷ [])
    plan_sensitivity _ = plan_modes [] (requested_modes policy)

    unfoldable pub plan_resource : ResourceDeliveryPlan
    unfolding plan_sensitivity
    plan_resource = plan_sensitivity (resource_sensitivity_from_privacy resource.privacy)

  unfoldable pub plan_found :
      InMemoryResourceBroker
      → ResourceDeliveryRequest
      → EffectivePolicy
      → Result (Unit {0})
      → Resource
      → Result ResourceDeliveryPlan
  plan_found broker request policy (err e) resource = err e
  plan_found broker request policy (ok u) resource =
      ok (plan_resource broker request resource policy)

  unfoldable pub plan_delivery :
      InMemoryResourceBroker
      → ResourceDeliveryPolicy
      → ResourceDeliveryRequest
      → Result ResourceDeliveryPlan
  plan_delivery broker default_policy request =
      let policy = resolve_policy default_policy request.policy request.participant_id in
      elim (get_resource broker request.resource_id) [
        | none ↦ err (resource_not_found request.resource_id)
        | some resource ↦ plan_found broker request policy (validate_policy policy) resource
      ]
