-- ===== src/Resources/Planner/Permitted.antt =====
-- planDelivery of packages/resources/src/delivery-planner.ts: the conditions on what it hands out.
use deliberum.Prelude.{◌≡◌, refl, sym, ap, ◌∙◌, ◌≢◌, inl, inr, true, none, some, Bool-cases, In}
use mathlib.Core.Path.{subst}
use deliberum.Errors.{ok}
use deliberum.Protocol.Resources.{
  Resource, ResourcePrivacy, ResourceUrlExposure, ResourceVariant, UrlVariant,
}
use deliberum.Resources.Types.{
  EffectivePolicy, ResourceDeliveryPolicy, ResourceDeliveryRequest, ResourceDeliveryPlan,
  ResourceDeliveryMaterial, UrlDeliveryMaterial, by_url, resource_sensitivity_from_privacy,
}
use deliberum.Resources.Broker.{InMemoryResourceBroker, get_resource}
use deliberum.Resources.Runtime.{Runtime, Url}
use deliberum.Resources.Url.{
  exposure_denial, is_allowed, is_public, get_url_exposure_denial_reason, create_safe_url_material,
}
use deliberum.Resources.Planner.Clean.{allowed_flag, IsClean, handed, checked_url}
use deliberum.Resources.Planner.{plan_delivery}
use deliberum.Resources.Planner.Chosen.{effective, plan_delivery-Chosen}
use deliberum.Resources.Planner.Sent.{
  Sends, sends_url, sends_base64, sends_nothing, plan_mode-Sends,
}

-- The policy permits the exposure, and a public one only for a public resource.
abbrev pub Permits : EffectivePolicy → ResourcePrivacy → ResourceUrlExposure → Type 0
Permits policy level ResourceUrlExposure.localhost = policy.allow_localhost_url ≡ some true
Permits policy level ResourceUrlExposure.lan = policy.allow_lan_url ≡ some true
Permits policy level ResourceUrlExposure.public =
    (policy.allow_public_url ≡ some true) × (level ≡ ResourcePrivacy.public)

public_privacy :
    (p : ResourcePrivacy)
    → is_public (resource_sensitivity_from_privacy p) ≡ true
    → p ≡ ResourcePrivacy.public
unfolding is_public resource_sensitivity_from_privacy
public_privacy ResourcePrivacy.public e = refl
public_privacy ResourcePrivacy.private e = cc e
public_privacy ResourcePrivacy.sensitive e = cc e

exposure_permitted :
    (policy : EffectivePolicy) (level : ResourcePrivacy) (x : ResourceUrlExposure)
    → exposure_denial (resource_sensitivity_from_privacy level) policy x ≡ none
    → Permits policy level x
unfolding exposure_denial
exposure_permitted policy level ResourceUrlExposure.localhost e =
    elim (Bool-cases (is_allowed policy.allow_localhost_url)) [
      | inl y ↦ allowed_flag policy.allow_localhost_url y
      | inr n ↦ cc (rw n at e)
    ]
exposure_permitted policy level ResourceUrlExposure.lan e =
    elim (Bool-cases (is_allowed policy.allow_lan_url)) [
      | inl y ↦ allowed_flag policy.allow_lan_url y
      | inr n ↦ cc (rw n at e)
    ]
exposure_permitted policy level ResourceUrlExposure.public e =
    elim (Bool-cases (is_public (resource_sensitivity_from_privacy level))) [
      | inr n ↦ cc (rw n at e)
      | inl y ↦ elim (Bool-cases (is_allowed policy.allow_public_url)) [
        | inl z ↦ (allowed_flag policy.allow_public_url z, public_privacy level y)
        | inr n ↦ cc (rw (y, n) at e)
      ]
    ]

some_material : (a b : ResourceDeliveryMaterial) → some a ≡ some b → a ≡ b
some_material a b e = cc e

url_injective : (a b : UrlDeliveryMaterial) → by_url a ≡ by_url b → a ≡ b
url_injective a b e = cc e

module _ (rt : Runtime) (broker : InMemoryResourceBroker) (request : ResourceDeliveryRequest)
    (policy : EffectivePolicy) (resource : Resource) (plan : ResourceDeliveryPlan) where
  Sends-IsClean_url :
      (m : UrlDeliveryMaterial)
      → Sends rt broker request policy
          (resource_sensitivity_from_privacy resource.privacy)
          resource.variants
          plan
      → plan.delivery ≡ some (by_url m)
      → (v : UrlVariant) × (u : Url) × In (ResourceVariant.url v) resource.variants
        × (rt.parse_url v.url ≡ some u)
        × (m ≡ handed v u)
        × Permits policy resource.privacy v.exposure
        × IsClean rt policy v.exposure u
  unfolding create_safe_url_material get_url_exposure_denial_reason
  Sends-IsClean_url m (sends_nothing none_sent stopped) e = cc (e, none_sent)
  Sends-IsClean_url m (sends_base64 v content n b k permitted limit found fine same) e =
      cc (e, ap (λ (p : ResourceDeliveryPlan). p.delivery) same)
  Sends-IsClean_url m (sends_url v b k exposed fine same) e =
      let given = url_injective b m (
        some_material (by_url b) (by_url m)
          (sym (ap (λ (p : ResourceDeliveryPlan). p.delivery) same) ∙ e)) in
      let (u, parsed, clean, handed_out) = checked_url rt policy v (rt.parse_url v.url) b fine in
      (
        v,
        u,
        k,
        parsed,
        sym given ∙ handed_out,
        exposure_permitted policy resource.privacy v.exposure exposed,
        clean,
      )

module _ (rt : Runtime) (broker : InMemoryResourceBroker) (default_policy : ResourceDeliveryPolicy)
    (request : ResourceDeliveryRequest) (plan : ResourceDeliveryPlan)
    (done : plan_delivery rt broker default_policy request ≡ ok plan)
    (sent : plan.allowed ≡ true) where
  -- A URL that an allowed plan hands out is that of a variant of the registered resource, which is
  -- not sensitive; the effective policy permits the variant's exposure, a public one for a public
  -- resource only; and the parsed URL is http or https and has no credentials. If its host is
  -- classified as local or as of a private network, then that is the exposure and it is permitted;
  -- a host that is classified as public may stand under any exposure. Neither the URL nor its
  -- decoded path nor a parameter matches the pattern for secrets, and the path is no local one.
  pub plan_delivery-url :
      (m : UrlDeliveryMaterial)
      → plan.delivery ≡ some (by_url m)
      → let policy = effective rt broker default_policy request plan in
        (resource : Resource) × (v : UrlVariant) × (u : Url) × (get_resource broker
            request.resource_id
          ≡ some resource)
        × (resource.privacy ≢ ResourcePrivacy.sensitive)
        × In (ResourceVariant.url v) resource.variants
        × (rt.parse_url v.url ≡ some u)
        × (m ≡ record { url = u.href; exposure = v.exposure; expires_at = v.expires_at })
        × Permits policy resource.privacy v.exposure
        × IsClean rt policy v.exposure u
  plan_delivery-url m e =
      let policy = effective rt broker default_policy request plan in
      let (resource, found, other, valid, chosen) =
        plan_delivery-Chosen rt broker default_policy request plan done sent in
      let (v, u, k, parsed, same, permitted, clean) =
        Sends-IsClean_url rt broker request policy resource plan m
          (subst
            (λ p.
              Sends rt broker request policy (resource_sensitivity_from_privacy resource.privacy)
                resource.variants p)
            (sym chosen.mode_plan) (plan_mode-Sends rt broker request policy resource chosen.mode))
          e in
      (resource, v, u, found, other, k, parsed, same, permitted, clean)
