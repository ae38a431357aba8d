-- ===== src/Resources/Planner/Sent.antt =====
-- planDelivery of packages/resources/src/delivery-planner.ts: what a plan hands out.
use deliberum.Prelude.{
  ℕ, String, ◌≡◌, refl, ap, ◌⊎◌, inl, inr, true, false, Option, none, some, List, [], ◌∷◌, ◌==◌,
  Bool-cases, Option-cases, get_or, all, In,
}
use deliberum.Protocol.Resources.{Resource, ResourceVariant, UrlVariant, Base64Variant}
use deliberum.Resources.Types.{
  EffectivePolicy, ResourceDeliveryRequest, ByteLimit, bytes, not_a_size, ResourceDeliveryPlan,
  UrlDeliveryMaterial, Base64DeliveryMaterial, ResourceSensitivity,
  resource_sensitivity_from_privacy, url_variants, base64_variants,
}
use deliberum.Resources.Broker.{InMemoryResourceBroker, get_explicit_in_memory_content}
use deliberum.Resources.Runtime.{Runtime}
use deliberum.Resources.Url.{
  Safe, safe, denied, is_allowed, get_url_exposure_denial_reason, create_safe_url_material,
}
use deliberum.Resources.Base64.{create_safe_base64_material}
use deliberum.Resources.Planner.{
  url_plan, base64_plan, create_none_plan, first_url_plan, plan_url_delivery, first_base64_plan,
  plan_within, plan_base64_delivery, plan_mode,
}

In-url_variants :
    (v : UrlVariant) (vs : List ResourceVariant)
    → In v (url_variants vs)
    → In (ResourceVariant.url v) vs
unfolding url_variants
In-url_variants v [] m = elim m [ ]
In-url_variants v (ResourceVariant.url u ∷ vs) (inl e) = inl (ap ResourceVariant.url e)
In-url_variants v (ResourceVariant.url u ∷ vs) (inr m) = inr (In-url_variants v vs m)
In-url_variants v (ResourceVariant.base64 u ∷ vs) m = inr (In-url_variants v vs m)
In-url_variants v (ResourceVariant.summary u ∷ vs) m = inr (In-url_variants v vs m)
In-url_variants v (ResourceVariant.ocr u ∷ vs) m = inr (In-url_variants v vs m)
In-url_variants v (ResourceVariant.caption u ∷ vs) m = inr (In-url_variants v vs m)

In-base64_variants :
    (v : Base64Variant) (vs : List ResourceVariant)
    → In v (base64_variants vs)
    → In (ResourceVariant.base64 v) vs
unfolding base64_variants
In-base64_variants v [] m = elim m [ ]
In-base64_variants v (ResourceVariant.base64 u ∷ vs) (inl e) = inl (ap ResourceVariant.base64 e)
In-base64_variants v (ResourceVariant.base64 u ∷ vs) (inr m) = inr (In-base64_variants v vs m)
In-base64_variants v (ResourceVariant.url u ∷ vs) m = inr (In-base64_variants v vs m)
In-base64_variants v (ResourceVariant.summary u ∷ vs) m = inr (In-base64_variants v vs m)
In-base64_variants v (ResourceVariant.ocr u ∷ vs) m = inr (In-base64_variants v vs m)
In-base64_variants v (ResourceVariant.caption u ∷ vs) m = inr (In-base64_variants v vs m)

pub Safe-cases :
    {A : Type 0} (s : Safe A) → ((a : A) × (s ≡ safe a)) ⊎ ((reason : String) × (s ≡ denied reason))
Safe-cases (safe a) = inl (a, refl)
Safe-cases (denied reason) = inr (reason, refl)

module _ (rt : Runtime) (broker : InMemoryResourceBroker) (request : ResourceDeliveryRequest)
    (policy : EffectivePolicy) where
  -- What may be behind a plan, by the mode that it selects.
  pub data Sends (sensitivity : ResourceSensitivity) (variants : List ResourceVariant)
      (plan : ResourceDeliveryPlan) : Type 0 where
    sends_url :
        (v : UrlVariant) (m : UrlDeliveryMaterial)
        → In (ResourceVariant.url v) variants
        → get_url_exposure_denial_reason v sensitivity policy ≡ none
        → create_safe_url_material rt v policy ≡ safe m
        → plan ≡ url_plan request v m
        → Sends sensitivity variants plan
    sends_base64 :
        (v : Base64Variant) (content : String) (n : ℕ) (m : Base64DeliveryMaterial)
        → In (ResourceVariant.base64 v) variants
        → is_allowed policy.allow_base64 ≡ true
        → policy.max_base64_size_bytes ≡ some (bytes n)
        → get_explicit_in_memory_content broker v.data_ref ≡ some content
        → create_safe_base64_material rt v content n ≡ safe m
        → plan ≡ base64_plan request m
        → Sends sensitivity variants plan
    sends_nothing : plan.delivery ≡ none → plan.allowed ≡ false → Sends sensitivity variants plan

  module _ (sensitivity : ResourceSensitivity) where
    abbrev Found : List UrlVariant → Option ResourceDeliveryPlan → Type 0
    Found vs out =
        (out ≡ none)
        ⊎ ((v : UrlVariant) × (m : UrlDeliveryMaterial) × In v vs
            × (get_url_exposure_denial_reason v sensitivity policy ≡ none)
            × (create_safe_url_material rt v policy ≡ safe m)
            × (out ≡ some (url_plan request v m)))

    Found-later :
        (v : UrlVariant) (vs : List UrlVariant) (out : Option ResourceDeliveryPlan)
        → Found vs out
        → Found (v ∷ vs) out
    Found-later v vs out (inl e) = inl e
    Found-later v vs out (inr f) = inr (f.0, f.1, inr f.2, f.3, f.4, f.5)

    first_url_plan-Found :
        (vs : List UrlVariant) → Found vs (first_url_plan rt request sensitivity policy vs)
    unfolding first_url_plan
    first_url_plan-Found [] = inl refl
    first_url_plan-Found (v ∷ vs) =
        let rest =
          Found-later v vs (first_url_plan rt request sensitivity policy vs)
            (first_url_plan-Found vs) in
        elim (Option-cases (get_url_exposure_denial_reason v sensitivity policy)) [
          | inr reason ↦ rw (first_url_plan, reason.1) rest
          | inl fine ↦ elim (Safe-cases (create_safe_url_material rt v policy)) [
            | inr reason ↦ rw (first_url_plan, fine, reason.1) rest
            | inl m ↦ rw (first_url_plan, fine, m.1) (inr (v, m.0, inl refl, fine, m.1, refl))
          ]
        ]

    plan_url_delivery-Sends :
        (variants : List ResourceVariant) (vs : List UrlVariant)
        → ((v : UrlVariant) → In v vs → In (ResourceVariant.url v) variants)
        → Sends sensitivity variants (plan_url_delivery rt request sensitivity policy vs)
    unfolding plan_url_delivery create_none_plan get_or
    plan_url_delivery-Sends variants [] all = sends_nothing refl refl
    plan_url_delivery-Sends variants (v ∷ vs) all = elim (first_url_plan-Found (v ∷ vs)) [
      | inl none_found ↦ rw none_found (sends_nothing refl refl)
      | inr f ↦ sends_url f.0 f.1 (all f.0 f.2) f.3 f.4 (rw (f.5) refl)
    ]

    module _ (variants : List ResourceVariant) (permitted : is_allowed policy.allow_base64 ≡ true)
        (n : ℕ) (limit : policy.max_base64_size_bytes ≡ some (bytes n)) where
      first_base64_plan-Sends :
          (vs : List Base64Variant)
          → ((v : Base64Variant) → In v vs → In (ResourceVariant.base64 v) variants)
          → Sends sensitivity variants (first_base64_plan rt broker request n vs)
      unfolding first_base64_plan create_none_plan
      first_base64_plan-Sends [] all = sends_nothing refl refl
      first_base64_plan-Sends (v ∷ vs) all =
          let rest = first_base64_plan-Sends vs (λ u m. all u (inr m)) in
          elim (Option-cases (get_explicit_in_memory_content broker v.data_ref)) [
            | inl missing ↦ rw (first_base64_plan, missing) rest
            | inr content ↦ elim (Safe-cases (create_safe_base64_material rt v content.0 n)) [
              | inr reason ↦ rw (first_base64_plan, content.1, reason.1) (sends_nothing refl refl)
              | inl m ↦
                  sends_base64 v content.0 n m.0 (all v (inl refl)) permitted limit content.1 m.1
                    (rw (first_base64_plan, content.1, m.1) refl)
            ]
          ]

    plan_within-Sends :
        (variants : List ResourceVariant) (vs : List Base64Variant) (limit : Option ByteLimit)
        → ((v : Base64Variant) → In v vs → In (ResourceVariant.base64 v) variants)
        → is_allowed policy.allow_base64 ≡ true
        → policy.max_base64_size_bytes ≡ limit
        → Sends sensitivity variants (plan_within rt broker request vs limit)
    unfolding plan_within create_none_plan
    plan_within-Sends variants vs none all permitted e = sends_nothing refl refl
    plan_within-Sends variants vs (some not_a_size) all permitted e = sends_nothing refl refl
    plan_within-Sends variants vs (some (bytes n)) all permitted e =
        first_base64_plan-Sends variants permitted n e vs all

    plan_base64_delivery-Sends :
        (variants : List ResourceVariant) (vs : List Base64Variant)
        → ((v : Base64Variant) → In v vs → In (ResourceVariant.base64 v) variants)
        → Sends sensitivity variants (plan_base64_delivery rt broker request policy vs)
    unfolding plan_base64_delivery create_none_plan
    plan_base64_delivery-Sends variants [] all = sends_nothing refl refl
    plan_base64_delivery-Sends variants (v ∷ vs) all =
        elim (Bool-cases (is_allowed policy.allow_base64)) [
          | inr refused ↦ rw refused (sends_nothing refl refl)
          | inl permitted ↦
              rw permitted (
                plan_within-Sends variants (v ∷ vs) policy.max_base64_size_bytes all permitted refl)
        ]

  pub plan_mode-Sends :
      (resource : Resource) (mode : String)
      → Sends
          (resource_sensitivity_from_privacy resource.privacy)
          resource.variants
          (plan_mode rt broker request resource policy mode)
  unfolding plan_mode
  plan_mode-Sends resource mode =
      let sensitivity = resource_sensitivity_from_privacy resource.privacy in
      elim (Bool-cases (mode == "url")) [
        | inl q ↦ rw q (
            plan_url_delivery-Sends sensitivity resource.variants (url_variants resource.variants)
              (λ v m. In-url_variants v resource.variants m))
        | inr q ↦ rw q (
            plan_base64_delivery-Sends sensitivity resource.variants
              (base64_variants resource.variants) (λ v m. In-base64_variants v resource.variants m))
      ]
