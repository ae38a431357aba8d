-- ===== src/Resources/Types.antt =====
-- packages/resources/src/types.ts: policies, requests and delivery plans.
use deliberum.Prelude.{ℕ, String, Bool, Option, List, [], ◌∷◌, Map}
use deliberum.Protocol.Resources.{
  Resource, ResourcePrivacy, ResourceUrlExposure, ResourceVariant, UrlVariant, Base64Variant,
}

pub data ResourceDeliveryMode : Type 0 where
  url_mode base64_mode none_mode : ResourceDeliveryMode

pub data ResourceSensitivity : Type 0 where
  public internal sensitive : ResourceSensitivity

pub record InMemoryResourceContent : Type 0 where
  pub data_ref : String
  pub base64 : String

pub record ResourceRegistration : Type 0 where
  pub resource : Resource
  pub contents : Option (List InMemoryResourceContent)

-- A number that a policy gives as a size: a natural number, or any other.
pub data ByteLimit : Type 0 where
  bytes : ℕ → ByteLimit
  not_a_size : ByteLimit

-- A mode is any text here; the planner refuses those that it does not know.
-- A policy as it is written down: a field of none is not there, and `some none` is there and
-- undefined.
pub record ResourceDeliveryPolicyOverrides : Type 0 where
  pub preferred_modes : Option (Option (List String))
  pub requested_mode : Option (Option String)
  pub allow_localhost_url : Option (Option Bool)
  pub allow_lan_url : Option (Option Bool)
  pub allow_public_url : Option (Option Bool)
  pub allow_base64 : Option (Option Bool)
  pub max_base64_size_bytes : Option (Option ByteLimit)
  pub allow_hosted_content_url : Option (Option Bool)
  pub max_hosted_content_size_bytes : Option (Option ByteLimit)

-- What is read of a policy's fields, where that makes no difference.
pub record EffectivePolicy : Type 0 where
  pub preferred_modes : Option (List String)
  pub requested_mode : Option String
  pub allow_localhost_url : Option Bool
  pub allow_lan_url : Option Bool
  pub allow_public_url : Option Bool
  pub allow_base64 : Option Bool
  pub max_base64_size_bytes : Option ByteLimit
  pub allow_hosted_content_url : Option Bool
  pub max_hosted_content_size_bytes : Option ByteLimit

pub record ResourceDeliveryPolicy : Type 0 where
  pub own : ResourceDeliveryPolicyOverrides
  pub participant_overrides : Option (Map ResourceDeliveryPolicyOverrides)

pub record ResourceDeliveryRequest : Type 0 where
  pub resource_id : String
  pub participant_id : String
  pub policy : Option ResourceDeliveryPolicy

pub record UrlDeliveryMaterial : Type 0 where
  pub url : String
  pub exposure : ResourceUrlExposure
  pub expires_at : Option String

pub record Base64DeliveryMaterial : Type 0 where
  pub mime : String
  -- the field `data`
  pub base64 : String
  pub size_bytes : ℕ

pub data ResourceDeliveryMaterial : Type 0 where
  by_url : UrlDeliveryMaterial → ResourceDeliveryMaterial
  by_base64 : Base64DeliveryMaterial → ResourceDeliveryMaterial

pub record ResourceDeliveryPlan : Type 0 where
  pub resource_id : String
  pub participant_id : String
  pub selected_mode : ResourceDeliveryMode
  pub allowed : Bool
  pub reason : String
  pub warnings : List String
  pub delivery : Option ResourceDeliveryMaterial

unfoldable pub resource_sensitivity_from_privacy : ResourcePrivacy → ResourceSensitivity
resource_sensitivity_from_privacy ResourcePrivacy.private = ResourceSensitivity.internal
resource_sensitivity_from_privacy ResourcePrivacy.public = ResourceSensitivity.public
resource_sensitivity_from_privacy ResourcePrivacy.sensitive = ResourceSensitivity.sensitive

-- `variants.filter(isUrlVariant)`
unfoldable pub url_variants : List ResourceVariant → List UrlVariant
url_variants [] = []
url_variants (ResourceVariant.url v ∷ vs) = v ∷ url_variants vs
url_variants (_ ∷ vs) = url_variants vs

-- `variants.filter(isBase64Variant)`
unfoldable pub base64_variants : List ResourceVariant → List Base64Variant
base64_variants [] = []
base64_variants (ResourceVariant.base64 v ∷ vs) = v ∷ base64_variants vs
base64_variants (_ ∷ vs) = base64_variants vs
