-- ===== src/Tests/Deliveries.antt =====
-- A resource with a local URL and contents, and two deliveries of it.
use deliberum.Prelude.{
  String, ◌≡◌, ◌≢◌, refl, true, Option, none, some, [], ◌∷◌, ◌==◌, In, get, get_or, if◌then◌else◌,
}
use deliberum.Errors.{ok, err, invalid_resource_registration}
use deliberum.Protocol.Resources.{
  Resource, resource_schema, ResourceKind, ResourcePrivacy, ResourceUrlExposure, ResourceVariant,
  UrlVariant,
}
use deliberum.Resources.Types.{
  InMemoryResourceContent, ResourceRegistration, ResourceDeliveryPolicy, ResourceDeliveryRequest,
  ResourceDeliveryPlan, bytes, UrlDeliveryMaterial, Base64DeliveryMaterial, url_variants,
  resource_sensitivity_from_privacy,
}
use deliberum.Resources.Broker.{
  InMemoryResourceBroker, empty_broker, register_resource, get_resource, parse_resource,
  get_explicit_in_memory_content, data_refs, validate_content_registration, check_contents,
  is_there,
}
use deliberum.Resources.Broker.Registered.{register_resource-adds, register_resource_error}
use deliberum.Resources.Runtime.{Runtime, Url}
use deliberum.Resources.Url.{create_safe_url_material, get_url_exposure_denial_reason}
use deliberum.Resources.Base64.{strict_base64}
use deliberum.Resources.Planner.{
  no_overrides, url_plan, base64_plan, plan_delivery, plan_found, plan_resource, plan_modes,
  plan_mode, plan_url_delivery, first_url_plan, requested_modes, validate_policy, resolve_policy,
}
use deliberum.Resources.Planner.Chosen.{effective, Chosen, plan_delivery-Chosen}
use deliberum.Resources.Url.{safe, check_parsed_url}
use deliberum.Resources.Planner.Clean.{IsClean}
use deliberum.Resources.Planner.Permitted.{Permits, plan_delivery-url}

abbrev local : String → Url
local href = record {
  protocol = "http:";
  username = "";
  password = "";
  hostname = "localhost";
  pathname = "/f";
  search_params = [];
  href = href;
}

abbrev runtime : Runtime
runtime = record {
  parse_url = λ s. some (local s);
  decode_uri_component = λ s. some s;
  matches = λ pattern value. pattern == strict_base64;
  to_lower_case = λ s. s;
  atob = λ s. some (1 ∷ 2 ∷ []);
  btoa = λ codes. "AQI=";
  decode_utf8 = λ codes. none;
  encode_utf8 = λ s. [];
}

abbrev picture : Resource
picture = record {
  id = "r";
  kind = ResourceKind.image;
  mime = "image/png";
  size_bytes = 2;
  hash = "h";
  privacy = ResourcePrivacy.private;
  variants =
      ResourceVariant.url (record {
        url = "http://localhost/f";
        exposure = ResourceUrlExposure.localhost;
        expires_at = none;
      })
      ∷ ResourceVariant.base64 (record { mime = "image/png"; data_ref = "d"; size_bytes = 2 })
      ∷ [];
}

abbrev contents : InMemoryResourceContent
contents = record { data_ref = "d"; base64 = "AQI=" }

abbrev registration : ResourceRegistration
registration = record { resource = picture; contents = some (contents ∷ []) }

registers_well : (register_resource registration empty_broker).0 ≡ ok picture
unfolding register_resource parse_resource validate_content_registration check_contents data_refs
    is_there get get_or
registers_well = refl

register_resource-adds_example :
    let later = (register_resource registration empty_broker).1 in
    (picture ≡ registration.resource)
    × (resource_schema picture ≡ true)
    × (get_resource empty_broker "r" ≡ none)
    × ((id : String)
        → get_resource later id
          ≡ (if "r" == id then some picture else get_resource empty_broker id))
    × ((k content : String)
        → get_explicit_in_memory_content empty_broker k ≡ some content
        → get_explicit_in_memory_content later k ≡ some content)
    × ((c : InMemoryResourceContent)
        → In c (get_or [] registration.contents)
        → In c.data_ref (data_refs picture)
          × (get_explicit_in_memory_content later c.data_ref ≡ some c.base64))
register_resource-adds_example =
    register_resource-adds registration empty_broker picture registers_well

abbrev stray : ResourceRegistration
stray = record {
  resource = picture;
  contents = some (record { data_ref = "x"; base64 = "AQI=" } ∷ []);
}

refuses_stray : (register_resource stray empty_broker).0 ≡ err invalid_resource_registration
unfolding register_resource parse_resource validate_content_registration check_contents data_refs
    is_there get get_or
refuses_stray = refl

register_resource_error_example : (register_resource stray empty_broker).1 ≡ empty_broker
register_resource_error_example =
    register_resource_error stray empty_broker invalid_resource_registration refuses_stray

abbrev broker : InMemoryResourceBroker
broker = record { resources_by_id = ("r", picture) ∷ []; content_by_data_ref = ("d", "AQI=") ∷ [] }

abbrev defaults : ResourceDeliveryPolicy
defaults = record {
  own = record no_overrides {
    allow_localhost_url = some (some true);
    allow_base64 = some (some true);
    max_base64_size_bytes = some (some (bytes 10));
  };
  participant_overrides = none;
}

abbrev asks : Option String → ResourceDeliveryRequest
asks mode = record {
  resource_id = "r";
  participant_id = "ann";
  policy = some (record {
    own = record no_overrides { requested_mode = some mode };
    participant_overrides = none;
  });
}

abbrev url_given : UrlVariant
url_given = record {
  url = "http://localhost/f";
  exposure = ResourceUrlExposure.localhost;
  expires_at = none;
}

abbrev link : UrlDeliveryMaterial
link = record {
  url = "http://localhost/f";
  exposure = ResourceUrlExposure.localhost;
  expires_at = none;
}

abbrev first_plan : ResourceDeliveryPlan
first_plan = url_plan (asks none) url_given link

abbrev inline : Base64DeliveryMaterial
inline = record { mime = "image/png"; base64 = "AQI="; size_bytes = 2 }

abbrev second_plan : ResourceDeliveryPlan
second_plan = base64_plan (asks (some "base64")) inline

plans_url : plan_delivery runtime broker defaults (asks none) ≡ ok first_plan
unfolding plan_delivery plan_found validate_policy resolve_policy get_resource plan_resource
    plan_modes plan_mode plan_url_delivery first_url_plan get_url_exposure_denial_reason
    create_safe_url_material requested_modes url_variants get_or resource_sensitivity_from_privacy
plans_url = refl

plan_delivery-Chosen_example :
    let policy = effective runtime broker defaults (asks none) first_plan in
    (resource : Resource) × (get_resource broker "r" ≡ some resource)
    × (resource.privacy ≢ ResourcePrivacy.sensitive)
    × (validate_policy policy ≡ ok tt)
    × Chosen runtime broker (asks none) resource policy (requested_modes policy) first_plan
plan_delivery-Chosen_example =
    plan_delivery-Chosen runtime broker defaults (asks none) first_plan plans_url refl

plan_delivery-url_example :
    let policy = effective runtime broker defaults (asks none) first_plan in
    (resource : Resource) × (v : UrlVariant) × (u : Url) × (get_resource broker "r" ≡ some resource)
    × (resource.privacy ≢ ResourcePrivacy.sensitive)
    × In (ResourceVariant.url v) resource.variants
    × (runtime.parse_url v.url ≡ some u)
    × (link ≡ record { url = u.href; exposure = v.exposure; expires_at = v.expires_at })
    × Permits policy resource.privacy v.exposure
    × IsClean runtime policy v.exposure u
plan_delivery-url_example =
    plan_delivery-url runtime broker defaults (asks none) first_plan plans_url refl link refl

-- A public host under the exposure localhost, which the policy permits.
abbrev elsewhere : Url
elsewhere = record (local "http://example.com/f") { hostname = "example.com" }

public_host_sent :
    check_parsed_url runtime
      (record {
        url = "http://example.com/f";
        exposure = ResourceUrlExposure.localhost;
        expires_at = none;
      })
      (effective runtime broker defaults (asks none) first_plan)
      (some elsewhere)
    ≡ safe (record {
      url = "http://example.com/f";
      exposure = ResourceUrlExposure.localhost;
      expires_at = none;
    })
unfolding check_parsed_url
public_host_sent = refl
