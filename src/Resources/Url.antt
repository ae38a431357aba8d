-- ===== src/Resources/Url.antt =====
-- packages/resources/src/delivery-planner.ts: which registered URLs may be handed out.
use deliberum.Prelude.{
  String, Bool, true, false, ◌&&◌, ◌||◌, not, Option, none, some, List, [], ◌∷◌, leb, ◌==◌,
  if◌then◌else◌,
}
use text.Mathlib.Text.{starts_with}
use Prim.Native.String.{len, find as find_text}
use deliberum.Protocol.Resources.{ResourceUrlExposure, UrlVariant, localhost, lan, public}
use deliberum.Resources.Types.{ResourceSensitivity, EffectivePolicy, UrlDeliveryMaterial}
use deliberum.Resources.Runtime.{Runtime, Url}

-- Delivery material, or the reason for which there is none.
pub data Safe (A : Type 0) : Type 0 where
  safe : A → Safe A
  denied : String → Safe A

pub data HostSafety : Type 0 where
  host_public host_localhost host_lan : HostSafety

-- `flag === true`
unfoldable pub is_allowed : Option Bool → Bool
is_allowed none = false
is_allowed (some b) = b

-- `text.includes(part)`
unfoldable pub includes : String → String → Bool
includes text part = leb (find_text text part) (len text)

unfoldable pub is_public : ResourceSensitivity → Bool
is_public ResourceSensitivity.public = true
is_public _ = false

unfoldable pub exposure_denial :
    ResourceSensitivity → EffectivePolicy → ResourceUrlExposure → Option String
unfolding is_public is_allowed
exposure_denial sensitivity policy localhost =
    if is_allowed policy.allow_localhost_url
    then none
    else some "Localhost URL delivery is not allowed by policy."
exposure_denial sensitivity policy lan =
    if is_allowed policy.allow_lan_url
    then none
    else some "LAN URL delivery is not allowed by policy."
exposure_denial sensitivity policy public =
    if not (is_public sensitivity)
    then some "Public URL exposure is only allowed for public resources in Stage 12."
    else if is_allowed policy.allow_public_url
    then none
    else some "Public URL delivery requires allowPublicUrl policy."

unfoldable pub get_url_exposure_denial_reason :
    UrlVariant → ResourceSensitivity → EffectivePolicy → Option String
unfolding exposure_denial
get_url_exposure_denial_reason variant sensitivity policy =
    exposure_denial sensitivity policy variant.exposure

abbrev pub secret_like : String
secret_like =
    "/api[_-]?key|apikey|secret|private[_-]?token|access[_-]?token|auth(orization)?|bearer\\s+|signature|sig=|sk-[a-z0-9]|token[=:/?&]|[?&]token=/i"

abbrev pub private_172 : String
private_172 = "/^172\\.(1[6-9]|2\\d|3[0-1])\\./"

module _ (rt : Runtime) where
  unfoldable pub contains_secret_like_text : String → Bool
  contains_secret_like_text value = rt.matches secret_like value

  unfoldable pub looks_like_local_file_path : String → Bool
  unfolding includes
  looks_like_local_file_path path =
      let lower = rt.to_lower_case path in
      starts_with lower "/users/"
      || (starts_with lower "/home/"
          || (starts_with lower "/private/" || (includes lower "/.ssh/" || includes lower "\\")))

  unfoldable pub classify_url_host_safety : String → HostSafety
  classify_url_host_safety hostname =
      let lower = rt.to_lower_case hostname in
      if lower == "localhost"
        || (lower == "127.0.0.1"
            || (lower == "::1" || (lower == "[::1]" || starts_with lower "127.")))
      then host_localhost
      else if starts_with lower "10."
          || (starts_with lower "192.168."
              || (rt.matches private_172 lower
                  || (starts_with lower "[fc"
                      || (starts_with lower "[fd"
                          || (starts_with lower "[fe80:"
                              || (starts_with lower "169.254." || lower == "0.0.0.0"))))))
      then host_lan
      else host_public

  unfoldable pub has_secret_param : List (String × String) → Bool
  unfolding contains_secret_like_text
  has_secret_param [] = false
  has_secret_param ((key, value) ∷ params) =
      contains_secret_like_text key || (contains_secret_like_text value || has_secret_param params)

  -- A path that cannot be decoded is unsafe.
  unfoldable pub holds_unsafe_material : Url → Option String → Bool
  unfolding contains_secret_like_text looks_like_local_file_path has_secret_param
  holds_unsafe_material u none = true
  holds_unsafe_material u (some path) =
      contains_secret_like_text u.href
      || (contains_secret_like_text path
          || (looks_like_local_file_path path || has_secret_param u.search_params))

  unfoldable pub contains_unsafe_url_material : Url → Bool
  unfolding holds_unsafe_material
  contains_unsafe_url_material u = holds_unsafe_material u (rt.decode_uri_component u.pathname)

  unfoldable pub is_localhost_exposure : ResourceUrlExposure → Bool
  is_localhost_exposure localhost = true
  is_localhost_exposure _ = false

  unfoldable pub is_lan_exposure : ResourceUrlExposure → Bool
  is_lan_exposure lan = true
  is_lan_exposure _ = false

  -- A local or private host wants that exposure and its permission.
  unfoldable pub host_refused : HostSafety → ResourceUrlExposure → EffectivePolicy → Bool
  unfolding is_localhost_exposure is_lan_exposure is_allowed
  host_refused host_localhost exposure policy =
      not (is_localhost_exposure exposure) || not (is_allowed policy.allow_localhost_url)
  host_refused host_lan exposure policy =
      not (is_lan_exposure exposure) || not (is_allowed policy.allow_lan_url)
  host_refused host_public exposure policy = false

  unfoldable pub check_parsed_url :
      UrlVariant → EffectivePolicy → Option Url → Safe UrlDeliveryMaterial
  unfolding classify_url_host_safety host_refused contains_unsafe_url_material
  check_parsed_url variant policy none = denied "Registered URL is not safe for delivery."
  check_parsed_url variant policy (some u) =
      if not (u.protocol == "http:" || u.protocol == "https:")
      then denied "Registered URL is not safe for delivery."
      else if not (u.username == "" && u.password == "")
      then denied "Registered URL contains credentials."
      else if host_refused (classify_url_host_safety u.hostname) variant.exposure policy
      then denied "Registered URL is not safe for delivery."
      else if contains_unsafe_url_material u
      then denied "Registered URL contains private delivery material."
      else safe
          (record { url = u.href; exposure = variant.exposure; expires_at = variant.expires_at })

  unfoldable pub create_safe_url_material : UrlVariant → EffectivePolicy → Safe UrlDeliveryMaterial
  unfolding check_parsed_url
  create_safe_url_material variant policy =
      check_parsed_url variant policy (rt.parse_url variant.url)
