-- ===== src/Resources/Planner/Clean.antt =====
-- createSafeUrlMaterial and createSafeBase64Material of packages/resources/src/delivery-planner.ts:
-- what the material that they give out has passed.
use deliberum.Prelude.{◌⊎◌, inl, inr, eq_iff, Option-cases, ◌&&◌, ◌||◌, not}
use deliberum.Resources.Url.{
  HostSafety, host_localhost, host_lan, host_public, is_localhost_exposure, is_lan_exposure,
  contains_secret_like_text, looks_like_local_file_path, has_secret_param,
}
use deliberum.Prelude.{
  ℕ, ◌≤◌, String, ◌≡◌, refl, sym, inl, inr, Bool, true, false, ◌&&◌, ◌||◌, Option, none, some, List,
  ltb, ◌==◌, Bool-cases, length,
}
use deliberum.Prelude.{not_ltb→le}
use deliberum.Protocol.Resources.{ResourceUrlExposure, UrlVariant, Base64Variant}
use deliberum.Resources.Types.{EffectivePolicy, UrlDeliveryMaterial, Base64DeliveryMaterial}
use deliberum.Resources.Runtime.{Runtime, Url}
use deliberum.Resources.Url.{
  safe, is_allowed, check_parsed_url, host_refused, classify_url_host_safety,
  contains_unsafe_url_material, holds_unsafe_material,
}
use deliberum.Resources.Base64.{check_decoded, decode_valid_utf8, holds_secret}

pub allowed_flag : (b : Option Bool) → is_allowed b ≡ true → b ≡ some true
unfolding is_allowed
allowed_flag none e = cc e
allowed_flag (some true) e = refl
allowed_flag (some false) e = cc e

safe_injective : {A : Type 0} (a b : A) → safe a ≡ safe b → a ≡ b
safe_injective a b e = cc e

-- A host that is classified as local or as of a private network wants that exposure and its
-- permission. One that is classified as public is not compared with the exposure.
abbrev pub FitsHost : HostSafety → ResourceUrlExposure → EffectivePolicy → Type 0
FitsHost host_localhost exposure policy =
    (exposure ≡ ResourceUrlExposure.localhost) × (policy.allow_localhost_url ≡ some true)
FitsHost host_lan exposure policy =
    (exposure ≡ ResourceUrlExposure.lan) × (policy.allow_lan_url ≡ some true)
FitsHost host_public exposure policy = Unit {0}

same_localhost :
    (rt : Runtime) (x : ResourceUrlExposure)
    → is_localhost_exposure rt x ≡ true
    → x ≡ ResourceUrlExposure.localhost
unfolding is_localhost_exposure
same_localhost rt ResourceUrlExposure.localhost e = refl
same_localhost rt ResourceUrlExposure.lan e = cc e
same_localhost rt ResourceUrlExposure.public e = cc e

same_lan :
    (rt : Runtime) (x : ResourceUrlExposure)
    → is_lan_exposure rt x ≡ true
    → x ≡ ResourceUrlExposure.lan
unfolding is_lan_exposure
same_lan rt ResourceUrlExposure.localhost e = cc e
same_lan rt ResourceUrlExposure.lan e = refl
same_lan rt ResourceUrlExposure.public e = cc e

neither : (a b : Bool) → (not a || not b) ≡ false → (a ≡ true) × (b ≡ true)
neither true true e = (refl, refl)
neither true false e = cc e
neither false b e = cc e

host_refused-FitsHost :
    (rt : Runtime) (host : HostSafety) (exposure : ResourceUrlExposure) (policy : EffectivePolicy)
    → host_refused rt host exposure policy ≡ false
    → FitsHost host exposure policy
unfolding host_refused
host_refused-FitsHost rt host_localhost exposure policy e =
    let (x, y) =
      neither (is_localhost_exposure rt exposure) (is_allowed policy.allow_localhost_url) e in
    (same_localhost rt exposure x, allowed_flag policy.allow_localhost_url y)
host_refused-FitsHost rt host_lan exposure policy e =
    let (x, y) = neither (is_lan_exposure rt exposure) (is_allowed policy.allow_lan_url) e in
    (same_lan rt exposure x, allowed_flag policy.allow_lan_url y)
host_refused-FitsHost rt host_public exposure policy e = tt

-- Where the pattern for secrets is looked for in a URL, and for local paths.
pub record IsFreeOfSecrets (rt : Runtime) (u : Url) : Type 0 where
  pub path : String
  pub decoded_path : rt.decode_uri_component u.pathname ≡ some path
  pub clean_href : contains_secret_like_text rt u.href ≡ false
  pub clean_path : contains_secret_like_text rt path ≡ false
  pub no_local_path : looks_like_local_file_path rt path ≡ false
  pub clean_params : has_secret_param rt u.search_params ≡ false

none_of :
    (a b c d : Bool)
    → (a || (b || (c || d))) ≡ false
    → (a ≡ false) × (b ≡ false) × (c ≡ false) × (d ≡ false)
none_of false false false false e = (refl, refl, refl, refl)
none_of true b c d e = cc e
none_of false true c d e = cc e
none_of false false true d e = cc e
none_of false false false true e = cc e

contains_unsafe_url_material-IsFreeOfSecrets :
    (rt : Runtime) (u : Url) → contains_unsafe_url_material rt u ≡ false → IsFreeOfSecrets rt u
unfolding contains_unsafe_url_material holds_unsafe_material
contains_unsafe_url_material-IsFreeOfSecrets rt u e =
    elim (Option-cases (rt.decode_uri_component u.pathname)) [
      | inl bad ↦ cc (rw bad at e)
      | inr path ↦
          let (a, b, c, d) =
            none_of (contains_secret_like_text rt u.href) (contains_secret_like_text rt path.0)
              (looks_like_local_file_path rt path.0) (has_secret_param rt u.search_params)
              (rw path.1 at e) in
          record {
            path = path.0;
            decoded_path = path.1;
            clean_href = a;
            clean_path = b;
            no_local_path = c;
            clean_params = d;
          }
    ]

-- What a parsed URL that is handed out has passed.
pub record IsClean (rt : Runtime) (policy : EffectivePolicy) (exposure : ResourceUrlExposure)
    (u : Url) : Type 0 where
  pub web : (u.protocol ≡ "http:") ⊎ (u.protocol ≡ "https:")
  pub no_user : u.username ≡ ""
  pub no_password : u.password ≡ ""
  pub host_fits : FitsHost (classify_url_host_safety rt u.hostname) exposure policy
  pub no_secret : IsFreeOfSecrets rt u

either : (a b : String) (x : String) → (x == a || x == b) ≡ true → (x ≡ a) ⊎ (x ≡ b)
either a b x e = elim (Bool-cases (x == a)) [
  | inl y ↦ inl ((eq_iff x a).0 y)
  | inr n ↦ inr ((eq_iff x b).0 (rw n at e))
]

both : (a b : Bool) → (a && b) ≡ true → (a ≡ true) × (b ≡ true)
both true true e = (refl, refl)
both true false e = cc e
both false b e = cc e

-- The contents are looked through for secrets only if they are valid UTF-8.
abbrev pub IsFreeOfSecretText : Runtime → List ℕ → Type 0
IsFreeOfSecretText rt decoded =
    (decode_valid_utf8 rt decoded ≡ none)
    ⊎ ((t : String) × (decode_valid_utf8 rt decoded ≡ some t)
        × (contains_secret_like_text rt t ≡ false))

holds_secret-IsFreeOfSecretText :
    (rt : Runtime) (decoded : List ℕ)
    → holds_secret rt (decode_valid_utf8 rt decoded) ≡ false
    → IsFreeOfSecretText rt decoded
unfolding holds_secret
holds_secret-IsFreeOfSecretText rt decoded e = elim (Option-cases (decode_valid_utf8 rt decoded)) [
  | inl binary ↦ inl binary
  | inr t ↦ inr (t.0, t.1, rw t.1 at e)
]

abbrev pub handed : UrlVariant → Url → UrlDeliveryMaterial
handed v u = record { url = u.href; exposure = v.exposure; expires_at = v.expires_at }

pub checked_url :
    (rt : Runtime) (policy : EffectivePolicy) (v : UrlVariant) (o : Option Url)
    (m : UrlDeliveryMaterial)
    → check_parsed_url rt v policy o ≡ safe m
    → (u : Url) × (o ≡ some u) × IsClean rt policy v.exposure u × (m ≡ handed v u)
unfolding check_parsed_url
checked_url rt policy v none m e = cc e
checked_url rt policy v (some u) m e =
    elim (Bool-cases (u.protocol == "http:" || u.protocol == "https:")) [
      | inr n ↦ cc (rw n at e)
      | inl a ↦ elim (Bool-cases (u.username == "" && u.password == "")) [
        | inr n ↦ cc (rw (a, n) at e)
        | inl b ↦
            elim (Bool-cases
              (host_refused rt (classify_url_host_safety rt u.hostname) v.exposure policy)) [
                | inl n ↦ cc (rw (a, b, n) at e)
                | inr c ↦ elim (Bool-cases (contains_unsafe_url_material rt u)) [
                  | inl n ↦ cc (rw (a, b, c, n) at e)
                  | inr d ↦ (
                    u,
                    refl,
                    record {
                      web = either "http:" "https:" u.protocol a;
                      no_user =
                          (eq_iff u.username "").0 (both (u.username == "") (u.password == "") b).0;
                      no_password =
                          (eq_iff u.password "").0 (both (u.username == "") (u.password == "") b).1;
                      host_fits =
                          host_refused-FitsHost rt (classify_url_host_safety rt u.hostname)
                            v.exposure policy c;
                      no_secret = contains_unsafe_url_material-IsFreeOfSecrets rt u d;
                    },
                    sym (safe_injective (handed v u) m (rw (a, b, c, d) at e)),
                  )
                ]
              ]
      ]
    ]

pub checked_base64 :
    (rt : Runtime) (v : Base64Variant) (content : String) (n : ℕ) (o : Option (List ℕ))
    (m : Base64DeliveryMaterial)
    → check_decoded rt v content n o ≡ safe m
    → (decoded : List ℕ) × (o ≡ some decoded)
      × (length decoded ≤ n)
      × (length decoded ≤ v.size_bytes)
      × IsFreeOfSecretText rt decoded
      × (m ≡ record { mime = v.mime; base64 = content; size_bytes = length decoded })
unfolding check_decoded
checked_base64 rt v content n none m e = cc e
checked_base64 rt v content n (some decoded) m e = elim (Bool-cases (ltb n (length decoded))) [
  | inl bad ↦ cc (rw bad at e)
  | inr a ↦ elim (Bool-cases (ltb v.size_bytes (length decoded))) [
    | inl bad ↦ cc (rw (a, bad) at e)
    | inr b ↦ elim (Bool-cases (holds_secret rt (decode_valid_utf8 rt decoded))) [
      | inl bad ↦ cc (rw (a, b, bad) at e)
      | inr c ↦ (
        decoded,
        refl,
        not_ltb→le n (length decoded) a,
        not_ltb→le v.size_bytes (length decoded) b,
        holds_secret-IsFreeOfSecretText rt decoded c,
        sym (
            safe_injective (record { mime = v.mime; base64 = content; size_bytes = length decoded })
              m (rw (a, b, c) at e)),
      )
    ]
  ]
]
