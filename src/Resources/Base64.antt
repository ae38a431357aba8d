-- ===== src/Resources/Base64.antt =====
-- packages/resources/src/delivery-planner.ts: which registered contents may be handed out.
use deliberum.Prelude.{
  ℕ, String, Bool, true, false, ◌&&◌, not, Option, none, some, List, [], ◌∷◌, ltb, nat_eq, ◌==◌,
  if◌then◌else◌, length,
}
use deliberum.Protocol.Resources.{Base64Variant}
use deliberum.Resources.Types.{Base64DeliveryMaterial}
use deliberum.Resources.Runtime.{Runtime}
use deliberum.Resources.Url.{Safe, safe, denied, contains_secret_like_text}

abbrev pub strict_base64 : String
strict_base64 = "/^(?:[A-Za-z0-9+/]{4})*(?:[A-Za-z0-9+/]{2}==|[A-Za-z0-9+/]{3}=)?$/"

unfoldable pub same_bytes : List ℕ → List ℕ → Bool
same_bytes [] [] = true
same_bytes (x ∷ xs) (y ∷ ys) = nat_eq x y && same_bytes xs ys
same_bytes _ _ = false

module _ (rt : Runtime) where
  -- The decoded bytes count if they encode to the text that they came from.
  unfoldable pub keep_if_encoded : String → Option (List ℕ) → Option (List ℕ)
  keep_if_encoded value none = none
  keep_if_encoded value (some bytes) = if rt.btoa bytes == value then some bytes else none

  unfoldable pub decode_strict_base64 : String → Option (List ℕ)
  unfolding keep_if_encoded
  decode_strict_base64 value =
      if not (rt.matches strict_base64 value) then none else keep_if_encoded value (rt.atob value)

  unfoldable pub keep_if_same : List ℕ → Option String → Option String
  unfolding same_bytes
  keep_if_same bytes none = none
  keep_if_same bytes (some text) =
      if same_bytes (rt.encode_utf8 text) bytes then some text else none

  unfoldable pub decode_valid_utf8 : List ℕ → Option String
  unfolding keep_if_same
  decode_valid_utf8 bytes = keep_if_same bytes (rt.decode_utf8 bytes)

  unfoldable pub holds_secret : Option String → Bool
  unfolding contains_secret_like_text
  holds_secret none = false
  holds_secret (some text) = contains_secret_like_text rt text

  unfoldable pub check_decoded :
      Base64Variant → String → ℕ → Option (List ℕ) → Safe Base64DeliveryMaterial
  unfolding decode_valid_utf8 holds_secret
  check_decoded variant content max_size none =
      denied "In-memory base64 content is not safe for delivery."
  check_decoded variant content max_size (some bytes) =
      if ltb max_size (length bytes)
      then denied "In-memory base64 content exceeds the configured size limit."
      else if ltb variant.size_bytes (length bytes)
      then denied "In-memory base64 content does not match registered resource metadata."
      else if holds_secret (decode_valid_utf8 bytes)
      then denied "In-memory base64 content contains private delivery material."
      else safe (record { mime = variant.mime; base64 = content; size_bytes = length bytes })

  unfoldable pub create_safe_base64_material :
      Base64Variant → String → ℕ → Safe Base64DeliveryMaterial
  unfolding decode_strict_base64 check_decoded
  create_safe_base64_material variant content max_size =
      check_decoded variant content max_size (decode_strict_base64 content)
