-- ===== src/Protocol/Resources.antt =====
-- packages/protocol/src/resources.ts: resources and their variants.
use deliberum.Prelude.{ℕ, String, Bool, ◌&&◌, Option, List}
use deliberum.Protocol.Common.{non_empty_string, optional, array_of}

pub data ResourceKind : Type 0 where
  image pdf audio video html text file board_snapshot : ResourceKind

pub data ResourcePrivacy : Type 0 where
  public private sensitive : ResourcePrivacy

pub data ResourceUrlExposure : Type 0 where
  localhost lan public : ResourceUrlExposure

pub record UrlVariant : Type 0 where
  pub url : String
  pub exposure : ResourceUrlExposure
  pub expires_at : Option String

pub record Base64Variant : Type 0 where
  pub mime : String
  pub data_ref : String
  pub size_bytes : ℕ

pub data ResourceVariant : Type 0 where
  url : UrlVariant → ResourceVariant
  base64 : Base64Variant → ResourceVariant
  summary ocr caption : String → ResourceVariant

unfoldable pub resource_variant_schema : ResourceVariant → Bool
unfolding non_empty_string optional
resource_variant_schema (url v) = non_empty_string v.url && optional non_empty_string v.expires_at
resource_variant_schema (base64 v) = non_empty_string v.mime && non_empty_string v.data_ref
resource_variant_schema (summary t) = non_empty_string t
resource_variant_schema (ocr t) = non_empty_string t
resource_variant_schema (caption t) = non_empty_string t

pub record Resource : Type 0 where
  pub id : String
  pub kind : ResourceKind
  pub mime : String
  pub size_bytes : ℕ
  pub hash : String
  pub privacy : ResourcePrivacy
  pub variants : List ResourceVariant

unfoldable pub resource_schema : Resource → Bool
unfolding non_empty_string array_of resource_variant_schema
resource_schema r =
    non_empty_string r.id
    && (non_empty_string r.mime
        && (non_empty_string r.hash && array_of resource_variant_schema r.variants))
