-- ===== src/Core/Content/Mapping.antt =====
-- What a content block keeps on its way through a part of A2A and back.
use acp_a2a_gateway.Prelude.{
  String, ◌≡◌, refl, Bool, true, false, ◌&&◌, not, none, some, arith, starts_with,
}
use acp_a2a_gateway.Protocol.Json.{Value}
use acp_a2a_gateway.Protocol.Acp.{
  ContentBlock, text, image, audio, resource, resource_link, text_resource, blob_resource,
}
use acp_a2a_gateway.Core.Content.{content_block_to_part, part_to_content_block}

-- A block whose media type says what its constructor says.
abbrev pub is_typed : ContentBlock → Bool
is_typed (text s) = true
is_typed (image mime bytes uri) = starts_with mime "image/"
is_typed (audio mime bytes) = not (starts_with mime "image/") && starts_with mime "audio/"
is_typed (resource (text_resource uri s mime)) = false
is_typed (resource (blob_resource uri blob none)) = false
is_typed (resource (blob_resource uri blob (some mime))) =
    not (starts_with mime "image/") && not (starts_with mime "audio/")
is_typed (resource_link uri name mime size) = false

-- A2A has no place for the address of embedded content.
abbrev pub forget_uri : ContentBlock → ContentBlock
forget_uri (image mime bytes uri) = image mime bytes none
forget_uri (resource (blob_resource uri blob mime)) = resource (blob_resource "" blob mime)
forget_uri b = b

module _ (to_string : Value → String) where
  pub block_round_trip :
      (b : ContentBlock)
      → is_typed b ≡ true
      → part_to_content_block to_string (content_block_to_part b) ≡ forget_uri b
  unfolding part_to_content_block content_block_to_part
  block_round_trip (text s) h = refl
  block_round_trip (image mime bytes uri) h = ground arith
  block_round_trip (audio mime bytes) h = ground arith
  block_round_trip (resource (text_resource uri s mime)) h = ground arith
  block_round_trip (resource (blob_resource uri blob none)) h = ground arith
  block_round_trip (resource (blob_resource uri blob (some mime))) h = ground arith
  block_round_trip (resource_link uri name mime size) h = ground arith
