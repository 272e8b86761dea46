-- ===== src/Core/Content.antt =====
-- core/src/convert.rs, part 1: content blocks of ACP against message parts of A2A.
pub mod Mapping
use Prim.Native.String.{◌++◌}
use acp_a2a_gateway.Prelude.{String, Option, none, some, map, if◌then◌else◌, get_or, starts_with}
use acp_a2a_gateway.Protocol.Json.{Value}
use acp_a2a_gateway.Protocol.A2a.{Message, Part, FilePart, user, file, data_part}
use acp_a2a_gateway.Protocol.A2a
use acp_a2a_gateway.Protocol.Acp.{
  ContentBlock, SessionId, PromptRequest, text, image, audio, resource, resource_link,
  text_resource, blob_resource,
}

bytes_part : String → Option String → Part
bytes_part bytes mime = file (record { uri = none; bytes = some bytes; mime_type = mime })

unfoldable pub content_block_to_part : ContentBlock → Part
unfolding bytes_part
content_block_to_part (text s) = A2a.Part.text s
content_block_to_part (image mime bytes uri) = bytes_part bytes (some mime)
content_block_to_part (audio mime bytes) = bytes_part bytes (some mime)
content_block_to_part (resource (text_resource uri s mime)) = A2a.Part.text s
content_block_to_part (resource (blob_resource uri blob mime)) = bytes_part blob mime
content_block_to_part (resource_link uri name mime size) =
    A2a.Part.text ("[resource: " ++ (name ++ ("](" ++ (uri ++ ")"))))

block_of_file : FilePart → ContentBlock
block_of_file f =
    let mime = get_or f.mime_type "application/octet-stream" in
    let bytes = get_or f.bytes "" in
    if starts_with mime "image/"
    then image mime bytes f.uri
    else if starts_with mime "audio/"
    then audio mime bytes
    else resource (blob_resource (get_or f.uri "") bytes (some mime))

-- `to_string` prints a JSON value, as serde_json does.
module _ (to_string : Value → String) where
  unfoldable pub part_to_content_block : Part → ContentBlock
  unfolding block_of_file
  part_to_content_block (A2a.Part.text s) = text s
  part_to_content_block (file f) = block_of_file f
  part_to_content_block (data_part v) = text (to_string v)

  unfoldable pub message_to_prompt : SessionId → Message → PromptRequest
  message_to_prompt session m = record {
    session_id = session;
    prompt = map part_to_content_block m.parts;
  }

unfoldable pub prompt_to_message : PromptRequest → Message
prompt_to_message p = record {
  role = user;
  parts = map content_block_to_part p.prompt;
  message_id = none;
}
