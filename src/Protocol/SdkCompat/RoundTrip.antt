-- ===== src/Protocol/SdkCompat/RoundTrip.antt =====
-- What the gateway renders in the SDK's shape, its own SDK input reads back.
use acp_a2a_gateway.Prelude.{
  String, ◌≡◌, Bool, true, false, ◌||◌, Option, none, some, List, [], ◌∷◌, map, arith, every,
  if◌then◌else◌, ok, err, unknown_part,
}
use acp_a2a_gateway.Protocol.Json.{Value, to_list-of_list}
use acp_a2a_gateway.Protocol.A2a.{Message, Part, MessageRole, user, agent, text, file, data_part}
use acp_a2a_gateway.Protocol.SdkCompat.{
  normalize_role, normalize_part, normalize_parts, normalize_message, part_to_sdk, message_to_sdk,
  role_to_sdk,
}

abbrev given : Option String → Bool
given none = false
given (some s) = true

-- A part that the SDK's shape can carry: text, or a file with an address or with bytes.
abbrev pub is_sdk_part : Part → Bool
is_sdk_part (text s) = true
is_sdk_part (file f) = given f.uri || given f.bytes
is_sdk_part (data_part v) = false

module _ (part_from_value : Value → Option Part) where
  normalize_part-part_to_sdk :
      (p : Part)
      → normalize_part part_from_value (part_to_sdk p)
        ≡ (if is_sdk_part p then ok p else err unknown_part)
  unfolding normalize_part part_to_sdk
  normalize_part-part_to_sdk (text s) = ground arith
  normalize_part-part_to_sdk (file f) = ground arith
  normalize_part-part_to_sdk (data_part v) = ground arith

  normalize_parts-map :
      (ps : List Part)
      → normalize_parts part_from_value (map part_to_sdk ps)
        ≡ (if every is_sdk_part ps then ok ps else err unknown_part)
  unfolding normalize_parts
  normalize_parts-map [] = ground arith
  normalize_parts-map (p ∷ ps) =
      ground (arith, normalize_part-part_to_sdk p, normalize_parts-map ps)

  role_to_sdk-normalize_role : (r : MessageRole) → normalize_role (Value.str (role_to_sdk r)) ≡ ok r
  unfolding normalize_role role_to_sdk
  role_to_sdk-normalize_role user = ground arith
  role_to_sdk-normalize_role agent = ground arith

  -- A message rendered in the SDK's shape is read back unchanged if each of its parts is a text or
  -- a file with an address or bytes, and is refused as an unknown part otherwise.
  pub normalize_message-message_to_sdk :
      (m : Message)
      → normalize_message part_from_value (message_to_sdk m)
        ≡ (if every is_sdk_part m.parts then ok m else err unknown_part)
  unfolding normalize_message message_to_sdk
  normalize_message-message_to_sdk m = ground (
    arith,
    role_to_sdk-normalize_role m.role,
    to_list-of_list (map part_to_sdk m.parts),
    normalize_parts-map m.parts,
  )
