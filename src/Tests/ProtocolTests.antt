-- ===== src/Tests/ProtocolTests.antt =====
-- The SDK's shape of messages.
use acp_a2a_gateway.Prelude.{◌≡◌, none, some, [], ◌∷◌, ok, err, unknown_part}
use acp_a2a_gateway.Protocol.Json.{null}
use acp_a2a_gateway.Protocol.A2a.{Message, user, text, file, data_part}
use acp_a2a_gateway.Protocol.SdkCompat.{normalize_message, message_to_sdk}
use acp_a2a_gateway.Protocol.SdkCompat.RoundTrip.{normalize_message-message_to_sdk}

abbrev with_picture : Message
with_picture = record {
  role = user;
  parts =
      text "look"
      ∷ file (record { uri = none; bytes = some "AAAA"; mime_type = some "image/png" })
      ∷ [];
  message_id = some "m-1";
}

normalize_message-message_to_sdk_example :
    normalize_message (λ v. none) (message_to_sdk with_picture) ≡ ok with_picture
normalize_message-message_to_sdk_example = normalize_message-message_to_sdk (λ v. none) with_picture

abbrev with_data : Message
with_data = record { role = user; parts = data_part null ∷ []; message_id = none }

-- A data part does not come back.
data_part_refused : normalize_message (λ v. none) (message_to_sdk with_data) ≡ err unknown_part
data_part_refused = normalize_message-message_to_sdk (λ v. none) with_data
