-- ===== src/Protocol/SdkCompat.antt =====
-- protocol/src/a2a_sdk_compat.rs: the JSON shape of messages and tasks that the a2a-rs SDK uses.
pub mod RoundTrip
use acp_a2a_gateway.Prelude.{
  ◌>>=◌, String, Bool, ◌||◌, Option, none, some, List, [], ◌∷◌, map, ◌=ˢ◌, if◌then◌else◌, or_else,
  and_then, map_option, Result, ok, err, ok_or, unknown_role, unknown_part,
}
use acp_a2a_gateway.Protocol.Json.{
  Value, Fields, str, arr, obj, end, field, null, get, as_str, as_array, of_list, or_null,
  str_or_null,
}
use acp_a2a_gateway.Protocol.A2a.{
  Task, TaskState, Message, MessageRole, Part, FilePart, Artifact, user, agent, text, file,
  data_part, unspecified, submitted, working, input_required, auth_required, completed, failed,
  canceled, rejected,
}

role_named : String → Result MessageRole
role_named s =
    if s =ˢ "ROLE_USER" || s =ˢ "user"
    then ok user
    else if s =ˢ "ROLE_AGENT" || s =ˢ "agent"
    then ok agent
    else err unknown_role

unfoldable pub normalize_role : Value → Result MessageRole
unfolding role_named
normalize_role raw = elim (as_str raw) [ none ↦ err unknown_role | some s ↦ role_named s ]

-- The SDK's file part, with the media type under either spelling.
file_of : Value → FilePart
file_of raw = record {
  uri = and_then (get raw "url") as_str;
  bytes = and_then (get raw "raw") as_str;
  mime_type = and_then (or_else (get raw "media_type") (get raw "mediaType")) as_str;
}

is_present : Option Value → Bool
is_present none = Bool.false
is_present (some v) = Bool.true

-- `part_from_value` is serde's reading of a tagged part, which the file only calls.
module _ (part_from_value : Value → Option Part) where
  unfoldable pub normalize_part : Value → Result Part
  unfolding file_of is_present
  normalize_part raw =
      if is_present (get raw "kind")
      then ok_or (part_from_value raw) unknown_part
      else elim (and_then (get raw "text") as_str) [
        | some s ↦ ok (text s)
        | none ↦
            if is_present (get raw "url") || is_present (get raw "raw")
            then ok (file (file_of raw))
            else err unknown_part
      ]

  -- iter().map(normalize_part).collect(): the first error ends it
  unfoldable pub normalize_parts : List Value → Result (List Part)
  normalize_parts [] = ok []
  normalize_parts (v ∷ vs) = do p ← normalize_part v; ps ← normalize_parts vs; ok (p ∷ ps)

  unfoldable pub normalize_message : Value → Result Message
  normalize_message raw = do
    role_raw ← ok_or (get raw "role") unknown_role
    role ← normalize_role role_raw
    parts_raw ← ok_or (and_then (get raw "parts") as_array) unknown_part
    parts ← normalize_parts parts_raw
    ok (record {
      role = role;
      parts = parts;
      message_id = and_then (or_else (get raw "messageId") (get raw "message_id")) as_str;
    })

unfoldable pub task_state_to_sdk : TaskState → String
task_state_to_sdk unspecified = "TASK_STATE_UNSPECIFIED"
task_state_to_sdk submitted = "TASK_STATE_SUBMITTED"
task_state_to_sdk working = "TASK_STATE_WORKING"
task_state_to_sdk input_required = "TASK_STATE_INPUT_REQUIRED"
task_state_to_sdk auth_required = "TASK_STATE_AUTH_REQUIRED"
task_state_to_sdk completed = "TASK_STATE_COMPLETED"
task_state_to_sdk failed = "TASK_STATE_FAILED"
task_state_to_sdk canceled = "TASK_STATE_CANCELLED"
task_state_to_sdk rejected = "TASK_STATE_REJECTED"

unfoldable pub role_to_sdk : MessageRole → String
role_to_sdk user = "ROLE_USER"
role_to_sdk agent = "ROLE_AGENT"

-- if let Some(s) = s { obj.insert(k, s) }
abbrev insert_some : String → Option String → Fields → Fields
insert_some k none fs = fs
insert_some k (some s) fs = field k (str s) fs

unfoldable pub part_to_sdk : Part → Value
part_to_sdk (text s) = obj (field "text" (str s) end)
part_to_sdk (file f) =
    obj (
      insert_some "url" f.uri
        (insert_some "raw" f.bytes (insert_some "media_type" f.mime_type end)))
part_to_sdk (data_part v) = obj (field "data" v end)

unfoldable pub message_to_sdk : Message → Value
message_to_sdk m = obj (
    field "role" (str (role_to_sdk m.role)) (
      field "parts" (arr (of_list (map part_to_sdk m.parts)))
        (insert_some "messageId" m.message_id end)))

unfoldable pub artifact_to_sdk : Artifact → Value
artifact_to_sdk a = obj (
    field "artifact_id" (str a.artifact_id) (
      field "name" (str_or_null a.name) (
        field "description" (str_or_null a.description) (
          field "parts" (arr (of_list (map part_to_sdk a.parts)))
            (field "metadata" (or_null a.metadata) end)))))

abbrev artifacts_to_sdk : Option (List Artifact) → Value
artifacts_to_sdk none = null
artifacts_to_sdk (some items) = arr (of_list (map artifact_to_sdk items))

unfoldable pub render_task_sdk : Task → Value
render_task_sdk t = obj (
    field "task"
      (obj (
        field "id" (str t.id) (
          field "contextId" (str t.context_id) (
            field "status" status (
              field "artifacts" (artifacts_to_sdk t.artifacts)
                (field "metadata" (or_null t.metadata) end))))))
      end)
  where
    status : Value
    status = obj (
        field "state" (str (task_state_to_sdk t.status.state)) (
          field "message" (or_null (map_option message_to_sdk t.status.message))
            (field "timestamp" (str_or_null t.status.timestamp) end)))
