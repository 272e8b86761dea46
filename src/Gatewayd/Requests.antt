-- ===== src/Gatewayd/Requests.antt =====
-- gatewayd/src/transport_http.rs, part 3: what is read from a request.
use Prim.Native.Char.{code}
use Prim.Native.String.{◌++◌}
use acp_a2a_gateway.Prelude.{
  ◌>>=◌, String, Bool, false, ◌&&◌, ◌||◌, not, Option, none, some, ◌==◌, ◌=ˢ◌, if◌then◌else◌,
  get_or, or_else, and_then, Result, ok, ok_or, bad_params,
}
use acp_a2a_gateway.Protocol.Json.{Value, get, as_str, as_bool}
use acp_a2a_gateway.Protocol.A2a.{Task, Message, Part, submitted}
use acp_a2a_gateway.Protocol.SdkCompat.{normalize_message}

unfoldable pub strip_prefix : String → String → Option String
strip_prefix String.[] s = some s
strip_prefix (String.◌∷◌ p ps) String.[] = none
strip_prefix (String.◌∷◌ p ps) (String.◌∷◌ c s) =
    let rest = strip_prefix ps s in if code p == code c then rest else none

-- `authorization` is the header, if the request has it and it is text.
unfoldable pub extract_bearer : (authorization : Option String) → Option String
unfolding strip_prefix
extract_bearer authorization = and_then authorization (strip_prefix "Bearer ")

pub record JsonRpcRequest : Type 0 where
  pub id : Value
  pub method : String
  pub params : Value

is_false : Option Bool → Bool
is_false none = false
is_false (some b) = not b

unfoldable pub is_non_blocking_send : JsonRpcRequest → Bool
unfolding is_false
is_non_blocking_send r =
    (r.method =ˢ "message/send" || r.method =ˢ "SendMessage")
    && is_false (and_then (and_then (get r.params "configuration") (λ c. get c "blocking")) as_bool)

-- rsplit('/').next(): `tail` is what lies behind the last slash so far
behind_slash : (tail rest : String) → String
behind_slash tail String.[] = tail
behind_slash tail (String.◌∷◌ c rest) =
    let passed = behind_slash rest rest in
    let kept = behind_slash tail rest in if code c == b'/' then passed else kept

unfoldable pub extract_sdk_task_id : Value → Option String
unfolding behind_slash
extract_sdk_task_id params = elim (and_then (get params "name") as_str) [
  | some name ↦ some (behind_slash name name)
  | none ↦ and_then (get params "id") as_str
]

-- `task_uuid` and `context_uuid` are the two names that `uuid_stub` draws.
module _ (task_uuid context_uuid : String) where
  new_task : Option Value → Message → Task
  new_task context message = record {
    id = "task-" ++ task_uuid;
    context_id = get_or (and_then context as_str) ("ctx-" ++ context_uuid);
    status = record { state = submitted; message = some message; timestamp = none };
    history = none;
    artifacts = none;
    metadata = none;
  }

  -- `message_from_value` is serde's reading of a message.
  unfoldable pub build_task_from_send_params : (Value → Result Message) → Value → Result Task
  unfolding new_task
  build_task_from_send_params message_from_value params = do
    value ← ok_or (get params "message") (bad_params "message/send: message")
    message ← message_from_value value
    ok (
        new_task
          (or_else (and_then (get params "message") (λ m. get m "contextId"))
            (get params "contextId"))
          message)

  -- `part_from_value` is serde's reading of a tagged part.
  unfoldable pub build_task_from_send_params_sdk : (Value → Option Part) → Value → Result Task
  unfolding new_task
  build_task_from_send_params_sdk part_from_value params = do
    value ← ok_or (get params "message") (bad_params "SendMessage: message")
    message ← normalize_message part_from_value value
    ok (
        new_task
          (or_else
            (and_then (get params "message")
              (λ m. or_else (get m "contextId") (get m "context_id")))
            (get params "contextId"))
          message)
