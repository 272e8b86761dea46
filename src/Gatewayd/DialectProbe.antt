-- ===== src/Gatewayd/DialectProbe.antt =====
-- gatewayd/src/dialect_probe.rs: which names of the methods of A2A an agent understands.
use text.Mathlib.Text.{find?}
use Prim.Native.String.{◌++◌}
use acp_a2a_gateway.Prelude.{
  String, Bool, false, ◌||◌, not, Option, none, some, List, [], ◌∷◌, ◌==◌, if◌then◌else◌, is_some,
  get_or, and_then, Dict, lookup, insert, remove, Result, ok, err, unrecognized_dialect,
}
use acp_a2a_gateway.Protocol.Json.{Value, get, as_str, num, neg, str, obj, field, end}
use acp_a2a_gateway.Core.HttpAgent.{as_i64}

pub data A2aDialect : Type 0 where
  sdk spec : A2aDialect

abbrev pub DialectCache : Type 0
DialectCache = Dict A2aDialect

unfoldable pub get_dialect : String → DialectCache → Option A2aDialect
get_dialect agent_id cache = lookup agent_id cache

unfoldable pub set_dialect : String → A2aDialect → DialectCache → DialectCache
set_dialect agent_id dialect cache = insert agent_id dialect cache

unfoldable pub remove_dialect : String → DialectCache → DialectCache
remove_dialect agent_id cache = remove agent_id cache

is_standard_code : Option Value → Bool
is_standard_code (some (neg n)) = n == 32601
is_standard_code _ = false

says_not_found : String → Bool
says_not_found normalized =
    is_some (find? normalized "method not found")
    || is_some (find? normalized "method_not_found")
    || is_some (find? normalized "unknown method")

-- `to_lowercase` is the standard library's.
module _ (to_lowercase : String → String) where
  is_method_not_found : Value → Bool
  unfolding is_standard_code says_not_found as_i64
  is_method_not_found error =
      is_standard_code (and_then (get error "code") as_i64)
      || says_not_found (to_lowercase (get_or (and_then (get error "message") as_str) ""))

  unfoldable pub response_indicates_method_not_found : Value → Bool
  unfolding is_method_not_found
  response_indicates_method_not_found body = elim (get body "error") [
    | none ↦ false
    | some error ↦ is_method_not_found error
  ]

  unfoldable pub interpret_probe_response : Value → Bool
  unfolding response_indicates_method_not_found
  interpret_probe_response body = not (response_indicates_method_not_found body)

-- A request of the probe.
pub record Probe : Type 0 where
  pub url : String
  pub bearer : Option String
  pub payload : Value

sdk_payload : (probe_task_id : String) → Value
sdk_payload probe_task_id = obj (
    field "jsonrpc" (str "2.0") (
      field "id" (num 1) (
        field "method" (str "GetTask")
          (field "params" (obj (field "name" (str ("tasks/" ++ probe_task_id)) end)) end))))

spec_payload : (probe_task_id : String) → Value
spec_payload probe_task_id = obj (
    field "jsonrpc" (str "2.0") (
      field "id" (num 1) (
        field "method" (str "tasks/get")
          (field "params" (obj (field "id" (str probe_task_id) end)) end))))

-- The agent answers a probe with JSON, or the request or the reading fails. What has been sent
-- comes back beside the result.
module _ (to_lowercase : String → String) (post : Probe → Result Value) where
  unfoldable pub judge : A2aDialect → Result Value → Result (Option A2aDialect)
  unfolding interpret_probe_response
  judge candidate (err e) = err e
  judge candidate (ok body) =
      ok (if interpret_probe_response to_lowercase body then some candidate else none)

  unfoldable pub try_probe_request : Probe → A2aDialect → Result (Option A2aDialect)
  unfolding judge
  try_probe_request probe candidate = judge candidate (post probe)

  -- What the answer to the second probe means.
  last_answer : Result (Option A2aDialect) → Result A2aDialect
  last_answer (err e) = err e
  last_answer (ok none) = err unrecognized_dialect
  last_answer (ok (some dialect)) = ok dialect

  unfoldable pub second_probe :
      Probe → Probe → Result (Option A2aDialect) → Result A2aDialect × List Probe
  unfolding try_probe_request last_answer
  second_probe sent next (err e) = (err e, sent ∷ [])
  second_probe sent next (ok (some dialect)) = (ok dialect, sent ∷ [])
  second_probe sent next (ok none) = (last_answer (try_probe_request next spec), sent ∷ next ∷ [])

  -- `probe_task_id` is the UUID that is drawn.
  unfoldable pub probe_dialect :
      (probe_task_id url : String) (bearer : Option String) → Result A2aDialect × List Probe
  unfolding sdk_payload spec_payload try_probe_request second_probe
  probe_dialect probe_task_id url bearer =
      let first : Probe = record {
        url = url;
        bearer = bearer;
        payload = sdk_payload probe_task_id;
      } in
      let second : Probe = record {
        url = url;
        bearer = bearer;
        payload = spec_payload probe_task_id;
      } in
      second_probe first second (try_probe_request first sdk)
