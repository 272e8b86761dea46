-- ===== src/Protocol/Acp.antt =====
-- protocol/src/acp.rs: content blocks, prompts and session updates of ACP.
use acp_a2a_gateway.Prelude.{ℕ, String, Option, List}

-- The newtype `SessionId` is its string.
abbrev pub SessionId : Type 0
SessionId = String

pub data EmbeddedResource : Type 0 where
  -- uri, text, mime_type
  text_resource : String → String → Option String → EmbeddedResource
  -- uri, blob, mime_type
  blob_resource : String → String → Option String → EmbeddedResource

pub data ContentBlock : Type 0 where
  text : String → ContentBlock
  -- mime_type, data, uri
  image : String → String → Option String → ContentBlock
  -- mime_type, data
  audio : String → String → ContentBlock
  resource : EmbeddedResource → ContentBlock
  -- uri, name, mime_type, size
  resource_link : String → String → Option String → Option ℕ → ContentBlock

pub record PromptRequest : Type 0 where
  pub session_id : SessionId
  pub prompt : List ContentBlock

pub data StopReason : Type 0 where
  end_turn max_tokens max_turn_requests refusal cancelled : StopReason

pub record PromptResponse : Type 0 where
  pub stop_reason : StopReason
  pub content : List ContentBlock

pub data ToolCallStatus : Type 0 where
  pending in_progress completed failed cancelled : ToolCallStatus

pub record PlanEntry : Type 0 where
  pub content : String
  pub priority : String
  pub status : String

pub data SessionUpdate : Type 0 where
  -- message_id, content
  agent_message_chunk : Option String → ContentBlock → SessionUpdate
  -- tool_call_id, title, kind, status
  tool_call : String → String → String → ToolCallStatus → SessionUpdate
  -- tool_call_id, status, content
  tool_call_update : String → ToolCallStatus → Option (List ContentBlock) → SessionUpdate
  plan : List PlanEntry → SessionUpdate
  -- used, size, and the currency of the cost, whose amount is a float
  usage_update : ℕ → ℕ → Option String → SessionUpdate
