-- ===== src/Protocol/A2a.antt =====
-- protocol/src/a2a.rs: tasks, messages and stream events of A2A.
use acp_a2a_gateway.Prelude.{String, Bool, true, false, Option, List}
use acp_a2a_gateway.Protocol.Json.{Value}

-- The newtypes `TaskId` and `ContextId` are their strings.
abbrev pub TaskId : Type 0
TaskId = String

abbrev pub ContextId : Type 0
ContextId = String

pub record AgentCard : Type 0 where
  pub name : String
  pub description : Option String
  pub version : String
  pub url : String
  pub streaming : Bool
  pub push_notifications : Bool

pub data TaskState : Type 0 where
  unspecified submitted working input_required auth_required : TaskState
  completed failed canceled rejected : TaskState

unfoldable pub is_terminal : TaskState → Bool
is_terminal completed = true
is_terminal failed = true
is_terminal canceled = true
is_terminal rejected = true
is_terminal _ = false

unfoldable pub is_interrupted : TaskState → Bool
is_interrupted input_required = true
is_interrupted auth_required = true
is_interrupted _ = false

pub record FilePart : Type 0 where
  pub uri : Option String
  pub bytes : Option String
  pub mime_type : Option String

pub data Part : Type 0 where
  text : String → Part
  file : FilePart → Part
  data_part : Value → Part

pub data MessageRole : Type 0 where
  user agent : MessageRole

pub record Message : Type 0 where
  pub role : MessageRole
  pub parts : List Part
  pub message_id : Option String

pub record TaskStatus : Type 0 where
  pub state : TaskState
  pub message : Option Message
  pub timestamp : Option String

pub record Artifact : Type 0 where
  pub artifact_id : String
  pub name : Option String
  pub description : Option String
  pub parts : List Part
  pub metadata : Option Value

pub record Task : Type 0 where
  pub id : TaskId
  pub context_id : ContextId
  pub status : TaskStatus
  pub history : Option (List Message)
  pub artifacts : Option (List Artifact)
  pub metadata : Option Value

pub data A2aEvent : Type 0 where
  -- task_id, status, final
  task_status_update : TaskId → TaskStatus → Bool → A2aEvent
  -- task_id, artifact, append
  task_artifact_update : TaskId → Artifact → Option Bool → A2aEvent
  message_event : Message → A2aEvent
