-- ===== src/Protocol/Handshake.antt =====
-- protocol/src/acp.rs: the initialize handshake, and the readers that accept what agents send.
use Prim.Native.Char.{code}
use acp_a2a_gateway.Prelude.{
  ℕ, String, ◌+◌, ◌-◌, ◌*◌, Bool, false, Option, none, some, List, [], ◌∷◌, ◌==◌, ltb, leb,
  if◌then◌else◌,
}
use acp_a2a_gateway.Protocol.Json.{Value, null, num, str, bool}

pub record FsCapabilities : Type 0 where
  pub read_text_file : Bool
  pub write_text_file : Bool

pub record ClientCapabilities : Type 0 where
  pub fs : FsCapabilities
  pub terminal : Bool

pub record Implementation : Type 0 where
  pub name : String
  pub version : String

pub record InitializeRequest : Type 0 where
  pub protocol_version : ℕ
  pub client_capabilities : ClientCapabilities
  pub client_info : Option Implementation

pub record PromptCapabilities : Type 0 where
  pub image : Bool
  pub audio : Bool
  pub embedded_context : Bool

pub record McpCapabilities : Type 0 where
  pub http : Bool
  pub sse : Bool

pub record SessionCapabilities : Type 0 where
  pub close : Bool
  pub delete : Bool
  pub list : Bool
  pub resume : Bool

pub record AgentCapabilities : Type 0 where
  pub load_session : Bool
  pub prompt_capabilities : PromptCapabilities
  pub mcp_capabilities : McpCapabilities
  pub session_capabilities : SessionCapabilities

pub record InitializeResponse : Type 0 where
  pub protocol_version : ℕ
  pub agent_capabilities : AgentCapabilities
  pub agent_info : Option Implementation
  -- id and name of each method
  pub auth_methods : List (String × String)

abbrev pub default_protocol_version : ℕ
default_protocol_version = 1

abbrev pub no_mcp : McpCapabilities
no_mcp = record { http = false; sse = false }

abbrev pub no_session_capabilities : SessionCapabilities
no_session_capabilities = record { close = false; delete = false; list = false; resume = false }

-- The characters before the first dot.
unfoldable pub before_dot : List ℕ → List ℕ
before_dot [] = []
before_dot (c ∷ cs) = let rest = before_dot cs in if c == b'.' then [] else c ∷ rest

-- The digits of a `u32`, read behind what stands before them.
parse_digits : ℕ → List ℕ → Option ℕ
parse_digits value [] = some value
parse_digits value (c ∷ cs) =
    let rest = parse_digits (value * 10 + (c - b'0')) cs in
    if leb b'0' c
    then (if leb c b'9'
        then (if ltb (value * 10 + (c - b'0')) 0x1_0000_0000 then rest else none)
        else none)
    else none

-- Rust's `str::parse::<u32>()`.
unfoldable pub parse_u32 : List ℕ → Option ℕ
unfolding parse_digits
parse_u32 [] = none
parse_u32 (c ∷ []) = if c == b'+' then none else parse_digits 0 (c ∷ [])
parse_u32 (c ∷ d ∷ cs) = if c == b'+' then parse_digits 0 (d ∷ cs) else parse_digits 0 (c ∷ d ∷ cs)

abbrev pub code_points : String → List ℕ
code_points String.[] = []
code_points (String.◌∷◌ letter word) = code letter ∷ code_points word

-- `trim` is the standard library's.
module _ (trim : List ℕ → List ℕ) where
  unfoldable pub major_version : String → Option ℕ
  unfolding before_dot parse_u32
  major_version s = parse_u32 (trim (before_dot (code_points s)))

  -- The field of the version: `none` if it is absent; a result of `none` is refused.
  unfoldable pub de_protocol_version : Option Value → Option ℕ
  unfolding major_version
  de_protocol_version none = some default_protocol_version
  de_protocol_version (some null) = some default_protocol_version
  de_protocol_version (some (num n)) = if ltb n 0x1_0000_0000 then some n else none
  de_protocol_version (some (str s)) = major_version s
  de_protocol_version (some _) = none

-- An absent field counts as false.
unfoldable pub de_bool_lenient : Option Value → Bool
de_bool_lenient (some (bool b)) = b
de_bool_lenient _ = false
