-- ===== src/Core/Reply.antt =====
-- core/src/reply.rs. A stream is the list of the items that its channel carries until it closes.
use acp_a2a_gateway.Prelude.{List}

pub data Reply {ℓ} (T U : Type ℓ) : Type ℓ where
  complete : T → Reply T U
  streaming : List U → Reply T U
