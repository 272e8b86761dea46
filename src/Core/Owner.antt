-- ===== src/Core/Owner.antt =====
-- core/src/owner.rs: who a conversation and a task belong to.
use acp_a2a_gateway.Prelude.{ℕ, String, ◌≡◌, ◌↔◌, Bool, true, false, arith, ◌==◌}

pub data Owner : Type 0 where
  anonymous : Owner
  -- the first 64 bits of the token's HMAC
  token : ℕ → Owner

-- `hmac` is HMAC-SHA256 under the gateway's key, cut to its first 8 bytes.
unfoldable pub from_token : (hmac : String → ℕ) → String → Owner
from_token hmac t = token (hmac t)

unfoldable pub is_anonymous : Owner → Bool
is_anonymous anonymous = true
is_anonymous (token h) = false

-- the derived `==`
infix 50 ◌=ᵒ◌
abbrev pub ◌=ᵒ◌ : Owner → Owner → Bool
anonymous =ᵒ anonymous = true
token a =ᵒ token b = a == b
_ =ᵒ _ = false

pub owner_eq_iff : (a b : Owner) → ((a =ᵒ b) ≡ true) ↔ (a ≡ b)
owner_eq_iff anonymous anonymous = ground arith
owner_eq_iff anonymous (token b) = ground arith
owner_eq_iff (token a) anonymous = ground arith
owner_eq_iff (token a) (token b) = ground arith
