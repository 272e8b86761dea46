-- ===== src/Gatewayd/Tcp/Verbatim.antt =====
-- gatewayd/src/transport_tcp.rs: a connection that is passed through carries the bytes as they are.
use acp_a2a_gateway.Prelude.{
  ℕ, ◌≤◌, ◌<◌, none, some, invalid_utf8, line_too_long, ◌≡◌, ◌⊎◌, List, [], ◌++◌, length, Result,
  ok, err, Error,
}
use acp_a2a_gateway.Core.Utf8.{Text, from_utf8}
use acp_a2a_gateway.Gatewayd.Tcp.{take_line}

-- Lines that are text and shorter than the limit, one behind the other.
pub data Lines (limit : ℕ) : List ℕ → Type 0 where
  no_line : Lines limit []
  one_more :
      {rest : List ℕ} (line_bytes : List ℕ) (line : Text)
      → from_utf8 line_bytes ≡ some line
      → length line_bytes < limit
      → Lines limit rest
      → Lines limit (line_bytes ++ rest)

-- Why the line at which this input begins is not carried: it is no UTF-8, or it does not end before
-- the limit.
abbrev pub IsRefused : ℕ → List ℕ → Error → Type 0
IsRefused limit rest e =
    ((e ≡ invalid_utf8) × (from_utf8 (take_line limit rest).0 ≡ none))
    ⊎ ((e ≡ line_too_long limit) × (limit ≤ length (take_line limit rest).0))

-- What has been written is the beginning of the input, in lines that are text and below the limit;
-- all of it, if the loop ended without error, and otherwise up to a line that is refused.
abbrev pub Carried : ℕ → List ℕ → List ℕ × Result (Unit {0}) → Type 0
Carried limit input out =
    (rest : List ℕ) × (out.0 ++ rest ≡ input)
    × Lines limit out.0
    × (((out.1 ≡ ok tt) × (rest ≡ [])) ⊎ ((e : Error) × (out.1 ≡ err e) × IsRefused limit rest e))
