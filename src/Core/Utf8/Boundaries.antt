-- ===== src/Core/Utf8/Boundaries.antt =====
-- Rust's `String::from_utf8_lossy` on bytes that are cut in two.
use mathlib.Core.List.{append_assoc}
use acp_a2a_gateway.Prelude.{ℕ, ◌≡◌, refl, sym, List, [], ◌∷◌, ◌++◌}
use acp_a2a_gateway.Core.Utf8.{
  Decoder, idle, expect, feed, decode, decoder, from_utf8_lossy, IsWhole,
}

pub decoder-append : (d : Decoder) (a b : List ℕ) → decoder d (a ++ b) ≡ decoder (decoder d a) b
unfolding decoder
decoder-append d [] b = refl
decoder-append d (x ∷ a) b = decoder-append (feed d x).1 a b

decode-append :
    (d : Decoder) (a b : List ℕ)
    → decoder d a ≡ idle
    → decode d (a ++ b) ≡ decode d a ++ decode idle b
unfolding decoder decode
decode-append d [] b h = rw h refl
decode-append idle (x ∷ a) b h =
    rw (decode-append (feed idle x).1 a b h)
      (sym (append_assoc (feed idle x).0 (decode (feed idle x).1 a) (decode idle b)))
decode-append (expect bits missing lo hi) (x ∷ a) b h =
    rw (decode-append (feed (expect bits missing lo hi) x).1 a b h) (
      sym (
        append_assoc (feed (expect bits missing lo hi) x).0
          (decode (feed (expect bits missing lo hi) x).1 a) (decode idle b)))

-- Bytes that end with a whole character are decoded apart from what follows.
pub from_utf8_lossy-append :
    (a b : List ℕ) → IsWhole a → from_utf8_lossy (a ++ b) ≡ from_utf8_lossy a ++ from_utf8_lossy b
unfolding from_utf8_lossy
from_utf8_lossy-append a b h = decode-append idle a b h
