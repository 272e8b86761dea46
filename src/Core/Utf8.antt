-- ===== src/Core/Utf8.antt =====
-- Texts as the code points of their characters, and Rust's `String::from_utf8_lossy`, `trim` and
-- `lines`, for core/src/http_agent.rs, which reads text from the bytes of a network stream.
pub mod Boundaries
use acp_a2a_gateway.Prelude.{
  ℕ, zero, suc, ◌+◌, ◌*◌, ◌%◌, ◌≡◌, Bool, true, false, ◌&&◌, ◌||◌, Option, none, some, List, [],
  ◌∷◌, ◌++◌, ltb, leb, ◌==◌, if◌then◌else◌,
}

abbrev pub Text : Type 0
Text = List ℕ

unfoldable pub between : ℕ → ℕ → ℕ → Bool
between lo hi b = leb lo b && leb b hi

-- What a decoder has read of a character: nothing, or the bits so far, how many bytes are missing
-- behind the next one, and the range of the next one.
pub data Decoder : Type 0 where
  idle : Decoder
  expect : ℕ → ℕ → ℕ → ℕ → Decoder

abbrev pub replacement : ℕ
replacement = 0xfffd

-- the first byte of a character
first_byte : ℕ → Text × Decoder
unfolding between
first_byte b =
    if ltb b 0x80
    then (b ∷ [], idle)
    else if between 0xc2 0xdf b
    then ([], expect (b % 32) 0 0x80 0xbf)
    else if b == 0xe0
    then ([], expect 0 1 0xa0 0xbf)
    else if b == 0xed
    then ([], expect 13 1 0x80 0x9f)
    else if between 0xe1 0xef b
    then ([], expect (b % 16) 1 0x80 0xbf)
    else if b == 0xf0
    then ([], expect 0 2 0x90 0xbf)
    else if between 0xf1 0xf3 b
    then ([], expect (b % 8) 2 0x80 0xbf)
    else if b == 0xf4
    then ([], expect 4 2 0x80 0x8f)
    else (replacement ∷ [], idle)

more_bits : ℕ → ℕ → ℕ → Text × Decoder
more_bits bits zero b = ((bits * 64 + b % 64) ∷ [], idle)
more_bits bits (suc missing) b = ([], expect (bits * 64 + b % 64) missing 0x80 0xbf)

-- A byte that does not fit ends the character with a replacement, and starts the next one.
unfoldable pub feed : Decoder → ℕ → Text × Decoder
unfolding first_byte more_bits between
feed idle b = first_byte b
feed (expect bits missing lo hi) b =
    if between lo hi b
    then more_bits bits missing b
    else (replacement ∷ (first_byte b).0, (first_byte b).1)

unfoldable pub decode : Decoder → List ℕ → Text
unfolding feed
decode idle [] = []
decode (expect bits missing lo hi) [] = replacement ∷ []
decode d (b ∷ bs) = (feed d b).0 ++ decode (feed d b).1 bs

-- the decoder behind some bytes
unfoldable pub decoder : Decoder → List ℕ → Decoder
unfolding feed
decoder d [] = d
decoder d (b ∷ bs) = decoder (feed d b).1 bs

-- The byte goes on with the character, or starts one.
fits : Decoder → ℕ → Bool
unfolding between
fits idle b = ltb b 0x80 || between 0xc2 0xf4 b
fits (expect bits missing lo hi) b = between lo hi b

is_valid : Decoder → List ℕ → Bool
unfolding fits feed
is_valid idle [] = true
is_valid (expect bits missing lo hi) [] = false
is_valid d (b ∷ bs) = let rest = is_valid (feed d b).1 bs in if fits d b then rest else false

-- `std::str::from_utf8`
unfoldable pub from_utf8 : List ℕ → Option Text
unfolding is_valid decode
from_utf8 bytes = if is_valid idle bytes then some (decode idle bytes) else none

unfoldable pub from_utf8_lossy : List ℕ → Text
unfolding decode
from_utf8_lossy = decode idle

-- The bytes do not end inside a character.
abbrev pub IsWhole : List ℕ → Type 0
IsWhole bytes = decoder idle bytes ≡ idle

-- `char::is_whitespace`
unfoldable pub is_whitespace : ℕ → Bool
unfolding between
is_whitespace c =
    between 9 13 c
    || c == 32
    || c == 0x85
    || c == 0xa0
    || c == 0x1680
    || between 0x2000 0x200a c
    || c == 0x2028
    || c == 0x2029
    || c == 0x202f
    || c == 0x205f
    || c == 0x3000

trim_start : Text → Text
unfolding is_whitespace
trim_start [] = []
trim_start (c ∷ cs) = let rest = trim_start cs in if is_whitespace c then rest else c ∷ cs

-- A text of white space only has no end that is kept.
trim_end : Text → Text
unfolding is_whitespace
trim_end [] = []
trim_end (c ∷ cs) = add_front c (trim_end cs)
  where
    add_front : ℕ → Text → Text
    add_front d [] = if is_whitespace d then [] else d ∷ []
    add_front d (e ∷ es) = d ∷ e ∷ es

unfoldable pub trim : Text → Text
unfolding trim_start trim_end
trim cs = trim_end (trim_start cs)

-- `s.strip_prefix(p)`
unfoldable pub strip : Text → Text → Option Text
strip [] cs = some cs
strip (p ∷ ps) [] = none
strip (p ∷ ps) (c ∷ cs) = if p == c then strip ps cs else none

-- the text up to the first line feed, and what follows it
unfoldable pub first_line : Text → Text × Option Text
first_line [] = ([], none)
first_line (c ∷ cs) = if c == 10 then ([], some cs) else (c ∷ (first_line cs).0, (first_line cs).1)
