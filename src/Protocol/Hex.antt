-- ===== src/Protocol/Hex.antt =====
-- crates/neo4r-protocol/src/lib.rs: bytes as hexadecimal digits, and escaped texts. Every text is its
-- UTF-8 bytes, and a text error is none.
pub mod Trips
use neo4r.Prelude.Utf8.{as_bytes, from_utf8}
use neo4r.Prelude.Optional.{◌>>=◌}
use neo4r.Prelude.{
  Bool, List, Option, String, [], false, if◌then◌else◌, leb, length, ltb, none, not, some, true, ℕ,
  ◌%◌, ◌&&◌, ◌*◌, ◌+◌, ◌-◌, ◌/◌, ◌==◌, ◌>>◌, ◌∷◌,
}

-- `HEX[n]`
abbrev pub hex_digit : ℕ → ℕ
hex_digit n = if ltb n 10 then 48 + n else 87 + n

unfoldable pub hex_encode : List ℕ → List ℕ
hex_encode [] = []
hex_encode (byte ∷ bytes) = hex_digit (byte / 16) ∷ hex_digit (byte % 16) ∷ hex_encode bytes

unfoldable pub hex_nibble : ℕ → Option ℕ
hex_nibble byte =
    if leb b'0' byte && leb byte b'9'
    then some (byte - b'0')
    else if leb b'a' byte && leb byte b'f'
    then some (byte - b'a' + 10)
    else if leb b'A' byte && leb byte b'F'
    then some (byte - b'A' + 10)
    else none

-- the loop over the chunks of two bytes
unfoldable pub decode_chunks : List ℕ → Option (List ℕ)
unfolding hex_nibble
decode_chunks [] = some []
decode_chunks (_ ∷ []) = none
decode_chunks (high_digit ∷ low_digit ∷ rest) = do
  high ← hex_nibble high_digit
  low ← hex_nibble low_digit
  bytes ← decode_chunks rest
  some ((high * 16 + low) ∷ bytes)

unfoldable pub hex_decode : List ℕ → Option (List ℕ)
unfolding decode_chunks
hex_decode input = if not (length input % 2 == 0) then none else decode_chunks input

-- `String::from_utf8(hex_decode(input)?)`
unfoldable pub decode_text : List ℕ → Option String
unfolding hex_decode
decode_text input = do bytes ← hex_decode input; from_utf8 bytes

unfoldable pub escape_response : List ℕ → List ℕ
escape_response [] = []
escape_response (b ∷ bs) =
    if b == b'\\'
    then b'\\' ∷ b'\\' ∷ escape_response bs
    else if b == b'\n'
    then b'\\' ∷ b'n' ∷ escape_response bs
    else b ∷ escape_response bs

-- The flag is whether the last character was a backslash that escapes.
unfoldable pub unescape : Bool → List ℕ → List ℕ
unescape escaped [] = if escaped then b'\\' ∷ [] else []
unescape true (ch ∷ rest) =
    if ch == b'n'
    then b'\n' ∷ unescape false rest
    else if ch == b'\\'
    then b'\\' ∷ unescape false rest
    else b'\\' ∷ ch ∷ unescape false rest
unescape false (ch ∷ rest) = if ch == b'\\' then unescape true rest else ch ∷ unescape false rest

unfoldable pub unescape_response : List ℕ → List ℕ
unfolding unescape
unescape_response = unescape false
