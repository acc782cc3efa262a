-- ===== src/Protocol/Hex/Trips.antt =====
-- crates/neo4r-protocol/src/lib.rs: what is encoded or escaped comes back.
use neo4r.Protocol.Hex.{
  hex_digit, hex_encode, hex_nibble, decode_chunks, hex_decode, decode_text, escape_response,
  unescape, unescape_response,
}
use mathlib.Core.Path.{ap₂}
use neo4r.Prelude.Utf8.{as_bytes, from_utf8-as_bytes}
use neo4r.Prelude.Ascii.{IsByte, as_bytes-IsByte}
use neo4r.Prelude.{
  ==_iff, All, Bool-cases, List, String, [], ap, arith, inl, inr, length, le→leb, ltb, ltb_false→le,
  ltb→lt, lt→leb_false, refl, some, sym, ℕ, ◌%◌, ◌*◌, ◌+◌, ◌-◌, ◌/◌, ◌<◌, ◌==◌, ◌∷◌, ◌≡◌,
}

hex_nibble-hex_digit : (n : ℕ) → n < 16 → hex_nibble (hex_digit n) ≡ some n
unfolding hex_nibble
hex_nibble-hex_digit n h = elim (Bool-cases (ltb n 10)) [
  | inl small ↦
      let lt = ltb→lt n 10 small in
      let back : (48 + n) - 48 ≡ n = omega arith in
      rw (small, le→leb 48 (48 + n) (omega arith), le→leb (48 + n) 57 (omega arith), back) refl
  | inr large ↦
      let back : (87 + n) - 97 + 10 ≡ n = omega (arith, ltb_false→le n 10 large) in
      rw
        (
          large,
          le→leb 48 (87 + n) (omega arith),
          lt→leb_false (87 + n) 57 (omega arith),
          le→leb 97 (87 + n) (omega (arith, ltb_false→le n 10 large)),
          le→leb (87 + n) 102 (omega arith),
          back,
        )
        refl
]

even : (bytes : List ℕ) → length (hex_encode bytes) % 2 ≡ 0
unfolding hex_encode
even [] = refl
even (b ∷ bytes) = omega (arith, even bytes)

chunks_back : (bytes : List ℕ) → All IsByte bytes → decode_chunks (hex_encode bytes) ≡ some bytes
unfolding decode_chunks hex_encode
chunks_back [] h = refl
chunks_back (b ∷ bytes) h =
    let whole : (b / 16) * 16 + b % 16 ≡ b = omega arith in
    rw
      (
        hex_nibble-hex_digit (b / 16) (omega (arith, h.0)),
        hex_nibble-hex_digit (b % 16) (omega arith),
        chunks_back bytes h.1,
        whole,
      )
      refl

pub hex_decode-hex_encode :
    (bytes : List ℕ) → All IsByte bytes → hex_decode (hex_encode bytes) ≡ some bytes
unfolding hex_decode
hex_decode-hex_encode bytes h =
    rw ((==_iff (length (hex_encode bytes) % 2) 0).1 (even bytes), chunks_back bytes h) refl

pub decode_text-as_bytes : (s : String) → decode_text (hex_encode (as_bytes s)) ≡ some s
unfolding decode_text
decode_text-as_bytes s =
    rw (hex_decode-hex_encode (as_bytes s) (as_bytes-IsByte s)) (from_utf8-as_bytes s)

-- Unescaping gives an escaped text back.
pub unescape-escape_response : (text : List ℕ) → unescape_response (escape_response text) ≡ text
unfolding unescape_response unescape escape_response
unescape-escape_response [] = refl
unescape-escape_response (b ∷ bs) = elim (Bool-cases (b == b'\\')) [
  | inl backslash ↦
      rw backslash (ap₂ ◌∷◌ (sym ((==_iff b b'\\').0 backslash)) (unescape-escape_response bs))
  | inr plain ↦ elim (Bool-cases (b == b'\n')) [
    | inl newline ↦
        rw (plain, newline)
          (ap₂ ◌∷◌ (sym ((==_iff b b'\n').0 newline)) (unescape-escape_response bs))
    | inr other ↦ rw (plain, other, plain) (ap (◌∷◌ b) (unescape-escape_response bs))
  ]
]
