-- ===== src/Protocol/Values/Labels.antt =====
-- crates/neo4r-protocol/src/lib.rs: labels and their text.
use neo4r.Protocol.Hex.{hex_encode, decode_text}
use neo4r.Protocol.Hex.Trips.{decode_text-as_bytes}
use neo4r.Protocol.Values.{encode_labels, decode_labels}
use neo4r.Protocol.Values.Alphabet.{text-IsPlain, plain-Free}
use neo4r.Prelude.Split.{join, Free, is_empty, split_on-join}
use neo4r.Prelude.Optional.{try_collect-map}
use neo4r.Prelude.Utf8.{as_bytes}
use neo4r.Prelude.{All, List, String, [], arith, false, map, refl, some, ℕ, ◌∷◌, ◌≡◌}

abbrev label_text : String → List ℕ
label_text label = hex_encode (as_bytes label)

texts-Free : (ls : List String) → All (Free b',') (map label_text ls)
texts-Free [] = tt
texts-Free (l ∷ ls) = (plain-Free b',' (label_text l) (omega arith) (text-IsPlain l), texts-Free ls)

all_back : (ls : List String) → All (λ l. decode_text (label_text l) ≡ some l) ls
all_back [] = tt
all_back (l ∷ ls) = (decode_text-as_bytes l, all_back ls)

-- The text of these labels tells them from none: one label alone is not empty.
abbrev pub HasText : List String → Type 0
HasText [] = Unit
HasText (l ∷ ls) = is_empty (encode_labels (l ∷ ls)) ≡ false

-- Labels come back from their text, if it is not empty or there are none.
pub decode-encode_labels :
    (ls : List String) → HasText ls → decode_labels (encode_labels ls) ≡ some ls
unfolding decode_labels encode_labels join
decode-encode_labels [] h = refl
decode-encode_labels (l ∷ ls) h =
    rw
      (
        h,
        split_on-join b',' (label_text l) (map label_text ls) (texts-Free (l ∷ ls)),
        try_collect-map decode_text label_text (l ∷ ls) (all_back (l ∷ ls)),
      )
      refl
