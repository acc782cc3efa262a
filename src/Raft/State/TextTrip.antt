-- ===== src/Raft/State/TextTrip.antt =====
-- crates/neo4r-db/src/raft/persistent.rs: the persistent state comes back from its file.
use neo4r.Raft.State.{RaftPersistentState}
use neo4r.Raft.State.Text.{
  raft_state_magic, term_key, vote_key, vote_text, encode_persistent_state, strip_cr, lines_of,
  without_prefix, decode_vote, decode_state, decode_persistent_state,
}
use neo4r.Prelude.Decimal.{to_decimal, parse_unsigned-to_decimal, IsDigit, to_decimal-IsDigit}
use neo4r.Prelude.Split.{split_on, bytes_eq, Free, split_on-append}
use neo4r.Prelude.{
  ==_iff, All, All-append, All-map, Bool-cases, List, Option, [], any, ap, arith, false, inl, inr,
  ltb, ltb_false→le, none, ok, refl, some, u64_max, ℕ, ◌++◌, ◌<◌, ◌==◌, ◌^◌, ◌∙◌, ◌∷◌, ◌≡◌, ◌≤◌,
}

strip_cr-Free : (bs : List ℕ) → Free b'\r' bs → strip_cr bs ≡ bs
unfolding strip_cr
strip_cr-Free [] h = refl
strip_cr-Free (b ∷ []) h = rw h.0 refl
strip_cr-Free (b ∷ c ∷ bs) h = ap (◌∷◌ b) (strip_cr-Free (c ∷ bs) h.1)

-- A text in which no character is below 32 is a line.
abbrev IsVisible : ℕ → Type 0
IsVisible b = 32 ≤ b

visible-Free : (sep : ℕ) (bs : List ℕ) → sep < 32 → All IsVisible bs → Free sep bs
visible-Free sep bs h = All-map IsVisible (λ b. (b == sep) ≡ false) differ bs
  where
    differ : (b : ℕ) → IsVisible b → (b == sep) ≡ false
    differ b p = elim (Bool-cases (b == sep)) [
      | inl equal ↦ absurd (omega (arith, (==_iff b sep).0 equal))
      | inr other ↦ other
    ]

number-IsVisible : (n : ℕ) → All IsVisible (to_decimal n)
number-IsVisible n =
    All-map IsDigit IsVisible (λ b d. omega arith) (to_decimal n) (to_decimal-IsDigit n)

no_control : (bs : List ℕ) → any (λ b. ltb b 32) bs ≡ false → All IsVisible bs
no_control [] h = tt
no_control (b ∷ bs) h = elim (Bool-cases (ltb b 32)) [
  | inl low ↦ cc (rw low at h)
  | inr high ↦ (ltb_false→le b 32 high, no_control bs (rw high at h))
]

three_lines :
    (a b c : List ℕ)
    → All IsVisible a
    → All IsVisible b
    → All IsVisible c
    → lines_of (split_on b'\n' (a ++ b'\n' ∷ (b ++ b'\n' ∷ (c ++ b'\n' ∷ [])))) ≡ a ∷ b ∷ c ∷ []
unfolding lines_of split_on
three_lines a b c va vb vc =
    ap lines_of (
      split_on-append b'\n' a _ (visible-Free b'\n' a (omega arith) va)
      ∙ ap (◌∷◌ a) (split_on-append b'\n' b _ (visible-Free b'\n' b (omega arith) vb))
      ∙ ap (λ ls. a ∷ b ∷ ls) (split_on-append b'\n' c [] (visible-Free b'\n' c (omega arith) vc)))
    ∙ rw
        (
          strip_cr-Free a (visible-Free b'\r' a (omega arith) va),
          strip_cr-Free b (visible-Free b'\r' b (omega arith) vb),
          strip_cr-Free c (visible-Free b'\r' c (omega arith) vc),
        )
        refl

vote-IsVisible : (v : Option ℕ) → All IsVisible (vote_text v)
vote-IsVisible none = (omega arith, tt)
vote-IsVisible (some server) = number-IsVisible server

lines_back :
    (s : RaftPersistentState)
    → lines_of (split_on b'\n' (encode_persistent_state s))
      ≡ raft_state_magic
        ∷ (term_key ++ to_decimal s.current_term)
        ∷ (vote_key ++ vote_text s.voted_for)
        ∷ []
unfolding encode_persistent_state
lines_back s =
    three_lines raft_state_magic (term_key ++ to_decimal s.current_term)
      (vote_key ++ vote_text s.voted_for) (no_control raft_state_magic refl)
      (All-append IsVisible term_key (to_decimal s.current_term) (no_control term_key refl)
        (number-IsVisible s.current_term))
      (All-append IsVisible vote_key (vote_text s.voted_for) (no_control vote_key refl)
        (vote-IsVisible s.voted_for))

no_dash : (bs : List ℕ) → All IsDigit bs → bytes_eq bs (b'-' ∷ []) ≡ false
no_dash [] h = refl
no_dash (b ∷ bs) h = elim (Bool-cases (b == b'-')) [
  | inl dash ↦ absurd (omega (arith, h.0.0, (==_iff b b'-').0 dash))
  | inr digit ↦ rw digit refl
]

-- The server of a vote is one of 64 bits.
abbrev pub FitsVote : Option ℕ → Type 0
FitsVote none = Unit
FitsVote (some server) = server < 2 ^ 64

vote_back : (v : Option ℕ) → FitsVote v → decode_vote ((vote_key ++ vote_text v) ∷ []) ≡ some v
unfolding decode_vote without_prefix
vote_back none h = refl
vote_back (some server) h =
    rw
      (
        no_dash (to_decimal server) (to_decimal-IsDigit server),
        parse_unsigned-to_decimal u64_max server h (omega arith),
      )
      refl

-- A term and a vote of 64 bits come back from the text of the file that a save writes.
pub decode-encode_persistent_state :
    (s : RaftPersistentState)
    → s.current_term < 2 ^ 64
    → FitsVote s.voted_for
    → decode_persistent_state (encode_persistent_state s) ≡ ok s
unfolding decode_persistent_state decode_state without_prefix
decode-encode_persistent_state s small fits =
    rw
      (
        decode_persistent_state,
        lines_back s,
        parse_unsigned-to_decimal u64_max s.current_term small (omega arith),
        vote_back s.voted_for fits,
      )
      refl
