-- ===== src/Raft/State/Text.antt =====
-- crates/neo4r-db/src/raft/persistent.rs: the persistent state as the text of its file.
use neo4r.Raft.Errors.{DatabaseError, invalid_config}
use neo4r.Raft.State.{RaftPersistentState}
use neo4r.Prelude.Decimal.{to_decimal, parse_unsigned}
use neo4r.Prelude.Split.{split_on, bytes_eq, is_empty}
use neo4r.Prelude.Optional.{◌>>=◌}
use neo4r.Prelude.{
  List, Option, Result, [], err, if◌then◌else◌, none, ok, some, u64_max, ℕ, ◌++◌, ◌==◌, ◌∷◌,
}

-- the text `N4RRAFT1`
abbrev pub raft_state_magic : List ℕ
raft_state_magic = b'N' ∷ b'4' ∷ b'R' ∷ b'R' ∷ b'A' ∷ b'F' ∷ b'T' ∷ b'1' ∷ []

abbrev pub term_key : List ℕ
term_key = b't' ∷ b'e' ∷ b'r' ∷ b'm' ∷ b'=' ∷ []

abbrev pub vote_key : List ℕ
vote_key = b'v' ∷ b'o' ∷ b't' ∷ b'e' ∷ b'd' ∷ b'_' ∷ b'f' ∷ b'o' ∷ b'r' ∷ b'=' ∷ []

abbrev pub vote_text : Option ℕ → List ℕ
vote_text none = b'-' ∷ []
vote_text (some server) = to_decimal server

unfoldable pub encode_persistent_state : RaftPersistentState → List ℕ
encode_persistent_state s =
    raft_state_magic
    ++ b'\n'
      ∷ ((term_key ++ to_decimal s.current_term)
          ++ b'\n' ∷ ((vote_key ++ vote_text s.voted_for) ++ b'\n' ∷ []))

-- `str::lines`
unfoldable pub strip_cr : List ℕ → List ℕ
strip_cr [] = []
strip_cr (b ∷ []) = if b == b'\r' then [] else b ∷ []
strip_cr (b ∷ c ∷ bs) = b ∷ strip_cr (c ∷ bs)

unfoldable pub lines_of : List (List ℕ) → List (List ℕ)
unfolding strip_cr
lines_of [] = []
lines_of (p ∷ []) = if is_empty p then [] else p ∷ []
lines_of (p ∷ q ∷ ps) = strip_cr p ∷ lines_of (q ∷ ps)

-- `str::strip_prefix`
unfoldable pub without_prefix : List ℕ → List ℕ → Option (List ℕ)
without_prefix [] bs = some bs
without_prefix (p ∷ ps) [] = none
without_prefix (p ∷ ps) (b ∷ bs) = if p == b then without_prefix ps bs else none

unfoldable pub decode_vote : List (List ℕ) → Option (Option ℕ)
unfolding without_prefix
decode_vote [] = none
decode_vote (line ∷ lines) = without_prefix vote_key line >>= λ value.
    if bytes_eq value (b'-' ∷ [])
    then some none
    else parse_unsigned u64_max value >>= λ server. some (some server)

unfoldable pub decode_state : List (List ℕ) → Option RaftPersistentState
unfolding without_prefix decode_vote
decode_state (magic_line ∷ term_line ∷ lines) =
    if bytes_eq magic_line raft_state_magic
    then (do
      digits ← without_prefix term_key term_line
      term ← parse_unsigned u64_max digits
      voted_for ← decode_vote lines
      some (record { current_term = term; voted_for = voted_for }))
    else none
decode_state _ = none

unfoldable pub decode_persistent_state : List ℕ → Result DatabaseError RaftPersistentState
unfolding decode_state lines_of
decode_persistent_state input = elim (decode_state (lines_of (split_on b'\n' input))) [
  | none ↦ err invalid_config
  | some s ↦ ok s
]
