-- ===== src/Server/Pending/Statuses.antt =====
-- crates/neo4r-server/src/backend/native_worker.rs: each request on its own, as what the pending
-- requests promise, and that the two sets keep this promise.
use neo4r.Server.Pending.{
  Requests, has_request, add_request, remove_request, retain_others, PendingRequestState, Call,
  register, cancel, take_cancelled, start, close_session,
}
use mathlib.Core.Path.{ap₂}
use neo4r.Prelude.{
  ==_iff, Bool, Bool-cases, List, [], and_parts, arith, false, if◌then◌else◌, inl, inr, true, ℕ,
  ◌&&◌, ◌==◌, ◌∷◌, ◌≡◌,
}

pub data Status : Type 0 where
  idle : Status
  waiting : Status
  stopped : Status

abbrev pub Statuses : Type 0
Statuses = ℕ → ℕ → Status

abbrev pub set_status : ℕ → ℕ → Status → Statuses → Statuses
set_status session request status f s r = if s == session && r == request then status else f s r

abbrev pub is_waiting : Status → Bool
is_waiting idle = false
is_waiting waiting = true
is_waiting stopped = true

abbrev pub is_stopped : Status → Bool
is_stopped idle = false
is_stopped waiting = false
is_stopped stopped = true

abbrev pub after_cancel : Status → Status
after_cancel idle = idle
after_cancel waiting = stopped
after_cancel stopped = stopped

abbrev pub status_answer : Call → Statuses → Bool
status_answer (cancel s r) f = is_waiting (f s r)
status_answer (take_cancelled s r) f = is_stopped (f s r)
status_answer (register s r) f = true
status_answer (start s r) f = true
status_answer (close_session s) f = true

abbrev pub advance : Call → Statuses → Statuses
advance (register s r) f = set_status s r waiting f
advance (cancel s r) f = set_status s r (after_cancel (f s r)) f
advance (take_cancelled s r) f = set_status s r idle f
advance (start s r) f = set_status s r idle f
advance (close_session session) f = λ s r. if s == session then idle else f s r

-- A request is idle until it is registered; a cancel stops it if it is there; it is idle again when
-- its cancellation is taken, when it starts and when its session is closed.
abbrev pub status_answers : List Call → Statuses → List Bool
status_answers [] f = []
status_answers (c ∷ cs) f = status_answer c f ∷ status_answers cs (advance c f)

-- The sets hold a request as its status says.
pub record Agree (st : PendingRequestState) (f : Statuses) : Type 0 where
  pub pending : (s r : ℕ) → has_request st.pending s r ≡ is_waiting (f s r)
  pub cancelled : (s r : ℕ) → has_request st.cancelled s r ≡ is_stopped (f s r)

module _ (session request : ℕ) (s r : ℕ) where
  abbrev pub here : Bool
  here = s == session && r == request

  pub has-remove_request :
      (xs : Requests)
      → has_request (remove_request session request xs) s r
        ≡ (if here then false else has_request xs s r)
  unfolding has_request remove_request
  has-remove_request [] = ground arith
  has-remove_request ((a, b) ∷ xs) = ground (arith, has-remove_request xs)

  here_same : (xs : Requests) → here ≡ true → has_request xs s r ≡ has_request xs session request
  here_same xs h =
      let (same_session, same_request) = and_parts (s == session) (r == request) h in
      ap₂ (has_request xs) ((==_iff s session).0 same_session) ((==_iff r request).0 same_request)

  pub has-add_request :
      (xs : Requests)
      → has_request (add_request session request xs) s r
        ≡ (if here then true else has_request xs s r)
  unfolding has_request add_request
  has-add_request xs = elim (Bool-cases (has_request xs session request)) [
    | inl found ↦ rw found (grind (arith, here_same xs, found))
    | inr new ↦ rw new (ground arith)
  ]

pub has-retain_others :
    (session s r : ℕ) (xs : Requests)
    → has_request (retain_others session xs) s r
      ≡ (if s == session then false else has_request xs s r)
unfolding has_request retain_others
has-retain_others session s r [] = ground arith
has-retain_others session s r ((a, b) ∷ xs) = ground (arith, has-retain_others session s r xs)
