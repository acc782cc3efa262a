-- ===== src/Server/Pending.antt =====
-- crates/neo4r-server/src/backend/native_worker.rs: the requests that wait for a worker, and which of
-- them are cancelled. The lock is not poisoned; each method runs under it and is one step.
pub mod Statuses
pub mod Refinement
pub mod Tests
use neo4r.Prelude.{Bool, List, [], any, if◌then◌else◌, not, retain, true, ℕ, ◌&&◌, ◌==◌, ◌∷◌}

-- A `BTreeSet` of sessions and requests: the order of the list is never read.
abbrev pub Requests : Type 0
Requests = List (ℕ × ℕ)

abbrev pub is_request : ℕ → ℕ → ℕ × ℕ → Bool
is_request session request (s, r) = s == session && r == request

unfoldable pub has_request : Requests → ℕ → ℕ → Bool
has_request xs session request = any (is_request session request) xs

unfoldable pub add_request : ℕ → ℕ → Requests → Requests
unfolding has_request
add_request session request xs =
    if has_request xs session request then xs else (session, request) ∷ xs

unfoldable pub remove_request : ℕ → ℕ → Requests → Requests
remove_request session request = retain (λ x. not (is_request session request x))

unfoldable pub retain_others : ℕ → Requests → Requests
retain_others session = retain (λ (s, _). not (s == session))

pub record PendingRequestState : Type 0 where
  pub pending : Requests
  pub cancelled : Requests

abbrev pub no_requests : PendingRequestState
no_requests = record { pending = []; cancelled = [] }

pub data Call : Type 0 where
  register : ℕ → ℕ → Call
  cancel : ℕ → ℕ → Call
  take_cancelled : ℕ → ℕ → Call
  start : ℕ → ℕ → Call
  close_session : ℕ → Call

-- The answer is that of `cancel` and `take_cancelled`; the other methods return nothing.
unfoldable pub answer : Call → PendingRequestState → Bool
unfolding has_request
answer (cancel s r) st = has_request st.pending s r
answer (take_cancelled s r) st = has_request st.cancelled s r
answer _ st = true

unfoldable pub handle : Call → PendingRequestState → PendingRequestState
unfolding add_request remove_request retain_others has_request
handle (register s r) st = record {
  pending = add_request s r st.pending;
  cancelled = remove_request s r st.cancelled;
}
handle (cancel s r) st =
    if has_request st.pending s r
    then record st { cancelled = add_request s r st.cancelled }
    else st
handle (take_cancelled s r) st = record {
  pending = remove_request s r st.pending;
  cancelled = remove_request s r st.cancelled;
}
handle (start s r) st = record {
  pending = remove_request s r st.pending;
  cancelled = remove_request s r st.cancelled;
}
handle (close_session s) st = record {
  pending = retain_others s st.pending;
  cancelled = retain_others s st.cancelled;
}

unfoldable pub answers : List Call → PendingRequestState → List Bool
unfolding answer handle
answers [] st = []
answers (c ∷ cs) st = answer c st ∷ answers cs (handle c st)
