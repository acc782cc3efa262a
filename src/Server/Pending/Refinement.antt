-- ===== src/Server/Pending/Refinement.antt =====
-- crates/neo4r-server/src/backend/native_worker.rs: the pending requests answer as the statuses do.
use neo4r.Server.Pending.{
  has_request, remove_request, PendingRequestState, no_requests, Call, register, cancel,
  take_cancelled, start, close_session, answer, handle, answers,
}
use neo4r.Server.Pending.Statuses.{
  Status, idle, waiting, stopped, Statuses, set_status, is_waiting, is_stopped, after_cancel,
  status_answer, advance, status_answers, Agree, here, has-add_request, has-remove_request,
  has-retain_others,
}
use mathlib.Core.Path.{ap₂}
use neo4r.Prelude.{
  ==_iff, Bool, Bool-cases, List, [], and_parts, ap, false, if◌then◌else◌, inl, inr, refl, sym,
  true, ℕ, ◌==◌, ◌∙◌, ◌∷◌, ◌≡◌,
}

apply-if :
    (g : Status → Bool) (b : Bool) (x y : Status)
    → g (if b then x else y) ≡ (if b then g x else g y)
apply-if g true x y = refl
apply-if g false x y = refl

-- A cancel leaves a request waiting, and stops it if it is waiting.
waiting-after_cancel : (x : Status) → is_waiting (after_cancel x) ≡ is_waiting x
waiting-after_cancel idle = refl
waiting-after_cancel waiting = refl
waiting-after_cancel stopped = refl

stopped-after_cancel : (x : Status) → is_stopped (after_cancel x) ≡ is_waiting x
stopped-after_cancel idle = refl
stopped-after_cancel waiting = refl
stopped-after_cancel stopped = refl

idle-after_cancel : (x : Status) → is_waiting x ≡ false → after_cancel x ≡ x
idle-after_cancel idle h = refl
idle-after_cancel waiting h = cc h
idle-after_cancel stopped h = refl

module _ (f : Statuses) (s r : ℕ) where
  -- Where the status does not change, setting it changes no test of it.
  same_test :
      (g : Status → Bool) (x : Status)
      → g x ≡ g (f s r)
      → (i j : ℕ) → g (set_status s r x f i j) ≡ g (f i j)
  same_test g x h i j = elim (Bool-cases (here s r i j)) [
    | inl same ↦
        let (session, request) = and_parts (i == s) (j == r) same in
        ap (λ b. g (if b then x else f i j)) same
        ∙ h
        ∙ ap g (sym (ap₂ f ((==_iff i s).0 session) ((==_iff j r).0 request)))
    | inr other ↦ ap (λ b. g (if b then x else f i j)) other
  ]

module _ (st : PendingRequestState) (f : Statuses) (a : Agree st f) (s r : ℕ) where
  removed_both :
      Agree
        (record {
          pending = remove_request s r st.pending;
          cancelled = remove_request s r st.cancelled;
        })
        (set_status s r idle f)
  removed_both = record {
    pending = λ i j.
        has-remove_request s r i j st.pending
        ∙ ap (λ b. if here s r i j then false else b) (a.pending i j)
        ∙ sym (apply-if is_waiting (here s r i j) idle (f i j));
    cancelled = λ i j.
        has-remove_request s r i j st.cancelled
        ∙ ap (λ b. if here s r i j then false else b) (a.cancelled i j)
        ∙ sym (apply-if is_stopped (here s r i j) idle (f i j));
  }

  registered : Agree (handle (register s r) st) (set_status s r waiting f)
  unfolding handle
  registered = record {
    pending = λ i j.
        has-add_request s r i j st.pending
        ∙ ap (λ b. if here s r i j then true else b) (a.pending i j)
        ∙ sym (apply-if is_waiting (here s r i j) waiting (f i j));
    cancelled = λ i j.
        has-remove_request s r i j st.cancelled
        ∙ ap (λ b. if here s r i j then false else b) (a.cancelled i j)
        ∙ sym (apply-if is_stopped (here s r i j) waiting (f i j));
  }

  kept_waiting :
      (i j : ℕ)
      → has_request st.pending i j ≡ is_waiting (set_status s r (after_cancel (f s r)) f i j)
  kept_waiting i j =
      a.pending i j
      ∙ sym (same_test f s r is_waiting (after_cancel (f s r)) (waiting-after_cancel (f s r)) i j)

  cancelled_one : Agree (handle (cancel s r) st) (set_status s r (after_cancel (f s r)) f)
  unfolding handle
  cancelled_one = elim (Bool-cases (has_request st.pending s r)) [
    | inl there ↦ rw there (record {
      pending = kept_waiting;
      cancelled = λ i j.
          has-add_request s r i j st.cancelled
          ∙ ap (λ b. if here s r i j then true else b) (a.cancelled i j)
          ∙ ap (λ b. if here s r i j then b else is_stopped (f i j))
              (sym (stopped-after_cancel (f s r) ∙ sym (a.pending s r) ∙ there))
          ∙ sym (apply-if is_stopped (here s r i j) (after_cancel (f s r)) (f i j));
    })
    | inr absent ↦ rw absent (record {
      pending = kept_waiting;
      cancelled = λ i j.
          a.cancelled i j
          ∙ sym (
              same_test f s r is_stopped (after_cancel (f s r))
                (ap is_stopped (idle-after_cancel (f s r) (sym (a.pending s r) ∙ absent))) i j);
    })
  ]

closed :
    (st : PendingRequestState) (f : Statuses)
    → Agree st f
    → (session : ℕ) → Agree (handle (close_session session) st) (advance (close_session session) f)
unfolding handle
closed st f a session = record {
  pending = λ i j.
      has-retain_others session i j st.pending
      ∙ ap (λ b. if i == session then false else b) (a.pending i j)
      ∙ sym (apply-if is_waiting (i == session) idle (f i j));
  cancelled = λ i j.
      has-retain_others session i j st.cancelled
      ∙ ap (λ b. if i == session then false else b) (a.cancelled i j)
      ∙ sym (apply-if is_stopped (i == session) idle (f i j));
}

handle-Agree :
    (c : Call) (st : PendingRequestState) (f : Statuses)
    → Agree st f
    → Agree (handle c st) (advance c f)
unfolding handle
handle-Agree (register s r) st f a = registered st f a s r
handle-Agree (cancel s r) st f a = cancelled_one st f a s r
handle-Agree (take_cancelled s r) st f a = removed_both st f a s r
handle-Agree (start s r) st f a = removed_both st f a s r
handle-Agree (close_session session) st f a = closed st f a session

answer_same :
    (c : Call) (st : PendingRequestState) (f : Statuses)
    → Agree st f
    → answer c st ≡ status_answer c f
unfolding answer
answer_same (register s r) st f a = refl
answer_same (cancel s r) st f a = a.pending s r
answer_same (take_cancelled s r) st f a = a.cancelled s r
answer_same (start s r) st f a = refl
answer_same (close_session session) st f a = refl

answers_same :
    (cs : List Call) (st : PendingRequestState) (f : Statuses)
    → Agree st f
    → answers cs st ≡ status_answers cs f
unfolding answers
answers_same [] st f a = refl
answers_same (c ∷ cs) st f a =
    ap₂ ◌∷◌ (answer_same c st f a)
      (answers_same cs (handle c st) (advance c f) (handle-Agree c st f a))

-- From no requests, any calls get the answers of the statuses: a cancel finds a request that was
-- registered and since then neither started, taken nor closed, and taking finds one that was also
-- cancelled since.
pub answers-status_answers :
    (cs : List Call) → answers cs no_requests ≡ status_answers cs (λ _ _. idle)
unfolding has_request
answers-status_answers cs =
    answers_same cs no_requests (λ _ _. idle)
      (record { pending = λ _ _. refl; cancelled = λ _ _. refl })
