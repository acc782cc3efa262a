-- ===== src/Server/Pending/Tests.antt =====
-- A run of the pending requests: a request is registered, cancelled and taken by a worker.
use neo4r.Server.Pending.{
  no_requests, Call, register, cancel, take_cancelled, answers, has_request, add_request,
  remove_request,
}
use neo4r.Server.Pending.Statuses.{idle, status_answers}
use neo4r.Server.Pending.Refinement.{answers-status_answers}
use neo4r.Prelude.{List, [], false, refl, true, ◌∷◌, ◌≡◌}

abbrev calls : List Call
calls = register 1 7 ∷ cancel 1 8 ∷ cancel 1 7 ∷ take_cancelled 1 7 ∷ take_cancelled 1 7 ∷ []

calls_run : answers calls no_requests ≡ true ∷ false ∷ true ∷ true ∷ false ∷ []
unfolding answers has_request add_request remove_request
calls_run = refl

answers-status_answers_example : answers calls no_requests ≡ status_answers calls (λ _ _. idle)
answers-status_answers_example = answers-status_answers calls
