-- ===== src/Panels/Approvals/Answers.antt =====
-- client/src/renderer/App.tsx: which proposals and requests are answered, and how often.
use umbra_gateway.Prelude.{
  List, [], ◌∷◌, none, Bool, true, false, ◌≡◌, refl, ap, ◌∙◌, if◌then◌else◌,
}
use umbra_gateway.Panels.Approvals.{
  Call, approves_proposal, rejects_proposal, approves_request, rejects_request, Approvals, call,
  handle_approve_proposal, handle_reject_proposal, handle_approve_request, handle_reject_request,
  modal, approve, reject, clear, Event, proposes, requests, clicks_approve, clicks_reject, ends,
  step, run,
}

-- What comes in, and whether the user approves it.
pub data Exchange (P R : Type 0) : Type 0 where
  proposal_and : P → Bool → Exchange P R
  request_and : R → Bool → Exchange P R

module _ {P R : Type 0} where
  abbrev pub events : Exchange P R → List (Event P R)
  events (proposal_and p b) =
      proposes p ∷ (if b then clicks_approve else clicks_reject) ∷ ends 0 ∷ []
  events (request_and r b) =
      requests r ∷ (if b then clicks_approve else clicks_reject) ∷ ends 0 ∷ []

  abbrev pub answer : Exchange P R → Call P R
  answer (proposal_and p b) = if b then approves_proposal p else rejects_proposal p
  answer (request_and r b) = if b then approves_request r else rejects_request r

  abbrev pub exchange : Approvals P R → List (Exchange P R) → Approvals P R
  exchange a [] = a
  exchange a (x ∷ xs) = exchange (run a (events x)) xs

  abbrev pub answers : List (Call P R) → List (Exchange P R) → List (Call P R)
  answers calls [] = calls
  answers calls (x ∷ xs) = answers (answer x ∷ calls) xs

  abbrev pub idle : List (Call P R) → Approvals P R
  idle calls = record {
    pending_proposal = none;
    pending_request = none;
    calls = calls;
    under_way = [];
  }

  exchange-idle :
      (calls : List (Call P R)) (x : Exchange P R)
      → run (idle calls) (events x) ≡ idle (answer x ∷ calls)
  unfolding step approve reject modal handle_approve_proposal handle_reject_proposal
      handle_approve_request handle_reject_request call clear
  exchange-idle calls (proposal_and p true) = refl
  exchange-idle calls (proposal_and p false) = refl
  exchange-idle calls (request_and r true) = refl
  exchange-idle calls (request_and r false) = refl

  -- If each proposal or request comes when nothing is shown, and is answered by one click whose call
  -- ends before the next comes, each is answered once, as the user decided and in the order in which
  -- they came, and nothing is shown at the end.
  pub answered_in_turn :
      (calls : List (Call P R)) (xs : List (Exchange P R))
      → exchange (idle calls) xs ≡ idle (answers calls xs)
  answered_in_turn calls [] = refl
  answered_in_turn calls (x ∷ xs) =
      ap (λ a. exchange a xs) (exchange-idle calls x) ∙ answered_in_turn (answer x ∷ calls) xs

  -- A request that comes while the call for an approved one has not ended is not answered: once that
  -- call ends nothing is shown any more. A second click before that makes the same call again.
  pub dropped_and_repeated :
      (calls : List (Call P R)) (first second : R)
      → (run (idle calls) (requests first ∷ clicks_approve ∷ requests second ∷ ends 0 ∷ [])
          ≡ idle (approves_request first ∷ calls))
        × ((run
              (idle calls)
              (requests first ∷ clicks_approve ∷ clicks_approve ∷ ends 0 ∷ ends 0 ∷ []))
            ≡ idle (approves_request first ∷ approves_request first ∷ calls))
  unfolding step approve modal handle_approve_request call clear
  dropped_and_repeated calls first second = (refl, refl)
