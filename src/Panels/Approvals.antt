-- ===== src/Panels/Approvals.antt =====
-- client/src/renderer/App.tsx and components/WCApprovalModal.tsx: the proposals and the requests of
-- other applications, and what the user answers. A callback works on the state of the time at which
-- it was made, as React gives it one. The panel that passes the proposals and requests on is commented
-- out in App.tsx.
pub mod Answers
use umbra_gateway.Prelude.{nth, remove_at}
use umbra_gateway.Prelude.{ℕ, zero, suc, List, [], ◌∷◌, ◌++◌, Option, none, some}

-- the calls of walletconnect.ts
pub data Call (P R : Type 0) : Type 0 where
  approves_proposal rejects_proposal : P → Call P R
  approves_request rejects_request : R → Call P R

-- which state a callback clears once its call has ended
pub data Clears : Type 0 where
  proposal request : Clears

-- `calls` are the calls made, the newest first; `under_way` those that have not ended, in their
-- order.
pub record Approvals (P R : Type 0) : Type 0 where
  pub pending_proposal : Option P
  pub pending_request : Option R
  pub calls : List (Call P R)
  pub under_way : List Clears

-- What the modal shows: a proposal before a request.
pub data View (P R : Type 0) : Type 0 where
  nothing : View P R
  proposal_view : P → View P R
  request_view : R → View P R

-- `ends` is the end of one of the calls under way.
pub data Event (P R : Type 0) : Type 0 where
  proposes : P → Event P R
  requests : R → Event P R
  clicks_approve clicks_reject : Event P R
  ends : ℕ → Event P R

module _ {P R : Type 0} where
  abbrev pub initial : Approvals P R
  initial = record { pending_proposal = none; pending_request = none; calls = []; under_way = [] }

  -- await …(…).catch(console.error), with the state that is cleared after it
  unfoldable pub call : Call P R → Clears → Approvals P R → Approvals P R
  call c clears a = record a { calls = c ∷ a.calls; under_way = a.under_way ++ clears ∷ [] }

  unfoldable pub handle_approve_proposal : Approvals P R → Approvals P R
  unfolding call
  handle_approve_proposal a = elim a.pending_proposal [
    | none ↦ a
    | some p ↦ call (approves_proposal p) proposal a
  ]

  unfoldable pub handle_reject_proposal : Approvals P R → Approvals P R
  unfolding call
  handle_reject_proposal a = elim a.pending_proposal [
    | none ↦ a
    | some p ↦ call (rejects_proposal p) proposal a
  ]

  unfoldable pub handle_approve_request : Approvals P R → Approvals P R
  unfolding call
  handle_approve_request a = elim a.pending_request [
    | none ↦ a
    | some r ↦ call (approves_request r) request a
  ]

  unfoldable pub handle_reject_request : Approvals P R → Approvals P R
  unfolding call
  handle_reject_request a = elim a.pending_request [
    | none ↦ a
    | some r ↦ call (rejects_request r) request a
  ]

  unfoldable pub modal : Option P → Option R → View P R
  modal (some p) r = proposal_view p
  modal none (some r) = request_view r
  modal none none = nothing

  -- the buttons of the view that is shown
  unfoldable pub approve : Approvals P R → Approvals P R
  unfolding modal handle_approve_proposal handle_approve_request
  approve a = elim (modal a.pending_proposal a.pending_request) [
    | nothing ↦ a
    | proposal_view p ↦ handle_approve_proposal a
    | request_view r ↦ handle_approve_request a
  ]

  unfoldable pub reject : Approvals P R → Approvals P R
  unfolding modal handle_reject_proposal handle_reject_request
  reject a = elim (modal a.pending_proposal a.pending_request) [
    | nothing ↦ a
    | proposal_view p ↦ handle_reject_proposal a
    | request_view r ↦ handle_reject_request a
  ]

  unfoldable pub clear : Option Clears → Approvals P R → Approvals P R
  clear none a = a
  clear (some proposal) a = record a { pending_proposal = none }
  clear (some request) a = record a { pending_request = none }

module _ {P R : Type 0} where
  unfoldable pub step : Approvals P R → Event P R → Approvals P R
  unfolding approve reject clear
  step a (proposes p) = record a { pending_proposal = some p }
  step a (requests r) = record a { pending_request = some r }
  step a clicks_approve = approve a
  step a clicks_reject = reject a
  step a (ends n) = clear (nth n a.under_way) (record a { under_way = remove_at n a.under_way })

  abbrev pub run : Approvals P R → List (Event P R) → Approvals P R
  run a [] = a
  run a (e ∷ es) = run (step a e) es
