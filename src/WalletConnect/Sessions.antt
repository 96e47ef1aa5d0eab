-- ===== src/WalletConnect/Sessions.antt =====
-- client/src/renderer/walletconnect.ts: what becomes of a session proposal, and of a second address.
use umbra_gateway.Prelude.{
  ℕ, String, ◌∷◌, some, ◌≡◌, refl, sym, Result, ok, err, Result-cases, inl, inr,
}
use mathlib.Core.Path.{subst}
use umbra_gateway.Exec.{Exec, ◌>>=◌, by_option, catch, pure}
use umbra_gateway.WalletConnect.{
  Env, State, approves, rejects, sessions_changed, SessionProposal, call_kit, notify,
  settle_proposal, supported_namespace, init_wallet_kit, approve_proposal,
}

module _ {Params Namespaces : Type 0} (env : Env Params Namespaces) where
  -- The ways out of an approval of proposal `id` in state `s`, by the namespaces that were built.
  pub data Approval (id : ℕ) (s : State Namespaces)
      : Result Namespaces → Result (Unit {0}) × State Namespaces → Type 0 where
    approved :
        (n : Namespaces)
        → env.kit s.trace (approves id n) ≡ ok tt
        → Approval id s
            (ok n)
            (ok tt, record s { trace = sessions_changed ∷ approves id n ∷ s.trace })
    refused :
        (n : Namespaces) (message m : String)
        → env.kit s.trace (approves id n) ≡ err message
        → Approval id s (ok n) (err m, record s { trace = rejects id ∷ approves id n ∷ s.trace })
    unsupported :
        (message m : String)
        → Approval id s (err message) (err m, record s { trace = rejects id ∷ s.trace })

  settled :
      (id : ℕ) (s : State Namespaces) (built : Result Namespaces)
      → Approval id s built (settle_proposal env id built s)
  unfolding settle_proposal call_kit notify ◌>>=◌ catch
  settled id s (ok n) = elim (Result-cases (env.kit s.trace (approves id n))) [
    | inl (_, good) ↦ rw good (approved n good)
    | inr (message, bad) ↦ elim (Result-cases (env.kit (approves id n ∷ s.trace) (rejects id))) [
      | inl (_, told) ↦ rw bad (rw told (refused n message _ bad))
      | inr (m, lost) ↦ rw bad (rw lost (refused n message _ bad))
    ]
  ]
  settled id s (err message) = elim (Result-cases (env.kit s.trace (rejects id))) [
    | inl (_, told) ↦ rw told (unsupported message _)
    | inr (m, lost) ↦ rw lost (unsupported message _)
  ]

  -- While WalletKit is set, an approved proposal is approved, with the namespaces that were built
  -- for Base Sepolia and the wallet's address, and the sessions are then read again; or, if the
  -- namespaces cannot be built or WalletKit fails to approve them, it is rejected and the caller
  -- sees an error.
  pub approve_proposal_outcome :
      (s : State Namespaces) (proposal : SessionProposal Params)
      → s.wallet_kit ≡ some tt
      → Approval proposal.id s
          (env.build_approved_namespaces proposal.params (supported_namespace s.wallet_address))
          (approve_proposal env proposal s)
  unfolding approve_proposal ◌>>=◌ by_option
  approve_proposal_outcome s proposal on =
      let offer : Unit → Exec (State Namespaces) (Unit {0}) = λ _ t.
        settle_proposal env proposal.id
          (env.build_approved_namespaces proposal.params (supported_namespace t.wallet_address))
          t in
      let built =
        env.build_approved_namespaces proposal.params (supported_namespace s.wallet_address) in
      subst (λ kit. Approval proposal.id s built (by_option kit (pure tt) offer s)) (sym on)
        (settled proposal.id s built)

  -- Once WalletKit is set, a call of `initWalletKit` for another address does nothing: proposals
  -- are still approved for the first one.
  pub first_address_stays :
      (s : State Namespaces) (address : String)
      → s.wallet_kit ≡ some tt
      → (init_wallet_kit env address s).1 ≡ s
  unfolding init_wallet_kit ◌>>=◌ by_option
  first_address_stays s address on = rw (on, by_option) refl
