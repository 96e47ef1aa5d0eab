-- ===== src/Helios/Lifecycle.antt =====
-- client/src/main/helios.ts: calls of `initHelios` and `shutdownHelios` one after another.
use umbra_gateway.Prelude.{ℕ, String, Option, none, some, List, [], ◌∷◌, true, false, ◌≡◌, sym, ap}
use mathlib.Core.Path.{subst}
use umbra_gateway.Helios.{
  Helios, synced, syncing, starts_proxy, creates, error, initial, Next, begin, init_helios,
  shutdown_helios, Ended, made, done, failed, proceed, give_up,
}

-- A call that is alone, as long as endings are given.
abbrev pub drive : Next → List Ended → Next
drive (h, none) es = (h, none)
drive (h, some w) [] = (h, some w)
drive (h, some w) (e ∷ es) = drive (proceed w e h) es

-- The states in which the calls may leave the module, where the last call was `initHelios` of a URL,
-- or, for `none`, `shutdownHelios` or none at all.
pub data Rests : Option String → Helios → Type 0 where
  off : Rests none initial
  verified :
      (p : ℕ) (rpc : String)
      → Rests
          (some rpc)
          (record { provider = some p; ready = true; execution_rpc = some rpc; status = synced })
  broken :
      (rpc : String)
      → Rests
          (some rpc)
          (record { provider = none; ready = false; execution_rpc = some rpc; status = error })

-- A history in which each call returns before the next one is made, with the URL of the last call.
pub data InTurn : Option String → Helios → Type 0 where
  start : InTurn none initial
  init :
      (last : Option String) (h : Helios) (rpc : String) (es : List Ended) (h' : Helios)
      → InTurn last h
      → drive (init_helios rpc h) es ≡ (h', none)
      → InTurn (some rpc) h'
  shut :
      (last : Option String) (h : Helios) (es : List Ended) (h' : Helios)
      → InTurn last h
      → drive (shutdown_helios h) es ≡ (h', none)
      → InTurn none h'

-- after `createHeliosProvider` was called
create-Rests :
    (rpc : String) (h : Helios) (es : List Ended) (h' : Helios)
    → drive
        (record h { execution_rpc = some rpc; ready = false; status = syncing }, some creates)
        es
      ≡ (h', none)
    → Rests (some rpc) h'
unfolding proceed give_up
create-Rests rpc h [] h' e = cc e
create-Rests rpc h (made p ∷ []) h' e = cc e
create-Rests rpc h (made p ∷ failed ∷ es) h' e = subst (Rests _) (ap (λ x. x.0) e) (broken rpc)
create-Rests rpc h (made p ∷ done ∷ es) h' e = subst (Rests _) (ap (λ x. x.0) e) (verified p rpc)
create-Rests rpc h (made p ∷ made q ∷ es) h' e = subst (Rests _) (ap (λ x. x.0) e) (verified p rpc)
create-Rests rpc h (done ∷ es) h' e = subst (Rests _) (ap (λ x. x.0) e) (broken rpc)
create-Rests rpc h (failed ∷ es) h' e = subst (Rests _) (ap (λ x. x.0) e) (broken rpc)

-- after the library was loaded
proxy-Rests :
    (rpc : String) (h : Helios) (es : List Ended) (h' : Helios)
    → drive
        (record h { execution_rpc = some rpc; ready = false; status = syncing }, some starts_proxy)
        es
      ≡ (h', none)
    → Rests (some rpc) h'
unfolding proceed give_up
proxy-Rests rpc h [] h' e = cc e
proxy-Rests rpc h (failed ∷ es) h' e = subst (Rests _) (ap (λ x. x.0) e) (broken rpc)
proxy-Rests rpc h (made p ∷ es) h' e = create-Rests rpc h es h' e
proxy-Rests rpc h (done ∷ es) h' e = create-Rests rpc h es h' e

begin-Rests :
    (rpc : String) (h : Helios) (es : List Ended) (h' : Helios)
    → drive (begin rpc h) es ≡ (h', none)
    → Rests (some rpc) h'
unfolding begin proceed give_up
begin-Rests rpc h [] h' e = cc e
begin-Rests rpc h (failed ∷ es) h' e = subst (Rests _) (ap (λ x. x.0) e) (broken rpc)
begin-Rests rpc h (made p ∷ es) h' e = proxy-Rests rpc h es h' e
begin-Rests rpc h (done ∷ es) h' e = proxy-Rests rpc h es h' e

init-Rests :
    (last : Option String) (h : Helios) (rpc : String) (es : List Ended) (h' : Helios)
    → Rests last h
    → drive (init_helios rpc h) es ≡ (h', none)
    → Rests (some rpc) h'
unfolding init_helios proceed initial
init-Rests _ h rpc es h' off e = begin-Rests rpc initial es h' e
init-Rests _ h rpc es h' (broken _) e = begin-Rests rpc h es h' e
init-Rests _ h rpc [] h' (verified p _) e = cc e
init-Rests _ h rpc (x ∷ es) h' (verified p _) e =
    begin-Rests rpc (record h { provider = none }) es h' e

shut-Rests :
    (last : Option String) (h : Helios) (es : List Ended) (h' : Helios)
    → Rests last h
    → drive (shutdown_helios h) es ≡ (h', none)
    → h' ≡ initial
unfolding shutdown_helios proceed initial
shut-Rests _ h [] h' off e = cc e
shut-Rests _ h (x ∷ es) h' off e = sym (ap (λ x. x.0) e)
shut-Rests _ h [] h' (broken _) e = cc e
shut-Rests _ h (x ∷ es) h' (broken _) e = sym (ap (λ x. x.0) e)
shut-Rests _ h [] h' (verified p _) e = cc e
shut-Rests _ h (x ∷ []) h' (verified p _) e = cc e
shut-Rests _ h (x ∷ y ∷ es) h' (verified p _) e = sym (ap (λ x. x.0) e)

-- If each call returns before the next is made: after `initHelios` of a URL the module has a provider
-- that has synced, that URL and the status `synced`, or no provider, that URL and the status
-- `error`; after `shutdownHelios` it is as at the start.
pub in_turn-Rests : (last : Option String) (h : Helios) → InTurn last h → Rests last h
in_turn-Rests _ _ start = off
in_turn-Rests _ _ (init last h rpc es h' t e) =
    init-Rests last h rpc es h' (in_turn-Rests last h t) e
in_turn-Rests _ _ (shut last h es h' t e) =
    subst (Rests none) (sym (shut-Rests last h es h' (in_turn-Rests last h t) e)) off
