-- ===== src/X402/Queue/Liveness.antt =====
-- client/src/main/x402Client.ts: every task that is handed to a queue is settled, once the tasks
-- before it have ended.
use mathlib.Core.List.{append-nil, append_assoc}
use umbra_gateway.Prelude.{
  String, none, List, [], ◌∷◌, ◌++◌, map, length, ◌≡◌, refl, ◌∙◌, sym, inl, inr, Option-cases,
  arith,
}
use umbra_gateway.Prelude.Map
use umbra_gateway.Prelude.Map.{map_laws}
use umbra_gateway.Prelude.Text.{===_refl}
use umbra_gateway.X402.Queue.{
  Queues, finishes, queue_of, settled_of, next_item, loop, settle, finish, step, run,
}
use umbra_gateway.X402.Queue.Order.{as_list, IsServed, AllServed, step-AllServed}

-- the pairs of two lists, as far as both go
abbrev pub pairs : {A B : Type 0} → List A → List B → List (A × B)
pairs [] ys = []
pairs (x ∷ xs) [] = []
pairs (x ∷ xs) (y ∷ ys) = (x, y) ∷ pairs xs ys

module _ {Task Outcome : Type 0} where
  -- the tasks of a gateway that are not settled, the one that is awaited first
  abbrev pub pending : Queues Task Outcome → String → List Task
  pending s url = as_list (Map.get s.running url) ++ queue_of s url

  loop-pending :
      (s : Queues Task Outcome) (url : String)
      → Map.get s.running url ≡ none
      → (pending (loop s url) url ≡ queue_of s url)
        × (settled_of (loop s url) url ≡ settled_of s url)
  unfolding loop
  loop-pending s url idle = go (queue_of s url) refl
    where
      go :
          (q : List Task)
          → queue_of s url ≡ q
          → (pending (next_item q s url) url ≡ queue_of s url)
            × (settled_of (next_item q s url) url ≡ settled_of s url)
      go [] e = unfold next_item in (rw idle, refl)
      go (item ∷ rest) e = unfold next_item in (simp (map_laws, ===_refl) (sym e), refl)

  finish-pending :
      (s : Queues Task Outcome) (url : String) (outcome : Outcome) (item : Task) (rest : List Task)
      → IsServed s url
      → pending s url ≡ item ∷ rest
      → (pending (finish s url outcome) url ≡ rest)
        × (settled_of (finish s url outcome) url ≡ settled_of s url ++ (item, outcome) ∷ [])
  unfolding finish settle
  finish-pending s url outcome item rest v p = elim (Option-cases (Map.get s.running url)) [
    | inl idle ↦
        let queued = rw idle at p in
        let free = sym v.awaits ∙ rw idle refl in cc (sym (v.serves free) ∙ queued)
    | inr (task, awaited) ↦
        let q = rw awaited at p in
        let (l, d) =
          loop-pending
            (record s {
              running = Map.delete s.running url;
              settled = Map.set s.settled url (settled_of s url ++ (task, outcome) ∷ []);
            })
            url (simp (map_laws, ===_refl)) in
        rw awaited (l ∙ cc q, d ∙ simp (map_laws, ===_refl) (cc q))
  ]

  -- From any state in which every gateway is served: where as many tasks end as a gateway has
  -- pending, all of them are settled, in the order of the queue and each with the outcome of its
  -- own end; none is left awaited or queued.
  pub all_settled :
      (s : Queues Task Outcome) (url : String) (tasks : List Task) (outcomes : List Outcome)
      → AllServed s
      → pending s url ≡ tasks
      → length outcomes ≡ length tasks
      → let s' = run s (map (finishes url) outcomes) in
        (settled_of s' url ≡ settled_of s url ++ pairs tasks outcomes) × (pending s' url ≡ [])
  unfolding run step
  all_settled s url [] [] v p e = (sym (append-nil _), p)
  all_settled s url [] (o ∷ os) v p e = absurd (omega arith)
  all_settled s url (t ∷ ts) [] v p e = absurd (omega arith)
  all_settled s url (t ∷ ts) (o ∷ os) v p e =
      let (l, d) = finish-pending s url o t ts (v url) p in
      let (later, done) =
        all_settled (finish s url o) url ts os (step-AllServed s (finishes url o) v) l
          (omega arith) in
      (later ∙ rw d (append_assoc (settled_of s url) ((t, o) ∷ []) (pairs ts os)), done)
