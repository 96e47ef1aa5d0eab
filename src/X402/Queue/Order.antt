-- ===== src/X402/Queue/Order.antt =====
-- client/src/main/x402Client.ts: the queue of a gateway is served in order, one task at a time, and
-- loses nothing.
use umbra_gateway.Prelude.{
  String, Bool, true, false, Option, none, some, List, [], ◌∷◌, ◌++◌, map, is_some, if◌then◌else◌,
  ◌≡◌, refl, ap, ◌∙◌, sym, inl, inr, Bool-cases, Option-cases, arith,
}
use mathlib.Core.List.{append_assoc, append-nil}
use umbra_gateway.Prelude.Map
use umbra_gateway.Prelude.Map.{Map, map_laws, get-set, get-delete, get-empty}
use umbra_gateway.Prelude.Text.{===_iff, ===_refl, ◌===◌}
use umbra_gateway.X402.Queue.{
  Queues, Event, enqueues, finishes, start, queue_of, settled_of, next_item, loop, drain_queue,
  enqueue, settle, finish, step, run,
}

abbrev pub as_list : {Task : Type 0} → Option Task → List Task
as_list none = []
as_list (some t) = t ∷ []

handed-cons :
    {Task : Type 0} (b : Bool) (task : Task) (before rest : List Task)
    → (if b then before ++ task ∷ [] else before) ++ rest
      ≡ before ++ (if b then task ∷ rest else rest)
handed-cons true task before rest = append_assoc before (task ∷ []) rest
handed-cons false task before rest = refl

module _ {Task Outcome : Type 0} where
  -- The loop of a gateway runs exactly while it awaits a task, and a queue with entries has a loop.
  pub record IsServed (s : Queues Task Outcome) (url : String) : Type 0 where
    pub awaits : is_some (Map.get s.running url) ≡ is_some (Map.get s.draining url)
    pub serves : is_some (Map.get s.draining url) ≡ false → queue_of s url ≡ []

  -- all tasks of a gateway, in the order in which they are served
  abbrev pub tasks_of : Queues Task Outcome → String → List Task
  tasks_of s url =
      map (λ p. p.0) (settled_of s url) ++ (as_list (Map.get s.running url) ++ queue_of s url)

  -- the tasks that a run hands to a gateway, in order
  abbrev pub handed : String → List (Event Task Outcome) → List Task
  handed url [] = []
  handed url (enqueues url' task ∷ es) =
      if url' === url then task ∷ handed url es else handed url es
  handed url (finishes url' outcome ∷ es) = handed url es

  enqueue-IsServed :
      (s : Queues Task Outcome) (url url' : String) (task : Task)
      → IsServed s url
      → IsServed s url'
      → IsServed (enqueue s url' task) url
  unfolding enqueue drain_queue loop next_item
  enqueue-IsServed s url url' task v v' = grind (arith, get-set, get-delete, ===_iff)

  finish-IsServed :
      (s : Queues Task Outcome) (url url' : String) (outcome : Outcome)
      → IsServed s url
      → IsServed (finish s url' outcome) url
  unfolding finish settle loop next_item
  finish-IsServed s url url' outcome v = grind (arith, get-set, get-delete, ===_iff)

  settled-append :
      (done : List (Task × Outcome)) (item : Task) (outcome : Outcome) (rest : List Task)
      → map (λ p. p.0) (done ++ (item, outcome) ∷ []) ++ rest ≡ map (λ p. p.0) done ++ (item ∷ rest)
  settled-append [] item outcome rest = refl
  settled-append (p ∷ done) item outcome rest = ap (◌∷◌ p.0) (settled-append done item outcome rest)

  loop_self :
      (s : Queues Task Outcome) (url : String)
      → Map.get s.running url ≡ none
      → tasks_of (loop s url) url ≡ tasks_of s url
  unfolding loop
  loop_self s url idle = rw idle (go (queue_of s url) refl)
    where
      go :
          (q : List Task)
          → queue_of s url ≡ q
          → tasks_of (next_item q s url) url ≡ map (λ p. p.0) (settled_of s url) ++ queue_of s url
      go [] e = unfold next_item in rw idle
      go (item ∷ rest) e = unfold next_item in simp (map_laws, ===_refl) (rw e)

  loop_ne :
      (s : Queues Task Outcome) (url url' : String)
      → (url' === url) ≡ false
      → tasks_of (loop s url') url ≡ tasks_of s url
  unfolding loop
  loop_ne s url url' ne = go (queue_of s url')
    where
      go : (q : List Task) → tasks_of (next_item q s url') url ≡ tasks_of s url
      go [] = unfold next_item in refl
      go (item ∷ rest) = unfold next_item in simp (map_laws, ne)

  finish_self :
      (s : Queues Task Outcome) (url : String) (outcome : Outcome) (item : Task)
      → Map.get s.running url ≡ some item
      → tasks_of (finish s url outcome) url ≡ tasks_of s url
  unfolding finish
  finish_self s url outcome item awaited = rw awaited (
      loop_self _ url (simp (map_laws, ===_refl))
      ∙ simp (map_laws, ===_refl) (settled-append _ item outcome _))

  tasks_of-finish :
      (s : Queues Task Outcome) (url url' : String) (outcome : Outcome)
      → tasks_of (finish s url' outcome) url ≡ tasks_of s url
  unfolding finish
  tasks_of-finish s url url' outcome = elim (Option-cases (Map.get s.running url')) [
    | inl idle ↦ rw idle
    | inr (item, awaited) ↦ elim (Bool-cases (url' === url)) [
      | inl same ↦
          let e = (===_iff url' url).0 same in
          rw e (finish_self s url outcome item (rw e at awaited))
      | inr other ↦ rw awaited (loop_ne _ url url' other ∙ simp (map_laws, other))
    ]
  ]

  enqueue_self :
      (s : Queues Task Outcome) (url : String) (task : Task)
      → IsServed s url
      → tasks_of (enqueue s url task) url ≡ tasks_of s url ++ task ∷ []
  unfolding enqueue drain_queue
  enqueue_self s url task v = elim (Bool-cases (is_some (Map.get s.draining url))) [
    | inl busy ↦ rw busy (simp (map_laws, ===_refl, append_assoc))
    | inr free ↦ rw free (
        loop_self _ url (idle (Map.get s.running url) (v.awaits ∙ free))
        ∙ simp (map_laws, ===_refl, append_assoc))
  ]
    where
      idle : (o : Option Task) → is_some o ≡ false → o ≡ none
      idle none e = refl
      idle (some t) e = cc

  enqueue_ne :
      (s : Queues Task Outcome) (url url' : String) (task : Task)
      → (url' === url) ≡ false
      → tasks_of (enqueue s url' task) url ≡ tasks_of s url
  unfolding enqueue drain_queue
  enqueue_ne s url url' task ne = elim (Bool-cases (is_some (Map.get s.draining url'))) [
    | inl busy ↦ rw busy (simp (map_laws, ne))
    | inr free ↦ rw free (loop_ne _ url url' ne ∙ simp (map_laws, ne))
  ]

  tasks_of-enqueue :
      (s : Queues Task Outcome) (url url' : String) (task : Task)
      → IsServed s url'
      → tasks_of (enqueue s url' task) url
        ≡ (if url' === url then tasks_of s url ++ task ∷ [] else tasks_of s url)
  tasks_of-enqueue s url url' task v = elim (Bool-cases (url' === url)) [
    | inl same ↦
        let e = (===_iff url' url).0 same in rw same (rw e (enqueue_self s url task (rw e at v)))
    | inr other ↦ rw other (enqueue_ne s url url' task other)
  ]

  abbrev pub AllServed : Queues Task Outcome → Type 0
  AllServed s = (url : String) → IsServed s url

  pub step-AllServed :
      (s : Queues Task Outcome) (e : Event Task Outcome) → AllServed s → AllServed (step s e)
  unfolding step
  step-AllServed s (enqueues url' task) v url = enqueue-IsServed s url url' task (v url) (v url')
  step-AllServed s (finishes url' outcome) v url = finish-IsServed s url url' outcome (v url)

  -- From any state in which every gateway is served, whatever steps follow and for every gateway:
  -- its tasks settled, awaited and queued are, in this order, those of before followed by those
  -- handed over since, in the order of the calls; and its loop runs exactly while it awaits a task,
  -- and always when tasks are queued.
  pub run_in_order :
      (s : Queues Task Outcome) (es : List (Event Task Outcome)) (url : String)
      → AllServed s
      → (tasks_of (run s es) url ≡ tasks_of s url ++ handed url es) × IsServed (run s es) url
  unfolding run step
  run_in_order s [] url v = (sym (append-nil _), v url)
  run_in_order s (enqueues url' task ∷ es) url v =
      let (order, served) =
        run_in_order (enqueue s url' task) es url (step-AllServed s (enqueues url' task) v) in
      (
        order
            ∙ ap (λ l. l ++ handed url es) (tasks_of-enqueue s url url' task (v url'))
            ∙ handed-cons (url' === url) task (tasks_of s url) (handed url es),
        served,
      )
  run_in_order s (finishes url' outcome ∷ es) url v =
      let (order, served) =
        run_in_order (finish s url' outcome) es url (step-AllServed s (finishes url' outcome) v) in
      (order ∙ ap (λ l. l ++ handed url es) (tasks_of-finish s url url' outcome), served)

  pub start-AllServed : AllServed start
  unfolding start
  start-AllServed url = record { awaits = simp map_laws; serves = λ e. simp map_laws }
