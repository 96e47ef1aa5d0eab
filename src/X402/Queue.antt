-- ===== src/X402/Queue.antt =====
-- client/src/main/x402Client.ts: the serial queue of each gateway. `drainQueue` gives control back
-- only where it awaits a task, so the program moves in two kinds of steps: a call of `enqueue`, and
-- the end of the task that a loop awaits. Tasks and their outcomes are abstract.
pub mod Order
pub mod Liveness
pub mod Examples
use umbra_gateway.Prelude.{
  String, Option, none, some, List, [], ◌∷◌, ◌++◌, get_or, is_some, if◌then◌else◌,
}
use umbra_gateway.Prelude.Map
use umbra_gateway.Prelude.Map.{Map}

module _ (Task Outcome : Type 0) where
  -- `running` is the task that the loop of a gateway awaits; `settled` are the promises resolved or
  -- rejected so far, the oldest first.
  pub record Queues : Type 0 where
    pub queues : Map (List Task)
    pub draining : Map (Unit {0})
    pub running : Map Task
    pub settled : Map (List (Task × Outcome))

  pub data Event : Type 0 where
    enqueues : String → Task → Event
    finishes : String → Outcome → Event

module _ {Task Outcome : Type 0} where
  unfoldable pub start : Queues Task Outcome
  unfolding Map.empty
  start = record {
    queues = Map.empty;
    draining = Map.empty;
    running = Map.empty;
    settled = Map.empty;
  }

  abbrev pub queue_of : Queues Task Outcome → String → List Task
  queue_of s url = get_or (Map.get s.queues url) []

  abbrev pub settled_of : Queues Task Outcome → String → List (Task × Outcome)
  settled_of s url = get_or (Map.get s.settled url) []

  -- The loop of `drainQueue`, from its test to the next await or to its end.
  next_item : List Task → Queues Task Outcome → String → Queues Task Outcome
  next_item [] s url = record s { draining = Map.delete s.draining url }
  next_item (item ∷ rest) s url = record s {
    queues = Map.set s.queues url rest;
    running = Map.set s.running url item;
  }

  pub loop : Queues Task Outcome → String → Queues Task Outcome
  unfolding next_item
  loop s url = next_item (queue_of s url) s url

  pub drain_queue : Queues Task Outcome → String → Queues Task Outcome
  unfolding loop
  drain_queue s url = loop (record s { draining = Map.set s.draining url tt }) url

  pub enqueue : Queues Task Outcome → String → Task → Queues Task Outcome
  unfolding drain_queue
  enqueue s url task =
      let s' : Queues Task Outcome = record s {
        queues = Map.set s.queues url (queue_of s url ++ task ∷ []);
      } in
      if is_some (Map.get s'.draining url) then s' else drain_queue s' url

  settle : Option Task → Queues Task Outcome → String → Outcome → Queues Task Outcome
  settle none s url outcome = s
  settle (some item) s url outcome =
      loop
        (record s {
          running = Map.delete s.running url;
          settled = Map.set s.settled url (settled_of s url ++ (item, outcome) ∷ []);
        })
        url

  -- The awaited task ends: its promise is settled, and the loop goes on. Without an awaited task
  -- there is nothing that could end.
  pub finish : Queues Task Outcome → String → Outcome → Queues Task Outcome
  unfolding settle loop
  finish s url outcome = settle (Map.get s.running url) s url outcome

  pub step : Queues Task Outcome → Event Task Outcome → Queues Task Outcome
  step s (enqueues url task) = enqueue s url task
  step s (finishes url outcome) = finish s url outcome

  pub run : Queues Task Outcome → List (Event Task Outcome) → Queues Task Outcome
  run s [] = s
  run s (e ∷ es) = run (step s e) es
