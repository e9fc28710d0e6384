-- ===== src/Networking/Silence.antt =====
-- core/networking/src/manager.rs: over a run, only connected peers are known and are sent messages.
use rust_eth_playground.Prelude.{
  ℕ, ◌≡◌, refl, ◌∙◌, Option, none, List, [], ◌∷◌, nat_eq, get, IsMap, Bool-cases, inl, inr, arith,
}
use rust_eth_playground.Networking.Connection.{
  Sender, connected, disconnected, message, send_message,
}
use rust_eth_playground.Networking.Manager.{
  Peers, Input, event, events_closed, tick, shutdown, ManagerTurn, step, manage,
}
use rust_eth_playground.Networking.Peers.{sent_to}
use rust_eth_playground.Networking.Registered.{
  registered_by, goes_on, registered, AtMost, step-AtMost, step-silent, step-IsSteady,
}

AtMost-trans : (a b c : Option Sender) → AtMost a b → AtMost b c → AtMost a c
AtMost-trans a b c h k = grind arith

registered_by-AtMost :
    (k : ℕ) (input : Input) (a b : Option Sender)
    → AtMost a b
    → AtMost (registered_by k input a) (registered_by k input b)
registered_by-AtMost k (event (connected id address sender)) a b h = ground arith
registered_by-AtMost k (event (disconnected id)) a b h = ground arith
registered_by-AtMost k (event (message id m)) a b h = h
registered_by-AtMost k (event (send_message id m)) a b h = h
registered_by-AtMost k events_closed a b h = h
registered_by-AtMost k tick a b h = h
registered_by-AtMost k shutdown a b h = inl refl

-- The map of the manager, after any turns, has of each peer what the events say, or nothing.
pub manage-registered :
    (k : ℕ) (turns : List ManagerTurn) (peers : Peers) (now : Option Sender)
    → IsMap peers
    → AtMost (get k peers) now
    → AtMost (get k (manage turns peers).peers) (registered k turns now)
      × IsMap (manage turns peers).peers
unfolding manage
manage-registered k [] peers now h least = (least, h)
manage-registered k (t ∷ turns) peers now h least =
    let (kept, running) = step-IsSteady t.listens t.processor_open t.input peers h in
    let after =
      AtMost-trans (get k (step t peers).peers) (registered_by k t.input (get k peers))
        (registered_by k t.input now) (step-AtMost t.listens t.processor_open k t.input peers h)
        (registered_by-AtMost k t.input (get k peers) now least) in
    elim (Bool-cases (goes_on t.input)) [
      | inl more ↦
          rw (running ∙ more, more)
            (manage-registered k turns (step t peers).peers (registered_by k t.input now) kept
              after)
      | inr over ↦ rw (running ∙ over, over) (after, kept)
    ]

-- After any turns of a manager that starts without peers, a turn sends nothing to a peer that has
-- not connected, or whose last connection has ended.
pub manage_silent :
    (k : ℕ) (before : List ManagerTurn) (t : ManagerTurn)
    → registered k before none ≡ none
    → sent_to k (step t (manage before []).peers).sent ≡ []
unfolding get
manage_silent k before t unknown =
    let (least, kept) = manage-registered k before [] none tt (inl refl) in
    step-silent t.listens t.processor_open k t.input (manage before []).peers kept (grind arith)
