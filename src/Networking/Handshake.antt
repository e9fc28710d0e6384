-- ===== src/Networking/Handshake.antt =====
-- core/networking/src/connection.rs: what the manager hears of a connection.
use rust_eth_playground.Prelude.{
  ℕ, ◌≡◌, ◌⊎◌, inl, inr, refl, ap, ◌∙◌, Bool, true, false, none, some, List, [], ◌∷◌, ◌++◌, map,
  ◌==◌, ==_iff, ok, err, panic, All, Bool-cases, Option-cases,
}
use rust_eth_playground.Types.Primitives.{B256}
use rust_eth_playground.Networking.Message.{
  Message, ping, pong, status, transactions, get_block_headers, new_block, new_block_hashes,
  block_headers, get_account_state, account_state, get_chain_head, chain_head,
}
use rust_eth_playground.Networking.Connection.{
  PeerEvent, connected, disconnected, message, awaiting_status, established, ConnectionContext,
  Selected, framed_next, peer_rx, Turn, Outcome, Next, continues, breaks, panics, greet, turn,
  session, farewell, handle_connection, status_chain_id, joined, follow, stay,
}

-- The messages that the peer sends in some turns.
abbrev pub received_in : Selected → List Message
received_in (framed_next (some (ok m))) = m ∷ []
received_in s = []

abbrev pub received : List Turn → List Message
received [] = []
received (t ∷ turns) = received_in t.selected ++ received turns

-- After the handshake, the manager hears of the first messages of the peer, in their order and
-- before any further status.
pub record Forwards (c : ConnectionContext) (messages : List Message) (events : List PeerEvent)
    : Type 0 where
  pub forwarded : List Message
  pub unheard : List Message
  pub heard : events ≡ map (message c.peer_id) forwarded
  pub in_order : messages ≡ forwarded ++ unheard
  pub no_status : All (λ m. status_chain_id m ≡ none) forwarded

module _ (c : ConnectionContext) where
  nothing_heard : (messages : List Message) → Forwards c messages []
  nothing_heard messages = record {
    forwarded = [];
    unheard = messages;
    heard = refl;
    in_order = refl;
    no_status = tt;
  }

  -- One turn more after the handshake.
  turn-Forwards :
      (t : Turn) (selected : Selected) (turns : List Turn)
      → Forwards c (received turns) (session c established turns).events
      → Forwards c
          (received_in selected ++ received turns)
          (follow
            (turn c established t selected)
            (turn c established t selected).next
            (λ later. session c later turns)).events
  unfolding turn
  turn-Forwards t (framed_next none) turns f = nothing_heard _
  turn-Forwards t (framed_next (some (err e))) turns f = nothing_heard _
  turn-Forwards t (framed_next (some panic)) turns f = nothing_heard _
  turn-Forwards t (peer_rx none) turns f = nothing_heard _
  turn-Forwards t (peer_rx (some m)) turns f = elim (Bool-cases t.peer_open) [
    | inl sent ↦ rw sent (record {
      forwarded = f.forwarded;
      unheard = f.unheard;
      heard = f.heard;
      in_order = f.in_order;
      no_status = f.no_status;
    })
    | inr lost ↦ rw lost (nothing_heard _)
  ]
  turn-Forwards t (framed_next (some (ok m))) turns f = elim (Option-cases (status_chain_id m)) [
    | inr (chain_id, again) ↦ rw again (nothing_heard _)
    | inl plain ↦ elim (Bool-cases t.manager_open) [
      | inl sent ↦
          rw (plain, sent)
            (record {
              forwarded = m ∷ f.forwarded;
              unheard = f.unheard;
              heard = ap (◌∷◌ (message c.peer_id m)) f.heard;
              in_order = ap (◌∷◌ m) f.in_order;
              no_status = (plain, f.no_status);
            })
      | inr lost ↦ rw (plain, lost) (nothing_heard _)
    ]
  ]

  session-Forwards :
      (turns : List Turn) → Forwards c (received turns) (session c established turns).events
  unfolding session
  session-Forwards [] = nothing_heard []
  session-Forwards (t ∷ turns) = turn-Forwards t t.selected turns (session-Forwards turns)

-- A connection that the manager hears of: the peer sent a status with the expected chain id first,
-- was answered with the status of the node, and its later messages are forwarded.
pub record Greeted (c : ConnectionContext) (turns : List Turn) (o : Outcome) : Type 0 where
  pub before : List Turn
  pub greeting : Turn
  pub after : List Turn
  pub head_hash : B256
  pub total_difficulty : ℕ
  pub split : turns ≡ before ++ (greeting ∷ after)
  pub first_message : received before ≡ []
  pub greets :
      greeting.selected
      ≡ framed_next (some (ok (status c.expected_chain_id head_hash total_difficulty)))
  pub sent_later : List Message
  pub answered :
      o.to_peer
      ≡ status c.expected_chain_id greeting.chain_state.hash greeting.chain_state.total_difficulty
        ∷ sent_later
  pub later : List PeerEvent
  pub opened : o.events ≡ connected c.peer_id c.peer_address c.peer_sender ∷ later
  pub forwards : Forwards c (received after) later

status_of :
    (m : Message) (chain_id : ℕ)
    → status_chain_id m ≡ some chain_id
    → (head_hash : B256) × (total_difficulty : ℕ) × (m ≡ status chain_id head_hash total_difficulty)
status_of ping id h = cc
status_of pong id h = cc
status_of (status chain_id head_hash total_difficulty) id h = (head_hash, total_difficulty, cc)
status_of (transactions txs) id h = cc
status_of (get_block_headers start_hash count) id h = cc
status_of (new_block block td) id h = cc
status_of (new_block_hashes new_blocks) id h = cc
status_of (block_headers headers) id h = cc
status_of (Message.disconnect reason) id h = cc
status_of (get_account_state address) id h = cc
status_of (account_state address nonce balance) id h = cc
status_of get_chain_head id h = cc
status_of (chain_head number hash total_difficulty) id h = cc

module _ (c : ConnectionContext) where
  abbrev IsConversation : List Turn → Outcome → Type 0
  IsConversation turns o = (o.events ≡ []) ⊎ Greeted c turns o

  -- A turn in which the peer is still awaited.
  waits :
      (t : Turn) (turns : List Turn) (o : Outcome)
      → received_in t.selected ≡ []
      → IsConversation turns o
      → IsConversation (t ∷ turns) (joined (stay awaiting_status) o)
  waits t turns o silent (inl quiet) = inl quiet
  waits t turns o silent (inr g) = inr (record {
    before = t ∷ g.before;
    greeting = g.greeting;
    after = g.after;
    head_hash = g.head_hash;
    total_difficulty = g.total_difficulty;
    split = ap (◌∷◌ t) g.split;
    first_message = ap (λ ms. ms ++ received g.before) silent ∙ g.first_message;
    greets = g.greets;
    sent_later = g.sent_later;
    answered = g.answered;
    later = g.later;
    opened = g.opened;
    forwards = g.forwards;
  })

  -- The turn of a status.
  greet-IsConversation :
      (t : Turn) (chain_id : ℕ) (head_hash : B256) (total_difficulty : ℕ) (turns : List Turn)
      → t.selected ≡ framed_next (some (ok (status chain_id head_hash total_difficulty)))
      → IsConversation
          (t ∷ turns)
          (follow (greet c t chain_id) (greet c t chain_id).next (λ later. session c later turns))
  unfolding greet
  greet-IsConversation t chain_id head_hash total_difficulty turns same =
      elim (Bool-cases (chain_id == c.expected_chain_id)) [
        | inr wrong ↦ elim (Bool-cases t.peer_open) [
          | inl sent ↦ rw (wrong, sent) (inl refl)
          | inr lost ↦ rw (wrong, lost) (inl refl)
        ]
        | inl right ↦ elim (Bool-cases t.peer_open) [
          | inr lost ↦ rw (right, lost) (inl refl)
          | inl sent ↦ elim (Bool-cases t.manager_open) [
            | inr unheard ↦ rw (right, sent, unheard) (inl refl)
            | inl heard ↦
                simp (right, sent, heard)
                  (inr (record {
                    before = [];
                    greeting = t;
                    after = turns;
                    head_hash = head_hash;
                    total_difficulty = total_difficulty;
                    split = refl;
                    first_message = refl;
                    greets =
                        same
                        ∙ ap (λ n. framed_next (some (ok (status n head_hash total_difficulty))))
                            ((==_iff chain_id c.expected_chain_id).0 right);
                    sent_later = (session c established turns).to_peer;
                    answered = refl;
                    later = (session c established turns).events;
                    opened = refl;
                    forwards = session-Forwards c turns;
                  }))
          ]
        ]
      ]

  turn-IsConversation :
      (t : Turn) (selected : Selected) (turns : List Turn)
      → t.selected ≡ selected
      → IsConversation turns (session c awaiting_status turns)
      → IsConversation (t ∷ turns) (
          follow
            (turn c awaiting_status t selected)
            (turn c awaiting_status t selected).next
            (λ later. session c later turns))
  unfolding turn
  turn-IsConversation t (framed_next none) turns same h = inl refl
  turn-IsConversation t (framed_next (some (err e))) turns same h = inl refl
  turn-IsConversation t (framed_next (some panic)) turns same h = inl refl
  turn-IsConversation t (peer_rx none) turns same h = inl refl
  turn-IsConversation t (peer_rx (some m)) turns same h =
      waits t turns (session c awaiting_status turns) (ap received_in same) h
  turn-IsConversation t (framed_next (some (ok m))) turns same h =
      elim (Option-cases (status_chain_id m)) [
        | inl other ↦ rw other (inl refl)
        | inr (chain_id, it) ↦
            let (head_hash, total_difficulty, made) = status_of m chain_id it in
            rw it (
              greet-IsConversation t chain_id head_hash total_difficulty turns
                (same ∙ ap (λ x. framed_next (some (ok x))) made))
      ]

  session-IsConversation :
      (turns : List Turn) → IsConversation turns (session c awaiting_status turns)
  unfolding session
  session-IsConversation [] = inl refl
  session-IsConversation (t ∷ turns) =
      turn-IsConversation t t.selected turns refl (session-IsConversation turns)

  -- Over any turns of its loop, a connection tells the manager nothing but its end, if that; or the
  -- first message of the peer was a status with the expected chain id, which was answered first
  -- with that of the node, and the manager hears that the peer is connected, then the first of its
  -- later messages in their order, none of them a status, and then at most the end.
  pub handle_connection-Greeted :
      (turns : List Turn) (manager_open : Bool)
      → (end : List PeerEvent) × (handle_connection c turns manager_open
          ≡ (session c awaiting_status turns).events ++ end)
        × ((end ≡ []) ⊎ (end ≡ disconnected c.peer_id ∷ []))
        × (((session c awaiting_status turns).events ≡ [])
            ⊎ Greeted c turns (session c awaiting_status turns))
  unfolding handle_connection
  handle_connection-Greeted turns manager_open =
      let o = session c awaiting_status turns in
      (farewell c manager_open o.next, refl, ends manager_open o.next, session-IsConversation turns)
    where
      ends :
          (b : Bool) (next : Next)
          → (farewell c b next ≡ []) ⊎ (farewell c b next ≡ disconnected c.peer_id ∷ [])
      ends true breaks = inr refl
      ends false breaks = inl refl
      ends true panics = inl refl
      ends false panics = inl refl
      ends true (continues state) = inl refl
      ends false (continues state) = inl refl
