-- ===== src/Gateway/Frame.antt =====
-- What the operations on channels and the broadcasts leave as it was.
use mathlib.Core.List.{Memᴰ}
use text.Mathlib.TextEquality.{eq_iff}
use zclaudia_gateway.Prelude.{
  String, Bool, true, false, ◌==◌, if◌then◌else◌, option_eq, Option, none, some, List, [], ◌∷◌,
  subst, some-injective, ◌&&◌, ◌≡◌, ◌⊎◌, refl, sym, ap, ◌∙◌, arith, inl, inr, Option-cases,
  Bool-cases, text-cases,
}
use zclaudia_gateway.Map.{Map, get, set, delete, values, Distinct}
use zclaudia_gateway.Map.Laws.{Every, get-delete, delete-Distinct}
use zclaudia_gateway.State.{PeerSession, BackendPresence}
use zclaudia_gateway.Gateway.{
  Gateway, Outbound, ClosedReason, ChannelRecord, ResponseState, send_to_session, emit, send,
  registry_snapshot, channel_closed,
}
use zclaudia_gateway.Gateway.Scope.{
  visible_registry, broadcast_from, broadcast_registry_snapshot, scope_key,
}
use zclaudia_gateway.Gateway.Channels.{
  delete_tickets, fail_response, fail_with, close_socket, teardown_channel, teardown_where,
}

-- `x` with the calls of `k`; with the responses too; with the channels and tickets too
abbrev pub with_calls : Gateway → Gateway → Gateway
with_calls k x = record x { out = k.out }

abbrev pub with_responses : Gateway → Gateway → Gateway
with_responses k x = record x { responses = k.responses; out = k.out }

abbrev pub with_channels : Gateway → Gateway → Gateway
with_channels k x = record x {
  channels = k.channels;
  channel_tickets = k.channel_tickets;
  responses = k.responses;
  out = k.out;
}

-- `g'` differs from `g` in the calls made only.
abbrev pub Calls : Gateway → Gateway → Type 0
Calls g g' = g' ≡ with_calls g' g

-- `g'` differs from `g` in the HTTP responses and the calls made only.
abbrev pub Responds : Gateway → Gateway → Type 0
Responds g g' = g' ≡ with_responses g' g

-- `g'` differs from `g` in its channels, tickets and responses, and the calls made.
abbrev pub Closes : Gateway → Gateway → Type 0
Closes g g' = g' ≡ with_channels g' g

pub Calls-trans : (g h k : Gateway) → Calls g h → Calls h k → Calls g k
Calls-trans g h k p q = q ∙ ap (with_calls k) p

Responds-trans : (g h k : Gateway) → Responds g h → Responds h k → Responds g k
Responds-trans g h k p q = q ∙ ap (with_responses k) p

Responds-of_Calls : (g h : Gateway) → Calls g h → Responds g h
Responds-of_Calls g h p =
    p ∙ ap (λ r. record (with_calls h g) { responses = r }) (sym (ap (λ x. x.responses) p))

pub Closes-trans : (g h k : Gateway) → Closes g h → Closes h k → Closes g k
Closes-trans g h k p q = q ∙ ap (with_channels k) p

pub send_to_session-Calls :
    (id : String) (m : Outbound) (g : Gateway) → Calls g (send_to_session id m g)
unfolding send_to_session
send_to_session-Calls id m g = elim (Option-cases (get id g.state.peers)) [
  | inl e ↦ rw (e, send_to_session) refl
  | inr (p, e) ↦ rw (e, send_to_session) refl
]

broadcast_from-Calls :
    (exclude : Option String) (per_scope : Map (List BackendPresence)) (peers : List PeerSession)
    (g : Gateway)
    → Calls g (broadcast_from exclude per_scope peers g)
unfolding broadcast_from
broadcast_from-Calls exclude per_scope [] g = refl
broadcast_from-Calls exclude per_scope (peer ∷ peers) g =
    elim (Bool-cases (option_eq exclude peer.peer_session_id)) [
      | inl e ↦ rw e (broadcast_from-Calls exclude per_scope peers g)
      | inr e ↦ rw e (elim (Option-cases (get (scope_key peer) per_scope)) [
        | inl n ↦
            let items = visible_registry g.state peer in
            rw (n, broadcast_from)
              (broadcast_from-Calls exclude (set (scope_key peer) items per_scope) peers
                (emit (send peer.ws (registry_snapshot items)) g))
        | inr (items, f) ↦
            rw (f, broadcast_from)
              (broadcast_from-Calls exclude per_scope peers
                (emit (send peer.ws (registry_snapshot items)) g))
      ])
    ]

pub broadcast-Calls :
    (exclude : Option String) (g : Gateway) → Calls g (broadcast_registry_snapshot exclude g)
unfolding broadcast_registry_snapshot
broadcast-Calls exclude g = broadcast_from-Calls exclude [] (values g.state.peers) g

fail_with-Responds :
    (reason : ClosedReason) (res : String) (state : ResponseState) (g : Gateway)
    → Responds g (fail_with reason res state g)
fail_with-Responds reason res state g = elim (Bool-cases state.headers_sent) [
  | inl e ↦ rw e (elim (Bool-cases state.ended) [ inl f ↦ rw f refl | inr f ↦ rw f refl ])
  | inr e ↦ rw e refl
]

fail_response-Responds :
    (reason : ClosedReason) (res : Option String) (g : Gateway)
    → Responds g (fail_response reason res g)
unfolding fail_response
fail_response-Responds reason none g = refl
fail_response-Responds reason (some res) g = elim (Option-cases (get res g.responses)) [
  | inl e ↦ rw (e, fail_response) refl
  | inr (state, e) ↦ rw (e, fail_response) (fail_with-Responds reason res state g)
]

close_socket-Calls :
    (ws : Option String) (reason : ClosedReason) (g : Gateway) → Calls g (close_socket ws reason g)
unfolding close_socket
close_socket-Calls none reason g = refl
close_socket-Calls (some ws) reason g = refl

-- what a teardown does after the record and its tickets are gone
rest_of_teardown-Responds :
    (id : String) (reason : ClosedReason) (ch : ChannelRecord) (g : Gateway)
    → Responds g (
        send_to_session ch.backend_peer_session_id (channel_closed id reason) (
          send_to_session ch.client_peer_session_id (channel_closed id reason) (
            close_socket ch.backend_socket reason
              (close_socket ch.client_socket reason (fail_response reason ch.internal_res g)))))
rest_of_teardown-Responds id reason ch g =
    let m = channel_closed id reason in
    let g₁ = fail_response reason ch.internal_res g in
    let g₂ = close_socket ch.client_socket reason g₁ in
    let g₃ = close_socket ch.backend_socket reason g₂ in
    let g₄ = send_to_session ch.client_peer_session_id m g₃ in
    let g₅ = send_to_session ch.backend_peer_session_id m g₄ in
    let sent =
      Calls-trans g₃ g₄ g₅ (send_to_session-Calls ch.client_peer_session_id m g₃)
        (send_to_session-Calls ch.backend_peer_session_id m g₄) in
    let called =
      Calls-trans g₁ g₃ g₅
        (Calls-trans g₁ g₂ g₃ (close_socket-Calls ch.client_socket reason g₁)
          (close_socket-Calls ch.backend_socket reason g₂))
        sent in
    Responds-trans g g₁ g₅ (fail_response-Responds reason ch.internal_res g)
      (Responds-of_Calls g₁ g₅ called)

-- the gateway without the channel and its tickets
abbrev without_channel : String → ChannelRecord → Gateway → Gateway
without_channel id ch g = record g {
  channels = delete id g.channels;
  channel_tickets = delete_tickets ch.ticket_tokens g.channel_tickets;
}

-- A teardown of a channel that is not there does nothing; another takes the channel and its
-- tickets away, and then changes responses and makes calls only.
pub teardown_lem :
    (id : String) (reason : ClosedReason) (g : Gateway)
    → ((get id g.channels ≡ none) × (teardown_channel id reason g ≡ g))
      ⊎ ((ch : ChannelRecord) × (get id g.channels ≡ some ch)
          × Responds (without_channel id ch g) (teardown_channel id reason g))
unfolding teardown_channel
teardown_lem id reason g = elim (Option-cases (get id g.channels)) [
  | inl e ↦ inl (e, rw (e, teardown_channel) refl)
  | inr (ch, e) ↦ inr (
    ch,
    e,
    rw (e, teardown_channel) (rest_of_teardown-Responds id reason ch (without_channel id ch g)),
  )
]

abbrev mixed : Gateway → Gateway → Gateway → Gateway
mixed k g x = record g {
  channels = x.channels;
  channel_tickets = x.channel_tickets;
  responses = k.responses;
  out = k.out;
}

pub teardown-Closes :
    (id : String) (reason : ClosedReason) (g : Gateway) → Closes g (teardown_channel id reason g)
teardown-Closes id reason g = elim (teardown_lem id reason g) [
  | inl (_, e) ↦ rw e refl
  | inr (ch, _, p) ↦ p ∙ sym (ap (mixed (teardown_channel id reason g) g) p)
]

absent :
    (id j : String) (m : Map ChannelRecord)
    → get id m ≡ none
    → get j m ≡ (if id == j then none else get j m)
absent id j m n = elim (text-cases id j) [ inl (p, e) ↦ rw e (rw (← p) n) | inr (p, e) ↦ rw e refl ]

-- After a teardown the other channels are as they were, and this one is gone.
pub get-teardown :
    (id j : String) (reason : ClosedReason) (g : Gateway)
    → get j (teardown_channel id reason g).channels ≡ (if id == j then none else get j g.channels)
get-teardown id j reason g = elim (teardown_lem id reason g) [
  | inl (n, e) ↦ rw e (absent id j g.channels n)
  | inr (ch, _, p) ↦ ap (λ x. get j x.channels) p ∙ get-delete id j g.channels
]

pub teardown-Distinct :
    (id : String) (reason : ClosedReason) (g : Gateway)
    → Distinct g.channels
    → Distinct (teardown_channel id reason g).channels
teardown-Distinct id reason g d = elim (teardown_lem id reason g) [
  | inl (n, e) ↦ rw e d
  | inr (ch, _, p) ↦ subst Distinct (sym (ap (λ x. x.channels) p)) (delete-Distinct id g.channels d)
]

-- one round of the loops that tear channels down
abbrev closing : Bool → String → ClosedReason → Gateway → Gateway
closing b id reason g = if b then teardown_channel id reason g else g

closing-Closes :
    (b : Bool) (id : String) (reason : ClosedReason) (g : Gateway)
    → Closes g (closing b id reason g)
closing-Closes true id reason g = teardown-Closes id reason g
closing-Closes false id reason g = refl

closing-Distinct :
    (b : Bool) (id : String) (reason : ClosedReason) (g : Gateway)
    → Distinct g.channels
    → Distinct (closing b id reason g).channels
closing-Distinct true id reason g d = teardown-Distinct id reason g d
closing-Distinct false id reason g d = d

get-closing :
    (b : Bool) (id j : String) (reason : ClosedReason) (g : Gateway)
    → get j (closing b id reason g).channels ≡ (if b && (id == j) then none else get j g.channels)
get-closing true id j reason g = get-teardown id j reason g
get-closing false id j reason g = refl

module _ (test : ChannelRecord → Bool) (reason : ClosedReason) where
  pub teardown_where-Closes :
      (cs : List ChannelRecord) (g : Gateway) → Closes g (teardown_where test reason cs g)
  unfolding teardown_where
  teardown_where-Closes [] g = refl
  teardown_where-Closes (c ∷ cs) g =
      let g' = closing (test c) c.channel_id reason g in
      Closes-trans g g' (teardown_where test reason cs g')
        (closing-Closes (test c) c.channel_id reason g) (teardown_where-Closes cs g')

  pub teardown_where-Distinct :
      (cs : List ChannelRecord) (g : Gateway)
      → Distinct g.channels
      → Distinct (teardown_where test reason cs g).channels
  unfolding teardown_where
  teardown_where-Distinct [] g d = d
  teardown_where-Distinct (c ∷ cs) g d =
      teardown_where-Distinct cs (closing (test c) c.channel_id reason g)
        (closing-Distinct (test c) c.channel_id reason g d)

  -- no channel is added or changed by the loop
  pub teardown_where-kept :
      (cs : List ChannelRecord) (g : Gateway) (j : String) (ch : ChannelRecord)
      → get j (teardown_where test reason cs g).channels ≡ some ch
      → get j g.channels ≡ some ch
  unfolding teardown_where
  teardown_where-kept [] g j ch h = h
  teardown_where-kept (c ∷ cs) g j ch h =
      let g' = closing (test c) c.channel_id reason g in
      still (test c && (c.channel_id == j)) (get j g.channels)
        (sym (get-closing (test c) c.channel_id j reason g) ∙ teardown_where-kept cs g' j ch h)
    where
      still :
          (b : Bool) (o : Option ChannelRecord) → (if b then none else o) ≡ some ch → o ≡ some ch
      still true o e = absurd (cc)
      still false o e = e

  -- a channel that is gone stays gone
  teardown_where-gone :
      (cs : List ChannelRecord) (g : Gateway) (j : String)
      → get j g.channels ≡ none
      → get j (teardown_where test reason cs g).channels ≡ none
  teardown_where-gone cs g j h =
      elim (Option-cases (get j (teardown_where test reason cs g).channels)) [
        | inl e ↦ e
        | inr (ch, e) ↦ let found = teardown_where-kept cs g j ch e in absurd (cc)
      ]

  -- a channel of the list that passes the test is gone after the loop
  pub teardown_where-removed :
      (cs : List ChannelRecord) (g : Gateway) (ch : ChannelRecord)
      → Memᴰ ch cs
      → test ch ≡ true
      → get ch.channel_id (teardown_where test reason cs g).channels ≡ none
  unfolding teardown_where
  teardown_where-removed [] g ch m h = elim m [ ]
  teardown_where-removed (c ∷ cs) g ch (Memᴰ.head p) h =
      teardown_where-gone cs (closing (test c) c.channel_id reason g) ch.channel_id (
        get-closing (test c) c.channel_id ch.channel_id reason g
        ∙ ground (arith, ap test p, eq_iff c.channel_id ch.channel_id))
  teardown_where-removed (c ∷ cs) g ch (Memᴰ.tail m) h =
      teardown_where-removed cs (closing (test c) c.channel_id reason g) ch m h

-- the values of a map hold what a lookup finds
pub values_found {ℓ} :
    {A : Type ℓ} (k : String) (v : A) (m : Map A) → get k m ≡ some v → Memᴰ v (values m)
unfolding get
values_found k v [] h = absurd (cc)
values_found k v ((j, w) ∷ m) h = elim (Bool-cases (j == k)) [
  | inl e ↦ Memᴰ.head (some-injective v w (sym h ∙ ground arith))
  | inr e ↦ Memᴰ.tail (values_found k v m (ground arith))
]

-- A loop over all the channels leaves exactly those that fail the test.
pub get-teardown_all :
    (test : ChannelRecord → Bool) (reason : ClosedReason) (g : Gateway) (j : String)
    (ch : ChannelRecord)
    → Every (λ id c. c.channel_id ≡ id) g.channels
    → get j (teardown_where test reason (values g.channels) g).channels ≡ some ch
    → (get j g.channels ≡ some ch) × (test ch ≡ false)
get-teardown_all test reason g j ch keyed h =
    let found = teardown_where-kept test reason (values g.channels) g j ch h in
    elim (Bool-cases (test ch)) [
      | inr e ↦ (found, e)
      | inl e ↦
          let gone =
            teardown_where-removed test reason (values g.channels) g ch
              (values_found j ch g.channels found) e in
          let here =
            subst (λ k. get k (teardown_where test reason (values g.channels) g).channels ≡ none)
              (keyed j ch found) gone in
          absurd (cc)
    ]
