-- ===== src/Gateway/Topics.antt =====
-- src/server.ts, Topic broadcast: subscriptions and retained payloads.
use zclaudia_gateway.Prelude.{
  ℕ, String, Bool, true, false, not, leb, nat_eq, ◌==◌, ◌<>◌, ◌&&◌, if◌then◌else◌, includes, get_or,
  Option, none, some, List, [], ◌∷◌, ◌++◌, filter,
}
use zclaudia_gateway.Json.{Json}
use zclaudia_gateway.Map.{Map, get, set, delete, has, size, map_entries}
use zclaudia_gateway.State.{PeerSession}
use zclaudia_gateway.Gateway.{
  Gateway, send, gateway_error, invalid_message, backend_offline, topic_subscribed,
  topic_unsubscribed, topic_message, emit, send_to_session,
}
use zclaudia_gateway.Gateway.Scope.{peer_reaches}

abbrev pub max_retained_topics_per_backend : ℕ
max_retained_topics_per_backend = 64

-- `subs.add(id)` on a set
abbrev pub add_to_set : String → List String → List String
add_to_set id ids = if includes ids id then ids else ids ++ id ∷ []

abbrev pub without : String → List String → List String
without id = filter (λ x. not (x == id))

-- the subscriptions with this peer among those of the topic
abbrev pub subscribed : String → String → String → Map (Map (List String)) → Map (Map (List String))
subscribed backend_id topic id subs =
    let topics = get_or [] (get backend_id subs) in
    set backend_id (set topic (add_to_set id (get_or [] (get topic topics))) topics) subs

abbrev pub retained_payload : String → String → Gateway → Option Json
retained_payload backend_id topic g = elim (get backend_id g.retained_topics) [
  | none ↦ none
  | some topics ↦ get topic topics
]

abbrev pub send_retained : PeerSession → String → String → Option Json → Gateway → Gateway
send_retained peer backend_id topic none g = g
send_retained peer backend_id topic (some payload) g =
    emit (send peer.ws (topic_message backend_id topic (some payload))) g

unfoldable pub handle_topic_subscribe :
    PeerSession → (backend_id topic : String) → Gateway → Gateway
handle_topic_subscribe peer backend_id topic g =
    let offline =
      emit
        (send peer.ws
          (gateway_error backend_offline ("Backend " <> backend_id <> " not found or offline")))
        g in
    if not (nat_eq peer.protocol_version 4)
    then emit (send peer.ws (gateway_error invalid_message "topic_subscribe requires protocol v4"))
        g
    else elim (get backend_id g.state.registry) [
      | none ↦ offline
      | some presence ↦
          if peer_reaches peer presence
          then send_retained peer backend_id topic (retained_payload backend_id topic g) (
              emit (send peer.ws (topic_subscribed backend_id topic)) (record g {
                topic_subs = subscribed backend_id topic peer.peer_session_id g.topic_subs;
              }))
          else offline
    ]

-- `topicSubs.get(backendId)?.get(topic)?.delete(id)`
abbrev pub unsubscribed :
    String → String → String → Map (Map (List String)) → Map (Map (List String))
unsubscribed backend_id topic id subs = elim (get backend_id subs) [
  | none ↦ subs
  | some topics ↦ elim (get topic topics) [
    | none ↦ subs
    | some ids ↦ set backend_id (set topic (without id ids) topics) subs
  ]
]

unfoldable pub handle_topic_unsubscribe :
    PeerSession → (backend_id topic : String) → Gateway → Gateway
handle_topic_unsubscribe peer backend_id topic g =
    emit (send peer.ws (topic_unsubscribed backend_id topic))
      (record g { topic_subs = unsubscribed backend_id topic peer.peer_session_id g.topic_subs })

-- A publication's payload is kept, unless that would be one topic too many.
unfoldable pub retain : (backend_id topic : String) → Json → Gateway → Gateway
retain backend_id topic payload g =
    let topics = get_or [] (get backend_id g.retained_topics) in
    if leb max_retained_topics_per_backend (size topics) && not (has topic topics)
    then record g { retained_topics = set backend_id topics g.retained_topics }
    else record g { retained_topics = set backend_id (set topic payload topics) g.retained_topics }

unfoldable pub retain_if : Bool → Option Json → (backend_id topic : String) → Gateway → Gateway
unfolding retain
retain_if true (some payload) backend_id topic g = retain backend_id topic payload g
retain_if _ none backend_id topic g = g
retain_if false payload backend_id topic g = g

abbrev pub subscribers : String → String → Gateway → List String
subscribers backend_id topic g = elim (get backend_id g.topic_subs) [
  | none ↦ []
  | some topics ↦ get_or [] (get topic topics)
]

unfoldable pub fan_out : (backend_id topic : String) → Option Json → List String → Gateway → Gateway
unfolding send_to_session
fan_out backend_id topic payload [] g = g
fan_out backend_id topic payload (id ∷ ids) g =
    fan_out backend_id topic payload ids
      (send_to_session id (topic_message backend_id topic payload) g)

-- `isCurrentBackendOwner` holds the lease of the backend and its epoch: the backend it owns.
unfoldable pub owned_backend : PeerSession → Gateway → Option String
owned_backend peer g = elim peer.backend_id [
  | none ↦ none
  | some b ↦ elim peer.epoch [
    | none ↦ none
    | some epoch ↦ elim (get b g.state.leases) [
      | none ↦ none
      | some lease ↦
          if (lease.peer_session_id == peer.peer_session_id) && nat_eq lease.epoch epoch
          then some b
          else none
    ]
  ]
]

unfoldable pub handle_topic_publish :
    PeerSession → (topic : String) → (payload : Option Json) → (retain : Bool) → Gateway → Gateway
unfolding owned_backend retain_if fan_out
handle_topic_publish peer topic payload keep g = elim (owned_backend peer g) [
  | none ↦ g
  | some b ↦
      let g' = retain_if keep payload b topic g in
      fan_out b topic payload (subscribers b topic g') g'
]

unfoldable pub remove_topic_subscriptions_for_peer : String → Gateway → Gateway
remove_topic_subscriptions_for_peer id g = record g {
  topic_subs = map_entries (λ _ topics. map_entries (λ _ ids. without id ids) topics) g.topic_subs;
}

unfoldable pub remove_topics_for_backend : String → Gateway → Gateway
remove_topics_for_backend backend_id g = record g {
  topic_subs = delete backend_id g.topic_subs;
  retained_topics = delete backend_id g.retained_topics;
}
