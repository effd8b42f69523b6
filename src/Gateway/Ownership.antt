-- ===== src/Gateway/Ownership.antt =====
-- src/server.ts, Lease & Cleanup: the ways in which a peer stops being its backend's owner.
use zclaudia_gateway.Prelude.{
  ℕ, ◌+◌, String, Bool, ltb, leb, get_or, length, filter, Option, none, some, List, [], ◌∷◌, ◌++◌,
}
use zclaudia_gateway.Map.{get, set, delete, update}
use zclaudia_gateway.Storage.Identities.{touch_backend_identity}
use zclaudia_gateway.State.{PeerSession, registry_remove, remove_backend, remove_lease, remove_peer}
use zclaudia_gateway.Gateway.{
  Gateway, close, terminate_after, terminate, emit, offline, epoch_changed,
}
use zclaudia_gateway.Gateway.Scope.{broadcast_registry_snapshot}
use zclaudia_gateway.Gateway.Channels.{close_channels_for_backend, close_channels_for_peer}
use zclaudia_gateway.Gateway.Topics.{
  owned_backend, remove_topics_for_backend, remove_topic_subscriptions_for_peer,
}

unfoldable pub unregister_recovery_token : PeerSession → Gateway → Gateway
unregister_recovery_token peer g = record g {
  recovery_tokens = delete peer.recovery_token g.recovery_tokens;
}

-- `peer.backendId = undefined; peer.epoch = undefined`
abbrev pub disowned : PeerSession → PeerSession
disowned peer = record peer { backend_id = none; epoch = none }

abbrev pub disown_peer : String → Gateway → Gateway
disown_peer id g = record g {
  state = record (g.state) { peers = update id disowned g.state.peers };
}

abbrev pub drop_peer : String → Gateway → Gateway
unfolding remove_peer
drop_peer id g = record g { state = (remove_peer id g.state).0 }

abbrev pub drop_registration : String → Gateway → Gateway
unfolding registry_remove
drop_registration b g = record g { state = registry_remove b g.state }

abbrev pub drop_backend : String → Gateway → Gateway
unfolding remove_backend
drop_backend b g = record g { state = remove_backend b g.state }

abbrev pub touch : String → ℕ → Gateway → Gateway
unfolding touch_backend_identity
touch b now g = record g { storage = touch_backend_identity b none none now g.storage }

abbrev pub replaced_code : ℕ
replaced_code = 4001

abbrev pub replaced_close_grace_ms : ℕ
replaced_close_grace_ms = 2000

-- the previous owner's peer, if it is still there, stands down
unfoldable pub stand_down : String → Gateway → Gateway
stand_down id g = elim (get id g.state.peers) [
  | none ↦ g
  | some previous ↦ emit (terminate_after replaced_close_grace_ms previous.ws) (
      emit (close previous.ws replaced_code "Backend replaced by a newer connection")
        (disown_peer id g))
]

unfoldable pub handle_backend_owner_replaced :
    (backend_id previous_peer_session_id : String) → Gateway → Gateway
unfolding close_channels_for_backend remove_topics_for_backend remove_lease stand_down
handle_backend_owner_replaced backend_id previous g =
    let g₁ = close_channels_for_backend backend_id epoch_changed g in
    let g₂ = remove_topics_for_backend backend_id g₁ in
    stand_down previous (record g₂ { state = remove_lease backend_id g₂.state })

abbrev pub owner_flap_window_ms : ℕ
owner_flap_window_ms = 60_000

abbrev pub owner_flap_threshold : ℕ
owner_flap_threshold = 3

-- The times of the recent replacements of a backend's owner, this one included.
unfoldable pub recent_replacements : String → ℕ → Gateway → List ℕ
recent_replacements backend_id now g =
    filter (λ t. ltb now (t + owner_flap_window_ms))
      (get_or [] (get backend_id g.owner_replacements))
    ++ now ∷ []

-- The second part says whether the takeovers are reported as flapping.
unfoldable pub note_owner_replaced : String → ℕ → Gateway → Gateway × Bool
unfolding recent_replacements
note_owner_replaced backend_id now g =
    let recent = recent_replacements backend_id now g in
    (
      record g { owner_replacements = set backend_id recent g.owner_replacements },
      leb owner_flap_threshold (length recent),
    )

unfoldable pub handle_backend_lease_expired : String → ℕ → Gateway → Gateway
unfolding close_channels_for_backend remove_topics_for_backend broadcast_registry_snapshot
    unregister_recovery_token
handle_backend_lease_expired backend_id now g = elim (get backend_id g.state.leases) [
  | none ↦ g
  | some lease ↦
      let g₁ = close_channels_for_backend backend_id offline g in
      let g₂ = drop_registration backend_id (remove_topics_for_backend backend_id g₁) in
      let g₃ =
        touch backend_id now (drop_backend backend_id (broadcast_registry_snapshot none g₂)) in
      elim (get lease.peer_session_id g.state.peers) [
        | none ↦ g₃
        | some peer ↦ drop_peer lease.peer_session_id (
            unregister_recovery_token peer
              (emit (terminate peer.ws) (disown_peer lease.peer_session_id g₃)))
      ]
]

-- the part of `handlePeerDisconnect` for the current owner of a backend
unfoldable pub leave_backend : PeerSession → ℕ → Gateway → Gateway
unfolding owned_backend close_channels_for_backend broadcast_registry_snapshot
leave_backend peer now g = elim (owned_backend peer g) [
  | none ↦ g
  | some b ↦
      let g₁ = drop_registration b (close_channels_for_backend b offline g) in
      let g₂ = broadcast_registry_snapshot (some peer.peer_session_id) g₁ in
      touch b now (drop_backend b g₂)
]

abbrev pub remove_topics_if : Option String → Gateway → Gateway
unfolding remove_topics_for_backend
remove_topics_if none g = g
remove_topics_if (some b) g = remove_topics_for_backend b g

unfoldable pub handle_peer_disconnect : String → ℕ → Gateway → Gateway
unfolding leave_backend close_channels_for_peer remove_topic_subscriptions_for_peer
    remove_topics_for_backend unregister_recovery_token
handle_peer_disconnect id now g = elim (get id g.state.peers) [
  | none ↦ g
  | some peer ↦
      let g₁ = leave_backend peer now g in
      let g₂ = remove_topic_subscriptions_for_peer id (close_channels_for_peer id g₁) in
      let g₃ = emit (terminate peer.ws) (remove_topics_if peer.backend_id g₂) in
      drop_peer id (unregister_recovery_token peer g₃)
]
