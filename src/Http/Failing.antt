-- ===== src/Http/Failing.antt =====
-- How a proxied request ends that the backend does not answer.
use mathlib.Core.List.{Memᴰ}
use zclaudia_gateway.Prelude.{
  String, Bool, true, false, Option, none, some, [], ◌∷◌, ◌≡◌, refl, sym, ◌∙◌, inl, inr,
  Option-cases, test_refl, subst,
}
use zclaudia_gateway.Map.{get, delete}
use zclaudia_gateway.Gateway.{
  Gateway, Action, ClosedReason, closed, timeout, rejected, epoch_changed, offline, ChannelRecord,
  ResponseState, Outbound, respond, send_to_session, channel_closed,
}
use zclaudia_gateway.Gateway.Channels.{
  teardown_channel, fail_response, close_socket, delete_tickets,
}
use zclaudia_gateway.Gateway.Frame.{get-teardown}
use zclaudia_gateway.Http.Bridge.{
  Bridge, response_timed_out, socket_closed, bridge_step, perform, tear_down,
}

-- a call that was made stays made
close_socket-kept :
    (o : Option String) (reason : ClosedReason) (g : Gateway) (a : Action)
    → Memᴰ a g.out
    → Memᴰ a (close_socket o reason g).out
unfolding close_socket
close_socket-kept none reason g a m = m
close_socket-kept (some ws) reason g a m = Memᴰ.tail m

send_to_session-kept :
    (id : String) (message : Outbound) (g : Gateway) (a : Action)
    → Memᴰ a g.out
    → Memᴰ a (send_to_session id message g).out
unfolding send_to_session
send_to_session-kept id message g a m = elim (Option-cases (get id g.state.peers)) [
  | inl e ↦ rw (e, send_to_session) m
  | inr (peer, e) ↦ rw (e, send_to_session) (Memᴰ.tail m)
]

-- the answer of a request that fails before its response has begun
abbrev pub answer_of : ClosedReason → (response : String) → Action
answer_of timeout res = respond res 504 "GATEWAY_TIMEOUT"
answer_of _ res = respond res 502 "BACKEND_OFFLINE"

-- the response of the channel has not begun
abbrev pub Unanswered : (channel_id response : String) → Gateway → Type 0
Unanswered id res g =
    (ch : ChannelRecord) × (state : ResponseState) × (get id g.channels ≡ some ch)
    × (ch.internal_res ≡ some res)
    × (get res g.responses ≡ some state)
    × (state.headers_sent ≡ false)

fail_response-answers :
    (reason : ClosedReason) (res : String) (g : Gateway) (state : ResponseState)
    → get res g.responses ≡ some state
    → state.headers_sent ≡ false
    → Memᴰ (answer_of reason res) (fail_response reason (some res) g).out
unfolding fail_response
fail_response-answers timeout res g state e f = rw (e, f, fail_response) (Memᴰ.head refl)
fail_response-answers closed res g state e f = rw (e, f, fail_response) (Memᴰ.head refl)
fail_response-answers rejected res g state e f = rw (e, f, fail_response) (Memᴰ.head refl)
fail_response-answers epoch_changed res g state e f = rw (e, f, fail_response) (Memᴰ.head refl)
fail_response-answers offline res g state e f = rw (e, f, fail_response) (Memᴰ.head refl)

-- A teardown answers the request of an internal channel whose response has not begun.
teardown-answers :
    (id res : String) (reason : ClosedReason) (g : Gateway)
    → Unanswered id res g
    → Memᴰ (answer_of reason res) (teardown_channel id reason g).out
unfolding teardown_channel
teardown-answers id res reason g (ch, state, there, own, begun, unsent) =
    let a = answer_of reason res in
    let g₁ : Gateway = record g {
      channels = delete id g.channels;
      channel_tickets = delete_tickets ch.ticket_tokens g.channel_tickets;
    } in
    let answered : Memᴰ a (fail_response reason ch.internal_res g₁).out =
      subst (λ o. Memᴰ a (fail_response reason o g₁).out) (sym own)
        (fail_response-answers reason res g₁ state begun unsent) in
    let g₂ = fail_response reason ch.internal_res g₁ in
    let g₃ = close_socket ch.client_socket reason g₂ in
    let g₄ = close_socket ch.backend_socket reason g₃ in
    let message = channel_closed id reason in
    rw (there, teardown_channel)
      (send_to_session-kept ch.backend_peer_session_id message
        (send_to_session ch.client_peer_session_id message g₄) a
        (send_to_session-kept ch.client_peer_session_id message g₄ a (
          close_socket-kept ch.backend_socket reason g₃ a
            (close_socket-kept ch.client_socket reason g₂ a answered))))

-- the request is answered, and its channel is gone
abbrev pub Answered : (channel_id : String) → Action → Gateway → Type 0
Answered id a g = Memᴰ a g.out × (get id g.channels ≡ none)

torn_down :
    (id res : String) (reason : ClosedReason) (g : Gateway)
    → Unanswered id res g
    → Answered id (answer_of reason res) (perform id res (tear_down reason ∷ []) g)
unfolding perform
torn_down id res reason g h =
    (teardown-answers id res reason g h, get-teardown id id reason g ∙ rw (test_refl id) refl)

-- A proxied request that the backend leaves unanswered does not hang. Where no response frame has
-- come, the bridge's response timer answers the client 504, and the close of the backend's socket
-- answers it 502; either way the channel is gone afterwards. This is for a channel whose response
-- has not begun and whose timer is set.
pub bridge_step-Answered :
    (lower : String → String) (valid : String → String → Bool) (id res : String) (b : Bridge)
    (finished : Bool) (g : Gateway)
    → b.meta_received ≡ false
    → b.response_timer ≡ true
    → Unanswered id res g
    → Answered id
        (respond res 504 "GATEWAY_TIMEOUT")
        (perform id res (bridge_step lower valid response_timed_out b).1 g)
      × Answered id
          (respond res 502 "BACKEND_OFFLINE")
          (perform id res (bridge_step lower valid (socket_closed finished) b).1 g)
unfolding bridge_step
bridge_step-Answered lower valid id res b finished g fresh set h = (
  rw (set, bridge_step) (torn_down id res timeout g h),
  rw (fresh, bridge_step) (torn_down id res closed g h),
)
