-- ===== src/ClientSdk/Ops.antt =====
-- packages/client/src/index.ts: the control operations of `GatewayClient`, which run one at a time,
-- and what follows them.
use zclaudia_gateway.Prelude.{
  ℕ, suc, ◌*◌, ◌^◌, String, Bool, true, false, leb, ◌==◌, includes, if◌then◌else◌, Option, none,
  some, List, [], ◌∷◌, ◌++◌, map,
}
use zclaudia_gateway.Json.{Json}
use zclaudia_gateway.Map.{Map, get, set, values}
use zclaudia_gateway.SdkMessages.{subscribe_topic}
use zclaudia_gateway.ClientSdk.TopicKey.{split_key}
use zclaudia_gateway.ClientSdk.Session.{
  Options, ClientState, Purpose, Handlers, Op, OpError, Client, ClientCall, connected,
  opening_channel, subscribing, unsubscribing, resubscribing, not_connected, timed_out, send,
  close_channel, set_timer, dial_channel, op_resolved, op_rejected,
}

abbrev pub is_connected : ClientState → Bool
is_connected connected = true
is_connected _ = false

-- the socket on which an operation may be sent
unfoldable pub usable_socket : Client → Option String
usable_socket s = if is_connected s.state then s.socket else none

-- the next operations of the queue, until one waits for a reply
unfoldable pub run_queue : List Op → Client → Client × List ClientCall
unfolding usable_socket
run_queue [] s = (record s { queue = [] }, [])
run_queue (op ∷ ops) s = elim (usable_socket s) [
  | some ws ↦ (record s { pending = some op; queue = ops }, send ws op.message ∷ [])
  | none ↦ let (s', calls) = run_queue ops s in (s', op_rejected op not_connected ∷ calls)
]

-- `controlOp`: the operation goes to the end of the queue
unfoldable pub control_op : Op → Client → Client × List ClientCall
unfolding run_queue
control_op op s = elim s.pending [
  | some _ ↦ (record s { queue = s.queue ++ (op ∷ []) }, [])
  | none ↦ run_queue (s.queue ++ (op ∷ [])) s
]

-- `handlers.add(handler)` on a `Set`, which a new topic gets
abbrev add_once : String → List String → List String
add_once h hs = if includes hs h then hs else hs ++ (h ∷ [])

abbrev with_handler : String → String → Option Handlers → Client → Client
unfolding set
with_handler key handler none s = record s {
  topic_handlers =
      set key (record { stamp = s.next_stamp; handlers = handler ∷ [] }) s.topic_handlers;
  next_stamp = suc s.next_stamp;
}
with_handler key handler (some entry) s = record s {
  topic_handlers =
      set key (record entry { handlers = add_once handler entry.handlers }) s.topic_handlers;
}

unfoldable pub add_handler : (key handler : String) → Client → Client
unfolding get set
add_handler key handler s = with_handler key handler (get key s.topic_handlers) s

-- the first key from a stamp on, with its stamp
unfoldable pub key_from : ℕ → Map Handlers → Option (String × ℕ)
key_from stamp [] = none
key_from stamp ((key, entry) ∷ m) =
    if leb stamp entry.stamp then some (key, entry.stamp) else key_from stamp m

abbrev resubscription : String → ℕ → Op
unfolding split_key
resubscription key stamp =
    let (backend_id, topic) = split_key key in
    record {
      id = key;
      message = subscribe_topic backend_id topic;
      expect = "topic_subscribed" ∷ [];
      purpose = resubscribing (suc stamp);
    }

-- The loop of `resubscribeTopics`. Once the client is not connected, the operations of the topics
-- that are left would all be rejected, with no effect; the loop ends there.
unfoldable pub resubscribe_from : ℕ → Client → Client × List ClientCall
unfolding key_from split_key control_op usable_socket
resubscribe_from stamp s = elim (usable_socket s) [
  | none ↦ (s, [])
  | some _ ↦ elim (key_from stamp s.topic_handlers) [
    | none ↦ (s, [])
    | some (key, at) ↦ control_op (resubscription key at) s
  ]
]

-- the code that awaits an operation, after its reply, or after its failure
unfoldable pub continue_op : Purpose → Option Json → Client → Client × List ClientCall
unfolding add_handler resubscribe_from
continue_op (opening_channel kind) (some reply) s = (s, dial_channel reply kind ∷ [])
continue_op (opening_channel kind) none s = (s, [])
continue_op (subscribing key handler) (some reply) s = (add_handler key handler s, [])
continue_op (subscribing key handler) none s = (s, [])
continue_op unsubscribing reply s = (s, [])
continue_op (resubscribing stamp) reply s = resubscribe_from stamp s

-- what follows an operation that has ended: the next ones run, and the code that awaits it
unfoldable pub follow_op : Option Op → Option Json → Client → Client × List ClientCall
unfolding run_queue continue_op
follow_op none reply s = (s, [])
follow_op (some op) reply s =
    let (s₁, calls) = run_queue s.queue s in
    let (s₂, more) = continue_op op.purpose reply s₁ in (s₂, calls ++ more)

-- an operation ended with this call, and what follows
unfoldable pub end_op :
    (Op → ClientCall) → Option Json → Option Op → Client → Client × List ClientCall
unfolding follow_op
end_op call reply none s = (s, [])
end_op call reply (some op) s =
    let (s', calls) = follow_op (some op) reply (record s { pending = none }) in
    (s', call op ∷ calls)

-- the pending operation ended
unfoldable pub end_pending : (Op → ClientCall) → Option Json → Client → Client × List ClientCall
unfolding end_op
end_pending call reply s = end_op call reply s.pending s

-- `settlePending`
unfoldable pub settle_pending : (type : String) → (msg : Json) → Client → Client × List ClientCall
unfolding end_pending
settle_pending type msg s = elim s.pending [
  | none ↦ (s, [])
  | some op ↦
      if includes op.expect type then end_pending (λ o. op_resolved o msg) (some msg) s else (s, [])
]

-- `failPending`
unfoldable pub fail_pending : OpError → Client → Client × List ClientCall
unfolding end_pending
fail_pending error s = end_pending (λ o. op_rejected o error) none s

-- the timer of the operation with this name
unfoldable pub op_times_out : (id : String) → Client → Client × List ClientCall
unfolding fail_pending
op_times_out id s = elim s.pending [
  | none ↦ (s, [])
  | some op ↦ if op.id == id then fail_pending timed_out s else (s, [])
]

-- `Math.min(reconnectMinMs * 2 ** attempt, reconnectMaxMs)`
unfoldable pub reconnect_delay : Options → ℕ → ℕ
reconnect_delay opts attempt =
    let delay = opts.reconnect_min_ms * 2 ^ attempt in
    if leb delay opts.reconnect_max_ms then delay else opts.reconnect_max_ms

unfoldable pub schedule_reconnect : Options → Client → Client × List ClientCall
unfolding reconnect_delay
schedule_reconnect opts s = (
  record s { reconnect_attempt = suc s.reconnect_attempt; timers = suc s.timers },
  set_timer (reconnect_delay opts s.reconnect_attempt) ∷ [],
)

-- `for (const channel of this.channels.values()) channel.close()`
abbrev pub close_channels : Client → List ClientCall
close_channels s = map (λ c. close_channel c.channel_id) (values s.channels)
