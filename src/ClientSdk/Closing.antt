-- ===== src/ClientSdk/Closing.antt =====
-- What a lost connection does to the operations that are under way.
use zclaudia_gateway.Prelude.{
  ◌||◌, not, none, some, List, [], ◌∷◌, ◌++◌, map, ◌≡◌, refl, ap, ◌∙◌, inl, inr, Bool-cases,
  append-nil,
}
use zclaudia_gateway.ClientSdk.Session.{
  Options, ClientState, idle, connecting, connected, closed, Purpose, opening_channel, subscribing,
  unsubscribing, resubscribing, Op, not_connected, connection_closed, Client, ClientCall,
  op_rejected,
}
use zclaudia_gateway.ClientSdk.Ops.{
  is_connected, usable_socket, run_queue, continue_op, resubscribe_from, follow_op, close_channels,
  schedule_reconnect,
}
use zclaudia_gateway.ClientSdk.Steps.{handle_close, go_down, lose_connection}

-- the client without its socket
abbrev cut_off : Client → Client
cut_off s = record s { socket = none }

no_socket : (s : Client) → usable_socket (cut_off s) ≡ none
unfolding usable_socket
no_socket s = elim (Bool-cases (is_connected s.state)) [
  | inl e ↦ rw (e, usable_socket) refl
  | inr e ↦ rw (e, usable_socket) refl
]

abbrev pub rejections : List Op → List ClientCall
rejections ops = map (λ o. op_rejected o not_connected) ops

-- without a socket the whole queue is rejected
run_queue-rejects :
    (ops : List Op) (s : Client)
    → run_queue ops (cut_off s) ≡ (record (cut_off s) { queue = [] }, rejections ops)
unfolding run_queue
run_queue-rejects [] s = refl
run_queue-rejects (op ∷ ops) s =
    rw (no_socket s, run_queue)
      (ap (λ x. (x.0, op_rejected op not_connected ∷ x.1)) (run_queue-rejects ops s))

-- and nothing that awaits a failed operation goes on
continue_op-ends : (p : Purpose) (s : Client) → continue_op p none (cut_off s) ≡ (cut_off s, [])
unfolding continue_op resubscribe_from
continue_op-ends (opening_channel kind) s = refl
continue_op-ends (subscribing key handler) s = refl
continue_op-ends unsubscribing s = refl
continue_op-ends (resubscribing stamp) s = rw (no_socket s, resubscribe_from) refl

-- what follows a failed operation in a client without a socket
follow_op-rejects :
    (op : Op) (s : Client)
    → follow_op (some op) none (cut_off s) ≡ (record (cut_off s) { queue = [] }, rejections s.queue)
unfolding follow_op
follow_op-rejects op s =
    let done : Client = record (cut_off s) { queue = [] } in
    ap (λ r. ((continue_op op.purpose none r.0).0, r.1 ++ (continue_op op.purpose none r.0).1))
      (run_queue-rejects s.queue s)
    ∙ ap (λ r. (r.0, rejections s.queue ++ r.1)) (continue_op-ends op.purpose done)
    ∙ ap (λ xs. (done, xs)) (append-nil (rejections s.queue))

-- the parts of a client that going down leaves as they are
abbrev Kept : Client → Client → Type 0
Kept s s' =
    (s'.socket ≡ s.socket)
    × (s'.pending ≡ s.pending)
    × (s'.queue ≡ s.queue)
    × (s'.channels ≡ s.channels)

lose_connection-Kept :
    (opts : Options) (was : ClientState) (s : Client) → Kept s (lose_connection opts was s).0
unfolding schedule_reconnect
lose_connection-Kept opts idle s = (refl, refl, refl, refl)
lose_connection-Kept opts connecting s = (refl, refl, refl, refl)
lose_connection-Kept opts connected s = (refl, refl, refl, refl)
lose_connection-Kept opts closed s = (refl, refl, refl, refl)

go_down-Kept : (opts : Options) (was : ClientState) (s : Client) → Kept s (go_down opts was s).0
unfolding go_down
go_down-Kept opts was s = elim (Bool-cases (s.user_closed || not opts.reconnect)) [
  | inl e ↦ rw (e, go_down) (refl, refl, refl, refl)
  | inr e ↦ rw (e, go_down) (lose_connection-Kept opts was s)
]

-- nothing waits, and no channel is left
abbrev pub Settled : Client → Type 0
Settled s = (s.pending ≡ none) × (s.queue ≡ []) × (s.channels ≡ [])

-- the client when its connection has just been lost
abbrev pub lost : Client → Client
lost s = record s { socket = none; pending = none; channels = [] }

-- what follows, from a client that has kept these parts
followed :
    (op : Op) (s s' : Client)
    → Kept (lost s) s'
    → Settled (follow_op (some op) none s').0
      × ((follow_op (some op) none s').1 ≡ rejections s.queue)
followed op s s' (cut, pending, queue, channels) =
    let same : s' ≡ cut_off s' = ap (λ x. record s' { socket = x }) cut in
    let e = ap (follow_op (some op) none) same ∙ follow_op-rejects op s' in
    (
      (
        ap (λ r. r.0.pending) e ∙ pending,
        ap (λ r. r.0.queue) e,
        ap (λ r. r.0.channels) e ∙ channels,
      ),
      ap (λ r. r.1) e ∙ ap rejections queue,
    )

-- When the connection is lost while an operation waits for its reply, that operation is rejected as
-- closed first, then the channels are closed, then the client goes down, closed or with a reconnect,
-- and last each operation in the queue is rejected, in its order, as not connected. Afterwards no
-- operation waits, the queue is empty, and the client has no channels.
pub handle_close-rejects :
    (opts : Options) (s : Client) (op : Op)
    → s.pending ≡ some op
    → Settled (handle_close opts s).0
      × ((handle_close opts s).1
          ≡ op_rejected op connection_closed
            ∷ (close_channels s ++ ((go_down opts s.state (lost s)).1 ++ rejections s.queue)))
unfolding handle_close
handle_close-rejects opts s op h =
    let (s', calls) = go_down opts s.state (lost s) in
    let (settled, later) = followed op s s' (go_down-Kept opts s.state (lost s)) in
    rw (h, handle_close)
      (
        settled,
        ap (λ xs. op_rejected op connection_closed ∷ (close_channels s ++ (calls ++ xs))) later,
      )
