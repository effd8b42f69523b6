-- ===== src/ClientSdk/Calls.antt =====
-- packages/client/src/index.ts: what the user of `GatewayClient` asks of it: channels, topics, and
-- the presence of a backend.
use zclaudia_gateway.Prelude.{
  String, Bool, true, false, not, ◌==◌, Option, none, some, List, [], ◌∷◌, filter, find, option_eq,
}
use zclaudia_gateway.Json.{Json, array, member, elements, as_text}
use zclaudia_gateway.Map.{get, set, delete}
use zclaudia_gateway.SdkMessages.{
  open_channel as open_message, subscribe_topic as subscribe_message,
  unsubscribe_topic as unsubscribe_message,
}
use zclaudia_gateway.ClientSdk.Socket.{new_channel}
use zclaudia_gateway.ClientSdk.TopicKey.{topic_key}
use zclaudia_gateway.ClientSdk.Session.{
  opening_channel, subscribing, unsubscribing, Handlers, Client, ClientCall,
}
use zclaudia_gateway.ClientSdk.Ops.{control_op}

-- `openChannel`, and its data socket's dial
unfoldable pub start_open_channel :
    (id target : String) (kind : Option String) → Client → Client × List ClientCall
unfolding control_op
start_open_channel id target kind s =
    control_op
      (record {
        id = id;
        message = open_message target kind;
        expect = "channel_ready" ∷ [];
        purpose = opening_channel kind;
      })
      s

unfoldable pub channel_dialled :
    (channel_id : String) (kind : Option String) → (success : Bool) → Client → Client
unfolding set
channel_dialled channel_id kind true s = record s {
  channels = set channel_id (new_channel channel_id kind) s.channels;
}
channel_dialled channel_id kind false s = s

-- `channel.onClose(…)`
unfoldable pub channel_gone : (channel_id : String) → Client → Client
unfolding delete
channel_gone channel_id s = record s { channels = delete channel_id s.channels }

-- `subscribeTopic`
unfoldable pub subscribe_topic :
    (id backend_id topic handler : String) → Client → Client × List ClientCall
unfolding control_op topic_key
subscribe_topic id backend_id topic handler s =
    control_op
      (record {
        id = id;
        message = subscribe_message backend_id topic;
        expect = "topic_subscribed" ∷ [];
        purpose = subscribing (topic_key backend_id topic) handler;
      })
      s

abbrev remove_handler : String → List String → List String
remove_handler h hs = filter (λ x. not (x == h)) hs

abbrev unsubscribe_entry :
    (id backend_id topic handler : String) → Option Handlers → Client → Client × List ClientCall
unfolding set delete topic_key control_op
unsubscribe_entry id backend_id topic handler none s = (s, [])
unsubscribe_entry id backend_id topic handler (some entry) s =
    let key = topic_key backend_id topic in
    elim (remove_handler handler entry.handlers) [
      | [] ↦
          control_op
            (record {
              id = id;
              message = unsubscribe_message backend_id topic;
              expect = "topic_unsubscribed" ∷ [];
              purpose = unsubscribing;
            })
            (record s { topic_handlers = delete key s.topic_handlers })
      | h ∷ hs ↦ (
        record s { topic_handlers = set key (record entry { handlers = h ∷ hs }) s.topic_handlers },
        [],
      )
    ]

-- the function that `subscribeTopic` returns
unfoldable pub unsubscribe :
    (id backend_id topic handler : String) → Client → Client × List ClientCall
unfolding get set delete topic_key control_op
unsubscribe id backend_id topic handler s =
    unsubscribe_entry id backend_id topic handler
      (get (topic_key backend_id topic) s.topic_handlers) s

-- the backend in the registry, as `waitForBackend` looks for it
unfoldable pub find_backend : (backend_id : String) → (registry : Json) → Option Json
unfolding elements member
find_backend backend_id (array vs) =
    find
      (λ item.
        option_eq (elim (member "backendId" item) [ none ↦ none | some v ↦ as_text v ]) backend_id)
      (elements vs)
find_backend backend_id _ = none
