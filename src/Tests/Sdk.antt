-- ===== src/Tests/Sdk.antt =====
-- The two SDKs at concrete inputs.
use zclaudia_gateway.Prelude.{
  ℕ, String, Bool, true, false, Option, none, some, List, [], ◌∷◌, ◌≡◌, refl,
}
use zclaudia_gateway.Json.{natural}
use zclaudia_gateway.Map.{get, set, map_entries}
use zclaudia_gateway.Validation.Headers.{filter_proxy_response_headers, filter_from}
use zclaudia_gateway.Validation.Hello.{client_backend}
use zclaudia_gateway.Gateway.Channels.{FreshChannel}
use zclaudia_gateway.Gateway.Events.{start}
use zclaudia_gateway.Gateway.Messages.{route, dispatch}
use zclaudia_gateway.SdkMessages.{open_channel, encode, HelloOptions, backend_hello}
use zclaudia_gateway.SdkMessages.Accepted.{
  meaning, route-encode, hello_read, backend_part, Accepted, backend_hello-Accepted,
}
use zclaudia_gateway.Http.Bridge.{ClientRequest}
use zclaudia_gateway.BackendSdk.Serve.{ServeRequest, ServeResponse, characters}
use zclaudia_gateway.BackendSdk.Exchange.{expected, delivered, answer_headers, echoed, bodies}
use zclaudia_gateway.BackendSdk.Session.{Options, Sdk, connected}
use zclaudia_gateway.BackendSdk.Steps.{
  Happening, timer_fired, opened, greeted, socket_gone, beat, peer_ready,
}
use zclaudia_gateway.ClientSdk.TopicKey.{topic_key, split_key, has_separator, split_key-topic_key}
use zclaudia_gateway.Tests.Data.{config, storage, peer}

abbrev lower : String → String
lower s = s

abbrev any_header : String → String → Bool
any_header name value = true

abbrev bytes_of : String → List ℕ
bytes_of s = 104 ∷ 105 ∷ []

-- answers a text, with a header that is allowed and one that is not
abbrev handler : ServeRequest → Option ServeResponse
handler req = some (record {
  status = natural 201;
  headers = some (("etag", "1") ∷ ("set-cookie", "x") ∷ []);
  body = some (characters "hi");
})

abbrev request : ClientRequest
request = record {
  method = "POST";
  path = "/runs?all=1";
  headers = ("accept", "*/*") ∷ ("cookie", "s") ∷ ("x-request-id", "r1") ∷ [];
}

abbrev chunks : List (ℕ × List ℕ)
chunks = (0, 1 ∷ 2 ∷ []) ∷ (5_000_000, 3 ∷ []) ∷ []

-- the response that this is
seen :
    expected lower any_header bytes_of handler request (handler (delivered request (bodies chunks)))
    ≡ record {
      status = some 201;
      headers = ("etag", "1") ∷ ("x-request-id", "r1") ∷ [];
      body = 104 ∷ 105 ∷ [];
      complete = true;
    }
unfolding expected answer_headers filter_proxy_response_headers filter_from echoed get set
    map_entries
seen = refl

abbrev fresh_channel : FreshChannel
fresh_channel = record { channel_id = "c1"; client_ticket = "t1"; backend_ticket = "t2" }

route-encode_example :
    route config 5 fresh_channel
      (peer "s2" "w2" none)
      (encode (open_channel "b1" none))
      (start 30_000 storage)
    ≡ dispatch config 5 fresh_channel
        (peer "s2" "w2" none)
        (meaning (open_channel "b1" none))
        (start 30_000 storage)
route-encode_example =
    route-encode config 5 fresh_channel (peer "s2" "w2" none) (open_channel "b1" none)
      (start 30_000 storage) refl

abbrev hello_options : HelloOptions
hello_options = record {
  namespace = "app";
  identity =
      some (record {
        device_id = none;
        instance_id = some "i1";
        channel = none;
        name = some "worker";
      });
  version = 1;
  visible = true;
  capabilities = "runs" ∷ [];
}

backend_hello-Accepted_example :
    Accepted
      (backend_hello hello_options "zga_1")
      (hello_read hello_options "zga_1" client_backend (some (backend_part hello_options)))
backend_hello-Accepted_example = backend_hello-Accepted hello_options "zga_1" refl

abbrev options : Options
options = record {
  credential = "zgb_1";
  exchange_enrollment = false;
  reconnect = true;
  reconnect_min_ms = 1_000;
  reconnect_max_ms = 30_000;
}

abbrev connected_sdk : Sdk
connected_sdk = record {
  socket = some "w1";
  backend_id = "b1";
  epoch = 5;
  heartbeat = true;
  is_closed = false;
  state = connected;
  failure = none;
  reconnect_attempt = 0;
  access_token = none;
  tasks = [];
  timers = 0;
}

-- a drop, a reconnect that fails, one that succeeds, and a replacement
abbrev happenings : List (ℕ × Happening)
happenings =
    (1, beat true)
    ∷ (2, socket_gone "w1" none)
    ∷ (1_002, timer_fired "t1" "w2")
    ∷ (1_003, opened "t1" "w3" false)
    ∷ (3_003, timer_fired "t2" "w4")
    ∷ (3_004, opened "t2" "w5" true)
    ∷ (3_005, greeted "t2" "w6" (peer_ready (some ("b1", 6))))
    ∷ (9_000, socket_gone "w4" (some 4001))
    ∷ []

split_key-topic_key_example : split_key (topic_key "b1" "runs") ≡ ("b1", "runs")
unfolding has_separator
split_key-topic_key_example = split_key-topic_key "b1" "runs" refl refl
