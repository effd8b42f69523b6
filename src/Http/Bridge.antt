-- ===== src/Http/Bridge.antt =====
-- src/server.ts, `bridgeHttpChannel`: one proxied request as an automaton between the request, its
-- response and the backend's data socket. A text frame is the value that `JSON.parse` makes of it,
-- `none` where that throws. `buffered` is a `bufferedAmount` and `is_open` a socket's
-- `readyState === OPEN`, each at the time of the event; of a drain interval there is whether it runs.
use zclaudia_gateway.Prelude.{
  ℕ, ◌*◌, ◌/◌, String, Bool, true, false, not, ltb, leb, ◌&&◌, ◌||◌, if◌then◌else◌, Option, none,
  some, List, [], ◌∷◌, ◌++◌,
}
use zclaudia_gateway.Json.{
  Json, null, text, number, object, natural, Members, end, field, member, members,
}
use zclaudia_gateway.Map.{Map, get, set, update}
use zclaudia_gateway.Validation.Headers.{
  proxy_request_header_allowlist, filter_proxy_response_headers,
}
use zclaudia_gateway.Gateway.{Gateway, ClosedReason, closed, timeout}
use zclaudia_gateway.Gateway.Channels.{teardown_channel}

abbrev pub Bytes : Type 0
Bytes = List ℕ

pub data Frame : Type 0 where
  text_frame : Option Json → Frame
  binary_frame : Bytes → Frame

-- the request of a client, with its headers in lower case, as Node gives them
pub record ClientRequest : Type 0 where
  pub method : String
  pub path : String
  pub headers : Map String

pub record Bridge : Type 0 where
  pub request : ClientRequest
  pub meta_received : Bool
  -- the timers that are set
  pub response_timer : Bool
  pub idle_timer : Bool
  pub draining : Bool

pub data BridgeEvent : Type 0 where
  request_data : (is_open : Bool) (buffered : ℕ) → Bytes → BridgeEvent
  drain_tick : (is_open : Bool) (buffered : ℕ) → BridgeEvent
  request_end : (is_open : Bool) → BridgeEvent
  -- `writable` is what `res.write` returns
  socket_message : Frame → (writable : Bool) → BridgeEvent
  response_drained response_timed_out idle_timed_out socket_error : BridgeEvent
  -- `finished` is `res.writableEnded || res.destroyed`
  socket_closed : (finished : Bool) → BridgeEvent

-- `throws` is an exception in an event listener, which nothing in the program catches; what the
-- bridge is after one is not said.
pub data BridgeCall : Type 0 where
  send_frame : Frame → BridgeCall
  pause_request resume_request pause_socket resume_socket end_response forget_response throws :
      BridgeCall
  set_header : (name value : String) → BridgeCall
  set_status : ℕ → BridgeCall
  write : Bytes → BridgeCall
  tear_down : ClosedReason → BridgeCall

abbrev pub high_water : ℕ
high_water = 4 * 1024 * 1024

-- the loop over the allowlist
unfoldable pub request_headers : List String → Map String → Members
unfolding get
request_headers [] headers = end
request_headers (name ∷ names) headers =
    let rest = request_headers names headers in
    elim (get name headers) [ none ↦ rest | some value ↦ field name (text value) rest ]

unfoldable pub request_frame : ClientRequest → Json
unfolding request_headers
request_frame req = object (
    field "type" (text "http_request") (
      field "method" (text req.method) (
        field "path" (text req.path) (
          field "headers" (object (request_headers proxy_request_header_allowlist req.headers))
            end))))

abbrev pub end_frame : Json
end_frame = object (field "type" (text "http_request_end") end)

-- the bridge when it begins, and its first call
unfoldable pub start_bridge : ClientRequest → Bridge × List BridgeCall
unfolding request_frame
start_bridge req = (
  record {
    request = req;
    meta_received = false;
    response_timer = true;
    idle_timer = false;
    draining = false;
  },
  send_frame (text_frame (some (request_frame req))) ∷ [],
)

-- the status of the first frame, 502 where that is none
abbrev pub status_of : Option Json → ℕ
status_of (some (number (natural n))) = if leb 100 n && leb n 599 then n else 502
status_of _ = 502

-- `Object.entries` of the first frame's headers. The keys of an array or a text are indices, which
-- are not in the allowlist.
abbrev pub header_entries : Option Json → Option (Map Json)
unfolding members
header_entries (some (object ms)) = some (members ms)
header_entries _ = none

module _ (to_lower_case : String → String) (valid_header : String → String → Bool) where
  -- the calls of `setHeader`, which throws on a header that is not valid
  unfoldable pub set_headers : Map String → List BridgeCall → List BridgeCall
  set_headers [] rest = rest
  set_headers ((name, value) ∷ headers) rest =
      let later = set_headers headers rest in
      if valid_header name value then set_header name value ∷ later else throws ∷ []

  unfoldable pub echo_request_id : ClientRequest → List BridgeCall → List BridgeCall
  unfolding get
  echo_request_id req rest = elim (get "x-request-id" req.headers) [
    | none ↦ rest
    | some id ↦
        if valid_header "x-request-id" id then set_header "x-request-id" id ∷ rest else throws ∷ []
  ]

  -- the first frame
  unfoldable pub receive_meta : Json → Bridge → Bridge × List BridgeCall
  unfolding filter_proxy_response_headers set_headers echo_request_id member get members
  receive_meta null b = (record b { meta_received = true; response_timer = false }, throws ∷ [])
  receive_meta meta b = (
    record b { meta_received = true; response_timer = false; idle_timer = true },
    set_headers
        (filter_proxy_response_headers to_lower_case (header_entries (member "headers" meta)))
        (echo_request_id b.request (set_status (status_of (member "status" meta)) ∷ write [] ∷ [])),
  )

  unfoldable pub receive_frame : Frame → (writable : Bool) → Bridge → Bridge × List BridgeCall
  unfolding receive_meta
  receive_frame (binary_frame bytes) writable b =
      if not b.meta_received
      then (record b { response_timer = false }, tear_down closed ∷ [])
      else (
        record b { idle_timer = true },
        write bytes ∷ (if writable then [] else pause_socket ∷ []),
      )
  receive_frame (text_frame none) writable b =
      if not b.meta_received
      then (record b { response_timer = false }, tear_down closed ∷ [])
      else (b, [])
  receive_frame (text_frame (some meta)) writable b =
      if not b.meta_received then receive_meta meta b else (b, [])

  unfoldable pub bridge_step : BridgeEvent → Bridge → Bridge × List BridgeCall
  unfolding receive_frame
  bridge_step (request_data false buffered chunk) b = (b, [])
  bridge_step (request_data true buffered chunk) b =
      if ltb high_water buffered
      then (record b { draining = true }, send_frame (binary_frame chunk) ∷ pause_request ∷ [])
      else (b, send_frame (binary_frame chunk) ∷ [])
  bridge_step (drain_tick is_open buffered) b =
      if b.draining && (leb buffered (high_water / 4) || not is_open)
      then (record b { draining = false }, resume_request ∷ [])
      else (b, [])
  bridge_step (request_end is_open) b =
      (b, if is_open then send_frame (text_frame (some end_frame)) ∷ [] else [])
  bridge_step (socket_message frame writable) b = receive_frame frame writable b
  bridge_step response_drained b = (b, resume_socket ∷ [])
  bridge_step response_timed_out b =
      if b.response_timer
      then (record b { response_timer = false }, tear_down timeout ∷ [])
      else (b, [])
  bridge_step idle_timed_out b =
      if b.idle_timer then (record b { idle_timer = false }, tear_down timeout ∷ []) else (b, [])
  bridge_step socket_error b = (b, tear_down closed ∷ [])
  bridge_step (socket_closed finished) b = (
    record b { response_timer = false; idle_timer = false },
    if b.meta_received
        then (if finished then [] else end_response ∷ [])
          ++ (forget_response ∷ tear_down closed ∷ [])
        else tear_down closed ∷ [],
  )

  unfoldable pub bridge_run : List BridgeEvent → Bridge → Bridge × List BridgeCall
  unfolding bridge_step
  bridge_run [] b = (b, [])
  bridge_run (e ∷ es) b =
      let (b', calls) = bridge_step e b in
      let (b'', rest) = bridge_run es b' in (b'', calls ++ rest)

-- What the calls do to the gateway's own state: the channel, and how far its response is.
unfoldable pub perform : (channel_id response : String) → List BridgeCall → Gateway → Gateway
unfolding teardown_channel set
perform channel_id response [] g = g
perform channel_id response (tear_down reason ∷ calls) g =
    perform channel_id response calls (teardown_channel channel_id reason g)
perform channel_id response (write bytes ∷ calls) g = perform channel_id response calls (record g {
  responses = set response (record { headers_sent = true; ended = false }) g.responses;
})
perform channel_id response (end_response ∷ calls) g = perform channel_id response calls (record g {
  responses = set response (record { headers_sent = true; ended = true }) g.responses;
})
perform channel_id response (forget_response ∷ calls) g =
    perform channel_id response calls (record g {
      channels = update channel_id (λ ch. record ch { internal_res = none }) g.channels;
    })
perform channel_id response (call ∷ calls) g = perform channel_id response calls g
