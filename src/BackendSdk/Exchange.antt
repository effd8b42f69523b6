-- ===== src/BackendSdk/Exchange.antt =====
-- An HTTP request through the gateway's bridge (`bridgeHttpChannel` in src/server.ts) to a backend's
-- handler (`serveHttp` in packages/backend/src/index.ts), and its response back: the two automata,
-- each fed with what the other sends.
use zclaudia_gateway.Prelude.{
  ℕ, ltb, nat_eq, ◌==◌, not, ◌&&◌, if◌then◌else◌, String, Bool, true, false, Option, none, some,
  List, [], ◌∷◌, ◌++◌,
}
use zclaudia_gateway.Json.{text, number, object}
use zclaudia_gateway.Map.{Map, get, map_entries}
use zclaudia_gateway.Validation.Headers.{
  filter_proxy_response_headers, proxy_request_header_allowlist,
}
use zclaudia_gateway.Http.Bridge.{
  Bytes, Frame, ClientRequest, BridgeEvent, request_data, request_end, socket_message,
  socket_closed, BridgeCall, send_frame, set_header, set_status, write, end_response,
  request_headers, start_bridge, status_of, bridge_run,
}
use zclaudia_gateway.BackendSdk.Serve.{
  ServeRequest, ServeResponse, ServeCall, send, close_channel, throws, concat, headers_or_none,
  encoded, serve_run, idle,
}

-- the events of a request whose body comes in these chunks, each with what is buffered then
abbrev pub body_events : List (ℕ × Bytes) → List BridgeEvent
body_events [] = request_end true ∷ []
body_events ((buffered, chunk) ∷ cs) = request_data true buffered chunk ∷ body_events cs

abbrev pub bodies : List (ℕ × Bytes) → List Bytes
bodies [] = []
bodies ((buffered, chunk) ∷ cs) = chunk ∷ bodies cs

-- the frames that reach the backend
abbrev pub frames_of : List BridgeCall → List Frame
frames_of [] = []
frames_of (send_frame f ∷ calls) = f ∷ frames_of calls
frames_of (_ ∷ calls) = frames_of calls

-- what the backend's calls are at the gateway's end of the socket
abbrev pub socket_events : List ServeCall → List BridgeEvent
socket_events [] = []
socket_events (send f ∷ calls) = socket_message f true ∷ socket_events calls
socket_events (close_channel ∷ calls) = socket_closed false ∷ socket_events calls
socket_events (throws ∷ calls) = socket_events calls

-- the response as its client sees it, with the headers in the order in which they were first set
pub record ClientResponse : Type 0 where
  pub status : Option ℕ
  pub headers : Map String
  pub body : Bytes
  pub complete : Bool

-- Node's `setHeader`: a header of this name, whatever its case, is replaced where it stands
unfoldable pub put_header :
    (to_lower_case : String → String) (name value : String) → Map String → Map String
put_header to_lower_case name value [] = (name, value) ∷ []
put_header to_lower_case name value ((n, v) ∷ headers) =
    let rest = put_header to_lower_case name value headers in
    if to_lower_case n == to_lower_case name then (name, value) ∷ headers else (n, v) ∷ rest

unfoldable pub put_headers : (to_lower_case : String → String) → (new old : Map String) → Map String
unfolding put_header
put_headers to_lower_case [] old = old
put_headers to_lower_case ((name, value) ∷ new) old =
    put_headers to_lower_case new (put_header to_lower_case name value old)

abbrev pub apply_call :
    (to_lower_case : String → String) → BridgeCall → ClientResponse → ClientResponse
unfolding put_header
apply_call to_lower_case (set_header name value) r = record r {
  headers = put_header to_lower_case name value r.headers;
}
apply_call to_lower_case (set_status n) r = record r { status = some n }
apply_call to_lower_case (write bytes) r = record r { body = r.body ++ bytes }
apply_call to_lower_case end_response r = record r { complete = true }
apply_call to_lower_case _ r = r

unfoldable pub client_view :
    (to_lower_case : String → String) → List BridgeCall → ClientResponse → ClientResponse
unfolding put_header
client_view to_lower_case [] r = r
client_view to_lower_case (call ∷ calls) r =
    client_view to_lower_case calls (apply_call to_lower_case call r)

-- Node sends no body for HEAD, nor with the statuses 1xx, 204 and 304
unfoldable pub has_body : (method : String) → Option ℕ → Bool
has_body method none = not (method == "HEAD")
has_body method (some n) =
    not (method == "HEAD") && (not (ltb n 200) && (not (nat_eq n 204) && not (nat_eq n 304)))

-- the body that is sent
unfoldable pub body_sent : (method : String) → Option ℕ → Bytes → Bytes
unfolding has_body
body_sent method status body = if has_body method status then body else []

-- the response as it is sent to a request with this method
abbrev pub sent_as : (method : String) → ClientResponse → ClientResponse
unfolding body_sent
sent_as method r = record r { body = body_sent method r.status r.body }

abbrev pub no_response : ClientResponse
no_response = record { status = none; headers = []; body = []; complete = false }

-- the request's own id, which the response gets again
unfoldable pub echoed : ClientRequest → Map String
unfolding get
echoed req = elim (get "x-request-id" req.headers) [
  | none ↦ []
  | some id ↦ ("x-request-id", id) ∷ []
]

unfoldable pub delivered : ClientRequest → List Bytes → ServeRequest
unfolding request_headers concat
delivered req chunks = record {
  method = some (text req.method);
  path = some (text req.path);
  headers = some (object (request_headers proxy_request_header_allowlist req.headers));
  body = concat chunks;
}

module _ (to_lower_case : String → String) (valid_header : String → String → Bool)
    (encode : String → Bytes) (handler : ServeRequest → Option ServeResponse) where
  -- the whole exchange: the bridge's frames go to the backend, and its answer comes back
  unfoldable pub exchange : ClientRequest → List (ℕ × Bytes) → ClientResponse
  unfolding start_bridge bridge_run serve_run client_view body_sent
  exchange req chunks =
      let (b, first) = start_bridge req in
      let (b', calls) = bridge_run to_lower_case valid_header (body_events chunks) b in
      let answer = (serve_run encode handler (frames_of (first ++ calls)) idle).1 in
      sent_as req.method (
        client_view to_lower_case
          (bridge_run to_lower_case valid_header (socket_events answer) b').1 no_response)

  -- the headers that the bridge sets, in their order
  unfoldable pub answer_headers : ClientRequest → Option ServeResponse → Map String
  unfolding filter_proxy_response_headers echoed
  answer_headers req none = echoed req
  answer_headers req (some r) =
      filter_proxy_response_headers to_lower_case
        (some (map_entries (λ _ v. text v) (headers_or_none r.headers)))
      ++ echoed req

  -- what the client should get for what the handler returned
  unfoldable pub expected : ClientRequest → Option ServeResponse → ClientResponse
  unfolding answer_headers put_headers body_sent
  expected req none = record {
    status = some 500;
    headers = put_headers to_lower_case (answer_headers req none) [];
    body = body_sent req.method (some 500) [];
    complete = true;
  }
  expected req (some r) =
      let status = status_of (some (number r.status)) in
      record {
        status = some status;
        headers = put_headers to_lower_case (answer_headers req (some r)) [];
        body = body_sent req.method (some status) (encoded encode r.body);
        complete = true;
      }
