-- ===== src/BackendSdk/RoundTrip.antt =====
-- The round trip of a proxied request, by the frames that the two ends exchange (Exchange).
use zclaudia_gateway.Prelude.{String, Bool, true, false, Option, none, some, List, [], ◌≡◌, All}
use zclaudia_gateway.Json.{Json, Number, Members, end, field, text, number, object, member, Members}
use zclaudia_gateway.Map.{Map}
use zclaudia_gateway.Validation.Headers.{filter_proxy_response_headers}
use zclaudia_gateway.Http.Bridge.{Bytes, ClientRequest, Bridge, status_of, header_entries}
use zclaudia_gateway.BackendSdk.Serve.{
  ServeRequest, ServeResponse, concat, text_members, json_number, encoded,
}
use zclaudia_gateway.BackendSdk.Exchange.{ClientResponse, put_headers, answer_headers}

-- the bridge while it has no answer
abbrev waiting : ClientRequest → Bool → Bridge
waiting req draining = record {
  request = req;
  meta_received = false;
  response_timer = true;
  idle_timer = false;
  draining = draining;
}

module _ (to_lower_case : String → String) (valid_header : String → String → Bool) where
  abbrev Valid : Map String → Type 0
  Valid headers = All (λ h. valid_header h.0 h.1 ≡ true) headers

  -- the headers that the bridge finds in a first frame
  abbrev meta_headers : Members → Map String
  unfolding filter_proxy_response_headers member
  meta_headers ms =
      filter_proxy_response_headers to_lower_case (header_entries (member "headers" (object ms)))

module _ (encode : String → Bytes) (handler : ServeRequest → Option ServeResponse) where
  abbrev asked : Json → List Bytes → ServeRequest
  unfolding member concat
  asked meta chunks = record {
    method = member "method" meta;
    path = member "path" meta;
    headers = member "headers" meta;
    body = concat chunks;
  }

-- the members of `response_frame`
abbrev response_members : Number → Map String → Members
unfolding text_members
response_members status headers =
    field "type" (text "http_response")
      (field "status" (json_number status) (field "headers" (object (text_members headers)) end))

module _ (to_lower_case : String → String) (valid_header : String → String → Bool)
    (encode : String → Bytes) (handler : ServeRequest → Option ServeResponse) where
  -- the answer as the calls on the response make it
  abbrev written : ClientRequest → Option ServeResponse → ClientResponse
  unfolding answer_headers put_headers
  written req none = record {
    status = some 500;
    headers =
        put_headers to_lower_case
          (answer_headers to_lower_case valid_header encode handler req none) [];
    body = [];
    complete = true;
  }
  written req (some r) = record {
    status = some (status_of (some (number r.status)));
    headers =
        put_headers to_lower_case
          (answer_headers to_lower_case valid_header encode handler req (some r)) [];
    body = encoded encode r.body;
    complete = true;
  }
