-- ===== src/BackendSdk/Serve.antt =====
-- packages/backend/src/index.ts, `serveHttp`: the frames of one HTTP channel, answered by a handler.
-- The handler is the application's; `none` is that it throws or rejects. `encode` is `TextEncoder`.
use zclaudia_gateway.Prelude.{String, ◌==◌, if◌then◌else◌, Option, none, some, List, [], ◌∷◌, ◌++◌}
use zclaudia_gateway.Json.{
  Json, Number, null, text, number, object, natural, Members, end, field, member,
}
use zclaudia_gateway.Map.{Map}
use zclaudia_gateway.Http.Bridge.{Bytes, Frame, text_frame, binary_frame}

-- What the handler gets: the members of the first frame as they came, and the body.
pub record ServeRequest : Type 0 where
  pub method : Option Json
  pub path : Option Json
  pub headers : Option Json
  pub body : Bytes

pub data Body : Type 0 where
  bytes : Bytes → Body
  characters : String → Body

pub record ServeResponse : Type 0 where
  pub status : Number
  pub headers : Option (Map String)
  pub body : Option Body

pub record Serving : Type 0 where
  pub meta : Option Json
  pub chunks : List Bytes

pub data ServeCall : Type 0 where
  send : Frame → ServeCall
  close_channel throws : ServeCall

unfoldable pub concat : List Bytes → Bytes
concat [] = []
concat (chunk ∷ chunks) = chunk ++ concat chunks

unfoldable pub text_members : Map String → Members
text_members [] = end
text_members ((name, value) ∷ headers) = field name (text value) (text_members headers)

abbrev pub headers_or_none : Option (Map String) → Map String
headers_or_none none = []
headers_or_none (some headers) = headers

-- the frame that answers, with `JSON.stringify`'s `null` for a status that is not finite
abbrev pub json_number : Number → Json
json_number Number.not_finite = null
json_number n = number n

unfoldable pub response_frame : Number → Map String → Json
unfolding text_members
response_frame status headers = object (
    field "type" (text "http_response")
      (field "status" (json_number status) (field "headers" (object (text_members headers)) end)))

abbrev pub body_frames : Bytes → List ServeCall
body_frames [] = []
body_frames (b ∷ bs) = send (binary_frame (b ∷ bs)) ∷ []

module _ (encode : String → Bytes) where
  abbrev pub encoded : Option Body → Bytes
  encoded none = []
  encoded (some (bytes bs)) = bs
  encoded (some (characters s)) = encode s

  module _ (handler : ServeRequest → Option ServeResponse) where
    -- the answer to a request, and the close of the channel
    unfoldable pub respond : Option ServeResponse → List ServeCall
    unfolding response_frame
    respond none = send (text_frame (some (response_frame (natural 500) []))) ∷ close_channel ∷ []
    respond (some r) =
        send (text_frame (some (response_frame r.status (headers_or_none r.headers))))
        ∷ (body_frames (encoded r.body) ++ (close_channel ∷ []))

    abbrev request_of : Json → List Bytes → ServeRequest
    unfolding member concat
    request_of meta chunks = record {
      method = member "method" meta;
      path = member "path" meta;
      headers = member "headers" meta;
      body = concat chunks;
    }

    abbrev finish : Option Json → Serving → Serving × List ServeCall
    unfolding respond member concat
    finish none s = (s, [])
    finish (some meta) s = (s, respond (handler (request_of meta s.chunks)))

    -- the type of a frame, where it has one
    abbrev frame_type : Json → String
    unfolding member
    frame_type frame = elim (member "type" frame) [ some (text t) ↦ t | _ ↦ "" ]

    unfoldable pub receive_text : Json → Serving → Serving × List ServeCall
    unfolding member respond concat
    receive_text null s = (s, throws ∷ [])
    receive_text frame s =
        if frame_type frame == "http_request"
        then (record s { meta = some frame }, [])
        else if frame_type frame == "http_request_end"
        then finish s.meta s
        else (s, [])

    -- the handler of the channel's messages
    unfoldable pub serve_message : Frame → Serving → Serving × List ServeCall
    unfolding receive_text
    serve_message (binary_frame chunk) s = (record s { chunks = s.chunks ++ (chunk ∷ []) }, [])
    serve_message (text_frame none) s = (s, throws ∷ [])
    serve_message (text_frame (some frame)) s = receive_text frame s

    unfoldable pub serve_run : List Frame → Serving → Serving × List ServeCall
    unfolding serve_message
    serve_run [] s = (s, [])
    serve_run (f ∷ fs) s =
        let (s', calls) = serve_message f s in
        let (s'', rest) = serve_run fs s' in (s'', calls ++ rest)

-- `meta` and `chunks` of a new channel
abbrev pub idle : Serving
idle = record { meta = none; chunks = [] }
