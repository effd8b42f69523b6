-- ===== src/Validation/Headers.antt =====
-- src/validation.ts: header hygiene of the proxy. `to_lower_case` is JavaScript's.
use zclaudia_gateway.Prelude.{String, if◌then◌else◌, includes, Option, none, some, List, [], ◌∷◌}
use zclaudia_gateway.Map.{Map, set}
use zclaudia_gateway.Json.{Json, text}

abbrev pub proxy_request_header_allowlist : List String
proxy_request_header_allowlist =
    "content-type" ∷ "accept" ∷ "x-request-id" ∷ "range" ∷ "if-none-match" ∷ "if-modified-since"
    ∷ []

abbrev pub proxy_response_header_allowlist : List String
proxy_response_header_allowlist =
    "content-type" ∷ "content-length" ∷ "content-disposition" ∷ "content-encoding" ∷ "content-range"
    ∷ "accept-ranges" ∷ "cache-control" ∷ "etag" ∷ "last-modified" ∷ "expires" ∷ "vary" ∷ "location"
    ∷ "x-request-id" ∷ []

module _ (to_lower_case : String → String) where
  -- the loop over `Object.entries(headers)`; `filtered` is the result so far
  unfoldable pub filter_from : Map String → Map Json → Map String
  unfolding set
  filter_from filtered [] = filtered
  filter_from filtered ((key, text value) ∷ rest) =
      let next =
        if includes proxy_response_header_allowlist (to_lower_case key)
        then set key value filtered
        else filtered in
      filter_from next rest
  filter_from filtered ((key, value) ∷ rest) = filter_from filtered rest

  unfoldable pub filter_proxy_response_headers : Option (Map Json) → Map String
  unfolding filter_from
  filter_proxy_response_headers none = []
  filter_proxy_response_headers (some headers) = filter_from [] headers
