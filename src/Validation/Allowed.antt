-- ===== src/Validation/Allowed.antt =====
-- What the proxy's filter of response headers lets through.
use zclaudia_gateway.Prelude.{
  String, true, includes, Option, none, some, [], ◌∷◌, ◌≡◌, Bool-cases, inl, inr,
}
use zclaudia_gateway.Json.{Json, null, text, boolean, number, array, object}
use zclaudia_gateway.Map.{Map, get, set}
use zclaudia_gateway.Map.Laws.{Every, Every-set}
use zclaudia_gateway.Validation.Headers.{
  proxy_response_header_allowlist, filter_from, filter_proxy_response_headers,
}

-- the header is on the allowlist, by its name in lower case
abbrev pub Allowed : (String → String) → String → String → Type 0
Allowed to_lower_case key _ = includes proxy_response_header_allowlist (to_lower_case key) ≡ true

module _ (to_lower_case : String → String) where
  filter_from-Allowed :
      (filtered : Map String) (m : Map Json)
      → Every (Allowed to_lower_case) filtered
      → Every (Allowed to_lower_case) (filter_from to_lower_case filtered m)
  unfolding filter_from
  filter_from-Allowed filtered [] v = v
  filter_from-Allowed filtered ((key, text value) ∷ rest) v =
      elim (Bool-cases (includes proxy_response_header_allowlist (to_lower_case key))) [
        | inl e ↦
            rw (e, filter_from)
              (filter_from-Allowed (set key value filtered) rest
                (Every-set (Allowed to_lower_case) key value filtered e (λ j w _. v j w)))
        | inr e ↦ rw (e, filter_from) (filter_from-Allowed filtered rest v)
      ]
  filter_from-Allowed filtered ((key, null) ∷ rest) v = filter_from-Allowed filtered rest v
  filter_from-Allowed filtered ((key, boolean b) ∷ rest) v = filter_from-Allowed filtered rest v
  filter_from-Allowed filtered ((key, number n) ∷ rest) v = filter_from-Allowed filtered rest v
  filter_from-Allowed filtered ((key, array xs) ∷ rest) v = filter_from-Allowed filtered rest v
  filter_from-Allowed filtered ((key, object xs) ∷ rest) v = filter_from-Allowed filtered rest v

  -- Whatever headers a backend answers with, each one that the filter keeps is, in lower case, on
  -- the allowlist of response headers.
  pub filter_proxy_response_headers-Allowed :
      (headers : Option (Map Json))
      → Every (Allowed to_lower_case) (filter_proxy_response_headers to_lower_case headers)
  unfolding filter_proxy_response_headers get
  filter_proxy_response_headers-Allowed none = λ k v h. absurd (cc)
  filter_proxy_response_headers-Allowed (some headers) =
      filter_from-Allowed [] headers (λ k v h. absurd (cc))
