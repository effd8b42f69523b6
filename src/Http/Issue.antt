-- ===== src/Http/Issue.antt =====
-- src/server.ts, `POST /api/admin/credentials` after its guard: the checks of its body, and the new
-- credential. `fraction_ms` is the number of milliseconds of a positive fraction of days, and `none`
-- for a negative one; a part of a millisecond is left out.
use zclaudia_gateway.Prelude.{
  ℕ, ◌*◌, ltb, ◌==◌, String, not, ◌<>◌, is_empty, if◌then◌else◌, Option, none, some, List, [], ◌∷◌,
  dedup_from, filter, all,
}
use zclaudia_gateway.Json.{
  Json, Number, null, text, number, array, natural, negative, fractional, not_finite, member,
  elements, is_text,
}
use zclaudia_gateway.Validation.{join}
use zclaudia_gateway.Storage.{Storage, CredentialType, device, backend, CredentialInfo}
use zclaudia_gateway.Storage.Credentials.{
  Fresh, Ttl, by_default, never, for_ms, NewCredential, create_credential,
}
use zclaudia_gateway.Gateway.{Gateway}
use zclaudia_gateway.Gateway.Scope.{is_known_backend}
use zclaudia_gateway.Http.Answer.{Answer, ok, invalid_request, not_found, conflict, ◌>>=◌}

-- the texts of a list of values
abbrev pub texts : List Json → List String
texts [] = []
texts (text s ∷ vs) = s ∷ texts vs
texts (_ ∷ vs) = texts vs

abbrev not_a_scope : String
not_a_scope = "allowedBackends must be null or a non-empty array of backend ids"

-- the distinct ids of a scope, if each is a backend of the namespace
unfoldable pub known_scope : List String → String → Storage → Answer (Option (List String))
unfolding join is_known_backend
known_scope ids namespace s = elim (filter (λ b. not (is_known_backend b namespace s)) ids) [
  | [] ↦ ok (some ids)
  | b ∷ bs ↦ invalid_request ("Unknown backends in this namespace: " <> join ", " (b ∷ bs))
]

abbrev scope_of_values : List Json → String → Storage → Answer (Option (List String))
unfolding known_scope
scope_of_values [] namespace s = invalid_request not_a_scope
scope_of_values (v ∷ vs) namespace s =
    if all is_text (v ∷ vs)
    then known_scope (dedup_from [] (texts (v ∷ vs))) namespace s
    else invalid_request not_a_scope

-- `none` is the whole namespace
unfoldable pub parse_backend_scope : Json → String → Storage → Answer (Option (List String))
unfolding elements known_scope
parse_backend_scope null namespace s = ok none
parse_backend_scope (array vs) namespace s = scope_of_values (elements vs) namespace s
parse_backend_scope _ namespace s = invalid_request not_a_scope

-- `type`, for the two types that are issued
abbrev pub read_type : Option Json → Answer CredentialType
read_type (some (text s)) =
    if s == "device"
    then ok device
    else if s == "backend"
    then ok backend
    else invalid_request "type must be device or backend"
read_type _ = invalid_request "type must be device or backend"

abbrev pub read_namespace : Option Json → Answer String
read_namespace (some (text s)) =
    if is_empty s then invalid_request "namespace must be a non-empty string" else ok s
read_namespace _ = invalid_request "namespace must be a non-empty string"

abbrev pub read_name : Option Json → Answer (Option String)
read_name none = ok none
read_name (some (text s)) = ok (some s)
read_name (some _) = invalid_request "name must be a string"

abbrev not_a_ttl : Answer Ttl
not_a_ttl = invalid_request "ttlDays must be a positive number or null"

abbrev pub read_days : (String → Option ℕ) → Number → Answer Ttl
read_days fraction_ms (natural n) =
    if ltb 0 n then ok (for_ms (n * 24 * 60 * 60 * 1000)) else not_a_ttl
read_days fraction_ms (negative n) = not_a_ttl
read_days fraction_ms (fractional t) = elim (fraction_ms t) [
  | none ↦ not_a_ttl
  | some ms ↦ ok (for_ms ms)
]
read_days fraction_ms not_finite = not_a_ttl

abbrev pub read_ttl : (String → Option ℕ) → Option Json → Answer Ttl
read_ttl fraction_ms none = ok by_default
read_ttl fraction_ms (some null) = ok never
read_ttl fraction_ms (some (number n)) = read_days fraction_ms n
read_ttl fraction_ms (some _) = not_a_ttl

abbrev not_known : {A : Type 0} → Answer A
not_known = invalid_request "backendId must be a known backend in the same namespace"

-- the text of a backend that is known in the namespace
unfoldable pub known_backend : Option Json → String → Storage → Answer String
unfolding is_known_backend
known_backend (some (text b)) namespace s =
    if is_known_backend b namespace s then ok b else not_known
known_backend _ namespace s = not_known

abbrev pub read_backend : CredentialType → Option Json → String → Storage → Answer (Option String)
unfolding known_backend
read_backend type none namespace s = ok none
read_backend backend (some v) namespace s = do b ← known_backend (some v) namespace s; ok (some b)
read_backend _ (some v) namespace s =
    invalid_request "backendId only applies to backend credentials"

abbrev pub read_scope :
    CredentialType → Option Json → String → Storage → Answer (Option (List String))
unfolding parse_backend_scope
read_scope type none namespace s = ok none
read_scope device (some v) namespace s = parse_backend_scope v namespace s
read_scope _ (some v) namespace s =
    invalid_request "allowedBackends only applies to device credentials"

unfoldable pub read_new_credential : (String → Option ℕ) → Json → Storage → Answer NewCredential
unfolding member known_backend parse_backend_scope
read_new_credential fraction_ms body s = do
  type ← read_type (member "type" body)
  namespace ← read_namespace (member "namespace" body)
  name ← read_name (member "name" body)
  ttl ← read_ttl fraction_ms (member "ttlDays" body)
  backend_id ← read_backend type (member "backendId" body) namespace s
  scope ← read_scope type (member "allowedBackends" body) namespace s
  ok (record {
    type = type;
    namespace = namespace;
    name = name;
    ttl = ttl;
    parent_id = none;
    backend_id = backend_id;
    allowed_backends = scope;
  })

-- the answer to a body that was read
unfoldable pub issue :
    (String → String)
    → Fresh
    → ℕ
    → Answer NewCredential
    → Gateway
    → Gateway × Answer (CredentialInfo × String)
unfolding create_credential
issue hash fresh now (ok input) g =
    let (s, issued) = create_credential hash input fresh now g.storage in
    (record g { storage = s }, ok issued)
issue hash fresh now (invalid_request m) g = (g, invalid_request m)
issue hash fresh now (not_found m) g = (g, not_found m)
issue hash fresh now (conflict m) g = (g, conflict m)

unfoldable pub issue_credential :
    (String → String)
    → (String → Option ℕ)
    → Fresh
    → ℕ
    → (body : Json) → Gateway
    → Gateway × Answer (CredentialInfo × String)
unfolding read_new_credential create_credential
issue_credential hash fraction_ms fresh now body g =
    issue hash fresh now (read_new_credential fraction_ms body g.storage) g
