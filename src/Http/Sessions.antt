-- ===== src/Http/Sessions.antt =====
-- src/server.ts: the admin's login, probe and logout, the dashboard, and the exchange of a backend's
-- enrollment credential for an access token.
use zclaudia_gateway.Prelude.{
  ℕ, suc, String, Bool, false, not, ◌==◌, ◌&&◌, nat_eq, leb, is_none, is_empty, get_or,
  if◌then◌else◌, Option, none, some, List, [], ◌∷◌, length, filter,
}
use zclaudia_gateway.Json.{Json, text, member}
use zclaudia_gateway.Map.{Map, get, set, values, size}
use zclaudia_gateway.AdminSession.{SessionStore, create, destroy, expires_at}
use zclaudia_gateway.Storage.{CredentialType, device, backend, backend_access, CredentialInfo}
use zclaudia_gateway.Storage.Credentials.{Fresh, Ttl, list_credentials}
use zclaudia_gateway.Storage.Exchange.{exchange_access_credential}
use zclaudia_gateway.Storage.Identities.{list_backend_identities}
use zclaudia_gateway.Storage.Revocation.{is_backend}
use zclaudia_gateway.State.{PeerSession}
use zclaudia_gateway.Gateway.{Gateway, Config}
use zclaudia_gateway.Gateway.Hello.{resolve_token}
use zclaudia_gateway.Http.{
  Request, Outcome, admitted, forbidden, bearer_token, deny, session_of_cookie,
}

-- the body's token; one that is no text is `''`
abbrev pub token_of : Option Json → String
token_of (some (text t)) = t
token_of _ = ""

-- `POST /api/admin/session`: the new session's id, which is its cookie, and its end
unfoldable pub login :
    (admin_token : String)
    → Config
    → (id : String) (now : ℕ) → Request
    → (body : Json) → SessionStore
    → Gateway
    → SessionStore × (Gateway × Outcome (String × ℕ))
unfolding deny create member
login admin_token cfg id now req body s g =
    let token = token_of (member "token" body) in
    if not (is_empty token) && (token == admin_token)
    then (let (s', session) = create id now s in (s', (g, admitted session)))
    else (s, deny cfg now req g)

-- `GET /api/admin/session`: the end of the cookie's session, `none` where the answer is 401
unfoldable pub probe : ℕ → Option String → SessionStore → SessionStore × Option (Option ℕ)
unfolding session_of_cookie expires_at
probe now cookie s =
    let (s', valid) = session_of_cookie now cookie s in
    if valid then (s', some (expires_at (get_or "" cookie) s')) else (s', none)

-- `DELETE /api/admin/session`
unfoldable pub logout : ℕ → Option String → SessionStore → SessionStore
unfolding session_of_cookie destroy
logout now cookie s =
    let (s', valid) = session_of_cookie now cookie s in
    if valid then destroy (get_or "" cookie) s' else s'

pub record Counters : Type 0 where
  pub total : ℕ
  pub active : ℕ
  pub revoked : ℕ
  pub expired : ℕ
  pub by_type : Map ℕ

abbrev type_name : CredentialType → String
type_name device = "device"
type_name backend = "backend"
type_name backend_access = "backend-access"

-- `credential.revokedAt` as a condition: a time of 0 is falsy
abbrev pub marked_revoked : Option ℕ → Bool
marked_revoked none = false
marked_revoked (some t) = not (nat_eq t 0)

-- `expiresAt !== null && expiresAt <= now`
abbrev pub past : ℕ → Option ℕ → Bool
past now none = false
past now (some t) = leb t now

abbrev count_type : CredentialType → Map ℕ → Map ℕ
count_type type m = set (type_name type) (suc (get_or 0 (get (type_name type) m))) m

abbrev pub count_credential : ℕ → CredentialInfo → Counters → Counters
unfolding get set
count_credential now c n =
    let n' : Counters = record n { by_type = count_type c.type n.by_type } in
    if marked_revoked c.revoked_at
    then record n' { revoked = suc n.revoked }
    else if past now c.expires_at
    then record n' { expired = suc n.expired }
    else record n' { active = suc n.active }

unfoldable pub count_credentials : ℕ → List CredentialInfo → Counters → Counters
unfolding get set
count_credentials now [] n = n
count_credentials now (c ∷ cs) n = count_credentials now cs (count_credential now c n)

pub record Overview : Type 0 where
  pub backends : ℕ
  pub backend_identities : ℕ
  pub legacy_backend_credentials : ℕ
  pub peers : List PeerSession
  pub counters : Counters

-- a backend credential that is in use and bound to no backend
abbrev pub is_legacy_backend : CredentialInfo → Bool
is_legacy_backend c = is_backend c.type && (is_none c.revoked_at && is_none c.backend_id)

-- `GET /api/admin/overview`, less the process's uptime; of a peer the code shows some fields
unfoldable pub overview : ℕ → Gateway → Overview
unfolding list_credentials count_credentials list_backend_identities
overview now g =
    let credentials = list_credentials g.storage in
    let empty : Counters = record {
      total = length credentials;
      active = 0;
      revoked = 0;
      expired = 0;
      by_type = [];
    } in
    record {
      backends = size g.state.registry;
      backend_identities = length (list_backend_identities g.storage);
      legacy_backend_credentials = length (filter is_legacy_backend credentials);
      peers = values g.state.peers;
      counters = count_credentials now credentials empty;
    }

-- the bearer token, `''` where there is none
abbrev pub bearer_or_empty : Option String → String
unfolding bearer_token
bearer_or_empty header = get_or "" (bearer_token header)

-- the exchange by a credential that the token resolved to
unfoldable pub exchange :
    (String → String)
    → Ttl
    → Fresh
    → ℕ
    → CredentialInfo
    → CredentialType
    → Gateway
    → Gateway × Outcome (String × (Option ℕ × String))
unfolding exchange_access_credential
exchange hash ttl fresh now c backend g =
    let (s, issued) = exchange_access_credential hash c ttl fresh now g.storage in
    (record g { storage = s }, admitted (issued.1, (issued.0.expires_at, issued.0.namespace)))
exchange hash ttl fresh now c _ g = (g, forbidden)

-- `POST /api/backend/token`: the access token, its end and its namespace
unfoldable pub exchange_token :
    (cfg : Config) (hash : String → String) (ttl : Ttl)
    → Fresh
    → (now : ℕ) → Request
    → Gateway
    → Gateway × Outcome (String × (Option ℕ × String))
unfolding bearer_token resolve_token deny exchange_access_credential
exchange_token cfg hash ttl fresh now req g =
    let token = bearer_or_empty req.authorization in
    if is_empty token
    then deny cfg now req g
    else (let (s, auth) = resolve_token hash token now g.storage in
        let g' : Gateway = record g { storage = s } in
        elim auth [ none ↦ deny cfg now req g' | some c ↦ exchange hash ttl fresh now c c.type g' ])
