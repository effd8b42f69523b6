-- ===== src/Http.antt =====
-- src/server.ts, HTTP endpoints: the guards of the routes, and revoking through the admin routes. A
-- request is the parts of it that they read.
pub mod Access
pub mod Guarded
pub mod Failing
pub mod Forgetting
pub mod Answer
pub mod Issue
pub mod Credentials
pub mod Backends
pub mod Sessions
pub mod Admin
pub mod Reads
pub mod Synced
pub mod Proxy
pub mod Bridge
use text.Mathlib.Text.{starts_with}
use Prim.Native.String.{len, slice}
use zclaudia_gateway.Prelude.{
  ℕ, String, Bool, true, false, not, ◌==◌, ◌&&◌, ◌||◌, if◌then◌else◌, includes, is_empty, option_eq,
  Option, none, some, List, [], ◌∷◌, dedup_from, filter, all, map,
}
use zclaudia_gateway.Map.{Map, get, values}
use zclaudia_gateway.RateLimit.{Denial, deny_unauthorized}
use zclaudia_gateway.AdminSession.{SessionStore, validate}
use zclaudia_gateway.Storage.{Storage, CredentialInfo}
use zclaudia_gateway.Storage.Revocation.{revoke_credential}
use zclaudia_gateway.State.{PeerSession}
use zclaudia_gateway.Gateway.{Gateway, Config, close, emit}
use zclaudia_gateway.Gateway.Hello.{resolve_token}
use zclaudia_gateway.Gateway.Scope.{is_known_backend}

pub record Request : Type 0 where
  pub ip : String
  pub method : String
  pub authorization : Option String
  pub origin : Option String
  pub host : Option String
  -- the admin session's cookie
  pub cookie : Option String

-- How a guard ends: `next()` with what it found, or an answer.
pub data Outcome {ℓ} (A : Type ℓ) : Type ℓ where
  admitted : A → Outcome A
  denied : Denial → Outcome A
  forbidden : Outcome A

abbrev pub bearer_prefix : String
bearer_prefix = "Bearer "

-- the token of an `Authorization: Bearer …` header
unfoldable pub bearer_token : Option String → Option String
bearer_token none = none
bearer_token (some header) =
    if starts_with header bearer_prefix
    then some (slice header (len bearer_prefix) (len header))
    else none

-- `denyUnauthorized` for this request
unfoldable pub deny {ℓ} : {A : Type ℓ} → Config → ℕ → Request → Gateway → Gateway × Outcome A
unfolding deny_unauthorized
deny cfg now req g =
    let (b, denial) = deny_unauthorized cfg.limits now g.buckets req.ip in
    (record g { buckets = b }, denied denial)

unfoldable pub require_gateway_auth :
    Config → (String → String) → ℕ → Request → Gateway → Gateway × Outcome CredentialInfo
unfolding deny resolve_token
require_gateway_auth cfg hash now req g = elim (bearer_token req.authorization) [
  | none ↦ deny cfg now req g
  | some token ↦
      let (s, auth) = resolve_token hash token now g.storage in
      let g' : Gateway = record g { storage = s } in
      elim auth [ none ↦ deny cfg now req g' | some credential ↦ (g', admitted credential) ]
]

-- the peer of a recovery token
unfoldable pub recovered_peer : String → Gateway → Option PeerSession
recovered_peer token g = elim (get token g.recovery_tokens) [
  | none ↦ none
  | some id ↦ if is_empty id then none else get id g.state.peers
]

unfoldable pub require_recovery_token :
    Config → ℕ → Request → Gateway → Gateway × Outcome PeerSession
unfolding deny recovered_peer
require_recovery_token cfg now req g = elim (bearer_token req.authorization) [
  | none ↦ deny cfg now req g
  | some token ↦ elim (recovered_peer token g) [
    | none ↦ deny cfg now req g
    | some peer ↦ (g, admitted peer)
  ]
]

unfoldable pub is_mutating_request : Request → Bool
is_mutating_request req =
    not (req.method == "GET") && (not (req.method == "HEAD") && not (req.method == "OPTIONS"))

-- `url_host` is the host that `new URL(origin)` finds, `none` where it throws
unfoldable pub is_trusted_origin :
    (url_host : String → Option String) → Option (List String) → Request → Bool
is_trusted_origin url_host allowed req = elim req.origin [
  | none ↦ false
  | some origin ↦ if is_empty origin then false else elim allowed [
    | some (o ∷ os) ↦ includes (o ∷ os) origin
    | _ ↦ elim (url_host origin) [ none ↦ false | some host ↦ option_eq req.host host ]
  ]
]

-- a cookie that is there, not empty, and of a valid session
unfoldable pub session_of_cookie : ℕ → Option String → SessionStore → SessionStore × Bool
unfolding validate
session_of_cookie now none s = (s, false)
session_of_cookie now (some id) s = if is_empty id then (s, false) else validate id now s

abbrev pub is_admin_token : String → Option String → Bool
is_admin_token admin_token none = false
is_admin_token admin_token (some token) = token == admin_token

module _ (url_host : String → Option String) (allowed : Option (List String))
    (admin_token : String) where
  unfoldable pub require_admin :
      Config → ℕ → Request → SessionStore → Gateway → SessionStore × (Gateway × Outcome Bool)
  unfolding deny session_of_cookie is_mutating_request is_trusted_origin
  require_admin cfg now req s g =
      if is_admin_token admin_token (bearer_token req.authorization)
      then (s, (g, admitted true))
      else (let (s', valid) = session_of_cookie now req.cookie s in
          if not valid
          then (s', deny cfg now req g)
          else if is_mutating_request req && not (is_trusted_origin url_host allowed req)
          then (s', (g, forbidden))
          else (s', (g, admitted false)))
