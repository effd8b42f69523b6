-- ===== src/Tests/Requests.antt =====
-- The guard of the admin routes and a revocation at concrete inputs.
use mathlib.Core.List.{Memᴰ}
use zclaudia_gateway.Prelude.{String, false, inr, Option, none, some, [], ◌∷◌, refl}
use zclaudia_gateway.Map.{get}
use zclaudia_gateway.AdminSession.{SessionStore, validate}
use zclaudia_gateway.Gateway.{Gateway, close}
use zclaudia_gateway.Gateway.Events.{start}
use zclaudia_gateway.Http.{
  Request, bearer_token, session_of_cookie, is_mutating_request, is_trusted_origin, require_admin,
}
use zclaudia_gateway.Http.Credentials.{delete_credential}
use zclaudia_gateway.Http.Access.{Admin, require_admin-Admin, delete_credential-closes}
use zclaudia_gateway.State.{PeerSession, initial}
use zclaudia_gateway.Storage.{CredentialRecord, backend, backend_access}
use zclaudia_gateway.Tests.Data.{config, storage, peer, credential}

-- a deletion from the admin web UI
abbrev deletion : Request
deletion = record {
  ip = "ip1";
  method = "DELETE";
  authorization = none;
  origin = some "https://gw";
  host = some "gw";
  cookie = some "s";
}

abbrev sessions : SessionStore
sessions = record { sessions = ("s", 50) ∷ []; ttl_ms = 100 }

abbrev url_host : String → Option String
url_host origin = some "gw"

require_admin-Admin_example : Admin url_host none "token" 20 deletion sessions
unfolding require_admin bearer_token validate get is_mutating_request is_trusted_origin
    session_of_cookie
require_admin-Admin_example =
    require_admin-Admin url_host none "token" config 20 deletion sessions (start 30_000 storage)
      false refl

-- an access credential that was exchanged for the backend's
abbrev access : CredentialRecord
access = credential "zga_1" backend_access (some "zgb_1") (some "b1") none

abbrev client : PeerSession
client = record (peer "s2" "w2" none) { credential_id = some "zga_1" }

abbrev connected : Gateway
unfolding start initial
connected =
    let g =
      start 30_000 (record storage { credentials = ("zga_1", access) ∷ storage.credentials }) in
    record g { state = record (g.state) { peers = ("s2", client) ∷ [] } }

-- the backend's credential is revoked, and its child's socket closed
delete_credential-closes_example :
    Memᴰ (close "w2" 1008 "Credential revoked") (delete_credential "zgb_1" 20 connected).0.out
unfolding delete_credential get connected start initial
delete_credential-closes_example =
    delete_credential-closes "zgb_1" "s2" "zga_1" 20 connected
      (credential "zgb_1" backend none (some "b1") none) access client refl refl refl refl
      (inr (refl, refl)) refl refl refl
