-- ===== src/Http/Backends.antt =====
-- src/server.ts: the routes over the known backends: the admin's list and removal of an identity,
-- and the discovery for device pairing.
use zclaudia_gateway.Prelude.{
  ℕ, suc, String, Bool, true, false, not, ◌&&◌, ◌||◌, ltb, is_none, is_empty, get_or, if◌then◌else◌,
  Option, none, some, List, [], ◌∷◌, filter, map,
}
use zclaudia_gateway.Map.{Map, get, set, has}
use zclaudia_gateway.Storage.{Storage, BackendIdentity, CredentialInfo}
use zclaudia_gateway.Storage.Credentials.{get_credential, list_credentials}
use zclaudia_gateway.Storage.Identities.{
  list_backend_identities, get_backend_identity, delete_backend_identity,
}
use zclaudia_gateway.Storage.Revocation.{is_backend}
use zclaudia_gateway.State.{BackendPresence}
use zclaudia_gateway.Gateway.{Gateway}
use zclaudia_gateway.Gateway.Scope.{can_reach}
use zclaudia_gateway.Http.Answer.{Answer, ok, not_found, conflict}

-- the backend that an unrevoked backend credential is bound to; an empty id counts as none
abbrev pub binding_of : CredentialInfo → Option String
binding_of c =
    if is_backend c.type && is_none c.revoked_at
    then elim c.backend_id [ none ↦ none | some b ↦ if is_empty b then none else some b ]
    else none

abbrev pub count_one : Option String → Map ℕ → Map ℕ
count_one none counts = counts
count_one (some b) counts = set b (suc (get_or 0 (get b counts))) counts

-- the loop of `boundCredentialCounts`
unfoldable pub count_bindings : List CredentialInfo → Map ℕ → Map ℕ
unfolding get set
count_bindings [] counts = counts
count_bindings (c ∷ cs) counts = count_bindings cs (count_one (binding_of c) counts)

unfoldable pub bound_credential_counts : Storage → Map ℕ
unfolding count_bindings list_credentials
bound_credential_counts s = count_bindings (list_credentials s) []

pub record BackendRow : Type 0 where
  pub identity : BackendIdentity
  pub bound_credentials : ℕ
  -- the epoch and the time of the connection
  pub online : Option (ℕ × ℕ)

abbrev online_part : Option BackendPresence → Option (ℕ × ℕ)
online_part none = none
online_part (some presence) = some (presence.epoch, presence.connected_at)

-- `GET /api/admin/backends`
unfoldable pub list_backends : Gateway → List BackendRow
unfolding bound_credential_counts list_backend_identities get
list_backends g =
    let bound = bound_credential_counts g.storage in
    map
      (λ i. record {
        identity = i;
        bound_credentials = get_or 0 (get i.backend_id bound);
        online = online_part (get i.backend_id g.state.registry);
      })
      (list_backend_identities g.storage)

-- an unrevoked credential that is bound to no backend
abbrev pub is_legacy : Option CredentialInfo → Bool
is_legacy none = false
is_legacy (some c) = is_none c.revoked_at && is_none c.backend_id

-- the credential last seen registering the identity
unfoldable pub last_credential : BackendIdentity → Storage → Option CredentialInfo
unfolding get_credential
last_credential identity s = elim identity.last_credential_id [
  | none ↦ none
  | some id ↦ if is_empty id then none else get_credential id s
]

-- why an identity is kept
unfoldable pub in_use : BackendIdentity → (backend_id : String) → Gateway → Option String
unfolding bound_credential_counts last_credential get
in_use identity backend_id g =
    if has backend_id g.state.registry
    then some "Backend is online"
    else if ltb 0 (get_or 0 (get backend_id (bound_credential_counts g.storage)))
    then some "Unrevoked backend credentials are bound to this backend; revoke them first"
    else if is_legacy (last_credential identity g.storage)
    then some
        "The legacy credential last seen registering this backend is still active; bind or revoke it first"
    else none

-- `DELETE /api/admin/backends/:backendId` after its guard
unfoldable pub forget_backend : String → Gateway → Gateway × Answer {0} Unit
unfolding get_backend_identity in_use delete_backend_identity
forget_backend backend_id g = elim (get_backend_identity backend_id g.storage) [
  | none ↦ (g, not_found "Backend identity not found")
  | some identity ↦ elim (in_use identity backend_id g) [
    | some reason ↦ (g, conflict reason)
    | none ↦ (record g { storage = (delete_backend_identity backend_id g.storage).0 }, ok tt)
  ]
]

pub record DiscoveredBackend : Type 0 where
  pub backend_id : String
  pub name : String
  pub online : Bool
  pub last_seen_at : Option ℕ

abbrev pub discovered : BackendIdentity → Option BackendPresence → DiscoveredBackend
discovered i none = record {
  backend_id = i.backend_id;
  name = i.name;
  online = false;
  last_seen_at = i.last_seen_at;
}
discovered i (some presence) = record {
  backend_id = i.backend_id;
  name = i.name;
  online = true;
  last_seen_at = some presence.last_seen_at;
}

-- `y` strictly precedes `x`: online first, then the last seen
abbrev pub precedes : DiscoveredBackend → DiscoveredBackend → Bool
precedes y x =
    (y.online && not x.online)
    || ((not (x.online && not y.online)) && ltb (get_or 0 x.last_seen_at) (get_or 0 y.last_seen_at))

unfoldable pub insert_discovered :
    DiscoveredBackend → List DiscoveredBackend → List DiscoveredBackend
insert_discovered x [] = x ∷ []
insert_discovered x (y ∷ ys) = if precedes y x then y ∷ insert_discovered x ys else x ∷ (y ∷ ys)

-- the stable sort of the items
unfoldable pub sort_discovered : List DiscoveredBackend → List DiscoveredBackend
unfolding insert_discovered
sort_discovered [] = []
sort_discovered (x ∷ xs) = insert_discovered x (sort_discovered xs)

abbrev pub reaches_identity : CredentialInfo → BackendIdentity → Bool
unfolding can_reach
reaches_identity c i = can_reach c.namespace c.allowed_backends i.namespace i.backend_id

-- `GET /api/discovery/backends` for an authenticated credential
unfoldable pub discover : CredentialInfo → Gateway → List DiscoveredBackend
unfolding list_backend_identities sort_discovered get can_reach
discover c g = sort_discovered (
    map (λ i. discovered i (get i.backend_id g.state.registry))
      (filter (reaches_identity c) (list_backend_identities g.storage)))
