-- ===== src/Http/Credentials.antt =====
-- src/server.ts, the admin routes that bind, scope, revoke and purge credentials, after their guard.
use zclaudia_gateway.Prelude.{
  ℕ, String, Bool, false, not, ◌&&◌, is_some, is_empty, includes, option_eq, if◌then◌else◌, Option,
  none, some, List, [], ◌∷◌, dedup_from, filter, all,
}
use zclaudia_gateway.Json.{Json, member, as_array, is_text}
use zclaudia_gateway.Map.{values}
use zclaudia_gateway.Storage.{CredentialInfo}
use zclaudia_gateway.Storage.Credentials.{get_credential}
use zclaudia_gateway.Storage.Revocation.{
  is_backend, is_device, bind_backend_credential, set_allowed_backends, revoke_credential,
  revoke_credentials, purge_revoked_credentials,
}
use zclaudia_gateway.State.{PeerSession}
use zclaudia_gateway.Gateway.{Gateway, close, emit}
use zclaudia_gateway.Http.Answer.{Answer, ok, invalid_request, not_found, conflict, ◌>>=◌}
use zclaudia_gateway.Http.Issue.{texts, parse_backend_scope, known_backend}

abbrev pub has_credential : List String → PeerSession → Bool
has_credential revoked peer = elim peer.credential_id [
  | none ↦ false
  | some id ↦ not (is_empty id) && includes revoked id
]

-- the loop of `afterRevoke` over the peers
unfoldable pub close_revoked : List String → List PeerSession → Gateway → Gateway
close_revoked revoked [] g = g
close_revoked revoked (peer ∷ peers) g =
    close_revoked revoked peers
      (if has_credential revoked peer then emit (close peer.ws 1008 "Credential revoked") g else g)

unfoldable pub after_revoke : List String → Gateway → Gateway
unfolding close_revoked
after_revoke [] g = g
after_revoke (id ∷ ids) g = close_revoked (id ∷ ids) (values g.state.peers) g

-- the answer to a revocation of these ids
unfoldable pub answer_revoked : List String → Gateway → Gateway × Answer (List String)
unfolding after_revoke
answer_revoked [] g = (g, not_found "Credential not found or already revoked")
answer_revoked (id ∷ ids) g = (after_revoke (id ∷ ids) g, ok (id ∷ ids))

-- `DELETE /api/admin/credentials/:id`
unfoldable pub delete_credential : String → ℕ → Gateway → Gateway × Answer (List String)
unfolding revoke_credential answer_revoked
delete_credential id now g =
    let (s, revoked) = revoke_credential id now g.storage in
    answer_revoked revoked (record g { storage = s })

-- the texts of an array of texts
abbrev pub text_list : Option Json → Option (List String)
text_list none = none
text_list (some v) = elim (as_array v) [
  | none ↦ none
  | some vs ↦ if all is_text vs then some (texts vs) else none
]

-- revoking the distinct ids: those revoked, and those that were unknown or revoked before
unfoldable pub revoke_ids : List String → ℕ → Gateway → Gateway × Answer (List String × List String)
unfolding revoke_credentials after_revoke
revoke_ids requested now g =
    let (s, revoked) = revoke_credentials requested now g.storage in
    (
      after_revoke revoked (record g { storage = s }),
      ok (revoked, filter (λ id. not (includes revoked id)) requested),
    )

abbrev no_ids : {A : Type 0} → Answer A
no_ids = invalid_request "ids must be a non-empty array of strings"

-- `POST /api/admin/credentials/revoke`
unfoldable pub revoke_many :
    (body : Json) → ℕ → Gateway → Gateway × Answer (List String × List String)
unfolding member revoke_credentials after_revoke
revoke_many body now g = elim (text_list (member "ids" body)) [
  | none ↦ (g, no_ids)
  | some [] ↦ (g, no_ids)
  | some (id ∷ ids) ↦ revoke_ids (dedup_from [] (id ∷ ids)) now g
]

unfoldable pub purge_ids : Option (List String) → Gateway → Gateway × Answer (List String)
unfolding purge_revoked_credentials
purge_ids ids g =
    let (s, deleted) = purge_revoked_credentials ids g.storage in
    (record g { storage = s }, ok deleted)

-- `POST /api/admin/credentials/purge`
unfoldable pub purge : (body : Json) → Gateway → Gateway × Answer (List String)
unfolding member purge_revoked_credentials
purge body g = elim (member "ids" body) [
  | none ↦ purge_ids none g
  | some v ↦ elim (text_list (some v)) [
    | none ↦ (g, invalid_request "ids must be an array of strings")
    | some ids ↦ purge_ids (some ids) g
  ]
]

abbrev found : Option CredentialInfo → Answer CredentialInfo
found none = not_found "Credential not found"
found (some c) = ok c

abbrev bindable : CredentialInfo → Bool
bindable c = is_backend c.type && (not (is_some c.revoked_at) && not (is_some c.backend_id))

-- the checks of `POST /api/admin/credentials/:id/bind`: the credential and its backend
unfoldable pub check_bind : String → (body : Json) → Gateway → Answer (CredentialInfo × String)
unfolding get_credential known_backend member
check_bind id body g = do
  c ← found (get_credential id g.storage)
  if bindable c
      then (do b ← known_backend (member "backendId" body) c.namespace g.storage; ok (c, b))
      else conflict "Only unrevoked, unbound backend credentials can be bound"

unfoldable pub bind_checked :
    Answer (CredentialInfo × String) → Gateway → Gateway × Answer (Option CredentialInfo)
unfolding bind_backend_credential get_credential
bind_checked (ok (c, b)) g =
    let s = (bind_backend_credential c.id b g.storage).0 in
    (record g { storage = s }, ok (get_credential c.id s))
bind_checked (invalid_request m) g = (g, invalid_request m)
bind_checked (not_found m) g = (g, not_found m)
bind_checked (conflict m) g = (g, conflict m)

unfoldable pub bind_credential :
    String → (body : Json) → Gateway → Gateway × Answer (Option CredentialInfo)
unfolding check_bind bind_backend_credential get_credential
bind_credential id body g = bind_checked (check_bind id body g) g

abbrev scopable : CredentialInfo → Bool
scopable c = is_device c.type && not (is_some c.revoked_at)

abbrev body_scope : Option Json → String → Gateway → Answer (Option (List String))
unfolding parse_backend_scope
body_scope none namespace g = invalid_request "allowedBackends is required (null = whole namespace)"
body_scope (some v) namespace g = parse_backend_scope v namespace g.storage

-- the checks of `PATCH /api/admin/credentials/:id`
unfoldable pub check_scope :
    String → (body : Json) → Gateway → Answer (CredentialInfo × Option (List String))
unfolding get_credential parse_backend_scope member
check_scope id body g = do
  c ← found (get_credential id g.storage)
  if scopable c
      then (do scope ← body_scope (member "allowedBackends" body) c.namespace g; ok (c, scope))
      else conflict "Only unrevoked device credentials have a backend scope"

-- the route's loop over the peers: those of the credential are closed
unfoldable pub close_scoped : String → List PeerSession → Gateway → Gateway
close_scoped id [] g = g
close_scoped id (peer ∷ peers) g = close_scoped id peers (
    if option_eq peer.credential_id id
    then emit (close peer.ws 1008 "Credential scope changed") g
    else g)

unfoldable pub scope_checked :
    Answer (CredentialInfo × Option (List String))
    → Gateway
    → Gateway × Answer (Option CredentialInfo)
unfolding set_allowed_backends close_scoped get_credential
scope_checked (ok (c, scope)) g =
    let s = (set_allowed_backends c.id scope g.storage).0 in
    (
      close_scoped c.id (values g.state.peers) (record g { storage = s }),
      ok (get_credential c.id s),
    )
scope_checked (invalid_request m) g = (g, invalid_request m)
scope_checked (not_found m) g = (g, not_found m)
scope_checked (conflict m) g = (g, conflict m)

unfoldable pub change_scope :
    String → (body : Json) → Gateway → Gateway × Answer (Option CredentialInfo)
unfolding check_scope set_allowed_backends close_scoped get_credential
change_scope id body g = scope_checked (check_scope id body g) g
