-- ===== src/Storage/Credentials.antt =====
-- src/storage.ts: issuing a credential and resolving a token. `hash_credential_token` is SHA-256.
use zclaudia_gateway.Prelude.{
  ℕ, ◌+◌, String, Bool, true, false, ltb, ◌==◌, ◌<>◌, ◌&&◌, not, is_none, get_or, if◌then◌else◌,
  Option, none, some, List, find, map,
}
use zclaudia_gateway.Map.{get, set, update, values}
use zclaudia_gateway.Storage.{
  Storage, CredentialType, device, backend, backend_access, CredentialInfo, CredentialRecord,
  token_prefix, default_device_ttl_ms, default_backend_access_ttl_ms, newest_first,
}
use zclaudia_gateway.Storage.Identities.{create_bound_backend_identity}

-- A `ttlMs` argument: left out, `null` (never expires), or a number of milliseconds.
pub data Ttl : Type 0 where
  by_default never : Ttl
  for_ms : ℕ → Ttl

abbrev pub ttl_ms : CredentialType → Ttl → Option ℕ
ttl_ms device by_default = some default_device_ttl_ms
ttl_ms backend_access by_default = some default_backend_access_ttl_ms
ttl_ms backend by_default = none
ttl_ms _ never = none
ttl_ms _ (for_ms n) = some n

abbrev pub expiry : ℕ → Option ℕ → Option ℕ
expiry now none = none
expiry now (some ttl) = some (now + ttl)

pub record NewCredential : Type 0 where
  pub type : CredentialType
  pub namespace : String
  pub name : Option String
  pub ttl : Ttl
  pub parent_id : Option String
  pub backend_id : Option String
  pub allowed_backends : Option (List String)

-- What the random generators return for one credential: its id, its secret, a new backend's id.
pub record Fresh : Type 0 where
  pub id : String
  pub secret : String
  pub backend_uuid : String

-- the backend that a new credential is, and the storage with its identity where that is new
abbrev pub assign_backend :
    NewCredential → Fresh → ℕ → Storage → CredentialType → Storage × Option String
unfolding create_bound_backend_identity
assign_backend input fresh now s device = (s, none)
assign_backend input fresh now s backend = elim input.backend_id [
  | some id ↦ (s, some id)
  | none ↦ (
    create_bound_backend_identity input.namespace (get_or "" input.name) fresh.backend_uuid now s,
    some fresh.backend_uuid,
  )
]
assign_backend input fresh now s backend_access = (s, input.backend_id)

abbrev pub scope_of : CredentialType → Option (List String) → Option (List String)
scope_of device scope = scope
scope_of _ scope = none

module _ (hash_credential_token : String → String) where
  unfoldable pub create_credential :
      NewCredential → Fresh → ℕ → Storage → Storage × (CredentialInfo × String)
  unfolding token_prefix create_bound_backend_identity
  create_credential input fresh now s =
      let token = token_prefix input.type <> fresh.secret in
      let (s', backend_id) = assign_backend input fresh now s input.type in
      let info : CredentialInfo = record {
        id = fresh.id;
        type = input.type;
        namespace = input.namespace;
        name = get_or "" input.name;
        parent_id = input.parent_id;
        created_at = now;
        expires_at = expiry now (ttl_ms input.type input.ttl);
        revoked_at = none;
        last_used_at = none;
        backend_id = backend_id;
        allowed_backends = scope_of input.type input.allowed_backends;
      } in
      (
        record s' {
          credentials =
              set fresh.id (record { info = info; token_hash = hash_credential_token token })
                s'.credentials;
        },
        (info, token),
      )

unfoldable pub get_credential_by_hash : String → Storage → Option CredentialRecord
get_credential_by_hash hash s = find (λ c. c.token_hash == hash) (values s.credentials)

unfoldable pub get_credential_by_id : String → Storage → Option CredentialRecord
get_credential_by_id id s = get id s.credentials

unfoldable pub get_credential : String → Storage → Option CredentialInfo
unfolding get_credential_by_id
get_credential id s = elim (get_credential_by_id id s) [ none ↦ none | some c ↦ some c.info ]

unfoldable pub list_credentials : Storage → List CredentialInfo
unfolding newest_first
list_credentials s =
    map (λ c. c.info) (newest_first (λ c. c.info.created_at) (values s.credentials))

-- `expiresAt !== null && now > expiresAt`
abbrev pub is_expired : ℕ → Option ℕ → Bool
is_expired now none = false
is_expired now (some t) = ltb t now

-- not revoked and not expired
abbrev pub is_live : ℕ → CredentialRecord → Bool
is_live now c = is_none c.info.revoked_at && not (is_expired now c.info.expires_at)

abbrev pub live_parent : ℕ → Option CredentialRecord → Bool
live_parent now none = false
live_parent now (some parent) = is_live now parent

-- a record without a parent, or one whose parent is live
abbrev pub parent_ok : ℕ → Storage → Option String → Bool
parent_ok now s none = true
parent_ok now s (some id) = live_parent now (get id s.credentials)

abbrev pub used_at : ℕ → CredentialRecord → CredentialRecord
used_at now c = record c { info = record (c.info) { last_used_at = some now } }

-- the tests of `findValidCredential` on the record that carries the digest
abbrev pub is_valid : ℕ → Storage → CredentialRecord → Bool
is_valid now s c = is_live now c && parent_ok now s c.info.parent_id

module _ (hash_credential_token : String → String) where
  unfoldable pub find_valid_credential : String → ℕ → Storage → Storage × Option CredentialInfo
  unfolding get_credential_by_hash
  find_valid_credential token now s =
      elim (get_credential_by_hash (hash_credential_token token) s) [
        | none ↦ (s, none)
        | some c ↦
            if is_valid now s c
            then (
              record s { credentials = update c.info.id (used_at now) s.credentials },
              some (used_at now c).info,
            )
            else (s, none)
      ]
