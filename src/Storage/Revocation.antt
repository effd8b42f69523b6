-- ===== src/Storage/Revocation.antt =====
-- src/storage.ts: binding, scoping, revoking and purging credentials.
use zclaudia_gateway.Prelude.{
  ℕ, String, Bool, true, false, ◌==◌, ◌&&◌, ◌||◌, not, is_some, is_none, option_eq, includes,
  if◌then◌else◌, Option, none, some, List, [], ◌∷◌, ◌++◌, filter, map,
}
use zclaudia_gateway.Map.{Map, get, update, map_entries, values, delete}
use zclaudia_gateway.Storage.{Storage, CredentialType, device, backend, CredentialRecord}

abbrev pub is_backend : CredentialType → Bool
is_backend backend = true
is_backend _ = false

abbrev pub is_device : CredentialType → Bool
is_device device = true
is_device _ = false

abbrev pub bound_to : String → CredentialRecord → CredentialRecord
bound_to backend_id c = record c { info = record (c.info) { backend_id = some backend_id } }

unfoldable pub bind_backend_credential : String → String → Storage → Storage × Bool
bind_backend_credential id backend_id s = elim (get id s.credentials) [
  | none ↦ (s, false)
  | some c ↦
      if not (is_backend c.info.type) || is_some c.info.revoked_at || is_some c.info.backend_id
      then (s, false)
      else (
        record s {
          credentials =
              map_entries
                (λ _ d.
                  if (d.info.id == id || option_eq d.info.parent_id id) && is_none d.info.revoked_at
                  then bound_to backend_id d
                  else d)
                s.credentials;
        },
        true,
      )
]

abbrev pub scoped_to : Option (List String) → CredentialRecord → CredentialRecord
scoped_to scope c = record c { info = record (c.info) { allowed_backends = scope } }

unfoldable pub set_allowed_backends : String → Option (List String) → Storage → Storage × Bool
set_allowed_backends id scope s = elim (get id s.credentials) [
  | none ↦ (s, false)
  | some c ↦
      if not (is_device c.info.type) || is_some c.info.revoked_at
      then (s, false)
      else (record s { credentials = update id (scoped_to scope) s.credentials }, true)
]

abbrev pub revoked : ℕ → CredentialRecord → CredentialRecord
revoked now c = record c { info = record (c.info) { revoked_at = some now } }

-- a child that the cascade reaches
abbrev pub is_child : String → CredentialRecord → Bool
is_child id c = option_eq c.info.parent_id id && is_none c.info.revoked_at

abbrev pub revoke_child : String → ℕ → CredentialRecord → CredentialRecord
revoke_child id now c = if is_child id c then revoked now c else c

unfoldable pub revoke_credential : String → ℕ → Storage → Storage × List String
revoke_credential id now s = elim (get id s.credentials) [
  | none ↦ (s, [])
  | some c ↦
      if is_some c.info.revoked_at
      then (s, [])
      else (let own = update id (revoked now) s.credentials in
          (
            record s { credentials = map_entries (λ _ d. revoke_child id now d) own },
            id ∷ map (λ d. d.info.id) (filter (is_child id) (values own)),
          ))
]

-- `ids.flatMap((id) => this.revokeCredential(id))`
unfoldable pub revoke_credentials : List String → ℕ → Storage → Storage × List String
unfolding revoke_credential
revoke_credentials [] now s = (s, [])
revoke_credentials (id ∷ ids) now s =
    let (s', gone) = revoke_credential id now s in
    let (s'', rest) = revoke_credentials ids now s' in (s'', gone ++ rest)

abbrev pub wanted : Option (List String) → String → Bool
wanted none id = true
wanted (some ids) id = includes ids id

abbrev pub purgeable : Option (List String) → CredentialRecord → Bool
purgeable ids c = is_some c.info.revoked_at && wanted ids c.info.id

unfoldable pub delete_all : List String → Map CredentialRecord → Map CredentialRecord
delete_all [] m = m
delete_all (id ∷ ids) m = delete_all ids (delete id m)

unfoldable pub purge_revoked_credentials : Option (List String) → Storage → Storage × List String
unfolding delete_all
purge_revoked_credentials ids s =
    let deleted = map (λ c. c.info.id) (filter (purgeable ids) (values s.credentials)) in
    (record s { credentials = delete_all deleted s.credentials }, deleted)
