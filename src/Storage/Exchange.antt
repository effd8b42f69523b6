-- ===== src/Storage/Exchange.antt =====
-- src/storage.ts: `exchangeAccessCredential`, which rotates an enrollment's access credential.
use zclaudia_gateway.Prelude.{
  ℕ, String, Bool, true, false, ◌<>◌, ◌&&◌, is_empty, option_eq, if◌then◌else◌, Option, none, some,
  find,
}
use zclaudia_gateway.Map.{update, values}
use zclaudia_gateway.Storage.{
  Storage, CredentialType, backend_access, CredentialInfo, CredentialRecord, token_prefix,
}
use zclaudia_gateway.Storage.Credentials.{
  Fresh, Ttl, expiry, ttl_ms, NewCredential, create_credential,
}

abbrev pub is_access : CredentialType → Bool
is_access backend_access = true
is_access _ = false

unfoldable pub find_access_credential : String → Storage → Option CredentialRecord
find_access_credential parent_id s =
    find (λ c. is_access c.info.type && option_eq c.info.parent_id parent_id) (values s.credentials)

-- `access:${parent.name || parent.id}`
unfoldable pub access_credential_name : CredentialInfo → String
access_credential_name parent =
    "access:" <> (if is_empty parent.name then parent.id else parent.name)

-- what `Object.assign` writes over the row
abbrev pub rotated : CredentialInfo → String → ℕ → Ttl → CredentialRecord → CredentialRecord
unfolding access_credential_name
rotated parent hash now ttl c = record c {
  info = record (c.info) {
    namespace = parent.namespace;
    name = access_credential_name parent;
    created_at = now;
    expires_at = expiry now (ttl_ms backend_access ttl);
    revoked_at = none;
    backend_id = parent.backend_id;
  };
  token_hash = hash;
}

abbrev pub access_input : CredentialInfo → Ttl → NewCredential
unfolding access_credential_name
access_input parent ttl = record {
  type = backend_access;
  namespace = parent.namespace;
  name = some (access_credential_name parent);
  ttl = ttl;
  parent_id = some parent.id;
  backend_id = parent.backend_id;
  allowed_backends = none;
}

module _ (hash_credential_token : String → String) where
  unfoldable pub exchange_access_credential :
      CredentialInfo → Ttl → Fresh → ℕ → Storage → Storage × (CredentialInfo × String × Bool)
  unfolding find_access_credential create_credential access_credential_name token_prefix
  exchange_access_credential parent ttl fresh now s = elim (find_access_credential parent.id s) [
    | none ↦
        let (s', created) =
          create_credential hash_credential_token (access_input parent ttl) fresh now s in
        (s', (created.0, created.1, false))
    | some existing ↦
        let token = token_prefix backend_access <> fresh.secret in
        let row = rotated parent (hash_credential_token token) now ttl in
        (
          record s { credentials = update existing.info.id row s.credentials },
          ((row existing).info, token, true),
        )
  ]
