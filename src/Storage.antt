-- ===== src/Storage.antt =====
-- src/storage.ts: issued credentials, backend identities and the epoch counter. The state is that
-- of `MemoryStorageState`; the SQL statements of the other branch read and write the same rows of
-- the same tables. `now` is `Date.now()`; random identifiers and tokens are arguments.
pub mod Identities
pub mod Credentials
pub mod Revocation
pub mod Exchange
pub mod Laws
pub mod Purging
use zclaudia_gateway.Prelude.{ℕ, ◌+◌, ◌*◌, String, ltb, if◌then◌else◌, Option, List, [], ◌∷◌}
use zclaudia_gateway.Map.{Map}

pub record BackendIdentity : Type 0 where
  pub backend_id : String
  pub tenant : String
  pub namespace : String
  pub instance_id : String
  pub environment : String
  pub name : String
  pub created_at : ℕ
  pub updated_at : ℕ
  pub last_credential_id : Option String
  pub last_seen_at : Option ℕ

pub data CredentialType : Type 0 where
  device backend backend_access : CredentialType

unfoldable pub token_prefix : CredentialType → String
token_prefix device = "zgd_"
token_prefix backend = "zgb_"
token_prefix backend_access = "zga_"

abbrev pub default_device_ttl_ms : ℕ
default_device_ttl_ms = 180 * 24 * 60 * 60 * 1000

abbrev pub default_backend_access_ttl_ms : ℕ
default_backend_access_ttl_ms = 24 * 60 * 60 * 1000

-- `CredentialInfo`: a record without the token's digest
pub record CredentialInfo : Type 0 where
  pub id : String
  pub type : CredentialType
  pub namespace : String
  pub name : String
  pub parent_id : Option String
  pub created_at : ℕ
  pub expires_at : Option ℕ
  pub revoked_at : Option ℕ
  pub last_used_at : Option ℕ
  pub backend_id : Option String
  pub allowed_backends : Option (List String)

pub record CredentialRecord : Type 0 where
  pub info : CredentialInfo
  pub open info use *
  pub token_hash : String

pub record Storage : Type 0 where
  pub credentials : Map CredentialRecord
  pub backend_identities : Map BackendIdentity
  pub max_epoch : ℕ

unfoldable pub allocate_epoch : Storage → Storage × ℕ
allocate_epoch s = (record s { max_epoch = s.max_epoch + 1 }, s.max_epoch + 1)

unfoldable pub get_max_epoch : Storage → ℕ
get_max_epoch s = s.max_epoch

-- One step of a stable sort, newest first: `sort((a, b) => b.createdAt - a.createdAt)`.
unfoldable pub insert_by {ℓ} : {A : Type ℓ} → (A → ℕ) → A → List A → List A
insert_by created x [] = x ∷ []
insert_by created x (y ∷ ys) =
    if ltb (created x) (created y) then y ∷ insert_by created x ys else x ∷ (y ∷ ys)

-- the library's `Array.prototype.sort` is stable; insertion from the right keeps equal elements
-- in their order
unfoldable pub newest_first {ℓ} : {A : Type ℓ} → (A → ℕ) → List A → List A
unfolding insert_by
newest_first created [] = []
newest_first created (x ∷ xs) = insert_by created x (newest_first created xs)
