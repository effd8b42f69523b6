-- ===== src/Tests/Credentials.antt =====
-- The storage's theorems at concrete inputs.
use zclaudia_gateway.Prelude.{none, some, [], ◌∷◌, ◌≡◌, ◌≢◌, refl}
use zclaudia_gateway.Map.{get, map_entries}
use zclaudia_gateway.Storage.{CredentialInfo, backend, device}
use zclaudia_gateway.Storage.Credentials.{find_valid_credential, used_at, get_credential_by_hash}
use zclaudia_gateway.Storage.Identities.{get_or_create_backend_id}
use zclaudia_gateway.Storage.Revocation.{revoke_credential}
use zclaudia_gateway.Storage.Laws.{
  Resolved, find_valid_credential-Resolved, revoke_credential-Resolved,
  get_or_create_backend_id-again,
}
use zclaudia_gateway.Tests.Data.{hash, storage, credential}

abbrev device_info : CredentialInfo
device_info = (used_at 100 (credential "zgd_1" device none none (some ("b1" ∷ [])))).info

find_valid_credential-Resolved_example : Resolved hash "zgd_1" 100 storage device_info
unfolding find_valid_credential get_credential_by_hash
find_valid_credential-Resolved_example =
    find_valid_credential-Resolved hash "zgd_1" 100 storage device_info refl

-- the backend's credential is revoked, and the device's still resolves
revoke_credential-Resolved_example :
    (device_info.id ≢ "zgb_1") × (device_info.parent_id ≢ some "zgb_1")
unfolding find_valid_credential get_credential_by_hash revoke_credential get map_entries
revoke_credential-Resolved_example =
    revoke_credential-Resolved hash "zgd_1" "zgb_1" 50 100 storage
      (credential "zgb_1" backend none (some "b1") none) device_info (refl, (refl, tt)) refl refl
      refl

get_or_create_backend_id-again_example :
    (get_or_create_backend_id "app" "i" "prod"
      (some "y")
      "u2"
      20
      (get_or_create_backend_id "app" "i" "prod" (some "x") "u1" 10 storage).0).1
    ≡ (get_or_create_backend_id "app" "i" "prod" (some "x") "u1" 10 storage).1
get_or_create_backend_id-again_example =
    get_or_create_backend_id-again "app" "i" "prod" (some "x") (some "y") "u1" "u2" 10 20 storage
