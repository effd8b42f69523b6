-- ===== src/Gateway/Invariant/Counter.antt =====
-- The routes that change the storage leave its epoch counter as it is.
use zclaudia_gateway.Prelude.{
  ℕ, String, not, ◌||◌, is_some, Option, List, [], ◌∷◌, ◌≡◌, refl, ◌∙◌, Option-cases, Bool-cases,
  inl, inr,
}
use zclaudia_gateway.Map.{get}
use zclaudia_gateway.Storage.{Storage, CredentialInfo, device, backend, backend_access}
use zclaudia_gateway.Storage.Credentials.{
  Ttl, Fresh, NewCredential, assign_backend, create_credential,
}
use zclaudia_gateway.Storage.Identities.{
  create_bound_backend_identity, delete_backend_identity, identity_key_of,
}
use zclaudia_gateway.Storage.Exchange.{
  find_access_credential, access_input, exchange_access_credential,
}
use zclaudia_gateway.Storage.Revocation.{
  is_backend, is_device, bind_backend_credential, set_allowed_backends, revoke_credential,
  revoke_credentials,
}

module _ (hash : String → String) where
  pub create_credential-max_epoch :
      (input : NewCredential) (fresh : Fresh) (now : ℕ) (s : Storage)
      → (create_credential hash input fresh now s).0.max_epoch ≡ s.max_epoch
  unfolding create_credential create_bound_backend_identity
  create_credential-max_epoch input fresh now s =
      elim input.type as (λ t. (assign_backend input fresh now s t).0.max_epoch ≡ s.max_epoch) [
        | device ↦ refl
        | backend_access ↦ refl
        | backend ↦ elim (Option-cases input.backend_id) [
          | inl e ↦ rw e refl
          | inr (id, e) ↦ rw e refl
        ]
      ]

  pub exchange-max_epoch :
      (parent : CredentialInfo) (ttl : Ttl) (fresh : Fresh) (now : ℕ) (s : Storage)
      → (exchange_access_credential hash parent ttl fresh now s).0.max_epoch ≡ s.max_epoch
  unfolding exchange_access_credential
  exchange-max_epoch parent ttl fresh now s =
      elim (Option-cases (find_access_credential parent.id s)) [
        | inl e ↦
            rw (e, exchange_access_credential)
              (create_credential-max_epoch (access_input parent ttl) fresh now s)
        | inr (c, e) ↦ rw (e, exchange_access_credential) refl
      ]

pub bind-max_epoch :
    (id b : String) (s : Storage) → (bind_backend_credential id b s).0.max_epoch ≡ s.max_epoch
unfolding bind_backend_credential
bind-max_epoch id b s = elim (Option-cases (get id s.credentials)) [
  | inl e ↦ rw (e, bind_backend_credential) refl
  | inr (c, e) ↦
      elim (Bool-cases
        (not (is_backend c.info.type) || is_some c.info.revoked_at || is_some c.info.backend_id)) [
          | inl f ↦ rw (e, f, bind_backend_credential) refl
          | inr f ↦ rw (e, f, bind_backend_credential) refl
        ]
]

pub set_allowed_backends-max_epoch :
    (id : String) (scope : Option (List String)) (s : Storage)
    → (set_allowed_backends id scope s).0.max_epoch ≡ s.max_epoch
unfolding set_allowed_backends
set_allowed_backends-max_epoch id scope s = elim (Option-cases (get id s.credentials)) [
  | inl e ↦ rw (e, set_allowed_backends) refl
  | inr (c, e) ↦ elim (Bool-cases (not (is_device c.info.type) || is_some c.info.revoked_at)) [
    | inl f ↦ rw (e, f, set_allowed_backends) refl
    | inr f ↦ rw (e, f, set_allowed_backends) refl
  ]
]

pub revoke_credential-max_epoch :
    (id : String) (now : ℕ) (s : Storage) → (revoke_credential id now s).0.max_epoch ≡ s.max_epoch
unfolding revoke_credential
revoke_credential-max_epoch id now s = elim (Option-cases (get id s.credentials)) [
  | inl e ↦ rw (e, revoke_credential) refl
  | inr (c, e) ↦ elim (Bool-cases (is_some c.info.revoked_at)) [
    | inl f ↦ rw (e, f, revoke_credential) refl
    | inr f ↦ rw (e, f, revoke_credential) refl
  ]
]

pub revoke_credentials-max_epoch :
    (ids : List String) (now : ℕ) (s : Storage)
    → (revoke_credentials ids now s).0.max_epoch ≡ s.max_epoch
unfolding revoke_credentials
revoke_credentials-max_epoch [] now s = refl
revoke_credentials-max_epoch (id ∷ ids) now s =
    revoke_credentials-max_epoch ids now (revoke_credential id now s).0
    ∙ revoke_credential-max_epoch id now s

pub delete_backend_identity-max_epoch :
    (b : String) (s : Storage) → (delete_backend_identity b s).0.max_epoch ≡ s.max_epoch
unfolding delete_backend_identity
delete_backend_identity-max_epoch b s =
    elim (Option-cases (identity_key_of b s.backend_identities)) [
      | inl e ↦ rw (e, delete_backend_identity) refl
      | inr (k, e) ↦ rw (e, delete_backend_identity) refl
    ]
