-- ===== src/Storage/Laws.antt =====
-- src/storage.ts: what resolving a token promises, what revoking does to it, and the identities.
use mathlib.Core.Option
use zclaudia_gateway.Prelude.{
  ℕ, ◌≤◌, String, Bool, true, false, ◌==◌, is_none, option_eq, find, find-holds, Option, none, some,
  List, [], ◌∷◌, ◌≡◌, ◌≢◌, refl, sym, ap, ◌∙◌, subst, arith, inl, inr, Option-cases, Bool-cases,
  some-injective, eq-of-test, test_refl, All, get_or,
}
use zclaudia_gateway.Map.{Map, get, update, map_entries, values}
use zclaudia_gateway.Map.Laws.{get-map_entries, get-update_self, get-set_self}
use zclaudia_gateway.Storage.{Storage, BackendIdentity, CredentialInfo, CredentialRecord}
use zclaudia_gateway.Storage.Credentials.{
  find_valid_credential, get_credential_by_hash, is_valid, is_live, is_expired, parent_ok,
  live_parent, used_at,
}
use zclaudia_gateway.Storage.Identities.{
  get_or_create_backend_id, backend_identity_key, renamed, new_identity,
}
use zclaudia_gateway.Storage.Revocation.{revoke_credential, revoked, is_child, revoke_child}

-- The record is neither revoked nor expired.
abbrev pub Live : ℕ → CredentialRecord → Type 0
Live now c = (c.info.revoked_at ≡ none) × ((at : ℕ) → c.info.expires_at ≡ some at → now ≤ at)

none_of_test : {A : Type 0} (o : Option A) → is_none o ≡ true → o ≡ none
none_of_test none h = refl
none_of_test (some a) h = absurd (cc)

not_expired :
    (now : ℕ) (o : Option ℕ) → is_expired now o ≡ false → (at : ℕ) → o ≡ some at → now ≤ at
not_expired now none h at e = absurd (cc)
not_expired now (some t) h at e = subst (λ x. now ≤ x) (some-injective t at e) (ground arith)

pub is_live-Live : (now : ℕ) (c : CredentialRecord) → is_live now c ≡ true → Live now c
is_live-Live now c h = elim (Bool-cases (is_none c.info.revoked_at)) [
  | inl e ↦ (none_of_test c.info.revoked_at e, not_expired now c.info.expires_at (ground arith))
  | inr e ↦ absurd (ground arith)
]

-- a record without a parent, or with a live one
abbrev pub LiveParent : ℕ → Storage → CredentialRecord → Type 0
LiveParent now s c =
    (id : String)
    → c.info.parent_id ≡ some id
    → (parent : CredentialRecord) × (get id s.credentials ≡ some parent) × Live now parent

parent_ok-LiveParent :
    (now : ℕ) (s : Storage) (o : Option String)
    → parent_ok now s o ≡ true
    → (id : String) → o ≡ some id
    → (parent : CredentialRecord) × (get id s.credentials ≡ some parent) × Live now parent
parent_ok-LiveParent now s none h id e = absurd (cc)
parent_ok-LiveParent now s (some j) h id e = elim (Option-cases (get j s.credentials)) [
  | inl f ↦ absurd (ground (arith, f))
  | inr (parent, f) ↦ (
    parent,
    ap (λ x. get x s.credentials) (sym (some-injective j id e)) ∙ f,
    is_live-Live now parent (ap (live_parent now) (sym f) ∙ h),
  )
]

-- the record that a token resolves to
abbrev pub Resolved : (String → String) → String → ℕ → Storage → CredentialInfo → Type 0
Resolved hash token now s info =
    (c : CredentialRecord) × (c.token_hash ≡ hash token)
    × Live now c
    × LiveParent now s c
    × (info ≡ (used_at now c).info)

-- the record that the resolution finds, and its tests
pub found_record :
    (hash : String → String) (token : String) (now : ℕ) (s : Storage) (info : CredentialInfo)
    → (find_valid_credential hash token now s).1 ≡ some info
    → (c : CredentialRecord) × (get_credential_by_hash (hash token) s ≡ some c)
      × (is_valid now s c ≡ true)
      × (info ≡ (used_at now c).info)
unfolding find_valid_credential
found_record hash token now s info = elim (Option-cases (get_credential_by_hash (hash token) s)) [
  | inl e ↦ rw (e, find_valid_credential) (λ h. absurd (cc))
  | inr (c, e) ↦ elim (Bool-cases (is_valid now s c)) [
    | inr f ↦ rw (e, f, find_valid_credential) (λ h. absurd (cc))
    | inl f ↦
        rw (e, f, find_valid_credential)
          (λ h. (c, refl, f, sym (some-injective (used_at now c).info info h)))
  ]
]

-- A token that resolves carries the digest of a stored credential that is not revoked and has not
-- expired, and if that credential is a child, its parent is stored, not revoked and not expired
-- either; what is returned is this credential, with the time of this use.
pub find_valid_credential-Resolved :
    (hash : String → String) (token : String) (now : ℕ) (s : Storage) (info : CredentialInfo)
    → (find_valid_credential hash token now s).1 ≡ some info
    → Resolved hash token now s info
unfolding get_credential_by_hash
find_valid_credential-Resolved hash token now s info h =
    let (c, e, f, k) = found_record hash token now s info h in
    (
      c,
      eq-of-test c.token_hash (hash token)
          (find-holds (λ d. d.token_hash == hash token) (values s.credentials) c e),
      is_live-Live now c (ground arith),
      parent_ok-LiveParent now s c.info.parent_id (ground arith),
      k,
    )

-- Each record is stored under its id.
abbrev pub Keyed : Map CredentialRecord → Type 0
Keyed m = All (λ e. e.1.info.id ≡ e.0) m

-- The record is not of this id, or it is revoked.
abbrev Dead : String → CredentialRecord → Type 0
Dead id c = c.info.id ≡ id → is_none c.info.revoked_at ≡ false

pub find-All {ℓ κ} :
    {A : Type ℓ} (P : A → Type κ) (p : A → Bool) (xs : List A) (a : A)
    → All P xs
    → find p xs ≡ some a
    → P a
find-All P p [] a h = λ e. absurd (cc)
find-All P p (x ∷ xs) a (q, h) = elim (Bool-cases (p x)) [
  | inl f ↦ rw f (λ e. subst P (some-injective x a e) q)
  | inr f ↦ rw f (find-All P p xs a h)
]

revoke_child-Dead :
    (id : String) (now : ℕ) (c : CredentialRecord) → Dead id c → Dead id (revoke_child id now c)
revoke_child-Dead id now c d = elim (Bool-cases (is_child id c)) [
  | inl e ↦ rw e (λ _. refl)
  | inr e ↦ rw e d
]

-- the stored records after the cascade
revoked-All :
    (id : String) (now : ℕ) (m : Map CredentialRecord)
    → Keyed m
    → All
        (Dead id)
        (values (map_entries (λ _ d. revoke_child id now d) (update id (revoked now) m)))
unfolding map_entries
revoked-All id now [] k = tt
revoked-All id now ((j, c) ∷ m) (e, k) = elim (Bool-cases (j == id)) [
  | inl f ↦ rw f (revoke_child-Dead id now (revoked now c) (λ _. refl), revoked-All id now m k)
  | inr f ↦ rw f (
    revoke_child-Dead id now c (λ same. absurd (ground (arith, test_refl id, sym e ∙ same))),
    revoked-All id now m k,
  )
]

cascade :
    (id : String) (now : ℕ) (s : Storage) (c : CredentialRecord)
    → get id s.credentials ≡ some c
    → c.info.revoked_at ≡ none
    → (revoke_credential id now s).0.credentials
      ≡ map_entries (λ _ d. revoke_child id now d) (update id (revoked now) s.credentials)
unfolding revoke_credential
cascade id now s c h n = rw (h, revoke_credential, n) refl

-- the credential itself after the cascade
still_revoked :
    (id : String) (now : ℕ) (c : CredentialRecord)
    → is_none (revoke_child id now (revoked now c)).info.revoked_at ≡ false
still_revoked id now c = elim (Bool-cases (option_eq c.info.parent_id id)) [
  | inl e ↦ rw e refl
  | inr e ↦ rw e refl
]

get-cascade :
    (id : String) (now : ℕ) (s : Storage) (c : CredentialRecord)
    → get id s.credentials ≡ some c
    → c.info.revoked_at ≡ none
    → get id (revoke_credential id now s).0.credentials ≡ some (revoke_child id now (revoked now c))
get-cascade id now s c h n =
    let own = update id (revoked now) s.credentials in
    ap (get id) (cascade id now s c h n)
    ∙ (get-map_entries (λ _ d. revoke_child id now d) id own
        ∙ ap (Option.map (revoke_child id now))
            (get-update_self id (revoked now) s.credentials ∙ ap (Option.map (revoked now)) h))

clash : {A : Type 0} (o : Option A) → o ≡ none → is_none o ≡ false → ⊥
clash none e h = absurd (cc)
clash (some a) e h = absurd (cc)

-- After a stored credential that was not revoked before is revoked, in a storage that keeps each
-- record under its id, no token resolves, at any later or earlier time, to this credential or to a
-- child of it.
pub revoke_credential-Resolved :
    (hash : String → String) (token id : String) (now now' : ℕ) (s : Storage) (c : CredentialRecord)
    (info : CredentialInfo)
    → Keyed s.credentials
    → get id s.credentials ≡ some c
    → c.info.revoked_at ≡ none
    → (find_valid_credential hash token now' (revoke_credential id now s).0).1 ≡ some info
    → (info.id ≢ id) × (info.parent_id ≢ some id)
unfolding get_credential_by_hash
revoke_credential-Resolved hash token id now now' s c info k h n r =
    let s' = (revoke_credential id now s).0 in
    let (d, e, f, same) = found_record hash token now' s' info r in
    let all =
      subst (λ m. All (Dead id) (values m)) (sym (cascade id now s c h n))
        (revoked-All id now s.credentials k) in
    let dead =
      find-All (Dead id) (λ x. x.token_hash == hash token) (values s'.credentials) d all e in
    let (live, _) = is_live-Live now' d (ground arith) in
    (
      λ own. clash d.info.revoked_at live (dead (ap (λ x. x.id) (sym same) ∙ own)),
      λ child.
          let (parent, at_id, (n', _)) =
            parent_ok-LiveParent now' s' d.info.parent_id (ground arith) id
              (ap (λ x. x.parent_id) (sym same) ∙ child) in
          let there =
            some-injective (revoke_child id now (revoked now c)) parent
              (sym (get-cascade id now s c h n) ∙ at_id) in
          clash parent.info.revoked_at n'
            (ap (λ x. is_none x.info.revoked_at) (sym there) ∙ still_revoked id now c),
    )

renamed-backend_id :
    (name : Option String) (now : ℕ) (i : BackendIdentity)
    → (renamed name now i).backend_id ≡ i.backend_id
renamed-backend_id none now i = refl
renamed-backend_id (some n) now i = ground arith

-- A backend's identity is durable: the same namespace, instance id and environment get the same
-- backend id again, whatever name they come with, at whatever time, and whichever fresh id is
-- drawn.
pub get_or_create_backend_id-again :
    (namespace instance_id environment : String) (name name' : Option String) (uuid uuid' : String)
    (now now' : ℕ) (s : Storage)
    → (get_or_create_backend_id namespace instance_id environment name' uuid' now'
        (get_or_create_backend_id namespace instance_id environment name uuid now s).0).1
      ≡ (get_or_create_backend_id namespace instance_id environment name uuid now s).1
unfolding get_or_create_backend_id
get_or_create_backend_id-again namespace instance_id environment name name' uuid uuid' now now' s =
    let key = backend_identity_key namespace instance_id environment in
    elim (Option-cases (get key s.backend_identities)) [
      | inl e ↦
          rw (e, get_or_create_backend_id)
            (rw
              (
                get-set_self key
                    (new_identity uuid namespace instance_id environment (get_or "" name) now)
                    s.backend_identities,
                get_or_create_backend_id,
              )
              refl)
      | inr (i, e) ↦
          rw (e, get_or_create_backend_id)
            (rw
              (get-set_self key (renamed name now i) s.backend_identities, get_or_create_backend_id)
              (renamed-backend_id name now i))
    ]
