-- ===== src/Storage/Purging.antt =====
-- What purging revoked credentials leaves as it was.
use zclaudia_gateway.Prelude.{
  ℕ, String, Bool, true, false, ◌==◌, ◌&&◌, is_some, find, filter, map, Option, none, some, List,
  [], ◌∷◌, ◌≡◌, ◌≢◌, refl, sym, ap, ◌∙◌, arith, inl, inr, Option-cases, Bool-cases, some-injective,
  All, test-ne,
}
use zclaudia_gateway.Map.{Map, get, delete, values, Distinct}
use zclaudia_gateway.Map.Laws.{get-delete_ne, All-values}
use zclaudia_gateway.Storage.{Storage, CredentialInfo, CredentialRecord}
use zclaudia_gateway.Storage.Credentials.{
  find_valid_credential, get_credential_by_hash, is_live, parent_ok, live_parent,
}
use zclaudia_gateway.Storage.Revocation.{purge_revoked_credentials, delete_all, purgeable}
use zclaudia_gateway.Storage.Laws.{Keyed, found_record, find-All, is_live-Live}

delete-Keyed : (k : String) (m : Map CredentialRecord) → Keyed m → Keyed (delete k m)
unfolding delete
delete-Keyed k [] h = tt
delete-Keyed k ((j, w) ∷ m) (e, h) = elim (Bool-cases (j == k)) [
  | inl f ↦ rw (f, delete) (delete-Keyed k m h)
  | inr f ↦ rw (f, delete) (e, delete-Keyed k m h)
]

-- the first record that passes a test is still the first after another was deleted
find-delete :
    (p : CredentialRecord → Bool) (k : String) (c : CredentialRecord) (m : Map CredentialRecord)
    → Keyed m
    → k ≢ c.info.id
    → find p (values m) ≡ some c
    → find p (values (delete k m)) ≡ some c
unfolding delete
find-delete p k c [] h n = λ e. absurd (cc)
find-delete p k c ((j, w) ∷ m) (q, h) n = elim (Bool-cases (p w)) [
  | inl t ↦ rw t (λ e.
      let same : w ≡ c = some-injective w c e in
      let apart : j ≢ k = λ r. n (sym r ∙ (sym q ∙ ap (λ x. x.info.id) same)) in
      rw (test-ne j k apart, delete, t) e)
  | inr t ↦ rw t (λ e. elim (Bool-cases (j == k)) [
    | inl f ↦ rw (f, delete) (find-delete p k c m h n e)
    | inr f ↦ rw (f, delete, t) (find-delete p k c m h n e)
  ])
]

find-delete_all :
    (p : CredentialRecord → Bool) (ds : List String) (c : CredentialRecord)
    (m : Map CredentialRecord)
    → Keyed m
    → All (λ d. d ≢ c.info.id) ds
    → find p (values m) ≡ some c
    → find p (values (delete_all ds m)) ≡ some c
unfolding delete_all
find-delete_all p [] c m h a e = e
find-delete_all p (d ∷ ds) c m h (n, a) e =
    find-delete_all p ds c (delete d m) (delete-Keyed d m h) a (find-delete p d c m h n e)

get-delete_all :
    (ds : List String) (id : String) (m : Map CredentialRecord)
    → All (λ d. d ≢ id) ds
    → get id (delete_all ds m) ≡ get id m
unfolding delete_all
get-delete_all [] id m a = refl
get-delete_all (d ∷ ds) id m (n, a) = get-delete_all ds id (delete d m) a ∙ get-delete_ne d id m n

-- a record stands under its own id
abbrev Placed : Map CredentialRecord → CredentialRecord → Type 0
Placed m c = get c.info.id m ≡ some c

Placed-values :
    (m₀ m : Map CredentialRecord)
    → Keyed m
    → All (λ e. get e.0 m₀ ≡ some e.1) m
    → All (Placed m₀) (values m)
Placed-values m₀ [] h a = tt
Placed-values m₀ ((j, w) ∷ m) (q, h) (e, a) = (ap (λ x. get x m₀) q ∙ e, Placed-values m₀ m h a)

-- the purged ids are not that of a record that is not revoked
purged_apart :
    (ids : Option (List String)) (m : Map CredentialRecord) (id : String) (c : CredentialRecord)
    (xs : List CredentialRecord)
    → get id m ≡ some c
    → c.info.revoked_at ≡ none
    → All (Placed m) xs
    → All (λ d. d ≢ id) (map (λ x. x.info.id) (filter (purgeable ids) xs))
purged_apart ids m id c [] e n a = tt
purged_apart ids m id c (x ∷ xs) e n (q, a) = elim (Bool-cases (purgeable ids x)) [
  | inr f ↦ rw f (purged_apart ids m id c xs e n a)
  | inl f ↦ rw f (
    λ r.
        let same : x ≡ c = some-injective x c (sym q ∙ (ap (λ y. get y m) r ∙ e)) in
        absurd (unrevoked_kept ids x (ap (λ y. y.info.revoked_at) same ∙ n) f),
    purged_apart ids m id c xs e n a,
  )
]
  where
    unrevoked_kept :
        (ids : Option (List String)) (x : CredentialRecord)
        → x.info.revoked_at ≡ none
        → purgeable ids x ≡ true
        → ⊥
    unrevoked_kept ids x n f = absurd (ground (arith, ap is_some n))

-- the ids that a purge deletes, and the storage without them
abbrev purged_ids : Option (List String) → Map CredentialRecord → List String
purged_ids ids m = map (λ c. c.info.id) (filter (purgeable ids) (values m))

abbrev without : Option (List String) → Storage → Storage
unfolding delete_all
without ids s = record s { credentials = delete_all (purged_ids ids s.credentials) s.credentials }

unrevoked : (now : ℕ) (c : CredentialRecord) → is_live now c ≡ true → c.info.revoked_at ≡ none
unrevoked now c h = (is_live-Live now c h).0

parent_kept :
    (now : ℕ) (ids : Option (List String)) (s : Storage) (o : Option String)
    → All (Placed s.credentials) (values s.credentials)
    → parent_ok now s o ≡ true
    → parent_ok now (without ids s) o ≡ true
unfolding without
parent_kept now ids s none a h = refl
parent_kept now ids s (some id) a h = elim (Option-cases (get id s.credentials)) [
  | inl e ↦ absurd (ground (arith, e))
  | inr (p, e) ↦
      let live : is_live now p ≡ true = ap (live_parent now) (sym e) ∙ h in
      let apart =
        purged_apart ids s.credentials id p (values s.credentials) e (unrevoked now p live) a in
      ap (live_parent now)
        (get-delete_all (purged_ids ids s.credentials) id s.credentials apart ∙ e)
      ∙ live
]

both : (a b : Bool) → (a && b) ≡ true → (a ≡ true) × (b ≡ true)
both true true h = (refl, refl)
both true false h = absurd (cc)
both false b h = absurd (cc)

-- A token that resolves still resolves, to the same credential, after any revoked credentials were
-- purged, in a storage that keeps each record under its id and no id twice.
pub purge_revoked_credentials-Resolves :
    (hash : String → String) (token : String) (now : ℕ) (ids : Option (List String)) (s : Storage)
    (info : CredentialInfo)
    → Keyed s.credentials
    → Distinct s.credentials
    → (find_valid_credential hash token now s).1 ≡ some info
    → (find_valid_credential hash token now (purge_revoked_credentials ids s).0).1 ≡ some info
unfolding find_valid_credential get_credential_by_hash purge_revoked_credentials without
purge_revoked_credentials-Resolves hash token now ids s info k d r =
    let m = s.credentials in
    let test : CredentialRecord → Bool = λ c. c.token_hash == hash token in
    let (c, found, valid, same) = found_record hash token now s info r in
    let (live, parent) = both (is_live now c) (parent_ok now s c.info.parent_id) valid in
    let placed = Placed-values m m k (All-values (λ j v. get j m ≡ some v) m d (λ j v h. h)) in
    let there = find-All (Placed m) test (values m) c placed found in
    let apart = purged_apart ids m c.info.id c (values m) there (unrevoked now c live) placed in
    let found' : get_credential_by_hash (hash token) (without ids s) ≡ some c =
      find-delete_all test (purged_ids ids m) c m k apart found in
    let parent' = parent_kept now ids s c.info.parent_id placed parent in
    rw (found', live, parent', find_valid_credential) (sym (ap some same))
