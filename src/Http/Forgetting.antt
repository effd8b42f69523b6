-- ===== src/Http/Forgetting.antt =====
-- When the admin's removal of a backend identity goes through.
use zclaudia_gateway.Prelude.{
  ℕ, suc, String, false, ltb, ◌==◌, option_eq, get_or, is_some, Option, none, some, List, [], ◌∷◌,
  map, ◌≡◌, refl, sym, ap, ◌∙◌, inl, inr, Bool-cases, Option-cases, All, arith,
}
use zclaudia_gateway.Map.{Map, get, set, values}
use zclaudia_gateway.Map.Laws.{get-set}
use zclaudia_gateway.Storage.{
  Storage, BackendIdentity, CredentialInfo, CredentialRecord, insert_by, newest_first,
}
use zclaudia_gateway.Storage.Credentials.{list_credentials}
use zclaudia_gateway.Storage.Identities.{get_backend_identity}
use zclaudia_gateway.Gateway.{Gateway}
use zclaudia_gateway.Http.Answer.{ok}
use zclaudia_gateway.Http.Backends.{
  binding_of, count_one, count_bindings, bound_credential_counts, is_legacy, last_credential,
  in_use, forget_backend,
}

-- the count of a backend is 0 only if nothing was counted for it
count_one-zero :
    (b : String) (o : Option String) (m : Map ℕ)
    → get_or 0 (get b (count_one o m)) ≡ 0
    → (get_or 0 (get b m) ≡ 0) × (option_eq o b ≡ false)
count_one-zero b none m h = (h, refl)
count_one-zero b (some x) m h = elim (Bool-cases (x == b)) [
  | inl e ↦ absurd (ground (arith, get-set x b (suc (get_or 0 (get x m))) m))
  | inr e ↦
      let n = suc (get_or 0 (get x m)) in
      let kept : get b (set x n m) ≡ get b m = get-set x b n m ∙ rw e refl in
      (sym (ap (get_or 0) kept) ∙ h, e)
]

count_bindings-zero :
    (b : String) (cs : List CredentialInfo) (m : Map ℕ)
    → get_or 0 (get b (count_bindings cs m)) ≡ 0
    → (get_or 0 (get b m) ≡ 0) × All (λ c. option_eq (binding_of c) b ≡ false) cs
unfolding count_bindings
count_bindings-zero b [] m h = (h, tt)
count_bindings-zero b (c ∷ cs) m h =
    let (later, rest) = count_bindings-zero b cs (count_one (binding_of c) m) h in
    let (before, here) = count_one-zero b (binding_of c) m later in (before, (here, rest))

module _ {A : Type 0} (P : A → Type 0) (created : A → ℕ) where
  insert_by-All : (x : A) (xs : List A) → All P (insert_by created x xs) → P x × All P xs
  unfolding insert_by
  insert_by-All x [] = λ h. h
  insert_by-All x (y ∷ ys) = elim (Bool-cases (ltb (created x) (created y))) [
    | inl e ↦ rw (e, insert_by) (λ h. let (q, r) = insert_by-All x ys h.1 in (q, (h.0, r)))
    | inr e ↦ rw (e, insert_by) (λ h. h)
  ]

  -- what holds of all the sorted elements holds of all
  newest_first-All : (xs : List A) → All P (newest_first created xs) → All P xs
  unfolding newest_first
  newest_first-All [] h = tt
  newest_first-All (x ∷ xs) h =
      let (p, rest) = insert_by-All x (newest_first created xs) h in (p, newest_first-All xs rest)

All-map :
    {A : Type 0} {B : Type 0} (P : B → Type 0) (f : A → B) (xs : List A)
    → All P (map f xs)
    → All (λ x. P (f x)) xs
All-map P f [] h = tt
All-map P f (x ∷ xs) (p, h) = (p, All-map P f xs h)

-- no unrevoked backend credential of the storage is bound to the backend
abbrev pub Unbound : String → Storage → Type 0
Unbound b s = All (λ c. option_eq (binding_of c.info) b ≡ false) (values s.credentials)

counts-Unbound :
    (b : String) (s : Storage) → get_or 0 (get b (bound_credential_counts s)) ≡ 0 → Unbound b s
unfolding bound_credential_counts list_credentials
counts-Unbound b s h =
    let created : CredentialRecord → ℕ = λ c. c.info.created_at in
    let sorted = newest_first created (values s.credentials) in
    let (_, all) = count_bindings-zero b (map (λ c. c.info) sorted) [] h in
    newest_first-All (λ c. option_eq (binding_of c.info) b ≡ false) created (values s.credentials)
      (All-map (λ c. option_eq (binding_of c) b ≡ false) (λ c. c.info) sorted all)

-- The identity is of the backend, which is offline, has no unrevoked credential bound to it, and was
-- not last registered with a legacy credential that is still active.
abbrev pub Unused : (backend_id : String) → BackendIdentity → Gateway → Type 0
unfolding last_credential
Unused b identity g =
    (get_backend_identity b g.storage ≡ some identity)
    × (get b g.state.registry ≡ none)
    × Unbound b g.storage
    × (is_legacy (last_credential identity g.storage) ≡ false)

none_of_none : {A : Type 0} (o : Option A) → is_some o ≡ false → o ≡ none
none_of_none none h = refl
none_of_none (some a) h = absurd (cc)

not_in_use :
    (b : String) (identity : BackendIdentity) (g : Gateway)
    → in_use identity b g ≡ none
    → (get b g.state.registry ≡ none)
      × Unbound b g.storage
      × (is_legacy (last_credential identity g.storage) ≡ false)
unfolding in_use
not_in_use b identity g = elim (Bool-cases (is_some (get b g.state.registry))) [
  | inl e ↦ rw (e, in_use) (λ h. absurd (cc))
  | inr e ↦ elim (Bool-cases (ltb 0 (get_or 0 (get b (bound_credential_counts g.storage))))) [
    | inl f ↦ rw (e, f, in_use) (λ h. absurd (cc))
    | inr f ↦ elim (Bool-cases (is_legacy (last_credential identity g.storage))) [
      | inl t ↦ rw (e, f, t, in_use) (λ h. absurd (cc))
      | inr t ↦ λ _.
          (none_of_none (get b g.state.registry) e, counts-Unbound b g.storage (ground arith), t)
    ]
  ]
]

-- The removal of a backend identity goes through only where the identity is known, its backend is
-- offline, no unrevoked backend credential is bound to it, and the credential that it was last seen
-- with, if it is stored, is revoked or bound.
pub forget_backend-Unused :
    (b : String) (g : Gateway)
    → (forget_backend b g).1 ≡ ok tt
    → (identity : BackendIdentity) × Unused b identity g
unfolding forget_backend Unused
forget_backend-Unused b g = elim (Option-cases (get_backend_identity b g.storage)) [
  | inl e ↦ rw (e, forget_backend) (λ h. absurd (cc))
  | inr (identity, e) ↦ elim (Option-cases (in_use identity b g)) [
    | inr (reason, f) ↦ rw (e, f, forget_backend) (λ h. absurd (cc))
    | inl f ↦ λ _.
        let (offline, unbound, active) = not_in_use b identity g f in
        (identity, (e, offline, unbound, active))
  ]
]
