-- ===== src/Http/Access.antt =====
-- Who gets past the guard of the admin routes, and what revoking does to connected peers.
use mathlib.Core.List.{Memᴰ}
use zclaudia_gateway.Prelude.{
  ℕ, String, Bool, true, false, not, ◌&&◌, ◌||◌, Option, none, some, List, [], ◌∷◌, ◌≡◌, ◌⊎◌, inl,
  inr, refl, sym, ap, ◌∙◌, Bool-cases, Option-cases, text-cases, eq-of-test, test_refl, includes,
  map, filter, ◌==◌, some-injective, arith, subst, is_empty,
}
use zclaudia_gateway.Map.{Map, get, values, update}
use zclaudia_gateway.Map.Laws.{get-update_ne}
use zclaudia_gateway.AdminSession.{SessionStore}
use zclaudia_gateway.Storage.Revocation.{revoke_credential, is_child, revoked}
use zclaudia_gateway.Storage.{Storage, CredentialRecord}
use zclaudia_gateway.State.{PeerSession}
use zclaudia_gateway.Gateway.{Gateway, Config, Action, close, emit}
use zclaudia_gateway.Gateway.Frame.{values_found}
use zclaudia_gateway.Http.{
  Request, admitted, bearer_token, deny, is_admin_token, session_of_cookie, is_mutating_request,
  is_trusted_origin, require_admin,
}
use zclaudia_gateway.Http.Credentials.{
  has_credential, close_revoked, after_revoke, answer_revoked, delete_credential,
}

-- what a caller of an admin route has shown
abbrev pub Admin :
    (String → Option String) → Option (List String) → String → ℕ → Request → SessionStore → Type 0
Admin url_host allowed admin_token now req s =
    (bearer_token req.authorization ≡ some admin_token)
    ⊎ (((session_of_cookie now req.cookie s).1 ≡ true)
        × ((is_mutating_request req ≡ false) ⊎ (is_trusted_origin url_host allowed req ≡ true)))

pub token_shown :
    (admin_token : String) (o : Option String)
    → is_admin_token admin_token o ≡ true
    → o ≡ some admin_token
token_shown admin_token none h = absurd (cc)
token_shown admin_token (some token) h = ap some (eq-of-test token admin_token h)

pub not_both : (a b : Bool) → (a && not b) ≡ false → (a ≡ false) ⊎ (b ≡ true)
not_both false b h = inl refl
not_both true true h = inr refl
not_both true false h = absurd (cc)

denied_not :
    (cfg : Config) (now : ℕ) (req : Request) (g : Gateway) (b : Bool)
    → (deny cfg now req g).1 ≡ admitted b
    → ⊥
unfolding deny
denied_not cfg now req g b h = cc

-- A request gets past the guard of the admin routes only with the admin token as its bearer token,
-- or with the cookie of a valid admin session, and then, if it changes anything, only from a
-- trusted origin.
pub require_admin-Admin :
    (url_host : String → Option String) (allowed : Option (List String)) (admin_token : String)
    (cfg : Config) (now : ℕ) (req : Request) (s : SessionStore) (g : Gateway) (b : Bool)
    → (require_admin url_host allowed admin_token cfg now req s g).1.1 ≡ admitted b
    → Admin url_host allowed admin_token now req s
unfolding require_admin
require_admin-Admin url_host allowed admin_token cfg now req s g b =
    elim (Bool-cases (is_admin_token admin_token (bearer_token req.authorization))) [
      | inl e ↦ λ _. inl (token_shown admin_token (bearer_token req.authorization) e)
      | inr e ↦ elim (Bool-cases (session_of_cookie now req.cookie s).1) [
        | inr f ↦ rw (e, f, require_admin) (λ h. absurd (denied_not cfg now req g b h))
        | inl f ↦
            elim (Bool-cases
              (is_mutating_request req && not (is_trusted_origin url_host allowed req))) [
                | inl t ↦ rw (e, f, t, require_admin) (λ h. absurd (cc))
                | inr t ↦ λ _. inr (f, not_both (is_mutating_request req) _ t)
              ]
      ]
    ]

abbrev closing : PeerSession → Action
closing peer = close peer.ws 1008 "Credential revoked"

-- a call that was made stays made
close_revoked-kept :
    (revoked : List String) (peers : List PeerSession) (g : Gateway) (a : Action)
    → Memᴰ a g.out
    → Memᴰ a (close_revoked revoked peers g).out
unfolding close_revoked
close_revoked-kept revoked [] g a m = m
close_revoked-kept revoked (peer ∷ peers) g a m = elim (Bool-cases (has_credential revoked peer)) [
  | inl e ↦
      rw (e, close_revoked)
        (close_revoked-kept revoked peers (emit (closing peer) g) a (Memᴰ.tail m))
  | inr e ↦ rw (e, close_revoked) (close_revoked-kept revoked peers g a m)
]

close_revoked-closes :
    (revoked : List String) (peers : List PeerSession) (g : Gateway) (p : PeerSession)
    → Memᴰ p peers
    → has_credential revoked p ≡ true
    → Memᴰ (closing p) (close_revoked revoked peers g).out
unfolding close_revoked
close_revoked-closes revoked [] g p m h = elim m [ ]
close_revoked-closes revoked (peer ∷ peers) g p (Memᴰ.head q) h =
    rw (ap (has_credential revoked) (sym q) ∙ h, close_revoked)
      (close_revoked-kept revoked peers (emit (closing peer) g) (closing p)
        (Memᴰ.head (ap closing q)))
close_revoked-closes revoked (peer ∷ peers) g p (Memᴰ.tail m) h =
    elim (Bool-cases (has_credential revoked peer)) [
      | inl e ↦
          rw (e, close_revoked) (close_revoked-closes revoked peers (emit (closing peer) g) p m h)
      | inr e ↦ rw (e, close_revoked) (close_revoked-closes revoked peers g p m h)
    ]

answer_revoked-closes :
    (ids : List String) (j : String) (g : Gateway) (p : PeerSession)
    → get j g.state.peers ≡ some p
    → has_credential ids p ≡ true
    → Memᴰ (closing p) (answer_revoked ids g).0.out
unfolding answer_revoked after_revoke
answer_revoked-closes [] j g p f h = absurd (elim (Option-cases p.credential_id) [
  | inl e ↦ ground (arith, h, e)
  | inr (id, e) ↦ ground (arith, h, e)
])
answer_revoked-closes (id ∷ ids) j g p f h =
    close_revoked-closes (id ∷ ids) (values g.state.peers) g p (values_found j p g.state.peers f) h

includes_self : (id : String) (ids : List String) → includes (id ∷ ids) id ≡ true
includes_self id ids = rw (test_refl id) refl

included :
    (p : CredentialRecord → Bool) (k : String) (c : CredentialRecord) (m : Map CredentialRecord)
    → get k m ≡ some c
    → p c ≡ true
    → includes (map (λ d. d.info.id) (filter p (values m))) c.info.id ≡ true
unfolding get
included p k c [] h q = absurd (cc)
included p k c ((j, d) ∷ m) h q = elim (Bool-cases (j == k)) [
  | inl e ↦
      let same : d ≡ c = some-injective d c (ground arith) in
      rw (ap p same ∙ q) (rw same (includes_self c.info.id _))
  | inr e ↦
      let rest = included p k c m (ground arith) q in
      elim (Bool-cases (p d)) [ inl f ↦ rw (f, rest) (ground arith) | inr f ↦ rw f rest ]
]

-- the credential with this id, or a child of it that is not revoked
abbrev pub OfCredential : String → CredentialRecord → Type 0
OfCredential id c = (c.info.id ≡ id) ⊎ ((c.info.parent_id ≡ some id) × (c.info.revoked_at ≡ none))

-- the route's list has the credential and its children
revoked_ids :
    (id cid : String) (now : ℕ) (s : Storage) (root c : CredentialRecord)
    → get id s.credentials ≡ some root
    → root.info.revoked_at ≡ none
    → get cid s.credentials ≡ some c
    → c.info.id ≡ cid
    → OfCredential id c
    → includes (revoke_credential id now s).1 cid ≡ true
unfolding revoke_credential
revoked_ids id cid now s root c h n f k (inl same) =
    rw (h, n, sym k ∙ same, revoke_credential) (includes_self id _)
revoked_ids id cid now s root c h n f k (inr (parent, unrevoked)) = elim (text-cases id cid) [
  | inl (same, _) ↦ rw (h, n, sym same, revoke_credential) (includes_self id _)
  | inr (other, _) ↦
      let child : is_child id c ≡ true = rw (parent, unrevoked, test_refl id) refl in
      let own = update id (revoked now) s.credentials in
      let kept : get cid own ≡ some c =
        get-update_ne id cid (revoked now) s.credentials (λ e. other (sym e)) ∙ f in
      let rest = included (is_child id) cid c own kept child in
      rw (h, n, revoke_credential)
        (or_true (id == cid) (
          subst (λ x. includes (map (λ d. d.info.id) (filter (is_child id) (values own))) x ≡ true)
            k rest))
]
  where
    or_true : (a : Bool) {b : Bool} → b ≡ true → (a || b) ≡ true
    or_true a q = ground arith

-- When an admin revokes a credential that is stored and not revoked, the route closes the socket of
-- every connected peer that authenticated with the credential itself, or with a stored child of it
-- that is not revoked, where the peer's credential is stored under its id, which is not empty.
pub delete_credential-closes :
    (id j cid : String) (now : ℕ) (g : Gateway) (root c : CredentialRecord) (p : PeerSession)
    → get id g.storage.credentials ≡ some root
    → root.info.revoked_at ≡ none
    → get cid g.storage.credentials ≡ some c
    → c.info.id ≡ cid
    → OfCredential id c
    → is_empty cid ≡ false
    → get j g.state.peers ≡ some p
    → p.credential_id ≡ some cid
    → Memᴰ (close p.ws 1008 "Credential revoked") (delete_credential id now g).0.out
unfolding delete_credential
delete_credential-closes id j cid now g root c p h n f k of filled q own =
    let (s, ids) = revoke_credential id now g.storage in
    let listed = revoked_ids id cid now g.storage root c h n f k of in
    let has : has_credential ids p ≡ true = rw (own, filled, listed) refl in
    answer_revoked-closes ids j (record g { storage = s }) p q has
