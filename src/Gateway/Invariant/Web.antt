-- ===== src/Gateway/Invariant/Web.antt =====
-- What the HTTP routes leave of the parts that the invariant is about: all of them.
use zclaudia_gateway.Prelude.{
  ℕ, String, Bool, not, ◌==◌, ◌&&◌, is_empty, option_eq, Option, some, List, [], ◌∷◌, dedup_from,
  ◌≡◌, refl, ap, ◌∙◌, Option-cases, Bool-cases, inl, inr,
}
use zclaudia_gateway.Json.{Json, member}
use zclaudia_gateway.Map.{values}
use zclaudia_gateway.AdminSession.{SessionStore}
use zclaudia_gateway.Storage.{
  Storage, CredentialInfo, CredentialType, device, backend, backend_access,
}
use zclaudia_gateway.Storage.Credentials.{Ttl, Fresh, NewCredential, create_credential}
use zclaudia_gateway.Storage.Identities.{get_backend_identity, delete_backend_identity}
use zclaudia_gateway.Storage.Revocation.{
  bind_backend_credential, set_allowed_backends, revoke_credential, revoke_credentials,
}
use zclaudia_gateway.Storage.Exchange.{exchange_access_credential}
use zclaudia_gateway.State.{PeerSession}
use zclaudia_gateway.Gateway.{Gateway, Config, emit, close}
use zclaudia_gateway.Gateway.Hello.{resolve_token}
use zclaudia_gateway.Gateway.Invariant.{core}
use zclaudia_gateway.Gateway.Invariant.Arrival.{resolve_token-max_epoch}
use zclaudia_gateway.Gateway.Invariant.Counter.{
  create_credential-max_epoch, exchange-max_epoch, bind-max_epoch, set_allowed_backends-max_epoch,
  revoke_credential-max_epoch, revoke_credentials-max_epoch, delete_backend_identity-max_epoch,
}
use zclaudia_gateway.Http.{
  Request, Outcome, admitted, denied, forbidden, bearer_token, deny, require_gateway_auth,
  recovered_peer, require_recovery_token, is_admin_token, session_of_cookie, is_mutating_request,
  is_trusted_origin, require_admin,
}
use zclaudia_gateway.Http.Answer.{Answer, ok, invalid_request, not_found, conflict}
use zclaudia_gateway.Http.Issue.{issue, issue_credential, read_new_credential}
use zclaudia_gateway.Http.Credentials.{
  has_credential, close_revoked, after_revoke, answer_revoked, delete_credential, text_list,
  revoke_ids, revoke_many, purge_ids, purge, check_bind, bind_checked, bind_credential, check_scope,
  close_scoped, scope_checked, change_scope,
}
use zclaudia_gateway.Http.Backends.{in_use, forget_backend}
use zclaudia_gateway.Http.Sessions.{token_of, login, bearer_or_empty, exchange, exchange_token}
use zclaudia_gateway.Http.Admin.{
  AdminCall, show_overview, show_credentials, show_backends, issue as issue_call, forget, bind,
  scope, revoke, revoke_all, purge_all, serve_admin, answer_admin, handle_admin,
}

stored :
    (s : Storage) (g : Gateway)
    → s.max_epoch ≡ g.storage.max_epoch
    → core (record g { storage = s }) ≡ core g
stored s g e = ap (λ n. record (core g) { max_epoch = n }) e

resolved :
    (hash : String → String) (token : String) (now : ℕ) (g : Gateway)
    → core (record g { storage = (resolve_token hash token now g.storage).0 }) ≡ core g
resolved hash token now g =
    stored (resolve_token hash token now g.storage).0 g
      (resolve_token-max_epoch hash token now g.storage)

pub require_gateway_auth-core :
    (cfg : Config) (hash : String → String) (now : ℕ) (req : Request) (g : Gateway)
    → core (require_gateway_auth cfg hash now req g).0 ≡ core g
unfolding require_gateway_auth deny
require_gateway_auth-core cfg hash now req g =
    elim (Option-cases (bearer_token req.authorization)) [
      | inl e ↦ rw (e, require_gateway_auth) refl
      | inr (token, e) ↦ elim (Option-cases (resolve_token hash token now g.storage).1) [
        | inl f ↦ rw (e, f, require_gateway_auth) (resolved hash token now g)
        | inr (c, f) ↦ rw (e, f, require_gateway_auth) (resolved hash token now g)
      ]
    ]

pub require_recovery_token-core :
    (cfg : Config) (now : ℕ) (req : Request) (g : Gateway)
    → core (require_recovery_token cfg now req g).0 ≡ core g
unfolding require_recovery_token deny
require_recovery_token-core cfg now req g = elim (Option-cases (bearer_token req.authorization)) [
  | inl e ↦ rw (e, require_recovery_token) refl
  | inr (token, e) ↦ elim (Option-cases (recovered_peer token g)) [
    | inl f ↦ rw (e, f, require_recovery_token) refl
    | inr (p, f) ↦ rw (e, f, require_recovery_token) refl
  ]
]

pub login-core :
    (admin_token : String) (cfg : Config) (id : String) (now : ℕ) (req : Request) (body : Json)
    (s : SessionStore) (g : Gateway)
    → core (login admin_token cfg id now req body s g).1.0 ≡ core g
unfolding login deny
login-core admin_token cfg id now req body s g =
    let token = token_of (member "token" body) in
    elim (Bool-cases (not (is_empty token) && (token == admin_token))) [
      | inl e ↦ rw (e, login) refl
      | inr e ↦ rw (e, login) refl
    ]

exchange-core :
    (hash : String → String) (ttl : Ttl) (fresh : Fresh) (now : ℕ) (c : CredentialInfo)
    (type : CredentialType) (g : Gateway)
    → core (exchange hash ttl fresh now c type g).0 ≡ core g
unfolding exchange
exchange-core hash ttl fresh now c device g = refl
exchange-core hash ttl fresh now c backend_access g = refl
exchange-core hash ttl fresh now c backend g =
    stored (exchange_access_credential hash c ttl fresh now g.storage).0 g
      (exchange-max_epoch hash c ttl fresh now g.storage)

pub exchange_token-core :
    (cfg : Config) (hash : String → String) (ttl : Ttl) (fresh : Fresh) (now : ℕ) (req : Request)
    (g : Gateway)
    → core (exchange_token cfg hash ttl fresh now req g).0 ≡ core g
unfolding exchange_token deny
exchange_token-core cfg hash ttl fresh now req g =
    let token = bearer_or_empty req.authorization in
    let g' : Gateway = record g { storage = (resolve_token hash token now g.storage).0 } in
    elim (Bool-cases (is_empty token)) [
      | inl e ↦ rw (e, exchange_token) refl
      | inr e ↦ elim (Option-cases (resolve_token hash token now g.storage).1) [
        | inl f ↦ rw (e, f, exchange_token) (resolved hash token now g)
        | inr (c, f) ↦
            rw (e, f, exchange_token)
              (exchange-core hash ttl fresh now c c.type g' ∙ resolved hash token now g)
      ]
    ]

close_revoked-core :
    (ids : List String) (peers : List PeerSession) (g : Gateway)
    → core (close_revoked ids peers g) ≡ core g
unfolding close_revoked
close_revoked-core ids [] g = refl
close_revoked-core ids (p ∷ peers) g = elim (Bool-cases (has_credential ids p)) [
  | inl e ↦
      rw (e, close_revoked)
        (close_revoked-core ids peers (emit (close p.ws 1008 "Credential revoked") g))
  | inr e ↦ rw (e, close_revoked) (close_revoked-core ids peers g)
]

after_revoke-core : (ids : List String) (g : Gateway) → core (after_revoke ids g) ≡ core g
unfolding after_revoke
after_revoke-core [] g = refl
after_revoke-core (id ∷ ids) g = close_revoked-core (id ∷ ids) (values g.state.peers) g

answer_revoked-core : (ids : List String) (g : Gateway) → core (answer_revoked ids g).0 ≡ core g
unfolding answer_revoked
answer_revoked-core [] g = refl
answer_revoked-core (id ∷ ids) g = after_revoke-core (id ∷ ids) g

close_scoped-core :
    (id : String) (peers : List PeerSession) (g : Gateway) → core (close_scoped id peers g) ≡ core g
unfolding close_scoped
close_scoped-core id [] g = refl
close_scoped-core id (p ∷ peers) g = elim (Bool-cases (option_eq p.credential_id id)) [
  | inl e ↦
      rw (e, close_scoped)
        (close_scoped-core id peers (emit (close p.ws 1008 "Credential scope changed") g))
  | inr e ↦ rw (e, close_scoped) (close_scoped-core id peers g)
]

delete_credential-core :
    (id : String) (now : ℕ) (g : Gateway) → core (delete_credential id now g).0 ≡ core g
unfolding delete_credential
delete_credential-core id now g =
    let (s, ids) = revoke_credential id now g.storage in
    answer_revoked-core ids (record g { storage = s })
    ∙ stored s g (revoke_credential-max_epoch id now g.storage)

revoke_ids-core :
    (ids : List String) (now : ℕ) (g : Gateway) → core (revoke_ids ids now g).0 ≡ core g
unfolding revoke_ids
revoke_ids-core ids now g =
    let (s, gone) = revoke_credentials ids now g.storage in
    after_revoke-core gone (record g { storage = s })
    ∙ stored s g (revoke_credentials-max_epoch ids now g.storage)

revoke_many-core : (body : Json) (now : ℕ) (g : Gateway) → core (revoke_many body now g).0 ≡ core g
unfolding revoke_many
revoke_many-core body now g = elim (Option-cases (text_list (member "ids" body))) [
  | inl e ↦ rw (e, revoke_many) refl
  | inr ([], e) ↦ rw (e, revoke_many) refl
  | inr (id ∷ ids, e) ↦ rw (e, revoke_many) (revoke_ids-core (dedup_from [] (id ∷ ids)) now g)
]

purge-core : (body : Json) (g : Gateway) → core (purge body g).0 ≡ core g
unfolding purge purge_ids
purge-core body g = elim (Option-cases (member "ids" body)) [
  | inl e ↦ rw (e, purge) refl
  | inr (v, e) ↦ elim (Option-cases (text_list (some v))) [
    | inl f ↦ rw (e, f, purge) refl
    | inr (ids, f) ↦ rw (e, f, purge) refl
  ]
]

bind_checked-core :
    (a : Answer (CredentialInfo × String)) (g : Gateway) → core (bind_checked a g).0 ≡ core g
unfolding bind_checked
bind_checked-core (ok (c, b)) g =
    stored (bind_backend_credential c.id b g.storage).0 g (bind-max_epoch c.id b g.storage)
bind_checked-core (invalid_request m) g = refl
bind_checked-core (not_found m) g = refl
bind_checked-core (conflict m) g = refl

scope_checked-core :
    (a : Answer (CredentialInfo × Option (List String))) (g : Gateway)
    → core (scope_checked a g).0 ≡ core g
unfolding scope_checked
scope_checked-core (ok (c, allowed)) g =
    let s = (set_allowed_backends c.id allowed g.storage).0 in
    close_scoped-core c.id (values g.state.peers) (record g { storage = s })
    ∙ stored s g (set_allowed_backends-max_epoch c.id allowed g.storage)
scope_checked-core (invalid_request m) g = refl
scope_checked-core (not_found m) g = refl
scope_checked-core (conflict m) g = refl

issue-core :
    (hash : String → String) (fresh : Fresh) (now : ℕ) (a : Answer NewCredential) (g : Gateway)
    → core (issue hash fresh now a g).0 ≡ core g
unfolding issue
issue-core hash fresh now (ok input) g =
    stored (create_credential hash input fresh now g.storage).0 g
      (create_credential-max_epoch hash input fresh now g.storage)
issue-core hash fresh now (invalid_request m) g = refl
issue-core hash fresh now (not_found m) g = refl
issue-core hash fresh now (conflict m) g = refl

forget_backend-core : (b : String) (g : Gateway) → core (forget_backend b g).0 ≡ core g
unfolding forget_backend
forget_backend-core b g = elim (Option-cases (get_backend_identity b g.storage)) [
  | inl e ↦ rw (e, forget_backend) refl
  | inr (identity, e) ↦ elim (Option-cases (in_use identity b g)) [
    | inr (reason, f) ↦ rw (e, f, forget_backend) refl
    | inl f ↦
        rw (e, f, forget_backend)
          (stored (delete_backend_identity b g.storage).0 g
            (delete_backend_identity-max_epoch b g.storage))
  ]
]

module _ (hash : String → String) (fraction_ms : String → Option ℕ) where
  serve_admin-core :
      (fresh : Fresh) (now : ℕ) (call : AdminCall) (g : Gateway)
      → core (serve_admin hash fraction_ms fresh now call g).0 ≡ core g
  unfolding serve_admin issue_credential bind_credential change_scope
  serve_admin-core fresh now show_overview g = refl
  serve_admin-core fresh now show_credentials g = refl
  serve_admin-core fresh now show_backends g = refl
  serve_admin-core fresh now (issue_call body) g =
      issue-core hash fresh now (read_new_credential fraction_ms body g.storage) g
  serve_admin-core fresh now (forget b) g = forget_backend-core b g
  serve_admin-core fresh now (bind id body) g = bind_checked-core (check_bind id body g) g
  serve_admin-core fresh now (scope id body) g = scope_checked-core (check_scope id body g) g
  serve_admin-core fresh now (revoke id) g = delete_credential-core id now g
  serve_admin-core fresh now (revoke_all body) g = revoke_many-core body now g
  serve_admin-core fresh now (purge_all body) g = purge-core body g

  answer_admin-core :
      (fresh : Fresh) (now : ℕ) (call : AdminCall) (o : Outcome Bool) (g : Gateway)
      → core (answer_admin hash fraction_ms fresh now call o g).0 ≡ core g
  unfolding answer_admin
  answer_admin-core fresh now call (admitted b) g = serve_admin-core fresh now call g
  answer_admin-core fresh now call (denied d) g = refl
  answer_admin-core fresh now call forbidden g = refl

require_admin-core :
    (url_host : String → Option String) (allowed : Option (List String)) (admin_token : String)
    (cfg : Config) (now : ℕ) (req : Request) (s : SessionStore) (g : Gateway)
    → core (require_admin url_host allowed admin_token cfg now req s g).1.0 ≡ core g
unfolding require_admin deny
require_admin-core url_host allowed admin_token cfg now req s g =
    elim (Bool-cases (is_admin_token admin_token (bearer_token req.authorization))) [
      | inl e ↦ rw (e, require_admin) refl
      | inr e ↦ elim (Bool-cases (session_of_cookie now req.cookie s).1) [
        | inr f ↦ rw (e, f, require_admin) refl
        | inl f ↦
            elim (Bool-cases
              (is_mutating_request req && not (is_trusted_origin url_host allowed req))) [
                | inl t ↦ rw (e, f, t, require_admin) refl
                | inr t ↦ rw (e, f, t, require_admin) refl
              ]
      ]
    ]

pub handle_admin-core :
    (hash : String → String) (fraction_ms : String → Option ℕ) (url_host : String → Option String)
    (allowed : Option (List String)) (admin_token : String) (cfg : Config) (fresh : Fresh) (now : ℕ)
    (req : Request) (call : AdminCall) (s : SessionStore) (g : Gateway)
    → core
        (handle_admin hash fraction_ms url_host allowed admin_token cfg fresh now req call s g).1.0
      ≡ core g
unfolding handle_admin
handle_admin-core hash fraction_ms url_host allowed admin_token cfg fresh now req call s g =
    let (s', (g', outcome)) = require_admin url_host allowed admin_token cfg now req s g in
    answer_admin-core hash fraction_ms fresh now call outcome g'
    ∙ require_admin-core url_host allowed admin_token cfg now req s g
