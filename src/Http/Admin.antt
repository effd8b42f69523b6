-- ===== src/Http/Admin.antt =====
-- src/server.ts: the admin routes behind `requireAdmin`, as one handler. The admin's own session
-- routes, which have no guard, are in Sessions.
use zclaudia_gateway.Prelude.{ℕ, String, Bool, Option, List}
use zclaudia_gateway.Json.{Json}
use zclaudia_gateway.RateLimit.{Denial}
use zclaudia_gateway.AdminSession.{SessionStore}
use zclaudia_gateway.Storage.{CredentialInfo}
use zclaudia_gateway.Storage.Credentials.{Fresh, list_credentials}
use zclaudia_gateway.Gateway.{Gateway, Config}
use zclaudia_gateway.Http.{Request, Outcome, admitted, denied, forbidden, require_admin}
use zclaudia_gateway.Http.Answer.{Answer}
use zclaudia_gateway.Http.Issue.{issue_credential}
use zclaudia_gateway.Http.Credentials.{
  bind_credential, change_scope, delete_credential, revoke_many, purge,
}
use zclaudia_gateway.Http.Backends.{BackendRow, list_backends, forget_backend}
use zclaudia_gateway.Http.Sessions.{Overview, overview}

-- the routes with their parameters and bodies
pub data AdminCall : Type 0 where
  show_overview show_credentials show_backends : AdminCall
  issue : (body : Json) → AdminCall
  forget : (backend_id : String) → AdminCall
  bind : (id : String) (body : Json) → AdminCall
  scope : (id : String) (body : Json) → AdminCall
  revoke : (id : String) → AdminCall
  revoke_all : (body : Json) → AdminCall
  purge_all : (body : Json) → AdminCall

pub data AdminReply : Type 0 where
  refused : Denial → AdminReply
  untrusted_origin : AdminReply
  overview_shown : Overview → AdminReply
  credentials_shown : List CredentialInfo → AdminReply
  backends_shown : List BackendRow → AdminReply
  issued : Answer (CredentialInfo × String) → AdminReply
  forgotten : Answer {0} Unit → AdminReply
  changed : Answer (Option CredentialInfo) → AdminReply
  revoked : Answer (List String) → AdminReply
  all_revoked : Answer (List String × List String) → AdminReply
  purged : Answer (List String) → AdminReply

module _ (hash : String → String) (fraction_ms : String → Option ℕ) where
  -- a route after its guard
  unfoldable pub serve_admin : Fresh → ℕ → AdminCall → Gateway → Gateway × AdminReply
  unfolding list_credentials list_backends overview issue_credential forget_backend bind_credential
      change_scope delete_credential revoke_many purge
  serve_admin fresh now show_overview g = (g, overview_shown (overview now g))
  serve_admin fresh now show_credentials g = (g, credentials_shown (list_credentials g.storage))
  serve_admin fresh now show_backends g = (g, backends_shown (list_backends g))
  serve_admin fresh now (issue body) g =
      let (g', answer) = issue_credential hash fraction_ms fresh now body g in (g', issued answer)
  serve_admin fresh now (forget backend_id) g =
      let (g', answer) = forget_backend backend_id g in (g', forgotten answer)
  serve_admin fresh now (bind id body) g =
      let (g', answer) = bind_credential id body g in (g', changed answer)
  serve_admin fresh now (scope id body) g =
      let (g', answer) = change_scope id body g in (g', changed answer)
  serve_admin fresh now (revoke id) g =
      let (g', answer) = delete_credential id now g in (g', revoked answer)
  serve_admin fresh now (revoke_all body) g =
      let (g', answer) = revoke_many body now g in (g', all_revoked answer)
  serve_admin fresh now (purge_all body) g = let (g', answer) = purge body g in (g', purged answer)

  -- a route that the guard let through, or the guard's answer
  unfoldable pub answer_admin :
      Fresh → ℕ → AdminCall → Outcome Bool → Gateway → Gateway × AdminReply
  unfolding serve_admin
  answer_admin fresh now call (admitted _) g = serve_admin fresh now call g
  answer_admin fresh now call (denied d) g = (g, refused d)
  answer_admin fresh now call forbidden g = (g, untrusted_origin)

  module _ (url_host : String → Option String) (allowed : Option (List String))
      (admin_token : String) where
    -- a request to an admin route
    unfoldable pub handle_admin :
        Config
        → Fresh
        → ℕ
        → Request
        → AdminCall
        → SessionStore
        → Gateway
        → SessionStore × (Gateway × AdminReply)
    unfolding require_admin answer_admin
    handle_admin cfg fresh now req call s g =
        let (s', (g', outcome)) = require_admin url_host allowed admin_token cfg now req s g in
        (s', answer_admin fresh now call outcome g')
