-- ===== src/Gateway/Invariant/Owners.antt =====
-- What the invariant says of a reachable gateway's owners and channels.
use zclaudia_gateway.Prelude.{ℕ, String, some, List, ◌≡◌, sym, ap, ◌∙◌, some-injective}
use zclaudia_gateway.Map.{get}
use zclaudia_gateway.Storage.{Storage}
use zclaudia_gateway.State.{PeerSession}
use zclaudia_gateway.Gateway.{Config, ChannelRecord}
use zclaudia_gateway.Gateway.Events.{Event, start, run}
use zclaudia_gateway.Gateway.Invariant.Runs.{NewSessions, reachable-Inv}

module _ (cfg : Config) (hash : String → String) (ttl : ℕ) (s : Storage) (es : List (ℕ × Event))
    (new : NewSessions cfg hash (start ttl s) es) where
  -- In every state that a run of the gateway's events reaches, those of the control connections, the
  -- data sockets, the timers and the HTTP routes, if each new session gets a session id that no
  -- connected peer has, a backend has one owner: two connected peers that have the same backend id
  -- are one session.
  pub one_owner :
      (b id id' : String) (p p' : PeerSession)
      → get id (run cfg hash (start ttl s) es).state.peers ≡ some p
      → p.backend_id ≡ some b
      → get id' (run cfg hash (start ttl s) es).state.peers ≡ some p'
      → p'.backend_id ≡ some b
      → id ≡ id'
  one_owner b id id' p p' f q f' q' =
      let v = reachable-Inv cfg hash ttl s es new in
      let (_, _, (l, h, k, _)) = v.owners id p b f q in
      let (_, _, (l', h', k', _)) = v.owners id' p' b f' q' in
      sym k ∙ (ap (λ x. x.peer_session_id) (some-injective l l' (sym h ∙ h')) ∙ k')

  -- In every state that a run of the gateway's events reaches, those of the control connections, the
  -- data sockets, the timers and the HTTP routes, if each new session gets a session id that no
  -- connected peer has, the backend end of every channel, also of a proxied request's, is a connected peer that has the channel's backend now, in the
  -- epoch that the channel was opened in: no channel outlives its backend's epoch.
  pub channel_fenced :
      (id : String) (ch : ChannelRecord)
      → get id (run cfg hash (start ttl s) es).channels ≡ some ch
      → (p : PeerSession) × (get ch.backend_peer_session_id
            (run cfg hash (start ttl s) es).state.peers
          ≡ some p)
        × (p.backend_id ≡ some ch.backend_id)
        × (p.epoch ≡ some ch.epoch)
  channel_fenced id ch f =
      let v = reachable-Inv cfg hash ttl s es new in
      let (_, (l, h, k, e)) = v.current id ch f in
      let (p, g, q) = v.leased ch.backend_id l h in
      let here = ap (λ x. get x (run cfg hash (start ttl s) es).state.peers) (sym k) ∙ g in
      let (n, t, (l', h', _, e')) = v.owners ch.backend_peer_session_id p ch.backend_id here q in
      (
        p,
        here,
        q,
        t ∙ ap some (sym e' ∙ (ap (λ x. x.epoch) (some-injective l' l (sym h' ∙ h)) ∙ e)),
      )
