-- ===== src/Gateway/Invariant.antt =====
-- How peers, leases, the registry, channels and topics of src/server.ts fit together: the
-- invariant.
pub mod Registration
pub mod Sessions
pub mod Disconnect
pub mod Expiry
pub mod Replacement
pub mod Arrival
pub mod Channels
pub mod Topics
pub mod Liveness
pub mod Steps
pub mod Proxied
pub mod Web
pub mod Counter
pub mod Runs
pub mod Owners
use zclaudia_gateway.Prelude.{
  ℕ, suc, ◌+◌, ◌≤◌, ◌<◌, String, Bool, true, false, ◌==◌, if◌then◌else◌, is_some, Option, none,
  some, List, [], ◌∷◌, ◌≡◌, ◌≢◌, ◌⊎◌, inl, inr, refl, sym, ap, ◌∙◌, subst, arith, Option-cases,
  Bool-cases, text-cases, some-injective,
}
use zclaudia_gateway.Json.{Json}
use zclaudia_gateway.Map.{Map, get, set, delete, has, Distinct}
use zclaudia_gateway.Map.Laws.{delete_found, set_found, get-set_self, get-set_ne, get-delete_ne}
use zclaudia_gateway.State.{PeerSession, BackendLease, BackendPresence}
use zclaudia_gateway.Gateway.{Gateway, ChannelRecord}

-- The parts of the gateway that the invariant is about.
pub record Core : Type 0 where
  pub peers : Map PeerSession
  pub leases : Map BackendLease
  pub registry : Map BackendPresence
  pub max_epoch : ℕ
  pub channels : Map ChannelRecord
  pub topic_subs : Map (Map (List String))
  pub retained_topics : Map (Map Json)

abbrev pub core : Gateway → Core
core g = record {
  peers = g.state.peers;
  leases = g.state.leases;
  registry = g.state.registry;
  max_epoch = g.storage.max_epoch;
  channels = g.channels;
  topic_subs = g.topic_subs;
  retained_topics = g.retained_topics;
}

-- The lease of a backend is of this peer session and this epoch.
abbrev pub Leased : Map BackendLease → String → String → ℕ → Type 0
Leased leases b id epoch =
    (l : BackendLease) × (get b leases ≡ some l) × (l.peer_session_id ≡ id) × (l.epoch ≡ epoch)

pub record CoreInv (c : Core) : Type 0 where
  -- the map of channels has one entry for each key, as a JavaScript map
  pub channels_distinct : Distinct c.channels
  -- a peer is kept under its session id
  pub peers_keyed :
      (id : String) (p : PeerSession) → get id c.peers ≡ some p → p.peer_session_id ≡ id
  -- a peer that has a backend holds the backend's lease, in its own epoch
  pub owners :
      (id : String) (p : PeerSession) (b : String)
      → get id c.peers ≡ some p
      → p.backend_id ≡ some b
      → (e : ℕ) × (p.epoch ≡ some e) × Leased c.leases b id e
  -- every lease is held by a connected peer that has its backend
  pub leased :
      (b : String) (l : BackendLease)
      → get b c.leases ≡ some l
      → (p : PeerSession) × (get l.peer_session_id c.peers ≡ some p) × (p.backend_id ≡ some b)
  -- what the registry lists is leased, in the same epoch
  pub registered :
      (b : String) (item : BackendPresence)
      → get b c.registry ≡ some item
      → (item.backend_id ≡ b)
        × ((l : BackendLease) × (get b c.leases ≡ some l) × (l.epoch ≡ item.epoch))
  -- what is leased is listed
  pub listed :
      (b : String) (l : BackendLease)
      → get b c.leases ≡ some l
      → (item : BackendPresence) × (get b c.registry ≡ some item)
  -- no lease is of a later epoch than the counter
  pub epochs : (b : String) (l : BackendLease) → get b c.leases ≡ some l → l.epoch ≤ c.max_epoch
  -- a channel is of its backend's current epoch and owner
  pub current :
      (id : String) (ch : ChannelRecord)
      → get id c.channels ≡ some ch
      → (ch.channel_id ≡ id) × Leased c.leases ch.backend_id ch.backend_peer_session_id ch.epoch
  -- subscriptions and retained payloads are of leased backends
  pub subscribed :
      (b : String) (t : Map (List String))
      → get b c.topic_subs ≡ some t
      → (l : BackendLease) × (get b c.leases ≡ some l)
  pub retained :
      (b : String) (t : Map Json)
      → get b c.retained_topics ≡ some t
      → (l : BackendLease) × (get b c.leases ≡ some l)

abbrev pub Inv : Gateway → Type 0
Inv g = CoreInv (core g)

pub none-ne-some {ℓ} : {A : Type ℓ} {a : A} {o : Option A} → o ≡ none → o ≡ some a → ⊥
none-ne-some p q = cc

-- The channels that stay after some were closed.
pub closed-CoreInv :
    (c : Core) (chans : Map ChannelRecord)
    → CoreInv c
    → Distinct chans
    → ((j : String) (ch : ChannelRecord) → get j chans ≡ some ch → get j c.channels ≡ some ch)
    → CoreInv (record c { channels = chans })
closed-CoreInv c chans v d sub = record {
  channels_distinct = d;
  peers_keyed = v.peers_keyed;
  owners = v.owners;
  leased = v.leased;
  registered = v.registered;
  listed = v.listed;
  epochs = v.epochs;
  current = λ id ch h. v.current id ch (sub id ch h);
  subscribed = v.subscribed;
  retained = v.retained;
}

-- The peers after one of them lost its backend or went away.
pub record Left (peers peers' : Map PeerSession) (id : String) : Type 0 where
  pub found :
      (j : String) (p : PeerSession)
      → get j peers' ≡ some p
      → ((p.peer_session_id ≡ j) × (p.backend_id ≡ none)) ⊎ ((id ≢ j) × (get j peers ≡ some p))
  pub others : (j : String) → id ≢ j → get j peers' ≡ get j peers

-- the core after the owner of a backend left
abbrev pub vacated : Core → String → Map PeerSession → Map ChannelRecord → Core
vacated c b peers' chans = record {
  peers = peers';
  leases = delete b c.leases;
  registry = delete b c.registry;
  max_epoch = c.max_epoch;
  channels = chans;
  topic_subs = delete b c.topic_subs;
  retained_topics = delete b c.retained_topics;
}

module _ (c : Core) (v : CoreInv c) (b : String) (l : BackendLease) (held : get b c.leases ≡ some l)
    (peers' : Map PeerSession) (left : Left c.peers peers' l.peer_session_id) where
  vacated-Leased :
      (b' id : String) (e : ℕ)
      → b ≢ b'
      → Leased c.leases b' id e
      → Leased (delete b c.leases) b' id e
  vacated-Leased b' id e n (l', h, p, q) = (l', get-delete_ne b b' c.leases n ∙ h, p, q)

  vacated-owners :
      (id : String) (p : PeerSession) (b' : String)
      → get id peers' ≡ some p
      → p.backend_id ≡ some b'
      → (e : ℕ) × (p.epoch ≡ some e) × Leased (delete b c.leases) b' id e
  vacated-owners id p b' h q = elim (left.found id p h) [
    | inl (_, n) ↦ absurd (none-ne-some n q)
    | inr (n, f) ↦
        let (e, p', (l', h', s, t)) = v.owners id p b' f q in
        (e, p', vacated-Leased b' id e (differs id l' n h' s) (l', h', s, t))
  ]
    where
      differs :
          (id : String) (l' : BackendLease)
          → l.peer_session_id ≢ id
          → get b' c.leases ≡ some l'
          → l'.peer_session_id ≡ id
          → b ≢ b'
      differs id l' n h' s same = n (
          ap (λ x. x.peer_session_id)
            (some-injective l l' (sym held ∙ (ap (λ x. get x c.leases) same ∙ h')))
          ∙ s)

  vacated-leased :
      (b' : String) (l' : BackendLease)
      → get b' (delete b c.leases) ≡ some l'
      → (p : PeerSession) × (get l'.peer_session_id peers' ≡ some p) × (p.backend_id ≡ some b')
  vacated-leased b' l' h =
      let (n, h') = delete_found b b' c.leases l' h in
      let (p, f, q) = v.leased b' l' h' in
      let (p₀, f₀, q₀) = v.leased b l held in
      (p, left.others l'.peer_session_id (other n p p₀ f q f₀ q₀) ∙ f, q)
    where
      other :
          b ≢ b'
          → (p p₀ : PeerSession) → get l'.peer_session_id c.peers ≡ some p
          → p.backend_id ≡ some b'
          → get l.peer_session_id c.peers ≡ some p₀
          → p₀.backend_id ≡ some b
          → l.peer_session_id ≢ l'.peer_session_id
      other n p p₀ f q f₀ q₀ same =
          let e : p₀ ≡ p = some-injective p₀ p (sym f₀ ∙ (ap (λ x. get x c.peers) same ∙ f)) in
          n (some-injective b b' (sym q₀ ∙ (ap (λ x. x.backend_id) e ∙ q)))

  -- When the owner of a backend leaves, and its channels and topics go with it, all is well.
  pub vacated-CoreInv :
      (chans : Map ChannelRecord)
      → Distinct chans
      → ((j : String) (ch : ChannelRecord)
          → get j chans ≡ some ch
          → (get j c.channels ≡ some ch) × (b ≢ ch.backend_id))
      → CoreInv (vacated c b peers' chans)
  vacated-CoreInv chans d sub = record {
    channels_distinct = d;
    peers_keyed =
        λ id p h. elim (left.found id p h) [ inl (k, _) ↦ k | inr (_, f) ↦ v.peers_keyed id p f ];
    owners = vacated-owners;
    leased = vacated-leased;
    registered = λ b' item h.
        let (n, f) = delete_found b b' c.registry item h in
        let (k, (l', h', s)) = v.registered b' item f in
        (k, (l', get-delete_ne b b' c.leases n ∙ h', s));
    listed = λ b' l' h.
        let (n, f) = delete_found b b' c.leases l' h in
        let (item, k) = v.listed b' l' f in (item, get-delete_ne b b' c.registry n ∙ k);
    epochs = λ b' l' h. v.epochs b' l' (delete_found b b' c.leases l' h).1;
    current = λ id ch h.
        let (f, n) = sub id ch h in
        let (k, w) = v.current id ch f in
        (k, vacated-Leased ch.backend_id ch.backend_peer_session_id ch.epoch n w);
    subscribed = λ b' t h.
        let (n, f) = delete_found b b' c.topic_subs t h in
        let (l', k) = v.subscribed b' t f in (l', get-delete_ne b b' c.leases n ∙ k);
    retained = λ b' t h.
        let (n, f) = delete_found b b' c.retained_topics t h in
        let (l', k) = v.retained b' t f in (l', get-delete_ne b b' c.leases n ∙ k);
  }
