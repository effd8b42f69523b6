-- ===== src/Gateway/Invariant/Registration.antt =====
-- The invariant when a backend is registered and when a peer without a backend comes or goes.
use zclaudia_gateway.Prelude.{
  ℕ, ◌≤◌, String, none, some, ◌≡◌, ◌≢◌, inl, inr, refl, sym, ap, ◌∙◌, arith, text-cases,
  some-injective,
}
use zclaudia_gateway.Map.{Map, get, set, delete}
use zclaudia_gateway.Map.Laws.{delete_found, set_found, get-set_self, get-set_ne, get-delete_ne}
use zclaudia_gateway.State.{PeerSession, BackendLease, BackendPresence}
use zclaudia_gateway.Gateway.Invariant.{Core, CoreInv, Leased, none-ne-some}

-- A backend that nobody holds is registered, with a new epoch, by a peer of a new session.
module _ (c : Core) (v : CoreInv c) (peer : PeerSession) (lease : BackendLease)
    (item : BackendPresence) (registry : Map BackendPresence) (b : String)
    (free : get b c.leases ≡ none) (new : get peer.peer_session_id c.peers ≡ none)
    (is_owner : (peer.backend_id ≡ some b) × (peer.epoch ≡ some lease.epoch))
    (is_lease : (lease.backend_id ≡ b) × (lease.peer_session_id ≡ peer.peer_session_id))
    (is_item : (item.backend_id ≡ b) × (item.epoch ≡ lease.epoch))
    (later : c.max_epoch ≤ lease.epoch) (lists : get b registry ≡ some item)
    (keeps : (j : String) → b ≢ j → get j registry ≡ get j c.registry) where
  abbrev id : String
  id = peer.peer_session_id

  -- another backend's lease is not this one's
  other : (b' : String) (l : BackendLease) → get b' c.leases ≡ some l → b ≢ b'
  other b' l h same = none-ne-some free (ap (λ x. get x c.leases) same ∙ h)

  registered-Leased :
      (b' j : String) (e : ℕ) → Leased c.leases b' j e → Leased (set b lease c.leases) b' j e
  registered-Leased b' j e (l, h, p, q) =
      (l, get-set_ne b b' lease c.leases (other b' l h) ∙ h, p, q)

  same_key : (b' : String) (p : PeerSession) → peer ≡ p → p.backend_id ≡ some b' → b ≡ b'
  same_key b' p e q = some-injective b b' (sym is_owner.0 ∙ (ap (λ x. x.backend_id) e ∙ q))

  new_owner :
      (j : String) (p : PeerSession) (b' : String)
      → id ≡ j
      → peer ≡ p
      → p.backend_id ≡ some b'
      → (e : ℕ) × (p.epoch ≡ some e) × Leased (set b lease c.leases) b' j e
  new_owner j p b' k e q = (
    lease.epoch,
    ap (λ x. x.epoch) (sym e) ∙ is_owner.1,
    (
      lease,
      ap (λ x. get x (set b lease c.leases)) (sym (same_key b' p e q))
          ∙ get-set_self b lease c.leases,
      is_lease.1 ∙ k,
      refl,
    ),
  )

  lease_of :
      (b' : String) (l : BackendLease)
      → get b' (set b lease c.leases) ≡ some l
      → (p : PeerSession) × (get l.peer_session_id (set id peer c.peers) ≡ some p)
        × (p.backend_id ≡ some b')
  lease_of b' l h = elim (set_found b b' lease c.leases l h) [
    | inl (k, e) ↦ (
      peer,
      ap (λ x. get x (set id peer c.peers)) (ap (λ x. x.peer_session_id) (sym e) ∙ is_lease.1)
          ∙ get-set_self id peer c.peers,
      is_owner.0 ∙ ap some k,
    )
    | inr (n, f) ↦
        let (p, g, q) = v.leased b' l f in
        (p, get-set_ne id l.peer_session_id peer c.peers (fresh l p g) ∙ g, q)
  ]
    where
      fresh :
          (l : BackendLease) (p : PeerSession)
          → get l.peer_session_id c.peers ≡ some p
          → id ≢ l.peer_session_id
      fresh l p g same = none-ne-some new (ap (λ x. get x c.peers) same ∙ g)

  same_item : (b' : String) (i : BackendPresence) → b ≡ b' → get b' registry ≡ some i → item ≡ i
  same_item b' i k h = some-injective item i (sym lists ∙ (ap (λ x. get x registry) k ∙ h))

  pub registered-CoreInv : CoreInv (record c {
    peers = set id peer c.peers;
    leases = set b lease c.leases;
    registry = registry;
    max_epoch = lease.epoch;
  })
  registered-CoreInv = record {
    channels_distinct = v.channels_distinct;
    peers_keyed = λ j p h. elim (set_found id j peer c.peers p h) [
      | inl (k, e) ↦ ap (λ x. x.peer_session_id) (sym e) ∙ k
      | inr (n, f) ↦ v.peers_keyed j p f
    ];
    owners = λ j p b' h q. elim (set_found id j peer c.peers p h) [
      | inl (k, e) ↦ new_owner j p b' k e q
      | inr (n, f) ↦ let (e, s, w) = v.owners j p b' f q in (e, s, registered-Leased b' j e w)
    ];
    leased = lease_of;
    registered = λ b' i h. elim (text-cases b b') [
      | inl (k, _) ↦ (
        ap (λ x. x.backend_id) (sym (same_item b' i k h)) ∙ (is_item.0 ∙ k),
        (
          lease,
          ap (λ x. get x (set b lease c.leases)) (sym k) ∙ get-set_self b lease c.leases,
          sym is_item.1 ∙ ap (λ x. x.epoch) (same_item b' i k h),
        ),
      )
      | inr (n, _) ↦
          let (k, (l, f, s)) = v.registered b' i (sym (keeps b' n) ∙ h) in
          (k, (l, get-set_ne b b' lease c.leases n ∙ f, s))
    ];
    listed = λ b' l h. elim (set_found b b' lease c.leases l h) [
      | inl (k, e) ↦ (item, ap (λ x. get x registry) (sym k) ∙ lists)
      | inr (n, f) ↦ let (i, g) = v.listed b' l f in (i, keeps b' n ∙ g)
    ];
    epochs = λ b' l h. elim (set_found b b' lease c.leases l h) [
      | inl (k, e) ↦ omega (arith, ap (λ x. x.epoch) e)
      | inr (n, f) ↦ omega (arith, v.epochs b' l f)
    ];
    current = λ j ch h.
        let (k, w) = v.current j ch h in
        (k, registered-Leased ch.backend_id ch.backend_peer_session_id ch.epoch w);
    subscribed = λ b' t h.
        let (l, f) = v.subscribed b' t h in (l, get-set_ne b b' lease c.leases (other b' l f) ∙ f);
    retained = λ b' t h.
        let (l, f) = v.retained b' t h in (l, get-set_ne b b' lease c.leases (other b' l f) ∙ f);
  }

-- The peers after a session without a backend went away, or a peer without a backend came.
module _ (c : Core) (v : CoreInv c) (id : String) where
  pub removed-CoreInv :
      (p : PeerSession)
      → get id c.peers ≡ some p
      → p.backend_id ≡ none
      → CoreInv (record c { peers = delete id c.peers })
  removed-CoreInv p at_id no_backend = record {
    channels_distinct = v.channels_distinct;
    peers_keyed = λ j q h. v.peers_keyed j q (delete_found id j c.peers q h).1;
    owners = λ j q b h s. v.owners j q b (delete_found id j c.peers q h).1 s;
    leased = λ b l h.
        let (q, f, s) = v.leased b l h in
        (q, get-delete_ne id l.peer_session_id c.peers (other b l q f s) ∙ f, s);
    registered = v.registered;
    listed = v.listed;
    epochs = v.epochs;
    current = v.current;
    subscribed = v.subscribed;
    retained = v.retained;
  }
    where
      other :
          (b : String) (l : BackendLease) (q : PeerSession)
          → get l.peer_session_id c.peers ≡ some q
          → q.backend_id ≡ some b
          → id ≢ l.peer_session_id
      other b l q f s same =
          let e : p ≡ q = some-injective p q (sym at_id ∙ (ap (λ x. get x c.peers) same ∙ f)) in
          none-ne-some no_backend (ap (λ x. x.backend_id) e ∙ s)

  pub added-CoreInv :
      (p : PeerSession)
      → get id c.peers ≡ none
      → p.peer_session_id ≡ id
      → p.backend_id ≡ none
      → CoreInv (record c { peers = set id p c.peers })
  added-CoreInv p new keyed no_backend = record {
    channels_distinct = v.channels_distinct;
    peers_keyed = λ j q h. elim (set_found id j p c.peers q h) [
      | inl (k, e) ↦ ap (λ x. x.peer_session_id) (sym e) ∙ (keyed ∙ k)
      | inr (n, f) ↦ v.peers_keyed j q f
    ];
    owners = λ j q b h s. elim (set_found id j p c.peers q h) [
      | inl (k, e) ↦ absurd (none-ne-some no_backend (ap (λ x. x.backend_id) e ∙ s))
      | inr (n, f) ↦ v.owners j q b f s
    ];
    leased = λ b l h.
        let (q, f, s) = v.leased b l h in
        (q, get-set_ne id l.peer_session_id p c.peers (other l q f) ∙ f, s);
    registered = v.registered;
    listed = v.listed;
    epochs = v.epochs;
    current = v.current;
    subscribed = v.subscribed;
    retained = v.retained;
  }
    where
      other :
          (l : BackendLease) (q : PeerSession)
          → get l.peer_session_id c.peers ≡ some q
          → id ≢ l.peer_session_id
      other l q f same = none-ne-some new (ap (λ x. get x c.peers) same ∙ f)
