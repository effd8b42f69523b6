-- ===== src/Gateway/Invariant/Liveness.antt =====
-- The invariant when a backend sends a heartbeat, and when peers answer pings or do not.
use mathlib.Core.Option
use zclaudia_gateway.Prelude.{
  ℕ, ◌≤◌, ◌⊎◌, subst, String, Bool, some, ◌≡◌, refl, sym, ap, ◌∙◌, Option-cases, Bool-cases, inl,
  inr, text-cases,
}
use zclaudia_gateway.Json.{Number}
use zclaudia_gateway.Map.{Map, get, update}
use zclaudia_gateway.Map.Laws.{update_found, get-update_ne, get-update_self}
use zclaudia_gateway.State.{PeerSession}
use zclaudia_gateway.Gateway.{Gateway}
use zclaudia_gateway.Gateway.Topics.{owned_backend}
use zclaudia_gateway.Gateway.Messages.{handle_backend_heartbeat, epoch_is, beat, seen}
use zclaudia_gateway.Gateway.Events.{alive, set_alive}
use zclaudia_gateway.Gateway.Invariant.{Core, CoreInv, Inv, core, Leased}

-- An entry is found after an update if it is found before.
still_found {ℓ} :
    {A : Type ℓ} (k j : String) (f : A → A) (m : Map A) (v : A)
    → get j m ≡ some v
    → (w : A) × (get j (update k f m) ≡ some w) × ((w ≡ v) ⊎ (w ≡ f v))
still_found k j f m v h = elim (text-cases j k) [
  | inl (same, _) ↦ (
    f v,
    ap (λ x. get x (update k f m)) same
        ∙ (get-update_self k f m ∙ ap (Option.map f) (ap (λ x. get x m) (sym same) ∙ h)),
    inr refl,
  )
  | inr (n, _) ↦ (v, get-update_ne k j f m n ∙ h, inl refl)
]

-- An entry that is found after an update was there before.
was_found {ℓ} :
    {A : Type ℓ} (k j : String) (f : A → A) (m : Map A) (v : A)
    → get j (update k f m) ≡ some v
    → (w : A) × (get j m ≡ some w) × ((v ≡ w) ⊎ (v ≡ f w))
was_found k j f m v h = elim (update_found k j f m v h) [
  | inl (_, (w, g, e)) ↦ (w, g, inr (sym e))
  | inr (_, g) ↦ (v, g, inl refl)
]

-- a field that both a value and its change have
same_field {ℓ κ} :
    {A : Type ℓ} {B : Type κ} (field : A → B) (f : A → A) (w v : A)
    → field (f v) ≡ field v
    → (w ≡ v) ⊎ (w ≡ f v)
    → field w ≡ field v
same_field field f w v k (inl e) = ap field e
same_field field f w v k (inr e) = ap field e ∙ k

module _ (c : Core) (v : CoreInv c) (b : String) (now : ℕ) where
  beat-Leased :
      (b' id : String) (e : ℕ)
      → Leased c.leases b' id e
      → Leased (update b (beat now) c.leases) b' id e
  beat-Leased b' id e (l, h, p, q) =
      let (l', h', s) = still_found b b' (beat now) c.leases l h in
      (
        l',
        h',
        same_field (λ x. x.peer_session_id) (beat now) l' l refl s ∙ p,
        same_field (λ x. x.epoch) (beat now) l' l refl s ∙ q,
      )

  beaten-CoreInv : CoreInv (record c {
    leases = update b (beat now) c.leases;
    registry = update b (seen now) c.registry;
  })
  beaten-CoreInv = record {
    channels_distinct = v.channels_distinct;
    peers_keyed = v.peers_keyed;
    owners = λ id p b' h q. let (e, s, w) = v.owners id p b' h q in (e, s, beat-Leased b' id e w);
    leased = λ b' l h.
        let (l₀, h₀, s) = was_found b b' (beat now) c.leases l h in
        let (p, f, q) = v.leased b' l₀ h₀ in
        (
          p,
          ap (λ x. get x c.peers) (same_field (λ x. x.peer_session_id) (beat now) l l₀ refl s) ∙ f,
          q,
        );
    registered = λ b' item h.
        let (i₀, h₀, s) = was_found b b' (seen now) c.registry item h in
        let (k, (l, f, e)) = v.registered b' i₀ h₀ in
        let (l', f', t) = still_found b b' (beat now) c.leases l f in
        (
          same_field (λ x. x.backend_id) (seen now) item i₀ refl s ∙ k,
          (
            l',
            f',
            same_field (λ x. x.epoch) (beat now) l' l refl t
                ∙ (e ∙ sym (same_field (λ x. x.epoch) (seen now) item i₀ refl s)),
          ),
        );
    listed = λ b' l h.
        let (l₀, h₀, _) = was_found b b' (beat now) c.leases l h in
        let (item, f) = v.listed b' l₀ h₀ in
        let (item', f', _) = still_found b b' (seen now) c.registry item f in (item', f');
    epochs = λ b' l h.
        let (l₀, h₀, s) = was_found b b' (beat now) c.leases l h in
        subst (λ n. n ≤ c.max_epoch) (sym (same_field (λ x. x.epoch) (beat now) l l₀ refl s))
          (v.epochs b' l₀ h₀);
    current = λ id ch h.
        let (k, w) = v.current id ch h in
        (k, beat-Leased ch.backend_id ch.backend_peer_session_id ch.epoch w);
    subscribed = λ b' t h.
        let (l, f) = v.subscribed b' t h in
        let (l', f', _) = still_found b b' (beat now) c.leases l f in (l', f');
    retained = λ b' t h.
        let (l, f) = v.retained b' t h in
        let (l', f', _) = still_found b b' (beat now) c.leases l f in (l', f');
  }

pub handle_backend_heartbeat-Inv :
    (peer : PeerSession) (epoch : Number) (now : ℕ) (g : Gateway)
    → Inv g
    → Inv (handle_backend_heartbeat peer epoch now g)
unfolding handle_backend_heartbeat
handle_backend_heartbeat-Inv peer epoch now g v = elim (Bool-cases (epoch_is epoch peer.epoch)) [
  | inr e ↦ rw (e, handle_backend_heartbeat) v
  | inl e ↦ elim (Option-cases (owned_backend peer g)) [
    | inl f ↦ rw (e, f, handle_backend_heartbeat) v
    | inr (b, f) ↦ rw (e, f, handle_backend_heartbeat) (beaten-CoreInv (core g) v b now)
  ]
]

-- A peer's `isAlive` is of no consequence.
pub set_alive-Inv : (id : String) (a : Bool) (g : Gateway) → Inv g → Inv (set_alive id a g)
set_alive-Inv id a g v = record {
  channels_distinct = v.channels_distinct;
  peers_keyed = λ j p h.
      let (p₀, h₀, s) = was_found id j (alive a) g.state.peers p h in
      same_field (λ x. x.peer_session_id) (alive a) p p₀ refl s ∙ v.peers_keyed j p₀ h₀;
  owners = λ j p b h q.
      let (p₀, h₀, s) = was_found id j (alive a) g.state.peers p h in
      let (e, t, w) =
        v.owners j p₀ b h₀ (sym (same_field (λ x. x.backend_id) (alive a) p p₀ refl s) ∙ q) in
      (e, same_field (λ x. x.epoch) (alive a) p p₀ refl s ∙ t, w);
  leased = λ b l h.
      let (p, f, q) = v.leased b l h in
      let (p', f', s) = still_found id l.peer_session_id (alive a) g.state.peers p f in
      (p', f', same_field (λ x. x.backend_id) (alive a) p' p refl s ∙ q);
  registered = v.registered;
  listed = v.listed;
  epochs = v.epochs;
  current = v.current;
  subscribed = v.subscribed;
  retained = v.retained;
}
