-- ===== src/Gateway/Invariant/Sessions.antt =====
-- The invariant when a peer's session ends: the disconnect, the expiry of a lease, the replacement
-- of a backend's owner.
use zclaudia_gateway.Prelude.{
  String, false, ◌==◌, none, some, ◌≡◌, ◌≢◌, inl, inr, refl, sym, ap, ◌∙◌, arith, test_refl,
}
use zclaudia_gateway.Map.{Map, get, delete, update}
use zclaudia_gateway.Map.Laws.{delete_found, update_found, get-delete_ne, get-update_ne}
use zclaudia_gateway.State.{PeerSession}
use zclaudia_gateway.Gateway.{Gateway, ChannelRecord, ClosedReason}
use zclaudia_gateway.Gateway.Channels.{close_channels_for_backend}
use zclaudia_gateway.Gateway.Topics.{owned_backend}
use zclaudia_gateway.Gateway.Ownership.{disowned}
use zclaudia_gateway.Gateway.Frame.{get-teardown_all}
use zclaudia_gateway.Gateway.Invariant.{Inv, Left}

-- A peer without its backend, or gone, is a peer that left.
pub delete-Left : (id : String) (peers : Map PeerSession) → Left peers (delete id peers) id
delete-Left id peers = record {
  found = λ j p h. inr (delete_found id j peers p h);
  others = λ j n. get-delete_ne id j peers n;
}

pub disowned-Left :
    (id : String) (peers : Map PeerSession)
    → ((j : String) (p : PeerSession) → get j peers ≡ some p → p.peer_session_id ≡ j)
    → Left peers (update id disowned peers) id
disowned-Left id peers keyed = record {
  found = λ j p h. elim (update_found id j disowned peers p h) [
    | inl (k, (q, f, e)) ↦
        inl (ap (λ x. x.peer_session_id) (sym e) ∙ keyed j q f, ap (λ x. x.backend_id) (sym e))
    | inr (n, f) ↦ inr (λ same. n (sym same), f)
  ];
  others = λ j n. get-update_ne id j disowned peers (λ same. n (sym same));
}

pub gone-Left :
    (id : String) (peers : Map PeerSession) → Left peers (delete id (update id disowned peers)) id
gone-Left id peers = record {
  found = λ j p h.
      let (n, f) = delete_found id j (update id disowned peers) p h in
      inr (n, sym (get-update_ne id j disowned peers (λ same. n (sym same))) ∙ f);
  others = λ j n.
      get-delete_ne id j (update id disowned peers) n
      ∙ get-update_ne id j disowned peers (λ same. n (sym same));
}

-- An owner, as the invariant has it, is the owner that `isCurrentBackendOwner` finds.
pub owned_backend-owner :
    (g : Gateway) (id b : String) (p : PeerSession)
    → Inv g
    → get id g.state.peers ≡ some p
    → p.backend_id ≡ some b
    → owned_backend p g ≡ some b
unfolding owned_backend
owned_backend-owner g id b p v h q =
    let (e, s, (l, f, k, t)) = v.owners id p b h q in
    let keyed = v.peers_keyed id p h in ground (arith, test_refl id)

pub owned_backend-none :
    (g : Gateway) (p : PeerSession) → p.backend_id ≡ none → owned_backend p g ≡ none
unfolding owned_backend
owned_backend-none g p h = rw (h, owned_backend) refl

-- the channels that are left when a backend's are closed
pub close_channels_for_backend-found :
    (g : Gateway) (b : String) (reason : ClosedReason) (j : String) (ch : ChannelRecord)
    → Inv g
    → get j (close_channels_for_backend b reason g).channels ≡ some ch
    → (get j g.channels ≡ some ch) × (b ≢ ch.backend_id)
unfolding close_channels_for_backend
close_channels_for_backend-found g b reason j ch v h =
    let test = λ (c : ChannelRecord). c.backend_id == b in
    let (f, n) = get-teardown_all test reason g j ch (λ id c e. (v.current id c e).0) h in
    (f, λ same. differs same n)
  where
    differs : b ≡ ch.backend_id → (ch.backend_id == b) ≡ false → ⊥
    differs same n = absurd (ground (arith, test_refl b, ap (λ x. x == b) same))
