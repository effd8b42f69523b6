-- ===== src/Gateway/Tickets.antt =====
-- The tickets of `handleChannelUpgrade` in src/server.ts.
use zclaudia_gateway.Prelude.{
  ℕ, String, not, ◌&&◌, Option, none, some, ◌≡◌, refl, ap, ◌∙◌, inl, inr, Option-cases, Bool-cases,
}
use zclaudia_gateway.Map.{get, has, update}
use zclaudia_gateway.Map.Laws.{get-delete_self}
use zclaudia_gateway.Gateway.{Gateway, ChannelRecord, Role, emit, pause, reject_upgrade}
use zclaudia_gateway.Gateway.Channels.{
  take_ticket, ticket_fits, attach_socket, complete, with_socket, handle_channel_upgrade,
}

-- A ticket is gone once it was presented, whether it fits or not.
take_ticket-gone :
    (now : ℕ) (id token : String) (g : Gateway)
    → get token (take_ticket now id token g).0.channel_tickets ≡ none
unfolding take_ticket
take_ticket-gone now id token g = elim (Option-cases (get token g.channel_tickets)) [
  | inl e ↦ rw (e, take_ticket) e
  | inr (t, e) ↦ elim (Bool-cases (has id g.channels && ticket_fits now id t)) [
    | inl f ↦ rw (e, f, take_ticket) (get-delete_self token g.channel_tickets)
    | inr f ↦ rw (e, f, take_ticket) (get-delete_self token g.channel_tickets)
  ]
]

complete-tickets :
    (ch : ChannelRecord) (a b : Option String) (g : Gateway)
    → (complete ch a b g).channel_tickets ≡ g.channel_tickets
complete-tickets ch a none g = refl
complete-tickets ch none (some b) g = elim (Bool-cases (ch.internal && not ch.piped)) [
  | inl e ↦ rw e refl
  | inr e ↦ rw e refl
]
complete-tickets ch (some a) (some b) g = elim (Bool-cases ch.piped) [
  | inl e ↦ rw e refl
  | inr e ↦ rw e (elim (Bool-cases ch.internal) [ inl f ↦ rw f refl | inr f ↦ rw f refl ])
]

attach_socket-tickets :
    (id ws : String) (role : Role) (g : Gateway)
    → (attach_socket id ws role g).channel_tickets ≡ g.channel_tickets
unfolding attach_socket
attach_socket-tickets id ws role g = elim (Option-cases (get id g.channels)) [
  | inl e ↦ rw (e, attach_socket) refl
  | inr (ch, e) ↦
      let ch' = with_socket role ws ch in
      rw (e, attach_socket)
        (complete-tickets ch' ch'.client_socket ch'.backend_socket
          (emit (pause ws) (record g { channels = update id (with_socket role ws) g.channels })))
]

upgrade-gone :
    (now : ℕ) (id token ws : String) (g : Gateway)
    → get token (handle_channel_upgrade now id token ws g).channel_tickets ≡ none
unfolding handle_channel_upgrade
upgrade-gone now id token ws g =
    let g' = (take_ticket now id token g).0 in
    elim (Option-cases (take_ticket now id token g).1) [
      | inl e ↦ rw (e, handle_channel_upgrade) (take_ticket-gone now id token g)
      | inr (role, e) ↦
          rw (e, handle_channel_upgrade)
            (ap (get token) (attach_socket-tickets id ws role g') ∙ take_ticket-gone now id token g)
    ]

no_ticket :
    (now : ℕ) (id token : String) (g : Gateway)
    → get token g.channel_tickets ≡ none
    → take_ticket now id token g ≡ (g, none)
unfolding take_ticket
no_ticket now id token g e = rw (e, take_ticket) refl

unknown_ticket :
    (now : ℕ) (id token ws : String) (g : Gateway)
    → get token g.channel_tickets ≡ none
    → handle_channel_upgrade now id token ws g ≡ emit (reject_upgrade ws) g
unfolding handle_channel_upgrade
unknown_ticket now id token ws g e =
    let none_taken = no_ticket now id token g e in
    rw (ap (λ x. x.1) none_taken, handle_channel_upgrade)
      (ap (λ x. emit (reject_upgrade ws) x.0) none_taken)

-- A ticket is good for one dial. Whatever became of the first dial with it, accepted or refused,
-- a second dial with the same ticket, at any time and for any channel, is refused and changes
-- nothing.
pub handle_channel_upgrade-once :
    (now now' : ℕ) (id id' token ws ws' : String) (g : Gateway)
    → handle_channel_upgrade now' id' token ws' (handle_channel_upgrade now id token ws g)
      ≡ emit (reject_upgrade ws') (handle_channel_upgrade now id token ws g)
handle_channel_upgrade-once now now' id id' token ws ws' g =
    unknown_ticket now' id' token ws' (handle_channel_upgrade now id token ws g)
      (upgrade-gone now id token ws g)
