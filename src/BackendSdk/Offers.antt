-- ===== src/BackendSdk/Offers.antt =====
-- packages/backend/src/index.ts, `handleOffer`: an offered channel is dialled for its handler, or
-- rejected. Handlers are the application's and named by texts.
use zclaudia_gateway.Prelude.{
  String, Bool, true, false, is_empty, if◌then◌else◌, Option, none, some, List, [], ◌∷◌,
}
use zclaudia_gateway.Map.{Map, get}
use zclaudia_gateway.SdkMessages.{SdkMessage, reject_offer}
use zclaudia_gateway.ClientSdk.Socket.{channel_url}

pub record Handlers : Type 0 where
  pub by_kind : Map String
  pub default_handler : Option String

pub record Offer : Type 0 where
  pub channel_id : String
  pub kind : Option String
  pub source : Option String
  pub ticket : String
  pub data_path : String

pub data OfferCall : Type 0 where
  dial : (url : String) → OfferCall
  send : SdkMessage → OfferCall
  handle : (handler : String) → Offer → OfferCall

-- `a ?? b`
abbrev or_else : Option String → Option String → Option String
or_else none b = b
or_else (some a) b = some a

-- The handler of an offer's kind. An empty kind is falsy but not null, and so finds none.
unfoldable pub handler_of : Handlers → Option String → Option String
unfolding get
handler_of h none = h.default_handler
handler_of h (some kind) =
    if is_empty kind then none else or_else (get kind h.by_kind) h.default_handler

-- `this.socket?.send(…)`
abbrev pub send_if : Bool → SdkMessage → List OfferCall
send_if false message = []
send_if true message = send message ∷ []

-- the first part, with whether there is a control socket
unfoldable pub receive_offer :
    (encode : String → String)
    → (ws_base : String) (is_closed has_socket : Bool) → Handlers
    → Offer
    → List OfferCall
unfolding handler_of channel_url
receive_offer encode ws_base true has_socket h offer = []
receive_offer encode ws_base false has_socket h offer = elim (handler_of h offer.kind) [
  | none ↦ send_if has_socket (reject_offer offer.channel_id "no_handler")
  | some _ ↦ dial (channel_url encode ws_base offer.data_path offer.ticket) ∷ []
]

-- the dial of a handler's channel succeeded or failed
unfoldable pub offer_dialled :
    (success has_socket : Bool) → (handler : String) → Offer → List OfferCall
offer_dialled true has_socket handler offer = handle handler offer ∷ []
offer_dialled false has_socket handler offer =
    send_if has_socket (reject_offer offer.channel_id "dial_failed")
