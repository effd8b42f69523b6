-- ===== src/AdminSession.antt =====
-- src/admin-session.ts: the sessions of the admin web UI, in memory. `now` is `Date.now()`, and
-- `id` the random identifier of a new session.
pub mod Lifetime
use zclaudia_gateway.Prelude.{
  ℕ, ◌+◌, String, Bool, true, false, not, ltb, if◌then◌else◌, Option, none, some, [],
}
use zclaudia_gateway.Map.{Map, get, set, delete, keep}

-- what a session keeps: its `expiresAt`
pub record SessionStore : Type 0 where
  pub sessions : Map ℕ
  pub ttl_ms : ℕ

unfoldable pub create : String → ℕ → SessionStore → SessionStore × (String × ℕ)
create id now s = (record s { sessions = set id (now + s.ttl_ms) s.sessions }, (id, now + s.ttl_ms))

unfoldable pub validate : String → ℕ → SessionStore → SessionStore × Bool
validate id now s = elim (get id s.sessions) [
  | none ↦ (s, false)
  | some expires_at ↦
      if ltb expires_at now
      then (record s { sessions = delete id s.sessions }, false)
      else (s, true)
]

unfoldable pub expires_at : String → SessionStore → Option ℕ
expires_at id s = get id s.sessions

unfoldable pub destroy : String → SessionStore → SessionStore
destroy id s = record s { sessions = delete id s.sessions }

unfoldable pub sweep : ℕ → SessionStore → SessionStore
sweep now s = record s { sessions = keep (λ _ expires_at. not (ltb expires_at now)) s.sessions }

unfoldable pub dispose : SessionStore → SessionStore
dispose s = record s { sessions = [] }
