-- ===== src/Http/Answer.antt =====
-- src/server.ts: how a route answers, as a value. `res.status(…).json(…)` with an error is the
-- error's message under its status; a check that fails ends its route.
use zclaudia_gateway.Prelude.{String}

pub data Answer {ℓ} (A : Type ℓ) : Type ℓ where
  ok : A → Answer A
  invalid_request : (message : String) → Answer A
  not_found : (message : String) → Answer A
  conflict : (message : String) → Answer A

infixl 5 ◌>>=◌
abbrev pub ◌>>=◌ {ℓ κ} : {A : Type ℓ} {B : Type κ} → Answer A → (A → Answer B) → Answer B
ok a >>= f = f a
invalid_request m >>= f = invalid_request m
not_found m >>= f = not_found m
conflict m >>= f = conflict m
