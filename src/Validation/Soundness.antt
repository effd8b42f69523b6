-- ===== src/Validation/Soundness.antt =====
-- What a message has that the checks of src/validation.ts and `validatePeerHelloV4` let through.
use zclaudia_gateway.Prelude.{true, false, Option, none, some, [], ◌∷◌, ◌≡◌, ◌>>=◌}
use zclaudia_gateway.Map.{Map}
use zclaudia_gateway.Json.{Json, member}
use zclaudia_gateway.Validation.{FieldSpec, check_field, is_present}

-- what the spec of a field says of the value that the message has there
abbrev Meets : FieldSpec → Option Json → Type 0
Meets spec none = (spec.optional ≡ true) × (is_present spec.kind ≡ false)
Meets spec (some v) = check_field v spec ≡ none

abbrev MeetsAll : Json → Map FieldSpec → Type 0
MeetsAll msg [] = Unit
MeetsAll msg ((name, spec) ∷ rest) = Meets spec (member name msg) × MeetsAll msg rest
