-- ===== src/ClientSdk/TopicKey.antt =====
-- packages/client/src/index.ts: `topicKey`, and its reading by `key.split('\x1f')`. Here `[]` and
-- `∷` are those of texts.
use Prim.Native.Char.{Char, code}
use Prim.Native.String.append
use Prim.Native.String.{String, [], ◌∷◌, ◌++◌}
use zclaudia_gateway.Prelude.{Bool, true, false, ◌||◌, nat_eq, if◌then◌else◌, ◌≡◌, refl, ap, ◌∙◌}

-- the unit separator is the character 31
abbrev pub is_separator : Char → Bool
is_separator c = nat_eq (code c) 31

unfoldable pub topic_key : (backend_id topic : String) → String
topic_key backend_id topic = backend_id ++ ("\u{1f}" ++ topic)

-- the text before the first separator
unfoldable pub first_part : String → String
first_part [] = []
first_part (c ∷ s) = if is_separator c then [] else c ∷ first_part s

-- the text after the first separator, empty where there is none
unfoldable pub later_parts : String → String
later_parts [] = []
later_parts (c ∷ s) = if is_separator c then s else later_parts s

-- `const [backendId, topic] = key.split('\x1f')`
unfoldable pub split_key : String → String × String
unfolding first_part later_parts
split_key key = (first_part key, first_part (later_parts key))

unfoldable pub has_separator : String → Bool
has_separator [] = false
has_separator (c ∷ s) = is_separator c || has_separator s

or_false : (a b : Bool) → (a || b) ≡ false → (a ≡ false) × (b ≡ false)
or_false false false h = (refl, refl)
or_false false true h = absurd (cc)
or_false true b h = absurd (cc)

first_part-none : (s : String) → has_separator s ≡ false → first_part s ≡ s
unfolding has_separator first_part
first_part-none [] h = refl
first_part-none (c ∷ s) h =
    let (here, later) = or_false (is_separator c) (has_separator s) h in
    rw (here, first_part) (ap (λ t. c ∷ t) (first_part-none s later))

first_part-key : (s t : String) → has_separator s ≡ false → first_part (s ++ ("\u{1f}" ++ t)) ≡ s
unfolding has_separator first_part
first_part-key [] t h =
    ap first_part (append.nil ("\u{1f}" ++ t)) ∙ ap first_part (append.cons _ [] t)
first_part-key (c ∷ s) t h =
    let (here, later) = or_false (is_separator c) (has_separator s) h in
    ap first_part (append.cons c s ("\u{1f}" ++ t))
    ∙ rw (here, first_part) (ap (λ t. c ∷ t) (first_part-key s t later))

later_parts-key : (s t : String) → has_separator s ≡ false → later_parts (s ++ ("\u{1f}" ++ t)) ≡ t
unfolding has_separator later_parts
later_parts-key [] t h =
    ap later_parts (append.nil ("\u{1f}" ++ t)) ∙ ap later_parts (append.cons _ [] t) ∙ append.nil t
later_parts-key (c ∷ s) t h =
    let (here, later) = or_false (is_separator c) (has_separator s) h in
    ap later_parts (append.cons c s ("\u{1f}" ++ t))
    ∙ rw (here, later_parts) (later_parts-key s t later)

-- The key of a topic's handlers is read as the backend and the topic that it was made of, if neither
-- has the separator U+001F in it.
pub split_key-topic_key :
    (backend_id topic : String)
    → has_separator backend_id ≡ false
    → has_separator topic ≡ false
    → split_key (topic_key backend_id topic) ≡ (backend_id, topic)
unfolding split_key topic_key
split_key-topic_key backend_id topic h k =
    ap (λ x. (x, first_part (later_parts (topic_key backend_id topic))))
      (first_part-key backend_id topic h)
    ∙ ap (λ x. (backend_id, first_part x)) (later_parts-key backend_id topic h)
    ∙ ap (λ x. (backend_id, x)) (first_part-none topic k)
