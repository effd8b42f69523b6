-- ===== src/Map.antt =====
-- `Map<string, V>` as an association list in order of insertion: writing a key that is there
-- replaces its value in place, a new key goes to the end. `Distinct` says that no key comes twice.
pub mod Laws
use zclaudia_gateway.Prelude.{
  ℕ, String, Bool, ◌==◌, if◌then◌else◌, is_some, Option, none, some, List, [], ◌∷◌, ◌≡◌, length,
}

abbrev pub Map {ℓ} : Type ℓ → Type ℓ
Map V = List (String × V)

module _ {ℓ} {V : Type ℓ} where
  unfoldable pub get : String → Map V → Option V
  get k [] = none
  get k ((j, v) ∷ m) = if j == k then some v else get k m

  unfoldable pub set : String → V → Map V → Map V
  set k v [] = (k, v) ∷ []
  set k v ((j, w) ∷ m) = if j == k then (k, v) ∷ m else (j, w) ∷ set k v m

  unfoldable pub delete : String → Map V → Map V
  delete k [] = []
  delete k ((j, w) ∷ m) = if j == k then delete k m else (j, w) ∷ delete k m

  -- the entries whose key and value pass the test
  unfoldable pub keep : (String → V → Bool) → Map V → Map V
  keep p [] = []
  keep p ((j, w) ∷ m) = if p j w then (j, w) ∷ keep p m else keep p m

  abbrev pub has : String → Map V → Bool
  has k m = is_some (get k m)

  abbrev pub size : Map V → ℕ
  size m = length m

  abbrev pub values : Map V → List V
  values [] = []
  values ((j, v) ∷ m) = v ∷ values m

  abbrev pub keys : Map V → List String
  keys [] = []
  keys ((j, v) ∷ m) = j ∷ keys m

  abbrev pub Distinct : Map V → Type ℓ
  Distinct [] = Unit
  Distinct ((j, v) ∷ m) = (get j m ≡ none) × Distinct m

-- every entry's value replaced, the keys kept: `for (const [k, v] of m) mutate(v)`
unfoldable pub map_entries {ℓ κ} : {V : Type ℓ} {W : Type κ} → (String → V → W) → Map V → Map W
map_entries f [] = []
map_entries f ((j, v) ∷ m) = (j, f j v) ∷ map_entries f m

-- the object under a key mutated, where there is one
abbrev pub update {ℓ} : {V : Type ℓ} → String → (V → V) → Map V → Map V
update k f = map_entries (λ j v. if j == k then f v else v)
