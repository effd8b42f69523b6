-- ===== src/Map/Laws.antt =====
-- What a lookup sees after a write or a deletion, and predicates on all entries.
use mathlib.Core.Option
use text.Mathlib.TextEquality.{eq_iff}
use zclaudia_gateway.Prelude.{
  String, ◌==◌, if◌then◌else◌, Bool, true, false, Bool-cases, text-cases, Option, none, some, [],
  ◌∷◌, ◌≡◌, ◌≢◌, ◌⊎◌, refl, sym, inl, inr, ◌∙◌, ap, arith, subst₂, some-injective, All, test_refl,
  test-ne,
}
use zclaudia_gateway.Map.{Map, get, set, delete, keep, Distinct, map_entries, update}

module _ {ℓ} {V : Type ℓ} where
  pub get-set :
      (k j : String) (v : V) (m : Map V) → get j (set k v m) ≡ (if k == j then some v else get j m)
  unfolding get set
  get-set k j v [] = refl
  get-set k j v ((i, w) ∷ m) = ground (arith, eq_iff k j, eq_iff i k, eq_iff i j, get-set k j v m)

  pub get-delete :
      (k j : String) (m : Map V) → get j (delete k m) ≡ (if k == j then none else get j m)
  unfolding get delete
  get-delete k j [] = ground arith
  get-delete k j ((i, w) ∷ m) = ground (arith, eq_iff k j, eq_iff i k, eq_iff i j, get-delete k j m)

  pub get-set_self : (k : String) (v : V) (m : Map V) → get k (set k v m) ≡ some v
  get-set_self k v m = get-set k k v m ∙ ground (arith, test_refl k)

  pub get-delete_self : (k : String) (m : Map V) → get k (delete k m) ≡ none
  get-delete_self k m = get-delete k k m ∙ ground (arith, test_refl k)

  pub get-set_ne : (k j : String) (v : V) (m : Map V) → k ≢ j → get j (set k v m) ≡ get j m
  get-set_ne k j v m h = get-set k j v m ∙ ground (arith, test-ne k j h)

  pub get-delete_ne : (k j : String) (m : Map V) → k ≢ j → get j (delete k m) ≡ get j m
  get-delete_ne k j m h = get-delete k j m ∙ ground (arith, test-ne k j h)

  -- What holds of every entry that a lookup finds.
  abbrev pub Every {κ} : (String → V → Type κ) → Map V → Type (ℓ ⊔ κ)
  Every P m = (k : String) (v : V) → get k m ≡ some v → P k v

  pub Every-set {κ} :
      (P : String → V → Type κ) (k : String) (v : V) (m : Map V)
      → P k v
      → ((j : String) (w : V) → k ≢ j → get j m ≡ some w → P j w)
      → Every P (set k v m)
  Every-set P k v m h rest j w e = elim (text-cases k j) [
    | inl (p, _) ↦
        let q : some v ≡ some w = sym (get-set_self k v m) ∙ (ap (λ x. get x (set k v m)) p ∙ e) in
        subst₂ P p (some-injective v w q) h
    | inr (n, _) ↦ rest j w n (sym (get-set_ne k j v m n) ∙ e)
  ]

  pub Every-delete {κ} :
      (P : String → V → Type κ) (k : String) (m : Map V)
      → ((j : String) (w : V) → k ≢ j → get j m ≡ some w → P j w)
      → Every P (delete k m)
  Every-delete P k m rest j w e = elim (text-cases k j) [
    | inl (p, _) ↦
        let q : none ≡ some w = sym (get-delete_self k m) ∙ (ap (λ x. get x (delete k m)) p ∙ e) in
        absurd (none-ne-some q)
    | inr (n, _) ↦ rest j w n (sym (get-delete_ne k j m n) ∙ e)
  ]
    where
      none-ne-some : {w : V} → ◌≡◌ {A = Option V} none (some w) → ⊥
      none-ne-some q = cc

  pub Every-mono {κ μ} :
      (P : String → V → Type κ) (Q : String → V → Type μ) (m : Map V)
      → ((k : String) (v : V) → P k v → Q k v)
      → Every P m
      → Every Q m
  Every-mono P Q m f h k v e = f k v (h k v e)

  -- an entry that `set` replaces or adds, and those of other keys, are all that it leaves
  pub set-Distinct : (k : String) (v : V) (m : Map V) → Distinct m → Distinct (set k v m)
  unfolding get set
  set-Distinct k v [] d = (refl, tt)
  set-Distinct k v ((j, w) ∷ m) (n, d) = elim (text-cases j k) [
    | inl (p, e) ↦ rw e (rw (← p) n, d)
    | inr (p, e) ↦ rw e (get-set_ne k j v m (λ q. p (sym q)) ∙ n, set-Distinct k v m d)
  ]

  get-delete-none : (k j : String) (m : Map V) → get j m ≡ none → get j (delete k m) ≡ none
  get-delete-none k j m h = get-delete k j m ∙ ground arith

  pub delete-Distinct : (k : String) (m : Map V) → Distinct m → Distinct (delete k m)
  unfolding delete
  delete-Distinct k [] d = tt
  delete-Distinct k ((j, w) ∷ m) (n, d) = elim (Bool-cases (j == k)) [
    | inl e ↦ rw e (delete-Distinct k m d)
    | inr e ↦ rw e (get-delete-none k j m n, delete-Distinct k m d)
  ]

  get-keep-none :
      (p : String → V → Bool) (j : String) (m : Map V) → get j m ≡ none → get j (keep p m) ≡ none
  unfolding get keep
  get-keep-none p j [] h = refl
  get-keep-none p j ((i, w) ∷ m) h = ground (arith, get-keep-none p j m)

  pub keep-Distinct : (p : String → V → Bool) (m : Map V) → Distinct m → Distinct (keep p m)
  unfolding keep
  keep-Distinct p [] d = tt
  keep-Distinct p ((j, w) ∷ m) (n, d) = elim (Bool-cases (p j w)) [
    | inl e ↦ rw e (get-keep-none p j m n, keep-Distinct p m d)
    | inr e ↦ rw e (keep-Distinct p m d)
  ]

  -- `o` where its value passes the test
  abbrev pub passing : (V → Bool) → Option V → Option V
  passing p none = none
  passing p (some v) = if p v then some v else none

  -- In a map with distinct keys a kept entry is an entry that passes the test.
  pub get-keep :
      (p : String → V → Bool) (j : String) (m : Map V)
      → Distinct m
      → get j (keep p m) ≡ passing (p j) (get j m)
  unfolding get keep
  get-keep p j [] d = refl
  get-keep p j ((i, w) ∷ m) (n, d) = elim (text-cases i j) [
    | inl (q, e) ↦
        let gone : get j (keep p m) ≡ none = get-keep-none p j m (rw (← q) n) in
        let same : p i w ≡ p j w = rw q in ground (arith, gone, same)
    | inr (q, e) ↦ ground (arith, get-keep p j m d)
  ]

  -- A predicate on the entries found is one on the entries listed.
  pub All-values {κ} :
      (P : String → V → Type κ) (m : Map V) → Distinct m → Every P m → All (λ e. P e.0 e.1) m
  unfolding get
  All-values P [] d h = tt
  All-values P ((j, w) ∷ m) (n, d) h =
      (h j w (ground (arith, test_refl j)), All-values P m d (later P j w m n h))
    where
      later :
          (P : String → V → Type κ) (j : String) (w : V) (m : Map V)
          → get j m ≡ none
          → Every P ((j, w) ∷ m)
          → Every P m
      later P j w m n h k v e = elim (text-cases j k) [
        | inl (p, _) ↦ let q : none ≡ some v = sym n ∙ (ap (λ x. get x m) p ∙ e) in absurd (cc)
        | inr (_, f) ↦ h k v (ground arith)
      ]

-- what a lookup sees after the values were mapped
pub get-map_entries {ℓ κ} :
    {V : Type ℓ} {W : Type κ} (f : String → V → W) (k : String) (m : Map V)
    → get k (map_entries f m) ≡ Option.map (f k) (get k m)
unfolding get map_entries
get-map_entries f k [] = refl
get-map_entries f k ((j, v) ∷ m) = elim (text-cases j k) [
  | inl (p, e) ↦ rw (e, p) refl
  | inr (p, e) ↦ rw e (get-map_entries f k m)
]

pub map_entries-Distinct {ℓ κ} :
    {V : Type ℓ} {W : Type κ} (f : String → V → W) (m : Map V)
    → Distinct m
    → Distinct (map_entries f m)
unfolding map_entries
map_entries-Distinct f [] d = tt
map_entries-Distinct f ((j, v) ∷ m) (n, d) =
    (get-map_entries f j m ∙ ap (Option.map (f j)) n, map_entries-Distinct f m d)

map-if {ℓ} :
    {A : Type ℓ} (b : Bool) (f : A → A) (o : Option A)
    → Option.map (λ v. if b then f v else v) o ≡ (if b then Option.map f o else o)
map-if true f o = refl
map-if false f none = refl
map-if false f (some v) = refl

-- what a lookup sees after one object was mutated
pub get-update {ℓ} :
    {A : Type ℓ} (k j : String) (f : A → A) (m : Map A)
    → get j (update k f m) ≡ (if j == k then Option.map f (get j m) else get j m)
get-update k j f m =
    get-map_entries (λ i v. if i == k then f v else v) j m ∙ map-if (j == k) f (get j m)

-- What a successful lookup says after a deletion, a write or a mutation.
module _ {ℓ} {A : Type ℓ} where
  pub delete_found :
      (k j : String) (m : Map A) (v : A)
      → get j (delete k m) ≡ some v
      → (k ≢ j) × (get j m ≡ some v)
  delete_found k j m v h = elim (text-cases k j) [
    | inl (p, e) ↦ absurd (ground (arith, get-delete k j m))
    | inr (n, e) ↦ (n, sym (get-delete_ne k j m n) ∙ h)
  ]

  pub set_found :
      (k j : String) (w : A) (m : Map A) (v : A)
      → get j (set k w m) ≡ some v
      → ((k ≡ j) × (w ≡ v)) ⊎ ((k ≢ j) × (get j m ≡ some v))
  set_found k j w m v h = elim (text-cases k j) [
    | inl (p, e) ↦ inl (p, some-injective w v (ground (arith, get-set k j w m)))
    | inr (n, e) ↦ inr (n, sym (get-set_ne k j w m n) ∙ h)
  ]

  pub update_found :
      (k j : String) (f : A → A) (m : Map A) (v : A)
      → get j (update k f m) ≡ some v
      → ((j ≡ k) × ((w : A) × (get j m ≡ some w) × (f w ≡ v))) ⊎ ((j ≢ k) × (get j m ≡ some v))
  update_found k j f m v h = elim (text-cases j k) [
    | inl (p, e) ↦ inl (p, mapped (get j m) (sym (get-update k j f m ∙ ground arith) ∙ h))
    | inr (n, e) ↦ inr (n, sym (get-update k j f m ∙ ground arith) ∙ h)
  ]
    where
      mapped : (o : Option A) → Option.map f o ≡ some v → (w : A) × (o ≡ some w) × (f w ≡ v)
      mapped none q = absurd (cc)
      mapped (some w) q = (w, refl, some-injective (f w) v q)

  pub get-update_ne :
      (k j : String) (f : A → A) (m : Map A) → j ≢ k → get j (update k f m) ≡ get j m
  get-update_ne k j f m n = get-update k j f m ∙ ground (arith, test-ne j k n)

  pub get-update_self :
      (k : String) (f : A → A) (m : Map A) → get k (update k f m) ≡ Option.map f (get k m)
  get-update_self k f m = get-update k k f m ∙ ground (arith, test_refl k)
