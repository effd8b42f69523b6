-- ===== src/Storage/Identities.antt =====
-- src/storage.ts: backend identities.
use zclaudia_gateway.Prelude.{
  ℕ, String, Bool, true, false, ◌==◌, ◌<>◌, ◌&&◌, not, is_empty, get_or, if◌then◌else◌, Option,
  none, some, List, [], ◌∷◌, find,
}
use zclaudia_gateway.Map.{Map, get, set, delete, map_entries, values}
use zclaudia_gateway.Storage.{Storage, BackendIdentity, newest_first}

-- the unit separator `\x1f`
abbrev pub separator : String
separator = "\u{1f}"

-- `backendIdentityKey` with the tenant that every caller leaves out, `''`
unfoldable pub backend_identity_key : String → String → String → String
backend_identity_key namespace instance_id environment =
    "" <> separator <> namespace <> separator <> instance_id <> separator <> environment

unfoldable pub bound_identity_key : String → String
bound_identity_key backend_id = "bound:" <> backend_id

abbrev pub new_identity :
    (backend_id namespace instance_id environment name : String) (now : ℕ) → BackendIdentity
new_identity backend_id namespace instance_id environment name now = record {
  backend_id = backend_id;
  tenant = "";
  namespace = namespace;
  instance_id = instance_id;
  environment = environment;
  name = name;
  created_at = now;
  updated_at = now;
  last_credential_id = none;
  last_seen_at = none;
}

-- `input.name && input.name !== existing.name`
abbrev pub renames : Option String → String → Bool
renames none old = false
renames (some name) old = not (is_empty name) && not (name == old)

abbrev pub renamed : Option String → ℕ → BackendIdentity → BackendIdentity
renamed name now i =
    if renames name i.name then record i { name = get_or "" name; updated_at = now } else i

-- `uuid` is the random id that a new identity gets.
unfoldable pub get_or_create_backend_id :
    (namespace instance_id environment : String) (name : Option String) (uuid : String) (now : ℕ)
    → Storage
    → Storage × String
unfolding backend_identity_key
get_or_create_backend_id namespace instance_id environment name uuid now s =
    let key = backend_identity_key namespace instance_id environment in
    elim (get key s.backend_identities) [
      | some existing ↦ (
        record s { backend_identities = set key (renamed name now existing) s.backend_identities },
        existing.backend_id,
      )
      | none ↦ (
        record s {
          backend_identities =
              set key (new_identity uuid namespace instance_id environment (get_or "" name) now)
                s.backend_identities;
        },
        uuid,
      )
    ]

unfoldable pub create_bound_backend_identity :
    (namespace name uuid : String) (now : ℕ) → Storage → Storage
unfolding bound_identity_key
create_bound_backend_identity namespace name uuid now s = record s {
  backend_identities =
      set (bound_identity_key uuid) (new_identity uuid namespace "" "" name now)
        s.backend_identities;
}

unfoldable pub list_backend_identities : Storage → List BackendIdentity
unfolding newest_first
list_backend_identities s = newest_first (λ i. i.created_at) (values s.backend_identities)

unfoldable pub get_backend_identity : String → Storage → Option BackendIdentity
unfolding list_backend_identities
get_backend_identity backend_id s =
    find (λ i. i.backend_id == backend_id) (list_backend_identities s)

-- the key of the first identity with this backend id
unfoldable pub identity_key_of : String → Map BackendIdentity → Option String
identity_key_of backend_id [] = none
identity_key_of backend_id ((key, i) ∷ m) =
    if i.backend_id == backend_id then some key else identity_key_of backend_id m

unfoldable pub delete_backend_identity : String → Storage → Storage × Bool
unfolding identity_key_of
delete_backend_identity backend_id s = elim (identity_key_of backend_id s.backend_identities) [
  | none ↦ (s, false)
  | some key ↦ (record s { backend_identities = delete key s.backend_identities }, true)
]

-- a text that is given and not empty, else the old one
abbrev pub name_or : String → Option String → String
name_or old none = old
name_or old (some name) = if is_empty name then old else name

abbrev pub credential_or : Option String → Option String → Option String
credential_or old none = old
credential_or old (some id) = if is_empty id then old else some id

abbrev pub touched : ℕ → Option String → Option String → BackendIdentity → BackendIdentity
touched now credential_id name i = record i {
  last_seen_at = some now;
  last_credential_id = credential_or i.last_credential_id credential_id;
  name = name_or i.name name;
}

unfoldable pub touch_backend_identity :
    (backend_id : String) (root_credential_id name : Option String) (now : ℕ) → Storage → Storage
touch_backend_identity backend_id credential_id name now s = record s {
  backend_identities =
      map_entries
        (λ _ i. if i.backend_id == backend_id then touched now credential_id name i else i)
        s.backend_identities;
}
