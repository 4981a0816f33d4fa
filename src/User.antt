-- ===== src/User.antt =====
-- src/user.rs: users, and the map that authenticates them by name or by secret. Hash maps are
-- association lists: no result depends on their order.
pub mod PlainText
pub mod Auth
use ruci.Prelude.{ℕ, Bool, Option, none, some, List, [], ◌∷◌, if◌then◌else◌, length, eq_bytes}
use ruci.Utf8.{Text}

-- What the map asks of a user.
pub record UserTrait (T : Type 0) : Type 0 where
  pub identity_str : T → Text
  pub auth_str : T → Text

module _ {V : Type 0} where
  -- `HashMap::get` and `HashMap::insert`.
  unfoldable pub get : Text → List (Text × V) → Option V
  unfolding eq_bytes
  get k [] = none
  get k ((j, v) ∷ m) = if eq_bytes j k then some v else get k m

  unfoldable pub insert : Text → V → List (Text × V) → List (Text × V)
  unfolding eq_bytes
  insert k v [] = (k, v) ∷ []
  insert k v ((j, w) ∷ m) = if eq_bytes j k then (k, v) ∷ m else (j, w) ∷ insert k v m

pub record UsersMap (T : Type 0) : Type 0 where
  pub id_map : List (Text × T)
  pub a_map : List (Text × T)

module _ {T : Type 0} where
  abbrev pub new : UsersMap T
  new = record { id_map = []; a_map = [] }

  unfoldable pub len : UsersMap T → ℕ
  len m = length m.id_map

  unfoldable pub is_empty : UsersMap T → Bool
  is_empty m = elim m.id_map [ [] ↦ Bool.true | _ ∷ _ ↦ Bool.false ]

  unfoldable pub auth_user_by_authstr : UsersMap T → Text → Option T
  unfolding get
  auth_user_by_authstr m s = get s m.a_map

module _ {T : Type 0} (t : UserTrait T) where
  unfoldable pub add_user : UsersMap T → T → UsersMap T
  unfolding insert
  add_user m u = record {
    id_map = insert (t.identity_str u) u m.id_map;
    a_map = insert (t.auth_str u) u m.a_map;
  }

  -- `while let Some(u) = a.pop()`: the last entry first, each made into a user by `make`.
  unfoldable pub add_popped : {S : Type 0} → (S → T) → List S → UsersMap T → UsersMap T
  unfolding add_user
  add_popped make [] m = m
  add_popped make (s ∷ ss) m = add_user (add_popped make ss m) (make s)
