-- ===== src/User/Auth.antt =====
-- Whom `UsersMap` authenticates (src/user.rs).
use ruci.Prelude.{
  ◌≡◌, inl, inr, refl, some, List, [], ◌∷◌, if◌then◌else◌, arith, Bool-cases, eq_bytes,
  eq_bytes_iff, eq_bytes_refl, ap, sym,
}
use mathlib.Core.List.{Memᴰ}
use ruci.Utf8.{Text}
use ruci.User.{UserTrait, UsersMap, get, insert, add_user, add_popped, auth_user_by_authstr, new}

get-insert :
    {V : Type 0} (k j : Text) (v : V) (m : List (Text × V))
    → get j (insert k v m) ≡ (if eq_bytes k j then some v else get j m)
unfolding get insert
get-insert k j v [] = refl
get-insert k j v ((i, w) ∷ m) =
    ground (arith, eq_bytes_iff i k, eq_bytes_iff i j, eq_bytes_iff k j, get-insert k j v m)

module _ {T : Type 0} (t : UserTrait T) where
  -- After a user was added, that user is authenticated by his text, and every other text as before.
  pub auth-add_user :
      (m : UsersMap T) (u : T) (s : Text)
      → auth_user_by_authstr (add_user t m u) s
        ≡ (if eq_bytes (t.auth_str u) s then some u else auth_user_by_authstr m s)
  unfolding auth_user_by_authstr add_user
  auth-add_user m u s = get-insert (t.auth_str u) s u m.a_map

  module _ {S : Type 0} (make : S → T) where
    -- Whoever is authenticated is one of the users that were added, by his own text.
    pub auth-add_popped_sound :
        (ss : List S) (s : Text) (u : T)
        → auth_user_by_authstr (add_popped t make ss new) s ≡ some u
        → (x : S) × Memᴰ x ss × (u ≡ make x) × (t.auth_str u ≡ s)
    unfolding add_popped
    auth-add_popped_sound [] s u e = unfold auth_user_by_authstr get in cc
    auth-add_popped_sound (x ∷ ss) s u e =
        let added = auth-add_user (add_popped t make ss new) (make x) s in
        elim (Bool-cases (eq_bytes (t.auth_str (make x)) s)) [
          | inl same ↦
              let found : some (make x) ≡ some u = ground (arith, added) in
              (x, Memᴰ.head refl, cc, (eq_bytes_iff _ _).0 (ground arith))
          | inr other ↦
              let (y, m, a, b) = auth-add_popped_sound ss s u (ground (arith, added)) in
              (y, Memᴰ.tail m, a, b)
        ]

    -- Every user that was added is known: his text authenticates somebody with that text.
    pub auth-add_popped_complete :
        (ss : List S) (x : S)
        → Memᴰ x ss
        → (u : T) × (auth_user_by_authstr (add_popped t make ss new) (t.auth_str (make x)) ≡ some u)
          × (t.auth_str u ≡ t.auth_str (make x))
    unfolding add_popped
    auth-add_popped_complete [] x m = elim m [ ]
    auth-add_popped_complete (y ∷ ss) x (Memᴰ.head e) =
        (make y, rw (auth-add_user, e, eq_bytes_refl), ap (λ z. t.auth_str (make z)) (sym e))
    auth-add_popped_complete (y ∷ ss) x (Memᴰ.tail m) =
        let (u, found, same) = auth-add_popped_complete ss x m in
        elim (Bool-cases (eq_bytes (t.auth_str (make y)) (t.auth_str (make x)))) [
          | inl hit ↦ (make y, rw (auth-add_user, hit), (eq_bytes_iff _ _).0 hit)
          | inr miss ↦ (u, rw (auth-add_user, miss) found, same)
        ]
