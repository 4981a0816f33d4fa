-- ===== src/Tests/Users.antt =====
-- Users and their map (src/user.rs) on concrete inputs.
use ruci.Prelude.{◌≡◌, refl, none, some, [], ◌∷◌, arith, codes, List}
use mathlib.Core.List.{Memᴰ}
use ruci.Utf8.{Text}
use ruci.User.{UsersMap, add_popped, auth_user_by_authstr}
use ruci.User
use ruci.User.PlainText.{PlainText, plain_text_user, auth_str_injective}
use ruci.User.PlainText
use ruci.User.Auth.{auth-add_popped_sound, auth-add_popped_complete}

abbrev passes : List Text
passes = codes "p1" ∷ codes "p2" ∷ []

abbrev u_with : Text → PlainText
u_with = PlainText.new (codes "u")

abbrev two_users : UsersMap PlainText
two_users = add_popped plain_text_user u_with passes User.new

found : auth_user_by_authstr two_users (codes "plaintext:u\np2") ≡ some (u_with (codes "p2"))
unfolding add_popped auth_user_by_authstr plain_text_user PlainText.new
found = refl

-- The test of src/user.rs.
not_found : auth_user_by_authstr two_users (codes "plaintext:u") ≡ none
unfolding add_popped auth_user_by_authstr plain_text_user PlainText.new
not_found = refl

auth-add_popped_sound_example :
    (x : Text) × Memᴰ x passes
    × (u_with (codes "p2") ≡ u_with x)
    × (plain_text_user.auth_str (u_with (codes "p2")) ≡ codes "plaintext:u\np2")
auth-add_popped_sound_example =
    auth-add_popped_sound plain_text_user u_with passes (codes "plaintext:u\np2")
      (u_with (codes "p2")) found

auth-add_popped_complete_example :
    (u : PlainText) × (auth_user_by_authstr two_users
        (plain_text_user.auth_str (u_with (codes "p1")))
      ≡ some u)
    × (plain_text_user.auth_str u ≡ plain_text_user.auth_str (u_with (codes "p1")))
auth-add_popped_complete_example =
    auth-add_popped_complete plain_text_user u_with passes (codes "p1") (Memᴰ.head refl)

auth_str_injective_example :
    PlainText.new (codes "u") (codes "p") ≡ PlainText.new (codes "u") (codes "p")
auth_str_injective_example =
    auth_str_injective (codes "u") (codes "u") (codes "p") (codes "p") (λ e. omega arith, tt)
      (λ e. omega arith, tt) refl
