-- ===== src/Acl.antt =====
-- internal/acl/user.go: the users by name, with their flags.
use simis.Prelude.{
  Assoc, Bool, List, Option, Text, [], bytes, delete, false, insert, lookup, lookup-delete,
  lookup-insert, none, some, text_eq, text_eq_refl, true, ◌||◌, ◌∷◌, ◌≡◌,
}

pub record User : Type 0 where
  pub username : Text
  pub flags : List Text
  pub passwords : List Text
  pub keys : List Text
  pub commands : List Text
  pub channels : List Text

-- `ACLManager`
abbrev pub AclManager : Type 0
AclManager = Assoc User

-- `SetUser`
unfoldable pub set_user : User → AclManager → AclManager
set_user user am = insert user.username user am

-- `GetInstance`: the default user
abbrev pub new_acl_manager : AclManager
new_acl_manager =
    set_user
      (record {
        username = bytes "default";
        flags = bytes "nopass" ∷ [];
        passwords = [];
        keys = [];
        commands = [];
        channels = [];
      })
      []

-- `GetUser`
unfoldable pub get_user : Text → AclManager → Option User
get_user username am = lookup username am

-- `DeleteUser`
unfoldable pub delete_user : Text → AclManager → AclManager
delete_user username am = delete username am

-- `ListUsers`
unfoldable pub list_users : AclManager → List Text
list_users [] = []
list_users ((username, user) ∷ am) = username ∷ list_users am

is_flag : Text → List Text → Bool
is_flag flag [] = false
is_flag flag (f ∷ flags) = text_eq f flag || is_flag flag flags

-- `HasFlag`
unfoldable pub has_flag : Text → User → Bool
unfolding is_flag
has_flag flag user = is_flag flag user.flags

-- `IsEnabled`
unfoldable pub is_enabled : User → Bool
is_enabled user = true

-- A user that was set is found under its name, and one that was deleted is not.
pub get_user-set_user :
    (user : User) (am : AclManager)
    → (get_user user.username (set_user user am) ≡ some user)
      × (get_user user.username (delete_user user.username am) ≡ none)
unfolding get_user set_user delete_user
get_user-set_user user am = (
  rw (lookup-insert user.username user.username, text_eq_refl user.username),
  rw (lookup-delete user.username user.username, text_eq_refl user.username),
)
