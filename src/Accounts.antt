-- ===== src/Accounts.antt =====
-- internal/app/identity/service.go: accounts, sessions and linked identities, over the tables of
-- internal/adapters/appdb/store.go.
--
-- The state is the tables. Of what the database may refuse, the model has the keys that schema.sql
-- makes unique. Settings that hold JSON are kept decoded. A moment is a number of seconds, as the
-- tables keep it, and of nanoseconds where UserForSession compares with it; new identifiers and the
-- moment are arguments.
pub mod Sessions
pub mod Setup
pub mod Links
pub mod Providers
pub mod Persistence
pub mod Deactivation
pub mod Binding
pub mod Once
pub mod Groups
pub mod Keys
mod Tests
mod ProviderTests
use topbase.Prelude.{
  ℕ, ◌+◌, Bool, true, false, not, ◌&&◌, ◌||◌, List, [], ◌∷◌, ◌++◌, map, Option, none, some, ltb,
  if◌then◌else◌, any, keep, find, is_empty, Result, ok, err,
}
use topbase.Text.{Text, codes, text_eq, lookup, is_blank}

-- core.User, less the fields that are only shown.
pub record Account : Type 0 where
  pub id : Text
  pub email : Text
  pub name : Text
  pub locale : Text
  pub theme : Text
  pub is_active : Bool
  pub password_hash : Text

pub record Group : Type 0 where
  pub id : Text
  pub name : Text
  pub kind : Text

pub record Session : Type 0 where
  pub id : Text
  pub user_id : Text
  pub expires_at : ℕ

pub record ExternalIdentityLink : Type 0 where
  pub provider_id : Text
  pub subject : Text
  pub user_id : Text

-- The tables; `auth_settings` is PasswordLoginEnabled of that setting, where it is set.
pub record Directory : Type 0 where
  pub users : List Account
  pub groups : List Group
  pub members : List (Text × Text)
  pub sessions : List Session
  pub links : List ExternalIdentityLink
  pub settings : List (Text × Text)
  pub auth_settings : Option Bool

pub data Error : Type 0 where
  not_found refused setup_completed_already names_required password_required password_short : Error
  password_login_disabled invalid_credentials not_linked not_bound session_expired : Error
  link_incomplete linked_to_another current_password_wrong password_unchanged : Error

abbrev pub Write : Type 0
Write = Directory → Result Error Directory

-- Tables of users.
unfoldable pub user_by_id : Text → Directory → Option Account
user_by_id id d = find (λ u. text_eq u.id id) d.users

unfoldable pub user_by_email : Text → Directory → Option Account
user_by_email email d = find (λ u. text_eq u.email email) d.users

unfoldable pub create_user : Account → Write
create_user user d =
    if any (λ u. text_eq u.id user.id || text_eq u.email user.email) d.users
    then err refused
    else ok (record d { users = d.users ++ user ∷ [] })

-- UPDATE users SET ... WHERE id = ?, which is ErrNotFound where it changes no row.
unfoldable pub update_user : Text → (Account → Account) → Write
update_user id change d =
    if any (λ u. text_eq u.id id) d.users
    then ok (record d { users = map (λ u. if text_eq u.id id then change u else u) d.users })
    else err not_found

unfoldable pub set_active : Text → Bool → Write
set_active id active = update_user id (λ u. record u { is_active = active })

unfoldable pub set_password : Text → Text → Write
set_password id hash = update_user id (λ u. record u { password_hash = hash })

-- Tables of groups and of settings.
unfoldable pub create_group : Group → Write
create_group group d =
    if any (λ g. text_eq g.id group.id) d.groups
    then err refused
    else ok (record d { groups = d.groups ++ group ∷ [] })

pub same_pair : Text → Text → Text × Text → Bool
same_pair a b (x, y) = text_eq x a && text_eq y b

unfoldable pub has_member : Text → Text → Directory → Bool
unfolding same_pair
has_member group user d = any (same_pair group user) d.members

-- INSERT OR IGNORE.
unfoldable pub add_member : Text → Text → Write
add_member group user d =
    if has_member group user d
    then ok d
    else ok (record d { members = d.members ++ (group, user) ∷ [] })

unfoldable pub put : Text → Text → List (Text × Text) → List (Text × Text)
put key value [] = (key, value) ∷ []
put key value ((k, v) ∷ rest) =
    let behind = put key value rest in
    if text_eq key k then (key, value) ∷ rest else (k, v) ∷ behind

unfoldable pub set_setting : Text → Text → Write
set_setting key value d = ok (record d { settings = put key value d.settings })

-- Table of sessions.
unfoldable pub create_session : Session → Write
create_session session d =
    if any (λ s. text_eq s.id session.id) d.sessions
    then err refused
    else ok (record d { sessions = d.sessions ++ session ∷ [] })

unfoldable pub session_by_id : Text → Directory → Option Session
session_by_id id d = find (λ s. text_eq s.id id) d.sessions

unfoldable pub delete_session : Text → Directory → Directory
delete_session id d = record d { sessions = keep (λ s. not (text_eq s.id id)) d.sessions }
