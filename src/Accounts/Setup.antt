-- ===== src/Accounts/Setup.antt =====
-- internal/app/identity/service.go: SetupCompleted, CompleteSetup, InviteUser, CreateGroup and
-- ReplaceGroupMembers.
use topbase.Prelude.{
  Bool, true, false, ◌||◌, List, [], ◌∷◌, ◌++◌, none, some, if◌then◌else◌, is_empty, Result, ok,
  err,
}
use topbase.Text.{Text, codes, text_eq, lower, trim_space, lookup, has_prefix}
use topbase.Accounts.{
  Account, Directory, Error, Write, setup_completed_already, names_required, create_user,
  create_group, add_member, set_setting,
}
use topbase.Accounts.Sessions.{Outcome, hash_password}

pub record SetupRequest : Type 0 where
  pub language : Text
  pub admin_name : Text
  pub admin_email : Text
  pub admin_password : Text
  pub site_name : Text

-- Writes one after the other, up to the first that fails; those before it stay.
unfoldable pub write_all : List Write → Directory → Outcome Unit
write_all [] d = (ok tt, d)
write_all (write ∷ writes) d = elim (write d) [
  | ok after ↦ write_all writes after
  | err why ↦ (err why, d)
]

unfoldable pub setup_completed : Directory → Bool
setup_completed d = elim (lookup (codes "setup_completed") d.settings) [
  | none ↦ false
  | some value ↦ text_eq value (codes "true")
]

unfoldable pub locale_or_default : Text → Text
locale_or_default language =
    if has_prefix (codes "en") (lower language) then codes "en" else codes "zh-CN"

-- All that CompleteSetup writes but its last setting.
unfoldable pub enrolment : Account → Text → List Write
enrolment user site =
    create_user user
    ∷ create_group
        (record { id = codes "grp_all_users"; name = codes "所有人"; kind = codes "all_users" })
    ∷ create_group (record { id = codes "grp_admins"; name = codes "管理员"; kind = codes "admins" })
    ∷ add_member (codes "grp_all_users") user.id
    ∷ add_member (codes "grp_admins") user.id
    ∷ set_setting (codes "site_name") (if is_empty site then codes "Topbase" else site)
    ∷ []

unfoldable pub with_user : Account → Outcome Unit → Outcome Account
with_user user (ok done, d) = (ok user, d)
with_user user (err why, d) = (err why, d)

unfoldable pub enrol : Account → Text → Directory → Outcome Account
unfolding with_user
enrol user site d =
    with_user user (
      write_all (enrolment user site ++ set_setting (codes "setup_completed") (codes "true") ∷ [])
        d)

-- The account of an administrator or of a member, once the password is hashed.
unfoldable pub enrol_hashed :
    (Text → Account) → Text → Directory → Result Error Text → Outcome Account
enrol_hashed account site d (err why) = (err why, d)
enrol_hashed account site d (ok hash) = enrol (account hash) site d

unfoldable pub complete_setup : (Text → Text) → Text → SetupRequest → Directory → Outcome Account
complete_setup digest id input d =
    let email = lower (trim_space input.admin_email) in
    let name = trim_space input.admin_name in
    if setup_completed d
    then (err setup_completed_already, d)
    else if is_empty email || is_empty name
    then (err names_required, d)
    else enrol_hashed
        (λ hash. record {
          id = id;
          email = email;
          name = name;
          locale = locale_or_default input.language;
          theme = codes "dark";
          is_active = true;
          password_hash = hash;
        })
        (trim_space input.site_name) d (hash_password digest input.admin_password)

-- `_ = s.Groups.AddMember(...)`.
join_all : Account → Result Error Directory → Directory → Outcome Account
join_all user (err why) d = (err why, d)
join_all user (ok after) d = elim (add_member (codes "grp_all_users") user.id after) [
  | ok joined ↦ (ok user, joined)
  | err why ↦ (ok user, after)
]

invite_hashed : Text → Text → Text → Directory → Result Error Text → Outcome Account
unfolding join_all
invite_hashed id email name d (err why) = (err why, d)
invite_hashed id email name d (ok hash) =
    let user : Account = record {
      id = id;
      email = email;
      name = name;
      locale = codes "zh-CN";
      theme = codes "dark";
      is_active = true;
      password_hash = hash;
    } in
    join_all user (create_user user d) d

-- `secret` is the password that NewID("tmp") makes up where none is given.
unfoldable pub invite_user :
    (Text → Text) → Text → Text → Text → Text → Text → Directory → Outcome Account
unfolding invite_hashed
invite_user digest id secret name email password d =
    if is_empty (lower (trim_space email)) || is_empty (trim_space name)
    then (err names_required, d)
    else invite_hashed id (lower (trim_space email)) (trim_space name) d
        (hash_password digest (if is_empty password then secret ++ codes "A1" else password))
