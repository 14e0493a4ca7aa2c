-- ===== src/Accounts/Tests.antt =====
-- internal/app/identity/service.go at concrete tables: Ann is bound to a provider's account a1.
use topbase.Prelude.{◌≡◌, refl, true, false, [], ◌∷◌, none, some, ok, err, any, if◌then◌else◌}
use topbase.Text.{Text, codes, text_eq}
use topbase.Accounts.{
  Account, Session, ExternalIdentityLink, Directory, Error, setup_completed_already, not_linked,
  user_by_id, session_by_id, set_active,
}
use topbase.Accounts.Sessions.{
  SignIn, Outcome, login, login_external_identity, user_for_session, active_session, new_session,
  hash_password,
}
use topbase.Accounts.Setup.{SetupRequest, complete_setup}
use topbase.Accounts.Links.{
  bind_external_identity, unbind_external_identity, links_member, links_for_user, trimmed,
}
use topbase.Accounts.Once.{complete_setup_once}
use topbase.Accounts.Persistence.{IsSession, login_external_identity-IsSession}
use topbase.Accounts.Deactivation.{set_active-user_for_session}
use topbase.Accounts.Binding.{
  AreUnique, bind_external_identity-login, bind_external_identity-AreUnique,
  unbind_external_identity-links_for_user,
}

abbrev ann : Account
ann = record {
  id = codes "ann";
  email = codes "ann@example.com";
  name = codes "Ann";
  locale = codes "en";
  theme = codes "dark";
  is_active = true;
  password_hash = codes "hunter2!";
}

abbrev link : ExternalIdentityLink
link = record { provider_id = codes "oidc"; subject = codes "a1"; user_id = codes "ann" }

abbrev unbound : Directory
unbound = record {
  users = ann ∷ [];
  groups = [];
  members = [];
  sessions = [];
  links = [];
  settings = [];
  auth_settings = none;
}

abbrev bound : Directory
bound = record unbound { links = link ∷ [] }

abbrev session : Session
session = record { id = codes "s1"; user_id = codes "ann"; expires_at = 2592100 }

abbrev signed_in : Directory
signed_in = record bound { sessions = session ∷ [] }

signs_in :
    login_external_identity 100 (codes "s1") (codes "oidc") (codes "a1") [] bound
    ≡ (ok (session, ann), signed_in)
unfolding login_external_identity topbase.Accounts.Sessions.link_of text_eq active_session
    user_by_id topbase.Accounts.Sessions.open_session topbase.Accounts.create_session
signs_in = refl

login_external_identity-IsSession_example :
    IsSession 100 2592100000000001 session ann bound signed_in
login_external_identity-IsSession_example =
    login_external_identity-IsSession 100 2592100000000001 (codes "s1") (codes "oidc") (codes "a1")
      [] bound signed_in session ann signs_in

logs_in :
    login text_eq 100 (codes "s1") (codes " Ann@example.com") (codes "hunter2!") bound
    ≡ (ok (session, ann), signed_in)
unfolding login topbase.Accounts.Sessions.password_login_enabled topbase.Accounts.user_by_email
    text_eq topbase.Text.lower topbase.Text.trim_space topbase.Accounts.Sessions.open_session
    topbase.Accounts.create_session
logs_in = refl

abbrev deactivated : Directory
deactivated = record signed_in { users = record ann { is_active = false } ∷ [] }

deactivates : set_active (codes "ann") false signed_in ≡ ok deactivated
unfolding set_active topbase.Accounts.update_user text_eq
deactivates = refl

finds_session : session_by_id (codes "s1") signed_in ≡ some session
unfolding session_by_id text_eq
finds_session = refl

finds_ann : user_by_id (codes "ann") signed_in ≡ some ann
unfolding user_by_id text_eq
finds_ann = refl

set_active-user_for_session_example :
    user_for_session 200000000000 (codes "s1") deactivated
    ≡ (ok (record ann { is_active = false }), deactivated)
set_active-user_for_session_example =
    set_active-user_for_session 200000000000 (codes "s1") session ann signed_in deactivated
      finds_session refl finds_ann deactivates

binds : bind_external_identity link unbound ≡ ok bound
unfolding bind_external_identity topbase.Accounts.Links.bind_trimmed trimmed topbase.Text.trim_space
    topbase.Accounts.Links.bind_member user_by_id text_eq topbase.Accounts.Links.bind_beside
    topbase.Accounts.Sessions.link_of
binds = refl

bind_external_identity-login_example :
    (user : Account) × (user_by_id (trimmed link).user_id bound ≡ some user)
    × (login_external_identity 100
          (codes "s1")
          (trimmed link).provider_id
          (trimmed link).subject
          []
          bound
        ≡ (if user.is_active
            then (
              ok (record { id = codes "s1"; user_id = user.id; expires_at = 2592100 }, user),
              record bound {
                sessions = record { id = codes "s1"; user_id = user.id; expires_at = 2592100 } ∷ [];
              },
            )
            else (err not_linked, bound)))
bind_external_identity-login_example =
    bind_external_identity-login link unbound bound 100 (codes "s1") [] binds refl

bind_external_identity-AreUnique_example : AreUnique (link ∷ [])
bind_external_identity-AreUnique_example =
    bind_external_identity-AreUnique link unbound bound tt binds

unbinds : unbind_external_identity (codes "ann") (codes "oidc") bound ≡ ok unbound
unfolding unbind_external_identity links_member text_eq
unbinds = refl

unbind_external_identity-links_for_user_example :
    (any (links_member (codes "ann") (codes "oidc")) [] ≡ false)
    × (links_for_user (codes "bob") unbound ≡ links_for_user (codes "bob") bound)
unfolding text_eq
unbind_external_identity-links_for_user_example =
    unbind_external_identity-links_for_user (codes "ann") (codes "oidc") (codes "bob") bound unbound
      refl unbinds

abbrev empty : Directory
empty = record unbound { users = [] }

abbrev first : SetupRequest
first = record {
  language = codes "en-US";
  admin_name = codes "Ann";
  admin_email = codes "Ann@example.com";
  admin_password = codes "hunter2!";
  site_name = [];
}

abbrev ready : Directory
ready = record empty {
  users = ann ∷ [];
  groups =
      record { id = codes "grp_all_users"; name = codes "所有人"; kind = codes "all_users" }
      ∷ record { id = codes "grp_admins"; name = codes "管理员"; kind = codes "admins" }
      ∷ [];
  members = (codes "grp_all_users", codes "ann") ∷ (codes "grp_admins", codes "ann") ∷ [];
  settings = (codes "site_name", codes "Topbase") ∷ (codes "setup_completed", codes "true") ∷ [];
}

sets_up : complete_setup (λ p. p) (codes "ann") first empty ≡ (ok ann, ready)
unfolding complete_setup topbase.Accounts.Setup.setup_completed topbase.Text.lookup
    topbase.Text.lower topbase.Text.trim_space topbase.Accounts.Setup.enrol_hashed hash_password
    topbase.Text.is_blank topbase.Accounts.Sessions.byte_length topbase.Accounts.Setup.enrol
    topbase.Accounts.Setup.write_all topbase.Accounts.Setup.enrolment topbase.Accounts.create_user
    topbase.Accounts.create_group text_eq topbase.Accounts.add_member topbase.Accounts.has_member
    topbase.Accounts.set_setting topbase.Accounts.Setup.locale_or_default
    topbase.Accounts.Setup.with_user topbase.Accounts.put topbase.Text.has_prefix
    topbase.Text.is_space topbase.Text.lower_rune topbase.Text.trim_left
sets_up = refl

complete_setup_once_example :
    complete_setup (λ p. p) (codes "eve") first ready ≡ (err setup_completed_already, ready)
complete_setup_once_example =
    complete_setup_once (λ p. p) (λ p. p) (codes "ann") (codes "eve") first first empty ann ready
      sets_up
