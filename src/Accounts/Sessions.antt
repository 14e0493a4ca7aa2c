-- ===== src/Accounts/Sessions.antt =====
-- internal/app/identity/service.go: Login, LoginExternal, LoginExternalIdentity, UserForSession and
-- Logout, with ChangePassword and ResetUserPassword.
use topbase.Prelude.{
  ℕ, ◌+◌, ◌*◌, Bool, true, not, ◌&&◌, ◌||◌, List, [], ◌∷◌, Option, none, some, ltb, if◌then◌else◌,
  find, is_empty, Result, ok, err, ◌>>=◌,
}
use topbase.Text.{Text, text_eq, lower, trim_space, is_blank}
use topbase.Accounts.{
  Account, Session, ExternalIdentityLink, Directory, Error, not_found, password_required,
  password_short, password_login_disabled, invalid_credentials, not_linked, not_bound,
  session_expired, current_password_wrong, password_unchanged, user_by_id, user_by_email,
  create_session, session_by_id, delete_session, set_password,
}

-- What a call that may write returns, with the tables behind it.
abbrev pub Outcome : Type 0 → Type 0
Outcome A = Result Error A × Directory

abbrev pub SignIn : Type 0
SignIn = Outcome (Session × Account)

-- A second, in the nanoseconds of time.Now.
abbrev pub one_second : ℕ
one_second = 1000000000

-- 30 * 24 * time.Hour.
abbrev pub session_seconds : ℕ
session_seconds = 2592000

abbrev pub new_session : ℕ → Text → Account → Session
new_session now id user = record { id = id; user_id = user.id; expires_at = now + session_seconds }

unfoldable pub created : Session → Account → Directory → Result Error Directory → SignIn
created session user d (ok after) = (ok (session, user), after)
created session user d (err why) = (err why, d)

unfoldable pub open_session : ℕ → Text → Account → Directory → SignIn
unfolding created
open_session now id user d =
    created (new_session now id user) user d (create_session (new_session now id user) d)

-- AuthSettings: password login is on unless a setting turns it off.
unfoldable pub password_login_enabled : Option Bool → Bool
password_login_enabled none = true
password_login_enabled (some enabled) = enabled

module _ (verify_password : Text → Text → Bool) where
  unfoldable pub login_user : ℕ → Text → Text → Directory → Option Account → SignIn
  login_user now id password d none = (err invalid_credentials, d)
  login_user now id password d (some user) =
      if not user.is_active || not (verify_password user.password_hash password)
      then (err invalid_credentials, d)
      else open_session now id user d

  unfoldable pub login : ℕ → Text → Text → Text → Directory → SignIn
  unfolding login_user
  login now id email password d =
      if password_login_enabled d.auth_settings
      then login_user now id password d (user_by_email (lower (trim_space email)) d)
      else (err password_login_disabled, d)

unfoldable pub active_session : ℕ → Text → Directory → Option Account → SignIn
active_session now id d none = (err not_linked, d)
active_session now id d (some user) =
    if user.is_active then open_session now id user d else (err not_linked, d)

unfoldable pub login_external : ℕ → Text → Text → Directory → SignIn
login_external now id email d = active_session now id d (user_by_email (lower (trim_space email)) d)

unfoldable pub link_of : Text → Text → List ExternalIdentityLink → Option ExternalIdentityLink
link_of provider subject =
    find (λ link. text_eq link.provider_id provider && text_eq link.subject subject)

unfoldable pub login_external_identity : ℕ → Text → Text → Text → Text → Directory → SignIn
login_external_identity now id provider subject email d = elim (link_of provider subject d.links) [
  | some link ↦ active_session now id d (user_by_id link.user_id d)
  | none ↦ if is_empty email then (err not_bound, d) else login_external now id email d
]

unfoldable pub found : Option Account → Result Error Account
found none = err not_found
found (some user) = ok user

-- The moment is in nanoseconds, what the table keeps of a session's end in whole seconds.
unfoldable pub user_for_session : ℕ → Text → Directory → Outcome Account
unfolding found
user_for_session now id d = elim (session_by_id id d) [
  | none ↦ (err not_found, d)
  | some session ↦
      if ltb (session.expires_at * one_second) now
      then (err session_expired, delete_session id d)
      else (found (user_by_id session.user_id d), d)
]

unfoldable pub logout : Text → Directory → Directory
logout id d = if is_empty id then d else delete_session id d

-- HashPassword of internal/core/password.go: `digest` is argon2 with its salt, and the length is in
-- bytes of UTF-8.
unfoldable pub byte_length : Text → ℕ
byte_length [] = 0
byte_length (c ∷ t) =
    (if ltb c 128 then 1 else if ltb c 2048 then 2 else if ltb c 65536 then 3 else 4)
    + byte_length t

unfoldable pub hash_password : (Text → Text) → Text → Result Error Text
hash_password digest password =
    if is_blank password
    then err password_required
    else if ltb (byte_length password) 8
    then err password_short
    else ok (digest password)

unfoldable pub reset_user_password :
    (Text → Text) → Text → Text → Directory → Result Error Directory
reset_user_password digest id password d =
    if is_blank password
    then err password_required
    else hash_password digest password >>= λ hash. set_password id hash d

change_of :
    (Text → Text)
    → (Text → Text → Bool)
    → Text
    → Text
    → Text
    → Directory
    → Option Account
    → Result Error Directory
change_of digest verify id current new d none = err not_found
change_of digest verify id current new d (some user) =
    if is_empty user.password_hash || not (verify user.password_hash current)
    then err current_password_wrong
    else if text_eq current new
    then err password_unchanged
    else hash_password digest new >>= λ hash. set_password id hash d

unfoldable pub change_password :
    (Text → Text) → (Text → Text → Bool) → Text → Text → Text → Directory → Result Error Directory
unfolding change_of
change_password digest verify id current new d =
    change_of digest verify id current new d (user_by_id id d)
