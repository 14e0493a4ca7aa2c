-- ===== src/Gate.antt =====
-- internal/platform/httpapi/access.go: accessControl, which lets requests through to the handlers, with
-- currentSessionUser of internal/platform/httpapi/server.go and currentUserOrKey and requireAdmin
-- beside it.
--
-- A request is its method, its path, its Authorization header and the value of its session cookie,
-- each blank where there is none. Cookies that are set on the way are not in the model.
pub mod Served
mod Tests
use mathlib.Core.List.{reverse}
use topbase.Prelude.{
  ◌/◌, ℕ, Bool, true, false, not, ◌&&◌, ◌||◌, List, [], ◌∷◌, Option, none, some, ◌==◌,
  if◌then◌else◌, is_empty, Result, ok, err,
}
use topbase.Text.{Text, codes, text_eq, one_of, has_prefix, split, lower, trim_space, has_rune}
use topbase.Text.Parts.{trim_prefix, trim_suffix}
use topbase.Accounts.{Account, Directory, Error}
use topbase.Accounts.Sessions.{Outcome, user_for_session, one_second}
use topbase.Accounts.Keys.{
  DeveloperSettings, KeyStore, KeyError, developer_settings, user_for_api_key,
}

pub record Request : Type 0 where
  pub method : Text
  pub path : Text
  pub authorization : Text
  pub session : Text

-- What becomes of a request.
pub data Verdict : Type 0 where
  served unauthorized forbidden redirected : Verdict
  bad_key : KeyError → Verdict

abbrev signed_in : Outcome Account → Option Account × Directory
signed_in (ok user, d) = (some user, d)
signed_in (err why, d) = (none, d)

-- A moment is in nanoseconds; the times of a key are whole seconds. A session that has expired is
-- deleted when it is asked for.
unfoldable pub current_session_user : ℕ → Request → Directory → Option Account × Directory
current_session_user now r d =
    if is_empty r.session then (none, d) else signed_in (user_for_session now r.session d)

unfoldable pub is_api_key_request : Request → Bool
is_api_key_request r = has_prefix (codes "Bearer ") r.authorization

abbrev pub bearer : Request → Text
bearer r = trim_prefix (codes "Bearer ") r.authorization

-- The parts of a path below /api/databases/ that a key may read.
unfoldable pub database_parts : List Text → Bool
database_parts (id ∷ tables ∷ []) = not (is_empty id) && text_eq tables (codes "tables")
database_parts (id ∷ tables ∷ schema ∷ name ∷ leaf ∷ []) =
    not (is_empty id)
    && text_eq tables (codes "tables")
    && not (is_empty schema)
    && not (is_empty name)
    && (text_eq leaf (codes "fields") || text_eq leaf (codes "annotation"))
database_parts parts = false

unfoldable pub question_path : Text → Bool
question_path p =
    let id = trim_prefix (codes "/api/questions/") p in
    not (text_eq p id) && not (is_empty id) && not (has_rune b'/' id)

-- What a key may GET.
unfoldable pub readable : Text → Bool
unfolding database_parts question_path
readable p =
    one_of
      (codes "/api/developer/ping"
        ∷ codes "/api/databases"
        ∷ codes "/api/collections"
        ∷ codes "/api/questions"
        ∷ [])
      p
    || (if has_prefix (codes "/api/databases/") p
        then database_parts (split b'/' (trim_prefix (codes "/api/databases/") p))
        else question_path p)

unfoldable pub developer_api_request_allowed : Request → DeveloperSettings → Bool
unfolding readable
developer_api_request_allowed r settings =
    let p = trim_suffix (codes "/") r.path in
    (text_eq r.method (codes "GET") && readable p)
    || (text_eq r.method (codes "POST") && text_eq p (codes "/api/dataset"))
    || (text_eq r.method (codes "POST")
        && text_eq p (codes "/api/questions")
        && settings.allow_analysis_write)

-- path.Ext: the text from the last dot of the last element on.
ext_before : Text → Text → Text
ext_before behind [] = []
ext_before behind (c ∷ t) =
    let further = ext_before (c ∷ behind) t in
    if c == b'/' then [] else if c == b'.' then c ∷ behind else further

unfoldable pub path_ext : Text → Text
unfolding ext_before
path_ext p = ext_before [] (reverse p)

abbrev any_prefix : List Text → Text → Bool
any_prefix [] p = false
any_prefix (w ∷ words) p = has_prefix w p || any_prefix words p

unfoldable pub is_public_request : Request → Bool
unfolding path_ext
is_public_request r =
    let ext = lower (path_ext r.path) in
    one_of
      (codes "/api/health"
        ∷ codes "/api/ready"
        ∷ codes "/api/version"
        ∷ codes "/api/setup/status"
        ∷ codes "/api/setup"
        ∷ codes "/api/session"
        ∷ codes "/api/auth/options"
        ∷ [])
      r.path
    || any_prefix
        (codes "/api/public/"
          ∷ codes "/auth/"
          ∷ codes "/setup/"
          ∷ codes "/public/"
          ∷ codes "/embed/"
          ∷ [])
        r.path
    || (has_prefix (codes "/assets/maps/") r.path && text_eq ext (codes ".json"))
    || one_of
        (codes ".css"
          ∷ codes ".js"
          ∷ codes ".png"
          ∷ codes ".jpg"
          ∷ codes ".jpeg"
          ∷ codes ".gif"
          ∷ codes ".svg"
          ∷ codes ".ico"
          ∷ codes ".woff"
          ∷ codes ".woff2"
          ∷ [])
        ext

module _ (hash_key : Text → Text) where
  unfoldable pub key_verdict : Request → KeyStore → Result KeyError Account → Verdict
  unfolding developer_api_request_allowed
  key_verdict r s (err why) = bad_key why
  key_verdict r s (ok user) =
      if developer_api_request_allowed r (developer_settings s) then served else forbidden

  unfoldable pub unsigned : ℕ → Request → KeyStore → Verdict
  unfolding key_verdict is_api_key_request
  unsigned now r s =
      if is_api_key_request r
      then key_verdict r s (user_for_api_key hash_key (now / one_second) (trim_space (bearer r)) s)
      else if has_prefix (codes "/api/") r.path
      then unauthorized
      else redirected

  unfoldable pub with_session :
      ℕ → Request → KeyStore → Option Account × Directory → Verdict × KeyStore
  unfolding unsigned
  with_session now r s (some user, d) = (served, record s { directory = d })
  with_session now r s (none, d) =
      let after : KeyStore = record s { directory = d } in (unsigned now r after, after)

  unfoldable pub access_control : ℕ → Request → KeyStore → Verdict × KeyStore
  unfolding with_session current_session_user is_public_request
  access_control now r s =
      if is_public_request r
      then (served, s)
      else with_session now r s (current_session_user now r s.directory)

  -- currentUserOrKey, which does not trim the key, and requireAdmin.
  abbrev key_user : Result KeyError Account → Option Account
  key_user (ok user) = some user
  key_user (err why) = none

  abbrev or_key : ℕ → Request → KeyStore → Option Account × Directory → Option Account × KeyStore
  or_key now r s (some user, d) = (some user, record s { directory = d })
  or_key now r s (none, d) =
      let after : KeyStore = record s { directory = d } in
      (
        if is_api_key_request r
            then key_user (user_for_api_key hash_key (now / one_second) (bearer r) after)
            else none,
        after,
      )

  unfoldable pub current_user_or_key : ℕ → Request → KeyStore → Option Account × KeyStore
  current_user_or_key now r s = or_key now r s (current_session_user now r s.directory)

  unfoldable pub require_admin :
      (Text → Bool) → ℕ → Request → KeyStore → Result Verdict Account × KeyStore
  require_admin is_admin now r s = admitted (current_user_or_key now r s)
    where
      admitted : Option Account × KeyStore → Result Verdict Account × KeyStore
      admitted (none, after) = (err unauthorized, after)
      admitted (some user, after) = (if is_admin user.id then ok user else err forbidden, after)
