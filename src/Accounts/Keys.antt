-- ===== src/Accounts/Keys.antt =====
-- internal/app/identity/service.go: API keys and the settings of developer mode, over the table of
-- internal/adapters/appdb/w2.go.
--
-- The secret is random and its SHA-256 a parameter. The setting's JSON is kept decoded, and what
-- net/url reads of an address is a parameter.
pub mod Lifetime
mod Tests
use mathlib.Core.List.{reverse}
use topbase.Prelude.{
  ℕ, suc, ◌+◌, ◌*◌, Bool, true, false, not, ◌&&◌, ◌||◌, List, [], ◌∷◌, ◌++◌, Option, none, some,
  ltb, ◌==◌, if◌then◌else◌, any, keep, find, length, is_empty, Result, ok, err, ◌>>=◌, ◌>>◌, guard,
}
use topbase.Text.{Text, codes, text_eq, trim_space, is_blank}
use topbase.QueryIr.Values.{ℤ, pos, negsuc, is_zero, is_neg}
use topbase.Accounts.{Account, Directory, user_by_id}

-- core.APIKey, less the fields that are only shown; a moment is a number of seconds.
pub record ApiKey : Type 0 where
  pub id : Text
  pub name : Text
  pub hash : Text
  pub user_id : Text
  pub created_at : ℕ
  pub expires_at : Option ℕ

pub record DeveloperSettings : Type 0 where
  pub enabled : Bool
  pub allow_personal_keys : Bool
  pub allow_analysis_write : Bool
  pub default_key_ttl_days : ℤ
  pub max_query_rows : ℤ
  pub public_base_url : Text

-- The tables of this part, the newest key last, beside the accounts.
pub record KeyStore : Type 0 where
  pub directory : Directory
  pub keys : List ApiKey
  pub developer : Option DeveloperSettings

pub data KeyError : Type 0 where
  name_required name_long developer_disabled key_refused : KeyError
  invalid_key key_expired owner_inactive : KeyError
  ttl_out_of_range rows_out_of_range url_required url_decorated : KeyError

abbrev pub default_settings : DeveloperSettings
default_settings = record {
  enabled = false;
  allow_personal_keys = true;
  allow_analysis_write = false;
  default_key_ttl_days = pos 90;
  max_query_rows = pos 200;
  public_base_url = [];
}

unfoldable pub or_default : Option DeveloperSettings → DeveloperSettings
or_default none = default_settings
or_default (some settings) =
    if is_zero settings.max_query_rows
    then record settings { max_query_rows = pos 200 }
    else settings

unfoldable pub developer_settings : KeyStore → DeveloperSettings
unfolding or_default
developer_settings s = or_default s.developer

-- What url.Parse gives.
pub record Url : Type 0 where
  pub scheme : Text
  pub host : Text
  pub has_user : Bool
  pub raw_query : Text
  pub fragment : Text

-- strings.TrimRight(t, "/").
abbrev drop_slashes : Text → Text
drop_slashes [] = []
drop_slashes (c ∷ t) = let rest = drop_slashes t in if c == b'/' then rest else c ∷ t

unfoldable pub trim_slashes : Text → Text
trim_slashes t = reverse (drop_slashes (reverse t))

unfoldable pub check_url : Option Url → Result KeyError (Unit {0})
check_url none = err url_required
check_url (some url) =
    guard
      ((text_eq url.scheme (codes "http") || text_eq url.scheme (codes "https"))
        && not (is_empty url.host))
      url_required
    >> guard (not (url.has_user || not (is_empty url.raw_query) || not (is_empty url.fragment)))
        url_decorated

-- Is an int outside of what two others bound?
abbrev pub outside : ℕ → ℕ → ℤ → Bool
outside low high (pos n) = ltb n low || ltb high n
outside low high (negsuc n) = true

unfoldable pub save_developer_settings :
    (Text → Option Url)
    → DeveloperSettings
    → KeyStore
    → Result KeyError (DeveloperSettings × KeyStore)
unfolding check_url trim_slashes
save_developer_settings parse_url settings s =
    let base = trim_slashes (trim_space settings.public_base_url) in
    let saved = record settings { public_base_url = base } in
    guard (not (outside 0 3650 settings.default_key_ttl_days)) ttl_out_of_range
    >> (guard (not (outside 1 2000 settings.max_query_rows)) rows_out_of_range
        >> ((if is_empty base then ok tt else check_url (parse_url base))
            >> ok (saved, record s { developer = some saved })))

-- A key's end: days of 86400 seconds, where the settings give a positive number of them.
unfoldable pub expiry : ℕ → ℤ → Option ℕ
expiry now (pos n) = if ltb 0 n then some (now + n * 86400) else none
expiry now (negsuc n) = none

unfoldable pub insert_key : ApiKey → KeyStore → Result KeyError KeyStore
insert_key key s =
    if any (λ k. text_eq k.id key.id) s.keys
    then err key_refused
    else ok (record s { keys = s.keys ++ key ∷ [] })

-- `!now.Before(expires)`, where there is a time.
unfoldable pub is_over : ℕ → Option ℕ → Bool
is_over now none = false
is_over now (some end) = not (ltb now end)

unfoldable pub active_owner : Option Account → Result KeyError Account
active_owner none = err owner_inactive
active_owner (some user) = if user.is_active then ok user else err owner_inactive

unfoldable pub key_owner : ℕ → KeyStore → Option ApiKey → Result KeyError Account
unfolding is_over active_owner
key_owner now s none = err invalid_key
key_owner now s (some key) =
    if is_over now key.expires_at
    then err key_expired
    else active_owner (user_by_id key.user_id s.directory)

module _ (hash_key : Text → Text) where
  unfoldable pub new_key : ℕ → Text → Text → Text → Text → ℤ → ApiKey
  unfolding expiry
  new_key now id raw user name days = record {
    id = id;
    name = trim_space name;
    hash = hash_key raw;
    user_id = user;
    created_at = now;
    expires_at = expiry now days;
  }

  unfoldable pub create_api_key :
      ℕ → Text → Text → Text → Text → KeyStore → Result KeyError (ApiKey × KeyStore)
  unfolding new_key insert_key
  create_api_key now id raw user name s =
      let key = new_key now id raw user name (developer_settings s).default_key_ttl_days in
      guard (not (is_blank name)) name_required
      >> (guard (not (ltb 80 (length (trim_space name)))) name_long
          >> (guard (developer_settings s).enabled developer_disabled
              >> (insert_key key s >>= λ after. ok (key, after))))

  unfoldable pub user_for_api_key : ℕ → Text → KeyStore → Result KeyError Account
  unfolding key_owner
  user_for_api_key now raw s =
      if (developer_settings s).enabled
      then key_owner now s (find (λ k. text_eq k.hash (hash_key raw)) s.keys)
      else err developer_disabled

-- The keys of a user, the newest first, and of everybody; the order of equal times is the table's.
unfoldable pub list_api_keys : Text → KeyStore → List ApiKey
list_api_keys user s = keep (λ k. text_eq k.user_id user) (reverse s.keys)

unfoldable pub delete_api_key : Text → KeyStore → KeyStore
delete_api_key id s = record s { keys = keep (λ k. not (text_eq k.id id)) s.keys }

-- createAPIKey and deleteAPIKey of internal/platform/httpapi/share.go, for a user who is signed in.
module _ (hash_key : Text → Text) (is_admin : Text → Bool) where
  unfoldable pub create_own_key :
      ℕ → Text → Text → Text → Text → KeyStore → Result KeyError (ApiKey × KeyStore)
  create_own_key now id raw user name s =
      let settings = developer_settings s in
      if not settings.enabled || (not settings.allow_personal_keys && not (is_admin user))
      then err developer_disabled
      else create_api_key hash_key now id raw user name s

unfoldable pub delete_own_key : Text → Text → KeyStore → Result KeyError KeyStore
unfolding list_api_keys delete_api_key
delete_own_key user id s =
    if any (λ k. text_eq k.id id) (list_api_keys user s)
    then ok (delete_api_key id s)
    else err invalid_key
