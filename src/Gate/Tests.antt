-- ===== src/Gate/Tests.antt =====
-- Requests at the gate.
use topbase.Prelude.{◌≡◌, refl, ◌⊎◌, true, false, [], ◌∷◌, none, some}
use topbase.Text.{Text, codes}
use topbase.Accounts.{Account, Directory}
use topbase.Accounts.Keys.{ApiKey, KeyStore, default_settings}
use topbase.Gate.{
  Request, served, forbidden, unauthorized, redirected, access_control, is_public_request,
  current_session_user, developer_api_request_allowed,
}
use topbase.Gate.Served.{IsByKey, access_control_served}

abbrev ann : Account
ann = record {
  id = codes "ann";
  email = codes "ann@x";
  name = codes "Ann";
  locale = [];
  theme = [];
  is_active = true;
  password_hash = [];
}

abbrev laptop : ApiKey
laptop = record {
  id = codes "k";
  name = codes "laptop";
  hash = codes "#tbk_1";
  user_id = codes "ann";
  created_at = 1000;
  expires_at = none;
}

abbrev store : KeyStore
store = record {
  directory = record {
    users = ann ∷ [];
    groups = [];
    members = [];
    sessions = [];
    links = [];
    settings = [];
    auth_settings = none;
  };
  keys = laptop ∷ [];
  developer = some (record default_settings { enabled = true });
}

abbrev digest : Text → Text
digest raw = b'#' ∷ raw

abbrev bare : Text → Text → Request
bare method path = record { method = method; path = path; authorization = []; session = [] }

abbrev keyed : Text → Text → Request
keyed method path = record (bare method path) { authorization = codes "Bearer tbk_1" }

paths_tests :
    (developer_api_request_allowed
        (keyed (codes "GET") (codes "/api/questions/q1/"))
        default_settings
      ≡ true)
    × (developer_api_request_allowed
          (keyed (codes "GET") (codes "/api/databases/d/tables/s/t/fields"))
          default_settings
        ≡ true)
    × (developer_api_request_allowed
          (keyed (codes "DELETE") (codes "/api/questions/q1"))
          default_settings
        ≡ false)
unfolding developer_api_request_allowed topbase.Text.text_eq topbase.Text.one_of
    topbase.Text.Parts.trim_suffix topbase.Text.has_prefix topbase.Text.has_rune topbase.Text.split
paths_tests = (refl, refl, refl)

key_test :
    access_control digest 5 (keyed (codes "POST") (codes "/api/dataset")) store ≡ (served, store)
unfolding access_control topbase.Text.one_of topbase.Text.has_prefix topbase.Text.lower
    topbase.Accounts.Keys.user_for_api_key topbase.Accounts.Keys.developer_settings
    topbase.Text.trim_space topbase.Text.Parts.trim_prefix topbase.Accounts.user_by_id
    topbase.Text.Parts.trim_suffix
key_test = refl

write_test :
    access_control digest 5 (keyed (codes "POST") (codes "/api/questions")) store
    ≡ (forbidden, store)
unfolding access_control topbase.Text.one_of topbase.Text.has_prefix topbase.Text.lower
    topbase.Accounts.Keys.user_for_api_key topbase.Accounts.Keys.developer_settings
    topbase.Text.trim_space topbase.Text.Parts.trim_prefix topbase.Accounts.user_by_id
    topbase.Text.Parts.trim_suffix
write_test = refl

bare_tests :
    (access_control digest 5 (bare (codes "GET") (codes "/api/users")) store
      ≡ (unauthorized, store))
    × (access_control digest 5 (bare (codes "GET") (codes "/reports")) store ≡ (redirected, store))
unfolding access_control topbase.Text.one_of topbase.Text.has_prefix topbase.Text.lower
bare_tests = (refl, refl)

-- The end of the name decides before anything else: a call of the API under such a name is let
-- through to its handler without a session or a key.
public_name_test :
    access_control digest 5 (bare (codes "DELETE") (codes "/api/databases/sales.css")) store
    ≡ (served, store)
unfolding access_control topbase.Text.one_of topbase.Text.has_prefix topbase.Text.lower
public_name_test = refl

access_control_served_example :
    (is_public_request (keyed (codes "POST") (codes "/api/dataset")) ≡ true)
    ⊎ (((user : Account) × ((current_session_user 5
              (keyed (codes "POST") (codes "/api/dataset"))
              store.directory).0
            ≡ some user))
        ⊎ IsByKey digest 5 (keyed (codes "POST") (codes "/api/dataset")) (record store {
          directory =
              (current_session_user 5
                (keyed (codes "POST") (codes "/api/dataset"))
                store.directory).1;
        }))
access_control_served_example =
    access_control_served digest 5 (keyed (codes "POST") (codes "/api/dataset")) store store
      key_test
