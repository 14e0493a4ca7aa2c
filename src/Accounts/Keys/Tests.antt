-- ===== src/Accounts/Keys/Tests.antt =====
-- API keys at work, and the theorem at one key.
use topbase.Prelude.{
  ◌+◌, ◌*◌, ◌==◌, ◌||◌, ltb, ◌≡◌, refl, true, false, [], ◌∷◌, none, some, if◌then◌else◌, ok, err,
}
use topbase.Text.{Text, codes}
use topbase.QueryIr.Values.{pos, negsuc}
use topbase.Accounts.{Account, Directory, user_by_id}
use topbase.Accounts.Keys.{
  ApiKey, KeyStore, KeyError, default_settings, create_api_key, user_for_api_key, delete_api_key,
  delete_own_key, create_own_key, save_developer_settings, Url, key_expired, invalid_key,
  developer_disabled, ttl_out_of_range, url_decorated, is_over, expiry, active_owner,
}
use topbase.Accounts.Keys.Lifetime.{create_api_key-user_for_api_key}

abbrev ann : Account
ann = record {
  id = codes "ann";
  email = codes "ann@x";
  name = codes "Ann";
  locale = [];
  theme = [];
  is_active = true;
  password_hash = [];
}

abbrev store : KeyStore
store = record {
  directory = record {
    users = ann ∷ [];
    groups = [];
    members = [];
    sessions = [];
    links = [];
    settings = [];
    auth_settings = none;
  };
  keys = [];
  developer = some (record default_settings { enabled = true; default_key_ttl_days = pos 2 });
}

-- A digest of the tests: the text behind a mark.
abbrev digest : Text → Text
digest raw = b'#' ∷ raw

abbrev laptop : ApiKey
laptop = record {
  id = codes "k";
  name = codes "laptop";
  hash = codes "#tbk_1";
  user_id = codes "ann";
  created_at = 1000;
  expires_at = some 173800;
}

abbrev with_key : KeyStore
with_key = record store { keys = laptop ∷ [] }

create_test :
    create_api_key digest 1000 (codes "k") (codes "tbk_1") (codes "ann") (codes " laptop ") store
    ≡ ok (laptop, with_key)
unfolding create_api_key topbase.Text.is_blank topbase.Accounts.Keys.developer_settings
create_test = refl

use_tests :
    (user_for_api_key digest 173799 (codes "tbk_1") with_key ≡ ok ann)
    × (user_for_api_key digest 173800 (codes "tbk_1") with_key ≡ err key_expired)
    × (user_for_api_key digest 1001 (codes "tbk_2") with_key ≡ err invalid_key)
unfolding user_for_api_key topbase.Accounts.Keys.developer_settings topbase.Text.text_eq user_by_id
use_tests = (refl, refl, refl)

delete_tests :
    (delete_own_key (codes "bob") (codes "k") with_key ≡ err invalid_key)
    × (delete_own_key (codes "ann") (codes "k") with_key ≡ ok store)
unfolding delete_own_key topbase.Text.text_eq
delete_tests = (refl, refl)

disabled_test :
    create_own_key digest
      (λ user. false)
      1000
      (codes "k")
      (codes "tbk_1")
      (codes "ann")
      (codes "laptop")
      (record store { developer = none })
    ≡ err developer_disabled
unfolding create_own_key topbase.Accounts.Keys.developer_settings
disabled_test = refl

save_tests :
    (save_developer_settings
        (λ t. none)
        (record default_settings { default_key_ttl_days = negsuc 0 })
        store
      ≡ err ttl_out_of_range)
    × (save_developer_settings
          (λ t. some (record {
            scheme = codes "https";
            host = codes "h";
            has_user = true;
            raw_query = [];
            fragment = [];
          }))
          (record default_settings { public_base_url = codes "https://u@h/" })
          store
        ≡ err url_decorated)
unfolding save_developer_settings topbase.Text.trim_space topbase.Text.text_eq
save_tests = (refl, refl)

create_api_key-user_for_api_key_example :
    user_for_api_key digest 2000 (codes "tbk_1") with_key
    ≡ (if (2 == 0) || ltb 2000 (1000 + 2 * 86400) then ok ann else err key_expired)
unfolding topbase.Accounts.Keys.developer_settings user_by_id topbase.Text.text_eq
create_api_key-user_for_api_key_example =
    create_api_key-user_for_api_key digest 1000 (codes "k") (codes "tbk_1") (codes "ann")
      (codes " laptop ") store laptop with_key 2000 2 ann create_test refl refl refl refl
