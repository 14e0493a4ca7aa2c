-- ===== src/Accounts/ProviderTests.antt =====
-- internal/app/identity/service.go: the settings of sign-in, from a fresh installation on.
use topbase.Prelude.{◌≡◌, refl, true, false, [], ◌∷◌, none, some, ok}
use topbase.Text.{codes, text_eq}
use topbase.Accounts.Sessions.{password_login_enabled}
use topbase.Accounts.Providers.{
  IdentityProvider, SignInSettings, save_auth_settings, save_identity_providers, KeepsLogin,
  Reach-KeepsLogin, unchanged, then_step, providers_saved, auth_saved,
}

-- Google is set up, then passwords are turned off.
abbrev google : IdentityProvider
google = record {
  id = codes "g";
  type = codes "google";
  name = codes "Google";
  enabled = true;
  client_id = codes "abc";
  client_secret = codes "xyz";
}

abbrev fresh : SignInSettings
fresh = record { auth_settings = none; providers = [] }

saves_google :
    save_identity_providers (google ∷ []) fresh ≡ ok (record fresh { providers = google ∷ [] })
unfolding save_identity_providers topbase.Accounts.Providers.save_trimmed topbase.Text.trim_space
    topbase.Accounts.Sessions.password_login_enabled
saves_google = refl

turns_passwords_off :
    save_auth_settings false (record fresh { providers = google ∷ [] })
    ≡ ok (record { auth_settings = some false; providers = google ∷ [] })
unfolding save_auth_settings topbase.Accounts.Providers.is_configured
    topbase.Accounts.Providers.supports_browser_login text_eq topbase.Text.is_blank
turns_passwords_off = refl

fresh-KeepsLogin : KeepsLogin fresh
unfolding password_login_enabled
fresh-KeepsLogin = refl

Reach-KeepsLogin_example :
    KeepsLogin (record { auth_settings = some false; providers = google ∷ [] })
Reach-KeepsLogin_example =
    Reach-KeepsLogin fresh (record { auth_settings = some false; providers = google ∷ [] })
      fresh-KeepsLogin
      (then_step (then_step unchanged (providers_saved (google ∷ []) saves_google))
        (auth_saved false turns_passwords_off))
