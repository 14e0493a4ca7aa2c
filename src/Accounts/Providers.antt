-- ===== src/Accounts/Providers.antt =====
-- internal/app/identity/service.go: AuthSettings and the identity providers, which must leave a way to
-- sign in. Both settings are kept decoded.
use topbase.Prelude.{
  ◌≡◌, refl, Bool, true, not, ◌&&◌, ◌||◌, List, [], ◌∷◌, map, Option, some, if◌then◌else◌, any, all,
  is_empty, Result, ok, err, arith, Bool-cases, inl, inr, ok-transport,
}
use topbase.Text.{Text, codes, text_eq, trim_space, is_blank, trim_left}
use topbase.Accounts.Sessions.{password_login_enabled}

pub record IdentityProvider : Type 0 where
  pub id : Text
  pub type : Text
  pub name : Text
  pub enabled : Bool
  pub client_id : Text
  pub client_secret : Text

pub record SignInSettings : Type 0 where
  pub auth_settings : Option Bool
  pub providers : List IdentityProvider

pub data Refusal : Type 0 where
  no_other_login provider_incomplete last_login : Refusal

unfoldable pub supports_browser_login : Text → Bool
supports_browser_login type = text_eq type (codes "google") || text_eq type (codes "wechat")

-- The test of SaveAuthSettings, and that of SaveIdentityProviders, which does not trim.
unfoldable pub is_configured : IdentityProvider → Bool
is_configured p =
    supports_browser_login p.type
    && p.enabled
    && not (is_blank p.client_id)
    && not (is_blank p.client_secret)

unfoldable pub has_login : IdentityProvider → Bool
has_login p =
    supports_browser_login p.type
    && p.enabled
    && not (is_empty p.client_id)
    && not (is_empty p.client_secret)

unfoldable pub save_auth_settings : Bool → SignInSettings → Result Refusal SignInSettings
save_auth_settings enabled s =
    if enabled || any is_configured s.providers
    then ok (record s { auth_settings = some enabled })
    else err no_other_login

trimmed_provider : IdentityProvider → IdentityProvider
trimmed_provider p = record p {
  id = trim_space p.id;
  type = trim_space p.type;
  name = trim_space p.name;
}

provider_complete : IdentityProvider → Bool
provider_complete p = not (is_empty p.id) && not (is_empty p.type) && not (is_empty p.name)

unfoldable pub save_trimmed : List IdentityProvider → SignInSettings → Result Refusal SignInSettings
unfolding provider_complete
save_trimmed items s =
    if not (all provider_complete items)
    then err provider_incomplete
    else if not (password_login_enabled s.auth_settings) && not (any has_login items)
    then err last_login
    else ok (record s { providers = items })

unfoldable pub save_identity_providers :
    List IdentityProvider → SignInSettings → Result Refusal SignInSettings
unfolding trimmed_provider
save_identity_providers items = save_trimmed (map trimmed_provider items)

-- What an administrator may do to the settings, and what they may become.
pub data Step (s t : SignInSettings) : Type 0 where
  auth_saved : (enabled : Bool) → save_auth_settings enabled s ≡ ok t → Step s t
  providers_saved :
      (items : List IdentityProvider) → save_identity_providers items s ≡ ok t → Step s t

pub data Reach (s : SignInSettings) : SignInSettings → Type 0 where
  unchanged : Reach s s
  then_step : {t u : SignInSettings} → Reach s t → Step t u → Reach s u

-- Passwords are on, or an enabled provider has identifiers that are not empty, which may be blanks.
abbrev pub KeepsLogin : SignInSettings → Type 0
KeepsLogin s = (password_login_enabled s.auth_settings || any has_login s.providers) ≡ true

is_blank-is_empty : (t : Text) → is_empty t ≡ true → is_blank t ≡ true
unfolding is_blank trim_space trim_left
is_blank-is_empty [] h = refl
is_blank-is_empty (c ∷ t) h = cc

is_configured-has_login : (p : IdentityProvider) → is_configured p ≡ true → has_login p ≡ true
unfolding is_configured has_login
is_configured-has_login p h =
    ground (arith, is_blank-is_empty p.client_id, is_blank-is_empty p.client_secret)

any-is_configured :
    (ps : List IdentityProvider) → any is_configured ps ≡ true → any has_login ps ≡ true
any-is_configured [] h = h
any-is_configured (p ∷ ps) h = ground (arith, is_configured-has_login p, any-is_configured ps)

save_auth_settings-KeepsLogin :
    (enabled : Bool) (s t : SignInSettings) → save_auth_settings enabled s ≡ ok t → KeepsLogin t
unfolding save_auth_settings password_login_enabled
save_auth_settings-KeepsLogin enabled s t e =
    elim (Bool-cases (enabled || any is_configured s.providers)) [
      | inl left ↦
          ok-transport KeepsLogin (rw left at e) (ground (arith, any-is_configured s.providers))
      | inr none_left ↦ cc (rw none_left at e)
    ]

save_trimmed-KeepsLogin :
    (items : List IdentityProvider) (s t : SignInSettings)
    → save_trimmed items s ≡ ok t
    → KeepsLogin t
unfolding save_trimmed
save_trimmed-KeepsLogin items s t e = elim (Bool-cases (not (all provider_complete items))) [
  | inl missing ↦ cc (rw missing at e)
  | inr given ↦
      elim (Bool-cases
        (not (password_login_enabled s.auth_settings) && not (any has_login items))) [
          | inl closed ↦ cc (rw (given, closed) at e)
          | inr left ↦ ok-transport KeepsLogin (rw (given, left) at e) (ground arith)
        ]
]

-- Whatever an administrator does to the settings of sign-in and to the providers, in whatever order,
-- passwords are on afterwards, or a provider that browsers can sign in with is enabled and neither its
-- client id nor its secret is the empty text. They may be blanks, which only SaveAuthSettings refuses.
-- This holds if it did at first.
pub Reach-KeepsLogin : (s t : SignInSettings) → KeepsLogin s → Reach s t → KeepsLogin t
unfolding save_identity_providers
Reach-KeepsLogin s t open_before unchanged = open_before
Reach-KeepsLogin s t open_before (then_step {t = m} before (auth_saved enabled e)) =
    save_auth_settings-KeepsLogin enabled m t e
Reach-KeepsLogin s t open_before (then_step {t = m} before (providers_saved items e)) =
    save_trimmed-KeepsLogin (map trimmed_provider items) m t e
