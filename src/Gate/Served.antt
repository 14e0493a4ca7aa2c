-- ===== src/Gate/Served.antt =====
-- internal/platform/httpapi/access.go: which requests are served.
use topbase.Prelude.{
  ℕ, ◌≡◌, refl, ap, ◌⊎◌, inl, inr, Bool, true, false, ◌&&◌, ◌||◌, Option, none, some, Bool-cases,
  Result-cases, Option-cases, find, ◌/◌, ◌<◌, &&-split, ok, arith,
}
use topbase.Text.{Text, codes, text_eq, trim_space, has_prefix}
use topbase.Text.Laws.{text_eq_iff}
use topbase.Text.Parts.{trim_suffix}
use topbase.Accounts.{Account, Directory, user_by_id}
use topbase.Accounts.Sessions.{one_second}
use topbase.Accounts.Keys.{
  DeveloperSettings, ApiKey, KeyStore, developer_settings, user_for_api_key, key_owner,
  active_owner, is_over,
}
use topbase.Gate.{
  Request, Verdict, served, current_session_user, is_api_key_request, bearer, readable,
  developer_api_request_allowed, is_public_request, key_verdict, unsigned, with_session,
  access_control,
}

-- What a key may be used for: to read a listed path, to run a query, and, where the settings allow
-- it, to save a question.
pub data IsKeyUse (r : Request) (settings : DeveloperSettings) : Type 0 where
  reads :
      r.method ≡ codes "GET"
      → readable (trim_suffix (codes "/") r.path) ≡ true
      → IsKeyUse r settings
  queries :
      r.method ≡ codes "POST"
      → trim_suffix (codes "/") r.path ≡ codes "/api/dataset"
      → IsKeyUse r settings
  writes :
      r.method ≡ codes "POST"
      → trim_suffix (codes "/") r.path ≡ codes "/api/questions"
      → settings.allow_analysis_write ≡ true
      → IsKeyUse r settings

||-split : (a b : Bool) → (a || b) ≡ true → (a ≡ true) ⊎ (b ≡ true)
||-split a b h = ground arith

allowed-IsKeyUse :
    (r : Request) (settings : DeveloperSettings)
    → developer_api_request_allowed r settings ≡ true
    → IsKeyUse r settings
unfolding developer_api_request_allowed
allowed-IsKeyUse r settings h =
    let p = trim_suffix (codes "/") r.path in
    let get = text_eq r.method (codes "GET") in
    let post = text_eq r.method (codes "POST") in
    elim (||-split ((get && readable p) || (post && text_eq p (codes "/api/dataset")))
      (post && text_eq p (codes "/api/questions") && settings.allow_analysis_write) h) [
        | inr third ↦
            let (both, allow) =
              &&-split (post && text_eq p (codes "/api/questions")) settings.allow_analysis_write
                third in
            let (posted, path) = &&-split post (text_eq p (codes "/api/questions")) both in
            writes ((text_eq_iff r.method (codes "POST")).0 posted)
              ((text_eq_iff p (codes "/api/questions")).0 path) allow
        | inl others ↦
            elim (||-split (get && readable p) (post && text_eq p (codes "/api/dataset")) others) [
              | inl first ↦
                  let (got, path) = &&-split get (readable p) first in
                  reads ((text_eq_iff r.method (codes "GET")).0 got) path
              | inr second ↦
                  let (posted, path) = &&-split post (text_eq p (codes "/api/dataset")) second in
                  queries ((text_eq_iff r.method (codes "POST")).0 posted)
                    ((text_eq_iff p (codes "/api/dataset")).0 path)
            ]
      ]

-- Before the end of a key's time, if it has one.
pub data IsCurrent (now : ℕ) : Option ℕ → Type 0 where
  unending : IsCurrent now none
  before_end : (end : ℕ) → now < end → IsCurrent now (some end)

is_over-IsCurrent : (now : ℕ) (o : Option ℕ) → is_over now o ≡ false → IsCurrent now o
unfolding is_over
is_over-IsCurrent now none h = unending
is_over-IsCurrent now (some end) h = before_end end (ground arith)

-- Is a request served?
abbrev is_served : Verdict → Bool
is_served served = true
is_served v = false

module _ (hash_key : Text → Text) (now : ℕ) (r : Request) where
  -- What a request without a session was served for: a key in the table, within its time and of an
  -- active account, while developer mode is on, for one of the uses of a key.
  pub record IsByKey (s : KeyStore) : Type 0 where
    pub owner : Account
    pub key : ApiKey
    pub known : find (λ k. text_eq k.hash (hash_key (trim_space (bearer r)))) s.keys ≡ some key
    pub developer_mode : (developer_settings s).enabled ≡ true
    pub current : IsCurrent (now / one_second) key.expires_at
    pub owned : user_by_id key.user_id s.directory ≡ some owner
    pub active : owner.is_active ≡ true
    pub use_ : IsKeyUse r (developer_settings s)

  keyed-IsByKey :
      (s : KeyStore) (user : Account)
      → user_for_api_key hash_key (now / one_second) (trim_space (bearer r)) s ≡ ok user
      → IsKeyUse r (developer_settings s)
      → IsByKey s
  unfolding user_for_api_key key_owner active_owner
  keyed-IsByKey s user e use_ = elim (Bool-cases (developer_settings s).enabled) [
    | inr off ↦ cc (rw off at e)
    | inl on ↦
        elim (Option-cases (find (λ k. text_eq k.hash (hash_key (trim_space (bearer r)))) s.keys)) [
          | inl unknown ↦ cc (rw (on, unknown) at e)
          | inr (k, known) ↦ elim (Bool-cases (is_over (now / one_second) k.expires_at)) [
            | inl over ↦ cc (rw (on, known, over) at e)
            | inr current ↦ elim (Option-cases (user_by_id k.user_id s.directory)) [
              | inl nobody ↦ cc (rw (on, known, current, nobody) at e)
              | inr (owner, owned) ↦ elim (Bool-cases owner.is_active) [
                | inr inactive ↦ cc (rw (on, known, current, owned, inactive) at e)
                | inl active ↦ record {
                  owner = owner;
                  key = k;
                  known = known;
                  developer_mode = on;
                  current = is_over-IsCurrent (now / one_second) k.expires_at current;
                  owned = owned;
                  active = active;
                  use_ = use_;
                }
              ]
            ]
          ]
        ]
  ]

  unsigned-IsByKey : (s : KeyStore) → is_served (unsigned hash_key now r s) ≡ true → IsByKey s
  unfolding unsigned key_verdict
  unsigned-IsByKey s h = elim (Bool-cases (is_api_key_request r)) [
    | inr keyless ↦ elim (Bool-cases (has_prefix (codes "/api/") r.path)) [
      | inl api ↦ cc (rw (keyless, api) at h)
      | inr page ↦ cc (rw (keyless, page) at h)
    ]
    | inl keyed ↦
        elim (Result-cases
          (user_for_api_key hash_key (now / one_second) (trim_space (bearer r)) s)) [
            | inr (why, bad) ↦ cc (rw (keyed, bad) at h)
            | inl (user, good) ↦
                elim (Bool-cases (developer_api_request_allowed r (developer_settings s))) [
                  | inr barred ↦ cc (rw (keyed, good, barred) at h)
                  | inl allowed ↦
                      keyed-IsByKey s user good (allowed-IsKeyUse r (developer_settings s) allowed)
                ]
          ]
  ]

  -- Every request that accessControl lets through is for a public path, or belongs to a session that
  -- gives an account, or bears a key: developer mode then is on, the key is there, not expired and of
  -- an active account, and the request is a GET of one of the listed paths, a query, or, where the
  -- settings allow it, a new question.
  pub access_control_served :
      (s after : KeyStore)
      → access_control hash_key now r s ≡ (served, after)
      → (is_public_request r ≡ true)
        ⊎ (((user : Account) × ((current_session_user now r s.directory).0 ≡ some user))
            ⊎ IsByKey (record s { directory = (current_session_user now r s.directory).1 }))
  unfolding access_control
  access_control_served s after h = elim (Bool-cases (is_public_request r)) [
    | inl open_ ↦ inl open_
    | inr closed ↦ inr (
        behind (current_session_user now r s.directory)
          (ap (λ (p : Verdict × KeyStore). is_served (p.0)) (rw closed at h)))
  ]
    where
      behind :
          (found : Option Account × Directory)
          → is_served ((with_session hash_key now r s found).0) ≡ true
          → ((user : Account) × (found.0 ≡ some user)) ⊎ IsByKey (record s { directory = found.1 })
      behind (some user, d) e = inl (user, refl)
      behind (none, d) e = inr (unsigned-IsByKey (record s { directory = d }) e)
