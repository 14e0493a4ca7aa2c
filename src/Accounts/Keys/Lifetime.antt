-- ===== src/Accounts/Keys/Lifetime.antt =====
-- internal/app/identity/service.go: what a key that CreateAPIKey gave is good for.
use topbase.Prelude.{
  ℕ, ◌+◌, ◌*◌, ◌==◌, ◌≡◌, refl, sym, ap, ◌∙◌, Bool, true, false, not, ◌||◌, List, [], ◌∷◌, ◌++◌,
  some, ltb, if◌then◌else◌, any, find, length, ||-neither, Bool-cases, inl, inr, Result, ok, err,
  guard, guard-eq-ok, >>-eq-ok, >>=-eq-ok, ok-injective, arith,
}
use topbase.Text.{Text, text_eq, trim_space, is_blank}
use topbase.Text.Laws.{text_eq_refl}
use topbase.QueryIr.Values.{pos}
use topbase.Accounts.{Account, user_by_id}
use topbase.Accounts.Keys.{
  ApiKey, KeyStore, KeyError, developer_settings, expiry, is_over, active_owner, insert_key,
  new_key, create_api_key, key_owner, user_for_api_key, name_required, name_long,
  developer_disabled, key_expired,
}

find-last {ℓ} :
    {A : Type ℓ} (p : A → Bool) (xs : List A) (y : A)
    → any p xs ≡ false
    → p y ≡ true
    → find p (xs ++ y ∷ []) ≡ some y
find-last p [] y h k = rw k refl
find-last p (x ∷ xs) y h k =
    let (miss, behind) = ||-neither (p x) (any p xs) h in rw miss (find-last p xs y behind k)

insert_key-ok :
    (key : ApiKey) (s after : KeyStore)
    → insert_key key s ≡ ok after
    → after ≡ record s { keys = s.keys ++ key ∷ [] }
unfolding insert_key
insert_key-ok key s after h = elim (Bool-cases (any (λ k. text_eq k.id key.id) s.keys)) [
  | inl there ↦ cc (rw there at h)
  | inr fresh ↦ sym (ok-injective (rw fresh at h))
]

-- A key that was made now is over when its days are.
in_time :
    (now later days : ℕ) (r : Result KeyError Account)
    → (if is_over later (expiry now (pos days)) then err key_expired else r)
      ≡ (if days == 0 || ltb later (now + days * 86400) then r else err key_expired)
unfolding is_over expiry
in_time now later days r = elim (Bool-cases (ltb 0 days)) [
  | inr never ↦
      let zero_days : (days == 0) ≡ true = ground (arith, never) in rw (never, zero_days) refl
  | inl some_days ↦
      let not_zero : (days == 0) ≡ false = ground (arith, some_days) in
      elim (Bool-cases (ltb later (now + days * 86400))) [
        | inl before ↦ rw (some_days, not_zero, before) refl
        | inr after ↦ rw (some_days, not_zero, after) refl
      ]
]

module _ (hash_key : Text → Text) (now : ℕ) (id raw user name : Text) (s : KeyStore) where
  abbrev made : ApiKey
  made = new_key hash_key now id raw user name (developer_settings s).default_key_ttl_days

  create_api_key-ok :
      (key : ApiKey) (after : KeyStore)
      → create_api_key hash_key now id raw user name s ≡ ok (key, after)
      → ((developer_settings s).enabled ≡ true) × (after ≡ record s { keys = s.keys ++ made ∷ [] })
  unfolding create_api_key
  create_api_key-ok key after h =
      let (named, b) = >>-eq-ok (guard (not (is_blank name)) name_required) _ h in
      let (short, c) = >>-eq-ok (guard (not (ltb 80 (length (trim_space name)))) name_long) _ b in
      let (on, d) = >>-eq-ok (guard (developer_settings s).enabled developer_disabled) _ c in
      let (stored, e, f) = >>=-eq-ok (insert_key made s) _ d in
      (
        guard-eq-ok (developer_settings s).enabled developer_disabled on,
        ap (λ (p : ApiKey × KeyStore). p.1) (sym (ok-injective f)) ∙ insert_key-ok made s stored e,
      )

  -- A key that CreateAPIKey gave, with a secret that no older key has the hash of, gives its owner's
  -- account, if that is active, for as many days as the settings said at its creation, and for ever
  -- where they said 0; from the second on in which the days are over it is refused as expired.
  pub create_api_key-user_for_api_key :
      (key : ApiKey) (after : KeyStore) (later days : ℕ) (owner : Account)
      → create_api_key hash_key now id raw user name s ≡ ok (key, after)
      → any (λ k. text_eq k.hash (hash_key raw)) s.keys ≡ false
      → (developer_settings s).default_key_ttl_days ≡ pos days
      → user_by_id user s.directory ≡ some owner
      → owner.is_active ≡ true
      → user_for_api_key hash_key later raw after
        ≡ (if days == 0 || ltb later (now + days * 86400) then ok owner else err key_expired)
  unfolding user_for_api_key developer_settings key_owner new_key expiry is_over active_owner
  create_api_key-user_for_api_key key after later days owner h fresh term there active =
      let (on, same) = create_api_key-ok key after h in
      rw
        (
          same,
          on,
          find-last (λ k. text_eq k.hash (hash_key raw)) s.keys made fresh
              (text_eq_refl (hash_key raw)),
          term,
        )
        (in_time now later days _ ∙ rw (there, active) refl)
