-- ===== src/Accounts/Deactivation.antt =====
-- internal/app/identity/service.go: SetUserActive and the sessions there are.
use topbase.Prelude.{
  ◌*◌, ℕ, ◌≡◌, refl, ap, ◌∙◌, Bool, false, List, [], ◌∷◌, map, Option, none, some, if◌then◌else◌,
  any, find, Bool-cases, inl, inr, ok, ltb, ok-transport,
}
use topbase.Text.{Text, text_eq}
use topbase.Accounts.{
  Account, Session, Directory, user_by_id, session_by_id, set_active, update_user,
}
use topbase.Accounts.Sessions.{user_for_session, found, one_second}

change : Bool → Option Account → Option Account
change active none = none
change active (some u) = some (record u { is_active = active })

find-map :
    (id : Text) (active : Bool) (us : List Account) (u : Account)
    → find (λ v. text_eq v.id id) us ≡ some u
    → find
        (λ v. text_eq v.id id)
        (map (λ v. if text_eq v.id id then record v { is_active = active } else v) us)
      ≡ some (record u { is_active = active })
unfolding change
find-map id active [] u e = cc
find-map id active (v ∷ us) u e = elim (Bool-cases (text_eq v.id id)) [
  | inl this ↦ rw this (rw this (ap (change active) (rw this at e)))
  | inr other ↦ rw other (rw other (find-map id active us u (rw other at e)))
]

set_active-reads :
    (id : Text) (active : Bool) (user : Account) (d after : Directory)
    → user_by_id id d ≡ some user
    → set_active id active d ≡ ok after
    → (user_by_id id after ≡ some (record user { is_active = active }))
      × (after.sessions ≡ d.sessions)
unfolding set_active update_user user_by_id
set_active-reads id active user d after known e =
    elim (Bool-cases (any (λ u. text_eq u.id id) d.users)) [
      | inr missing ↦ cc (rw missing at e)
      | inl there ↦
          ok-transport
            (λ (x : Directory).
              (user_by_id id x ≡ some (record user { is_active = active }))
              × (x.sessions ≡ d.sessions))
            (rw there at e) (find-map id active d.users user known, refl)
    ]

valid_session-reads :
    (now : ℕ) (id : Text) (session : Session) (user : Account) (d : Directory)
    → session_by_id id d ≡ some session
    → ltb (session.expires_at * one_second) now ≡ false
    → user_by_id session.user_id d ≡ some user
    → user_for_session now id d ≡ (ok user, d)
unfolding user_for_session found
valid_session-reads now id session user d stored valid known =
    rw (user_for_session, stored, valid, known)

-- A session outlives the deactivation of its account: until it expires it gives the account, which is
-- then inactive.
pub set_active-user_for_session :
    (now : ℕ) (id : Text) (session : Session) (user : Account) (d after : Directory)
    → session_by_id id d ≡ some session
    → ltb (session.expires_at * one_second) now ≡ false
    → user_by_id session.user_id d ≡ some user
    → set_active session.user_id false d ≡ ok after
    → user_for_session now id after ≡ (ok (record user { is_active = false }), after)
unfolding session_by_id
set_active-user_for_session now id session user d after stored valid known e =
    let (inactive, kept) = set_active-reads session.user_id false user d after known e in
    valid_session-reads now id session (record user { is_active = false }) after
      (ap (find (λ s. text_eq s.id id)) kept ∙ stored) valid inactive
