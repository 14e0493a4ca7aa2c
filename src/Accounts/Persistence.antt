-- ===== src/Accounts/Persistence.antt =====
-- internal/app/identity/service.go: what becomes of a session.
use topbase.Prelude.{
  ℕ, ◌+◌, ◌*◌, ◌≡◌, refl, ap, subst, Bool, true, false, not, ◌||◌, List, [], ◌∷◌, ◌++◌, Option,
  none, some, if◌then◌else◌, any, find, Bool-cases, Option-cases, inl, inr, Result, ok, err, ltb,
  ok-transport, is_empty,
}
use topbase.Text.{Text, text_eq, lower, trim_space}
use topbase.Text.Laws.{text_eq_refl}
use topbase.Accounts.{
  Account, Session, Directory, Error, not_linked, session_expired, user_by_id, user_by_email,
  create_session, session_by_id, delete_session,
}
use topbase.Accounts.Sessions.{
  SignIn, new_session, open_session, created, active_session, user_for_session, found,
  session_seconds, one_second, login_external_identity, login_external, link_of, login, login_user,
  password_login_enabled,
}

-- What is looked for under a new key behind the rows of a table is the row that was added.
find-last {ℓ} :
    {A : Type ℓ} (test : A → Bool) (xs : List A) (x : A)
    → any test xs ≡ false
    → test x ≡ true
    → find test (xs ++ x ∷ []) ≡ some x
find-last test [] x before this = rw this
find-last test (y ∷ xs) x before this = elim (Bool-cases (test y)) [
  | inl here ↦ cc (rw here at before)
  | inr later ↦ rw (later) (find-last test xs x (rw later at before) this)
]

create_session-stored :
    (session : Session) (d after : Directory)
    → create_session session d ≡ ok after
    → (session_by_id session.id after ≡ some session) × (after.users ≡ d.users)
unfolding create_session session_by_id
create_session-stored session d after e =
    elim (Bool-cases (any (λ s. text_eq s.id session.id) d.sessions)) [
      | inl taken ↦ cc (rw taken at e)
      | inr free ↦
          ok-transport
            (λ (x : Directory).
              (find (λ s. text_eq s.id session.id) x.sessions ≡ some session) × (x.users ≡ d.users))
            (rw free at e)
            (
              find-last (λ s. text_eq s.id session.id) d.sessions session free
                  (text_eq_refl session.id),
              refl,
            )
    ]

created-ok :
    (session given : Session) (user signed : Account) (d after : Directory)
    (r : Result Error Directory)
    → created session user d r ≡ (ok (given, signed), after)
    → (r ≡ ok after) × (session ≡ given) × (user ≡ signed)
unfolding created
created-ok session given user signed d after (ok x) e = (
  ap ok (ap (λ (q : SignIn). q.1) e),
  ap (λ (q : SignIn). (signed_in q).0) e,
  ap (λ (q : SignIn). (signed_in q).1) e,
)
  where
    signed_in : SignIn → Session × Account
    signed_in (ok p, x) = p
    signed_in (err why, x) = (session, user)
created-ok session given user signed d after (err why) e = cc (ap (λ (q : SignIn). q.0) e)

-- What a session opened at one moment gives its bearer at another: the account with the id of who
-- signed in, or that it is over.
abbrev pub IsSession : ℕ → ℕ → Session → Account → Directory → Directory → Type 0
IsSession now later session user before after = user_for_session later session.id after ≡ (
    if ltb ((now + session_seconds) * one_second) later
    then (err session_expired, delete_session session.id after)
    else (found (user_by_id user.id before), after))

new_session-reads :
    (now : ℕ) (id : Text) (user : Account) (d after : Directory) (later : ℕ)
    → session_by_id id after ≡ some (new_session now id user)
    → after.users ≡ d.users
    → user_for_session later id after ≡ (
        if ltb ((now + session_seconds) * one_second) later
        then (err session_expired, delete_session id after)
        else (found (user_by_id user.id d), after))
unfolding user_for_session user_by_id
new_session-reads now id user d after later stored kept = rw (user_for_session, stored, kept)

open_session-IsSession :
    (now later : ℕ) (id : Text) (user signed : Account) (d after : Directory) (session : Session)
    → open_session now id user d ≡ (ok (session, signed), after)
    → IsSession now later session signed d after
unfolding open_session
open_session-IsSession now later id user signed d after session e =
    let (made, same, who) = created-ok (new_session now id user) session user signed d after _ e in
    let (stored, kept) = create_session-stored (new_session now id user) d after made in
    subst (λ s. IsSession now later s signed d after) same
      (subst (λ u. IsSession now later (new_session now id user) u d after) who
        (new_session-reads now id user d after later stored kept))

if_first {ℓ} :
    {A : Type ℓ} {z : A} (b : Bool) (x y : A) → (if b then x else y) ≡ z → (y ≡ z → x ≡ z) → x ≡ z
if_first true x y e h = e
if_first false x y e h = h e

active_session-IsSession :
    (now later : ℕ) (id : Text) (o : Option Account) (signed : Account) (d after : Directory)
    (session : Session)
    → active_session now id d o ≡ (ok (session, signed), after)
    → IsSession now later session signed d after
unfolding active_session
active_session-IsSession now later id none signed d after session e =
    cc (ap (λ (q : SignIn). q.0) e)
active_session-IsSession now later id (some user) signed d after session e =
    open_session-IsSession now later id user signed d after session (
      if_first user.is_active (open_session now id user d) (err not_linked, d) e
        (λ f. cc (ap (λ (q : SignIn). q.0) f)))

-- When a sign-in through a provider succeeds, its session gives the account with the id of who signed
-- in for thirty days; later it is refused and deleted.
pub login_external_identity-IsSession :
    (now later : ℕ) (id provider subject email : Text) (d after : Directory) (session : Session)
    (user : Account)
    → login_external_identity now id provider subject email d ≡ (ok (session, user), after)
    → IsSession now later session user d after
unfolding login_external_identity login_external
login_external_identity-IsSession now later id provider subject email d after session user e =
    elim (Option-cases (link_of provider subject d.links)) [
      | inr (link, bound) ↦
          active_session-IsSession now later id _ user d after session
            (rw (login_external_identity, bound) at e)
      | inl unbound ↦ elim (Bool-cases (is_empty email)) [
        | inl nothing ↦
            cc (ap (λ (q : SignIn). q.0) (rw (login_external_identity, unbound, nothing) at e))
        | inr given ↦
            active_session-IsSession now later id _ user d after session
              (rw (login_external_identity, unbound, given) at e)
      ]
    ]

-- When a sign-in with a password succeeds, its session gives the account with the id of who signed in
-- for thirty days; later it is refused and deleted.
login-IsSession :
    (verify : Text → Text → Bool) (now later : ℕ) (id email password : Text) (d after : Directory)
    (session : Session) (user : Account)
    → login verify now id email password d ≡ (ok (session, user), after)
    → IsSession now later session user d after
unfolding login login_user
login-IsSession verify now later id email password d after session user e =
    elim (Bool-cases (password_login_enabled d.auth_settings)) [
      | inr off ↦ cc (ap (λ (q : SignIn). q.0) (rw off at e))
      | inl on ↦ elim (Option-cases (user_by_email (lower (trim_space email)) d)) [
        | inl nobody ↦ cc (ap (λ (q : SignIn). q.0) (rw (on, nobody) at e))
        | inr (who, known) ↦
            elim (Bool-cases (not who.is_active || not (verify who.password_hash password))) [
              | inl wrong ↦ cc (ap (λ (q : SignIn). q.0) (rw (on, known, wrong) at e))
              | inr right ↦
                  open_session-IsSession now later id who user d after session
                    (rw (on, known, right) at e)
            ]
      ]
    ]
