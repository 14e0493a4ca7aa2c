-- ===== src/Accounts/Once.antt =====
-- internal/app/identity/service.go: the first setup is the only one.
use topbase.Prelude.{
  ◌≡◌, ap, ◌∙◌, true, ◌||◌, List, [], ◌∷◌, ◌++◌, some, is_empty, Bool-cases, inl, inr, Result, ok,
  err, Result-cases, ok-transport,
}
use topbase.Text.{Text, codes, text_eq, lookup, lower, trim_space}
use topbase.Text.Laws.{text_eq_refl}
use topbase.Accounts.{Account, Directory, Error, Write, setup_completed_already, put, set_setting}
use topbase.Accounts.Sessions.{Outcome, hash_password}
use topbase.Accounts.Setup.{
  SetupRequest, write_all, setup_completed, enrolment, with_user, enrol, enrol_hashed,
  complete_setup,
}

lookup-put :
    (key value : Text) (table : List (Text × Text)) → lookup key (put key value table) ≡ some value
unfolding lookup put
lookup-put key value [] = rw (text_eq_refl key)
lookup-put key value ((k, v) ∷ rest) = elim (Bool-cases (text_eq key k)) [
  | inl same ↦ rw (same, text_eq_refl key)
  | inr other ↦ rw other (rw (other, lookup-put key value rest))
]

set_setting-completed :
    (d after : Directory)
    → set_setting (codes "setup_completed") (codes "true") d ≡ ok after
    → setup_completed after ≡ true
unfolding set_setting setup_completed
set_setting-completed d after e =
    ok-transport (λ (x : Directory). setup_completed x ≡ true) e
      (rw (setup_completed, lookup-put (codes "setup_completed") (codes "true") d.settings)
        (text_eq_refl (codes "true")))

-- The last of several writes that all succeed.
write_all-last :
    (writes : List Write) (last : Write) (d after : Directory)
    → write_all (writes ++ last ∷ []) d ≡ (ok tt, after)
    → (before : Directory) × (last before ≡ ok after)
unfolding write_all
write_all-last [] last d after e = elim (Result-cases (last d)) [
  | inl (x, done) ↦ (d, done ∙ ap ok (ap (λ (p : Outcome Unit). p.1) (rw done at e)))
  | inr (why, failed) ↦ cc (ap (λ (p : Outcome Unit). p.0) (rw failed at e))
]
write_all-last (write ∷ writes) last d after e = elim (Result-cases (write d)) [
  | inl (x, done) ↦ write_all-last writes last x after (rw done at e)
  | inr (why, failed) ↦ cc (ap (λ (p : Outcome Unit). p.0) (rw failed at e))
]

with_user-ok :
    (user out : Account) (p : Outcome Unit) (after : Directory)
    → with_user user p ≡ (ok out, after)
    → p ≡ (ok tt, after)
unfolding with_user
with_user-ok user out (ok done, d) after e = ap (λ (q : Outcome Account). (ok tt, q.1)) e
with_user-ok user out (err why, d) after e = cc (ap (λ (q : Outcome Account). q.0) e)

enrol_hashed-completed :
    (account : Text → Account) (site : Text) (d : Directory) (hash : Result Error Text)
    (out : Account) (after : Directory)
    → enrol_hashed account site d hash ≡ (ok out, after)
    → setup_completed after ≡ true
unfolding enrol_hashed enrol
enrol_hashed-completed account site d (err why) out after e =
    cc (ap (λ (q : Outcome Account). q.0) e)
enrol_hashed-completed account site d (ok hash) out after e =
    let (before, done) =
      write_all-last (enrolment (account hash) site)
        (set_setting (codes "setup_completed") (codes "true")) d after
        (with_user-ok (account hash) out _ after e) in
    set_setting-completed before after done

complete_setup-completed :
    (digest : Text → Text) (id : Text) (input : SetupRequest) (d : Directory) (user : Account)
    (after : Directory)
    → complete_setup digest id input d ≡ (ok user, after)
    → setup_completed after ≡ true
unfolding complete_setup
complete_setup-completed digest id input d user after e = elim (Bool-cases (setup_completed d)) [
  | inl done ↦ cc (ap (λ (q : Outcome Account). q.0) (rw done at e))
  | inr fresh ↦
      elim (Bool-cases (
        is_empty (lower (trim_space input.admin_email))
        || is_empty (trim_space input.admin_name))) [
          | inl missing ↦ cc (ap (λ (q : Outcome Account). q.0) (rw (fresh, missing) at e))
          | inr given ↦
              enrol_hashed-completed _ _ d (hash_password digest input.admin_password) user after
                (rw (fresh, given) at e)
        ]
]

-- Once CompleteSetup has succeeded, it refuses every further request and leaves the tables as they
-- are.
pub complete_setup_once :
    (digest later : Text → Text) (id new : Text) (input other : SetupRequest) (d : Directory)
    (user : Account) (after : Directory)
    → complete_setup digest id input d ≡ (ok user, after)
    → complete_setup later new other after ≡ (err setup_completed_already, after)
unfolding complete_setup
complete_setup_once digest later id new input other d user after e =
    rw (complete_setup-completed digest id input d user after e)
