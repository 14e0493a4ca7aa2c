-- ===== src/Accounts/Binding.antt =====
-- internal/app/identity/service.go: what a bound identity is good for, and that an external account
-- belongs to one member.
use topbase.Prelude.{
  any-keep-not, ℕ, ◌+◌, err, if◌then◌else◌, ◌≡◌, refl, sym, ap, ◌∙◌, Bool, true, false, not, ◌&&◌,
  ◌||◌, List, [], ◌∷◌, ◌++◌, Option, none, some, any, keep, is_empty, arith, Bool-cases,
  Option-cases, inl, inr, ok, ok-transport,
}
use topbase.Text.{Text, text_eq}
use topbase.Text.Laws.{text_eq_refl, text_eq_iff}
use topbase.Accounts.{
  Account, ExternalIdentityLink, Directory, user_by_id, create_session, not_linked,
}
use topbase.Accounts.Sessions.{
  link_of, active_session, open_session, created, login_external_identity,
}
use topbase.Accounts.Links.{
  trimmed, bind_beside, bind_member, bind_trimmed, bind_external_identity, links_member,
  unbind_external_identity, links_for_user,
}

-- The external account of a link leads to the link's member.
abbrev Leads : ExternalIdentityLink → Directory → Type 0
Leads link d =
    (other : ExternalIdentityLink) × (link_of link.provider_id link.subject d.links ≡ some other)
    × (other.user_id ≡ link.user_id)
    × ((user : Account) × (user_by_id link.user_id d ≡ some user))

link_of-last :
    (link : ExternalIdentityLink) (links : List ExternalIdentityLink)
    → link_of link.provider_id link.subject links ≡ none
    → link_of link.provider_id link.subject (links ++ link ∷ []) ≡ some link
unfolding link_of
link_of-last link [] h = ground (arith, text_eq_refl link.provider_id, text_eq_refl link.subject)
link_of-last link (x ∷ links) h =
    elim (Bool-cases (text_eq x.provider_id link.provider_id && text_eq x.subject link.subject)) [
      | inl same ↦ cc (rw same at h)
      | inr other ↦ rw other (link_of-last link links (rw other at h))
    ]

bind_beside-Leads :
    (link : ExternalIdentityLink) (d after : Directory) (o : Option ExternalIdentityLink)
    (user : Account)
    → link_of link.provider_id link.subject d.links ≡ o
    → user_by_id link.user_id d ≡ some user
    → bind_beside link d o ≡ ok after
    → Leads link after
unfolding bind_beside user_by_id
bind_beside-Leads link d after none user fresh known e =
    ok-transport (Leads link) e (link, link_of-last link d.links fresh, refl, (user, known))
bind_beside-Leads link d after (some other) user bound known e =
    elim (Bool-cases (text_eq other.user_id link.user_id)) [
      | inl same ↦
          ok-transport (Leads link) (rw same at e)
            (other, bound, (text_eq_iff other.user_id link.user_id).0 same, (user, known))
      | inr differ ↦ cc (rw differ at e)
    ]

bind_external_identity-Leads :
    (link : ExternalIdentityLink) (d after : Directory)
    → bind_external_identity link d ≡ ok after
    → Leads (trimmed link) after
unfolding bind_external_identity bind_trimmed bind_member
bind_external_identity-Leads link d after e =
    let l = trimmed link in
    elim (Bool-cases (is_empty l.provider_id || is_empty l.subject || is_empty l.user_id)) [
      | inl missing ↦ cc (rw missing at e)
      | inr given ↦ elim (Option-cases (user_by_id l.user_id d)) [
        | inl nobody ↦ cc (rw (given, nobody) at e)
        | inr (user, known) ↦
            bind_beside-Leads l d after (link_of l.provider_id l.subject d.links) user refl known
              (rw (given, known) at e)
      ]
    ]

-- A binding that succeeds is to a member there is. In the tables it leaves, a sign-in by that external
-- account is this member's and nobody else's: under a new id it opens a session of the member, which
-- ends in 30 days, if the member is active, and is refused otherwise.
pub bind_external_identity-login :
    (link : ExternalIdentityLink) (d after : Directory) (now : ℕ) (id email : Text)
    → bind_external_identity link d ≡ ok after
    → any (λ s. text_eq s.id id) after.sessions ≡ false
    → (user : Account) × (user_by_id (trimmed link).user_id after ≡ some user)
      × (login_external_identity now id
            (trimmed link).provider_id
            (trimmed link).subject
            email
            after
          ≡ (if user.is_active
              then (
                ok (record { id = id; user_id = user.id; expires_at = now + 2592000 }, user),
                record after {
                  sessions =
                      after.sessions
                      ++ record { id = id; user_id = user.id; expires_at = now + 2592000 } ∷ [];
                },
              )
              else (err not_linked, after)))
unfolding login_external_identity active_session open_session created create_session
bind_external_identity-login link d after now id email e fresh =
    let (other, bound, same, (user, known)) = bind_external_identity-Leads link d after e in
    (user, known, rw (login_external_identity, bound, same, known, fresh) refl)

-- No external account has two links.
abbrev pub AreUnique : List ExternalIdentityLink → Type 0
AreUnique [] = Unit
AreUnique (link ∷ links) = (link_of link.provider_id link.subject links ≡ none) × AreUnique links

link_of-append :
    (x link : ExternalIdentityLink) (links : List ExternalIdentityLink)
    → link_of x.provider_id x.subject links ≡ none
    → (text_eq link.provider_id x.provider_id && text_eq link.subject x.subject) ≡ false
    → link_of x.provider_id x.subject (links ++ link ∷ []) ≡ none
unfolding link_of
link_of-append x link [] h k = rw k
link_of-append x link (y ∷ links) h k =
    elim (Bool-cases (text_eq y.provider_id x.provider_id && text_eq y.subject x.subject)) [
      | inl same ↦ cc (rw same at h)
      | inr other ↦ rw other (link_of-append x link links (rw other at h) k)
    ]

append-AreUnique :
    (link : ExternalIdentityLink) (links : List ExternalIdentityLink)
    → AreUnique links
    → link_of link.provider_id link.subject links ≡ none
    → AreUnique (links ++ link ∷ [])
unfolding link_of
append-AreUnique link [] u h = (refl, tt)
append-AreUnique link (x ∷ links) (fresh, u) h =
    elim (Bool-cases (text_eq x.provider_id link.provider_id && text_eq x.subject link.subject)) [
      | inl same ↦ cc (rw same at h)
      | inr other ↦ (
        link_of-append x link links fresh (
            ground (
              arith,
              text_eq_iff x.provider_id link.provider_id,
              text_eq_iff link.provider_id x.provider_id,
              text_eq_iff x.subject link.subject,
              text_eq_iff link.subject x.subject,
            )),
        append-AreUnique link links u (rw other at h),
      )
    ]

bind_beside-AreUnique :
    (link : ExternalIdentityLink) (d after : Directory) (o : Option ExternalIdentityLink)
    → link_of link.provider_id link.subject d.links ≡ o
    → AreUnique d.links
    → bind_beside link d o ≡ ok after
    → AreUnique after.links
unfolding bind_beside
bind_beside-AreUnique link d after none fresh u e =
    ok-transport (λ (x : Directory). AreUnique x.links) e (append-AreUnique link d.links u fresh)
bind_beside-AreUnique link d after (some other) bound u e =
    elim (Bool-cases (text_eq other.user_id link.user_id)) [
      | inl same ↦ ok-transport (λ (x : Directory). AreUnique x.links) (rw same at e) u
      | inr differ ↦ cc (rw differ at e)
    ]

-- Binding an identity keeps it so that no external account has two links.
pub bind_external_identity-AreUnique :
    (link : ExternalIdentityLink) (d after : Directory)
    → AreUnique d.links
    → bind_external_identity link d ≡ ok after
    → AreUnique after.links
unfolding bind_external_identity bind_trimmed bind_member
bind_external_identity-AreUnique link d after u e =
    let l = trimmed link in
    elim (Bool-cases (is_empty l.provider_id || is_empty l.subject || is_empty l.user_id)) [
      | inl missing ↦ cc (rw missing at e)
      | inr given ↦ elim (Option-cases (user_by_id l.user_id d)) [
        | inl nobody ↦ cc (rw (given, nobody) at e)
        | inr (user, known) ↦
            bind_beside-AreUnique l d after (link_of l.provider_id l.subject d.links) refl u
              (rw (given, known) at e)
      ]
    ]

other_member-link :
    (user provider other : Text) (link : ExternalIdentityLink)
    → text_eq user other ≡ false
    → text_eq link.user_id other ≡ true
    → links_member user provider link ≡ false
unfolding links_member
other_member-link user provider other link differ same =
    ground
      (arith, text_eq_iff link.user_id other, text_eq_iff link.user_id user, text_eq_iff user other)

keep-keep-not {ℓ} :
    {A : Type ℓ} (p q : A → Bool) (xs : List A)
    → ((x : A) → q x ≡ true → p x ≡ false)
    → keep q (keep (λ x. not (p x)) xs) ≡ keep q xs
keep-keep-not p q [] h = refl
keep-keep-not p q (x ∷ xs) h = elim (Bool-cases (p x)) [
  | inl dropped ↦ elim (Bool-cases (q x)) [
    | inl wanted ↦ cc (sym dropped ∙ h x wanted)
    | inr unwanted ↦ rw (dropped, unwanted) (keep-keep-not p q xs h)
  ]
  | inr stays ↦ elim (Bool-cases (q x)) [
    | inl wanted ↦ rw stays (rw wanted (ap (λ ys. x ∷ ys) (keep-keep-not p q xs h)))
    | inr unwanted ↦ rw stays (rw unwanted (keep-keep-not p q xs h))
  ]
]

-- Unbinding takes away every link of the member with the provider, and no link of another member.
pub unbind_external_identity-links_for_user :
    (user provider other : Text) (d after : Directory)
    → text_eq user other ≡ false
    → unbind_external_identity user provider d ≡ ok after
    → (any (links_member user provider) after.links ≡ false)
      × (links_for_user other after ≡ links_for_user other d)
unfolding unbind_external_identity links_for_user
unbind_external_identity-links_for_user user provider other d after differ e =
    elim (Bool-cases (any (links_member user provider) d.links)) [
      | inl some_link ↦
          ok-transport
            (λ (x : Directory).
              (any (links_member user provider) x.links ≡ false)
              × (keep (λ link. text_eq link.user_id other) x.links ≡ links_for_user other d))
            (rw some_link at e)
            (
              any-keep-not (links_member user provider) d.links,
              keep-keep-not (links_member user provider) (λ link. text_eq link.user_id other)
                  d.links (λ link. other_member-link user provider other link differ),
            )
      | inr nothing ↦ cc (rw nothing at e)
    ]
