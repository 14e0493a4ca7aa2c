-- ===== src/Accounts/Groups/Membership.antt =====
-- internal/adapters/appdb/w4b.go: who is a member of a group after its members were replaced.
use topbase.Prelude.{
  ◌≡◌, refl, sym, ap, ◌∙◌, false, not, ◌&&◌, ◌||◌, List, [], ◌∷◌, ◌++◌, if◌then◌else◌, any,
  any-append, keep, Bool-cases, inl, inr, ok, arith,
}
use topbase.Text.{Text, text_eq, one_of}
use topbase.Text.Laws.{text_eq_iff, text_eq_sym}
use topbase.Accounts.{Directory, same_pair, has_member, add_member}
use topbase.Accounts.Groups.{delete_members, add_members, replace_members}

-- The rows of group_members after one row, several rows, and after a group's rows were removed.
unfoldable pub with_pair : Text → Text → List (Text × Text) → List (Text × Text)
with_pair group user rows =
    if any (same_pair group user) rows then rows else rows ++ (group, user) ∷ []

unfoldable pub joined : Text → List Text → List (Text × Text) → List (Text × Text)
joined group [] rows = rows
joined group (user ∷ users) rows = joined group users (with_pair group user rows)

unfoldable pub left : Text → List (Text × Text) → List (Text × Text)
left group rows = keep (λ p. not (text_eq (p.0) group)) rows

add_members-joined :
    (group : Text) (users : List Text) (d : Directory)
    → add_members group users d ≡ ok (record d { members = joined group users d.members })
unfolding add_members joined add_member has_member with_pair
add_members-joined group [] d = refl
add_members-joined group (user ∷ users) d =
    elim (Bool-cases (any (same_pair group user) d.members)) [
      | inl there ↦ rw there (add_members-joined group users d)
      | inr fresh ↦
          rw fresh (
            add_members-joined group users (record d { members = d.members ++ (group, user) ∷ [] }))
    ]

pub replace_members-rows :
    (group : Text) (users : List Text) (d : Directory)
    → replace_members group users d
      ≡ ok (record d { members = joined group users (left group d.members) })
unfolding replace_members delete_members left
replace_members-rows group users d = add_members-joined group users (delete_members group d)

with_pair-has :
    (g u h v : Text) (rows : List (Text × Text))
    → any (same_pair h v) (with_pair g u rows)
      ≡ (any (same_pair h v) rows || (text_eq g h && text_eq u v))
unfolding with_pair same_pair
with_pair-has g u h v rows = elim (Bool-cases (any (same_pair g u) rows)) [
  | inl there ↦ rw there (elim (Bool-cases (text_eq g h && text_eq u v)) [
    | inl both ↦ ground (arith, text_eq_iff g h, text_eq_iff u v)
    | inr apart ↦ ground arith
  ])
  | inr fresh ↦ rw (fresh, any-append (same_pair h v) rows ((g, u) ∷ [])) (ground arith)
]

joined-has :
    (g h v : Text) (users : List Text) (rows : List (Text × Text))
    → any (same_pair h v) (joined g users rows)
      ≡ (any (same_pair h v) rows || (text_eq g h && one_of users v))
unfolding joined one_of
joined-has g h v [] rows = ground arith
joined-has g h v (u ∷ users) rows =
    rw (joined-has g h v users (with_pair g u rows), with_pair-has g u h v rows, text_eq_sym v u)
      (ground arith)

left-has :
    (g h v : Text) (rows : List (Text × Text))
    → any (same_pair h v) (left g rows) ≡ (not (text_eq g h) && any (same_pair h v) rows)
unfolding left same_pair
left-has g h v [] = ground arith
left-has g h v ((x, y) ∷ rows) = elim (Bool-cases (text_eq x g)) [
  | inl hit ↦ rw (hit, left-has g h v rows, (text_eq_iff x g).0 hit) (ground arith)
  | inr miss ↦ elim (Bool-cases (text_eq x h)) [
    | inl same ↦
        let apart : text_eq g h ≡ false =
          text_eq_sym g h ∙ ap (λ s. text_eq s g) (sym ((text_eq_iff x h).0 same)) ∙ miss in
        rw (miss, left-has g h v rows, same, apart) (ground arith)
    | inr other ↦ rw (miss, left-has g h v rows, other) (ground arith)
  ]
]

-- Behind a replacement, the group has the given members and each other group the ones it had.
pub replaced-has :
    (g h v : Text) (users : List Text) (rows : List (Text × Text))
    → any (same_pair h v) (joined g users (left g rows))
      ≡ (if text_eq g h then one_of users v else any (same_pair h v) rows)
replaced-has g h v users rows =
    rw (joined-has g h v users (left g rows), left-has g h v rows) (ground arith)
