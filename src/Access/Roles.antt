-- ===== src/Access/Roles.antt =====
-- internal/app/identity/service.go: roles and levels are cumulative.
use topbase.Prelude.{
  ℕ, ◌≤◌, ◌<◌, ◌≡◌, Bool, true, List, [], ◌∷◌, Option, none, some, arith, leb, any, Result, ok, err,
}
use topbase.Text.{Text}
use topbase.Access.{
  Service, User, Collection, ProjectAccessRule, Failure, project_access_rules, permission_graph,
  granted, granted_any, ok_and, levels, rank_in, level_granted, has_capability, roles, rule_grants,
  rules_grant, can_access_project,
}

any_mono {ℓ} :
    {A : Type ℓ} (p q : A → Bool) (xs : List A)
    → ((x : A) → p x ≡ true → q x ≡ true)
    → any p xs ≡ true
    → any q xs ≡ true
any_mono p q [] h e = e
any_mono p q (x ∷ xs) h e = ground (arith, h x, any_mono p q xs h)

rule_grants_mono :
    (s : Service) (user project : Text) (low high : ℕ)
    → low ≤ high
    → (rule : ProjectAccessRule) → rule_grants s user project high rule ≡ true
    → rule_grants s user project low rule ≡ true
unfolding rule_grants
rule_grants_mono s user project low high h rule e = ground arith

ok_and_mono {ℓ} :
    {A : Type ℓ} (r : Result Failure A) (f g : A → Bool)
    → ((a : A) → f a ≡ true → g a ≡ true)
    → ok_and r f ≡ true
    → ok_and r g ≡ true
ok_and_mono (ok a) f g h e = h a e
ok_and_mono (err why) f g h e = e

rules_grant_mono :
    (s : Service) (user project : Text) (low high : ℕ)
    → low ≤ high
    → rules_grant s user project high ≡ true
    → rules_grant s user project low ≡ true
unfolding rules_grant
rules_grant_mono s user project low high h e =
    ok_and_mono (project_access_rules s) _ _
      (λ rules. any_mono _ _ rules (rule_grants_mono s user project low high h)) e

-- Who may act on a project in a role may act on it in every role of no higher rank.
pub can_access_project_mono :
    (s : Service) (user : User) (project : Collection) (required lesser : Text)
    → rank_in roles lesser ≤ rank_in roles required
    → can_access_project s user project required ≡ true
    → can_access_project s user project lesser ≡ true
unfolding can_access_project
can_access_project_mono s user project required lesser h e =
    ground
      (arith, rules_grant_mono s user.id project.id (rank_in roles lesser) (rank_in roles required))

granted_any_mono :
    (s : Service) (user capability : Text) (p q : Text → Bool)
    → ((level : Text) → p level ≡ true → q level ≡ true)
    → granted_any s user capability p ≡ true
    → granted_any s user capability q ≡ true
unfolding granted_any
granted_any_mono s user capability p q h e =
    ok_and_mono (permission_graph s) _ _
      (λ graph.
        ok_and_mono (s.groups_for_user user) _ _
          (λ groups. any_mono _ _ groups (λ group. h (granted graph capability group))))
      e

abbrev rank_of : Option (List (Text × ℕ)) → Text → ℕ
rank_of none level = 0
rank_of (some table) level = rank_in table level

-- The rank of a level in the table of a capability.
abbrev pub capability_rank : Text → Text → ℕ
capability_rank capability = rank_of (levels capability)

level_granted_mono :
    (s : Service) (user capability required lesser : Text) (o : Option (List (Text × ℕ)))
    → rank_of o lesser ≤ rank_of o required
    → 0 < rank_of o lesser
    → level_granted s user capability required o ≡ true
    → level_granted s user capability lesser o ≡ true
unfolding level_granted
level_granted_mono s user capability required lesser none h n e = e
level_granted_mono s user capability required lesser (some table) h n e = ground (
  arith,
  granted_any_mono s user capability (λ level. leb (rank_in table required) (rank_in table level))
      (λ level. leb (rank_in table lesser) (rank_in table level)) (λ level k. ground arith),
)

-- Who has a capability at a level has it at every level other than none that ranks no higher.
has_capability_mono :
    (s : Service) (user capability required lesser : Text)
    → capability_rank capability lesser ≤ capability_rank capability required
    → 0 < capability_rank capability lesser
    → has_capability s user capability required ≡ true
    → has_capability s user capability lesser ≡ true
unfolding has_capability
has_capability_mono s user capability required lesser h n e =
    ground (arith, level_granted_mono s user capability required lesser (levels capability) h n)
