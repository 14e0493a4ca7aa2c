-- ===== src/Warehouse/Confirmed.antt =====
-- internal/app/warehouse/service.go: what a run may write to.
use topbase.Prelude.{
  some-injective, ◌≡◌, refl, ap, ◌⊎◌, inl, inr, Bool, true, false, ℕ, subst, ◌∷◌, ◌==◌, [], none,
  Option-cases, ◌++◌, Option, some, Result, ok, err, guard, is_empty, if◌then◌else◌, >>=-eq-ok,
  >>-eq-ok, guard-eq-ok, Result-cases, ok-transport, Bool-cases, arith,
}
use topbase.Text.{Text, codes, text_eq, one_of, has_prefix, has_rune, trim_space}
use topbase.Text.Laws.{text_eq_iff}
use topbase.Text.Parts.{split_last}
use topbase.QueryIr.{Query}
use topbase.QueryIr.Values.{ℤ}
use topbase.QueryIr.Identifier.{is_ident}
use topbase.Compile.Statement.{Compiled}
use topbase.Warehouse.{Error, confirm_required, Schedule, Run, MaterializeSpec, MaterializeResult}
use topbase.Warehouse.Target.{in_schema, prefixed, checked, parse_target}
use topbase.Warehouse.Source.{Statement}
use topbase.Warehouse.Create.{Stores, schedule_by_id, source_question, may_write}
use topbase.Warehouse.Running.{
  Turn, Plan, spec_of, plan, plan_for, sourced, targeted, confirmed, write, run_body, run_schedule,
  begun, add_run, enter, leave,
}

-- Identifiers, of which the table's begins with "wh_".
abbrev pub IsTarget : Text × Text → Type 0
IsTarget (schema, table) =
    (is_ident schema ≡ true) × (is_ident table ≡ true) × (has_prefix (codes "wh_") table ≡ true)

has_prefix-behind : (t : Text) → has_prefix (codes "wh_") (codes "wh_" ++ t) ≡ true
unfolding has_prefix
has_prefix-behind t = refl

has_prefix-prefixed : (t : Text) → has_prefix (codes "wh_") (prefixed t) ≡ true
unfolding prefixed
has_prefix-prefixed t = elim (Bool-cases (has_prefix (codes "wh_") t)) [
  | inl there ↦ rw there there
  | inr missing ↦ rw missing (has_prefix-behind t)
]

checked-IsTarget :
    (parts : Text × Text) {target : Text × Text} → checked parts ≡ ok target → IsTarget target
unfolding checked
checked-IsTarget (schema, table) e =
    let (s, rest) = >>-eq-ok _ _ e in
    let (t, last) = >>-eq-ok _ _ rest in
    ok-transport IsTarget last (guard-eq-ok _ _ s, guard-eq-ok _ _ t, has_prefix-prefixed table)

-- A schema and a table that a schedule names are identifiers, and the table's begins with "wh_".
pub parse_target-IsTarget :
    (raw : Text) {target : Text × Text} → parse_target raw ≡ ok target → IsTarget target
unfolding parse_target
parse_target-IsTarget raw = elim (Bool-cases (is_empty (trim_space raw))) [
  | inl blank ↦ rw blank (λ e. cc)
  | inr given ↦
      rw given (checked-IsTarget (in_schema (trim_space raw) (split_last b'.' (trim_space raw))))
]

if_same {ℓ} :
    {A : Type ℓ} (b : Bool) (x : A) {y z : A} → y ≡ z → (if b then x else y) ≡ (if b then x else z)
if_same b x e = ap (λ y. if b then x else y) e

-- What a trimmed text names: a table of the schema "warehouse", or a schema and a table with the last
-- dot between them; the table gets "wh_" in front if it is not there.
abbrev pub IsNamedBy : Text → Text × Text → Type 0
IsNamedBy raw (schema, table) =
    (name : Text) × (((raw ≡ name) × (has_rune b'.' raw ≡ false) × (schema ≡ codes "warehouse"))
      ⊎ ((raw ≡ schema ++ (b'.' ∷ name)) × (has_rune b'.' name ≡ false)))
    × (table ≡ (if has_prefix (codes "wh_") name then name else codes "wh_" ++ name))

split_last-none : (sep : ℕ) (t : Text) → split_last sep t ≡ none → has_rune sep t ≡ false
unfolding split_last has_rune
split_last-none sep [] h = refl
split_last-none sep (c ∷ t) h = elim (Option-cases (split_last sep t)) [
  | inr (parts, e) ↦ cc (rw e at h)
  | inl none_ ↦ elim (Bool-cases (c == sep)) [
    | inl here ↦ cc (rw (none_, here) at h)
    | inr away ↦ ground (arith, away, split_last-none sep t none_)
  ]
]

pub split_last-some :
    (sep : ℕ) (t : Text) (parts : Text × Text)
    → split_last sep t ≡ some parts
    → (t ≡ parts.0 ++ (sep ∷ parts.1)) × (has_rune sep parts.1 ≡ false)
unfolding split_last
split_last-some sep [] parts h = cc
split_last-some sep (c ∷ t) parts h = elim (Option-cases (split_last sep t)) [
  | inr (found, e) ↦
      let (shape, rest) = split_last-some sep t found e in
      subst (λ p. (c ∷ t ≡ p.0 ++ (sep ∷ p.1)) × (has_rune sep p.1 ≡ false))
        (some-injective (rw e at h)) (ap (λ u. c ∷ u) shape, rest)
  | inl none_ ↦ elim (Bool-cases (c == sep)) [
    | inr away ↦ cc (rw (none_, away) at h)
    | inl here ↦
        subst (λ p. (c ∷ t ≡ p.0 ++ (sep ∷ p.1)) × (has_rune sep p.1 ≡ false))
          (some-injective (rw (none_, here) at h))
          (ap (λ d. d ∷ t) (ground arith), split_last-none sep t none_)
  ]
]

checked-IsNamedBy :
    (raw : Text) (o : Option (Text × Text)) {target : Text × Text}
    → split_last b'.' raw ≡ o
    → checked (in_schema raw o) ≡ ok target
    → IsNamedBy raw target
unfolding checked prefixed
checked-IsNamedBy raw none e h =
    let (s, rest) = >>-eq-ok _ _ h in
    let (t, last) = >>-eq-ok _ _ rest in
    ok-transport (IsNamedBy raw) last (raw, inl (refl, split_last-none b'.' raw e, refl), refl)
checked-IsNamedBy raw (some (schema, name)) e h =
    let (s, rest) = >>-eq-ok _ _ h in
    let (t, last) = >>-eq-ok _ _ rest in
    ok-transport (IsNamedBy raw) last (name, inr (split_last-some b'.' raw (schema, name) e), refl)

parse_target-IsNamedBy :
    (raw : Text) {target : Text × Text}
    → parse_target raw ≡ ok target
    → IsNamedBy (trim_space raw) target
unfolding parse_target
parse_target-IsNamedBy raw = elim (Bool-cases (is_empty (trim_space raw))) [
  | inl blank ↦ rw blank (λ e. cc)
  | inr given ↦
      rw given (checked-IsNamedBy (trim_space raw) (split_last b'.' (trim_space raw)) refl)
]

-- What a run of the schedule may be asked to write.
abbrev pub Allowed : Stores → Text → MaterializeSpec → Type 0
Allowed s id spec =
    (schedule : Schedule) × (schedule_by_id id s.schedules ≡ ok schedule)
    × IsNamedBy (trim_space schedule.materialize_to) (spec.schema, spec.table)
    × IsTarget (spec.schema, spec.table)
    × ((spec.schema ≡ codes "warehouse") ⊎ (schedule.confirm_source_write ≡ true))

may_write-cases :
    (schema : Text) (confirmed : Bool)
    → may_write schema confirmed ≡ true
    → (schema ≡ codes "warehouse") ⊎ (confirmed ≡ true)
may_write-cases schema confirmed h = elim (Bool-cases (text_eq schema (codes "warehouse"))) [
  | inl same ↦ inl ((text_eq_iff schema (codes "warehouse")).0 same)
  | inr other ↦ inr (ground arith)
]

module _ (days_before : ℤ → Text) (compiler : Option (Query → Result Error Compiled)) where
  plan-Allowed :
      (s : Stores) (id : Text) (p : Plan) (st : Statement)
      → plan days_before compiler s id ≡ ok p
      → Allowed s id (spec_of p st)
  unfolding plan spec_of plan_for
  plan-Allowed s id p st e =
      let (schedule, there, e1) =
        >>=-eq-ok (schedule_by_id id s.schedules) (sourced days_before compiler s) e in
      let (question, source, e2) =
        >>=-eq-ok (source_question s schedule) (targeted days_before compiler s schedule) e1 in
      let (target, parsed, e3) =
        >>=-eq-ok (parse_target schedule.materialize_to)
          (confirmed days_before compiler s schedule question) e2 in
      let (may, e4) =
        >>-eq-ok (guard (may_write target.0 schedule.confirm_source_write) confirm_required)
          (ok (plan_for days_before compiler s schedule question target)) e3 in
      ok-transport (λ p. Allowed s id (spec_of p st)) e4
        (
          schedule,
          there,
          parse_target-IsNamedBy schedule.materialize_to parsed,
          parse_target-IsTarget schedule.materialize_to parsed,
          may_write-cases target.0 schedule.confirm_source_write (guard-eq-ok _ _ may),
        )

write_eq :
    (w v : MaterializeSpec → Result Error MaterializeResult) (turn : Turn) (run : Run) (p : Plan)
    (st : Result Error Statement) (s : Stores)
    → ((t : Statement) → w (spec_of p t) ≡ v (spec_of p t))
    → write (some w) turn run p st s ≡ write (some v) turn run p st s
unfolding write
write_eq w v turn run p (err why) s h = refl
write_eq w v turn run p (ok t) s h = rw (h t) refl

module _ (days_before : ℤ → Text) (compiler : Option (Query → Result Error Compiled)) where
  run_body_eq :
      (w v : MaterializeSpec → Result Error MaterializeResult) (turn : Turn) (id : Text)
      (s : Stores)
      → ((spec : MaterializeSpec) → Allowed s id spec → w spec ≡ v spec)
      → run_body days_before compiler (some w) turn id s
        ≡ run_body days_before compiler (some v) turn id s
  unfolding run_body
  run_body_eq w v turn id s h = elim (Result-cases (plan days_before compiler s id)) [
    | inl (p, e) ↦
        rw (run_body, e)
          (write_eq w v turn (begun turn p) p p.statement (add_run (begun turn p) s)
            (λ t. h (spec_of p t) (plan-Allowed days_before compiler s id p t e)))
    | inr (why, e) ↦ rw (run_body, e) refl
  ]

  -- A run asks the writer only for the target that its schedule's materialize_to names, as schema.table
  -- or as a table of the schema "warehouse", with "wh_" put in front of the table if it is missing. Both
  -- are identifiers, and another schema than "warehouse" is one that the schedule confirms: what the
  -- writer would do with another request makes no difference.
  pub run_schedule-Allowed :
      (w v : MaterializeSpec → Result Error MaterializeResult) (turn : Turn) (id : Text)
      (s : Stores)
      → ((spec : MaterializeSpec) → Allowed s id spec → w spec ≡ v spec)
      → run_schedule days_before compiler (some w) turn id s
        ≡ run_schedule days_before compiler (some v) turn id s
  unfolding run_schedule
  run_schedule-Allowed w v turn id s h =
      if_same (one_of s.active id) _ (ap (leave id) (run_body_eq w v turn id (enter id s) h))
