-- ===== src/Warehouse/Settled.antt =====
-- internal/app/warehouse/service.go: what a run leaves behind.
use topbase.Prelude.{
  ◌≡◌, refl, sym, ap, ◌∙◌, ◌⊎◌, inl, inr, Bool, true, false, not, List, [], ◌∷◌, ◌++◌, keep, any,
  All, All-append, Option, none, some, Result, ok, err, Bool-cases, ||-neither, Result-cases,
}
use topbase.Text.{Text, text_eq, one_of}
use topbase.Text.Laws.{text_eq_refl}
use topbase.QueryIr.{Query}
use topbase.QueryIr.Values.{ℤ}
use topbase.Compile.Statement.{Compiled}
use topbase.Warehouse.{Error, Schedule, Run, running, MaterializeSpec, MaterializeResult}
use topbase.Warehouse.Source.{Statement}
use topbase.Warehouse.Create.{Stores}
use topbase.Warehouse.Running.{
  Turn, Plan, Outcome, refused, ended, put_run, fail, succeed, spec_of, plan, write, run_body,
  run_schedule, begun, add_run, enter, leave,
}

abbrev pub IsOver : Run → Type 0
IsOver r = elim r.status [ running ↦ ⊥ | s ↦ Unit ]

abbrev MayBeReplaced : Run → Run → Type 0
MayBeReplaced run r = IsOver r ⊎ (text_eq r.id run.id ≡ true)

put_run-IsOver :
    (run : Run) (runs : List Run)
    → IsOver run
    → All (MayBeReplaced run) runs
    → All IsOver (put_run run runs)
unfolding put_run
put_run-IsOver run [] over h = tt
put_run-IsOver run (r ∷ runs) over (p, h) = (
  elim (Bool-cases (text_eq r.id run.id)) [
    | inl same ↦ rw same over
    | inr other ↦ rw other (stays p other)
  ],
  put_run-IsOver run runs over h,
)
  where
    stays : MayBeReplaced run r → text_eq r.id run.id ≡ false → IsOver r
    stays (inl done) other = done
    stays (inr same) other = cc (sym same ∙ other)

may_be_replaced : (run : Run) (runs : List Run) → All IsOver runs → All (MayBeReplaced run) runs
may_be_replaced run [] h = tt
may_be_replaced run (r ∷ runs) (p, h) = (inl p, may_be_replaced run runs h)

put_run-behind :
    (over run : Run) (runs : List Run)
    → text_eq run.id over.id ≡ true
    → IsOver over
    → All IsOver runs
    → All IsOver (put_run over (runs ++ run ∷ []))
put_run-behind over run runs same done h =
    put_run-IsOver over (runs ++ run ∷ []) done
      (All-append (MayBeReplaced over) runs (run ∷ []) (may_be_replaced over runs h) (inr same, tt))

abbrev OutcomeIsOver : Outcome → Type 0
OutcomeIsOver (refused why) = Unit
OutcomeIsOver (ended run why) = IsOver run

-- The state and the outcome after a call that began in the state `s`.
abbrev pub IsSettled : Stores → Outcome × Stores → Type 0
IsSettled s (out, t) = OutcomeIsOver out × All IsOver t.runs × (t.active ≡ s.active)

fail-IsSettled :
    (turn : Turn) (run : Run) (schedule : Schedule) (why : Error) (s : Stores)
    → All IsOver s.runs
    → IsSettled s (fail turn run schedule why (add_run run s))
unfolding fail
fail-IsSettled turn run schedule why s h =
    (tt, put_run-behind _ run s.runs (text_eq_refl run.id) tt h, refl)

succeed-IsSettled :
    (turn : Turn) (run : Run) (p : Plan) (database : Text) (result : MaterializeResult) (s : Stores)
    → All IsOver s.runs
    → IsSettled s (succeed turn run p database result (add_run run s))
unfolding succeed
succeed-IsSettled turn run p database result s h =
    (tt, put_run-behind _ run s.runs (text_eq_refl run.id) tt h, refl)

write-IsSettled :
    (w : Option (MaterializeSpec → Result Error MaterializeResult)) (turn : Turn) (run : Run)
    (p : Plan) (st : Result Error Statement) (s : Stores)
    → All IsOver s.runs
    → IsSettled s (write w turn run p st (add_run run s))
unfolding write
write-IsSettled w turn run p (err why) s h = fail-IsSettled turn run p.schedule why s h
write-IsSettled none turn run p (ok st) s h = fail-IsSettled turn run p.schedule _ s h
write-IsSettled (some w) turn run p (ok st) s h = elim (Result-cases (w (spec_of p st))) [
  | inl (result, e) ↦ rw (write, e) (succeed-IsSettled turn run p st.2 result s h)
  | inr (why, e) ↦ rw (write, e) (fail-IsSettled turn run p.schedule why s h)
]

keep-not {ℓ} :
    {A : Type ℓ} (p : A → Bool) (xs : List A) → any p xs ≡ false → keep (λ x. not (p x)) xs ≡ xs
keep-not p [] h = refl
keep-not p (x ∷ xs) h =
    let (first, rest) = ||-neither (p x) (any p xs) h in rw (first, keep-not p xs rest) refl

leave-enter :
    (id : Text) (xs : List Text)
    → one_of xs id ≡ false
    → keep (λ other. not (text_eq id other)) (id ∷ xs) ≡ xs
unfolding one_of
leave-enter id xs idle = rw (text_eq_refl id, keep-not (text_eq id) xs idle) refl

module _ (days_before : ℤ → Text) (compiler : Option (Query → Result Error Compiled))
    (writer : Option (MaterializeSpec → Result Error MaterializeResult)) where
  run_body-IsSettled :
      (turn : Turn) (id : Text) (s : Stores)
      → All IsOver s.runs
      → IsSettled s (run_body days_before compiler writer turn id s)
  unfolding run_body
  run_body-IsSettled turn id s h = elim (Result-cases (plan days_before compiler s id)) [
    | inl (p, e) ↦ rw (run_body, e) (write-IsSettled writer turn (begun turn p) p p.statement s h)
    | inr (why, e) ↦ rw (run_body, e) (tt, h, refl)
  ]

  -- After a run no stored run is left "running", whatever it came to, and the schedule may run again:
  -- the schedules that are running are those that were before the call.
  pub run_schedule-IsSettled :
      (turn : Turn) (id : Text) (s : Stores)
      → All IsOver s.runs
      → IsSettled s (run_schedule days_before compiler writer turn id s)
  unfolding run_schedule
  run_schedule-IsSettled turn id s h = elim (Bool-cases (one_of s.active id)) [
    | inl busy ↦ rw (run_schedule, busy) (tt, h, refl)
    | inr idle ↦
        rw (run_schedule, idle)
          (left_behind (run_body days_before compiler writer turn id (enter id s))
            (run_body-IsSettled turn id (enter id s) h) idle)
  ]
    where
      left_behind :
          (r : Outcome × Stores)
          → IsSettled (enter id s) r
          → one_of s.active id ≡ false
          → IsSettled s (leave id r)
      left_behind (out, t) (over, runs, same) idle = (
        over,
        runs,
        ap (λ xs. keep (λ other. not (text_eq id other)) xs) same ∙ leave-enter id s.active idle,
      )
