-- ===== src/Warehouse/Strategies.antt =====
-- internal/adapters/warehouse.go: what each strategy makes of the target table.
use topbase.Prelude.{
  ◌≡◌, refl, Bool, true, false, List, [], ◌∷◌, ◌++◌, if◌then◌else◌, Option, none, some, inl, inr,
  All, if_either, Bool-cases, Option-cases, arith,
}
use topbase.Text.{Text, codes, text_eq}
use topbase.Text.Laws.{text_eq_refl}
use topbase.QueryIr.Values.{Value}
use topbase.Warehouse.Writer.{
  Statement, create_schema, drop_if_exists, drop, truncate, create_as, insert_from, rename,
  statements, temporary,
}

-- The tables of a schema, each with its rows.
abbrev pub Tables : Type 0 → Type 0
Tables Row = Text → Option (List Row)

module _ {Row : Type 0} where
  abbrev pub set_table : Text → Option (List Row) → Tables Row → Tables Row
  set_table t rows tables u = if text_eq u t then rows else tables u

  abbrev pub rows_or_none : Option (List Row) → List Row
  rows_or_none none = []
  rows_or_none (some rows) = rows

  -- What PostgreSQL's manual says a statement does to the tables; `select` is what a query gives.
  unfoldable pub effect : (Text → List Value → List Row) → Statement → Tables Row → Tables Row
  effect select create_schema tables = tables
  effect select (drop_if_exists t) tables = set_table t none tables
  effect select (drop t) tables = set_table t none tables
  effect select (truncate t) tables = set_table t (some []) tables
  effect select (create_as t sql args) tables = set_table t (some (select sql args)) tables
  effect select (insert_from t u) tables =
      set_table t (some (rows_or_none (tables t) ++ rows_or_none (tables u))) tables
  effect select (rename t u) tables = set_table t none (set_table u (tables t) tables)

  -- What a strategy promises: the rows of the target, from those it had, if any, and the new ones.
  unfoldable pub kept_rows : Text → Option (List Row) → List Row → List Row
  kept_rows strategy none new = new
  kept_rows strategy (some old) new =
      if text_eq strategy (codes "create_only")
      then old
      else if text_eq strategy (codes "truncate_insert")
      then new
      else if text_eq strategy (codes "incremental")
      then old ++ new
      else new

  abbrev pub is_there : Option (List Row) → Bool
  is_there none = false
  is_there (some rows) = true

  -- The tables behind a list of statements, where every statement acts on them as it should.
  abbrev pub effects : (Text → List Value → List Row) → List Statement → Tables Row → Tables Row
  effects select [] tables = tables
  effects select (st ∷ sts) tables = effects select sts (effect select st tables)

  -- What becomes of the target and of the temporary table.
  abbrev pub Leaves :
      (Text → List Value → List Row) → List Statement → Tables Row → Text → Text → List Row → Type 0
  Leaves select sts tables table tmp rows =
      (effects select sts tables table ≡ some rows) × (effects select sts tables tmp ≡ none)

  module _ (select : Text → List Value → List Row) (table tmp : Text) (tables : Tables Row)
      (new : List Row) (h : text_eq table tmp ≡ false) (k : text_eq tmp table ≡ false)
      (e : tables tmp ≡ some new) where
    renamed_rows : Leaves select (rename tmp table ∷ []) tables table tmp new
    unfolding effect
    renamed_rows = (simp (h, e, text_eq_refl table), simp (text_eq_refl tmp))

    replaced_rows :
        Leaves select (drop_if_exists table ∷ rename tmp table ∷ []) tables table tmp new
    unfolding effect
    replaced_rows = (simp (h, k, e, text_eq_refl table), simp (text_eq_refl tmp))

    module _ (old : List Row) (there : tables table ≡ some old) where
      dropped_rows : Leaves select (drop tmp ∷ []) tables table tmp old
      unfolding effect
      dropped_rows = (simp (h, there), simp (text_eq_refl tmp))

      truncated_rows :
          Leaves select
            (truncate table ∷ insert_from table tmp ∷ drop tmp ∷ [])
            tables
            table
            tmp
            new
      unfolding effect
      truncated_rows = (simp (h, k, e, text_eq_refl table), simp (text_eq_refl tmp))

      inserted_rows :
          Leaves select (insert_from table tmp ∷ drop tmp ∷ []) tables table tmp (old ++ new)
      unfolding effect
      inserted_rows = (simp (h, there, e, text_eq_refl table), simp (text_eq_refl tmp))

    pub statements-kept_rows :
        (strategy : Text)
        → Leaves select
            (statements strategy (is_there (tables table)) table tmp)
            tables
            table
            tmp
            (kept_rows strategy (tables table) new)
    unfolding statements kept_rows
    statements-kept_rows strategy = elim (Bool-cases (text_eq strategy (codes "create_only"))) [
      | inl create ↦ elim (Option-cases (tables table)) [
        | inl gone ↦ rw (gone, create) renamed_rows
        | inr (old, there) ↦ rw (there, create) (dropped_rows old there)
      ]
      | inr other ↦ elim (Bool-cases (text_eq strategy (codes "truncate_insert"))) [
        | inl insert ↦ elim (Option-cases (tables table)) [
          | inl gone ↦ rw (gone, other, insert) renamed_rows
          | inr (old, there) ↦ rw (there, other, insert) (truncated_rows old there)
        ]
        | inr another ↦ elim (Bool-cases (text_eq strategy (codes "incremental"))) [
          | inl grow ↦ elim (Option-cases (tables table)) [
            | inl gone ↦ rw (gone, other, another, grow) renamed_rows
            | inr (old, there) ↦ rw (there, other, another, grow) (inserted_rows old there)
          ]
          | inr last ↦ elim (Option-cases (tables table)) [
            | inl gone ↦ rw (gone, other, another, last) replaced_rows
            | inr (old, there) ↦ rw (there, other, another, last) replaced_rows
          ]
        ]
      ]
    ]

-- The temporary table is another one.
pub temporary_differs :
    (t : Text) → (text_eq t (temporary t) ≡ false) × (text_eq (temporary t) t ≡ false)
unfolding text_eq
temporary_differs [] = (refl, refl)
temporary_differs (c ∷ t) =
    let (h, k) = temporary_differs t in (ground (arith, h), ground (arith, k))

-- A statement that reads nothing but its tables.
abbrev pub ReadsTables : Statement → Type 0
ReadsTables (create_as t sql args) = ⊥
ReadsTables st = Unit

pub statements-ReadsTables :
    (strategy : Text) (there : Bool) (table tmp : Text)
    → All ReadsTables (statements strategy there table tmp)
unfolding statements
statements-ReadsTables strategy there table tmp =
    if_either (All ReadsTables) (text_eq strategy (codes "create_only")) _ _
      (if_either (All ReadsTables) there _ _ (tt, tt) (tt, tt))
      (if_either (All ReadsTables) (text_eq strategy (codes "truncate_insert")) _ _
        (if_either (All ReadsTables) there _ _ (tt, (tt, (tt, tt))) (tt, tt))
        (if_either (All ReadsTables) (text_eq strategy (codes "incremental")) _ _
          (if_either (All ReadsTables) there _ _ (tt, (tt, tt)) (tt, tt)) (tt, (tt, tt))))

module _ {Row : Type 0} where
  pub effect-select :
      (f g : Text → List Value → List Row) (st : Statement) (tables : Tables Row)
      → ReadsTables st
      → effect f st tables ≡ effect g st tables
  unfolding effect
  effect-select f g create_schema tables r = refl
  effect-select f g (drop_if_exists t) tables r = refl
  effect-select f g (drop t) tables r = refl
  effect-select f g (truncate t) tables r = refl
  effect-select f g (insert_from t u) tables r = refl
  effect-select f g (rename t u) tables r = refl
  effect-select f g (create_as t sql args) tables r = elim r [ ]
