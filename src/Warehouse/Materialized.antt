-- ===== src/Warehouse/Materialized.antt =====
-- internal/adapters/warehouse.go: Materialize keeps the promise of each strategy, in a database that
-- follows PostgreSQL's manual.
use topbase.Prelude.{
  ℕ, ◌≡◌, sym, ap, ◌∙◌, if◌then◌else◌, Bool-cases, inl, inr, Bool, List, [], ◌∷◌, All, Option, none,
  some, Result, ok, guard, >>=-eq-ok, >>-eq-ok, ok-injective,
}
use topbase.Text.{Text, codes, text_eq, lower, trim_space}
use topbase.Text.Laws.{text_eq_refl}
use topbase.QueryIr.Values.{Value}
use topbase.Warehouse.{Error, other_engine, MaterializeSpec, MaterializeResult}
use topbase.Warehouse.Writer.{
  Statement, create_schema, drop_if_exists, create_as, check_spec, temporary, run, run_all,
  watermark_of, committed, loaded, moved, materialize,
}
use topbase.Warehouse.Strategies.{
  Tables, set_table, effect, kept_rows, is_there, effects, ReadsTables, statements-kept_rows,
  temporary_differs, statements-ReadsTables, effect-select,
}

-- `rows` is what the tables of a schema hold, and `select` what a query gives.
module _ {Db Row : Type 0} (engine : Text → Result Error Text)
    (exec : Text → Statement → Db → Result Error Db) (exists : Text → Text → Db → Bool)
    (count : Text → Text → Db → Result Error ℕ) (max_of : Text → Text → Text → Db → Option Text)
    (commit : Db → Result Error (Unit {0})) (rows : Text → Db → Tables Row)
    (select : Db → Text → List Value → List Row)
    (acts : (schema other : Text) (st : Statement) (db next : Db)
      → exec schema st db ≡ ok next
      → rows other next
        ≡ (if text_eq other schema then effect (select db) st (rows other db) else rows other db))
    (sees : (schema table : Text) (db : Db)
      → exists schema table db ≡ is_there (rows schema db table)) where
  -- In the schema of the statement.
  acts_here :
      (schema : Text) (st : Statement) (db next : Db)
      → exec schema st db ≡ ok next
      → rows schema next ≡ effect (select db) st (rows schema db)
  acts_here schema st db next e = rw (text_eq_refl schema) at (acts schema schema st db next e)

  run_all-effects :
      (f : Text → List Value → List Row) (schema : Text) (sts : List Statement) (db next : Db)
      → All ReadsTables sts
      → run_all engine exec exists count max_of commit schema sts db ≡ ok next
      → rows schema next ≡ effects f sts (rows schema db)
  unfolding run_all run
  run_all-effects f schema [] db next r e = ap (rows schema) (sym (ok-injective e))
  run_all-effects f schema (st ∷ sts) db next (p, r) e =
      let (mid, first, rest) = >>=-eq-ok (exec schema st db) _ e in
      run_all-effects f schema sts mid next r rest
      ∙ ap (effects f sts)
          (acts_here schema st db mid first ∙ effect-select (select db) f st (rows schema db) p)

  -- The tables of a database that differs in the temporary table of a schema.
  abbrev pub without_temporary : MaterializeSpec → Db → Text → Tables Row
  without_temporary spec db other =
      if text_eq other spec.schema
      then set_table (temporary spec.table) none (rows other db)
      else rows other db

  cleared-rows :
      (spec : MaterializeSpec) (db a source : Db) (other : Text)
      → exec spec.schema create_schema db ≡ ok a
      → exec spec.schema (drop_if_exists (temporary spec.table)) a ≡ ok source
      → rows other source ≡ without_temporary spec db other
  unfolding effect
  cleared-rows spec db a source other made cleared =
      let first = acts spec.schema other create_schema db a made in
      let second =
        acts spec.schema other (drop_if_exists (temporary spec.table)) a source cleared in
      elim (Bool-cases (text_eq other spec.schema)) [
        | inl same ↦
            rw same
              ((rw same at second) ∙ ap (set_table (temporary spec.table) none) (rw same at first))
        | inr differ ↦ rw differ ((rw differ at second) ∙ (rw differ at first))
      ]

  -- The database that the source is read in, and what is loaded.
  loaded-rows :
      (spec : MaterializeSpec) (db full : Db)
      → loaded engine exec exists count max_of commit spec db ≡ ok full
      → (source : Db) × ((other : Text) → rows other source ≡ without_temporary spec db other)
        × (rows spec.schema full
            ≡ set_table
                (temporary spec.table)
                (some (select source (trim_space spec.sql) spec.args))
                (set_table (temporary spec.table) none (rows spec.schema db)))
  unfolding loaded run_all run effect
  loaded-rows spec db full e =
      let (a, made, e1) = >>=-eq-ok (exec spec.schema create_schema db) _ e in
      let (source, cleared, e2) =
        >>=-eq-ok (exec spec.schema (drop_if_exists (temporary spec.table)) a) _ e1 in
      let (b, read, e3) =
        >>=-eq-ok
          (exec spec.schema (create_as (temporary spec.table) (trim_space spec.sql) spec.args)
            source)
          _ e2 in
      let emptied =
        acts_here spec.schema (drop_if_exists (temporary spec.table)) a source cleared
        ∙ ap (set_table (temporary spec.table) none)
            (acts_here spec.schema create_schema db a made) in
      (
        source,
        λ other. cleared-rows spec db a source other made cleared,
        ap (rows spec.schema) (sym (ok-injective e3))
            ∙ acts_here spec.schema
                (create_as (temporary spec.table) (trim_space spec.sql) spec.args) source b read
            ∙ ap
                (set_table (temporary spec.table)
                  (some (select source (trim_space spec.sql) spec.args)))
                emptied,
      )

  committed-same :
      (spec : MaterializeSpec) (db : Db) {out : MaterializeResult × Db}
      → committed engine exec exists count max_of commit spec db ≡ ok out
      → out.1 ≡ db
  unfolding committed
  committed-same spec db e =
      let (n, counted, e1) = >>=-eq-ok (count spec.schema spec.table db) _ e in
      let (w, found, e2) =
        >>=-eq-ok (watermark_of engine exec exists count max_of commit spec db) _ e1 in
      let (done, e3) = >>-eq-ok (commit db) _ e2 in ap (λ o. o.1) (sym (ok-injective e3))

  moved-kept_rows :
      (spec : MaterializeSpec) (old : Tables Row) (full last : Db) (fresh : List Row)
      → rows spec.schema full
        ≡ set_table (temporary spec.table) (some fresh) (set_table (temporary spec.table) none old)
      → moved engine exec exists count max_of commit spec full ≡ ok last
      → (rows spec.schema last spec.table
          ≡ some (kept_rows (lower spec.strategy) (old spec.table) fresh))
        × (rows spec.schema last (temporary spec.table) ≡ none)
  unfolding moved
  moved-kept_rows spec old full last fresh shape e =
      let (h, k) = temporary_differs spec.table in
      let there : rows spec.schema full (temporary spec.table) ≡ some fresh =
        ap (λ tables. tables (temporary spec.table)) shape
        ∙ simp (text_eq_refl (temporary spec.table)) in
      let same : rows spec.schema full spec.table ≡ old spec.table =
        ap (λ tables. tables spec.table) shape ∙ simp h in
      let (target, gone) =
        statements-kept_rows (select full) spec.table (temporary spec.table) (rows spec.schema full)
          fresh h k there (lower spec.strategy) in
      let after =
        run_all-effects (select full) spec.schema _ full last
          (statements-ReadsTables (lower spec.strategy) _ spec.table (temporary spec.table))
          (rw (sees spec.schema spec.table full) at e) in
      (
        ap (λ tables. tables spec.table) after
            ∙ target
            ∙ ap (λ o. some (kept_rows (lower spec.strategy) o fresh)) same,
        ap (λ tables. tables (temporary spec.table)) after ∙ gone,
      )

  -- When Materialize succeeds, the target has the rows that its strategy promises, made of the rows that it
  -- had, if it was there, and those that the source gave in a database whose tables, in every schema, are
  -- those at the start but for the temporary table, which is gone at the end.
  pub materialize-kept_rows :
      (spec : MaterializeSpec) (db : Db) (out : MaterializeResult × Db)
      → materialize engine exec exists count max_of commit spec db ≡ ok out
      → (source : Db) × ((other : Text) → rows other source ≡ without_temporary spec db other)
        × (rows spec.schema out.1 spec.table
            ≡ some (
                kept_rows
                  (lower spec.strategy)
                  (rows spec.schema db spec.table)
                  (select source (trim_space spec.sql) spec.args)))
        × (rows spec.schema out.1 (temporary spec.table) ≡ none)
  unfolding materialize
  materialize-kept_rows spec db out e =
      let (checked, e1) = >>-eq-ok (check_spec spec) _ e in
      let (name, connected, e2) = >>=-eq-ok (engine spec.database_id) _ e1 in
      let (postgres, e3) =
        >>-eq-ok (guard (text_eq name (codes "postgres")) (other_engine name)) _ e2 in
      let (full, read, e4) =
        >>=-eq-ok (loaded engine exec exists count max_of commit spec db) _ e3 in
      let (last, ran, e5) =
        >>=-eq-ok (moved engine exec exists count max_of commit spec full) _ e4 in
      let (source, emptied, shape) = loaded-rows spec db full read in
      let (target, gone) = moved-kept_rows spec (rows spec.schema db) full last _ shape ran in
      let same = committed-same spec last e5 in
      (
        source,
        emptied,
        ap (λ d. rows spec.schema d spec.table) same ∙ target,
        ap (λ d. rows spec.schema d (temporary spec.table)) same ∙ gone,
      )
