-- ===== src/Compile/Dropped.antt =====
-- internal/adapters/postgres_compile.go and internal/core/queryir/validate.go: segments that are left.
use topbase.Prelude.{◌≡◌, [], List}
use topbase.Text.{Text}
use topbase.QueryIr.{Query, Filter, Filters, filter, nil}
use topbase.QueryIr.Values.{Value}
use topbase.QueryIr.Validate.{check_filters}
use topbase.Compile.Filters.{filter_parts}
use topbase.Compile.Statement.{Limits, Compiled}

-- A filter that only names a segment.
abbrev pub segment_only : Text → Text → Value → Filter
segment_only segment field value =
    filter (record { field = field; op = []; value = value; segment_id = segment }) nil nil

-- Filters that the validation and the compiler treat alike.
record AreAlike (fs gs : Filters) : Type 0 where
  parts : (args : List Value) → filter_parts fs args ≡ filter_parts gs args
  checks : (label : Text) → check_filters label fs ≡ check_filters label gs

module _ (l : Limits) (q : Query) where
  abbrev filtered : Filters → Filters → Query
  filtered fs hs = record q { filters = fs; having = hs }
