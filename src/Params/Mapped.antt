-- ===== src/Params/Mapped.antt =====
-- internal/core/queryir/apply.go: ApplyMappedFilters and valueToFilters.
use topbase.Prelude.{◌||◌, List, [], ◌∷◌, if◌then◌else◌, is_empty, Result, ok, ◌>>=◌}
use topbase.Text.{Text, codes, text_eq, lower, is_blank}
use topbase.QueryIr.{Query, Filters, nil, append, single, leaf}
use topbase.QueryIr.Values.{ℤ, Value, str, is_null}
use topbase.Params.Dates.{DateError, parse_date_value}

pub record MappedValue : Type 0 where
  pub field : Text
  pub type : Text
  pub value : Value

-- A bound of a range of dates, where it is given.
unfoldable pub bound : Text → Text → Text → Filters
bound field op day = if is_empty day then nil else single (leaf field op (str day))

module _ (days_before : ℤ → Text) where
  unfoldable pub value_to_filters : Text → Text → Value → Result DateError Filters
  value_to_filters field type value =
      if text_eq (lower type) (codes "date")
      then (parse_date_value days_before value >>= λ (first, last).
          ok (append (bound field (codes "gte") first) (bound field (codes "lte") last)))
      else ok (single (leaf field (codes "eq") value))

  unfoldable pub mapped_filters : List MappedValue → Result DateError Filters
  mapped_filters [] = ok nil
  mapped_filters (m ∷ ms) =
      let rest = mapped_filters ms in
      if is_null m.value || is_blank m.field
      then rest
      else value_to_filters m.field m.type m.value >>= λ fs. rest >>= λ gs. ok (append fs gs)

  unfoldable pub apply_mapped_filters : Query → List MappedValue → Result DateError Query
  apply_mapped_filters q mappings =
      mapped_filters mappings >>= λ fs. ok (record q { filters = append q.filters fs })
