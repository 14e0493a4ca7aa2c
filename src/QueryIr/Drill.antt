-- ===== src/QueryIr/Drill.antt =====
-- internal/core/queryir/drill.go: the query behind a click on a chart. Clone's deep copy is the
-- value itself here; the entries of the map Values stand in the order in which they are visited.
pub mod Zoom
use topbase.Prelude.{
  ℕ, Bool, true, false, not, ◌&&◌, ◌||◌, List, [], ◌∷◌, ◌++◌, Option, none, some, ◌==◌, ltb,
  if◌then◌else◌, is_empty, Result, ok, err,
}
use topbase.Text.{Text, codes, text_eq, lower}
use topbase.QueryIr.{Join, Filters, nil, cons, append, single, leaf, Breakout, Query}
use topbase.QueryIr.Values.{ℤ, pos, negsuc, Value, is_null}
use Zoom.{finer_time}

pub record DrillRequest : Type 0 where
  pub kind : Text
  pub field : Text
  pub value : Value
  pub values : List (Text × Value)
  pub temporal : Text
  pub join : Option Join

pub data Error : Type 0 where
  field_required nothing_to_zoom : Error
  cannot_zoom unsupported_kind : Text → Error

-- The loop over req.Values.
unfoldable pub value_filters : List (Text × Value) → Filters
value_filters [] = nil
value_filters ((field, value) ∷ rest) = cons (leaf field (codes "eq") value) (value_filters rest)

join_list : Option Join → List Join
join_list none = []
join_list (some j) = j ∷ []

-- `if out.Limit == 0 || out.Limit > 2000 { out.Limit = 2000 }`.
unfoldable pub records_limit : ℤ → ℤ
records_limit (pos n) = if n == 0 || ltb 2000 n then pos 2000 else pos n
records_limit (negsuc n) = negsuc n

unfoldable pub drill_filter : Query → DrillRequest → Result Error Query
drill_filter q req =
    if is_empty req.field
    then err field_required
    else ok
        (record q { filters = append q.filters (single (leaf req.field (codes "eq") req.value)) })

unfoldable pub drill_records : Query → DrillRequest → Query
unfolding value_filters join_list records_limit
drill_records q req = record q {
  aggregations = [];
  group_by = [];
  having = nil;
  filters = append (append q.filters (value_filters req.values)) (
      if not (is_empty req.field) && not (is_null req.value)
      then single (leaf req.field (codes "eq") req.value)
      else nil);
  joins = q.joins ++ join_list req.join;
  limit = records_limit q.limit;
}

unfoldable pub zoom_unit : Text → Text → Text
unfolding finer_time
zoom_unit requested current = if is_empty requested then finer_time current else requested

unfoldable pub zoom_breakouts : List Breakout → Text → Result Error (List Breakout)
unfolding zoom_unit
zoom_breakouts [] requested = err nothing_to_zoom
zoom_breakouts (b ∷ bs) requested =
    let next = zoom_unit requested (lower b.temporal) in
    if is_empty next
    then err (cannot_zoom (lower b.temporal))
    else ok (record b { temporal = next } ∷ bs)

unfoldable pub set_group_by : Query → Result Error (List Breakout) → Result Error Query
set_group_by q (ok bs) = ok (record q { group_by = bs })
set_group_by q (err e) = err e

unfoldable pub drill_zoom : Query → DrillRequest → Result Error Query
unfolding zoom_breakouts set_group_by
drill_zoom q req = set_group_by q (zoom_breakouts q.group_by req.temporal)

unfoldable pub drill_breakout : Query → DrillRequest → Result Error Query
drill_breakout q req =
    if is_empty req.field
    then err field_required
    else ok (record q {
      group_by =
          q.group_by
          ++ record {
            field = req.field;
            temporal = req.temporal;
            bin_width = record { negative = false; whole = 0; fraction = [] };
          }
            ∷ [];
    })

-- Drill.
unfoldable pub drill : Query → DrillRequest → Result Error Query
unfolding drill_filter drill_records drill_zoom drill_breakout
drill q req =
    let kind = lower req.kind in
    if text_eq kind (codes "filter")
    then drill_filter q req
    else if text_eq kind (codes "records")
    then ok (drill_records q req)
    else if text_eq kind (codes "zoom_time")
    then drill_zoom q req
    else if text_eq kind (codes "breakout")
    then drill_breakout q req
    else err (unsupported_kind req.kind)
