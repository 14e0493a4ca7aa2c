-- ===== src/Charts.antt =====
-- internal/app/viz/infer.go, and core.ChartSpec of internal/core/content.go: the chart of a query. The
-- fields that Merge does not name are one text, their JSON.
pub mod Columns
pub mod Tests
use topbase.Prelude.{
  ℕ, Bool, List, [], ◌∷◌, ◌++◌, map, ◌==◌, if◌then◌else◌, Option, none, some, length, is_empty,
}
use topbase.Text.{Text, codes, lower, is_blank}
use topbase.QueryIr.{Query, Breakout, Aggregation}
use topbase.QueryIr.Values.{Entries}

pub record ChartSpec : Type 0 where
  pub type : Text
  pub x : Text
  pub y : List Text
  pub columns : Option Entries
  pub search : Text
  pub sort : Text
  pub sort_dir : Text
  pub series : Option Entries
  pub options : Text

abbrev pub chart : Text → Text → List Text → ChartSpec
chart type x y = record {
  type = type;
  x = x;
  y = y;
  columns = none;
  search = [];
  sort = [];
  sort_dir = [];
  series = none;
  options = [];
}

abbrev pub series_name : Aggregation → Text
series_name a = if is_empty a.alias then lower a.fn else a.alias

-- The chart of a query with a breakout.
unfoldable pub infer_by : Breakout → List Text → ChartSpec
infer_by b ys =
    if is_empty b.temporal
    then (if is_empty ys then chart (codes "table") b.field [] else chart (codes "bar") b.field ys)
    else chart (codes "line") (b.field ++ (codes "_" ++ lower b.temporal)) ys

abbrev pub infer_over : List Breakout → List Text → ChartSpec
infer_over [] ys =
    if length ys == 1 then chart (codes "scalar") [] ys else chart (codes "table") [] []
infer_over (b ∷ bs) ys = infer_by b ys

-- Infer.
unfoldable pub infer : Query → ChartSpec
infer q = infer_over q.group_by (map series_name q.aggregations)

abbrev pub or_text : Text → Text → Text
or_text t fallback = if is_empty t then fallback else t

abbrev pub or_entries : Option Entries → Option Entries → Option Entries
or_entries none fallback = fallback
or_entries (some es) fallback = some es

-- Merge.
unfoldable pub merge : Option ChartSpec → ChartSpec → ChartSpec
merge none inferred = inferred
merge (some saved) inferred = if is_blank saved.type then inferred else record saved {
  x = or_text saved.x inferred.x;
  y = if is_empty saved.y then inferred.y else saved.y;
  columns = or_entries saved.columns inferred.columns;
  search = or_text saved.search inferred.search;
  sort = or_text saved.sort inferred.sort;
  sort_dir = or_text saved.sort_dir inferred.sort_dir;
  series = or_entries saved.series inferred.series;
}
