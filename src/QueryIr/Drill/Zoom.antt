-- ===== src/QueryIr/Drill/Zoom.antt =====
-- internal/core/queryir/drill.go: the table of finer units of time, and how often one can zoom.
use topbase.Prelude.{ℕ, suc, ◌≡◌, ◌≢◌, [], arith, if◌then◌else◌}
use topbase.Text.{Text, codes, text_eq}

-- finerTime, with "" for a key that it lacks.
unfoldable pub finer_time : Text → Text
finer_time unit =
    if text_eq unit (codes "year")
    then codes "quarter"
    else if text_eq unit (codes "quarter")
    then codes "month"
    else if text_eq unit (codes "month")
    then codes "week"
    else if text_eq unit (codes "week")
    then codes "day"
    else if text_eq unit (codes "day")
    then codes "hour"
    else if text_eq unit (codes "hour")
    then codes "minute"
    else []

-- How coarse a unit is; everything that has nothing finer has rank 0.
unfoldable pub coarseness : Text → ℕ
coarseness unit =
    if text_eq unit (codes "year")
    then 6
    else if text_eq unit (codes "quarter")
    then 5
    else if text_eq unit (codes "month")
    then 4
    else if text_eq unit (codes "week")
    then 3
    else if text_eq unit (codes "day")
    then 2
    else if text_eq unit (codes "hour")
    then 1
    else 0

-- Each zoom steps to the next finer of the six coarser units, until nothing finer is left.
pub coarseness-finer_time :
    (unit : Text) → finer_time unit ≢ [] → coarseness unit ≡ suc (coarseness (finer_time unit))
unfolding finer_time coarseness text_eq
coarseness-finer_time unit h = ground arith
