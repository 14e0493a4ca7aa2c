-- ===== src/QueryIr/Drilling.antt =====
-- internal/core/queryir/drill.go: zooming in time from a chart.
use topbase.Prelude.{
  suc, ◌≡◌, refl, sym, ap, List, [], ◌∷◌, arith, is_empty, Bool-cases, inl, inr, Result, ok, err,
  ok-injective,
}
use topbase.Text.{codes, text_eq, lower}
use topbase.QueryIr.{Breakout, Query}
use topbase.QueryIr.Drill.{
  DrillRequest, Error, zoom_unit, zoom_breakouts, set_group_by, drill_zoom, drill,
}
use topbase.QueryIr.Drill.Zoom.{finer_time, coarseness, coarseness-finer_time}

-- The same breakout in a unit that is one step finer.
abbrev pub IsZoomOf : List Breakout → List Breakout → Type 0
IsZoomOf before after =
    (b : Breakout) × (bs : List Breakout) × (before ≡ b ∷ bs)
    × (after ≡ record b { temporal = finer_time (lower b.temporal) } ∷ bs)
    × (coarseness (lower b.temporal) ≡ suc (coarseness (finer_time (lower b.temporal))))

zoom_breakouts-IsZoomOf : (bs out : List Breakout) → zoom_breakouts bs [] ≡ ok out → IsZoomOf bs out
unfolding zoom_breakouts zoom_unit
zoom_breakouts-IsZoomOf [] out e = cc
zoom_breakouts-IsZoomOf (b ∷ bs) out e =
    elim (Bool-cases (is_empty (finer_time (lower b.temporal)))) [
      | inl nothing ↦ cc (rw nothing at e)
      | inr finer ↦ (
        b,
        bs,
        refl,
        sym (ok-injective (rw finer at e)),
        coarseness-finer_time (lower b.temporal) (λ over. ground (arith, ap is_empty over)),
      )
    ]

drill_zoom-IsZoomOf :
    (q out : Query) (r : Result Error (List Breakout))
    → ((bs : List Breakout) → r ≡ ok bs → IsZoomOf q.group_by bs)
    → set_group_by q r ≡ ok out
    → (bs : List Breakout) × (out ≡ record q { group_by = bs }) × IsZoomOf q.group_by bs
unfolding set_group_by
drill_zoom-IsZoomOf q out (ok bs) h e = (bs, sym (ok-injective e), h bs refl)
drill_zoom-IsZoomOf q out (err why) h e = cc

-- A zoom that asks for no unit changes the first breakout alone, and that to the next finer unit: so
-- at most six such zooms can follow on each other.
pub drill-zoom_time :
    (q out : Query) (req : DrillRequest)
    → lower req.kind ≡ codes "zoom_time"
    → req.temporal ≡ []
    → drill q req ≡ ok out
    → (bs : List Breakout) × (out ≡ record q { group_by = bs }) × IsZoomOf q.group_by bs
unfolding drill drill_zoom text_eq
drill-zoom_time q out req kind unit e =
    drill_zoom-IsZoomOf q out (zoom_breakouts q.group_by []) (zoom_breakouts-IsZoomOf q.group_by)
      (rw (kind, unit) at e)
