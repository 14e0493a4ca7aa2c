-- ===== src/Rows/Whole.antt =====
-- internal/adapters/query_limits.go: a result that does not say it was cut is whole.
use topbase.Prelude.{
  ℕ, ◌+◌, ◌≡◌, refl, sym, ap, ◌∙◌, inl, inr, Bool, true, false, ◌||◌, List, [], ◌∷◌, ◌++◌, map,
  append-nil, append_assoc, leb, ltb, if◌then◌else◌, Option, none, some, Result, ok, length,
  Bool-cases, ||-neither, arith, ok-transport,
}
use topbase.Rows.Utf8.{Bytes, bounded_utf8}
use topbase.Rows.Scan.{
  QueryLimits, Cell, Row, Scanned, null, bytes, string, time, other, bool, number,
  bounded_query_value, bounded_row, add_row, next_row, Reason, scan_loop, scan_query_rows,
  or_defaults, nothing_scanned, named, then_finished, stopped, noted, kept, row_limit,
  result_byte_limit,
}

-- A cell, and a row, as they are shown when nothing is cut.
abbrev pub shown : Cell → Cell
shown (bytes b) = string b
shown (time t) = string t
shown c = c

bounded_utf8-whole :
    (value : Bytes) (max : ℕ)
    → (bounded_utf8 value max).1 ≡ false
    → (bounded_utf8 value max).0 ≡ value
unfolding bounded_utf8
bounded_utf8-whole value max h = ground arith

bounded_query_value-shown :
    (v : Cell) (max : ℕ)
    → (bounded_query_value v max).2 ≡ false
    → (bounded_query_value v max).0 ≡ shown v
unfolding bounded_query_value
bounded_query_value-shown null max h = refl
bounded_query_value-shown (bytes b) max h = ap string (bounded_utf8-whole b max h)
bounded_query_value-shown (string t) max h = ap string (bounded_utf8-whole t max h)
bounded_query_value-shown (time t) max h = refl
bounded_query_value-shown (other t) max h = refl
bounded_query_value-shown (bool b) max h = refl
bounded_query_value-shown (number n) max h = refl

bounded_row-shown :
    (max : ℕ) (row : Row)
    → (bounded_row max row).2 ≡ false
    → (bounded_row max row).0 ≡ map shown row
unfolding bounded_row
bounded_row-shown max [] h = refl
bounded_row-shown max (v ∷ vs) h =
    let (first, rest) = ||-neither (bounded_query_value v max).2 (bounded_row max vs).2 h in
    rw (bounded_query_value-shown v max first, bounded_row-shown max vs rest) refl

-- A row as it is kept.
abbrev pub as_kept : QueryLimits → Row → Row
as_kept limits row = (bounded_row limits.cell_bytes row).0

abbrev Took : QueryLimits → List Row → Scanned → Scanned → Type 0
Took limits rows s r =
    (front : List Row) × (back : List Row) × (rows ≡ front ++ back)
    × (r.rows ≡ s.rows ++ map (as_kept limits) front)
    × (r.reason ≡ none → back ≡ [])
    × (r.cell_truncated ≡ false
        → (s.cell_truncated ≡ false) × (map (as_kept limits) front ≡ map (map shown) front))

Took-none :
    (limits : QueryLimits) (rows : List Row) (why : Reason) (s t : Scanned)
    → t.rows ≡ s.rows
    → (t.cell_truncated ≡ false → s.cell_truncated ≡ false)
    → Took limits rows s (stopped why t)
Took-none limits rows why s t e h =
    ([], rows, refl, e ∙ sym (append-nil s.rows), λ n. cc, λ n. (h n, refl))

Took-more :
    (limits : QueryLimits) (row : Row) (rows : List Row) (s r : Scanned)
    → Took limits rows
        (kept
          (as_kept limits row)
          (bounded_row limits.cell_bytes row).1
          (noted (bounded_row limits.cell_bytes row).2 s))
        r
    → Took limits (row ∷ rows) s r
Took-more limits row rows s r (front, back, split, e, whole, uncut) = (
  row ∷ front,
  back,
  ap (λ t. row ∷ t) split,
  e ∙ append_assoc s.rows (as_kept limits row ∷ []) (map (as_kept limits) front),
  whole,
  λ n. both (uncut n),
)
  where
    both :
        ((s.cell_truncated || (bounded_row limits.cell_bytes row).2) ≡ false)
          × (map (as_kept limits) front ≡ map (map shown) front)
        → (s.cell_truncated ≡ false)
          × (map (as_kept limits) (row ∷ front) ≡ map (map shown) (row ∷ front))
    both (none_cut, same) =
        let (before, here) = ||-neither _ _ none_cut in
        (before, rw (bounded_row-shown limits.cell_bytes row here, same) refl)

no_reason :
    (cut : Bool) (why : Option Reason)
    → (if cut then named why else why) ≡ none
    → (cut ≡ false) × (why ≡ none)
no_reason false why e = (refl, e)
no_reason true none e = cc
no_reason true (some why) e = cc

all_shown :
    (limits : QueryLimits) (front back rows : List Row)
    → rows ≡ front ++ back
    → back ≡ []
    → map (as_kept limits) front ≡ map (map shown) front
    → map (as_kept limits) front ≡ map (map shown) rows
all_shown limits front back rows split e same =
    same ∙ ap (map (map shown)) (sym (split ∙ ap (λ t. front ++ t) e ∙ append-nil front))

module _ {E : Type 0} where
  abbrev oks : List Row → List (Result E Row)
  oks rows = map (λ row. ok row) rows

  scan_loop-oks :
      (limits : QueryLimits) (rows : List Row) (s : Scanned)
      → (r : Scanned) × (scan_loop limits (oks rows) s ≡ ok r) × Took limits rows s r
  unfolding scan_loop next_row add_row
  scan_loop-oks limits [] s =
      (s, refl, ([], [], refl, sym (append-nil s.rows), λ n. refl, λ n. (n, refl)))
  scan_loop-oks limits (row ∷ rows) s =
      let turn =
        kept (as_kept limits row) (bounded_row limits.cell_bytes row).1
          (noted (bounded_row limits.cell_bytes row).2 s) in
      let (r, e, took) = scan_loop-oks limits rows turn in
      elim (Bool-cases (leb limits.rows (length s.rows))) [
        | inl full ↦
            rw full
              (stopped row_limit s, refl, Took-none limits (row ∷ rows) row_limit s s refl (λ n. n))
        | inr few ↦
            elim (Bool-cases (
              ltb limits.result_bytes (s.retained_bytes + (bounded_row limits.cell_bytes row).1))) [
                | inl big ↦
                    rw (few, big)
                      (
                        _,
                        refl,
                        Took-none limits (row ∷ rows) result_byte_limit s
                            (noted (bounded_row limits.cell_bytes row).2 s) refl
                            (λ n. (||-neither _ _ n).0),
                      )
                | inr small ↦ rw (few, small) (r, e, Took-more limits row rows s r took)
              ]
      ]

  scan_oks :
      (limits : QueryLimits) (rows : List Row)
      → (r : Scanned) × (scan_query_rows {E = E} limits (map (λ row. ok row) rows) none ≡ ok r)
        × (front : List Row) × (back : List Row) × (rows ≡ front ++ back)
        × (r.rows ≡ map (as_kept (or_defaults limits)) front)
        × (r.reason ≡ none → r.rows ≡ map (map shown) rows)
  unfolding scan_query_rows
  scan_oks limits rows =
      let (s, e, (front, back, split, kept_rows, whole, uncut)) =
        scan_loop-oks (or_defaults limits) rows nothing_scanned in
      (
        record s { reason = if s.cell_truncated then named s.reason else s.reason },
        ap (then_finished none) e,
        front,
        back,
        split,
        kept_rows,
        λ n.
            let (cut, why) = no_reason s.cell_truncated s.reason n in
            let (start, same) = uncut cut in
            kept_rows ∙ all_shown (or_defaults limits) front back rows split (whole why) same,
      )

  -- Rows that are all read without an error give a result: the first of them, in order, each bounded on
  -- its own.
  scan_query_rows-IsPrefix :
      (limits : QueryLimits) (rows : List Row)
      → (r : Scanned) × (scan_query_rows {E = E} limits (map (λ row. ok row) rows) none ≡ ok r)
        × (front : List Row) × (back : List Row) × (rows ≡ front ++ back)
        × (r.rows ≡ map (as_kept (or_defaults limits)) front)
  scan_query_rows-IsPrefix limits rows =
      let (r, e, front, back, split, same, whole) = scan_oks limits rows in
      (r, e, front, back, split, same)

  -- Where all rows are read without an error and the result's meta data gives no reason for a
  -- truncation, the result has all of the rows, and none of their cells is cut.
  pub scan_query_rows-shown :
      (limits : QueryLimits) (rows : List Row) (r : Scanned)
      → scan_query_rows {E = E} limits (map (λ row. ok row) rows) none ≡ ok r
      → r.reason ≡ none
      → r.rows ≡ map (map shown) rows
  scan_query_rows-shown limits rows r e h =
      let (t, d, front, back, split, same, whole) = scan_oks limits rows in
      ok-transport (λ x. x.reason ≡ none → x.rows ≡ map (map shown) rows) (sym d ∙ e) whole h
