-- ===== src/Rows/Bounds.antt =====
-- internal/adapters/query_limits.go: a result stays within its limits.
use topbase.Prelude.{
  ℕ, ◌+◌, ◌≤◌, ◌≡◌, refl, inl, inr, Bool, false, List, [], ◌∷◌, ◌++◌, leb, ltb, Option, none, some,
  Result, ok, err, ◌>>=◌, length, length-append, arith, Bool-cases, ok-transport,
}
use topbase.Rows.Scan.{
  QueryLimits, Cell, Row, Scanned, null, bytes, string, time, other, bool, number,
  bounded_query_value, bounded_row, add_row, next_row, Turn, stop, more, after_turn, scan_loop,
  scan_query_rows, or_defaults, nothing_scanned, finished, then_finished,
}

-- What a cell counts for, and what rows count for.
abbrev pub cell_size : Cell → ℕ
cell_size null = 0
cell_size (bytes b) = length b
cell_size (string t) = length t
cell_size (time t) = length t
cell_size (other t) = length t
cell_size (bool b) = 1
cell_size (number n) = 8

abbrev pub row_size : Row → ℕ
row_size [] = 0
row_size (c ∷ cs) = cell_size c + row_size cs

abbrev pub total_size : List Row → ℕ
total_size [] = 0
total_size (r ∷ rs) = row_size r + total_size rs

total_size-append : (xs ys : List Row) → total_size (xs ++ ys) ≡ total_size xs + total_size ys
total_size-append [] ys = omega arith
total_size-append (r ∷ xs) ys = omega (arith, total_size-append xs ys)

bounded_query_value-size :
    (v : Cell) (max : ℕ) → (bounded_query_value v max).1 ≡ cell_size (bounded_query_value v max).0
unfolding bounded_query_value
bounded_query_value-size null max = refl
bounded_query_value-size (bytes b) max = refl
bounded_query_value-size (string t) max = refl
bounded_query_value-size (time t) max = refl
bounded_query_value-size (other t) max = refl
bounded_query_value-size (bool b) max = refl
bounded_query_value-size (number n) max = refl

bounded_row-size :
    (max : ℕ) (row : Row) → (bounded_row max row).1 ≡ row_size (bounded_row max row).0
unfolding bounded_row
bounded_row-size max [] = refl
bounded_row-size max (v ∷ vs) =
    omega (arith, bounded_query_value-size v max, bounded_row-size max vs)

abbrev Within : QueryLimits → Scanned → Type 0
Within limits s =
    (length s.rows ≤ limits.rows)
    × (s.retained_bytes ≤ limits.result_bytes)
    × (s.retained_bytes ≡ total_size s.rows)

abbrev state_of : Turn → Scanned
state_of (stop s) = s
state_of (more s) = s

add_row-Within :
    (limits : QueryLimits) (s : Scanned) (row : Row) (size : ℕ) (cut : Bool)
    → leb limits.rows (length s.rows) ≡ false
    → size ≡ row_size row
    → Within limits s
    → Within limits (state_of (add_row limits s (row, size, cut)))
unfolding add_row
add_row-Within limits s row size cut few e (h, k, l) =
    elim (Bool-cases (ltb limits.result_bytes (s.retained_bytes + size))) [
      | inl big ↦ rw big (h, k, l)
      | inr small ↦ rw small (
        ground (arith, length-append s.rows (row ∷ [])),
        ground arith,
        ground (arith, total_size-append s.rows (row ∷ [])),
      )
    ]

module _ {E : Type 0} where
  next_row-Within :
      (limits : QueryLimits) (s : Scanned) (item : Result E Row) {t : Turn}
      → Within limits s
      → next_row limits s item ≡ ok t
      → Within limits (state_of t)
  unfolding next_row
  next_row-Within limits s item w = elim (Bool-cases (leb limits.rows (length s.rows))) [
    | inl full ↦ rw full (λ e. ok-transport (λ t. Within limits (state_of t)) e w)
    | inr few ↦ rw few (added item few)
  ]
    where
      added :
          (item : Result E Row) {t : Turn}
          → leb limits.rows (length s.rows) ≡ false
          → (item >>= λ values. ok (add_row limits s (bounded_row limits.cell_bytes values))) ≡ ok t
          → Within limits (state_of t)
      added (err why) few e = cc
      added (ok values) few e =
          ok-transport (λ t. Within limits (state_of t)) e
            (add_row-Within limits s _ _ _ few (bounded_row-size limits.cell_bytes values) w)

  after_turn-Within :
      (limits : QueryLimits) (turn : Result E Turn) (go_on : Scanned → Result E Scanned)
      {r : Scanned}
      → ((t : Turn) → turn ≡ ok t → Within limits (state_of t))
      → ((s : Scanned) → Within limits s → go_on s ≡ ok r → Within limits r)
      → after_turn turn go_on ≡ ok r
      → Within limits r
  after_turn-Within limits (err why) go_on h k e = cc
  after_turn-Within limits (ok (stop t)) go_on h k e =
      ok-transport (Within limits) e (h (stop t) refl)
  after_turn-Within limits (ok (more t)) go_on h k e = k t (h (more t) refl) e

  scan_loop-Within :
      (limits : QueryLimits) (feed : List (Result E Row)) (s : Scanned) {r : Scanned}
      → Within limits s
      → scan_loop limits feed s ≡ ok r
      → Within limits r
  unfolding scan_loop
  scan_loop-Within limits [] s w e = ok-transport (Within limits) e w
  scan_loop-Within limits (item ∷ feed) s w e =
      after_turn-Within limits (next_row limits s item) _ (λ t. next_row-Within limits s item w)
        (λ t v. scan_loop-Within limits feed t v) e

  then_finished-eq :
      (last : Option E) (m : Result E Scanned) {r : Scanned}
      → then_finished last m ≡ ok r
      → (s : Scanned) × (m ≡ ok s) × (finished last s ≡ ok r)
  then_finished-eq last (err why) e = cc
  then_finished-eq last (ok s) e = (s, refl, e)

  finished-Within :
      (limits : QueryLimits) (last : Option E) (s : Scanned) {r : Scanned}
      → Within limits s
      → finished last s ≡ ok r
      → Within limits r
  finished-Within limits (some why) s w e = cc
  finished-Within limits none s w e = ok-transport (Within limits) e w

  -- A result has no more rows than the limit, and its cells no more bytes than the limit; its meta
  -- data tells how many bytes they have. A limit of 0 is the default.
  pub scan_query_rows-Within :
      (limits : QueryLimits) (feed : List (Result E Row)) (last : Option E) {r : Scanned}
      → scan_query_rows limits feed last ≡ ok r
      → (length r.rows ≤ (or_defaults limits).rows)
        × (total_size r.rows ≤ (or_defaults limits).result_bytes)
        × (r.retained_bytes ≡ total_size r.rows)
  unfolding scan_query_rows
  scan_query_rows-Within limits feed last e =
      let (s, scanned, done) =
        then_finished-eq last (scan_loop (or_defaults limits) feed nothing_scanned) e in
      let (h, k, l) =
        finished-Within (or_defaults limits) last s
          (scan_loop-Within (or_defaults limits) feed nothing_scanned
            (omega arith, omega arith, omega arith) scanned)
          done in
      (h, omega arith, l)
