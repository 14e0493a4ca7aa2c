-- ===== src/Rows/Tests.antt =====
-- internal/adapters/query_limits.go: results on concrete rows.
use topbase.Prelude.{
  ◌<◌, ◌≤◌, ◌≡◌, refl, List, [], ◌∷◌, ◌++◌, map, false, none, some, Result, ok, length, arith,
}
use topbase.Text.{Text, codes}
use topbase.Rows.Utf8.{Bytes, encode_rune, encode, ellipsis, rune_start, cut_at, bounded_utf8}
use topbase.Rows.Boundary.{bounded_utf8-IsPrefix, IsPrefix}
use topbase.Rows.Scan.{
  QueryLimits, Row, Scanned, null, string, number, scan_query_rows, or_defaults, row_limit,
  bounded_query_value, bounded_row, next_row, add_row, scan_loop,
}
use topbase.Rows.Bounds.{scan_query_rows-Within, total_size}
use topbase.Rows.Whole.{scan_query_rows-shown, shown}

-- "aé" is 3 bytes, and "aébc" is 5.
abbrev word : Text
word = codes "aébcde"

long_word : 5 < length (encode word)
unfolding encode encode_rune
long_word = omega arith

bounded_utf8-IsPrefix_example :
    (kept : Bytes) × ((bounded_utf8 (encode word) 5).0 ≡ kept ++ ellipsis)
    × IsPrefix word kept
    × (length (bounded_utf8 (encode word) 5).0 ≤ 5)
bounded_utf8-IsPrefix_example = bounded_utf8-IsPrefix word 5 (omega arith) long_word

cut_word : (bounded_utf8 (encode word) 5).0 ≡ b'a' ∷ ellipsis
unfolding bounded_utf8 encode encode_rune cut_at rune_start
cut_word = refl

abbrev small : QueryLimits
small = record { rows = 2; result_bytes = 20; cell_bytes = 8 }

abbrev few : List Row
few =
    (number (codes "1") ∷ string (codes "ab") ∷ [])
    ∷ (number (codes "2") ∷ null ∷ [])
    ∷ (number (codes "3") ∷ null ∷ [])
    ∷ []

abbrev feed : List (Result Text Row)
feed = map (λ row. ok row) few

abbrev scanned : Scanned
scanned = record {
  rows = (number (codes "1") ∷ string (codes "ab") ∷ []) ∷ (number (codes "2") ∷ null ∷ []) ∷ [];
  retained_bytes = 18;
  cell_truncated = false;
  reason = some row_limit;
}

scan_feed : scan_query_rows small feed none ≡ ok scanned
unfolding scan_query_rows scan_loop next_row or_defaults add_row bounded_row bounded_query_value
    bounded_utf8
scan_feed = refl

scan_query_rows-Within_example :
    (length scanned.rows ≤ (or_defaults small).rows)
    × (total_size scanned.rows ≤ (or_defaults small).result_bytes)
    × (scanned.retained_bytes ≡ total_size scanned.rows)
scan_query_rows-Within_example = scan_query_rows-Within small feed none scan_feed

abbrev ample : QueryLimits
ample = record { rows = 10; result_bytes = 100; cell_bytes = 8 }

abbrev all_scanned : Scanned
all_scanned = record { rows = few; retained_bytes = 26; cell_truncated = false; reason = none }

scan_all : scan_query_rows ample feed none ≡ ok all_scanned
unfolding scan_query_rows scan_loop next_row or_defaults add_row bounded_row bounded_query_value
    bounded_utf8
scan_all = refl

scan_query_rows-shown_example : all_scanned.rows ≡ map (map shown) few
scan_query_rows-shown_example = scan_query_rows-shown ample few all_scanned scan_all refl
