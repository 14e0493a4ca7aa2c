-- ===== src/Notify/Alerts.antt =====
-- The alerts of internal/app/content/share.go, and internal/app/notify/alert.go.
use topbase.Prelude.{
  ℕ, Bool, true, false, not, ◌&&◌, ◌||◌, List, [], ◌∷◌, ◌++◌, Option, none, some, ltb, ◌==◌,
  if◌then◌else◌, keep, length, is_empty, Result, ok, err, ◌>>=◌, ◌>>◌, guard,
}
use topbase.Text.{Text, codes, text_eq, is_blank}
use topbase.QueryIr.{Query}
use topbase.QueryIr.Values.{Value, str, num, Number, number_zero}
use topbase.Notify.{
  Alert, Inbox, Message, Notification, NotifyError, alert_by_id, alert_disabled, name_required,
  no_query, not_met, query_failed, question_by_id, reached, record_notification, row_count,
  update_alert,
}

unfoldable pub create_alert : Text → ℕ → Alert → Text → Inbox → Result NotifyError (Alert × Inbox)
create_alert id now a user s =
    let made = record a {
      id = id;
      kind = if is_empty a.kind then codes "results" else a.kind;
      channel = if is_empty a.channel then codes "inbox" else a.channel;
      enabled = true;
      created_by = user;
      created_at = now;
    } in
    guard (not (is_blank a.name || is_blank a.question_id)) name_required
    >> ok (made, record s { alerts = s.alerts ++ made ∷ [] })

unfoldable pub delete_alert : Text → Inbox → Inbox
delete_alert id s = record s { alerts = keep (λ a. not (text_eq a.id id)) s.alerts }

-- x >= y, of two float64 by their decimals.
fraction_at_least : List ℕ → List ℕ → Bool
fraction_at_least xs [] = true
fraction_at_least [] (y ∷ ys) = y == 0 && fraction_at_least [] ys
fraction_at_least (x ∷ xs) (y ∷ ys) = ltb y x || (x == y && fraction_at_least xs ys)

size_at_least : Number → Number → Bool
unfolding fraction_at_least
size_at_least x y =
    ltb y.whole x.whole || (x.whole == y.whole && fraction_at_least x.fraction y.fraction)

unfoldable pub at_least : Number → Number → Bool
unfolding size_at_least
at_least x y =
    if x.negative
    then (if y.negative then size_at_least y x else number_zero x && number_zero y)
    else if y.negative
    then true
    else size_at_least x y

last {ℓ} : {A : Type ℓ} → List A → Option A
last [] = none
last (x ∷ []) = some x
last (x ∷ y ∷ xs) = last (y ∷ xs)

module _ (parse_float : Text → Option Number) where
  cell_number : Option Value → Option Number
  cell_number (some (num x)) = some x
  cell_number (some (str t)) = parse_float t
  cell_number v = none

  last_cell : Option (List Value) → Option Value
  unfolding last
  last_cell none = none
  last_cell (some row) = last row

  -- lastNumeric, for rows that have cells if the first one has.
  unfoldable pub last_numeric : List (List Value) → Option Number
  unfolding cell_number last_cell
  last_numeric [] = none
  last_numeric (first ∷ rows) =
      if is_empty first then none else cell_number (last_cell (last (first ∷ rows)))

  goal_met : Number → Option Number → Option Message
  unfolding at_least
  goal_met goal none = none
  goal_met goal (some value) = if at_least value goal then some (reached value goal) else none

  unfoldable pub evaluate : Alert → List (List Value) → Option Message
  unfolding goal_met last_numeric
  evaluate alert rows =
      if text_eq alert.kind (codes "goal") || text_eq alert.kind (codes "progress")
      then goal_met alert.goal (last_numeric rows)
      else if is_empty rows
      then none
      else some (row_count (length rows))

  -- RunAlert; `run` gives the rows of a query.
  unfoldable pub fire :
      Text → ℕ → Alert → Option Message → Inbox → Result NotifyError (Notification × Inbox)
  unfolding record_notification update_alert
  fire id now alert none s = err not_met
  fire id now alert (some body) s =
      let note : Notification = record {
        id = id;
        user_id = alert.created_by;
        alert_id = alert.id;
        body = body;
        created_at = now;
      } in
      let after = record_notification note s in
      ok (note, if alert.once then update_alert (record alert { enabled = false }) after else after)

  unfoldable pub run_rows :
      Text
      → ℕ
      → Alert
      → Option (List (List Value))
      → Inbox
      → Result NotifyError (Notification × Inbox)
  unfolding fire
  run_rows id now alert none s = err query_failed
  run_rows id now alert (some rows) s = fire id now alert (evaluate alert rows) s

  unfoldable pub run_question :
      (Query → Option (List (List Value)))
      → Text
      → ℕ
      → Alert
      → Option Query
      → Inbox
      → Result NotifyError (Notification × Inbox)
  unfolding run_rows
  run_question run id now alert none s = err no_query
  run_question run id now alert (some q) s = run_rows id now alert (run q) s

  unfoldable pub run_alert :
      (Query → Option (List (List Value)))
      → Text
      → ℕ
      → Text
      → Inbox
      → Result NotifyError (Notification × Inbox)
  unfolding run_question
  run_alert run id now alert_id s = alert_by_id alert_id s >>= λ alert.
      guard alert.enabled alert_disabled
      >> (question_by_id alert.question_id s >>= λ question.
          run_question run id now alert question.query_ir s)
