-- ===== src/Notify/Tests.antt =====
-- Alerts and subscriptions at work: one alert that is to fire once, and one subscription of a board.
use topbase.Prelude.{ℕ, ◌≡◌, refl, true, false, List, [], ◌∷◌, Option, none, some, ok, err}
use topbase.Text.{Text, codes}
use topbase.QueryIr.{Query, nil}
use topbase.QueryIr.Values.{Value, Number, str, num, pos, end}
use topbase.Dashboards.{Dashboard}
use topbase.Collections.{Question}
use topbase.Warehouse.Cron.{Local}
use topbase.Notify.{
  Alert, Subscription, Notification, Inbox, alert_disabled, bad_channel, row_count, reached,
  summary,
}
use topbase.Notify.Alerts.{evaluate, run_alert}
use topbase.Notify.Subscriptions.{run_subscription, create_subscription, run_due_subscriptions}
use topbase.Notify.Once.{run_alert_once}

abbrev orders : Query
orders = record {
  version = pos 0;
  source = record {
    database_id = codes "db";
    table = none;
    model_id = [];
    question_id = [];
    metric_id = [];
    alias = [];
  };
  joins = [];
  expressions = [];
  fields = [];
  filters = nil;
  aggregations = [];
  group_by = [];
  having = nil;
  order_by = [];
  limit = pos 5;
  parameters = [];
}

abbrev question : Question
question = record {
  id = codes "q";
  collection_id = [];
  dashboard_id = [];
  name = codes "orders";
  description = [];
  query_ir = some orders;
  native_sql = [];
  chart_spec = none;
  query_type = [];
  database_id = codes "db";
  created_by = [];
  created_at = 0;
  archived_at = none;
  parameters = [];
}

abbrev alert : Alert
alert = record {
  id = codes "a";
  question_id = codes "q";
  name = codes "late";
  kind = codes "results";
  cron = codes "0 9 * * *";
  channel = codes "inbox";
  goal = record { negative = false; whole = 10; fraction = [] };
  once = true;
  enabled = true;
  created_by = codes "u";
  created_at = 0;
}

abbrev board : Dashboard
board = record {
  id = codes "d";
  collection_id = [];
  name = codes "sales";
  description = [];
  auto_refresh_seconds = 0;
  appearance = end;
  tabs = [];
  cards = [];
  filters = [];
  archived_at = none;
  created_by = [];
  created_at = 0;
  public_uuid = [];
  public_embed_enabled = false;
}

abbrev daily : Subscription
daily = record {
  id = codes "s";
  dashboard_id = codes "d";
  cron = codes "0 9 * * *";
  timezone = [];
  channel = codes "inbox";
  enabled = true;
  last_run_at = none;
  created_by = codes "u";
  created_at = 0;
}

abbrev inbox : Inbox
inbox = record {
  alerts = alert ∷ [];
  subscriptions = daily ∷ [];
  notifications = [];
  questions = question ∷ [];
  dashboards = board ∷ [];
}

abbrev no_float : Text → Option Number
no_float t = none

abbrev one_row : Query → Option (List (List Value))
one_row q = some ((str (codes "7") ∷ []) ∷ [])

abbrev no_card : Dashboard → Text → Option (List (List Value))
no_card d c = none

abbrev nine : Text → ℕ → Local
nine zone now = record {
  year = 2026;
  year_day = 10;
  month = 1;
  day = 10;
  weekday = 6;
  hour = 9;
  minute = 0;
}

abbrev alert_note : Notification
alert_note = record {
  id = codes "n";
  user_id = codes "u";
  alert_id = codes "a";
  body = row_count 1;
  created_at = 7;
}

abbrev board_note : Notification
board_note = record {
  id = codes "s";
  user_id = codes "u";
  alert_id = [];
  body = summary (codes "sales") 0 0 0;
  created_at = 7;
}

abbrev fired : Inbox
fired = record inbox {
  alerts = record alert { enabled = false } ∷ [];
  notifications = alert_note ∷ [];
}

abbrev sent : Inbox
sent = record inbox {
  subscriptions = record daily { last_run_at = some 7 } ∷ [];
  notifications = board_note ∷ [];
}

-- A goal counts as reached when it is met exactly; a text that is no number reaches none.
evaluate_tests :
    (evaluate no_float (record alert { kind = codes "goal" }) ((num alert.goal ∷ []) ∷ [])
      ≡ some (reached alert.goal alert.goal))
    × (evaluate no_float (record alert { kind = codes "goal" }) ((str (codes "x") ∷ []) ∷ [])
        ≡ none)
    × (evaluate no_float alert [] ≡ none)
unfolding evaluate topbase.Text.text_eq topbase.Notify.Alerts.at_least
evaluate_tests = (refl, refl, refl)

run_alert_test : run_alert no_float one_row (codes "n") 7 (codes "a") inbox ≡ ok (alert_note, fired)
unfolding run_alert topbase.Text.text_eq topbase.Notify.alert_by_id topbase.Notify.question_by_id
    evaluate
run_alert_test = refl

run_subscription_test :
    run_subscription no_card (codes "s") 7 (codes "s") inbox ≡ ok (board_note, sent)
unfolding run_subscription topbase.Text.text_eq topbase.Notify.subscription_by_id
    topbase.Notify.dashboard_by_id
run_subscription_test = refl

-- The scheduler sends a subscription in its minute, and not again in that minute.
run_due_tests :
    (run_due_subscriptions no_card nine (λ id. id) 7 inbox ≡ sent)
    × (run_due_subscriptions no_card nine (λ id. id) 9 sent ≡ sent)
unfolding run_due_subscriptions topbase.Text.text_eq topbase.Warehouse.Cron.due
    topbase.Warehouse.Cron.parse_cron topbase.Text.Parts.fields topbase.Text.trim_space
    topbase.Warehouse.Cron.matches topbase.Warehouse.Cron.match_field topbase.Text.split
    topbase.Params.Dates.atoi topbase.Text.Parts.digits topbase.Text.Decimal.read_from
    topbase.Notify.subscription_by_id topbase.Notify.dashboard_by_id
    topbase.Warehouse.Cron.same_minute
run_due_tests = (refl, refl)

create_subscription_test :
    create_subscription (codes "t") 0 (record daily { channel = codes "mail" }) (codes "u") inbox
    ≡ err bad_channel
unfolding create_subscription topbase.Text.text_eq topbase.Text.is_blank topbase.Text.has_prefix
    topbase.Warehouse.Cron.parse_cron topbase.Text.Parts.fields topbase.Notify.dashboard_by_id
create_subscription_test = refl

run_alert_once_example :
    run_alert no_float one_row (codes "m") 8 (codes "a") fired ≡ err alert_disabled
unfolding topbase.Notify.alert_by_id topbase.Text.text_eq
run_alert_once_example =
    run_alert_once no_float one_row one_row (codes "n") (codes "m") (codes "a") 7 8 inbox fired
      alert alert_note refl refl run_alert_test
