-- ===== src/Notify.antt =====
-- internal/app/notify, and the alerts and notifications of internal/app/content/share.go, with their
-- stores in internal/adapters/appdb/w2.go and w4b.go.
--
-- Identifiers, moments (in seconds), the calendar and strconv.ParseFloat are parameters, and so is what
-- a run of a query or of a card comes to (Queries). The text of a notification is kept as what
-- fmt.Sprintf is given; its title, when it was read and its delivery to other channels are left out.
pub mod Alerts
pub mod Subscriptions
pub mod Once
mod Tests
use topbase.Prelude.{
  ℕ, suc, ◌+◌, Bool, true, false, not, ◌&&◌, ◌||◌, List, [], ◌∷◌, ◌++◌, map, Option, none, some,
  ltb, ◌==◌, if◌then◌else◌, find, keep, length, is_empty, Result, ok, err, ◌>>=◌, ◌>>◌, guard,
}
use topbase.Text.{Text, codes, text_eq, has_prefix, is_blank}
use topbase.QueryIr.{Query}
use topbase.QueryIr.Values.{Value, str, num, Number, number_zero}
use topbase.Dashboards.{Card, Dashboard}
use topbase.Collections.{Question}
use topbase.Warehouse.Cron.{Local, due, parse_cron}

pub record Alert : Type 0 where
  pub id : Text
  pub question_id : Text
  pub name : Text
  pub kind : Text
  pub cron : Text
  pub channel : Text
  pub goal : Number
  pub once : Bool
  pub enabled : Bool
  pub created_by : Text
  pub created_at : ℕ

pub record Subscription : Type 0 where
  pub id : Text
  pub dashboard_id : Text
  pub cron : Text
  pub timezone : Text
  pub channel : Text
  pub enabled : Bool
  pub last_run_at : Option ℕ
  pub created_by : Text
  pub created_at : ℕ

pub data Message : Type 0 where
  reached : Number → Number → Message
  row_count : ℕ → Message
  summary : Text → ℕ → ℕ → ℕ → Message

pub record Notification : Type 0 where
  pub id : Text
  pub user_id : Text
  pub alert_id : Text
  pub body : Message
  pub created_at : ℕ

-- The tables; questions and dashboards are only read.
pub record Inbox : Type 0 where
  pub alerts : List Alert
  pub subscriptions : List Subscription
  pub notifications : List Notification
  pub questions : List Question
  pub dashboards : List Dashboard

pub data NotifyError : Type 0 where
  name_required schedule_required bad_cron bad_channel not_found : NotifyError
  alert_disabled no_query query_failed not_met : NotifyError

unfoldable pub or_missing : {A : Type 0} → Option A → Result NotifyError A
or_missing none = err not_found
or_missing (some a) = ok a

unfoldable pub alert_by_id : Text → Inbox → Result NotifyError Alert
unfolding or_missing
alert_by_id id s = or_missing (find (λ a. text_eq a.id id) s.alerts)

unfoldable pub question_by_id : Text → Inbox → Result NotifyError Question
unfolding or_missing
question_by_id id s = or_missing (find (λ q. text_eq q.id id) s.questions)

unfoldable pub subscription_by_id : Text → Inbox → Result NotifyError Subscription
unfolding or_missing
subscription_by_id id s = or_missing (find (λ x. text_eq x.id id) s.subscriptions)

unfoldable pub dashboard_by_id : Text → Inbox → Result NotifyError Dashboard
unfolding or_missing
dashboard_by_id id s = or_missing (find (λ d. text_eq d.id id) s.dashboards)

-- The columns that the UPDATE names.
abbrev pub set_alert : Alert → Alert → Alert
set_alert a old = record old {
  name = a.name;
  kind = a.kind;
  cron = a.cron;
  channel = a.channel;
  goal = a.goal;
  once = a.once;
  enabled = a.enabled;
}

unfoldable pub update_alert : Alert → Inbox → Inbox
update_alert a s = record s {
  alerts = map (λ old. if text_eq old.id a.id then set_alert a old else old) s.alerts;
}

abbrev pub set_subscription : Subscription → Subscription → Subscription
set_subscription x old = record old {
  cron = x.cron;
  timezone = x.timezone;
  channel = x.channel;
  enabled = x.enabled;
  last_run_at = x.last_run_at;
}

unfoldable pub update_subscription : Subscription → Inbox → Inbox
update_subscription x s = record s {
  subscriptions =
      map (λ old. if text_eq old.id x.id then set_subscription x old else old) s.subscriptions;
}

unfoldable pub record_notification : Notification → Inbox → Inbox
record_notification n s = record s { notifications = s.notifications ++ n ∷ [] }
