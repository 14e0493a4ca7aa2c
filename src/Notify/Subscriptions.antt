-- ===== src/Notify/Subscriptions.antt =====
-- internal/app/notify/subscribe.go.
use topbase.Prelude.{
  ℕ, suc, ◌+◌, Bool, true, not, ◌&&◌, ◌||◌, List, [], ◌∷◌, ◌++◌, Option, none, some, if◌then◌else◌,
  keep, length, is_empty, Result, ok, err, ◌>>=◌, ◌>>◌, guard,
}
use topbase.Text.{Text, codes, text_eq, has_prefix, is_blank}
use topbase.QueryIr.Values.{Value}
use topbase.Dashboards.{Card, Dashboard}
use topbase.Warehouse.Cron.{Local, due, parse_cron}
use topbase.Notify.{
  Inbox, Message, Notification, NotifyError, Subscription, bad_channel, bad_cron, dashboard_by_id,
  record_notification, schedule_required, subscription_by_id, summary, update_subscription,
}

unfoldable pub create_subscription :
    Text → ℕ → Subscription → Text → Inbox → Result NotifyError (Subscription × Inbox)
create_subscription id now x user s =
    let channel = if is_empty x.channel then codes "inbox" else x.channel in
    let made = record x {
      id = id;
      channel = channel;
      timezone = if is_empty x.timezone then codes "Asia/Shanghai" else x.timezone;
      enabled = true;
      created_by = user;
      created_at = now;
    } in
    guard (not (is_blank x.dashboard_id || is_blank x.cron)) schedule_required
    >> (elim (parse_cron x.cron) [ ok c ↦ ok tt | err why ↦ err bad_cron ]
        >> (dashboard_by_id x.dashboard_id s >>= λ board.
            guard
              (text_eq channel (codes "inbox")
                || text_eq channel (codes "feishu")
                || has_prefix (codes "webhook:") channel)
              bad_channel
            >> ok (made, record s { subscriptions = s.subscriptions ++ made ∷ [] })))

unfoldable pub set_subscription_enabled :
    Text → Bool → Inbox → Result NotifyError (Subscription × Inbox)
unfolding update_subscription
set_subscription_enabled id enabled s = subscription_by_id id s >>= λ x.
    let changed = record x { enabled = enabled } in ok (changed, update_subscription changed s)

unfoldable pub delete_subscription : Text → Inbox → Result NotifyError Inbox
delete_subscription id s = subscription_by_id id s >>= λ x.
    ok (record s { subscriptions = keep (λ y. not (text_eq y.id id)) s.subscriptions })

-- The cards that ran, those that failed, and the rows: `card` gives the rows of one.
module _ (card : Dashboard → Text → Option (List (List Value))) where
  abbrev counted : Option (List (List Value)) → ℕ × (ℕ × ℕ) → ℕ × (ℕ × ℕ)
  counted none (good, (bad, rows)) = (good, (suc bad, rows))
  counted (some result) (good, (bad, rows)) = (suc good, (bad, length result + rows))

  unfoldable pub run_cards : Dashboard → List Card → ℕ × (ℕ × ℕ)
  run_cards board [] = (0, (0, 0))
  run_cards board (c ∷ cards) =
      let rest = run_cards board cards in
      if not (text_eq c.type (codes "question")) || is_empty c.question_id
      then rest
      else counted (card board c.id) rest

  abbrev summary_of : Dashboard → ℕ × (ℕ × ℕ) → Message
  summary_of board (good, (bad, rows)) = summary board.name good bad rows

  unfoldable pub run_subscription :
      Text → ℕ → Text → Inbox → Result NotifyError (Notification × Inbox)
  unfolding run_cards update_subscription record_notification
  run_subscription id now subscription s = subscription_by_id subscription s >>= λ x.
      dashboard_by_id x.dashboard_id s >>= λ board.
      let note : Notification = record {
        id = id;
        user_id = x.created_by;
        alert_id = [];
        body = summary_of board (run_cards board board.cards);
        created_at = now;
      } in
      ok (
        note,
        update_subscription (record x { last_run_at = some now }) (record_notification note s),
      )

  -- The tables behind a run whose result is not asked for.
  abbrev behind : Inbox → Result NotifyError (Notification × Inbox) → Inbox
  behind s (err why) = s
  behind s (ok (note, after)) = after

  abbrev pub local_last : (Text → ℕ → Local) → Subscription → Option Local
  local_last local x = elim x.last_run_at [ none ↦ none | some at ↦ some (local x.timezone at) ]

  abbrev pub is_due : (Text → ℕ → Local) → ℕ → Subscription → Bool
  is_due local now x = x.enabled && due x.cron (local x.timezone now) (local_last local x)

  -- The loop of RunDueSubscriptions, over the list as it was read, with `draw` for the identifiers.
  unfoldable pub run_due :
      (Text → ℕ → Local) → (Text → Text) → ℕ → List Subscription → Inbox → Inbox
  unfolding run_subscription
  run_due local draw now [] s = s
  run_due local draw now (x ∷ xs) s =
      run_due local draw now xs
        (if is_due local now x then behind s (run_subscription (draw x.id) now x.id s) else s)

  unfoldable pub run_due_subscriptions : (Text → ℕ → Local) → (Text → Text) → ℕ → Inbox → Inbox
  unfolding run_due
  run_due_subscriptions local draw now s = run_due local draw now s.subscriptions s
