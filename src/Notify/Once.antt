-- ===== src/Notify/Once.antt =====
-- internal/app/notify: an alert that fires once, and a subscription in its minute.
use topbase.Prelude.{
  some-injective, ℕ, ◌≡◌, refl, sym, ap, ◌∙◌, Bool, true, false, ◌&&◌, List, [], ◌∷◌, map, Option,
  none, some, if◌then◌else◌, find, Bool-cases, Option-cases, Result-cases, inl, inr, ok, err, guard,
  >>=-eq-ok, >>-eq-ok, ok-injective, subst,
}
use topbase.Text.{Text, text_eq}
use topbase.Text.Laws.{text_eq_iff}
use topbase.QueryIr.{Query}
use topbase.QueryIr.Values.{Value, Number}
use topbase.Dashboards.{Dashboard}
use topbase.Warehouse.Cron.{Local, due, parse_cron, same_minute}
use topbase.Notify.{
  Alert, Subscription, Notification, Message, Inbox, or_missing, alert_by_id, question_by_id,
  subscription_by_id, dashboard_by_id, update_alert, update_subscription, record_notification,
  alert_disabled, set_alert, set_subscription,
}
use topbase.Notify.Alerts.{evaluate, fire, run_rows, run_question, run_alert}
use topbase.Notify.Subscriptions.{run_subscription, is_due}

-- The row that an UPDATE of one id leaves under it.
module _ {ℓ} {A : Type ℓ} (id_of : A → Text) (id : Text) (change : A → A)
    (keeps : (x : A) → id_of (change x) ≡ id_of x) where
  find-map :
      (xs : List A) (old : A) (key : Text)
      → find (λ x. text_eq (id_of x) id) xs ≡ some old
      → key ≡ id
      → find
          (λ x. text_eq (id_of x) id)
          (map (λ x. if text_eq (id_of x) key then change x else x) xs)
        ≡ some (change old)
  find-map [] old key h e = cc
  find-map (x ∷ xs) old key h e = elim (Bool-cases (text_eq (id_of x) id)) [
    | inl same ↦ rw (e, same, keeps x, same) (ap some (ap change (some-injective (rw same at h))))
    | inr other ↦ rw (e, other, other) (find-map xs old key (rw other at h) e)
  ]

find-holds {ℓ} : {A : Type ℓ} (p : A → Bool) (xs : List A) (a : A) → find p xs ≡ some a → p a ≡ true
find-holds p [] a h = cc
find-holds p (x ∷ xs) a h = elim (Bool-cases (p x)) [
  | inl hit ↦ subst (λ y. p y ≡ true) (some-injective (rw hit at h)) hit
  | inr miss ↦ find-holds p xs a (rw miss at h)
]

or_missing-ok : {A : Type 0} (o : Option A) (a : A) → or_missing o ≡ ok a → o ≡ some a
unfolding or_missing
or_missing-ok none a h = cc
or_missing-ok (some b) a h = ap some (ok-injective h)

module _ (parse_float : Text → Option Number) where
  fire-alerts :
      (id : Text) (now : ℕ) (alert : Alert) (body : Option Message) (s after : Inbox)
      (note : Notification)
      → alert.once ≡ true
      → fire parse_float id now alert body s ≡ ok (note, after)
      → after.alerts ≡ (update_alert (record alert { enabled = false }) s).alerts
  unfolding fire record_notification update_alert
  fire-alerts id now alert none s after note once h = cc
  fire-alerts id now alert (some body) s after note once h =
      let plain : Inbox =
        record_notification
          (record {
            id = id;
            user_id = alert.created_by;
            alert_id = alert.id;
            body = body;
            created_at = now;
          })
          s in
      let pair : ◌≡◌ {A = Notification × Inbox}
          (_, update_alert (record alert { once = true; enabled = false }) plain) (note, after) =
        ok-injective (simp once at h) in
      rw once (sym (ap (λ (p : Notification × Inbox). (p.1).alerts) pair))

  run_question-alerts :
      (run : Query → Option (List (List Value))) (id : Text) (now : ℕ) (alert : Alert)
      (q : Option Query) (s after : Inbox) (note : Notification)
      → alert.once ≡ true
      → run_question parse_float run id now alert q s ≡ ok (note, after)
      → after.alerts ≡ (update_alert (record alert { enabled = false }) s).alerts
  unfolding run_question run_rows
  run_question-alerts run id now alert none s after note once h = cc
  run_question-alerts run id now alert (some q) s after note once h = elim (Option-cases (run q)) [
    | inl none_ ↦ cc (rw none_ at h)
    | inr (rows, e) ↦
        fire-alerts id now alert (evaluate parse_float alert rows) s after note once (rw e at h)
  ]

  -- An alert that is to fire once does so: when RunAlert has recorded its notification, every further
  -- RunAlert of it, whatever the query then gives, is refused because the alert is disabled.
  pub run_alert_once :
      (run later : Query → Option (List (List Value))) (id new alert_id : Text) (now then_ : ℕ)
      (s after : Inbox) (alert : Alert) (note : Notification)
      → alert_by_id alert_id s ≡ ok alert
      → alert.once ≡ true
      → run_alert parse_float run id now alert_id s ≡ ok (note, after)
      → run_alert parse_float later new then_ alert_id after ≡ err alert_disabled
  unfolding run_alert alert_by_id update_alert or_missing
  run_alert_once run later id new alert_id now then_ s after alert note there once h =
      let (found, e, g) = >>=-eq-ok (alert_by_id alert_id s) _ h in
      let same : found ≡ alert = ok-injective (sym e ∙ there) in
      let (on, k) = >>-eq-ok (guard found.enabled alert_disabled) _ g in
      let (question, q, r) = >>=-eq-ok (question_by_id found.question_id s) _ k in
      let hit = or_missing-ok (find (λ a. text_eq a.id alert_id) s.alerts) found e in
      let named = (text_eq_iff found.id alert_id).0 (find-holds _ s.alerts found hit) in
      let rows =
        run_question-alerts run id now found question.query_ir s after note
          (ap (λ (a : Alert). a.once) same ∙ once) r in
      let off =
        find-map (λ (a : Alert). a.id) alert_id (set_alert (record found { enabled = false }))
          (λ a. refl) s.alerts found found.id hit named in
      rw (rows, off) refl

due_same : (cron : Text) (l m : Local) → same_minute l m ≡ true → due cron m (some l) ≡ false
unfolding due
due_same cron l m minute = elim (Result-cases (parse_cron cron)) [
  | inr (why, bad) ↦ rw (due, bad) refl
  | inl (c, good) ↦ rw (due, good, minute) refl
]

and_false : (b c : Bool) → c ≡ false → (b && c) ≡ false
and_false true c e = e
and_false false c e = refl

-- A subscription that ran is not due again in the same minute of its zone.
run_subscription-due :
    (card : Dashboard → Text → Option (List (List Value))) (local : Text → ℕ → Local)
    (id key : Text) (now again : ℕ) (s after : Inbox) (note : Notification)
    → run_subscription card id now key s ≡ ok (note, after)
    → ((zone : Text) → same_minute (local zone now) (local zone again) ≡ true)
    → (x : Subscription) × (subscription_by_id key after ≡ ok x)
      × (is_due card local again x ≡ false)
unfolding run_subscription subscription_by_id update_subscription record_notification or_missing due
run_subscription-due card local id key now again s after note h minute =
    let (x, e, g) = >>=-eq-ok (subscription_by_id key s) _ h in
    let (board, b, r) = >>=-eq-ok (dashboard_by_id x.dashboard_id s) _ g in
    let rows = ap (λ (p : Notification × Inbox). (p.1).subscriptions) (sym (ok-injective r)) in
    let hit = or_missing-ok (find (λ y. text_eq y.id key) s.subscriptions) x e in
    let named = (text_eq_iff x.id key).0 (find-holds _ s.subscriptions x hit) in
    let ran : Subscription = record x { last_run_at = some now } in
    (
      ran,
      rw
          (
            rows,
            find-map (λ (y : Subscription). y.id) key (set_subscription ran) (λ y. refl)
                s.subscriptions x x.id hit named,
          )
          refl,
      and_false x.enabled _
          (due_same x.cron (local x.timezone now) (local x.timezone again) (minute x.timezone)),
    )
