-- ===== src/Catalog/Tests.antt =====
-- The catalogue at work: a connector that opens one database, and stores that may refuse.
use topbase.Prelude.{◌≡◌, refl, Bool, true, false, [], ◌∷◌, none, some, ok, err, if◌then◌else◌}
use topbase.Text.{Text, codes, text_eq}
use topbase.Catalog.{
  Database, ConnectionRequest, Catalog, Ports, merged, store_failed, table_missing,
}
use topbase.Catalog.Service.{
  ensure_connected, add, remove, update, test, rescan_table, connection_settings, live_status,
}
use topbase.Catalog.Added.{add_undone, add-ensure_connected, connected_if, unknown}

abbrev sales : Database
sales = record {
  id = codes "pg_1";
  name = codes "sales";
  engine = codes "postgres";
  host = codes "db";
  connected = false;
  status = [];
  created_at = 0;
  last_synced_at = none;
  table_count = 0;
}

abbrev request : ConnectionRequest
request = record {
  id = [];
  name = codes "sales";
  engine = codes "postgres";
  host = codes "db";
  port = 5432;
  database = codes "sales";
  username = codes "u";
  password = codes "secret";
  ssl_mode = [];
  dsn = [];
  ssh = none;
  clear_ssh = false;
}

-- A connector that answers the right password only.
abbrev ports : Bool → Ports
ports saves_secret = record {
  connect = λ r. if text_eq r.password (codes "secret") then some sales else none;
  tables = λ id. some [];
  closes = λ id. true;
  saves_entry = λ d. true;
  deletes_entry = λ id. true;
  saves_secret = λ id. saves_secret;
  deletes_secret = λ id. true;
  saves_snapshot = λ id. true;
  deletes_snapshot = λ id. true;
  has_secrets = true;
  has_snapshots = true;
}

abbrev empty : Catalog
empty = record { open_ids = []; entries = []; secrets = []; snapshots = [] }

abbrev shown_sales : Database
shown_sales = record sales { created_at = 9; last_synced_at = some 9; connected = true }

abbrev full : Catalog
full = record {
  open_ids = codes "pg_1" ∷ [];
  entries = record sales { created_at = 9 } ∷ [];
  secrets = (codes "pg_1", record request { id = codes "pg_1" }) ∷ [];
  snapshots =
      (codes "pg_1", record { database_id = codes "pg_1"; tables = []; synced_at = 9 }) ∷ [];
}

add_test : add (ports true) 9 request empty ≡ (ok shown_sales, full)
unfolding add topbase.Catalog.Service.connect_with text_eq topbase.Catalog.Service.sync
    ensure_connected topbase.Catalog.is_open
add_test = refl

refused_test : add (ports false) 9 request empty ≡ (err store_failed, empty)
unfolding add topbase.Catalog.Service.connect_with text_eq
refused_test = refl

remove_test : remove (ports true) (codes "pg_1") full ≡ (ok tt, empty)
unfolding remove text_eq
remove_test = refl

test_closes : test (ports true) request empty ≡ (ok tt, empty)
unfolding test text_eq topbase.Catalog.closed
test_closes = refl

rescan_test :
    (rescan_table (ports true) 9 (codes "pg_1") (codes "public") (codes "t") full).0
    ≡ err table_missing
unfolding rescan_table topbase.Catalog.Service.sync ensure_connected topbase.Catalog.is_open text_eq
rescan_test = refl

-- A request for another host without a password gets the password that is stored.
merged_test :
    (merged (record request { host = codes "elsewhere"; password = [] }) (some request)).password
    ≡ codes "secret"
unfolding merged
merged_test = refl

-- An Update whose secret is not stored has changed the entry.
update_test :
    update
      (ports false)
      10
      (codes "pg_1")
      (record request { host = codes "new" })
      (record full { entries = record sales { created_at = 9; name = codes "old" } ∷ [] })
    ≡ (err store_failed, full)
unfolding update text_eq topbase.Catalog.Service.connect_with topbase.Catalog.Service.merge_secret
    topbase.Text.lookup
update_test = refl

add_undone_example : empty ≡ empty
unfolding unknown topbase.Catalog.is_open
add_undone_example =
    add_undone (ports false) 9 request empty empty store_failed (λ id. refl) (λ id. refl)
      (λ d e. refl) refused_test

add-ensure_connected_example :
    (ensure_connected (ports true) (codes "pg_1") (record full { open_ids = [] })).0
    ≡ connected_if ((ports true).connect (record request { id = codes "pg_1" }))
add-ensure_connected_example =
    add-ensure_connected (ports true) 9 request shown_sales empty full refl add_test
