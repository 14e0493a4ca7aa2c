-- ===== src/Catalog/Service.antt =====
-- internal/core/catalog.go: the operations of CatalogService.
use topbase.Prelude.{
  ℕ, Bool, true, false, not, ◌&&◌, List, [], Option, none, some, if◌then◌else◌, any, find, length,
  is_empty, Result, ok, err, ◌==◌,
}
use topbase.Text.{Text, codes, text_eq, lookup}
use topbase.Catalog.{
  Database, ConnectionRequest, Table, SchemaSnapshot, Catalog, CatalogError, Outcome, Ports,
  without, put_row, is_open, opened, closed, with_entry, without_entry, with_secret, merged,
  not_connected, no_saved_connection, no_secrets, not_found, connect_failed, close_failed,
  tables_failed, store_failed, table_missing, put_row, without,
}

module _ (p : Ports) where
  unfoldable pub secret_of : Text → Catalog → Option ConnectionRequest
  secret_of id c = if p.has_secrets then lookup id c.secrets else none

  unfoldable pub merge_secret : Text → ConnectionRequest → Catalog → ConnectionRequest
  unfolding merged secret_of
  merge_secret id input c = merged input (secret_of id c)

  unfoldable pub connect_with : ConnectionRequest → Option Database → Catalog → Outcome Database
  unfolding opened
  connect_with input none c = (err connect_failed, c)
  connect_with input (some database) c = (ok database, opened database.id c)

  unfoldable pub ensure_connected : Text → Catalog → Outcome (Unit {0})
  unfolding connect_with
  ensure_connected id c = if is_open id c then (ok tt, c) else reopen p.has_secrets (secret_of id c)
    where
      done : Outcome Database → Outcome (Unit {0})
      done (ok database, after) = (ok tt, after)
      done (err why, after) = (err why, after)

      reopen : Bool → Option ConnectionRequest → Outcome (Unit {0})
      reopen false input = (err not_connected, c)
      reopen true none = (err no_saved_connection, c)
      reopen true (some input) =
          let again = record input { id = id } in done (connect_with again (p.connect again) c)

  unfoldable pub stored_snapshot : SchemaSnapshot → Catalog → Outcome SchemaSnapshot
  stored_snapshot snap c =
      if not p.has_snapshots
      then (ok snap, c)
      else if p.saves_snapshot snap.database_id
      then (ok snap, record c { snapshots = put_row snap.database_id snap c.snapshots })
      else (err store_failed, c)

  unfoldable pub sync_tables : ℕ → Text → Option (List Table) → Catalog → Outcome SchemaSnapshot
  unfolding stored_snapshot
  sync_tables now id none c = (err tables_failed, c)
  sync_tables now id (some tables) c =
      stored_snapshot (record { database_id = id; tables = tables; synced_at = now }) c

  unfoldable pub sync_behind : ℕ → Text → Outcome (Unit {0}) → Outcome SchemaSnapshot
  unfolding sync_tables
  sync_behind now id (err why, c) = (err why, c)
  sync_behind now id (ok done, c) = sync_tables now id (p.tables id) c

  unfoldable pub sync : ℕ → Text → Catalog → Outcome SchemaSnapshot
  unfolding sync_behind
  sync now id c = sync_behind now id (ensure_connected id c)

  -- What Add and Update return, behind their Sync, which may fail.
  unfoldable pub shown : Database → Outcome SchemaSnapshot → Outcome Database
  shown d (err why, c) = (ok (record d { connected = is_open d.id c }), c)
  shown d (ok snap, c) = (
    ok (record d {
      last_synced_at = some snap.synced_at;
      table_count = length snap.tables;
      connected = is_open d.id c;
    }),
    c,
  )

  unfoldable pub add_connected : ℕ → ConnectionRequest → Database → Catalog → Outcome Database
  unfolding shown closed with_entry without_entry with_secret
  add_connected now input database c =
      let d = record database {
        created_at = if database.created_at == 0 then now else database.created_at;
      } in
      let saved = with_entry d c in
      if not (p.saves_entry d)
      then (err store_failed, if p.closes d.id then closed d.id c else c)
      else if not p.has_secrets
      then shown d (sync now d.id saved)
      else if p.saves_secret d.id
      then shown d (sync now d.id (with_secret d.id (record input { id = d.id }) saved))
      else let taken_back = if p.deletes_entry d.id then without_entry d.id saved else saved in
        (err store_failed, if p.closes d.id then closed d.id taken_back else taken_back)

  unfoldable pub add_behind : ℕ → ConnectionRequest → Outcome Database → Outcome Database
  unfolding add_connected
  add_behind now input (err why, c) = (err why, c)
  add_behind now input (ok database, c) = add_connected now input database c

  unfoldable pub add : ℕ → ConnectionRequest → Catalog → Outcome Database
  unfolding add_behind
  add now input c =
      let new = record input { id = [] } in add_behind now new (connect_with new (p.connect new) c)

  unfoldable pub test : ConnectionRequest → Catalog → Outcome (Unit {0})
  unfolding connect_with
  test input c = behind (connect_with full (p.connect full) c)
    where
      full : ConnectionRequest
      full = record (if is_empty input.id then input else merge_secret input.id input c) { id = [] }

      behind : Outcome Database → Outcome (Unit {0})
      behind (err why, after) = (err why, after)
      behind (ok database, after) =
          if p.closes database.id
          then (ok tt, closed database.id after)
          else (err close_failed, after)

  unfoldable pub remove : Text → Catalog → Outcome (Unit {0})
  unfolding closed without_entry
  remove id c =
      let shut = closed id c in
      let bare =
        if p.has_secrets then record shut { secrets = without id shut.secrets } else shut in
      let plain = record bare {
        snapshots =
            if p.has_snapshots && p.deletes_snapshot id
            then without id bare.snapshots
            else bare.snapshots;
      } in
      if not (p.closes id)
      then (err close_failed, c)
      else if p.has_secrets && not (p.deletes_secret id)
      then (err store_failed, shut)
      else if p.deletes_entry id
      then (ok tt, without_entry id plain)
      else (err store_failed, plain)

  unfoldable pub update_connected :
      ℕ → Text → ConnectionRequest → ℕ → Database → Catalog → Outcome Database
  unfolding shown with_entry with_secret
  update_connected now id full created_at database c =
      let d = record database { id = id; created_at = created_at } in
      let saved = with_entry d c in
      if not (p.saves_entry d)
      then (err store_failed, c)
      else if not p.has_secrets
      then shown d (sync now id saved)
      else if p.saves_secret id
      then shown d (sync now id (with_secret id full saved))
      else (err store_failed, saved)

  unfoldable pub update : ℕ → Text → ConnectionRequest → Catalog → Outcome Database
  unfolding update_connected
  update now id input c = from (find (λ e. text_eq e.id id) c.entries)
    where
      full : ConnectionRequest
      full = record (merge_secret id input c) { id = id }

      behind : ℕ → Outcome Database → Outcome Database
      behind created_at (err why, after) = (err why, after)
      behind created_at (ok database, after) =
          update_connected now id full created_at database after

      from : Option Database → Outcome Database
      from none = (err not_found, c)
      from (some existing) = behind existing.created_at (connect_with full (p.connect full) c)

  unfoldable pub connection_settings : Text → Catalog → Result CatalogError ConnectionRequest
  connection_settings id c = given p.has_secrets (secret_of id c)
    where
      given : Bool → Option ConnectionRequest → Result CatalogError ConnectionRequest
      given false kept = err no_secrets
      given true none = err not_found
      given true (some kept) = ok (record kept { id = id; clear_ssh = false })

  unfoldable pub live_status : Database → Catalog → Database
  live_status d c = record d {
    connected = is_open d.id c;
    status = if is_open d.id c then codes "connected" else codes "disconnected";
  }

  unfoldable pub rescan_table : ℕ → Text → Text → Text → Catalog → Outcome SchemaSnapshot
  rescan_table now id schema name c = checked (sync now id c)
    where
      checked : Outcome SchemaSnapshot → Outcome SchemaSnapshot
      checked (err why, after) = (err why, after)
      checked (ok snap, after) = (
        if any (λ t. text_eq t.schema schema && text_eq t.name name) snap.tables
            then ok snap
            else err table_missing,
        after,
      )
