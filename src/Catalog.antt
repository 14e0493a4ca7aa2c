-- ===== src/Catalog.antt =====
-- internal/core/catalog.go: the catalogue of databases, with their connections and secrets.
--
-- The connector and what the stores may refuse are parameters. The state is what they keep: which
-- connections are open, by id, and the rows of the three stores, each by the id of its database. The
-- store of secrets and that of snapshots may be missing. A moment is a number of seconds.
pub mod Service
pub mod Added
mod Tests
use topbase.Prelude.{
  ℕ, Bool, true, false, not, ◌&&◌, List, [], ◌∷◌, ◌++◌, Option, none, some, if◌then◌else◌, any,
  keep, find, length, is_empty, Result, ok, err, ◌>>=◌, ◌==◌,
}
use topbase.Text.{Text, codes, text_eq, lookup}

-- core.Database, less the fields that are only shown.
pub record Database : Type 0 where
  pub id : Text
  pub name : Text
  pub engine : Text
  pub host : Text
  pub connected : Bool
  pub status : Text
  pub created_at : ℕ
  pub last_synced_at : Option ℕ
  pub table_count : ℕ

pub record SshTunnelRequest : Type 0 where
  pub host : Text
  pub port : ℕ
  pub username : Text
  pub authentication_type : Text
  pub password : Text
  pub private_key : Text
  pub private_key_password : Text
  pub host_key_fingerprint : Text

pub record ConnectionRequest : Type 0 where
  pub id : Text
  pub name : Text
  pub engine : Text
  pub host : Text
  pub port : ℕ
  pub database : Text
  pub username : Text
  pub password : Text
  pub ssl_mode : Text
  pub dsn : Text
  pub ssh : Option SshTunnelRequest
  pub clear_ssh : Bool

-- core.Table, with the columns as the connector tells them.
pub record Table : Type 0 where
  pub schema : Text
  pub name : Text
  pub columns : List Text

pub record SchemaSnapshot : Type 0 where
  pub database_id : Text
  pub tables : List Table
  pub synced_at : ℕ

pub record Catalog : Type 0 where
  pub open_ids : List Text
  pub entries : List Database
  pub secrets : List (Text × ConnectionRequest)
  pub snapshots : List (Text × SchemaSnapshot)

pub data CatalogError : Type 0 where
  not_connected no_saved_connection no_secrets no_snapshots not_found : CatalogError
  connect_failed close_failed tables_failed store_failed table_missing : CatalogError

abbrev pub Outcome : Type 0 → Type 0
Outcome A = Result CatalogError A × Catalog

-- What stands behind the interfaces of the service: what Connect and Tables answer, and which
-- writes the stores refuse.
pub record Ports : Type 0 where
  pub connect : ConnectionRequest → Option Database
  pub tables : Text → Option (List Table)
  pub closes : Text → Bool
  pub saves_entry : Database → Bool
  pub deletes_entry : Text → Bool
  pub saves_secret : Text → Bool
  pub deletes_secret : Text → Bool
  pub saves_snapshot : Text → Bool
  pub deletes_snapshot : Text → Bool
  pub has_secrets : Bool
  pub has_snapshots : Bool

abbrev pub without {ℓ} : {A : Type ℓ} → Text → List (Text × A) → List (Text × A)
without id rows = keep (λ row. not (text_eq (row.0) id)) rows

abbrev pub put_row {ℓ} : {A : Type ℓ} → Text → A → List (Text × A) → List (Text × A)
put_row id a rows = (id, a) ∷ without id rows

unfoldable pub is_open : Text → Catalog → Bool
is_open id c = any (λ o. text_eq o id) c.open_ids

unfoldable pub opened : Text → Catalog → Catalog
opened id c = record c { open_ids = id ∷ keep (λ o. not (text_eq o id)) c.open_ids }

unfoldable pub closed : Text → Catalog → Catalog
closed id c = record c { open_ids = keep (λ o. not (text_eq o id)) c.open_ids }

unfoldable pub with_entry : Database → Catalog → Catalog
with_entry d c = record c { entries = keep (λ e. not (text_eq e.id d.id)) c.entries ++ d ∷ [] }

unfoldable pub without_entry : Text → Catalog → Catalog
without_entry id c = record c { entries = keep (λ e. not (text_eq e.id id)) c.entries }

unfoldable pub with_secret : Text → ConnectionRequest → Catalog → Catalog
with_secret id input c = record c { secrets = put_row id input c.secrets }

abbrev or_else : Text → Text → Text
or_else given kept = if is_empty given then kept else given

merge_ssh : Option SshTunnelRequest → Option SshTunnelRequest → Option SshTunnelRequest
merge_ssh none kept = kept
merge_ssh (some ssh) none = some ssh
merge_ssh (some ssh) (some kept) = some (record ssh {
  password = or_else ssh.password kept.password;
  private_key = or_else ssh.private_key kept.private_key;
  private_key_password = or_else ssh.private_key_password kept.private_key_password;
  host_key_fingerprint = or_else ssh.host_key_fingerprint kept.host_key_fingerprint;
})

unfoldable pub merged : ConnectionRequest → Option ConnectionRequest → ConnectionRequest
unfolding merge_ssh
merged input none = input
merged input (some kept) = record input {
  name = or_else input.name kept.name;
  engine = or_else input.engine kept.engine;
  password = or_else input.password kept.password;
  dsn = if is_empty input.dsn && is_empty input.host then kept.dsn else input.dsn;
  ssh = if input.clear_ssh then none else merge_ssh input.ssh kept.ssh;
}
