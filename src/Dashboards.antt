-- ===== src/Dashboards.antt =====
-- internal/core/dashboard.go, internal/app/content/dashboard.go: dashboards, with their store in
-- internal/adapters/appdb/w2.go.
pub mod Normal
pub mod Service
pub mod Duplicate
pub mod Publishing
pub mod Reach
pub mod Closed
pub mod Tests
use topbase.Prelude.{ℕ, Bool, List, Option}
use topbase.Text.{Text}
use topbase.QueryIr.Values.{Entries, Number}

pub record Layout : Type 0 where
  pub x : Number
  pub y : Number
  pub w : Number
  pub h : Number

pub record ClickBehavior : Type 0 where
  pub type : Text
  pub filter_id : Text
  pub url : Text
  pub question_id : Text
  pub dashboard_id : Text

pub record Card : Type 0 where
  pub id : Text
  pub dashboard_id : Text
  pub tab_id : Text
  pub type : Text
  pub question_id : Text
  pub title : Text
  pub body : Text
  pub config : Entries
  pub click : Option ClickBehavior
  pub layout : Layout

pub record Tab : Type 0 where
  pub id : Text
  pub dashboard_id : Text
  pub name : Text
  pub position : ℕ

pub record FilterMapping : Type 0 where
  pub card_id : Text
  pub field : Text

pub record DashboardFilter : Type 0 where
  pub id : Text
  pub dashboard_id : Text
  pub name : Text
  pub type : Text
  pub config : Entries
  pub mappings : List FilterMapping

-- Dashboard; a time is a number.
pub record Dashboard : Type 0 where
  pub id : Text
  pub collection_id : Text
  pub name : Text
  pub description : Text
  pub auto_refresh_seconds : ℕ
  pub appearance : Entries
  pub tabs : List Tab
  pub cards : List Card
  pub filters : List DashboardFilter
  pub archived_at : Option ℕ
  pub created_by : Text
  pub created_at : ℕ
  pub public_uuid : Text
  pub public_embed_enabled : Bool
