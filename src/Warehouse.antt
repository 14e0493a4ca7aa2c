-- ===== src/Warehouse.antt =====
-- internal/core/warehouse.go, internal/app/warehouse: schedules that write the rows of a question or a
-- model into a table, their runs, and what a run leaves behind.
pub mod Target
pub mod Cron
pub mod Propose
pub mod Source
pub mod Create
pub mod Running
pub mod Confirmed
pub mod Settled
pub mod Writer
pub mod Strategies
pub mod Materialized
pub mod Tests
pub mod WriterTests
use topbase.Prelude.{ℕ, Bool, List, Option}
use topbase.Text.{Text}
use topbase.QueryIr.{Query, Parameter}
use topbase.QueryIr.Values.{Value}
use topbase.Params.Native

-- The errors, with the texts that their messages quote.
pub data Error : Type 0 where
  target_required names_required source_required cron_fields : Error
  confirm_required watermark_required already_running : Error
  invalid_ident : (label value : Text) → Error
  unsupported_strategy : Text → Error
  not_found : Text → Error
  no_query no_compiler no_writer : Error
  native_error : Native.Error → Error
  outside other_engine : Text → Error
  not_select many_statements : Error

-- core.Schedule; a time is a number.
pub record Schedule : Type 0 where
  pub id : Text
  pub name : Text
  pub question_id : Text
  pub model_id : Text
  pub database_id : Text
  pub cron : Text
  pub timezone : Text
  pub materialize_to : Text
  pub strategy : Text
  pub watermark_field : Text
  pub confirm_source_write : Bool
  pub enabled : Bool
  pub last_run_at : Option ℕ
  pub created_by : Text
  pub created_at : ℕ

-- The part of core.Question and core.Model that a run reads.
pub record Question : Type 0 where
  pub id : Text
  pub name : Text
  pub query_type : Text
  pub database_id : Text
  pub query_ir : Option Query
  pub native_sql : Text
  pub parameters : List Parameter

pub record Model : Type 0 where
  pub id : Text
  pub name : Text
  pub database_id : Text
  pub query_ir : Option Query
  pub native_sql : Text

-- Run.Status.
pub data Status : Type 0 where
  running succeeded failed : Status

pub record Run : Type 0 where
  pub id : Text
  pub schedule_id : Text
  pub status : Status
  pub sql_compiled : Text
  pub row_count : ℕ
  pub error : Option Error
  pub started_at : ℕ
  pub finished_at : Option ℕ

pub record MaterializedTable : Type 0 where
  pub id : Text
  pub database_id : Text
  pub schema : Text
  pub name : Text
  pub schedule_id : Text
  pub question_id : Text
  pub last_run_at : ℕ
  pub row_count : ℕ
  pub watermark : Text

-- A LineageEdge to a table.
pub data Lineage : Type 0 where
  from_question from_schedule : (from to : Text) → Lineage

pub record MaterializeSpec : Type 0 where
  pub database_id : Text
  pub schema : Text
  pub table : Text
  pub strategy : Text
  pub sql : Text
  pub args : List Value
  pub watermark_field : Text

pub record MaterializeResult : Type 0 where
  pub row_count : ℕ
  pub watermark : Text
