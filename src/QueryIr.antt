-- ===== src/QueryIr.antt =====
-- internal/core/queryir/query.go: the query of the visual editor, and the values in it.
--
-- A Go pointer is an Option. A slice that may be nil is a list, since the code only asks for its
-- length. A number is a finite decimal, an int a number with a sign.
pub mod Values
pub mod Identifier
pub mod Quoting
pub mod Validate
pub mod Drill
pub mod Drilling
mod Tests
use topbase.Prelude.{ℕ, Bool, true, false, List, [], ◌∷◌, Option}
use topbase.Text.{Text}
use Values.{ℤ, Number, Value}

pub record TableRef : Type 0 where
  pub schema : Text
  pub name : Text

pub record Source : Type 0 where
  pub database_id : Text
  pub table : Option TableRef
  pub model_id : Text
  pub question_id : Text
  pub metric_id : Text
  pub alias : Text

pub record JoinCondition : Type 0 where
  pub left : Text
  pub right : Text
  pub op : Text

pub record Join : Type 0 where
  pub type : Text
  pub alias : Text
  pub table : Option TableRef
  pub conditions : List JoinCondition
  pub implicit : Bool

pub record Expression : Type 0 where
  pub alias : Text
  pub op : Text
  pub left : Text
  pub right : Value

-- The fields of Filter other than And and Or.
pub record Condition : Type 0 where
  pub field : Text
  pub op : Text
  pub value : Value
  pub segment_id : Text

-- A filter with its And and its Or; a slice of filters is `Filters`.
mutual
  pub data Filter : Type 0 where
    filter : Condition → Filters → Filters → Filter

  pub data Filters : Type 0 where
    nil : Filters
    cons : Filter → Filters → Filters

pub record Aggregation : Type 0 where
  pub fn : Text
  pub field : Text
  pub alias : Text

pub record Breakout : Type 0 where
  pub field : Text
  pub temporal : Text
  pub bin_width : Number

pub record Order : Type 0 where
  pub field : Text
  pub dir : Text

pub record Parameter : Type 0 where
  pub name : Text
  pub type : Text
  pub field : Text

pub record Query : Type 0 where
  pub version : ℤ
  pub source : Source
  pub joins : List Join
  pub expressions : List Expression
  pub fields : List Text
  pub filters : Filters
  pub aggregations : List Aggregation
  pub group_by : List Breakout
  pub having : Filters
  pub order_by : List Order
  pub limit : ℤ
  pub parameters : List Parameter

-- append(fs, gs...), and len(fs) == 0.
abbrev pub append : Filters → Filters → Filters
append nil gs = gs
append (cons f fs) gs = cons f (append fs gs)

abbrev pub no_filters : Filters → Bool
no_filters nil = true
no_filters (cons f fs) = false

-- []Filter{f}.
abbrev pub single : Filter → Filters
single f = cons f nil

-- Filter{Field: field, Op: op, Value: value}.
abbrev pub leaf : Text → Text → Value → Filter
leaf field op value =
    filter (record { field = field; op = op; value = value; segment_id = [] }) nil nil
