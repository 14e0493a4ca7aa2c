-- ===== src/Collections.antt =====
-- internal/core/content.go, internal/app/content/service.go: collections and questions, with their stores
-- in internal/adapters/appdb/store.go, whose writes succeed. A collection's kind is never blank there.
--
-- `new_id prefix n` is the n-th text that core.NewID(prefix) draws.
pub mod Filed
pub mod Personal
pub mod Tests
use topbase.Prelude.{
  ℕ, suc, Bool, true, false, not, ◌&&◌, ◌||◌, List, [], ◌∷◌, ◌++◌, map, keep, any, find,
  if◌then◌else◌, Option, none, some, Result, ok, err, ◌>>=◌, ◌>>◌, guard, is_empty,
}
use topbase.Text.{Text, codes, text_eq, is_blank}
use topbase.QueryIr.{Query, Parameter}
use topbase.QueryIr.Validate

pub data Error : Type 0 where
  not_found name_required query_required : Error
  personal_stays has_questions has_children : Error
  invalid_query : Validate.Error → Error

pub record Collection : Type 0 where
  pub id : Text
  pub parent_id : Text
  pub name : Text
  pub personal_owner_user_id : Text
  pub owner_group_id : Text
  pub kind : Text
  pub created_at : ℕ

-- core.Question; `chart_spec` is its JSON.
pub record Question : Type 0 where
  pub id : Text
  pub collection_id : Text
  pub dashboard_id : Text
  pub name : Text
  pub description : Text
  pub query_ir : Option Query
  pub native_sql : Text
  pub chart_spec : Option Text
  pub query_type : Text
  pub database_id : Text
  pub created_by : Text
  pub created_at : ℕ
  pub archived_at : Option ℕ
  pub parameters : List Parameter

-- The stores, collections in the order of their creation, and the count of ids drawn.
pub record Shelf : Type 0 where
  pub collections : List Collection
  pub questions : List Question
  pub drawn : ℕ

abbrev pub or_not_found {ℓ} : {A : Type ℓ} → Option A → Result Error A
or_not_found none = err not_found
or_not_found (some a) = ok a

unfoldable pub collection_by_id : Text → Shelf → Result Error Collection
collection_by_id id s = or_not_found (find (λ c. text_eq c.id id) s.collections)

unfoldable pub question_by_id : Text → Shelf → Result Error Question
question_by_id id s = or_not_found (find (λ q. text_eq q.id id) s.questions)

abbrev pub add_collection : Collection → Shelf → Shelf
add_collection c s = record s { collections = s.collections ++ c ∷ []; drawn = suc s.drawn }

module _ (new_id : Text → ℕ → Text) (now : ℕ) where
  abbrev pub personal_of : Text → Shelf → Collection
  personal_of user s = record {
    id = new_id (codes "col") s.drawn;
    parent_id = [];
    name = codes "我的分析";
    personal_owner_user_id = user;
    owner_group_id = [];
    kind = codes "personal_project";
    created_at = now;
  }

  -- EnsurePersonalCollection, for the user's id.
  unfoldable pub ensure_personal_collection : Text → Shelf → Collection × Shelf
  ensure_personal_collection user s =
      elim (find (λ c. text_eq c.personal_owner_user_id user) s.collections) [
        | some c ↦ (c, s)
        | none ↦ (personal_of user s, add_collection (personal_of user s) s)
      ]

  -- The owner, the group and the kind of a new collection, which a parent hands down.
  abbrev owned : Text → Text → Text × Text × Text
  owned owner group =
      (if is_empty owner then codes "team_project" else codes "personal_project", owner, group)

  abbrev inherited : Collection → Text × Text × Text
  inherited parent = (parent.kind, parent.personal_owner_user_id, parent.owner_group_id)

  unfoldable pub ownership : Text → Text → Text → Shelf → Result Error (Text × Text × Text)
  ownership parent owner group s =
      if is_empty parent
      then ok (owned owner group)
      else collection_by_id parent s >>= λ c. ok (inherited c)

  abbrev pub new_collection : Text → Text → Shelf → Text × Text × Text → Collection
  new_collection name parent s (kind, owner, group) = record {
    id = new_id (codes "col") s.drawn;
    parent_id = parent;
    name = name;
    personal_owner_user_id = owner;
    owner_group_id = group;
    kind = kind;
    created_at = now;
  }

  -- CreateCollection.
  unfoldable pub create_collection :
      Text → Text → Text → Text → Shelf → Result Error (Collection × Shelf)
  create_collection name parent owner group s =
      guard (not (is_blank name)) name_required
      >> (ownership parent owner group s >>= λ how.
          ok
            (new_collection name parent s how, add_collection (new_collection name parent s how) s))

  -- The kind of a query that does not say it.
  unfoldable pub query_type_of : Question → Text
  query_type_of q =
      if is_empty q.query_type
      then (if is_empty q.native_sql then codes "queryir" else codes "native")
      else q.query_type

  -- The database of a visual query, which must be valid, or that of the question.
  checked_query : Question → Option Query → Result Error Text
  checked_query q none = err query_required
  checked_query q (some query) = elim (Validate.validate query) [
    | err why ↦ err (invalid_query why)
    | ok passed ↦ ok query.source.database_id
  ]

  unfoldable pub database_for : Question → Result Error Text
  unfolding checked_query
  database_for q =
      if text_eq (query_type_of q) (codes "queryir")
      then checked_query q q.query_ir
      else ok q.database_id

  -- CreateQuestion, without its revision.
  unfoldable pub create_question : Text → Question → Shelf → Result Error (Question × Shelf)
  create_question user q s =
      guard (not (is_blank q.name)) name_required
      >> (database_for q >>= λ database.
          let item = record q {
            query_type = query_type_of q;
            database_id = database;
            id = if is_empty q.id then new_id (codes "qst") s.drawn else q.id;
            created_by = user;
            created_at = now;
          } in
          ok (item, record s { questions = s.questions ++ item ∷ []; drawn = suc s.drawn }))

-- UpdateCollection: the store writes the parent and the name.
abbrev pub moved : Text → Text → Collection → Collection
moved name parent c = record c { parent_id = parent; name = if is_blank name then c.name else name }

unfoldable pub update_collection : Text → Text → Text → Shelf → Result Error (Collection × Shelf)
update_collection id name parent s = collection_by_id id s >>= λ existing.
    guard (is_empty existing.personal_owner_user_id || text_eq parent existing.parent_id)
      personal_stays
    >> ok (
      moved name parent existing,
      record s {
        collections =
            map
              (λ c.
                if text_eq c.id id
                then record c { parent_id = parent; name = (moved name parent existing).name }
                else c)
              s.collections;
      },
    )

-- DeleteCollection.
unfoldable pub delete_collection : Text → Shelf → Result Error Shelf
delete_collection id s = collection_by_id id s >>= λ existing.
    guard (is_empty existing.personal_owner_user_id) personal_stays
    >> (guard (not (any (λ q. text_eq q.collection_id id) s.questions)) has_questions
        >> (guard (not (any (λ c. text_eq c.parent_id id) s.collections)) has_children
            >> ok (record s { collections = keep (λ c. not (text_eq c.id id)) s.collections })))

-- UpdateQuestion: the visual query of the patch, then the SQL, take the place of what is there.
abbrev pub with_query : Option Query → Question → Question
with_query none q = q
with_query (some query) q = record q {
  query_ir = some query;
  native_sql = [];
  query_type = codes "queryir";
  database_id = query.source.database_id;
}

unfoldable pub with_native : Question → Question → Question
with_native patch q =
    if text_eq patch.query_type (codes "native") && not (is_blank patch.native_sql)
    then record q {
      native_sql = patch.native_sql;
      query_ir = none;
      query_type = codes "native";
      database_id = patch.database_id;
    }
    else q

abbrev or_spec : Option Text → Option Text → Option Text
or_spec none old = old
or_spec (some spec) old = some spec

unfoldable pub patched : Question → Question → Question
patched patch q = with_native patch (
    with_query patch.query_ir (record q {
      name = if is_blank patch.name then q.name else patch.name;
      description = patch.description;
      collection_id = patch.collection_id;
      chart_spec = or_spec patch.chart_spec q.chart_spec;
    }))

unfoldable pub update_question : Question → Shelf → Result Error (Question × Shelf)
update_question patch s = question_by_id patch.id s >>= λ existing.
    let item = patched patch existing in
    ok (
      item,
      record s { questions = map (λ q. if text_eq q.id item.id then item else q) s.questions },
    )

-- ArchiveQuestion and RestoreQuestion.
unfoldable pub set_archived : Text → Option ℕ → Shelf → Shelf
set_archived id at s = record s {
  questions = map (λ q. if text_eq q.id id then record q { archived_at = at } else q) s.questions;
}
