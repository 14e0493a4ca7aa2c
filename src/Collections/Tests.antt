-- ===== src/Collections/Tests.antt =====
-- internal/app/content/service.go: collections on a concrete shelf.
use topbase.Prelude.{ℕ, ◌≡◌, refl, true, false, [], ◌∷◌, any, none, ok}
use topbase.Text.{Text, codes, text_eq}
use topbase.Collections.{
  Collection, Question, Shelf, ensure_personal_collection, update_collection, delete_collection,
}
use topbase.Collections.Filed.{IsFiled, delete_collection-IsFiled}
use topbase.Collections.Personal.{ensure_personal_collection_again}

abbrev draw : Text → ℕ → Text
draw prefix n = prefix

abbrev team : Text → Text → Collection
team id parent = record {
  id = id;
  parent_id = parent;
  name = id;
  personal_owner_user_id = [];
  owner_group_id = [];
  kind = codes "team_project";
  created_at = 1;
}

abbrev churn : Question
churn = record {
  id = codes "q";
  collection_id = codes "a";
  dashboard_id = [];
  name = codes "churn";
  description = [];
  query_ir = none;
  native_sql = codes "SELECT 1";
  chart_spec = none;
  query_type = codes "native";
  database_id = codes "db";
  created_by = codes "u";
  created_at = 1;
  archived_at = none;
  parameters = [];
}

abbrev shelf : Shelf
shelf = record {
  collections = team (codes "a") [] ∷ team (codes "b") (codes "a") ∷ [];
  questions = churn ∷ [];
  drawn = 0;
}

abbrev without_b : Shelf
without_b = record shelf { collections = team (codes "a") [] ∷ [] }

delete_b : delete_collection (codes "b") shelf ≡ ok without_b
unfolding delete_collection topbase.Collections.collection_by_id text_eq
delete_b = refl

shelf-IsFiled : IsFiled shelf
unfolding text_eq
shelf-IsFiled = ((refl, tt), (refl, (refl, tt)))

delete_collection-IsFiled_example :
    IsFiled without_b × (any (λ c. text_eq c.id (codes "b")) without_b.collections ≡ false)
delete_collection-IsFiled_example =
    delete_collection-IsFiled (codes "b") shelf without_b delete_b shelf-IsFiled

ensure_personal_collection_again_example :
    (text_eq
        (ensure_personal_collection draw 1 (codes "u") shelf).0.personal_owner_user_id
        (codes "u")
      ≡ true)
    × (ensure_personal_collection draw 2
          (codes "u")
          (ensure_personal_collection draw 1 (codes "u") shelf).1
        ≡ ensure_personal_collection draw 1 (codes "u") shelf)
ensure_personal_collection_again_example =
    ensure_personal_collection_again draw 1 2 (codes "u") shelf

-- A collection may be moved into one of its own descendants.
abbrev looped : Shelf
looped = record shelf {
  collections = team (codes "a") (codes "b") ∷ team (codes "b") (codes "a") ∷ [];
}

move_below :
    update_collection (codes "a") [] (codes "b") shelf ≡ ok (team (codes "a") (codes "b"), looped)
unfolding update_collection topbase.Collections.collection_by_id text_eq topbase.Text.is_blank
move_below = refl
