-- ===== src/Dashboards/Tests.antt =====
-- internal/app/content/dashboard.go: dashboards on concrete stores.
use topbase.Prelude.{ℕ, ◌≡◌, refl, false, [], ◌∷◌, All, none, ok}
use topbase.Text.{Text, codes}
use topbase.QueryIr.Values.{Number, end}
use topbase.Dashboards.{Card, Tab, DashboardFilter, Dashboard}
use topbase.Dashboards.Service.{Boards, put_dashboard, enable_public_link, set_embedding}
use topbase.Dashboards.Duplicate.{copy_of}
use topbase.Dashboards.Publishing.{IsGuarded}
use topbase.Dashboards.Reach.{publishes, Reach, stays, goes, Reach-IsGuarded}
use topbase.Dashboards.Closed.{IsClosed, copy_of-IsClosed}

abbrev draw : Text → ℕ → Text
draw prefix n = prefix

abbrev overview : Tab
overview = record {
  id = codes "t";
  dashboard_id = codes "d";
  name = codes "overview";
  position = 0;
}

abbrev four : Number
four = record { negative = false; whole = 4; fraction = [] }

abbrev revenue : Card
revenue = record {
  id = codes "c";
  dashboard_id = codes "d";
  tab_id = codes "t";
  type = codes "question";
  question_id = codes "q";
  title = codes "revenue";
  body = [];
  config = end;
  click = none;
  layout = record { x = four; y = four; w = four; h = four };
}

abbrev region : DashboardFilter
region = record {
  id = codes "f";
  dashboard_id = codes "d";
  name = codes "region";
  type = codes "text";
  config = end;
  mappings = record { card_id = codes "c"; field = codes "region" } ∷ [];
}

abbrev board : Dashboard
board = record {
  id = codes "d";
  collection_id = codes "col";
  name = codes "board";
  description = [];
  auto_refresh_seconds = 0;
  appearance = end;
  tabs = overview ∷ [];
  cards = revenue ∷ [];
  filters = region ∷ [];
  archived_at = none;
  created_by = codes "u";
  created_at = 1;
  public_uuid = [];
  public_embed_enabled = false;
}

board-IsClosed : IsClosed board
unfolding topbase.Text.one_of
board-IsClosed = ((refl, tt), ((refl, tt), tt))

copy_of-IsClosed_example : IsClosed (copy_of draw (codes "u") 2 0 board).0
copy_of-IsClosed_example = copy_of-IsClosed draw (codes "u") 2 0 board board-IsClosed

abbrev private_boards : Boards
private_boards = record { boards = board ∷ []; revisions = []; drawn = 0 }

abbrev linked_board : Dashboard
linked_board = record board { public_uuid = codes "pub" }

abbrev linked_boards : Boards
linked_boards = record {
  boards = linked_board ∷ [];
  revisions = record { actor_id = codes "u"; snapshot = linked_board } ∷ [];
  drawn = 2;
}

publish_board :
    enable_public_link draw (codes "d") (codes "u") private_boards
    ≡ ok (linked_board, linked_boards)
unfolding enable_public_link topbase.Dashboards.Service.by_id topbase.Text.text_eq
    topbase.Dashboards.Service.update_dashboard topbase.Dashboards.Service.published
    topbase.Dashboards.Service.update_over topbase.Dashboards.Service.store_old
    topbase.Dashboards.Normal.normalize topbase.Text.is_blank topbase.Dashboards.Normal.normal_tabs
    topbase.Dashboards.Normal.normal_cards topbase.Dashboards.Normal.normal_filters
    topbase.Dashboards.Service.updated_uuid topbase.Dashboards.Normal.some_tabs
    topbase.Dashboards.Normal.normal_card topbase.Dashboards.Normal.own_id
publish_board = refl

board_is_published : Reach draw private_boards linked_boards
board_is_published =
    goes
      (publishes (codes "d") (codes "u") private_boards (linked_board, linked_boards) publish_board)
      (stays linked_boards)

private-IsGuarded : All IsGuarded private_boards.boards
unfolding topbase.Text.text_eq
private-IsGuarded = ((refl, refl), tt)

Reach-IsGuarded_example : All IsGuarded linked_boards.boards
Reach-IsGuarded_example = Reach-IsGuarded draw board_is_published private-IsGuarded
