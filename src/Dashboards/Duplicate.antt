-- ===== src/Dashboards/Duplicate.antt =====
-- internal/app/content/dashboard.go: DuplicateDashboard.
use topbase.Prelude.{ℕ, suc, false, List, [], ◌∷◌, ◌++◌, map, Option, none, some, Result, ◌>>=◌}
use topbase.Text.{Text, codes, lookup, trim_space}
use topbase.Dashboards.{Card, Tab, FilterMapping, DashboardFilter, Dashboard}
use topbase.Dashboards.Service.{Error, Boards, by_id, store_new}

-- A map from the old ids to the new ones, the last one assigned first.
abbrev pub Renaming : Type 0
Renaming = List (Text × Text)

abbrev pub or_same : Text → Option Text → Text
or_same id none = id
or_same id (some other) = other

unfoldable pub renamed : Renaming → Text → Text
renamed r id = or_same id (lookup id r)

abbrev pub remapped : Renaming → FilterMapping → FilterMapping
remapped r m = record m { card_id = renamed r m.card_id }

module _ (new_id : Text → ℕ → Text) where
  unfoldable pub copy_tabs : Text → ℕ → Renaming → List Tab → List Tab × Renaming × ℕ
  copy_tabs board n r [] = ([], r, n)
  copy_tabs board n r (t ∷ ts) =
      let id = new_id (codes "tab") n in
      let (rest, all, last) = copy_tabs board (suc n) ((t.id, id) ∷ r) ts in
      (record t { id = id; dashboard_id = board } ∷ rest, all, last)

  unfoldable pub copy_cards : Text → Renaming → ℕ → Renaming → List Card → List Card × Renaming × ℕ
  copy_cards board tabs n r [] = ([], r, n)
  copy_cards board tabs n r (c ∷ cs) =
      let id = new_id (codes "crd") n in
      let (rest, all, last) = copy_cards board tabs (suc n) ((c.id, id) ∷ r) cs in
      (record c { id = id; dashboard_id = board; tab_id = renamed tabs c.tab_id } ∷ rest, all, last)

  unfoldable pub copy_filters :
      Text → Renaming → ℕ → List DashboardFilter → List DashboardFilter × ℕ
  copy_filters board cards n [] = ([], n)
  copy_filters board cards n (f ∷ fs) =
      let (rest, last) = copy_filters board cards (suc n) fs in
      (
        record f {
          id = new_id (codes "flt") n;
          dashboard_id = board;
          mappings = map (remapped cards) f.mappings;
        }
            ∷ rest,
        last,
      )

  -- The copy before it is normalised, and the count of ids drawn.
  unfoldable pub copy_of : Text → ℕ → ℕ → Dashboard → Dashboard × ℕ
  copy_of user now n src =
      let id = new_id (codes "dsh") n in
      let (tabs, tab_map, n1) = copy_tabs id (suc n) [] src.tabs in
      let (cards, card_map, n2) = copy_cards id tab_map n1 [] src.cards in
      let (filters, n3) = copy_filters id card_map n2 src.filters in
      (
        record src {
          id = id;
          name = trim_space src.name ++ codes " 副本";
          public_uuid = [];
          public_embed_enabled = false;
          archived_at = none;
          created_by = user;
          created_at = now;
          tabs = tabs;
          cards = cards;
          filters = filters;
        },
        n3,
      )

  -- DuplicateDashboard.
  unfoldable pub duplicate_dashboard : Text → Text → ℕ → Boards → Result Error (Dashboard × Boards)
  duplicate_dashboard id user now s = by_id s id >>= λ src.
      let (copy, n) = copy_of user now s.drawn src in store_new new_id user s n copy
