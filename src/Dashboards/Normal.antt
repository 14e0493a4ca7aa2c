-- ===== src/Dashboards/Normal.antt =====
-- internal/app/content/dashboard.go: normalizeDashboard.
--
-- `new_id prefix n` is the n-th text that core.NewID(prefix) draws; a count goes through the code.
use topbase.Prelude.{ℕ, suc, false, List, [], ◌∷◌, if◌then◌else◌, is_empty}
use topbase.Text.{Text, codes}
use topbase.QueryIr.Values.{Number, number_zero}
use topbase.Dashboards.{Card, Tab, DashboardFilter, Dashboard}

abbrev pub or_text : Text → Text → Text
or_text t fallback = if is_empty t then fallback else t

module _ (new_id : Text → ℕ → Text) where
  -- `if id == "" { id = core.NewID(prefix) }`.
  unfoldable pub own_id : Text → Text → ℕ → Text × ℕ
  own_id prefix id n = if is_empty id then (new_id prefix n, suc n) else (id, n)

  unfoldable pub normal_tabs : Text → ℕ → ℕ → List Tab → List Tab × ℕ
  normal_tabs board i n [] = ([], n)
  normal_tabs board i n (t ∷ ts) =
      let (id, m) = own_id (codes "tab") t.id n in
      let (rest, last) = normal_tabs board (suc i) m ts in
      (record t { id = id; dashboard_id = board; position = i } ∷ rest, last)

  abbrev four_if_zero : Number → Number
  four_if_zero x =
      if number_zero x then record { negative = false; whole = 4; fraction = [] } else x

  unfoldable pub normal_card : Text → Text → Text → Card → Card
  normal_card board default_tab id c = record c {
    id = id;
    dashboard_id = board;
    type = or_text c.type (codes "question");
    tab_id = or_text c.tab_id default_tab;
    layout = record c.layout { w = four_if_zero c.layout.w; h = four_if_zero c.layout.h };
  }

  unfoldable pub normal_cards : Text → Text → ℕ → List Card → List Card × ℕ
  normal_cards board default_tab n [] = ([], n)
  normal_cards board default_tab n (c ∷ cs) =
      let (id, m) = own_id (codes "crd") c.id n in
      let (rest, last) = normal_cards board default_tab m cs in
      (normal_card board default_tab id c ∷ rest, last)

  unfoldable pub normal_filters : Text → ℕ → List DashboardFilter → List DashboardFilter × ℕ
  normal_filters board n [] = ([], n)
  normal_filters board n (f ∷ fs) =
      let (id, m) = own_id (codes "flt") f.id n in
      let (rest, last) = normal_filters board m fs in
      (record f { id = id; dashboard_id = board } ∷ rest, last)

  -- The tabs, or one if there is none.
  unfoldable pub some_tabs : ℕ → List Tab → List Tab × ℕ
  some_tabs n [] = (
    record { id = new_id (codes "tab") n; dashboard_id = []; name = codes "概述"; position = 0 } ∷ [],
    suc n,
  )
  some_tabs n (t ∷ ts) = (t ∷ ts, n)

  -- d.Tabs[0].ID, of tabs that are there.
  abbrev pub first_id : List Tab → Text
  first_id [] = []
  first_id (t ∷ ts) = t.id

  -- normalizeDashboard.
  unfoldable pub normalize : ℕ → Dashboard → Dashboard × ℕ
  normalize n d =
      let (given, n1) = some_tabs n d.tabs in
      let (tabs, n2) = normal_tabs d.id 0 n1 given in
      let (cards, n3) = normal_cards d.id (first_id tabs) n2 d.cards in
      let (filters, n4) = normal_filters d.id n3 d.filters in
      (record d { tabs = tabs; cards = cards; filters = filters }, n4)
