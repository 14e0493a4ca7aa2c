-- ===== src/Dashboards/Reach.antt =====
-- internal/app/content/dashboard.go, internal/platform/httpapi/dashboard.go: the states that the
-- operations on dashboards lead to.
use topbase.Prelude.{ℕ, ◌≡◌, Bool, All, Option, ok}
use topbase.Text.{Text}
use topbase.Dashboards.{Dashboard}
use topbase.Dashboards.Service.{
  Boards, create_dashboard, put_dashboard, enable_public_link, disable_public_link, set_embedding,
  set_archived,
}
use topbase.Dashboards.Duplicate.{duplicate_dashboard}
use topbase.Dashboards.Publishing.{
  IsGuarded, create_dashboard-IsGuarded, put_dashboard-IsGuarded, enable_public_link-IsGuarded,
  disable_public_link-IsGuarded, set_embedding-IsGuarded, set_archived-IsGuarded,
  duplicate_dashboard-IsGuarded,
}

-- One request that succeeds; `draw` is the source of ids.
pub data Step (draw : Text → ℕ → Text) : Boards → Boards → Type 0 where
  creates :
      (label : Text) (now : ℕ) (user : Text) (d : Dashboard) (s : Boards) (out : Dashboard × Boards)
      → create_dashboard draw label now user d s ≡ ok out
      → Step draw s out.1
  puts :
      (user id : Text) (d : Dashboard) (s : Boards) (out : Dashboard × Boards)
      → put_dashboard draw user id d s ≡ ok out
      → Step draw s out.1
  publishes :
      (id user : Text) (s : Boards) (out : Dashboard × Boards)
      → enable_public_link draw id user s ≡ ok out
      → Step draw s out.1
  withdraws :
      (id user : Text) (s : Boards) (out : Dashboard × Boards)
      → disable_public_link draw id user s ≡ ok out
      → Step draw s out.1
  embeds :
      (id : Text) (enabled : Bool) (user : Text) (s : Boards) (out : Dashboard × Boards)
      → set_embedding draw id enabled user s ≡ ok out
      → Step draw s out.1
  duplicates :
      (id user : Text) (now : ℕ) (s : Boards) (out : Dashboard × Boards)
      → duplicate_dashboard draw id user now s ≡ ok out
      → Step draw s out.1
  archives : (id : Text) (at : Option ℕ) (s : Boards) → Step draw s (set_archived id at s)

-- A sequence of such requests.
pub data Reach (draw : Text → ℕ → Text) : Boards → Boards → Type 0 where
  stays : (s : Boards) → Reach draw s s
  goes : {s t u : Boards} → Step draw s t → Reach draw t u → Reach draw s u

module _ (draw : Text → ℕ → Text) where
  Step-IsGuarded : {s t : Boards} → Step draw s t → All IsGuarded s.boards → All IsGuarded t.boards
  Step-IsGuarded (creates label now user d s out e) h =
      create_dashboard-IsGuarded draw label now user d s h e
  Step-IsGuarded (puts user id d s out e) h = put_dashboard-IsGuarded draw user id d s h e
  Step-IsGuarded (publishes id user s out e) h = enable_public_link-IsGuarded draw id user s h e
  Step-IsGuarded (withdraws id user s out e) h = disable_public_link-IsGuarded draw id user s h e
  Step-IsGuarded (embeds id enabled user s out e) h =
      set_embedding-IsGuarded draw id enabled user s h e
  Step-IsGuarded (duplicates id user now s out e) h =
      duplicate_dashboard-IsGuarded draw id user now s h e
  Step-IsGuarded (archives id at s) h = set_archived-IsGuarded id at s h

  -- Whatever requests are served, embedding is on only for dashboards that have a public link, and no
  -- public link is "-", if that is so at the start.
  pub Reach-IsGuarded :
      {s t : Boards} → Reach draw s t → All IsGuarded s.boards → All IsGuarded t.boards
  Reach-IsGuarded (stays s) h = h
  Reach-IsGuarded (goes step rest) h = Reach-IsGuarded rest (Step-IsGuarded step h)
