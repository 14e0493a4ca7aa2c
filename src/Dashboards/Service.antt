-- ===== src/Dashboards/Service.antt =====
-- internal/app/content/dashboard.go: the operations on dashboards, with their store in
-- internal/adapters/appdb/w2.go, whose writes succeed, and updateDashboard of
-- internal/platform/httpapi/dashboard.go.
--
-- `new_id prefix n` is the n-th text that core.NewID(prefix) draws. `now` is the time of the call, and
-- `label` that time in the layout "01-02 15:04".
use topbase.Prelude.{
  ℕ, suc, Bool, true, false, not, ◌&&◌, List, [], ◌∷◌, ◌++◌, map, find, if◌then◌else◌, Option, none,
  some, Result, ok, err, ◌>>=◌, ◌>>◌, guard, is_empty,
}
use topbase.Text.{Text, codes, text_eq, is_blank}
use topbase.Dashboards.{Dashboard}
use topbase.Dashboards.Normal.{normalize, or_text}

pub data Error : Type 0 where
  not_found archived not_published : Error

-- A revision of a dashboard: who made it, and what the dashboard was.
pub record Revision : Type 0 where
  pub actor_id : Text
  pub snapshot : Dashboard

-- The store of dashboards and that of their revisions, with the count of ids drawn.
pub record Boards : Type 0 where
  pub boards : List Dashboard
  pub revisions : List Revision
  pub drawn : ℕ

abbrev pub or_not_found : Option Dashboard → Result Error Dashboard
or_not_found none = err not_found
or_not_found (some d) = ok d

-- Dashboards.ByID.
unfoldable pub by_id : Boards → Text → Result Error Dashboard
by_id s id = or_not_found (find (λ d. text_eq d.id id) s.boards)

abbrev pub is_live : Dashboard → Bool
is_live d = elim d.archived_at [ none ↦ true | some at ↦ false ]

-- Dashboards.ByPublicUUID.
unfoldable pub by_public_uuid : Boards → Text → Result Error Dashboard
by_public_uuid s uuid =
    if is_blank uuid
    then err not_found
    else or_not_found (find (λ d. text_eq d.public_uuid uuid && is_live d) s.boards)

-- Dashboards.Create: what is stored is not archived.
abbrev pub insert : Dashboard → Text → ℕ → Boards → Boards
insert d actor n s = record s {
  boards = s.boards ++ record d { archived_at = none } ∷ [];
  revisions = s.revisions ++ record { actor_id = actor; snapshot = d } ∷ [];
  drawn = n;
}

-- Dashboards.Update, which leaves the creation and the archive alone.
abbrev pub rewrite : Dashboard → Dashboard → Dashboard
rewrite d old =
    if text_eq old.id d.id
    then record d {
      archived_at = old.archived_at;
      created_by = old.created_by;
      created_at = old.created_at;
    }
    else old

abbrev pub replace : Dashboard → Text → ℕ → Boards → Boards
replace d actor n s = record s {
  boards = map (rewrite d) s.boards;
  revisions = s.revisions ++ record { actor_id = actor; snapshot = d } ∷ [];
  drawn = n;
}

-- The PublicUUID of an update: "" keeps the one that is there, and "-" takes it away.
unfoldable pub updated_uuid : Text → Text → Text
updated_uuid given existing =
    let uuid = or_text given existing in if text_eq uuid (codes "-") then [] else uuid

abbrev pub updated : Dashboard → Dashboard → Dashboard
updated d existing = record d {
  name = if is_blank d.name then existing.name else d.name;
  public_uuid = updated_uuid d.public_uuid existing.public_uuid;
  created_by = existing.created_by;
  created_at = existing.created_at;
}

module _ (new_id : Text → ℕ → Text) where
  -- The end of Create, Update and Duplicate: normalizeDashboard, the store, recordRevision.
  unfoldable pub store_new : Text → Boards → ℕ → Dashboard → Result Error (Dashboard × Boards)
  store_new actor s n d =
      let (normal, m) = normalize new_id n d in ok (normal, insert normal actor (suc m) s)

  unfoldable pub store_old : Text → Boards → Dashboard → Result Error (Dashboard × Boards)
  store_old actor s d =
      let (normal, m) = normalize new_id s.drawn d in ok (normal, replace normal actor (suc m) s)

  -- CreateDashboard.
  unfoldable pub create_dashboard :
      Text → ℕ → Text → Dashboard → Boards → Result Error (Dashboard × Boards)
  create_dashboard label now user d s =
      let (id, n) =
        if is_empty d.id then (new_id (codes "dsh") s.drawn, suc s.drawn) else (d.id, s.drawn) in
      store_new user s n (record d {
        name = if is_blank d.name then codes "新建仪表盘 " ++ label else d.name;
        id = id;
        created_by = user;
        created_at = now;
        public_uuid = [];
        public_embed_enabled = false;
      })

  unfoldable pub update_over :
      Text → Boards → Dashboard → Dashboard → Result Error (Dashboard × Boards)
  update_over user s d existing =
      guard (is_live existing) archived >> store_old user s (updated d existing)

  -- UpdateDashboard.
  unfoldable pub update_dashboard : Text → Dashboard → Boards → Result Error (Dashboard × Boards)
  update_dashboard user d s = by_id s d.id >>= update_over user s d

  -- The handler updateDashboard, past its checks of access: the published state is the stored one's.
  unfoldable pub put_dashboard :
      Text → Text → Dashboard → Boards → Result Error (Dashboard × Boards)
  put_dashboard user id d s = by_id s id >>= λ existing.
      update_dashboard user
        (record d {
          id = id;
          public_uuid = existing.public_uuid;
          public_embed_enabled = existing.public_embed_enabled;
          collection_id = or_text d.collection_id existing.collection_id;
        })
        s

  -- EnableDashboardPublicLink.
  unfoldable pub published : Dashboard → Boards → Dashboard × Boards
  published d s =
      if is_empty d.public_uuid
      then (
        record d { public_uuid = new_id (codes "pub") s.drawn },
        record s { drawn = suc s.drawn },
      )
      else (d, s)

  unfoldable pub enable_public_link : Text → Text → Boards → Result Error (Dashboard × Boards)
  enable_public_link id user s =
      by_id s id >>= λ d. let (e, t) = published d s in update_dashboard user e t

  -- DisableDashboardPublicLink.
  unfoldable pub disable_public_link : Text → Text → Boards → Result Error (Dashboard × Boards)
  disable_public_link id user s = by_id s id >>= λ d.
      update_dashboard user (record d { public_uuid = codes "-"; public_embed_enabled = false }) s

  -- SetDashboardEmbedding.
  unfoldable pub set_embedding : Text → Bool → Text → Boards → Result Error (Dashboard × Boards)
  set_embedding id enabled user s = by_id s id >>= λ d.
      guard (not (enabled && is_empty d.public_uuid)) not_published
      >> update_dashboard user (record d { public_embed_enabled = enabled }) s

-- ArchiveDashboard and RestoreDashboard: Dashboards.SetArchived.
unfoldable pub set_archived : Text → Option ℕ → Boards → Boards
set_archived id at s = record s {
  boards = map (λ d. if text_eq d.id id then record d { archived_at = at } else d) s.boards;
}
