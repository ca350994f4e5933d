-- ===== src/Preview.antt =====
-- src-tauri/src/preview/mod.rs: what the preview window keeps between runs, and the staging, the
-- commit and the rollback of a dock. A coordinate (`i32`) is its distance from the least one; a
-- width or a height (`f64`), which is only copied, is its bits.
pub mod Docking
pub mod Layout
pub mod Snapshot
pub mod Split
pub mod Monitors
pub mod Address
use hive_manager.Base.{
  ℕ, Bool, true, false, not, Option, none, some, List, [], ◌∷◌, Text, text_eq, if◌then◌else◌,
}

pub record WindowGeometry : Type 0 where
  pub x : ℕ
  pub y : ℕ
  pub width : ℕ
  pub height : ℕ

pub record PersistedPreviewState : Type 0 where
  docked : Bool
  floating : Option WindowGeometry
  preview_was_maximized : Bool
  main_restore : Option WindowGeometry
  main_was_maximized : Bool
  layout_applied : Bool
  session_urls : List (Text × Text)

-- The `Default` that a first run starts from.
abbrev pub fresh : PersistedPreviewState
fresh = record {
  docked = false;
  floating = none;
  preview_was_maximized = false;
  main_restore = none;
  main_was_maximized = false;
  layout_applied = false;
  session_urls = [];
}

pub record DockFields : Type 0 where
  docked : Bool
  floating : Option WindowGeometry
  preview_was_maximized : Bool
  main_restore : Option WindowGeometry
  main_was_maximized : Bool
  layout_applied : Bool

pub record StagedDock : Type 0 where
  previous : DockFields
  snapshot_owed : Bool
  main_geometry : Option WindowGeometry
  main_was_maximized : Bool
  preview_geometry : Option WindowGeometry
  preview_was_maximized : Bool

abbrev pub needs_main_snapshot : PersistedPreviewState → Bool
needs_main_snapshot s = not s.layout_applied

abbrev pub record_main_snapshot :
    Option WindowGeometry → Bool → PersistedPreviewState → PersistedPreviewState
record_main_snapshot geometry maximized s = record s {
  main_restore = geometry;
  main_was_maximized = maximized;
  layout_applied = true;
}

-- The snapshot handed out, and the state without it.
unfoldable pub take_main_restore :
    PersistedPreviewState → (Option WindowGeometry × Bool) × PersistedPreviewState
take_main_restore s = (
  (s.main_restore, s.main_was_maximized),
  record s { main_restore = none; main_was_maximized = false; layout_applied = false },
)

unfoldable pub take_preview_restore :
    PersistedPreviewState → (Option WindowGeometry × Bool) × PersistedPreviewState
take_preview_restore s =
    ((s.floating, s.preview_was_maximized), record s { preview_was_maximized = false })

abbrev pub dock_fields : PersistedPreviewState → DockFields
dock_fields s = record {
  docked = s.docked;
  floating = s.floating;
  preview_was_maximized = s.preview_was_maximized;
  main_restore = s.main_restore;
  main_was_maximized = s.main_was_maximized;
  layout_applied = s.layout_applied;
}

abbrev pub stage_dock :
    PersistedPreviewState → Option WindowGeometry → Bool → Option WindowGeometry → Bool → StagedDock
stage_dock s main_geometry main_was_maximized preview_geometry preview_was_maximized = record {
  previous = dock_fields s;
  snapshot_owed = needs_main_snapshot s;
  main_geometry = main_geometry;
  main_was_maximized = main_was_maximized;
  preview_geometry = preview_geometry;
  preview_was_maximized = preview_was_maximized;
}

-- What `floating` becomes when the dock took over a floating preview.
abbrev pub floating_committed : StagedDock → Option WindowGeometry → Option WindowGeometry
floating_committed staged current =
    if staged.preview_was_maximized
    then staged.previous.floating
    else elim staged.preview_geometry [ none ↦ current | some geometry ↦ some geometry ]

abbrev pub snapshot_committed : StagedDock → PersistedPreviewState → PersistedPreviewState
snapshot_committed staged s =
    if staged.snapshot_owed
    then record_main_snapshot staged.main_geometry staged.main_was_maximized s
    else s

abbrev pub preview_committed : StagedDock → PersistedPreviewState → PersistedPreviewState
preview_committed staged s = if staged.previous.docked then s else record s {
  floating = floating_committed staged s.floating;
  preview_was_maximized = staged.preview_was_maximized;
}

unfoldable pub commit_dock : StagedDock → PersistedPreviewState → PersistedPreviewState
commit_dock staged s =
    let s1 = preview_committed staged (snapshot_committed staged s) in record s1 { docked = true }

unfoldable pub rollback_dock : StagedDock → PersistedPreviewState → PersistedPreviewState
rollback_dock staged s =
    let f = staged.previous in
    record s {
      docked = f.docked;
      floating = f.floating;
      preview_was_maximized = f.preview_was_maximized;
      main_restore = f.main_restore;
      main_was_maximized = f.main_was_maximized;
      layout_applied = f.layout_applied;
    }

unfoldable pub settle_dock : StagedDock → Bool → PersistedPreviewState → PersistedPreviewState
unfolding commit_dock rollback_dock
settle_dock staged tiled s = if tiled then commit_dock staged s else rollback_dock staged s
