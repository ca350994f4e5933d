-- ===== src/Preview/Docking.antt =====
-- src-tauri/src/preview/mod.rs: the handlers of the preview window, as far as they change what it
-- keeps. A handler's reads of the windows and the results of its window calls are its arguments.
use hive_manager.Base.{Bool, false, not, ◌&&◌, Option, none, some, List, [], ◌∷◌, if◌then◌else◌}
use hive_manager.Preview.{
  WindowGeometry, PersistedPreviewState, StagedDock, take_main_restore, take_preview_restore,
  stage_dock, settle_dock,
}

-- `Moved` and `Resized` of the preview: a rectangle is recorded unless docked, maximized or unread.
unfoldable pub record_floating_geometry :
    Bool → Option WindowGeometry → PersistedPreviewState → PersistedPreviewState
record_floating_geometry maximized none s = s
record_floating_geometry maximized (some geometry) s =
    if not s.docked && not maximized then record s { floating = some geometry } else s

-- The recordings that land while a dock is in flight.
unfoldable pub recorded :
    List (Bool × Option WindowGeometry) → PersistedPreviewState → PersistedPreviewState
unfolding record_floating_geometry
recorded [] s = s
recorded ((maximized, geometry) ∷ rest) s =
    recorded rest (record_floating_geometry maximized geometry s)

-- The reads of the two windows before anything moves.
pub record Reads : Type 0 where
  pub main_geometry : Option WindowGeometry
  pub main_was_maximized : Bool
  pub preview_geometry : Option WindowGeometry
  pub preview_was_maximized : Bool

unfoldable pub staged_from : Reads → PersistedPreviewState → StagedDock
staged_from r s =
    stage_dock s r.main_geometry r.main_was_maximized r.preview_geometry r.preview_was_maximized

-- A dock from its reads on: staged, tiled while recordings land, settled by the tiling's outcome.
unfoldable pub enter_docked_mode :
    Reads
    → List (Bool × Option WindowGeometry)
    → Bool
    → PersistedPreviewState
    → PersistedPreviewState
unfolding recorded settle_dock staged_from
enter_docked_mode reads in_flight tiled s =
    settle_dock (staged_from reads s) tiled (recorded in_flight s)

-- Whether maximizing the main window again is tried and refused.
abbrev pub refused : Bool → PersistedPreviewState → Bool
refused maximizes s = s.main_was_maximized && not maximizes

-- An undock. A refused maximize ends it early, with the preference still set.
unfoldable pub leave_docked_mode : Bool → PersistedPreviewState → PersistedPreviewState
unfolding take_main_restore take_preview_restore
leave_docked_mode maximizes s =
    let s1 = (take_main_restore s).1 in
    if refused maximizes s then s1 else (take_preview_restore (record s1 { docked = false })).1

unfoldable pub undock_layout_after_teardown : PersistedPreviewState → PersistedPreviewState
unfolding take_main_restore
undock_layout_after_teardown s = if s.docked then (take_main_restore s).1 else s

-- A new window takes the maximize bit unless it will be docked.
unfoldable pub create_preview_window : PersistedPreviewState → PersistedPreviewState
unfolding take_preview_restore
create_preview_window s = if s.docked then s else (take_preview_restore s).1

-- `open_preview_window` when its dock failed: the preference is given up.
unfoldable pub downgrade : PersistedPreviewState → PersistedPreviewState
unfolding take_preview_restore
downgrade s = (take_preview_restore (record s { docked = false })).1

-- `close_preview_window`: a last recording, then the layout is undone and the preference kept.
unfoldable pub close_preview_window :
    Bool → Option WindowGeometry → PersistedPreviewState → PersistedPreviewState
unfolding record_floating_geometry undock_layout_after_teardown
close_preview_window maximized geometry s =
    undock_layout_after_teardown (record_floating_geometry maximized geometry s)

-- What can happen to the window.
pub data WindowEvent : Type 0 where
  moved : Bool → Option WindowGeometry → WindowEvent
  dock : Reads → List (Bool × Option WindowGeometry) → Bool → WindowEvent
  undock : Bool → WindowEvent
  opened : WindowEvent
  downgraded : WindowEvent
  close_command : Bool → Option WindowGeometry → WindowEvent
  destroyed : WindowEvent

unfoldable pub handle : WindowEvent → PersistedPreviewState → PersistedPreviewState
unfolding record_floating_geometry enter_docked_mode leave_docked_mode create_preview_window
    downgrade close_preview_window undock_layout_after_teardown
handle (moved maximized geometry) s = record_floating_geometry maximized geometry s
handle (dock reads in_flight tiled) s = enter_docked_mode reads in_flight tiled s
handle (undock maximizes) s = leave_docked_mode maximizes s
handle opened s = create_preview_window s
handle downgraded s = downgrade s
handle (close_command maximized geometry) s = close_preview_window maximized geometry s
handle destroyed s = undock_layout_after_teardown s

unfoldable pub handle_all : List WindowEvent → PersistedPreviewState → PersistedPreviewState
unfolding handle
handle_all [] s = s
handle_all (e ∷ es) s = handle_all es (handle e s)
