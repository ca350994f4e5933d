-- ===== src/Preview/Snapshot.antt =====
-- src-tauri/src/preview/mod.rs: the restore that a docked layout owes the main window.
use hive_manager.Base.{
  ◌≡◌, refl, sym, subst, Bool, true, false, not, Option, List, [], ◌∷◌, arith, all, if_both,
}
use hive_manager.Preview.{
  WindowGeometry, PersistedPreviewState, take_main_restore, take_preview_restore,
  snapshot_committed, commit_dock, settle_dock,
}
use hive_manager.Preview.Docking.{
  record_floating_geometry, Reads, staged_from, enter_docked_mode, create_preview_window, downgrade,
  WindowEvent, moved, dock, undock, opened, downgraded, close_command, destroyed, handle,
  handle_all,
}
use hive_manager.Preview.Layout.{record-only_floating, recorded-only_floating, failed_dock_lem}

-- A docked layout is applied and owes the main window this restore.
record Owes (owed : Option WindowGeometry × Bool) (s : PersistedPreviewState) : Type 0 where
  applied : s.layout_applied ≡ true
  kept : (s.main_restore, s.main_was_maximized) ≡ owed

record_floating-Owes :
    {owed : Option WindowGeometry × Bool} (m : Bool) (g : Option WindowGeometry)
    (s : PersistedPreviewState)
    → Owes owed s
    → Owes owed (record_floating_geometry m g s)
record_floating-Owes {owed} m g s o =
    let (f, e) = record-only_floating m g s in
    subst (λ t. Owes owed t) (sym e) record { applied = o.applied; kept = o.kept }

snapshot_committed-Owes :
    {owed : Option WindowGeometry × Bool} (r : Reads) (f : Option WindowGeometry)
    (s : PersistedPreviewState)
    → Owes owed s
    → Owes owed (snapshot_committed (staged_from r s) (record s { floating = f }))
unfolding staged_from
snapshot_committed-Owes {owed} r f s o =
    if_both (λ t. Owes owed t) (not s.layout_applied) (λ e. ground (arith, e, o.applied))
      (λ _. record { applied = o.applied; kept = o.kept })

commit-Owes :
    {owed : Option WindowGeometry × Bool} (r : Reads) (f : Option WindowGeometry)
    (s : PersistedPreviewState)
    → Owes owed s
    → Owes owed (commit_dock (staged_from r s) (record s { floating = f }))
unfolding commit_dock staged_from
commit-Owes {owed} r f s o =
    let inner = snapshot_committed-Owes r f s o in
    if_both (λ t. Owes owed (record t { docked = true })) s.docked
      (λ _. record { applied = inner.applied; kept = inner.kept })
      (λ _. record { applied = inner.applied; kept = inner.kept })

dock-Owes :
    {owed : Option WindowGeometry × Bool} (r : Reads)
    (in_flight : List (Bool × Option WindowGeometry)) (tiled : Bool) (s : PersistedPreviewState)
    → Owes owed s
    → Owes owed (enter_docked_mode r in_flight tiled s)
unfolding enter_docked_mode settle_dock
dock-Owes {owed} r in_flight false s o =
    subst (λ t. Owes owed t) (sym (failed_dock_lem r in_flight s)) o
dock-Owes {owed} r in_flight true s o =
    let (f, e) = recorded-only_floating in_flight s in
    subst (λ t. Owes owed (commit_dock (staged_from r s) t)) (sym e) (commit-Owes r f s o)

-- The events that leave a docked layout in place.
unfoldable pub stays : WindowEvent → Bool
stays (undock _) = false
stays (close_command _ _) = false
stays destroyed = false
stays (moved _ _) = true
stays (dock _ _ _) = true
stays opened = true
stays downgraded = true

opened-Owes :
    {owed : Option WindowGeometry × Bool} (s : PersistedPreviewState)
    → Owes owed s
    → Owes owed (create_preview_window s)
unfolding create_preview_window take_preview_restore
opened-Owes {owed} s o =
    if_both (λ t. Owes owed t) s.docked (λ _. o)
      (λ _. record { applied = o.applied; kept = o.kept })

handle-Owes :
    {owed : Option WindowGeometry × Bool} (e : WindowEvent) (s : PersistedPreviewState)
    → stays e ≡ true
    → Owes owed s
    → Owes owed (handle e s)
unfolding stays handle downgrade take_preview_restore
handle-Owes (undock _) s h o = cc
handle-Owes (close_command _ _) s h o = cc
handle-Owes destroyed s h o = cc
handle-Owes (moved m g) s h o = record_floating-Owes m g s o
handle-Owes (dock r in_flight tiled) s h o = dock-Owes r in_flight tiled s o
handle-Owes opened s h o = opened-Owes s o
handle-Owes downgraded s h o = record { applied = o.applied; kept = o.kept }

handle_all-Owes :
    {owed : Option WindowGeometry × Bool} (es : List WindowEvent) (s : PersistedPreviewState)
    → all stays es ≡ true
    → Owes owed s
    → Owes owed (handle_all es s)
unfolding handle_all
handle_all-Owes [] s h o = o
handle_all-Owes (e ∷ es) s h o =
    handle_all-Owes es (handle e s) (ground (arith, h)) (handle-Owes e s (ground (arith, h)) o)

first_dock-Owes :
    (r : Reads) (f : Option WindowGeometry) (s : PersistedPreviewState)
    → s.layout_applied ≡ false
    → Owes
        (r.main_geometry, r.main_was_maximized)
        (commit_dock (staged_from r s) (record s { floating = f }))
unfolding commit_dock staged_from
first_dock-Owes r f s h =
    if_both (λ t. Owes (r.main_geometry, r.main_was_maximized) (record t { docked = true }))
      s.docked (λ _. record { applied = inner.applied; kept = inner.kept })
      (λ _. record { applied = inner.applied; kept = inner.kept })
  where
    inner :
        Owes
          (r.main_geometry, r.main_was_maximized)
          (snapshot_committed (staged_from r s) (record s { floating = f }))
    inner =
        if_both (λ t. Owes (r.main_geometry, r.main_was_maximized) t) (not s.layout_applied)
          (λ _. record { applied = refl; kept = refl }) (λ e. ground (arith, h, e))

-- A dock that succeeds when no docked layout is applied keeps the main window's geometry and
-- maximized bit as read before anything moved: after it, whatever moves, further docks (successful
-- or failed), reopenings and downgrades follow, the restore handed out is that first reading.
pub take_main_restore-dock :
    (r : Reads) (in_flight : List (Bool × Option WindowGeometry)) (es : List WindowEvent)
    (s : PersistedPreviewState)
    → s.layout_applied ≡ false
    → all stays es ≡ true
    → (take_main_restore (handle_all es (enter_docked_mode r in_flight true s))).0
      ≡ (r.main_geometry, r.main_was_maximized)
unfolding take_main_restore enter_docked_mode settle_dock
take_main_restore-dock r in_flight es s h k =
    let (f, e) = recorded-only_floating in_flight s in
    let first =
      subst (λ t. Owes (r.main_geometry, r.main_was_maximized) (commit_dock (staged_from r s) t))
        (sym e) (first_dock-Owes r f s h) in
    (handle_all-Owes es _ k first).kept
