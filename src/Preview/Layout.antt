-- ===== src/Preview/Layout.antt =====
-- src-tauri/src/preview/mod.rs: what the docking keeps and what it restores.
use hive_manager.Base.{
  ◌≡◌, refl, sym, ap, subst, ◌∙◌, Bool, true, false, not, ◌&&◌, Option, none, some, List, [], ◌∷◌,
  arith, inl, inr, Bool-cases, if_both,
}
use hive_manager.Preview.{
  WindowGeometry, PersistedPreviewState, take_main_restore, take_preview_restore,
  snapshot_committed, commit_dock, rollback_dock, settle_dock,
}
use hive_manager.Preview.Docking.{
  record_floating_geometry, recorded, Reads, staged_from, enter_docked_mode, refused,
  leave_docked_mode, undock_layout_after_teardown, create_preview_window, downgrade,
  close_preview_window, WindowEvent, moved, dock, undock, opened, downgraded, close_command,
  destroyed, handle, handle_all,
}

-- A recording changes `floating` and nothing else.
pub record-only_floating :
    (m : Bool) (g : Option WindowGeometry) (s : PersistedPreviewState)
    → (f : Option WindowGeometry) × (record_floating_geometry m g s ≡ record s { floating = f })
unfolding record_floating_geometry
record-only_floating m none s = (s.floating, refl)
record-only_floating m (some geometry) s = elim (Bool-cases (not s.docked && not m)) [
  | inl e ↦ (some geometry, rw e refl)
  | inr e ↦ (s.floating, rw e refl)
]

pub recorded-only_floating :
    (in_flight : List (Bool × Option WindowGeometry)) (s : PersistedPreviewState)
    → (f : Option WindowGeometry) × (recorded in_flight s ≡ record s { floating = f })
unfolding recorded
recorded-only_floating [] s = (s.floating, refl)
recorded-only_floating ((m, g) ∷ rest) s =
    let (f1, e1) = record-only_floating m g s in
    let (f2, e2) = recorded-only_floating rest (record s { floating = f1 }) in
    (f2, ap (recorded rest) e1 ∙ e2)

-- A dock whose tiling failed leaves every stored field as it was, whatever rectangles of the
-- half-tiled preview were recorded while it was in flight.
pub failed_dock_lem :
    (reads : Reads) (in_flight : List (Bool × Option WindowGeometry)) (s : PersistedPreviewState)
    → enter_docked_mode reads in_flight false s ≡ s
unfolding enter_docked_mode settle_dock rollback_dock staged_from
failed_dock_lem reads in_flight s =
    let (f, e) = recorded-only_floating in_flight s in
    ap (settle_dock (staged_from reads s) false) e

-- A snapshot of the main window is kept only while a docked layout is applied, and the preview's
-- maximize bit only while docking is preferred.
pub record Consistent (s : PersistedPreviewState) : Type 0 where
  pub snapshot : s.layout_applied ≡ false → (s.main_restore ≡ none) × (s.main_was_maximized ≡ false)
  pub maximize : s.docked ≡ false → s.preview_was_maximized ≡ false

record_floating-Consistent :
    (m : Bool) (g : Option WindowGeometry) (s : PersistedPreviewState)
    → Consistent s
    → Consistent (record_floating_geometry m g s)
record_floating-Consistent m g s c =
    let (f, e) = record-only_floating m g s in
    subst (λ t. Consistent t) (sym e) record { snapshot = c.snapshot; maximize = c.maximize }

commit-applies :
    (r : Reads) (f : Option WindowGeometry) (s : PersistedPreviewState)
    → (commit_dock (staged_from r s) (record s { floating = f })).layout_applied ≡ true
unfolding commit_dock staged_from
commit-applies r f s =
    if_both (λ (t : PersistedPreviewState). t.layout_applied ≡ true) s.docked (λ _. applied)
      (λ _. applied)
  where
    applied :
        (snapshot_committed (staged_from r s) (record s { floating = f })).layout_applied ≡ true
    applied =
        if_both (λ (t : PersistedPreviewState). t.layout_applied ≡ true) (not s.layout_applied)
          (λ _. refl) (λ e. ground (arith, e))

commit-Consistent :
    (r : Reads) (f : Option WindowGeometry) (s : PersistedPreviewState)
    → Consistent (commit_dock (staged_from r s) (record s { floating = f }))
unfolding commit_dock
commit-Consistent r f s = record { snapshot = λ k. cc (commit-applies r f s); maximize = λ k. cc }

dock-Consistent :
    (r : Reads) (in_flight : List (Bool × Option WindowGeometry)) (tiled : Bool)
    (s : PersistedPreviewState)
    → Consistent s
    → Consistent (enter_docked_mode r in_flight tiled s)
unfolding enter_docked_mode settle_dock
dock-Consistent r in_flight false s c =
    subst (λ t. Consistent t) (sym (failed_dock_lem r in_flight s)) c
dock-Consistent r in_flight true s c =
    let (f, e) = recorded-only_floating in_flight s in
    subst (λ t. Consistent (commit_dock (staged_from r s) t)) (sym e) (commit-Consistent r f s)

teardown-Consistent :
    (s : PersistedPreviewState) → Consistent s → Consistent (undock_layout_after_teardown s)
unfolding undock_layout_after_teardown take_main_restore
teardown-Consistent s c =
    if_both (λ t. Consistent t) s.docked
      (λ _. record { snapshot = λ _. (refl, refl); maximize = c.maximize }) (λ _. c)

undock-Consistent :
    (ok : Bool) (s : PersistedPreviewState) → Consistent s → Consistent (leave_docked_mode ok s)
unfolding leave_docked_mode take_main_restore take_preview_restore
undock-Consistent ok s c =
    if_both (λ t. Consistent t) (refused ok s)
      (λ _. record { snapshot = λ _. (refl, refl); maximize = c.maximize })
      (λ _. record { snapshot = λ _. (refl, refl); maximize = λ _. refl })

opened-Consistent :
    (s : PersistedPreviewState) → Consistent s → Consistent (create_preview_window s)
unfolding create_preview_window take_preview_restore
opened-Consistent s c =
    if_both (λ t. Consistent t) s.docked (λ _. c)
      (λ _. record { snapshot = c.snapshot; maximize = λ _. refl })

handle-Consistent :
    (e : WindowEvent) (s : PersistedPreviewState) → Consistent s → Consistent (handle e s)
unfolding handle downgrade take_preview_restore close_preview_window
handle-Consistent (moved m g) s c = record_floating-Consistent m g s c
handle-Consistent (dock r in_flight tiled) s c = dock-Consistent r in_flight tiled s c
handle-Consistent (undock ok) s c = undock-Consistent ok s c
handle-Consistent opened s c = opened-Consistent s c
handle-Consistent downgraded s c = record { snapshot = c.snapshot; maximize = λ _. refl }
handle-Consistent (close_command m g) s c =
    teardown-Consistent _ (record_floating-Consistent m g s c)
handle-Consistent destroyed s c = teardown-Consistent s c

-- From a consistent state (as a first run's is) every sequence of window events, failed docks and
-- refused undocks included, leads to a state that keeps a snapshot of the main window only while
-- a docked layout is applied and the preview's maximize bit only while docking is preferred.
pub handle_all-Consistent :
    (es : List WindowEvent) (s : PersistedPreviewState)
    → Consistent s
    → Consistent (handle_all es s)
unfolding handle_all
handle_all-Consistent [] s c = c
handle_all-Consistent (e ∷ es) s c = handle_all-Consistent es (handle e s) (handle-Consistent e s c)
