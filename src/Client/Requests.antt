-- ===== src/Client/Requests.antt =====
-- What the server does with the request of a command: main.rs of client-cli against `dispatch` of server.rs.
use obsidian_backup_server.Prelude.{
  ◌≡◌, refl, not, Option, none, some, Bytes, ◌++◌, Result, ok, err,
}
use obsidian_backup_server.Prelude.Text.{codes}
use obsidian_backup_server.Ipc.{Value, Engine}
use obsidian_backup_server.Ipc.Handlers.{
  answer, handle_backup, handle_status, handle_restore, handle_top, handle_diff, handle_browse,
  handle_clone, handle_rollback, handle_verify, handle_pin, handle_prune, handle_cancel,
  handle_forecast, handle_export, handle_import, handle_remote_sync, remote_action, run_op,
  dispatch,
}
use obsidian_backup_server.Client.{Commands, build_request, request_of, shown_error}

module _ (engine : Engine) where
  -- the text of an error
  abbrev pub error_of {ℓ} : {A : Type ℓ} → Bytes → Result A → Option Bytes
  error_of failed (ok a) = none
  error_of failed (err e) = some (failed ++ engine.display e)

  -- a call, as its caller sees it: the text of an error, and the state
  unfoldable pub call {ℓ} : {A : Type ℓ} → Bytes → Result A × engine.S → Option Bytes × engine.S
  call failed (r, s) = (error_of failed r, s)

  -- What a command means: the call of the engine, with the command's own arguments.
  unfoldable pub meaning : Commands → engine.S → Option Bytes × engine.S
  meaning (Commands.backup tag full) s =
      call (codes "Backup failed: ") (engine.run_backup tag (not full) s)
  meaning Commands.status s = (none, s)
  meaning (Commands.restore snapshot_id file chunk) s =
      call (codes "Restore failed: ") (engine.restore snapshot_id file chunk s)
  meaning (Commands.top limit) s =
      call (codes "Top analysis failed: ") (engine.get_top_files limit s)
  meaning (Commands.diff id_a id_b) s =
      call (codes "Diff failed: ") (engine.diff_snapshots id_a id_b s)
  meaning (Commands.browse snapshot_id path) s =
      call (codes "Browse failed: ") (engine.browse_snapshot snapshot_id path s)
  meaning (Commands.clone snapshot_id new_name) s =
      call (codes "Clone failed: ") (engine.clone_world snapshot_id new_name s)
  meaning (Commands.rollback duration) s =
      call (codes "Rollback failed: ") (engine.rollback duration s)
  meaning (Commands.verify repair) s = call (codes "Verify failed: ") (engine.verify repair s)
  meaning (Commands.pin snapshot_id days) s =
      call (codes "Pin failed: ") (engine.pin_snapshot snapshot_id days s)
  meaning Commands.forecast s = call (codes "Forecast failed: ") (engine.forecast s)
  meaning Commands.cancel s = call (codes "Cancel failed: ") (engine.cancel s)
  meaning (Commands.export path) s = call (codes "Export failed: ") (engine.export_snapshot path s)
  meaning (Commands.remote_sync action snapshot_id) s =
      call (codes "Remote sync failed: ") (remote_action engine action snapshot_id s)
  meaning (Commands.import path) s = call (codes "Import failed: ") (engine.import_snapshot path s)
  meaning (Commands.prune keep) s = call (codes "Prune failed: ") (engine.prune_snapshots keep s)

  -- a reply, as the client sees it
  unfoldable pub seen : Value × engine.S → Option Bytes × engine.S
  seen (v, s) = (shown_error v, s)

  seen-answer {ℓ} :
      {A : Type ℓ} (tx_id failed : Bytes) (show_ok : A → Value) (r : Result A × engine.S)
      → ((a : A) → shown_error (show_ok a) ≡ none)
      → seen (answer engine tx_id failed show_ok r) ≡ call failed r
  unfolding answer seen call shown_error
  seen-answer tx_id failed show_ok (ok a, s) h = λ i. (h a i, s)
  seen-answer tx_id failed show_ok (err e, s) h = refl

  seen-status : (tx_id : Bytes) (s : engine.S) → seen (handle_status engine tx_id s) ≡ (none, s)
  unfolding seen shown_error handle_status
  seen-status tx_id s = refl

  -- The reply to the request of a command, as the client sees it.
  pub dispatch-request_of :
      (tx_id : Bytes) (command : Commands) (s : engine.S)
      → seen (dispatch engine (request_of tx_id command) s) ≡ meaning command s
  unfolding dispatch run_op request_of build_request meaning shown_error handle_backup handle_status
      handle_restore handle_top handle_diff handle_browse handle_clone handle_rollback handle_verify
      handle_pin handle_prune handle_cancel handle_forecast handle_export handle_import
      handle_remote_sync
  dispatch-request_of tx_id (Commands.backup none full) s = seen-answer tx_id _ _ _ (λ a. refl)
  dispatch-request_of tx_id (Commands.backup (some tag) full) s =
      seen-answer tx_id _ _ _ (λ a. refl)
  dispatch-request_of tx_id Commands.status s = seen-status tx_id s
  dispatch-request_of tx_id (Commands.restore snapshot_id none none) s =
      seen-answer tx_id _ _ _ (λ a. refl)
  dispatch-request_of tx_id (Commands.restore snapshot_id none (some c)) s =
      seen-answer tx_id _ _ _ (λ a. refl)
  dispatch-request_of tx_id (Commands.restore snapshot_id (some f) none) s =
      seen-answer tx_id _ _ _ (λ a. refl)
  dispatch-request_of tx_id (Commands.restore snapshot_id (some f) (some c)) s =
      seen-answer tx_id _ _ _ (λ a. refl)
  dispatch-request_of tx_id (Commands.top limit) s = seen-answer tx_id _ _ _ (λ a. refl)
  dispatch-request_of tx_id (Commands.diff id_a id_b) s = seen-answer tx_id _ _ _ (λ a. refl)
  dispatch-request_of tx_id (Commands.browse snapshot_id none) s =
      seen-answer tx_id _ _ _ (λ a. refl)
  dispatch-request_of tx_id (Commands.browse snapshot_id (some p)) s =
      seen-answer tx_id _ _ _ (λ a. refl)
  dispatch-request_of tx_id (Commands.clone snapshot_id new_name) s =
      seen-answer tx_id _ _ _ (λ a. refl)
  dispatch-request_of tx_id (Commands.rollback duration) s = seen-answer tx_id _ _ _ (λ a. refl)
  dispatch-request_of tx_id (Commands.verify repair) s = seen-answer tx_id _ _ _ (λ a. refl)
  dispatch-request_of tx_id (Commands.pin snapshot_id days) s = seen-answer tx_id _ _ _ (λ a. refl)
  dispatch-request_of tx_id Commands.forecast s = seen-answer tx_id _ _ _ (λ a. refl)
  dispatch-request_of tx_id Commands.cancel s = seen-answer tx_id _ _ _ (λ a. refl)
  dispatch-request_of tx_id (Commands.export path) s = seen-answer tx_id _ _ _ (λ a. refl)
  dispatch-request_of tx_id (Commands.remote_sync action snapshot_id) s =
      seen-answer tx_id _ _ _ (λ a. refl)
  dispatch-request_of tx_id (Commands.import path) s = seen-answer tx_id _ _ _ (λ a. refl)
  dispatch-request_of tx_id (Commands.prune keep) s = seen-answer tx_id _ _ _ (λ a. refl)
