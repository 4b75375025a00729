-- ===== src/Ipc/Handlers.antt =====
-- `dispatch` and the handlers of server.rs. A reply is the value that is sent.
use obsidian_backup_server.Prelude.{
  ℕ, true, false, none, some, List, [], ◌∷◌, ◌++◌, Bytes, if◌then◌else◌, Result, ok, err,
  unknown_action,
}
use obsidian_backup_server.Prelude.Decimal.{show}
use obsidian_backup_server.Prelude.Text.{codes, bytes_eq}
use obsidian_backup_server.Ipc.{
  Value, Values, Fields, get, get_as, as_str, as_bool, as_u64, value_or, optional_text, texts,
  Engine, TopFileEntry,
}
use obsidian_backup_server.Ipc.Value.{bool, number, float, text, array, object}
use obsidian_backup_server.Ipc.Values.{no_values, value}
use obsidian_backup_server.Ipc.Fields.{no_fields, field}

-- a value with the status, the id of the request and one more field
abbrev pub reply : Bytes → Bytes → Bytes → Value → Value
reply status tx_id key v = object (
    field (codes "tx_id") (text tx_id)
      (field (codes "status") (text status) (field key v no_fields)))

abbrev pub error_reply : Bytes → Bytes → Value
error_reply tx_id message = reply (codes "error") tx_id (codes "message") (text message)

abbrev pub data_reply : Bytes → Fields → Value
data_reply tx_id fields = reply (codes "ok") tx_id (codes "data") (object fields)

abbrev pub message_reply : Bytes → Bytes → Value
message_reply tx_id message = reply (codes "ok") tx_id (codes "message") (text message)

abbrev number_field : Bytes → ℕ → Fields → Fields
number_field k n fields = field k (number n) fields

abbrev text_field : Bytes → Bytes → Fields → Fields
text_field k s fields = field k (text s) fields

module _ (engine : Engine) where
  -- the two branches of a handler, with the text that introduces an error
  unfoldable pub answer {ℓ} :
      {A : Type ℓ} → Bytes → Bytes → (A → Value) → Result A × engine.S → Value × engine.S
  answer tx_id failed show_ok (ok a, s) = (show_ok a, s)
  answer tx_id failed show_ok (err e, s) = (error_reply tx_id (failed ++ engine.display e), s)

  unfoldable pub handle_backup : Bytes → Value → engine.S → Value × engine.S
  handle_backup tx_id params s =
      answer tx_id (codes "Backup failed: ")
        (λ r. data_reply tx_id (
          text_field (codes "snapshot_id") r.snapshot_id (
            number_field (codes "files_scanned") r.files_scanned (
              number_field (codes "files_changed") r.files_changed (
                number_field (codes "files_skipped") r.files_skipped (
                  number_field (codes "bytes_processed") r.bytes_processed (
                    number_field (codes "chunks_deduped") r.chunks_deduped (
                      number_field (codes "chunks_new") r.chunks_new
                        (number_field (codes "duration_ms") r.duration_ms no_fields)))))))))
        (engine.run_backup (get_as as_str (codes "tag") params)
          (value_or true (get_as as_bool (codes "incremental") params)) s)

  unfoldable pub handle_export : Bytes → Value → engine.S → Value × engine.S
  handle_export tx_id params s =
      let path = value_or [] (get_as as_str (codes "path") params) in
      answer tx_id (codes "Export failed: ")
        (λ r. data_reply tx_id (text_field (codes "export_path") path no_fields))
        (engine.export_snapshot path s)

  unfoldable pub handle_import : Bytes → Value → engine.S → Value × engine.S
  handle_import tx_id params s =
      answer tx_id (codes "Import failed: ")
        (λ r. data_reply tx_id (
          text_field (codes "snapshot_id") r.snapshot_id (
            number_field (codes "files_scanned") r.files_scanned
              (number_field (codes "bytes_processed") r.bytes_processed no_fields))))
        (engine.import_snapshot (value_or [] (get_as as_str (codes "path") params)) s)

  -- the `match action` of `handle_remote_sync`
  abbrev pub remote_action : Bytes → Bytes → engine.S → Result (Unit {0}) × engine.S
  remote_action action snapshot_id s =
      if bytes_eq action (codes "push")
      then engine.push_snapshot snapshot_id s
      else if bytes_eq action (codes "pull")
      then engine.pull_snapshot snapshot_id s
      else if bytes_eq action (codes "serve")
      then (ok tt, engine.spawn_serve s)
      else (err unknown_action, s)

  unfoldable pub handle_remote_sync : Bytes → Value → engine.S → Value × engine.S
  handle_remote_sync tx_id params s =
      let action = value_or (codes "push") (get_as as_str (codes "action") params) in
      answer tx_id (codes "Remote sync failed: ")
        (λ r. message_reply tx_id (codes "Remote sync (" ++ (action ++ codes ") complete")))
        (remote_action action (value_or [] (get_as as_str (codes "snapshot_id") params)) s)

  unfoldable pub handle_status : Bytes → engine.S → Value × engine.S
  handle_status tx_id s =
      let st = engine.get_state s in
      (
        data_reply tx_id (
            field (codes "running") (bool st.running) (
              field (codes "current_tx") (optional_text st.current_tx) (
                text_field (codes "state") st.state (
                  field (codes "tps") (float st.tps) (
                    field (codes "cpu_percent") (float st.cpu_percent) (
                      number_field (codes "memory_mb") st.memory_mb (
                        number_field (codes "disk_iops_read") st.disk_iops_read (
                          number_field (codes "disk_iops_write") st.disk_iops_write (
                            field (codes "network_upload_mbps") (float st.network_upload_mbps) (
                              field (codes "queue_status")
                                (object (
                                  number_field (codes "scanner") st.scanner_queue (
                                    number_field (codes "chunk") st.chunk_queue (
                                      number_field (codes "compress") st.compress_queue (
                                        number_field (codes "encrypt") st.encrypt_queue (
                                          number_field (codes "upload") st.upload_queue
                                            no_fields))))))
                                (field (codes "storage_stats")
                                  (object (
                                    number_field (codes "total_snapshots") st.total_snapshots (
                                      number_field (codes "total_size_bytes") st.total_size_bytes (
                                        field (codes "dedup_ratio") (float st.dedup_ratio) (
                                          number_field (codes "packfile_count") st.packfile_count
                                            no_fields)))))
                                  no_fields))))))))))),
        s,
      )

  unfoldable pub handle_restore : Bytes → Value → engine.S → Value × engine.S
  handle_restore tx_id params s =
      let snapshot_id = value_or (codes "latest") (get_as as_str (codes "snapshot_id") params) in
      answer tx_id (codes "Restore failed: ")
        (λ r. data_reply tx_id (
          text_field (codes "snapshot_id") snapshot_id (
            number_field (codes "files_restored") r.files_restored (
              number_field (codes "bytes_restored") r.bytes_restored
                (field (codes "sandbox_used") (bool r.sandbox_used) no_fields)))))
        (engine.restore snapshot_id (get_as as_str (codes "file_path") params)
          (get_as as_str (codes "chunk_coord") params) s)

  abbrev top_files : List TopFileEntry → Values
  top_files [] = no_values
  top_files (f ∷ fs) =
      value
        (object (
          text_field (codes "path") f.path (
            number_field (codes "size") f.size
              (field (codes "reason") (optional_text f.reason) no_fields))))
        (top_files fs)

  unfoldable pub handle_top : Bytes → Value → engine.S → Value × engine.S
  handle_top tx_id params s =
      answer tx_id (codes "Top analysis failed: ")
        (λ r. data_reply tx_id (
          field (codes "files") (array (top_files r.files)) (
            field (codes "dedup_ratio") (float r.dedup_ratio)
              (field (codes "dict_gain") (float r.dict_gain) no_fields))))
        (engine.get_top_files (value_or 5 (get_as as_u64 (codes "limit") params)) s)

  unfoldable pub handle_diff : Bytes → Value → engine.S → Value × engine.S
  handle_diff tx_id params s =
      answer tx_id (codes "Diff failed: ")
        (λ r. data_reply tx_id (
          field (codes "added") (array (texts r.added)) (
            field (codes "modified") (array (texts r.modified))
              (field (codes "deleted") (array (texts r.deleted)) no_fields))))
        (engine.diff_snapshots (value_or [] (get_as as_str (codes "id_a") params))
          (value_or [] (get_as as_str (codes "id_b") params)) s)

  unfoldable pub handle_browse : Bytes → Value → engine.S → Value × engine.S
  handle_browse tx_id params s =
      let snapshot_id = value_or [] (get_as as_str (codes "snapshot_id") params) in
      answer tx_id (codes "Browse failed: ")
        (λ entries. data_reply tx_id (
          text_field (codes "snapshot_id") snapshot_id
            (field (codes "entries") (array entries) no_fields)))
        (engine.browse_snapshot snapshot_id (get_as as_str (codes "path") params) s)

  unfoldable pub handle_clone : Bytes → Value → engine.S → Value × engine.S
  handle_clone tx_id params s =
      let new_name = value_or (codes "clone") (get_as as_str (codes "new_name") params) in
      answer tx_id (codes "Clone failed: ")
        (λ r. message_reply tx_id (codes "World cloned as '" ++ (new_name ++ codes "'")))
        (engine.clone_world (value_or [] (get_as as_str (codes "snapshot_id") params)) new_name s)

  unfoldable pub handle_rollback : Bytes → Value → engine.S → Value × engine.S
  handle_rollback tx_id params s =
      let duration = value_or (codes "1m") (get_as as_str (codes "duration") params) in
      answer tx_id (codes "Rollback failed: ")
        (λ r. message_reply tx_id (codes "Rolled back " ++ duration)) (engine.rollback duration s)

  unfoldable pub handle_verify : Bytes → Value → engine.S → Value × engine.S
  handle_verify tx_id params s =
      answer tx_id (codes "Verify failed: ")
        (λ r. data_reply tx_id (
          number_field (codes "total_checked") r.total_checked (
            number_field (codes "healthy") r.healthy (
              number_field (codes "corrupted") r.corrupted
                (number_field (codes "repaired") r.repaired no_fields)))))
        (engine.verify (value_or false (get_as as_bool (codes "repair") params)) s)

  unfoldable pub handle_pin : Bytes → Value → engine.S → Value × engine.S
  handle_pin tx_id params s =
      let snapshot_id = value_or [] (get_as as_str (codes "snapshot_id") params) in
      let days = value_or 30 (get_as as_u64 (codes "days") params) in
      answer tx_id (codes "Pin failed: ")
        (λ r. message_reply tx_id (
          codes "Snapshot "
          ++ (snapshot_id ++ (codes " pinned for " ++ (show days ++ codes " days")))))
        (engine.pin_snapshot snapshot_id days s)

  unfoldable pub handle_prune : Bytes → Value → engine.S → Value × engine.S
  handle_prune tx_id params s =
      let keep = value_or 10 (get_as as_u64 (codes "keep") params) in
      answer tx_id (codes "Prune failed: ")
        (λ removed.
          data_reply tx_id
            (number_field (codes "removed") removed (number_field (codes "keep") keep no_fields)))
        (engine.prune_snapshots keep s)

  unfoldable pub handle_cancel : Bytes → engine.S → Value × engine.S
  handle_cancel tx_id s =
      answer tx_id (codes "Cancel failed: ")
        (λ r. message_reply tx_id (codes "Transaction cancelled and rolled back")) (engine.cancel s)

  unfoldable pub handle_forecast : Bytes → engine.S → Value × engine.S
  handle_forecast tx_id s =
      answer tx_id (codes "Forecast failed: ")
        (λ r. data_reply tx_id (
          field (codes "days_remaining") (float r.days_remaining) (
            field (codes "growth_rate_mb_per_day") (float r.growth_rate_mb_per_day)
              (field (codes "total_capacity_gb") (float r.total_capacity_gb) no_fields))))
        (engine.forecast s)

  -- the `match op`
  unfoldable pub run_op : Bytes → Bytes → Value → engine.S → Value × engine.S
  run_op op tx_id params s =
      if bytes_eq op (codes "backup")
      then handle_backup tx_id params s
      else if bytes_eq op (codes "status")
      then handle_status tx_id s
      else if bytes_eq op (codes "restore")
      then handle_restore tx_id params s
      else if bytes_eq op (codes "top")
      then handle_top tx_id params s
      else if bytes_eq op (codes "diff")
      then handle_diff tx_id params s
      else if bytes_eq op (codes "browse")
      then handle_browse tx_id params s
      else if bytes_eq op (codes "clone")
      then handle_clone tx_id params s
      else if bytes_eq op (codes "rollback")
      then handle_rollback tx_id params s
      else if bytes_eq op (codes "verify")
      then handle_verify tx_id params s
      else if bytes_eq op (codes "pin")
      then handle_pin tx_id params s
      else if bytes_eq op (codes "prune")
      then handle_prune tx_id params s
      else if bytes_eq op (codes "cancel")
      then handle_cancel tx_id s
      else if bytes_eq op (codes "forecast")
      then handle_forecast tx_id s
      else if bytes_eq op (codes "export")
      then handle_export tx_id params s
      else if bytes_eq op (codes "import")
      then handle_import tx_id params s
      else if bytes_eq op (codes "remote_sync")
      then handle_remote_sync tx_id params s
      else (error_reply tx_id (codes "Unknown operation: " ++ op), s)

  unfoldable pub dispatch : Value → engine.S → Value × engine.S
  dispatch request s =
      let tx_id = value_or (codes "unknown") (get_as as_str (codes "tx_id") request) in
      elim (get_as as_str (codes "op") request) [
        | none ↦ (error_reply tx_id (codes "Missing 'op' field in request"), s)
        | some op ↦ run_op op tx_id (value_or (object no_fields) (get (codes "params") request)) s
      ]
