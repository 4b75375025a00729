-- ===== src/Client/Refusal.antt =====
-- The connection of the client: its first line is the request, where the server waits for `auth`.
use obsidian_backup_server.Prelude.{
  ◌≡◌, ◌∙◌, refl, ap, false, inl, inr, some, ◌∷◌, Bytes, Result, ok, if_true, if_false, Bool-cases,
}
use obsidian_backup_server.Prelude.Text.{codes}
use obsidian_backup_server.Config.{SidecarConfig}
use obsidian_backup_server.Ipc.{Value, get_as, as_str, Engine}
use obsidian_backup_server.Ipc.Connection.{
  is_blank, Lines, accepts, is_auth, authenticates, refused, handle_connection,
}
use obsidian_backup_server.Client.{Commands, build_request, request_of}

-- What `from_str` gives for the text of a value has the value's operation.
pub record Reads (to_string : Value → Bytes) (from_str : Bytes → Result Value) : Type 0 where
  pub parsed : Value → Value
  pub parses : (v : Value) → from_str (to_string v) ≡ ok (parsed v)
  pub same_op : (v : Value) → get_as as_str (codes "op") (parsed v) ≡ get_as as_str (codes "op") v

op-request_of :
    (tx_id : Bytes) (command : Commands)
    → get_as as_str (codes "op") (request_of tx_id command) ≡ some (build_request command).0
unfolding request_of
op-request_of tx_id command = refl

is_auth-build_request : (command : Commands) → is_auth (some (build_request command).0) ≡ false
unfolding build_request
is_auth-build_request (Commands.backup tag full) = refl
is_auth-build_request Commands.status = refl
is_auth-build_request (Commands.restore snapshot_id file chunk) = refl
is_auth-build_request (Commands.top limit) = refl
is_auth-build_request (Commands.diff id_a id_b) = refl
is_auth-build_request (Commands.browse snapshot_id path) = refl
is_auth-build_request (Commands.clone snapshot_id new_name) = refl
is_auth-build_request (Commands.rollback duration) = refl
is_auth-build_request (Commands.verify repair) = refl
is_auth-build_request (Commands.pin snapshot_id days) = refl
is_auth-build_request Commands.forecast = refl
is_auth-build_request Commands.cancel = refl
is_auth-build_request (Commands.export path) = refl
is_auth-build_request (Commands.remote_sync action snapshot_id) = refl
is_auth-build_request (Commands.import path) = refl
is_auth-build_request (Commands.prune keep) = refl

module _ (to_string : Value → Bytes) (from_str : Bytes → Result Value)
    (config : SidecarConfig) where
  accepts-request_of :
      (reads : Reads to_string from_str) (tx_id : Bytes) (command : Commands)
      → accepts from_str config (from_str (to_string (request_of tx_id command))) ≡ false
  accepts-request_of reads tx_id command =
      ap (accepts from_str config) (reads.parses _)
      ∙ if_false _ _ (
          ap is_auth (reads.same_op _ ∙ op-request_of tx_id command)
          ∙ is_auth-build_request command)

  -- Where the JSON library keeps the operation of a request, the server refuses every command of the client,
  -- whatever the client sends after it, and the engine is as it was: the client never authenticates.
  pub handle_connection-request_of :
      (reads : Reads to_string from_str) (engine : Engine) (tx_id : Bytes) (command : Commands)
      (lines : Lines) (s : engine.S)
      → handle_connection from_str config engine
          (ok (to_string (request_of tx_id command)) ∷ lines)
          s
        ≡ refused from_str config engine s
  unfolding handle_connection authenticates
  handle_connection-request_of reads engine tx_id command lines s =
      elim (Bool-cases (is_blank (to_string (request_of tx_id command)))) [
        | inl t ↦ if_false _ _ (if_true _ _ t)
        | inr f ↦ if_false _ _ (if_false _ _ f ∙ accepts-request_of reads tx_id command)
      ]
