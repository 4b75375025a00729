-- ===== src/Client.antt =====
-- client-cli/src/main.rs: the request that a command becomes, and what the client makes of a reply.
pub mod Requests
pub mod Answered
pub mod Refusal
use obsidian_backup_server.Prelude.{
  ℕ, ◌≡◌, Bool, true, false, not, Option, none, some, Bytes, if◌then◌else◌,
}
use obsidian_backup_server.Prelude.Text.{codes, bytes_eq}
use obsidian_backup_server.Ipc.{Value, Fields, get_as, as_str, value_or, optional_text}
use obsidian_backup_server.Ipc.Value.{bool, number, text, object}
use obsidian_backup_server.Ipc.Fields.{no_fields, field}

pub data Commands : Type 0 where
  backup : (tag : Option Bytes) → (full : Bool) → Commands
  status : Commands
  restore : (snapshot_id : Bytes) → (file : Option Bytes) → (chunk : Option Bytes) → Commands
  top : (limit : ℕ) → Commands
  diff : (id_a : Bytes) → (id_b : Bytes) → Commands
  browse : (snapshot_id : Bytes) → (path : Option Bytes) → Commands
  clone : (snapshot_id : Bytes) → (new_name : Bytes) → Commands
  rollback : (duration : Bytes) → Commands
  verify : (repair : Bool) → Commands
  pin : (snapshot_id : Bytes) → (days : ℕ) → Commands
  forecast : Commands
  cancel : Commands
  export : (path : Bytes) → Commands
  remote_sync : (action : Bytes) → (snapshot_id : Bytes) → Commands
  import : (path : Bytes) → Commands
  prune : (keep : ℕ) → Commands

abbrev pub one : Bytes → Value → Value
one k v = object (field k v no_fields)

abbrev pub two : Bytes → Value → Bytes → Value → Value
two k v k' v' = object (field k v (field k' v' no_fields))

-- the name of the operation and its parameters
unfoldable pub build_request : Commands → Bytes × Value
build_request (Commands.backup tag full) =
    (codes "backup", two (codes "tag") (optional_text tag) (codes "incremental") (bool (not full)))
build_request Commands.status = (codes "status", object no_fields)
build_request (Commands.restore snapshot_id file chunk) = (
  codes "restore",
  object (
      field (codes "snapshot_id") (text snapshot_id) (
        field (codes "file_path") (optional_text file)
          (field (codes "chunk_coord") (optional_text chunk) no_fields))),
)
build_request (Commands.top limit) = (codes "top", one (codes "limit") (number limit))
build_request (Commands.diff id_a id_b) =
    (codes "diff", two (codes "id_a") (text id_a) (codes "id_b") (text id_b))
build_request (Commands.browse snapshot_id path) = (
  codes "browse",
  two (codes "snapshot_id") (text snapshot_id) (codes "path") (optional_text path),
)
build_request (Commands.clone snapshot_id new_name) =
    (codes "clone", two (codes "snapshot_id") (text snapshot_id) (codes "new_name") (text new_name))
build_request (Commands.rollback duration) =
    (codes "rollback", one (codes "duration") (text duration))
build_request (Commands.verify repair) = (codes "verify", one (codes "repair") (bool repair))
build_request (Commands.pin snapshot_id days) =
    (codes "pin", two (codes "snapshot_id") (text snapshot_id) (codes "days") (number days))
build_request Commands.forecast = (codes "forecast", object no_fields)
build_request Commands.cancel = (codes "cancel", object no_fields)
build_request (Commands.export path) = (codes "export", one (codes "path") (text path))
build_request (Commands.import path) = (codes "import", one (codes "path") (text path))
build_request (Commands.remote_sync action snapshot_id) = (
  codes "remote_sync",
  two (codes "action") (text action) (codes "snapshot_id") (text snapshot_id),
)
build_request (Commands.prune keep) = (codes "prune", one (codes "keep") (number keep))

-- the message of `main`, where `tx_id` is made from a random identifier
unfoldable pub request_of : Bytes → Commands → Value
request_of tx_id command =
    let (op, params) = build_request command in
    object (
      field (codes "tx_id") (text tx_id)
        (field (codes "op") (text op) (field (codes "params") params no_fields)))

-- what `display_response` prints on the error stream, where the reply has the status of an error
unfoldable pub shown_error : Value → Option Bytes
shown_error response =
    if bytes_eq (value_or (codes "error") (get_as as_str (codes "status") response)) (codes "error")
    then some (value_or (codes "Unknown error") (get_as as_str (codes "message") response))
    else none
