-- ===== src/Ipc/Connection.antt =====
-- `handle_connection` of server.rs. A line is a list of characters, and the reads of a connection are
-- what `next_line` returns: lines, an error, or the end. Writing to the stream succeeds.
use obsidian_backup_server.Prelude.{
  Bool, false, Option, none, some, List, [], ◌∷◌, ◌++◌, Bytes, if◌then◌else◌, Result, ok, err,
  auth_failed,
}
use obsidian_backup_server.Prelude.Text.{codes, bytes_eq, all}
use obsidian_backup_server.Prelude.Trim.{is_white}
use obsidian_backup_server.Config.{SidecarConfig}
use obsidian_backup_server.Ipc.{Value, get, get_as, as_str, value_or, verify_token, Engine}
use obsidian_backup_server.Ipc.Value.{null, text, object}
use obsidian_backup_server.Ipc.Fields.{no_fields, field}
use obsidian_backup_server.Ipc.Handlers.{dispatch}

-- `line.trim().is_empty()`
unfoldable pub is_blank : Bytes → Bool
is_blank line = all is_white line

-- what `next_line` returns, read after read; the end of the list is the end of the stream
abbrev pub Lines : Type 0
Lines = List (Result Bytes)

-- the lines after the first
abbrev pub rest_of : Lines → Lines
rest_of [] = []
rest_of (line ∷ lines) = lines

abbrev pub plain_reply : Bytes → Bytes → Value
plain_reply status message = object (
    field (codes "tx_id") null
      (field (codes "status") (text status) (field (codes "message") (text message) no_fields)))

abbrev pub auth_error : Value
auth_error = plain_reply (codes "error") (codes "Authentication failed: invalid or missing token")

abbrev pub auth_ok : Value
auth_ok = plain_reply (codes "ok") (codes "authenticated")

-- `Some(op) == Some("auth")`
abbrev pub is_auth : Option Bytes → Bool
is_auth none = false
is_auth (some op) = bytes_eq op (codes "auth")

-- the token in the parameters of a request
abbrev pub token_of : Value → Bytes
token_of request = elim (get (codes "params") request) [
  | none ↦ []
  | some p ↦ value_or [] (get_as as_str (codes "token") p)
]

-- What is sent, the result, and the engine's state.
pub record Session (S : Type 0) : Type 0 where
  pub sent : List Value
  pub result : Result (Unit {0})
  pub state : S

module _ (from_str : Bytes → Result Value) (config : SidecarConfig) where
  -- whether a parsed first line authenticates
  abbrev pub accepts : Result Value → Bool
  accepts (err e) = false
  accepts (ok request) =
      if is_auth (get_as as_str (codes "op") request)
      then verify_token (token_of request) config
      else false

  unfoldable pub authenticates : Lines → Bool
  authenticates [] = false
  authenticates (err e ∷ lines) = false
  authenticates (ok line ∷ lines) = if is_blank line then false else accepts (from_str line)

  module _ (engine : Engine) where
    -- the reply to one line, where `message` is the text of a JSON error
    abbrev pub respond : Result Value → engine.S → Value × engine.S
    respond (ok request) s = dispatch engine request s
    respond (err e) s =
        (plain_reply (codes "error") (codes "Invalid JSON: " ++ engine.display e), s)

    abbrev pub put_first : Value → Session engine.S → Session engine.S
    put_first v session = record session { sent = v ∷ session.sent }

    -- `while let Ok(Some(line))`
    unfoldable pub serve_lines : Lines → engine.S → Session engine.S
    serve_lines [] s = record { sent = []; result = ok tt; state = s }
    serve_lines (err e ∷ lines) s = record { sent = []; result = ok tt; state = s }
    serve_lines (ok line ∷ lines) s =
        let skipped = serve_lines lines s in
        let (v, s') = respond (from_str line) s in
        let served = put_first v (serve_lines lines s') in if is_blank line then skipped else served

    abbrev pub refused : engine.S → Session engine.S
    refused s = record { sent = auth_error ∷ []; result = err auth_failed; state = s }

    unfoldable pub handle_connection : Lines → engine.S → Session engine.S
    handle_connection lines s =
        if authenticates lines then put_first auth_ok (serve_lines (rest_of lines) s) else refused s
