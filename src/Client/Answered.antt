-- ===== src/Client/Answered.antt =====
-- A command of the client on a connection of server.rs that has authenticated, from the line to the error that
-- `display_response` prints.
use obsidian_backup_server.Prelude.{
  ◌≡◌, ◌∙◌, ap, true, false, [], ◌∷◌, Bytes, Result, ok, if_true, if_false,
}
use obsidian_backup_server.Config.{SidecarConfig}
use obsidian_backup_server.Ipc.{Value, Engine}
use obsidian_backup_server.Ipc.Handlers.{dispatch}
use obsidian_backup_server.Ipc.Connection.{
  is_blank, auth_ok, authenticates, respond, put_first, serve_lines, Session, handle_connection,
}
use obsidian_backup_server.Client.{Commands, request_of, shown_error}
use obsidian_backup_server.Client.Requests.{seen, meaning, dispatch-request_of}

module _ (from_str : Bytes → Result Value) (config : SidecarConfig) (engine : Engine) where
  -- The session of one request that has been authenticated.
  served_one :
      (auth line : Bytes) (request : Value) (s : engine.S)
      → authenticates from_str config (ok auth ∷ ok line ∷ []) ≡ true
      → is_blank line ≡ false
      → from_str line ≡ ok request
      → handle_connection from_str config engine (ok auth ∷ ok line ∷ []) s ≡ record {
        sent = auth_ok ∷ (dispatch engine request s).0 ∷ [];
        result = ok tt;
        state = (dispatch engine request s).1;
      }
  unfolding handle_connection serve_lines
  served_one auth line request s opened full parsed =
      if_true _ _ opened
      ∙ ap (put_first from_str config engine auth_ok) (
          if_false _ _ full
          ∙ ap
              (λ (r : Value × engine.S).
                put_first from_str config engine r.0
                  (record { sent = []; result = ok tt; state = r.1 }))
              (ap (λ r. respond from_str config engine r s) parsed))

  -- On a connection whose first line authenticates, a line that is parsed to the request of a command of the client
  -- gets one reply. The engine has then made the call that the command means, with the command's own arguments; the
  -- error that `display_response` prints of the reply is the server's text of that call's error, and there is none
  -- where the call succeeds.
  pub handle_connection-meaning :
      (auth line tx_id : Bytes) (command : Commands) (s : engine.S)
      → authenticates from_str config (ok auth ∷ ok line ∷ []) ≡ true
      → is_blank line ≡ false
      → from_str line ≡ ok (request_of tx_id command)
      → let session = handle_connection from_str config engine (ok auth ∷ ok line ∷ []) s in
        (reply : Value) × (session.sent ≡ auth_ok ∷ reply ∷ [])
        × ((shown_error reply, session.state) ≡ meaning engine command s)
  unfolding seen
  handle_connection-meaning auth line tx_id command s opened full parsed =
      let served = served_one auth line (request_of tx_id command) s opened full parsed in
      let reply = (dispatch engine (request_of tx_id command) s).0 in
      (
        reply,
        ap (λ (x : Session engine.S). x.sent) served,
        ap (λ (x : Session engine.S). (shown_error reply, x.state)) served
            ∙ dispatch-request_of engine tx_id command s,
      )
