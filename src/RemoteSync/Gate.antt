-- ===== src/RemoteSync/Gate.antt =====
-- Who can change the engine through `handle_incoming` of remote_sync.rs.
use obsidian_backup_server.Prelude.{
  ℕ, ◌≡◌, refl, ap, Bool, true, false, ◌&&◌, ◌⊎◌, inl, inr, [], Bytes, ◌==◌, ==_iff, Bool-cases,
  Result, ok, err, Error, auth_failed,
}
use obsidian_backup_server.Prelude.Text.{bytes_eq, bytes_eq_iff}
use obsidian_backup_server.RemoteSync.{
  Frame, FrameJson, SyncEngine, Incoming, protocol_version, recv_frame,
}
use obsidian_backup_server.RemoteSync.Receiver.{Receiving, rejected, on_hello, handle_incoming}

and_true : (x y : Bool) → (x && y) ≡ true → (x ≡ true) × (y ≡ true)
and_true true y h = (refl, h)
and_true false y h = cc

module _ {M : Type 0} (json : FrameJson M) (engine : SyncEngine M) (token : Bytes) where
  -- The run of a connection that is turned away: an error, at most one reply, and the engine as it was.
  pub record TurnedAway (run : Receiving json engine) (s : engine.S) : Type 0 where
    pub error : Error
    pub failed : run.0 ≡ err error
    pub replies : (run.1 ≡ []) ⊎ (run.1 ≡ (rejected json engine s).1)
    pub unchanged : run.2 ≡ s

  away : {s : engine.S} → TurnedAway (rejected json engine s) s
  away = record { error = auth_failed; failed = refl; replies = inr refl; unchanged = refl }

  same_hello :
      (version : ℕ) (t : Bytes)
      → (version == protocol_version && bytes_eq t token) ≡ true
      → ◌≡◌ {A = Frame M} (Frame.hello version t) (Frame.hello protocol_version token)
  same_hello version t h =
      let (v, q) = and_true _ _ h in
      rw ((==_iff version protocol_version).0 v, (bytes_eq_iff t token).0 q) refl

  on_hello-TurnedAway :
      (first : Result (Frame M)) (rest : Incoming) (s : engine.S)
      → (first ≡ ok (Frame.hello protocol_version token))
        ⊎ TurnedAway (on_hello json engine first token rest s) s
  on_hello-TurnedAway (ok (Frame.hello version t)) rest s =
      elim (Bool-cases (version == protocol_version && bytes_eq t token)) [
        | inl h ↦ inl (ap ok (same_hello version t h))
        | inr h ↦ inr (rw h away)
      ]
  on_hello-TurnedAway (err e) rest s =
      inr (record { error = e; failed = refl; replies = inl refl; unchanged = refl })
  on_hello-TurnedAway (ok (Frame.hello_ack status message)) rest s = inr away
  on_hello-TurnedAway (ok (Frame.push_begin snapshot_id manifest file_count)) rest s = inr away
  on_hello-TurnedAway (ok (Frame.push_ready status)) rest s = inr away
  on_hello-TurnedAway (ok (Frame.file_chunks path chunks)) rest s = inr away
  on_hello-TurnedAway (ok (Frame.object hash size)) rest s = inr away
  on_hello-TurnedAway (ok Frame.push_end) rest s = inr away
  on_hello-TurnedAway (ok (Frame.push_ack status)) rest s = inr away
  on_hello-TurnedAway (ok (Frame.pull_request snapshot_id)) rest s = inr away
  on_hello-TurnedAway (ok (Frame.error message)) rest s = inr away

  -- Whatever arrives: either the first frame greets with the protocol's version and the listener's own token, or the
  -- connection fails with at most one reply, the refusal, and the engine is as it was.
  pub handle_incoming-TurnedAway :
      (incoming : Incoming) (s : engine.S)
      → ((recv_frame json incoming).0 ≡ ok (Frame.hello protocol_version token))
        ⊎ TurnedAway (handle_incoming json engine token incoming s) s
  unfolding handle_incoming
  handle_incoming-TurnedAway incoming s =
      on_hello-TurnedAway (recv_frame json incoming).0 (recv_frame json incoming).1 s
