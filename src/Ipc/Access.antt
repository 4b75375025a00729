-- ===== src/Ipc/Access.antt =====
-- Who reaches the engine through `handle_connection` of server.rs, and that every request is answered.
use obsidian_backup_server.Prelude.{
  suc, ◌≡◌, ◌≢◌, ◌∙◌, refl, sym, ap, true, ◌⊎◌, inl, inr, Option, none, some, List, [], ◌∷◌, ◌++◌,
  Bytes, length, if◌then◌else◌, if_true, if_false, Bool-cases, Result, ok, err,
}
use obsidian_backup_server.Prelude.Text.{codes, bytes_eq_iff}
use obsidian_backup_server.Config.{SidecarConfig}
use obsidian_backup_server.Ipc.{Value, get_as, as_str, expected_token, Engine}
use obsidian_backup_server.Ipc.Token.{not_both, verify_token_iff}
use obsidian_backup_server.Ipc.Connection.{
  is_blank, Lines, rest_of, auth_ok, is_auth, token_of, Session, accepts, authenticates, respond,
  put_first, serve_lines, refused, handle_connection,
}

is_auth-some : (op : Option Bytes) → is_auth op ≡ true → op ≡ some (codes "auth")
is_auth-some none h = cc
is_auth-some (some op) h = ap some ((bytes_eq_iff op (codes "auth")).0 h)

-- The first line is a request `auth` that holds the shared token, which is not empty.
pub record HasToken (from_str : Bytes → Result Value) (config : SidecarConfig) (lines : Lines)
    : Type 0 where
  pub line : Bytes
  pub request : Value
  pub first : lines ≡ ok line ∷ rest_of lines
  pub parsed : from_str line ≡ ok request
  pub op : get_as as_str (codes "op") request ≡ some (codes "auth")
  pub some_token : token_of request ≢ []
  pub token : token_of request ≡ expected_token config

-- the lines that ask for a reply: those that are not blank, up to the first read that fails
unfoldable pub requests : Lines → List Bytes
requests [] = []
requests (err e ∷ lines) = []
requests (ok line ∷ lines) =
    let rest = requests lines in if is_blank line then rest else line ∷ rest

module _ (from_str : Bytes → Result Value) (config : SidecarConfig) where
  accepts_iff :
      (r : Result Value)
      → accepts from_str config r ≡ true
      → (request : Value) × (r ≡ ok request)
        × (get_as as_str (codes "op") request ≡ some (codes "auth"))
        × (token_of request ≢ [])
        × (token_of request ≡ expected_token config)
  accepts_iff (err e) h = cc
  accepts_iff (ok request) h = elim (Bool-cases (is_auth (get_as as_str (codes "op") request))) [
    | inl t ↦
        let (ne, same) = (verify_token_iff (token_of request) config).0 (sym (if_true _ _ t) ∙ h) in
        (request, refl, is_auth-some _ t, ne, same)
    | inr f ↦ absurd (not_both (sym (if_false _ _ f) ∙ h))
  ]

  authenticates-HasToken :
      (lines : Lines) → authenticates from_str config lines ≡ true → HasToken from_str config lines
  unfolding authenticates
  authenticates-HasToken [] h = cc
  authenticates-HasToken (err e ∷ lines) h = cc
  authenticates-HasToken (ok line ∷ lines) h = elim (Bool-cases (is_blank line)) [
    | inl t ↦ absurd (not_both (sym (if_true _ _ t) ∙ h))
    | inr f ↦
        let (request, parsed, op, ne, same) =
          accepts_iff (from_str line) (sym (if_false _ _ f) ∙ h) in
        record {
          line = line;
          request = request;
          first = refl;
          parsed = parsed;
          op = op;
          some_token = ne;
          token = same;
        }
  ]

  module _ (engine : Engine) where
    -- the replies to a list of requests, each answered in the state that the one before it has left
    unfoldable pub answers : List Bytes → engine.S → List Value × engine.S
    answers [] s = ([], s)
    answers (line ∷ lines) s =
        let (v, s') = respond from_str config engine (from_str line) s in
        let (vs, last) = answers lines s' in (v ∷ vs, last)

    length-answers : (lines : List Bytes) (s : engine.S) → length (answers lines s).0 ≡ length lines
    unfolding answers
    length-answers [] s = refl
    length-answers (line ∷ lines) s = ap suc (length-answers lines _)

    abbrev pub answered : List Value → List Value × engine.S → Session engine.S
    answered before (vs, s) = record { sent = before ++ vs; result = ok tt; state = s }

    serve_lines-answers :
        (lines : Lines) (s : engine.S)
        → serve_lines from_str config engine lines s ≡ answered [] (answers (requests lines) s)
    unfolding serve_lines answers requests
    serve_lines-answers [] s = refl
    serve_lines-answers (err e ∷ lines) s = refl
    serve_lines-answers (ok line ∷ lines) s = elim (Bool-cases (is_blank line)) [
      | inl t ↦ rw t (serve_lines-answers lines s)
      | inr f ↦ rw f (ap (put_first from_str config engine _) (serve_lines-answers lines _))
    ]

    -- Whatever a peer sends: either its first line holds the shared token, or the connection ends with one error
    -- reply, an error and the engine as it was.
    pub handle_connection-HasToken :
        (lines : Lines) (s : engine.S)
        → HasToken from_str config lines
          ⊎ (handle_connection from_str config engine lines s ≡ refused from_str config engine s)
    unfolding handle_connection
    handle_connection-HasToken lines s = elim (Bool-cases (authenticates from_str config lines)) [
      | inl t ↦ inl (authenticates-HasToken lines t)
      | inr f ↦ inr (if_false _ _ f)
    ]

    -- A peer that has shown the token gets one reply to each of its requests, in their order, each given in the
    -- state that the request before it has left, and the connection ends well, with the state of the last.
    pub handle_connection-answers :
        (lines : Lines) (s : engine.S)
        → authenticates from_str config lines ≡ true
        → let asked = requests (rest_of lines) in
          let session = handle_connection from_str config engine lines s in
          (session ≡ answered (auth_ok ∷ []) (answers asked s))
          × (length session.sent ≡ suc (length asked))
    unfolding handle_connection
    handle_connection-answers lines s h =
        let e : handle_connection from_str config engine lines s
            ≡ answered (auth_ok ∷ []) (answers (requests (rest_of lines)) s) =
          if_true _ _ h
          ∙ ap (put_first from_str config engine auth_ok) (serve_lines-answers (rest_of lines) s) in
        (
          e,
          ap (λ (x : Session engine.S). length x.sent) e
              ∙ ap suc (length-answers (requests (rest_of lines)) s),
        )
