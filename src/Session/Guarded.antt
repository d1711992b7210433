-- ===== src/Session/Guarded.antt =====
-- The commands of a session that is not let in.
use simis.Prelude.{
  All, Bool-cases, List, Option-cases, Text, [], arith, bytes, false, inl, inr, none, refl, some,
  sym, text_eq, text_eq_iff, true, ◌∙◌, ◌∷◌, ◌≡◌,
}
use simis.Prelude.Int.{ℤ}
use simis.Resp.Requests.{ParseCommand}
use simis.Acl.{AclManager}
use simis.Session.{Server, Handled, Executor, execute_auth, authenticates, session_handler}
use simis.Session.Router.{next_command, dispatch, finished, route, add_offset, handle_commands}
use simis.Session.Untouched.{
  Untouched, EndsUntouched, RoutesUntouched, respond-Untouched, send_error-Untouched,
  next_command-Untouched, queue_command-Untouched, add_offset-Untouched, cons-EndsUntouched,
}

module _ (sha256_hex : Text → Text) where
  -- The arguments of AUTH do not let the session in.
  abbrev pub IsRefused : AclManager → List Text → Type 0
  IsRefused users [] = Unit
  IsRefused users (username ∷ []) = Unit
  IsRefused users (username ∷ password ∷ args) =
      authenticates sha256_hex username password users ≡ false

  abbrev pub FailsToAuthenticate : AclManager → ParseCommand → Type 0
  FailsToAuthenticate users cmd = text_eq cmd.name (bytes "AUTH") ≡ true → IsRefused users cmd.args

  module _ {D : Type 0} (ex : Executor D)
      (replication : Text → Text → List Text → Server D → Handled D) where
    auth-RoutesUntouched :
        (id : Text) (args : List Text) (w₀ : Server D) (o : ℤ) (w : Server D)
        → Untouched id w₀ o w
        → IsRefused w.users args
        → (w₀.connections id).in_transaction ≡ false
        → (w₀.connections id).in_pub_sub_mode ≡ false
        → RoutesUntouched id
            (record { name = bytes "AUTH"; args = args })
            w₀
            o
            (finished id (execute_auth sha256_hex id args w))
    unfolding execute_auth finished text_eq
    auth-RoutesUntouched id [] w₀ o w u h t m = rw (t, m) (refl, send_error-Untouched id _ w₀ o w u)
    auth-RoutesUntouched id (username ∷ []) w₀ o w u h t m = rw (t, m) refl
    auth-RoutesUntouched id (username ∷ password ∷ args) w₀ o w u h t m =
        rw h (ground arith, respond-Untouched id _ w₀ o w u)

    route_auth-RoutesUntouched :
        (id : Text) (args : List Text) (w₀ : Server D) (o : ℤ) (w : Server D)
        → Untouched id w₀ o w
        → IsRefused w.users args
        → RoutesUntouched id
            (record { name = bytes "AUTH"; args = args })
            w₀
            o
            (route sha256_hex ex replication id (bytes "AUTH") args w)
    unfolding route text_eq dispatch session_handler next_command
    route_auth-RoutesUntouched id args w₀ o w u h =
        elim (Bool-cases (w.connections id).in_transaction) [
          | inl t ↦
              rw (u.authenticated, t, ← u.transaction, t)
                (refl, queue_command-Untouched id (bytes "AUTH") args w₀ o w u t)
          | inr t ↦ elim (Bool-cases (w.connections id).in_pub_sub_mode) [
            | inl m ↦
                rw (u.authenticated, t, m, ← u.transaction, t, ← u.mode, m)
                  (refl, send_error-Untouched id _ w₀ o w u)
            | inr m ↦
                rw (u.authenticated, t, m)
                  (auth-RoutesUntouched id args w₀ o (next_command w)
                    (next_command-Untouched id w₀ o w u) h (sym u.transaction ∙ t) (sym u.mode ∙ m))
          ]
        ]

    route-RoutesUntouched :
        (id : Text) (cmd : ParseCommand) (w₀ : Server D) (o : ℤ) (w : Server D)
        → Untouched id w₀ o w
        → FailsToAuthenticate w.users cmd
        → RoutesUntouched id cmd w₀ o (route sha256_hex ex replication id cmd.name cmd.args w)
    unfolding route
    route-RoutesUntouched id cmd w₀ o w u h = elim (Bool-cases (text_eq cmd.name (bytes "AUTH"))) [
      | inl e ↦
          rw ((text_eq_iff cmd.name (bytes "AUTH")).0 e)
            (route_auth-RoutesUntouched id cmd.args w₀ o w u (h e))
      | inr e ↦ rw (u.authenticated, e) (ground arith, respond-Untouched id _ w₀ o w u)
    ]

    run-EndsUntouched :
        (id : Text) (cmds : List ParseCommand) (w₀ : Server D) (o : ℤ) (w : Server D)
        → Untouched id w₀ o w
        → All (FailsToAuthenticate w₀.users) cmds
        → EndsUntouched id cmds w₀ o (handle_commands sha256_hex ex replication id cmds w)
    unfolding handle_commands
    run-EndsUntouched id [] w₀ o w u h = (refl, u)
    run-EndsUntouched id (cmd ∷ cmds) w₀ o w u h =
        let routed = route-RoutesUntouched id cmd w₀ o w u (rw u.users h.0) in
        elim (Option-cases (route sha256_hex ex replication id cmd.name cmd.args w)) [
          | inl e ↦
              let stopped : RoutesUntouched id cmd w₀ o none = rw e at routed in
              rw (e, handle_commands) (ground arith)
          | inr (v, e) ↦
              let after : RoutesUntouched id cmd w₀ o (some v) = rw e at routed in
              rw (e, handle_commands)
                (cons-EndsUntouched id cmd cmds w₀ o _ after.0 (
                  run-EndsUntouched id cmds w₀ _ (add_offset id cmd v)
                    (add_offset-Untouched id cmd w₀ o v after.1) h.1))
        ]

    -- A session that is not let in sends commands of which no AUTH has the right password. The run
    -- panics just when the session is in no transaction and in no pub/sub mode and some command is
    -- AUTH with one argument alone. Else it ends: the session is still not let in, with its modes
    -- as before, and the other connections, the store, the users and the channels' subscribers are
    -- as before, and so is the offset, unless the connection is a master's: then the lengths of the
    -- commands are added to it, with wrap-around.
    pub handle_commands-EndsUntouched :
        (id : Text) (cmds : List ParseCommand) (w : Server D)
        → (w.connections id).authenticated ≡ false
        → All (FailsToAuthenticate w.users) cmds
        → EndsUntouched id cmds w w.offset (handle_commands sha256_hex ex replication id cmds w)
    handle_commands-EndsUntouched id cmds w a h =
        run-EndsUntouched id cmds w w.offset w
          (record {
            authenticated = a;
            transaction = refl;
            mode = refl;
            master = refl;
            others = λ j k. refl;
            store = refl;
            users = refl;
            pub_sub = refl;
            offset = refl;
          })
          h
