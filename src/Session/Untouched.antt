-- ===== src/Session/Untouched.antt =====
-- What a session that is not let in may change.
use simis.Prelude.{
  Bool, Bool-cases, List, Option, Text, [], arith, bytes, false, if◌then◌else◌, inl, inr, length,
  none, not, refl, some, text_eq, text_eq_refl, true, ◌&&◌, ◌||◌, ◌∙◌, ◌∷◌, ◌≡◌,
}
use simis.Prelude.Int.{ℤ, pos, ◌+ℤ◌, wrap}
use simis.Resp.Requests.{ParseCommand}
use simis.Connection.{RedisConnection, send_response, send_error, update}
use simis.Session.Phase.{queue_command_lem}
use simis.Resp.{to_resp_array, to_error}
use simis.Session.{Server, on_connection, respond}
use simis.Session.Router.{queue_command, next_command, add_offset}

-- What the router looks at of a session that is not let in.
abbrev SameMode : RedisConnection → RedisConnection → Type 0
SameMode c₀ c =
    (c.authenticated ≡ c₀.authenticated)
    × (c.in_transaction ≡ c₀.in_transaction)
    × (c.in_pub_sub_mode ≡ c₀.in_pub_sub_mode)
    × (c.is_master ≡ c₀.is_master)

send_response-SameMode :
    (message : Text) (c : RedisConnection) → SameMode c (send_response message c)
unfolding send_response
send_response-SameMode message c = (ground arith, ground arith, ground arith, ground arith)

abbrev pub is_single : List Text → Bool
is_single [] = false
is_single (x ∷ []) = true
is_single (x ∷ y ∷ xs) = false

-- AUTH with one argument alone, which indexes its arguments out of range.
abbrev pub is_bare_auth : ParseCommand → Bool
is_bare_auth cmd = text_eq cmd.name (bytes "AUTH") && is_single cmd.args

-- Some command gets through to AUTH with one argument alone.
abbrev pub panics_on : RedisConnection → List ParseCommand → Bool
panics_on c [] = false
panics_on c (cmd ∷ cmds) =
    (not (c.in_transaction || c.in_pub_sub_mode) && is_bare_auth cmd) || panics_on c cmds

-- The offset behind the commands of a master's connection, and of another one.
abbrev pub offset_after : Bool → List ParseCommand → ℤ → ℤ
offset_after is_master [] offset = offset
offset_after is_master (cmd ∷ cmds) offset = offset_after is_master cmds (
    if is_master
    then wrap (offset +ℤ pos (length (to_resp_array (some (cmd.name ∷ cmd.args)))))
    else offset)

module _ {D : Type 0} where
  -- What a session that is not let in may change: its own connection, of which the modes stay, the
  -- count of channels, and the offset.
  pub record Untouched (id : Text) (w₀ : Server D) (offset₀ : ℤ) (w : Server D) : Type 0 where
    pub authenticated : (w.connections id).authenticated ≡ false
    pub transaction : (w.connections id).in_transaction ≡ (w₀.connections id).in_transaction
    pub mode : (w.connections id).in_pub_sub_mode ≡ (w₀.connections id).in_pub_sub_mode
    pub master : (w.connections id).is_master ≡ (w₀.connections id).is_master
    pub others : (j : Text) → text_eq id j ≡ false → w.connections j ≡ w₀.connections j
    pub store : w.store ≡ w₀.store
    pub users : w.users ≡ w₀.users
    pub pub_sub : w.pub_sub ≡ w₀.pub_sub
    pub offset : w.offset ≡ offset₀

  -- The run panics just when a command gets through to AUTH with one argument alone, and else it
  -- ends in a state that is untouched, with the offset behind the commands.
  abbrev pub EndsUntouched : Text → List ParseCommand → Server D → ℤ → Option (Server D) → Type 0
  EndsUntouched id cmds w₀ offset none = panics_on (w₀.connections id) cmds ≡ true
  EndsUntouched id cmds w₀ offset (some w) =
      (panics_on (w₀.connections id) cmds ≡ false)
      × Untouched id w₀ (offset_after (w₀.connections id).is_master cmds offset) w

  -- The same of one command in the router, which leaves the offset alone.
  abbrev pub RoutesUntouched : Text → ParseCommand → Server D → ℤ → Option (Server D) → Type 0
  RoutesUntouched id cmd w₀ offset none = panics_on (w₀.connections id) (cmd ∷ []) ≡ true
  RoutesUntouched id cmd w₀ offset (some w) =
      (panics_on (w₀.connections id) (cmd ∷ []) ≡ false) × Untouched id w₀ offset w

  changed-Untouched :
      (id : Text) (f : RedisConnection → RedisConnection) (w₀ : Server D) (o : ℤ) (w : Server D)
      → Untouched id w₀ o w
      → SameMode (w.connections id) (f (w.connections id))
      → Untouched id w₀ o (on_connection id f w)
  unfolding on_connection update
  changed-Untouched id f w₀ o w u (a, t, m, s) = record {
    authenticated = rw (text_eq_refl id) (a ∙ u.authenticated);
    transaction = rw (text_eq_refl id) (t ∙ u.transaction);
    mode = rw (text_eq_refl id) (m ∙ u.mode);
    master = rw (text_eq_refl id) (s ∙ u.master);
    others = λ j k. rw k (u.others j k);
    store = u.store;
    users = u.users;
    pub_sub = u.pub_sub;
    offset = u.offset;
  }

  pub respond-Untouched :
      (id message : Text) (w₀ : Server D) (o : ℤ) (w : Server D)
      → Untouched id w₀ o w
      → Untouched id w₀ o (respond id message w)
  unfolding respond
  respond-Untouched id message w₀ o w u =
      changed-Untouched id (send_response message) w₀ o w u
        (send_response-SameMode message (w.connections id))

  pub send_error-Untouched :
      (id message : Text) (w₀ : Server D) (o : ℤ) (w : Server D)
      → Untouched id w₀ o w
      → Untouched id w₀ o (on_connection id (send_error message) w)
  send_error-Untouched id message w₀ o w u =
      changed-Untouched id (send_error message) w₀ o w u
        (unfold send_error in send_response-SameMode (to_error message) (w.connections id))

  pub next_command-Untouched :
      (id : Text) (w₀ : Server D) (o : ℤ) (w : Server D)
      → Untouched id w₀ o w
      → Untouched id w₀ o (next_command w)
  unfolding next_command
  next_command-Untouched id w₀ o w u = record {
    authenticated = u.authenticated;
    transaction = u.transaction;
    mode = u.mode;
    master = u.master;
    others = u.others;
    store = u.store;
    users = u.users;
    pub_sub = u.pub_sub;
    offset = u.offset;
  }

  pub queue_command-Untouched :
      (id name : Text) (args : List Text) (w₀ : Server D) (o : ℤ) (w : Server D)
      → Untouched id w₀ o w
      → (w.connections id).in_transaction ≡ true
      → Untouched id w₀ o (queue_command id name args w)
  unfolding next_command
  queue_command-Untouched id name args w₀ o w u t = rw (queue_command_lem id name args w t) (
      respond-Untouched id _ w₀ o _ (
        changed-Untouched id _ w₀ o _ (next_command-Untouched id w₀ o w u)
          (refl, refl, refl, refl)))

  pub add_offset-Untouched :
      (id : Text) (cmd : ParseCommand) (w₀ : Server D) (o : ℤ) (w : Server D)
      → Untouched id w₀ o w
      → Untouched id w₀
          (offset_after (w₀.connections id).is_master (cmd ∷ []) o)
          (add_offset id cmd w)
  unfolding add_offset
  add_offset-Untouched id cmd w₀ o w u = elim (Bool-cases (w.connections id).is_master) [
    | inl e ↦
        rw (e, ← u.master, e)
          (record {
            authenticated = u.authenticated;
            transaction = u.transaction;
            mode = u.mode;
            master = u.master;
            others = u.others;
            store = u.store;
            users = u.users;
            pub_sub = u.pub_sub;
            offset = rw u.offset refl;
          })
    | inr e ↦ rw (e, ← u.master, e) u
  ]

  pub cons-EndsUntouched :
      (id : Text) (cmd : ParseCommand) (cmds : List ParseCommand) (w₀ : Server D) (o : ℤ)
      (r : Option (Server D))
      → panics_on (w₀.connections id) (cmd ∷ []) ≡ false
      → EndsUntouched id cmds w₀ (offset_after (w₀.connections id).is_master (cmd ∷ []) o) r
      → EndsUntouched id (cmd ∷ cmds) w₀ o r
  cons-EndsUntouched id cmd cmds w₀ o none h k = ground arith
  cons-EndsUntouched id cmd cmds w₀ o (some w) h (k, u) = (ground arith, u)
