-- ===== src/PubSub/Delivery.antt =====
-- What holds of the manager after any sequence of its operations, and who gets a message.
use simis.Prelude.{
  Bool, Bool-cases, Text, [], ap, arith, delete, false, if◌then◌else◌, inl, inr, insert, lookup,
  refl, sym, text_eq, text_eq_iff, true, ◌||◌, ◌∙◌, ◌∷◌, ◌≡◌,
}
use simis.Connection.{RedisConnection, Connections, update, send_response}
use simis.PubSub.{
  Members, PubSubManager, new_pub_sub_manager, members, subscribe, unsubscribe, send_all,
  message_text, publish,
}
use simis.PubSub.Inverse.{
  is_member, Agrees, InMode, is_member-insert, is_member-delete, members-insert,
  members-remove_member, subscribe-Agrees, unsubscribe-Agrees, subscribe-InMode, unsubscribe-InMode,
}

-- The states that subscribing, unsubscribing and publishing lead to.
pub data Reachable : PubSubManager → Connections → Type 0 where
  start :
      (cs : Connections)
      → ((id : Text) → (cs id).in_pub_sub_mode ≡ false)
      → Reachable new_pub_sub_manager cs
  subscribed :
      (id channel : Text) (m : PubSubManager) (cs : Connections)
      → Reachable m cs
      → Reachable (subscribe id channel m cs).1.0 (subscribe id channel m cs).1.1
  unsubscribed :
      (id channel : Text) (m : PubSubManager) (cs : Connections)
      → Reachable m cs
      → Reachable (unsubscribe id channel m cs).1.0 (unsubscribe id channel m cs).1.1
  published :
      (channel message : Text) (m : PubSubManager) (cs : Connections)
      → Reachable m cs
      → Reachable m (publish channel message m cs).1

abbrev Distinct : Members → Type 0
Distinct [] = Unit
Distinct ((id, listens) ∷ s) = (is_member id s ≡ false) × Distinct s

insert-Distinct : (k : Text) (s : Members) → Distinct s → Distinct (insert k true s)
unfolding insert
insert-Distinct k [] h = (unfold lookup in refl, tt)
insert-Distinct k ((j, w) ∷ s) h = elim (Bool-cases (text_eq j k)) [
  | inl e ↦ rw e (rw (sym ((text_eq_iff j k).0 e)) h)
  | inr e ↦ rw e (
    ground (arith, h.0, is_member-insert k j s, text_eq_iff k j, text_eq_iff j k),
    insert-Distinct k s h.1,
  )
]

delete-Distinct : (k : Text) (s : Members) → Distinct s → Distinct (delete k s)
unfolding delete
delete-Distinct k [] h = tt
delete-Distinct k ((j, w) ∷ s) h = elim (Bool-cases (text_eq j k)) [
  | inl e ↦ rw e (delete-Distinct k s h.1)
  | inr e ↦ rw e (ground (arith, h.0, is_member-delete k j s), delete-Distinct k s h.1)
]

abbrev AllDistinct : PubSubManager → Type 0
AllDistinct m = (channel : Text) → Distinct (members channel m.channels)

subscribe-AllDistinct :
    (id channel : Text) (m : PubSubManager) (cs : Connections)
    → AllDistinct m
    → AllDistinct (subscribe id channel m cs).1.0
unfolding subscribe
subscribe-AllDistinct id channel m cs h c = elim (Bool-cases (text_eq channel c)) [
  | inl e ↦
      rw (members-insert channel c (insert id true (members channel m.channels)) m.channels, e)
        (insert-Distinct id _ (h channel))
  | inr e ↦
      rw (members-insert channel c (insert id true (members channel m.channels)) m.channels, e)
        (h c)
]

unsubscribe-AllDistinct :
    (id channel : Text) (m : PubSubManager) (cs : Connections)
    → AllDistinct m
    → AllDistinct (unsubscribe id channel m cs).1.0
unfolding unsubscribe
unsubscribe-AllDistinct id channel m cs h c = elim (Bool-cases (text_eq channel c)) [
  | inl e ↦ rw (members-remove_member channel id c m.channels, e) (delete-Distinct id _ (h c))
  | inr e ↦ rw (members-remove_member channel id c m.channels, e) (h c)
]

is_member_head :
    (id i : Text) (listens : Bool) (s : Members)
    → is_member i ((id, listens) ∷ s) ≡ (text_eq id i || is_member i s)
unfolding lookup
is_member_head id i listens s = ground arith

-- Each connection in a set gets the text once, and no other does.
send_all_lem :
    (text i : Text) (s : Members) (cs : Connections)
    → Distinct s
    → send_all text s cs i ≡ (if is_member i s then send_response text (cs i) else cs i)
unfolding send_all update
send_all_lem text i [] cs h = unfold lookup in refl
send_all_lem text i ((id, listens) ∷ s) cs h =
    let rest = send_all_lem text i s (update id (send_response text) cs) h.1 in
    elim (Bool-cases (text_eq id i)) [
      | inl e ↦
          let same = (text_eq_iff id i).0 e in
          let not_behind : is_member i s ≡ false = rw (sym same) h.0 in
          rw (rest, not_behind, is_member_head id i listens s, e)
            (ap (λ j. send_response text (cs j)) same)
      | inr e ↦ rw (rest, is_member_head id i listens s, e) refl
    ]

mode-send_response :
    (text : Text) (c : RedisConnection) → (send_response text c).in_pub_sub_mode ≡ c.in_pub_sub_mode
unfolding send_response
mode-send_response text c = ground arith

mode-publish :
    (channel message i : Text) (m : PubSubManager) (cs : Connections)
    → Distinct (members channel m.channels)
    → ((publish channel message m cs).1 i).in_pub_sub_mode ≡ (cs i).in_pub_sub_mode
unfolding publish
mode-publish channel message i m cs d = ground (
  arith,
  send_all_lem (message_text channel message) i (members channel m.channels) cs d,
  mode-send_response (message_text channel message) (cs i),
)

pub Holds : PubSubManager → Connections → Type 0
Holds m cs = Agrees m × (InMode m cs × AllDistinct m)

-- Whatever sequence of SUBSCRIBE, UNSUBSCRIBE and PUBLISH has led to a state: a connection is in the
-- set of a channel exactly if the channel is in the set of the connection, a connection is in the
-- publish-and-subscribe mode exactly while its set is not empty, and no set names a connection twice.
pub Reachable-Holds : (m : PubSubManager) (cs : Connections) → Reachable m cs → Holds m cs
unfolding Holds
Reachable-Holds m cs (start cs' h) = (
  unfold members lookup in λ id c. refl,
  (unfold members lookup in h, unfold members lookup in λ c. tt),
)
Reachable-Holds m cs (subscribed id channel m' cs' r) =
    let (a, (b, d)) = Reachable-Holds m' cs' r in
    (
      subscribe-Agrees id channel m' cs' a,
      (subscribe-InMode id channel m' cs' b, subscribe-AllDistinct id channel m' cs' d),
    )
Reachable-Holds m cs (unsubscribed id channel m' cs' r) =
    let (a, (b, d)) = Reachable-Holds m' cs' r in
    (
      unsubscribe-Agrees id channel m' cs' a,
      (unsubscribe-InMode id channel m' cs' b, unsubscribe-AllDistinct id channel m' cs' d),
    )
Reachable-Holds m cs (published channel message m' cs' r) =
    let (a, (b, d)) = Reachable-Holds m' cs' r in
    (a, (λ i. mode-publish channel message i m' cs' (d channel) ∙ b i, d))

-- PUBLISH, in a state that is reached: a connection is sent the message, once, exactly if the channel
-- is in its own set of subscriptions, and no other connection changes.
pub publish_lem :
    (channel message i : Text) (m : PubSubManager) (cs : Connections)
    → Reachable m cs
    → (publish channel message m cs).1 i ≡ (
        if is_member channel (members i m.subscriptions)
        then send_response (message_text channel message) (cs i)
        else cs i)
unfolding publish Holds
publish_lem channel message i m cs r =
    let (agrees, (mode, distinct)) = Reachable-Holds m cs r in
    rw (sym (agrees i channel)) (
      send_all_lem (message_text channel message) i (members channel m.channels) cs
        (distinct channel))
