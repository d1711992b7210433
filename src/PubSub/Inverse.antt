-- ===== src/PubSub/Inverse.antt =====
-- The two maps of the manager agree, and the mode of a connection follows them.
use simis.Prelude.{
  Assoc, Bool, Option-cases, Text, [], arith, delete, false, if◌then◌else◌, inl, inr, insert,
  length, lookup, lookup-delete, lookup-insert, none, not, refl, some, text_eq, text_eq_iff,
  text_eq_refl, true, ◌&&◌, ◌<◌, ◌==◌, ◌||◌, ◌∷◌, ◌≡◌, ◌≤◌,
}
use simis.Connection.{Connections, update, enter_pub_sub_mode, exit_pub_sub_mode}
use simis.PubSub.{
  Members, PubSubManager, members, remove_member, subscribe, leave_mode, unsubscribe,
}

abbrev pub is_member : Text → Members → Bool
is_member j s = elim (lookup j s) [ none ↦ false | some b ↦ true ]

-- A connection is in the set of a channel exactly if the channel is in the connection's set.
abbrev pub Agrees : PubSubManager → Type 0
Agrees m =
    (id channel : Text)
    → is_member id (members channel m.channels) ≡ is_member channel (members id m.subscriptions)

-- A connection is in the mode exactly while it listens.
abbrev pub InMode : PubSubManager → Connections → Type 0
InMode m cs = (id : Text) → (cs id).in_pub_sub_mode ≡ not (length (members id m.subscriptions) == 0)

pub is_member-insert :
    (k j : Text) (s : Members) → is_member j (insert k true s) ≡ (text_eq k j || is_member j s)
is_member-insert k j s = ground (arith, lookup-insert k j true s)

pub is_member-delete :
    (k j : Text) (s : Members) → is_member j (delete k s) ≡ (not (text_eq k j) && is_member j s)
is_member-delete k j s = ground (arith, lookup-delete k j s)

pub members-insert :
    (k j : Text) (s : Members) (m : Assoc Members)
    → members j (insert k s m) ≡ (if text_eq k j then s else members j m)
unfolding members
members-insert k j s m = ground (arith, lookup-insert k j s m)

-- A set that is not there has nothing to remove.
pub members-remove_member :
    (k j i : Text) (m : Assoc Members)
    → members i (remove_member k j m)
      ≡ (if text_eq k i then delete j (members i m) else members i m)
unfolding remove_member members delete
members-remove_member k j i m = elim (Option-cases (lookup k m)) [
  | inl e ↦ ground (arith, e, text_eq_iff k i)
  | inr (s, e) ↦ ground (arith, e, text_eq_iff k i, lookup-insert k i (delete j s) m)
]

length-insert : (k : Text) (v : Bool) (s : Members) → 0 < length (insert k v s)
unfolding insert
length-insert k v [] = omega arith
length-insert k v ((j, w) ∷ s) = ground arith

length-delete : (k : Text) (s : Members) → length (delete k s) ≤ length s
unfolding delete
length-delete k [] = omega arith
length-delete k ((j, w) ∷ s) = ground (arith, length-delete k s)

pub subscribe-Agrees :
    (id channel : Text) (m : PubSubManager) (cs : Connections)
    → Agrees m
    → Agrees (subscribe id channel m cs).1.0
unfolding subscribe
subscribe-Agrees id channel m cs h i c = ground (
  arith,
  members-insert channel c (insert id true (members channel m.channels)) m.channels,
  members-insert id i (insert channel true (members id m.subscriptions)) m.subscriptions,
  is_member-insert id i (members channel m.channels),
  is_member-insert channel c (members id m.subscriptions),
  text_eq_iff channel c,
  text_eq_iff id i,
  h i c,
  h i channel,
  h id c,
  h id channel,
)

pub unsubscribe-Agrees :
    (id channel : Text) (m : PubSubManager) (cs : Connections)
    → Agrees m
    → Agrees (unsubscribe id channel m cs).1.0
unfolding unsubscribe
unsubscribe-Agrees id channel m cs h i c = ground (
  arith,
  members-remove_member channel id c m.channels,
  members-remove_member id channel i m.subscriptions,
  is_member-delete id i (members c m.channels),
  is_member-delete channel c (members i m.subscriptions),
  text_eq_iff channel c,
  text_eq_iff id i,
  h i c,
)

pub subscribe-InMode :
    (id channel : Text) (m : PubSubManager) (cs : Connections)
    → InMode m cs
    → InMode (subscribe id channel m cs).1.0 (subscribe id channel m cs).1.1
unfolding subscribe update enter_pub_sub_mode
subscribe-InMode id channel m cs h i = ground (
  arith,
  members-insert id i (insert channel true (members id m.subscriptions)) m.subscriptions,
  length-insert channel true (members id m.subscriptions),
  h i,
)

leave_mode-none :
    (id i : Text) (b : Bool) (m : Assoc Members) (cs : Connections)
    → lookup id m ≡ none
    → (if b then leave_mode id m cs else cs) i ≡ cs i
unfolding leave_mode
leave_mode-none id i true m cs e = rw (e, leave_mode) refl
leave_mode-none id i false m cs e = refl

leave_mode-some :
    (id i : Text) (s : Members) (b : Bool) (m : Assoc Members) (cs : Connections)
    → lookup id m ≡ some s
    → ((if b then leave_mode id m cs else cs) i).in_pub_sub_mode
      ≡ (if b && text_eq id i then false else (cs i).in_pub_sub_mode)
unfolding leave_mode update exit_pub_sub_mode
leave_mode-some id i s true m cs e = rw (e, leave_mode) (ground arith)
leave_mode-some id i s false m cs e = refl

delete_nothing : (channel : Text) → ◌≡◌ {A = Members} (delete channel []) []
unfolding delete
delete_nothing channel = refl

members-none : (id : Text) (m : Assoc Members) → lookup id m ≡ none → members id m ≡ []
unfolding members
members-none id m e = rw (e, members) refl

pub unsubscribe-InMode :
    (id channel : Text) (m : PubSubManager) (cs : Connections)
    → InMode m cs
    → InMode (unsubscribe id channel m cs).1.0 (unsubscribe id channel m cs).1.1
unfolding unsubscribe
unsubscribe-InMode id channel m cs h i =
    let none_left = length (members id (remove_member id channel m.subscriptions)) == 0 in
    let same = members-remove_member id channel i m.subscriptions in
    elim (Option-cases (lookup id m.subscriptions)) [
      | inl e ↦ rw (leave_mode-none id i none_left m.subscriptions cs e) (
          ground (
            arith,
            e,
            h i,
            same,
            delete_nothing channel,
            text_eq_iff id i,
            members-none id m.subscriptions e,
          ))
      | inr (s, e) ↦ rw (leave_mode-some id i s none_left m.subscriptions cs e) (
          ground (
            arith,
            h i,
            same,
            members-remove_member id channel id m.subscriptions,
            text_eq_iff id i,
            text_eq_refl id,
            length-delete channel (members id m.subscriptions),
          ))
    ]
