-- ===== src/Lru/Use.antt =====
-- Access and Remove on the list of keys that a tracker stands for.
use simis.Prelude.{
  Bool-cases, List, Option, Text, [], arith, delete, false, if◌then◌else◌, inl, inr, insert, length,
  lookup, lookup-delete, lookup-insert, none, refl, some, text_eq, true, ◌++◌, ◌+◌, ◌-◌, ◌∙◌, ◌∷◌,
  ◌≡◌,
}
use mathlib.Core.Path.{subst}
use simis.Lru.{
  LruNode, LruTracker, new_lru_tracker, add_to_head, remove_from_list, insert_new, access, remove,
}
use simis.Lru.Order.{has, without, IsDistinct, first_or, last_or, node, Linked, Tracks}
use simis.Lru.Unlink.{Around, around, first_node, Linked-split}
use simis.Lru.Refine.{
  IsApart, Linked-insert, Linked-delete, add_to_head_lem, remove_from_list_lem, apart,
}

without_missing : (key : Text) (ks : List Text) → has key ks ≡ false → without key ks ≡ ks
unfolding has without
without_missing key [] h = refl
without_missing key (k ∷ ks) h =
    let (other, out) = apart k key ks h in rw (other, without_missing key ks out)

pub length-without :
    (key : Text) (ks : List Text) → has key ks ≡ true → length ks ≡ length (without key ks) + 1
unfolding has without
length-without key [] h = cc
length-without key (k ∷ ks) h = ground (arith, length-without key ks)

pub Tracks-new_lru_tracker : Tracks new_lru_tracker []
Tracks-new_lru_tracker = record {
  linked = unfold Linked in tt;
  head = unfold first_or in refl;
  tail = unfold last_or in refl;
  distinct = unfold IsDistinct in tt;
  only = λ key h. unfold lookup in refl;
  size = refl;
}

remove_step :
    (key : Text) (n : LruNode) (t : LruTracker)
    → lookup key t.nodes ≡ some n
    → let t' = remove_from_list key n t in
      remove key t ≡ record t' { nodes = delete key t'.nodes; size = t'.size - 1 }
unfolding remove
remove_step key n t e = rw (e, remove)

remove_missing : (key : Text) (t : LruTracker) → lookup key t.nodes ≡ none → remove key t ≡ t
unfolding remove
remove_missing key t e = rw (e, remove)

access_step :
    (key : Text) (n : LruNode) (t : LruTracker)
    → lookup key t.nodes ≡ some n
    → access key t ≡ add_to_head key (remove_from_list key n t)
unfolding access
access_step key n t e = rw (e, access)

new_step :
    (key : Text) (t : LruTracker)
    → lookup key t.nodes ≡ none
    → let t' = add_to_head key (record t { nodes = insert key (node none none) t.nodes }) in
      access key t ≡ record t' { size = t'.size + 1 }
unfolding access insert_new
new_step key t e = rw (e, access, insert_new)

forgotten :
    (key j : Text) (o : Option LruNode)
    → (text_eq key j ≡ false → o ≡ none)
    → (if text_eq key j then none else o) ≡ none
forgotten key j o h = elim (Bool-cases (text_eq key j)) [ inl e ↦ rw e | inr e ↦ rw e (h e) ]

module _ {t : LruTracker} {ks : List Text} (h : Tracks t ks) (key : Text) where
  module _ (a : Around key ks) where
    the_node : LruNode
    the_node = node (last_or none a.front) (first_or none a.back)

    node_at : lookup key t.nodes ≡ some the_node
    unfolding the_node
    node_at =
        let l : Linked none none (a.front ++ (key ∷ a.back)) t.nodes =
          (subst (Tracks t) a.whole h).linked in
        first_node (last_or none a.front) none key a.back t.nodes
          (Linked-split none none a.front (key ∷ a.back) t.nodes l).1

    IsApart-from : IsApart key (without key ks) t (remove_from_list key the_node t)
    unfolding the_node
    IsApart-from =
        rw a.joined (remove_from_list_lem t a.front key a.back (subst (Tracks t) a.whole h))

    removed : has key ks ≡ true → Tracks (remove key t) (without key ks)
    removed member =
        let q = IsApart-from in
        let t' = remove_from_list key the_node t in
        rw (remove_step key the_node t node_at) (record {
          linked = Linked-delete none none (without key ks) t'.nodes key q.gone q.linked;
          head = q.head;
          tail = q.tail;
          distinct = q.distinct;
          only = λ j out.
              rw (lookup-delete key j) (forgotten key j (lookup j t'.nodes) (q.only j out));
          size = omega (arith, q.size, h.size, length-without key ks member);
        })

    accessed : has key ks ≡ true → Tracks (access key t) (key ∷ without key ks)
    accessed member =
        let q = IsApart-from in
        let t' = remove_from_list key the_node t in
        let (linked, head, tail, size, same) =
          add_to_head_lem key (without key ks) t' q.linked q.head q.tail q.distinct q.gone in
        rw (access_step key the_node t node_at) (record {
          linked = linked;
          head = head ∙ unfold first_or in refl;
          tail = tail;
          distinct = unfold IsDistinct in (q.gone, q.distinct);
          only = λ j out.
              let (other, out') = apart key j (without key ks) out in
              same j out ∙ q.only j out' other;
          size = omega (arith, size, q.size, h.size, length-without key ks member);
        })

  added : has key ks ≡ false → Tracks (access key t) (key ∷ ks)
  added out =
      let t0 : LruTracker = record t { nodes = insert key (node none none) t.nodes } in
      let (linked, head, tail, size, same) =
        add_to_head_lem key ks t0
          (Linked-insert none none ks t.nodes key (node none none) out h.linked) h.head h.tail
          h.distinct out in
      rw (new_step key t (h.only key out)) (record {
        linked = linked;
        head = head ∙ unfold first_or in refl;
        tail = tail;
        distinct = unfold IsDistinct in (out, h.distinct);
        only = λ j o.
            let (other, o') = apart key j ks o in
            same j o ∙ rw (lookup-insert key j, other) (h.only j o');
        size = omega (arith, size, h.size);
      })

  -- Access puts the key in front of the others, which keep their order, whether it was tracked or not.
  pub access-Tracks : Tracks (access key t) (key ∷ without key ks)
  access-Tracks = elim (Bool-cases (has key ks)) [
    | inl member ↦ accessed (around key ks member) member
    | inr out ↦ rw (without_missing key ks out) (added out)
  ]

  -- Remove takes the key out, and changes nothing where it is not tracked.
  pub remove-Tracks : Tracks (remove key t) (without key ks)
  remove-Tracks = elim (Bool-cases (has key ks)) [
    | inl member ↦ removed (around key ks member) member
    | inr out ↦ rw (without_missing key ks out, remove_missing key t (h.only key out)) h
  ]
