-- ===== src/Lru/Refine.antt =====
-- Access and Remove on the list of keys that a tracker stands for.
use simis.Prelude.{
  Assoc, Bool-cases, List, Option, Text, [], arith, delete, false, inl, inr, insert, lookup,
  lookup-delete, lookup-insert, none, refl, some, sym, text_eq, text_eq_iff, text_eq_refl, true,
  ◌++◌, ◌∙◌, ◌∷◌, ◌≡◌,
}
use simis.Lru.{
  LruNode, LruTracker, set_prev, add_to_head, unlink_front, unlink_back, remove_from_list,
}
use simis.Lru.Order.{has, IsDistinct, first_or, last_or, node, Linked, Tracks}
use simis.Lru.Unlink.{
  has-append, IsDistinct-parts, Linked-frame, first_or-append, last_or-append, Linked-split,
  Linked-join, first_node, set_prev_first, has_first, not_same, lookup-set_prev, some_last,
  unlink_front_lem, unlink_back_lem,
}

-- What `removeFromList` leaves: the other keys are linked, and the node of the key is apart.
pub record IsApart (key : Text) (ks : List Text) (t t' : LruTracker) : Type 0 where
  pub linked : Linked none none ks t'.nodes
  pub head : t'.head ≡ first_or none ks
  pub tail : t'.tail ≡ last_or none ks
  pub size : t'.size ≡ t.size
  pub distinct : IsDistinct ks
  pub gone : has key ks ≡ false
  pub only : (j : Text) → has j ks ≡ false → text_eq key j ≡ false → lookup j t'.nodes ≡ none

text_eq_flip : (j key : Text) → text_eq j key ≡ false → text_eq key j ≡ false
text_eq_flip j key h = ground (arith, text_eq_iff j key, text_eq_iff key j)

pub Linked-insert :
    (f b : Option Text) (ks : List Text) (nodes : Assoc LruNode) (key : Text) (n : LruNode)
    → has key ks ≡ false
    → Linked f b ks nodes
    → Linked f b ks (insert key n nodes)
Linked-insert f b ks nodes key n h l =
    Linked-frame f b ks nodes (insert key n nodes)
      (λ j member. rw (lookup-insert key j, text_eq_flip j key (not_same j key ks member h))) l

pub Linked-delete :
    (f b : Option Text) (ks : List Text) (nodes : Assoc LruNode) (key : Text)
    → has key ks ≡ false
    → Linked f b ks nodes
    → Linked f b ks (delete key nodes)
Linked-delete f b ks nodes key h l =
    Linked-frame f b ks nodes (delete key nodes)
      (λ j member. rw (lookup-delete key j, text_eq_flip j key (not_same j key ks member h))) l

pub apart :
    (key j : Text) (ks : List Text)
    → has j (key ∷ ks) ≡ false
    → (text_eq key j ≡ false) × (has j ks ≡ false)
unfolding has
apart key j ks h = ground arith

in_front :
    (key : Text) (ks : List Text) (nodes : Assoc LruNode)
    → lookup key nodes ≡ some (node none (first_or none ks))
    → Linked (some key) none ks nodes
    → Linked none none (key ∷ ks) nodes
unfolding Linked
in_front key ks nodes n l = (n, l)

-- `addToHead` of a key that the list does not have.
pub add_to_head_lem :
    (key : Text) (ks : List Text) (t : LruTracker)
    → Linked none none ks t.nodes
    → t.head ≡ first_or none ks
    → t.tail ≡ last_or none ks
    → IsDistinct ks
    → has key ks ≡ false
    → let t' = add_to_head key t in
      Linked none none (key ∷ ks) t'.nodes
      × (t'.head ≡ some key)
      × (t'.tail ≡ last_or none (key ∷ ks))
      × (t'.size ≡ t.size)
      × ((j : Text) → has j (key ∷ ks) ≡ false → lookup j t'.nodes ≡ lookup j t.nodes)
unfolding add_to_head first_or last_or has
add_to_head_lem key [] t l head tail d out =
    rw (head, tail)
      (
        in_front key [] (insert key (node none t.head) t.nodes)
            (rw (lookup-insert key key, text_eq_refl key, head)) (unfold Linked in tt),
        refl,
        refl,
        refl,
        λ j h. rw (lookup-insert key j, (apart key j [] h).0),
      )
add_to_head_lem key (k ∷ ks) t l head tail d out =
    let mine = node none t.head in
    let nodes = insert key mine t.nodes in
    let l' = Linked-insert none none (k ∷ ks) t.nodes key mine out l in
    let n = first_node none none k ks nodes l' in
    let (p, last) = some_last k ks in
    rw (head, tail, last)
      (
        in_front key (k ∷ ks) (set_prev k (some key) nodes)
            (rw (
              lookup-set_prev k key (some key) _ nodes n,
              not_same k key (k ∷ ks) (has_first k ks) out,
              lookup-insert key key,
              text_eq_refl key,
              head,
            ))
            (set_prev_first none (some key) none k ks nodes d l'),
        refl,
        refl,
        refl,
        λ j h. rw (
          lookup-set_prev k j (some key) _ nodes n,
          (apart k j ks (apart key j (k ∷ ks) h).1).0,
          lookup-insert key j,
          (apart key j (k ∷ ks) h).0,
        ),
      )

-- The tail behind `removeFromList`.
new_tail :
    (xs ys : List Text) (key : Text) (found old : Option Text)
    → found ≡ elim ys [ [] ↦ last_or none xs | y ∷ rest ↦ old ]
    → old ≡ last_or none (xs ++ (key ∷ ys))
    → found ≡ last_or none (xs ++ ys)
unfolding last_or
new_tail xs [] key found old e o = e ∙ sym (last_or-append none xs [])
new_tail xs (y ∷ ys) key found old e o =
    e ∙ o ∙ last_or-append none xs (key ∷ y ∷ ys) ∙ sym (last_or-append none xs (y ∷ ys))

IsDistinct-front : (xs ys : List Text) → IsDistinct (xs ++ ys) → IsDistinct xs
unfolding IsDistinct
IsDistinct-front [] ys d = tt
IsDistinct-front (x ∷ xs) ys d = (ground (arith, rw has-append at d.0), IsDistinct-front xs ys d.1)

disjoint :
    (j : Text) (xs ys : List Text) → IsDistinct (xs ++ ys) → has j ys ≡ true → has j xs ≡ false
unfolding IsDistinct has
disjoint j [] ys d h = refl
disjoint j (x ∷ xs) ys d h =
    let other : text_eq j x ≡ false =
      not_same j x (xs ++ ys) (has-append j xs ys ∙ ground (arith, h)) d.0 in
    rw (text_eq_flip j x other, disjoint j xs ys d.1 h)

disjoint_back :
    (j : Text) (xs ys : List Text) → IsDistinct (xs ++ ys) → has j xs ≡ true → has j ys ≡ false
disjoint_back j xs ys d h = elim (Bool-cases (has j ys)) [
  | inl both ↦ let q : has j xs ≡ false = disjoint j xs ys d both in absurd cc
  | inr out ↦ out
]

not_in_whole :
    (j key : Text) (xs ys : List Text)
    → has j (xs ++ ys) ≡ false
    → text_eq key j ≡ false
    → (has j xs ≡ false) × (has j ys ≡ false) × (has j (xs ++ (key ∷ ys)) ≡ false)
unfolding has
not_in_whole j key xs ys h k = ground (arith, rw has-append at h, has-append j xs (key ∷ ys))

behind :
    (f b : Option Text) (key : Text) (ys : List Text) (nodes : Assoc LruNode)
    → Linked f b (key ∷ ys) nodes
    → Linked (some key) b ys nodes
unfolding Linked
behind f b key ys nodes l = l.1

pub remove_from_list_lem :
    (t : LruTracker) (xs : List Text) (key : Text) (ys : List Text)
    → Tracks t (xs ++ (key ∷ ys))
    → IsApart key (xs ++ ys) t (remove_from_list key (node (last_or none xs) (first_or none ys)) t)
unfolding remove_from_list first_or
remove_from_list_lem t xs key ys h =
    let (front, here) = Linked-split none none xs (key ∷ ys) t.nodes h.linked in
    let (both, dy, gone) = IsDistinct-parts xs key ys h.distinct in
    let n = node (last_or none xs) (first_or none ys) in
    let t1 = unlink_front n t in
    let (l1, same1, head1, tail1, size1) =
      unlink_front_lem t xs (some key) (first_or none ys) (IsDistinct-front xs ys both) front
        (h.head ∙ first_or-append none xs (key ∷ ys)) in
    let back1 =
      Linked-frame (some key) none ys t.nodes t1.nodes (λ j m. same1 j (disjoint j xs ys both m))
        (behind (last_or none xs) none key ys t.nodes here) in
    let t2 = unlink_back n t1 in
    let (l2, same2, head2, tail2, size2) =
      unlink_back_lem t1 ys (some key) (last_or none xs) dy back1 in
    let front2 =
      Linked-frame none (first_or none ys) xs t1.nodes t2.nodes
        (λ j m. same2 j (disjoint_back j xs ys both m)) l1 in
    record {
      linked =
          Linked-insert none none (xs ++ ys) t2.nodes key (node none none) gone
            (Linked-join none none xs ys t2.nodes front2 l2);
      head = head2 ∙ head1 ∙ sym (first_or-append none xs ys);
      tail = new_tail xs ys key t2.tail t1.tail tail2 (tail1 ∙ h.tail);
      size = size2 ∙ size1;
      distinct = both;
      gone = gone;
      only = λ j out other.
          let (ox, oy, o) = not_in_whole j key xs ys out other in
          rw (lookup-insert key j, other) (same2 j oy ∙ same1 j ox ∙ h.only j o);
    }
