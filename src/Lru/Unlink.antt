-- ===== src/Lru/Unlink.antt =====
-- Taking a node out of the doubly linked list, and putting one in front.
use simis.Prelude.{
  Assoc, Bool-cases, List, Option, Text, [], ap, arith, false, if◌then◌else◌, injective_some, inl,
  inr, lookup, lookup-insert, none, refl, some, text_eq, text_eq_iff, text_eq_refl, true, ◌++◌,
  ◌||◌, ◌∙◌, ◌∷◌, ◌≡◌,
}
use simis.Lru.{LruNode, LruTracker, set_prev, set_next, unlink_front, unlink_back}
use simis.Lru.Order.{has, without, IsDistinct, first_or, last_or, node, Linked}

-- The parts of the list in front of a key and behind it.
pub record Around (key : Text) (ks : List Text) : Type 0 where
  pub front : List Text
  pub back : List Text
  pub whole : ks ≡ front ++ (key ∷ back)
  pub joined : without key ks ≡ front ++ back
  pub not_front : has key front ≡ false

pub around : (key : Text) (ks : List Text) → has key ks ≡ true → Around key ks
unfolding has without
around key [] h = cc
around key (k ∷ ks) h = elim (Bool-cases (text_eq k key)) [
  | inl same ↦ record {
    front = [];
    back = ks;
    whole = ap (λ (j : Text). j ∷ ks) ((text_eq_iff k key).0 same);
    joined = rw same;
    not_front = refl;
  }
  | inr other ↦
      let a = around key ks (rw other at h) in
      record {
        front = k ∷ a.front;
        back = a.back;
        whole = ap (◌∷◌ k) a.whole;
        joined = rw other (ap (◌∷◌ k) a.joined);
        not_front = rw (other, a.not_front);
      }
]

pub has-append : (key : Text) (xs ys : List Text) → has key (xs ++ ys) ≡ (has key xs || has key ys)
unfolding has
has-append key [] ys = refl
has-append key (x ∷ xs) ys = ground (arith, has-append key xs ys)

-- A list of different keys falls into parts that share none.
pub IsDistinct-parts :
    (xs : List Text) (key : Text) (ys : List Text)
    → IsDistinct (xs ++ (key ∷ ys))
    → IsDistinct (xs ++ ys) × IsDistinct ys × (has key (xs ++ ys) ≡ false)
unfolding IsDistinct has
IsDistinct-parts [] key ys d = (d.1, d.1, d.0)
IsDistinct-parts (x ∷ xs) key ys d =
    let (both, behind, gone) = IsDistinct-parts xs key ys d.1 in
    let other : text_eq x key ≡ false =
      ground
        (arith, rw has-append at d.0, text_eq_iff x key, text_eq_iff key x, text_eq_refl key) in
    ((ground (arith, rw has-append at d.0, has-append x xs ys), both), behind, rw (other, gone))

-- Only the nodes of its keys matter to a list.
pub Linked-frame :
    (front back : Option Text) (ks : List Text) (nodes nodes' : Assoc LruNode)
    → ((j : Text) → has j ks ≡ true → lookup j nodes' ≡ lookup j nodes)
    → Linked front back ks nodes
    → Linked front back ks nodes'
unfolding Linked has
Linked-frame front back [] nodes nodes' same l = tt
Linked-frame front back (k ∷ ks) nodes nodes' same l = (
  same k (rw (text_eq_refl k)) ∙ l.0,
  Linked-frame (some k) back ks nodes nodes' (λ j h. same j (ground arith)) l.1,
)

pub first_or-append :
    (back : Option Text) (xs ys : List Text)
    → first_or back (xs ++ ys) ≡ first_or (first_or back ys) xs
unfolding first_or
first_or-append back [] ys = refl
first_or-append back (x ∷ xs) ys = refl

pub last_or-append :
    (front : Option Text) (xs ys : List Text)
    → last_or front (xs ++ ys) ≡ last_or (last_or front xs) ys
unfolding last_or
last_or-append front [] ys = refl
last_or-append front (x ∷ xs) ys = last_or-append (some x) xs ys

pub Linked-split :
    (front back : Option Text) (xs ys : List Text) (nodes : Assoc LruNode)
    → Linked front back (xs ++ ys) nodes
    → Linked front (first_or back ys) xs nodes × Linked (last_or front xs) back ys nodes
unfolding Linked last_or
Linked-split front back [] ys nodes l = (tt, l)
Linked-split front back (x ∷ xs) ys nodes l =
    let (l1, l2) = Linked-split (some x) back xs ys nodes l.1 in
    ((rw (first_or-append back xs ys) at l.0, l1), l2)

pub Linked-join :
    (front back : Option Text) (xs ys : List Text) (nodes : Assoc LruNode)
    → Linked front (first_or back ys) xs nodes
    → Linked (last_or front xs) back ys nodes
    → Linked front back (xs ++ ys) nodes
unfolding Linked last_or
Linked-join front back [] ys nodes l1 l2 = l2
Linked-join front back (x ∷ xs) ys nodes l1 l2 =
    (rw (first_or-append back xs ys) l1.0, Linked-join (some x) back xs ys nodes l1.1 l2)

pub lookup-set_prev :
    (k j : Text) (to : Option Text) (n : LruNode) (nodes : Assoc LruNode)
    → lookup k nodes ≡ some n
    → lookup j (set_prev k to nodes)
      ≡ (if text_eq k j then some (node to n.next) else lookup j nodes)
unfolding set_prev
lookup-set_prev k j to n nodes e = rw (e, set_prev, lookup-insert k j)

lookup-set_next :
    (k j : Text) (to : Option Text) (n : LruNode) (nodes : Assoc LruNode)
    → lookup k nodes ≡ some n
    → lookup j (set_next k to nodes)
      ≡ (if text_eq k j then some (node n.prev to) else lookup j nodes)
unfolding set_next
lookup-set_next k j to n nodes e = rw (e, set_next, lookup-insert k j)

-- A key of a list with other keys than `x` is not `x`.
pub not_same :
    (p x : Text) (ks : List Text) → has p ks ≡ true → has x ks ≡ false → text_eq p x ≡ false
not_same p x ks h g = elim (Bool-cases (text_eq p x)) [
  | inl same ↦ let q : p ≡ x = (text_eq_iff p x).0 same in absurd (differ (rw q at h) g)
  | inr other ↦ other
]
  where
    differ : has x ks ≡ true → has x ks ≡ false → ⊥
    differ a b = cc

-- The last node of a list is given another one behind.
set_next_last :
    (front b b' : Option Text) (x : Text) (xs : List Text) (nodes : Assoc LruNode) (p : Text)
    → IsDistinct (x ∷ xs)
    → Linked front b (x ∷ xs) nodes
    → last_or (some x) xs ≡ some p
    → (n : LruNode) × (lookup p nodes ≡ some n)
      × (has p (x ∷ xs) ≡ true)
      × Linked front b' (x ∷ xs) (set_next p b' nodes)
unfolding Linked last_or first_or IsDistinct has
set_next_last front b b' x [] nodes p d l e =
    let q : x ≡ p = injective_some e in
    (
      node front b,
      rw (← q) l.0,
      rw (← q, text_eq_refl x),
      (rw (← q, lookup-set_next x x b' (node front b) nodes l.0, text_eq_refl x), tt),
    )
set_next_last front b b' x (y ∷ ys) nodes p d l e =
    let (n, at, member, linked) = set_next_last (some x) b b' y ys nodes p d.1 l.1 e in
    let other : text_eq p x ≡ false = not_same p x (y ∷ ys) member d.0 in
    (n, at, ground (arith, member), (rw (lookup-set_next p x b' n nodes at, other) l.0, linked))

-- The first node of a list is given another one in front.
pub set_prev_first :
    (front front' back : Option Text) (y : Text) (ys : List Text) (nodes : Assoc LruNode)
    → IsDistinct (y ∷ ys)
    → Linked front back (y ∷ ys) nodes
    → Linked front' back (y ∷ ys) (set_prev y front' nodes)
unfolding Linked IsDistinct
set_prev_first front front' back y ys nodes d l =
    let n = node front (first_or back ys) in
    (
      rw (lookup-set_prev y y front' n nodes l.0, text_eq_refl y),
      Linked-frame (some y) back ys nodes (set_prev y front' nodes)
          (λ j h. rw (lookup-set_prev y j front' n nodes l.0, apart j (not_same j y ys h d.0))) l.1,
    )
  where
    apart : (j : Text) → text_eq j y ≡ false → text_eq y j ≡ false
    apart j h = ground (arith, text_eq_iff j y, text_eq_iff y j)

pub some_last : (x : Text) (xs : List Text) → (p : Text) × (last_or (some x) xs ≡ some p)
unfolding last_or
some_last x [] = (x, refl)
some_last x (y ∷ ys) = some_last y ys

pub first_node :
    (f b : Option Text) (y : Text) (ys : List Text) (nodes : Assoc LruNode)
    → Linked f b (y ∷ ys) nodes
    → lookup y nodes ≡ some (node f (first_or b ys))
unfolding Linked
first_node f b y ys nodes l = l.0

pub has_first : (y : Text) (ys : List Text) → has y (y ∷ ys) ≡ true
unfolding has
has_first y ys = rw (text_eq_refl y)

module _ (t : LruTracker) where
  -- The half in front: the keys there lead to what comes behind, and no other node changes.
  pub unlink_front_lem :
      (xs : List Text) (b b' : Option Text)
      → IsDistinct xs
      → Linked none b xs t.nodes
      → t.head ≡ first_or b xs
      → let t' = unlink_front (node (last_or none xs) b') t in
        Linked none b' xs t'.nodes
        × ((j : Text) → has j xs ≡ false → lookup j t'.nodes ≡ lookup j t.nodes)
        × (t'.head ≡ first_or b' xs)
        × (t'.tail ≡ t.tail)
        × (t'.size ≡ t.size)
  unfolding unlink_front first_or last_or Linked
  unlink_front_lem [] b b' d l e = (tt, λ j h. refl, refl, refl, refl)
  unlink_front_lem (x ∷ xs) b b' d l e =
      let (p, q) = some_last x xs in
      let (n, at, member, linked) = set_next_last none b b' x xs t.nodes p d l q in
      rw q (
        linked,
        λ j h. rw (lookup-set_next p j b' n t.nodes at, not_same p j (x ∷ xs) member h),
        e,
        refl,
        refl,
      )

  -- The half behind: the keys there lead back to what comes in front.
  pub unlink_back_lem :
      (ys : List Text) (f f' : Option Text)
      → IsDistinct ys
      → Linked f none ys t.nodes
      → let t' = unlink_back (node f' (first_or none ys)) t in
        Linked f' none ys t'.nodes
        × ((j : Text) → has j ys ≡ false → lookup j t'.nodes ≡ lookup j t.nodes)
        × (t'.head ≡ t.head)
        × (t'.tail ≡ elim ys [ [] ↦ f' | y ∷ rest ↦ t.tail ])
        × (t'.size ≡ t.size)
  unfolding unlink_back first_or
  unlink_back_lem [] f f' d l = (unfold Linked in tt, λ j h. refl, refl, refl, refl)
  unlink_back_lem (y ∷ ys) f f' d l =
      let n = first_node f none y ys t.nodes l in
      (
        set_prev_first f f' none y ys t.nodes d l,
        λ j h. rw (lookup-set_prev y j f' _ t.nodes n, not_same y j (y ∷ ys) (has_first y ys) h),
        refl,
        refl,
        refl,
      )
