-- ===== src/MemTree/Overfull.antt =====
-- What a full node does with the split of a child.
use wasabi_os.Prelude.{
  ℕ, zero, suc, ◌+◌, ◌-◌, ◌/◌, ◌≤◌, ◌<◌, ◌≡◌, refl, ◌∙◌, ap, subst, ◌≢◌, Bool, true, false, le→leb,
  Option, none, some, List, [], ◌∷◌, length, length-halves, length-set, length-insert_at, get_elem?,
  get_elem?-below, get_elem?-set, set, take, drop, insert_at, ltb, ◌==◌, arith, ok, panic,
}
use wasabi_os.MemTree.{
  Limits, MemTreeNode, node, Links, Child, to_list, from_list, split, route, last, max_unless_last,
  find, split_node, insert_split,
}
use wasabi_os.MemTree.Valid.{IsEven, to_list-from_list}

last-get_elem? {ℓ} :
    {A : Type ℓ} (xs : List A) (k : ℕ) (x : A)
    → length xs ≡ suc k
    → get_elem? xs k ≡ some x
    → last xs ≡ some x
last-get_elem? [] k x h e = cc
last-get_elem? (y ∷ []) zero x h e = e
last-get_elem? (y ∷ []) (suc k) x h e = absurd (omega arith)
last-get_elem? (y ∷ z ∷ xs) zero x h e = absurd (omega arith)
last-get_elem? (y ∷ z ∷ xs) (suc k) x h e = last-get_elem? (z ∷ xs) k x (omega arith) e

last-insert_at {ℓ} :
    {A : Type ℓ} (k : ℕ) (x : A) (xs : List A) → k ≡ length xs → last (insert_at k x xs) ≡ some x
last-insert_at zero x [] h = refl
last-insert_at zero x (y ∷ ys) h = absurd (omega arith)
last-insert_at (suc k) x [] h = absurd (omega arith)
last-insert_at (suc zero) x (y ∷ []) h = refl
last-insert_at (suc (suc k)) x (y ∷ []) h = absurd (omega arith)
last-insert_at (suc zero) x (y ∷ z ∷ ys) h = absurd (omega arith)
last-insert_at (suc (suc k)) x (y ∷ z ∷ ys) h = last-insert_at (suc k) x (z ∷ ys) (omega arith)

get_elem?-insert_at {ℓ} :
    {A : Type ℓ} (k j : ℕ) (x : A) (xs : List A)
    → k ≤ j
    → get_elem? (insert_at k x xs) (suc j) ≡ get_elem? xs j
get_elem?-insert_at zero j x xs h = refl
get_elem?-insert_at (suc k) j x [] h = refl
get_elem?-insert_at (suc k) zero x (y ∷ ys) h = absurd (omega arith)
get_elem?-insert_at (suc k) (suc j) x (y ∷ ys) h = get_elem?-insert_at k j x ys (omega arith)

get_elem?-insert_before {ℓ} :
    {A : Type ℓ} (k i : ℕ) (x : A) (xs : List A)
    → i < k
    → i < length xs
    → get_elem? (insert_at k x xs) i ≡ get_elem? xs i
get_elem?-insert_before zero i x xs h b = absurd (omega arith)
get_elem?-insert_before (suc k) i x [] h b = absurd (omega arith)
get_elem?-insert_before (suc k) zero x (y ∷ ys) h b = refl
get_elem?-insert_before (suc k) (suc i) x (y ∷ ys) h b =
    get_elem?-insert_before k i x ys (omega arith) (omega arith)

get_elem?-take {ℓ} :
    {A : Type ℓ} (n i : ℕ) (xs : List A) → i < n → get_elem? (take n xs) i ≡ get_elem? xs i
get_elem?-take zero i xs h = absurd (omega arith)
get_elem?-take (suc n) i [] h = refl
get_elem?-take (suc n) zero (x ∷ xs) h = refl
get_elem?-take (suc n) (suc i) (x ∷ xs) h = get_elem?-take n i xs (omega arith)

pub get_elem?-set_other {ℓ} :
    {A : Type ℓ} (xs : List A) (i j : ℕ) (v : A) → i ≢ j → get_elem? (set xs i v) j ≡ get_elem? xs j
get_elem?-set_other [] i j v d = refl
get_elem?-set_other (x ∷ xs) zero zero v d = absurd (d refl)
get_elem?-set_other (x ∷ xs) zero (suc j) v d = refl
get_elem?-set_other (x ∷ xs) (suc i) zero v d = refl
get_elem?-set_other (x ∷ xs) (suc i) (suc j) v d = get_elem?-set_other xs i j v (λ e. d (ap suc e))

-- The search takes the same child in a list that has the same maximal ids up to it.
route-take :
    (id n i : ℕ) (cs : List Child) → i < n → route id cs ≡ some i → route id (take n cs) ≡ some i
route-take id zero i cs h e = absurd (omega arith)
route-take id (suc n) i [] h e = cc
route-take id (suc n) zero (c ∷ cs) h e = ground arith
route-take id (suc n) (suc i) (c ∷ cs) h e = ground (arith, route-take id n i cs)

route-insert_at :
    (id k i : ℕ) (x : Child) (cs : List Child)
    → i < k
    → route id cs ≡ some i
    → route id (insert_at k x cs) ≡ some i
route-insert_at id zero i x cs h e = absurd (omega arith)
route-insert_at id (suc k) i x [] h e = cc
route-insert_at id (suc k) zero x (c ∷ cs) h e = ground arith
route-insert_at id (suc k) (suc i) x (c ∷ cs) h e = ground (arith, route-insert_at id k i x cs)

route-set :
    (id i : ℕ) (n : MemTreeNode) (c : Child) (cs : List Child)
    → get_elem? cs i ≡ some c
    → route id (set cs i (record c { content = n })) ≡ route id cs
route-set id i n c [] e = refl
route-set id zero n c (d ∷ cs) e = ground arith
route-set id (suc i) n c (d ∷ cs) e = ground (arith, route-set id i n c cs)

find-routed :
    (fuel a : ℕ) (p : Option ℕ) (ls : Links) (d dc : Bool) (id i : ℕ) (c : Child)
    → route id (to_list ls) ≡ some i
    → get_elem? (to_list ls) i ≡ some c
    → find (suc fuel) (node a p ls d dc) id ≡ find fuel c.content id
unfolding find
find-routed fuel a p ls d dc id i c r e = rw (r, find) (rw (e, find) refl)

module _ (lim : Limits) (even : IsEven lim) (children : List Child)
    (full : length children ≡ lim.node_max_child_count) (i : ℕ) (c : Child)
    (at_i : get_elem? children i ≡ some c) (old : MemTreeNode) (old_max : ℕ) (new : MemTreeNode)
    (new_max next a : ℕ) (p : Option ℕ) where
  abbrev half : ℕ
  half = lim.node_max_child_count / 2

  abbrev kept : List Child
  kept = set children i (record c { content = old })

  sizes :
      (length (take half kept) ≡ half)
      × (length (drop half kept) ≡ half)
      × (2 ≤ half)
      × (lim.node_max_child_count ≡ half + half)
  sizes =
      let halves =
        length-halves half kept
          (omega (arith, length-set children i (record c { content = old }), full)) in
      (
        halves.0,
        omega (
          arith,
          halves.1,
          length-set children i (record c { content = old }),
          full,
          even.node_even,
        ),
        omega (arith, even.node_even, even.node_room),
        omega (arith, even.node_even),
      )

  balanced : (length (take half kept) == length (drop half kept)) ≡ true
  balanced = ground (arith, sizes)

  no_room : ltb (length children) lim.node_max_child_count ≡ false
  no_room = ground (arith, full)

  -- With even limits, a full node panics in `insert_split` when the child that was split is the
  -- last one of its first half.
  pub insert_split_middle :
      i + 1 ≡ half → insert_split lim i old old_max new new_max next a p children ≡ panic
  unfolding split_node
  insert_split_middle e =
      rw (at_i, insert_split)
        (rw (no_room) (
          rw (balanced, split_node)
            (rw (le→leb (i + 1) half (omega arith)) (
              rw (last-insert_at (i + 1) _ (take half kept) (omega (arith, sizes)))
                (rw (comes_last) refl)))))
    where
      comes_last : max_unless_last new_max (i + 1) (length (take half kept)) ≡ none
      comes_last = ground (arith, sizes, e)

  -- With even limits, when the child `i` of a full node was split, which is in the first half and
  -- not the last there, and the last child of that half has a maximal id, `insert_split` splits the
  -- node, and in its left half the search for every id that led to child `i` before leads to the
  -- old part of the child, also for the ids that the new part has.
  pub insert_split_shadows :
      i + 1 < half
      → (e : Child) (s : ℕ) → get_elem? children (half - 1) ≡ some e
      → e.max_id ≡ some s
      → (left : MemTreeNode) × (k : ℕ) × (insert_split lim i old old_max new new_max next a p
            children
          ≡ ok (split left s (node next p (from_list (drop half kept)) true true) new_max, k))
        × ((id fuel : ℕ) → route id children ≡ some i → find (suc fuel) left id ≡ find fuel old id)
  unfolding split_node find
  insert_split_shadows lt e s at_last max = (
    node a p (from_list left) true true,
    next + 1,
    rw (at_i, insert_split)
        (rw (no_room) (
          rw (balanced, split_node)
            (rw (le→leb (i + 1) half (omega arith)) (rw (ends_as_before) (rw (max) refl))))),
    (λ id fuel r.
        find-routed fuel a p (from_list left) true true id i (record c { content = old })
          (ap (route id) (to_list-from_list left) ∙ routed_as_before id r)
          (ap (λ cs. get_elem? cs i) (to_list-from_list left) ∙ old_in_place)),
  )
    where
      left : List Child
      left =
          insert_at (i + 1)
            (record {
              content = new;
              device_ptr = none;
              max_id = max_unless_last new_max (i + 1) (length (take half kept));
            })
            (take half kept)

      suc_pred : suc (half - 1) ≡ half
      suc_pred = omega (arith, sizes)

      ends_as_before : last left ≡ some e
      ends_as_before =
          last-get_elem? left half e (length-insert_at (i + 1) _ (take half kept) ∙ ap suc sizes.0)
            (subst (λ k. get_elem? left k ≡ some e) (suc_pred)
              (get_elem?-insert_at (i + 1) (half - 1) _ (take half kept) (omega arith)
                ∙ get_elem?-take half (half - 1) kept (omega (arith, sizes))
                ∙ get_elem?-set_other children i (half - 1) _ (omega arith)
                ∙ at_last))

      routed_as_before : (id : ℕ) → route id children ≡ some i → route id left ≡ some i
      routed_as_before id r =
          route-insert_at id (i + 1) i _ (take half kept) (omega arith)
            (route-take id half i kept (omega arith) (route-set id i old c children at_i ∙ r))

      old_in_place : get_elem? left i ≡ some (record c { content = old })
      old_in_place =
          get_elem?-insert_before (i + 1) i _ (take half kept) (omega arith) (omega (arith, sizes))
          ∙ get_elem?-take half i kept (omega arith)
          ∙ get_elem?-set children i _ (get_elem?-below children i at_i)
