-- ===== src/MemTree/Deleting/Removing.antt =====
-- A root over leaves is rebalanced after one of them has lost a file too many.
use wasabi_os.Prelude.{
  ℕ, zero, suc, ◌+◌, ◌/◌, ◌≤◌, ◌<◌, ◌≡◌, refl, sym, ◌∙◌, ap, subst, ◌⊎◌, inl, inr, Bool, true,
  false, Bool-cases, none, some, List, [], ◌∷◌, ◌++◌, length, length-set, get_elem?, get_elem?-set,
  get_elem?-below, set, ◌==◌, arith, Outcome, ok,
}
use wasabi_os.MemTree.{Limits, MemTreeNode, node, leave, Child}
use wasabi_os.MemTree.Valid.{IsEven, Ranges, Valid, concat, contents}
use wasabi_os.MemTree.Overfull.{get_elem?-set_other}
use wasabi_os.MemTree.Deleting.{
  len, cap_of, Variant, merge, take_from_right, take_from_left, left_index, Rebalanced, rotated,
  merged, rotate, put_back, rebalance, get_children_for_rebalance,
}
use wasabi_os.MemTree.Deleting.Leaves.{
  Loose, Rotated, take_from_right-Rotates, take_from_left-Rotates, merge-Rotates,
}
use wasabi_os.MemTree.Deleting.Pairs.{
  some-eq, Paired, pair-Paired, put_back-left, put_back-right, Same, put_back-files,
  length-put_back,
}
use wasabi_os.MemTree.Deleting.Choosing.{Fits, get_children_for_rebalance-Fits}

module _ (lim : Limits) (even : IsEven lim) (two_files : 2 ≤ lim.leave_max_file_count / 2)
    (a next : ℕ) where
  abbrev pub half : ℕ
  half = lim.leave_max_file_count / 2

  abbrev pub Leave : ℕ → ℕ → MemTreeNode → Type 0
  Leave = Valid lim 0 (some a)

  -- The sizes that a variant is for.
  abbrev Sizes : Variant → ℕ → ℕ → Type 0
  Sizes take_from_right l r = (half < r) × (half ≤ suc l) × (l < half)
  Sizes take_from_left l r = (half < l) × (half ≤ suc r) × (r < half)
  Sizes (merge k) l r = (l + r ≤ lim.leave_max_file_count) × (half ≤ l + r)

  abbrev Turns : Variant → ℕ → ℕ → ℕ → MemTreeNode → MemTreeNode → Type 0
  Turns v lo m hi left right =
      (r : Rebalanced) × (rotate lim v next left right (some m) ≡ ok r)
      × Rotated lim a lo hi (contents 0 left ++ contents 0 right) r

  rotate-Turns :
      (v : Variant) (lo m hi : ℕ) (left right : MemTreeNode)
      → Loose lim a lo m left
      → Loose lim a m hi right
      → Sizes v (len left) (len right)
      → Turns v lo m hi left right
  unfolding contents
  rotate-Turns v lo m hi (node la lp ls ld ldc) right l r s = absurd l
  rotate-Turns v lo m hi (leave la lp fs ld) (node ra rp rs rd rdc) l r s = absurd r
  rotate-Turns v lo m hi (leave la lp fs ld) (leave ra rp gs rd) l r s =
      subst (λ q. Turns v lo m hi (leave la q fs ld) (leave ra rp gs rd)) (sym l.0)
        (subst (λ q. Turns v lo m hi (leave la (some a) fs ld) (leave ra q gs rd)) (sym r.0)
          (turns v s))
    where
      turns :
          (v : Variant)
          → Sizes v (length fs) (length gs)
          → Turns v lo m hi (leave la (some a) fs ld) (leave ra (some a) gs rd)
      turns take_from_right s =
          take_from_right-Rotates lim even a la ra lo m hi fs gs next l.1 r.1 l.2 r.2 s.0 s.1 s.2
      turns take_from_left s =
          take_from_left-Rotates lim even a la ra lo m hi fs gs next l.1 r.1 l.2 r.2 s.0 s.1 s.2
            two_files
      turns (merge k) s =
          merge-Rotates lim even a la ra lo m hi fs gs next l.1 r.1 l.2 r.2 k s.0 s.1

  pub Loose-Valid :
      (lo hi : ℕ) (n : MemTreeNode)
      → Loose lim a lo hi n
      → half ≤ length (contents 0 n)
      → Leave lo hi n
  unfolding Valid contents
  Loose-Valid lo hi (node b p ls d dc) l f = absurd l
  Loose-Valid lo hi (leave b p fs d) l f = (l.0, l.1, l.2, f)

  pub Valid-Loose :
      (lo hi : ℕ) (n : MemTreeNode)
      → Leave lo hi n
      → Loose lim a lo hi n × (half ≤ len n) × (cap_of lim n ≡ lim.leave_max_file_count)
  unfolding Valid
  Valid-Loose lo hi (node b p ls d dc) v = absurd v
  Valid-Loose lo hi (leave b p fs d) v = ((v.0, v.1, v.2), v.3, refl)

  Ranges-get_elem? :
      (lo hi : ℕ) (cs : List Child) (j : ℕ) (d : Child)
      → Ranges Leave lo hi cs
      → get_elem? cs j ≡ some d
      → (l : ℕ) × (h : ℕ) × Leave l h d.content
  Ranges-get_elem? lo hi [] j d r e = cc
  Ranges-get_elem? lo hi (c ∷ []) zero d (m, v) e =
      (lo, hi, subst {A = Child} (λ x. Leave lo hi x.content) (some-eq e) v)
  Ranges-get_elem? lo hi (c ∷ []) (suc j) d r e = cc
  Ranges-get_elem? lo hi (c ∷ x ∷ cs) zero d (m, q, v, r) e =
      (lo, m, subst {A = Child} (λ y. Leave lo m y.content) (some-eq e) v)
  Ranges-get_elem? lo hi (c ∷ x ∷ cs) (suc j) d (m, q, v, r) e =
      Ranges-get_elem? m hi (x ∷ cs) j d r e

  -- The children after the rebalance, with the files of those before it.
  abbrev pub Balanced : ℕ → ℕ → List Child → Outcome (List Child × Bool) → Type 0
  Balanced lo hi kept o =
      (cs : List Child) × (m : Bool) × (o ≡ ok (cs, m))
      × Ranges Leave lo hi cs
      × (concat (contents 0) cs ≡ concat (contents 0) kept)
      × (((m ≡ false) × (length cs ≡ length kept)) ⊎ ((m ≡ true) × (suc (length cs) ≡ length kept)))

  -- The two children of `kept` are replaced as those of `cs` would be.
  replaced-Balanced :
      (lo hi : ℕ) (cs kept : List Child) (i l : ℕ) (v : Variant) (left right left' right' : Child)
      → get_children_for_rebalance lim none kept i ≡ ok v
      → left_index i v ≡ l
      → get_elem? kept l ≡ some left'
      → get_elem? kept (suc l) ≡ some right'
      → ((r : Rebalanced) → put_back l left' right' kept r ≡ put_back l left right cs r)
      → (pair : Paired Leave lo hi cs l left right) → left'.max_id ≡ some pair.mid
      → Turns v pair.low pair.mid pair.high left'.content right'.content
      → Balanced lo hi kept (rebalance lim next none kept i)
  replaced-Balanced lo hi cs kept i l v left right left' right' chosen index el er same pair max
        (r, run, turned) =
      (
        (put_back l left' right' kept r).0,
        (put_back l left' right' kept r).1,
        rw (chosen, rebalance) (rw (index) (rw (el) (rw (er) (rw (max) (rw (run) refl))))),
        subst {A = List Child × Bool} (λ x. Ranges Leave lo hi x.0) (sym (same r))
            (ranges r turned),
        put_back-files (contents 0) kept l left' right' r el er (files r turned),
        length-put_back kept l left' right' r er,
      )
    where
      files :
          (r : Rebalanced)
          → Rotated lim a pair.low pair.high
              (contents 0 left'.content ++ contents 0 right'.content)
              r
          → Same (contents 0) left' right' r
      files (rotated ln m rn) t = t.4
      files (merged n) t = t.2

      ranges :
          (r : Rebalanced)
          → Rotated lim a pair.low pair.high
              (contents 0 left'.content ++ contents 0 right'.content)
              r
          → Ranges Leave lo hi (put_back l left right cs r).0
      ranges (rotated ln m rn) (t0, t1, t2, t3, t4) =
          pair.two ln m rn (Loose-Valid pair.low m ln t0 t2) (Loose-Valid m pair.high rn t1 t3)
      ranges (merged n) (t0, t1, t2) = pair.one n (Loose-Valid pair.low pair.high n t0 t1)

  Loose-cap_of :
      (l h : ℕ) (n : MemTreeNode) → Loose lim a l h n → cap_of lim n ≡ lim.leave_max_file_count
  Loose-cap_of l h (leave b p fs d) v = refl
  Loose-cap_of l h (node b p ls d dc) v = absurd v

  module _ (lo hi : ℕ) (cs : List Child) (i : ℕ) (c : Child) (n : MemTreeNode)
      (r : Ranges Leave lo hi cs) (two : 2 ≤ length cs) (at_i : get_elem? cs i ≡ some c)
      (looser : (l h : ℕ) → Loose lim a l h c.content → Loose lim a l h n) (short : len n < half)
      (near : half ≤ suc (len n)) where
    abbrev changed : Child
    changed = record c { content = n }

    abbrev kept : List Child
    kept = set cs i changed

    at_kept : get_elem? kept i ≡ some changed
    at_kept = get_elem?-set cs i changed (get_elem?-below cs i at_i)

    -- The changed child is the left one of the two.
    on_left :
        (v : Variant) (d : Child)
        → get_children_for_rebalance lim none kept i ≡ ok v
        → left_index i v ≡ i
        → get_elem? kept (suc i) ≡ some d
        → ((half ≤ len d.content) → Sizes v (len n) (len d.content))
        → Balanced lo hi kept (rebalance lim next none kept i)
    on_left v d chosen index e sizes =
        let er = sym (get_elem?-set_other cs i (suc i) changed (λ q. omega arith)) ∙ e in
        let pair = pair-Paired Leave lo hi cs i c d r at_i er in
        let (whole, full, _) = Valid-Loose pair.mid pair.high d.content pair.right_in in
        let (part, _, _) = Valid-Loose pair.low pair.mid c.content pair.left_in in
        replaced-Balanced lo hi cs kept i i v c d changed d chosen index at_kept e
          (put_back-left cs i c d n) pair pair.left_max
          (rotate-Turns v pair.low pair.mid pair.high n d.content (looser pair.low pair.mid part)
            whole (sizes full))

    -- The changed child is the right one of the two.
    on_right :
        (v : Variant) (j : ℕ) (d : Child)
        → get_children_for_rebalance lim none kept i ≡ ok v
        → i ≡ suc j
        → left_index i v ≡ j
        → get_elem? kept j ≡ some d
        → ((half ≤ len d.content) → Sizes v (len d.content) (len n))
        → Balanced lo hi kept (rebalance lim next none kept i)
    on_right v j d chosen ei index e sizes =
        let el = sym (get_elem?-set_other cs i j changed (λ q. omega arith)) ∙ e in
        let er = ap (get_elem? cs) (sym ei) ∙ at_i in
        let pair = pair-Paired Leave lo hi cs j d c r el er in
        let (whole, full, _) = Valid-Loose pair.low pair.mid d.content pair.left_in in
        let (part, _, _) = Valid-Loose pair.mid pair.high c.content pair.right_in in
        replaced-Balanced lo hi cs kept i j v d c d changed chosen index e
          (ap (get_elem? kept) (sym ei) ∙ at_kept)
          (λ t.
            ap (λ k. put_back j d changed (set cs k changed) t) ei ∙ put_back-right cs j d c n t)
          pair pair.left_max
          (rotate-Turns v pair.low pair.mid pair.high d.content n whole
            (looser pair.mid pair.high part) (sizes full))

    leaves :
        (j : ℕ) (d : Child)
        → get_elem? kept j ≡ some d
        → cap_of lim d.content ≡ lim.leave_max_file_count
    leaves j d e = elim (Bool-cases (i == j)) [
      | inl same ↦
          let (l, h, v) = Ranges-get_elem? lo hi cs i c r at_i in
          ap (λ x. cap_of lim x.content)
            (sym (some-eq (sym at_kept ∙ ap (get_elem? kept) (ground arith) ∙ e)))
          ∙ Loose-cap_of l h n (looser l h (Valid-Loose l h c.content v).0)
      | inr other ↦
          let (l, h, v) =
            Ranges-get_elem? lo hi cs j d r
              (sym (get_elem?-set_other cs i j changed (ground arith)) ∙ e) in
          (Valid-Loose l h d.content v).2
    ]

    by_variant :
        (v : Variant)
        → get_children_for_rebalance lim none kept i ≡ ok v
        → Fits lim kept i v
        → Balanced lo hi kept (rebalance lim next none kept i)
    by_variant take_from_right chosen (d, e, more) =
        on_left take_from_right d chosen refl e (λ full. (more, near, short))
    by_variant take_from_left chosen (j, d, ei, e, more) =
        on_right take_from_left j d chosen ei (omega arith) e (λ full. (more, near, short))
    by_variant (merge k) chosen (x, y, ex, ey, fits, inl ki) =
        let same =
          ap len (ap (λ z. z.content) (some-eq (sym ex ∙ ap (get_elem? kept) ki ∙ at_kept))) in
        on_left (merge k) y chosen ki (ap (λ z. get_elem? kept (suc z)) (sym ki) ∙ ey)
          (λ full. (omega arith, omega arith))
    by_variant (merge k) chosen (x, y, ex, ey, fits, inr ki) =
        let same =
          ap len (ap (λ z. z.content) (some-eq (sym ey ∙ ap (get_elem? kept) ki ∙ at_kept))) in
        on_right (merge k) k x chosen (sym ki) refl ex (λ full. (omega arith, omega arith))

    -- A child whose leave is one file short of half is rebalanced with a neighbour.
    pub rebalance-Balanced : Balanced lo hi kept (rebalance lim next none kept i)
    rebalance-Balanced =
        let (v, chosen, fit) =
          get_children_for_rebalance-Fits lim kept i changed at_kept short leaves
            (omega (arith, length-set cs i changed)) in
        by_variant v chosen fit
