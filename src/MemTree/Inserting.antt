-- ===== src/MemTree/Inserting.antt =====
-- The insertion below the nodes, and the whole insertion, where no node but a leave is full.
use wasabi_os.Prelude.{
  ℕ, zero, suc, ◌+◌, ◌≤◌, ◌<◌, ◌≡◌, refl, sym, ◌∙◌, ap, subst, inr, Bool, true, Option, none, some,
  List, [], ◌∷◌, ◌++◌, append_assoc, length, get_elem?, set, length-set, insert_at,
  length-insert_at, lt→ltb, arith, u64_max, Outcome, ok, ◌>>=◌,
}
use wasabi_os.MemTree.{
  Limits, FileNode, MemTreeNode, node, leave, Links, Child, to_list, from_list, find_file,
  get_parent, with_parent, Insertion, finished, split, route, max_unless_last, expect_child,
  after_insertion, insert_split, insert,
}
use wasabi_os.MemTree.Sorted.{find_file-outside, Puts, Puts-append, Puts-behind}
use wasabi_os.MemTree.Valid.{
  IsEven, Ranges, Valid, concat, contents, Spans, Ranges-lower, Valid-Span, Valid-lower,
  to_list-from_list,
}
use wasabi_os.MemTree.Finding.{Focus, only, here, there, Routed, route-Routed, Focus-find_file}
use wasabi_os.MemTree.Splitting.{Filled-add, Inserted, insert_in_leave-Inserted}

pub Ranges-cons :
    (P : ℕ → ℕ → MemTreeNode → Type 0) (lo m hi : ℕ) (c : Child) (cs : List Child)
    → c.max_id ≡ some m
    → P lo m c.content
    → Ranges P m hi cs
    → Ranges P lo hi (c ∷ cs)
Ranges-cons P lo m hi c [] e p r = absurd r
Ranges-cons P lo m hi c (d ∷ ds) e p r = (m, e, p, r)

module _ (P : ℕ → ℕ → MemTreeNode → Type 0) (g : MemTreeNode → List FileNode) (spans : Spans P g)
    (f : FileNode) where
  -- Another node in place of the child in focus.
  pub replace-Ranges :
      {lo hi i lo' hi' : ℕ} {cs : List Child} {c : Child} (n : MemTreeNode)
      → Focus P f.id lo hi cs i lo' hi' c
      → P lo' hi' n
      → Ranges P lo hi (set cs i (record c { content = n }))
  replace-Ranges n (only e p) q = (e, q)
  replace-Ranges n (here e b p r) q = (_, e, q, r)
  replace-Ranges n (there {lo} {hi} {m} {c = c} e b p focus) q =
      Ranges-cons P lo m hi c _ e p (replace-Ranges n focus q)

  replace-Puts :
      {lo hi i lo' hi' : ℕ} {cs : List Child} {c : Child} (n : MemTreeNode)
      → Focus P f.id lo hi cs i lo' hi' c
      → Puts f (g c.content) (g n)
      → Puts f (concat g cs) (concat g (set cs i (record c { content = n })))
  replace-Puts {c = c} n (only e p) puts = Puts-append f (g c.content) (g n) [] puts
  replace-Puts {c = c} n (here {d = d} {cs = cs} e b p r) puts =
      Puts-append f (g c.content) (g n) (concat g (d ∷ cs)) puts
  replace-Puts n (there {lo} {m = m} {c = c} {d = d} {cs = cs} e b p focus) puts =
      Puts-behind f (g c.content) (concat g (d ∷ cs)) _
        (find_file-outside lo m f.id (g c.content) (spans lo m c.content p) (inr b))
        (replace-Puts n focus puts)

  replace-contents :
      {lo hi i lo' hi' : ℕ} {cs : List Child} {c : Child} (n : MemTreeNode)
      → Focus P f.id lo hi cs i lo' hi' c
      → g n ≡ g c.content
      → concat g (set cs i (record c { content = n })) ≡ concat g cs
  replace-contents n (only e p) same = ap (λ fs. fs ++ []) same
  replace-contents n (here {d = d} {cs = cs} e b p r) same = ap (λ fs. fs ++ concat g (d ∷ cs)) same
  replace-contents n (there {c = c} e b p focus) same =
      ap (◌++◌ (g c.content)) (replace-contents n focus same)

  -- The child in focus becomes two.
  module _ (lower : (lo lo' hi : ℕ) (n : MemTreeNode) → lo' ≤ lo → P lo hi n → P lo' hi n)
      (old new : MemTreeNode) (m new_max : ℕ) where
    abbrev two : ℕ → List Child → ℕ → Child → Option ℕ → List Child
    two k cs i c max =
        insert_at k (record { content = new; device_ptr = none; max_id = max })
          (set cs i (record c { content = old; max_id = some m }))

    divide-Ranges :
        {lo hi i lo' hi' : ℕ} {cs : List Child} {c : Child} (k : ℕ) (max : Option ℕ)
        → Focus P f.id lo hi cs i lo' hi' c
        → suc i ≡ k
        → max ≡ max_unless_last new_max k (length cs)
        → P lo' m old
        → P m new_max new
        → P m hi' new
        → new_max ≤ hi'
        → Ranges P lo hi (two k cs i c max)
    divide-Ranges zero max focus e em p q r le = absurd (omega arith)
    divide-Ranges (suc zero) max (only ec pc) e em p q r le = (m, refl, p, (ground arith, r))
    divide-Ranges (suc (suc k)) max (only ec pc) e em p q r le = absurd (omega arith)
    divide-Ranges (suc zero) max (here {hi = hi} {m = mc} {d = d} {cs = cs} ec b pc rest) e em p q r
          le =
        (
          m,
          refl,
          p,
          (new_max, ground arith, q, Ranges-lower P lower mc new_max hi (d ∷ cs) le rest),
        )
    divide-Ranges (suc (suc k)) max (here ec b pc rest) e em p q r le = absurd (omega arith)
    divide-Ranges (suc k) max (there {lo} {hi} {m = mc} {c = c} ec b pc focus) e em p q r le =
        Ranges-cons P lo mc hi c _ ec pc
          (divide-Ranges k max focus (omega arith) (ground arith) p q r le)

    divide-Puts :
        {lo hi i lo' hi' : ℕ} {cs : List Child} {c : Child} (k : ℕ) (max : Option ℕ)
        → Focus P f.id lo hi cs i lo' hi' c
        → suc i ≡ k
        → Puts f (g c.content) (g old ++ g new)
        → Puts f (concat g cs) (concat g (two k cs i c max))
    divide-Puts zero max focus e puts = absurd (omega arith)
    divide-Puts {c = c} (suc zero) max (only ec pc) e puts =
        subst (Puts f (g c.content ++ [])) (append_assoc (g old) (g new) [])
          (Puts-append f (g c.content) (g old ++ g new) [] puts)
    divide-Puts (suc (suc k)) max (only ec pc) e puts = absurd (omega arith)
    divide-Puts {c = c} (suc zero) max (here {d = d} {cs = cs} ec b pc rest) e puts =
        subst (Puts f (g c.content ++ concat g (d ∷ cs)))
          (append_assoc (g old) (g new) (concat g (d ∷ cs)))
          (Puts-append f (g c.content) (g old ++ g new) (concat g (d ∷ cs)) puts)
    divide-Puts (suc (suc k)) max (here ec b pc rest) e puts = absurd (omega arith)
    divide-Puts (suc k) max (there {lo} {m = mc} {c = c} {d = d} {cs = cs} ec b pc focus) e puts =
        Puts-behind f (g c.content) (concat g (d ∷ cs)) _
          (find_file-outside lo mc f.id (g c.content) (spans lo mc c.content pc) (inr b))
          (divide-Puts k max focus (omega arith) puts)

-- Every node above the leaves on the way to `id` has room for another child.
unfoldable pub HasRoom : Limits → ℕ → ℕ → MemTreeNode → Type 0
HasRoom lim zero id n = Unit
HasRoom lim (suc h) id (leave a p fs d) = Unit
HasRoom lim (suc h) id (node a p ls d dc) =
    (length (to_list ls) < lim.node_max_child_count)
    × ((i : ℕ) (c : Child)
        → route id (to_list ls) ≡ some i
        → get_elem? (to_list ls) i ≡ some c
        → HasRoom lim h id c.content)

expect_child-ok : (a : ℕ) (n : MemTreeNode) → get_parent n ≡ some a → expect_child a n ≡ ok tt
expect_child-ok a n e = ground arith

with_parent-same : (q : Option ℕ) (n : MemTreeNode) → get_parent n ≡ q → with_parent q n ≡ n
with_parent-same q (node a p ls d dc) e = ap (λ r. node a r ls d dc) (sym e)
with_parent-same q (leave a p fs d) e = ap (λ r. leave a r fs d) (sym e)

module _ (lim : Limits) (create_only : Bool) (file : FileNode) (h : ℕ) (a : ℕ) (parent p : Option ℕ)
    (lo hi : ℕ) (ls : Links) (d dc : Bool) (next : ℕ) where
  abbrev children : List Child
  children = to_list ls

  abbrev whole : MemTreeNode
  whole = node a p ls d dc

  abbrev Below : ℕ → ℕ → MemTreeNode → Type 0
  Below = Valid lim h (some a)

  abbrev Done : Outcome (Insertion × ℕ) → Type 0
  Done o =
      (r : Insertion) × (k : ℕ) × (o ≡ ok (r, k))
      × Inserted lim create_only (suc h) parent lo hi file whole r

  module _ (valid : Valid lim (suc h) parent lo hi whole)
      (room : length children < lim.node_max_child_count)
      (step : Routed Below file.id lo hi children) where
    open step use {index, low, high, child, routed, at_index, above, below, focus}

    -- The node with new children.
    rebuilt :
        (cs : List Child) (dirty : Bool)
        → Ranges Below lo hi cs
        → length children ≤ length cs
        → length cs ≤ lim.node_max_child_count
        → Valid lim (suc h) parent lo hi (node a p (from_list cs) dirty true)
    unfolding Valid
    rebuilt cs dirty ranges more small = rw (to_list-from_list cs) (
      valid.0,
      ranges,
      small,
      omega (arith, valid.3, more),
      Filled-add parent (length cs) (length children) lim.node_max_child_count more valid.4,
    )

    replaced :
        (n : MemTreeNode)
        → Below low high n
        → Valid lim
            (suc h)
            parent
            lo
            hi
            (node a p (from_list (set children index (record child { content = n }))) d true)
    replaced n v =
        rebuilt _ d (replace-Ranges Below (contents h) (Valid-Span lim h (some a)) file n focus v)
          (omega (arith, length-set children index (record child { content = n })))
          (omega (arith, length-set children index (record child { content = n }), room))

    find_child :
        find_file file.id (concat (contents h) children)
        ≡ find_file file.id (contents h child.content)
    find_child = Focus-find_file Below (contents h) (Valid-Span lim h (some a)) below focus

    after-Done :
        (r : Insertion) (k : ℕ)
        → Inserted lim create_only h (some a) low high file child.content r
        → Done (after_insertion lim index child a p children d (r, k))
    unfolding contents
    after-Done (finished none n) k (new, v, puts) = (
      finished none
          (node a p (from_list (set children index (record child { content = n }))) d true),
      k,
      refl,
      (
        (λ c. find_child ∙ new c),
        replaced n v,
        subst (Puts file (concat (contents h) children))
            (ap (concat (contents h))
              (sym (to_list-from_list (set children index (record child { content = n })))))
            (replace-Puts Below (contents h) (Valid-Span lim h (some a)) file n focus puts),
      ),
    )
    after-Done (finished (some e) n) k (named, strict, present, v, same) = (
      finished (some e)
          (node a p (from_list (set children index (record child { content = n }))) d true),
      k,
      refl,
      (
        named,
        strict,
        (λ missing. present (sym find_child ∙ missing)),
        replaced n v,
        ap (concat (contents h))
              (to_list-from_list (set children index (record child { content = n })))
            ∙ replace-contents Below (contents h) (Valid-Span lim h (some a)) file n focus same,
      ),
    )
    after-Done (split old m new new_max) k parts = (
      finished none (node a p (from_list divided) true true),
      k,
      rw (expect_child-ok a old old_parent, after_insertion)
          (rw (at_index, insert_split)
            (rw (lt→ltb (length children) lim.node_max_child_count room) refl)),
      (
        (λ c. find_child ∙ absent),
        rebuilt divided true
            (divide-Ranges Below (contents h) (Valid-Span lim h (some a)) file
              (Valid-lower lim h (some a)) old new m new_max (index + 1) _ focus (omega arith) refl
              old_below new_below_max new_below_last new_below)
            (omega (arith, divided_length)) (omega (arith, divided_length, room)),
        subst (Puts file (concat (contents h) children))
            (ap (concat (contents h)) (sym (to_list-from_list divided)))
            (divide-Puts Below (contents h) (Valid-Span lim h (some a)) file
              (Valid-lower lim h (some a)) old new m new_max (index + 1) _ focus (omega arith)
              puts),
      ),
    )
      where
        open parts use {
          absent, old_parent, new_parent, old_valid, new_valid, new_last, new_below, puts,
        }

        divided : List Child
        divided =
            two Below (contents h) (Valid-Span lim h (some a)) file (Valid-lower lim h (some a)) old
              new m new_max (index + 1) children index child
              (max_unless_last new_max (index + 1) (length children))

        divided_length : length divided ≡ suc (length children)
        divided_length =
            length-insert_at (index + 1) _ (set children index _)
            ∙ ap suc (length-set children index _)

        old_below : Below low m old
        old_below = subst (Below low m) (with_parent-same (some a) old old_parent) (old_valid a)

        new_below_max : Below m new_max new
        new_below_max =
            subst (Below m new_max) (with_parent-same (some a) new new_parent) (new_valid a)

        new_below_last : Below m high new
        new_below_last =
            subst (Below m high) (with_parent-same (some a) new new_parent) (new_last a)

-- (insert)
pub insert-Inserted :
    (lim : Limits) (create_only : Bool) (file : FileNode) (h : ℕ) (parent : Option ℕ) (lo hi : ℕ)
    (n : MemTreeNode) (next : ℕ)
    → IsEven lim
    → Valid lim h parent lo hi n
    → HasRoom lim h file.id n
    → lo < file.id
    → file.id ≤ hi
    → hi ≤ u64_max
    → (r : Insertion) × (k : ℕ) × (insert lim create_only file (suc h) n next ≡ ok (r, k))
      × Inserted lim create_only h parent lo hi file n r
unfolding Valid HasRoom insert
insert-Inserted lim create_only file zero parent lo hi (leave a p fs d) next even valid room above
      below top =
    insert_in_leave-Inserted lim create_only file lo hi a parent p fs d next even valid above below
insert-Inserted lim create_only file zero parent lo hi (node a p ls d dc) next even valid room above
      below top =
    absurd valid
insert-Inserted lim create_only file (suc h) parent lo hi (leave a p fs d) next even valid room
      above below top =
    absurd valid
insert-Inserted lim create_only file (suc h) parent lo hi (node a p ls d dc) next even valid room
      above below top =
    let (r, k, e, ins) =
      insert-Inserted lim create_only file h (some a) step.low step.high step.child.content next
        even step.held (room.1 step.index step.child step.routed step.at_index) step.above
        step.below step.top in
    let (r', k', e', ins') =
      after-Done lim create_only file h a parent p lo hi ls d dc next valid room.0 step r k ins in
    (r', k', rw (step.routed, insert) (rw (step.at_index, insert) (rw (e, ◌>>=◌) e')), ins')
  where
    step : Routed (Valid lim h (some a)) file.id lo hi (to_list ls)
    step =
        route-Routed (Valid lim h (some a)) (contents h) (Valid-Span lim h (some a)) file.id lo hi
          (to_list ls) valid.1 above below top
