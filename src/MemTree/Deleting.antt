-- ===== src/MemTree/Deleting.antt =====
-- modules/wasabi-fs/src/mem_tree/mod.rs: `delete`, with the rotations and merges that keep the nodes
-- half full. All nodes are in memory, so the second tries of `get_children_for_rebalance`, which
-- load a neighbour first, find what the first tries found.
pub mod Leaves
pub mod Pairs
pub mod Choosing
pub mod Without
pub mod Removing
pub mod Promoting
pub mod Whole
use wasabi_os.Prelude.{
  ℕ, zero, suc, ◌+◌, ◌-◌, ◌/◌, ◌⊎◌, inl, inr, Bool, true, false, ◌||◌, ◌&&◌, not, Option, none,
  some, List, [], ◌∷◌, ◌++◌, length, get_elem?, set, remove_at, ltb, leb, ◌==◌, if◌then◌else◌,
  Outcome, ok, panic, stuck, ◌>>=◌, ◌>>◌, assert, expect,
}
use wasabi_os.MemTree.{
  Limits, FileNode, MemTreeError, file_does_not_exist, MemTreeNode, node, leave, Links, Child,
  MemTree, to_list, from_list, get_parent, with_parent, route, position_of, last, same_address,
  expect_child,
}

abbrev pub is_none {ℓ} : {A : Type ℓ} → Option A → Bool
is_none none = true
is_none (some x) = false

-- `MemTreeNode::len`
abbrev pub len : MemTreeNode → ℕ
len (node a p ls d dc) = length (to_list ls)
len (leave a p fs d) = length fs

-- `MemTreeNode::cap`
abbrev pub cap_of : Limits → MemTreeNode → ℕ
cap_of lim (node a p ls d dc) = lim.node_max_child_count
cap_of lim (leave a p fs d) = lim.leave_max_file_count

-- The variants of a rebalance; a merge has the index of its left node.
pub data Variant : Type 0 where
  merge : ℕ → Variant
  take_from_right : Variant
  take_from_left : Variant

-- The variants in the order in which they are tried for the child `i` of `n`.
abbrev pub to_check : ℕ → ℕ → List Variant
to_check zero n = take_from_right ∷ merge 0 ∷ merge 0 ∷ take_from_right ∷ []
to_check (suc i) n =
    if suc i == n - 1
    then take_from_left ∷ merge i ∷ merge i ∷ take_from_left ∷ []
    else (take_from_right
        ∷ take_from_left
        ∷ merge i
        ∷ merge (suc i)
        ∷ merge i
        ∷ merge (suc i)
        ∷ take_from_right
        ∷ take_from_left
        ∷ [])

-- The neighbour has files or children to spare, or the two fit into one node.
abbrev pub admits : Limits → List Child → ℕ → Variant → Bool
admits lim children i (merge l) = elim (get_elem? children l) [
  | none ↦ false
  | some left ↦ elim (get_elem? children (suc l)) [
    | none ↦ false
    | some right ↦ leb (len left.content + len right.content) (cap_of lim left.content)
  ]
]
admits lim children i take_from_right = elim (get_elem? children (suc i)) [
  | none ↦ false
  | some right ↦ ltb (cap_of lim right.content / 2) (len right.content)
]
admits lim children i take_from_left = elim (get_elem? children (i - 1)) [
  | none ↦ false
  | some left ↦ ltb (cap_of lim left.content / 2) (len left.content)
]

abbrev pub first_admitted : Limits → List Child → ℕ → List Variant → Outcome Variant
first_admitted lim children i [] = panic
first_admitted lim children i (v ∷ vs) =
    let rest = first_admitted lim children i vs in if admits lim children i v then ok v else rest

abbrev pub get_children_for_rebalance : Limits → Option ℕ → List Child → ℕ → Outcome Variant
get_children_for_rebalance lim p children i =
    assert (ltb (lim.node_max_child_count / 2) (length children) || is_none p)
    >> assert (leb 2 (length children))
    >> first_admitted lim children i (to_check i (length children))

-- The index of the left one of the two children.
abbrev pub left_index : ℕ → Variant → ℕ
left_index i (merge l) = l
left_index i take_from_right = i
left_index i take_from_left = i - 1

-- What became of the two children: both with the new maximal id of the left one, or one new node.
pub data Rebalanced : Type 0 where
  rotated : MemTreeNode → ℕ → MemTreeNode → Rebalanced
  merged : MemTreeNode → Rebalanced

-- `rebalance_leave`, on the files of the left and the right leave.
abbrev pub rotate_leaves :
    Limits
    → Variant
    → ℕ
    → ℕ
    → Option ℕ
    → List FileNode
    → ℕ
    → Option ℕ
    → List FileNode
    → Option ℕ
    → Outcome Rebalanced
rotate_leaves lim take_from_right next la lp left ra rp right left_max = elim right [
  | [] ↦ panic
  | to_move ∷ rest ↦
      assert (leb (lim.leave_max_file_count / 2) (length rest))
      >> (expect left_max >>= λ m.
          assert (ltb m to_move.id)
          >> ok (
              rotated (leave la lp (left ++ to_move ∷ []) true) to_move.id (leave ra rp rest true)))
]
rotate_leaves lim take_from_left next la lp left ra rp right left_max =
    let rest = remove_at (length left - 1) left in
    expect (last left) >>= λ to_move.
    assert (leb (lim.leave_max_file_count / 2) (length rest))
    >> (expect (last rest) >>= λ new_last. expect (get_elem? right 0) >>= λ first.
        assert (ltb to_move.id first.id)
        >> ok (rotated (leave la lp rest true) new_last.id (leave ra rp (to_move ∷ right) true)))
rotate_leaves lim (merge l) next la lp left ra rp right left_max =
    ok (merged (leave next lp (left ++ right) true))

-- The last child without its maximal id, which is returned.
abbrev pub take_last_max : List Child → Option (List Child × ℕ)
take_last_max [] = none
take_last_max (c ∷ []) = elim c.max_id [
  | none ↦ none
  | some m ↦ some (record c { max_id = none } ∷ [], m)
]
take_last_max (c ∷ d ∷ cs) = elim (take_last_max (d ∷ cs)) [
  | none ↦ none
  | some (rest, m) ↦ some (c ∷ rest, m)
]

-- `rebalance_node`, on the children of the left and the right node.
abbrev pub rotate_nodes :
    Limits
    → Variant
    → ℕ
    → ℕ
    → Option ℕ
    → List Child
    → Bool
    → ℕ
    → Option ℕ
    → List Child
    → Bool
    → Option ℕ
    → Outcome Rebalanced
rotate_nodes lim take_from_right next la lp left ldc ra rp right rdc left_max = elim right [
  | [] ↦ panic
  | to_move ∷ rest ↦
      assert (leb (lim.node_max_child_count / 2) (length rest))
      >> (expect to_move.max_id >>= λ left_new_max. expect left_max >>= λ m.
          assert (ltb m left_new_max)
          >> ok (
              rotated (node la lp (from_list (left ++ to_move ∷ [])) true ldc) left_new_max
                (node ra rp (from_list rest) true rdc)))
]
rotate_nodes lim take_from_left next la lp left ldc ra rp right rdc left_max =
    let rest = remove_at (length left - 1) left in
    expect (last left) >>= λ to_move.
    assert (leb (lim.node_max_child_count / 2) (length rest))
    >> assert (is_none to_move.max_id)
    >> (expect left_max >>= λ m. expect (take_last_max rest) >>= λ r. ok (
        rotated (node la lp (from_list r.0) true ldc) r.1
          (node ra rp (from_list (record to_move { max_id = some m } ∷ right)) true rdc)))
rotate_nodes lim (merge l) next la lp left ldc ra rp right rdc left_max =
    ok (merged (node next lp (from_list (left ++ right)) true true))

-- `rebalance_leave` and `rebalance_node`: the two children have to be of one kind.
abbrev pub rotate : Limits → Variant → ℕ → MemTreeNode → MemTreeNode → Option ℕ → Outcome Rebalanced
rotate lim v next (leave la lp left ld) (leave ra rp right rd) left_max =
    rotate_leaves lim v next la lp left ra rp right left_max
rotate lim v next (node la lp left ld ldc) (node ra rp right rd rdc) left_max =
    rotate_nodes lim v next la lp (to_list left) ldc ra rp (to_list right) rdc left_max
rotate lim v next left right left_max = panic

-- The two children at `l` in the list of their parent, and whether they were merged.
abbrev pub put_back : ℕ → Child → Child → List Child → Rebalanced → List Child × Bool
put_back l left right children (rotated ln m rn) = (
  set (set children l (record left { content = ln; max_id = some m })) (suc l)
      (record right { content = rn }),
  false,
)
put_back l left right children (merged n) = (
  remove_at (suc l)
      (set children l (record { content = n; device_ptr = none; max_id = right.max_id })),
  true,
)

-- The rebalance at a node, for its child `i`.
abbrev pub rebalance : Limits → ℕ → Option ℕ → List Child → ℕ → Outcome (List Child × Bool)
rebalance lim next p children i = get_children_for_rebalance lim p children i >>= λ v.
    expect (get_elem? children (left_index i v)) >>= λ left.
    expect (get_elem? children (suc (left_index i v))) >>= λ right.
    rotate lim v next left.content right.content left.max_id >>= λ r.
    ok (put_back (left_index i v) left right children r)

-- What the deletion below a node comes to: no such file, or the file, the node without it, and
-- whether the node is to be rebalanced.
pub data Deletion : Type 0 where
  missing : MemTreeNode → Deletion
  removed : FileNode → MemTreeNode → Bool → Deletion

abbrev pub delete_in_leave : Limits → ℕ → ℕ → Option ℕ → List FileNode → Bool → Outcome Deletion
delete_in_leave lim id a p files dirty = elim (position_of id files) [
  | none ↦ ok (missing (leave a p files dirty))
  | some pos ↦ expect (get_elem? files pos) >>= λ file.
      let rest = remove_at pos files in
      ok (
        removed file (leave a p rest true)
          (not (leb (lim.leave_max_file_count / 2) (length rest) || is_none p)))
]

-- What a node does with the deletion below its child `i`; after a merge it is rebalanced itself.
abbrev pub after_deletion :
    Limits → ℕ → ℕ → Child → ℕ → Option ℕ → List Child → Bool → Deletion → Outcome Deletion
after_deletion lim next i c a p children d (missing n) =
    ok (missing (node a p (from_list (set children i (record c { content = n }))) d true))
after_deletion lim next i c a p children d (removed file n unbalanced) =
    let kept = set children i (record c { content = n }) in
    if unbalanced
    then (expect_child a n
        >> (rebalance lim next p kept i >>= λ r.
            ok (removed file (node a p (from_list r.0) d true) r.1)))
    else ok (removed file (node a p (from_list kept) d true) false)

-- `delete`, with as many rounds of the loop of `find_leave` as `fuel`. A merge at each level has a new
-- address of its own.
unfoldable pub delete_below : Limits → ℕ → ℕ → ℕ → MemTreeNode → Outcome Deletion
delete_below lim next id zero n = stuck
delete_below lim next id (suc fuel) (leave a p fs d) = delete_in_leave lim id a p fs d
delete_below lim next id (suc fuel) (node a p ls d dc) = elim (route id (to_list ls)) [
  | none ↦ panic
  | some i ↦ elim (get_elem? (to_list ls) i) [
    | none ↦ panic
    | some c ↦
        delete_below lim next id fuel c.content
        >>= after_deletion lim (next + fuel) i c a p (to_list ls) d
  ]
]

-- A root with one child gives way to it.
abbrev pub promote : MemTree → MemTreeNode → Outcome MemTree
promote t (leave a p fs d) =
    if length fs == 1 then panic else ok (record t { root = leave a p fs d })
promote t (node a p ls d dc) =
    if length (to_list ls) == 1
    then (expect (get_elem? (to_list ls) 0) >>= λ c.
        assert (is_none c.max_id)
        >> ok (record t { root = with_parent none c.content; root_device_ptr = c.device_ptr }))
    else ok (record t { root = node a p ls d dc })

abbrev pub after_delete : ℕ → MemTree → ℕ → Deletion → Outcome ((MemTreeError ⊎ FileNode) × MemTree)
after_delete fuel t id (missing n) = ok (inl (file_does_not_exist id), record t { root = n })
after_delete fuel t id (removed file n unbalanced) =
    if unbalanced
    then (assert (same_address (get_parent n) none)
        >> (promote (record t { next = t.next + fuel }) n >>= λ t'. ok (inr file, t')))
    else ok (inr file, record t { root = n; next = t.next + fuel })

abbrev pub delete : Limits → ℕ → MemTree → ℕ → Outcome ((MemTreeError ⊎ FileNode) × MemTree)
delete lim fuel t id = delete_below lim t.next id fuel t.root >>= after_delete fuel t id
