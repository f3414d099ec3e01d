-- ===== src/MemTree/Tests.antt =====
-- Small trees, with at most four files in a leave and four children of a node.
use wasabi_os.Prelude.{
  ℕ, suc, ◌≡◌, ◌<◌, ◌≤◌, ◌⊎◌, refl, true, false, Option, none, some, List, [], ◌∷◌, arith, Outcome,
  ok, panic, ◌>>=◌, u64_max, ◌==◌, if◌then◌else◌,
}
use wasabi_os.MemTree.{
  Limits, FileNode, MemTreeError, file_node_exists, MemTreeNode, node, leave, end, link, Child,
  MemTree, empty, find_file, find, insert_new, insert, insert_file, insert_split, split,
  split_leave, split_node, from_list, route,
}
use wasabi_os.MemTree.Valid.{IsEven, Valid, contents}
use wasabi_os.MemTree.Finding.{find-contents}
use wasabi_os.MemTree.Inserting.{HasRoom}
use wasabi_os.MemTree.Growing.{IsValid, Stored, insert_file-Stored, find-insert_file}
use wasabi_os.MemTree.Overfull.{insert_split_middle, insert_split_shadows}
use wasabi_os.MemTree.Deleting.{delete, delete_below}
use wasabi_os.MemTree.Deleting.Whole.{Deleted, delete-Deleted}

abbrev small : Limits
small = record { leave_max_file_count = 4; node_max_child_count = 4 }

small-IsEven : IsEven small
small-IsEven = record {
  leave_half = 2;
  leave_even = refl;
  leave_room = omega arith;
  node_half = 2;
  node_even = refl;
  node_room = omega arith;
}

abbrev file : ℕ → FileNode
file id = record { id = id; parent = none; uid = 0; gid = 0; size = 0; block_count = 0 }

abbrev low_leave : MemTreeNode
low_leave = leave 1 (some 9) (file 10 ∷ file 20 ∷ []) false

abbrev high_leave : MemTreeNode
high_leave = leave 2 (some 9) (file 30 ∷ file 40 ∷ file 50 ∷ []) false

abbrev two_leaves : MemTree
two_leaves = record {
  root = node 9 none (link low_leave none (some 20) (link high_leave none none end)) false false;
  root_device_ptr = none;
  next = 10;
}

low_leave-Valid : Valid small 0 (some 9) 0 20 low_leave
unfolding Valid
low_leave-Valid = (refl, (omega arith, (omega arith, omega arith)), omega arith, omega arith)

two_leaves-IsValid : IsValid small 1 two_leaves
unfolding Valid
two_leaves-IsValid = (
  refl,
  (
    20,
    refl,
    (refl, (omega arith, (omega arith, omega arith)), omega arith, omega arith),
    (
      refl,
      (refl, (omega arith, (omega arith, (omega arith, omega arith))), omega arith, omega arith),
    ),
  ),
  omega arith,
  omega arith,
  tt,
)

two_leaves-HasRoom : (id : ℕ) → HasRoom small 1 id two_leaves.root
unfolding HasRoom
two_leaves-HasRoom id = (omega arith, λ i c r e. tt)

abbrev grow : MemTree → List ℕ → Outcome MemTree
grow t [] = ok t
grow t (id ∷ ids) = insert_new small 5 t (file id) >>= λ r. grow r.1 ids

abbrev found : Outcome MemTree → ℕ → Outcome (Option ℕ)
found o id = o >>= λ t. find 5 t.root id >>= λ f. ok (elim f [ none ↦ none | some g ↦ some g.id ])

-- The root splits twice; the second time the last child of its first half has split.
test_grow : found (grow empty (10 ∷ 20 ∷ 30 ∷ 40 ∷ 50 ∷ 60 ∷ 70 ∷ [])) 40 ≡ ok (some 40)
unfolding insert find split_leave split_node
test_grow = refl

test_absent : found (grow empty (10 ∷ 20 ∷ 30 ∷ 40 ∷ 50 ∷ [])) 35 ≡ ok none
unfolding insert find split_leave split_node
test_absent = refl

-- The eleventh file splits the root. The fourteenth splits a leave whose parent pointer still leads to
-- the old root, which does not have it any more.
test_grow_on :
    grow empty (10 ∷ 20 ∷ 30 ∷ 40 ∷ 50 ∷ 60 ∷ 70 ∷ 80 ∷ 90 ∷ 100 ∷ 110 ∷ 120 ∷ 130 ∷ 140 ∷ [])
    ≡ panic
unfolding insert split_leave split_node
test_grow_on = refl

abbrev shrink : MemTree → List ℕ → Outcome MemTree
shrink t [] = ok t
shrink t (id ∷ ids) = delete small 5 t id >>= λ r. shrink r.1 ids

abbrev root_files : Outcome MemTree → Outcome (List ℕ)
root_files o = o >>= λ t. ok (ids (contents 0 t.root))
  where
    ids : List FileNode → List ℕ
    ids [] = []
    ids (f ∷ fs) = f.id ∷ ids fs

-- The first leave takes a file from the second one.
test_rotate : found (shrink two_leaves (10 ∷ [])) 30 ≡ ok (some 30)
unfolding delete_below find
test_rotate = refl

-- The leaves are merged, and the new one is the root.
test_merge : root_files (shrink two_leaves (40 ∷ 10 ∷ [])) ≡ ok (20 ∷ 30 ∷ 50 ∷ [])
unfolding delete_below contents
test_merge = refl

find-contents_example : find 2 two_leaves.root 40 ≡ ok (find_file 40 (contents 1 two_leaves.root))
find-contents_example =
    find-contents small 1 none 0 u64_max 40 two_leaves.root two_leaves-IsValid (omega arith)
      (omega arith) (omega arith)

insert_file-Stored_example :
    (e : Option MemTreeError) × (t' : MemTree) × (insert_file small 2 two_leaves (file 45) true
      ≡ ok (e, t'))
    × Stored small 1 two_leaves (file 45) true e t'
insert_file-Stored_example =
    insert_file-Stored small small-IsEven 1 two_leaves (file 45) true two_leaves-IsValid
      (two_leaves-HasRoom 45) (omega arith) (omega arith)

find-insert_file_example :
    (e : Option MemTreeError) × (t' : MemTree) × (h' : ℕ) × (insert_file small 2 two_leaves
        (file 30)
        true
      ≡ ok (e, t'))
    × ((e ≡ none) ⊎ (e ≡ some (file_node_exists 30)))
    × ((id : ℕ)
        → 0 < id
        → id ≤ u64_max
        → find (suc h') t'.root id ≡ (elim e [
          | none ↦ if 30 == id then ok (some (file 30)) else find 2 two_leaves.root id
          | some _ ↦ find 2 two_leaves.root id
        ]))
find-insert_file_example =
    find-insert_file small small-IsEven 1 two_leaves (file 30) true two_leaves-IsValid
      (two_leaves-HasRoom 30) (omega arith) (omega arith)

-- A leave of the node at 9, with two files.
abbrev pair_at : ℕ → ℕ → ℕ → MemTreeNode
pair_at a x y = leave a (some 9) (file x ∷ file y ∷ []) false

abbrev child_of : MemTreeNode → Option ℕ → Child
child_of n max = record { content = n; device_ptr = none; max_id = max }

abbrev four : List Child
four =
    child_of (pair_at 1 10 20) (some 20)
    ∷ child_of (pair_at 2 30 40) (some 40)
    ∷ child_of (pair_at 3 50 60) (some 60)
    ∷ child_of (pair_at 4 70 80) none
    ∷ []

insert_split_middle_example :
    insert_split small 1 (pair_at 2 30 32) 32 (pair_at 5 34 40) 40 6 9 none four ≡ panic
insert_split_middle_example =
    insert_split_middle small small-IsEven four refl 1 (child_of (pair_at 2 30 40) (some 40)) refl
      (pair_at 2 30 32) 32 (pair_at 5 34 40) 40 6 9 none refl

insert_split_shadows_example :
    (left : MemTreeNode) × (k : ℕ) × (insert_split small 0
        (pair_at 1 10 12)
        12
        (pair_at 5 14 20)
        20
        6
        9
        none
        four
      ≡ ok (
        split left 40
            (node 6 none
              (from_list
                (child_of (pair_at 3 50 60) (some 60) ∷ child_of (pair_at 4 70 80) none ∷ []))
              true
              true)
            20,
        k,
      ))
    × ((id fuel : ℕ)
        → route id four ≡ some 0
        → find (suc fuel) left id ≡ find fuel (pair_at 1 10 12) id)
insert_split_shadows_example =
    insert_split_shadows small small-IsEven four refl 0 (child_of (pair_at 1 10 20) (some 20)) refl
      (pair_at 1 10 12) 12 (pair_at 5 14 20) 20 6 9 none (omega arith)
      (child_of (pair_at 2 30 40) (some 40)) 40 refl refl

delete-Deleted_example :
    (out : MemTreeError ⊎ FileNode) × (t' : MemTree) × (delete small 2 two_leaves 10 ≡ ok (out, t'))
    × Deleted small 1 two_leaves 10 out t'
delete-Deleted_example =
    delete-Deleted small small-IsEven (omega arith) two_leaves 10 1 (omega arith) two_leaves-IsValid
      (omega arith) (omega arith)
