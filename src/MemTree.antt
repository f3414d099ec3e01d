-- ===== src/MemTree.antt =====
-- modules/wasabi-fs/src/mem_tree/mod.rs: the tree of the files, with its nodes all in memory, and
-- the search and the insertion in it. One call runs at a time, so the locks of the nodes are left
-- out, and with them what a debug check of a lock says when the unlocking climbs by a stale parent
-- pointer. That a child is not found in the node that its pointer names is a panic, as in the source.
pub mod Deleting
pub mod Sorted
pub mod Valid
pub mod Finding
pub mod Splitting
pub mod Inserting
pub mod Growing
pub mod Overfull
mod Tests
use wasabi_os.Prelude.{
  ℕ, zero, suc, ◌+◌, ◌-◌, ◌/◌, Bool, true, false, ◌||◌, ◌&&◌, not, Option, none, some, List, [],
  ◌∷◌, ◌++◌, length, get_elem?, set, take, drop, insert_at, ltb, leb, ◌==◌, if◌then◌else◌, Outcome,
  ok, panic, stuck, ◌>>=◌, ◌>>◌, assert, expect, u64_max,
}

-- The most files of a leave and the most children of a node, which depend on the build.
pub record Limits : Type 0 where
  pub leave_max_file_count : ℕ
  pub node_max_child_count : ℕ

-- The rest of a file (its type, permissions, times and blocks) is nothing that the tree reads.
pub record FileNode : Type 0 where
  pub id : ℕ
  pub parent : Option ℕ
  pub uid : ℕ
  pub gid : ℕ
  pub size : ℕ
  pub block_count : ℕ

-- The errors that a tree in memory has.
pub data MemTreeError : Type 0 where
  file_node_exists : ℕ → MemTreeError
  file_does_not_exist : ℕ → MemTreeError

-- A node has its address, the address of its parent, and its flags `dirty` and `dirty_children`.
mutual
  pub data MemTreeNode : Type 0 where
    node : ℕ → Option ℕ → Links → Bool → Bool → MemTreeNode
    leave : ℕ → Option ℕ → List FileNode → Bool → MemTreeNode

  -- Each child with its device pointer, if it has one, and its maximal id.
  pub data Links : Type 0 where
    end : Links
    link : MemTreeNode → Option ℕ → Option ℕ → Links → Links

pub record Child : Type 0 where
  pub content : MemTreeNode
  pub device_ptr : Option ℕ
  pub max_id : Option ℕ

abbrev pub to_list : Links → List Child
to_list end = []
to_list (link n d m ls) = record { content = n; device_ptr = d; max_id = m } ∷ to_list ls

abbrev pub from_list : List Child → Links
from_list [] = end
from_list (c ∷ cs) = link c.content c.device_ptr c.max_id (from_list cs)

-- `next` is the address of the next node that is allocated.
pub record MemTree : Type 0 where
  pub root : MemTreeNode
  pub root_device_ptr : Option ℕ
  pub next : ℕ

abbrev pub empty : MemTree
empty = record { root = leave 0 none [] true; root_device_ptr = none; next = 1 }

abbrev pub get_parent : MemTreeNode → Option ℕ
get_parent (node a p ls d dc) = p
get_parent (leave a p fs d) = p

abbrev pub with_parent : Option ℕ → MemTreeNode → MemTreeNode
with_parent q (node a p ls d dc) = node a q ls d dc
with_parent q (leave a p fs d) = leave a q fs d

-- `max_id.unwrap_or(FileId::MAX)`
abbrev pub bound : Option ℕ → ℕ
bound none = u64_max
bound (some m) = m

-- The first child whose maximal id is not below `id`.
abbrev pub route : ℕ → List Child → Option ℕ
route id [] = none
route id (c ∷ cs) =
    let rest = route id cs in
    if leb id (bound c.max_id) then some 0 else elim rest [ none ↦ none | some i ↦ some (suc i) ]

abbrev pub find_file : ℕ → List FileNode → Option FileNode
find_file id [] = none
find_file id (f ∷ fs) = let rest = find_file id fs in if f.id == id then some f else rest

-- `find`, with as many rounds of its loop as `fuel`.
unfoldable pub find : ℕ → MemTreeNode → ℕ → Outcome (Option FileNode)
find zero n id = stuck
find (suc fuel) (leave a p fs d) id = ok (find_file id fs)
find (suc fuel) (node a p ls d dc) id = elim (route id (to_list ls)) [
  | none ↦ panic
  | some i ↦ elim (get_elem? (to_list ls) i) [ none ↦ panic | some c ↦ find fuel c.content id ]
]

-- `files.iter().position(|f| f.id == id)`
abbrev pub position_of : ℕ → List FileNode → Option ℕ
position_of id [] = none
position_of id (f ∷ fs) =
    let rest = position_of id fs in
    if f.id == id then some 0 else elim rest [ none ↦ none | some i ↦ some (suc i) ]

-- The position of the first file behind `id`, or the number of files.
abbrev pub position_behind : ℕ → List FileNode → ℕ
position_behind id [] = 0
position_behind id (f ∷ fs) =
    let rest = position_behind id fs in if ltb id f.id then 0 else suc rest

abbrev pub last {ℓ} : {A : Type ℓ} → List A → Option A
last [] = none
last (x ∷ []) = some x
last (x ∷ y ∷ xs) = last (y ∷ xs)

-- What the insertion below a node comes to: the node, with an error or without; or the node with
-- its new maximal id, and a new node with its maximal id.
pub data Insertion : Type 0 where
  finished : Option MemTreeError → MemTreeNode → Insertion
  split : MemTreeNode → ℕ → MemTreeNode → ℕ → Insertion

-- The two halves of a full leave, with the file in one of them.
unfoldable pub split_leave :
    Limits → FileNode → ℕ → ℕ → Option ℕ → List FileNode → ℕ → Outcome Insertion
split_leave lim file pos a p files next =
    let half = lim.leave_max_file_count / 2 in
    let left = take half files in
    let right = drop half files in
    assert (length left == length right)
    >> (let left' = if leb pos half then insert_at pos file left else left in
        let right' = if leb pos half then right else insert_at (pos - half) file right in
        expect (last left') >>= λ l. expect (last right') >>= λ r.
        ok (split (leave a p left' true) l.id (leave next p right' true) r.id))

abbrev pub insert_in_leave :
    Limits → Bool → FileNode → ℕ → Option ℕ → List FileNode → Bool → ℕ → Outcome (Insertion × ℕ)
insert_in_leave lim create_only file a p files dirty next = elim (position_of file.id files) [
  | some pos ↦
      if create_only
      then ok (finished (some (file_node_exists file.id)) (leave a p files dirty), next)
      else ok (finished none (leave a p (set files pos file) true), next)
  | none ↦
      let pos = position_behind file.id files in
      if ltb (length files) lim.leave_max_file_count
      then ok (finished none (leave a p (insert_at pos file files) true), next)
      else (split_leave lim file pos a p files next >>= λ r. ok (r, next + 1))
]

-- `Some(max).take_if(..)`: the new child keeps its maximal id unless it comes last.
abbrev pub max_unless_last : ℕ → ℕ → ℕ → Option ℕ
max_unless_last max position count = if position == count then none else some max

-- The two halves of a full node, with the new child in one of them.
unfoldable pub split_node :
    Limits → ℕ → ℕ → MemTreeNode → ℕ → ℕ → Option ℕ → List Child → Outcome (Insertion × ℕ)
split_node lim old_position next new new_max a p children =
    let half = lim.node_max_child_count / 2 in
    let right = drop half children in
    let left = take half children in
    let pos = old_position + 1 in
    assert (length left == length right)
    >> (let left' =
          if leb pos half
          then insert_at pos
              (record {
                content = new;
                device_ptr = none;
                max_id = max_unless_last new_max pos (length left);
              })
              left
          else left in
        let right' =
          if leb pos half
          then right
          else insert_at (pos - half)
              (record {
                content = new;
                device_ptr = none;
                max_id = max_unless_last new_max (pos - half) (length right);
              })
              right in
        expect (last left') >>= λ l. expect l.max_id >>= λ split_id. ok (
          split (node a p (from_list left') true true) split_id
              (node next p (from_list right') true true) new_max,
          next + 1,
        ))

-- The new node becomes the child behind the old one.
abbrev pub insert_split :
    Limits
    → ℕ
    → MemTreeNode
    → ℕ
    → MemTreeNode
    → ℕ
    → ℕ
    → ℕ
    → Option ℕ
    → List Child
    → Outcome (Insertion × ℕ)
insert_split lim i old old_max new new_max next a p children = elim (get_elem? children i) [
  | none ↦ panic
  | some c ↦
      if ltb (length children) lim.node_max_child_count
      then ok (
        finished none (
            node a p
              (from_list (
                insert_at (i + 1)
                  (record {
                    content = new;
                    device_ptr = none;
                    max_id = max_unless_last new_max (i + 1) (length children);
                  })
                  (set children i (record c { content = old; max_id = some old_max }))))
              true true),
        next,
      )
      else split_node lim i next new new_max a p (set children i (record c { content = old }))
]

abbrev pub same_address : Option ℕ → Option ℕ → Bool
same_address none none = true
same_address (some a) (some b) = a == b
same_address _ _ = false

-- `position(..).expect(..)`: the node that the parent pointer of the child leads to has it among its
-- children. The child is held by the node at `a` and by no other one.
abbrev pub expect_child : ℕ → MemTreeNode → Outcome (Unit {0})
expect_child a n = assert (same_address (get_parent n) (some a))

-- What a node does with the insertion below its child `i`.
abbrev pub after_insertion :
    Limits → ℕ → Child → ℕ → Option ℕ → List Child → Bool → Insertion × ℕ → Outcome (Insertion × ℕ)
after_insertion lim i c a p children d (finished e n, next) =
    ok (finished e (node a p (from_list (set children i (record c { content = n }))) d true), next)
after_insertion lim i c a p children d (split old old_max new new_max, next) =
    expect_child a old >> insert_split lim i old old_max new new_max next a p children

-- `insert`, with as many rounds of the loop of `find_leave` as `fuel`.
unfoldable pub insert : Limits → Bool → FileNode → ℕ → MemTreeNode → ℕ → Outcome (Insertion × ℕ)
insert lim create_only file zero n next = stuck
insert lim create_only file (suc fuel) (leave a p fs d) next =
    insert_in_leave lim create_only file a p fs d next
insert lim create_only file (suc fuel) (node a p ls d dc) next = elim (route file.id (to_list ls)) [
  | none ↦ panic
  | some i ↦ elim (get_elem? (to_list ls) i) [
    | none ↦ panic
    | some c ↦
        insert lim create_only file fuel c.content next
        >>= after_insertion lim i c a p (to_list ls) d
  ]
]

-- A new root over the old one and the new node.
abbrev pub insert_split_at_root : MemTreeNode → ℕ → MemTreeNode → ℕ → Outcome MemTree
insert_split_at_root old split_id new next =
    assert (same_address (get_parent old) none)
    >> ok (record {
      root =
          node next none
            (link (with_parent (some next) old) none (some split_id)
              (link (with_parent (some next) new) none none end))
            true true;
      root_device_ptr = none;
      next = next + 1;
    })

abbrev pub after_root : MemTree → Insertion × ℕ → Outcome (Option MemTreeError × MemTree)
after_root t (finished e n, next) = ok (e, record t { root = n; next = next })
after_root t (split old split_id new new_max, next) =
    insert_split_at_root old split_id new next >>= λ t'. ok (none, t')

abbrev pub insert_file :
    Limits → ℕ → MemTree → FileNode → Bool → Outcome (Option MemTreeError × MemTree)
insert_file lim fuel t file create_only =
    insert lim create_only file fuel t.root t.next >>= after_root t

abbrev pub insert_new : Limits → ℕ → MemTree → FileNode → Outcome (Option MemTreeError × MemTree)
insert_new lim fuel t file = insert_file lim fuel t file true

abbrev pub update : Limits → ℕ → MemTree → FileNode → Outcome (Option MemTreeError × MemTree)
update lim fuel t file = insert_file lim fuel t file false
