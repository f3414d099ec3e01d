-- ===== src/MemTree/Valid.antt =====
-- The invariant of the tree: the ids below each child lie in a range of their own, the leaves stand
-- at one level, and no node but the root is less than half full.
use wasabi_os.Prelude.{
  ℕ, zero, suc, ◌/◌, ◌*◌, ◌≤◌, ◌≡◌, refl, ap, Option, none, some, List, [], ◌∷◌, ◌++◌, length,
  arith,
}
use wasabi_os.MemTree.{
  Limits, FileNode, MemTreeNode, node, leave, Child, to_list, from_list, get_parent,
}
use wasabi_os.MemTree.Sorted.{Span, Span-lower, Span-append}

-- The assertions that the source makes of its constants.
pub record IsEven (lim : Limits) : Type 0 where
  pub leave_half : ℕ
  pub leave_even : lim.leave_max_file_count ≡ 2 * leave_half
  pub leave_room : 1 ≤ leave_half
  pub node_half : ℕ
  pub node_even : lim.node_max_child_count ≡ 2 * node_half
  pub node_room : 2 ≤ node_half

-- A node that has a parent is half full.
abbrev pub Filled : Option ℕ → ℕ → ℕ → Type 0
Filled none count capacity = Unit
Filled (some a) count capacity = capacity / 2 ≤ count

-- The children divide the range: each but the last has the end of its part as its maximal id.
abbrev pub Ranges : (ℕ → ℕ → MemTreeNode → Type 0) → ℕ → ℕ → List Child → Type 0
Ranges P lo hi [] = ⊥
Ranges P lo hi (c ∷ []) = (c.max_id ≡ none) × P lo hi c.content
Ranges P lo hi (c ∷ d ∷ cs) =
    (m : ℕ) × (c.max_id ≡ some m) × P lo m c.content × Ranges P m hi (d ∷ cs)

module _ (lim : Limits) where
  -- The node at height `h`, with ids above `lo` and up to `hi`.
  unfoldable pub Valid : ℕ → Option ℕ → ℕ → ℕ → MemTreeNode → Type 0
  Valid zero parent lo hi (leave a p fs d) =
      (p ≡ parent)
      × Span lo hi fs
      × (length fs ≤ lim.leave_max_file_count)
      × Filled parent (length fs) lim.leave_max_file_count
  Valid (suc h) parent lo hi (node a p ls d dc) =
      (p ≡ parent)
      × Ranges (Valid h (some a)) lo hi (to_list ls)
      × (length (to_list ls) ≤ lim.node_max_child_count)
      × (2 ≤ length (to_list ls))
      × Filled parent (length (to_list ls)) lim.node_max_child_count
  Valid _ parent lo hi n = ⊥

abbrev pub concat : (MemTreeNode → List FileNode) → List Child → List FileNode
concat g [] = []
concat g (c ∷ cs) = g c.content ++ concat g cs

-- The files below a node of height `h`.
unfoldable pub contents : ℕ → MemTreeNode → List FileNode
contents h (leave a p fs d) = fs
contents zero (node a p ls d dc) = []
contents (suc h) (node a p ls d dc) = concat (contents h) (to_list ls)

pub to_list-from_list : (cs : List Child) → to_list (from_list cs) ≡ cs
to_list-from_list [] = refl
to_list-from_list (c ∷ cs) = ap (◌∷◌ c) (to_list-from_list cs)

-- What a range says of the files in it.
abbrev pub Spans : (ℕ → ℕ → MemTreeNode → Type 0) → (MemTreeNode → List FileNode) → Type 0
Spans P g = (lo hi : ℕ) (n : MemTreeNode) → P lo hi n → Span lo hi (g n)

pub Ranges-Span :
    (P : ℕ → ℕ → MemTreeNode → Type 0) (g : MemTreeNode → List FileNode)
    → Spans P g
    → (lo hi : ℕ) (cs : List Child) → Ranges P lo hi cs
    → Span lo hi (concat g cs)
Ranges-Span P g spans lo hi [] r = absurd r
Ranges-Span P g spans lo hi (c ∷ []) r =
    Span-append lo hi hi (g c.content) [] (spans lo hi c.content r.1) (omega arith)
Ranges-Span P g spans lo hi (c ∷ d ∷ cs) (m, e, p, r) =
    Span-append lo m hi (g c.content) (concat g (d ∷ cs)) (spans lo m c.content p)
      (Ranges-Span P g spans m hi (d ∷ cs) r)

pub Valid-Span :
    (lim : Limits) (h : ℕ) (parent : Option ℕ) → Spans (Valid lim h parent) (contents h)
unfolding Valid contents
Valid-Span lim zero parent lo hi (leave a p fs d) v = v.1
Valid-Span lim zero parent lo hi (node a p ls d dc) v = absurd v
Valid-Span lim (suc h) parent lo hi (leave a p fs d) v = absurd v
Valid-Span lim (suc h) parent lo hi (node a p ls d dc) v =
    Ranges-Span (Valid lim h (some a)) (contents h) (Valid-Span lim h (some a)) lo hi (to_list ls)
      v.1

-- A range may begin earlier.
pub Ranges-lower :
    (P : ℕ → ℕ → MemTreeNode → Type 0)
    → ((lo lo' hi : ℕ) (n : MemTreeNode) → lo' ≤ lo → P lo hi n → P lo' hi n)
    → (lo lo' hi : ℕ) (cs : List Child) → lo' ≤ lo
    → Ranges P lo hi cs
    → Ranges P lo' hi cs
Ranges-lower P lower lo lo' hi [] le r = r
Ranges-lower P lower lo lo' hi (c ∷ []) le r = (r.0, lower lo lo' hi c.content le r.1)
Ranges-lower P lower lo lo' hi (c ∷ d ∷ cs) le (m, e, p, r) =
    (m, e, lower lo lo' m c.content le p, r)

pub Valid-lower :
    (lim : Limits) (h : ℕ) (parent : Option ℕ) (lo lo' hi : ℕ) (n : MemTreeNode)
    → lo' ≤ lo
    → Valid lim h parent lo hi n
    → Valid lim h parent lo' hi n
unfolding Valid
Valid-lower lim zero parent lo lo' hi (leave a p fs d) le v =
    (v.0, Span-lower lo lo' hi fs le v.1, v.2, v.3)
Valid-lower lim zero parent lo lo' hi (node a p ls d dc) le v = v
Valid-lower lim (suc h) parent lo lo' hi (leave a p fs d) le v = v
Valid-lower lim (suc h) parent lo lo' hi (node a p ls d dc) le v = (
  v.0,
  Ranges-lower (Valid lim h (some a)) (Valid-lower lim h (some a)) lo lo' hi (to_list ls) le v.1,
  v.2,
  v.3,
  v.4,
)

pub Valid-get_parent :
    (lim : Limits) (h : ℕ) (parent : Option ℕ) (lo hi : ℕ) (n : MemTreeNode)
    → Valid lim h parent lo hi n
    → get_parent n ≡ parent
unfolding Valid
Valid-get_parent lim zero parent lo hi (leave a p fs d) v = v.0
Valid-get_parent lim zero parent lo hi (node a p ls d dc) v = absurd v
Valid-get_parent lim (suc h) parent lo hi (leave a p fs d) v = absurd v
Valid-get_parent lim (suc h) parent lo hi (node a p ls d dc) v = v.0
