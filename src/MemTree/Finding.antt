-- ===== src/MemTree/Finding.antt =====
-- The search in a valid tree finds what its files hold.
use wasabi_os.Prelude.{
  ℕ, zero, suc, ◌≤◌, ◌<◌, ◌≡◌, refl, sym, ◌∙◌, ap, inl, inr, Bool-cases, Option, none, some, List,
  [], ◌∷◌, get_elem?, leb, arith, u64_max, ok,
}
use wasabi_os.MemTree.{
  Limits, FileNode, MemTreeNode, node, leave, Child, to_list, find_file, route, find,
}
use wasabi_os.MemTree.Sorted.{Span-le, find_file-outside, find_file-append}
use wasabi_os.MemTree.Valid.{Ranges, Valid, concat, contents, Spans, Ranges-Span, Valid-Span}

-- The child `i`, with its range `lo' hi'`, is the one that the search for `id` takes.
pub data Focus (P : ℕ → ℕ → MemTreeNode → Type 0) (id : ℕ)
    : ℕ → ℕ → List Child → ℕ → ℕ → ℕ → Child → Type 0 where
  only :
      {lo hi : ℕ} {c : Child}
      → c.max_id ≡ none
      → P lo hi c.content
      → Focus P id lo hi (c ∷ []) 0 lo hi c
  here :
      {lo hi m : ℕ} {c d : Child} {cs : List Child}
      → c.max_id ≡ some m
      → id ≤ m
      → P lo m c.content
      → Ranges P m hi (d ∷ cs)
      → Focus P id lo hi (c ∷ d ∷ cs) 0 lo m c
  there :
      {lo hi m i lo' hi' : ℕ} {c d e : Child} {cs : List Child}
      → c.max_id ≡ some m
      → m < id
      → P lo m c.content
      → Focus P id m hi (d ∷ cs) i lo' hi' e
      → Focus P id lo hi (c ∷ d ∷ cs) (suc i) lo' hi' e

-- The search takes a child whose range has `id`.
pub record Routed (P : ℕ → ℕ → MemTreeNode → Type 0) (id lo hi : ℕ) (cs : List Child) : Type 0 where
  pub index : ℕ
  pub low : ℕ
  pub high : ℕ
  pub child : Child
  pub routed : route id cs ≡ some index
  pub at_index : get_elem? cs index ≡ some child
  pub above : low < id
  pub below : id ≤ high
  pub held : P low high child.content
  pub top : high ≤ u64_max
  pub focus : Focus P id lo hi cs index low high child

pub route-Routed :
    (P : ℕ → ℕ → MemTreeNode → Type 0) (g : MemTreeNode → List FileNode)
    → Spans P g
    → (id lo hi : ℕ) (cs : List Child) → Ranges P lo hi cs
    → lo < id
    → id ≤ hi
    → hi ≤ u64_max
    → Routed P id lo hi cs
route-Routed P g spans id lo hi [] r above below top = absurd r
route-Routed P g spans id lo hi (c ∷ []) (e, p) above below top = record {
  index = 0;
  low = lo;
  high = hi;
  child = c;
  routed = ground arith;
  at_index = refl;
  above = above;
  below = below;
  held = p;
  top = top;
  focus = only e p;
}
route-Routed P g spans id lo hi (c ∷ d ∷ cs) (m, e, p, r) above below top =
    elim (Bool-cases (leb id m)) [
      | inl first ↦ record {
        index = 0;
        low = lo;
        high = m;
        child = c;
        routed = ground arith;
        at_index = refl;
        above = above;
        below = ground arith;
        held = p;
        top =
            omega (arith, Span-le m hi (concat g (d ∷ cs)) (Ranges-Span P g spans m hi (d ∷ cs) r));
        focus = here e (ground arith) p r;
      }
      | inr later ↦
          behind (route-Routed P g spans id m hi (d ∷ cs) r (ground arith) below top) (ground arith)
    ]
  where
    behind : Routed P id m hi (d ∷ cs) → m < id → Routed P id lo hi (c ∷ d ∷ cs)
    behind rest past = record {
      index = suc rest.index;
      low = rest.low;
      high = rest.high;
      child = rest.child;
      routed = ground (arith, rest.routed);
      at_index = rest.at_index;
      above = rest.above;
      below = rest.below;
      held = rest.held;
      top = rest.top;
      focus = there e past p rest.focus;
    }

-- Only the child in focus can hold `id`.
pub Focus-find_file :
    (P : ℕ → ℕ → MemTreeNode → Type 0) (g : MemTreeNode → List FileNode) {id lo hi i lo' hi' : ℕ}
    {cs : List Child} {c : Child}
    → Spans P g
    → id ≤ hi'
    → Focus P id lo hi cs i lo' hi' c
    → find_file id (concat g cs) ≡ find_file id (g c.content)
Focus-find_file P g {id} {c = c} spans le (only e p) =
    ground (arith, find_file-append id (g c.content) [])
Focus-find_file P g {id} {lo} {hi} {c = c} spans le (here {m = m} {d = d} {cs = cs} e b p r) =
    ground (
      arith,
      find_file-append id (g c.content) (concat g (d ∷ cs)),
      find_file-outside m hi id (concat g (d ∷ cs)) (Ranges-Span P g spans m hi (d ∷ cs) r)
          (inl le),
    )
Focus-find_file P g {id} {lo} spans le (there {m = m} {c = c} {d = d} {cs = cs} e b p f) = ground (
  arith,
  find_file-append id (g c.content) (concat g (d ∷ cs)),
  find_file-outside lo m id (g c.content) (spans lo m c.content p) (inr b),
  Focus-find_file P g spans le f,
)

-- In a valid node of height `h` with ids above `lo` and up to `hi`, which is at most the largest
-- `u64`, `find` with fuel `h + 1` of an id in that range does not panic, and returns what a search
-- through the whole list of the files below the node returns.
pub find-contents :
    (lim : Limits) (h : ℕ) (parent : Option ℕ) (lo hi id : ℕ) (n : MemTreeNode)
    → Valid lim h parent lo hi n
    → lo < id
    → id ≤ hi
    → hi ≤ u64_max
    → find (suc h) n id ≡ ok (find_file id (contents h n))
unfolding Valid contents find
find-contents lim zero parent lo hi id (leave a p fs d) v above below top = refl
find-contents lim zero parent lo hi id (node a p ls d dc) v above below top = absurd v
find-contents lim (suc h) parent lo hi id (leave a p fs d) v above below top = absurd v
find-contents lim (suc h) parent lo hi id (node a p ls d dc) v above below top =
    rw (step.routed, find)
      (rw (step.at_index, find)
        (find-contents lim h (some a) step.low step.high id step.child.content step.held step.above
            step.below step.top
          ∙ ap ok (
              sym (
                Focus-find_file (Valid lim h (some a)) (contents h) (Valid-Span lim h (some a))
                  step.below step.focus))))
  where
    step : Routed (Valid lim h (some a)) id lo hi (to_list ls)
    step =
        route-Routed (Valid lim h (some a)) (contents h) (Valid-Span lim h (some a)) id lo hi
          (to_list ls) v.1 above below top
