-- ===== src/MemTree/Deleting/Promoting.antt =====
-- The root that a deletion leaves, and the leave that takes its place.
use wasabi_os.Prelude.{
  ℕ, zero, suc, ◌≤◌, ◌≡◌, refl, sym, ◌∙◌, ap, subst, Bool, true, false, ◌||◌, none, some, List, [],
  ◌∷◌, append-nil, length, get_elem?, set, arith, u64_max, ok,
}
use wasabi_os.MemTree.{
  Limits, MemTreeNode, node, leave, Child, MemTree, from_list, get_parent, with_parent,
  same_address,
}
use wasabi_os.MemTree.Valid.{Ranges, Valid, concat, contents, to_list-from_list}
use wasabi_os.MemTree.Growing.{IsValid, files}
use wasabi_os.MemTree.Deleting.{len, promote}
use wasabi_os.MemTree.Deleting.Leaves.{Loose}

pub set-same {ℓ} :
    {A : Type ℓ} (xs : List A) (i : ℕ) (x : A) → get_elem? xs i ≡ some x → set xs i x ≡ xs
set-same [] i x e = refl
set-same (y ∷ ys) zero x e = ground arith
set-same (y ∷ ys) (suc i) x e = ap (◌∷◌ y) (set-same ys i x e)

-- A leave that becomes the root.
promoted-Valid :
    (lim : Limits) (a lo hi : ℕ) (n : MemTreeNode)
    → Valid lim 0 (some a) lo hi n
    → Valid lim 0 none lo hi (with_parent none n) × (contents 0 (with_parent none n) ≡ contents 0 n)
unfolding Valid contents
promoted-Valid lim a lo hi (node b p ls d dc) v = absurd v
promoted-Valid lim a lo hi (leave b p fs d) v = ((refl, v.1, v.2, tt), refl)

-- The root after its rebalance.
pub promote-Valid :
    (lim : Limits) (t : MemTree) (a : ℕ) (cs : List Child) (d dc : Bool)
    → Ranges (Valid lim 0 (some a)) 0 u64_max cs
    → length cs ≤ lim.node_max_child_count
    → (t' : MemTree) × (height : ℕ) × (promote t (node a none (from_list cs) d dc) ≡ ok t')
      × (height ≤ 1)
      × IsValid lim height t'
      × (files height t' ≡ concat (contents 0) cs)
unfolding Valid contents
promote-Valid lim t a [] d dc r few = absurd r
promote-Valid lim t a (c ∷ []) d dc (e, v) few =
    let (valid, same) = promoted-Valid lim a 0 u64_max c.content v in
    (
      record t { root = with_parent none c.content; root_device_ptr = c.device_ptr },
      0,
      rw (e, promote) refl,
      omega arith,
      valid,
      same ∙ sym (append-nil (contents 0 c.content)),
    )
promote-Valid lim t a (c ∷ x ∷ cs) d dc r few = (
  record t { root = node a none (from_list (c ∷ x ∷ cs)) d dc },
  1,
  ground (arith, to_list-from_list cs),
  omega arith,
  (
    refl,
    subst (λ l. Ranges (Valid lim 0 (some a)) 0 u64_max (c ∷ x ∷ l)) (sym (to_list-from_list cs)) r,
    omega (arith, ap length (to_list-from_list cs)),
    omega arith,
    tt,
  ),
  ap (concat (contents 0)) (to_list-from_list (c ∷ x ∷ cs)),
)

pub len-contents :
    (lim : Limits) (a lo hi : ℕ) (n : MemTreeNode)
    → Loose lim a lo hi n
    → length (contents 0 n) ≡ len n
unfolding contents
len-contents lim a lo hi (node b p ls d dc) l = absurd l
len-contents lim a lo hi (leave b p fs d) l = refl

pub or_true : (b : Bool) → (b || true) ≡ true
or_true true = refl
or_true false = refl

pub same_some :
    (n : MemTreeNode) (a : ℕ) → get_parent n ≡ some a → same_address (get_parent n) (some a) ≡ true
same_some n a e = ground arith
