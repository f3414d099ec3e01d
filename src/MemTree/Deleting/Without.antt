-- ===== src/MemTree/Deleting/Without.antt =====
-- The files that a deletion leaves: as the reference has them, and as the leave that is found does.
use wasabi_os.Prelude.{
  ℕ, zero, suc, ◌/◌, ◌≤◌, ◌≡◌, refl, sym, ◌∙◌, ap, subst, ◌⊎◌, inl, inr, true, ◌||◌, not,
  Bool-cases, Option, none, some, List, [], ◌∷◌, ◌++◌, length, set, remove_at, leb, ◌==◌,
  if◌then◌else◌, arith, ok,
}
use wasabi_os.MemTree.{
  Limits, FileNode, MemTreeNode, node, leave, Child, find_file, position_of, get_parent,
}
use wasabi_os.MemTree.Sorted.{Span, Span-lower, find_file-outside, position_of-find_file}
use wasabi_os.MemTree.Valid.{Filled, Valid, concat, contents, Spans, Ranges-Span}
use wasabi_os.MemTree.Finding.{Focus, only, here, there}
use wasabi_os.MemTree.Deleting.{is_none, len, missing, removed, delete_in_leave, delete_below}
use wasabi_os.MemTree.Deleting.Leaves.{Loose}

-- The list without the first file that has the id.
abbrev pub without : ℕ → List FileNode → List FileNode
without id [] = []
without id (f ∷ fs) = let rest = without id fs in if f.id == id then fs else f ∷ rest

pub without-free : (id : ℕ) (fs : List FileNode) → find_file id fs ≡ none → without id fs ≡ fs
without-free id [] e = refl
without-free id (f ∷ fs) e = ground (arith, without-free id fs)

pub without-front :
    (id : ℕ) (xs ys : List FileNode)
    → find_file id ys ≡ none
    → without id (xs ++ ys) ≡ without id xs ++ ys
without-front id [] ys e = without-free id ys e
without-front id (x ∷ xs) ys e = ground (arith, without-front id xs ys e)

pub without-behind :
    (id : ℕ) (xs ys : List FileNode)
    → find_file id xs ≡ none
    → without id (xs ++ ys) ≡ xs ++ without id ys
without-behind id [] ys e = refl
without-behind id (x ∷ xs) ys e = ground (arith, without-behind id xs ys)

Span-without : (lo hi id : ℕ) (fs : List FileNode) → Span lo hi fs → Span lo hi (without id fs)
Span-without lo hi id [] s = s
Span-without lo hi id (f ∷ fs) s = elim (Bool-cases (f.id == id)) [
  | inl same ↦ rw (same) (Span-lower f.id lo hi fs (omega arith) s.1)
  | inr other ↦ rw (other) (s.0, Span-without f.id hi id fs s.1)
]

remove_at-without :
    (id i : ℕ) (fs : List FileNode)
    → position_of id fs ≡ some i
    → (remove_at i fs ≡ without id fs) × (suc (length (without id fs)) ≡ length fs)
remove_at-without id i [] e = cc
remove_at-without id zero (f ∷ fs) e = ground arith
remove_at-without id (suc i) (f ∷ fs) e = ground (arith, remove_at-without id i fs)

-- Among the children, the one in focus alone loses the file.
pub Focus-without :
    (P : ℕ → ℕ → MemTreeNode → Type 0) (g : MemTreeNode → List FileNode) {id lo hi i lo' hi' : ℕ}
    {cs : List Child} {c : Child}
    → Spans P g
    → id ≤ hi'
    → (n : MemTreeNode) → g n ≡ without id (g c.content)
    → Focus P id lo hi cs i lo' hi' c
    → concat g (set cs i (record c { content = n })) ≡ without id (concat g cs)
Focus-without P g {id} {c = c} spans le n e (only q p) =
    ap (λ fs. fs ++ []) e ∙ sym (without-front id (g c.content) [] refl)
Focus-without P g {id} {lo} {hi} {c = c} spans le n e (here {m = m} {d = d} {cs = cs} q b p r) =
    ap (λ fs. fs ++ concat g (d ∷ cs)) e
    ∙ sym (
        without-front id (g c.content) (concat g (d ∷ cs)) (
          find_file-outside m hi id (concat g (d ∷ cs)) (Ranges-Span P g spans m hi (d ∷ cs) r)
            (inl le)))
Focus-without P g {id} {lo} spans le n e (there {m = m} {c = c} {d = d} {cs = cs} q b p f) =
    ap (◌++◌ (g c.content)) (Focus-without P g spans le n e f)
    ∙ sym (
        without-behind id (g c.content) (concat g (d ∷ cs))
          (find_file-outside lo m id (g c.content) (spans lo m c.content p) (inr b)))

-- What the deletion makes of a leave.
pub record Removed (lim : Limits) (id next : ℕ) (parent : Option ℕ) (old : MemTreeNode)
    (f : FileNode) (n : MemTreeNode) : Type 0 where
  pub named : f.id ≡ id
  pub found : find_file id (contents 0 old) ≡ some f
  pub run :
      delete_below lim next id 1 old
      ≡ ok (removed f n (not (leb (lim.leave_max_file_count / 2) (len n) || is_none parent)))
  pub rest : contents 0 n ≡ without id (contents 0 old)
  pub fewer : suc (len n) ≡ len old
  pub parent_kept : get_parent n ≡ parent
  pub looser : (a l h : ℕ) → Loose lim a l h old → Loose lim a l h n
  pub valid : (l h : ℕ) → parent ≡ none → Valid lim 0 parent l h old → Valid lim 0 parent l h n

pub delete_in_leave-Removed :
    (lim : Limits) (id next : ℕ) (parent : Option ℕ) (lo hi : ℕ) (old : MemTreeNode)
    → Valid lim 0 parent lo hi old
    → ((find_file id (contents 0 old) ≡ none) × (delete_below lim next id 1 old ≡ ok (missing old)))
      ⊎ ((f : FileNode) × (n : MemTreeNode) × Removed lim id next parent old f n)
unfolding Valid contents delete_below
delete_in_leave-Removed lim id next parent lo hi (node a p ls d dc) v = absurd v
delete_in_leave-Removed lim id next parent lo hi (leave a p fs d) v =
    elim (position_of-find_file id fs) [
      | inl (none_at, free) ↦ inl (free, rw (none_at, delete_in_leave) refl)
      | inr (i, f, at, at_i, found, named) ↦
          let (same, fewer) = remove_at-without id i fs at in
          inr (
            f,
            leave a p (without id fs) true,
            record {
              named = named;
              found = found;
              run =
                  rw (at, delete_in_leave) (rw (at_i, delete_in_leave) (rw (same) (rw (v.0) refl)));
              rest = refl;
              fewer = fewer;
              parent_kept = v.0;
              looser = λ b l h o. (o.0, Span-without l h id fs o.1, omega arith);
              valid = λ l h e o. (
                o.0,
                Span-without l h id fs o.1,
                omega arith,
                subst (λ q. Filled q (length (without id fs)) lim.leave_max_file_count) (sym e) tt,
              );
            },
          )
    ]
