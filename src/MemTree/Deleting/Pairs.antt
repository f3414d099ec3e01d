-- ===== src/MemTree/Deleting/Pairs.antt =====
-- Two children side by side are replaced by two others, or by one.
use wasabi_os.Prelude.{
  ℕ, zero, suc, ◌≡◌, refl, sym, ◌∙◌, ap, subst, ◌⊎◌, inl, inr, true, false, none, some, List, [],
  ◌∷◌, ◌++◌, append_assoc, length, length-set, length-remove_at, get_elem?, get_elem?-below, set,
  arith,
}
use wasabi_os.MemTree.{FileNode, MemTreeNode, Child}
use wasabi_os.MemTree.Valid.{Ranges, concat}
use wasabi_os.MemTree.Inserting.{Ranges-cons}
use wasabi_os.MemTree.Deleting.{Rebalanced, rotated, merged, put_back}

pub some-eq {ℓ} : {A : Type ℓ} {x y : A} → some x ≡ some y → x ≡ y
some-eq e = ground arith

-- The ranges of the two, and of their replacements.
pub record Paired (P : ℕ → ℕ → MemTreeNode → Type 0) (lo hi : ℕ) (cs : List Child) (l : ℕ)
    (left right : Child) : Type 0 where
  pub low : ℕ
  pub mid : ℕ
  pub high : ℕ
  pub left_max : left.max_id ≡ some mid
  pub left_in : P low mid left.content
  pub right_in : P mid high right.content
  pub two :
      (ln : MemTreeNode) (m : ℕ) (rn : MemTreeNode)
      → P low m ln
      → P m high rn
      → Ranges P lo hi (put_back l left right cs (rotated ln m rn)).0
  pub one :
      (n : MemTreeNode) → P low high n → Ranges P lo hi (put_back l left right cs (merged n)).0

module _ (P : ℕ → ℕ → MemTreeNode → Type 0) where
  first-Paired :
      (lo hi : ℕ) (c d : Child) (cs : List Child)
      → Ranges P lo hi (c ∷ d ∷ cs)
      → Paired P lo hi (c ∷ d ∷ cs) 0 c d
  first-Paired lo hi c d [] (m, e, p, (e', q)) = record {
    low = lo;
    mid = m;
    high = hi;
    left_max = e;
    left_in = p;
    right_in = q;
    two = λ ln m' rn pl pr. (m', refl, pl, (e', pr));
    one = λ n pn. (e', pn);
  }
  first-Paired lo hi c d (x ∷ xs) (m, e, p, (m2, e', q, r)) = record {
    low = lo;
    mid = m;
    high = m2;
    left_max = e;
    left_in = p;
    right_in = q;
    two = λ ln m' rn pl pr. (m', refl, pl, (m2, e', pr, r));
    one = λ n pn. (m2, e', pn, r);
  }

  pub pair-Paired :
      (lo hi : ℕ) (cs : List Child) (l : ℕ) (left right : Child)
      → Ranges P lo hi cs
      → get_elem? cs l ≡ some left
      → get_elem? cs (suc l) ≡ some right
      → Paired P lo hi cs l left right
  pair-Paired lo hi [] l left right r el er = absurd r
  pair-Paired lo hi (c ∷ []) l left right r el er = cc
  pair-Paired lo hi (c ∷ d ∷ cs) zero left right r el er =
      subst (λ x. Paired P lo hi (c ∷ d ∷ cs) 0 x right) (some-eq el)
        (subst (λ y. Paired P lo hi (c ∷ d ∷ cs) 0 c y) (some-eq er) (first-Paired lo hi c d cs r))
  pair-Paired lo hi (c ∷ d ∷ cs) (suc l) left right (m, e, p, r) el er =
      let rest = pair-Paired m hi (d ∷ cs) l left right r el er in
      record {
        low = rest.low;
        mid = rest.mid;
        high = rest.high;
        left_max = rest.left_max;
        left_in = rest.left_in;
        right_in = rest.right_in;
        two = λ ln m' rn pl pr. Ranges-cons P lo m hi c _ e p (rest.two ln m' rn pl pr);
        one = λ n pn. Ranges-cons P lo m hi c _ e p (rest.one n pn);
      }

-- The child that was changed before is one of the two, so it is replaced all the same.
pub put_back-left :
    (cs : List Child) (l : ℕ) (left right : Child) (n : MemTreeNode) (r : Rebalanced)
    → put_back l (record left { content = n }) right (set cs l (record left { content = n })) r
      ≡ put_back l left right cs r
put_back-left [] l left right n (rotated ln m rn) = refl
put_back-left [] l left right n (merged k) = refl
put_back-left (c ∷ cs) zero left right n (rotated ln m rn) = refl
put_back-left (c ∷ cs) zero left right n (merged k) = refl
put_back-left (c ∷ cs) (suc l) left right n (rotated ln m rn) =
    ap (λ r. (c ∷ r.0, r.1)) (put_back-left cs l left right n (rotated ln m rn))
put_back-left (c ∷ cs) (suc l) left right n (merged k) =
    ap (λ r. (c ∷ r.0, r.1)) (put_back-left cs l left right n (merged k))

pub put_back-right :
    (cs : List Child) (l : ℕ) (left right : Child) (n : MemTreeNode) (r : Rebalanced)
    → put_back l left
        (record right { content = n })
        (set cs (suc l) (record right { content = n }))
        r
      ≡ put_back l left right cs r
put_back-right [] l left right n (rotated ln m rn) = refl
put_back-right [] l left right n (merged k) = refl
put_back-right (c ∷ []) zero left right n (rotated ln m rn) = refl
put_back-right (c ∷ []) zero left right n (merged k) = refl
put_back-right (c ∷ d ∷ cs) zero left right n (rotated ln m rn) = refl
put_back-right (c ∷ d ∷ cs) zero left right n (merged k) = refl
put_back-right (c ∷ cs) (suc l) left right n (rotated ln m rn) =
    ap (λ r. (c ∷ r.0, r.1)) (put_back-right cs l left right n (rotated ln m rn))
put_back-right (c ∷ cs) (suc l) left right n (merged k) =
    ap (λ r. (c ∷ r.0, r.1)) (put_back-right cs l left right n (merged k))

-- The files of the replacements.
abbrev pub Same : (MemTreeNode → List FileNode) → Child → Child → Rebalanced → Type 0
Same g left right (rotated ln m rn) = g ln ++ g rn ≡ g left.content ++ g right.content
Same g left right (merged n) = g n ≡ g left.content ++ g right.content

pub put_back-files :
    (g : MemTreeNode → List FileNode) (cs : List Child) (l : ℕ) (left right : Child)
    (r : Rebalanced)
    → get_elem? cs l ≡ some left
    → get_elem? cs (suc l) ≡ some right
    → Same g left right r
    → concat g (put_back l left right cs r).0 ≡ concat g cs
put_back-files g [] l left right r el er same = cc
put_back-files g (c ∷ []) l left right r el er same = cc
put_back-files g (c ∷ d ∷ cs) zero left right (rotated ln m rn) el er same =
    sym (append_assoc (g ln) (g rn) (concat g cs)) ∙ ap (λ fs. fs ++ concat g cs) same ∙ first
  where
    first :
        (g left.content ++ g right.content) ++ concat g cs
        ≡ g c.content ++ (g d.content ++ concat g cs)
    first =
        append_assoc (g left.content) (g right.content) (concat g cs)
        ∙ ap (λ x. g x.content ++ (g right.content ++ concat g cs)) (sym (some-eq el))
        ∙ ap (λ y. g c.content ++ (g y.content ++ concat g cs)) (sym (some-eq er))
put_back-files g (c ∷ d ∷ cs) zero left right (merged n) el er same =
    ap (λ fs. fs ++ concat g cs) same ∙ first
  where
    first :
        (g left.content ++ g right.content) ++ concat g cs
        ≡ g c.content ++ (g d.content ++ concat g cs)
    first =
        append_assoc (g left.content) (g right.content) (concat g cs)
        ∙ ap (λ x. g x.content ++ (g right.content ++ concat g cs)) (sym (some-eq el))
        ∙ ap (λ y. g c.content ++ (g y.content ++ concat g cs)) (sym (some-eq er))
put_back-files g (c ∷ d ∷ cs) (suc l) left right (rotated ln m rn) el er same =
    ap (◌++◌ (g c.content)) (put_back-files g (d ∷ cs) l left right (rotated ln m rn) el er same)
put_back-files g (c ∷ d ∷ cs) (suc l) left right (merged n) el er same =
    ap (◌++◌ (g c.content)) (put_back-files g (d ∷ cs) l left right (merged n) el er same)

-- One child less after a merge.
pub length-put_back :
    (cs : List Child) (l : ℕ) (left right : Child) (r : Rebalanced)
    → get_elem? cs (suc l) ≡ some right
    → (((put_back l left right cs r).1 ≡ false)
        × (length (put_back l left right cs r).0 ≡ length cs))
      ⊎ (((put_back l left right cs r).1 ≡ true)
          × (suc (length (put_back l left right cs r).0) ≡ length cs))
length-put_back cs l left right (rotated ln m rn) e =
    inl (refl, length-set (set cs l _) (suc l) _ ∙ length-set cs l _)
length-put_back cs l left right (merged n) e = inr (
  refl,
  omega (
    arith,
    length-remove_at (suc l)
        (set cs l (record { content = n; device_ptr = none; max_id = right.max_id }))
        (omega (
          arith,
          length-set cs l (record { content = n; device_ptr = none; max_id = right.max_id }),
          get_elem?-below cs (suc l) e,
        )),
    length-set cs l (record { content = n; device_ptr = none; max_id = right.max_id }),
  ),
)
