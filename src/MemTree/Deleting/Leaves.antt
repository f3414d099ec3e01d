-- ===== src/MemTree/Deleting/Leaves.antt =====
-- Two leaves side by side, one of which has lost a file too many: a rotation or a merge keeps the
-- files and fills the leaves.
use wasabi_os.Prelude.{
  ℕ, zero, suc, ◌+◌, ◌-◌, ◌/◌, ◌≤◌, ◌<◌, ◌≡◌, refl, sym, ◌∙◌, ap, subst, true, lt→ltb, le→leb, some,
  List, [], ◌∷◌, ◌++◌, append_assoc, length, length-append, length-remove_at, get_elem?, remove_at,
  arith, ok,
}
use wasabi_os.MemTree.{Limits, FileNode, MemTreeNode, node, leave, last}
use wasabi_os.MemTree.Sorted.{Span, Span-lower, Span-append, Span-cut}
use wasabi_os.MemTree.Valid.{IsEven, contents}
use wasabi_os.MemTree.Deleting.{
  Variant, merge, take_from_right, take_from_left, Rebalanced, rotated, merged, rotate_leaves,
}

-- A leave of the node at `a`, however few files it has.
abbrev pub Loose : Limits → ℕ → ℕ → ℕ → MemTreeNode → Type 0
Loose lim a lo hi (leave b p fs d) =
    (p ≡ some a) × Span lo hi fs × (length fs ≤ lim.leave_max_file_count)
Loose lim a lo hi (node b p ls d dc) = ⊥

-- What two leaves, which meet at `m`, come to.
abbrev pub Rotated : Limits → ℕ → ℕ → ℕ → List FileNode → Rebalanced → Type 0
Rotated lim a lo hi fs (rotated l m r) =
    Loose lim a lo m l
    × Loose lim a m hi r
    × (lim.leave_max_file_count / 2 ≤ length (contents 0 l))
    × (lim.leave_max_file_count / 2 ≤ length (contents 0 r))
    × (contents 0 l ++ contents 0 r ≡ fs)
Rotated lim a lo hi fs (merged n) =
    Loose lim a lo hi n
    × (lim.leave_max_file_count / 2 ≤ length (contents 0 n))
    × (contents 0 n ≡ fs)

remove_last {ℓ} :
    {A : Type ℓ} (k : ℕ) (xs : List A)
    → length xs ≡ suc k
    → (x : A) × (last xs ≡ some x) × (remove_at k xs ++ x ∷ [] ≡ xs)
remove_last k [] h = cc
remove_last zero (x ∷ []) h = (x, refl, refl)
remove_last (suc k) (x ∷ []) h = absurd (omega arith)
remove_last zero (x ∷ y ∷ xs) h = absurd (omega arith)
remove_last (suc k) (x ∷ y ∷ xs) h =
    let (z, e, whole) = remove_last k (y ∷ xs) (omega arith) in (z, e, ap (◌∷◌ x) whole)

first_of {ℓ} : {A : Type ℓ} (xs : List A) → 1 ≤ length xs → (x : A) × (get_elem? xs 0 ≡ some x)
first_of [] h = absurd (omega arith)
first_of (x ∷ xs) h = (x, refl)

first_of-Span :
    (lo hi : ℕ) (fs : List FileNode) (f : FileNode)
    → Span lo hi fs
    → get_elem? fs 0 ≡ some f
    → lo < f.id
first_of-Span lo hi [] f s e = cc
first_of-Span lo hi (g ∷ gs) f s e = ground arith

module _ (lim : Limits) (even : IsEven lim) (a la ra lo m hi : ℕ) (left right : List FileNode)
    (next : ℕ) (lefts : Span lo m left) (rights : Span m hi right)
    (few_left : length left ≤ lim.leave_max_file_count)
    (few_right : length right ≤ lim.leave_max_file_count) where
  abbrev half : ℕ
  half = lim.leave_max_file_count / 2

  abbrev Rotates : Variant → Type 0
  Rotates v =
      (r : Rebalanced) × (rotate_leaves lim v next la (some a) left ra (some a) right (some m)
        ≡ ok r)
      × Rotated lim a lo hi (left ++ right) r

  pub take_from_right-Rotates :
      half < length right → half ≤ suc (length left) → length left < half → Rotates take_from_right
  unfolding contents
  take_from_right-Rotates more enough lacks = moved right refl
    where
      moved : (xs : List FileNode) → right ≡ xs → Rotates take_from_right
      moved [] e = absurd (ground arith)
      moved (x ∷ xs) e =
          let spans = subst (Span m hi) e rights in
          (
            rotated (leave la (some a) (left ++ x ∷ []) true) x.id (leave ra (some a) xs true),
            rw (e, rotate_leaves)
                (rw (le→leb half (length xs) (ground arith)) (rw (lt→ltb m x.id spans.0) refl)),
            (
              (
                refl,
                Span-append lo m x.id left (x ∷ []) lefts (spans.0, omega arith),
                omega (arith, length-append left (x ∷ [])),
              ),
              (refl, spans.1, ground arith),
              omega (arith, length-append left (x ∷ [])),
              ground arith,
              append_assoc left (x ∷ []) xs ∙ ap (◌++◌ left) (sym e),
            ),
          )

  pub take_from_left-Rotates :
      half < length left
      → half ≤ suc (length right)
      → length right < half
      → 2 ≤ half
      → Rotates take_from_left
  unfolding contents
  take_from_left-Rotates more enough lacks two = (
    rotated (leave la (some a) rest true) new_last.id (leave ra (some a) (to_move ∷ right) true),
    rw (is_last, rotate_leaves)
        (rw (le→leb half (length rest) (omega (arith, size)))
          (rw (is_new_last) (rw (is_first) (rw (lt→ltb to_move.id first.id ordered) refl)))),
    (
      (refl, cut.0, omega (arith, size)),
      (refl, (moves.0, Span-up), omega arith),
      omega (arith, size),
      omega arith,
      sym (append_assoc rest (to_move ∷ []) right) ∙ ap (λ fs. fs ++ right) whole,
    ),
  )
    where
      taken :
          (x : FileNode) × (last left ≡ some x)
          × (remove_at (length left - 1) left ++ x ∷ [] ≡ left)
      taken = remove_last (length left - 1) left (omega arith)

      to_move : FileNode
      to_move = taken.0

      rest : List FileNode
      rest = remove_at (length left - 1) left

      is_last : last left ≡ some to_move
      is_last = taken.1

      whole : rest ++ to_move ∷ [] ≡ left
      whole = taken.2

      size : length rest + 1 ≡ length left
      size = length-remove_at (length left - 1) left (omega arith)

      ended :
          (x : FileNode) × (last rest ≡ some x)
          × (remove_at (length rest - 1) rest ++ x ∷ [] ≡ rest)
      ended = remove_last (length rest - 1) rest (omega (arith, size))

      new_last : FileNode
      new_last = ended.0

      is_new_last : last rest ≡ some new_last
      is_new_last = ended.1

      cut : Span lo new_last.id rest × Span new_last.id m (to_move ∷ [])
      cut =
          Span-cut lo m rest (to_move ∷ []) new_last (subst (Span lo m) (sym whole) lefts)
            is_new_last

      moves : (new_last.id < to_move.id) × (to_move.id ≤ m)
      moves = cut.1

      front : (x : FileNode) × (get_elem? right 0 ≡ some x)
      front = first_of right (omega arith)

      first : FileNode
      first = front.0

      is_first : get_elem? right 0 ≡ some first
      is_first = front.1

      ordered : to_move.id < first.id
      ordered = omega (arith, moves, first_of-Span m hi right first rights is_first)

      Span-up : Span to_move.id hi right
      Span-up = Span-lower m to_move.id hi right moves.1 rights

  pub merge-Rotates :
      (k : ℕ)
      → length left + length right ≤ lim.leave_max_file_count
      → half ≤ length left + length right
      → Rotates (merge k)
  unfolding contents
  merge-Rotates k fits enough = (
    merged (leave next (some a) (left ++ right) true),
    refl,
    (
      (refl, Span-append lo m hi left right lefts rights, omega (arith, length-append left right)),
      omega (arith, length-append left right),
      refl,
    ),
  )
