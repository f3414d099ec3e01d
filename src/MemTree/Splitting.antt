-- ===== src/MemTree/Splitting.antt =====
-- The insertion into a leave: the leave with the file, or the two halves of a full one.
use wasabi_os.Prelude.{
  ℕ, zero, ◌+◌, ◌-◌, ◌/◌, ◌≤◌, ◌<◌, ◌≡◌, refl, sym, ◌∙◌, ap, subst, ◌≢◌, inl, inr, Bool, true,
  false, Bool-cases, Option, none, some, List, [], ◌∷◌, ◌++◌, append-nil, length, get_elem?, set,
  length-set, take, drop, insert_at, take-drop, length-halves, length-insert_at, insert_at-front,
  insert_at-back, ltb, leb, ◌==◌, arith, ok,
}
use wasabi_os.MemTree.{
  Limits, FileNode, file_node_exists, MemTreeNode, leave, find_file, get_parent, with_parent,
  Insertion, finished, split, position_of, position_behind, last, split_leave, insert_in_leave,
}
use wasabi_os.MemTree.Sorted.{Span, Span-cut, Puts, insert_at-Puts, set-Puts, position_of-find_file}
use wasabi_os.MemTree.Valid.{IsEven, Filled, Valid, contents}

-- The two nodes that a node of height `h` with the range `lo hi` became, divided at `m`.
pub record Split (lim : Limits) (h : ℕ) (parent : Option ℕ) (lo hi : ℕ) (f : FileNode)
    (n old : MemTreeNode) (m : ℕ) (new : MemTreeNode) (new_max : ℕ) : Type 0 where
  pub absent : find_file f.id (contents h n) ≡ none
  pub old_parent : get_parent old ≡ parent
  pub new_parent : get_parent new ≡ parent
  pub old_valid : (q : ℕ) → Valid lim h (some q) lo m (with_parent (some q) old)
  pub new_valid : (q : ℕ) → Valid lim h (some q) m new_max (with_parent (some q) new)
  pub new_last : (q : ℕ) → Valid lim h (some q) m hi (with_parent (some q) new)
  pub new_below : new_max ≤ hi
  pub puts : Puts f (contents h n) (contents h old ++ contents h new)

-- What an insertion does to a node: with `create_only` a file with the same id is an error.
abbrev pub Inserted :
    Limits → Bool → ℕ → Option ℕ → ℕ → ℕ → FileNode → MemTreeNode → Insertion → Type 0
Inserted lim create_only h parent lo hi f n (finished none n') =
    (create_only ≡ true → find_file f.id (contents h n) ≡ none)
    × Valid lim h parent lo hi n'
    × Puts f (contents h n) (contents h n')
Inserted lim create_only h parent lo hi f n (finished (some e) n') =
    (e ≡ file_node_exists f.id)
    × (create_only ≡ true)
    × (find_file f.id (contents h n) ≢ none)
    × Valid lim h parent lo hi n'
    × (contents h n' ≡ contents h n)
Inserted lim create_only h parent lo hi f n (split old m new new_max) =
    Split lim h parent lo hi f n old m new new_max

last-some {ℓ} : {A : Type ℓ} (xs : List A) → 1 ≤ length xs → (l : A) × (last xs ≡ some l)
last-some [] h = absurd (omega arith)
last-some (x ∷ []) h = (x, refl)
last-some (x ∷ y ∷ xs) h = last-some (y ∷ xs) (omega arith)

pub Filled-add :
    (parent : Option ℕ) (k count capacity : ℕ)
    → count ≤ k
    → Filled parent count capacity
    → Filled parent k capacity
Filled-add none k count capacity le h = tt
Filled-add (some a) k count capacity le h = omega arith

module _ (lim : Limits) (even : IsEven lim) (file : FileNode) (a : ℕ) (p : Option ℕ) (lo hi : ℕ)
    (fs : List FileNode) (d : Bool) (next : ℕ) (spans : Span lo hi fs)
    (absent : find_file file.id fs ≡ none) (above : lo < file.id) (below : file.id ≤ hi) where
  abbrev pos : ℕ
  pos = position_behind file.id fs

  abbrev half : ℕ
  half = lim.leave_max_file_count / 2

  -- Two lists of at least half a leave that are the files in order.
  halves-Split :
      (left right : List FileNode)
      → left ++ right ≡ insert_at pos file fs
      → half ≤ length left
      → length left ≤ lim.leave_max_file_count
      → half ≤ length right
      → length right ≤ lim.leave_max_file_count
      → (l r : FileNode) → last left ≡ some l
      → last right ≡ some r
      → Split lim zero p lo hi file
          (leave a p fs d)
          (leave a p left true)
          l.id
          (leave next p right true)
          r.id
  unfolding Valid contents
  halves-Split left right e hl hl' hr hr' l r el er = record {
    absent = absent;
    old_parent = refl;
    new_parent = refl;
    old_valid = λ q. (refl, cut.0, hl', hl);
    new_valid = λ q. (refl, right_cut.0, hr', hr);
    new_last = λ q. (refl, cut.1, hr', hr);
    new_below = right_cut.1;
    puts = λ id. ap (find_file id) e ∙ whole.1 id;
  }
    where
      whole :
          Span lo hi (insert_at (position_behind file.id fs) file fs)
          × Puts file fs (insert_at (position_behind file.id fs) file fs)
      whole = insert_at-Puts lo hi file fs spans absent above below

      cut : Span lo l.id left × Span l.id hi right
      cut = Span-cut lo hi left right l (subst (Span lo hi) (sym e) whole.0) el

      right_cut : Span l.id r.id right × Span r.id hi []
      right_cut =
          Span-cut l.id hi right [] r (subst (Span l.id hi) (sym (append-nil right)) cut.1) er

  split_leave-Split :
      length fs ≡ lim.leave_max_file_count
      → (old : MemTreeNode) × (m : ℕ) × (new : MemTreeNode) × (k : ℕ) × (split_leave lim file pos a
            p fs next
          ≡ ok (split old m new k))
        × Split lim zero p lo hi file (leave a p fs d) old m new k
  unfolding split_leave
  split_leave-Split full = elim (Bool-cases (leb pos half)) [
    | inl low ↦ in_left low
    | inr high ↦ in_right high
  ]
    where
      left : List FileNode
      left = take half fs

      right : List FileNode
      right = drop half fs

      halves : (length left ≡ half) × (half + length right ≡ length fs)
      halves = length-halves half fs (omega arith)

      sizes :
          (length left ≡ half)
          × (length right ≡ half)
          × (1 ≤ half)
          × (lim.leave_max_file_count ≡ half + half)
      sizes = (
        halves.0,
        omega (arith, halves.1, even.leave_even),
        omega (arith, even.leave_even, even.leave_room),
        omega (arith, even.leave_even),
      )

      balanced : (length left == length right) ≡ true
      balanced = ground (arith, sizes)

      Goal : Type 0
      Goal =
          (old : MemTreeNode) × (m : ℕ) × (new : MemTreeNode) × (k : ℕ) × (split_leave lim file pos
              a p fs next
            ≡ ok (split old m new k))
          × Split lim zero p lo hi file (leave a p fs d) old m new k

      in_left : leb pos half ≡ true → Goal
      in_left low =
          let (l, el) =
            last-some (insert_at pos file left) (omega (arith, length-insert_at pos file left)) in
          let (r, er) = last-some right (omega (arith, sizes)) in
          (
            leave a p (insert_at pos file left) true,
            l.id,
            leave next p right true,
            r.id,
            rw (balanced, split_leave) (rw (low) (rw (el) (rw (er) refl))),
            halves-Split (insert_at pos file left) right
                (insert_at-front pos file left right (ground (arith, sizes))
                  ∙ ap (insert_at pos file) (take-drop half fs))
                (omega (arith, sizes, length-insert_at pos file left))
                (omega (arith, sizes, length-insert_at pos file left)) (omega (arith, sizes))
                (omega (arith, sizes)) l r el er,
          )

      in_right : leb pos half ≡ false → Goal
      in_right high =
          let (l, el) = last-some left (omega (arith, sizes)) in
          let (r, er) =
            last-some (insert_at (pos - half) file right)
              (omega (arith, length-insert_at (pos - half) file right)) in
          (
            leave a p left true,
            l.id,
            leave next p (insert_at (pos - half) file right) true,
            r.id,
            rw (balanced, split_leave) (rw (high) (rw (el) (rw (er) refl))),
            halves-Split left (insert_at (pos - half) file right)
                (insert_at-back (pos - half) pos file left right (ground (arith, sizes))
                  ∙ ap (insert_at pos file) (take-drop half fs))
                (omega (arith, sizes)) (omega (arith, sizes))
                (omega (arith, sizes, length-insert_at (pos - half) file right))
                (omega (arith, sizes, length-insert_at (pos - half) file right)) l r el er,
          )

-- (leave)
pub insert_in_leave-Inserted :
    (lim : Limits) (create_only : Bool) (file : FileNode) (lo hi a : ℕ) (parent p : Option ℕ)
    (fs : List FileNode) (d : Bool) (next : ℕ)
    → IsEven lim
    → Valid lim zero parent lo hi (leave a p fs d)
    → lo < file.id
    → file.id ≤ hi
    → (r : Insertion) × (k : ℕ) × (insert_in_leave lim create_only file a p fs d next ≡ ok (r, k))
      × Inserted lim create_only zero parent lo hi file (leave a p fs d) r
unfolding Valid contents
insert_in_leave-Inserted lim create_only file lo hi a parent p fs d next even
      (same, spans, small, filled) above below =
    elim (position_of-find_file file.id fs) [
      | inr (i, g, at_pos, at_i, found, e) ↦ present i g at_pos at_i found
      | inl (missing, absent) ↦ elim (Bool-cases (ltb (length fs) lim.leave_max_file_count)) [
        | inl room ↦
            let (spans', puts) = insert_at-Puts lo hi file fs spans absent above below in
            (
              finished none (leave a p (insert_at (position_behind file.id fs) file fs) true),
              next,
              rw (missing, insert_in_leave) (rw (room) refl),
              (
                λ c. absent,
                (
                  same,
                  spans',
                  ground (arith, length-insert_at (position_behind file.id fs) file fs),
                  Filled-add parent _ (length fs) lim.leave_max_file_count
                      (omega (arith, length-insert_at (position_behind file.id fs) file fs)) filled,
                ),
                puts,
              ),
            )
        | inr full ↦
            let (old, m, new, k, e, parts) =
              split_leave-Split lim even file a p lo hi fs d next spans absent above below
                (ground arith) in
            (
              split old m new k,
              next + 1,
              rw (missing, insert_in_leave) (rw (full) (rw (e) refl)),
              subst (λ q. Split lim zero q lo hi file (leave a p fs d) old m new k) same parts,
            )
      ]
    ]
  where
    Goal : Type 0
    Goal =
        (r : Insertion) × (k : ℕ) × (insert_in_leave lim create_only file a p fs d next ≡ ok (r, k))
        × Inserted lim create_only zero parent lo hi file (leave a p fs d) r

    present :
        (i : ℕ) (g : FileNode)
        → position_of file.id fs ≡ some i
        → get_elem? fs i ≡ some g
        → find_file file.id fs ≡ some g
        → Goal
    present i g at_pos at_i found = elim (Bool-cases create_only) [
      | inl only ↦ (
        finished (some (file_node_exists file.id)) (leave a p fs d),
        next,
        rw (at_pos, insert_in_leave) (rw (only) refl),
        (refl, only, (λ h. ground arith), (same, spans, small, filled), refl),
      )
      | inr either ↦
          let (spans', puts) = set-Puts lo hi file fs i spans at_pos in
          (
            finished none (leave a p (set fs i file) true),
            next,
            rw (at_pos, insert_in_leave) (rw (either) refl),
            (
              (λ c. cc),
              (
                same,
                spans',
                rw (length-set fs i file) small,
                Filled-add parent _ (length fs) lim.leave_max_file_count
                    (omega (arith, length-set fs i file)) filled,
              ),
              puts,
            ),
          )
    ]
