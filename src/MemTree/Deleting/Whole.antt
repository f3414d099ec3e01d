-- ===== src/MemTree/Deleting/Whole.antt =====
-- The deletion from a tree of a leave or of a root over leaves.
use wasabi_os.Prelude.{
  ℕ, zero, suc, ◌+◌, ◌/◌, ◌≤◌, ◌<◌, ◌≡◌, refl, sym, ◌∙◌, ap, subst, ◌⊎◌, inl, inr, Bool, true,
  false, ◌||◌, not, Bool-cases, le→leb, none, some, List, length, length-set, set, leb, arith,
  u64_max, ok, ◌>>=◌,
}
use wasabi_os.MemTree.{
  Limits, FileNode, MemTreeError, file_does_not_exist, MemTreeNode, node, leave, Links, Child,
  MemTree, to_list, from_list, find_file, get_parent, same_address,
}
use wasabi_os.MemTree.Valid.{IsEven, Ranges, Valid, concat, contents, Valid-Span, to_list-from_list}
use wasabi_os.MemTree.Finding.{Focus, Routed, route-Routed, Focus-find_file}
use wasabi_os.MemTree.Inserting.{replace-Ranges}
use wasabi_os.MemTree.Growing.{IsValid, files}
use wasabi_os.MemTree.Deleting.{
  len, cap_of, Deletion, missing, removed, delete_below, after_deletion, rebalance, after_delete,
  delete,
}
use wasabi_os.MemTree.Deleting.Leaves.{Loose}
use wasabi_os.MemTree.Deleting.Promoting.{set-same, promote-Valid, len-contents, or_true, same_some}
use wasabi_os.MemTree.Deleting.Without.{
  without, without-free, Focus-without, Removed, delete_in_leave-Removed,
}
use wasabi_os.MemTree.Deleting.Removing.{Balanced, Loose-Valid, Valid-Loose, rebalance-Balanced}

-- The tree without the file, and the file; or the tree as it was, and the error.
pub record Deleted (lim : Limits) (h : ℕ) (t : MemTree) (id : ℕ) (out : MemTreeError ⊎ FileNode)
    (t' : MemTree) : Type 0 where
  pub height : ℕ
  pub shrinks : (height ≡ h) ⊎ (suc height ≡ h)
  pub valid : IsValid lim height t'
  pub kept : files height t' ≡ without id (files h t)
  pub outcome :
      ((find_file id (files h t) ≡ none) × (out ≡ inl (file_does_not_exist id)))
      ⊎ ((f : FileNode) × (find_file id (files h t) ≡ some f) × (f.id ≡ id) × (out ≡ inr f))

module _ (lim : Limits) (even : IsEven lim) (two_files : 2 ≤ lim.leave_max_file_count / 2)
    (t : MemTree) (id : ℕ) where
  abbrev Deletes : ℕ → MemTreeNode → Type 0
  Deletes h n =
      (out : MemTreeError ⊎ FileNode) × (t' : MemTree) × (delete lim (suc h) (record t { root = n })
          id
        ≡ ok (out, t'))
      × Deleted lim h (record t { root = n }) id out t'

  at_leave : (n : MemTreeNode) → Valid lim 0 none 0 u64_max n → Deletes 0 n
  at_leave n v = elim (delete_in_leave-Removed lim id t.next none 0 u64_max n v) [
    | inl (free, run) ↦ (
      inl (file_does_not_exist id),
      record t { root = n },
      rw (run, delete) refl,
      record {
        height = 0;
        shrinks = inl refl;
        valid = v;
        kept = sym (without-free id (contents 0 n) free);
        outcome = inl (free, refl);
      },
    )
    | inr (f, n', r) ↦ (
      inr f,
      record t { root = n'; next = t.next + 1 },
      rw (r.run, delete) (rw (or_true (leb (lim.leave_max_file_count / 2) (len n'))) refl),
      record {
        height = 0;
        shrinks = inl refl;
        valid = r.valid 0 u64_max refl v;
        kept = r.rest;
        outcome = inr (f, r.found, r.named, refl);
      },
    )
  ]

  module _ (a : ℕ) (ls : Links) (d dc : Bool)
      (ranges : Ranges (Valid lim 0 (some a)) 0 u64_max (to_list ls))
      (few : length (to_list ls) ≤ lim.node_max_child_count) (many : 2 ≤ length (to_list ls))
      (above : 0 < id) (below : id ≤ u64_max) where
    step : Routed (Valid lim 0 (some a)) id 0 u64_max (to_list ls)
    step =
        route-Routed (Valid lim 0 (some a)) (contents 0) (Valid-Span lim 0 (some a)) id 0 u64_max
          (to_list ls) ranges above below (omega arith)

    -- The root over the children `cs`.
    root-Valid :
        (cs : List Child) (dc' : Bool)
        → Ranges (Valid lim 0 (some a)) 0 u64_max cs
        → length cs ≡ length (to_list ls)
        → Valid lim 1 none 0 u64_max (node a none (from_list cs) d dc')
          × (contents 1 (node a none (from_list cs) d dc') ≡ concat (contents 0) cs)
    unfolding Valid contents
    root-Valid cs dc' r e = (
      (
        refl,
        subst (Ranges (Valid lim 0 (some a)) 0 u64_max) (sym (to_list-from_list cs)) r,
        omega (arith, ap length (to_list-from_list cs)),
        omega (arith, ap length (to_list-from_list cs)),
        tt,
      ),
      ap (concat (contents 0)) (to_list-from_list cs),
    )

    found_below :
        find_file id (concat (contents 0) (to_list ls))
        ≡ find_file id (contents 0 step.child.content)
    found_below =
        Focus-find_file (Valid lim 0 (some a)) (contents 0) (Valid-Span lim 0 (some a)) step.below
          step.focus

    -- What the root does with the deletion in the leave.
    below_root :
        (r : Deletion)
        → delete_below lim (t.next) id 1 step.child.content ≡ ok r
        → delete lim 2 (record t { root = node a none ls d dc }) id ≡ (
            after_deletion lim (t.next + 1) step.index step.child a none (to_list ls) d r
            >>= after_delete 2 (record t { root = node a none ls d dc }) id)
    unfolding delete_below
    below_root r e =
        ap (λ o. o >>= after_delete 2 (record t { root = node a none ls d dc }) id) opened
      where
        opened :
            delete_below lim t.next id 2 (node a none ls d dc)
            ≡ after_deletion lim (t.next + 1) step.index step.child a none (to_list ls) d r
        opened =
            rw (step.routed, delete_below) (rw (step.at_index, delete_below) (rw (e, ◌>>=◌) refl))

    at_missing :
        find_file id (contents 0 step.child.content) ≡ none
        → delete_below lim t.next id 1 step.child.content ≡ ok (missing step.child.content)
        → Deletes 1 (node a none ls d dc)
    unfolding contents
    at_missing free run =
        let (valid, same) = root-Valid (to_list ls) true ranges refl in
        (
          inl (file_does_not_exist id),
          record t { root = node a none (from_list (to_list ls)) d true },
          below_root (missing step.child.content) run
              ∙ rw (set-same (to_list ls) step.index step.child step.at_index) refl,
          record {
            height = 1;
            shrinks = inl refl;
            valid = valid;
            kept =
                same
                ∙ sym (without-free id (concat (contents 0) (to_list ls)) (found_below ∙ free));
            outcome = inl (found_below ∙ free, refl);
          },
        )

    module _ (f : FileNode) (n : MemTreeNode)
        (r : Removed lim id t.next (some a) step.child.content f n) where
      abbrev rest : List Child
      rest = set (to_list ls) step.index (record step.child { content = n })

      rest-files : concat (contents 0) rest ≡ without id (concat (contents 0) (to_list ls))
      rest-files =
          Focus-without (Valid lim 0 (some a)) (contents 0) (Valid-Span lim 0 (some a)) step.below n
            r.rest step.focus

      fits : same_address (get_parent n) (some a) ≡ true
      fits = same_some n a r.parent_kept

      old_leave :
          Loose lim a step.low step.high step.child.content
          × (lim.leave_max_file_count / 2 ≤ len step.child.content)
          × (cap_of lim step.child.content ≡ lim.leave_max_file_count)
      old_leave =
          Valid-Loose lim even two_files a t.next step.low step.high step.child.content step.held

      loose : Loose lim a step.low step.high n
      loose = r.looser a step.low step.high old_leave.0

      run_at :
          (b : Bool)
          → not (leb (lim.leave_max_file_count / 2) (len n) || false) ≡ b
          → delete_below lim t.next id 1 step.child.content ≡ ok (removed f n b)
      run_at b e = r.run ∙ ap (λ x. ok (removed f n x)) e

      at_balanced : lim.leave_max_file_count / 2 ≤ len n → Deletes 1 (node a none ls d dc)
      unfolding contents
      at_balanced enough =
          let (valid, same) = root-Valid rest true held (length-set (to_list ls) step.index _) in
          (
            inr f,
            record t { root = node a none (from_list rest) d true; next = t.next + 2 },
            below_root (removed f n false) (run_at false (rw (le→leb _ _ enough) refl)),
            record {
              height = 1;
              shrinks = inl refl;
              valid = valid;
              kept = same ∙ rest-files;
              outcome = inr (f, found_below ∙ r.found, r.named, refl);
            },
          )
        where
          held : Ranges (Valid lim 0 (some a)) 0 u64_max rest
          held =
              replace-Ranges (Valid lim 0 (some a)) (contents 0) (Valid-Span lim 0 (some a)) f n
                (subst
                  (λ k.
                    Focus (Valid lim 0 (some a)) k 0 u64_max (to_list ls) step.index step.low
                      step.high step.child)
                  (sym r.named) step.focus)
                (Loose-Valid lim even two_files a t.next step.low step.high n loose
                  (omega (arith, len-contents lim a step.low step.high n loose)))

      at_unbalanced : len n < lim.leave_max_file_count / 2 → Deletes 1 (node a none ls d dc)
      unfolding contents
      at_unbalanced short = whole (
          rebalance-Balanced lim even two_files a (t.next + 1) 0 u64_max (to_list ls) step.index
            step.child n ranges many step.at_index (r.looser a) short
            (omega (arith, r.fewer, old_leave.1)))
        where
          opened :
              (cs : List Child) (m : Bool)
              → rebalance lim (t.next + 1) none rest step.index ≡ ok (cs, m)
              → delete lim 2 (record t { root = node a none ls d dc }) id
                ≡ after_delete 2
                    (record t { root = node a none ls d dc })
                    id
                    (removed f (node a none (from_list cs) d true) m)
          opened cs m run =
              below_root (removed f n true) (run_at true (ground arith))
              ∙ rw (fits) (rw (run, ◌>>=◌) refl)

          whole :
              Balanced lim even two_files a
                (t.next + 1)
                0
                u64_max
                rest
                (rebalance lim (t.next + 1) none rest step.index)
              → Deletes 1 (node a none ls d dc)
          whole (cs, m, run, held, same, inl (alone, count)) =
              let (valid, as_list) =
                root-Valid cs true held (count ∙ length-set (to_list ls) step.index _) in
              (
                inr f,
                record t { root = node a none (from_list cs) d true; next = t.next + 2 },
                opened cs m run ∙ rw (alone) refl,
                record {
                  height = 1;
                  shrinks = inl refl;
                  valid = valid;
                  kept = as_list ∙ same ∙ rest-files;
                  outcome = inr (f, found_below ∙ r.found, r.named, refl);
                },
              )
          whole (cs, m, run, held, same, inr (alone, count)) =
              let (t', height, promoted, low, valid, as_list) =
                promote-Valid lim (record t { next = t.next + 2; root = node a none ls d dc }) a cs
                  d true held (omega (arith, count ∙ length-set (to_list ls) step.index _)) in
              (
                inr f,
                t',
                opened cs m run ∙ rw (alone) (rw (promoted, ◌>>=◌) refl),
                record {
                  height = height;
                  shrinks = ground arith;
                  valid = valid;
                  kept = as_list ∙ same ∙ rest-files;
                  outcome = inr (f, found_below ∙ r.found, r.named, refl);
                },
              )

    at_node : Deletes 1 (node a none ls d dc)
    at_node =
        elim (delete_in_leave-Removed lim id t.next (some a) step.low step.high step.child.content
          step.held) [
            | inl (free, run) ↦ at_missing free run
            | inr (f, n, r) ↦ elim (Bool-cases (leb (lim.leave_max_file_count / 2) (len n))) [
              | inl enough ↦ at_balanced f n r (ground arith)
              | inr short ↦ at_unbalanced f n r (ground arith)
            ]
          ]

  at_root : (n : MemTreeNode) → Valid lim 1 none 0 u64_max n → 0 < id → id ≤ u64_max → Deletes 1 n
  unfolding Valid
  at_root (leave a p fs d) v above below = absurd v
  at_root (node a p ls d dc) v above below =
      subst (λ q. Deletes 1 (node a q ls d dc)) (sym v.0)
        (at_node a ls d dc v.1 v.2 v.3 above below)

  -- With even limits and at least two files in half a leave, on a valid tree that is a leave or a
  -- root over leaves, `delete` of an id from 1 to the largest `u64`, with fuel for its height,
  -- never panics: the new tree is valid, of the same height or one less, and holds the files of the
  -- old one without the one that has the id. It returns that file, or, exactly if the tree has
  -- none, the error that the file does not exist.
  pub delete-Deleted :
      (h : ℕ)
      → h ≤ 1
      → IsValid lim h t
      → 0 < id
      → id ≤ u64_max
      → (out : MemTreeError ⊎ FileNode) × (t' : MemTree) × (delete lim (suc h) t id ≡ ok (out, t'))
        × Deleted lim h t id out t'
  delete-Deleted zero low v above below = at_leave t.root v
  delete-Deleted (suc zero) low v above below = at_root t.root v above below
  delete-Deleted (suc (suc h)) low v above below = absurd (omega arith)
