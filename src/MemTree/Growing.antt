-- ===== src/MemTree/Growing.antt =====
-- The insertion into the whole tree, whose root may split, and what the search finds after it.
use wasabi_os.Prelude.{
  ℕ, zero, suc, ◌+◌, ◌≤◌, ◌<◌, ◌≡◌, refl, sym, ◌∙◌, ap, ◌≢◌, ◌⊎◌, inl, inr, Bool, true, Option,
  none, some, List, [], ◌++◌, append-nil, ◌==◌, if◌then◌else◌, arith, u64_max, ok, ◌>>=◌,
}
use wasabi_os.MemTree.{
  Limits, FileNode, MemTreeError, file_node_exists, MemTreeNode, node, leave, end, link, MemTree,
  empty, find_file, get_parent, with_parent, Insertion, finished, split, same_address, find,
  after_root, insert_file,
}
use wasabi_os.MemTree.Sorted.{Puts}
use wasabi_os.MemTree.Valid.{IsEven, Valid, contents}
use wasabi_os.MemTree.Finding.{find-contents}
use wasabi_os.MemTree.Splitting.{Inserted}
use wasabi_os.MemTree.Inserting.{HasRoom, insert-Inserted}

-- The tree of height `h`.
abbrev pub IsValid : Limits → ℕ → MemTree → Type 0
IsValid lim h t = Valid lim h none 0 u64_max t.root

-- The files of the tree.
abbrev pub files : ℕ → MemTree → List FileNode
files h t = contents h t.root

pub empty-IsValid : (lim : Limits) → IsValid lim 0 empty
unfolding Valid
empty-IsValid lim = (refl, omega arith, omega arith, tt)

-- The file is in the tree, which may have a new root; or it was refused, and the files are as before.
pub record Stored (lim : Limits) (h : ℕ) (t : MemTree) (file : FileNode) (create_only : Bool)
    (e : Option MemTreeError) (t' : MemTree) : Type 0 where
  pub height : ℕ
  pub grows : (height ≡ h) ⊎ (height ≡ suc h)
  pub valid : IsValid lim height t'
  pub outcome :
      ((e ≡ none)
        × (create_only ≡ true → find_file file.id (files h t) ≡ none)
        × Puts file (files h t) (files height t'))
      ⊎ ((e ≡ some (file_node_exists file.id))
          × (create_only ≡ true)
          × (find_file file.id (files h t) ≢ none)
          × (files height t' ≡ files h t))

contents-with_parent :
    (h : ℕ) (q : Option ℕ) (n : MemTreeNode) → contents h (with_parent q n) ≡ contents h n
unfolding contents
contents-with_parent zero q (node a p ls d dc) = refl
contents-with_parent zero q (leave a p fs d) = refl
contents-with_parent (suc h) q (node a p ls d dc) = refl
contents-with_parent (suc h) q (leave a p fs d) = refl

same_none : (n : MemTreeNode) → get_parent n ≡ none → same_address (get_parent n) none ≡ true
same_none n e = ground arith

module _ (lim : Limits) (even : IsEven lim) (h : ℕ) (t : MemTree) (file : FileNode)
    (create_only : Bool) where
  after_root-Stored :
      (r : Insertion) (k : ℕ)
      → Inserted lim create_only h none 0 u64_max file t.root r
      → (e : Option MemTreeError) × (t' : MemTree) × (after_root t (r, k) ≡ ok (e, t'))
        × Stored lim h t file create_only e t'
  unfolding Valid contents
  after_root-Stored (finished none n) k (new, v, puts) = (
    none,
    record t { root = n; next = k },
    refl,
    record { height = h; grows = inl refl; valid = v; outcome = inl (refl, new, puts) },
  )
  after_root-Stored (finished (some e) n) k (named, strict, present, v, same) = (
    some e,
    record t { root = n; next = k },
    refl,
    record {
      height = h;
      grows = inl refl;
      valid = v;
      outcome = inr (ap some named, strict, present, same);
    },
  )
  after_root-Stored (split old m new new_max) k parts = (
    none,
    record {
      root =
          node k none
            (link (with_parent (some k) old) none (some m)
              (link (with_parent (some k) new) none none end))
            true true;
      root_device_ptr = none;
      next = k + 1;
    },
    rw (same_none old parts.old_parent) refl,
    record {
      height = suc h;
      grows = inr refl;
      valid = (
        refl,
        (m, refl, parts.old_valid k, (refl, parts.new_last k)),
        omega (arith, even.node_even, even.node_room),
        omega arith,
        tt,
      );
      outcome = inl (refl, (λ c. parts.absent), both);
    },
  )
    where
      both :
          Puts file
            (contents h t.root)
            (contents h (with_parent (some k) old) ++ (contents h (with_parent (some k) new) ++ []))
      both =
          rw (contents-with_parent h (some k) old)
            (rw (contents-with_parent h (some k) new) (rw (append-nil (contents h new)) parts.puts))

  -- With even limits, on a valid tree of height `h` whose nodes above the leaves have room on the
  -- way to the id of the file, which lies from 1 to the largest `u64`, `insert_file` with fuel `h +
  -- 1` never panics: the new tree is valid, of height `h` or `h + 1`. Either there is no error, the
  -- file was absent if only a creation was asked for, and the tree holds the file under its id and
  -- under any other id what it held; or the file is refused as existing, only if a creation was
  -- asked for and the id was in the tree, whose files are as before.
  pub insert_file-Stored :
      IsValid lim h t
      → HasRoom lim h file.id t.root
      → 0 < file.id
      → file.id ≤ u64_max
      → (e : Option MemTreeError) × (t' : MemTree) × (insert_file lim (suc h) t file create_only
          ≡ ok (e, t'))
        × Stored lim h t file create_only e t'
  insert_file-Stored valid room above below =
      let (r, k, e, ins) =
        insert-Inserted lim create_only file h none 0 u64_max t.root t.next even valid room above
          below (omega arith) in
      let (error, t', e', stored) = after_root-Stored r k ins in
      (error, t', rw (e, ◌>>=◌) e', stored)

  -- Under the conditions of an insertion (even limits, a valid tree of height `h`, room on the way,
  -- an id from 1 to the largest `u64`), `insert_file` returns no error or that the file exists.
  -- After an insertion without an error, `find` of any id from 1 to the largest `u64` returns the
  -- new file for its id and for another what it returned before; after the error it returns for
  -- every such id what it returned before.
  pub find-insert_file :
      IsValid lim h t
      → HasRoom lim h file.id t.root
      → 0 < file.id
      → file.id ≤ u64_max
      → (e : Option MemTreeError) × (t' : MemTree) × (h' : ℕ) × (insert_file lim
            (suc h)
            t
            file
            create_only
          ≡ ok (e, t'))
        × ((e ≡ none) ⊎ (e ≡ some (file_node_exists file.id)))
        × ((id : ℕ)
            → 0 < id
            → id ≤ u64_max
            → find (suc h') t'.root id ≡ (elim e [
              | none ↦ if file.id == id then ok (some file) else find (suc h) t.root id
              | some _ ↦ find (suc h) t.root id
            ]))
  find-insert_file valid room above below =
      let (e, t', run, stored) = insert_file-Stored valid room above below in
      (
        e,
        t',
        stored.height,
        run,
        errors e t' stored,
        λ id pos small. searched e t' stored id pos small,
      )
    where
      errors :
          (e : Option MemTreeError) (t' : MemTree)
          → Stored lim h t file create_only e t'
          → (e ≡ none) ⊎ (e ≡ some (file_node_exists file.id))
      errors e t' stored = elim stored.outcome [ inl o ↦ inl o.0 | inr o ↦ inr o.0 ]

      before :
          (id : ℕ) → 0 < id → id ≤ u64_max → find (suc h) t.root id ≡ ok (find_file id (files h t))
      before id pos small =
          find-contents lim h none 0 u64_max id t.root valid pos small (omega arith)

      searched :
          (e : Option MemTreeError) (t' : MemTree) (stored : Stored lim h t file create_only e t')
          (id : ℕ)
          → 0 < id
          → id ≤ u64_max
          → find (suc stored.height) t'.root id ≡ (elim e [
            | none ↦ if file.id == id then ok (some file) else find (suc h) t.root id
            | some _ ↦ find (suc h) t.root id
          ])
      searched e t' stored id pos small =
          find-contents lim stored.height none 0 u64_max id t'.root stored.valid pos small
            (omega arith)
          ∙ by_outcome e stored.outcome
        where
          by_outcome :
              (o : Option MemTreeError)
              → ((o ≡ none)
                  × (create_only ≡ true → find_file file.id (files h t) ≡ none)
                  × Puts file (files h t) (files stored.height t'))
                ⊎ ((o ≡ some (file_node_exists file.id))
                    × (create_only ≡ true)
                    × (find_file file.id (files h t) ≢ none)
                    × (files stored.height t' ≡ files h t))
              → ok (find_file id (files stored.height t')) ≡ (elim o [
                | none ↦ if file.id == id then ok (some file) else find (suc h) t.root id
                | some _ ↦ find (suc h) t.root id
              ])
          by_outcome none (inl (none_e, new, puts)) = ground (arith, puts id, before id pos small)
          by_outcome none (inr (some_e, strict, present, same)) = cc
          by_outcome (some x) (inl (none_e, new, puts)) = cc
          by_outcome (some x) (inr (some_e, strict, present, same)) =
              ap (λ fs. ok (find_file id fs)) same ∙ sym (before id pos small)
