-- ===== src/MemTree/Sorted.antt =====
-- Lists of files in the order of their ids, and what the search in them finds.
use wasabi_os.Prelude.{
  ℕ, suc, ◌≤◌, ◌<◌, ◌≡◌, refl, sym, subst, ◌⊎◌, inl, inr, Bool-cases, Option-cases, none, some,
  List, [], ◌∷◌, ◌++◌, length, get_elem?, set, insert_at, ltb, ◌==◌, if◌then◌else◌, arith,
}
use wasabi_os.MemTree.{FileNode, find_file, position_of, position_behind, last}

-- The ids grow, lie above `lo`, and do not exceed `hi`.
abbrev pub Span : ℕ → ℕ → List FileNode → Type 0
Span lo hi [] = lo ≤ hi
Span lo hi (f ∷ fs) = (lo < f.id) × Span f.id hi fs

pub Span-le : (lo hi : ℕ) (fs : List FileNode) → Span lo hi fs → lo ≤ hi
Span-le lo hi [] s = s
Span-le lo hi (f ∷ fs) s = ground (arith, Span-le f.id hi fs)

pub Span-lower : (lo lo' hi : ℕ) (fs : List FileNode) → lo' ≤ lo → Span lo hi fs → Span lo' hi fs
Span-lower lo lo' hi [] le s = omega arith
Span-lower lo lo' hi (f ∷ fs) le s = (omega (arith, s.0), s.1)

pub Span-upper : (lo hi hi' : ℕ) (fs : List FileNode) → hi ≤ hi' → Span lo hi fs → Span lo hi' fs
Span-upper lo hi hi' [] le s = omega arith
Span-upper lo hi hi' (f ∷ fs) le s = (s.0, Span-upper f.id hi hi' fs le s.1)

pub Span-append :
    (lo m hi : ℕ) (xs ys : List FileNode) → Span lo m xs → Span m hi ys → Span lo hi (xs ++ ys)
Span-append lo m hi [] ys s t = Span-lower m lo hi ys s t
Span-append lo m hi (x ∷ xs) ys s t = (s.0, Span-append x.id m hi xs ys s.1 t)

-- A list is cut behind any of its files.
pub Span-cut :
    (lo hi : ℕ) (xs ys : List FileNode) (l : FileNode)
    → Span lo hi (xs ++ ys)
    → last xs ≡ some l
    → Span lo l.id xs × Span l.id hi ys
Span-cut lo hi [] ys l s e = cc
Span-cut lo hi (x ∷ []) ys l s e = (ground arith, ground arith)
Span-cut lo hi (x ∷ y ∷ xs) ys l s e =
    let (before, after) = Span-cut x.id hi (y ∷ xs) ys l s.1 e in ((s.0, before), after)

-- No file has an id outside the range.
pub find_file-outside :
    (lo hi id : ℕ) (fs : List FileNode)
    → Span lo hi fs
    → (id ≤ lo) ⊎ (hi < id)
    → find_file id fs ≡ none
find_file-outside lo hi id [] s out = refl
find_file-outside lo hi id (f ∷ fs) s (inl low) =
    ground (arith, find_file-outside f.id hi id fs s.1)
find_file-outside lo hi id (f ∷ fs) s (inr high) =
    ground (arith, Span-le f.id hi fs s.1, find_file-outside f.id hi id fs s.1)

pub find_file-append :
    (id : ℕ) (xs ys : List FileNode)
    → find_file id (xs ++ ys) ≡ elim (find_file id xs) [ none ↦ find_file id ys | some f ↦ some f ]
find_file-append id [] ys = refl
find_file-append id (x ∷ xs) ys = ground (arith, find_file-append id xs ys)

-- `fs'` holds what `fs` holds, and `f` under its id.
abbrev pub Puts : FileNode → List FileNode → List FileNode → Type 0
Puts f fs fs' = (id : ℕ) → find_file id fs' ≡ (if f.id == id then some f else find_file id fs)

pub Puts-append :
    (f : FileNode) (xs xs' ys : List FileNode) → Puts f xs xs' → Puts f (xs ++ ys) (xs' ++ ys)
Puts-append f xs xs' ys p id =
    ground (arith, p id, find_file-append id xs ys, find_file-append id xs' ys)

pub Puts-behind :
    (f : FileNode) (xs ys ys' : List FileNode)
    → find_file f.id xs ≡ none
    → Puts f ys ys'
    → Puts f (xs ++ ys) (xs ++ ys')
Puts-behind f xs ys ys' free p id =
    ground (arith, p id, find_file-append id xs ys, find_file-append id xs ys')

-- The position of an id tells whether the search finds it.
pub position_of-find_file :
    (id : ℕ) (fs : List FileNode)
    → ((position_of id fs ≡ none) × (find_file id fs ≡ none))
      ⊎ ((i : ℕ) × (f : FileNode) × (position_of id fs ≡ some i)
          × (get_elem? fs i ≡ some f)
          × (find_file id fs ≡ some f)
          × (f.id ≡ id))
position_of-find_file id [] = inl (refl, refl)
position_of-find_file id (f ∷ fs) = elim (Bool-cases (f.id == id)) [
  | inl same ↦ inr (0, f, ground arith, ground arith, ground arith, ground arith)
  | inr other ↦ elim (position_of-find_file id fs) [
    | inl (p, q) ↦ inl (ground arith)
    | inr (i, g, p, at_i, q, e) ↦
        inr (suc i, g, ground arith, ground arith, ground arith, ground arith)
  ]
]

-- A new file at its position.
pub insert_at-Puts :
    (lo hi : ℕ) (f : FileNode) (fs : List FileNode)
    → Span lo hi fs
    → find_file f.id fs ≡ none
    → lo < f.id
    → f.id ≤ hi
    → Span lo hi (insert_at (position_behind f.id fs) f fs)
      × Puts f fs (insert_at (position_behind f.id fs) f fs)
insert_at-Puts lo hi f [] s free above below = ((above, below), λ id. refl)
insert_at-Puts lo hi f (g ∷ gs) s free above below = elim (Bool-cases (ltb f.id g.id)) [
  | inl front ↦ rw (front) ((above, (ground arith, s.1)), λ id. refl)
  | inr later ↦ rw (later) (
      let (spans, puts) = insert_at-Puts g.id hi f gs s.1 (ground arith) (ground arith) below in
      ((s.0, spans), λ id. ground (arith, puts id)))
]

-- A file in place of the one with its id.
pub set-Puts :
    (lo hi : ℕ) (f : FileNode) (fs : List FileNode) (i : ℕ)
    → Span lo hi fs
    → position_of f.id fs ≡ some i
    → Span lo hi (set fs i f) × Puts f fs (set fs i f)
set-Puts lo hi f [] i s e = cc
set-Puts lo hi f (g ∷ gs) i s e = elim (Bool-cases (g.id == f.id)) [
  | inl same ↦ here (ground arith) (ground arith)
  | inr other ↦ elim (Option-cases (position_of f.id gs)) [
    | inl missing ↦ absurd (ground arith)
    | inr (j, found) ↦
        let (spans, puts) = set-Puts g.id hi f gs j s.1 found in there j (ground arith) spans puts
  ]
]
  where
    Goal : ℕ → Type 0
    Goal k = Span lo hi (set (g ∷ gs) k f) × Puts f (g ∷ gs) (set (g ∷ gs) k f)

    here : g.id ≡ f.id → i ≡ 0 → Goal i
    here same at_0 =
        subst Goal (sym at_0)
          ((ground arith, subst (λ k. Span k hi gs) same s.1), λ id. ground arith)

    there : (j : ℕ) → i ≡ suc j → Span g.id hi (set gs j f) → Puts f gs (set gs j f) → Goal i
    there j at_j spans puts = subst Goal (sym at_j) ((s.0, spans), λ id. ground (arith, puts id))

pub position_behind-le : (id : ℕ) (fs : List FileNode) → position_behind id fs ≤ length fs
position_behind-le id [] = omega arith
position_behind-le id (f ∷ fs) = ground (arith, position_behind-le id fs)
