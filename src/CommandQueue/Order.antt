-- ===== src/CommandQueue/Order.antt =====
-- wasabi-kernel/src/pci/nvme/queue.rs: the order of `completions`, and the search in it.
use wasabi_os.Prelude.{
  ℕ, zero, suc, ◌≤◌, ◌<◌, ◌≡◌, ◌≢◌, refl, sym, ◌∙◌, subst, ◌↔◌, ◌⊎◌, inl, inr, some, List, [], ◌∷◌,
  Bool-cases, ltb, ◌==◌, insert_at, remove_at, get_elem?, arith,
}
use wasabi_os.CommandQueue.{CommonCompletionEntry, Position, at, gap, later, position}

-- Every identifier of the list is larger.
abbrev pub Above : ℕ → List CommonCompletionEntry → Type 0
Above k [] = Unit {0}
Above k (c ∷ cs) = k < c.command_ident × Above k cs

-- The identifiers increase: the list is sorted, and no identifier is in it twice.
abbrev pub IsSorted : List CommonCompletionEntry → Type 0
IsSorted [] = Unit {0}
IsSorted (c ∷ cs) = Above c.command_ident cs × IsSorted cs

-- The list holds the entry.
abbrev pub Holds : List CommonCompletionEntry → CommonCompletionEntry → Type 0
Holds [] e = ⊥
Holds (c ∷ cs) e = (c ≡ e) ⊎ Holds cs e

abbrev pub HasIdent : List CommonCompletionEntry → ℕ → Type 0
HasIdent cs k = (e : CommonCompletionEntry) × Holds cs e × (e.command_ident ≡ k)

Above-less : (k m : ℕ) (cs : List CommonCompletionEntry) → k ≤ m → Above m cs → Above k cs
Above-less k m [] le a = tt
Above-less k m (c ∷ cs) le a = (omega (arith, a.0), Above-less k m cs le a.1)

pub Above-Holds :
    (k : ℕ) (cs : List CommonCompletionEntry) (e : CommonCompletionEntry)
    → Above k cs
    → Holds cs e
    → k < e.command_ident
Above-Holds k [] e a h = absurd h
Above-Holds k (c ∷ cs) e a (inl same) = ground (arith, a.0)
Above-Holds k (c ∷ cs) e a (inr h) = Above-Holds k cs e a.1 h

Above-insert :
    (k i : ℕ) (c : CommonCompletionEntry) (cs : List CommonCompletionEntry)
    → k < c.command_ident
    → Above k cs
    → Above k (insert_at i c cs)
Above-insert k zero c cs lt a = (lt, a)
Above-insert k (suc i) c [] lt a = (lt, tt)
Above-insert k (suc i) c (d ∷ ds) lt a = (a.0, Above-insert k i c ds lt a.1)

Above-remove : (k i : ℕ) (cs : List CommonCompletionEntry) → Above k cs → Above k (remove_at i cs)
Above-remove k i [] a = tt
Above-remove k zero (c ∷ cs) a = a.1
Above-remove k (suc i) (c ∷ cs) a = (a.0, Above-remove k i cs a.1)

pub remove_at-IsSorted :
    (i : ℕ) (cs : List CommonCompletionEntry) → IsSorted cs → IsSorted (remove_at i cs)
remove_at-IsSorted i [] s = tt
remove_at-IsSorted zero (c ∷ cs) s = s.1
remove_at-IsSorted (suc i) (c ∷ cs) s =
    (Above-remove c.command_ident i cs s.0, remove_at-IsSorted i cs s.1)

-- What the search answers on a sorted list.
abbrev pub Located : ℕ → List CommonCompletionEntry → Position → Type 0
Located k cs (at i) =
    (e : CommonCompletionEntry) × (get_elem? cs i ≡ some e) × (e.command_ident ≡ k)
Located k cs (gap i) =
    ((e : CommonCompletionEntry) → Holds cs e → e.command_ident ≢ k)
    × ((e : CommonCompletionEntry) → e.command_ident ≡ k → IsSorted (insert_at i e cs))

later-Located :
    (k : ℕ) (c : CommonCompletionEntry) (cs : List CommonCompletionEntry) (p : Position)
    → c.command_ident < k
    → Above c.command_ident cs
    → Located k cs p
    → Located k (c ∷ cs) (later p)
later-Located k c cs (at i) lt a l = l
later-Located k c cs (gap i) lt a (missing, sorted) = (
  λ e h. elim h [ inl same ↦ λ is. absurd (ground (arith, lt)) | inr held ↦ missing e held ],
  λ e is. (Above-insert c.command_ident i e cs (omega (arith, lt, is)) a, sorted e is),
)

head-Located :
    (k : ℕ) (c : CommonCompletionEntry) (cs : List CommonCompletionEntry)
    → k < c.command_ident
    → IsSorted (c ∷ cs)
    → Located k (c ∷ cs) (gap 0)
head-Located k c cs lt s = (
  λ e h is. elim h [
    | inl same ↦ absurd (ground (arith, lt))
    | inr held ↦ absurd (omega (arith, Above-Holds c.command_ident cs e s.0 held))
  ],
  λ e is. (
    (
      omega (arith, lt, is),
      Above-less e.command_ident c.command_ident cs (omega (arith, lt, is)) s.0,
    ),
    s,
  ),
)

pub position-Located :
    (k : ℕ) (cs : List CommonCompletionEntry) → IsSorted cs → Located k cs (position k cs)
unfolding position
position-Located k [] s = (λ e h. absurd h, λ e is. (tt, tt))
position-Located k (c ∷ cs) s = elim (Bool-cases (c.command_ident == k)) [
  | inl same ↦
      let first : position k (c ∷ cs) ≡ at 0 = rw (same, position) in
      subst (Located k (c ∷ cs)) (sym first) (c, refl, ground arith)
  | inr other ↦ elim (Bool-cases (ltb k c.command_ident)) [
    | inl less ↦
        let front : position k (c ∷ cs) ≡ gap 0 = rw (other, less, position) in
        subst (Located k (c ∷ cs)) (sym front) (head-Located k c cs (ground arith) s)
    | inr more ↦
        let past : position k (c ∷ cs) ≡ later (position k cs) = rw (other, more, position) in
        subst (Located k (c ∷ cs)) (sym past)
          (later-Located k c cs (position k cs) (ground arith) s.0 (position-Located k cs s.1))
  ]
]

-- An inserted entry is held, and the others stay.
pub Holds-insert :
    (i : ℕ) (c e : CommonCompletionEntry) (cs : List CommonCompletionEntry)
    → Holds (insert_at i c cs) e ↔ ((c ≡ e) ⊎ Holds cs e)
Holds-insert zero c e cs = (λ h. h, λ h. h)
Holds-insert (suc i) c e [] = (λ h. h, λ h. h)
Holds-insert (suc i) c e (d ∷ ds) = (
  λ h. elim h [
    | inl first ↦ inr (inl first)
    | inr rest ↦ elim ((Holds-insert i c e ds).0 rest) [
      | inl new ↦ inl new
      | inr old ↦ inr (inr old)
    ]
  ],
  λ h. elim h [
    | inl new ↦ inr ((Holds-insert i c e ds).1 (inl new))
    | inr old ↦ elim old [
      | inl first ↦ inl first
      | inr rest ↦ inr ((Holds-insert i c e ds).1 (inr rest))
    ]
  ],
)

pub get_elem?-Holds :
    (cs : List CommonCompletionEntry) (i : ℕ) (e : CommonCompletionEntry)
    → get_elem? cs i ≡ some e
    → Holds cs e
get_elem?-Holds [] i e found = cc
get_elem?-Holds (c ∷ cs) zero e found = inl cc
get_elem?-Holds (c ∷ cs) (suc i) e found = inr (get_elem?-Holds cs i e found)

-- Taking an entry out of a sorted list leaves the entries with other identifiers.
pub Holds-remove :
    (i : ℕ) (cs : List CommonCompletionEntry) (e d : CommonCompletionEntry)
    → IsSorted cs
    → get_elem? cs i ≡ some e
    → Holds (remove_at i cs) d ↔ (Holds cs d × d.command_ident ≢ e.command_ident)
Holds-remove i [] e d s found = cc
Holds-remove zero (c ∷ cs) e d s found = (
  λ h. (inr h, λ is. ground (arith, Above-Holds c.command_ident cs d s.0 h)),
  λ both. elim (both.0) [ inl first ↦ absurd (ground (arith, both.1)) | inr rest ↦ rest ],
)
Holds-remove (suc i) (c ∷ cs) e d s found =
    let (out, back) = Holds-remove i cs e d s.1 found in
    (
      λ h. elim h [
        | inl first ↦ (
          inl first,
          λ is. ground (arith, Above-Holds c.command_ident cs e s.0 (get_elem?-Holds cs i e found)),
        )
        | inr rest ↦ (inr (out rest).0, (out rest).1)
      ],
      λ both. elim (both.0) [ inl first ↦ inl first | inr rest ↦ inr (back (rest, both.1)) ],
    )

pub Holds-unique :
    (cs : List CommonCompletionEntry) (d e : CommonCompletionEntry)
    → IsSorted cs
    → Holds cs d
    → Holds cs e
    → d.command_ident ≡ e.command_ident
    → d ≡ e
Holds-unique [] d e s hd he same = absurd hd
Holds-unique (c ∷ cs) d e s (inl p) (inl q) same = sym p ∙ q
Holds-unique (c ∷ cs) d e s (inl p) (inr h) same =
    absurd (ground (arith, Above-Holds c.command_ident cs e s.0 h))
Holds-unique (c ∷ cs) d e s (inr h) (inl q) same =
    absurd (ground (arith, Above-Holds c.command_ident cs d s.0 h))
Holds-unique (c ∷ cs) d e s (inr h) (inr k) same = Holds-unique cs d e s.1 h k same
