-- ===== src/MemTree/Deleting/Choosing.antt =====
-- A child that is short of files finds a neighbour to take one from, or to merge with.
use wasabi_os.Prelude.{
  ℕ, zero, suc, ◌+◌, ◌-◌, ◌/◌, ◌≤◌, ◌<◌, ◌≡◌, refl, sym, ◌∙◌, ap, ◌⊎◌, inl, inr, Bool, true, false,
  ◌||◌, Bool-cases, le→leb, none, some, List, [], ◌∷◌, length, get_elem?, get_elem?-lt,
  get_elem?-below, ltb, ◌==◌, arith, ok,
}
use wasabi_os.MemTree.{Limits, Child}
use wasabi_os.MemTree.Deleting.{
  len, cap_of, Variant, merge, take_from_right, take_from_left, to_check, admits, first_admitted,
  get_children_for_rebalance,
}

or_true : (b : Bool) → (b || true) ≡ true
or_true true = refl
or_true false = refl

module _ (lim : Limits) where
  abbrev pub half : ℕ
  half = lim.leave_max_file_count / 2

  -- What makes a variant fit for the child `i`.
  abbrev pub Fits : List Child → ℕ → Variant → Type 0
  Fits cs i take_from_right = (r : Child) × (get_elem? cs (suc i) ≡ some r) × (half < len r.content)
  Fits cs i take_from_left =
      (j : ℕ) × (l : Child) × (i ≡ suc j) × (get_elem? cs j ≡ some l) × (half < len l.content)
  Fits cs i (merge k) =
      (l : Child) × (r : Child) × (get_elem? cs k ≡ some l)
      × (get_elem? cs (suc k) ≡ some r)
      × (len l.content + len r.content ≤ lim.leave_max_file_count)
      × ((k ≡ i) ⊎ (suc k ≡ i))

  module _ (cs : List Child) (i : ℕ) (c : Child) (at_i : get_elem? cs i ≡ some c)
      (short : len c.content < half)
      (leaves : (j : ℕ) (d : Child)
        → get_elem? cs j ≡ some d
        → cap_of lim d.content ≡ lim.leave_max_file_count) where
    admits_right :
        (r : Child)
        → get_elem? cs (suc i) ≡ some r
        → admits lim cs i take_from_right ≡ ltb half (len r.content)
    admits_right r e = rw (e, admits) (rw (leaves (suc i) r e) refl)

    admits_left :
        (j : ℕ) (l : Child)
        → i ≡ suc j
        → get_elem? cs j ≡ some l
        → admits lim cs i take_from_left ≡ ltb half (len l.content)
    admits_left j l ei e = rw (at_pred, admits) (rw (leaves j l e) refl)
      where
        at_pred : get_elem? cs (i - 1) ≡ some l
        at_pred = ap (get_elem? cs) (omega arith) ∙ e

    admits_merge :
        (k : ℕ) (l r : Child)
        → get_elem? cs k ≡ some l
        → get_elem? cs (suc k) ≡ some r
        → len l.content + len r.content ≤ lim.leave_max_file_count
        → admits lim cs i (merge k) ≡ true
    admits_merge k l r el er fits =
        rw (el, admits) (rw (er, admits) (rw (leaves k l el) (le→leb _ _ fits)))

    abbrev Chosen : List Variant → Type 0
    Chosen vs = (v : Variant) × (first_admitted lim cs i vs ≡ ok v) × Fits cs i v

    -- A variant that is admitted, or the next ones.
    right_or :
        (vs : List Variant)
        → suc i < length cs
        → ((r : Child) → get_elem? cs (suc i) ≡ some r → len r.content ≤ half → Chosen vs)
        → Chosen (take_from_right ∷ vs)
    right_or vs lt rest =
        let (r, e) = get_elem?-lt cs (suc i) lt in
        elim (Bool-cases (ltb half (len r.content))) [
          | inl more ↦ (take_from_right, rw (admits_right r e ∙ more) refl, (r, e, ground arith))
          | inr few ↦
              let (v, run, fit) = rest r e (ground arith) in
              (v, rw (admits_right r e ∙ few) run, fit)
        ]

    left_or :
        (vs : List Variant) (j : ℕ)
        → i ≡ suc j
        → ((l : Child) → get_elem? cs j ≡ some l → len l.content ≤ half → Chosen vs)
        → Chosen (take_from_left ∷ vs)
    left_or vs j ei rest =
        let (l, e) = get_elem?-lt cs j (omega (arith, get_elem?-below cs i at_i)) in
        elim (Bool-cases (ltb half (len l.content))) [
          | inl more ↦
              (take_from_left, rw (admits_left j l ei e ∙ more) refl, (j, l, ei, e, ground arith))
          | inr few ↦
              let (v, run, fit) = rest l e (ground arith) in
              (v, rw (admits_left j l ei e ∙ few) run, fit)
        ]

    merge_first :
        (vs : List Variant) (k : ℕ) (l r : Child)
        → get_elem? cs k ≡ some l
        → get_elem? cs (suc k) ≡ some r
        → len l.content + len r.content ≤ lim.leave_max_file_count
        → (k ≡ i) ⊎ (suc k ≡ i)
        → Chosen (merge k ∷ vs)
    merge_first vs k l r el er fits near =
        (merge k, rw (admits_merge k l r el er fits) refl, (l, r, el, er, fits, near))

    to_check-Chosen : 2 ≤ length cs → (j : ℕ) → i ≡ j → Chosen (to_check j (length cs))
    to_check-Chosen two zero e =
        right_or (merge 0 ∷ merge 0 ∷ take_from_right ∷ []) (omega arith) (λ r er few.
          merge_first (merge 0 ∷ take_from_right ∷ []) 0 c r (ap (get_elem? cs) (sym e) ∙ at_i)
            (ap (λ k. get_elem? cs (suc k)) (sym e) ∙ er) (omega arith) (inl (sym e)))
    to_check-Chosen two (suc j) e = elim (Bool-cases (suc j == length cs - 1)) [
      | inl at_end ↦ rw (at_end) (
          left_or (merge j ∷ merge j ∷ take_from_left ∷ []) j e
            (with_left (merge j ∷ take_from_left ∷ [])))
      | inr inside ↦ rw (inside) (
          right_or
            (take_from_left
              ∷ merge j
              ∷ merge (suc j)
              ∷ merge j
              ∷ merge (suc j)
              ∷ take_from_right
              ∷ take_from_left
              ∷ [])
            (ground (arith, get_elem?-below cs i at_i))
            (λ r er few.
              left_or
                (merge j
                  ∷ merge (suc j)
                  ∷ merge j
                  ∷ merge (suc j)
                  ∷ take_from_right
                  ∷ take_from_left
                  ∷ [])
                j e
                (with_left (
                  merge (suc j)
                  ∷ merge j
                  ∷ merge (suc j)
                  ∷ take_from_right
                  ∷ take_from_left
                  ∷ []))))
    ]
      where
        with_left :
            (vs : List Variant) (l : Child)
            → get_elem? cs j ≡ some l
            → len l.content ≤ half
            → Chosen (merge j ∷ vs)
        with_left vs l el few =
            merge_first vs j l c el (ap (get_elem? cs) (sym e) ∙ at_i) (omega arith) (inr (sym e))

    pub get_children_for_rebalance-Fits :
        2 ≤ length cs
        → (v : Variant) × (get_children_for_rebalance lim none cs i ≡ ok v) × Fits cs i v
    get_children_for_rebalance-Fits two =
        let (v, run, fit) = to_check-Chosen two i refl in
        (
          v,
          rw (or_true (ltb (lim.node_max_child_count / 2) (length cs)), get_children_for_rebalance)
              (rw (le→leb 2 (length cs) two) run),
          fit,
        )
