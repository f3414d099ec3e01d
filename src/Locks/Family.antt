-- ===== src/Locks/Family.antt =====
-- The members of a family `ℕ → A`, one for each execution context: a new value for one of them, and
-- what the first `n` weigh together.
use wasabi_os.Prelude.{
  ℕ, zero, suc, ◌+◌, ◌≤◌, ◌<◌, ◌≡◌, refl, ◌≢◌, inl, inr, Bool-cases, ◌==◌, if◌then◌else◌, arith,
}

-- `members`, with `a` for the member `i`.
abbrev pub with_member {ℓ} : {A : Type ℓ} → (ℕ → A) → ℕ → A → ℕ → A
with_member members i a = λ j. if i == j then a else members j

module _ {ℓ} {A : Type ℓ} (weight : A → ℕ) (members : ℕ → A) where
  unfoldable pub weigh : ℕ → ℕ
  weigh zero = 0
  weigh (suc k) = weight (members k) + weigh k

  pub weigh-ge : (k i : ℕ) → i < k → weight (members i) ≤ weigh k
  unfolding weigh
  weigh-ge zero i h = absurd (omega arith)
  weigh-ge (suc k) i h = elim (Bool-cases (i == k)) [
    | inl last ↦ ground arith
    | inr other ↦ ground (arith, weigh-ge k i)
  ]

  -- Two members are both counted.
  pub weigh-ge_two :
      (k i j : ℕ) → i < k → j < k → i ≢ j → weight (members i) + weight (members j) ≤ weigh k
  unfolding weigh
  weigh-ge_two zero i j hi hj d = absurd (omega arith)
  weigh-ge_two (suc k) i j hi hj d = elim (Bool-cases (i == k)) [
    | inl last ↦ ground (arith, weigh-ge k j)
    | inr other ↦ elim (Bool-cases (j == k)) [
      | inl last ↦ ground (arith, weigh-ge k i)
      | inr neither ↦ ground (arith, weigh-ge_two k i j)
    ]
  ]

  pub weigh-le : ((a : A) → weight a ≤ 1) → (k : ℕ) → weigh k ≤ k
  unfolding weigh
  weigh-le light zero = omega arith
  weigh-le light (suc k) = omega (arith, weigh-le light k, light (members k))

module _ {ℓ} {A : Type ℓ} (weight : A → ℕ) where
  pub weigh-nothing : (a : A) → weight a ≡ 0 → (k : ℕ) → weigh weight (λ _. a) k ≡ 0
  unfolding weigh
  weigh-nothing a h zero = refl
  weigh-nothing a h (suc k) = omega (arith, h, weigh-nothing a h k)

  module _ (members : ℕ → A) (i : ℕ) (a : A) where
    -- Up to member `i` nothing has changed; from there on its weight is exchanged.
    exchanged :
        (k : ℕ)
        → (k ≤ i → weigh weight (with_member members i a) k ≡ weigh weight members k)
          × (i < k
              → weigh weight (with_member members i a) k + weight (members i)
                ≡ weigh weight members k + weight a)
    unfolding weigh
    exchanged zero = (λ h. refl, λ h. absurd (omega arith))
    exchanged (suc k) =
        let (before, after) = exchanged k in
        elim (Bool-cases (i == k)) [
          | inl at_i ↦ (λ h. absurd (ground arith), λ h. ground (arith, before (ground arith)))
          | inr other ↦ (λ h. ground (arith, before (omega arith)), λ h. ground (arith, after))
        ]

    pub weigh-with_member :
        (k : ℕ)
        → i < k
        → weigh weight (with_member members i a) k + weight (members i)
          ≡ weigh weight members k + weight a
    weigh-with_member k h = (exchanged k).1 h
