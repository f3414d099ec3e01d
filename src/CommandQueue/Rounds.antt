-- ===== src/CommandQueue/Rounds.antt =====
-- wasabi-kernel/src/pci/nvme/queue.rs: successful polls in a row.
use native.Mathlib.Nat.{mod_self, mod-eq_of_lt}
use wasabi_os.Prelude.{
  ℕ, zero, suc, ◌+◌, ◌*◌, ◌%◌, ◌<◌, ◌≡◌, refl, subst, ap, ◌∙◌, inl, inr, Bool, true, false, not,
  Bool-cases, ==→≡, ◌==◌, arith,
}
use wasabi_os.CommandQueue.{BitField, Ring, CommonCompletionEntry, CommandQueue, phase}
use wasabi_os.CommandQueue.Polling.{IsValid, Taken, second_read, ready}

-- The memory of the completion queue does not change while it is read, and its entries are for the
-- queue `id`.
pub record IsQuiet (ring : Ring) (id : ℕ) : Type 0 where
  pub same : (t u slot : ℕ) → ring t slot ≡ ring u slot
  pub owner : (t slot : ℕ) → (ring t slot).submission_queue_ident ≡ id

abbrev pub turns : ℕ → Bool → Bool
turns zero expected = expected
turns (suc n) expected = not (turns n expected)

-- A taken entry that is not in the last slot.
pub Taken-on :
    (c : CommonCompletionEntry) (q r : CommandQueue)
    → Taken c q r
    → q.completion_queue_head.value + 1 < q.completion_queue_size
    → (r.completion_queue_head.value ≡ q.completion_queue_head.value + 1)
      × (r.completion_expected_phase ≡ q.completion_expected_phase)
Taken-on c q r t lt =
    let at : (q.completion_queue_head.value + 1) % q.completion_queue_size
        ≡ q.completion_queue_head.value + 1 =
      mod-eq_of_lt lt in
    let inner : (q.completion_queue_head.value + 1 == 0) ≡ false = ground arith in
    (ap (λ h. h.value) t.head ∙ at, t.phase ∙ rw (at, inner))

-- A taken entry in the last slot.
pub Taken-around :
    (c : CommonCompletionEntry) (q r : CommandQueue)
    → Taken c q r
    → q.completion_queue_head.value + 1 ≡ q.completion_queue_size
    → (r.completion_queue_head.value ≡ 0)
      × (r.completion_expected_phase ≡ not q.completion_expected_phase)
Taken-around c q r t e =
    let at : (q.completion_queue_head.value + 1) % q.completion_queue_size ≡ 0 =
      rw e (mod_self q.completion_queue_size) in
    (ap (λ h. h.value) t.head ∙ at, t.phase ∙ rw at)

one_lap : (laps size : ℕ) → suc laps * size ≡ laps * size + size
one_lap laps size = grind arith

turns-not : (n : ℕ) (b : Bool) → turns n (not b) ≡ turns (suc n) b
turns-not zero b = refl
turns-not (suc n) b = ap not (turns-not n b)

module _ (bits : BitField) (ring : Ring) where
  -- Successful polls in a row, and how many.
  pub data Taking : ℕ → CommandQueue → CommandQueue → Type 0 where
    done : (q : CommandQueue) → Taking 0 q q
    next :
        (n : ℕ) (q r s : CommandQueue)
        → ready bits ring (second_read bits ring q) q ≡ true
        → Taken (second_read bits ring q) q r
        → Taking n r s
        → Taking (suc n) q s

  -- After `n` successful polls on a valid queue the head is `n` slots on, around the ring, the
  -- expected phase has turned once for each time the head came back to slot 0, and the queue is
  -- valid.
  pub Taking-turns :
      (n : ℕ) (q r : CommandQueue)
      → Taking n q r
      → IsValid q
      → (laps : ℕ) × (q.completion_queue_head.value + n
          ≡ laps * q.completion_queue_size + r.completion_queue_head.value)
        × (r.completion_expected_phase ≡ turns laps q.completion_expected_phase)
        × (r.completion_queue_size ≡ q.completion_queue_size)
        × IsValid r
  Taking-turns n q r (done _) v = (0, omega arith, refl, refl, v)
  Taking-turns n q s (next m _ r _ fresh t rest) v =
      let (laps, far, phase, size, valid) = Taking-turns m r s rest t.valid in
      let far_on : r.completion_queue_head.value + m
          ≡ laps * q.completion_queue_size + s.completion_queue_head.value =
        subst (λ z. r.completion_queue_head.value + m ≡ laps * z + s.completion_queue_head.value)
          t.submissions.completion_size far in
      elim (Bool-cases (q.completion_queue_head.value + 1 == q.completion_queue_size)) [
        | inl around ↦
            let (head, expected) = Taken-around (second_read bits ring q) q r t (ground arith) in
            (
              suc laps,
              omega (
                arith,
                far_on,
                head,
                one_lap laps q.completion_queue_size,
                ==→≡ (q.completion_queue_head.value + 1) q.completion_queue_size around,
              ),
              phase ∙ rw expected (turns-not laps q.completion_expected_phase),
              size ∙ t.submissions.completion_size,
              valid,
            )
        | inr inner ↦
            let (head, expected) =
              Taken-on (second_read bits ring q) q r t (ground (arith, v.head)) in
            (
              laps,
              omega (arith, far_on, head),
              phase ∙ rw expected,
              size ∙ t.submissions.completion_size,
              valid,
            )
      ]
