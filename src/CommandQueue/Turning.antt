-- ===== src/CommandQueue/Turning.antt =====
-- wasabi-kernel/src/pci/nvme/queue.rs: calls of `poll_single_completion` that each take an entry.
use wasabi_os.Prelude.{
  ℕ, suc, ◌+◌, ◌*◌, ◌≡◌, refl, sym, ◌∙◌, subst, ◌⊎◌, inl, inr, Bool, true, false, Bool-cases, ◌==◌,
  Outcome, ok, panic, arith,
}
use wasabi_os.CommandQueue.{
  BitField, Ring, CommandQueue, PollCompletionError, position, accept, poll_single_completion,
}
use wasabi_os.CommandQueue.Order.{position-Located}
use wasabi_os.CommandQueue.Polling.{
  IsValid, Taken, first_read, second_read, ready, Polled, accept-Polled,
}
use wasabi_os.CommandQueue.Rounds.{Taking, done, next, turns, Taking-turns}

abbrev Answer : Type 0
Answer = (PollCompletionError ⊎ Bool) × CommandQueue

ok-eq : {x y : Answer} → ok x ≡ ok y → x ≡ y
ok-eq e = ground arith

not_ok : {y : Answer} → ◌≡◌ {A = Outcome Answer} panic (ok y) → ⊥
not_ok e = cc

module _ (bits : BitField) (ring : Ring) where
  -- The queue after `n` calls in a row that each found an entry.
  pub data Polls : ℕ → CommandQueue → CommandQueue → Type 0 where
    begin : (q : CommandQueue) → Polls 0 q q
    poll :
        (n : ℕ) (q r s : CommandQueue)
        → poll_single_completion bits ring q ≡ ok (inr true, r)
        → Polls n r s
        → Polls (suc n) q s

  polled-Taken :
      (q r : CommandQueue)
      → IsValid q
      → poll_single_completion bits ring q ≡ ok (inr true, r)
      → (ready bits ring (second_read bits ring q) q ≡ true) × Taken (second_read bits ring q) q r
  unfolding poll_single_completion
  polled-Taken q r v run = elim (Bool-cases (ready bits ring (first_read bits ring q) q)) [
    | inr old ↦ absurd (no_entry (sym (stays old) ∙ run))
    | inl fresh ↦ elim (Bool-cases (ready bits ring (second_read bits ring q) q)) [
      | inr torn ↦ absurd (not_ok (sym (breaks fresh torn) ∙ run))
      | inl again ↦ elim (Bool-cases (q.id == (second_read bits ring q).submission_queue_ident)) [
        | inr foreign ↦ absurd (not_ok (sym (refuses fresh again foreign) ∙ run))
        | inl own ↦
            let (answer, r', accepted, p) =
              accept-Polled bits ring q v again
                (position (second_read bits ring q).command_ident q.completions)
                (position-Located (second_read bits ring q).command_ident q.completions v.sorted)
                refl in
            (
              again,
              by_answer answer r' p (ok-eq (sym (takes fresh again own answer r' accepted) ∙ run)),
            )
      ]
    ]
  ]
    where
      stays :
          ready bits ring (first_read bits ring q) q ≡ false
          → poll_single_completion bits ring q ≡ ok (inr false, record q { reads = q.reads + 1 })
      stays old = rw (old) refl

      no_entry :
          ◌≡◌ {A = Outcome Answer}
            (ok (inr false, record q { reads = q.reads + 1 }))
            (ok (inr true, r))
          → ⊥
      no_entry e = cc

      breaks :
          ready bits ring (first_read bits ring q) q ≡ true
          → ready bits ring (second_read bits ring q) q ≡ false
          → poll_single_completion bits ring q ≡ panic
      breaks fresh torn = rw (fresh, torn) refl

      refuses :
          ready bits ring (first_read bits ring q) q ≡ true
          → ready bits ring (second_read bits ring q) q ≡ true
          → (q.id == (second_read bits ring q).submission_queue_ident) ≡ false
          → poll_single_completion bits ring q ≡ panic
      refuses fresh again foreign = rw (fresh, again, foreign) refl

      takes :
          ready bits ring (first_read bits ring q) q ≡ true
          → ready bits ring (second_read bits ring q) q ≡ true
          → (q.id == (second_read bits ring q).submission_queue_ident) ≡ true
          → (answer : PollCompletionError ⊎ Bool) (r' : CommandQueue)
          → accept (second_read bits ring q) (record q {
            reads = q.reads + 2;
            submission_queue_head = (second_read bits ring q).submission_queue_head;
          })
            ≡ ok (answer, r')
          → poll_single_completion bits ring q ≡ ok (answer, r')
      takes fresh again own answer r' accepted = rw (fresh, again, own) accepted

      by_answer :
          (answer : PollCompletionError ⊎ Bool) (r' : CommandQueue)
          → Polled bits ring q answer r'
          → ◌≡◌ {A = Answer} (answer, r') (inr true, r)
          → Taken (second_read bits ring q) q r
      by_answer answer r' p e = (subst {A = Answer} (λ x. Polled bits ring q x.0 x.1) e p).2

  Polls-Taking : (n : ℕ) (q r : CommandQueue) → Polls n q r → IsValid q → Taking bits ring n q r
  Polls-Taking n q r (begin _) v = done q
  Polls-Taking n q s (poll m _ r _ run rest) v =
      let (fresh, taken) = polled-Taken q r v run in
      next m q r s fresh taken (Polls-Taking m r s rest taken.valid)

  -- After `n` calls of `poll_single_completion` in a row on a valid queue that each returned that
  -- they found an entry, the head is `n` slots on, around the ring, the expected phase has turned
  -- once for each time the head came back to slot 0, and the queue is valid.
  pub Polls-turns :
      (n : ℕ) (q r : CommandQueue)
      → Polls n q r
      → IsValid q
      → (laps : ℕ) × (q.completion_queue_head.value + n
          ≡ laps * q.completion_queue_size + r.completion_queue_head.value)
        × (r.completion_expected_phase ≡ turns laps q.completion_expected_phase)
        × (r.completion_queue_size ≡ q.completion_queue_size)
        × IsValid r
  Polls-turns n q r polls v = Taking-turns bits ring n q r (Polls-Taking n q r polls v) v
