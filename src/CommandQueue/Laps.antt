-- ===== src/CommandQueue/Laps.antt =====
-- wasabi-kernel/src/pci/nvme/queue.rs: where the loop of `poll_completions` ends.
use wasabi_os.Prelude.{
  differ, ℕ, zero, suc, ◌+◌, ◌-◌, ◌≤◌, ◌<◌, ◌≡◌, ◌≢◌, refl, sym, subst, ap, ◌∙◌, ◌⊎◌, inl, inr,
  Bool, true, false, not, Option, none, some, Bool-cases, ◌==◌, if◌then◌else◌, ok, arith,
}
use wasabi_os.CommandQueue.{
  BitField, Ring, CommonCompletionEntry, CommandQueue, PollCompletionError, same_phase, phase,
  poll_single_completion, poll_loop,
}
use wasabi_os.CommandQueue.Polling.{
  IsValid, Taken, second_read, ready, IsPosted, Polled, poll_single_completion-Polled,
}
use wasabi_os.CommandQueue.Rounds.{IsQuiet, Taking, done, next, Taken-on, Taken-around}

Taken-IsQuiet :
    (ring : Ring) (c : CommonCompletionEntry) (q r : CommandQueue)
    → Taken c q r
    → IsQuiet ring q.id
    → IsQuiet ring r.id
Taken-IsQuiet ring c q r t quiet = subst (IsQuiet ring) (sym t.submissions.id) quiet

always : (b : Bool) → (if b then true else true) ≡ true
always true = refl
always false = refl

same_phase-not : (a b : Bool) → same_phase a b ≡ true → same_phase a (not b) ≡ false
same_phase-not true true e = refl
same_phase-not true false e = cc
same_phase-not false true e = cc
same_phase-not false false e = refl

module _ (bits : BitField) (ring : Ring) where
  quiet-IsPosted : (q : CommandQueue) → IsQuiet ring q.id → IsPosted bits ring q
  quiet-IsPosted q quiet = record {
    steady = λ fresh.
        ap (λ e. ready bits ring e q)
          (quiet.same (q.reads + 1) q.reads q.completion_queue_head.value)
        ∙ fresh;
    owner = quiet.owner (q.reads + 1) q.completion_queue_head.value;
  }

  abbrev pub answer : Option PollCompletionError → PollCompletionError ⊎ Bool
  answer none = inr false
  answer (some e) = inl e

  -- The end of the loop: it took `count` entries, and the poll after them found nothing or failed.
  pub record Stops (limit : ℕ) (found : Bool) (q : CommandQueue)
      (out : Bool × Option PollCompletionError × CommandQueue) : Type 0 where
    pub count : ℕ
    pub last : CommandQueue
    pub taken : Taking bits ring count q last
    pub bound : count ≤ limit
    pub final : Polled bits ring last (answer out.1) out.2
    pub any : out.0 ≡ (if count == 0 then found else true)

  abbrev pub Ends : ℕ → ℕ → Bool → CommandQueue → Type 0
  Ends fuel limit any q =
      (out : Bool × Option PollCompletionError × CommandQueue) × (poll_loop bits ring fuel any q
        ≡ ok out)
      × Stops limit any q out

  -- One round: the loop ends here, or it goes on behind a taken entry.
  round :
      (fuel limit : ℕ) (any : Bool) (q : CommandQueue)
      → IsValid q
      → IsQuiet ring q.id
      → ((r : CommandQueue)
          → ready bits ring (second_read bits ring q) q ≡ true
          → Taken (second_read bits ring q) q r
          → (0 < limit) × Ends fuel (limit - 1) true r)
      → Ends (suc fuel) limit any q
  unfolding poll_loop
  round fuel limit any q v quiet rest =
      let (reply, r, run, p) =
        poll_single_completion-Polled bits ring q v (quiet-IsPosted q quiet) in
      go reply r run p
    where
      go :
          (reply : PollCompletionError ⊎ Bool) (r : CommandQueue)
          → poll_single_completion bits ring q ≡ ok (reply, r)
          → Polled bits ring q reply r
          → Ends (suc fuel) limit any q
      go (inl e) r run p = (
        (any, some e, r),
        rw (run, poll_loop),
        record { count = 0; last = q; taken = done q; bound = omega arith; final = p; any = refl },
      )
      go (inr false) r run p = (
        (any, none, r),
        rw (run, poll_loop),
        record { count = 0; last = q; taken = done q; bound = omega arith; final = p; any = refl },
      )
      go (inr true) r run p =
          let (left, ends) = rest r p.0 p.2 in
          let (out, more, s) = ends in
          (
            out,
            rw (run, poll_loop) more,
            record {
              count = suc s.count;
              last = s.last;
              taken = next s.count q r s.last p.0 p.2 s.taken;
              bound = omega (arith, left, s.bound);
              final = s.final;
              any = s.any ∙ always (s.count == 0) ∙ ground arith;
            },
          )

  -- On the lap that ends at the slot `stop`.
  last_lap :
      (fuel limit stop : ℕ) (any : Bool) (q : CommandQueue)
      → IsValid q
      → IsQuiet ring q.id
      → q.completion_queue_head.value ≤ stop
      → stop < q.completion_queue_size
      → same_phase (phase bits (ring 0 stop).status_and_phase) q.completion_expected_phase ≡ false
      → stop ≤ q.completion_queue_head.value + limit
      → limit < fuel
      → Ends fuel limit any q
  last_lap zero limit stop any q v quiet below inside stale far enough = absurd (omega arith)
  last_lap (suc fuel) limit stop any q v quiet below inside stale far enough =
      round fuel limit any q v quiet (λ r fresh t.
        let again : same_phase (phase bits (ring 0 q.completion_queue_head.value).status_and_phase)
              q.completion_expected_phase
            ≡ true =
          ap (λ e. ready bits ring e q) (quiet.same 0 (q.reads + 1) q.completion_queue_head.value)
          ∙ fresh in
        let other : q.completion_queue_head.value ≢ stop = λ e. differ again (
          subst
            (λ slot.
              same_phase (phase bits (ring 0 slot).status_and_phase) q.completion_expected_phase
              ≡ false)
            (sym e) stale) in
        let (head, expected) = Taken-on (second_read bits ring q) q r t (omega arith) in
        (
          omega arith,
          last_lap fuel (limit - 1) stop true r t.valid
              (Taken-IsQuiet ring (second_read bits ring q) q r t quiet) (omega arith)
              (omega (arith, t.submissions.completion_size)) (rw expected stale) (omega arith)
              (omega arith),
        ))

  -- On the lap that takes the entry of the slot `stop`.
  first_lap :
      (fuel limit stop : ℕ) (any : Bool) (q : CommandQueue)
      → IsValid q
      → IsQuiet ring q.id
      → stop ≤ q.completion_queue_head.value
      → same_phase (phase bits (ring 0 stop).status_and_phase) q.completion_expected_phase ≡ true
      → q.completion_queue_size + stop ≤ q.completion_queue_head.value + limit
      → limit < fuel
      → Ends fuel limit any q
  first_lap zero limit stop any q v quiet below fresh far enough = absurd (omega arith)
  first_lap (suc fuel) limit stop any q v quiet below fresh far enough =
      round fuel limit any q v quiet (λ r again t. (
        omega (arith, v.head),
        elim (Bool-cases (q.completion_queue_head.value + 1 == q.completion_queue_size)) [
          | inl around ↦
              let (head, expected) = Taken-around (second_read bits ring q) q r t (ground arith) in
              last_lap fuel (limit - 1) stop true r t.valid
                (Taken-IsQuiet ring (second_read bits ring q) q r t quiet) (omega arith)
                (omega (arith, t.submissions.completion_size, v.head))
                (rw expected (same_phase-not _ _ fresh)) (ground arith) (omega arith)
          | inr inner ↦
              let (head, expected) =
                Taken-on (second_read bits ring q) q r t (ground (arith, v.head)) in
              first_lap fuel (limit - 1) stop true r t.valid
                (Taken-IsQuiet ring (second_read bits ring q) q r t quiet) (omega arith)
                (rw expected fresh) (omega (arith, t.submissions.completion_size, v.head))
                (omega arith)
        ],
      ))

  pub poll_loop-Ends :
      (fuel : ℕ) (any : Bool) (q : CommandQueue)
      → IsValid q
      → IsQuiet ring q.id
      → q.completion_queue_size < fuel
      → Ends fuel q.completion_queue_size any q
  poll_loop-Ends fuel any q v quiet enough =
      elim (Bool-cases (
        same_phase (phase bits (ring 0 q.completion_queue_head.value).status_and_phase)
          q.completion_expected_phase)) [
            | inl fresh ↦
                first_lap fuel q.completion_queue_size q.completion_queue_head.value any q v quiet
                  (omega arith) fresh (omega arith) enough
            | inr stale ↦
                last_lap fuel q.completion_queue_size q.completion_queue_head.value any q v quiet
                  (omega arith) v.head stale (omega arith) enough
          ]
