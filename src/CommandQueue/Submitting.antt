-- ===== src/CommandQueue/Submitting.antt =====
-- wasabi-kernel/src/pci/nvme/queue.rs: `submit`, `cancel_submissions`, `flush`, `submit_all`.
use native.Mathlib.Nat.{mod_self, mod-eq_of_lt}
use wasabi_os.Prelude.{
  ℕ, ◌+◌, ◌%◌, ◌^◌, ◌<◌, ◌≡◌, ◌≢◌, refl, subst, ap, ◌∙◌, ◌⊎◌, inl, inr, true, false, Bool-cases,
  ◌==◌, length, set, length-set, ok, ◌>>=◌, arith,
}
use wasabi_os.WrappingValue.{new, add, add_mod}
use wasabi_os.CommandQueue.{
  BitField, Ring, CommonCommand, CommandQueue, queue_full, set_command_identifier,
  is_full_for_submission, poll_completions, PollCompletionsResult,
}
use wasabi_os.CommandQueue.Commands.{place, submit}
use wasabi_os.CommandQueue.Polling.{IsValid}
use wasabi_os.CommandQueue.Rounds.{IsQuiet}
use wasabi_os.CommandQueue.Gathering.{Gathers, poll_completions-Gathers}

step_tail :
    (q : CommandQueue)
    → IsValid q
    → add 16 q.submission_queue_tail_local 1
      ≡ ok (
          new
            ((q.submission_queue_tail_local.value + 1) % q.submission_queue_size)
            q.submission_queue_size)
step_tail q v =
    subst
      (λ m.
        add 16 q.submission_queue_tail_local 1
        ≡ ok (new ((q.submission_queue_tail_local.value + 1) % m) m))
      v.submission_modulo
      (add_mod 16 q.submission_queue_tail_local 1 (omega (arith, v.local_tail, v.submission_modulo))
        (omega (arith, v.submission_word, v.submission_modulo)))

-- One slot on around a ring.
pub one_on :
    (tail size : ℕ)
    → tail < size
    → ((tail + 1 < size) × ((tail + 1) % size ≡ tail + 1))
      ⊎ ((tail + 1 ≡ size) × ((tail + 1) % size ≡ 0))
one_on tail size lt = elim (Bool-cases (tail + 1 == size)) [
  | inl around ↦ let e : tail + 1 ≡ size = ground arith in inr (e, rw e (mod_self size))
  | inr inner ↦ let below : tail + 1 < size = ground arith in inl (below, mod-eq_of_lt below)
]

-- The command went into the slot at the old tail with the next identifier; the identifier and the
-- tail went one on, and every other field is as it was.
pub record Placed (bits : BitField) (command : CommonCommand) (q r : CommandQueue) : Type 0 where
  pub written :
      r.slots
      ≡ set q.slots q.submission_queue_tail_local.value (record command {
        dword0 = set_command_identifier bits q.next_command_identifier command.dword0;
      })
  pub inside : q.submission_queue_tail_local.value < length q.slots
  pub tail : r.submission_queue_tail_local.value ≢ r.submission_queue_head
  pub tail_local :
      r.submission_queue_tail_local
      ≡ new
          ((q.submission_queue_tail_local.value + 1) % q.submission_queue_size)
          q.submission_queue_size
  pub ident : r.next_command_identifier ≡ (q.next_command_identifier + 1) % 2 ^ 16
  pub rest : r ≡ record q {
    slots = r.slots;
    submission_queue_tail_local = r.submission_queue_tail_local;
    next_command_identifier = r.next_command_identifier;
  }
  pub valid : IsValid r

-- The queue is full: one more command would bring the tail to the controller's head.
abbrev pub IsFull : CommandQueue → Type 0
IsFull q =
    (q.submission_queue_tail_local.value + 1) % q.submission_queue_size ≡ q.submission_queue_head

pub IsFull-cases :
    (q : CommandQueue)
    → IsValid q
    → ((is_full_for_submission q ≡ ok true) × IsFull q)
      ⊎ ((is_full_for_submission q ≡ ok false) × (¬ IsFull q))
unfolding is_full_for_submission
IsFull-cases q v =
    elim (Bool-cases (
      q.submission_queue_head
      == (q.submission_queue_tail_local.value + 1) % q.submission_queue_size)) [
        | inl full ↦ inl (rw (step_tail q v, is_full_for_submission) (ap ok full), ground arith)
        | inr room ↦
            inr (rw (step_tail q v, is_full_for_submission) (ap ok room), λ e. ground arith)
      ]

module _ (bits : BitField) where
  pub place-Placed :
      (command : CommonCommand) (q : CommandQueue)
      → IsValid q
      → ¬ IsFull q
      → (r : CommandQueue) × (place bits command q ≡ ok (q.next_command_identifier, r))
        × Placed bits command q r
  unfolding place
  place-Placed command q v room = (
    record q {
      slots = set q.slots q.submission_queue_tail_local.value (record command {
        dword0 = set_command_identifier bits q.next_command_identifier command.dword0;
      });
      submission_queue_tail_local =
          new ((q.submission_queue_tail_local.value + 1) % q.submission_queue_size)
            q.submission_queue_size;
      next_command_identifier = (q.next_command_identifier + 1) % 2 ^ 16;
    },
    rw (step_tail q v, place),
    record {
      written = refl;
      inside = omega (arith, v.local_tail, v.slot_count);
      tail = room;
      tail_local = refl;
      ident = refl;
      rest = refl;
      valid = record {
        submission_word = v.submission_word;
        submission_modulo = refl;
        local_tail = omega (arith, v.local_tail);
        tail = v.tail;
        slot_count = length-set q.slots q.submission_queue_tail_local.value _ ∙ v.slot_count;
        completion_word = v.completion_word;
        completion_modulo = v.completion_modulo;
        head = v.head;
        sorted = v.sorted;
        ident = omega arith;
      };
    },
  )

  module _ (ring : Ring) where
    -- On a valid queue with room `submit` returns the next identifier without polling, and only
    -- places the command; the tail does not reach the head, so the queue is not taken for empty.
    pub submit-Placed :
        (fuel : ℕ) (command : CommonCommand) (q : CommandQueue)
        → IsValid q
        → ¬ IsFull q
        → (r : CommandQueue) × (submit bits ring fuel command q
            ≡ ok (inr q.next_command_identifier, r))
          × Placed bits command q r
    unfolding submit
    submit-Placed fuel command q v room = elim (IsFull-cases q v) [
      | inl (run, full) ↦ absurd (room full)
      | inr (run, other) ↦
          let (r, put, p) = place-Placed command q v room in (r, rw (run, submit) (rw put), p)
    ]

    -- What `submit` does on a full queue after the poll that brought it from `q` to `mid`.
    abbrev pub Resubmits :
        ℕ → CommonCommand → CommandQueue → PollCompletionsResult → CommandQueue → Type 0
    Resubmits fuel command q result mid =
        ((submit bits ring fuel command q ≡ ok (inl queue_full, mid))
          × ((result.some_new_entries ≡ false) ⊎ IsFull mid))
        ⊎ ((result.some_new_entries ≡ true)
            × (¬ IsFull mid)
            × (r : CommandQueue) × (submit bits ring fuel command q
                ≡ ok (inr mid.next_command_identifier, r))
            × Placed bits command mid r)

    after_poll :
        (fuel : ℕ) (command : CommonCommand) (q mid : CommandQueue) (result : PollCompletionsResult)
        → is_full_for_submission q ≡ ok true
        → poll_completions bits ring fuel q ≡ ok (result, mid)
        → IsValid mid
        → Resubmits fuel command q result mid
    unfolding submit
    after_poll fuel command q mid result full polled v = elim (Bool-cases result.some_new_entries) [
      | inr nothing ↦ inl (rw (full, submit) (rw (polled, ◌>>=◌) (rw nothing)), inl nothing)
      | inl more ↦ elim (IsFull-cases mid v) [
        | inl (run, still) ↦
            inl (rw (full, submit) (rw (polled, ◌>>=◌) (rw more (rw run))), inr still)
        | inr (run, room) ↦
            let (r, put, p) = place-Placed command mid v room in
            inr
              (more, room, r, rw (full, submit) (rw (polled, ◌>>=◌) (rw more (rw run (rw put)))), p)
      ]
    ]

    -- On a full valid queue and a quiet ring `submit` polls. Either it fails as full, with nothing
    -- written, and the poll found no entry or the queue is still full; or the poll found an entry
    -- and the queue is no longer full, and it places the command in the polled queue.
    pub submit_full :
        (fuel : ℕ) (command : CommonCommand) (q : CommandQueue)
        → IsValid q
        → IsQuiet ring q.id
        → q.completion_queue_size < fuel
        → IsFull q
        → (result : PollCompletionsResult) × (mid : CommandQueue) × Gathers bits ring q result mid
          × Resubmits fuel command q result mid
    submit_full fuel command q v quiet enough full = elim (IsFull-cases q v) [
      | inr (run, room) ↦ absurd (room full)
      | inl (run, _) ↦
          let (result, mid, polled, g) = poll_completions-Gathers bits ring fuel q v quiet enough in
          (result, mid, g, after_poll fuel command q mid result run polled g.valid)
    ]
