-- ===== src/CommandQueue/Polling.antt =====
-- wasabi-kernel/src/pci/nvme/queue.rs: `poll_single_completion`.
use wasabi_os.Prelude.{
  ℕ, ◌+◌, ◌%◌, ◌^◌, ◌<◌, ◌≡◌, refl, subst, ◌↔◌, ◌⊎◌, inl, inr, Bool, true, false, not, Bool-cases,
  ◌==◌, if◌then◌else◌, insert_at, length, ok, arith,
}
use wasabi_os.WrappingValue.{new, add, add_mod}
use wasabi_os.CommandQueue.{
  BitField, Ring, CommonCompletionEntry, CommandQueue, Position, PollCompletionError,
  identifier_still_in_use, at, gap, position, same_phase, phase, accept, poll_single_completion,
}
use wasabi_os.CommandQueue.Order.{
  IsSorted, Holds, HasIdent, Located, position-Located, Holds-insert, get_elem?-Holds,
}

-- The two indices are inside their queues, which have at least two slots; the completions are
-- sorted and the next identifier fits in 16 bits.
pub record IsValid (q : CommandQueue) : Type 0 where
  pub submission_word : q.submission_queue_size < 2 ^ 16
  pub submission_modulo : q.submission_queue_tail_local.modulo ≡ q.submission_queue_size
  pub local_tail : q.submission_queue_tail_local.value < q.submission_queue_size
  pub tail : q.submission_queue_tail < q.submission_queue_size
  pub slot_count : length q.slots ≡ q.submission_queue_size
  pub completion_word : q.completion_queue_size < 2 ^ 16
  pub completion_modulo : q.completion_queue_head.modulo ≡ q.completion_queue_size
  pub head : q.completion_queue_head.value < q.completion_queue_size
  pub sorted : IsSorted q.completions
  pub ident : q.next_command_identifier < 2 ^ 16

-- The fields that polling leaves alone.
pub record KeepsSubmissions (q r : CommandQueue) : Type 0 where
  pub id : r.id ≡ q.id
  pub size : r.submission_queue_size ≡ q.submission_queue_size
  pub slots : r.slots ≡ q.slots
  pub doorbell : r.submission_queue_tail_doorbell ≡ q.submission_queue_tail_doorbell
  pub tail : r.submission_queue_tail ≡ q.submission_queue_tail
  pub tail_local : r.submission_queue_tail_local ≡ q.submission_queue_tail_local
  pub completion_size : r.completion_queue_size ≡ q.completion_queue_size
  pub ident : r.next_command_identifier ≡ q.next_command_identifier

-- The expected phase after `slots` further slots from the slot `head` of a ring of `size`.
abbrev pub turned : ℕ → ℕ → Bool → Bool
turned head size expected = if (head + 1) % size == 0 then not expected else expected

-- The entry was taken: it is held with the others, and the head went one slot on.
pub record Taken (c : CommonCompletionEntry) (q r : CommandQueue) : Type 0 where
  pub held : (e : CommonCompletionEntry) → Holds r.completions e ↔ ((c ≡ e) ⊎ Holds q.completions e)
  pub head :
      r.completion_queue_head
      ≡ new ((q.completion_queue_head.value + 1) % q.completion_queue_size) q.completion_queue_size
  pub phase :
      r.completion_expected_phase
      ≡ turned q.completion_queue_head.value q.completion_queue_size q.completion_expected_phase
  pub submission_head : r.submission_queue_head ≡ c.submission_queue_head
  pub doorbell : r.completion_queue_head_doorbell ≡ q.completion_queue_head_doorbell
  pub reads : r.reads ≡ q.reads + 2
  pub submissions : KeepsSubmissions q r
  pub valid : IsValid r

mod_below : (a m : ℕ) → 0 < m → a % m < m
mod_below a m pos = omega arith

module _ (bits : BitField) (ring : Ring) where
  -- What the first and the second read of a poll find.
  abbrev pub first_read : CommandQueue → CommonCompletionEntry
  first_read q = ring q.reads q.completion_queue_head.value

  abbrev pub second_read : CommandQueue → CommonCompletionEntry
  second_read q = ring (q.reads + 1) q.completion_queue_head.value

  abbrev pub ready : CommonCompletionEntry → CommandQueue → Bool
  ready c q = same_phase (phase bits c.status_and_phase) q.completion_expected_phase

  -- The controller does not take a posted entry back between the two reads, and it posts entries of
  -- this queue only.
  pub record IsPosted (q : CommandQueue) : Type 0 where
    pub steady : ready (first_read q) q ≡ true → ready (second_read q) q ≡ true
    pub owner : (second_read q).submission_queue_ident ≡ q.id

  -- What a poll does, for each of its answers.
  abbrev pub Polled : CommandQueue → PollCompletionError ⊎ Bool → CommandQueue → Type 0
  Polled q (inr false) r = (ready (first_read q) q ≡ false) × (r ≡ record q { reads = q.reads + 1 })
  Polled q (inr true) r =
      (ready (second_read q) q ≡ true)
      × (¬ HasIdent q.completions (second_read q).command_ident)
      × Taken (second_read q) q r
  Polled q (inl (identifier_still_in_use k)) r =
      ((second_read q).command_ident ≡ k)
      × HasIdent q.completions k
      × (r ≡ record q {
        reads = q.reads + 2;
        submission_queue_head = (second_read q).submission_queue_head;
      })

  pub accept-Polled :
      (q : CommandQueue)
      → IsValid q
      → ready (second_read q) q ≡ true
      → (p : Position) → Located (second_read q).command_ident q.completions p
      → position (second_read q).command_ident q.completions ≡ p
      → (answer : PollCompletionError ⊎ Bool) × (r : CommandQueue) × (accept
            (second_read q)
            (record q {
              reads = q.reads + 2;
              submission_queue_head = (second_read q).submission_queue_head;
            })
          ≡ ok (answer, r))
        × Polled q answer r
  accept-Polled q v fresh (at i) l e = (
    inl (identifier_still_in_use (second_read q).command_ident),
    record q { reads = q.reads + 2; submission_queue_head = (second_read q).submission_queue_head },
    rw (e, accept),
    (refl, (l.0, get_elem?-Holds q.completions i l.0 l.1, l.2), refl),
  )
  accept-Polled q v fresh (gap i) l e =
      let up : add 16 q.completion_queue_head 1
          ≡ ok (
              new ((q.completion_queue_head.value + 1) % q.completion_queue_size)
                q.completion_queue_size) =
        subst
          (λ m.
            add 16 q.completion_queue_head 1 ≡ ok (new ((q.completion_queue_head.value + 1) % m) m))
          v.completion_modulo
          (add_mod 16 q.completion_queue_head 1 (omega (arith, v.head, v.completion_modulo))
            (omega (arith, v.completion_word, v.completion_modulo))) in
      (
        inr true,
        record q {
          reads = q.reads + 2;
          submission_queue_head = (second_read q).submission_queue_head;
          completion_queue_head =
              new ((q.completion_queue_head.value + 1) % q.completion_queue_size)
                q.completion_queue_size;
          completion_expected_phase =
              turned q.completion_queue_head.value q.completion_queue_size
                q.completion_expected_phase;
          completions = insert_at i (second_read q) q.completions;
        },
        rw (e, accept) (rw up),
        (
          fresh,
          λ h. l.0 h.0 h.1 h.2,
          record {
            held = λ d. Holds-insert i (second_read q) d q.completions;
            head = refl;
            phase = refl;
            submission_head = refl;
            doorbell = refl;
            reads = refl;
            submissions = record {
              id = refl;
              size = refl;
              slots = refl;
              doorbell = refl;
              tail = refl;
              tail_local = refl;
              completion_size = refl;
              ident = refl;
            };
            valid = record {
              submission_word = v.submission_word;
              submission_modulo = v.submission_modulo;
              local_tail = v.local_tail;
              tail = v.tail;
              slot_count = v.slot_count;
              completion_word = v.completion_word;
              completion_modulo = refl;
              head =
                  mod_below (q.completion_queue_head.value + 1) q.completion_queue_size
                    (omega (arith, v.head));
              sorted = l.1 (second_read q) refl;
              ident = v.ident;
            };
          },
        ),
      )

  -- On a valid queue and a posted entry a poll never panics. With no entry of the expected phase it
  -- changes nothing but the count of reads; an entry whose identifier is held already stays in the
  -- queue, and only the head that the controller reports is noted; any other entry is added to the
  -- sorted completions, the head goes one slot on, and the expected phase turns exactly on the way
  -- back to slot 0.
  pub poll_single_completion-Polled :
      (q : CommandQueue)
      → IsValid q
      → IsPosted q
      → (answer : PollCompletionError ⊎ Bool) × (r : CommandQueue) × (poll_single_completion bits
            ring q
          ≡ ok (answer, r))
        × Polled q answer r
  unfolding poll_single_completion
  poll_single_completion-Polled q v posted = elim (Bool-cases (ready (first_read q) q)) [
    | inl fresh ↦
        let again = posted.steady fresh in
        let own : (q.id == (second_read q).submission_queue_ident) ≡ true =
          ground (arith, posted.owner) in
        let (answer, r, run, p) =
          accept-Polled q v again (position (second_read q).command_ident q.completions)
            (position-Located (second_read q).command_ident q.completions v.sorted) refl in
        (answer, r, rw (fresh, again, own) run, p)
    | inr old ↦ (inr false, record q { reads = q.reads + 1 }, rw (old), (old, refl))
  ]
