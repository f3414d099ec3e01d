-- ===== src/CommandQueue/Gathering.antt =====
-- wasabi-kernel/src/pci/nvme/queue.rs: `poll_completions` as a whole.
use wasabi_os.Prelude.{
  ℕ, ◌+◌, ◌≤◌, ◌<◌, ◌≡◌, refl, sym, subst, ap, ◌∙◌, inr, Bool, true, false, not, Option, none, some,
  List, ◌∷◌, ◌==◌, if◌then◌else◌, ok,
}
use wasabi_os.CommandQueue.{
  BitField, Ring, CommonCompletionEntry, CommandQueue, PollCompletionError, PollCompletionsResult,
  identifier_still_in_use, poll_completions,
}
use wasabi_os.CommandQueue.Order.{Holds}
use wasabi_os.CommandQueue.Polling.{IsValid, second_read, Polled}
use wasabi_os.CommandQueue.Rounds.{IsQuiet, Taking, done, next, Taking-turns}
use wasabi_os.CommandQueue.Laps.{answer, poll_loop-Ends}

-- The write to the head doorbell.
abbrev pub rung : CommandQueue → CommandQueue
rung q = record q {
  completion_queue_head_doorbell = q.completion_queue_head.value ∷ q.completion_queue_head_doorbell;
}

flip : (b : Bool) → (if b then false else true) ≡ not b
flip true = refl
flip false = refl

choose :
    (b : Bool) (x y : CommandQueue)
    → (if (if b then false else true) then x else y) ≡ (if b then y else x)
choose true x y = refl
choose false x y = refl

-- No condition is on these three fields.
observed-IsValid :
    (reads head : ℕ) (doorbell : List ℕ) (q : CommandQueue)
    → IsValid q
    → IsValid (record q {
      reads = reads;
      submission_queue_head = head;
      completion_queue_head_doorbell = doorbell;
    })
observed-IsValid reads head doorbell q v = record {
  submission_word = v.submission_word;
  submission_modulo = v.submission_modulo;
  local_tail = v.local_tail;
  tail = v.tail;
  slot_count = v.slot_count;
  completion_word = v.completion_word;
  completion_modulo = v.completion_modulo;
  head = v.head;
  sorted = v.sorted;
  ident = v.ident;
}

rung-IsValid : (b : Bool) (q : CommandQueue) → IsValid q → IsValid (if b then rung q else q)
rung-IsValid true q v =
    observed-IsValid q.reads q.submission_queue_head
      (q.completion_queue_head.value ∷ q.completion_queue_head_doorbell) q v
rung-IsValid false q v = v

module _ (bits : BitField) (ring : Ring) where
  -- `count` entries were taken, at most as many as there are slots, and the poll behind them found
  -- nothing or an identifier in use, as the result says; the head doorbell was written once if an
  -- entry was taken, and not otherwise.
  pub record Gathers (q : CommandQueue) (result : PollCompletionsResult) (r : CommandQueue)
      : Type 0 where
    pub count : ℕ
    pub last : CommandQueue
    pub rest : CommandQueue
    pub taken : Taking bits ring count q last
    pub bound : count ≤ q.completion_queue_size
    pub final : Polled bits ring last (answer bits ring result.error_on_any_entry) rest
    pub new_entries : result.some_new_entries ≡ not (count == 0)
    pub queue : r ≡ (if count == 0 then rest else rung rest)
    pub valid : IsValid r

  -- Polls keep what the queue holds.
  pub Taking-held :
      (n : ℕ) (q r : CommandQueue) (e : CommonCompletionEntry)
      → Taking bits ring n q r
      → Holds q.completions e
      → Holds r.completions e
  Taking-held n q r e (done _) h = h
  Taking-held n q s e (next m _ r _ fresh t rest) h =
      Taking-held m r s e rest ((t.held e).1 (inr h))

  -- The last poll of a loop leaves the completions alone.
  pub final_completions :
      (q r : CommandQueue) (error : Option PollCompletionError)
      → Polled bits ring q (answer bits ring error) r
      → r.completions ≡ q.completions
  final_completions q r none p = ap (λ s. s.completions) p.1
  final_completions q r (some (identifier_still_in_use k)) p = ap (λ s. s.completions) p.2

  final-IsValid :
      (q r : CommandQueue) (error : Option PollCompletionError)
      → Polled bits ring q (answer bits ring error) r
      → IsValid q
      → IsValid r
  final-IsValid q r none p v =
      subst IsValid (sym p.1) (
        observed-IsValid (q.reads + 1) q.submission_queue_head q.completion_queue_head_doorbell q v)
  final-IsValid q r (some (identifier_still_in_use k)) p v = subst IsValid (sym p.2) (
      observed-IsValid (q.reads + 2) (second_read bits ring q).submission_queue_head
        q.completion_queue_head_doorbell q v)

  -- On a valid queue and a quiet ring, which does not change meanwhile and holds entries of this
  -- queue only, `poll_completions` ends without a panic, with more rounds of fuel than the ring has
  -- slots: it takes at most one entry for each slot, the poll behind them found nothing or an
  -- identifier in use, as the result says, and the head doorbell is written once if an entry was
  -- taken and not otherwise.
  pub poll_completions-Gathers :
      (fuel : ℕ) (q : CommandQueue)
      → IsValid q
      → IsQuiet ring q.id
      → q.completion_queue_size < fuel
      → (result : PollCompletionsResult) × (r : CommandQueue) × (poll_completions bits ring fuel q
          ≡ ok (result, r))
        × Gathers q result r
  unfolding poll_completions
  poll_completions-Gathers fuel q v quiet enough =
      let (out, run, s) = poll_loop-Ends bits ring fuel false q v quiet enough in
      let lapped = Taking-turns bits ring s.count q s.last s.taken v in
      let valid = final-IsValid s.last out.2 out.1 s.final lapped.4 in
      (
        record { some_new_entries = out.0; error_on_any_entry = out.1 },
        if out.0 then rung out.2 else out.2,
        rw (run, poll_completions),
        record {
          count = s.count;
          last = s.last;
          rest = out.2;
          taken = s.taken;
          bound = s.bound;
          final = s.final;
          new_entries = s.any ∙ flip (s.count == 0);
          queue =
              ap (λ b. if b then rung out.2 else out.2) s.any
              ∙ choose (s.count == 0) (rung out.2) out.2;
          valid = rung-IsValid out.0 out.2 valid;
        },
      )
