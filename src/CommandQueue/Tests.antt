-- ===== src/CommandQueue/Tests.antt =====
-- wasabi-kernel/src/pci/nvme/queue.rs: the theorems at a concrete queue pair, and runs of the code.
use wasabi_os.Prelude.{
  ℕ, zero, suc, ◌+◌, ◌*◌, ◌-◌, ◌/◌, ◌%◌, ◌^◌, ◌≡◌, ◌⊎◌, refl, inr, Bool, true, false, some, List,
  [], ◌∷◌, ◌==◌, ok, arith,
}
use wasabi_os.WrappingValue.{new, add}
use wasabi_os.CommandQueue.{
  BitField, Ring, CommonCommand, CommonCompletionEntry, CommandQueue, PollCompletionError,
  identifier_still_in_use, PollCompletionsResult, zero_command, fresh_queue, phase, position,
  has_submissions_pending_flush, poll_single_completion, poll_loop, poll_completions,
}
use wasabi_os.CommandQueue.Commands.{
  submit_all, get_if_exists, wait_loop, wait_for, wait_rest, wait_for_all, clear_completions,
}
use wasabi_os.CommandQueue.Order.{Holds, HasIdent}
use wasabi_os.CommandQueue.Polling.{
  IsValid, Taken, ready, IsPosted, Polled, poll_single_completion-Polled,
}
use wasabi_os.CommandQueue.Rounds.{IsQuiet, turns}
use wasabi_os.CommandQueue.Turning.{Polls, begin, poll, Polls-turns}
use wasabi_os.CommandQueue.Gathering.{Gathers, poll_completions-Gathers}
use wasabi_os.CommandQueue.Waiting.{wait_for_posted}
use wasabi_os.CommandQueue.Submitting.{Placed, Resubmits, submit-Placed, submit_full}
use wasabi_os.CommandQueue.Batches.{used, Placing, submit_all-Placing}

-- The bits of a word by division.
abbrev by_division : BitField
by_division = record {
  get_bit = λ x bit. x / 2 ^ bit % 2 == 1;
  get_bits = λ first last x. x / 2 ^ first % 2 ^ (last + 1 - first);
  set_bits = λ first last v x. x % 2 ^ first + v * 2 ^ first + x / 2 ^ (last + 1) * 2 ^ (last + 1);
}

abbrev entry : ℕ → ℕ → ℕ → CommonCompletionEntry
entry ident head status = record {
  dword0 = 0;
  dword1 = 0;
  submission_queue_head = head;
  submission_queue_ident = 7;
  command_ident = ident;
  status_and_phase = status;
}

-- The controller has completed the commands 0 and 1 of the queue 7.
abbrev posted : Ring
posted t zero = entry 1 2 1
posted t (suc zero) = entry 0 2 1
posted t (suc (suc slot)) = entry 0 0 0

posted-IsQuiet : IsQuiet posted 7
posted-IsQuiet = record { same = same; owner = owner }
  where
    same : (t u slot : ℕ) → posted t slot ≡ posted u slot
    same t u zero = refl
    same t u (suc zero) = refl
    same t u (suc (suc slot)) = refl

    owner : (t slot : ℕ) → (posted t slot).submission_queue_ident ≡ 7
    owner t zero = refl
    owner t (suc zero) = refl
    owner t (suc (suc slot)) = refl

-- Three commands fill the queue of four slots; they are flushed.
abbrev full : CommandQueue
full = record (fresh_queue 7 4 4) {
  submission_queue_tail_local = new 3 4;
  submission_queue_tail = 3;
  next_command_identifier = 3;
}

full-IsValid : IsValid full
full-IsValid = record {
  submission_word = omega arith;
  submission_modulo = refl;
  local_tail = omega arith;
  tail = omega arith;
  slot_count = refl;
  completion_word = omega arith;
  completion_modulo = refl;
  head = omega arith;
  sorted = tt;
  ident = omega arith;
}

abbrev empty : CommandQueue
empty = record (fresh_queue 7 4 4) { next_command_identifier = 65535 }

empty-IsValid : IsValid empty
empty-IsValid = record {
  submission_word = omega arith;
  submission_modulo = refl;
  local_tail = omega arith;
  tail = omega arith;
  slot_count = refl;
  completion_word = omega arith;
  completion_modulo = refl;
  head = omega arith;
  sorted = tt;
  ident = omega arith;
}

posted-IsPosted : IsPosted by_division posted full
posted-IsPosted = record { steady = λ h. h; owner = refl }

poll_single_completion-Polled_example :
    (answer : PollCompletionError ⊎ Bool) × (r : CommandQueue) × (poll_single_completion by_division
        posted full
      ≡ ok (answer, r))
    × Polled by_division posted full answer r
poll_single_completion-Polled_example =
    poll_single_completion-Polled by_division posted full full-IsValid posted-IsPosted

poll_completions-Gathers_example :
    (result : PollCompletionsResult) × (r : CommandQueue) × (poll_completions by_division posted 5
        full
      ≡ ok (result, r))
    × Gathers by_division posted full result r
poll_completions-Gathers_example =
    poll_completions-Gathers by_division posted 5 full full-IsValid posted-IsQuiet (omega arith)

-- One entry further.
abbrev polled : CommandQueue
polled = record full {
  reads = 2;
  submission_queue_head = 2;
  completion_queue_head = new 1 4;
  completions = entry 1 2 1 ∷ [];
}

polled-IsValid : IsValid polled
polled-IsValid = record {
  submission_word = omega arith;
  submission_modulo = refl;
  local_tail = omega arith;
  tail = omega arith;
  slot_count = refl;
  completion_word = omega arith;
  completion_modulo = refl;
  head = omega arith;
  sorted = (tt, tt);
  ident = omega arith;
}

polled-Taken : Taken (entry 1 2 1) full polled
polled-Taken = record {
  held = λ e. (λ h. h, λ h. h);
  head = refl;
  phase = refl;
  submission_head = refl;
  doorbell = refl;
  reads = refl;
  submissions = record {
    id = refl;
    size = refl;
    slots = refl;
    doorbell = refl;
    tail = refl;
    tail_local = refl;
    completion_size = refl;
    ident = refl;
  };
  valid = polled-IsValid;
}

abbrev polled_twice : CommandQueue
polled_twice = record polled {
  reads = 4;
  completion_queue_head = new 2 4;
  completions = entry 0 2 1 ∷ entry 1 2 1 ∷ [];
}

full-Polls : Polls by_division posted 2 full polled_twice
unfolding phase poll_single_completion position add
full-Polls =
    poll 1 full polled polled_twice refl
      (poll 0 polled polled_twice polled_twice refl (begin polled_twice))

Polls-turns_example :
    (laps : ℕ) × (0 + 2 ≡ laps * 4 + 2)
    × (true ≡ turns laps true)
    × (polled_twice.completion_queue_size ≡ full.completion_queue_size)
    × IsValid polled_twice
Polls-turns_example = Polls-turns by_division posted 2 full polled_twice full-Polls full-IsValid

full-ready : ready by_division posted (entry 1 2 1) full ≡ true
unfolding phase
full-ready = refl

wait_for_posted_example :
    (r : CommandQueue) × (wait_for by_division posted 5 1 full ≡ ok (inr (entry 1 2 1), r))
    × (¬ HasIdent r.completions 1)
    × ((e : CommonCompletionEntry) → Holds full.completions e → Holds r.completions e)
    × IsValid r
wait_for_posted_example =
    wait_for_posted by_division posted 5 1 full full-IsValid posted-IsQuiet (omega arith) full-ready
      refl (λ h. h.1)

submit_full_example :
    (result : PollCompletionsResult) × (mid : CommandQueue) × Gathers by_division posted full result
      mid
    × Resubmits by_division posted 5 zero_command full result mid
submit_full_example =
    submit_full by_division posted 5 zero_command full full-IsValid posted-IsQuiet (omega arith)
      refl

abbrev three : List CommonCommand
three = zero_command ∷ zero_command ∷ zero_command ∷ []

submit_all-Placing_example :
    (r : CommandQueue) × (submit_all by_division posted 0 three empty
      ≡ ok (inr (65535 ∷ 0 ∷ 1 ∷ []), r))
    × Placing by_division three empty r
    × (used r ≡ 0 + 3)
    × IsValid r
submit_all-Placing_example =
    submit_all-Placing by_division posted 0 three empty empty-IsValid (omega arith) (omega arith)

batch : (r : CommandQueue) × Placing by_division three empty r
batch =
    let (r, run, placing, all, valid) =
      submit_all-Placing by_division posted 0 three empty empty-IsValid (omega arith)
        (omega arith) in
    (r, placing)

empty_flushed : has_submissions_pending_flush empty ≡ false
unfolding has_submissions_pending_flush
empty_flushed = refl

one_command-Placed : (r : CommandQueue) × Placed by_division zero_command empty r
one_command-Placed =
    let (r, run, p) =
      submit-Placed by_division posted 0 zero_command empty empty-IsValid (λ e. ground arith) in
    (r, p)

-- The whole life of a batch: both completions arrive in one poll, out of order.
wait_for_all_run :
    (q : CommandQueue) × (wait_for_all by_division posted 9 (0 ∷ 1 ∷ []) full
      ≡ ok (inr (entry 0 2 1 ∷ entry 1 2 1 ∷ []), q))
unfolding wait_for_all wait_rest wait_for wait_loop get_if_exists position poll_completions
    poll_loop poll_single_completion phase add
wait_for_all_run = (_, refl)

-- The identifier 0 is held already, so its second completion stays in the queue.
abbrev repeating : Ring
repeating t slot = entry 0 2 1

repeated_identifier :
    (q : CommandQueue) × (poll_completions by_division repeating 9 full
      ≡ ok (
        record { some_new_entries = true; error_on_any_entry = some (identifier_still_in_use 0) },
        q,
      ))
unfolding position poll_completions poll_loop poll_single_completion phase add
repeated_identifier = (_, refl)

cleared : (q : CommandQueue) × (clear_completions by_division posted 9 polled ≡ ok q)
unfolding clear_completions position poll_completions poll_loop poll_single_completion phase add
cleared = (_, refl)
