-- ===== src/CommandQueue.antt =====
-- wasabi-kernel/src/pci/nvme/generic_command.rs and queue.rs: the entries of an NVMe queue pair and
-- `CommandQueue` with its operations. The words of the entries are read and written through the
-- crate `bit_field`, and the memory of the completion queue is the controller's: both are arguments.
pub mod Commands
pub mod Order
pub mod Polling
pub mod Rounds
pub mod Turning
pub mod Laps
pub mod Gathering
pub mod Waiting
pub mod Submitting
pub mod Batches
pub mod Creating
mod Tests
use wasabi_os.Prelude.{
  ℕ, zero, suc, ◌+◌, ◌*◌, ◌%◌, ◌^◌, Bool, true, false, not, ◌||◌, Option, none, some, List, [], ◌∷◌,
  ◌⊎◌, inl, inr, ltb, ◌==◌, if◌then◌else◌, set, insert_at, remove_at, get_elem?, Outcome, ok, stuck,
  ◌>>=◌, ◌>>◌, assert, map_ok,
}
use wasabi_os.WrappingValue.{WrappingValue, zero_value, new, add}

-- `bit_field::BitField` on unsigned words; a range is given by its first and last bit.
pub record BitField : Type 0 where
  pub get_bit : ℕ → ℕ → Bool
  pub get_bits : ℕ → ℕ → ℕ → ℕ
  pub set_bits : ℕ → ℕ → ℕ → ℕ → ℕ

pub record DataPtr : Type 0 where
  pub prp_entry_1 : ℕ
  pub prp_entry_2 : ℕ

pub record CommonCommand : Type 0 where
  pub dword0 : ℕ
  pub namespace_ident : ℕ
  pub dword2 : ℕ
  pub dword3 : ℕ
  pub metadata_ptr : ℕ
  pub data_ptr : DataPtr
  pub dword10 : ℕ
  pub dword11 : ℕ
  pub dword12 : ℕ
  pub dword13 : ℕ
  pub dword14 : ℕ
  pub dword15 : ℕ

pub record CommonCompletionEntry : Type 0 where
  pub dword0 : ℕ
  pub dword1 : ℕ
  pub submission_queue_head : ℕ
  pub submission_queue_ident : ℕ
  pub command_ident : ℕ
  pub status_and_phase : ℕ

-- What the n-th read of the completion queue finds in a slot: the controller writes that memory.
abbrev pub Ring : Type 0
Ring = ℕ → ℕ → CommonCompletionEntry

-- `slots` is the memory of the submission queue; a doorbell holds what was written to it, the last
-- value first; `reads` counts the reads of the completion queue.
pub record CommandQueue : Type 0 where
  pub id : ℕ
  pub submission_queue_size : ℕ
  pub slots : List CommonCommand
  pub submission_queue_tail_doorbell : List ℕ
  pub submission_queue_tail : ℕ
  pub submission_queue_head : ℕ
  pub submission_queue_tail_local : WrappingValue
  pub completion_queue_size : ℕ
  pub reads : ℕ
  pub completion_queue_head_doorbell : List ℕ
  pub completion_queue_head : WrappingValue
  pub completion_expected_phase : Bool
  pub completions : List CommonCompletionEntry
  pub next_command_identifier : ℕ

pub data PollCompletionError : Type 0 where
  identifier_still_in_use : ℕ → PollCompletionError

pub record PollCompletionsResult : Type 0 where
  pub some_new_entries : Bool
  pub error_on_any_entry : Option PollCompletionError

pub data NvmeControllerError : Type 0 where
  queue_full : NvmeControllerError
  invalid_queue_size : ℕ → NvmeControllerError
  mem_error : NvmeControllerError

-- The answer of `binary_search_by_key`: the index of the key, or the index to insert it at.
pub data Position : Type 0 where
  at gap : ℕ → Position

abbrev pub later : Position → Position
later (at i) = at (suc i)
later (gap i) = gap (suc i)

-- `completions.binary_search_by_key`, on the sorted list.
unfoldable pub position : ℕ → List CommonCompletionEntry → Position
position ident [] = gap 0
position ident (c ∷ cs) =
    let rest = later (position ident cs) in
    if c.command_ident == ident then at 0 else if ltb ident c.command_ident then gap 0 else rest

abbrev pub same_phase : Bool → Bool → Bool
same_phase true b = b
same_phase false b = not b

module _ (bits : BitField) where
  unfoldable pub command_identifier : ℕ → ℕ
  command_identifier dword0 = bits.get_bits 16 31 dword0

  unfoldable pub set_command_identifier : ℕ → ℕ → ℕ
  set_command_identifier ident dword0 = bits.set_bits 16 31 ident dword0

  unfoldable pub phase : ℕ → Bool
  phase status_and_phase = bits.get_bit status_and_phase 0

abbrev pub zero_command : CommonCommand
zero_command = record {
  dword0 = 0;
  namespace_ident = 0;
  dword2 = 0;
  dword3 = 0;
  metadata_ptr = 0;
  data_ptr = record { prp_entry_1 = 0; prp_entry_2 = 0 };
  dword10 = 0;
  dword11 = 0;
  dword12 = 0;
  dword13 = 0;
  dword14 = 0;
  dword15 = 0;
}

-- The memory of the submission queue after `write_bytes(0, …)`.
abbrev pub zeroed : ℕ → List CommonCommand
zeroed zero = []
zeroed (suc n) = zero_command ∷ zeroed n

abbrev pub fresh_queue : ℕ → ℕ → ℕ → CommandQueue
fresh_queue queue_id submission_queue_size completion_queue_size = record {
  id = queue_id;
  submission_queue_size = submission_queue_size;
  slots = zeroed submission_queue_size;
  submission_queue_tail_doorbell = [];
  submission_queue_tail = 0;
  submission_queue_head = 0;
  submission_queue_tail_local = zero_value submission_queue_size;
  completion_queue_size = completion_queue_size;
  reads = 0;
  completion_queue_head_doorbell = [];
  completion_queue_head = zero_value completion_queue_size;
  completion_expected_phase = true;
  completions = [];
  next_command_identifier = 0;
}

-- `CommandQueue::allocate`, for the stride of the doorbells; `mapped` is whether the allocators had
-- two frames and two pages and the page table mapped them.
unfoldable pub allocate : ℕ → ℕ → ℕ → ℕ → Bool → Outcome (NvmeControllerError ⊎ CommandQueue)
allocate queue_id submission_queue_size completion_queue_size stride mapped =
    if ltb submission_queue_size 2
    then ok (inl (invalid_queue_size submission_queue_size))
    else if ltb completion_queue_size 2
    then ok (inl (invalid_queue_size completion_queue_size))
    else assert (not (ltb stride 4))
      >> (if ltb 4096 (submission_queue_size * 64)
          then ok (inl (invalid_queue_size submission_queue_size))
          else if ltb 4096 (completion_queue_size * 16)
          then ok (inl (invalid_queue_size completion_queue_size))
          else if not mapped
          then ok (inl mem_error)
          else ok (inr (fresh_queue queue_id submission_queue_size completion_queue_size)))

unfoldable pub cancel_submissions : CommandQueue → CommandQueue
cancel_submissions q = record q {
  submission_queue_tail_local = new q.submission_queue_tail q.submission_queue_size;
}

unfoldable pub is_full_for_submission : CommandQueue → Outcome Bool
is_full_for_submission q =
    map_ok (λ next. q.submission_queue_head == next.value) (add 16 q.submission_queue_tail_local 1)

unfoldable pub is_submissions_empty : CommandQueue → Bool
is_submissions_empty q = q.submission_queue_head == q.submission_queue_tail_local.value

unfoldable pub has_submissions_pending_flush : CommandQueue → Bool
has_submissions_pending_flush q =
    not (q.submission_queue_tail == q.submission_queue_tail_local.value)

unfoldable pub flush : CommandQueue → CommandQueue
flush q = if not (has_submissions_pending_flush q) then q else record q {
  submission_queue_tail_doorbell =
      q.submission_queue_tail_local.value ∷ q.submission_queue_tail_doorbell;
  submission_queue_tail = q.submission_queue_tail_local.value;
}

-- The end of `poll_single_completion`, for an entry of the expected phase.
abbrev pub accept :
    CommonCompletionEntry → CommandQueue → Outcome ((PollCompletionError ⊎ Bool) × CommandQueue)
accept completion q = elim (position completion.command_ident q.completions) [
  | at i ↦ ok (inl (identifier_still_in_use completion.command_ident), q)
  | gap i ↦ do
    head ← add 16 q.completion_queue_head 1
    ok (
      inr true,
      record q {
        completion_queue_head = head;
        completion_expected_phase =
            if head.value == 0
            then not q.completion_expected_phase
            else q.completion_expected_phase;
        completions = insert_at i completion q.completions;
      },
    )
]

module _ (bits : BitField) (ring : Ring) where
  unfoldable pub poll_single_completion :
      CommandQueue → Outcome ((PollCompletionError ⊎ Bool) × CommandQueue)
  poll_single_completion q =
      let slot = q.completion_queue_head.value in
      let possible_completion = ring q.reads slot in
      let completion = ring (q.reads + 1) slot in
      if not
        (same_phase (phase bits possible_completion.status_and_phase) q.completion_expected_phase)
      then ok (inr false, record q { reads = q.reads + 1 })
      else (assert (same_phase (phase bits completion.status_and_phase) q.completion_expected_phase)
          >> assert (q.id == completion.submission_queue_ident)
          >> accept completion (record q {
            reads = q.reads + 2;
            submission_queue_head = completion.submission_queue_head;
          }))

  -- The loop of `poll_completions`.
  unfoldable pub poll_loop :
      ℕ → Bool → CommandQueue → Outcome (Bool × Option PollCompletionError × CommandQueue)
  poll_loop zero any_found q = stuck
  poll_loop (suc fuel) any_found q = poll_single_completion q >>= λ polled. elim (polled.0) [
    | inr true ↦ poll_loop fuel true polled.1
    | inr false ↦ ok (any_found, none, polled.1)
    | inl reason ↦ ok (any_found, some reason, polled.1)
  ]

  unfoldable pub poll_completions :
      ℕ → CommandQueue → Outcome (PollCompletionsResult × CommandQueue)
  poll_completions fuel q = poll_loop fuel false q >>= λ polled.
      let (any_found, error, out) = polled in
      ok (
        record { some_new_entries = any_found; error_on_any_entry = error },
        if any_found
            then record out {
              completion_queue_head_doorbell =
                  out.completion_queue_head.value ∷ out.completion_queue_head_doorbell;
            }
            else out,
      )
