-- ===== src/CommandQueue/Commands.antt =====
-- wasabi-kernel/src/pci/nvme/queue.rs: the operations of `CommandQueue` that poll on the way.
-- `fuel` bounds the rounds of a loop that polls; a loop that runs out of it is `stuck`.
use wasabi_os.Prelude.{
  ℕ, zero, suc, ◌+◌, ◌%◌, ◌^◌, Bool, true, false, Option, none, some, List, [], ◌∷◌, ◌++◌, ◌⊎◌, inl,
  inr, set, remove_at, get_elem?, Outcome, ok, stuck, ◌>>=◌, ◌>>◌, assert, expect,
}
use wasabi_os.WrappingValue.{add}
use wasabi_os.CommandQueue.{
  BitField, Ring, CommonCommand, CommonCompletionEntry, CommandQueue, PollCompletionError,
  NvmeControllerError, queue_full, at, gap, position, set_command_identifier,
  is_full_for_submission, poll_completions,
}

abbrev is_none {ℓ} : {A : Type ℓ} → Option A → Bool
is_none none = true
is_none (some a) = false

-- The closure `get_if_exists` of `wait_for`.
unfoldable pub get_if_exists :
    ℕ → CommandQueue → Outcome (Option CommonCompletionEntry × CommandQueue)
get_if_exists ident q = elim (position ident q.completions) [
  | gap i ↦ ok (none, q)
  | at i ↦ do
    entry ← expect (get_elem? q.completions i)
    ok (some entry, record q { completions = remove_at i q.completions })
]

module _ (bits : BitField) where
  -- The end of `submit`, for a queue with a free slot.
  unfoldable pub place : CommonCommand → CommandQueue → Outcome (ℕ × CommandQueue)
  place command q =
      let identifier = q.next_command_identifier in
      let entry_slot_index = q.submission_queue_tail_local.value in
      let marked = record command {
        dword0 = set_command_identifier bits identifier command.dword0;
      } in
      do
        tail ← add 16 q.submission_queue_tail_local 1
        ok (
          identifier,
          record q {
            next_command_identifier = (identifier + 1) % 2 ^ 16;
            submission_queue_tail_local = tail;
            slots = set q.slots entry_slot_index marked;
          },
        )

  module _ (ring : Ring) where
    unfoldable pub submit :
        ℕ → CommonCommand → CommandQueue → Outcome ((NvmeControllerError ⊎ ℕ) × CommandQueue)
    submit fuel command q = is_full_for_submission q >>= λ full. elim full [
      | false ↦ placed q
      | true ↦ poll_completions bits ring fuel q >>= λ polled. elim (polled.0.some_new_entries) [
        | false ↦ ok (inl queue_full, polled.1)
        | true ↦ is_full_for_submission polled.1 >>= λ still. elim still [
          | true ↦ ok (inl queue_full, polled.1)
          | false ↦ placed polled.1
        ]
      ]
    ]
      where
        placed : CommandQueue → Outcome ((NvmeControllerError ⊎ ℕ) × CommandQueue)
        placed r = place command r >>= λ out. ok (inr out.0, out.1)

    -- The loop of `submit_all`, with the identifiers so far.
    unfoldable pub submit_rest :
        ℕ
        → List CommonCommand
        → List ℕ
        → CommandQueue
        → Outcome ((NvmeControllerError ⊎ List ℕ) × CommandQueue)
    submit_rest fuel [] idents q = ok (inr idents, q)
    submit_rest fuel (command ∷ commands) idents q = submit fuel command q >>= λ out. elim (out.0) [
      | inl error ↦ ok (inl error, out.1)
      | inr ident ↦ submit_rest fuel commands (idents ++ ident ∷ []) out.1
    ]

    unfoldable pub submit_all :
        ℕ
        → List CommonCommand
        → CommandQueue
        → Outcome ((NvmeControllerError ⊎ List ℕ) × CommandQueue)
    submit_all fuel commands q = submit_rest fuel commands [] q

    unfoldable pub clear_completions : ℕ → CommandQueue → Outcome CommandQueue
    clear_completions zero q = stuck
    clear_completions (suc fuel) q =
        poll_completions bits ring (suc fuel) (record q { completions = [] }) >>= λ polled.
        assert (is_none polled.0.error_on_any_entry) >> elim (polled.0.some_new_entries) [
          | true ↦ clear_completions fuel polled.1
          | false ↦ ok polled.1
        ]

    -- The loop of `wait_for`.
    unfoldable pub wait_loop :
        ℕ
        → ℕ
        → CommandQueue
        → Outcome ((PollCompletionError ⊎ CommonCompletionEntry) × CommandQueue)
    wait_loop zero ident q = stuck
    wait_loop (suc fuel) ident q = poll_completions bits ring (suc fuel) q >>= λ polled.
        elim (polled.0.some_new_entries) [
          | true ↦ get_if_exists ident polled.1 >>= λ found. elim (found.0) [
            | some entry ↦ ok (inr entry, found.1)
            | none ↦ wait_loop fuel ident found.1
          ]
          | false ↦ elim (polled.0.error_on_any_entry) [
            | some err ↦ ok (inl err, polled.1)
            | none ↦ wait_loop fuel ident polled.1
          ]
        ]

    unfoldable pub wait_for :
        ℕ
        → ℕ
        → CommandQueue
        → Outcome ((PollCompletionError ⊎ CommonCompletionEntry) × CommandQueue)
    wait_for fuel ident q = get_if_exists ident q >>= λ found. elim (found.0) [
      | some entry ↦ ok (inr entry, found.1)
      | none ↦ wait_loop fuel ident found.1
    ]

    -- The loop of `wait_for_all`, with the entries so far.
    unfoldable pub wait_rest :
        ℕ
        → List ℕ
        → List CommonCompletionEntry
        → CommandQueue
        → Outcome (
            ((List CommonCompletionEntry × PollCompletionError) ⊎ List CommonCompletionEntry)
            × CommandQueue)
    wait_rest fuel [] completed q = ok (inr completed, q)
    wait_rest fuel (ident ∷ idents) completed q = wait_for fuel ident q >>= λ out. elim (out.0) [
      | inl err ↦ ok (inl (completed, err), out.1)
      | inr entry ↦ wait_rest fuel idents (completed ++ entry ∷ []) out.1
    ]

    unfoldable pub wait_for_all :
        ℕ
        → List ℕ
        → CommandQueue
        → Outcome (
            ((List CommonCompletionEntry × PollCompletionError) ⊎ List CommonCompletionEntry)
            × CommandQueue)
    wait_for_all fuel idents q = wait_rest fuel idents [] q
