-- ===== src/CommandQueue/Creating.antt =====
-- wasabi-kernel/src/pci/nvme/queue.rs: `allocate`; generic_command.rs: the identifier of a command.
use wasabi_os.Prelude.{
  ℕ, zero, suc, ◌*◌, ◌^◌, ◌≤◌, ◌<◌, ◌≡◌, refl, ap, ◌∙◌, inr, true, false, some, ltb, length,
  get_elem?, get_elem?-set, ok, arith,
}
use wasabi_os.CommandQueue.{
  BitField, CommonCommand, CommandQueue, zeroed, fresh_queue, allocate, command_identifier,
  set_command_identifier, is_submissions_empty, has_submissions_pending_flush,
}
use wasabi_os.CommandQueue.Polling.{IsValid}
use wasabi_os.CommandQueue.Submitting.{Placed}

length-zeroed : (n : ℕ) → length (zeroed n) ≡ n
length-zeroed zero = refl
length-zeroed (suc n) = ap suc (length-zeroed n)

-- Two queues of at least two slots that fit in a page each are made without a panic if the stride
-- of the doorbells is at least 4 and the memory could be mapped: the new queue is valid and empty,
-- with nothing pending.
pub allocate-IsValid :
    (queue_id submission_queue_size completion_queue_size stride : ℕ)
    → 2 ≤ submission_queue_size
    → submission_queue_size * 64 ≤ 4096
    → 2 ≤ completion_queue_size
    → completion_queue_size * 16 ≤ 4096
    → 4 ≤ stride
    → (q : CommandQueue) × (allocate queue_id submission_queue_size completion_queue_size stride
          true
        ≡ ok (inr q))
      × IsValid q
      × (is_submissions_empty q ≡ true)
      × (has_submissions_pending_flush q ≡ false)
unfolding allocate is_submissions_empty has_submissions_pending_flush
allocate-IsValid queue_id sub comp stride sub_min sub_max comp_min comp_max wide =
    let a : ltb sub 2 ≡ false = ground arith in
    let b : ltb comp 2 ≡ false = ground arith in
    let c : ltb stride 4 ≡ false = ground arith in
    let d : ltb 4096 (sub * 64) ≡ false = ground arith in
    let e : ltb 4096 (comp * 16) ≡ false = ground arith in
    (
      fresh_queue queue_id sub comp,
      rw (a, b, c, allocate) (rw (d, e)),
      record {
        submission_word = omega arith;
        submission_modulo = refl;
        local_tail = omega arith;
        tail = omega arith;
        slot_count = length-zeroed sub;
        completion_word = omega arith;
        completion_modulo = refl;
        head = omega arith;
        sorted = tt;
        ident = omega arith;
      },
      refl,
      refl,
    )

-- If bits 16 to 31 of a word read back what is written to them, on a valid queue the slot of a
-- placed command holds the identifier that `submit` returned.
pub identifier_of_command :
    (bits : BitField) (command : CommonCommand) (q r : CommandQueue)
    → ((v x : ℕ) → v < 2 ^ 16 → bits.get_bits 16 31 (bits.set_bits 16 31 v x) ≡ v)
    → IsValid q
    → Placed bits command q r
    → (c : CommonCommand) × (get_elem? r.slots q.submission_queue_tail_local.value ≡ some c)
      × (command_identifier bits c.dword0 ≡ q.next_command_identifier)
unfolding command_identifier set_command_identifier
identifier_of_command bits command q r law v p = (
  record command { dword0 = set_command_identifier bits q.next_command_identifier command.dword0 },
  ap (λ s. get_elem? s q.submission_queue_tail_local.value) p.written
      ∙ get_elem?-set q.slots q.submission_queue_tail_local.value _ p.inside,
  law q.next_command_identifier command.dword0 v.ident,
)
