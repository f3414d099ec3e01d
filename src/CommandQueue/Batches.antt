-- ===== src/CommandQueue/Batches.antt =====
-- wasabi-kernel/src/pci/nvme/queue.rs: `submit_all`, then `flush` or `cancel_submissions`.
use wasabi_os.Prelude.{
  append-nil, ℕ, zero, suc, ◌+◌, ◌-◌, ◌%◌, ◌^◌, ◌<◌, ◌≡◌, refl, sym, ap, ◌∙◌, ◌⊎◌, inl, inr, true,
  false, List, [], ◌∷◌, ◌++◌, Bool-cases, leb, ◌==◌, if◌then◌else◌, length, Outcome, ok, arith,
}
use wasabi_os.WrappingValue.{WrappingValue, new}
use wasabi_os.CommandQueue.{
  BitField, Ring, CommonCommand, CommandQueue, NvmeControllerError, has_submissions_pending_flush,
  cancel_submissions, flush,
}
use wasabi_os.CommandQueue.Commands.{submit_rest, submit_all}
use wasabi_os.CommandQueue.Polling.{IsValid}
use wasabi_os.CommandQueue.Submitting.{Placed, IsFull, one_on, submit-Placed}

-- The slots in use, from the controller's head to the local tail around the ring.
abbrev pub used : CommandQueue → ℕ
used q =
    if leb q.submission_queue_head q.submission_queue_tail_local.value
    then q.submission_queue_tail_local.value - q.submission_queue_head
    else q.submission_queue_tail_local.value + q.submission_queue_size - q.submission_queue_head

-- The identifiers of `n` commands in a row.
abbrev pub idents_from : ℕ → ℕ → List ℕ
idents_from zero ident = []
idents_from (suc n) ident = ident ∷ idents_from n ((ident + 1) % 2 ^ 16)

idents_step :
    (idents : List ℕ) (ident next n : ℕ)
    → next ≡ (ident + 1) % 2 ^ 16
    → (idents ++ ident ∷ []) ++ idents_from n next ≡ idents ++ idents_from (suc n) ident
idents_step [] ident next n e = ap (λ k. ident ∷ idents_from n k) e
idents_step (x ∷ xs) ident next n e = ap (◌∷◌ x) (idents_step xs ident next n e)

answer_eq :
    (q : CommandQueue) (xs ys : List ℕ)
    → xs ≡ ys
    → ◌≡◌ {A = Outcome ((NvmeControllerError ⊎ List ℕ) × CommandQueue)}
        (ok (inr xs, q))
        (ok (inr ys, q))
answer_eq q xs ys e = ap (λ l. ok (inr l, q)) e

new_eq : (v : WrappingValue) (a b : ℕ) → a ≡ v.value → b ≡ v.modulo → new a b ≡ v
new_eq v a b value modulo = ap (λ x. new x b) value ∙ ap (λ m. new v.value m) modulo

flush_settles : (q : CommandQueue) → has_submissions_pending_flush (flush q) ≡ false
unfolding flush has_submissions_pending_flush
flush_settles q =
    elim (Bool-cases (q.submission_queue_tail == q.submission_queue_tail_local.value)) [
      | inl same ↦ rw (same, flush) (rw same)
      | inr other ↦
          let own : (q.submission_queue_tail_local.value == q.submission_queue_tail_local.value)
              ≡ true =
            ground arith in
          rw (other, flush) (rw own)
    ]

flush_idle : (q : CommandQueue) → has_submissions_pending_flush q ≡ false → flush q ≡ q
unfolding flush
flush_idle q idle = rw (idle, flush)

room-used :
    (q : CommandQueue)
    → IsValid q
    → q.submission_queue_head < q.submission_queue_size
    → used q + 1 < q.submission_queue_size
    → ¬ IsFull q
room-used q v h room full =
    elim (one_on q.submission_queue_tail_local.value q.submission_queue_size v.local_tail) [
      | inl (lt, e) ↦ ground (arith, e)
      | inr (around, e) ↦ ground (arith, e)
    ]

module _ (bits : BitField) where
  used-Placed :
      (command : CommonCommand) (q r : CommandQueue)
      → IsValid q
      → q.submission_queue_head < q.submission_queue_size
      → used q + 1 < q.submission_queue_size
      → Placed bits command q r
      → used r ≡ used q + 1
  used-Placed command q r v h room p =
      let size : r.submission_queue_size ≡ q.submission_queue_size =
        ap (λ s. s.submission_queue_size) p.rest in
      let head : r.submission_queue_head ≡ q.submission_queue_head =
        ap (λ s. s.submission_queue_head) p.rest in
      let tail : r.submission_queue_tail_local.value
          ≡ (q.submission_queue_tail_local.value + 1) % q.submission_queue_size =
        ap (λ w. w.value) p.tail_local in
      elim (one_on q.submission_queue_tail_local.value q.submission_queue_size v.local_tail) [
        | inl (lt, e) ↦ ground (arith, e, tail, size, head)
        | inr (around, e) ↦ ground (arith, e, tail, size, head)
      ]

  -- Commands placed one after the other.
  pub data Placing : List CommonCommand → CommandQueue → CommandQueue → Type 0 where
    done : (q : CommandQueue) → Placing [] q q
    next :
        (command : CommonCommand) (commands : List CommonCommand) (q r s : CommandQueue)
        → Placed bits command q r
        → Placing commands r s
        → Placing (command ∷ commands) q s

  -- What a batch leaves alone.
  placing_rest :
      (commands : List CommonCommand) (q r : CommandQueue)
      → Placing commands q r
      → r ≡ record q {
        slots = r.slots;
        submission_queue_tail_local = r.submission_queue_tail_local;
        next_command_identifier = r.next_command_identifier;
      }
  placing_rest commands q r (done _) = refl
  placing_rest commands q s (next _ more _ r _ p rest) =
      placing_rest more r s rest
      ∙ ap {A = CommandQueue} {B = CommandQueue}
          (λ t. record t {
            slots = s.slots;
            submission_queue_tail_local = s.submission_queue_tail_local;
            next_command_identifier = s.next_command_identifier;
          })
          p.rest

  placing_used :
      (commands : List CommonCommand) (q r : CommandQueue)
      → Placing commands q r
      → IsValid q
      → q.submission_queue_head < q.submission_queue_size
      → used q + length commands < q.submission_queue_size
      → (used r ≡ used q + length commands) × IsValid r
  placing_used commands q r (done _) v h room = (omega arith, v)
  placing_used commands q s (next command more _ r _ p rest) v h room =
      let size : r.submission_queue_size ≡ q.submission_queue_size =
        ap (λ s. s.submission_queue_size) p.rest in
      let head : r.submission_queue_head ≡ q.submission_queue_head =
        ap (λ s. s.submission_queue_head) p.rest in
      let one = used-Placed command q r v h (omega arith) p in
      let (all, valid) =
        placing_used more r s rest p.valid (omega (arith, size, head, h))
          (omega (arith, size, one, room)) in
      (omega (arith, all, one), valid)

  module _ (ring : Ring) where
    submit_rest-Placing :
        (fuel : ℕ) (commands : List CommonCommand) (idents : List ℕ) (q : CommandQueue)
        → IsValid q
        → q.submission_queue_head < q.submission_queue_size
        → used q + length commands < q.submission_queue_size
        → (r : CommandQueue) × (submit_rest bits ring fuel commands idents q
            ≡ ok (inr (idents ++ idents_from (length commands) q.next_command_identifier), r))
          × Placing commands q r
    unfolding submit_rest
    submit_rest-Placing fuel [] idents q v h room =
        (q, answer_eq q idents (idents ++ []) (sym (append-nil idents)), done q)
    submit_rest-Placing fuel (command ∷ commands) idents q v h room =
        let (r, put, p) =
          submit-Placed bits ring fuel command q v (room-used q v h (omega arith)) in
        let size : r.submission_queue_size ≡ q.submission_queue_size =
          ap (λ s. s.submission_queue_size) p.rest in
        let head : r.submission_queue_head ≡ q.submission_queue_head =
          ap (λ s. s.submission_queue_head) p.rest in
        let one = used-Placed command q r v h (omega arith) p in
        let (s, run, placing) =
          submit_rest-Placing fuel commands (idents ++ q.next_command_identifier ∷ []) r p.valid
            (omega (arith, size, head, h)) (omega (arith, size, one, room)) in
        (
          s,
          rw (put, submit_rest)
              (run
                ∙ answer_eq s _ _ (
                    idents_step idents q.next_command_identifier r.next_command_identifier
                      (length commands) p.ident)),
          next command commands q r s p placing,
        )

    -- On a valid queue whose reported head is one of its slots, with room for all of them,
    -- `submit_all` places the commands one after the other and returns their identifiers, which
    -- count on from the next one modulo 2^16; it takes one slot for each command and leaves the
    -- queue valid.
    pub submit_all-Placing :
        (fuel : ℕ) (commands : List CommonCommand) (q : CommandQueue)
        → IsValid q
        → q.submission_queue_head < q.submission_queue_size
        → used q + length commands < q.submission_queue_size
        → (r : CommandQueue) × (submit_all bits ring fuel commands q
            ≡ ok (inr (idents_from (length commands) q.next_command_identifier), r))
          × Placing commands q r
          × (used r ≡ used q + length commands)
          × IsValid r
    unfolding submit_all
    submit_all-Placing fuel commands q v h room =
        let (r, run, placing) = submit_rest-Placing fuel commands [] q v h room in
        let (all, valid) = placing_used commands q r placing v h room in
        (r, run, placing, all, valid)

  -- On a valid queue with nothing pending, `cancel_submissions` takes back every command placed
  -- since: the queue is as it was, but for the contents of the slots and the identifiers, which
  -- stay used.
  pub placing_cancel :
      (commands : List CommonCommand) (q r : CommandQueue)
      → Placing commands q r
      → IsValid q
      → has_submissions_pending_flush q ≡ false
      → cancel_submissions r
        ≡ record q { slots = r.slots; next_command_identifier = r.next_command_identifier }
  unfolding cancel_submissions has_submissions_pending_flush
  placing_cancel commands q r placing v flushed =
      let tail : q.submission_queue_tail ≡ q.submission_queue_tail_local.value = ground arith in
      ap {A = CommandQueue} {B = CommandQueue} (λ s. cancel_submissions s)
        (placing_rest commands q r placing)
      ∙ ap {A = WrappingValue} {B = CommandQueue}
          (λ w. record q {
            slots = r.slots;
            next_command_identifier = r.next_command_identifier;
            submission_queue_tail_local = w;
          })
          (new_eq q.submission_queue_tail_local q.submission_queue_tail q.submission_queue_size tail
            (sym v.submission_modulo))

  -- On a valid queue whose reported head is one of its slots, with nothing pending, a flush after a
  -- batch of at least one command that fits writes the new tail to the doorbell, once, and nothing
  -- is pending any more; a second flush changes nothing.
  pub placing_flush :
      (commands : List CommonCommand) (q r : CommandQueue)
      → Placing commands q r
      → IsValid q
      → q.submission_queue_head < q.submission_queue_size
      → 0 < length commands
      → used q + length commands < q.submission_queue_size
      → has_submissions_pending_flush q ≡ false
      → (flush r ≡ record r {
        submission_queue_tail_doorbell =
            r.submission_queue_tail_local.value ∷ q.submission_queue_tail_doorbell;
        submission_queue_tail = r.submission_queue_tail_local.value;
      })
        × (has_submissions_pending_flush (flush r) ≡ false)
        × (flush (flush r) ≡ flush r)
  unfolding flush has_submissions_pending_flush
  placing_flush commands q r placing v h some_commands room flushed =
      let rest = placing_rest commands q r placing in
      let size : r.submission_queue_size ≡ q.submission_queue_size =
        ap (λ s. s.submission_queue_size) rest in
      let head : r.submission_queue_head ≡ q.submission_queue_head =
        ap (λ s. s.submission_queue_head) rest in
      let tail : r.submission_queue_tail ≡ q.submission_queue_tail =
        ap (λ s. s.submission_queue_tail) rest in
      let doorbell : r.submission_queue_tail_doorbell ≡ q.submission_queue_tail_doorbell =
        ap (λ s. s.submission_queue_tail_doorbell) rest in
      let (all, valid) = placing_used commands q r placing v h room in
      let pending : (r.submission_queue_tail == r.submission_queue_tail_local.value) ≡ false =
        ground (arith, all, size, head, tail) in
      (rw (pending, flush) (rw doorbell), flush_settles r, flush_idle (flush r) (flush_settles r))
