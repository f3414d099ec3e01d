-- ===== src/CommandQueue/Waiting.antt =====
-- wasabi-kernel/src/pci/nvme/queue.rs: `wait_for`.
use wasabi_os.Prelude.{
  differ, ℕ, zero, suc, ◌+◌, ◌<◌, ◌≡◌, ◌≢◌, refl, sym, subst, ap, ◌∙◌, ◌↔◌, ◌⊎◌, inl, inr, Bool,
  true, false, not, Option, none, some, ◌==◌, if◌then◌else◌, remove_at, ok, ◌>>=◌, arith,
}
use wasabi_os.CommandQueue.{
  BitField, Ring, CommonCompletionEntry, CommandQueue, Position, at, gap, position,
  PollCompletionError, PollCompletionsResult, identifier_still_in_use, poll_completions,
}
use wasabi_os.CommandQueue.Commands.{get_if_exists, wait_loop, wait_for}
use wasabi_os.CommandQueue.Order.{
  Holds, HasIdent, Located, position-Located, get_elem?-Holds, Holds-remove, Holds-unique,
  remove_at-IsSorted,
}
use wasabi_os.CommandQueue.Polling.{IsValid, first_read, second_read, ready, Polled}
use wasabi_os.CommandQueue.Rounds.{IsQuiet, Taking, done, next}
use wasabi_os.CommandQueue.Laps.{answer}
use wasabi_os.CommandQueue.Gathering.{
  rung, Gathers, poll_completions-Gathers, Taking-held, final_completions,
}

-- The entry was held, and only it was taken out.
pub record Fetched (e : CommonCompletionEntry) (q r : CommandQueue) : Type 0 where
  pub held : Holds q.completions e
  pub left :
      (d : CommonCompletionEntry)
      → Holds r.completions d ↔ (Holds q.completions d × d.command_ident ≢ e.command_ident)
  pub queue : r ≡ record q { completions = r.completions }
  pub valid : IsValid r

-- What `get_if_exists` finds.
abbrev Finds : ℕ → CommandQueue → Type 0
Finds k q =
    ((¬ HasIdent q.completions k) × (get_if_exists k q ≡ ok (none, q)))
    ⊎ ((e : CommonCompletionEntry) × (r : CommandQueue) × (get_if_exists k q ≡ ok (some e, r))
        × (e.command_ident ≡ k)
        × Fetched e q r)

without-IsValid :
    (i : ℕ) (q : CommandQueue)
    → IsValid q
    → IsValid (record q { completions = remove_at i q.completions })
without-IsValid i q v = record {
  submission_word = v.submission_word;
  submission_modulo = v.submission_modulo;
  local_tail = v.local_tail;
  tail = v.tail;
  slot_count = v.slot_count;
  completion_word = v.completion_word;
  completion_modulo = v.completion_modulo;
  head = v.head;
  sorted = remove_at-IsSorted i q.completions v.sorted;
  ident = v.ident;
}

get_if_exists-Finds : (k : ℕ) (q : CommandQueue) → IsValid q → Finds k q
unfolding get_if_exists
get_if_exists-Finds k q v =
    go (position k q.completions) (position-Located k q.completions v.sorted) refl
  where
    go : (p : Position) → Located k q.completions p → position k q.completions ≡ p → Finds k q
    go (gap i) l e = inl (λ h. l.0 h.0 h.1 h.2, rw (e, get_if_exists))
    go (at i) l e = inr (
      l.0,
      record q { completions = remove_at i q.completions },
      rw (e, get_if_exists) (rw (l.1)),
      l.2,
      record {
        held = get_elem?-Holds q.completions i l.0 l.1;
        left = λ d. Holds-remove i q.completions l.0 d v.sorted l.1;
        queue = refl;
        valid = without-IsValid i q v;
      },
    )

completions_if :
    (b : Bool) (q : CommandQueue) → (if b then q else rung q).completions ≡ q.completions
completions_if true q = refl
completions_if false q = refl

absent_get :
    (k : ℕ) (q : CommandQueue)
    → IsValid q
    → ¬ HasIdent q.completions k
    → get_if_exists k q ≡ ok (none, q)
absent_get k q v missing = elim (get_if_exists-Finds k q v) [
  | inl (missed, run) ↦ run
  | inr (e, r, run, is, f) ↦ absurd (missing (e, f.held, is))
]

module _ (bits : BitField) (ring : Ring) where
  -- On a valid queue a completion that is held already is taken out and returned, and nothing else
  -- changes, in the reads and the doorbells neither.
  pub wait_for_held :
      (fuel k : ℕ) (q : CommandQueue) (e : CommonCompletionEntry)
      → IsValid q
      → Holds q.completions e
      → e.command_ident ≡ k
      → (r : CommandQueue) × (wait_for bits ring fuel k q ≡ ok (inr e, r)) × Fetched e q r
  unfolding wait_for
  wait_for_held fuel k q e v h is = elim (get_if_exists-Finds k q v) [
    | inl (missed, run) ↦ absurd (missed (e, h, is))
    | inr (d, r, run, own, f) ↦
        let same : d ≡ e = Holds-unique q.completions d e v.sorted f.held h (own ∙ sym is) in
        (r, rw (run, wait_for) (rw same), subst (λ c. Fetched c q r) same f)
  ]

  posted_taken :
      (n : ℕ) (q last : CommandQueue) (error : Option PollCompletionError) (rest : CommandQueue)
      → IsQuiet ring q.id
      → ready bits ring (first_read bits ring q) q ≡ true
      → ¬ HasIdent q.completions (first_read bits ring q).command_ident
      → Taking bits ring n q last
      → Polled bits ring last (answer bits ring error) rest
      → (not (n == 0) ≡ true) × Holds last.completions (first_read bits ring q)
  posted_taken n q last none rest quiet fresh missing (done _) final = differ fresh final.0
  posted_taken n q last (some (identifier_still_in_use k)) rest quiet fresh missing (done _) final =
      absurd (
        missing (
          final.1.0,
          final.1.1,
          final.1.2
              ∙ sym final.0
              ∙ ap (λ e. e.command_ident)
                  (quiet.same (q.reads + 1) q.reads q.completion_queue_head.value),
        ))
  posted_taken n q last error rest quiet fresh missing (next m _ r _ again t more) final = (
    ground arith,
    subst (Holds last.completions) (quiet.same (q.reads + 1) q.reads q.completion_queue_head.value)
        (Taking-held bits ring m r last (second_read bits ring q) more
          ((t.held (second_read bits ring q)).1 (inl refl))),
  )

  posted_gathered :
      (q : CommandQueue)
      → IsQuiet ring q.id
      → (result : PollCompletionsResult) (r : CommandQueue)
      → ready bits ring (first_read bits ring q) q ≡ true
      → ¬ HasIdent q.completions (first_read bits ring q).command_ident
      → Gathers bits ring q result r
      → (result.some_new_entries ≡ true)
        × Holds r.completions (first_read bits ring q)
        × ((e : CommonCompletionEntry) → Holds q.completions e → Holds r.completions e)
  posted_gathered q quiet result r fresh missing g =
      let (more, holds) =
        posted_taken g.count q g.last result.error_on_any_entry g.rest quiet fresh missing g.taken
          g.final in
      let kept : r.completions ≡ g.last.completions =
        ap (λ s. s.completions) g.queue
        ∙ completions_if (g.count == 0) g.rest
        ∙ final_completions bits ring g.last g.rest result.error_on_any_entry g.final in
      (
        g.new_entries ∙ more,
        subst (λ cs. Holds cs (first_read bits ring q)) (sym kept) holds,
        λ e h.
            subst (λ cs. Holds cs e) (sym kept)
              (Taking-held bits ring g.count q g.last e g.taken h),
      )

  loop_found :
      (fuel k : ℕ) (q mid r : CommandQueue) (result : PollCompletionsResult)
      (e : CommonCompletionEntry)
      → poll_completions bits ring (suc fuel) q ≡ ok (result, mid)
      → result.some_new_entries ≡ true
      → get_if_exists k mid ≡ ok (some e, r)
      → wait_loop bits ring (suc fuel) k q ≡ ok (inr e, r)
  unfolding wait_loop
  loop_found fuel k q mid r result e polled found run =
      rw (polled, wait_loop) (rw (found, ◌>>=◌) (rw (run)))

  -- On a valid queue and a quiet ring, with enough fuel, `wait_for` returns the completion that is
  -- posted at the head of the ring, if its identifier is not held already: it is held no more, what
  -- was held before is kept, and the queue is valid.
  pub wait_for_posted :
      (fuel k : ℕ) (q : CommandQueue)
      → IsValid q
      → IsQuiet ring q.id
      → q.completion_queue_size < fuel
      → ready bits ring (first_read bits ring q) q ≡ true
      → (first_read bits ring q).command_ident ≡ k
      → ¬ HasIdent q.completions k
      → (r : CommandQueue) × (wait_for bits ring fuel k q ≡ ok (inr (first_read bits ring q), r))
        × (¬ HasIdent r.completions k)
        × ((e : CommonCompletionEntry) → Holds q.completions e → Holds r.completions e)
        × IsValid r
  unfolding wait_for wait_loop
  wait_for_posted zero k q v quiet enough fresh is missing = absurd (omega arith)
  wait_for_posted (suc fuel) k q v quiet enough fresh is missing =
      let (result, mid, polled, g) =
        poll_completions-Gathers bits ring (suc fuel) q v quiet enough in
      let p = posted_gathered q quiet result mid fresh (λ h. missing (h.0, h.1, h.2 ∙ is)) g in
      elim (get_if_exists-Finds k mid g.valid) [
        | inl (missed, run) ↦ absurd (missed (first_read bits ring q, p.1, is))
        | inr (d, r, run, own, f) ↦
            let same : d ≡ first_read bits ring q =
              Holds-unique mid.completions d (first_read bits ring q) g.valid.sorted f.held p.1
                (own ∙ sym is) in
            (
              r,
              rw (absent_get k q v missing, wait_for)
                  (loop_found fuel k q mid r result d polled p.0 run
                    ∙ ap (λ c. ok (inr c, r)) same),
              λ h. ((f.left h.0).0 h.1).1 (h.2 ∙ sym own),
              λ e h. (f.left e).1 (p.2 e h, λ equal. missing (e, h, equal ∙ own)),
              f.valid,
            )
      ]
