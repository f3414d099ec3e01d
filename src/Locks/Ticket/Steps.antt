-- ===== src/Locks/Ticket/Steps.antt =====
-- Every step of a context is a move of the queue: it joins when it draws a ticket, and leaves when
-- it serves the next one.
use wasabi_os.Prelude.{
  ℕ, zero, suc, subst, ◌^◌, ◌≤◌, ◌<◌, ◌≡◌, refl, sym, ◌≢◌, inl, inr, Bool, true, Bool-cases, some,
  List, [], ◌∷◌, ◌++◌, length, get_elem?, get_elem?-below, get_elem?-append, get_elem?-last,
  get_elem?-last_cases, length-append, wrapping_add, arith,
}
use native.Mathlib.Decide.{ℕ_discrete}
use wasabi_os.Locks.Family.{with_member, weigh-with_member, weigh-le}
use wasabi_os.Locks.Ticket.{
  UnsafeTicketLock, no_owner, Context, acquired, calling, entering, waiting, checking, spinning,
  winning, testing, clearing, releasing, Pc, idle, locking, holding, unlocking, panicked, advance,
}
use wasabi_os.Locks.Ticket.System.{System, turn}
use wasabi_os.Locks.Ticket.Fifo.{Moves, stay, join, leave}
use wasabi_os.Locks.Ticket.Simulation.{ticket, draws, critical, owns, Sim}

draws-le : (p : Pc) → draws p ≤ 1
draws-le p = ground arith

-- A step that leaves the context's ticket alone.
abbrev Alike : UnsafeTicketLock → Pc → Pc → Type 0
Alike l p p' = (ticket l p' ≡ ticket l p) × (draws p' ≡ draws p) × (owns p' ≡ owns p)

module _ {context : ℕ → Context} {n : ℕ} {l : UnsafeTicketLock} {pc : ℕ → Pc} {q : List ℕ}
    (sim : Sim context n l pc q) where
  open sim use {few, fits, next, counted, whole, outside, placed, found, owner, owned}

  pub length-le : length q ≤ 2 ^ 64
  length-le = omega (arith, counted, few, weigh-le draws pc draws-le n)

  -- Two places do not hold one context.
  pub place-eq : (d e i : ℕ) → get_elem? q d ≡ some i → get_elem? q e ≡ some i → d ≡ e
  place-eq d e i hd he = ground (
    arith,
    placed d i hd,
    placed e i he,
    get_elem?-below q d hd,
    get_elem?-below q e he,
    length-le,
  )

  -- The context with the ticket that is served stands at the head.
  pub served-head : (i : ℕ) → ticket l (pc i) ≡ some l.current_ticket → get_elem? q 0 ≡ some i
  served-head i h =
      let (d, at_d) = found i l.current_ticket h in
      ground (arith, placed d i at_d, get_elem?-below q d at_d, length-le)

  pub critical-eq : (i j : ℕ) → critical (pc i) ≡ true → critical (pc j) ≡ true → i ≡ j
  critical-eq i j ci cj = ground (arith, served-head i (ground arith), served-head j (ground arith))

  module _ (i : ℕ) (lt : i < n) where
    quiet : (p : Pc) → Alike l (pc i) p → Sim context n l (with_member pc i p) q
    quiet p a = record {
      few = few;
      fits = fits;
      next = next;
      counted = omega (arith, counted, a.1, weigh-with_member draws pc i p n lt);
      whole = whole;
      outside = λ j h. ground (arith, outside j);
      placed = λ d j h. ground (arith, placed d j h, a.0);
      found = λ j t h. ground (arith, found j t, a.0);
      owner = λ j h. ground (arith, owner j, a.2);
      owned = λ h. let (j, o, c) = owned h in (j, ground (arith, a.2), c);
    }

    module _ (small : (context i).core_id < no_owner) where
      drawing :
          pc i ≡ locking entering
          → Sim context n
              (record l { next_ticket = wrapping_add l.next_ticket 1 })
              (with_member pc i (locking (waiting l.next_ticket)))
              (q ++ i ∷ [])
      drawing e = record {
        few = few;
        fits = fits;
        next = omega (arith, next, length-append q (i ∷ []));
        counted = ground (
          arith,
          counted,
          length-append q (i ∷ []),
          weigh-with_member draws pc i (locking (waiting l.next_ticket)) n lt,
        );
        whole = whole;
        outside = λ j h. ground (arith, outside j);
        placed = λ d j h. elim (get_elem?-last_cases q i d h) [
          | inl old ↦ ground (arith, placed d j old)
          | inr (last, same) ↦ ground arith
        ];
        found = λ j t h. elim (ℕ_discrete i j) [
          | yes same ↦ (length q, ground (arith, get_elem?-last q i))
          | no other ↦ let (d, g) = found j t (ground arith) in (d, get_elem?-append q (i ∷ []) d g)
        ];
        owner = λ j h. ground (arith, owner j);
        owned = λ h. let (j, o, c) = owned h in (j, ground arith, c);
      }

      storing :
          pc i ≡ locking winning
          → Sim context n
              (record l { owner = (context i).core_id })
              (with_member pc i (holding acquired))
              q
      storing e = record {
        few = few;
        fits = fits;
        next = next;
        counted = ground (
          arith,
          counted,
          length-append q (i ∷ []),
          weigh-with_member draws pc i (holding acquired) n lt,
        );
        whole = whole;
        outside = λ j h. ground (arith, outside j);
        placed = λ d j h. ground (arith, placed d j h);
        found = λ j t h. found j t (ground arith);
        owner = λ j h. ground (arith, critical-eq i j);
        owned = λ h. (i, ground arith, refl);
      }

      resetting :
          pc i ≡ unlocking clearing
          → Sim context n (record l { owner = no_owner }) (with_member pc i (unlocking releasing)) q
      resetting e = record {
        few = few;
        fits = fits;
        next = next;
        counted = ground (
          arith,
          counted,
          length-append q (i ∷ []),
          weigh-with_member draws pc i (unlocking releasing) n lt,
        );
        whole = whole;
        outside = λ j h. ground (arith, outside j);
        placed = λ d j h. ground (arith, placed d j h);
        found = λ j t h. found j t (ground arith);
        owner = λ j h. ground (arith, critical-eq i j);
        owned = λ h. absurd (h refl);
      }

-- The head of the queue serves the next ticket.
passing :
    {context : ℕ → Context} {n : ℕ} {l : UnsafeTicketLock} {pc : ℕ → Pc} {q : List ℕ} {i : ℕ}
    → Sim context n l pc (i ∷ q)
    → i < n
    → pc i ≡ unlocking releasing
    → Sim context n
        (record l { current_ticket = wrapping_add l.current_ticket 1 })
        (with_member pc i idle)
        q
passing {context} {n} {l} {pc} {q} {i} sim lt e = record {
  few = few;
  fits = omega arith;
  next = omega (arith, next, fits);
  counted = ground (arith, counted, weigh-with_member draws pc i idle n lt);
  whole = whole;
  outside = λ j h. ground (arith, outside j);
  placed = λ d j h. ground (arith, placed (suc d) j h, get_elem?-below q d h, length-le sim);
  found = λ j t h. elim (ℕ_discrete i j) [
    | yes same ↦ absurd (ground arith)
    | no other ↦ waits j t other (ground arith) (found j)
  ];
  owner = λ j h. ground (arith, owner j);
  owned = λ h. let (j, o, c) = owned h in (j, ground arith, c);
}
  where
    open sim use {few, fits, next, counted, whole, outside, placed, found, owner, owned}

    waits :
        (j t : ℕ)
        → i ≢ j
        → ticket (record l { current_ticket = wrapping_add l.current_ticket 1 }) (pc j) ≡ some t
        → ((t' : ℕ) → ticket l (pc j) ≡ some t' → (d : ℕ) × (get_elem? (i ∷ q) d ≡ some j))
        → (d : ℕ) × (get_elem? q d ≡ some j)
    waits j t other h f = elim (Bool-cases (critical (pc j))) [
      | inl c ↦ absurd (other (sym (critical-eq sim j i c (ground arith))))
      | inr c ↦ behind (f t (ground arith))
    ]
      where
        behind : (d : ℕ) × (get_elem? (i ∷ q) d ≡ some j) → (d : ℕ) × (get_elem? q d ≡ some j)
        behind (zero, at_d) = absurd (other (ground arith))
        behind (suc d, at_d) = (d, at_d)

module _ {context : ℕ → Context} {n : ℕ} {l : UnsafeTicketLock} {pc : ℕ → Pc} {q : List ℕ}
    (sim : Sim context n l pc q) (debug : Bool) (i : ℕ) (lt : i < n)
    (small : (context i).core_id < no_owner) where
  abbrev Moved : UnsafeTicketLock × Pc → Type 0
  Moved (l', p) = (q' : List ℕ) × Moves i q q' × Sim context n l' (with_member pc i p) q'

  -- The queue of which `i` is the head, after `i` has served the next ticket.
  served-Moved :
      (r : List ℕ)
      → Sim context n l pc r
      → get_elem? r 0 ≡ some i
      → pc i ≡ unlocking releasing
      → (r' : List ℕ) × Moves i r r'
        × Sim context n
            (record l { current_ticket = wrapping_add l.current_ticket 1 })
            (with_member pc i idle)
            r'
  served-Moved [] s h e = cc
  served-Moved (j ∷ r) s h e = first (ground arith) s
    where
      first :
          j ≡ i
          → Sim context n l pc (j ∷ r)
          → (r' : List ℕ) × Moves i (j ∷ r) r'
            × Sim context n
                (record l { current_ticket = wrapping_add l.current_ticket 1 })
                (with_member pc i idle)
                r'
      first same s' =
          rw (same) (r, leave, passing (subst (λ k. Sim context n l pc (k ∷ r)) same s') lt e)

  advance-Moved :
      (p : Pc)
      → pc i ≡ p
      → (advance debug (context i) l p).1 ≢ panicked
      → Moved (advance debug (context i) l p)
  advance-Moved idle e calm = (q, stay, quiet sim i lt _ (ground arith))
  advance-Moved (locking calling) e calm = (q, stay, quiet sim i lt _ (ground (arith, sim.whole)))
  advance-Moved (locking entering) e calm =
      (q ++ i ∷ [], join (λ d h. ground (arith, sim.placed d i h)), drawing sim i lt small e)
  advance-Moved (locking (waiting t)) e calm = (q, stay, quiet sim i lt _ (ground arith))
  advance-Moved (locking (checking t)) e calm = (q, stay, quiet sim i lt _ (ground arith))
  advance-Moved (locking (spinning t)) e calm = (q, stay, quiet sim i lt _ (ground arith))
  advance-Moved (locking winning) e calm = (q, stay, storing sim i lt small e)
  advance-Moved (holding r) e calm = (q, stay, quiet sim i lt _ (ground arith))
  advance-Moved (unlocking testing) e calm = (q, stay, quiet sim i lt _ (ground arith))
  advance-Moved (unlocking clearing) e calm = (q, stay, resetting sim i lt small e)
  advance-Moved (unlocking releasing) e calm =
      served-Moved q sim (served-head sim i (ground arith)) e
  advance-Moved panicked e calm = absurd (calm refl)

-- The ticket lock refines a fair lock: in a state that stands for a queue of contexts, on a core
-- whose id is no `!0`, a step of context `i` that does not panic leads to a state that stands for
-- that queue, or for the queue with `i` added at the end, or for the queue without `i`, which was
-- at the head.
pub turn-Moves :
    {context : ℕ → Context} {n : ℕ} {s : System} {q : List ℕ}
    → Sim context n s.lock s.pc q
    → (debug : Bool) (i : ℕ) → i < n
    → (context i).core_id < no_owner
    → (advance debug (context i) s.lock (s.pc i)).1 ≢ panicked
    → (q' : List ℕ) × Moves i q q'
      × Sim context n (turn debug context s i).lock (turn debug context s i).pc q'
turn-Moves {s} sim debug i lt small calm = advance-Moved sim debug i lt small (s.pc i) refl calm
