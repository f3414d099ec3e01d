-- ===== src/Locks/Ticket/Progress.antt =====
-- A lock that is waited for is not lost: its turn has come for a context that has the lock or gets
-- it by its own steps.
use wasabi_os.Prelude.{
  ℕ, zero, suc, ◌≤◌, ◌≡◌, refl, ◌≢◌, ◌⊎◌, inl, inr, Bool, true, some, List, [], ◌∷◌, get_elem?,
  get_elem?-below, get_elem?-lt, arith,
}
use native.Mathlib.Decide.{ℕ_discrete}
use wasabi_os.Locks.Ticket.{
  UnsafeTicketLock, no_owner, Context, acquired, calling, entering, waiting, checking, spinning,
  winning, Pc, idle, locking, holding, unlocking, panicked,
}
use wasabi_os.Locks.Ticket.System.{System, turn, run, Reach}
use wasabi_os.Locks.Ticket.Simulation.{ticket, critical, owns, Sim}
use wasabi_os.Locks.Ticket.Steps.{served-head}
use wasabi_os.Locks.Ticket.Safety.{Setting, Sound, Reach-Sound}

-- Context `j` alone has a guard after `k` of its steps.
abbrev pub alone : ℕ → ℕ → List ℕ
alone zero j = []
alone (suc k) j = j ∷ alone k j

module _ (debug : Bool) (context : ℕ → Context) where
  abbrev pub EntersIn : ℕ → System → ℕ → Type 0
  EntersIn k s j = (run debug context s (alone k j)).pc j ≡ holding acquired

  winning-EntersIn : (s : System) (j : ℕ) → s.pc j ≡ locking winning → EntersIn 1 s j
  winning-EntersIn s j e = ground arith

  waiting-EntersIn :
      (s : System) (j : ℕ) → s.pc j ≡ locking (waiting s.lock.current_ticket) → EntersIn 2 s j
  waiting-EntersIn s j e = winning-EntersIn (turn debug context s j) j (ground arith)

  spinning-EntersIn :
      (s : System) (j : ℕ) → s.pc j ≡ locking (spinning s.lock.current_ticket) → EntersIn 3 s j
  spinning-EntersIn s j e = waiting-EntersIn (turn debug context s j) j (ground arith)

  checking-EntersIn :
      (s : System) (j : ℕ)
      → s.pc j ≡ locking (checking s.lock.current_ticket)
      → s.lock.owner ≡ no_owner
      → EntersIn 4 s j
  checking-EntersIn s j e f = spinning-EntersIn (turn debug context s j) j (ground arith)

  -- The context whose ticket is served.
  served-EntersIn :
      (s : System) (j : ℕ)
      → ((k : ℕ) → critical (s.pc k) ≡ true → k ≡ j)
      → (s.lock.owner ≢ no_owner
          → (k : ℕ) × (owns (s.pc k) ≡ true) × (s.lock.owner ≡ (context k).core_id))
      → (p : Pc) → s.pc j ≡ p
      → ticket s.lock p ≡ some s.lock.current_ticket
      → (critical p ≡ true) ⊎ ((k : ℕ) × (k ≤ 4) × EntersIn k s j)
  served-EntersIn s j one owned (locking (waiting t)) e h =
      inr (2, omega arith, waiting-EntersIn s j (ground arith))
  served-EntersIn s j one owned (locking (spinning t)) e h =
      inr (3, omega arith, spinning-EntersIn s j (ground arith))
  served-EntersIn s j one owned (locking (checking t)) e h =
      inr (4, omega arith, checking-EntersIn s j (ground arith) unowned)
    where
      unowned : s.lock.owner ≡ no_owner
      unowned = elim (ℕ_discrete s.lock.owner no_owner) [
        | yes free ↦ free
        | no taken ↦ let (k, owns_k, same) = owned taken in absurd (ground (arith, one k))
      ]
  served-EntersIn s j one owned (locking winning) e h = inl refl
  served-EntersIn s j one owned (locking entering) e h = cc
  served-EntersIn s j one owned (locking calling) e h = cc
  served-EntersIn s j one owned (holding r) e h = inl refl
  served-EntersIn s j one owned (unlocking u) e h = inl refl
  served-EntersIn s j one owned idle e h = cc
  served-EntersIn s j one owned panicked e h = cc

-- In the same states, when a context has a ticket, some context has the ticket that is served; it
-- is past its wait, or it has the guard after at most four steps of its own.
pub no_lost_turn :
    {context : ℕ → Context} {n : ℕ} {l : UnsafeTicketLock} {s : System} (debug : Bool)
    → Setting context n l
    → Reach debug context n l s
    → (i t : ℕ) → ticket s.lock (s.pc i) ≡ some t
    → (j : ℕ) × (ticket s.lock (s.pc j) ≡ some s.lock.current_ticket)
      × ((critical (s.pc j) ≡ true) ⊎ ((k : ℕ) × (k ≤ 4) × EntersIn debug context k s j))
no_lost_turn {context} {n} {l} {s} debug setting r i t h =
    (j, turn_of_j, served-EntersIn debug context s j one sim.owned (s.pc j) refl turn_of_j)
  where
    sound : Sound context n l s
    sound = Reach-Sound setting debug r

    sim : Sim context n s.lock s.pc sound.queue
    sim = sound.sim

    head : (j : ℕ) × (get_elem? sound.queue 0 ≡ some j)
    head =
        let (d, at_d) = sim.found i t h in
        get_elem?-lt sound.queue 0 (omega (arith, get_elem?-below sound.queue d at_d))

    j : ℕ
    j = head.0

    turn_of_j : ticket s.lock (s.pc j) ≡ some s.lock.current_ticket
    turn_of_j = ground (arith, sim.placed 0 j head.1, sim.fits)

    one : (k : ℕ) → critical (s.pc k) ≡ true → k ≡ j
    one k c = ground (arith, served-head sim k (ground arith), head.1)
