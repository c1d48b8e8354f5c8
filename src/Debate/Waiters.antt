-- ===== src/Debate/Waiters.antt =====
-- src/debate/waiters.ts: the registry of waits. A promise is the serial number of its signal, and is
-- resolved when that is among the resolved ones; a registration is known by its place.
pub mod Counting
pub mod Awake
pub mod Wakeups
pub mod Histories
mod Tests
use slnc_tr_z_mcp.Prelude.{
  ℕ, zero, suc, ◌+◌, ◌-◌, String, Bool, true, false, not, ◌&&◌, Option, none, some, List, [], ◌∷◌,
  ◌++◌, length, ltb, eqb, if◌then◌else◌, ◌==◌, first, delete, update, any,
}

pub record DebateSignal : Type 0 where
  pub debate_id : String
  pub serial : ℕ
  pub refs : ℕ

pub record WaitRegistration : Type 0 where
  pub debate_id : String
  pub serial : ℕ
  pub active : Bool

pub record DebateWaiterRegistry : Type 0 where
  pub waiters : List DebateSignal
  pub closed : Bool
  pub registrations : List WaitRegistration
  pub resolved : List ℕ
  pub next_serial : ℕ

abbrev pub new_registry : DebateWaiterRegistry
new_registry = record {
  waiters = [];
  closed = false;
  registrations = [];
  resolved = [];
  next_serial = 0;
}

abbrev pub signal_of : String → DebateWaiterRegistry → Option DebateSignal
signal_of id w = first (λ s. s.debate_id == id) w.waiters

abbrev pub set_refs : String → ℕ → List DebateSignal → List DebateSignal
set_refs id n signals = update (λ s. s.debate_id == id) (λ s. record s { refs = n }) signals

abbrev pub registration : String → ℕ → WaitRegistration
registration id serial = record { debate_id = id; serial = serial; active = true }

-- The new registration stands last; on a closed registry the promise is resolved, and `cancel` does
-- nothing, so there is none.
unfoldable pub register : String → DebateWaiterRegistry → Option ℕ × DebateWaiterRegistry
register id w = if w.closed then (none, w) else elim (signal_of id w) [
  | none ↦ (
    some (length w.registrations),
    record w {
      waiters = w.waiters ++ record { debate_id = id; serial = w.next_serial; refs = 1 } ∷ [];
      registrations = w.registrations ++ registration id w.next_serial ∷ [];
      next_serial = suc w.next_serial;
    },
  )
  | some s ↦ (
    some (length w.registrations),
    record w {
      waiters = set_refs id (s.refs + 1) w.waiters;
      registrations = w.registrations ++ registration id s.serial ∷ [];
    },
  )
]

unfoldable pub registration_at : ℕ → List WaitRegistration → Option WaitRegistration
registration_at n [] = none
registration_at zero (r ∷ rs) = some r
registration_at (suc n) (r ∷ rs) = registration_at n rs

unfoldable pub deactivate : ℕ → List WaitRegistration → List WaitRegistration
deactivate n [] = []
deactivate zero (r ∷ rs) = record r { active = false } ∷ rs
deactivate (suc n) (r ∷ rs) = r ∷ deactivate n rs

-- `current.refs -= 1`, and the signal is deleted when nobody is left.
unfoldable pub drop_ref : WaitRegistration → DebateWaiterRegistry → List DebateSignal
drop_ref r w = elim (signal_of r.debate_id w) [
  | none ↦ w.waiters
  | some s ↦
      if not (eqb s.serial r.serial)
      then w.waiters
      else if eqb (s.refs - 1) 0
      then delete (λ x. x.debate_id == r.debate_id) w.waiters
      else set_refs r.debate_id (s.refs - 1) w.waiters
]

unfoldable pub cancel_wait : ℕ → DebateWaiterRegistry → DebateWaiterRegistry
unfolding drop_ref
cancel_wait n w = elim (registration_at n w.registrations) [
  | none ↦ w
  | some r ↦
      if not r.active
      then w
      else record w { registrations = deactivate n w.registrations; waiters = drop_ref r w }
]

unfoldable pub notify : String → DebateWaiterRegistry → DebateWaiterRegistry
notify id w = elim (signal_of id w) [
  | none ↦ w
  | some s ↦ record w {
    waiters = delete (λ x. x.debate_id == id) w.waiters;
    resolved = s.serial ∷ w.resolved;
  }
]

unfoldable pub notify_all : List DebateSignal → DebateWaiterRegistry → DebateWaiterRegistry
unfolding notify
notify_all [] w = w
notify_all (s ∷ ss) w = notify_all ss (notify s.debate_id w)

unfoldable pub close_waiters : DebateWaiterRegistry → DebateWaiterRegistry
unfolding notify_all
close_waiters w =
    if w.closed
    then w
    else record (notify_all w.waiters (record w { closed = true })) { waiters = [] }

abbrev pub is_resolved : ℕ → DebateWaiterRegistry → Bool
is_resolved serial w = any (λ n. eqb n serial) w.resolved

pub data WaiterCall : Type 0 where
  registers : String → WaiterCall
  cancels_wait : ℕ → WaiterCall
  notifies : String → WaiterCall
  closes_waiters : WaiterCall

unfoldable pub waiter_step : DebateWaiterRegistry → WaiterCall → DebateWaiterRegistry
waiter_step w (registers id) = (register id w).1
waiter_step w (cancels_wait n) = cancel_wait n w
waiter_step w (notifies id) = notify id w
waiter_step w closes_waiters = close_waiters w

unfoldable pub waiter_run : DebateWaiterRegistry → List WaiterCall → DebateWaiterRegistry
unfolding waiter_step
waiter_run w [] = w
waiter_run w (c ∷ cs) = waiter_run (waiter_step w c) cs
