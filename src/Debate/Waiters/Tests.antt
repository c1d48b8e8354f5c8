-- ===== src/Debate/Waiters/Tests.antt =====
-- The registry of waits (src/debate/waiters.ts) at concrete calls.
use slnc_tr_z_mcp.Prelude.{
  false, true, List, [], ◌∷◌, ◌≡◌, refl, some, first, update, delete, select, any, All,
}
use slnc_tr_z_mcp.Debate.Waiters.{
  WaitRegistration, new_registry, register, registration_at, deactivate, drop_ref, cancel_wait,
  notify, notify_all, close_waiters, is_resolved, WaiterCall, registers, cancels_wait, notifies,
  waiter_step, waiter_run,
}
use slnc_tr_z_mcp.Debate.Waiters.Histories.{waiter_run-notify, waiter_run-cancelled}

waiters_run : Unit {0}
unfolding register registration_at deactivate drop_ref cancel_wait notify notify_all close_waiters
    waiter_step waiter_run first update delete select any
waiters_run = tt

-- Two wait on a debate, one of them leaves; the other debate is notified and waited on again.
abbrev calls : List WaiterCall
calls =
    registers "d1"
    ∷ registers "d1"
    ∷ registers "d2"
    ∷ cancels_wait 0
    ∷ notifies "d2"
    ∷ registers "d2"
    ∷ []

abbrev second : WaitRegistration
second = record { debate_id = "d1"; serial = 0; active = true }

second_made : registration_at 1 (waiter_run new_registry calls).registrations ≡ some second
unfolding waiters_run
second_made = refl

waiter_run-notify_example :
    (is_resolved 0 (notify "d1" (waiter_run new_registry calls)) ≡ true)
    × (is_resolved 0 (close_waiters (waiter_run new_registry calls)) ≡ true)
waiter_run-notify_example = waiter_run-notify calls 1 second second_made refl

abbrev left : List WaiterCall
left = registers "d1" ∷ registers "d1" ∷ cancels_wait 1 ∷ cancels_wait 1 ∷ cancels_wait 0 ∷ []

All-left : All (λ r. r.active ≡ false) (waiter_run new_registry left).registrations
unfolding waiters_run
All-left = (refl, (refl, tt))

waiter_run-cancelled_example : (waiter_run new_registry left).waiters ≡ []
waiter_run-cancelled_example = waiter_run-cancelled left All-left
