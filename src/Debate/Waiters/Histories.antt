-- ===== src/Debate/Waiters/Histories.antt =====
-- Histories of calls on the registry of waits (src/debate/waiters.ts).
use slnc_tr_z_mcp.Prelude.{
  any-first, ℕ, String, true, false, some, List, [], ◌∷◌, ◌≡◌, arith, refl, ◌∙◌, eqb, leb, ◌==◌,
  first, delete, any, select, All, Distinct, eq_refl, Option-cases, Bool-cases, inl, inr, subst,
}
use slnc_tr_z_mcp.Debate.Waiters.{
  DebateSignal, WaitRegistration, DebateWaiterRegistry, new_registry, signal_of, register,
  registration_at, drop_ref, cancel_wait, notify, notify_all, close_waiters, is_resolved,
  WaiterCall, registers, cancels_wait, notifies, closes_waiters, waiter_step, waiter_run,
}
use slnc_tr_z_mcp.Debate.Waiters.Counting.{count, All-registration_at}
use slnc_tr_z_mcp.Debate.Waiters.Awake.{
  any_both, IsAwake, is_heard, signal_key, any-heard, notify-IsAwake, register-IsAwake,
}
use slnc_tr_z_mcp.Debate.Waiters.Wakeups.{cancel_wait-IsAwake}

delete_absent :
    (id : String) (ss : List DebateSignal)
    → any (λ s. s.debate_id == id) ss ≡ false
    → delete (λ s. s.debate_id == id) ss ≡ ss
unfolding delete select any
delete_absent id [] h = refl
delete_absent id (s ∷ ss) h = ground (arith, delete_absent id ss)

notify_head :
    (w : DebateWaiterRegistry) (s : DebateSignal) (ss : List DebateSignal)
    → w.waiters ≡ s ∷ ss
    → Distinct signal_key (s ∷ ss)
    → (notify s.debate_id w).waiters ≡ ss
unfolding notify first delete select
notify_head w s ss e (new, h) = ground (arith, e, eq_refl s.debate_id, delete_absent s.debate_id ss)

notify_all-IsAwake :
    (ss : List DebateSignal) (w : DebateWaiterRegistry)
    → w.waiters ≡ ss
    → IsAwake w
    → IsAwake (notify_all ss w) × ((notify_all ss w).waiters ≡ [])
unfolding notify_all
notify_all-IsAwake [] w e h = (h, e)
notify_all-IsAwake (s ∷ ss) w e h =
    notify_all-IsAwake ss (notify s.debate_id w)
      (notify_head w s ss e (subst (Distinct signal_key) e h.keys)) (notify-IsAwake w h s.debate_id)

-- A closed registry has no signals.
abbrev IsShut : DebateWaiterRegistry → Type 0
IsShut w = w.closed ≡ true → w.waiters ≡ []

close_waiters-IsAwake : (w : DebateWaiterRegistry) → IsAwake w → IsAwake (close_waiters w)
unfolding close_waiters
close_waiters-IsAwake w h = elim (Bool-cases w.closed) [
  | inl shut ↦ subst IsAwake {x = w} (ground arith) h
  | inr open_still ↦
      let shut : DebateWaiterRegistry = record w { closed = true } in
      let (awake, empty) = notify_all-IsAwake w.waiters shut refl (record {
        keys = h.keys;
        counts = h.counts;
        positive = h.positive;
        signals_old = h.signals_old;
        old = h.old;
        heard = h.heard;
      }) in
      subst IsAwake {x = notify_all w.waiters shut} (ground (arith, empty, open_still)) awake
]

waiter_step-IsAwake :
    (w : DebateWaiterRegistry) (c : WaiterCall) → IsAwake w → IsAwake (waiter_step w c)
unfolding waiter_step
waiter_step-IsAwake w (registers id) h = register-IsAwake w h id
waiter_step-IsAwake w (cancels_wait n) h = cancel_wait-IsAwake w n h
waiter_step-IsAwake w (notifies id) h = notify-IsAwake w h id
waiter_step-IsAwake w closes_waiters h = close_waiters-IsAwake w h

waiter_step-IsShut :
    (w : DebateWaiterRegistry) (c : WaiterCall) → IsShut w → IsShut (waiter_step w c)
unfolding waiter_step register cancel_wait drop_ref notify close_waiters first
waiter_step-IsShut w (registers id) h shut = elim (Bool-cases w.closed) [
  | inl on ↦ ground (arith, on, h on)
  | inr off ↦ elim (Option-cases (signal_of id w)) [
    | inl missing ↦ absurd (ground (arith, off, missing))
    | inr (s, found) ↦ absurd (ground (arith, off, found))
  ]
]
waiter_step-IsShut w (cancels_wait n) h shut = elim (Bool-cases w.closed) [
  | inl on ↦ ground (arith, h on)
  | inr off ↦ absurd (ground (arith, off))
]
waiter_step-IsShut w (notifies id) h shut = elim (Bool-cases w.closed) [
  | inl on ↦ ground (arith, h on)
  | inr off ↦ absurd (ground (arith, off))
]
waiter_step-IsShut w closes_waiters h shut = elim (Bool-cases w.closed) [
  | inl on ↦ ground (arith, on, h on)
  | inr off ↦ ground (arith, off)
]

run_from-IsAwake :
    (w : DebateWaiterRegistry) (cs : List WaiterCall)
    → IsAwake w
    → IsShut w
    → IsAwake (waiter_run w cs) × IsShut (waiter_run w cs)
unfolding waiter_run
run_from-IsAwake w [] h shut = (h, shut)
run_from-IsAwake w (c ∷ cs) h shut =
    run_from-IsAwake (waiter_step w c) cs (waiter_step-IsAwake w c h) (waiter_step-IsShut w c shut)

run-IsAwake :
    (cs : List WaiterCall)
    → IsAwake (waiter_run new_registry cs) × IsShut (waiter_run new_registry cs)
run-IsAwake cs =
    run_from-IsAwake new_registry cs
      (record { keys = tt; counts = tt; positive = tt; signals_old = tt; old = tt; heard = tt })
      (λ e. refl)

registrations-notify_all :
    (ss : List DebateSignal) (w : DebateWaiterRegistry)
    → (notify_all ss w).registrations ≡ w.registrations
unfolding notify_all notify
registrations-notify_all [] w = refl
registrations-notify_all (s ∷ ss) w =
    registrations-notify_all ss (notify s.debate_id w) ∙ ground arith

-- Without signals, who waits has been woken.
resolved_when_empty :
    (w : DebateWaiterRegistry) (n : ℕ) (r : WaitRegistration)
    → IsAwake w
    → w.waiters ≡ []
    → registration_at n w.registrations ≡ some r
    → r.active ≡ true
    → is_resolved r.serial w ≡ true
unfolding any
resolved_when_empty w n r h empty found on =
    ground (arith, empty, on, All-registration_at _ n w.registrations r h.heard found)

closed_resolved :
    (w : DebateWaiterRegistry) (n : ℕ) (r : WaitRegistration)
    → IsAwake w
    → IsShut w
    → registration_at n w.registrations ≡ some r
    → r.active ≡ true
    → is_resolved r.serial (close_waiters w) ≡ true
unfolding close_waiters
closed_resolved w n r h shut found on = elim (Bool-cases w.closed) [
  | inl e ↦ ground (arith, e, resolved_when_empty w n r h (shut e) found on)
  | inr e ↦
      let after = close_waiters w in
      resolved_when_empty after n r (close_waiters-IsAwake w h) (ground (arith, e))
        (ground (arith, e, found, registrations-notify_all w.waiters (record w { closed = true })))
        on
]

notified_resolved :
    (w : DebateWaiterRegistry) (r : WaitRegistration)
    → IsAwake w
    → is_heard w r ≡ true
    → r.active ≡ true
    → is_resolved r.serial (notify r.debate_id w) ≡ true
unfolding notify any
notified_resolved w r h heard on = elim (Option-cases (signal_of r.debate_id w)) [
  | inl missing ↦ ground (
    arith,
    heard,
    on,
    missing,
    any-first signal_key r.debate_id w.waiters,
    any_both (λ x. x.debate_id == r.debate_id) (λ x. eqb x.serial r.serial) w.waiters,
  )
  | inr (s, found) ↦
      ground (arith, heard, on, found, any-heard r.debate_id r.serial w.waiters s h.keys found)
]

-- No wake-up is lost: at any point of any history of calls, a registration that was not cancelled has
-- its promise resolved by the next notification of its debate, and by the closing of the registry.
pub waiter_run-notify :
    (cs : List WaiterCall) (n : ℕ) (r : WaitRegistration)
    → registration_at n (waiter_run new_registry cs).registrations ≡ some r
    → r.active ≡ true
    → (is_resolved r.serial (notify r.debate_id (waiter_run new_registry cs)) ≡ true)
      × (is_resolved r.serial (close_waiters (waiter_run new_registry cs)) ≡ true)
waiter_run-notify cs n r found on =
    let w = waiter_run new_registry cs in
    let (awake, shut) = run-IsAwake cs in
    (
      notified_resolved w r awake (All-registration_at _ n w.registrations r awake.heard found) on,
      closed_resolved w n r awake shut found on,
    )

nobody_counted :
    (s : DebateSignal) (rs : List WaitRegistration)
    → All (λ r. r.active ≡ false) rs
    → count s rs ≡ 0
unfolding select
nobody_counted s [] h = refl
nobody_counted s (r ∷ rs) (off, h) = ground (arith, off, nobody_counted s rs h)

no_signals :
    (ss : List DebateSignal) (rs : List WaitRegistration)
    → All (λ s. s.refs ≡ count s rs) ss
    → All (λ s. leb 1 s.refs ≡ true) ss
    → All (λ r. r.active ≡ false) rs
    → ss ≡ []
no_signals [] rs counts positive off = refl
no_signals (s ∷ ss) rs (counted, _) (one, _) off =
    absurd (ground (arith, counted, one, nobody_counted s rs off))

-- The registry keeps no signal that nobody waits for: at any point of any history of calls, when every
-- registration was cancelled, or none was made, the map is empty.
pub waiter_run-cancelled :
    (cs : List WaiterCall)
    → All (λ r. r.active ≡ false) (waiter_run new_registry cs).registrations
    → (waiter_run new_registry cs).waiters ≡ []
waiter_run-cancelled cs off =
    let w = waiter_run new_registry cs in
    let (awake, _) = run-IsAwake cs in
    no_signals w.waiters w.registrations awake.counts awake.positive off
