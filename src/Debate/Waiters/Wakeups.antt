-- ===== src/Debate/Waiters/Wakeups.antt =====
-- Cancelled waits, and wake-ups over histories of calls on the registry (src/debate/waiters.ts).
use slnc_tr_z_mcp.Prelude.{
  All-first, ℕ, ◌-◌, true, false, some, List, ◌≡◌, arith, refl, eqb, ◌==◌, delete, All, All-map,
  All-update, All-update_to, All-both, All-select, Distinct-update, Distinct-select, eq_iff,
  Option-cases, Bool-cases, inl, inr, subst, delete_passes, first_key,
}
use slnc_tr_z_mcp.Debate.Waiters.{
  DebateSignal, WaitRegistration, DebateWaiterRegistry, signal_of, set_refs, registration_at,
  deactivate, drop_ref, cancel_wait,
}
use slnc_tr_z_mcp.Debate.Waiters.Counting.{
  waits_on, count, count-deactivate, count-zero-All, All-deactivate,
}
use slnc_tr_z_mcp.Debate.Waiters.Awake.{
  IsAwake, is_heard, signal_key, any-set_refs, no_signal, only_signal, deleted_heard,
}

eqb_swap : (a b : ℕ) → eqb a b ≡ eqb b a
eqb_swap a b = ground arith

module _ (w : DebateWaiterRegistry) (h : IsAwake w) (n : ℕ) (r : WaitRegistration)
    (found : registration_at n w.registrations ≡ some r) (on : r.active ≡ true) where
  abbrev rest : List WaitRegistration
  rest = deactivate n w.registrations

  still_heard : All (λ x. is_heard w x ≡ true) rest
  still_heard = All-deactivate _ (λ x e. refl) n w.registrations h.heard

  -- The signals stay as they are when none of them is that of the registration.
  kept-IsAwake :
      All (λ s. waits_on s r ≡ false) w.waiters → IsAwake (record w { registrations = rest })
  kept-IsAwake apart = record {
    keys = h.keys;
    counts =
        All-map (λ s. (s.refs ≡ count s w.registrations) × (waits_on s r ≡ false)) _
          (λ s (e, off). ground (arith, e, off, count-deactivate s n w.registrations r found))
          w.waiters (All-both _ _ w.waiters h.counts apart);
    positive = h.positive;
    signals_old = h.signals_old;
    old = All-deactivate _ (λ x e. e) n w.registrations h.old;
    heard = still_heard;
  }

  module _ (s : DebateSignal) (its : signal_of r.debate_id w ≡ some s) where
    both :
        All
          (λ x. (x.refs ≡ count x w.registrations) × ((x.debate_id == r.debate_id) ≡ true → x ≡ s))
          w.waiters
    both = All-both _ _ w.waiters h.counts (only_signal r.debate_id w.waiters s h.keys its)

    less-IsAwake :
        eqb s.serial r.serial ≡ true
        → eqb (s.refs - 1) 0 ≡ false
        → IsAwake (record w {
          registrations = rest;
          waiters = set_refs r.debate_id (s.refs - 1) w.waiters;
        })
    less-IsAwake same more = record {
      keys = Distinct-update signal_key _ _ (λ x. refl) w.waiters h.keys;
      counts =
          All-update_to
            (λ x.
              (x.refs ≡ count x w.registrations) × ((x.debate_id == r.debate_id) ≡ true → x ≡ s))
            (λ x. x.refs ≡ count x rest) (λ x. x.debate_id == r.debate_id)
            (λ x. record x { refs = s.refs - 1 })
            (λ x mine (e, only). ground (
              arith,
              e,
              only mine,
              mine,
              on,
              same,
              more,
              eq_iff r.debate_id x.debate_id,
              eq_iff x.debate_id r.debate_id,
              count-deactivate x n w.registrations r found,
            ))
            (λ x off (e, only). ground (
              arith,
              e,
              off,
              eq_iff r.debate_id x.debate_id,
              eq_iff x.debate_id r.debate_id,
              count-deactivate x n w.registrations r found,
            ))
            w.waiters both;
      positive = All-update _ _ _ (λ x mine e. ground (arith, more)) w.waiters h.positive;
      signals_old = All-update _ _ _ (λ x mine e. e) w.waiters h.signals_old;
      old = All-deactivate _ (λ x e. e) n w.registrations h.old;
      heard =
          All-map (λ x. is_heard w x ≡ true) _
            (λ x e.
              ground
                (arith, e, any-set_refs r.debate_id x.debate_id (s.refs - 1) x.serial w.waiters))
            rest still_heard;
    }

    -- The last one leaves: nobody waits on the signal any more.
    gone-IsAwake :
        eqb s.serial r.serial ≡ true
        → eqb (s.refs - 1) 0 ≡ true
        → IsAwake (record w {
          registrations = rest;
          waiters = delete (λ x. x.debate_id == r.debate_id) w.waiters;
        })
    unfolding delete
    gone-IsAwake same last =
        let id = r.debate_id in
        let key : s.debate_id ≡ id = first_key signal_key id w.waiters s its in
        let counted : s.refs ≡ count s w.registrations =
          All-first _ (λ x. x.debate_id == id) w.waiters s h.counts its in
        let nobody : count s rest ≡ 0 = ground (
          arith,
          counted,
          last,
          on,
          same,
          key,
          eq_iff id s.debate_id,
          count-deactivate s n w.registrations r found,
        ) in
        record {
          keys = Distinct-select signal_key _ w.waiters h.keys;
          counts =
              All-map (λ x. (x.refs ≡ count x w.registrations) × ((x.debate_id == id) ≡ false)) _
                (λ x (e, off). ground (
                  arith,
                  e,
                  off,
                  eq_iff id x.debate_id,
                  eq_iff x.debate_id id,
                  count-deactivate x n w.registrations r found,
                ))
                (delete (λ x. x.debate_id == id) w.waiters)
                (All-both _ _ _ (All-select _ _ w.waiters h.counts)
                  (delete_passes (λ x. x.debate_id == id) w.waiters));
          positive = All-select _ _ w.waiters h.positive;
          signals_old = All-select _ _ w.waiters h.signals_old;
          old = All-deactivate _ (λ x e. e) n w.registrations h.old;
          heard =
              All-map (λ x. (is_heard w x ≡ true) × (waits_on s x ≡ false)) _
                (λ x (e, off). ground (
                  arith,
                  off,
                  key,
                  eq_iff x.debate_id id,
                  eq_iff x.debate_id s.debate_id,
                  same,
                  eqb_swap s.serial x.serial,
                  deleted_heard w h id s x its e,
                ))
                rest (All-both _ _ rest still_heard (count-zero-All s rest nobody));
        }

pub cancel_wait-IsAwake : (w : DebateWaiterRegistry) (n : ℕ) → IsAwake w → IsAwake (cancel_wait n w)
unfolding cancel_wait drop_ref
cancel_wait-IsAwake w n h = elim (Option-cases (registration_at n w.registrations)) [
  | inl missing ↦ subst IsAwake {x = w} (ground arith) h
  | inr (r, found) ↦ elim (Bool-cases r.active) [
    | inr off ↦ subst IsAwake {x = w} (ground arith) h
    | inl on ↦
        let rest = deactivate n w.registrations in
        elim (Option-cases (signal_of r.debate_id w)) [
          | inl missing ↦ subst IsAwake {x = record w { registrations = rest }} (ground arith) (
              kept-IsAwake w h n r found on (
                All-map _ _
                  (λ s off.
                    ground
                      (arith, off, eq_iff r.debate_id s.debate_id, eq_iff s.debate_id r.debate_id))
                  w.waiters (no_signal r.debate_id w.waiters missing)))
          | inr (s, its) ↦ elim (Bool-cases (eqb s.serial r.serial)) [
            | inr other ↦ subst IsAwake {x = record w { registrations = rest }} (ground arith) (
                kept-IsAwake w h n r found on (
                  All-map _ _
                    (λ x only. ground (
                      arith,
                      only,
                      other,
                      eq_iff r.debate_id x.debate_id,
                      eq_iff x.debate_id r.debate_id,
                      eqb_swap s.serial r.serial,
                    ))
                    w.waiters (only_signal r.debate_id w.waiters s h.keys its)))
            | inl same ↦ elim (Bool-cases (eqb (s.refs - 1) 0)) [
              | inl last ↦
                  subst IsAwake
                    {x = record w {
                      registrations = rest;
                      waiters = delete (λ x. x.debate_id == r.debate_id) w.waiters;
                    }}
                    (ground arith) (gone-IsAwake w h n r found on s its same last)
              | inr more ↦
                  subst IsAwake
                    {x = record w {
                      registrations = rest;
                      waiters = set_refs r.debate_id (s.refs - 1) w.waiters;
                    }}
                    (ground arith) (less-IsAwake w h n r found on s its same more)
            ]
          ]
        ]
  ]
]
