-- ===== src/Debate/Waiters/Awake.antt =====
-- No wake-up is lost in the registry of waits (src/debate/waiters.ts).
use slnc_tr_z_mcp.Prelude.{
  ℕ, suc, ◌+◌, String, Bool, true, false, not, ◌&&◌, ◌||◌, none, some, List, [], ◌∷◌, ◌++◌, ◌≡◌,
  arith, refl, ltb, eqb, leb, ◌==◌, first, delete, update, any, select, All, All-map, All-update,
  All-update_to, All-both, All-select, All-append_one, All-first, Distinct, Distinct-update,
  Distinct-select, Distinct-append_one, first_key, any-append, eq_refl, eq_iff, Option-cases,
  Bool-cases, inl, inr, subst, length-select-append_one, first-IsOnly, any-first,
}
use slnc_tr_z_mcp.Debate.Waiters.{
  DebateSignal, WaitRegistration, DebateWaiterRegistry, signal_of, set_refs, registration, register,
  notify, is_resolved,
}
use slnc_tr_z_mcp.Debate.Waiters.Counting.{waits_on, count, count-none}

abbrev pub signal_key : DebateSignal → String
signal_key s = s.debate_id

-- The promise is resolved, or its signal is in the map.
abbrev pub is_heard : DebateWaiterRegistry → WaitRegistration → Bool
is_heard w r =
    not r.active
    || (is_resolved r.serial w
        || any (λ s. s.debate_id == r.debate_id && eqb s.serial r.serial) w.waiters)

-- There is one signal for each debate; it counts the active registrations that have it, and there is
-- one; serial numbers are old; and every active registration is heard.
pub record IsAwake (w : DebateWaiterRegistry) : Type 0 where
  pub keys : Distinct signal_key w.waiters
  pub counts : All (λ s. s.refs ≡ count s w.registrations) w.waiters
  pub positive : All (λ s. leb 1 s.refs ≡ true) w.waiters
  pub signals_old : All (λ s. ltb s.serial w.next_serial ≡ true) w.waiters
  pub old : All (λ r. ltb r.serial w.next_serial ≡ true) w.registrations
  pub heard : All (λ r. is_heard w r ≡ true) w.registrations

pub any_both :
    (p q : DebateSignal → Bool) (ss : List DebateSignal)
    → any p ss ≡ false
    → any (λ x. p x && q x) ss ≡ false
unfolding any
any_both p q [] h = refl
any_both p q (s ∷ ss) h = ground (arith, any_both p q ss)

-- The signal of a debate tells whether a serial number is that of the debate.
pub any-heard :
    (id : String) (k : ℕ) (ss : List DebateSignal) (s : DebateSignal)
    → Distinct signal_key ss
    → first (λ x. x.debate_id == id) ss ≡ some s
    → any (λ x. x.debate_id == id && eqb x.serial k) ss ≡ eqb s.serial k
unfolding any first
any-heard id k [] s h e = absurd (ground arith)
any-heard id k (x ∷ xs) s (new, h) e = elim (Bool-cases (x.debate_id == id)) [
  | inl on ↦
      let same : x.debate_id ≡ id = ground (arith, on, eq_iff x.debate_id id) in
      ground
        (arith, on, any_both (λ y. y.debate_id == id) (λ y. eqb y.serial k) xs (rw same at new))
  | inr off ↦ ground (arith, off, any-heard id k xs s h)
]

pub any-set_refs :
    (id j : String) (n k : ℕ) (ss : List DebateSignal)
    → any (λ x. x.debate_id == j && eqb x.serial k) (set_refs id n ss)
      ≡ any (λ x. x.debate_id == j && eqb x.serial k) ss
unfolding any update
any-set_refs id j n k [] = refl
any-set_refs id j n k (s ∷ ss) = ground (arith, any-set_refs id j n k ss)

pub any-delete_other :
    (id j : String) (k : ℕ) (ss : List DebateSignal)
    → (id == j) ≡ false
    → any (λ x. x.debate_id == j && eqb x.serial k) (delete (λ x. x.debate_id == id) ss)
      ≡ any (λ x. x.debate_id == j && eqb x.serial k) ss
unfolding any delete select
any-delete_other id j k [] h = refl
any-delete_other id j k (s ∷ ss) h =
    ground (
      arith,
      h,
      eq_iff s.debate_id id,
      eq_iff s.debate_id j,
      eq_iff id j,
      any-delete_other id j k ss,
    )

pub no_signal :
    (id : String) (ss : List DebateSignal)
    → first (λ x. x.debate_id == id) ss ≡ none
    → All (λ s. (s.debate_id == id) ≡ false) ss
unfolding first
no_signal id [] h = tt
no_signal id (s ∷ ss) h = (ground arith, no_signal id ss (ground arith))

-- The row of a debate is the signal found.
pub only_signal :
    (id : String) (ss : List DebateSignal) (s : DebateSignal)
    → Distinct signal_key ss
    → first (λ x. x.debate_id == id) ss ≡ some s
    → All (λ x. (x.debate_id == id) ≡ true → x ≡ s) ss
only_signal id ss s h found =
    All-map (λ (x : DebateSignal). (x.debate_id == s.debate_id) ≡ true → x ≡ s) _
      (λ x only on. ground (arith, only, on, first_key signal_key id ss s found)) ss
      (first-IsOnly signal_key id ss s h found)

module _ (w : DebateWaiterRegistry) (h : IsAwake w) where
  -- After the deletion of a signal, who had it, and who had another.
  pub deleted_heard :
      (id : String) (s : DebateSignal) (r : WaitRegistration)
      → signal_of id w ≡ some s
      → is_heard w r ≡ true
      → (not r.active
          || (is_resolved r.serial w
              || ((r.debate_id == id && eqb s.serial r.serial)
                  || any
                      (λ x. x.debate_id == r.debate_id && eqb x.serial r.serial)
                      (delete (λ x. x.debate_id == id) w.waiters))))
        ≡ true
  deleted_heard id s r found e = elim (Bool-cases (id == r.debate_id)) [
    | inr off ↦ ground (arith, off, e, any-delete_other id r.debate_id r.serial w.waiters off)
    | inl on ↦
        let same : id ≡ r.debate_id = ground (arith, on, eq_iff id r.debate_id) in
        let row : first (λ x. x.debate_id == r.debate_id) w.waiters ≡ some s = rw same at found in
        ground (
          arith,
          e,
          any-heard r.debate_id r.serial w.waiters s h.keys row,
          eq_iff r.debate_id id,
          same,
        )
  ]

  pub notify-IsAwake : (id : String) → IsAwake (notify id w)
  unfolding notify delete
  notify-IsAwake id = elim (Option-cases (signal_of id w)) [
    | inl missing ↦ subst IsAwake {x = w} {y = notify id w} (ground arith) h
    | inr (s, found) ↦
        let after : DebateWaiterRegistry = record w {
          waiters = delete (λ x. x.debate_id == id) w.waiters;
          resolved = s.serial ∷ w.resolved;
        } in
        subst IsAwake {x = after} {y = notify id w} (ground arith) (record {
          keys = Distinct-select signal_key _ w.waiters h.keys;
          counts = All-select _ _ w.waiters h.counts;
          positive = All-select _ _ w.waiters h.positive;
          signals_old = All-select _ _ w.waiters h.signals_old;
          old = h.old;
          heard =
              All-map (λ r. is_heard w r ≡ true) (λ r. is_heard after r ≡ true)
                (λ r e. unfold any in ground (arith, deleted_heard id s r found e)) w.registrations
                h.heard;
        })
  ]

  pub register-IsAwake : (id : String) → IsAwake (register id w).1
  unfolding register
  register-IsAwake id = elim (Bool-cases w.closed) [
    | inl shut ↦ subst IsAwake {x = w} {y = (register id w).1} (ground arith) h
    | inr on ↦ elim (Option-cases (signal_of id w)) [
      | inl missing ↦
          let new : DebateSignal = record { debate_id = id; serial = w.next_serial; refs = 1 } in
          let rs = w.registrations ++ registration id w.next_serial ∷ [] in
          let after : DebateWaiterRegistry = record w {
            waiters = w.waiters ++ new ∷ [];
            registrations = rs;
            next_serial = suc w.next_serial;
          } in
          subst IsAwake {x = after} {y = (register id w).1} (ground arith) (record {
            keys =
                Distinct-append_one signal_key w.waiters new
                  (ground (arith, missing, any-first signal_key id w.waiters)) h.keys;
            counts =
                All-append_one (λ x. x.refs ≡ count x rs) w.waiters new
                  (All-map (λ x. (x.refs ≡ count x w.registrations) × ((x.debate_id == id) ≡ false))
                    _
                    (λ x (e, off). ground (
                      arith,
                      e,
                      off,
                      eq_iff id x.debate_id,
                      eq_iff x.debate_id id,
                      length-select-append_one (waits_on x) w.registrations
                          (registration id w.next_serial),
                    ))
                    w.waiters (All-both _ _ w.waiters h.counts (no_signal id w.waiters missing)))
                  (ground (
                    arith,
                    count-none new w.registrations h.old,
                    eq_refl id,
                    length-select-append_one (waits_on new) w.registrations
                        (registration id w.next_serial),
                  ));
            positive = All-append_one _ w.waiters new h.positive refl;
            signals_old =
                All-append_one _ w.waiters new
                  (All-map _ _ (λ s e. ground arith) w.waiters h.signals_old) (ground arith);
            old =
                All-append_one _ w.registrations _
                  (All-map _ _ (λ r e. ground arith) w.registrations h.old) (ground arith);
            heard =
                All-append_one _ w.registrations _
                  (All-map (λ r. is_heard w r ≡ true) (λ r. is_heard after r ≡ true)
                    (λ r e.
                      unfold any in
                      ground (
                        arith,
                        e,
                        any-append (λ x. x.debate_id == r.debate_id && eqb x.serial r.serial)
                            w.waiters (new ∷ []),
                      ))
                    w.registrations h.heard)
                  (unfold any in
                    ground (
                      arith,
                      eq_refl id,
                      any-append (λ x. x.debate_id == id && eqb x.serial w.next_serial) w.waiters
                          (new ∷ []),
                    ));
          })
      | inr (s, found) ↦
          let rs = w.registrations ++ registration id s.serial ∷ [] in
          let after : DebateWaiterRegistry = record w {
            waiters = set_refs id (s.refs + 1) w.waiters;
            registrations = rs;
          } in
          subst IsAwake {x = after} {y = (register id w).1} (ground arith) (record {
            keys = Distinct-update signal_key _ _ (λ x. refl) w.waiters h.keys;
            counts =
                All-update_to
                  (λ x. (x.refs ≡ count x w.registrations) × ((x.debate_id == id) ≡ true → x ≡ s))
                  (λ x. x.refs ≡ count x rs) (λ x. x.debate_id == id)
                  (λ x. record x { refs = s.refs + 1 })
                  (λ x on (e, only). ground (
                    arith,
                    e,
                    only on,
                    on,
                    eq_iff id x.debate_id,
                    eq_iff x.debate_id id,
                    length-select-append_one (waits_on x) w.registrations
                        (registration id s.serial),
                  ))
                  (λ x off (e, only). ground (
                    arith,
                    e,
                    off,
                    eq_iff id x.debate_id,
                    eq_iff x.debate_id id,
                    length-select-append_one (waits_on x) w.registrations
                        (registration id s.serial),
                  ))
                  w.waiters
                  (All-both _ _ w.waiters h.counts (only_signal id w.waiters s h.keys found));
            positive = All-update _ _ _ (λ x on e. ground arith) w.waiters h.positive;
            signals_old = All-update _ _ _ (λ x on e. e) w.waiters h.signals_old;
            old =
                All-append_one _ w.registrations _ h.old
                  (All-first _ _ w.waiters s h.signals_old found);
            heard =
                All-append_one _ w.registrations _
                  (All-map (λ r. is_heard w r ≡ true) (λ r. is_heard after r ≡ true)
                    (λ r e.
                      ground
                        (arith, e, any-set_refs id r.debate_id (s.refs + 1) r.serial w.waiters))
                    w.registrations h.heard)
                  (ground (
                    arith,
                    any-set_refs id id (s.refs + 1) s.serial w.waiters,
                    any-heard id s.serial w.waiters s h.keys found,
                  ));
          })
    ]
  ]
