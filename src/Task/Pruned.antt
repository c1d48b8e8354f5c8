-- ===== src/Task/Pruned.antt =====
-- What the loops of src/task/runtime.ts that prune tasks may drop.
use slnc_tr_z_mcp.Prelude.{
  ℕ, ◌≤◌, String, Bool, true, false, not, ◌&&◌, List, [], ◌∷◌, ◌≡◌, ◌⊎◌, refl, ◌∙◌, arith, inl, inr,
  ltb, length, select, delete, any, sort_by, ◌==◌, Distinct, All, All-map, All-delete, All-IsOnly,
  any-sort_by, Bool-cases, eq_iff, sym, if◌then◌else◌,
}
use slnc_tr_z_mcp.Task.Types.{is_running, is_over, MutableRunnerTask, MutableCoordinationTask}
use slnc_tr_z_mcp.Task.Runtime.{
  Limits, delete_until_below, created_before, settled_before, terminal_tasks,
  terminal_coordination_tasks, prune_terminal_tasks, prune_terminal_coordination_tasks,
}
use slnc_tr_z_mcp.Task.Identity.{runner_key, coordination_key}

-- A pruning to make room below a bound: what is not over stays, in its order; the rest is a part of
-- what was there; and nothing goes below the bound.
pub record IsPruned {A : Type 0} (over : A → Bool) (bound : ℕ) (ts us : List A) : Type 0 where
  pub live : select (λ t. not (over t)) us ≡ select (λ t. not (over t)) ts
  pub part : (q : A → Bool) × (us ≡ select q ts)
  pub forced : (us ≡ ts) ⊎ (bound ≤ length ts)

module _ {A : Type 0} where
  select_all : (xs : List A) → select (λ x. true) xs ≡ xs
  unfolding select
  select_all [] = refl
  select_all (x ∷ xs) = ground (arith, select_all xs)

  select_both :
      (p q : A → Bool) (xs : List A) → select p (select q xs) ≡ select (λ x. q x && p x) xs
  unfolding select
  select_both p q [] = refl
  select_both p q (x ∷ xs) = ground (arith, select_both p q xs)

module _ {A : Type 0} (key : A → String) (over : A → Bool) where
  -- No row that is not over has a key among those to delete.
  IsApart : List A → List A → Type 0
  IsApart xs ts = All (λ t. over t ≡ false → any (λ x. key x == key t) xs ≡ false) ts

  deleted_over :
      (id : String) (ts : List A)
      → All (λ t. over t ≡ false → (id == key t) ≡ false) ts
      → select (λ t. not (over t)) (delete (λ t. key t == id) ts) ≡ select (λ t. not (over t)) ts
  unfolding select delete
  deleted_over id [] h = refl
  deleted_over id (t ∷ ts) (apart, h) = elim (Bool-cases (over t)) [
    | inl on ↦ ground (arith, on, deleted_over id ts h)
    | inr off ↦
        ground (arith, off, apart off, eq_iff id (key t), eq_iff (key t) id, deleted_over id ts h)
  ]

  loop_live :
      (bound : ℕ) (xs ts : List A)
      → IsApart xs ts
      → select (λ t. not (over t)) (delete_until_below key bound xs ts)
        ≡ select (λ t. not (over t)) ts
  unfolding delete_until_below any IsApart
  loop_live bound [] ts h = refl
  loop_live bound (x ∷ xs) ts h = elim (Bool-cases (ltb (length ts) bound)) [
    | inl e ↦ rw e refl
    | inr e ↦
        let rest =
          All-map (λ t. over t ≡ false → any (λ y. key y == key t) (x ∷ xs) ≡ false)
            (λ t. over t ≡ false → any (λ y. key y == key t) xs ≡ false)
            (λ t apart off. ground (arith, apart off)) ts h in
        let first =
          All-map (λ t. over t ≡ false → any (λ y. key y == key t) (x ∷ xs) ≡ false)
            (λ t. over t ≡ false → (key x == key t) ≡ false)
            (λ t apart off. ground (arith, apart off)) ts h in
        rw e (
          loop_live bound xs (delete (λ t. key t == key x) ts) (
            All-delete (λ t. over t ≡ false → any (λ y. key y == key t) xs ≡ false)
              (λ t. key t == key x) ts rest)
          ∙ deleted_over (key x) ts first)
  ]

  loop_part :
      (bound : ℕ) (xs ts : List A)
      → (q : A → Bool) × (delete_until_below key bound xs ts ≡ select q ts)
  unfolding delete_until_below delete
  loop_part bound [] ts = (λ t. true, sym (select_all ts))
  loop_part bound (x ∷ xs) ts = elim (Bool-cases (ltb (length ts) bound)) [
    | inl e ↦ (λ t. true, rw e (sym (select_all ts)))
    | inr e ↦
        let (q, h) = loop_part bound xs (delete (λ t. key t == key x) ts) in
        let both = h ∙ select_both q (λ t. not (key t == key x)) ts in
        ((λ t. not (key t == key x) && q t), ground (arith, e, both))
  ]

  apart_one :
      (t : A) (xs : List A)
      → All (λ x. (key x == key t) ≡ true → x ≡ t) xs
      → over t ≡ false
      → any (λ x. key x == key t) (select over xs) ≡ false
  unfolding any select
  apart_one t [] h off = refl
  apart_one t (x ∷ xs) (only, h) off = elim (Bool-cases (key x == key t)) [
    | inl e ↦ ground (arith, only e, off, apart_one t xs h off)
    | inr e ↦ ground (arith, e, apart_one t xs h off)
  ]

  sorted-IsApart :
      (before : A → A → Bool) (ts : List A)
      → Distinct key ts
      → IsApart (sort_by before (select over ts)) ts
  unfolding IsApart
  sorted-IsApart before ts h =
      All-map (λ t. All (λ x. (key x == key t) ≡ true → x ≡ t) ts) _
        (λ t only off.
          any-sort_by (λ x. key x == key t) before (select over ts) ∙ apart_one t ts only off)
        ts (All-IsOnly key ts h)

  loop-IsPruned :
      (before : A → A → Bool) (bound : ℕ) (ts : List A)
      → Distinct key ts
      → IsPruned over bound ts (
          if ltb (length ts) bound
          then ts
          else delete_until_below key bound (sort_by before (select over ts)) ts)
  loop-IsPruned before bound ts h = elim (Bool-cases (ltb (length ts) bound)) [
    | inl e ↦
        rw e (record { live = refl; part = (λ t. true, sym (select_all ts)); forced = inl refl })
    | inr e ↦ rw e (record {
      live = loop_live bound (sort_by before (select over ts)) ts (sorted-IsApart before ts h);
      part = loop_part bound (sort_by before (select over ts)) ts;
      forced = inr (ground arith);
    })
  ]

pub prune_terminal_tasks-IsPruned :
    (l : Limits) (ts : List MutableRunnerTask)
    → Distinct runner_key ts
    → IsPruned (λ t. not (is_running t.state)) l.max_retained ts (prune_terminal_tasks l ts)
unfolding prune_terminal_tasks terminal_tasks
prune_terminal_tasks-IsPruned l ts h =
    loop-IsPruned runner_key (λ t. not (is_running (MutableRunnerTask.state t))) created_before
      l.max_retained ts h

pub prune_terminal_coordination_tasks-IsPruned :
    (l : Limits) (ts : List MutableCoordinationTask)
    → Distinct coordination_key ts
    → IsPruned (λ t. is_over t.state) l.max_coordination ts (prune_terminal_coordination_tasks l ts)
unfolding prune_terminal_coordination_tasks terminal_coordination_tasks
prune_terminal_coordination_tasks-IsPruned l ts h =
    loop-IsPruned coordination_key (λ t. is_over (MutableCoordinationTask.state t))
      (settled_before l.locale_before) l.max_coordination ts h
