-- ===== src/Auth/Grants/Labels.antt =====
-- The label of a new grant in src/auth/oauth-grant-store.ts.
use Prim.Native.Nat.{◌/◌, ◌%◌, ◌*◌}
use Prim.Native.String.{[], ◌∷◌}
use slnc_tr_z_mcp.Prelude.{
  ℕ, zero, suc, ◌+◌, ◌≤◌, ◌<◌, max, String, Bool, true, false, Option, none, some, List, [], ◌∷◌,
  ◌≡◌, ◌≢◌, ◌⊎◌, arith, refl, ◌∙◌, ap, sym, subst, ok, eqb, ltb, inl, inr, any, All, All-map, trim,
  digits, digits_from, decimal, decimal_from, digit, concat, Option-cases, Bool-cases, exact_bound,
  to_double, number_text, to_double-exact, number_text-exact,
}
use slnc_tr_z_mcp.Auth.Grants.{GrantRow, validate_connection_label}
use slnc_tr_z_mcp.Auth.Grants.Issue.{agent_digits, agent_number, max_agent, label_for}

digits_from-digit :
    (k d : ℕ) (s : String)
    → d < 10
    → (digits (concat (digit d) s) ≡ digits_from 0 (concat (digit d) s))
      × (digits_from k (concat (digit d) s) ≡ digits_from (k * 10 + d) s)
unfolding digits_from
digits_from-digit k zero s h = (refl, refl)
digits_from-digit k (suc zero) s h = (refl, refl)
digits_from-digit k (suc (suc zero)) s h = (refl, refl)
digits_from-digit k (suc (suc (suc zero))) s h = (refl, refl)
digits_from-digit k (suc (suc (suc (suc zero)))) s h = (refl, refl)
digits_from-digit k (suc (suc (suc (suc (suc zero))))) s h = (refl, refl)
digits_from-digit k (suc (suc (suc (suc (suc (suc zero)))))) s h = (refl, refl)
digits_from-digit k (suc (suc (suc (suc (suc (suc (suc zero))))))) s h = (refl, refl)
digits_from-digit k (suc (suc (suc (suc (suc (suc (suc (suc zero)))))))) s h = (refl, refl)
digits_from-digit k (suc (suc (suc (suc (suc (suc (suc (suc (suc zero))))))))) s h = (refl, refl)
digits_from-digit k (suc (suc (suc (suc (suc (suc (suc (suc (suc (suc d)))))))))) s h =
    absurd (omega arith)

agent_digits-concat : (t : String) → agent_digits (concat "Agent " t) ≡ digits t
unfolding agent_digits
agent_digits-concat t = refl

digits-decimal_from :
    (fuel n : ℕ) (s : String) → n < fuel → digits (decimal_from fuel n s) ≡ digits_from n s
unfolding decimal_from
digits-decimal_from zero n s h = absurd (omega arith)
digits-decimal_from (suc fuel) n s h =
    let d = n % 10 in
    let (some_digit, one) = digits_from-digit 0 d s (omega arith) in
    elim (Bool-cases (ltb n 10)) [
      | inl e ↦
          let small : d ≡ n = ground (arith, e) in
          let least : 0 * 10 + d ≡ d = omega arith in
          rw e (some_digit ∙ one ∙ ap (λ x. digits_from x s) (least ∙ small))
      | inr e ↦
          let (_, more) = digits_from-digit (n / 10) d s (omega arith) in
          let less : n / 10 < fuel = ground (arith, e, h) in
          let whole : n / 10 * 10 + d ≡ n = omega arith in
          rw e (
            digits-decimal_from fuel (n / 10) (concat (digit d) s) less
            ∙ more
            ∙ ap (λ x. digits_from x s) whole)
    ]

pub digits-decimal : (n : ℕ) → digits (decimal n) ≡ some n
unfolding decimal digits_from
digits-decimal n = digits-decimal_from (n + 1) n "" (omega arith)

-- The number of an agent is below the bound under which doubles are exact, and so is the next one.
abbrev pub is_below : Option ℕ → Bool
is_below none = true
is_below (some n) = ltb (n + 1) exact_bound

abbrev pub is_agent : ℕ → GrantRow → Bool
is_agent m g = elim (agent_digits g.label) [ none ↦ false | some k ↦ eqb k m ]

abbrev pub AreBelow : List GrantRow → Type 0
AreBelow gs = All (λ g. is_below (agent_digits g.label) ≡ true) gs

-- The next number: no grant is labelled with it or a greater one, and it is the first, or the one
-- before it is in use.
pub record IsNext (n : ℕ) (gs : List GrantRow) : Type 0 where
  pub new : All (λ g. (m : ℕ) → g.label ≢ concat "Agent " (decimal (n + m))) gs
  pub next : (n ≡ 1) ⊎ ((m : ℕ) × (n ≡ m + 1) × (any (is_agent m) gs ≡ true))

abbrev pub IsLabelled : Option String → List GrantRow → String → Type 0
IsLabelled none gs label = (n : ℕ) × (label ≡ concat "Agent " (decimal n)) × IsNext n gs
IsLabelled (some given) gs label = label ≡ trim given

number_below :
    (g : GrantRow)
    → is_below (agent_digits g.label) ≡ true
    → agent_number g.label ≡ agent_digits g.label
unfolding agent_number
number_below g h = elim (Option-cases (agent_digits g.label)) [
  | inl e ↦ ground (arith, e)
  | inr (n, e) ↦ ground (arith, e, to_double-exact n (ground (arith, e, h)))
]

-- `n` is the greatest of `k` and of the numbers of the agents.
record IsMax (k : ℕ) (gs : List GrantRow) (n : ℕ) : Type 0 where
  pub least : k ≤ n
  pub small : n + 1 < exact_bound
  pub above : All (λ g. (m : ℕ) → agent_digits g.label ≢ some (n + 1 + m)) gs
  pub used : (n ≡ k) ⊎ (any (is_agent n) gs ≡ true)

any_more :
    (p : GrantRow → Bool) (g : GrantRow) (gs : List GrantRow)
    → any p gs ≡ true
    → any p (g ∷ gs) ≡ true
unfolding any
any_more p g gs h = ground arith

any_here :
    (p : GrantRow → Bool) (g : GrantRow) (gs : List GrantRow) → p g ≡ true → any p (g ∷ gs) ≡ true
unfolding any
any_here p g gs h = ground arith

IsMax-other :
    (k n : ℕ) (g : GrantRow) (gs : List GrantRow)
    → agent_digits g.label ≡ none
    → IsMax k gs n
    → IsMax k (g ∷ gs) n
IsMax-other k n g gs e h = record {
  least = h.least;
  small = h.small;
  above = ((λ m same. absurd (ground (arith, e, same))), h.above);
  used = elim h.used [ inl same ↦ inl same | inr found ↦ inr (any_more (is_agent n) g gs found) ];
}

IsMax-agent :
    (k j n : ℕ) (g : GrantRow) (gs : List GrantRow)
    → agent_digits g.label ≡ some j
    → IsMax (max k j) gs n
    → IsMax k (g ∷ gs) n
IsMax-agent k j n g gs e h = record {
  least = omega (arith, h.least);
  small = h.small;
  above = (
    (λ m same.
        let big : j ≡ n + 1 + m = ground (arith, e, same) in absurd (omega (arith, h.least, big))),
    h.above,
  );
  used = elim h.used [
    | inr found ↦ inr (any_more (is_agent n) g gs found)
    | inl same ↦ elim (Bool-cases (eqb j n)) [
      | inl here ↦ inr (any_here (is_agent n) g gs (ground (arith, e, here)))
      | inr other ↦ inl (ground (arith, same, other))
    ]
  ];
}

max_agent-IsMax :
    (k : ℕ) (gs : List GrantRow) → AreBelow gs → k + 1 < exact_bound → IsMax k gs (max_agent k gs)
unfolding max_agent
max_agent-IsMax k [] h small = record {
  least = omega arith;
  small = small;
  above = tt;
  used = inl refl;
}
max_agent-IsMax k (g ∷ gs) (below, h) small = elim (Option-cases (agent_digits g.label)) [
  | inl e ↦
      let same : max_agent k gs ≡ max_agent k (g ∷ gs) = ground (arith, e, number_below g below) in
      subst (IsMax k (g ∷ gs)) same
        (IsMax-other k (max_agent k gs) g gs e (max_agent-IsMax k gs h small))
  | inr (n, e) ↦
      let same : max_agent (max k n) gs ≡ max_agent k (g ∷ gs) =
        ground (arith, e, number_below g below) in
      let fits : max k n + 1 < exact_bound = ground (arith, e, below, small) in
      subst (IsMax k (g ∷ gs)) same
        (IsMax-agent k n (max_agent (max k n) gs) g gs e (max_agent-IsMax (max k n) gs h fits))
]

IsMax-IsNext : (n : ℕ) (gs : List GrantRow) → IsMax 0 gs n → IsNext (n + 1) gs
IsMax-IsNext n gs h = record {
  new =
      All-map (λ (g : GrantRow). (m : ℕ) → agent_digits g.label ≢ some (n + 1 + m)) _
        (λ g above m same. above m (
          ap agent_digits same
          ∙ agent_digits-concat (decimal (n + 1 + m))
          ∙ digits-decimal (n + 1 + m)))
        gs h.above;
  next = elim h.used [ inl first ↦ inl (omega (arith, first)) | inr found ↦ inr (n, refl, found) ];
}

pub label_for-IsLabelled :
    (given : Option String) (gs : List GrantRow) (label : String)
    → AreBelow gs
    → label_for given gs ≡ ok label
    → IsLabelled given gs label
unfolding label_for validate_connection_label
label_for-IsLabelled (some given) gs label h e = ground arith
label_for-IsLabelled none gs label h e =
    let m = max_agent-IsMax 0 gs h (omega arith) in
    let n = max_agent 0 gs + 1 in
    let text : number_text (to_double n) ≡ decimal n =
      ap number_text (to_double-exact n m.small) ∙ number_text-exact n m.small in
    let its : concat "Agent " (number_text (to_double n)) ≡ label = ground arith in
    (n, sym its ∙ ap (concat "Agent ") text, IsMax-IsNext (max_agent 0 gs) gs m)
