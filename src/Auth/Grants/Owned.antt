-- ===== src/Auth/Grants/Owned.antt =====
-- Rows of the grant store (src/auth/oauth-grant-store.ts) that refer to a grant, when the grants change.
use slnc_tr_z_mcp.Prelude.{
  String, Bool, true, false, Option, none, some, List, [], ◌∷◌, ◌++◌, ◌≡◌, arith, refl, ◌==◌, first,
  select, delete, update, any, Option-cases, inl, inr, All, All-map, All-both, All-delete,
  delete_passes, Bool-cases, eq_iff, Distinct, first-IsOnly, first_key, any-first,
}
use slnc_tr_z_mcp.Auth.ConnectionProfile.{SurfaceProfile}
use slnc_tr_z_mcp.Auth.Grants.{GrantRow, is_none}
use slnc_tr_z_mcp.Auth.Grants.Changes.{ceiling_in}

abbrev pub grant_key : GrantRow → String
grant_key g = g.grant_id

pub ceiling_in-update :
    (id : String) (p : GrantRow → Bool) (f : GrantRow → GrantRow)
    → ((g : GrantRow) → (f g).grant_id ≡ g.grant_id)
    → ((g : GrantRow) → (f g).profile_ceiling ≡ g.profile_ceiling)
    → (gs : List GrantRow) → ceiling_in id (update p f gs) ≡ ceiling_in id gs
unfolding first update
ceiling_in-update id p f same kept [] = refl
ceiling_in-update id p f same kept (g ∷ gs) =
    ground (arith, same g, kept g, ceiling_in-update id p f same kept gs)

pub ceiling_in-append :
    (id : String) (gs : List GrantRow) (row : GrantRow)
    → is_none (ceiling_in id gs) ≡ false
    → ceiling_in id (gs ++ row ∷ []) ≡ ceiling_in id gs
unfolding first
ceiling_in-append id [] row there = absurd (ground arith)
ceiling_in-append id (g ∷ gs) row there = ground (arith, ceiling_in-append id gs row)

pub ceiling_in-delete :
    (id : String) (p : GrantRow → Bool) (gs : List GrantRow)
    → any (λ g. g.grant_id == id) (select p gs) ≡ false
    → ceiling_in id (delete p gs) ≡ ceiling_in id gs
unfolding first delete select any
ceiling_in-delete id p [] kept = refl
ceiling_in-delete id p (g ∷ gs) kept = ground (arith, ceiling_in-delete id p gs)

pub not_any-All {ℓ} :
    {A : Type ℓ} (p : A → Bool) (xs : List A) → any p xs ≡ false → All (λ x. p x ≡ false) xs
unfolding any
not_any-All p [] h = tt
not_any-All p (x ∷ xs) h = (ground arith, not_any-All p xs (ground arith))

-- The ceiling of an identifier is that of every row with it.
pub only_ceiling :
    (id : String) (gs : List GrantRow)
    → Distinct grant_key gs
    → All (λ g. (g.grant_id == id) ≡ true → ceiling_in id gs ≡ some g.profile_ceiling) gs
only_ceiling id gs h = elim (Option-cases (first (λ g. g.grant_id == id) gs)) [
  | inl missing ↦
      All-map (λ (g : GrantRow). (g.grant_id == id) ≡ false) _ (λ g off on. absurd (ground arith))
        gs (not_any-All (λ g. g.grant_id == id) gs (ground (arith, any-first grant_key id gs)))
  | inr (t, found) ↦
      All-map (λ (g : GrantRow). (g.grant_id == t.grant_id) ≡ true → g ≡ t) _
        (λ g only on. ground (arith, only, first_key grant_key id gs t found)) gs
        (first-IsOnly grant_key id gs t h found)
]

module _ {A : Type 0} (owner : A → String) (allowed : Option SurfaceProfile → A → Bool) where
  abbrev pub Owned : List GrantRow → List A → Type 0
  Owned gs xs = All (λ x. allowed (ceiling_in (owner x) gs) x ≡ true) xs

  pub Owned-update :
      (p : GrantRow → Bool) (f : GrantRow → GrantRow)
      → ((g : GrantRow) → (f g).grant_id ≡ g.grant_id)
      → ((g : GrantRow) → (f g).profile_ceiling ≡ g.profile_ceiling)
      → (gs : List GrantRow) (xs : List A) → Owned gs xs
      → Owned (update p f gs) xs
  Owned-update p f same kept gs xs h =
      All-map (λ x. allowed (ceiling_in (owner x) gs) x ≡ true) _
        (λ x e. rw (ceiling_in-update (owner x) p f same kept gs) e) xs h

  pub Owned-append :
      ((x : A) → allowed none x ≡ false)
      → (gs : List GrantRow) (row : GrantRow) (xs : List A) → Owned gs xs
      → Owned (gs ++ row ∷ []) xs
  Owned-append never gs row xs h =
      All-map (λ x. allowed (ceiling_in (owner x) gs) x ≡ true) _
        (λ x e. elim (Option-cases (ceiling_in (owner x) gs)) [
          | inl missing ↦ absurd (ground (arith, never x))
          | inr (c, found) ↦ rw (ceiling_in-append (owner x) gs row (ground arith)) e
        ])
        xs h

  pub Owned-delete :
      (p : GrantRow → Bool) (gs : List GrantRow) (xs : List A)
      → Owned gs xs
      → Owned (delete p gs) (delete (λ x. any (λ g. g.grant_id == owner x) (select p gs)) xs)
  Owned-delete p gs xs h =
      let q : A → Bool = λ x. any (λ g. g.grant_id == owner x) (select p gs) in
      All-map (λ x. (allowed (ceiling_in (owner x) gs) x ≡ true) × (q x ≡ false)) _
        (λ x (e, kept). rw (ceiling_in-delete (owner x) p gs kept) e) (delete q xs)
        (All-both _ _ (delete q xs) (All-delete _ q xs h) (delete_passes q xs))

  -- No row refers to a grant that is not there.
  pub Owned-any :
      ((x : A) → allowed none x ≡ false)
      → (id : String) (gs : List GrantRow) (xs : List A) → Owned gs xs
      → any (λ g. g.grant_id == id) gs ≡ false
      → any (λ x. owner x == id) xs ≡ false
  unfolding any
  Owned-any never id gs [] h gone = refl
  Owned-any never id gs (x ∷ xs) (e, h) gone = elim (Bool-cases (owner x == id)) [
    | inr off ↦ ground (arith, off, Owned-any never id gs xs h gone)
    | inl on ↦
        absurd
          (ground (arith, on, e, never x, eq_iff (owner x) id, gone, any-first grant_key id gs))
  ]
