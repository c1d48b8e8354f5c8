-- ===== src/Auth/Grants/Revoked.antt =====
-- Grants of the grant store (src/auth/oauth-grant-store.ts) that were revoked, and grants whose profile
-- was reduced, over histories of calls.
use slnc_tr_z_mcp.Prelude.{
  eq_iff, String, Bool, false, not, ◌&&◌, ◌||◌, Option, List, [], ◌∷◌, ◌≡◌, arith, refl, ◌∙◌, ◌==◌,
  delete, update, any, Bool-cases, inl, inr, any-select, any-update, any-append,
}
use slnc_tr_z_mcp.Auth.ConnectionProfile.{SurfaceProfile, is_full}
use slnc_tr_z_mcp.Auth.Grants.{GrantTables, GrantLimits, GrantRow, delete_grants, has_grant}
use slnc_tr_z_mcp.Auth.Grants.Changes.{
  Change, changes_nothing, expires_rows, removes_grants, marks_seen, labels_grant, sets_surface,
  adds_grant, adds_token, retires_token, sets_default, drops_default, drops_defaults, sets_delivery,
  follows, is_full_grant,
}
use slnc_tr_z_mcp.Auth.Grants.Owned.{grant_key}

any-update_same :
    (p q : GrantRow → Bool) (f : GrantRow → GrantRow)
    → ((g : GrantRow) → p (f g) ≡ p g)
    → (gs : List GrantRow) → any p (update q f gs) ≡ any p gs
unfolding any update
any-update_same p q f same [] = refl
any-update_same p q f same (g ∷ gs) = ground (arith, same g, any-update_same p q f same gs)

not_raised :
    (id i : String) (profile : SurfaceProfile) (gs : List GrantRow)
    → (is_full profile && i == id) ≡ false
    → any (λ g. g.grant_id == id && is_full g.surface_profile) gs ≡ false
    → any
        (λ g. g.grant_id == id && is_full g.surface_profile)
        (update (λ g. g.grant_id == i) (λ g. record g { surface_profile = profile }) gs)
      ≡ false
unfolding any update
not_raised id i profile [] low h = refl
not_raised id i profile (g ∷ gs) low h =
    ground (
      arith,
      eq_iff g.grant_id i,
      eq_iff g.grant_id id,
      eq_iff i id,
      not_raised id i profile gs low,
    )

module _ (parse_url : String → Option String) (lim : GrantLimits)
    (may_grant may_raise : String → Bool) (id : String) where
  -- An identifier that may not be granted.
  pub Change-gone :
      may_grant id ≡ false
      → (t u : GrantTables) → Change parse_url lim may_grant may_raise t u
      → has_grant id t ≡ false
      → has_grant id u ≡ false
  unfolding delete_grants delete any
  Change-gone never t _ changes_nothing h = h
  Change-gone never t _ (expires_rows now) h = h
  Change-gone never t _ (removes_grants p) h = any-select (λ g. g.grant_id == id) _ t.grants h
  Change-gone never t _ (marks_seen i now valid) h =
      any-update grant_key id _ _ (λ g. refl) t.grants ∙ h
  Change-gone never t _ (labels_grant i label fits) h =
      any-update grant_key id _ _ (λ g. refl) t.grants ∙ h
  Change-gone never t _ (sets_surface i profile within may) h =
      any-update grant_key id _ _ (λ g. refl) t.grants ∙ h
  Change-gone never t _ (adds_grant row good fresh within may) h = ground (
    arith,
    never,
    may,
    any-append (λ g. g.grant_id == id) t.grants (row ∷ []),
    eq_iff row.grant_id id,
  )
  Change-gone never t _ (adds_token row good fresh room) h = h
  Change-gone never t _ (retires_token row good fresh room) h = h
  Change-gone never t _ (sets_default client_id profile room) h = h
  Change-gone never t _ (drops_default p) h = h
  Change-gone never t _ drops_defaults h = h
  Change-gone never t _ (sets_delivery i delivery there) h = h
  Change-gone never t v (follows {u = u} c d) h =
      Change-gone never u v d (Change-gone never t u c h)

  -- An identifier that may neither be granted nor raised.
  pub Change-reduced :
      may_grant id ≡ false
      → may_raise id ≡ false
      → (t u : GrantTables) → Change parse_url lim may_grant may_raise t u
      → is_full_grant id t ≡ false
      → is_full_grant id u ≡ false
  unfolding delete_grants delete any
  Change-reduced never low t _ changes_nothing h = h
  Change-reduced never low t _ (expires_rows now) h = h
  Change-reduced never low t _ (removes_grants p) h =
      any-select (λ g. g.grant_id == id && is_full g.surface_profile) _ t.grants h
  Change-reduced never low t _ (marks_seen i now valid) h =
      any-update_same _ _ _ (λ g. refl) t.grants ∙ h
  Change-reduced never low t _ (labels_grant i label fits) h =
      any-update_same _ _ _ (λ g. refl) t.grants ∙ h
  Change-reduced never low t _ (sets_surface i profile within may) h =
      not_raised id i profile t.grants
        (elim (Bool-cases (i == id)) [
          | inr other ↦ ground (arith, other)
          | inl same ↦
              let is : i ≡ id = ground (arith, eq_iff i id) in
              let may' : (is_full profile && not (may_raise id || is_full_grant id t)) ≡ false =
                rw (← is) may in
              ground (arith, may', low, h)
        ])
        h
  Change-reduced never low t _ (adds_grant row good fresh within may) h = ground (
    arith,
    never,
    may,
    h,
    any-append (λ g. g.grant_id == id && is_full g.surface_profile) t.grants (row ∷ []),
    eq_iff row.grant_id id,
  )
  Change-reduced never low t _ (adds_token row good fresh room) h = h
  Change-reduced never low t _ (retires_token row good fresh room) h = h
  Change-reduced never low t _ (sets_default client_id profile room) h = h
  Change-reduced never low t _ (drops_default p) h = h
  Change-reduced never low t _ drops_defaults h = h
  Change-reduced never low t _ (sets_delivery i delivery there) h = h
  Change-reduced never low t v (follows {u = u} c d) h =
      Change-reduced never low u v d (Change-reduced never low t u c h)
