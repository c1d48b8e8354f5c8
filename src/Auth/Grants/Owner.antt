-- ===== src/Auth/Grants/Owner.antt =====
-- The methods of the grant store (src/auth/oauth-grant-store.ts) as changes: the lookups, the changes
-- by the owner, and the revocations.
use slnc_tr_z_mcp.Prelude.{
  ℕ, String, Bool, true, false, not, ◌&&◌, Option, none, some, List, [], ◌∷◌, ◌≡◌, arith, refl,
  Result, ok, ◌>>=◌, throw_if, leb, length, ◌==◌, first, any, ap, ◌∙◌, sort_by,
}
use slnc_tr_z_mcp.Auth.ConnectionProfile.{SurfaceProfile, ResultDelivery, is_full}
use slnc_tr_z_mcp.Auth.Grants.{
  TokenKind, GrantRow, GrantTables, GrantLimits, VerifiedGrantToken, GrantError, max_time,
  length_within, is_none, prune_rows, default_of, set_last_seen, has_grant, id_of, access, refresh,
  grant_capacity, gateway_only_grant_cannot_be_promoted, oauth_grant_not_found,
}
use slnc_tr_z_mcp.Auth.Grants.Lookup.{find_live, find_retired, ceiling_of, may_expire}
use slnc_tr_z_mcp.Auth.Grants.Manage.{
  find_token_rows, find_refresh_rows, restrict_found, restrict_rows, records_of, row_before,
  list_rows, default_rows, profile_rows, delivery_rows, label_rows,
}
use slnc_tr_z_mcp.Auth.Grants.Changes.{
  Change, Leads, led, thrown, changes_nothing, marks_seen, labels_grant, sets_surface, sets_default,
  sets_delivery, chain-Leads, step-Leads, check-Leads, branch-Leads, option-Leads,
}
use slnc_tr_z_mcp.Auth.Grants.Effects.{prune_rows-Reaches}
use slnc_tr_z_mcp.Auth.Grants.Steps.{valid_time-ok}
use slnc_tr_z_mcp.Auth.Grants.Found.{own_row, IsFound, find_live-IsFound}

pub first-any_both :
    (p q : GrantRow → Bool) (gs : List GrantRow) (g : GrantRow)
    → first p gs ≡ some g
    → q g ≡ true
    → any (λ x. p x && q x) gs ≡ true
unfolding first any
first-any_both p q [] g found h = absurd (ground arith)
first-any_both p q (x ∷ xs) g found h = ground (arith, first-any_both p q xs g)

module _ (parse_url : String → Option String) (lim : GrantLimits)
    (may_grant may_raise : String → Bool) where
  -- What all of them do first.
  pub pruned-Leads :
      {B : Type 0} (now : ℕ) (t : GrantTables)
      (k : GrantTables → Result GrantError (B × GrantTables))
      → ((u : GrantTables)
          → leb now max_time ≡ true
          → Leads parse_url lim may_grant may_raise u (k u))
      → Leads parse_url lim may_grant may_raise t (prune_rows now t >>= k)
  pruned-Leads now t k h =
      step-Leads parse_url lim may_grant may_raise t (prune_rows now t) k
        (prune_rows-Reaches parse_url lim may_grant may_raise now t)
        (λ u e. h u (valid_time-ok now t u e))

  pub find_token_rows-Leads :
      (hash : String) (kind : TokenKind) (now : ℕ) (t : GrantTables)
      → Leads parse_url lim may_grant may_raise t (find_token_rows parse_url hash kind now lim t)
  unfolding find_token_rows
  find_token_rows-Leads hash kind now t = pruned-Leads now t _ (λ u valid.
      chain-Leads parse_url lim may_grant may_raise u (find_live parse_url hash kind now u) _
        (λ found _. led (seen found u valid)))
    where
      seen :
          (found : Option VerifiedGrantToken) (u : GrantTables)
          → leb now max_time ≡ true
          → Change parse_url lim may_grant may_raise u
              (elim found [ none ↦ u | some f ↦ set_last_seen (id_of f) now u ])
      seen none u valid = changes_nothing
      seen (some f) u valid = marks_seen (id_of f) now valid

  pub find_refresh_rows-Leads :
      (hash : String) (now : ℕ) (t : GrantTables)
      → Leads parse_url lim may_grant may_raise t (find_refresh_rows parse_url hash now lim t)
  unfolding find_refresh_rows
  find_refresh_rows-Leads hash now t = pruned-Leads now t _ (λ u valid.
      chain-Leads parse_url lim may_grant may_raise u (find_live parse_url hash refresh now u) _
        (λ live _.
          option-Leads parse_url lim may_grant may_raise u live _ _
            (chain-Leads parse_url lim may_grant may_raise u (find_retired parse_url hash now u) _
              (λ history _.
                option-Leads parse_url lim may_grant may_raise u history _ _ (led changes_nothing)
                  (λ h _. led changes_nothing)))
            (λ f _. led changes_nothing)))

  restrict_found-Leads :
      (hash : String) (found : Option VerifiedGrantToken) (profile : SurfaceProfile) (now : ℕ)
      (t : GrantTables)
      → ((f : VerifiedGrantToken) → found ≡ some f → IsFound hash access now t f)
      → Leads parse_url lim may_grant may_raise t (restrict_found found profile t)
  unfolding restrict_found
  restrict_found-Leads hash none profile now t is = thrown
  restrict_found-Leads hash (some f) profile now t is =
      let found = is f refl in
      let own = own_row found.row.grant_id t f found.owner in
      branch-Leads parse_url lim may_grant may_raise t
        (not (is_full f.grant.connection.surface_profile) && is_full profile) _ _ (λ _. thrown)
        (λ lower. led (
          sets_surface (id_of f) profile (ground (arith, own, found.owner.within)) (
            ground (
              arith,
              own,
              first-any_both (λ g. g.grant_id == id_of f) (λ g. is_full g.surface_profile) t.grants
                  found.owner.row,
            ))))

  pub restrict_rows-Leads :
      (hash : String) (profile : SurfaceProfile) (now : ℕ) (t : GrantTables)
      → Leads parse_url lim may_grant may_raise t (restrict_rows parse_url hash profile now lim t)
  unfolding restrict_rows
  restrict_rows-Leads hash profile now t = pruned-Leads now t _ (λ u valid.
      chain-Leads parse_url lim may_grant may_raise u (find_live parse_url hash access now u) _
        (λ found e.
          restrict_found-Leads hash found profile now u
            (λ f is. find_live-IsFound parse_url hash access now u f (e ∙ ap ok is))))

  pub list_rows-Leads :
      (now : ℕ) (t : GrantTables)
      → Leads parse_url lim may_grant may_raise t (list_rows parse_url now lim t)
  unfolding list_rows
  list_rows-Leads now t = pruned-Leads now t _ (λ u valid.
      chain-Leads parse_url lim may_grant may_raise u
        (records_of parse_url (sort_by row_before u.grants) u) _ (λ rs _. led changes_nothing))

  pub default_rows-Leads :
      (client_id : String) (profile : SurfaceProfile) (t : GrantTables)
      → Leads parse_url lim may_grant may_raise t (default_rows client_id profile lim t)
  unfolding default_rows
  default_rows-Leads client_id profile t =
      check-Leads parse_url lim may_grant may_raise t
        (throw_if
          (is_none (default_of client_id t)
            && leb lim.max_client_defaults (length t.client_defaults))
          grant_capacity)
        _ (λ u room. led (sets_default client_id profile (ground arith)))

  pub profile_rows-Leads :
      (id : String) (profile : SurfaceProfile) (now : ℕ) (t : GrantTables)
      → (is_full profile && not (may_raise id)) ≡ false
      → Leads parse_url lim may_grant may_raise t (profile_rows id profile now lim t)
  unfolding profile_rows
  profile_rows-Leads id profile now t may = pruned-Leads now t _ (λ u valid.
      check-Leads parse_url lim may_grant may_raise u
        (throw_if (is_full profile && not (may_expire (ceiling_of id u)))
          gateway_only_grant_cannot_be_promoted)
        _
        (λ _ within.
          check-Leads parse_url lim may_grant may_raise u
            (throw_if (not (has_grant id u)) oauth_grant_not_found) _
            (λ _ _. led (sets_surface id profile (ground arith) (ground arith)))))

  pub delivery_rows-Leads :
      (id : String) (delivery : ResultDelivery) (now : ℕ) (t : GrantTables)
      → Leads parse_url lim may_grant may_raise t (delivery_rows id delivery now lim t)
  unfolding delivery_rows
  delivery_rows-Leads id delivery now t = pruned-Leads now t _ (λ u valid.
      check-Leads parse_url lim may_grant may_raise u
        (throw_if (not (has_grant id u)) oauth_grant_not_found) _
        (λ _ there. led (sets_delivery id delivery (ground arith))))

  pub label_rows-Leads :
      (id label : String) (now : ℕ) (t : GrantTables)
      → length_within 64 label ≡ true
      → Leads parse_url lim may_grant may_raise t (label_rows id label now lim t)
  unfolding label_rows
  label_rows-Leads id label now t good = pruned-Leads now t _ (λ u valid.
      check-Leads parse_url lim may_grant may_raise u
        (throw_if (not (has_grant id u)) oauth_grant_not_found) _
        (λ _ _. led (labels_grant id label good)))
