-- ===== src/Auth/Grants/Preserved.antt =====
-- The invariant of the grant store (src/auth/oauth-grant-store.ts) over histories of calls.
use slnc_tr_z_mcp.Prelude.{
  ℕ, ◌≤◌, String, Bool, true, false, ◌&&◌, Option, List, [], ◌∷◌, ◌≡◌, arith, refl, ◌∙◌, ◌==◌, any,
  Bool-cases, inl, inr, All, ok, subst, All-append_one, All-update, length, leb, length-append,
  length-update, Distinct, Distinct-update, Distinct-append_one, any-first,
}
use slnc_tr_z_mcp.Auth.ConnectionProfile.{SurfaceProfile, ResultDelivery}
use slnc_tr_z_mcp.Auth.Grants.{
  DeliveryRow, DefaultRow, GrantTables, GrantLimits, GrantStore, is_none, default_of, has_grant,
}
use slnc_tr_z_mcp.Auth.Grants.Issue.{new_grant_store}
use slnc_tr_z_mcp.Auth.Grants.Manage.{put_default, put_delivery}
use slnc_tr_z_mcp.Auth.Grants.Changes.{
  Change, changes_nothing, expires_rows, removes_grants, marks_seen, labels_grant, sets_surface,
  adds_grant, adds_token, retires_token, sets_default, drops_default, drops_defaults, sets_delivery,
  follows,
}
use slnc_tr_z_mcp.Auth.Grants.Owned.{grant_key, Owned}
use slnc_tr_z_mcp.Auth.Grants.History.{
  grant_step-Steps, grant_step, GrantCall, issues_grant, sets_grant_profile, grant_run, Permitted,
  grant_run-keeps,
}
use slnc_tr_z_mcp.Auth.Grants.Sound.{
  delivery_key, default_key, exists_for, Distinct-delete, length-delete-le, IsSound,
  expires-IsSound, removes-IsSound, sees-IsSound, labels-IsSound, surfaces-IsSound,
  adds_grant-IsSound, adds_token-IsSound, retires-IsSound, defaults-IsSound, deliveries-IsSound,
}

put_default-Distinct :
    (client_id : String) (profile : SurfaceProfile) (rows : List DefaultRow)
    → Distinct default_key rows
    → Distinct default_key (put_default client_id profile rows)
put_default-Distinct client_id profile rows h =
    elim (Bool-cases (any (λ d. d.client_id == client_id) rows)) [
      | inl there ↦ rw there (Distinct-update default_key _ _ (λ d. refl) rows h)
      | inr new ↦ rw new (Distinct-append_one default_key rows _ new h)
    ]

length-put_default :
    (client_id : String) (profile : SurfaceProfile) (t : GrantTables) (n : ℕ)
    → (is_none (default_of client_id t) && leb n (length t.client_defaults)) ≡ false
    → length t.client_defaults ≤ n
    → length (put_default client_id profile t.client_defaults) ≤ n
unfolding default_of
length-put_default client_id profile t n room h =
    let row : DefaultRow = record { client_id = client_id; surface_profile = profile } in
    ground (
      arith,
      any-first default_key client_id t.client_defaults,
      length-append t.client_defaults (row ∷ []),
      length-update (λ (d : DefaultRow). d.client_id == client_id)
          (λ d. record d { surface_profile = profile }) t.client_defaults,
    )

put_delivery-Distinct :
    (id : String) (delivery : ResultDelivery) (rows : List DeliveryRow)
    → Distinct delivery_key rows
    → Distinct delivery_key (put_delivery id delivery rows)
put_delivery-Distinct id delivery rows h = elim (Bool-cases (any (λ d. d.grant_id == id) rows)) [
  | inl there ↦ rw there (Distinct-update delivery_key _ _ (λ d. refl) rows h)
  | inr new ↦ rw new (Distinct-append_one delivery_key rows _ new h)
]

put_delivery-Owned :
    (id : String) (delivery : ResultDelivery) (t : GrantTables)
    → has_grant id t ≡ true
    → Owned delivery_key exists_for t.grants t.grant_result_delivery
    → Owned delivery_key exists_for t.grants (put_delivery id delivery t.grant_result_delivery)
put_delivery-Owned id delivery t there h =
    elim (Bool-cases (any (λ d. d.grant_id == id) t.grant_result_delivery)) [
      | inl old ↦ rw old (All-update _ _ _ (λ d on e. e) t.grant_result_delivery h)
      | inr new ↦ rw new (
          All-append_one _ t.grant_result_delivery _ h
            (ground (arith, any-first grant_key id t.grants)))
    ]

module _ (parse_url : String → Option String) (lim : GrantLimits)
    (may_grant may_raise : String → Bool) where
  pub Change-IsSound :
      (t u : GrantTables)
      → Change parse_url lim may_grant may_raise t u
      → IsSound parse_url lim t
      → IsSound parse_url lim u
  Change-IsSound t _ changes_nothing h = h
  Change-IsSound t _ (expires_rows now) h = expires-IsSound parse_url lim t h now
  Change-IsSound t _ (removes_grants p) h = removes-IsSound parse_url lim t h p
  Change-IsSound t _ (marks_seen id now valid) h = sees-IsSound parse_url lim t h id now valid
  Change-IsSound t _ (labels_grant id label fits) h = labels-IsSound parse_url lim t h id label fits
  Change-IsSound t _ (sets_surface id profile within may) h =
      surfaces-IsSound parse_url lim t h id profile within
  Change-IsSound t _ (adds_grant row good fresh within may) h =
      adds_grant-IsSound parse_url lim t h row (good, within) fresh
  Change-IsSound t _ (adds_token row good fresh room) h =
      adds_token-IsSound parse_url lim t h row good fresh room
  Change-IsSound t _ (retires_token row good fresh room) h =
      retires-IsSound parse_url lim t h row _ good fresh room
  Change-IsSound t _ (sets_default client_id profile room) h =
      defaults-IsSound parse_url lim t h _
        (put_default-Distinct client_id profile t.client_defaults h.clients)
        (length-put_default client_id profile t lim.max_client_defaults room h.default_bound)
  Change-IsSound t _ (drops_default p) h =
      defaults-IsSound parse_url lim t h _
        (Distinct-delete default_key p t.client_defaults h.clients)
        (omega (arith, h.default_bound, length-delete-le p t.client_defaults))
  Change-IsSound t _ drops_defaults h = defaults-IsSound parse_url lim t h [] tt (omega arith)
  Change-IsSound t _ (sets_delivery id delivery there) h =
      deliveries-IsSound parse_url lim t h _
        (put_delivery-Distinct id delivery t.grant_result_delivery h.deliveries)
        (put_delivery-Owned id delivery t there h.delivered)
  Change-IsSound t v (follows {u = u} c d) h = Change-IsSound u v d (Change-IsSound t u c h)

pub is_Permitted : (c : GrantCall) → Permitted (λ id. true) (λ id. true) c
is_Permitted (issues_grant grant tokens now) = refl
is_Permitted (sets_grant_profile id profile now) = ground arith
is_Permitted _ = tt

-- Any call is permitted.
pub All-Permitted : (cs : List GrantCall) → All (Permitted (λ id. true) (λ id. true)) cs
All-Permitted [] = tt
All-Permitted (c ∷ cs) = (is_Permitted c, All-Permitted cs)

abbrev empty_store : GrantLimits → GrantStore
empty_store lim = record {
  tables = record {
    client_defaults = [];
    grants = [];
    tokens = [];
    refresh_history = [];
    grant_result_delivery = [];
  };
  limits = lim;
  closed = false;
}

empty_store-IsSound :
    (parse_url : String → Option String) (lim : GrantLimits)
    → IsSound parse_url lim (empty_store lim).tables
empty_store-IsSound parse_url lim = record {
  ids = tt;
  records = tt;
  hashes = tt;
  owned = tt;
  token_bound = omega arith;
  retired = tt;
  retired_owned = tt;
  history_bound = omega arith;
  deliveries = tt;
  delivered = tt;
  clients = tt;
  default_bound = omega arith;
}

pub grant_run-IsSound :
    (parse_url : String → Option String) (lim : GrantLimits) (s : GrantStore) (cs : List GrantCall)
    → new_grant_store lim ≡ ok s
    → IsSound parse_url lim (grant_run parse_url s cs).tables
unfolding new_grant_store
grant_run-IsSound parse_url lim s cs made =
    grant_run-keeps parse_url (λ id. true) (λ id. true) lim (IsSound parse_url lim)
      (Change-IsSound parse_url lim (λ id. true) (λ id. true)) s cs (ground arith)
      (All-Permitted cs)
      (subst (λ (x : GrantStore). IsSound parse_url lim x.tables) {x = empty_store lim} {y = s}
        (ground arith) (empty_store-IsSound parse_url lim))

limits_kept :
    (parse_url : String → Option String) (s : GrantStore) (cs : List GrantCall)
    → (grant_run parse_url s cs).limits ≡ s.limits
unfolding grant_run
limits_kept parse_url s [] = refl
limits_kept parse_url s (c ∷ cs) =
    limits_kept parse_url (grant_step parse_url s c) cs
    ∙ (grant_step-Steps parse_url (λ id. true) (λ id. true) s c (is_Permitted c)).limits

pub limits-grant_run :
    (parse_url : String → Option String) (lim : GrantLimits) (s : GrantStore) (cs : List GrantCall)
    → new_grant_store lim ≡ ok s
    → (grant_run parse_url s cs).limits ≡ lim
unfolding new_grant_store
limits-grant_run parse_url lim s cs made = limits_kept parse_url s cs ∙ ground arith
