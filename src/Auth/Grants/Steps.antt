-- ===== src/Auth/Grants/Steps.antt =====
-- The methods of the grant store (src/auth/oauth-grant-store.ts) as changes: issue and rotate.
use Prim.Native.String.{count}
use slnc_tr_z_mcp.Prelude.{
  ℕ, suc, ◌+◌, ◌≤◌, String, Bool, true, false, not, ◌&&◌, ◌||◌, Option, List, ◌≡◌, arith, ok,
  throw_if, leb, ltb, eqb, length, ◌==◌, any, ap, ◌∙◌,
}
use slnc_tr_z_mcp.Auth.ConnectionProfile.{SurfaceProfile, resolve_surface_profile}
use slnc_tr_z_mcp.Auth.Grants.{
  RetiredToken, GrantRow, GrantTables, GrantLimits, StoredToken, VerifiedGrantToken, NewGrant,
  max_time, is_none, prune_rows, default_of, has_grant, id_of, refresh, invalid_grant,
  history_capacity, constraint_violated,
}
use slnc_tr_z_mcp.Auth.Grants.Lookup.{find_live, find_retired, is_pair, grant_schema, insert_tokens}
use slnc_tr_z_mcp.Auth.Grants.Issue.{label_for, profile_for, new_row, insert_grant, issue_rows}
use slnc_tr_z_mcp.Auth.Grants.Rotate.{
  RotationTokenFactory, retire_token, rotate_live, replay, replay_with, answer_replay, all_live,
  rotate_rows, is_for,
}
use slnc_tr_z_mcp.Auth.Grants.Changes.{
  Reaches, Leads, reached, led, changes_nothing, adds_grant, retires_token, marks_seen,
  removes_grants, chain-Leads, step-Leads, check-Leads, branch-Leads, option-Leads, check-Reaches,
  within_ceiling,
}
use slnc_tr_z_mcp.Auth.Grants.Effects.{prune_rows-Reaches, insert_tokens-Reaches}
use slnc_tr_z_mcp.Auth.Grants.Found.{own_row, find_live-IsFound, IsFound}

pub valid_time-ok :
    (now : ℕ) (t u : GrantTables) → prune_rows now t ≡ ok u → leb now max_time ≡ true
valid_time-ok now t u e = ground arith

pub profile_for-within_ceiling :
    (grant : NewGrant) (client_default : Option SurfaceProfile) (label : String) (now : ℕ)
    → within_ceiling (new_row grant (profile_for grant client_default) label now) ≡ true
unfolding profile_for resolve_surface_profile
profile_for-within_ceiling grant client_default label now = ground arith

module _ (parse_url : String → Option String) (lim : GrantLimits)
    (may_grant may_raise : String → Bool) where
  insert_grant-Reaches :
      (row : GrantRow) (t : GrantTables)
      → within_ceiling row ≡ true
      → may_grant row.grant_id ≡ true
      → Reaches parse_url lim may_grant may_raise t (insert_grant parse_url row t)
  unfolding insert_grant
  insert_grant-Reaches row t within may =
      check-Reaches parse_url lim may_grant may_raise t
        (throw_if (is_none (grant_schema parse_url row)) invalid_grant) _
        (λ u good.
          check-Reaches parse_url lim may_grant may_raise t
            (throw_if (has_grant row.grant_id t) constraint_violated) _
            (λ v fresh. reached (adds_grant row (ground arith) (ground arith) within may)))

  pub issue_rows-Leads :
      (grant : NewGrant) (tokens : List StoredToken) (now : ℕ) (t : GrantTables)
      → may_grant grant.grant_id ≡ true
      → Leads parse_url lim may_grant may_raise t (issue_rows parse_url grant tokens now lim t)
  unfolding issue_rows
  issue_rows-Leads grant tokens now t may =
      step-Leads parse_url lim may_grant may_raise t (prune_rows now t) _
        (prune_rows-Reaches parse_url lim may_grant may_raise now t)
        (λ u _.
          chain-Leads parse_url lim may_grant may_raise u (label_for grant.label u.grants) _
            (λ label _.
              step-Leads parse_url lim may_grant may_raise u
                (insert_grant parse_url
                  (new_row grant (profile_for grant (default_of grant.client_id u)) label now) u)
                _
                (insert_grant-Reaches _ u
                  (profile_for-within_ceiling grant (default_of grant.client_id u) label now) may)
                (λ v _.
                  step-Leads parse_url lim may_grant may_raise v
                    (insert_tokens grant.grant_id tokens now lim v) _
                    (insert_tokens-Reaches parse_url lim may_grant may_raise grant.grant_id tokens
                      now v)
                    (λ w _. led changes_nothing))))

  retire_token-Reaches :
      (hash : String) (f : VerifiedGrantToken) (nonce : String) (now : ℕ) (t : GrantTables)
      → IsFound hash refresh now t f
      → leb now max_time ≡ true
      → suc (length t.refresh_history) ≤ lim.max_refresh_history
      → Reaches parse_url lim may_grant may_raise t (retire_token hash f nonce now t)
  unfolding retire_token
  retire_token-Reaches hash f nonce now t found valid room =
      check-Reaches parse_url lim may_grant may_raise t
        (throw_if
          (any (λ h. h.token_hash == hash) t.refresh_history
            || not (has_grant (id_of f) t && (eqb (count hash) 64 && eqb (count nonce) 64)))
          constraint_violated)
        _
        (λ u good. reached (
          retires_token _ (ground (arith, own_row found.row.grant_id t f found.owner))
            (ground arith) room))

  rotate_live-Leads :
      (hash : String) (f : VerifiedGrantToken) (create_tokens : RotationTokenFactory)
      (nonce : String) (now : ℕ) (t : GrantTables)
      → IsFound hash refresh now t f
      → leb now max_time ≡ true
      → Leads parse_url lim may_grant may_raise t (rotate_live hash f create_tokens nonce now lim t)
  unfolding rotate_live
  rotate_live-Leads hash f create_tokens nonce now t found valid =
      check-Leads parse_url lim may_grant may_raise t
        (throw_if (leb lim.max_refresh_history (length t.refresh_history)) history_capacity) _
        (λ x room.
          step-Leads parse_url lim may_grant may_raise t (retire_token hash f nonce now t) _
            (retire_token-Reaches hash f nonce now t found valid (ground arith))
            (λ u _.
              step-Leads parse_url lim may_grant may_raise u
                (insert_tokens (id_of f) (create_tokens f nonce now) now lim u) _
                (insert_tokens-Reaches parse_url lim may_grant may_raise (id_of f)
                  (create_tokens f nonce now) now u)
                (λ v _. led (marks_seen (id_of f) now valid))))

  answer_replay-Leads :
      (h : RetiredToken) (nonce : String) (now : ℕ) (t : GrantTables) (live : Bool)
      → leb now max_time ≡ true
      → Leads parse_url lim may_grant may_raise t (ok (answer_replay h nonce now t live))
  answer_replay-Leads h nonce now t true valid = led (marks_seen (id_of h.grant) now valid)
  answer_replay-Leads h nonce now t false valid = led changes_nothing

  replay_with-Leads :
      (h : RetiredToken) (nonce : String) (tokens : List StoredToken) (now : ℕ) (t : GrantTables)
      → leb now max_time ≡ true
      → Leads parse_url lim may_grant may_raise t (replay_with parse_url h nonce tokens now t)
  unfolding replay_with
  replay_with-Leads h nonce tokens now t valid =
      branch-Leads parse_url lim may_grant may_raise t (not (is_pair tokens)) _ _
        (λ _. led changes_nothing)
        (λ _.
          chain-Leads parse_url lim may_grant may_raise t
            (all_live parse_url (id_of h.grant) now tokens t) _
            (λ live _. answer_replay-Leads h nonce now t live valid))

  replay-Leads :
      (h : RetiredToken) (create_tokens : RotationTokenFactory) (now grace : ℕ) (t : GrantTables)
      → leb now max_time ≡ true
      → Leads parse_url lim may_grant may_raise t (replay parse_url h create_tokens now grace t)
  unfolding replay
  replay-Leads h create_tokens now grace t valid =
      branch-Leads parse_url lim may_grant may_raise t
        (eqb grace 0 || leb (h.issued_at + grace) now) _ _ (λ _. led (removes_grants _))
        (λ _.
          branch-Leads parse_url lim may_grant may_raise t (ltb now h.issued_at) _ _
            (λ _. led changes_nothing)
            (λ _.
              option-Leads parse_url lim may_grant may_raise t h.nonce _ _ (led changes_nothing)
                (λ nonce _.
                  replay_with-Leads h nonce (create_tokens h.grant nonce h.issued_at) now t valid)))

  pub rotate_rows-Leads :
      (hash client_id resource : String) (create_tokens : RotationTokenFactory) (nonce : String)
      (now grace : ℕ) (t : GrantTables)
      → Leads parse_url lim may_grant may_raise t
          (rotate_rows parse_url hash client_id resource create_tokens nonce now grace lim t)
  unfolding rotate_rows
  rotate_rows-Leads hash client_id resource create_tokens nonce now grace t =
      step-Leads parse_url lim may_grant may_raise t (prune_rows now t) _
        (prune_rows-Reaches parse_url lim may_grant may_raise now t)
        (λ u pruned.
          chain-Leads parse_url lim may_grant may_raise u (find_live parse_url hash refresh now u) _
            (λ live e.
              option-Leads parse_url lim may_grant may_raise u live _ _
                (chain-Leads parse_url lim may_grant may_raise u (find_retired parse_url hash now u)
                  _
                  (λ history _.
                    option-Leads parse_url lim may_grant may_raise u history _ _
                      (led changes_nothing)
                      (λ h _.
                        branch-Leads parse_url lim may_grant may_raise u
                          (is_for client_id resource h.grant) _ _
                          (λ _.
                            replay-Leads h create_tokens now grace u (valid_time-ok now t u pruned))
                          (λ _. led changes_nothing))))
                (λ f is.
                  branch-Leads parse_url lim may_grant may_raise u (is_for client_id resource f) _ _
                    (λ _.
                      rotate_live-Leads hash f create_tokens nonce now u
                        (find_live-IsFound parse_url hash refresh now u f (e ∙ ap ok is))
                        (valid_time-ok now t u pruned))
                    (λ _. led changes_nothing))))
