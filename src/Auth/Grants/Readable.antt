-- ===== src/Auth/Grants/Readable.antt =====
-- The records of the grant store (src/auth/oauth-grant-store.ts) read back.
use slnc_tr_z_mcp.Prelude.{
  sym, ℕ, String, true, false, Option, none, some, List, ◌≡◌, arith, ok, leb, ◌==◌, first,
  first_passes, Option-cases, inl, inr, All-first, subst,
}
use slnc_tr_z_mcp.Auth.Grants.{
  grant_transaction, without_expired, pruned_rows, GrantStore, delivery_of, VerifiedGrantToken,
  same_kind, max_time, GrantTables, TokenRow, GrantLimits, TokenKind, GrantRow,
}
use slnc_tr_z_mcp.Auth.Grants.Lookup.{
  record_of, grant_schema, is_live, verified, find_live, grant_from_row,
}
use slnc_tr_z_mcp.Auth.Grants.Issue.{new_grant_store}
use slnc_tr_z_mcp.Auth.Grants.Changes.{token_allowed, within_ceiling}
use slnc_tr_z_mcp.Auth.Grants.Manage.{find_token, find_token_rows}
use slnc_tr_z_mcp.Auth.Grants.History.{GrantCall, grant_run}
use slnc_tr_z_mcp.Auth.Grants.Sound.{removes-IsSound, expires-IsSound, IsSound, IsGrant}
use slnc_tr_z_mcp.Auth.Grants.Preserved.{grant_run-IsSound, limits-grant_run}

module _ (parse_url : String → Option String) where
  -- What a token row and its grant give.
  pub verified-ok :
      (kind : TokenKind) (r : TokenRow) (g : GrantRow) (url : String) (t : GrantTables)
      → grant_schema parse_url g ≡ some url
      → within_ceiling g ≡ true
      → token_allowed (some g.profile_ceiling) r ≡ true
      → same_kind r.kind kind ≡ true
      → verified parse_url kind r g t
        ≡ ok (record {
          grant = record_of g url (delivery_of g.grant_id t);
          expires_at = r.expires_at;
        })
  unfolding verified grant_from_row
  verified-ok kind r g url t schema within allowed same = ground arith

  pub find_live-Returns :
      (lim : GrantLimits) (hash : String) (kind : TokenKind) (now : ℕ) (t : GrantTables)
      → IsSound parse_url lim t
      → leb now max_time ≡ true
      → (o : Option VerifiedGrantToken) × (find_live parse_url hash kind now t ≡ ok o)
  unfolding find_live
  find_live-Returns lim hash kind now t h valid =
      elim (Option-cases (first (is_live hash kind now) t.tokens)) [
        | inl missing ↦ (none, ground arith)
        | inr (r, found) ↦
            let allowed = All-first _ (is_live hash kind now) t.tokens r h.owned found in
            elim (Option-cases (first (λ g. g.grant_id == r.grant_id) t.grants)) [
              | inl missing ↦ (none, ground arith)
              | inr (g, owner) ↦
                  let (good, within) =
                    All-first (IsGrant parse_url) (λ g. g.grant_id == r.grant_id) t.grants g
                      h.records owner in
                  elim (Option-cases (grant_schema parse_url g)) [
                    | inl bad ↦ absurd (ground arith)
                    | inr (url, schema) ↦
                        let got =
                          verified-ok kind r g url t schema within (ground arith) (
                            ground
                              (arith, first_passes (is_live hash kind now) t.tokens r found)) in
                        (
                          some (record {
                            grant = record_of g url (delivery_of g.grant_id t);
                            expires_at = r.expires_at;
                          }),
                          ground arith,
                        )
                  ]
            ]
      ]

  pub pruned_rows-IsSound :
      (lim : GrantLimits) (now : ℕ) (t : GrantTables)
      → IsSound parse_url lim t
      → IsSound parse_url lim (pruned_rows now t)
  unfolding pruned_rows
  pruned_rows-IsSound lim now t h =
      removes-IsSound parse_url lim (without_expired now t) (expires-IsSound parse_url lim t h now)
        _

  find_sound-Returns :
      (hash : String) (kind : TokenKind) (now : ℕ) (s : GrantStore)
      → IsSound parse_url s.limits s.tables
      → s.closed ≡ false
      → leb now max_time ≡ true
      → (o : Option VerifiedGrantToken) × ((find_token parse_url hash kind now s).0 ≡ ok o)
  unfolding find_token find_token_rows grant_transaction
  find_sound-Returns hash kind now s h on valid =
      let (o, e) =
        find_live-Returns s.limits hash kind now (pruned_rows now s.tables)
          (pruned_rows-IsSound s.limits now s.tables h) valid in
      (o, ground arith)

  -- After any history of calls on a new store, of whatever arguments, a lookup on the open store
  -- answers: it throws neither for a record that does not read back, nor for a token without an expiry
  -- that its grant does not allow. (The time is a safe integer.)
  pub find_token-Returns :
      (lim : GrantLimits) (s : GrantStore) (cs : List GrantCall) (hash : String) (kind : TokenKind)
      (now : ℕ)
      → new_grant_store lim ≡ ok s
      → (grant_run parse_url s cs).closed ≡ false
      → leb now max_time ≡ true
      → (o : Option VerifiedGrantToken) × ((find_token parse_url hash kind now
            (grant_run parse_url s cs)).0
          ≡ ok o)
  find_token-Returns lim s cs hash kind now made on valid =
      find_sound-Returns hash kind now (grant_run parse_url s cs)
        (subst (λ l. IsSound parse_url l (grant_run parse_url s cs).tables)
          (sym (limits-grant_run parse_url lim s cs made))
          (grant_run-IsSound parse_url lim s cs made))
        on valid
