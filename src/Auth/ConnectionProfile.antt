-- ===== src/Auth/ConnectionProfile.antt =====
-- src/auth/connection-profile.ts, the tools that a connection may use, and src/auth/host-token-auth.ts,
-- the connection of a host token.
use Prim.Native.String.{◌++◌}
use slnc_tr_z_mcp.Prelude.{
  ℕ, String, Bool, true, false, ◌||◌, Option, none, some, List, [], ◌∷◌, ◌≡◌, ◌⊎◌, refl, arith, inl,
  inr, Result, ok, err, ◌==◌, any, Option-cases, Result-cases,
}
use slnc_tr_z_mcp.Auth.HostTokens.{HostTokenMetadata, HostTokenStore, HostTokenError, authenticate}

pub data ResultDelivery : Type 0 where
  structured full_content : ResultDelivery

pub data SurfaceProfile : Type 0 where
  full gateway_only : SurfaceProfile

pub record AuthenticatedConnection : Type 0 where
  pub client_id : String
  pub grant_id : String
  pub connection_id : String
  pub scopes : List String
  pub resource : String
  pub surface_profile : SurfaceProfile
  pub result_delivery : Option ResultDelivery

unfoldable pub resolve_surface_profile :
    Option SurfaceProfile → Option SurfaceProfile → SurfaceProfile
resolve_surface_profile (some grant_override) client_default = grant_override
resolve_surface_profile none (some client_default) = client_default
resolve_surface_profile none none = full

abbrev pub gateway_builtins : List String
gateway_builtins =
    "core.ping" ∷ "connection.restrict" ∷ "debate.create" ∷ "debate.join" ∷ "debate.read"
    ∷ "debate.send" ∷ "debate.wait" ∷ "debate.stop" ∷ []

pub data ToolSource : Type 0 where
  builtin provider : ToolSource

pub record Tool : Type 0 where
  pub name : String
  pub source : ToolSource

abbrev pub is_full : SurfaceProfile → Bool
is_full full = true
is_full gateway_only = false

abbrev pub is_provider : ToolSource → Bool
is_provider builtin = false
is_provider provider = true

unfoldable pub is_tool_visible_for_profile : SurfaceProfile → Tool → Bool
is_tool_visible_for_profile profile tool =
    is_full profile || (is_provider tool.source || any (λ n. n == tool.name) gateway_builtins)

pub data HostAuthError : Type 0 where
  invalid_token : HostAuthError
  store_error : HostTokenError → HostAuthError

unfoldable pub connection_of : HostTokenMetadata → String → AuthenticatedConnection
connection_of metadata resource = record {
  client_id = "host:" ++ metadata.token_id;
  grant_id = "host:" ++ metadata.token_id;
  connection_id = "host:" ++ metadata.token_id;
  scopes = "mcp:tools" ∷ [];
  resource = resource;
  surface_profile = gateway_only;
  result_delivery = some structured;
}

abbrev pub connection_for :
    String
    → Result HostTokenError (Option HostTokenMetadata)
    → Result HostAuthError AuthenticatedConnection
unfolding connection_of
connection_for resource (err e) = err (store_error e)
connection_for resource (ok none) = err invalid_token
connection_for resource (ok (some metadata)) = ok (connection_of metadata resource)

-- A gateway without a store of host tokens has none to offer.
unfoldable pub authenticate_host_token :
    (String → String)
    → Option HostTokenStore
    → String
    → String
    → ℕ
    → Result HostAuthError AuthenticatedConnection × Option HostTokenStore
unfolding connection_of
authenticate_host_token sha256 none token resource now = (err invalid_token, none)
authenticate_host_token sha256 (some s) token resource now =
    let (answer, after) = authenticate sha256 token now s in
    (connection_for resource answer, some after)

source_cases : (x : ToolSource) → (x ≡ provider) ⊎ (x ≡ builtin)
source_cases builtin = inr refl
source_cases provider = inl refl

-- Of the tools of the gateway itself, a connection of a host token sees those of the gateway profile
-- only, whatever the token; and the token was accepted by the store, whose identifier names the
-- connection.
pub authenticate_host_token-gateway_only :
    (sha256 : String → String) (s : Option HostTokenStore) (token resource : String) (now : ℕ)
    (c : AuthenticatedConnection)
    → (authenticate_host_token sha256 s token resource now).0 ≡ ok c
    → ((tool : Tool)
        → is_tool_visible_for_profile c.surface_profile tool ≡ true
        → (tool.source ≡ provider) ⊎ (any (λ n. n == tool.name) gateway_builtins ≡ true))
      × ((open_store : HostTokenStore) × (m : HostTokenMetadata) × (s ≡ some open_store)
          × ((authenticate sha256 token now open_store).0 ≡ ok (some m))
          × (c.connection_id ≡ "host:" ++ m.token_id))
unfolding authenticate_host_token connection_of is_tool_visible_for_profile
authenticate_host_token-gateway_only sha256 none token resource now c h = absurd (ground arith)
authenticate_host_token-gateway_only sha256 (some s) token resource now c h =
    elim (Result-cases (authenticate sha256 token now s).0) [
      | inr (e, p) ↦ absurd (ground arith)
      | inl (answer, p) ↦ elim (Option-cases answer) [
        | inl q ↦ absurd (ground arith)
        | inr (m, q) ↦ (
          λ tool visible. elim (source_cases tool.source) [
            | inl e ↦ inl e
            | inr e ↦ inr (ground arith)
          ],
          (s, m, refl, ground arith, ground arith),
        )
      ]
    ]
