-- ===== src/Tokens.antt =====
-- packages/server/src/agents/graph-token.ts: the credential that an agent shows to the graph service.
--
-- `Encoder` is what the file takes from JSON, node's Buffer and crypto: the base64url text of a payload, and
-- the base64url text of the HMAC of a message under a key. A value of the metadata that is not a text is `none`.
pub mod Texts
pub mod Seen
mod Examples
use Prim.Native.String.{String, ◌++◌ as append}
use gwarestrin.Base.{ℕ, ◌/◌, Bool, ◌||◌, Option, none, some, List, [], ◌==◌, if◌then◌else◌}
use gwarestrin.Delegation.{prefix}

pub data GraphRole : Type 0 where
  worker : (job entry title : String) → GraphRole
  handler : (job stopped title : String) → GraphRole
  liaison master : GraphRole

pub record Agent : Type 0 where
  pub id : String
  pub graph_role : Option GraphRole

-- `metadata.instance.name`, `values.graph.token` and `values.graph.delegationKey`
pub record Metadata : Type 0 where
  pub name : String
  pub token : Option String
  pub delegation_key : Option String

-- The role's part of a payload: `r`, `j` and `e`.
pub record RoleClaims : Type 0 where
  pub r : Option String
  pub j : Option String
  pub e : Option String

pub record GraphPayload : Type 0 where
  pub u : String
  pub a : String
  pub p : List String
  pub role : RoleClaims
  pub iat : ℕ

pub record Encoder : Type 0 where
  pub encode : GraphPayload → String
  pub sign : String → String → String

abbrev pub role_claims : Option GraphRole → RoleClaims
role_claims (some (worker job entry title)) = record {
  r = some "worker";
  j = some job;
  e = some entry;
}
role_claims (some (handler job stopped title)) = record {
  r = some "handler";
  j = some job;
  e = none;
}
role_claims (some liaison) = record { r = some "liaison"; j = none; e = none }
role_claims (some master) = record { r = some "master"; j = none; e = none }
role_claims none = record { r = none; j = none; e = none }

abbrev or_no_positions : Option (List String) → List String
or_no_positions none = []
or_no_positions (some ps) = ps

abbrev pub payload_for : String → Agent → Option (List String) → ℕ → GraphPayload
payload_for user agent positions now = record {
  u = user;
  a = agent.id;
  p = or_no_positions positions;
  role = role_claims agent.graph_role;
  iat = now / 1000;
}

abbrev pub minted : Encoder → String → GraphPayload → String
minted encoder key payload =
    let body = encoder.encode payload in
    append prefix (append body (append "." (encoder.sign key (append prefix body))))

abbrev token_with :
    Encoder → Agent → Option (List String) → Metadata → ℕ → Option String → Option String
token_with encoder agent positions m now none = m.token
token_with encoder agent positions m now (some key) =
    if key == "" || m.name == ""
    then m.token
    else some (minted encoder key (payload_for m.name agent positions now))

unfoldable pub graph_token_for :
    Encoder → Agent → Option (List String) → Option Metadata → ℕ → Option String
graph_token_for encoder agent positions none now = none
graph_token_for encoder agent positions (some m) now =
    token_with encoder agent positions m now m.delegation_key
