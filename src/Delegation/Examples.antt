-- ===== src/Delegation/Examples.antt =====
-- The agent-token theorems at a token of the small organization.
use gwarestrin.Base.{String, ◌≡◌, refl, true, false, Option, none, some, [], ◌∷◌}
use gwarestrin.Positions.{can_see, visible_homes}
use gwarestrin.Positions.Examples.{org, org-IsTree}
use gwarestrin.Delegation.{
  Payload, Tenant, ordinary, Identity, Codec, role_of, identity_of, resolve_agent_token,
  resolve_parts, resolve_payload,
}
use gwarestrin.Delegation.Accepted.{Origin, resolve_agent_token-Origin}
use gwarestrin.Delegation.Limits.{IsLimited, origin, resolve_agent_token-IsLimited}
use gwarestrin.Delegation.Reach.{resolve_agent_token-hides}

-- An agent of the floor's tenant that asks for the night shift and for sales.
abbrev asked : Payload
asked = record {
  u = some "ken";
  a = some "0123456789";
  p = some (some "shift" ∷ some "sales" ∷ []);
  exp = some 10;
  r = some "master";
  j = none;
  e = none;
}

abbrev toy_codec : Codec
toy_codec = record {
  decode = λ body. some asked;
  bytes = λ sig. 7 ∷ [];
  hmac = λ key message. 7 ∷ [];
}

abbrev ken : Tenant
ken = record {
  user = "ken";
  delegation_key = some "0123456789abcdef0123456789abcdef";
  positions = "floor" ∷ [];
  caps = record { read = true; write = some "queue"; raw = false };
}

abbrev tenants : String → Option Tenant
tenants u = some ken

abbrev agent_of_ken : Identity
agent_of_ken = record {
  user = "ken/agent:01234567";
  key = "ken/agent:0123456789";
  agent = "0123456789";
  role = ordinary;
  caps = record { read = true; write = "queue"; approve = false; raw = false };
  positions = "shift" ∷ [];
}

accepted : resolve_agent_token toy_codec tenants (some org) 9000 "gwa1.body.sig" ≡ some agent_of_ken
unfolding resolve_agent_token resolve_parts resolve_payload identity_of role_of visible_homes
accepted = refl

resolve_agent_token-Origin_example : Origin toy_codec tenants (some org) 9000 agent_of_ken
resolve_agent_token-Origin_example =
    resolve_agent_token-Origin toy_codec tenants (some org) 9000 "gwa1.body.sig" agent_of_ken
      accepted

resolve_agent_token-IsLimited_example :
    IsLimited
      (origin toy_codec tenants (some org) 9000 "gwa1.body.sig" agent_of_ken accepted).tenant
      (some org)
      agent_of_ken
resolve_agent_token-IsLimited_example =
    resolve_agent_token-IsLimited toy_codec tenants (some org) 9000 "gwa1.body.sig" agent_of_ken
      accepted

shift_seen : can_see org ("shift" ∷ []) (some "shift") ≡ true
unfolding can_see
shift_seen = refl

resolve_agent_token-hides_example :
    can_see org
      (origin toy_codec tenants
        (some org)
        9000
        "gwa1.body.sig"
        agent_of_ken
        accepted).tenant.positions
      (some "shift")
    ≡ true
resolve_agent_token-hides_example =
    resolve_agent_token-hides org-IsTree toy_codec tenants 9000 "gwa1.body.sig" agent_of_ken
      accepted (some "shift") shift_seen
