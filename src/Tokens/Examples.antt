-- ===== src/Tokens/Examples.antt =====
-- The token of a worker of the organization's admin, minted and read back.
use gwarestrin.Base.{String, ◌≡◌, refl, true, Option, none, some, [], ◌∷◌}
use gwarestrin.Dates.{codes}
use gwarestrin.Positions.Examples.{org}
use gwarestrin.Delegation.{Tenant, Codec, Role, resolve_agent_token}
use gwarestrin.Tokens.{
  GraphRole, Agent, Metadata, GraphPayload, Encoder, payload_for, graph_token_for,
}
use gwarestrin.Tokens.Seen.{Agrees, read_back, agent_identity, graph_token_for-resolves}

abbrev key_of_ann : String
key_of_ann = "0123456789abcdef0123456789abcdef"

abbrev job_text : String
job_text = "01234567-89ab-cdef-0123-456789abcdef"

abbrev worker_role : GraphRole
worker_role = GraphRole.worker job_text "#12:7" "Check the supplier"

abbrev worker_agent : Agent
worker_agent = record { id = "a1b2c3d4e5"; graph_role = some worker_role }

abbrev metadata : Metadata
metadata = record { name = "ann"; token = none; delegation_key = some key_of_ann }

abbrev ann : Tenant
ann = record {
  user = "ann";
  delegation_key = some key_of_ann;
  positions = org.root ∷ [];
  caps = record { read = true; write = some "direct"; raw = true };
}

abbrev tenants : String → Option Tenant
tenants user = some ann

abbrev worker_payload : GraphPayload
worker_payload = payload_for "ann" worker_agent (some ("floor" ∷ [])) 5000

-- The signature of the example is the key itself.
abbrev encoder : Encoder
encoder = record { encode = λ payload. "e30"; sign = λ key message. key }

abbrev codec : Codec
codec = record {
  decode = λ body. some (read_back worker_payload);
  bytes = codes;
  hmac = λ key message. codes key;
}

agrees : Agrees encoder codec key_of_ann worker_payload
agrees = record {
  body = record { filled = λ e. absurd (cc e); no_dot = refl };
  signature = λ message. record { filled = λ e. absurd (cc e); no_dot = refl };
  decoded = refl;
  signed = λ message. refl;
}

graph_token_for-resolves_example :
    (token : String) × (graph_token_for encoder worker_agent
        (some ("floor" ∷ []))
        (some metadata)
        5000
      ≡ some token)
    × (resolve_agent_token codec tenants (some org) 9000 token
        ≡ some (
            agent_identity
              (some org)
              ann
              worker_agent
              (some ("floor" ∷ []))
              (Role.worker job_text "#12:7")))
graph_token_for-resolves_example =
    graph_token_for-resolves encoder codec tenants (some org) 5000 9000 worker_agent
      (some ("floor" ∷ [])) metadata key_of_ann ann refl (λ e. absurd (cc e)) refl refl refl agrees
