-- ===== src/Tokens/Seen.antt =====
-- What the graph service makes of the token that the agent server mints.
use Prim.Native.String.{String, ◌++◌ as append}
use gwarestrin.Base.{
  ℕ, ◌≡◌, ◌≢◌, refl, ap, ◌∙◌, true, ◌&&◌, Option, none, some, List, [], ◌∷◌, if◌then◌else◌, arith,
  ne→==-eq-false,
}
use gwarestrin.Dates.{codes}
use gwarestrin.Positions.{PositionMap}
use gwarestrin.Delegation.Texts.{take_text, is_job_id, is_rid}
use gwarestrin.Delegation.{
  prefix, role_word, Payload, Tenant, Role, Identity, Codec, ordinary, root_tenant, role_of,
  caps_of, positions_of, texts_of, identity_of, long_enough, narrowed, accept_with, accept,
  resolve_payload, resolve_parts, resolve_agent_token,
}
use gwarestrin.Tokens.Texts.{IsPart, after_prefix-append, two_parts-split_dots, same_bytes_refl}
use gwarestrin.Tokens.{
  GraphRole, Agent, Metadata, GraphPayload, Encoder, role_claims, payload_for, or_no_positions,
  minted, token_with, graph_token_for,
}

abbrev pub all_some : List String → List (Option String)
all_some [] = []
all_some (x ∷ xs) = some x ∷ all_some xs

-- The payload as the graph service's `JSON.parse` has it.
abbrev pub read_back : GraphPayload → Payload
read_back payload = record {
  u = some payload.u;
  a = some payload.a;
  p = some (all_some payload.p);
  exp = none;
  r = payload.role.r;
  j = payload.role.j;
  e = payload.role.e;
}

-- The two programs read and write JSON, base64url and HMAC alike: for this payload and key.
pub record Agrees (encoder : Encoder) (codec : Codec) (key : String) (payload : GraphPayload)
    : Type 0 where
  pub body : IsPart (encoder.encode payload)
  pub signature : (message : String) → IsPart (encoder.sign key message)
  pub decoded : codec.decode (encoder.encode payload) ≡ some (read_back payload)
  pub signed : (message : String) → codec.bytes (encoder.sign key message) ≡ codec.hmac key message

-- The role that an agent's token gives it: its own under the organization's admin, if its job and entry are well formed.
abbrev pub role_shown : Option PositionMap → Tenant → Option GraphRole → Role
role_shown m t none = ordinary
role_shown m t (some (GraphRole.worker job entry title)) =
    if root_tenant m t && (is_job_id job && is_rid (codes entry))
    then Role.worker job entry
    else ordinary
role_shown m t (some (GraphRole.handler job stopped title)) =
    if root_tenant m t && is_job_id job then Role.handler job else ordinary
role_shown m t (some GraphRole.liaison) = if root_tenant m t then Role.liaison else ordinary
role_shown m t (some GraphRole.master) = if root_tenant m t then Role.master else ordinary

module _ (m : Option PositionMap) (t : Tenant) where
  role_of-claims :
      (payload : GraphPayload) (role : Option GraphRole)
      → payload.role ≡ role_claims role
      → role_of m t (read_back payload) ≡ role_shown m t role
  unfolding role_of
  role_of-claims payload none e = rw e (ground arith)
  role_of-claims payload (some (GraphRole.worker j en ti)) e = rw e (ground arith)
  role_of-claims payload (some (GraphRole.handler j st ti)) e = rw e (ground arith)
  role_of-claims payload (some GraphRole.liaison) e = rw e (ground arith)
  role_of-claims payload (some GraphRole.master) e = rw e (ground arith)

texts_of-all_some : (xs : List String) → texts_of (all_some xs) ≡ xs
texts_of-all_some [] = refl
texts_of-all_some (x ∷ xs) = ap (λ (ys : List String). x ∷ ys) (texts_of-all_some xs)

-- An ordinary agent asks for its profile's positions; a role holds what the tenant holds.
abbrev pub positions_shown : Option PositionMap → Tenant → Option (List String) → Role → List String
positions_shown m t positions Role.ordinary = narrowed m t.positions (or_no_positions positions)
positions_shown m t positions role = t.positions

positions_of-read_back :
    (m : Option PositionMap) (t : Tenant) (user : String) (agent : Agent)
    (positions : Option (List String)) (now : ℕ) (role : Role)
    → positions_of m t (read_back (payload_for user agent positions now)) role
      ≡ positions_shown m t positions role
positions_of-read_back m t user agent positions now Role.ordinary =
    ap (narrowed m t.positions) (texts_of-all_some (or_no_positions positions))
positions_of-read_back m t user agent positions now Role.master = refl
positions_of-read_back m t user agent positions now Role.liaison = refl
positions_of-read_back m t user agent positions now (Role.worker j e) = refl
positions_of-read_back m t user agent positions now (Role.handler j) = refl

module _ (encoder : Encoder) (codec : Codec) (entry_for : String → Option Tenant)
    (m : Option PositionMap) (later : ℕ) where
  accept_with-key :
      (key body sig : String) (payload : Payload) (agent : String) (t : Tenant)
      (out : Option Identity)
      → t.delegation_key ≡ some key
      → accept_with codec entry_for m later (some key) body sig payload agent t ≡ out
      → accept codec entry_for m later body sig payload agent t ≡ out
  accept_with-key key body sig payload agent t out e h =
      ap (λ k. accept_with codec entry_for m later k body sig payload agent t) e ∙ h

  accept_with-signed :
      (key : String) (payload : GraphPayload) (t : Tenant)
      → Agrees encoder codec key payload
      → long_enough key ≡ true
      → accept_with codec entry_for m later
          (some key)
          (encoder.encode payload)
          (encoder.sign key (append prefix (encoder.encode payload)))
          (read_back payload)
          payload.a
          t
        ≡ some (identity_of m t (read_back payload) payload.a (role_of m t (read_back payload)))
  accept_with-signed key payload t v h = rw (
    h,
    v.signed (append prefix (encoder.encode payload)),
    same_bytes_refl (codec.hmac key (append prefix (encoder.encode payload))),
  )

  resolve_agent_token-minted :
      (key : String) (payload : GraphPayload) (t : Tenant)
      → Agrees encoder codec key payload
      → long_enough key ≡ true
      → entry_for payload.u ≡ some t
      → t.delegation_key ≡ some key
      → resolve_agent_token codec entry_for m later (minted encoder key payload)
        ≡ some (identity_of m t (read_back payload) payload.a (role_of m t (read_back payload)))
  unfolding resolve_agent_token resolve_parts resolve_payload
  resolve_agent_token-minted key payload t v h et ek =
      rw
        (
          after_prefix-append prefix (
              append (encoder.encode payload)
                (append "." (encoder.sign key (append prefix (encoder.encode payload))))),
          two_parts-split_dots (encoder.encode payload)
              (encoder.sign key (append prefix (encoder.encode payload))) v.body
              (v.signature (append prefix (encoder.encode payload))),
          resolve_parts,
          v.decoded,
          resolve_payload,
          et,
        )
        (accept_with-key key _ _ _ _ t _ ek (accept_with-signed key payload t v h))

abbrev pub user_word : Role → String → String
user_word role agent = append (role_word role) (take_text 8 agent)

-- The identity as the agent's own record and its tenant give it.
abbrev pub agent_identity :
    Option PositionMap → Tenant → Agent → Option (List String) → Role → Identity
agent_identity m t agent positions role = record {
  user = append t.user (user_word role agent.id);
  key = append t.user (append "/agent:" agent.id);
  agent = agent.id;
  role = role;
  caps = caps_of t role;
  positions = positions_shown m t positions role;
}

identity_of-minted :
    (m : Option PositionMap) (t : Tenant) (user : String) (agent : Agent)
    (positions : Option (List String)) (now : ℕ) (role : Role)
    → identity_of m t (read_back (payload_for user agent positions now)) agent.id role
      ≡ agent_identity m t agent positions role
unfolding identity_of
identity_of-minted m t user agent positions now role =
    rw (positions_of-read_back m t user agent positions now role)

graph_token_for-minted :
    (encoder : Encoder) (agent : Agent) (positions : Option (List String)) (md : Metadata) (now : ℕ)
    (key : String)
    → md.delegation_key ≡ some key
    → key ≢ ""
    → md.name ≢ ""
    → graph_token_for encoder agent positions (some md) now
      ≡ some (minted encoder key (payload_for md.name agent positions now))
unfolding graph_token_for
graph_token_for-minted encoder agent positions md now key e hk hn =
    ap (token_with encoder agent positions md now) e
    ∙ rw (token_with, ne→==-eq-false key "" hk, ne→==-eq-false md.name "" hn)

long_enough-filled : (key : String) → long_enough key ≡ true → key ≢ ""
long_enough-filled key h e = absurd (cc (rw e at h))

-- An agent's token, minted by the agent server and read by the graph service at any later time, stands for
-- that agent: its id, its role (where the tenant is the organization's admin, and the job and the entry are well
-- formed) and the capabilities of that role. With such a role, or where its profile names no position,
-- it holds all positions of the tenant; otherwise those of its profile that are within the tenant's reach
-- (none without a position map). The name in the metadata is assumed not to be empty and to be that of a known tenant, both programs to
-- have the same key, of 32 characters or more, and to encode this payload alike.
pub graph_token_for-resolves :
    (encoder : Encoder) (codec : Codec) (entry_for : String → Option Tenant)
    (m : Option PositionMap) (now later : ℕ) (agent : Agent) (positions : Option (List String))
    (md : Metadata) (key : String) (t : Tenant)
    → md.delegation_key ≡ some key
    → md.name ≢ ""
    → entry_for md.name ≡ some t
    → t.delegation_key ≡ some key
    → long_enough key ≡ true
    → Agrees encoder codec key (payload_for md.name agent positions now)
    → (token : String) × (graph_token_for encoder agent positions (some md) now ≡ some token)
      × (resolve_agent_token codec entry_for m later token
          ≡ some (agent_identity m t agent positions (role_shown m t agent.graph_role)))
graph_token_for-resolves encoder codec entry_for m now later agent positions md key t e hn et ek h
      v =
    (
      minted encoder key payload,
      graph_token_for-minted encoder agent positions md now key e (long_enough-filled key h) hn,
      resolve_agent_token-minted encoder codec entry_for m later key payload t v h et ek
          ∙ ap some (
              ap (identity_of m t (read_back payload) agent.id)
                (role_of-claims m t payload agent.graph_role refl)
              ∙ identity_of-minted m t md.name agent positions now
                  (role_shown m t agent.graph_role)),
    )
  where
    payload : GraphPayload
    payload = payload_for md.name agent positions now
