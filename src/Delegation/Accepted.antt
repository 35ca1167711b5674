-- ===== src/Delegation/Accepted.antt =====
-- graph-rag/src/delegation.js: what stands behind an accepted agent token.
use Prim.Native.String.{◌++◌ as append}
use gwarestrin.Base.{
  ℕ, String, ◌≡◌, refl, sym, inl, inr, Bool, true, false, Option, none, some, arith, if◌then◌else◌,
  &&-eq-true, Option-cases,
}
use gwarestrin.Positions.{PositionMap}
use gwarestrin.Delegation.{
  Payload, Tenant, Identity, Codec, prefix, parts_of, role_of, identity_of, long_enough, is_over,
  accept_with, resolve_payload, resolve_parts, resolve_agent_token,
}
use gwarestrin.Delegation.Texts.{after_prefix, same_bytes}

pub if-eq-some {ℓ} :
    {A : Type ℓ} (b : Bool) (x i : A) → (if b then some x else none) ≡ some i → (b ≡ true) × (i ≡ x)
if-eq-some true x i h = (refl, let e : x ≡ i = cc in sym e)
if-eq-some false x i h = cc

module _ (codec : Codec) (entry_for : String → Option Tenant) (m : Option PositionMap)
    (now : ℕ) where
  -- What stands behind an accepted token: its tenant is known, the tenant's key is long enough, the
  -- signature is the HMAC of the body under that key, and the token has not ended.
  pub record IsSigned (body sig : String) (payload : Payload) (t : Tenant) (key : String)
      : Type 0 where
    pub user_known : (u : String) × (payload.u ≡ some u) × (entry_for u ≡ some t)
    pub key_known : t.delegation_key ≡ some key
    pub key_long : long_enough key ≡ true
    pub signed : same_bytes (codec.bytes sig) (codec.hmac key (append prefix body)) ≡ true
    pub not_over : is_over payload.exp now ≡ false

  -- The origin of an identity.
  pub record Origin (i : Identity) : Type 0 where
    pub body : String
    pub sig : String
    pub payload : Payload
    pub tenant : Tenant
    pub key : String
    pub decoded : codec.decode body ≡ some payload
    pub agent : String
    pub agent_named : payload.a ≡ some agent
    pub is_signed : IsSigned body sig payload tenant key
    pub same : i ≡ identity_of m tenant payload agent (role_of m tenant payload)

  accept-inv :
      (o : Option String) (body sig : String) (payload : Payload) (agent : String) (t : Tenant)
      (i : Identity)
      → accept_with codec entry_for m now o body sig payload agent t ≡ some i
      → (key : String) × (o ≡ some key)
        × (long_enough key ≡ true)
        × (same_bytes (codec.bytes sig) (codec.hmac key (append prefix body)) ≡ true)
        × (is_over payload.exp now ≡ false)
        × (i ≡ identity_of m t payload agent (role_of m t payload))
  accept-inv none body sig payload agent t i h = cc
  accept-inv (some key) body sig payload agent t i h =
      let (pass, same) = if-eq-some _ _ i h in
      let (long, rest) = &&-eq-true _ _ pass in
      let (signed, fresh) = &&-eq-true _ _ rest in (key, refl, long, signed, ground arith, same)

  -- Every identity comes from a signed token of a known tenant, made for the agent that the token names.
  pub resolve_agent_token-Origin :
      (token : String) (i : Identity)
      → resolve_agent_token codec entry_for m now token ≡ some i
      → Origin i
  unfolding resolve_agent_token resolve_parts resolve_payload
  resolve_agent_token-Origin token i h =
      elim (Option-cases (parts_of (after_prefix prefix token))) [
        | inl e ↦ absurd (ground arith)
        | inr ((body, sig), e) ↦ elim (Option-cases (codec.decode body)) [
          | inl e1 ↦ absurd (ground arith)
          | inr (payload, e1) ↦ elim (Option-cases payload.u) [
            | inl e2 ↦ absurd (ground arith)
            | inr (u, e2) ↦ elim (Option-cases payload.a) [
              | inl e3 ↦ absurd (ground arith)
              | inr (agent, e3) ↦ elim (Option-cases (entry_for u)) [
                | inl e4 ↦ absurd (ground arith)
                | inr (t, e4) ↦
                    let (key, ek, long, signed, fresh, same) =
                      accept-inv t.delegation_key body sig payload agent t i (ground arith) in
                    record {
                      body = body;
                      sig = sig;
                      payload = payload;
                      tenant = t;
                      key = key;
                      decoded = e1;
                      agent = agent;
                      agent_named = e3;
                      is_signed = record {
                        user_known = (u, e2, e4);
                        key_known = ek;
                        key_long = long;
                        signed = signed;
                        not_over = fresh;
                      };
                      same = same;
                    }
              ]
            ]
          ]
        ]
      ]
