-- ===== src/Delegation/Limits.antt =====
-- graph-rag/src/delegation.js: the capabilities of an agent and of its tenant.
use gwarestrin.Base.{
  &&-eq-true, ℕ, String, ◌≡◌, refl, sym, ap, subst, ◌≢◌, ◌⊎◌, inl, inr, true, Option, none, some,
  arith, eq_iff, Bool-cases,
}
use gwarestrin.Positions.{PositionMap}
use gwarestrin.Delegation.{
  Payload, Tenant, Role, ordinary, worker, Identity, Codec, is_text, root_tenant, role_of,
  write_or_deny, identity_of, resolve_agent_token,
}
use gwarestrin.Delegation.Accepted.{Origin, resolve_agent_token-Origin}

-- The capabilities of an identity against those of its tenant.
pub record IsLimited (t : Tenant) (m : Option PositionMap) (i : Identity) : Type 0 where
  pub writes_or_approves : i.caps.approve ≡ true → i.caps.write ≡ "deny"
  pub approves_for_root : i.caps.approve ≡ true → root_tenant m t ≡ true
  pub raw_if_tenant : i.caps.raw ≡ true → (t.caps.raw ≡ true) × (root_tenant m t ≡ true)
  pub reads_if_tenant : i.caps.read ≡ true → t.caps.read ≡ true
  pub writes_as_tenant : (i.caps.write ≡ "deny") ⊎ (t.caps.write ≡ some i.caps.write)
  pub acts_if_root : i.role ≢ ordinary → root_tenant m t ≡ true

root_tenant-reads :
    (m : Option PositionMap) (t : Tenant)
    → root_tenant m t ≡ true
    → (t.caps.read ≡ true) × (is_text t.caps.write "direct" ≡ true)
root_tenant-reads m t h =
    let (held, rest) = &&-eq-true _ _ h in
    let (direct, reads) = &&-eq-true _ _ rest in (reads, direct)

is_text-eq : (o : Option String) (s : String) → is_text o s ≡ true → o ≡ some s
is_text-eq none s h = cc
is_text-eq (some x) s h = ap some ((eq_iff x s).0 h)

role_of-root :
    (m : Option PositionMap) (t : Tenant) (payload : Payload)
    → (role_of m t payload ≡ ordinary) ⊎ (root_tenant m t ≡ true)
unfolding role_of
role_of-root m t payload = elim (Bool-cases (root_tenant m t)) [
  | inl e ↦ inr e
  | inr e ↦ inl (rw (e, role_of))
]

write_as : (o : Option String) → (write_or_deny o ≡ "deny") ⊎ (o ≡ some (write_or_deny o))
write_as none = inl refl
write_as (some w) = inr refl

ordinary-IsLimited :
    (m : Option PositionMap) (t : Tenant) (payload : Payload) (agent : String)
    → IsLimited t m (identity_of m t payload agent ordinary)
unfolding identity_of
ordinary-IsLimited m t payload agent = record {
  writes_or_approves = λ h. cc;
  approves_for_root = λ h. cc;
  raw_if_tenant = λ h. cc;
  reads_if_tenant = λ h. h;
  writes_as_tenant = write_as t.caps.write;
  acts_if_root = λ ne. absurd (ne refl);
}

module _ (m : Option PositionMap) (t : Tenant) (payload : Payload) (agent : String)
    (r : root_tenant m t ≡ true) where
  -- The same proof serves the roles that approve and write nothing.
  role-IsLimited : (role : Role) → IsLimited t m (identity_of m t payload agent role)
  unfolding identity_of
  role-IsLimited ordinary = ordinary-IsLimited m t payload agent
  role-IsLimited (worker j e) = record {
    writes_or_approves = λ h. cc;
    approves_for_root = λ h. r;
    raw_if_tenant = λ h. (h, r);
    reads_if_tenant = λ h. (root_tenant-reads m t r).0;
    writes_as_tenant = inr (is_text-eq t.caps.write "direct" (root_tenant-reads m t r).1);
    acts_if_root = λ ne. r;
  }
  role-IsLimited _ = record {
    writes_or_approves = λ h. refl;
    approves_for_root = λ h. r;
    raw_if_tenant = λ h. (ground arith, r);
    reads_if_tenant = λ h. (root_tenant-reads m t r).0;
    writes_as_tenant = inl refl;
    acts_if_root = λ ne. r;
  }

identity_of-IsLimited :
    (m : Option PositionMap) (t : Tenant) (payload : Payload) (agent : String)
    → IsLimited t m (identity_of m t payload agent (role_of m t payload))
identity_of-IsLimited m t payload agent = elim (role_of-root m t payload) [
  | inl e ↦ rw e (ordinary-IsLimited m t payload agent)
  | inr r ↦ role-IsLimited m t payload agent r (role_of m t payload)
]

module _ (codec : Codec) (entry_for : String → Option Tenant) (m : Option PositionMap) (now : ℕ)
    (token : String) (i : Identity)
    (accepted : resolve_agent_token codec entry_for m now token ≡ some i) where
  abbrev pub origin : Origin codec entry_for m now i
  origin = resolve_agent_token-Origin codec entry_for m now token i accepted

  -- An agent never has more than its tenant: it reads and runs raw queries only if the tenant may, and
  -- writes as the tenant does or not at all; whoever approves writes nothing; and to approve, to run
  -- raw queries or to have a role at all takes a tenant that holds the root and writes directly.
  pub resolve_agent_token-IsLimited : IsLimited origin.tenant m i
  resolve_agent_token-IsLimited =
      subst (IsLimited origin.tenant m) (sym origin.same)
        (identity_of-IsLimited m origin.tenant origin.payload origin.agent)
