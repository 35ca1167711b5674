-- ===== src/Delegation.antt =====
-- graph-rag/src/delegation.js: the identity that an agent token stands for.
--
-- `Codec` is what the file takes from node's Buffer, JSON and crypto: what a body decodes to (`none` if
-- it does not parse or is falsy), the bytes of a base64url text, and the HMAC of a message under a key.
-- A decoded payload is read by the types that the code tests: a property of another type is `none`.
-- The texts of user, key and agent names are cut by characters.
pub mod Texts
pub mod Accepted
pub mod Limits
pub mod Reach
mod Examples
use Prim.Native.Char.{Char, code}
use Prim.Native.String.{String, ◌++◌ as append}
use gwarestrin.Base.{
  ℕ, zero, suc, ◌+◌, ◌*◌, ◌≡◌, refl, Bool, true, false, not, ◌&&◌, ◌||◌, Option, none, some, List,
  [], ◌∷◌, ◌==◌, if◌then◌else◌, ltb, leb, eqb, length, filter, all, elem,
}
use gwarestrin.Dates.{codes, is_digit}
use gwarestrin.Delegation.Texts.{
  after_prefix, split_dots, two_parts, take_text, is_job_id, is_rid, same_bytes,
}
use gwarestrin.Positions.{PositionMap, known, held_positions, visible_homes, seen_in}

pub record Payload : Type 0 where
  pub u : Option String
  pub a : Option String
  pub p : Option (List (Option String))
  pub exp : Option ℕ
  pub r : Option String
  pub j : Option String
  pub e : Option String

pub record Caps : Type 0 where
  pub read : Bool
  pub write : String
  pub approve : Bool
  pub raw : Bool

-- `entry.caps`, with `=== true` already asked of `read` and `raw`.
pub record TenantCaps : Type 0 where
  pub read : Bool
  pub write : Option String
  pub raw : Bool

pub record Tenant : Type 0 where
  pub user : String
  pub delegation_key : Option String
  pub positions : List String
  pub caps : TenantCaps

pub data Role : Type 0 where
  ordinary master liaison : Role
  worker : (job entry : String) → Role
  handler : (job : String) → Role

pub record Identity : Type 0 where
  pub user : String
  pub key : String
  pub agent : String
  pub role : Role
  pub caps : Caps
  pub positions : List String

pub record Codec : Type 0 where
  pub decode : String → Option Payload
  pub bytes : String → List ℕ
  pub hmac : String → String → List ℕ

abbrev pub prefix : String
prefix = "gwa1."

-- `x === s`, for a text that may be missing
abbrev pub is_text : Option String → String → Bool
is_text none s = false
is_text (some t) s = t == s

abbrev pub texts_of : List (Option String) → List String
texts_of [] = []
texts_of (none ∷ xs) = texts_of xs
texts_of (some x ∷ xs) = x ∷ texts_of xs

abbrev pub requested : Payload → List String
requested payload = elim payload.p [ none ↦ [] | some xs ↦ texts_of xs ]

abbrev pub within_reach : PositionMap → List String → String → Bool
within_reach m tenant p = known m p && seen_in (visible_homes m (held_positions m tenant)) p

abbrev pub narrowed : Option PositionMap → List String → List String → List String
narrowed m tenant [] = tenant
narrowed none tenant (p ∷ ps) = []
narrowed (some m) tenant (p ∷ ps) = filter (within_reach m tenant) (p ∷ ps)

abbrev pub holds_root : Option PositionMap → List String → Bool
holds_root none tenant = false
holds_root (some m) tenant = elem m.root tenant

-- The organization's admin: the only tenant whose agents may have a role.
abbrev pub root_tenant : Option PositionMap → Tenant → Bool
root_tenant m t = holds_root m t.positions && (is_text t.caps.write "direct" && t.caps.read)

abbrev job_or : Option String → String
job_or none = ""
job_or (some j) = j

abbrev is_job : Option String → Bool
is_job none = false
is_job (some j) = is_job_id j

abbrev is_entry : Option String → Bool
is_entry none = false
is_entry (some e) = is_rid (codes e)

unfoldable pub role_of : Option PositionMap → Tenant → Payload → Role
role_of m t payload =
    if root_tenant m t && (is_text payload.r "worker" && (is_job payload.j && is_entry payload.e))
    then worker (job_or payload.j) (job_or payload.e)
    else if root_tenant m t && is_text payload.r "master"
    then master
    else if root_tenant m t && (is_text payload.r "handler" && is_job payload.j)
    then handler (job_or payload.j)
    else if root_tenant m t && is_text payload.r "liaison"
    then liaison
    else ordinary

abbrev pub write_or_deny : Option String → String
write_or_deny none = "deny"
write_or_deny (some w) = w

unfoldable pub caps_of : Tenant → Role → Caps
caps_of t ordinary = record {
  read = t.caps.read;
  write = write_or_deny t.caps.write;
  approve = false;
  raw = false;
}
caps_of t (worker j e) = record { read = true; write = "direct"; approve = false; raw = t.caps.raw }
caps_of t master = record { read = true; write = "deny"; approve = true; raw = t.caps.raw }
caps_of t (handler j) = record { read = true; write = "deny"; approve = true; raw = false }
caps_of t liaison = record { read = true; write = "deny"; approve = true; raw = false }

abbrev pub role_word : Role → String
role_word ordinary = "/agent:"
role_word master = "/master:"
role_word liaison = "/liaison:"
role_word (worker j e) = "/worker:"
role_word (handler j) = "/handler:"

abbrev pub positions_of : Option PositionMap → Tenant → Payload → Role → List String
positions_of m t payload ordinary = narrowed m t.positions (requested payload)
positions_of m t payload role = t.positions

unfoldable pub identity_of : Option PositionMap → Tenant → Payload → String → Role → Identity
unfolding caps_of
identity_of m t payload agent role = record {
  user = append t.user (append (role_word role) (take_text 8 agent));
  key = append t.user (append "/agent:" agent);
  agent = agent;
  role = role;
  caps = caps_of t role;
  positions = positions_of m t payload role;
}

abbrev pub long_enough : String → Bool
long_enough key = leb 32 (length (codes key))

-- `typeof payload.exp === "number" && now / 1000 > payload.exp`
abbrev pub is_over : Option ℕ → ℕ → Bool
is_over none now = false
is_over (some exp) now = ltb (exp * 1000) now

abbrev pub parts_of : Option String → Option (String × String)
parts_of none = none
parts_of (some rest) = two_parts (split_dots rest)

module _ (codec : Codec) (entry_for : String → Option Tenant) (m : Option PositionMap)
    (now : ℕ) where
  -- The tests after the tenant is found: its key, the signature, the end.
  abbrev pub accept_with :
      Option String → String → String → Payload → String → Tenant → Option Identity
  accept_with none body sig payload agent t = none
  accept_with (some key) body sig payload agent t =
      if long_enough key
        && (same_bytes (codec.bytes sig) (codec.hmac key (append prefix body))
            && not (is_over payload.exp now))
      then some (identity_of m t payload agent (role_of m t payload))
      else none

  abbrev pub accept : String → String → Payload → String → Tenant → Option Identity
  accept body sig payload agent t = accept_with t.delegation_key body sig payload agent t

  unfoldable pub resolve_payload : String → String → Payload → Option Identity
  resolve_payload body sig payload = elim payload.u [
    | none ↦ none
    | some u ↦ elim payload.a [
      | none ↦ none
      | some agent ↦ elim (entry_for u) [ none ↦ none | some t ↦ accept body sig payload agent t ]
    ]
  ]

  unfoldable pub resolve_parts : Option (String × String) → Option Identity
  resolve_parts none = none
  resolve_parts (some (body, sig)) = elim (codec.decode body) [
    | none ↦ none
    | some payload ↦ resolve_payload body sig payload
  ]

  unfoldable pub resolve_agent_token : String → Option Identity
  resolve_agent_token token = resolve_parts (parts_of (after_prefix prefix token))
