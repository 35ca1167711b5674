-- ===== src/Callers/Identity.antt =====
-- graph-rag/src/server.js: who calls (`resolveIdentity`, `requireCap`).
use Prim.Native.Char.{Char, code}
use Prim.Native.String.{String}
use gwarestrin.Base.{
  ℕ, Bool, true, false, ◌&&◌, ◌||◌, Option, none, some, List, [], ◌==◌, if◌then◌else◌, lookup,
  Result, ok, err,
}
use gwarestrin.Dates.{is_space}
use gwarestrin.Positions.{PositionMap}
use gwarestrin.Delegation.{
  Caps, Role, ordinary, Identity, Tenant, Codec, prefix, texts_of, resolve_agent_token,
}
use gwarestrin.Delegation.Texts.{after_prefix}

pub record Caller : Type 0 where
  pub user : String
  pub key : Option String
  pub agent : Option String
  pub role : Role
  pub caps : Caps
  pub positions : List String
  pub is_open : Bool

-- An entry of the token map, with `=== true` already asked of its capabilities.
pub record TokenEntry : Type 0 where
  pub user : Option String
  pub caps : Caps
  pub positions : List (Option String)

abbrev pub open_caps : Caps
open_caps = record { read = true; write = "direct"; approve = true; raw = true }

abbrev anonymous : Caller
anonymous = record {
  user = "anonymous";
  key = none;
  agent = none;
  role = ordinary;
  caps = open_caps;
  positions = [];
  is_open = true;
}

abbrev skip_text : String → String
skip_text String.[] = String.[]
skip_text (String.◌∷◌ c s) =
    let rest = skip_text s in if is_space (code c) then rest else String.◌∷◌ c s

abbrev add_char : Char → String → String
add_char c s = if is_space (code c) && s == "" then "" else String.◌∷◌ c s

abbrev trim_end : String → String
trim_end String.[] = String.[]
trim_end (String.◌∷◌ c s) = add_char c (trim_end s)

abbrev pub trim_text : String → String
trim_text s = trim_end (skip_text s)

abbrev trimmed : Option String → Option String
trimmed none = none
trimmed (some s) = let t = trim_text s in if t == "" then none else some t

-- The token of an `Authorization` header, if it has one.
abbrev pub bearer : Option String → Option String
bearer none = none
bearer (some header) = trimmed (after_prefix "Bearer " header)

abbrev user_or : Option String → String
user_or none = "unknown"
user_or (some u) = u

abbrev caller_of_agent : Identity → Caller
caller_of_agent i = record {
  user = i.user;
  key = some i.key;
  agent = some i.agent;
  role = i.role;
  caps = i.caps;
  positions = i.positions;
  is_open = false;
}

abbrev pub caller_of_entry : TokenEntry → Caller
caller_of_entry e = record {
  user = user_or e.user;
  key = none;
  agent = none;
  role = ordinary;
  caps = e.caps;
  positions = texts_of e.positions;
  is_open = false;
}

module _ (codec : Codec) (open_mode : Bool) (token_map : List (String × TokenEntry))
    (entries_by_user : List (String × Tenant)) (m : Option PositionMap) (now : ℕ) where
  abbrev resolve_token : Option String → Option Caller
  resolve_token none = none
  resolve_token (some token) = elim (after_prefix prefix token) [
    | some rest ↦ elim (resolve_agent_token codec (λ u. lookup u entries_by_user) m now token) [
      | none ↦ none
      | some i ↦ some (caller_of_agent i)
    ]
    | none ↦ elim (lookup token token_map) [ none ↦ none | some e ↦ some (caller_of_entry e) ]
  ]

  unfoldable pub resolve_identity : Option String → Option Caller
  resolve_identity authorization =
      if open_mode then some anonymous else resolve_token (bearer authorization)

pub data Cap : Type 0 where
  read write approve raw : Cap

pub data CapError : Type 0 where
  no_read write_denied write_misconfigured no_approve no_raw : CapError

unfoldable pub require_cap : Caps → Cap → Result CapError Unit
require_cap c read = if c.read then ok tt else err no_read
require_cap c write =
    if c.write == "deny"
    then err write_denied
    else if c.write == "direct" || c.write == "queued"
    then ok tt
    else err write_misconfigured
require_cap c approve = if c.approve then ok tt else err no_approve
require_cap c raw = if c.raw then ok tt else err no_raw
