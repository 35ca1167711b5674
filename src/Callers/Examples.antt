-- ===== src/Callers/Examples.antt =====
-- Callers of the small organization.
use gwarestrin.Base.{
  String, ◌≡◌, refl, Bool, true, false, ◌||◌, none, some, [], ◌∷◌, elem, any, ok, err,
}
use gwarestrin.Positions.{held_positions, visible_homes, default_home, writable_homes, can_see}
use gwarestrin.Positions.Examples.{org, org-IsTree}
use gwarestrin.Grants.{granted_view}
use gwarestrin.Delegation.{Caps, ordinary}
use gwarestrin.Callers.{
  Caller, Server, Row, scope_in, scope_of, lets_through, resolve_write_home, person_of, is_entity,
  granted_entities, admin_only, not_writable, unknown_position, bearer, require_cap, write,
  write_denied,
}
use gwarestrin.Callers.Homes.{Lands, server_of, resolve_write_home-Lands}
use gwarestrin.Callers.Rows.{view, wrote, lets_through-exact, lets_through_own}

abbrev queued : Caps
queued = record { read = true; write = "queued"; approve = false; raw = false }

-- A person who holds the floor.
abbrev ken : Caller
ken = record {
  user = "ken/agent:12";
  key = none;
  agent = none;
  role = ordinary;
  caps = queued;
  positions = "floor" ∷ "gone" ∷ [];
  is_open = false;
}

abbrev by_text : String → String → Bool
by_text a b = false

abbrev small : Server
small = server_of org [] 12

writes_at_default :
    resolve_write_home small (scope_of by_text small ken 5) true none ≡ ok (some "floor")
unfolding resolve_write_home scope_of default_home visible_homes granted_view
writes_at_default = refl

writes_by_name :
    resolve_write_home small (scope_of by_text small ken 5) true (some "Org") ≡ ok (some "org")
unfolding resolve_write_home scope_of default_home visible_homes granted_view writable_homes
writes_by_name = refl

refused :
    (resolve_write_home small (scope_of by_text small ken 5) true (some " Everyone")
      ≡ err admin_only)
    × (resolve_write_home small (scope_of by_text small ken 5) true (some "sales")
        ≡ err not_writable)
    × (resolve_write_home small (scope_of by_text small ken 5) true (some "moon")
        ≡ err (unknown_position "moon"))
unfolding resolve_write_home scope_of default_home visible_homes granted_view writable_homes
refused = (refl, refl, refl)

header : bearer (some "Bearer  abc ") ≡ some "abc"
header = refl

write_refused : require_cap (record queued { write = "deny" }) write ≡ err write_denied
unfolding require_cap
write_refused = refl

resolve_write_home-Lands_example : Lands by_text org-IsTree [] ("floor" ∷ "gone" ∷ []) "org"
resolve_write_home-Lands_example =
    resolve_write_home-Lands by_text org-IsTree [] 12 ken 5 true (some "Org") "org" refl
      writes_by_name

abbrev shift_row : Row
shift_row = record {
  rid = "#1:1";
  name = "rota";
  origin = some "shift";
  home = some "shift";
  written_by = some "ken";
  kind = none;
  homes = [];
}

lets_through-exact_example : lets_through (scope_in by_text org [] ken 5) false shift_row ≡ (
    can_see org (held_positions org ("floor" ∷ "gone" ∷ [])) (some "shift")
    || (elem "shift" (view by_text org [] ken 5).homes
        || (wrote (some "ken") (person_of "ken/agent:12")
            || any (is_entity shift_row) (granted_entities (some (view by_text org [] ken 5))))))
lets_through-exact_example =
    lets_through-exact by_text org [] ken 5 org-IsTree shift_row "shift" refl refl refl

lets_through_own_example :
    lets_through (scope_in by_text org [] ken 5) true shift_row
    ≡ can_see org (held_positions org ("floor" ∷ "gone" ∷ [])) (some "shift")
lets_through_own_example =
    lets_through_own by_text org [] ken 5 org-IsTree shift_row "shift" refl refl refl

sees_shift : lets_through (scope_in by_text org [] ken 5) true shift_row ≡ true
unfolding lets_through visible_homes granted_view default_home
sees_shift = refl
