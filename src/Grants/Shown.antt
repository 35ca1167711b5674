-- ===== src/Grants/Shown.antt =====
-- graph-rag/src/grants.js: what a caller's grants add to its view.
use gwarestrin.Base.{
  ℕ, String, ◌≡◌, refl, sym, ap, ◌∙◌, subst, ◌≢◌, inl, inr, Bool, true, false, not, ◌&&◌, ◌||◌,
  Option, none, some, List, [], ◌∷◌, arith, ◌==◌, eq_iff, any, elem, keys, insert, Bool-cases,
  Option-cases, elem-append, elem-filter, elem-keys-eq, ==_comm, ne→==-eq-false,
}
use gwarestrin.Positions.{PositionMap, everyone, known, ancestors, visible_homes, can_see}
use gwarestrin.Positions.Chain.{IsTree, known-ne-everyone}
use gwarestrin.Positions.Order.{at_or_above, ancestors-eq-chain}
use gwarestrin.Positions.Visible.{visible_homes-exact, can_see-known}
use gwarestrin.Grants.{
  Grant, Entity, View, no_view, subtree, nonempty, same_text, is_active, reaches, entity_of,
  entity_key, is_entity_grant, add_grant, add_grants, granted_view, values, shows, grant_shows,
  row_at, is_dangling,
}

module _ {m : PositionMap} (tree : IsTree m) where
  -- The positions of a subtree: those known positions that the root of a known subtree is at or above.
  pub elem-subtree :
      (id p : String) → elem p (subtree m id) ≡ (known m id && (known m p && at_or_above m id p))
  unfolding subtree
  elem-subtree id p = elim (Bool-cases (known m id)) [
    | inr e ↦ rw e
    | inl e ↦ rw e (
        elem-filter p (λ q. q == id || elem id (ancestors m q)) (keys m.positions)
        ∙ ap (λ b. b && (p == id || elem id (ancestors m p))) (elem-keys-eq p m.positions)
        ∙ at_known p)
  ]
    where
      at_known :
          (p : String)
          → (known m p && (p == id || elem id (ancestors m p))) ≡ (known m p && at_or_above m id p)
      at_known p = elim (Bool-cases (known m p)) [
        | inr k ↦ rw k
        | inl k ↦
            ground
              (arith, eq_iff p id, eq_iff id p, ancestors-eq-chain m p (known-ne-everyone tree p k))
      ]

  -- Without a recipient person a grant reaches exactly the callers who would see what is homed at its
  -- receiving position.
  pub reaches-eq-can_see :
      (g : Grant) (held vis : List String) (person : Option String)
      → visible_homes m held ≡ some vis
      → nonempty g.to_user ≡ false
      → (g.to == everyone || known m g.to) ≡ true
      → reaches g vis person ≡ can_see m held (some g.to)
  unfolding reaches
  reaches-eq-can_see g held vis person seen alone k =
      rw alone (visible_homes-exact tree held vis g.to seen ∙ sym (can_see-known tree held g.to k))

  -- A subtree grant that counts for a caller with the view `vis`.
  abbrev pub opens : List String → ℕ → Option String → String → Grant → Bool
  opens vis now person x g =
      is_active g now
      && (reaches g vis person
          && (g.kind == "subtree" && (known m g.target && (known m x && at_or_above m g.target x))))

  add_grant-homes :
      (vis : List String) (now : ℕ) (person : Option String) (x : String) (view : View) (g : Grant)
      → elem x (add_grant m vis now person view g).homes
        ≡ (elem x view.homes || opens vis now person x g)
  unfolding add_grant
  add_grant-homes vis now person x view g =
      ground (arith, elem-append x view.homes (subtree m g.target), elem-subtree g.target x)

  add_grants-homes :
      (vis : List String) (now : ℕ) (person : Option String) (x : String) (view : View)
      (gs : List Grant)
      → elem x (add_grants m vis now person view gs).homes
        ≡ (elem x view.homes || any (opens vis now person x) gs)
  unfolding add_grants
  add_grants-homes vis now person x view [] = ground arith
  add_grants-homes vis now person x view (g ∷ gs) = ground (
    arith,
    add_grants-homes vis now person x (add_grant m vis now person view g) gs,
    add_grant-homes vis now person x view g,
  )

  -- A caller that does not see everything is shown a home by its grants exactly when some subtree
  -- grant is active now, reaches the caller, and was made for a known position at or above that home.
  pub granted_view-homes :
      (held vis : List String) (grants : List Grant) (now : ℕ) (person : Option String) (x : String)
      → visible_homes m held ≡ some vis
      → elem x (granted_view m held grants now person).homes ≡ any (opens vis now person x) grants
  unfolding granted_view
  granted_view-homes held vis grants now person x seen =
      rw seen (add_grants-homes vis now person x no_view grants)

-- An entity grant for this record that counts for a caller with the view `vis`.
abbrev pub allows : List String → ℕ → Option String → Entity → Grant → Bool
allows vis now person r g =
    is_active g now && (reaches g vis person && (is_entity_grant g && shows r (entity_of g)))

any-values-insert :
    (f : Entity → Bool) (k : String) (e : Entity) (es : List (String × Entity))
    → any f (values (insert k e es)) ≡ true
    → (f e || any f (values es)) ≡ true
any-values-insert f k e [] h = h
any-values-insert f k e ((j, d) ∷ es) h = ground (arith, any-values-insert f k e es)

or_step : (x y z a : Bool) → (x || y) ≡ true → (x ≡ true → (z || a) ≡ true) → (z || (a || y)) ≡ true
or_step x y z a h f = ground (arith, f)

module _ (m : PositionMap) (vis : List String) (now : ℕ) (person : Option String) (r : Entity) where
  add_grant-shows :
      (view : View) (g : Grant)
      → grant_shows (add_grant m vis now person view g) r ≡ true
      → (grant_shows view r || allows vis now person r g) ≡ true
  unfolding grant_shows add_grant
  add_grant-shows view g h =
      ground
        (arith, any-values-insert (shows r) (entity_key (entity_of g)) (entity_of g) view.entities)

  add_grants-shows :
      (view : View) (gs : List Grant)
      → grant_shows (add_grants m vis now person view gs) r ≡ true
      → (grant_shows view r || any (allows vis now person r) gs) ≡ true
  unfolding add_grants
  add_grants-shows view [] h = ground arith
  add_grants-shows view (g ∷ gs) h =
      or_step _ _ _ _ (add_grants-shows (add_grant m vis now person view g) gs h)
        (add_grant-shows view g)

  -- A record is shown through grants only if some entity grant is active now, reaches the caller, and
  -- was made for this record id while it held an entity of this name (and origin, where the grant
  -- recorded one): a record id that is used again for something else shows nothing.
  pub grant_shows_sound :
      (held : List String) (grants : List Grant)
      → visible_homes m held ≡ some vis
      → grant_shows (granted_view m held grants now person) r ≡ true
      → any (allows vis now person r) grants ≡ true
  unfolding granted_view grant_shows
  grant_shows_sound held grants seen h =
      add_grants-shows no_view grants (let h' = rw seen at h in h')

same_text_comm : (a b : Option String) → same_text a b ≡ same_text b a
same_text_comm none none = refl
same_text_comm none (some b) = refl
same_text_comm (some a) none = refl
same_text_comm (some a) (some b) = ==_comm a b

-- A row that is found at a record id has that id.
row_at-rid :
    (rid : String) (rows : List Entity) (found : Option Entity)
    → ((r : Entity) → found ≡ some r → (r.rid == rid) ≡ true)
    → (r : Entity) → row_at rid rows found ≡ some r
    → (r.rid == rid) ≡ true
row_at-rid rid [] found h r e = h r e
row_at-rid rid (x ∷ rows) found h r e = elim (Bool-cases (x.rid == rid)) [
  | inl same ↦
      row_at-rid rid rows (some x)
        (λ y e'. let xy : x ≡ y = cc in subst (λ z. (z.rid == rid) ≡ true) xy same) r (rw same at e)
  | inr other ↦ row_at-rid rid rows found h r (rw other at e)
]

abbrev pub shown_by : Grant → Option Entity → Bool
shown_by g none = false
shown_by g (some r) = shows r (entity_of g)

-- An entity grant (made for a non-empty record id, with no empty origin) dangles exactly when it does
-- not show what is now found at its record id.
pub is_dangling-exact :
    (g : Grant) (rows : List Entity)
    → (g.kind == "entity") ≡ true
    → (g.target == "") ≡ false
    → g.target_origin ≢ some ""
    → is_dangling rows g ≡ not (shown_by g (row_at g.target rows none))
unfolding is_dangling
is_dangling-exact g rows k t o = elim (Option-cases (row_at g.target rows none)) [
  | inl e ↦ rw (e, k, t)
  | inr (r, e) ↦
      rw (e, k, t) (at_row r g.target_origin (row_at-rid g.target rows none (λ y e'. cc) r e) o)
]
  where
    at_row :
        (r : Entity) (origin : Option String)
        → (r.rid == g.target) ≡ true
        → origin ≢ some ""
        → (not (r.name == g.target_name) || (nonempty origin && not (same_text r.origin origin)))
          ≡ not (
              g.target == r.rid
              && (g.target_name == r.name && (same_text origin none || same_text origin r.origin)))
    at_row r none same o =
        rw (==_comm g.target r.rid, ==_comm g.target_name r.name, same) (ground arith)
    at_row r (some x) same o =
        rw
          (
            ==_comm g.target r.rid,
            ==_comm g.target_name r.name,
            same,
            ne→==-eq-false x "" (λ e. o (ap some e)),
            same_text_comm r.origin (some x),
          )
          (ground arith)
