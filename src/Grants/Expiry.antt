-- ===== src/Grants/Expiry.antt =====
-- graph-rag/src/grants.js: `resolveExpiry` and `isActive`, how long a share lasts.
use gwarestrin.Base.{
  ℕ, ◌+◌, ◌*◌, ◌≤◌, ◌<◌, String, ◌≡◌, subst, ◌⊎◌, inl, inr, true, Option, none, some, arith, ◌==◌,
  Bool-cases, ok,
}
use gwarestrin.Dates.{day}
use gwarestrin.Grants.{
  ExpiryRules, unbounded, check_until, default_until, read_until, resolve_expiry,
}

module _ (date_parse : String → Option ℕ) (r : ExpiryRules) (now : ℕ) where
  -- What a resolved end promises: none only where standing shares are allowed; else it lies ahead,
  -- and within the longest share unless standing shares are allowed.
  abbrev pub InPolicy : Option ℕ → Type 0
  InPolicy none = unbounded r ≡ true
  InPolicy (some t) = (now < t) × ((unbounded r ≡ true) ⊎ (t ≤ now + r.max_days * day))

  default-InPolicy :
      0 < r.default_days → r.default_days ≤ r.max_days → InPolicy (default_until r now)
  default-InPolicy pos le = elim (Bool-cases (unbounded r)) [
    | inl e ↦ rw e e
    | inr e ↦ rw e (omega arith, inr (omega arith))
  ]

  check-InPolicy :
      (t : Option ℕ) (end : Option ℕ)
      → check_until (unbounded r) r.max_days now t ≡ ok end
      → InPolicy end
  check-InPolicy none end h = cc
  check-InPolicy (some t) none h = ground arith
  check-InPolicy (some t) (some end) h = ground arith

  -- Under a policy whose default share is no longer than its longest one, every end that is accepted
  -- lies in the future and within the longest share; a standing share, or a longer one, is only given
  -- to a person (not an agent) with root rights where the policy allows standing shares.
  pub resolve_expiry-InPolicy :
      (until : Option String) (end : Option ℕ)
      → 0 < r.default_days
      → r.default_days ≤ r.max_days
      → resolve_expiry date_parse until r now ≡ ok end
      → InPolicy end
  unfolding resolve_expiry
  resolve_expiry-InPolicy none end pos le h =
      let e : default_until r now ≡ end = cc in subst InPolicy e (default-InPolicy pos le)
  resolve_expiry-InPolicy (some until) end pos le h = elim (Bool-cases (until == "")) [
    | inl blank ↦
        let e : default_until r now ≡ end = (let h' = rw blank at h in cc) in
        subst InPolicy e (default-InPolicy pos le)
    | inr given ↦ check-InPolicy (read_until date_parse until now) end (rw given at h)
  ]
