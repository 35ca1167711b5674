-- ===== src/Needs/Groups.antt =====
-- graph-rag/src/needs.js: what a group of linked questions says of the owner's entries.
use Prim.Native.String.{String}
use gwarestrin.Base.{
  ◌≡◌, refl, sym, ap, ◌∙◌, subst, inl, inr, Bool, true, false, not, ◌&&◌, ◌||◌, Option, none, some,
  List, [], ◌∷◌, arith, ◌==◌, eq_iff, eq_refl, ==_comm, if◌then◌else◌, any, all, lookup, insert,
  lookup-insert, Bool-cases, text-cases,
}
use gwarestrin.Needs.Views.{
  Entry, Entries, OwnerView, merged, merge_view, merge_views, lacks, unshared, unshare,
  group_entries,
}

-- Where an entry is listed it is shared.
abbrev pub shares : String → Entry → Bool
shares k x = not (x.key == k) || x.shared

-- The view lists the entry, and as shared.
abbrev pub has_shared : String → OwnerView → Bool
has_shared k v = not (lacks k v) && all (shares k) v.entries

-- What is found under a key, if anything, is shared.
abbrev shared_at : Option Entry → Bool
shared_at none = true
shared_at (some e) = e.shared

merged_shared : (o : Option Entry) (e : Entry) → (merged o e).shared ≡ (shared_at o && e.shared)
merged_shared none e = refl
merged_shared (some prev) e = refl

and_assoc : (a b c : Bool) → ((a && b) && c) ≡ (a && (b && c))
and_assoc a b c = ground arith

own_key :
    (e : Entry) (es : List Entry) (m : Entries)
    → (shared_at (if e.key == e.key then some (merged (lookup e.key m) e) else lookup e.key m)
        && all (shares e.key) es)
      ≡ (shared_at (lookup e.key m) && (shares e.key e && all (shares e.key) es))
own_key e es m =
    rw (eq_refl e.key, merged_shared (lookup e.key m) e)
      (and_assoc (shared_at (lookup e.key m)) e.shared (all (shares e.key) es))

merge_view_shared :
    (k : String) (es : List Entry) (m : Entries)
    → shared_at (lookup k (merge_view es m)) ≡ (shared_at (lookup k m) && all (shares k) es)
merge_view_shared k [] m = ground arith
merge_view_shared k (e ∷ es) m =
    merge_view_shared k es (insert e.key (merged (lookup e.key m) e) m)
    ∙ ap (λ o. shared_at o && all (shares k) es)
        (lookup-insert e.key k (merged (lookup e.key m) e) m)
    ∙ elim (text-cases e.key k) [
      | inl same ↦
          subst
            (λ z.
              (shared_at (if z == e.key then some (merged (lookup e.key m) e) else lookup z m)
                && all (shares z) es)
              ≡ (shared_at (lookup z m) && (shares z e && all (shares z) es)))
            same (own_key e es m)
      | inr apart ↦ rw (==_comm k e.key ∙ apart, apart) refl
    ]

merge_views_shared :
    (k : String) (vs : List OwnerView) (m : Entries)
    → shared_at (lookup k (merge_views vs m))
      ≡ (shared_at (lookup k m) && all (λ v. all (shares k) v.entries) vs)
merge_views_shared k [] m = ground arith
merge_views_shared k (v ∷ vs) m =
    merge_views_shared k vs (merge_view v.entries m)
    ∙ ap (λ b. b && all (λ w. all (shares k) w.entries) vs) (merge_view_shared k v.entries m)
    ∙ and_assoc (shared_at (lookup k m)) (all (shares k) v.entries)
        (all (λ w. all (shares k) w.entries) vs)

lookup-unshare :
    (vs : List OwnerView) (k : String) (m : Entries) (e : Entry)
    → lookup k (unshare vs m) ≡ some e
    → e.shared ≡ true
    → (any (lacks k) vs ≡ false) × (shared_at (lookup k m) ≡ true)
lookup-unshare vs k [] e h on = absurd (cc h)
lookup-unshare vs k ((j, x) ∷ m) e h on = elim (Bool-cases (k == j)) [
  | inl at ↦
      let same : unshared vs j x ≡ e = cc (rw at at h) in
      let on' : (unshared vs j x).shared ≡ true = ap (λ y. y.shared) same ∙ on in
      let here : j ≡ k = sym ((eq_iff k j).0 at) in
      elim (Bool-cases (any (lacks j) vs)) [
        | inl lacking ↦ absurd (cc (rw lacking at on'))
        | inr met ↦ (subst (λ z. any (lacks z) vs ≡ false) here met, rw at (rw met at on'))
      ]
  | inr away ↦ rw away (lookup-unshare vs k m e (rw away at h) on)
]

all_of :
    (k : String) (vs : List OwnerView)
    → any (lacks k) vs ≡ false
    → all (λ v. all (shares k) v.entries) vs ≡ true
    → all (has_shared k) vs ≡ true
all_of k [] a b = refl
all_of k (v ∷ vs) a b = ground (arith, all_of k vs)

-- An entry that a group of questions shows as shared is listed, and listed as shared wherever it is
-- listed, in the view of every one of the questions.
pub group_entries_shared :
    (vs : List OwnerView) (k : String) (e : Entry)
    → lookup k (group_entries vs) ≡ some e
    → e.shared ≡ true
    → all (has_shared k) vs ≡ true
unfolding group_entries
group_entries_shared vs k e h on =
    let (met, shared) = lookup-unshare vs k (merge_views vs []) e h on in
    all_of k vs met (sym (merge_views_shared k vs []) ∙ shared)
