-- ===== src/Needs/Views.antt =====
-- graph-rag/src/needs.js: what the asker of a question and its owners see (`openUntil`, `askerView`,
-- `ownerView`, `groupView`).
--
-- A time is an instant in milliseconds, read from its text already; a score is its count of millionths.
use Prim.Native.Nat.{max}
use Prim.Native.String.{String}
use gwarestrin.Base.{
  ℕ, ◌+◌, ◌*◌, Bool, true, false, not, ◌&&◌, ◌||◌, Option, none, some, List, [], ◌∷◌, ◌==◌, map,
  if◌then◌else◌, ltb, leb, filter, any, lookup, insert,
}
use gwarestrin.Dates.{day}
use gwarestrin.Reads.{distinct}

-- A question stays open for the days of the policy, or until its data ends, if that is sooner.
unfoldable pub open_until : ℕ → ℕ → Option ℕ → ℕ
open_until now days none = now + days * day
open_until now days (some end) = if ltb end (now + days * day) then end else now + days * day

pub record Need : Type 0 where
  pub qid : String
  pub question : String
  pub status : String
  pub asker : String
  pub asked : Option ℕ
  pub until : Option ℕ
  pub joined_into : Option String

-- A meeting of the question with an entry.
pub record Edge : Type 0 where
  pub state : String
  pub rid : String
  pub name : String
  pub home : String
  pub score : Option ℕ

pub record AskerView : Type 0 where
  pub id : String
  pub question : String
  pub status : String
  pub still_open : Bool
  pub shared : List String
  pub expires_at : Option ℕ
  pub joined_into : Option String

abbrev pub has_ended : ℕ → Option ℕ → Bool
has_ended now none = false
has_ended now (some t) = leb t now

abbrev pub is_shown : Edge → Bool
is_shown e = e.state == "shared" || e.state == "visible"

abbrev is_own_word : String → Bool
is_own_word s = s == "proposed" || (s == "joined" || s == "withdrawn")

abbrev has_some : List String → Bool
has_some [] = false
has_some (x ∷ xs) = true

abbrev pub asker_status : Need → Bool → List String → String
asker_status need ended shared =
    if is_own_word need.status
    then need.status
    else if ended
    then "expired"
    else if has_some shared
    then "shared"
    else "asked"

unfoldable pub asker_view : Need → List Edge → ℕ → AskerView
asker_view need edges now =
    let ended = has_ended now need.until in
    let shared = distinct [] (map (λ e. e.name) (filter is_shown edges)) in
    record {
      id = need.qid;
      question = need.question;
      status = asker_status need ended shared;
      still_open = need.status == "open" && not ended;
      shared = shared;
      expires_at = need.until;
      joined_into = need.joined_into;
    }

pub record Entry : Type 0 where
  pub key : String
  pub name : String
  pub home : String
  pub shared : Bool
  pub score : ℕ

pub record OwnerView : Type 0 where
  pub id : String
  pub question : String
  pub asked : ℕ
  pub asker : String
  pub status : String
  pub entries : List Entry
  pub posted : Bool
  pub expires_at : Option ℕ

abbrev or_zero : Option ℕ → ℕ
or_zero none = 0
or_zero (some n) = n

abbrev or_one : Option ℕ → ℕ
or_one none = 1
or_one (some n) = n

abbrev pub entry_of : Edge → Entry
entry_of e = record {
  key = e.rid;
  name = e.name;
  home = e.home;
  shared = e.state == "shared";
  score = or_zero e.score;
}

abbrev no_edges : List Edge → Bool
no_edges [] = true
no_edges (e ∷ es) = false

abbrev pub owner_status : Bool → List Edge → String
owner_status ended mine =
    if ended
    then "expired"
    else if no_edges mine || any (λ e. e.state == "open") mine
    then "open"
    else if any (λ e. e.state == "shared") mine
    then "shared"
    else "dismissed"

unfoldable pub owner_view : Need → List Edge → ℕ → OwnerView
owner_view need mine now = record {
  id = need.qid;
  question = need.question;
  asked = or_one need.asked;
  asker = need.asker;
  status = owner_status (has_ended now need.until) mine;
  entries = map entry_of mine;
  posted = no_edges mine;
  expires_at = need.until;
}

abbrev pub Entries : Type 0
Entries = List (String × Entry)

abbrev pub merged : Option Entry → Entry → Entry
merged none e = e
merged (some prev) e = record prev {
  shared = prev.shared && e.shared;
  score = max prev.score e.score;
}

abbrev pub merge_view : List Entry → Entries → Entries
merge_view [] m = m
merge_view (e ∷ es) m = merge_view es (insert e.key (merged (lookup e.key m) e) m)

abbrev pub merge_views : List OwnerView → Entries → Entries
merge_views [] m = m
merge_views (v ∷ vs) m = merge_views vs (merge_view v.entries m)

abbrev pub lacks : String → OwnerView → Bool
lacks k v = not (any (λ x. x.key == k) v.entries)

abbrev pub unshared : List OwnerView → String → Entry → Entry
unshared vs k e = if any (lacks k) vs then record e { shared = false } else e

-- An asker whose question doesn't meet an entry hasn't had it shared.
abbrev pub unshare : List OwnerView → Entries → Entries
unshare vs [] = []
unshare vs ((k, e) ∷ m) = (k, unshared vs k e) ∷ unshare vs m

-- The owner's entries over a group of linked questions.
unfoldable pub group_entries : List OwnerView → Entries
group_entries vs = unshare vs (merge_views vs [])

pub record GroupView : Type 0 where
  pub view : OwnerView
  pub askers : List String
  pub questions : List String
  pub ids : List String

abbrev sum_asked : List OwnerView → ℕ
sum_asked [] = 0
sum_asked (v ∷ vs) = v.asked + sum_asked vs

-- The last of the ends.
abbrev last_end : List OwnerView → Option ℕ
last_end [] = none
last_end (v ∷ vs) = elim v.expires_at [
  | none ↦ last_end vs
  | some t ↦ some (elim (last_end vs) [ none ↦ t | some u ↦ max t u ])
]

abbrev no_entries : List Entry → Bool
no_entries [] = true
no_entries (e ∷ es) = false

abbrev group_status : OwnerView → List OwnerView → String
group_status v vs =
    if any (λ w. w.status == "open") vs
    then "open"
    else if any (λ w. w.status == "shared") vs
    then "shared"
    else v.status

abbrev group_of : OwnerView → List OwnerView → List Entry → OwnerView
group_of v vs list = record v {
  asked = sum_asked vs;
  status = group_status v vs;
  entries = list;
  posted = no_entries list;
  expires_at = last_end vs;
}

-- One item for a group: its first view, and the others.
unfoldable pub group_view : OwnerView → List OwnerView → GroupView
unfolding group_entries
group_view v [] = record {
  view = v;
  askers = v.asker ∷ [];
  questions = v.question ∷ [];
  ids = v.id ∷ [];
}
group_view v (w ∷ vs) = record {
  view = group_of v (v ∷ w ∷ vs) (map (λ e. e.1) (group_entries (v ∷ w ∷ vs)));
  askers = distinct [] (map (λ x. x.asker) (v ∷ w ∷ vs));
  questions = map (λ x. x.question) (v ∷ w ∷ vs);
  ids = map (λ x. x.id) (v ∷ w ∷ vs);
}
