-- ===== src/Autopilot/Origins.antt =====
-- The wonder that a generated item derives from.
use mathlib.Core.List.{Memᴰ}
use mathlib.Core.List.Memᴰ
use mathlib.Core.Option.{some-injective}
use wander_mind.Prelude.{
  ℕ, ◌≡◌, ◌≢◌, refl, sym, ap, ◌∙◌, inl, inr, true, false, Option, none, some, List, [], ◌∷◌, ◌==◌,
  ==_iff, if◌then◌else◌, arith, Bool-cases,
}
use wander_mind.Models.Enums.{KnowledgeStatus}
use wander_mind.Models.Thought.{KnowledgeItem, Wonder}
use wander_mind.Quality.{is_active}
use wander_mind.Autopilot.Reconcile.{find_wonder, source_wonder}

find_wonder-found :
    (wonders : List Wonder) (id : ℕ) (w : Wonder)
    → find_wonder wonders id ≡ some w
    → (w.id ≡ id) × Memᴰ w wonders
unfolding find_wonder
find_wonder-found [] id w h = absurd (cc h)
find_wonder-found (x ∷ xs) id w h = go (find_wonder xs id) refl h (find_wonder-found xs id w)
  where
    go :
        (rest : Option Wonder)
        → find_wonder xs id ≡ rest
        → (elim rest [ some y ↦ some y | none ↦ if x.id == id then some x else none ]) ≡ some w
        → (find_wonder xs id ≡ some w → (w.id ≡ id) × Memᴰ w xs)
        → (w.id ≡ id) × Memᴰ w (x ∷ xs)
    go (some y) e h ih = let (a, b) = ih (e ∙ h) in (a, Memᴰ.tail b)
    go none e h ih = elim (Bool-cases (x.id == id)) [
      | inl t ↦
          let same = sym (some-injective x w (rw t at h)) in
          (ap (λ (z : Wonder). z.id) same ∙ (==_iff x.id id).0 t, Memᴰ.head same)
      | inr f ↦ absurd (cc (rw f at h))
    ]

find_wonder-missing :
    (wonders : List Wonder) (id : ℕ)
    → find_wonder wonders id ≡ none
    → (w : Wonder) → Memᴰ w wonders
    → w.id ≢ id
unfolding find_wonder
find_wonder-missing [] id h w m = elim m [ ]
find_wonder-missing (x ∷ xs) id h w m =
    go (find_wonder xs id) refl h (λ e later. find_wonder-missing xs id e w later)
  where
    go :
        (rest : Option Wonder)
        → find_wonder xs id ≡ rest
        → (elim rest [ some y ↦ some y | none ↦ if x.id == id then some x else none ]) ≡ none
        → (find_wonder xs id ≡ none → Memᴰ w xs → w.id ≢ id)
        → w.id ≢ id
    go (some y) e h ih = absurd (cc h)
    go none e h ih = elim (Bool-cases (x.id == id)) [
      | inl t ↦ absurd (cc (rw t at h))
      | inr f ↦ elim (Memᴰ.cases_cons m) [
        | inl same ↦ λ k. ground (arith, f, ap (λ (z : Wonder). z.id) same, k)
        | inr later ↦ ih e later
      ]
    ]

-- A stored wonder that an item derives from, and that there is none.
pub IsSource : List Wonder → KnowledgeItem → Wonder → Type 0
IsSource wonders item w = (item.source_wonder_id ≡ some w.id) × Memᴰ w wonders

pub HasNoSource : List Wonder → KnowledgeItem → Type 0
HasNoSource wonders item = (w : Wonder) → Memᴰ w wonders → item.source_wonder_id ≢ some w.id

source_found :
    (wonders : List Wonder) (id : Option ℕ) (w : Wonder)
    → source_wonder wonders id ≡ some w
    → (id ≡ some w.id) × Memᴰ w wonders
unfolding source_wonder
source_found wonders none w h = absurd (cc h)
source_found wonders (some id) w h =
    let (a, b) = find_wonder-found wonders id w h in (ap some (sym a), b)

source_missing :
    (wonders : List Wonder) (id : Option ℕ)
    → source_wonder wonders id ≡ none
    → (w : Wonder) → Memᴰ w wonders
    → id ≢ some w.id
unfolding source_wonder
source_missing wonders none h w m = λ e. cc
source_missing wonders (some id) h w m =
    λ e. find_wonder-missing wonders id h w m (sym (some-injective id w.id e))

pub source_wonder-IsSource :
    (wonders : List Wonder) (item : KnowledgeItem) (w : Wonder)
    → source_wonder wonders item.source_wonder_id ≡ some w
    → IsSource wonders item w
unfolding IsSource
source_wonder-IsSource wonders item w h = source_found wonders item.source_wonder_id w h

pub source_wonder-HasNoSource :
    (wonders : List Wonder) (item : KnowledgeItem)
    → source_wonder wonders item.source_wonder_id ≡ none
    → HasNoSource wonders item
unfolding HasNoSource
source_wonder-HasNoSource wonders item h = source_missing wonders item.source_wonder_id h

pub is_active_iff : (s : KnowledgeStatus) → is_active s ≡ true → s ≡ KnowledgeStatus.active
unfolding is_active
is_active_iff KnowledgeStatus.active h = refl
is_active_iff KnowledgeStatus.archived h = cc
is_active_iff KnowledgeStatus.rejected h = cc
is_active_iff KnowledgeStatus.unresolved h = cc

pub inactive : (s : KnowledgeStatus) → is_active s ≡ false → s ≢ KnowledgeStatus.active
unfolding is_active
inactive s h e = absurd (cc (sym h ∙ ap is_active e))
