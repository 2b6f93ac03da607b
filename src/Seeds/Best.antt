-- ===== src/Seeds/Best.antt =====
-- The selected seed is an eligible one with the greatest key.
use mathlib.Core.List.{Memᴰ}
use mathlib.Core.List.Memᴰ
use wander_mind.Prelude.{
  true, false, Option, none, some, List, [], ◌∷◌, ◌≡◌, refl, sym, ap, ◌∙◌, Bool-cases, inl, inr,
  arith, ◌⊎◌, ℕ, ◌+◌, ◌<◌, ◌≤◌,
}
use wander_mind.Models.Enums.{SeedSource, SeedStatus}
use wander_mind.Models.Thought.{Seed}
use wander_mind.Seeds.{
  source_priority, is_eligible, key_below, eligible, greatest, greatest_of, select_seed,
}

-- No key is below itself, and what is not below a lesser key is not below a greater one.
key_below_irrefl : (a : Seed) → key_below a a ≡ false
unfolding key_below
key_below_irrefl a = ground arith

not_below_trans :
    (a b c : Seed) → key_below a b ≡ false → key_below b c ≡ false → key_below a c ≡ false
unfolding key_below
not_below_trans a b c h k = ground (arith, h, k)

below_not_below :
    (a b c : Seed) → key_below a b ≡ true → key_below a c ≡ false → key_below b c ≡ false
unfolding key_below
below_not_below a b c h k = ground (arith, h, k)

record IsGreatest (best : Seed) (seeds : List Seed) (m : Seed) : Type 0 where
  pub among : (m ≡ best) ⊎ Memᴰ m seeds
  pub above_best : key_below m best ≡ false
  pub above : (x : Seed) → Memᴰ x seeds → key_below m x ≡ false

greatest-IsGreatest :
    (best : Seed) (seeds : List Seed) → IsGreatest best seeds (greatest best seeds)
unfolding greatest
greatest-IsGreatest best [] = record {
  among = inl refl;
  above_best = key_below_irrefl best;
  above = λ x m. elim m [ ];
}
greatest-IsGreatest best (seed ∷ seeds) = elim (Bool-cases (key_below best seed)) [
  | inl below ↦
      let g = greatest-IsGreatest seed seeds in
      rw below (record {
        among = inr (elim g.among [ inl same ↦ Memᴰ.head same | inr later ↦ Memᴰ.tail later ]);
        above_best =
            not_below_trans (greatest seed seeds) seed best g.above_best
              (below_not_below best seed best below (key_below_irrefl best));
        above = λ x m. elim (Memᴰ.cases_cons m) [
          | inl same ↦ ap (key_below (greatest seed seeds)) same ∙ g.above_best
          | inr later ↦ g.above x later
        ];
      })
  | inr not_below ↦
      let g = greatest-IsGreatest best seeds in
      rw not_below (record {
        among = elim g.among [ inl same ↦ inl same | inr later ↦ inr (Memᴰ.tail later) ];
        above_best = g.above_best;
        above = λ x m. elim (Memᴰ.cases_cons m) [
          | inl same ↦
              ap (key_below (greatest best seeds)) same
              ∙ not_below_trans (greatest best seeds) best seed g.above_best not_below
          | inr later ↦ g.above x later
        ];
      })
]

eligible-member :
    (x : Seed) (seeds : List Seed)
    → Memᴰ x (eligible seeds)
    → Memᴰ x seeds × (is_eligible x.status ≡ true)
unfolding eligible
eligible-member x [] m = elim m [ ]
eligible-member x (seed ∷ seeds) m = elim (Bool-cases (is_eligible seed.status)) [
  | inl e ↦ elim (Memᴰ.cases_cons (rw e at m)) [
    | inl same ↦ (Memᴰ.head same, ap (λ (s : Seed). is_eligible s.status) same ∙ e)
    | inr later ↦ let (a, b) = eligible-member x seeds later in (Memᴰ.tail a, b)
  ]
  | inr e ↦ let (a, b) = eligible-member x seeds (rw e at m) in (Memᴰ.tail a, b)
]

member-eligible :
    (x : Seed) (seeds : List Seed)
    → Memᴰ x seeds
    → is_eligible x.status ≡ true
    → Memᴰ x (eligible seeds)
unfolding eligible
member-eligible x [] m h = elim m [ ]
member-eligible x (seed ∷ seeds) m h = elim (Memᴰ.cases_cons m) [
  | inl same ↦ rw (sym (ap (λ (s : Seed). is_eligible s.status) same) ∙ h) (Memᴰ.head same)
  | inr later ↦ elim (Bool-cases (is_eligible seed.status)) [
    | inl e ↦ rw e (Memᴰ.tail (member-eligible x seeds later h))
    | inr e ↦ rw e (member-eligible x seeds later h)
  ]
]

-- The sources from the first to be taken up to the last.
abbrev pub place : SeedSource → ℕ
place SeedSource.explicit = 1
place SeedSource.recent = 2
place SeedSource.unresolved = 3
place SeedSource.weak_idea = 4
place SeedSource.random_revival = 5

-- A seed that has not been used or archived.
abbrev pub IsOpen : Seed → Type 0
IsOpen x = (x.status ≡ SeedStatus.pending) ⊎ (x.status ≡ SeedStatus.active)

-- `m` has the earlier source; of one source, the higher priority; of one priority, it is not the older.
abbrev pub IsBefore : Seed → Seed → Type 0
IsBefore m x =
    (place m.source < place x.source)
    ⊎ ((place m.source ≡ place x.source)
        × ((x.priority < m.priority) ⊎ ((x.priority ≡ m.priority) × (x.created_at ≤ m.created_at))))

place-source_priority : (a : SeedSource) → place a + source_priority a ≡ 6
unfolding source_priority
place-source_priority SeedSource.explicit = refl
place-source_priority SeedSource.recent = refl
place-source_priority SeedSource.unresolved = refl
place-source_priority SeedSource.weak_idea = refl
place-source_priority SeedSource.random_revival = refl

not_below-IsBefore : (m x : Seed) → key_below m x ≡ false → IsBefore m x
unfolding key_below
not_below-IsBefore m x h =
    ground (arith, h, place-source_priority m.source, place-source_priority x.source)

eligible-IsOpen :
    (s : SeedStatus) → is_eligible s ≡ true → (s ≡ SeedStatus.pending) ⊎ (s ≡ SeedStatus.active)
unfolding is_eligible
eligible-IsOpen SeedStatus.pending h = inl refl
eligible-IsOpen SeedStatus.active h = inr refl
eligible-IsOpen SeedStatus.used h = cc
eligible-IsOpen SeedStatus.archived h = cc

open-eligible : (x : Seed) → IsOpen x → is_eligible x.status ≡ true
unfolding is_eligible
open-eligible x (inl e) = rw e refl
open-eligible x (inr e) = rw e refl

-- A selected seed is an open one of the list that comes before every open one; and none is selected
-- only if none is open.
pub IsSelected : List Seed → Option Seed → Type 0
IsSelected seeds none = (x : Seed) → Memᴰ x seeds → ¬ IsOpen x
IsSelected seeds (some m) =
    Memᴰ m seeds × IsOpen m × ((x : Seed) → Memᴰ x seeds → IsOpen x → IsBefore m x)

of_eligible :
    (seeds kept : List Seed)
    → ((x : Seed) → Memᴰ x kept → Memᴰ x seeds × (is_eligible x.status ≡ true))
    → ((x : Seed) → Memᴰ x seeds → is_eligible x.status ≡ true → Memᴰ x kept)
    → IsSelected seeds (greatest_of kept)
unfolding IsSelected greatest_of
of_eligible seeds [] from to = λ x m open_. elim (to x m (open-eligible x open_)) [ ]
of_eligible seeds (seed ∷ kept) from to =
    let g = greatest-IsGreatest seed kept in
    let best = greatest seed kept in
    let (a, b) =
      from best (elim g.among [ inl same ↦ Memᴰ.head same | inr later ↦ Memᴰ.tail later ]) in
    (
      a,
      eligible-IsOpen best.status b,
      λ x m open_.
          not_below-IsBefore best x (elim (Memᴰ.cases_cons (to x m (open-eligible x open_))) [
            | inl same ↦ ap (key_below best) same ∙ g.above_best
            | inr later ↦ g.above x later
          ]),
    )

-- From any list, the selection gives a pending or active seed of it that comes before every other
-- pending or active one: first by its source, in the order explicit, recent, unresolved, weak idea and
-- random revival, then by the higher priority, then by the later creation. It gives none only if no
-- seed of the list is pending or active.
pub select_seed-IsSelected : (seeds : List Seed) → IsSelected seeds (select_seed seeds)
unfolding select_seed
select_seed-IsSelected seeds =
    of_eligible seeds (eligible seeds) (λ x m. eligible-member x seeds m)
      (λ x m e. member-eligible x seeds m e)
