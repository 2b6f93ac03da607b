-- ===== src/Deletion/Loops.antt =====
-- What the loop of `delete_session` over the wonders leaves in the stores.
use wander_mind.Prelude.{
  ℕ, Bool, true, false, Option, none, some, List, [], ◌∷◌, ◌≡◌, refl, sym, ap, ◌∙◌, ◌==◌, is_some,
  if◌then◌else◌, Bool-cases, inl, inr, contains, ==_iff, ◌⊎◌,
}
use wander_mind.Exec.{Result, ok, pure, gets, ◌>>=◌}
use wander_mind.Models.Thought.{Wonder}
use wander_mind.Repositories.Store.{StoreError, get, select}
use wander_mind.Repositories.Each.{changed}
use wander_mind.Repositories.Each.Laws.{keys}
use wander_mind.Repositories.Bundle.{
  RepositoryBundle, KnowledgeItem_entity, KnowledgeEdge_entity, Seed_entity, Wonder_entity,
  Candidate_entity, WanderSession_entity, Feedback_entity, RuntimeSession_entity,
}
use wander_mind.Deletion.{Deleter, delete_wonder, delete_wonders}
use wander_mind.Deletion.Pages.{points_at}
use wander_mind.Deletion.Wonders.{WondersKeyed, delete_wonder-Gone}

-- The session of a stored wonder; `none` where there is no wonder.
abbrev pub owner : Option Wonder → Option ℕ
owner none = none
owner (some w) = some w.session_id

-- What deleting wonders by these ids leaves, whether or not they were there.
pub record Pruned (ids : List ℕ) (s s' : RepositoryBundle) : Type 0 where
  pub wonders :
      (k : ℕ)
      → owner (get k s'.wonders) ≡ (if contains ids k then none else owner (get k s.wonders))
  pub others : s' ≡ record s { wonders = s'.wonders; feedback = s'.feedback }
  pub keyed : WondersKeyed s'

owner-changed :
    (p : Wonder → Bool) (f : Wonder → Wonder)
    → ((x : Wonder) → (f x).session_id ≡ x.session_id)
    → (o : Option Wonder) → owner (changed p f o) ≡ owner o
owner-changed p f same none = refl
owner-changed p f same (some x) = elim (Bool-cases (p x)) [
  | inl e ↦ rw (e, same x) refl
  | inr e ↦ rw e refl
]

record Deletes (m : Deleter Bool) (ids : List ℕ) (s : RepositoryBundle) : Type 0 where
  pub found : Bool
  pub returns : (m s).0 ≡ ok found
  pub pruned : Pruned ids s (m s).1

Option-cases : (o : Option Wonder) → (is_some o ≡ true) ⊎ (o ≡ none)
Option-cases none = inr refl
Option-cases (some a) = inl refl

delete_wonder-absent :
    (wonder_id : ℕ) (s : RepositoryBundle)
    → get wonder_id s.wonders ≡ none
    → delete_wonder wonder_id s ≡ (ok false, s)
unfolding delete_wonder ◌>>=◌ gets pure
delete_wonder-absent wonder_id s h = rw h refl

unlinked_owner : (x : Wonder) → (record x { parent_wonder_id = none }).session_id ≡ x.session_id
unlinked_owner x = refl

delete_wonder-Deletes :
    (wonder_id : ℕ) (s : RepositoryBundle)
    → WondersKeyed s
    → Deletes (delete_wonder wonder_id) (wonder_id ∷ []) s
unfolding contains
delete_wonder-Deletes wonder_id s h = elim (Option-cases (get wonder_id s.wonders)) [
  | inl there ↦
      let (returns, gone, keyed) = delete_wonder-Gone wonder_id s h there in
      record {
        found = true;
        returns = returns;
        pruned = record {
          wonders = λ k. ap owner (gone.wonders k) ∙ gone_owner k;
          others = gone.others;
          keyed = keyed;
        };
      }
  | inr missing ↦ record {
    found = false;
    returns = ap (λ r. r.0) (delete_wonder-absent wonder_id s missing);
    pruned = ap_pruned (delete_wonder-absent wonder_id s missing) (absent missing);
  }
]
  where
    gone_owner :
        (k : ℕ)
        → owner (
            if wonder_id == k
            then none
            else changed
                (λ (x : Wonder). points_at wonder_id x.parent_wonder_id)
                (λ (x : Wonder). record x { parent_wonder_id = none })
                (get k s.wonders))
          ≡ (if contains (wonder_id ∷ []) k then none else owner (get k s.wonders))
    gone_owner k = elim (Bool-cases (wonder_id == k)) [
      | inl e ↦ rw e refl
      | inr e ↦ rw e (
          owner-changed _ (λ (x : Wonder). record x { parent_wonder_id = none }) unlinked_owner
            (get k s.wonders))
    ]

    absent : get wonder_id s.wonders ≡ none → Pruned (wonder_id ∷ []) s s
    absent missing = record {
      wonders = λ k. elim (Bool-cases (wonder_id == k)) [
        | inl e ↦ rw e (
            ap (λ (j : ℕ). owner (get j s.wonders)) (sym ((==_iff wonder_id k).0 e))
            ∙ ap owner missing)
        | inr e ↦ rw e refl
      ];
      others = refl;
      keyed = h;
    }

    ap_pruned :
        {r : Result StoreError Bool × RepositoryBundle} {b : Bool}
        → r ≡ (ok b, s)
        → Pruned (wonder_id ∷ []) s s
        → Pruned (wonder_id ∷ []) s r.1
    ap_pruned e pr = rw (ap (λ t. t.1) e) pr

Pruned-then :
    (a : ℕ) (ids : List ℕ) (s t u : RepositoryBundle)
    → Pruned (a ∷ []) s t
    → Pruned ids t u
    → Pruned (a ∷ ids) s u
unfolding contains
Pruned-then a ids s t u p q = record {
  wonders = λ k.
      q.wonders k
      ∙ ap (λ (o : Option ℕ). if contains ids k then none else o) (p.wonders k)
      ∙ both k;
  others =
      q.others
      ∙ ap (λ (x : RepositoryBundle). record x { wonders = u.wonders; feedback = u.feedback })
          p.others;
  keyed = q.keyed;
}
  where
    both :
        (k : ℕ)
        → (if contains ids k
            then none
            else (if contains (a ∷ []) k then none else owner (get k s.wonders)))
          ≡ (if contains (a ∷ ids) k then none else owner (get k s.wonders))
    both k = elim (Bool-cases (a == k)) [
      | inl e ↦ elim (Bool-cases (contains ids k)) [
        | inl c ↦ rw (c, e) refl
        | inr c ↦ rw (c, e) refl
      ]
      | inr e ↦ rw e refl
    ]

abbrev pub in_session : ℕ → Wonder → Bool
in_session session_id w = w.session_id == session_id

unfoldable pub Prunes : ℕ → List Wonder → RepositoryBundle → Type 0
Prunes session_id wonders s =
    ((delete_wonders session_id wonders s).0 ≡ ok tt)
    × Pruned (keys (select (in_session session_id) wonders)) s
        (delete_wonders session_id wonders s).1

pub delete_wonders-Prunes :
    (session_id : ℕ) (wonders : List Wonder) (s : RepositoryBundle)
    → WondersKeyed s
    → Prunes session_id wonders s
unfolding Prunes delete_wonders pure select contains ◌>>=◌
delete_wonders-Prunes session_id [] s h =
    (refl, record { wonders = λ k. refl; others = refl; keyed = h })
delete_wonders-Prunes session_id (w ∷ ws) s h = elim (Bool-cases (w.session_id == session_id)) [
  | inl e ↦
      let d = delete_wonder-Deletes w.id s h in
      let t = (delete_wonder w.id s).1 in
      let (returns, rest) = delete_wonders-Prunes session_id ws t d.pruned.keyed in
      rw (e, first d)
        (returns, Pruned-then w.id (keys (select (in_session session_id) ws)) s t _ d.pruned rest)
  | inr e ↦ rw e (delete_wonders-Prunes session_id ws s h)
]
  where
    first :
        (d : Deletes (delete_wonder w.id) (w.id ∷ []) s)
        → delete_wonder w.id s ≡ (ok d.found, (delete_wonder w.id s).1)
    first d i = (d.returns i, (delete_wonder w.id s).1)
