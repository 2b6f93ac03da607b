-- ===== src/Autopilot/Standing.antt =====
-- What `_reconcile_generated_knowledge` writes and counts.
use wander_mind.Prelude.{
  ℕ, ◌+◌, ◌≡◌, ◌≢◌, refl, ap, ◌∙◌, inl, inr, Bool, true, false, Option, none, some, List, [], ◌∷◌,
  Bool-cases,
}
use wander_mind.Exec.{ok, ◌>>=◌, pure, bind_ok}
use wander_mind.Models.Enums.{KnowledgeStatus, WonderStatus}
use wander_mind.Models.Quality.{EpistemicStatus, QualityGateResult, source_wonder_missing}
use wander_mind.Models.Thought.{KnowledgeItem, Wonder}
use wander_mind.Quality.{is_active}
use wander_mind.Autopilot.State.{
  Services, AutopilotState, AutopilotWrite, knowledge_row, wonder_row, write,
}
use wander_mind.Autopilot.Promotion.{gate}
use wander_mind.Autopilot.Origins.{
  IsSource, HasNoSource, source_wonder-IsSource, source_wonder-HasNoSource, is_active_iff, inactive,
}
use wander_mind.Autopilot.Reconcile.{
  source_wonder, reconciled_item, reconciled_wonder, wonder_quality, store_wonder_of, counted,
  reconcile_item, reconcile_each,
}

module _ (v : Services) (knowledge : List KnowledgeItem) (wonders : List Wonder) where
  abbrev pub checked : Wonder → Wonder
  checked w = record w { autopilot_quality_gate = some (gate v knowledge w) }

  abbrev pub retracted : Wonder → Wonder
  retracted w = record w {
    autopilot_quality_gate = some (gate v knowledge w);
    status = WonderStatus.incubating;
    autopilot_promotion_retracted = true;
  }

  abbrev pub confirmed : Wonder → KnowledgeItem → KnowledgeItem
  confirmed w item = record item {
    quality_gate = some (gate v knowledge w);
    epistemic_status = EpistemicStatus.reviewed_hypothesis;
  }

  abbrev pub rejected_by : QualityGateResult → KnowledgeItem → KnowledgeItem
  rejected_by quality item = record item {
    quality_gate = some quality;
    status = KnowledgeStatus.rejected;
    epistemic_status = EpistemicStatus.quality_rejected;
  }

  -- The writes for a list of items, the newest first, on top of earlier ones, with how many of the items
  -- are counted as accepted and how many as rejected.
  pub data Reconciles
      : List KnowledgeItem → List AutopilotWrite → ℕ → ℕ → List AutopilotWrite → Type 0 where
    done : (rows : List AutopilotWrite) → Reconciles [] rows 0 0 rows
    accepts :
        (item : KnowledgeItem) (w : Wonder) {items : List KnowledgeItem}
        {rows rows' : List AutopilotWrite} {n m : ℕ}
        → IsSource wonders item w
        → (gate v knowledge w).accepted ≡ true
        → item.status ≡ KnowledgeStatus.active
        → Reconciles items
            (wonder_row (checked w) ∷ knowledge_row (confirmed w item) ∷ rows)
            n
            m
            rows'
        → Reconciles (item ∷ items) rows (n + 1) m rows'
    keeps_inactive :
        (item : KnowledgeItem) (w : Wonder) {items : List KnowledgeItem}
        {rows rows' : List AutopilotWrite} {n m : ℕ}
        → IsSource wonders item w
        → (gate v knowledge w).accepted ≡ true
        → item.status ≢ KnowledgeStatus.active
        → Reconciles items
            (wonder_row (checked w) ∷ knowledge_row (rejected_by (gate v knowledge w) item) ∷ rows)
            n
            m
            rows'
        → Reconciles (item ∷ items) rows n (m + 1) rows'
    retracts :
        (item : KnowledgeItem) (w : Wonder) {items : List KnowledgeItem}
        {rows rows' : List AutopilotWrite} {n m : ℕ}
        → IsSource wonders item w
        → (gate v knowledge w).accepted ≡ false
        → Reconciles items
            (wonder_row (retracted w)
              ∷ knowledge_row (rejected_by (gate v knowledge w) item)
              ∷ rows)
            n
            m
            rows'
        → Reconciles (item ∷ items) rows n (m + 1) rows'
    orphans :
        (item : KnowledgeItem) {items : List KnowledgeItem} {rows rows' : List AutopilotWrite}
        {n m : ℕ}
        → HasNoSource wonders item
        → Reconciles items
            (knowledge_row (
                rejected_by
                  (record { accepted = false; reasons = source_wonder_missing ∷ [] })
                  item)
              ∷ rows)
            n
            m
            rows'
        → Reconciles (item ∷ items) rows n (m + 1) rows'

  record Done (items : List KnowledgeItem) (s : AutopilotState) : Type 0 where
    pub accepted : ℕ
    pub rejected : ℕ
    pub returned : (reconcile_each v knowledge wonders items s).0 ≡ ok (accepted, rejected)
    pub rows :
        Reconciles items s.writes accepted rejected
          (reconcile_each v knowledge wonders items s).1.writes

  -- The loop goes on with what the first item leaves.
  goes_on :
      (item : KnowledgeItem) (items : List KnowledgeItem) (found : Option Wonder)
      (s t : AutopilotState) (accepted : Bool)
      → source_wonder wonders item.source_wonder_id ≡ found
      → reconcile_item v knowledge found item s ≡ (ok accepted, t)
      → (d : Done items t)
      → reconcile_each v knowledge wonders (item ∷ items) s ≡ (
        ok (counted accepted (d.accepted, d.rejected)),
        (reconcile_each v knowledge wonders items t).1,
      )
  unfolding reconcile_each pure
  goes_on item items found s t accepted e run d =
      bind_ok (reconcile_item v knowledge (source_wonder wonders item.source_wonder_id) item) _ s t
        accepted (ap (λ o. reconcile_item v knowledge o item s) e ∙ run)
      ∙ bind_ok (reconcile_each v knowledge wonders items)
          (λ counts. pure (counted accepted counts)) t
          (reconcile_each v knowledge wonders items t).1 (d.accepted, d.rejected)
          (λ i. (d.returned i, (reconcile_each v knowledge wonders items t).1))

  -- What one item leaves, and how it is counted.
  record First (item : KnowledgeItem) (found : Option Wonder) (s : AutopilotState) : Type 0 where
    pub accepted : Bool
    pub after : AutopilotState
    pub run : reconcile_item v knowledge found item s ≡ (ok accepted, after)
    pub extend :
        {items : List KnowledgeItem} {rows : List AutopilotWrite} {n m : ℕ}
        → Reconciles items after.writes n m rows
        → Reconciles
            (item ∷ items)
            s.writes
            (counted accepted (n, m)).0
            (counted accepted (n, m)).1
            rows

  first :
      (item : KnowledgeItem) (found : Option Wonder) (s : AutopilotState)
      → source_wonder wonders item.source_wonder_id ≡ found
      → First item found s
  unfolding reconcile_item wonder_quality reconciled_item reconciled_wonder store_wonder_of write
      pure ◌>>=◌ counted
  first item none s e = record {
    accepted = false;
    after = record s {
      writes =
          knowledge_row
            (rejected_by (record { accepted = false; reasons = source_wonder_missing ∷ [] }) item)
          ∷ s.writes;
    };
    run = refl;
    extend = Reconciles.orphans item (source_wonder-HasNoSource wonders item e);
  }
  first item (some w) s e =
      let source = source_wonder-IsSource wonders item w e in
      elim (Bool-cases (gate v knowledge w).accepted) [
        | inl passed ↦ elim (Bool-cases (is_active item.status)) [
          | inl active ↦ record {
            accepted = true;
            after = record s {
              writes = wonder_row (checked w) ∷ knowledge_row (confirmed w item) ∷ s.writes;
            };
            run = rw (passed, active) refl;
            extend = Reconciles.accepts item w source passed (is_active_iff item.status active);
          }
          | inr not_active ↦ record {
            accepted = false;
            after = record s {
              writes =
                  wonder_row (checked w)
                  ∷ knowledge_row (rejected_by (gate v knowledge w) item)
                  ∷ s.writes;
            };
            run = rw (passed, not_active) refl;
            extend =
                Reconciles.keeps_inactive item w source passed (inactive item.status not_active);
          }
        ]
        | inr refused ↦ record {
          accepted = false;
          after = record s {
            writes =
                wonder_row (retracted w)
                ∷ knowledge_row (rejected_by (gate v knowledge w) item)
                ∷ s.writes;
          };
          run = rw refused refl;
          extend = Reconciles.retracts item w source refused;
        }
      ]

  reconciled : (items : List KnowledgeItem) (s : AutopilotState) → Done items s
  unfolding reconcile_each pure
  reconciled [] s = record {
    accepted = 0;
    rejected = 0;
    returned = refl;
    rows = Reconciles.done s.writes;
  }
  reconciled (item ∷ items) s =
      let f = first item (source_wonder wonders item.source_wonder_id) s refl in
      let d = reconciled items f.after in
      let run =
        goes_on item items (source_wonder wonders item.source_wonder_id) s f.after f.accepted refl
          f.run d in
      record {
        accepted = (counted f.accepted (d.accepted, d.rejected)).0;
        rejected = (counted f.accepted (d.accepted, d.rejected)).1;
        returned = ap (λ r. r.0) run;
        rows = rw run (f.extend d.rows);
      }

  -- The reconciliation of generated items returns, and for each item in turn it stores the item with the
  -- result of its check, and its source wonder. Where a stored wonder is its source and passes the gate
  -- with the knowledge at hand, an active item stays active as a reviewed hypothesis, and is counted as
  -- accepted. In every other case the item is stored as rejected, and is counted as rejected; a source
  -- that does not pass is stored as incubating, with its promotion retracted.
  pub reconcile_each-Reconciles :
      (items : List KnowledgeItem) (s : AutopilotState)
      → (n : ℕ) × (m : ℕ) × ((reconcile_each v knowledge wonders items s).0 ≡ ok (n, m))
        × Reconciles items s.writes n m (reconcile_each v knowledge wonders items s).1.writes
  reconcile_each-Reconciles items s =
      let d = reconciled items s in (d.accepted, d.rejected, d.returned, d.rows)
