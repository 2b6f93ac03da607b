-- ===== src/Autopilot/Frame.antt =====
-- What holds of the stored campaign is kept by everything that does not save it.
use wander_mind.Prelude.{
  ◌+◌, ℕ, Bool, true, false, Option, none, some, List, [], ◌∷◌, ◌==◌, is_some, if◌then◌else◌,
}
use wander_mind.Exec.{pure, raise, gets, ◌>>=◌}
use wander_mind.Exec.Triple.{Triple, Triple-bind, Triple-pure, Triple-if, Holds}
use wander_mind.Models.Thought.{KnowledgeItem, Wonder}
use wander_mind.Models.Quality.{QualityGateResult}
use wander_mind.Models.Campaign.{AutopilotCampaign}
use wander_mind.Autopilot.State.{
  Services, Pilot, AutopilotState, AutopilotError, AutopilotWrite, Ingested, component_error,
  answered, ask, attempt, write,
}
use wander_mind.Autopilot.Promotion.{
  create_edge, create_edges, finish_promotion, promote_gated, promote_wonder, promote_each,
  promote_wonders, gate,
}

module _ (P : Option AutopilotCampaign → Type 0) where
  -- The campaign has `P` before and after, also after an exception.
  abbrev pub Keeps : {A : Type 0} → Pilot A → Type 0
  Keeps m = Triple (λ s. P s.campaign) m (λ _ s. P s.campaign) (λ _ s. P s.campaign)

  pub Keeps-bind :
      {A B : Type 0} (m : Pilot A) (f : A → Pilot B)
      → Keeps m
      → ((a : A) → Keeps (f a))
      → Keeps (m >>= f)
  Keeps-bind m f h k = Triple-bind _ _ m f h k

  pub Keeps-pure : {A : Type 0} (a : A) → Keeps (pure a)
  Keeps-pure a = Triple-pure _ a (λ s h. h)

  pub Keeps-raise : {A : Type 0} (e : AutopilotError) → Keeps {A = A} (raise e)
  unfolding raise
  Keeps-raise e = record { at = λ s h. h }

  pub Keeps-if :
      {A : Type 0} (b : Bool) (m n : Pilot A) → Keeps m → Keeps n → Keeps (if b then m else n)
  Keeps-if b m n h k = Triple-if _ b m n (λ e. h) (λ e. k)

  pub Keeps-ask : {A : Type 0} (question : ℕ → A) → Keeps (ask question)
  unfolding ask
  Keeps-ask question = record { at = λ s h. h }

  attempted :
      {A : Type 0} (answer : Option A) (s : AutopilotState)
      → P s.campaign
      → Holds (λ _ t. P t.campaign) (λ _ t. P t.campaign) (answered answer) s
  attempted none s h = h
  attempted (some a) s h = h

  pub Keeps-attempt : {A : Type 0} (question : ℕ → Option A) → Keeps (attempt question)
  unfolding attempt
  Keeps-attempt question = record {
    at = λ s h. attempted (question s.tick) (record s { tick = s.tick + 1 }) h;
  }

  pub Keeps-write : (row : AutopilotWrite) → Keeps (write row)
  unfolding write
  Keeps-write row = record { at = λ s h. h }

  -- The stored campaign, with what is known of it.
  pub Keeps-campaign :
      {B : Type 0} (f : AutopilotState → Pilot B)
      → ((s : AutopilotState) → P s.campaign → Keeps (f s))
      → Keeps (gets (λ s. s) >>= f)
  unfolding ◌>>=◌ gets
  Keeps-campaign f h = record { at = λ s p. (h s p).at s p }

  module _ (v : Services) where
    create_edge-Keeps :
        (wonder : Wonder) (item_id source_id : ℕ) → Keeps (create_edge v wonder item_id source_id)
    unfolding create_edge
    create_edge-Keeps wonder item_id source_id =
        Keeps-bind _ _ (Keeps-ask _) (λ edge_id. Keeps-write _)

    create_edges-Keeps :
        (wonder : Wonder) (item_id : ℕ) (ids : List ℕ) → Keeps (create_edges v wonder item_id ids)
    unfolding create_edges
    create_edges-Keeps wonder item_id [] = Keeps-pure tt
    create_edges-Keeps wonder item_id (id ∷ ids) =
        Keeps-bind _ _
          (Keeps-if (id == item_id) _ _ (Keeps-pure tt) (create_edge-Keeps wonder item_id id))
          (λ _. create_edges-Keeps wonder item_id ids)

    finish_promotion-Keeps :
        (campaign_id : ℕ) (wonder : Wonder) (ingested : Ingested)
        → Keeps (finish_promotion v campaign_id wonder ingested)
    unfolding finish_promotion
    finish_promotion-Keeps campaign_id wonder Ingested.failed = Keeps-raise component_error
    finish_promotion-Keeps campaign_id wonder (Ingested.duplicate reason) =
        Keeps-bind _ _ (Keeps-write _) (λ _. Keeps-pure false)
    finish_promotion-Keeps campaign_id wonder (Ingested.stored item) =
        Keeps-bind _ _ (Keeps-write _) λ _.
          Keeps-bind _ _ (create_edges-Keeps wonder item.id wonder.source_items)
            λ _. Keeps-bind _ _ (Keeps-write _) (λ _. Keeps-pure true)

    promote_gated-Keeps :
        (campaign_id : ℕ) (wonder : Wonder) (quality : QualityGateResult)
        → Keeps (promote_gated v campaign_id wonder quality)
    unfolding promote_gated
    promote_gated-Keeps campaign_id wonder quality =
        Keeps-if quality.accepted _ _
          (Keeps-bind _ _ (Keeps-ask _) (λ ingested. finish_promotion-Keeps campaign_id _ ingested))
          (Keeps-bind _ _ (Keeps-write _) (λ _. Keeps-pure false))

    promote_each-Keeps :
        (campaign_id : ℕ) (knowledge : List KnowledgeItem) (wonders : List Wonder)
        → Keeps (promote_each v campaign_id knowledge wonders)
    unfolding promote_each promote_wonder
    promote_each-Keeps campaign_id knowledge [] = Keeps-pure 0
    promote_each-Keeps campaign_id knowledge (wonder ∷ wonders) =
        Keeps-bind _ _
          (Keeps-if (is_some wonder.autopilot_promoted_knowledge_id) _ _ (Keeps-pure false)
            (promote_gated-Keeps campaign_id wonder (gate v knowledge wonder)))
          (λ _.
            Keeps-bind _ _ (promote_each-Keeps campaign_id knowledge wonders) (λ _. Keeps-pure _))

    pub promote_wonders-Keeps :
        (campaign_id : ℕ) (wonders : List Wonder) → Keeps (promote_wonders v campaign_id wonders)
    unfolding promote_wonders
    promote_wonders-Keeps campaign_id wonders =
        Keeps-bind _ _ (Keeps-ask _) (λ knowledge. promote_each-Keeps campaign_id knowledge wonders)
