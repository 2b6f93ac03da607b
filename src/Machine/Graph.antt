-- ===== src/Machine/Graph.antt =====
-- What the table of moves allows: which states end a run, and how each state can reach an end.
use wander_mind.Prelude.{◌≡◌, ◌≢◌, ◌↔◌, ◌⊎◌, inl, inr, refl, Bool, true, false, arith}
use wander_mind.Exec.{ok}
use wander_mind.Models.Enums.{CognitiveState}
use wander_mind.Models.Enums.CognitiveState.{
  idle, seeding, wander, collision, generate, score, explore, critique, persist, surface, stopped,
  failed,
}
use wander_mind.Machine.{legal_transitions, transition}

-- A sequence of accepted moves.
pub data Reaches : CognitiveState → CognitiveState → Type 0 where
  here : {s : CognitiveState} → Reaches s s
  move : {s t u : CognitiveState} → transition s t ≡ ok t → Reaches t u → Reaches s u

abbrev pub IsTerminal : CognitiveState → Type 0
IsTerminal s = (s ≡ stopped) ⊎ (s ≡ failed)

terminal_refuses : (s t u : CognitiveState) → IsTerminal s → transition s t ≢ ok u
unfolding transition legal_transitions
terminal_refuses s t u h = ground arith

Reaches-terminal : {s t : CognitiveState} → Reaches s t → IsTerminal s → s ≡ t
Reaches-terminal here h = refl
Reaches-terminal (move {s = a} {t = b} m r) h = absurd (terminal_refuses a b b h m)

Reaches-stopped : (s : CognitiveState) → s ≢ failed → Reaches s stopped
unfolding transition legal_transitions
Reaches-stopped idle h = move {t = stopped} refl here
Reaches-stopped seeding h = move {t = stopped} refl here
Reaches-stopped wander h = move {t = stopped} refl here
Reaches-stopped collision h = move {t = stopped} refl here
Reaches-stopped generate h = move {t = wander} refl (move {t = stopped} refl here)
Reaches-stopped score h = move {t = stopped} refl here
Reaches-stopped explore h = move {t = wander} refl (move {t = stopped} refl here)
Reaches-stopped critique h = move {t = stopped} refl here
Reaches-stopped persist h = move {t = wander} refl (move {t = stopped} refl here)
Reaches-stopped surface h = move {t = stopped} refl here
Reaches-stopped stopped h = here
Reaches-stopped failed h = absurd (h refl)

failed_from :
    (s : CognitiveState)
    → s ≢ stopped
    → s ≢ failed
    → s ≢ surface
    → legal_transitions s failed ≡ true
unfolding legal_transitions
failed_from s a b c = ground arith

-- The states after a score, which only `score` leads into; and those after a `persist`.
abbrev scored : CognitiveState → Bool
scored score = true
scored explore = true
scored critique = true
scored persist = true
scored surface = true
scored _ = false

abbrev persisted : CognitiveState → Bool
persisted persist = true
persisted surface = true
persisted _ = false

enters_score :
    (s t : CognitiveState)
    → transition s t ≡ ok t
    → scored s ≡ false
    → (t ≡ score) ⊎ (scored t ≡ false)
unfolding transition legal_transitions
enters_score s t m h = ground arith

enters_persist :
    (s t : CognitiveState)
    → transition s t ≡ ok t
    → persisted s ≡ false
    → (t ≡ persist) ⊎ (persisted t ≡ false)
unfolding transition legal_transitions
enters_persist s t m h = ground arith

-- A run that has stopped or failed takes no further move.
pub ended_moves_nowhere : (s t : CognitiveState) → IsTerminal s → Reaches s t → s ≡ t
ended_moves_nowhere s t h r = Reaches-terminal r h

-- Some sequence of accepted moves leads to `stopped` from exactly the states that are not `failed`.
pub stopped_is_reachable_iff : (s : CognitiveState) → Reaches s stopped ↔ (s ≢ failed)
stopped_is_reachable_iff s = (λ r e. let same = Reaches-terminal r (inr e) in cc, Reaches-stopped s)

-- The handler of an exception may move to `failed` exactly from the states that are neither
-- terminal nor `surface`.
pub failed_is_legal_iff :
    (s : CognitiveState)
    → (legal_transitions s failed ≡ true) ↔ ((s ≢ stopped) × (s ≢ failed) × (s ≢ surface))
unfolding legal_transitions
failed_is_legal_iff s =
    (λ h. (λ e. ground arith, λ e. ground arith, λ e. ground arith), λ h. failed_from s h.0 h.1 h.2)

-- The state `u` is entered on the way.
abbrev pub Visits : CognitiveState → {s t : CognitiveState} → Reaches s t → Type 0
Visits u here = ⊥
Visits u (move {t = b} m r) = (b ≡ u) ⊎ Visits u r

Visits-score :
    {s t : CognitiveState} (r : Reaches s t) → t ≡ surface → scored s ≡ false → Visits score r
Visits-score here e h = cc
Visits-score (move {s = a} {t = b} m r) e h = elim (enters_score a b m h) [
  | inl p ↦ inl p
  | inr q ↦ inr (Visits-score r e q)
]

Visits-persist :
    {s t : CognitiveState} (r : Reaches s t) → t ≡ surface → persisted s ≡ false → Visits persist r
Visits-persist here e h = cc
Visits-persist (move {s = a} {t = b} m r) e h = elim (enters_persist a b m h) [
  | inl p ↦ inl p
  | inr q ↦ inr (Visits-persist r e q)
]

-- Every run from `idle` that surfaces a wonder has scored a candidate and persisted on the way.
pub surface_after_score : (r : Reaches idle surface) → Visits score r × Visits persist r
surface_after_score r = (Visits-score r refl refl, Visits-persist r refl refl)
