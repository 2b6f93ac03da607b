-- ===== src/DeepEvaluation/Prompts.antt =====
-- The tasks of the services of backend/src/wandermind/application/explore_service.py. Of a task the
-- schema, the sandbox and the timeout are left out.
use wander_mind.Prelude.{
  Text, text, Bool, false, ◌&&◌, ◌||◌, some, List, [], ◌∷◌, ◌++◌, leb, if◌then◌else◌,
}
use wander_mind.Models.Thought.{Candidate, KnowledgeItem}
use wander_mind.Models.Evaluation.{EvidenceOutput}
use wander_mind.Runtimes.{RuntimeTask, session_uuid}
use wander_mind.DeepEvaluation.{Evaluating}

-- `any("\u4e00" <= character <= "\u9fff" for character in statement)`
unfoldable pub has_chinese : Text → Bool
has_chinese [] = false
has_chinese (c ∷ cs) = leb 0x4E00 c && leb c 0x9FFF || has_chinese cs

-- `_language_instruction`
unfoldable pub language_instruction : Candidate → Text
unfolding has_chinese
language_instruction candidate =
    if has_chinese candidate.statement
    then text "Write all human-readable JSON string values in Simplified Chinese."
    else text "Write all human-readable JSON string values in the candidate's language."

-- `_critic_unavailable`; the characters of the Chinese sentence by their code points.
unfoldable pub critic_unavailable : Candidate → Text
unfolding has_chinese
critic_unavailable candidate =
    if has_chinese candidate.statement
    then 0x72EC ∷ 0x7ACB ∷ 0x6279 ∷ 0x8BC4 ∷ 0x5668 ∷ 0x6682 ∷ 0x65F6 ∷ 0x4E0D ∷ 0x53EF ∷ 0x7528
      ∷ 0x3002 ∷ []
    else text "Independent critic was unavailable."

-- `chr(10).join(lines)`
unfoldable pub join_lines : List Text → Text
join_lines [] = []
join_lines (line ∷ []) = line
join_lines (line ∷ next ∷ lines) = line ++ 10 ∷ join_lines (next ∷ lines)

unfoldable pub task_for : Candidate → List Text → RuntimeTask
unfolding join_lines
task_for candidate lines = record {
  prompt = join_lines lines;
  wander_session_id = some (session_uuid candidate.session_id);
}

module _ (w : Evaluating) where
  unfoldable pub explorer_task : Candidate → List KnowledgeItem → RuntimeTask
  unfolding task_for language_instruction
  explorer_task candidate context = task_for candidate (
      text "Expand the candidate without asserting unsupported facts. Return only JSON."
      ∷ language_instruction candidate
      ∷ (text "Candidate: " ++ candidate.statement)
      ∷ (text "Explanation: " ++ candidate.explanation)
      ∷ (text "Context: " ++ w.context_payload context)
      ∷ [])

  unfoldable pub evidence_task : Candidate → List KnowledgeItem → RuntimeTask
  unfolding task_for language_instruction
  evidence_task candidate context = task_for candidate (
      text "Find support and counter-evidence using only the supplied context. Return only JSON."
      ∷ (text "Copy source_refs exactly from non-empty Context source_ref values. If no supplied "
          ++ text
              "source supports a claim, return empty evidence arrays and high uncertainty. Never "
          ++ text "invent, infer, or transform a source reference.")
      ∷ language_instruction candidate
      ∷ (text "Candidate: " ++ candidate.statement)
      ∷ (text "Context: " ++ w.context_payload context)
      ∷ [])

  unfoldable pub critic_task : Candidate → EvidenceOutput → RuntimeTask
  unfolding task_for language_instruction
  critic_task candidate evidence = task_for candidate (
      text "Independently critique the candidate. Do not assume it is correct. Return only JSON."
      ∷ language_instruction candidate
      ∷ (text "Candidate: " ++ candidate.statement)
      ∷ (text "Evidence: " ++ w.dump_evidence evidence)
      ∷ [])
