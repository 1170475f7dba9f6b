-- ===== src/Compaction/Engine/Cuts.antt =====
-- What a compaction that succeeds has done.
use pyclaw.Prelude.{
  ℕ, ◌<◌, Text, codes, ◌≡◌, refl, Bool, true, false, not, Option, none, some, List, take, map,
  if◌then◌else◌, if_elim,
}
use pyclaw.Messages.{LlmMessage}
use pyclaw.Compaction.Planning.{estimate_messages_tokens, CompactionPlan, plan_compaction}
use pyclaw.Compaction.Planning.Cut.{IsSafeCut}
use pyclaw.Compaction.Planning.Plan.{HasCut, plan_compaction-IsPlan}
use pyclaw.Compaction.Chunks.{has_real_conversation}
use pyclaw.Compaction.Dedup.{Timed}
use pyclaw.Runner.Compaction.{CompactResult}
use pyclaw.Compaction.Engine.{
  Summarized, summary, timeout, aborted, failed, Settings, refused, idle, idle_code, finished,
  filtered, carry_out, dedup, compact,
}

-- What a result says of the messages. A result that compacts has summarised the messages before a safe cut, of those
-- that were over the budget; any other has no summary.
abbrev pub IsCompaction :
    (summarize : List LlmMessage → Summarized)
    → (budget keep token_budget : ℕ) → List LlmMessage
    → CompactResult
    → Type 0
IsCompaction summarize budget keep token_budget deduped r =
    (r.compacted ≡ true
      → (cut : ℕ) × (text : Text) × IsSafeCut keep deduped cut
        × (budget < estimate_messages_tokens deduped)
        × (summarize (filtered token_budget (take cut deduped)) ≡ summary text)
        × (r.summary ≡ some text)
        × (r.ok ≡ true)
        × (r.tokens_before ≡ estimate_messages_tokens deduped))
    × (r.compacted ≡ false → r.summary ≡ none)

module _ (summarize : List LlmMessage → Summarized) (budget keep token_budget : ℕ)
    (deduped : List LlmMessage) where
  finished-IsCompaction :
      (plan : CompactionPlan) (cut : ℕ) (result : Summarized)
      → IsSafeCut keep deduped cut
      → budget < estimate_messages_tokens deduped
      → plan.estimated_tokens ≡ estimate_messages_tokens deduped
      → summarize (filtered token_budget (take cut deduped)) ≡ result
      → IsCompaction summarize budget keep token_budget deduped (finished plan cut result)
  unfolding finished refused
  finished-IsCompaction plan cut (summary text) safe over size q =
      ((λ _. (cut, text, safe, over, q, refl, refl, size)), λ h. cc)
  finished-IsCompaction plan cut timeout safe over size q = ((λ h. cc), λ _. refl)
  finished-IsCompaction plan cut aborted safe over size q = ((λ h. cc), λ _. refl)
  finished-IsCompaction plan cut (failed what) safe over size q = ((λ h. cc), λ _. refl)

  idle-IsCompaction :
      (reason : Option Text) (code : Text) (n : ℕ)
      → IsCompaction summarize budget keep token_budget deduped (idle reason code n)
  unfolding idle
  idle-IsCompaction reason code n = ((λ h. cc), λ _. refl)

  carry_out-IsCompaction :
      (plan : CompactionPlan) (cut : Option ℕ)
      → plan.estimated_tokens ≡ estimate_messages_tokens deduped
      → HasCut budget keep deduped plan cut
      → IsCompaction summarize budget keep token_budget deduped
          (carry_out summarize token_budget deduped plan cut)
  unfolding carry_out
  carry_out-IsCompaction plan none size has =
      idle-IsCompaction plan.reason (idle_code plan.reason) plan.estimated_tokens
  carry_out-IsCompaction plan (some cut) size has =
      if_elim (IsCompaction summarize budget keep token_budget deduped) (not plan.should_compact)
        (λ _. idle-IsCompaction plan.reason (idle_code plan.reason) plan.estimated_tokens)
        (λ _.
          finished-IsCompaction plan cut (summarize (filtered token_budget (take cut deduped)))
            has.2 has.1 size refl)

-- A compaction that succeeds was of messages over the budget. Its summary is what the summarizer makes of the
-- messages before a safe cut, where duplicates are gone and oversized messages are replaced; and a result that does
-- not compact has no summary.
pub compact-IsCompaction :
    (s : Settings) (summarize : List LlmMessage → Summarized) (abort_set : Bool)
    (threshold_budget token_budget : ℕ) (force : Bool) (messages : List Timed)
    → IsCompaction summarize
        (if force then token_budget else threshold_budget)
        s.keep_recent_tokens
        token_budget
        (dedup s messages)
        (compact s summarize abort_set threshold_budget token_budget force messages)
unfolding compact refused
compact-IsCompaction s summarize abort_set threshold_budget token_budget force messages =
    let budget = if force then token_budget else threshold_budget in
    let keep = s.keep_recent_tokens in
    let deduped = dedup s messages in
    let plan = plan_compaction budget keep deduped in
    let (size, has) = plan_compaction-IsPlan budget keep deduped in
    if_elim (IsCompaction summarize budget keep token_budget deduped) abort_set
      (λ _. ((λ h. cc), λ _. refl))
      (λ _.
        if_elim (IsCompaction summarize budget keep token_budget deduped)
          (not (has_real_conversation s.lower (map (λ (m : Timed). m.message) messages)))
          (λ _.
            idle-IsCompaction summarize budget keep token_budget deduped
              (some (codes "no real conversation")) (codes "no_compactable_entries") 0)
          (λ _.
            carry_out-IsCompaction summarize budget keep token_budget deduped plan plan.cut_index
              size has))
