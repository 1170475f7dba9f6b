-- ===== src/Evolution/Extraction.antt =====
-- `extract_sop_background` of src/pyclaw/core/sop_extraction.py: the procedures that the language model finds in the
-- turns of a session are checked and go to the memory. The memory, the server, the session store, the search of
-- _DANGEROUS_RE, the overlap of tokens and what the model's answers are parsed to are arguments; the prompt, ids and
-- times are left out.
pub mod Outcome
pub mod Writes
use pyclaw.Prelude.{
  ℕ, zero, suc, ◌+◌, Text, codes, Bool, true, false, Option, none, some, List, [], ◌∷◌, ◌++◌, take,
  length, if◌then◌else◌, ltb, has_part, starts_with,
}
use pyclaw.Prelude.Dict
use pyclaw.Prelude.Dict.{Dict}
use pyclaw.Messages.{is_blank, strip}
use pyclaw.Session.Types.{SessionTree}
use pyclaw.Storage.Redis.{Commands}
use pyclaw.Evolution.Sop.{
  RawSop, Reason, Sop, Limits, Checked, valid, refused, validate_sop, format_sop_content,
}
use pyclaw.Evolution.Segments.{build_segments}

pub data SkipReason : Type 0 where
  disabled no_candidates below_threshold lock_held session_not_found no_segments redis_error :
      SkipReason

pub data ExtractionError : Type 0 where
  redis_read_failed session_load_failed hgetall_failed lock_acquire_failed : ExtractionError

pub record ExtractionResult : Type 0 where
  pub spawned : Bool
  pub skip_reason : Option SkipReason
  pub llm_returned_count : ℕ
  pub written : ℕ
  pub skipped_duplicate : ℕ
  pub skipped_invalid : ℕ
  pub error : Option ExtractionError
  pub rejection_reasons : List Reason

unfoldable pub new_result : Bool → ExtractionResult
new_result spawned = record {
  spawned = spawned;
  skip_reason = none;
  llm_returned_count = 0;
  written = 0;
  skipped_duplicate = 0;
  skipped_invalid = 0;
  error = none;
  rejection_reasons = [];
}

-- `search` of layer L3 with limit 1: none where it raises, then the content found. `store` gives none where it raises.
pub record MemoryStore (M : Type 0) : Type 0 where
  pub search : M → (session_key query : Text) → Option (Option Text)
  pub store : M → (session_key content source_session_id : Text) → Option M

-- A call of the model: it raises, its text is not parsed, or gives the items that are dicts.
pub data Answer : Type 0 where
  raised unparsed : Answer
  parsed : List RawSop → Answer

pub record EvolutionSettings : Type 0 where
  pub enabled : Bool
  pub min_tool_calls_for_extraction : ℕ
  pub max_sops_per_extraction : ℕ
  pub limits : Limits

-- What stands around an extraction. The Booleans say which commands of the server raise.
pub record Surroundings (S M : Type 0) : Type 0 where
  pub redis : Commands S
  pub hgetall : S → Text → Dict Text Text
  pub read_fails : Bool
  pub cleanup_fails : Bool
  -- none where it raises
  pub load : Text → Option (Option SessionTree)
  pub memory_store : MemoryStore M
  pub is_dangerous : Text → Bool
  pub overlaps : Text → Text → Bool
  pub ask : (segments : Text) → (attempt : ℕ) → Answer

pub record Extracting (S M : Type 0) : Type 0 where
  pub server : S
  pub memory : M
  pub result : ExtractionResult

-- session_id.find(":s:"), and what stands before it
unfoldable pub derive_session_key : Text → Text
derive_session_key [] = []
derive_session_key (c ∷ t) =
    let rest = derive_session_key t in if starts_with (codes ":s:") (c ∷ t) then [] else c ∷ rest

unfoldable pub candidates_key : Text → Text
candidates_key session_id = codes "pyclaw:sop_candidates:" ++ session_id

unfoldable pub second_answer : Answer → List RawSop
second_answer (parsed sops) = sops
second_answer _ = []

-- Two attempts.
unfoldable pub call_llm_with_retry : (ℕ → Answer) → List RawSop
unfolding second_answer
call_llm_with_retry answers = elim (answers 0) [
  | parsed sops ↦ sops
  | raised ↦ second_answer (answers 1)
  | unparsed ↦ second_answer (answers 1)
]

module _ {S M : Type 0} (env : Surroundings S M) (settings : EvolutionSettings)
    (session_id : Text) where
  unfoldable pub is_similar : Text → Option (Option Text) → Bool
  is_similar content none = false
  is_similar content (some none) = false
  is_similar content (some (some existing)) =
      if ltb (length content) 20
      then has_part (strip content) existing
      else env.overlaps content existing

  unfoldable pub is_duplicate : M → Text → Bool
  unfolding is_similar
  is_duplicate memory content =
      is_similar content
        (env.memory_store.search memory (derive_session_key session_id) (take 200 content))

  -- An entry that is not stored is logged only.
  unfoldable pub after_store : Option M → Extracting S M → Extracting S M
  after_store none x = x
  after_store (some memory) x = record x {
    memory = memory;
    result = record x.result { written = x.result.written + 1 };
  }

  unfoldable pub after_check : Checked → Extracting S M → Extracting S M
  unfolding is_duplicate after_store
  after_check (refused reason) x = record x {
    result = record x.result {
      skipped_invalid = x.result.skipped_invalid + 1;
      rejection_reasons = x.result.rejection_reasons ++ reason ∷ [];
    };
  }
  after_check (valid sop) x =
      let content = format_sop_content sop in
      if is_duplicate x.memory content
      then record x {
        result = record x.result { skipped_duplicate = x.result.skipped_duplicate + 1 };
      }
      else after_store
          (env.memory_store.store x.memory (derive_session_key session_id) content session_id) x

  unfoldable pub take_sops : List RawSop → Extracting S M → Extracting S M
  unfolding after_check
  take_sops [] x = x
  take_sops (raw ∷ sops) x =
      take_sops sops (after_check (validate_sop env.is_dangerous settings.limits raw) x)

  -- `_cleanup`
  unfoldable pub cleanup : Extracting S M → Extracting S M
  cleanup x =
      if env.cleanup_fails
      then x
      else record x { server = (env.redis.del x.server (candidates_key session_id)).0 }

  unfoldable pub skipped : SkipReason → Extracting S M → Extracting S M
  skipped reason x = record x { result = record x.result { skip_reason = some reason } }

  unfoldable pub failed : ExtractionError → Extracting S M → Extracting S M
  failed error x = record x { result = record x.result { error = some error } }

  unfoldable pub after_answer : List RawSop → Extracting S M → Extracting S M
  unfolding cleanup take_sops
  after_answer [] x = cleanup x
  after_answer (sop ∷ sops) x = cleanup (
      take_sops (take settings.max_sops_per_extraction (sop ∷ sops))
        (record x { result = record x.result { llm_returned_count = length (sop ∷ sops) } }))

  unfoldable pub from_segments : Text → Extracting S M → Extracting S M
  unfolding after_answer skipped cleanup
  from_segments segments x =
      if is_blank segments
      then skipped no_segments (cleanup x)
      else after_answer (call_llm_with_retry (env.ask segments)) x

  unfoldable pub after_load :
      List Text → Option (Option SessionTree) → Extracting S M → Extracting S M
  unfolding from_segments skipped failed
  after_load candidates none x = failed session_load_failed x
  after_load candidates (some none) x = skipped session_not_found x
  after_load candidates (some (some tree)) x = from_segments (build_segments tree candidates) x

  unfoldable pub after_read : List Text → Extracting S M → Extracting S M
  unfolding after_load skipped
  after_read [] x = skipped no_candidates x
  after_read (c ∷ cs) x = after_load (c ∷ cs) (env.load session_id) x

  unfoldable pub extract_sop_background : S → M → Extracting S M
  unfolding after_read failed
  extract_sop_background server memory =
      let x : Extracting S M = record {
        server = server;
        memory = memory;
        result = new_result true;
      } in
      if env.read_fails
      then failed redis_read_failed x
      else after_read (Dict.keys (env.hgetall server (candidates_key session_id))) x
