-- ===== src/Evolution/Extraction/Outcome.antt =====
-- What an extraction reports, and what it writes.
use pyclaw.Prelude.{
  ℕ, ◌+◌, ◌≤◌, Text, true, Option, none, some, List, [], ◌∷◌, ◌≡◌, refl, ap, ◌∙◌, take, length,
  length-append, length-take, Bool-cases, inl, inr, arith,
}
use pyclaw.Prelude.Dict
use pyclaw.Messages.{is_blank}
use pyclaw.Evolution.Segments.{build_segments}
use pyclaw.Session.Types.{SessionTree}
use pyclaw.Evolution.Sop.{RawSop, Checked, valid, refused, validate_sop, format_sop_content}
use pyclaw.Evolution.Extraction.{
  ExtractionResult, Surroundings, EvolutionSettings, Extracting, derive_session_key, after_store,
  after_check, take_sops, cleanup, skipped, failed, candidates_key, no_segments, no_candidates,
  session_not_found, session_load_failed, redis_read_failed, after_answer, from_segments,
  after_load, after_read, extract_sop_background, new_result, call_llm_with_retry, is_duplicate,
}

-- No more than `n` items are counted, and there is a reason for each that was refused.
abbrev pub Counted : ℕ → ExtractionResult → Type 0
Counted n r =
    (r.written + r.skipped_duplicate + r.skipped_invalid ≤ n)
    × (length r.rejection_reasons ≡ r.skipped_invalid)

-- Of the items that the model returned, at most so many as the settings allow are counted.
abbrev pub IsCounted : EvolutionSettings → ExtractionResult → Type 0
IsCounted settings r = Counted settings.max_sops_per_extraction r × Counted r.llm_returned_count r

module _ {S M : Type 0} (env : Surroundings S M) (settings : EvolutionSettings)
    (session_id : Text) where
  after_store-Counted :
      (n : ℕ) (m : Option M) (x : Extracting S M)
      → Counted n x.result
      → Counted (n + 1) (after_store env settings session_id m x).result
  unfolding after_store
  after_store-Counted n none x h = (omega (arith, h.0), h.1)
  after_store-Counted n (some m) x h = (omega (arith, h.0), h.1)

  after_check-Counted :
      (n : ℕ) (c : Checked) (x : Extracting S M)
      → Counted n x.result
      → Counted (n + 1) (after_check env settings session_id c x).result
  unfolding after_check
  after_check-Counted n (refused reason) x h = (
    omega (arith, h.0),
    length-append x.result.rejection_reasons (reason ∷ []) ∙ ap (λ k. k + 1) h.1,
  )
  after_check-Counted n (valid sop) x h =
      elim (Bool-cases (is_duplicate env settings session_id x.memory (format_sop_content sop))) [
        | inl t ↦ rw t (omega (arith, h.0), h.1)
        | inr f ↦ rw f (
            after_store-Counted n
              (env.memory_store.store x.memory (derive_session_key session_id)
                (format_sop_content sop) session_id)
              x h)
      ]

  after_store-returned :
      (m : Option M) (x : Extracting S M)
      → (after_store env settings session_id m x).result.llm_returned_count
        ≡ x.result.llm_returned_count
  unfolding after_store
  after_store-returned none x = refl
  after_store-returned (some m) x = refl

  after_check-returned :
      (c : Checked) (x : Extracting S M)
      → (after_check env settings session_id c x).result.llm_returned_count
        ≡ x.result.llm_returned_count
  unfolding after_check
  after_check-returned (refused reason) x = refl
  after_check-returned (valid sop) x =
      elim (Bool-cases (is_duplicate env settings session_id x.memory (format_sop_content sop))) [
        | inl t ↦ rw t refl
        | inr f ↦ rw f (
            after_store-returned
              (env.memory_store.store x.memory (derive_session_key session_id)
                (format_sop_content sop) session_id)
              x)
      ]

  take_sops-Counted :
      (n : ℕ) (sops : List RawSop) (x : Extracting S M)
      → Counted n x.result
      → Counted (n + length sops) (take_sops env settings session_id sops x).result
        × ((take_sops env settings session_id sops x).result.llm_returned_count
            ≡ x.result.llm_returned_count)
  unfolding take_sops
  take_sops-Counted n [] x h = ((omega (arith, h.0), h.1), refl)
  take_sops-Counted n (raw ∷ sops) x h =
      let c = validate_sop env.is_dangerous settings.limits raw in
      let rest =
        take_sops-Counted (n + 1) sops (after_check env settings session_id c x)
          (after_check-Counted n c x h) in
      ((omega (arith, rest.0.0), rest.0.1), rest.1 ∙ after_check-returned c x)

  -- The results of `cleanup`, which changes the server only.
  pub cleanup-result : (x : Extracting S M) → (cleanup env settings session_id x).result ≡ x.result
  unfolding cleanup
  cleanup-result x = elim (Bool-cases env.cleanup_fails) [ inl t ↦ rw t refl | inr f ↦ rw f refl ]

  pub cleanup-memory : (x : Extracting S M) → (cleanup env settings session_id x).memory ≡ x.memory
  unfolding cleanup
  cleanup-memory x = elim (Bool-cases env.cleanup_fails) [ inl t ↦ rw t refl | inr f ↦ rw f refl ]

  answer-IsCounted :
      (sops : List RawSop) (x : Extracting S M)
      → Counted 0 x.result
      → IsCounted settings (after_answer env settings session_id sops x).result
  unfolding after_answer
  answer-IsCounted [] x h =
      rw (cleanup-result x) ((omega (arith, h.0), h.1), (omega (arith, h.0), h.1))
  answer-IsCounted (sop ∷ sops) x h =
      let y = record x { result = record x.result { llm_returned_count = length (sop ∷ sops) } } in
      let taken = take settings.max_sops_per_extraction (sop ∷ sops) in
      let counted = take_sops-Counted 0 taken y h in
      rw (cleanup-result (take_sops env settings session_id taken y)) (
        (
          omega (arith, counted.0.0, length-take settings.max_sops_per_extraction (sop ∷ sops)),
          counted.0.1,
        ),
        (
          omega (
            arith,
            counted.0.0,
            counted.1,
            length-take settings.max_sops_per_extraction (sop ∷ sops),
          ),
          counted.0.1,
        ),
      )

  -- An extraction that ended before the model was asked: nothing is counted or written.
  abbrev pub IsQuiet : M → Extracting S M → Type 0
  IsQuiet memory x =
      (x.memory ≡ memory)
      × (x.result.written ≡ 0)
      × (x.result.skipped_duplicate ≡ 0)
      × (x.result.skipped_invalid ≡ 0)
      × (x.result.rejection_reasons ≡ [])

  cleanup-IsQuiet :
      (memory : M) (x : Extracting S M)
      → IsQuiet memory x
      → IsQuiet memory (cleanup env settings session_id x)
  unfolding cleanup
  cleanup-IsQuiet memory x h = elim (Bool-cases env.cleanup_fails) [
    | inl t ↦ rw t h
    | inr f ↦ rw f h
  ]

  -- What holds of every quiet end and of every end after an answer holds of each extraction.
  module _ {ℓ} (memory : M) (Q : Extracting S M → Type ℓ)
      (quiet : (x : Extracting S M) → IsQuiet memory x → Q x)
      (answered : (sops : List RawSop) (x : Extracting S M)
        → IsQuiet memory x
        → Q (after_answer env settings session_id sops x)) where
    segments-cases :
        (segments : Text) (x : Extracting S M)
        → IsQuiet memory x
        → Q (from_segments env settings session_id segments x)
    unfolding from_segments skipped
    segments-cases segments x h = elim (Bool-cases (is_blank segments)) [
      | inl t ↦ rw t (
          quiet (skipped env settings session_id no_segments (cleanup env settings session_id x))
            (cleanup-IsQuiet memory x h))
      | inr f ↦ rw f (answered (call_llm_with_retry (env.ask segments)) x h)
    ]

    load-cases :
        (candidates : List Text) (tree : Option (Option SessionTree)) (x : Extracting S M)
        → IsQuiet memory x
        → Q (after_load env settings session_id candidates tree x)
    unfolding after_load skipped failed
    load-cases candidates none x h = quiet (failed env settings session_id session_load_failed x) h
    load-cases candidates (some none) x h =
        quiet (skipped env settings session_id session_not_found x) h
    load-cases candidates (some (some tree)) x h =
        segments-cases (build_segments tree candidates) x h

    read-cases :
        (candidates : List Text) (x : Extracting S M)
        → IsQuiet memory x
        → Q (after_read env settings session_id candidates x)
    unfolding after_read skipped
    read-cases [] x h = quiet (skipped env settings session_id no_candidates x) h
    read-cases (c ∷ cs) x h = load-cases (c ∷ cs) (env.load session_id) x h

    pub extraction-cases :
        (server : S) → Q (extract_sop_background env settings session_id server memory)
    unfolding extract_sop_background failed new_result
    extraction-cases server =
        let x : Extracting S M = record {
          server = server;
          memory = memory;
          result = new_result true;
        } in
        elim (Bool-cases env.read_fails) [
          | inl t ↦ rw t (
              quiet (failed env settings session_id redis_read_failed x)
                (refl, refl, refl, refl, refl))
          | inr f ↦ rw f (
              read-cases (Dict.keys (env.hgetall server (candidates_key session_id))) x
                (refl, refl, refl, refl, refl))
        ]

-- At most so many items are written, found to be duplicates or refused as the model returned, and as the settings allow;
-- and there is one reason for each refusal. What an extraction reports is so on every exit.
pub extract_sop_background-IsCounted :
    {S M : Type 0} (env : Surroundings S M) (settings : EvolutionSettings) (session_id : Text)
    (server : S) (memory : M)
    → IsCounted settings (extract_sop_background env settings session_id server memory).result
extract_sop_background-IsCounted env settings session_id server memory =
    extraction-cases env settings session_id memory (λ x. IsCounted settings x.result)
      (λ x (m, w, d, i, r).
        let e = ap length r in ((omega arith, omega arith), (omega arith, omega arith)))
      (λ sops x (m, w, d, i, r).
        let e = ap length r in
        answer-IsCounted env settings session_id sops x (omega arith, omega arith))
      server
