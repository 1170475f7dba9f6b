-- ===== src/Evolution/Extraction/Writes.antt =====
-- What an extraction writes to the memory.
use pyclaw.Prelude.{
  ℕ, ◌+◌, Text, false, Option, none, some, List, [], ◌∷◌, ◌≡◌, refl, Bool-cases, inl, inr, take,
  length,
}
use pyclaw.Evolution.Sop.{RawSop, Sop, Checked, valid, refused, validate_sop, format_sop_content}
use pyclaw.Evolution.Extraction.{
  Surroundings, EvolutionSettings, Extracting, derive_session_key, after_store, after_check,
  take_sops, cleanup, after_answer, extract_sop_background, is_duplicate,
}
use pyclaw.Evolution.Extraction.Outcome.{extraction-cases, cleanup-result, cleanup-memory, IsQuiet}

module _ {S M : Type 0} (env : Surroundings S M) (settings : EvolutionSettings)
    (session_id : Text) where
  -- `P n` is kept when an item that is valid and no duplicate is stored as the next one.
  abbrev pub IsKeptByStores {ℓ} : (ℕ → M → Type ℓ) → Type ℓ
  IsKeptByStores P =
      (n : ℕ) (before after : M) (raw : RawSop) (sop : Sop)
      → validate_sop env.is_dangerous settings.limits raw ≡ valid sop
      → is_duplicate env settings session_id before (format_sop_content sop) ≡ false
      → env.memory_store.store before (derive_session_key session_id) (format_sop_content sop)
          session_id
        ≡ some after
      → P n before
      → P (n + 1) after

  module _ {ℓ} (P : ℕ → M → Type ℓ) (keeps : IsKeptByStores P) where
    abbrev Holds : Extracting S M → Type ℓ
    Holds x = P x.result.written x.memory

    after_store-Holds :
        (raw : RawSop) (sop : Sop) (o : Option M) (x : Extracting S M)
        → validate_sop env.is_dangerous settings.limits raw ≡ valid sop
        → is_duplicate env settings session_id x.memory (format_sop_content sop) ≡ false
        → env.memory_store.store x.memory
            (derive_session_key session_id)
            (format_sop_content sop)
            session_id
          ≡ o
        → Holds x
        → Holds (after_store env settings session_id o x)
    unfolding after_store
    after_store-Holds raw sop none x v new e h = h
    after_store-Holds raw sop (some m) x v new e h =
        keeps x.result.written x.memory m raw sop v new e h

    after_check-Holds :
        (raw : RawSop) (c : Checked) (x : Extracting S M)
        → validate_sop env.is_dangerous settings.limits raw ≡ c
        → Holds x
        → Holds (after_check env settings session_id c x)
    unfolding after_check
    after_check-Holds raw (refused reason) x v h = h
    after_check-Holds raw (valid sop) x v h =
        elim (Bool-cases (is_duplicate env settings session_id x.memory (format_sop_content sop))) [
          | inl t ↦ rw t h
          | inr f ↦ rw f (
              after_store-Holds raw sop
                (env.memory_store.store x.memory (derive_session_key session_id)
                  (format_sop_content sop) session_id)
                x v f refl h)
        ]

    take_sops-Holds :
        (sops : List RawSop) (x : Extracting S M)
        → Holds x
        → Holds (take_sops env settings session_id sops x)
    unfolding take_sops
    take_sops-Holds [] x h = h
    take_sops-Holds (raw ∷ sops) x h =
        let c = validate_sop env.is_dangerous settings.limits raw in
        take_sops-Holds sops (after_check env settings session_id c x)
          (after_check-Holds raw c x refl h)

    cleanup-Holds : (x : Extracting S M) → Holds x → Holds (cleanup env settings session_id x)
    cleanup-Holds x h =
        rw (cleanup-result env settings session_id x, cleanup-memory env settings session_id x) h

    answer-Holds :
        (sops : List RawSop) (x : Extracting S M)
        → Holds x
        → Holds (after_answer env settings session_id sops x)
    unfolding after_answer
    answer-Holds [] x h = cleanup-Holds x h
    answer-Holds (sop ∷ sops) x h =
        let y : Extracting S M = record x {
          result = record x.result { llm_returned_count = length (sop ∷ sops) };
        } in
        let taken = take settings.max_sops_per_extraction (sop ∷ sops) in
        cleanup-Holds (take_sops env settings session_id taken y) (take_sops-Holds taken y h)

    quiet-Holds :
        (memory : M) (x : Extracting S M)
        → IsQuiet env settings session_id memory x
        → P 0 memory
        → Holds x
    quiet-Holds memory x (m, w, _, _, _) h = rw (m, w) h

-- The memory changes by stores of items only that have passed the check and are no duplicates of what the memory finds,
-- and by so many as are reported as written: what such stores keep holds at every exit of an extraction.
pub extract_sop_background-writes {ℓ} :
    {S M : Type 0} (env : Surroundings S M) (settings : EvolutionSettings) (session_id : Text)
    (server : S) (memory : M) (P : ℕ → M → Type ℓ)
    → IsKeptByStores env settings session_id P
    → P 0 memory
    → P
        (extract_sop_background env settings session_id server memory).result.written
        (extract_sop_background env settings session_id server memory).memory
extract_sop_background-writes env settings session_id server memory P keeps h =
    extraction-cases env settings session_id memory (λ x. P x.result.written x.memory)
      (λ x quiet. quiet-Holds env settings session_id P keeps memory x quiet h)
      (λ sops x quiet.
        answer-Holds env settings session_id P keeps sops x
          (quiet-Holds env settings session_id P keeps memory x quiet h))
      server
