-- ===== src/Memory/Fits.antt =====
-- The bound of the working memory.
use pyclaw.Prelude.{
  ℕ, ◌+◌, ◌≤◌, ◌<◌, Text, Bool, true, false, ◌||◌, Option, none, some, some_inj, List, [], ◌∷◌,
  ◌++◌, ◌≡◌, ◌≢◌, refl, sym, ap, ◌∙◌, any, length, if◌then◌else◌, ltb, text_eq, text_eq_iff,
  text_key, Bool-cases, inl, inr, arith,
}
use pyclaw.Prelude.Dict
use pyclaw.Prelude.Dict.{Dict}
use pyclaw.Memory.{
  WorkingMemory, total_chars, evict, evict_if_needed, write, execute, stored, fit_block, block,
  before_prompt_build, lines_of, ordered_keys,
}
use pyclaw.Memory.Evicts.{IsOrdered, IsWithin, evict-IsWithin, evict-get, total_chars-remove}

any-append : (p : Text → Bool) (xs ys : List Text) → any p (xs ++ ys) ≡ any p xs || any p ys
any-append p [] ys = refl
any-append p (x ∷ xs) ys = ground (arith, any-append p xs ys)

write-order :
    (m : WorkingMemory) (key v k : Text) (is_old : Bool)
    → Dict.has m.fields key ≡ is_old
    → IsOrdered m
    → Dict.has (Dict.put m.fields key v) k ≡ true
    → any (text_eq k) (if is_old then m.order else m.order ++ key ∷ []) ≡ true
write-order m key v k true old h has = elim (Bool-cases (text_eq key k)) [
  | inl t ↦ h.1 k (ap (Dict.has m.fields) (sym ((text_eq_iff key k).0 t)) ∙ old)
  | inr f ↦ h.1 k (ground (arith, has, f, Dict.has-put m.fields key k v))
]
write-order m key v k false old h has =
    any-append (text_eq k) m.order (key ∷ [])
    ∙ ground
        (arith, has, h.1 k, Dict.has-put m.fields key k v, text_eq_iff key k, text_eq_iff k key)

write-IsOrdered : (m : WorkingMemory) (key v : Text) → IsOrdered m → IsOrdered (write m key v)
unfolding write
write-IsOrdered m key v h = (
  Dict.put-IsDistinct m.fields key v h.0,
  λ k has. write-order m key v k (Dict.has m.fields key) refl h has,
)

-- Each use of the tool leaves a working memory whose list has every key of its hash, and that is within the bound, where it
-- was so before.
pub execute-IsWithin :
    (max_chars : ℕ) (memory : WorkingMemory) (key value : Option Text)
    → IsWithin max_chars memory
    → IsWithin max_chars (execute max_chars memory key value).0
unfolding execute evict_if_needed
execute-IsWithin max_chars memory none value h = h
execute-IsWithin max_chars memory (some []) value h = h
execute-IsWithin max_chars memory (some (c ∷ k)) none h = h
execute-IsWithin max_chars memory (some (c ∷ k)) (some v) h =
    let m = write memory (c ∷ k) v in
    evict-IsWithin max_chars (total_chars m.fields) m.order m.fields refl
      (write-IsOrdered memory (c ∷ k) v h.1)

not_kept :
    (max_chars : ℕ) (m : WorkingMemory) (key v : Text) (o : Option Text)
    → max_chars < length key + length v
    → IsWithin max_chars m
    → (o ≢ none → o ≡ some v)
    → Dict.get m.fields key ≡ o
    → o ≡ none
not_kept max_chars m key v none long h same g = refl
not_kept max_chars m key v (some w) long h same g =
    absurd (omega (arith, long, h.0, total_chars-remove m.fields key v h.1.0 (g ∙ same (λ q. cc))))

-- Where every key of the hash stands in the list: an entry that alone is longer than the bound is reported as stored, and is
-- not in the memory afterwards.
pub execute-too_long :
    (max_chars : ℕ) (memory : WorkingMemory) (c : ℕ) (k v : Text)
    → IsOrdered memory
    → max_chars < length (c ∷ k) + length v
    → ((execute max_chars memory (some (c ∷ k)) (some v)).1 ≡ stored (c ∷ k))
      × (Dict.get (execute max_chars memory (some (c ∷ k)) (some v)).0.fields (c ∷ k) ≡ none)
unfolding execute evict_if_needed
execute-too_long max_chars memory c k v h long =
    let m = write memory (c ∷ k) v in
    let after = evict max_chars (total_chars m.fields) m.order m.fields in
    (
      refl,
      not_kept max_chars after (c ∷ k) v (Dict.get after.fields (c ∷ k)) long
          (evict-IsWithin max_chars (total_chars m.fields) m.order m.fields refl
            (write-IsOrdered memory (c ∷ k) v h))
          (kept (Dict.get after.fields (c ∷ k)) refl) refl,
    )
  where
    kept :
        (o : Option Text)
        → Dict.get
            (evict max_chars
              (total_chars (write memory (c ∷ k) v).fields)
              (write memory (c ∷ k) v).order
              (write memory (c ∷ k) v).fields).fields
            (c ∷ k)
          ≡ o
        → o ≢ none
        → o ≡ some v
    kept none e q = absurd (q refl)
    kept (some w) e q =
        sym (
          evict-get max_chars (total_chars (write memory (c ∷ k) v).fields)
            (write memory (c ∷ k) v).order (write memory (c ∷ k) v).fields (c ∷ k) w e)
        ∙ (unfold write in Dict.get-put_self memory.fields (c ∷ k) v)

fit_block-Fits :
    (max_chars : ℕ) (lines : List Text) (t : Text)
    → fit_block max_chars lines ≡ some t
    → length t ≤ max_chars
unfolding fit_block
fit_block-Fits max_chars [] t h = cc
fit_block-Fits max_chars (line ∷ lines) t h =
    elim (Bool-cases (ltb max_chars (length (block (line ∷ lines))))) [
      | inl long ↦ fit_block-Fits max_chars lines t (rw (fit_block, long) at h)
      | inr fits ↦
          let same : length (block (line ∷ lines)) ≡ length t =
            ap length (some_inj (rw (fit_block, fits) at h)) in
          ground (arith, same)
    ]

-- What the hook appends to the prompt is within its bound.
pub before_prompt_build-Fits :
    (max_chars : ℕ) (memory : WorkingMemory) (t : Text)
    → before_prompt_build max_chars memory ≡ some t
    → length t ≤ max_chars
unfolding before_prompt_build
before_prompt_build-Fits max_chars memory t h =
    fit_block-Fits max_chars (lines_of memory.fields (ordered_keys memory)) t h
