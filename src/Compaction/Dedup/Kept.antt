-- ===== src/Compaction/Dedup/Kept.antt =====
-- The messages that are dropped repeat a kept one.
use pyclaw.Prelude.{
  ℕ, Text, ◌≡◌, refl, Bool, true, false, ◌||◌, ◌&&◌, not, Option, List, [], ◌∷◌, any, All, All-imp,
  select, if_elim, arith, text_eq, text_eq_iff, text_eq_refl, text_key, Option-cases, inl, inr,
}
use pyclaw.Prelude.Dict
use pyclaw.Prelude.Dict.{Dict}
use pyclaw.Compaction.Dedup.{
  Timed, LastSeen, is_duplicate, is_exempt, key_of, dedupe, dedupe_duplicate_user_messages,
}

has-put :
    (d : LastSeen) (k j : Text) (v : Option ℕ)
    → Dict.has (Dict.put d k v) j ≡ (text_eq k j || Dict.has d j)
unfolding Dict.has Dict.put
has-put [] k j v = ground arith
has-put ((i, w) ∷ d) k j v =
    ground (arith, has-put d k j v, text_eq_iff i k, text_eq_iff i j, text_eq_iff k j)

module _ (normalize : Text → Text) (window min_chars : ℕ) where
  abbrev exempt : Timed → Bool
  exempt m = is_exempt normalize min_chars m.message

  abbrev pub key : Timed → Text
  key m = key_of normalize m.message

  -- Whether a list has a message with the text that is not exempt.
  abbrev pub has_key : Text → List Timed → Bool
  has_key k ms =
      any
        (λ (m : Timed).
          not (is_exempt normalize min_chars m.message) && text_eq (key_of normalize m.message) k)
        ms

  -- A message that is not exempt has a text that was seen before or is among the kept ones.
  IsCovered : LastSeen → List Timed → Timed → Type 0
  IsCovered last_seen kept m =
      exempt m ≡ false → (Dict.has last_seen (key m) || has_key (key m) kept) ≡ true

  abbrev pub IsKept : List Timed → Timed → Type 0
  IsKept kept m = exempt m ≡ false → has_key (key m) kept ≡ true

  dedupe-IsCovered :
      (last_seen : LastSeen) (ms : List Timed)
      → All (IsCovered last_seen (dedupe normalize window min_chars last_seen ms)) ms
  unfolding dedupe IsCovered
  dedupe-IsCovered last_seen [] = tt
  dedupe-IsCovered last_seen (m ∷ ms) =
      let skipped = dedupe normalize window min_chars last_seen ms in
      let kept = dedupe normalize window min_chars (Dict.put last_seen (key m) m.timestamp) ms in
      if_elim (λ l. All (IsCovered last_seen l) (m ∷ ms)) (exempt m)
        (λ e. (
          λ n. absurd (ground (arith, e, n)),
          All-imp {Q = IsCovered last_seen (m ∷ skipped)}
              (λ (x : Timed) (c : IsCovered last_seen skipped x) n.
                let h = c n in ground (arith, h))
              ms (dedupe-IsCovered last_seen ms),
        ))
        (λ counts.
          if_elim (λ l. All (IsCovered last_seen l) (m ∷ ms))
            (is_duplicate window last_seen (key m) m.timestamp)
            (λ d. (
              λ _. let there = seen (key m) m.timestamp last_seen d in ground (arith, there),
              dedupe-IsCovered last_seen ms,
            ))
            (λ _. (
              λ n. let r = text_eq_refl (key m) in ground (arith, r, counts),
              All-imp {Q = IsCovered last_seen (m ∷ kept)}
                  (λ (x : Timed) (c : IsCovered (Dict.put last_seen (key m) m.timestamp) kept x) n.
                    let h = c n in
                    let p = has-put last_seen (key m) (key x) m.timestamp in
                    ground (arith, h, p, counts))
                  ms (dedupe-IsCovered (Dict.put last_seen (key m) m.timestamp) ms),
            )))
    where
      seen :
          (k : Text) (ts : Option ℕ) (d : LastSeen)
          → is_duplicate window d k ts ≡ true
          → Dict.has d k ≡ true
      seen k ts d h = elim (Option-cases (Dict.get d k)) [
        | inl missing ↦ absurd (unfold is_duplicate in ground (arith, missing, h))
        | inr (t, found) ↦ Dict.get-has d k found
      ]

  dedupe-exempt :
      (last_seen : LastSeen) (ms : List Timed)
      → select exempt (dedupe normalize window min_chars last_seen ms) ≡ select exempt ms
  unfolding dedupe
  dedupe-exempt last_seen [] = refl
  dedupe-exempt last_seen (m ∷ ms) =
      let skip = dedupe-exempt last_seen ms in
      let keep = dedupe-exempt (Dict.put last_seen (key m) m.timestamp) ms in
      ground (arith, skip, keep)

  -- The messages that are exempt, those of other roles and those that are short or have no text, are all kept, in
  -- their order; and each other message has the normalised text of a kept one.
  pub dedupe_duplicate_user_messages-IsCovered :
      (ms : List Timed)
      → (select exempt (dedupe_duplicate_user_messages normalize window min_chars ms)
          ≡ select exempt ms)
        × All (IsKept (dedupe_duplicate_user_messages normalize window min_chars ms)) ms
  unfolding dedupe_duplicate_user_messages
  dedupe_duplicate_user_messages-IsCovered ms = (
    dedupe-exempt [] ms,
    All-imp {Q = IsKept (dedupe normalize window min_chars [] ms)}
        (λ (x : Timed) (c : IsCovered [] (dedupe normalize window min_chars [] ms) x) n.
          unfold IsCovered in unfold Dict.has in c n)
        ms (dedupe-IsCovered [] ms),
  )
