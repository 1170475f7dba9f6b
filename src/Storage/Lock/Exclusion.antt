-- ===== src/Storage/Lock/Exclusion.antt =====
-- A lock has one holder at a time, steps long steps it does not expire.
use mathlib.Core.Path.{subst}
use pyclaw.Prelude.{
  some_inj, ℕ, Text, ◌≡◌, ◌≢◌, refl, sym, ap, ◌∙◌, Bool, true, Option, none, some, List, [], ◌∷◌,
  Result, ok, err, All, arith, if_elim, text_eq, text_eq_iff, text_eq_refl, Bool-cases,
  Option-cases, inl, inr,
}
use pyclaw.Storage.Redis.{Commands, IsRedis}
use pyclaw.Storage.Lock.{not_acquired, LockError, full_key, owns, acquire, release, renew}

-- What a worker does with a lock.
pub data Action : Type 0 where
  acquires releases : (key token : Text) → Action
  renews : (key token : Text) (ttl_ms : ℕ) → Action

abbrev pub token_of : Action → Text
token_of (acquires key token) = token
token_of (releases key token) = token
token_of (renews key token ttl) = token

full_key_inj : (prefix j k : Text) → full_key prefix j ≡ full_key prefix k → j ≡ k
unfolding full_key
full_key_inj [] j k h = h
full_key_inj (c ∷ p) j k h = full_key_inj p j k (ap tail h)
  where
    tail : Text → Text
    tail [] = []
    tail (c ∷ s) = s

module _ {S : Type 0} (redis : Commands S) (laws : IsRedis redis) (prefix : Text) where
  abbrev pub act : S → Action → S
  act s (acquires key token) = (acquire redis prefix s key token 30000).0
  act s (releases key token) = (release redis prefix s key token).0
  act s (renews key token ttl) = (renew redis prefix s key token ttl).0

  abbrev pub acts : S → List Action → S
  acts s [] = s
  acts s (a ∷ steps) = acts (act s a) steps

  owner-kept :
      (s : S) (k token : Text) (value : Option Text)
      → (owns value token ≡ true)
      → value ≡ some token
  unfolding owns
  owner-kept s k token none h = cc
  owner-kept s k token (some v) h = ap some ((text_eq_iff v token).0 h)

  -- An action with another token leaves the holder of a lock in place.
  act-held :
      (s : S) (a : Action) (key token : Text)
      → redis.get s (full_key prefix key) ≡ some token
      → token_of a ≢ token
      → redis.get (act s a) (full_key prefix key) ≡ some token
  unfolding acquire release renew
  act-held s (acquires j t) key token held other =
      elim (Bool-cases (text_eq (full_key prefix j) (full_key prefix key))) [
        | inl same ↦
            let q = (text_eq_iff (full_key prefix j) (full_key prefix key)).0 same in
            subst (λ i. redis.get (redis.set_nx s i t 30000).0 (full_key prefix key) ≡ some token)
              (sym q) (laws.set_nx-present s (full_key prefix key) t 30000 held).0
        | inr differs ↦
            laws.get-set_nx_ne s (full_key prefix j) (full_key prefix key) t 30000 (λ q.
              ground (arith, differs, (text_eq_iff (full_key prefix j) (full_key prefix key)).1 q))
            ∙ held
      ]
  act-held s (releases j t) key token held other =
      if_elim (λ (p : S × Bool). redis.get p.0 (full_key prefix key) ≡ some token)
        (owns (redis.get s (full_key prefix j)) t)
        (λ mine.
          laws.get-del_ne s (full_key prefix j) (full_key prefix key)
            (λ q. other (some_inj (sym (owner-kept s j t _ mine) ∙ ap (redis.get s) q ∙ held)))
          ∙ held)
        (λ _. held)
  act-held s (renews j t ttl) key token held other =
      if_elim (λ (p : S × Bool). redis.get p.0 (full_key prefix key) ≡ some token)
        (owns (redis.get s (full_key prefix j)) t)
        (λ _. laws.get-expire s (full_key prefix j) (full_key prefix key) ttl ∙ held) (λ _. held)

  acts-held :
      (s : S) (steps : List Action) (key token : Text)
      → redis.get s (full_key prefix key) ≡ some token
      → All (λ a. token_of a ≢ token) steps
      → redis.get (acts s steps) (full_key prefix key) ≡ some token
  acts-held s [] key token held others = held
  acts-held s (a ∷ steps) key token held others =
      acts-held (act s a) steps key token (act-held s a key token held others.0) others.1

  -- Once a lock is acquired with a token, and whatever acquiring, releasing and renewing other workers do with
  -- other tokens, the lock cannot be acquired with any token, and its holder can release it; after that it is
  -- free. No key expires meanwhile.
  pub acquire-excludes :
      (s : S) (key token : Text) (ttl : ℕ) (others : List Action) {after : S}
      → acquire redis prefix s key token ttl ≡ (after, ok token)
      → All (λ a. token_of a ≢ token) others
      → ((t : Text)
          → (acquire redis prefix (acts after others) key t ttl).1
            ≡ err (not_acquired (full_key prefix key)))
        × ((release redis prefix (acts after others) key token).1 ≡ true)
        × (redis.get (release redis prefix (acts after others) key token).0 (full_key prefix key)
            ≡ none)
  unfolding acquire release
  acquire-excludes s key token ttl others {after} h o =
      let i = full_key prefix key in
      let free : redis.get s i ≡ none = elim (Option-cases (redis.get s i)) [
        | inl q ↦ q
        | inr (w, q) ↦
            let refused = (laws.set_nx-present s i token ttl q).1 in
            absurd (ground (arith, refused, ap (λ (p : S × Result LockError Text). p.1) h))
      ] in
      let first : redis.get after i ≡ some token =
        subst (λ x. redis.get x i ≡ some token) (ap (λ (p : S × Result LockError Text). p.0) h)
          (laws.set_nx-absent s i token ttl free).0 in
      let held = acts-held after others key token first o in
      let mine : owns (redis.get (acts after others) i) token ≡ true =
        rw held (unfold owns in text_eq_refl token) in
      (
        λ t. rw (laws.set_nx-present (acts after others) i t ttl held).1 refl,
        rw mine (laws.del-present (acts after others) i held),
        rw mine (laws.get-del (acts after others) i),
      )
