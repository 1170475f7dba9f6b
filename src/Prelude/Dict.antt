-- ===== src/Prelude/Dict.antt =====
-- Python's `dict` as an association list in insertion order: a write of a key that is there stays
-- in its place, a new key goes to the end.
use mathlib.Core.Path.{◌≡◌, refl}
use mathlib.Core.Logic.{◌≢◌, inl, inr}
use mathlib.Core.Bool.{Bool, true, false, ◌||◌}
use mathlib.Core.Option.{Option, none, some}
use mathlib.Core.List.{List, [], ◌∷◌, ◌++◌, map}
use native.Mathlib.Omega.{arith}
use pyclaw.Prelude.Tests.{if◌then◌else◌, Bool-cases}
use pyclaw.Prelude.Texts.{Key}

abbrev pub Dict {ℓ} : Type 0 → Type ℓ → Type ℓ
Dict K V = List (K × V)

abbrev pub keys {ℓ} : {K : Type 0} {V : Type ℓ} → Dict K V → List K
keys d = map (λ e. e.0) d

abbrev pub values {ℓ} : {K : Type 0} {V : Type ℓ} → Dict K V → List V
values d = map (λ e. e.1) d

module _ {ℓ} {K : Type 0} {V : Type ℓ} ⦃e : Key K⦄ where
  -- d.get(k)
  unfoldable pub get : Dict K V → K → Option V
  get [] k = none
  get ((j, v) ∷ d) k = if e.beq j k then some v else get d k

  -- k in d
  unfoldable pub has : Dict K V → K → Bool
  has [] k = false
  has ((j, v) ∷ d) k = if e.beq j k then true else has d k

  -- d[k] = v
  unfoldable pub put : Dict K V → K → V → Dict K V
  put [] k v = (k, v) ∷ []
  put ((j, w) ∷ d) k v = if e.beq j k then (j, v) ∷ d else (j, w) ∷ put d k v

  -- d.pop(k, None), del d[k]; all entries with the key, of which a `dict` has one at most
  unfoldable pub remove : Dict K V → K → Dict K V
  remove [] k = []
  remove ((j, w) ∷ d) k = let rest = remove d k in if e.beq j k then rest else (j, w) ∷ rest

  pub get-put :
      (d : Dict K V) (k j : K) (v : V) → get (put d k v) j ≡ (if e.beq k j then some v else get d j)
  unfolding get put
  get-put [] k j v = refl
  get-put ((i, w) ∷ d) k j v =
      ground (arith, e.beq_iff i k, e.beq_iff i j, e.beq_iff k j, get-put d k j v)

  pub get-remove :
      (d : Dict K V) (k j : K) → get (remove d k) j ≡ (if e.beq k j then none else get d j)
  unfolding get remove
  get-remove [] k j = ground arith
  get-remove ((i, w) ∷ d) k j =
      ground (arith, e.beq_iff i k, e.beq_iff i j, e.beq_iff k j, get-remove d k j)

  pub get-put_self : (d : Dict K V) (k : K) (v : V) → get (put d k v) k ≡ some v
  get-put_self d k v = rw (get-put d k k v, (e.beq_iff k k).1 refl)

  pub get-put_ne : (d : Dict K V) (k j : K) (v : V) → k ≢ j → get (put d k v) j ≡ get d j
  get-put_ne d k j v h = rw (get-put d k j v) (ground (arith, e.beq_iff k j))

  pub has-get : (d : Dict K V) (k : K) → has d k ≡ false → get d k ≡ none
  unfolding has get
  has-get [] k h = refl
  has-get ((j, v) ∷ d) k h = ground (arith, has-get d k)

  pub has-get-some : (d : Dict K V) (k : K) → has d k ≡ true → (v : V) × (get d k ≡ some v)
  unfolding has get
  has-get-some [] k h = cc
  has-get-some ((j, v) ∷ d) k h = elim (Bool-cases (e.beq j k)) [
    | inl p ↦ (v, rw p)
    | inr p ↦ let (w, q) = has-get-some d k (rw p at h) in (w, rw (p, q))
  ]

  pub get-has : (d : Dict K V) (k : K) {v : V} → get d k ≡ some v → has d k ≡ true
  unfolding has get
  get-has [] k h = cc
  get-has ((j, w) ∷ d) k {v} h = ground (arith, get-has d k {v = v})

  -- A new key goes to the end.
  pub put-eq-append :
      (d : Dict K V) (k : K) (v : V) → has d k ≡ false → put d k v ≡ d ++ (k, v) ∷ []
  unfolding has put
  put-eq-append [] k v h = refl
  put-eq-append ((j, w) ∷ d) k v h = ground (arith, put-eq-append d k v)

  -- No key stands twice, as in every `dict`.
  abbrev pub IsDistinct : Dict K V → Type 0
  IsDistinct [] = Unit
  IsDistinct ((k, v) ∷ d) = (has d k ≡ false) × IsDistinct d

  pub has-put : (d : Dict K V) (k j : K) (v : V) → has (put d k v) j ≡ e.beq k j || has d j
  unfolding has put
  has-put [] k j v = ground arith
  has-put ((i, w) ∷ d) k j v = ground (arith, e.beq_iff i k, has-put d k j v)

  pub put-IsDistinct : (d : Dict K V) (k : K) (v : V) → IsDistinct d → IsDistinct (put d k v)
  unfolding put has
  put-IsDistinct [] k v h = (refl, tt)
  put-IsDistinct ((i, w) ∷ d) k v (new, h) = elim (Bool-cases (e.beq i k)) [
    | inl t ↦ rw t (new, h)
    | inr f ↦
        rw f (ground (arith, has-put d k i v, e.beq_iff i k, e.beq_iff k i), put-IsDistinct d k v h)
  ]
