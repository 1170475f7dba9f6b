-- ===== src/Memory/Evicts.antt =====
-- The eviction of the oldest entries.
use pyclaw.Prelude.{
  ℕ, ◌+◌, ◌-◌, ◌≤◌, Text, true, false, ◌&&◌, not, Option, none, some, some_inj, List, [], ◌∷◌, ◌≡◌,
  ◌↔◌, refl, sym, ap, ◌∙◌, any, length, ltb, text_eq, text_eq_iff, text_eq_refl, text_key,
  Bool-cases, inl, inr, arith,
}
use pyclaw.Prelude.Dict
use pyclaw.Prelude.Dict.{Dict}
use pyclaw.Memory.{WorkingMemory, total_chars, evict}

has-remove :
    (d : Dict Text Text) (k j : Text)
    → Dict.has (Dict.remove d k) j ≡ not (text_eq k j) && Dict.has d j
unfolding Dict.has Dict.remove
has-remove [] k j = ground arith
has-remove ((i, w) ∷ d) k j =
    ground (arith, text_eq_iff i k, text_eq_iff i j, text_eq_iff k j, has-remove d k j)

remove-IsDistinct :
    (d : Dict Text Text) (k : Text) → Dict.IsDistinct d → Dict.IsDistinct (Dict.remove d k)
unfolding Dict.remove
remove-IsDistinct [] k h = tt
remove-IsDistinct ((i, w) ∷ d) k (new, h) = elim (Bool-cases (text_eq i k)) [
  | inl t ↦ rw t (remove-IsDistinct d k h)
  | inr f ↦ rw f (ground (arith, has-remove d k i, new), remove-IsDistinct d k h)
]

remove-absent : (d : Dict Text Text) (k : Text) → Dict.has d k ≡ false → Dict.remove d k ≡ d
unfolding Dict.has Dict.remove
remove-absent [] k h = refl
remove-absent ((i, w) ∷ d) k h = ground (arith, remove-absent d k)

pub total_chars-remove :
    (d : Dict Text Text) (k v : Text)
    → Dict.IsDistinct d
    → Dict.get d k ≡ some v
    → total_chars d ≡ length k + length v + total_chars (Dict.remove d k)
unfolding total_chars Dict.get Dict.remove
total_chars-remove [] k v h g = cc
total_chars-remove ((i, w) ∷ d) k v (new, h) g = elim (Bool-cases (text_eq i k)) [
  | inl t ↦
      let same : i ≡ k = (text_eq_iff i k).0 t in
      let value : w ≡ v = some_inj (rw t at g) in
      rw (t, remove-absent d k (ap (Dict.has d) (sym same) ∙ new), same, value) refl
  | inr f ↦ rw f (omega (arith, total_chars-remove d k v h (rw f at g)))
]

-- Every key of the hash stands once, and stands in the list.
abbrev pub IsOrdered : WorkingMemory → Type 0
IsOrdered m =
    Dict.IsDistinct m.fields
    × ((k : Text) → Dict.has m.fields k ≡ true → any (text_eq k) m.order ≡ true)

abbrev pub IsWithin : ℕ → WorkingMemory → Type 0
IsWithin max_chars m = (total_chars m.fields ≤ max_chars) × IsOrdered m

popped-absent :
    (oldest : Text) (order : List Text) (fields : Dict Text Text)
    → IsOrdered (record { fields = fields; order = oldest ∷ order })
    → Dict.get fields oldest ≡ none
    → IsOrdered (record { fields = fields; order = order })
popped-absent oldest order fields h g =
    (h.0, λ k has. other k has (text_eq_iff k oldest) (Dict.has-get-some fields k has))
  where
    other :
        (k : Text) (has : Dict.has fields k ≡ true)
        → (text_eq k oldest ≡ true) ↔ (k ≡ oldest)
        → (v : Text) × (Dict.get fields k ≡ some v)
        → any (text_eq k) order ≡ true
    other k has same (v, found) = elim (Bool-cases (text_eq k oldest)) [
      | inl t ↦ cc (g, found, same.0 t)
      | inr f ↦ ground (arith, h.1 k has, f)
    ]

popped-removed :
    (oldest : Text) (order : List Text) (fields : Dict Text Text)
    → IsOrdered (record { fields = fields; order = oldest ∷ order })
    → IsOrdered (record { fields = Dict.remove fields oldest; order = order })
popped-removed oldest order fields h = (
  remove-IsDistinct fields oldest h.0,
  λ k has.
      ground
        (arith, has, has-remove fields oldest k, h.1 k, text_eq_iff k oldest, text_eq_iff oldest k),
)

-- What holds whether the oldest key is a field or not.
popped :
    {A : Type 0} (P : A → Type 0) (o : Option Text) (a : A) (b : Text → A)
    → (o ≡ none → P a)
    → ((v : Text) → o ≡ some v → P (b v))
    → P (elim o [ none ↦ a | some v ↦ b v ])
popped P none a b f g = f refl
popped P (some v) a b f g = g v refl

pub evict-IsWithin :
    (max_chars total : ℕ) (order : List Text) (fields : Dict Text Text)
    → total ≡ total_chars fields
    → IsOrdered (record { fields = fields; order = order })
    → IsWithin max_chars (evict max_chars total order fields)
unfolding evict
evict-IsWithin max_chars total [] [] e h = ((unfold total_chars in omega arith), h)
evict-IsWithin max_chars total [] ((k, v) ∷ fields) e h =
    absurd (ground (arith, h.1 k (unfold Dict.has in rw (text_eq_refl k) refl)))
evict-IsWithin max_chars total (oldest ∷ order) fields e h =
    elim (Bool-cases (ltb max_chars total)) [
      | inr f ↦ rw (evict, f) (ground arith, h)
      | inl t ↦
          rw (evict, t)
            (popped (IsWithin max_chars) (Dict.get fields oldest)
              (evict max_chars total order fields)
              (λ v.
                evict max_chars (total - (length oldest + length v)) order
                  (Dict.remove fields oldest))
              (λ g.
                evict-IsWithin max_chars total order fields e
                  (popped-absent oldest order fields h g))
              (λ v g.
                evict-IsWithin max_chars (total - (length oldest + length v)) order
                  (Dict.remove fields oldest)
                  (omega (arith, e, total_chars-remove fields oldest v h.0 g))
                  (popped-removed oldest order fields h)))
    ]

get-remove-some :
    (d : Dict Text Text) (k j v : Text)
    → Dict.get (Dict.remove d k) j ≡ some v
    → Dict.get d j ≡ some v
get-remove-some d k j v h = elim (Bool-cases (text_eq k j)) [
  | inl t ↦ cc (h, (let g = Dict.get-remove d k j in rw t at g))
  | inr f ↦ sym (let g = Dict.get-remove d k j in rw f at g) ∙ h
]

-- What is left after an eviction was there before.
pub evict-get :
    (max_chars total : ℕ) (order : List Text) (fields : Dict Text Text) (k v : Text)
    → Dict.get (evict max_chars total order fields).fields k ≡ some v
    → Dict.get fields k ≡ some v
unfolding evict
evict-get max_chars total [] fields k v h = h
evict-get max_chars total (oldest ∷ order) fields k v h = elim (Bool-cases (ltb max_chars total)) [
  | inr f ↦ rw (evict, f) at h
  | inl t ↦
      popped (λ (m : WorkingMemory). Dict.get m.fields k ≡ some v → Dict.get fields k ≡ some v)
        (Dict.get fields oldest) (evict max_chars total order fields)
        (λ w.
          evict max_chars (total - (length oldest + length w)) order (Dict.remove fields oldest))
        (λ g. evict-get max_chars total order fields k v)
        (λ w g h. get-remove-some fields oldest k v (
          evict-get max_chars (total - (length oldest + length w)) order (Dict.remove fields oldest)
            k v h))
        (rw (evict, t) at h)
]
