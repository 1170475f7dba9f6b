-- ===== src/Runner/Gate/Denials.antt =====
-- What the gate does with `denied_ids`: entries are only added, and each call that is denied without
-- a question has one.
use mathlib.Core.Path.{subst}
use pyclaw.Prelude.{
  ℕ, suc, Text, ◌≡◌, refl, ◌≢◌, Bool, true, false, Option, some, List, [], ◌∷◌, arith, All,
  text_key, text_eq_iff, get_elem?, zero,
}
use pyclaw.Prelude.Dict
use pyclaw.Prelude.Dict.{Dict}
use pyclaw.Tools.Registry.{Registry}
use pyclaw.Runner.Gate.{
  Decision, deny, approve, wait, Evaluated, ApprovalHook, Verdict, auto_approve, auto_deny, gate,
  Parts, verdict, record_verdict, partition, deny_without_hook, apply_decisions,
}

abbrev pub IsDenied : Dict Text Text → Text → Type 0
IsDenied denied id = Dict.has denied id ≡ true

has-put_self : (d : Dict Text Text) (k : Text) (v : Text) → IsDenied (Dict.put d k v) k
has-put_self d k v = Dict.get-has (Dict.put d k v) k (Dict.get-put_self d k v)

has-put : (d : Dict Text Text) (k j : Text) (v : Text) → IsDenied d j → IsDenied (Dict.put d k v) j
unfolding Dict.has Dict.put
has-put [] k j v h = cc
has-put ((i, w) ∷ d) k j v h =
    ground (arith, text_eq_iff i k, text_eq_iff i j, text_eq_iff k j, has-put d k j v)

abbrev pub is_auto_deny : Verdict → Bool
is_auto_deny (auto_deny _ _) = true
is_auto_deny _ = false

record_verdict-IsDenied :
    (e : Evaluated) (v : Verdict) (parts : Parts) (id : Text)
    → IsDenied parts.denied id
    → IsDenied (record_verdict e v parts).denied id
unfolding record_verdict
record_verdict-IsDenied e (auto_approve by) parts id h = h
record_verdict-IsDenied e (auto_deny m by) parts id h = has-put parts.denied e.call.id id m h
record_verdict-IsDenied e gate parts id h = h

record_verdict-denies :
    (e : Evaluated) (v : Verdict) (parts : Parts)
    → is_auto_deny v ≡ true
    → IsDenied (record_verdict e v parts).denied e.call.id
unfolding record_verdict
record_verdict-denies e (auto_approve by) parts h = cc
record_verdict-denies e (auto_deny m by) parts h = has-put_self parts.denied e.call.id m
record_verdict-denies e gate parts h = cc

module _ (tools : Registry) (hook : Option ApprovalHook) where
  pub partition-IsDenied :
      (es : List Evaluated) (parts : Parts) (id : Text)
      → IsDenied parts.denied id
      → IsDenied (partition tools hook es parts).denied id
  unfolding partition
  partition-IsDenied [] parts id h = h
  partition-IsDenied (e ∷ es) parts id h =
      partition-IsDenied es (record_verdict e (verdict tools hook e) parts) id
        (record_verdict-IsDenied e (verdict tools hook e) parts id h)

  pub partition-denies :
      (es : List Evaluated) (parts : Parts)
      → All
          (λ e.
            is_auto_deny (verdict tools hook e) ≡ true
            → IsDenied (partition tools hook es parts).denied e.call.id)
          es
  unfolding partition
  partition-denies [] parts = tt
  partition-denies (e ∷ es) parts = (
    λ h.
        partition-IsDenied es (record_verdict e (verdict tools hook e) parts) e.call.id
          (record_verdict-denies e (verdict tools hook e) parts h),
    partition-denies es (record_verdict e (verdict tools hook e) parts),
  )

pub deny_without_hook-IsDenied :
    (es : List Evaluated) (parts : Parts) (id : Text)
    → IsDenied parts.denied id
    → IsDenied (deny_without_hook es parts).denied id
unfolding deny_without_hook
deny_without_hook-IsDenied [] parts id h = h
deny_without_hook-IsDenied (e ∷ es) parts id h =
    deny_without_hook-IsDenied es _ id (has-put parts.denied e.call.id id _ h)

pub deny_without_hook-denies :
    (es : List Evaluated) (parts : Parts)
    → All (λ e. IsDenied (deny_without_hook es parts).denied e.call.id) es
unfolding deny_without_hook
deny_without_hook-denies [] parts = tt
deny_without_hook-denies (e ∷ es) parts = (
  deny_without_hook-IsDenied es _ e.call.id (has-put_self parts.denied e.call.id _),
  deny_without_hook-denies es _,
)

pub apply_decisions-IsDenied :
    (ds : List Decision) (es : List Evaluated) (d : Dict Text Text) (id : Text)
    {d' : Dict Text Text}
    → apply_decisions ds es d ≡ some d'
    → IsDenied d id
    → IsDenied d' id
unfolding apply_decisions
apply_decisions-IsDenied [] es d id e h = ground arith
apply_decisions-IsDenied (x ∷ ds) [] d id e h = cc
apply_decisions-IsDenied (deny ∷ ds) (g ∷ es) d id e h =
    apply_decisions-IsDenied ds es _ id e (has-put d g.call.id id _ h)
apply_decisions-IsDenied (approve ∷ ds) (g ∷ es) d id e h = apply_decisions-IsDenied ds es d id e h
apply_decisions-IsDenied (wait ∷ ds) (g ∷ es) d id e h = apply_decisions-IsDenied ds es d id e h

-- A decision to deny denies the call at its position.
pub apply_decisions-denies :
    (ds : List Decision) (es : List Evaluated) (d : Dict Text Text) (i : ℕ) {d' : Dict Text Text}
    {g : Evaluated}
    → apply_decisions ds es d ≡ some d'
    → get_elem? es i ≡ some g
    → get_elem? ds i ≡ some deny
    → IsDenied d' g.call.id
unfolding apply_decisions
apply_decisions-denies [] es d i e p q = cc
apply_decisions-denies (x ∷ ds) [] d i e p q = cc
apply_decisions-denies (deny ∷ ds) (x ∷ es) d zero {d'} {g} e p q =
    subst (λ (y : Evaluated). IsDenied d' y.call.id) same
      (apply_decisions-IsDenied ds es _ x.call.id e (has-put_self d x.call.id _))
  where
    same : x ≡ g
    same = cc
apply_decisions-denies (approve ∷ ds) (x ∷ es) d zero e p q = cc
apply_decisions-denies (wait ∷ ds) (x ∷ es) d zero e p q = cc
apply_decisions-denies (deny ∷ ds) (x ∷ es) d (suc i) e p q = apply_decisions-denies ds es _ i e p q
apply_decisions-denies (approve ∷ ds) (x ∷ es) d (suc i) e p q =
    apply_decisions-denies ds es d i e p q
apply_decisions-denies (wait ∷ ds) (x ∷ es) d (suc i) e p q = apply_decisions-denies ds es d i e p q

-- Decisions none of which is `deny` leave `denied_ids` alone.
pub apply_decisions-no_denial :
    (ds : List Decision) (es : List Evaluated) (d : Dict Text Text) {d' : Dict Text Text}
    → All (λ x. x ≢ deny) ds
    → apply_decisions ds es d ≡ some d'
    → d' ≡ d
unfolding apply_decisions
apply_decisions-no_denial [] es d h e = cc
apply_decisions-no_denial (x ∷ ds) [] d h e = cc
apply_decisions-no_denial (deny ∷ ds) (g ∷ es) d h e = absurd (h.0 refl)
apply_decisions-no_denial (approve ∷ ds) (g ∷ es) d h e = apply_decisions-no_denial ds es d h.1 e
apply_decisions-no_denial (wait ∷ ds) (g ∷ es) d h e = apply_decisions-no_denial ds es d h.1 e
