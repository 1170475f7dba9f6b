-- ===== src/Storage/Redis/Memory.antt =====
-- A server that keeps its keys in a `dict` and lets none expire: the laws hold of it.
use pyclaw.Prelude.{
  Text, ◌≡◌, ◌≢◌, ◌∷◌, Bool-cases, inl, inr, refl, Bool, true, false, none, if◌then◌else◌,
  text_eq_refl, text_eq-eq-false, text_key, arith, [],
}
use pyclaw.Prelude.Dict
use pyclaw.Prelude.Dict.{Dict}
use pyclaw.Storage.Redis.{Commands, IsRedis}

abbrev pub set_if_new : Dict Text Text → Text → Text → Dict Text Text × Bool
set_if_new d k v = if Dict.has d k then (d, false) else (Dict.put d k v, true)

abbrev pub memory : Commands (Dict Text Text)
memory = record {
  get = λ d k. Dict.get d k;
  set = λ d k v ttl. Dict.put d k v;
  set_nx = λ d k v ttl. set_if_new d k v;
  expire = λ d k ttl. (d, Dict.has d k);
  del = λ d k. (Dict.remove d k, Dict.has d k);
}

get_none-has : (d : Dict Text Text) (k : Text) → Dict.get d k ≡ none → Dict.has d k ≡ false
unfolding Dict.get Dict.has
get_none-has [] k h = refl
get_none-has ((j, v) ∷ d) k h = ground (arith, get_none-has d k)

get-set_if_new :
    (d : Dict Text Text) (k j v : Text) → k ≢ j → Dict.get (set_if_new d k v).0 j ≡ Dict.get d j
get-set_if_new d k j v h = elim (Bool-cases (Dict.has d k)) [
  | inl t ↦ rw t refl
  | inr f ↦ rw f (Dict.get-put_ne d k j v h)
]

pub memory-IsRedis : IsRedis memory
memory-IsRedis = record {
  get-set = λ d k v ttl. Dict.get-put_self d k v;
  get-set_ne = λ d k j v ttl h. Dict.get-put_ne d k j v h;
  set_nx-absent = λ d k v ttl h. rw (get_none-has d k h) (Dict.get-put_self d k v, refl);
  set_nx-present = λ d k v ttl {w} h. rw (Dict.get-has d k h) (h, refl);
  get-set_nx_ne = λ d k j v ttl h. get-set_if_new d k j v h;
  get-expire = λ d k j ttl. refl;
  get-del = λ d k. rw (Dict.get-remove d k k, text_eq_refl k) refl;
  get-del_ne = λ d k j h. rw (Dict.get-remove d k j, text_eq-eq-false k j h) refl;
  del-present = λ d k {w} h. Dict.get-has d k h;
}
