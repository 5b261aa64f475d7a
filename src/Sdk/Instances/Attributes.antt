-- ===== src/Sdk/Instances/Attributes.antt =====
-- Reading an attribute back, and what a relation's cache keeps of an entity that is gone.
use kuzu_event_bus.Prelude.{
  ℕ, true, false, ◌≡◌, ◌≢◌, refl, ap, ◌∙◌, subst, Option, none, some, [], arith, if◌then◌else◌,
  ◌==◌, nat_key, Bool-cases, Option-cases, inl, inr,
}
use kuzu_event_bus.Dict
use kuzu_event_bus.Dict.{Dict, get-put, get-put_same, get-put_other}
use kuzu_event_bus.Text.{Text, text_key, same_text_iff}
use kuzu_event_bus.Sdk.Instances.{
  Instance, Caches, cached, cache_of, set_cached, get_cached, is_private, has_relation, is_store,
  put_attribute, set_attribute, get_attribute, create, or_else,
}

module _ {V : Type 0} where
  cached-set_cached :
      (name : Text) (address : ℕ) (v : V) (caches : Caches V)
      → cached name address (set_cached name address v caches) ≡ some v
  unfolding set_cached
  cached-set_cached name address v caches =
      rw (get-put_same caches name (Dict.put (cache_of (Dict.get caches name)) address v))
        (get-put_same (cache_of (Dict.get caches name)) address v)

  cached-set_cached_other :
      (name j : Text) (address : ℕ) (v : V) (caches : Caches V)
      → name ≢ j
      → cached j address (set_cached name address v caches) ≡ cached j address caches
  unfolding set_cached
  cached-set_cached_other name j address v caches ne =
      rw (get-put_other caches name j (Dict.put (cache_of (Dict.get caches name)) address v) ne)
        refl

  cached-set_cached_if :
      (name j : Text) (address : ℕ) (v : V) (caches : Caches V)
      → cached j address (set_cached name address v caches)
        ≡ (if name == j then some v else cached j address caches)
  cached-set_cached_if name j address v caches = elim (Bool-cases (name == j)) [
    | inl same ↦
        let e : name ≡ j = (same_text_iff name j).0 same in
        rw same (
          subst (λ k. cached k address (set_cached name address v caches) ≡ some v) e
            (cached-set_cached name address v caches))
    | inr other ↦ rw other (
        cached-set_cached_other name j address v caches
          (λ e. cc (other, (same_text_iff name j).1 e)))
  ]

  abbrev seen : V → Option V → Option V
  seen empty none = some empty
  seen empty (some v) = some v

  -- What an attribute reads as, without the caches that this leaves.
  abbrev view : (Text → Option V) → V → Text → Instance V → Caches V → Option V
  view cls empty j e caches =
      if is_private j
      then or_else (Dict.get e.attributes j) (cls j)
      else if has_relation e.entity_class j
      then seen empty (cached j e.address caches)
      else or_else (Dict.get e.properties j) (cls j)

  get_cached-seen :
      (name : Text) (address : ℕ) (empty : V) (caches : Caches V)
      → some (get_cached name address empty caches).0 ≡ seen empty (cached name address caches)
  unfolding get_cached
  get_cached-seen name address empty caches = elim (Option-cases (cached name address caches)) [
    | inl e ↦ rw e refl
    | inr (v, e) ↦ rw e refl
  ]

  get_attribute-view :
      (cls : Text → Option V) (empty : V) (j : Text) (e : Instance V) (caches : Caches V)
      → (get_attribute cls empty j (e, caches)).0 ≡ view cls empty j e caches
  unfolding get_attribute
  get_attribute-view cls empty j e caches = elim (Bool-cases (is_private j)) [
    | inl p ↦ rw p refl
    | inr p ↦ elim (Bool-cases (has_relation e.entity_class j)) [
      | inl r ↦ rw (p, r) (get_cached-seen j e.address empty caches)
      | inr r ↦ rw (p, r) refl
    ]
  ]

  module _ (cls : Text → Option V) (empty : V) (name : Text) (v : V) (e : Instance V)
      (caches : Caches V) where
    view_set :
        (j : Text)
        → (get_attribute cls empty j (put_attribute name v (e, caches))).0
          ≡ (if name == j then some v else view cls empty j e caches)
    unfolding put_attribute
    view_set j = elim (Bool-cases (is_private name)) [
      | inl p ↦ rw p (
          get_attribute-view cls empty j _ caches
          ∙ ground (arith, get-put e.attributes name j v, same_text_iff name j))
      | inr p ↦ elim (Bool-cases (has_relation e.entity_class name)) [
        | inl r ↦ rw p (
            rw r (
              get_attribute-view cls empty j e _
              ∙ ground
                  (arith, cached-set_cached_if name j e.address v caches, same_text_iff name j)))
        | inr r ↦ rw p (
            rw r (
              get_attribute-view cls empty j _ caches
              ∙ ground (arith, get-put e.properties name j v, same_text_iff name j)))
      ]
    ]

module _ {V : Type 0} (cls : Text → Option V) (empty : V) where
  get_attribute-put_attribute :
      (name j : Text) (v : V) (s : Instance V × Caches V)
      → (get_attribute cls empty j (put_attribute name v s)).0
        ≡ (if name == j then some v else (get_attribute cls empty j s).0)
  get_attribute-put_attribute name j v (e, caches) =
      view_set cls empty name v e caches j ∙ rw (get_attribute-view cls empty j e caches) refl

  -- Setting an attribute, under a name that is none of `_properties`, `_relations`, `_cache` and those
  -- with two underscores in front, succeeds; be it a property, a relation or a private one, it is read
  -- back as it was set, and every other attribute with no such name reads as before.
  pub get_attribute-set_attribute :
      (name j : Text) (v : V) (s : Instance V × Caches V)
      → is_store name ≡ false
      → is_store j ≡ false
      → (s' : Instance V × Caches V) × (set_attribute name v s ≡ some s')
        × ((get_attribute cls empty j s').0
            ≡ (if name == j then some v else (get_attribute cls empty j s).0))
  unfolding set_attribute
  get_attribute-set_attribute name j v s own other =
      (put_attribute name v s, rw own refl, get_attribute-put_attribute name j v s)

  -- A relation's value outlives its entity: an entity that Python creates at the address of one that is
  -- gone, and that is given no relation, has the relations that were set for the one before it.
  pub create_stale :
      (nothing v : V) (name : Text) (e : Instance V) (caches : Caches V)
      → is_private name ≡ false
      → has_relation e.entity_class name ≡ true
      → (s' : Instance V × Caches V) × (create nothing e.entity_class e.address []
            (put_attribute name v (e, caches)).1
          ≡ some s')
        × ((get_attribute cls empty name s').0 ≡ some v)
  unfolding create put_attribute Dict.remove
  create_stale nothing v name e caches p r = (
    _,
    refl,
    rw p (
        rw r (
          get_attribute-view cls empty name _ _
          ∙ rw (p, r) (ap (seen empty) (cached-set_cached name e.address v caches)))),
  )
