-- ===== src/Processor/Render/Observed.antt =====
-- The composed resources that are new, and the merge of those that were observed.
use crossplane_diff.Prelude.{
  ◌≡◌, refl, ◌∙◌, Bool, true, false, not, ◌||◌, List, [], ◌∷◌, map, arith, any, keep,
}
use crossplane_diff.Text.{Text, text_eq, text_eq_self}
use crossplane_diff.GoMap.{GoMap, has_key, insert, Entries, Entries-insert, has_key-insert}
use crossplane_diff.Objects.{Fields}
use crossplane_diff.Objects.Api.{Api}
use crossplane_diff.Processor.Render.{
  values, composed_resource_key, observed_keys, not_in, find_new_composed_resources, insert_all,
  merge_observed_resources,
}

module _ (api : Api) where
  -- Is the resource one with the key?
  unfoldable pub is_at : Text → Fields → Bool
  is_at k o = text_eq (composed_resource_key api o) k

  -- Is a resource with the key among those observed?
  unfoldable pub is_observed : List Fields → Text → Bool
  unfolding is_at
  is_observed observed k = any (is_at k) observed

  has_key-observed_keys :
      (k : Text) (os : List Fields) (m : GoMap Bool)
      → has_key k (observed_keys api os m) ≡ (is_observed os k || has_key k m)
  unfolding observed_keys is_observed is_at
  has_key-observed_keys k [] m = refl
  has_key-observed_keys k (o ∷ os) m = ground (
    arith,
    has_key-observed_keys k os (insert (composed_resource_key api o) true m),
    has_key-insert (composed_resource_key api o) k true m,
  )

  not_in-keep :
      (observed rendered : List Fields)
      → not_in api (observed_keys api observed []) rendered
        ≡ keep (λ r. not (is_observed observed (composed_resource_key api r))) rendered
  unfolding not_in has_key
  not_in-keep observed [] = refl
  not_in-keep observed (r ∷ rs) =
      let same = has_key-observed_keys (composed_resource_key api r) observed [] in
      ground (arith, not_in-keep observed rs, same)

  -- The new resources are exactly those rendered whose key no observed resource has, in order.
  pub find_new-keep :
      (rendered observed : List Fields)
      → find_new_composed_resources api rendered observed
        ≡ keep (λ r. not (is_observed observed (composed_resource_key api r))) rendered
  unfolding find_new_composed_resources
  find_new-keep rendered observed = not_in-keep observed rendered

  abbrev AtKey : GoMap Fields → Type 0
  AtKey m = Entries (λ k v. composed_resource_key api v ≡ k) m

  insert_all-AtKey : (os : List Fields) (m : GoMap Fields) → AtKey m → AtKey (insert_all api os m)
  unfolding insert_all
  insert_all-AtKey [] m h = h
  insert_all-AtKey (o ∷ os) m h = insert_all-AtKey os (insert (composed_resource_key api o) o m) (
      Entries-insert (λ k v. composed_resource_key api v ≡ k) (composed_resource_key api o) o m refl
        h)

  has_key-insert_all :
      (k : Text) (os : List Fields) (m : GoMap Fields)
      → has_key k (insert_all api os m) ≡ (is_observed os k || has_key k m)
  unfolding insert_all is_observed is_at
  has_key-insert_all k [] m = refl
  has_key-insert_all k (o ∷ os) m = ground (
    arith,
    has_key-insert_all k os (insert (composed_resource_key api o) o m),
    has_key-insert (composed_resource_key api o) k o m,
  )

  observed-values : (k : Text) (m : GoMap Fields) → AtKey m → is_observed (values m) k ≡ has_key k m
  unfolding values is_observed is_at has_key
  observed-values k [] h = refl
  observed-values k ((j, v) ∷ m) h =
      let rest = observed-values k m h.1 in rw h.0 (ground (arith, rest))

  -- After a merge the keys of both lists are observed, and no other.
  pub merge-observed :
      (existing new_resources : List Fields) (k : Text)
      → is_observed (merge_observed_resources api existing new_resources) k
        ≡ (is_observed new_resources k || is_observed existing k)
  unfolding merge_observed_resources
  merge-observed existing new_resources k =
      observed-values k (insert_all api new_resources (insert_all api existing [])) (
        insert_all-AtKey new_resources (insert_all api existing [])
          (insert_all-AtKey existing [] tt))
      ∙ has_key-insert_all k new_resources (insert_all api existing [])
      ∙ ground (arith, has_key-insert_all k existing [], no_key k)
    where
      no_key : (k : Text) → has_key {V = Fields} k [] ≡ false
      no_key k = unfold has_key in refl

  -- Resources with the same keys, as those with a synthesized Ready condition have.
  abbrev pub keys_of : List Fields → List Text
  keys_of os = map (composed_resource_key api) os

  pub same_keys :
      (k : Text) (os ps : List Fields)
      → keys_of os ≡ keys_of ps
      → is_observed os k ≡ is_observed ps k
  unfolding is_observed is_at
  same_keys k [] [] h = refl
  same_keys k [] (p ∷ ps) h = absurd (ground (arith, h))
  same_keys k (o ∷ os) [] h = absurd (ground (arith, h))
  same_keys k (o ∷ os) (p ∷ ps) h =
      let rest : keys_of os ≡ keys_of ps = ground (arith, h) in
      let first : composed_resource_key api o ≡ composed_resource_key api p = ground (arith, h) in
      rw first (ground (arith, same_keys k os ps rest))

  keep_none : {A : Type 0} (p : A → Bool) (xs : List A) → any p xs ≡ false → keep p xs ≡ []
  keep_none p [] h = refl
  keep_none p (x ∷ xs) h = ground (arith, h, keep_none p xs (ground (arith, h)))

  observed_self :
      (observed rendered : List Fields)
      → ((k : Text) → is_observed rendered k ≡ true → is_observed observed k ≡ true)
      → any (λ r. not (is_observed observed (composed_resource_key api r))) rendered ≡ false
  unfolding is_at
  observed_self observed [] h = refl
  observed_self observed (r ∷ rs) h =
      let here =
        h (composed_resource_key api r)
          (unfold is_observed in rw (text_eq_self (composed_resource_key api r))) in
      ground (
        arith,
        here,
        observed_self observed rs (λ k g. h k (unfold is_observed in ground (arith, g))),
      )

  -- Once the rendered resources, with their Ready conditions, are merged into the observed ones,
  -- none of them is new: a render that repeats its keys is stable.
  pub find_new-merged :
      (rendered ready observed : List Fields)
      → keys_of ready ≡ keys_of rendered
      → find_new_composed_resources api rendered (merge_observed_resources api observed ready) ≡ []
  find_new-merged rendered ready observed h =
      find_new-keep rendered (merge_observed_resources api observed ready)
      ∙ keep_none _ rendered (
          observed_self (merge_observed_resources api observed ready) rendered (λ k g.
            merge-observed observed ready k ∙ ground (arith, same_keys k ready rendered h, g)))
