-- ===== src/Processor/Render/Bound.antt =====
-- Enough iterations: the loop settles when the keys that can turn up are finitely many.
use crossplane_diff.Prelude.{
  ◌≡◌, ◌∙◌, ℕ, suc, ◌≤◌, ◌<◌, Bool, true, false, not, Option, none, some, List, [], ◌∷◌, arith, any,
  all, length, Bool-cases, inl, inr, ◌==◌, if◌then◌else◌,
}
use crossplane_diff.Text.{Text, text_eq, text_eq_iff, text_eq_self}
use crossplane_diff.GoMap.{GoMap, has_key, insert, has_key-insert}
use crossplane_diff.Objects.{Fields}
use crossplane_diff.Objects.Api.{Api}
use crossplane_diff.Types.Key.{make_diff_key_from_resource}
use crossplane_diff.Processor.Render.{add_unique_resource, add_all}

-- How many of the keys are not there yet.
unfoldable pub missing : (Text → Bool) → List Text → ℕ
missing there [] = 0
missing there (u ∷ us) = let rest = missing there us in if there u then rest else suc rest

pub missing-length : (there : Text → Bool) (us : List Text) → missing there us ≤ length us
unfolding missing
missing-length there [] = ground arith
missing-length there (u ∷ us) = ground (arith, missing-length there us)

pub missing_mono :
    (p q : Text → Bool) (us : List Text)
    → ((u : Text) → p u ≡ true → q u ≡ true)
    → missing q us ≤ missing p us
unfolding missing
missing_mono p q [] h = ground arith
missing_mono p q (u ∷ us) h =
    let rest = missing_mono p q us h in
    elim (Bool-cases (p u)) [
      | inl e ↦ ground (arith, e, h u e, rest)
      | inr e ↦ elim (Bool-cases (q u)) [
        | inl e' ↦ ground (arith, e, e', rest)
        | inr e' ↦ ground (arith, e, e', rest)
      ]
    ]

-- A key that was missing and is there now makes them fewer.
pub missing_less :
    (p q : Text → Bool) (us : List Text) (k : Text)
    → ((u : Text) → p u ≡ true → q u ≡ true)
    → any (λ u. text_eq u k) us ≡ true
    → p k ≡ false
    → q k ≡ true
    → missing q us < missing p us
unfolding missing
missing_less p q [] k h known absent present = absurd (ground (arith, known))
missing_less p q (u ∷ us) k h known absent present = elim (Bool-cases (text_eq u k)) [
  | inl e ↦
      let same = (text_eq_iff u k).0 e in
      let mono = missing_mono p q us h in
      let pu : p u ≡ false = rw same absent in
      let qu : q u ≡ true = rw same present in ground (arith, pu, qu, mono)
  | inr e ↦
      let rest = missing_less p q us k h (ground (arith, e, known)) absent present in
      elim (Bool-cases (p u)) [
        | inl e' ↦ ground (arith, e', h u e', rest)
        | inr e' ↦ elim (Bool-cases (q u)) [
          | inl e'' ↦ ground (arith, e', e'', rest)
          | inr e'' ↦ ground (arith, e', e'', rest)
        ]
      ]
]

module _ (api : Api) (keys : List Text) where
  abbrev pub is_known : Option Fields → Bool
  is_known none = true
  is_known (some res) = any (λ u. text_eq u (make_diff_key_from_resource api res)) keys

  abbrev pub left_of : GoMap Fields → ℕ
  left_of m = missing (λ k. has_key k m) keys

  -- The map only grows, and is_new means that fewer keys are missing.
  abbrev Progressed : GoMap Fields → GoMap Fields → Bool → Type 0
  Progressed m m' is_new =
      ((k : Text) → has_key k m ≡ true → has_key k m' ≡ true)
      × (is_new ≡ true → left_of m' < left_of m)

  add_unique_resource-progress :
      (m : GoMap Fields) (res : Option Fields)
      → is_known res ≡ true
      → Progressed m (add_unique_resource api m res).0 (add_unique_resource api m res).1
  unfolding add_unique_resource
  add_unique_resource-progress m none h = (λ k g. g, λ g. absurd (ground (arith, g)))
  add_unique_resource-progress m (some res) h =
      let key = make_diff_key_from_resource api res in
      elim (Bool-cases (has_key key m)) [
        | inl e ↦ rw e (λ k g. g, λ g. absurd (ground (arith, g)))
        | inr e ↦
            let grows : (k : Text) → has_key k m ≡ true → has_key k (insert key res m) ≡ true =
              λ k g. has_key-insert key k res m ∙ ground (arith, g) in
            rw e (
              grows,
              λ g.
                  missing_less (λ k. has_key k m) (λ k. has_key k (insert key res m)) keys key grows
                    h e (has_key-insert key key res m ∙ rw (text_eq_self key)),
            )
      ]

  pub add_all-progress :
      (resources : List (Option Fields)) (m : GoMap Fields)
      → all is_known resources ≡ true
      → Progressed m (add_all api m resources).0 (not ((add_all api m resources).1 == 0))
  unfolding add_all
  add_all-progress [] m h = (λ k g. g, λ g. absurd (ground (arith, g)))
  add_all-progress (res ∷ rest) m h =
      let (grows, less) = add_unique_resource-progress m res (ground (arith, h)) in
      let m' = (add_unique_resource api m res).0 in
      let (grows', less') = add_all-progress rest m' (ground (arith, h)) in
      let mono = missing_mono (λ k. has_key k m) (λ k. has_key k m') keys grows in
      let mono' =
        missing_mono (λ k. has_key k m') (λ k. has_key k (add_all api m' rest).0) keys grows' in
      (
        λ k g. grows' k (grows k g),
        λ g. elim (Bool-cases (add_unique_resource api m res).1) [
          | inl e ↦ ground (arith, less e, mono')
          | inr e ↦ ground (arith, less' (rw e at g), mono)
        ],
      )
