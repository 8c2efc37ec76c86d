-- ===== src/Selection/Revisions/Latest.antt =====
-- The latest revision is the only one of the highest number.
use crossplane_diff.Prelude.{
  ℕ, suc, ◌≡◌, refl, sym, ap, subst, ◌∙◌, ◌≤◌, ◌<◌, ◌↔◌, Bool, true, false, List, [], ◌∷◌, arith,
  keep, keep_in, keep_out, All, ltb, leb, ◌==◌, length, Bool-cases, inl, inr,
}
use crossplane_diff.Text.{Text}
use crossplane_diff.Result.{ok}
use crossplane_diff.Selection.Selector.{Labels}
use crossplane_diff.Selection.State.{CompositionRevision}
use crossplane_diff.Selection.Revisions.{
  insert_by_number, by_number, selected, first_of_sorted, latest_of,
}

-- Highest number first.
abbrev AtMost : ℕ → List CompositionRevision → Type 0
AtMost n rs = All (λ r. r.revision ≤ n) rs

abbrev Sorted : List CompositionRevision → Type 0
Sorted [] = Unit
Sorted (r ∷ rs) = AtMost r.revision rs × Sorted rs

AtMost-weaken : (m n : ℕ) (rs : List CompositionRevision) → m ≤ n → AtMost m rs → AtMost n rs
AtMost-weaken m n [] le h = tt
AtMost-weaken m n (r ∷ rs) le h = (omega (arith, h.0), AtMost-weaken m n rs le h.1)

AtMost-insert :
    (n : ℕ) (x : CompositionRevision) (rs : List CompositionRevision)
    → x.revision ≤ n
    → AtMost n rs
    → AtMost n (insert_by_number x rs)
unfolding insert_by_number
AtMost-insert n x [] le h = (le, tt)
AtMost-insert n x (r ∷ rs) le h = elim (Bool-cases (ltb x.revision r.revision)) [
  | inl e ↦ rw e (h.0, AtMost-insert n x rs le h.1)
  | inr e ↦ rw e (le, h)
]

insert-Sorted :
    (x : CompositionRevision) (rs : List CompositionRevision)
    → Sorted rs
    → Sorted (insert_by_number x rs)
unfolding insert_by_number
insert-Sorted x [] h = (tt, tt)
insert-Sorted x (r ∷ rs) h = elim (Bool-cases (ltb x.revision r.revision)) [
  | inl e ↦ rw e (AtMost-insert r.revision x rs (ground (arith, e)) h.0, insert-Sorted x rs h.1)
  | inr e ↦
      let le : r.revision ≤ x.revision = ground (arith, e) in
      rw e ((le, AtMost-weaken r.revision x.revision rs le h.0), h)
]

by_number-Sorted : (rs : List CompositionRevision) → Sorted (by_number rs)
unfolding by_number
by_number-Sorted [] = tt
by_number-Sorted (r ∷ rs) = insert-Sorted r (by_number rs) (by_number-Sorted rs)

module _ (test : CompositionRevision → Bool) where
  keep-AtMost : (n : ℕ) (rs : List CompositionRevision) → AtMost n rs → AtMost n (keep test rs)
  keep-AtMost n [] h = tt
  keep-AtMost n (r ∷ rs) h = elim (Bool-cases (test r)) [
    | inl e ↦ rw (keep_in test r rs e) (h.0, keep-AtMost n rs h.1)
    | inr e ↦ rw (keep_out test r rs e) (keep-AtMost n rs h.1)
  ]

  insert_front :
      (x : CompositionRevision) (rs : List CompositionRevision)
      → AtMost x.revision rs
      → insert_by_number x rs ≡ x ∷ rs
  unfolding insert_by_number
  insert_front x [] h = refl
  insert_front x (r ∷ rs) h = ground (arith, h.0)

  keep-insert_in :
      (x : CompositionRevision) (rs : List CompositionRevision)
      → test x ≡ true
      → Sorted rs
      → keep test (insert_by_number x rs) ≡ insert_by_number x (keep test rs)
  unfolding insert_by_number
  keep-insert_in x [] e h = keep_in test x [] e
  keep-insert_in x (r ∷ rs) e h =
      let rest = keep-insert_in x rs e h.1 in
      elim (Bool-cases (ltb x.revision r.revision)) [
        | inl lt ↦ elim (Bool-cases (test r)) [
          | inl t ↦
              rw
                (
                  lt,
                  keep_in test r (insert_by_number x rs) t,
                  keep_in test r rs t,
                  rest,
                  insert_by_number,
                  lt,
                )
                refl
          | inr t ↦ rw (lt, keep_out test r (insert_by_number x rs) t, keep_out test r rs t) rest
        ]
        | inr ge ↦
            let le : r.revision ≤ x.revision = ground (arith, ge) in
            rw (ge, keep_in test x (r ∷ rs) e)
              (sym (
                insert_front x (keep test (r ∷ rs)) (
                  keep-AtMost x.revision (r ∷ rs)
                    (le, AtMost-weaken r.revision x.revision rs le h.0))))
      ]

  keep-insert_out :
      (x : CompositionRevision) (rs : List CompositionRevision)
      → test x ≡ false
      → keep test (insert_by_number x rs) ≡ keep test rs
  unfolding insert_by_number
  keep-insert_out x [] e = keep_out test x [] e
  keep-insert_out x (r ∷ rs) e = elim (Bool-cases (ltb x.revision r.revision)) [
    | inl lt ↦ rw lt (elim (Bool-cases (test r)) [
      | inl t ↦
          keep_in test r _ t ∙ ap (λ l. r ∷ l) (keep-insert_out x rs e) ∙ sym (keep_in test r rs t)
      | inr t ↦ keep_out test r _ t ∙ keep-insert_out x rs e ∙ sym (keep_out test r rs t)
    ])
    | inr ge ↦ rw ge (keep_out test x (r ∷ rs) e)
  ]

  keep-by_number :
      (rs : List CompositionRevision) → keep test (by_number rs) ≡ by_number (keep test rs)
  unfolding by_number
  keep-by_number [] = refl
  keep-by_number (r ∷ rs) = elim (Bool-cases (test r)) [
    | inl t ↦
        keep-insert_in r (by_number rs) t (by_number-Sorted rs)
        ∙ rw (keep-by_number rs, keep_in test r rs t, by_number) refl
    | inr t ↦
        keep-insert_out r (by_number rs) t ∙ keep-by_number rs ∙ rw (keep_out test r rs t) refl
  ]

length-insert :
    (x : CompositionRevision) (rs : List CompositionRevision)
    → length (insert_by_number x rs) ≡ suc (length rs)
unfolding insert_by_number
length-insert x [] = refl
length-insert x (r ∷ rs) = ground (arith, length-insert x rs)

length-by_number : (rs : List CompositionRevision) → length (by_number rs) ≡ length rs
unfolding by_number
length-by_number [] = refl
length-by_number (r ∷ rs) = length-insert r (by_number rs) ∙ ap suc (length-by_number rs)

-- A sorted list of one entry is of a list of that entry.
by_number-one :
    (rs : List CompositionRevision) (r : CompositionRevision)
    → (by_number rs ≡ r ∷ []) ↔ (rs ≡ r ∷ [])
unfolding by_number insert_by_number
by_number-one [] r = ((λ e. absurd (ground (arith, e))), λ e. absurd (ground (arith, e)))
by_number-one (x ∷ []) r = ((λ e. e), λ e. e)
by_number-one (x ∷ y ∷ ys) r = (
  (λ e. absurd (omega (arith, sym (length-by_number (x ∷ y ∷ ys)) ∙ ap length e))),
  λ e. absurd (omega (arith, ap length e)),
)

abbrev pub at_least : ℕ → CompositionRevision → Bool
at_least n r = leb n r.revision

keep-below :
    (n : ℕ) (rs : List CompositionRevision)
    → ((m : ℕ) × AtMost m rs × (m < n))
    → keep (at_least n) rs ≡ []
keep-below n [] h = refl
keep-below n (r ∷ rs) (m, h, lt) =
    keep_out (at_least n) r rs (ground (arith, h.0)) ∙ keep-below n rs (m, h.1, lt)

top_only :
    (x : CompositionRevision) (rs : List CompositionRevision) (r : CompositionRevision)
    → Sorted (x ∷ rs)
    → keep (at_least r.revision) (x ∷ rs) ≡ r ∷ []
    → (x ≡ r) × (keep (at_least r.revision) rs ≡ [])
top_only x rs r h e = elim (Bool-cases (at_least r.revision x)) [
  | inl t ↦
      let both = sym (keep_in (at_least r.revision) x rs t) ∙ e in
      (ground (arith, both), ground (arith, both))
  | inr t ↦
      let none_left = keep-below r.revision rs (x.revision, h.0, ground (arith, t)) in
      absurd (ground (arith, sym (keep_out (at_least r.revision) x rs t) ∙ e, none_left))
]

-- The first of a sorted list alone has its number.
only_top :
    (x : CompositionRevision) (rs : List CompositionRevision)
    → ((m : ℕ) × AtMost m rs × (m < x.revision))
    → keep (at_least x.revision) (x ∷ rs) ≡ x ∷ []
only_top x rs below =
    keep_in (at_least x.revision) x rs (ground arith)
    ∙ ap (λ l. x ∷ l) (keep-below x.revision rs below)

second_below :
    (n : ℕ) (y : CompositionRevision) (ys : List CompositionRevision)
    → keep (at_least n) (y ∷ ys) ≡ []
    → y.revision < n
second_below n y ys e = elim (Bool-cases (at_least n y)) [
  | inl t ↦ absurd (ground (arith, sym (keep_in (at_least n) y ys t) ∙ e))
  | inr t ↦ ground (arith, t)
]

module _ {Expression Selector : Type 0} (labels : Labels Expression Selector) (decimal : ℕ → Text)
    (name : Text) (selector : Selector) where
  first_of_sorted_lem :
      (rs : List CompositionRevision) (r : CompositionRevision)
      → Sorted rs
      → (first_of_sorted labels decimal name selector rs ≡ ok r)
        ↔ (keep (at_least r.revision) rs ≡ r ∷ [])
  unfolding first_of_sorted
  first_of_sorted_lem [] r h = ((λ e. absurd (ground (arith, e))), λ e. absurd (ground (arith, e)))
  first_of_sorted_lem (x ∷ []) r h = (
    (λ e.
        let same : x ≡ r = ground (arith, e) in
        subst (λ t. keep (at_least t.revision) (x ∷ []) ≡ t ∷ []) same
          (keep_in (at_least x.revision) x [] (ground arith))),
    λ e. ap ok (top_only x [] r h e).0,
  )
  first_of_sorted_lem (x ∷ y ∷ ys) r h = elim (Bool-cases (x.revision == y.revision)) [
    | inl equal ↦ (
      (λ e. absurd (ground (arith, e, equal))),
      λ e.
          let (same, rest) = top_only x (y ∷ ys) r h e in
          let lt = second_below r.revision y ys rest in
          absurd (ground (arith, equal, lt, ap (λ t. t.revision) same)),
    )
    | inr differ ↦ (
      (λ e.
          let same : x ≡ r = ground (arith, e, differ) in
          let lt : y.revision < x.revision = ground (arith, differ, h.0.0) in
          subst (λ t. keep (at_least t.revision) (x ∷ y ∷ ys) ≡ t ∷ []) same
            (only_top x (y ∷ ys) (y.revision, (ground arith, h.1.0), lt))),
      λ e. rw differ (ap ok (top_only x (y ∷ ys) r h e).0),
    )
  ]

  -- GetLatestRevisionForComposition's choice among the revisions of a composition is a revision
  -- exactly if that one, and no other revision that the selector matches, has its number or a
  -- higher one: equal highest numbers are an error, whatever order the sort leaves them in.
  pub latest_of_unique :
      (revs : List CompositionRevision) (rev : CompositionRevision)
      → (latest_of labels decimal name selector revs ≡ ok rev)
        ↔ (keep (at_least rev.revision) (keep (selected labels decimal selector) revs) ≡ rev ∷ [])
  unfolding latest_of
  latest_of_unique [] rev = ((λ e. absurd (ground (arith, e))), λ e. absurd (ground (arith, e)))
  latest_of_unique (r ∷ rs) rev =
      let kept = keep (selected labels decimal selector) (r ∷ rs) in
      let sorted = first_of_sorted_lem (by_number kept) rev (by_number-Sorted kept) in
      let commute = keep-by_number (at_least rev.revision) kept in
      let one = by_number-one (keep (at_least rev.revision) kept) rev in
      ((λ e. one.0 (sym commute ∙ sorted.0 e)), λ e. sorted.1 (commute ∙ one.1 e))
