-- ===== src/Selection/State.antt =====
-- The caches of the composition client and of its revision client, and functions that read and
-- write them: a function gets the caches and returns them with its result, also with an error.
use crossplane_diff.Prelude.{ℕ, ◌≡◌, refl, Option, List, arith}
use crossplane_diff.Text.{Text}
use crossplane_diff.GoMap.{GoMap}
use crossplane_diff.Objects.{Value, Fields}
use crossplane_diff.Objects.Api.{Gvk}
use crossplane_diff.Result.{Result, ok, err, panic, wrapping}

-- apiextensionsv1.TypeReference, Composition and CompositionRevision, as far as the clients read
-- and write them. A revision's number is at least 1.
pub record TypeReference : Type 0 where
  pub api_version : Text
  pub kind : Text

pub record CompositionSpec : Type 0 where
  pub composite_type_ref : TypeReference
  pub mode : Value
  pub pipeline : Value
  pub write_connection_secrets_to_namespace : Value

pub record Composition : Type 0 where
  pub name : Text
  pub labels : Option (GoMap Text)
  pub spec : CompositionSpec

pub record CompositionRevision : Type 0 where
  pub name : Text
  pub labels : Option (GoMap Text)
  pub revision : ℕ
  pub spec : CompositionSpec

-- The maps of DefaultCompositionClient and DefaultCompositionRevisionClient.
pub record ClientState : Type 0 where
  pub compositions : GoMap Composition
  pub revisions : GoMap CompositionRevision
  pub revisions_by_composition : GoMap (List CompositionRevision)

abbrev pub Stateful {ℓ} : Type ℓ → Type ℓ
Stateful A = ClientState → ClientState × Result A

abbrev pub lift {ℓ} : {A : Type ℓ} → Result A → Stateful A
lift r s = (s, r)

abbrev after {ℓ κ} :
    {Before : Type ℓ} {After : Type κ}
    → ClientState × Result Before
    → (Before → Stateful After)
    → ClientState × Result After
after (s, ok value) next = next value s
after (s, err e) next = (s, err e)
after (s, panic) next = (s, panic)

infixl 5 ◌>>=◌
abbrev pub ◌>>=◌ {ℓ κ} :
    {Before : Type ℓ} {After : Type κ}
    → Stateful Before
    → (Before → Stateful After)
    → Stateful After
(m >>= next) s = after (m s) next

-- errors.Wrap(err, m) on the way out.
abbrev pub wrapping_run {ℓ} : {A : Type ℓ} → Text → Stateful A → Stateful A
wrapping_run m run s = ((run s).0, wrapping m (run s).1)

-- Whatever the caches, a value that is returned satisfies the predicate.
abbrev pub Yields {ℓ} : {A : Type ℓ} → (A → Type 0) → Stateful A → Type ℓ
Yields P run = (s : ClientState) (a : _) → (run s).1 ≡ ok a → P a

module _ {ℓ κ} {A : Type ℓ} {B : Type κ} (P : A → Type 0) (next : B → Stateful A) where
  after-Yields :
      (first : ClientState × Result B)
      → ((b : B) → Yields P (next b))
      → (a : A) → (after first next).1 ≡ ok a
      → P a
  after-Yields (s, ok b) h a e = h b s a e
  after-Yields (s, err f) h a e = absurd (ground (arith, e))
  after-Yields (s, panic) h a e = absurd (ground (arith, e))

  pub then-Yields : (first : Stateful B) → ((b : B) → Yields P (next b)) → Yields P (first >>= next)
  then-Yields first h s a e = after-Yields (first s) h a e

  kept-Yields :
      (Q : B → Type 0) (first : ClientState × Result B)
      → ((b : B) → first.1 ≡ ok b → Q b)
      → ((b : B) → Q b → Yields P (next b))
      → (a : A) → (after first next).1 ≡ ok a
      → P a
  kept-Yields Q (s, ok b) g h a e = h b (g b refl) s a e
  kept-Yields Q (s, err f) g h a e = absurd (ground (arith, e))
  kept-Yields Q (s, panic) g h a e = absurd (ground (arith, e))

  -- The second step is only asked about the values that the first yields.
  pub from-Yields :
      (Q : B → Type 0) (first : Stateful B)
      → Yields Q first
      → ((b : B) → Q b → Yields P (next b))
      → Yields P (first >>= next)
  from-Yields Q first g h s a e = kept-Yields Q (first s) (g s) h a e

-- The ways to reach the cluster: the resource client, the conversions of what it returns, and
-- fmt's
-- texts of a kind, a number and a map for error messages.
pub record ClusterReads : Type 0 where
  pub get_resource : Gvk → Text → Text → Result Fields
  pub list_resources : Gvk → Text → Result (List Fields)
  pub get_resources_by_label : Gvk → Text → GoMap Text → Result (List Fields)
  pub to_composition : Fields → Result Composition
  pub to_revision : Fields → Result CompositionRevision
  pub gvk_string : Gvk → Text
  pub decimal : ℕ → Text
  pub labels_text : GoMap Text → Text
