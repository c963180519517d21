-- ===== src/Prelude/Dict.antt =====
-- Maps from texts, as association lists: Go's `map[string]V`.
use mathlib.Core.Path.{◌≡◌, refl, sym, ap, subst, ◌∙◌}
use mathlib.Core.Logic.{inl, inr, ◌↔◌}
use mathlib.Core.Bool.{Bool, true, false, ◌&&◌, ◌||◌}
use mathlib.Core.Option.{Option, none, some}
use mathlib.Core.List.{List, [], ◌∷◌}
use native.Mathlib.Omega.{arith}
use oasis_modbus2mqtt.Prelude.Tests.{if◌then◌else◌, ==_iff, Bool-cases}
use oasis_modbus2mqtt.Prelude.Lists.{All, Among}
use oasis_modbus2mqtt.Prelude.Text.{Text, text_eq}

pub text_eq_refl : (s : Text) → text_eq s s ≡ true
text_eq_refl [] = refl
text_eq_refl (c ∷ s) = ground (arith, text_eq_refl s)

pub eq_of_text_eq : (s t : Text) → text_eq s t ≡ true → s ≡ t
eq_of_text_eq [] [] h = refl
eq_of_text_eq [] (d ∷ t) h = cc
eq_of_text_eq (c ∷ s) [] h = cc
eq_of_text_eq (c ∷ s) (d ∷ t) h = ground (arith, ==_iff c d, eq_of_text_eq s t)

pub text_eq_iff : (s t : Text) → (text_eq s t ≡ true) ↔ (s ≡ t)
text_eq_iff s t = (eq_of_text_eq s t, λ e. ap (text_eq s) (sym e) ∙ text_eq_refl s)

-- A text stands in a list, and every text of a list does, by evaluation.
unfoldable pub among : Text → List Text → Bool
among s [] = false
among s (t ∷ ts) = text_eq t s || among s ts

unfoldable pub all_among : List Text → List Text → Bool
unfolding among
all_among [] ts = true
all_among (s ∷ ss) ts = among s ts && all_among ss ts

pub among_sound : (s : Text) (ts : List Text) → among s ts ≡ true → Among s ts
unfolding among
among_sound s [] h = cc
among_sound s (t ∷ ts) h = elim (Bool-cases (text_eq t s)) [
  | inl same ↦ inl (eq_of_text_eq t s same)
  | inr differ ↦ inr (among_sound s ts (ground arith))
]

pub all_among_sound : (ss ts : List Text) → all_among ss ts ≡ true → All (λ s. Among s ts) ss
unfolding all_among
all_among_sound [] ts h = tt
all_among_sound (s ∷ ss) ts h =
    (among_sound s ts (ground arith), all_among_sound ss ts (ground arith))

module _ {V : Type 0} where
  unfoldable pub lookup : Text → List (Text × V) → Option V
  lookup k [] = none
  lookup k ((j, v) ∷ m) = if text_eq j k then some v else lookup k m

  -- `m[k] = v`
  unfoldable pub insert : Text → V → List (Text × V) → List (Text × V)
  insert k v [] = (k, v) ∷ []
  insert k v ((j, w) ∷ m) = if text_eq j k then (k, v) ∷ m else (j, w) ∷ insert k v m

  -- No key stands twice.
  unfoldable pub Distinct : List (Text × V) → Type 0
  Distinct [] = Unit
  Distinct ((j, w) ∷ m) = (lookup j m ≡ none) × Distinct m

  -- The value that stands last under a key.
  unfoldable pub latest : Text → List (Text × V) → Option V
  latest k [] = none
  latest k ((j, v) ∷ m) = elim (latest k m) [
    | some w ↦ some w
    | none ↦ if text_eq j k then some v else none
  ]

  pub lookup-insert :
      (k j : Text) (v : V) (m : List (Text × V))
      → lookup j (insert k v m) ≡ (if text_eq k j then some v else lookup j m)
  unfolding lookup insert
  lookup-insert k j v [] = refl
  lookup-insert k j v ((i, w) ∷ m) =
      ground (arith, text_eq_iff k j, text_eq_iff i k, text_eq_iff i j, lookup-insert k j v m)

  pub insert-Distinct :
      (k : Text) (v : V) (m : List (Text × V)) → Distinct m → Distinct (insert k v m)
  unfolding insert Distinct lookup
  insert-Distinct k v [] d = (refl, tt)
  insert-Distinct k v ((i, w) ∷ m) d = elim (Bool-cases (text_eq i k)) [
    | inl same ↦ rw same (subst (λ (j : Text). lookup j m ≡ none) (eq_of_text_eq i k same) d.0, d.1)
    | inr differ ↦ rw differ (
      ground (arith, lookup-insert k i v m, text_eq_iff k i, text_eq_iff i k),
      insert-Distinct k v m d.1,
    )
  ]

  pub latest-eq-lookup : (k : Text) (m : List (Text × V)) → Distinct m → latest k m ≡ lookup k m
  unfolding latest Distinct lookup
  latest-eq-lookup k [] d = refl
  latest-eq-lookup k ((i, w) ∷ m) d = ground (arith, text_eq_iff i k, latest-eq-lookup k m)

  -- What is found under a key stands there.
  pub lookup-Among : (k : Text) (v : V) (m : List (Text × V)) → lookup k m ≡ some v → Among (k, v) m
  unfolding lookup
  lookup-Among k v [] h = cc
  lookup-Among k v ((j, w) ∷ m) h = elim (Bool-cases (text_eq j k)) [
    | inl same ↦
        inl
          (ap (λ (i : Text). (i, w)) (eq_of_text_eq j k same) ∙ ap (λ (u : V). (k, u)) (found same))
    | inr differ ↦ inr (lookup-Among k v m (ground (arith, h)))
  ]
    where
      found : text_eq j k ≡ true → w ≡ v
      found same = ground arith
