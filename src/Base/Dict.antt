-- ===== src/Base/Dict.antt =====
-- Go's `map[string]V`. The list's order stands for the order in which `range` meets the entries.
use Prim.Native.String.{String}
use mathlib.Core.Path.{◌≡◌, refl, subst₂}
use mathlib.Core.Logic.{ite, if_pos, if_neg, ◌≢◌}
use mathlib.Core.Option.{Option, none, some}
use mathlib.Core.List.{List, [], ◌∷◌}
use native.Mathlib.Omega.{arith}
use upcow.Base.Text.{String_discrete}

abbrev pub Dict {ℓ} : Type ℓ → Type ℓ
Dict V = List (String × V)

module _ {ℓ} {V : Type ℓ} where
  unfoldable pub lookup : String → Dict V → Option V
  lookup k [] = none
  lookup k ((j, v) ∷ m) = ite (String_discrete j k) (some v) (lookup k m)

  -- `delete(m, k)`: every entry under the key goes.
  unfoldable pub delete : String → Dict V → Dict V
  delete k [] = []
  delete k ((j, w) ∷ m) = ite (String_discrete j k) (delete k m) ((j, w) ∷ delete k m)

  -- `m[k] = v`: the entry keeps its place, a new one comes last.
  unfoldable pub insert : String → V → Dict V → Dict V
  insert k v [] = (k, v) ∷ []
  insert k v ((j, w) ∷ m) = ite (String_discrete j k) ((k, v) ∷ delete k m) ((j, w) ∷ insert k v m)

  pub lookup-delete :
      (j k : String) (m : Dict V)
      → lookup j (delete k m) ≡ ite (String_discrete k j) none (lookup j m)
  unfolding lookup delete
  lookup-delete j k [] = ground arith
  lookup-delete j k ((i, w) ∷ m) = ground (arith, lookup-delete j k m)

  pub lookup-insert :
      (j k : String) (v : V) (m : Dict V)
      → lookup j (insert k v m) ≡ ite (String_discrete k j) (some v) (lookup j m)
  unfolding lookup insert
  lookup-insert j k v [] = refl
  lookup-insert j k v ((i, w) ∷ m) = ground (arith, lookup-insert j k v m, lookup-delete j k m)

some_inj {ℓ} : {A : Type ℓ} (a b : A) → some a ≡ some b → a ≡ b
some_inj a b h = cc

-- A property of every entry.
abbrev pub AllIn {ℓ κ} : {V : Type ℓ} → (String → V → Type κ) → Dict V → Type κ
AllIn P [] = Unit
AllIn P ((k, v) ∷ m) = P k v × AllIn P m

module _ {ℓ κ} {V : Type ℓ} (P : String → V → Type κ) where
  -- What holds of all entries but those under `k` holds of all once these are deleted.
  pub AllIn-delete :
      (k : String) (m : Dict V) → AllIn (λ j v. j ≢ k → P j v) m → AllIn P (delete k m)
  unfolding delete
  AllIn-delete k [] a = tt
  AllIn-delete k ((j, w) ∷ m) a = elim (String_discrete j k) [
    | yes same ↦ rw (if_pos _ same) (AllIn-delete k m a.1)
    | no other ↦ rw (if_neg _ other) (a.0 other, AllIn-delete k m a.1)
  ]

  pub AllIn-insert :
      (k : String) (v : V) (m : Dict V)
      → P k v
      → AllIn (λ j w. j ≢ k → P j w) m
      → AllIn P (insert k v m)
  unfolding insert
  AllIn-insert k v [] p a = (p, tt)
  AllIn-insert k v ((j, w) ∷ m) p a = elim (String_discrete j k) [
    | yes same ↦ rw (if_pos _ same) (p, AllIn-delete k m a.1)
    | no other ↦ rw (if_neg _ other) (a.0 other, AllIn-insert k v m p a.1)
  ]

  pub AllIn-lookup : (k : String) (v : V) (m : Dict V) → AllIn P m → lookup k m ≡ some v → P k v
  unfolding lookup
  AllIn-lookup k v [] a h = absurd (cc)
  AllIn-lookup k v ((j, w) ∷ m) a h = elim (String_discrete j k) [
    | yes same ↦ subst₂ P same (some_inj w v (rw (if_pos _ same) at h)) a.0
    | no other ↦ AllIn-lookup k v m a.1 (rw (if_neg _ other) at h)
  ]

module _ {ℓ} {V : Type ℓ} where
  -- Under a key that is not found there is no entry.
  pub AllIn-ne : (k : String) (m : Dict V) → lookup k m ≡ none → AllIn (λ j v. j ≢ k) m
  unfolding lookup
  AllIn-ne k [] h = tt
  AllIn-ne k ((j, w) ∷ m) h = elim (String_discrete j k) [
    | yes same ↦ absurd (cc (the_some same))
    | no other ↦ (other, AllIn-ne k m (rw (if_neg _ other) at h))
  ]
    where
      the_some : j ≡ k → some w ≡ none
      the_some same = rw (if_pos _ same) at h

module _ {ℓ κ μ} {V : Type ℓ} (P : String → V → Type κ) (Q : String → V → Type μ) where
  pub AllIn-map : ((k : String) (v : V) → P k v → Q k v) → (m : Dict V) → AllIn P m → AllIn Q m
  AllIn-map f [] a = tt
  AllIn-map f ((k, v) ∷ m) a = (f k v a.0, AllIn-map f m a.1)

module _ {ℓ κ μ ν} {V : Type ℓ} (P : String → V → Type κ) (Q : String → V → Type μ)
    (R : String → V → Type ν) where
  pub AllIn-zip :
      ((k : String) (v : V) → P k v → Q k v → R k v)
      → (m : Dict V) → AllIn P m
      → AllIn Q m
      → AllIn R m
  AllIn-zip f [] a b = tt
  AllIn-zip f ((k, v) ∷ m) a b = (f k v a.0 b.0, AllIn-zip f m a.1 b.1)
