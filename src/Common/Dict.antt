-- ===== src/Common/Dict.antt =====
-- Python's `dict` in insertion order, over keys with an equality test.
use mathlib.Core.Path.{◌≡◌, refl}
use mathlib.Core.List.{List, [], ◌∷◌}
use mathlib.Core.Logic.{◌⊎◌}
use mathlib.Core.Option.{Option, none, some}
use native.Mathlib.Omega.{arith}
use forex_bot.Common.Tests.{if◌then◌else◌}
use forex_bot.Common.Eq.{Eq, beq, beq_iff}

abbrev pub Dict {ℓ κ} : Type ℓ → Type κ → Type (ℓ ⊔ κ)
Dict K V = List (K × V)

module _ {ℓ κ} {K : Type ℓ} {V : Type κ} ⦃e : Eq K⦄ where
  -- d.get(k)
  unfoldable pub lookup : K → Dict K V → Option V
  lookup k [] = none
  lookup k ((j, v) ∷ d) = if beq j k then some v else lookup k d

  -- d[k] = v
  unfoldable pub insert : K → V → Dict K V → Dict K V
  insert k v [] = (k, v) ∷ []
  insert k v ((j, w) ∷ d) = if beq j k then (j, v) ∷ d else (j, w) ∷ insert k v d

  -- d.pop(k, None), del d[k]
  unfoldable pub erase : K → Dict K V → Dict K V
  erase k [] = []
  erase k ((j, w) ∷ d) = if beq j k then erase k d else (j, w) ∷ erase k d

  pub lookup-insert :
      (k j : K) (v : V) (d : Dict K V)
      → lookup j (insert k v d) ≡ (if beq k j then some v else lookup j d)
  unfolding lookup insert
  lookup-insert k j v [] = refl
  lookup-insert k j v ((i, w) ∷ d) =
      ground (arith, beq_iff k j, beq_iff i k, beq_iff i j, lookup-insert k j v d)

  -- An entry of the dict with a new one is the new one or was there.
  pub insert_entry :
      (k j : K) (v w : V) (d : Dict K V)
      → lookup j (insert k v d) ≡ some w
      → ((k ≡ j) × (v ≡ w)) ⊎ (lookup j d ≡ some w)
  insert_entry k j v w d h = ground (arith, lookup-insert k j v d, beq_iff k j)

  pub lookup-erase :
      (k j : K) (d : Dict K V) → lookup j (erase k d) ≡ (if beq k j then none else lookup j d)
  unfolding lookup erase
  lookup-erase k j [] = ground arith
  lookup-erase k j ((i, w) ∷ d) =
      ground (arith, beq_iff k j, beq_iff i k, beq_iff i j, lookup-erase k j d)

  pub erase_absent : (k : K) (d : Dict K V) → lookup k d ≡ none → erase k d ≡ d
  unfolding lookup erase
  erase_absent k [] h = refl
  erase_absent k ((j, w) ∷ d) h = ground (arith, erase_absent k d)

  pub erase-head : (k : K) (v : V) (d : Dict K V) → lookup k d ≡ none → erase k ((k, v) ∷ d) ≡ d
  unfolding erase
  erase-head k v d h = ground (arith, beq_iff k k, erase_absent k d h)

  -- No key stands twice, as in every Python dict.
  abbrev pub Distinct : Dict K V → Type κ
  Distinct [] = Unit
  Distinct ((k, v) ∷ d) = (lookup k d ≡ none) × Distinct d

  pub Distinct-insert : (k : K) (v : V) (d : Dict K V) → Distinct d → Distinct (insert k v d)
  unfolding insert lookup
  Distinct-insert k v [] h = ground arith
  Distinct-insert k v ((j, w) ∷ d) h =
      ground (arith, beq_iff j k, beq_iff k j, lookup-insert k j v d, Distinct-insert k v d h.1)

  pub Distinct-erase : (k : K) (d : Dict K V) → Distinct d → Distinct (erase k d)
  unfolding erase
  Distinct-erase k [] h = h
  Distinct-erase k ((j, w) ∷ d) h = ground (arith, lookup-erase k j d, Distinct-erase k d h.1)

  -- Every entry of `d` stands in `d'`.
  abbrev pub Within : Dict K V → Dict K V → Type κ
  Within [] d' = Unit
  Within ((k, v) ∷ d) d' = (lookup k d' ≡ some v) × Within d d'

  pub Within-erase :
      (k : K) (d d' : Dict K V) → lookup k d ≡ none → Within d d' → Within d (erase k d')
  unfolding lookup
  Within-erase k [] d' h w = w
  Within-erase k ((j, v) ∷ d) d' h w =
      ground (arith, beq_iff j k, beq_iff k j, lookup-erase k j d', Within-erase k d d')

  pub lookup-head : (k : K) (v : V) (d : Dict K V) → lookup k ((k, v) ∷ d) ≡ some v
  unfolding lookup
  lookup-head k v d = ground (arith, beq_iff k k)

  Within-cons :
      (k : K) (v : V) (d d' : Dict K V) → lookup k d ≡ none → Within d d' → Within d ((k, v) ∷ d')
  unfolding lookup
  Within-cons k v [] d' h w = w
  Within-cons k v ((j, u) ∷ d) d' h w =
      ground (arith, beq_iff j k, beq_iff k j, Within-cons k v d d')

  pub Within-self : (d : Dict K V) → Distinct d → Within d d
  Within-self [] h = tt
  Within-self ((k, v) ∷ d) h = (lookup-head k v d, Within-cons k v d d h.0 (Within-self d h.1))

pub ruleset dict_laws = (lookup-insert, lookup-erase)
