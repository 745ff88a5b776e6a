-- ===== src/Prelude/Dedup.antt =====
-- The loop `if seen[key(x)] { continue }; seen[key(x)] = true; out = append(out, x)`.
use mathlib.Core.Path.{◌≡◌, refl, ap, ◌∙◌}
use mathlib.Core.Logic.{inl, inr}
use mathlib.Core.Bool.{true, false, ◌||◌}
use mathlib.Core.List.{List, [], ◌∷◌, map}
use native.Mathlib.Omega.{arith}
use postgresparser.Prelude.Tests.{Bool-cases}
use postgresparser.Prelude.Lists.{All}
use postgresparser.Prelude.Texts.{Text, contains, text_eq, text_eq_iff}

module _ {ℓ} {A : Type ℓ} (key : A → Text) where
  unfoldable pub dedup : List Text → List A → List A
  dedup seen [] = []
  dedup seen (x ∷ xs) = elim (contains seen (key x)) [
    | true ↦ dedup seen xs
    | false ↦ x ∷ dedup (key x ∷ seen) xs
  ]

contains_eq :
    (js : List Text) (j k : Text) → contains js j ≡ true → text_eq j k ≡ true → contains js k ≡ true
contains_eq js j k h e = rw (← (text_eq_iff j k).0 e) h

-- The keys are pairwise different, and none is in `seen`.
abbrev pub Fresh : List Text → List Text → Type 0
Fresh seen [] = Unit
Fresh seen (k ∷ ks) = (contains seen k ≡ false) × Fresh (k ∷ seen) ks

module _ {ℓ} {A : Type ℓ} (key : A → Text) where
  dedup-seen :
      (seen : List Text) (x : A) (xs : List A)
      → contains seen (key x) ≡ true
      → dedup key seen (x ∷ xs) ≡ dedup key seen xs
  unfolding dedup
  dedup-seen seen x xs h = rw (h, dedup)

  dedup-new :
      (seen : List Text) (x : A) (xs : List A)
      → contains seen (key x) ≡ false
      → dedup key seen (x ∷ xs) ≡ x ∷ dedup key (key x ∷ seen) xs
  unfolding dedup
  dedup-new seen x xs h = rw (h, dedup)

  pub dedup-Fresh : (seen : List Text) (xs : List A) → Fresh seen (map key (dedup key seen xs))
  dedup-Fresh seen [] = unfold dedup in tt
  dedup-Fresh seen (x ∷ xs) = elim (Bool-cases (contains seen (key x))) [
    | inl old ↦ rw (dedup-seen seen x xs old) (dedup-Fresh seen xs)
    | inr new ↦ rw (dedup-new seen x xs new) (new, dedup-Fresh (key x ∷ seen) xs)
  ]

  -- Nothing is dropped from a list whose keys differ already.
  pub dedup-Fresh_same :
      (seen : List Text) (xs : List A) → Fresh seen (map key xs) → dedup key seen xs ≡ xs
  dedup-Fresh_same seen [] h = unfold dedup in refl
  dedup-Fresh_same seen (x ∷ xs) h =
      dedup-new seen x xs h.0 ∙ ap (λ (l : List A). x ∷ l) (dedup-Fresh_same (key x ∷ seen) xs h.1)

  pub dedup_idem : (xs : List A) → dedup key [] (dedup key [] xs) ≡ dedup key [] xs
  dedup_idem xs = dedup-Fresh_same [] (dedup key [] xs) (dedup-Fresh [] xs)

  pub dedup-All {κ} :
      (P : A → Type κ) (seen : List Text) (xs : List A) → All P xs → All P (dedup key seen xs)
  dedup-All P seen [] h = unfold dedup in tt
  dedup-All P seen (x ∷ xs) h = elim (Bool-cases (contains seen (key x))) [
    | inl old ↦ rw (dedup-seen seen x xs old) (dedup-All P seen xs h.1)
    | inr new ↦ rw (dedup-new seen x xs new) (h.0, dedup-All P (key x ∷ seen) xs h.1)
  ]

  -- Each input key is in `seen` or is the key of something kept.
  pub dedup_covers :
      (seen : List Text) (xs : List A) (k : Text)
      → (contains seen k || contains (map key xs) k)
        ≡ (contains seen k || contains (map key (dedup key seen xs)) k)
  unfolding contains
  dedup_covers seen [] k = unfold dedup in refl
  dedup_covers seen (x ∷ xs) k = elim (Bool-cases (contains seen (key x))) [
    | inl old ↦
        rw (dedup-seen seen x xs old)
          (ground (arith, dedup_covers seen xs k, contains_eq seen (key x) k old))
    | inr new ↦ rw (dedup-new seen x xs new) (ground (arith, dedup_covers (key x ∷ seen) xs k))
  ]
