-- ===== src/Strings/Trim.antt =====
-- What trimming keeps and removes.
use postgresparser.Prelude.{
  ℕ, ◌≡◌, refl, ap, Bool, true, false, [], ◌∷◌, ◌++◌, Text, inl, inr, Bool-cases, All,
}
use postgresparser.Strings.{is_space, drop_last, trim_left, trim_right, trim_space}

-- What trimming on the right removes.
pub record CutsRight (test : ℕ → Bool) (whole part : Text) : Type 0 where
  pub tail : Text
  pub splits : whole ≡ part ++ tail
  pub all_cut : All (λ c. test c ≡ true) tail

module _ (test : ℕ → Bool) where
  CutsRight-drop_last :
      (c : ℕ) (s t : Text) → CutsRight test s t → CutsRight test (c ∷ s) (drop_last test c t)
  unfolding drop_last
  CutsRight-drop_last c s [] h = elim (Bool-cases (test c)) [
    | inl cut ↦ rw cut (record {
      tail = c ∷ h.tail;
      splits = ap (λ (l : Text). c ∷ l) h.splits;
      all_cut = (cut, h.all_cut);
    })
    | inr stays ↦
        rw stays (record {
          tail = h.tail;
          splits = ap (λ (l : Text). c ∷ l) h.splits;
          all_cut = h.all_cut;
        })
  ]
  CutsRight-drop_last c s (d ∷ t) h = record {
    tail = h.tail;
    splits = ap (λ (l : Text). c ∷ l) h.splits;
    all_cut = h.all_cut;
  }

  pub trim_right_cuts : (s : Text) → CutsRight test s (trim_right test s)
  unfolding trim_right
  trim_right_cuts [] = record { tail = []; splits = refl; all_cut = tt }
  trim_right_cuts (c ∷ s) = CutsRight-drop_last c s (trim_right test s) (trim_right_cuts s)

-- The text ends in no character of the kind that is cut.
abbrev pub EndsOutside : (ℕ → Bool) → Text → Type 0
EndsOutside test [] = Unit
EndsOutside test (c ∷ []) = test c ≡ false
EndsOutside test (c ∷ d ∷ s) = EndsOutside test (d ∷ s)

abbrev pub StartsOutside : (ℕ → Bool) → Text → Type 0
StartsOutside test [] = Unit
StartsOutside test (c ∷ s) = test c ≡ false

module _ (test : ℕ → Bool) where
  EndsOutside-drop_last :
      (c : ℕ) (t : Text) → EndsOutside test t → EndsOutside test (drop_last test c t)
  unfolding drop_last
  EndsOutside-drop_last c [] h = elim (Bool-cases (test c)) [
    | inl cut ↦ rw cut tt
    | inr stays ↦ rw stays stays
  ]
  EndsOutside-drop_last c (d ∷ t) h = h

  pub trim_right-EndsOutside : (s : Text) → EndsOutside test (trim_right test s)
  unfolding trim_right
  trim_right-EndsOutside [] = tt
  trim_right-EndsOutside (c ∷ s) =
      EndsOutside-drop_last c (trim_right test s) (trim_right-EndsOutside s)

  drop_last_outside : (c : ℕ) (s : Text) → EndsOutside test (c ∷ s) → drop_last test c s ≡ c ∷ s
  unfolding drop_last
  drop_last_outside c [] h = rw h
  drop_last_outside c (d ∷ s) h = refl

  EndsOutside-tail : (c : ℕ) (s : Text) → EndsOutside test (c ∷ s) → EndsOutside test s
  EndsOutside-tail c [] h = tt
  EndsOutside-tail c (d ∷ s) h = h

  pub trim_right_outside : (s : Text) → EndsOutside test s → trim_right test s ≡ s
  unfolding trim_right
  trim_right_outside [] h = refl
  trim_right_outside (c ∷ s) h =
      rw (trim_right_outside s (EndsOutside-tail c s h)) (drop_last_outside c s h)

  pub trim_left_outside : (s : Text) → StartsOutside test s → trim_left test s ≡ s
  unfolding trim_left
  trim_left_outside [] h = refl
  trim_left_outside (c ∷ s) h = rw h

  pub trim_left-StartsOutside : (s : Text) → StartsOutside test (trim_left test s)
  unfolding trim_left
  trim_left-StartsOutside [] = tt
  trim_left-StartsOutside (c ∷ s) = elim (Bool-cases (test c)) [
    | inl cut ↦ rw cut (trim_left-StartsOutside s)
    | inr stays ↦ rw stays stays
  ]

  StartsOutside-drop_last :
      (c : ℕ) (t : Text) → test c ≡ false → StartsOutside test (drop_last test c t)
  unfolding drop_last
  StartsOutside-drop_last c [] h = rw h h
  StartsOutside-drop_last c (d ∷ t) h = h

  pub trim_right-StartsOutside :
      (s : Text) → StartsOutside test s → StartsOutside test (trim_right test s)
  unfolding trim_right
  trim_right-StartsOutside [] h = tt
  trim_right-StartsOutside (c ∷ s) h = StartsOutside-drop_last c (trim_right test s) h

-- A text with no space at either end.
abbrev pub IsTrimmed : Text → Type 0
IsTrimmed s = StartsOutside is_space s × EndsOutside is_space s

pub EndsOutside-last : (s : Text) (c : ℕ) → is_space c ≡ false → EndsOutside is_space (s ++ c ∷ [])
EndsOutside-last [] c h = h
EndsOutside-last (d ∷ []) c h = h
EndsOutside-last (d ∷ e ∷ s) c h = EndsOutside-last (e ∷ s) c h

EndsOutside-append :
    (test : ℕ → Bool) (s : Text) (c : ℕ) (t : Text)
    → EndsOutside test (c ∷ t)
    → EndsOutside test (s ++ c ∷ t)
EndsOutside-append test [] c t h = h
EndsOutside-append test (d ∷ []) c t h = h
EndsOutside-append test (d ∷ e ∷ s) c t h = EndsOutside-append test (e ∷ s) c t h

EndsOutside-cons :
    (test : ℕ → Bool) (c : ℕ) (t : Text)
    → test c ≡ false
    → EndsOutside test t
    → EndsOutside test (c ∷ t)
EndsOutside-cons test c [] hc ht = hc
EndsOutside-cons test c (d ∷ t) hc ht = ht

StartsOutside-append :
    (test : ℕ → Bool) (s : Text) (c : ℕ) (t : Text)
    → test c ≡ false
    → StartsOutside test s
    → StartsOutside test (s ++ c ∷ t)
StartsOutside-append test [] c t hc hs = hc
StartsOutside-append test (d ∷ s) c t hc hs = hs

-- Trimmed texts with a character between them that is no space.
pub IsTrimmed-append :
    (s : Text) (c : ℕ) (t : Text)
    → is_space c ≡ false
    → IsTrimmed s
    → IsTrimmed t
    → IsTrimmed (s ++ c ∷ t)
IsTrimmed-append s c t hc hs ht = (
  StartsOutside-append is_space s c t hc hs.0,
  EndsOutside-append is_space s c t (EndsOutside-cons is_space c t hc ht.1),
)

pub trim_space-IsTrimmed : (s : Text) → IsTrimmed (trim_space s)
unfolding trim_space
trim_space-IsTrimmed s = (
  trim_right-StartsOutside is_space (trim_left is_space s) (trim_left-StartsOutside is_space s),
  trim_right-EndsOutside is_space (trim_left is_space s),
)

pub trim_space_trimmed : (s : Text) → IsTrimmed s → trim_space s ≡ s
unfolding trim_space
trim_space_trimmed s h = rw (trim_left_outside is_space s h.0) (trim_right_outside is_space s h.1)

pub trim_space_idem : (s : Text) → trim_space (trim_space s) ≡ trim_space s
trim_space_idem s = trim_space_trimmed (trim_space s) (trim_space-IsTrimmed s)
