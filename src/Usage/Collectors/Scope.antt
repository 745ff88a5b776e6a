-- ===== src/Usage/Collectors/Scope.antt =====
-- A listener with a counter of open subqueries collects what stands outside every subquery.
use postgresparser.Prelude.{
  ℕ, suc, ◌≡◌, refl, sym, ap, ◌∙◌, Bool, true, false, Bool-cases, inl, inr, Option, List, [], ◌++◌,
  append-nil, append_assoc, arith, if◌then◌else◌,
}
use postgresparser.Syntax.{Tree, Trees, terminal, rule, leaf, branch, is_rule}
use postgresparser.Syntax.Rules.{Rule, select_with_parens}
use postgresparser.Syntax.Walk.{walk, walk_all}
use postgresparser.Usage.Collectors.{Collected, exit_parens}

abbrev pub state : {B : Type 0} → List B → ℕ → Collected B
state found d = record { items = found; depth = d }

abbrev pub is_parens : {A : Type 0} → Tree A → Bool
is_parens = is_rule select_with_parens

-- What `pick` takes of each context outside every subquery, in their order.
module _ {A B : Type 0} (pick : Tree A → List B) where
  unfoldable mutual
    pub outside : Tree A → List B
    outside (terminal t s) = []
    outside (rule r i j a cs) =
        if is_parens (rule r i j a cs) then [] else pick (rule r i j a cs) ++ outside_all cs

    pub outside_all : Trees A → List B
    outside_all leaf = []
    outside_all (branch c cs) = outside c ++ outside_all cs

parens_close :
    {A B : Type 0} (t : Tree A) (found : List B) (d : ℕ)
    → is_parens t ≡ true
    → exit_parens t (state found (suc d)) ≡ state found d
unfolding exit_parens
parens_close t found d p = rw p (ap (state found) (omega arith))

parens_pass :
    {A B : Type 0} (t : Tree A) (st : Collected B) → is_parens t ≡ false → exit_parens t st ≡ st
unfolding exit_parens
parens_pass t st p = rw p refl

-- `enter` opens a subquery, does nothing inside one, and collects outside.
pub record IsScoped {A B : Type 0} (enter : Tree A → Collected B → Collected B)
    (pick : Tree A → List B) : Type 0 where
  pub opens :
      (t : Tree A) (found : List B) (d : ℕ)
      → is_parens t ≡ true
      → enter t (state found d) ≡ state found (suc d)
  pub inside :
      (t : Tree A) (found : List B) (d : ℕ)
      → is_parens t ≡ false
      → enter t (state found (suc d)) ≡ state found (suc d)
  pub collects :
      (t : Tree A) (found : List B)
      → is_parens t ≡ false
      → enter t (state found 0) ≡ state (found ++ pick t) 0

module _ {A B : Type 0} (enter : Tree A → Collected B → Collected B) (pick : Tree A → List B)
    (h : IsScoped enter pick) where
  -- Inside a subquery the walk changes nothing.
  mutual
    unfolding walk

    walk_inside :
        (t : Tree A) (found : List B) (d : ℕ)
        → walk enter exit_parens t (state found (suc d)) ≡ state found (suc d)
    walk_inside (terminal t s) found d = refl
    walk_inside (rule r i j a cs) found d = elim (Bool-cases (is_parens (rule r i j a cs))) [
      | inl p ↦ rw (
        h.opens (rule r i j a cs) found (suc d) p,
        walk_all_inside cs found (suc d),
        parens_close (rule r i j a cs) found (suc d) p,
      )
      | inr p ↦ rw (
        h.inside (rule r i j a cs) found d p,
        walk_all_inside cs found d,
        parens_pass (rule r i j a cs) (state found (suc d)) p,
      )
    ]

    walk_all_inside :
        (cs : Trees A) (found : List B) (d : ℕ)
        → walk_all enter exit_parens cs (state found (suc d)) ≡ state found (suc d)
    walk_all_inside leaf found d = refl
    walk_all_inside (branch c cs) found d =
        ap (walk_all enter exit_parens cs) (walk_inside c found d) ∙ walk_all_inside cs found d

  outside-parens :
      (r : Rule) (i j : Option ℕ) (a : A) (cs : Trees A)
      → is_parens (rule r i j a cs) ≡ true
      → outside pick (rule r i j a cs) ≡ []
  unfolding outside
  outside-parens r i j a cs p = rw p refl

  outside-other :
      (r : Rule) (i j : Option ℕ) (a : A) (cs : Trees A)
      → is_parens (rule r i j a cs) ≡ false
      → outside pick (rule r i j a cs) ≡ pick (rule r i j a cs) ++ outside_all pick cs
  unfolding outside
  outside-other r i j a cs p = rw p refl

  mutual
    unfolding walk outside

    walk_keeps :
        (t : Tree A) (found : List B)
        → walk enter exit_parens t (state found 0) ≡ state (found ++ outside pick t) 0
    walk_keeps (terminal t s) found = rw append-nil
    walk_keeps (rule r i j a cs) found = elim (Bool-cases (is_parens (rule r i j a cs))) [
      | inl p ↦
          rw
            (
              h.opens (rule r i j a cs) found 0 p,
              walk_all_inside cs found 0,
              parens_close (rule r i j a cs) found 0 p,
            )
            (ap (λ l. state l 0)
              (sym (append-nil found) ∙ ap (λ l. found ++ l) (sym (outside-parens r i j a cs p))))
      | inr p ↦
          rw
            (
              h.collects (rule r i j a cs) found p,
              walk_all_outside cs _,
              parens_pass (rule r i j a cs) _ p,
            )
            (ap (λ l. state l 0)
              (append_assoc found _ _ ∙ ap (λ l. found ++ l) (sym (outside-other r i j a cs p))))
    ]

    walk_all_outside :
        (cs : Trees A) (found : List B)
        → walk_all enter exit_parens cs (state found 0) ≡ state (found ++ outside_all pick cs) 0
    walk_all_outside leaf found = rw append-nil
    walk_all_outside (branch c cs) found =
        ap (walk_all enter exit_parens cs) (walk_keeps c found)
        ∙ walk_all_outside cs (found ++ outside pick c)
        ∙ ap (λ l. state l 0) (append_assoc found (outside pick c) (outside_all pick cs))

  pub walk-outside : (t : Tree A) → (walk enter exit_parens t (state [] 0)).items ≡ outside pick t
  walk-outside t = ap (λ (st : Collected B). st.items) (walk_keeps t [])
