-- ===== src/Select/Branches/Laws.antt =====
-- The filters of the branches are added behind the usages of the query; without an operator none is.
use postgresparser.Prelude.{
  ◌≡◌, refl, ap, ◌∙◌, Bool, false, ◌||◌, Bool-cases, inl, inr, Option, none, some, List, [], ◌∷◌,
  Text, codes, arith,
}
use postgresparser.Strings.{Unicode}
use postgresparser.Ir.{filter, QueryFields}
use postgresparser.Tree.{TokenStream}
use postgresparser.Query.Grown.{GrownFields, fields_refl, fields_trans}
use postgresparser.Syntax.{child, nth_child, get_children, ◌&>◌}
use postgresparser.Syntax.Rules.{
  select_clause, simple_select_intersect, simple_select_primary, where_clause, a_expr,
}
use postgresparser.Usage.Comparison.Grown.{find_and_record_comparisons-Grown}
use postgresparser.Select.Meaning.{Context}
use postgresparser.Select.Branches.{
  Scan, is_operator, has_operator, has_set_ops, operand, record_where, branch_filters,
  primary_branch, intersect_branch, add_intersects, union_operand, union_step, union_loop,
  leading_primary, leading_operand, clause_operations, set_operations,
}

unfoldable pub GrownOption : Option QueryFields → Option QueryFields → Type 0
GrownOption none none = Unit
GrownOption none (some r) = ⊥
GrownOption (some q) none = ⊥
GrownOption (some q) (some r) = GrownFields q r

option_refl : (q : Option QueryFields) → GrownOption q q
unfolding GrownOption
option_refl none = tt
option_refl (some q) = fields_refl q

option_trans : (q r s : Option QueryFields) → GrownOption q r → GrownOption r s → GrownOption q s
unfolding GrownOption
option_trans none none s a b = b
option_trans none (some r) s a b = elim a [ ]
option_trans (some q) none s a b = elim a [ ]
option_trans (some q) (some r) none a b = b
option_trans (some q) (some r) (some s) a b = fields_trans q r s a b

left_false : (a b : Bool) → (a || b) ≡ false → a ≡ false
left_false a b h = ground arith

right_false : (a b : Bool) → (a || b) ≡ false → b ≡ false
right_false a b h = ground arith

module _ ⦃u : Unicode⦄ (tokens : TokenStream) where
  record_where-Grown :
      (expr : Option Context) (q : QueryFields) → GrownFields q (record_where tokens expr q)
  unfolding record_where
  record_where-Grown none q = fields_refl q
  record_where-Grown (some expr) q = find_and_record_comparisons-Grown tokens expr filter q

  branch_filters-Grown :
      (primary : Context) (q : Option QueryFields) → GrownOption q (branch_filters tokens primary q)
  unfolding branch_filters GrownOption
  branch_filters-Grown primary none = tt
  branch_filters-Grown primary (some q) =
      record_where-Grown (child where_clause primary &> child a_expr) q

  primary_branch-Grown :
      (names : List Text) (op : Text) (rhs : Context) (primary : Option Context) (st : Scan)
      → GrownOption st.result (primary_branch tokens names op rhs primary st).result
  unfolding primary_branch
  primary_branch-Grown names op rhs none st = option_refl st.result
  primary_branch-Grown names op rhs (some primary) st = branch_filters-Grown primary st.result

  union_operand-Grown :
      (names : List Text) (branch : Option (Text × Context)) (st : Scan)
      → GrownOption st.result (union_operand tokens names branch st).result
  unfolding union_operand add_intersects intersect_branch
  union_operand-Grown names none st = option_refl st.result
  union_operand-Grown names (some branch) st =
      primary_branch-Grown names (branch.0) (branch.1)
        (nth_child simple_select_primary 0 (branch.1)) st

  union_step-Grown :
      (names : List Text) (c : Context) (cs : List Context) (st : Scan)
      → GrownOption st.result (union_step tokens names c cs st).result
  unfolding union_step
  union_step-Grown names c cs st = elim (Bool-cases (is_operator (codes "UNION") c)) [
    | inl h ↦
        rw h
          (union_operand-Grown names (operand tokens simple_select_intersect (codes "UNION") cs) st)
    | inr h ↦ elim (Bool-cases (is_operator (codes "EXCEPT") c)) [
      | inl k ↦
          rw (h, k)
            (union_operand-Grown names (operand tokens simple_select_intersect (codes "EXCEPT") cs)
              st)
      | inr k ↦ rw (h, k) (option_refl st.result)
    ]
  ]

  union_loop-Grown :
      (names : List Text) (cs : List Context) (st : Scan)
      → GrownOption st.result (union_loop tokens names cs st).result
  unfolding union_loop
  union_loop-Grown names [] st = option_refl st.result
  union_loop-Grown names (c ∷ cs) st =
      option_trans st.result (union_step tokens names c cs st).result _
        (union_step-Grown names c cs st)
        (union_loop-Grown names cs (union_step tokens names c cs st))

  leading_primary-Grown :
      (names : List Text) (primary : Option Context) (st : Scan)
      → GrownOption st.result (leading_primary tokens names primary st).result
  unfolding leading_primary
  leading_primary-Grown names none st = option_refl st.result
  leading_primary-Grown names (some primary) st = branch_filters-Grown primary st.result

  leading_operand-Grown :
      (names : List Text) (clause : Context) (first : Option Context) (st : Scan)
      → GrownOption st.result (leading_operand tokens names clause first st).result
  unfolding leading_operand add_intersects
  leading_operand-Grown names clause none st = option_refl st.result
  leading_operand-Grown names clause (some first) st = elim (Bool-cases (has_set_ops clause)) [
    | inl h ↦ rw h (leading_primary-Grown names (nth_child simple_select_primary 0 first) st)
    | inr h ↦ rw h (option_refl st.result)
  ]

  clause_operations-Grown :
      (names : List Text) (clause : Option Context) (st : Scan)
      → GrownOption st.result (clause_operations tokens names clause st).result
  unfolding clause_operations
  clause_operations-Grown names none st = option_refl st.result
  clause_operations-Grown names (some clause) st =
      option_trans st.result
        (leading_operand tokens names clause (nth_child simple_select_intersect 0 clause) st).result
        _ (leading_operand-Grown names clause (nth_child simple_select_intersect 0 clause) st)
        (union_loop-Grown names (get_children clause) _)

  pub set_operations-Grown :
      (names : List Text) (snp : Context) (q : Option QueryFields)
      → GrownOption q (set_operations tokens names snp q).result
  unfolding set_operations
  set_operations-Grown names snp q = clause_operations-Grown names (child select_clause snp) _

  -- Without an operator, the loop does nothing.
  union_loop_without :
      (names : List Text) (cs : List Context) (st : Scan)
      → has_operator (codes "UNION") cs ≡ false
      → has_operator (codes "EXCEPT") cs ≡ false
      → union_loop tokens names cs st ≡ st
  unfolding union_loop union_step has_operator
  union_loop_without names [] st h k = refl
  union_loop_without names (c ∷ cs) st h k = elim (Bool-cases (is_operator (codes "UNION") c)) [
    | inl e ↦ ground arith
    | inr e ↦ elim (Bool-cases (is_operator (codes "EXCEPT") c)) [
      | inl f ↦ ground arith
      | inr f ↦ rw (e, f) (union_loop_without names cs st (rw e at h) (rw f at k))
    ]
  ]

  leading_operand_without :
      (names : List Text) (clause : Context) (first : Option Context) (st : Scan)
      → has_set_ops clause ≡ false
      → (leading_operand tokens names clause first st).result ≡ st.result
  unfolding leading_operand add_intersects
  leading_operand_without names clause none st h = refl
  leading_operand_without names clause (some first) st h = rw h refl

  clause_operations_without :
      (names : List Text) (clause : Context) (st : Scan)
      → has_set_ops clause ≡ false
      → (clause_operations tokens names (some clause) st).result ≡ st.result
  unfolding clause_operations has_set_ops
  clause_operations_without names clause st h =
      ap Scan.result (
        union_loop_without names (get_children clause)
          (leading_operand tokens names clause (nth_child simple_select_intersect 0 clause) st)
          (left_false _ _ (left_false _ _ h)) (right_false _ _ (left_false _ _ h)))
      ∙ leading_operand_without names clause (nth_child simple_select_intersect 0 clause) st h

  -- Where neither UNION nor EXCEPT stands among the children of the select clause and INTERSECT not
  -- among those of its first operand, the extraction of set operations leaves the query as it is, so
  -- that the filters of a plain SELECT are not recorded a second time.
  pub set_operations_without :
      (names : List Text) (snp clause : Context) (q : Option QueryFields)
      → child select_clause snp ≡ some clause
      → has_set_ops clause ≡ false
      → (set_operations tokens names snp q).result ≡ q
  unfolding set_operations
  set_operations_without names snp clause q found h =
      rw found (clause_operations_without names clause _ h)
