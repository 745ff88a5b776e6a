-- ===== src/Syntax/Rules.antt =====
-- The rules and the token types of grammar/PostgreSQLParser.g4 that the code names.
use postgresparser.Prelude.{ℕ, Bool, ◌==◌}

-- The rules of the grammar that the code names, the labelled alternatives of `target_el` among
-- them; `other_rule` is any other. An `opt_` is a rule of the grammar with `_` at its end.
pub data Rule : Type 0 where
  selectstmt select_no_parens select_with_parens select_clause simple_select_intersect : Rule
  simple_select_primary all_or_distinct with_clause cte_list common_table_expr : Rule
  materialized preparablestmt opt_target_list target_list target_label target_star : Rule
  target_other col_label bare_col_label from_clause from_list table_ref relation_expr : Rule
  qualified_name alias_clause func_table func_alias_clause join_type join_qual : Rule
  where_clause having_clause group_clause group_by_list group_by_item opt_sort_clause : Rule
  sort_clause sortby_list sortby opt_asc_desc opt_nulls_order qual_all_op select_limit : Rule
  opt_select_limit limit_clause offset_clause a_expr a_expr_compare a_expr_like : Rule
  a_expr_in a_expr_between a_expr_isnull a_expr_is_not a_expr_qual_op qual_op : Rule
  columnref indirection indirection_el attr_name func_application func_name : Rule
  over_clause window_specification opt_partition_clause name colid insertstmt : Rule
  updatestmt deletestmt mergestmt opt_with_clause insert_target insert_rest : Rule
  insert_column_list insert_column_item opt_on_conflict opt_conf_expr index_params : Rule
  index_elem set_clause_list set_clause set_target opt_indirection returning_clause : Rule
  relation_expr_opt_alias using_clause where_or_current_clause merge_insert_clause : Rule
  merge_update_clause merge_delete_clause values_clause other_rule : Rule

pub data TokenType : Type 0 where
  open_paren cross natural full left right inner using table star nothing update union : TokenType
  except intersect other_token : TokenType

rule_index : Rule → ℕ
rule_index selectstmt = 0
rule_index select_no_parens = 1
rule_index select_with_parens = 2
rule_index select_clause = 3
rule_index simple_select_intersect = 4
rule_index simple_select_primary = 5
rule_index all_or_distinct = 6
rule_index with_clause = 7
rule_index cte_list = 8
rule_index common_table_expr = 9
rule_index materialized = 10
rule_index preparablestmt = 11
rule_index opt_target_list = 12
rule_index target_list = 13
rule_index target_label = 14
rule_index target_star = 15
rule_index target_other = 16
rule_index col_label = 17
rule_index bare_col_label = 18
rule_index from_clause = 19
rule_index from_list = 20
rule_index table_ref = 21
rule_index relation_expr = 22
rule_index qualified_name = 23
rule_index alias_clause = 24
rule_index func_table = 25
rule_index func_alias_clause = 26
rule_index join_type = 27
rule_index join_qual = 28
rule_index where_clause = 29
rule_index having_clause = 30
rule_index group_clause = 31
rule_index group_by_list = 32
rule_index group_by_item = 33
rule_index opt_sort_clause = 34
rule_index sort_clause = 35
rule_index sortby_list = 36
rule_index sortby = 37
rule_index opt_asc_desc = 38
rule_index opt_nulls_order = 39
rule_index qual_all_op = 40
rule_index select_limit = 41
rule_index opt_select_limit = 42
rule_index limit_clause = 43
rule_index offset_clause = 44
rule_index a_expr = 45
rule_index a_expr_compare = 46
rule_index a_expr_like = 47
rule_index a_expr_in = 48
rule_index a_expr_between = 49
rule_index a_expr_isnull = 50
rule_index a_expr_is_not = 51
rule_index a_expr_qual_op = 52
rule_index qual_op = 53
rule_index columnref = 54
rule_index indirection = 55
rule_index indirection_el = 56
rule_index attr_name = 57
rule_index func_application = 58
rule_index func_name = 59
rule_index over_clause = 60
rule_index window_specification = 61
rule_index opt_partition_clause = 62
rule_index name = 63
rule_index colid = 64
rule_index insertstmt = 65
rule_index updatestmt = 66
rule_index deletestmt = 67
rule_index mergestmt = 68
rule_index opt_with_clause = 69
rule_index insert_target = 70
rule_index insert_rest = 71
rule_index insert_column_list = 72
rule_index insert_column_item = 73
rule_index opt_on_conflict = 74
rule_index opt_conf_expr = 75
rule_index index_params = 76
rule_index index_elem = 77
rule_index set_clause_list = 78
rule_index set_clause = 79
rule_index set_target = 80
rule_index opt_indirection = 81
rule_index returning_clause = 82
rule_index relation_expr_opt_alias = 83
rule_index using_clause = 84
rule_index where_or_current_clause = 85
rule_index merge_insert_clause = 86
rule_index merge_update_clause = 87
rule_index merge_delete_clause = 88
rule_index values_clause = 89
rule_index other_rule = 90

token_type_index : TokenType → ℕ
token_type_index open_paren = 0
token_type_index cross = 1
token_type_index natural = 2
token_type_index full = 3
token_type_index left = 4
token_type_index right = 5
token_type_index inner = 6
token_type_index using = 7
token_type_index table = 8
token_type_index star = 9
token_type_index nothing = 10
token_type_index update = 11
token_type_index union = 12
token_type_index except = 13
token_type_index intersect = 14
token_type_index other_token = 15

unfoldable pub rule_eq : Rule → Rule → Bool
unfolding rule_index
rule_eq r s = rule_index r == rule_index s

unfoldable pub token_type_eq : TokenType → TokenType → Bool
unfolding token_type_index
token_type_eq t s = token_type_index t == token_type_index s
