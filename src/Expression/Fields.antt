-- ===== src/Expression/Fields.antt =====
-- The properties that a filter names (expression.cc, reader_util.cc).
use graph_ar.Expression.{null, property, literal, not_of, binary_of}
use graph_ar.Base.{
  List, [], ◌∷◌, ◌++◌, Option, none, some, Status, ok, err, ◌≡◌, refl, ◌∙◌, arith, true, ◌↔◌, ◌↔◌,
  All, ◌>>◌,
}
use graph_ar.Base.Text.{Text}
use graph_ar.Property.{PropertyGroup, group_has_property}
use graph_ar.Expression.{
  ArrowCompute, BinaryOp, Expression, evaluate, property, check_null_args, literal, not_of,
  binary_of, not_null, check_names, check_columns, check_filter, check_evaluated,
  check_filter_options, FilterOptions,
}

module _ (arrow : ArrowCompute) where
  -- `FieldsInExpression` lists the fields of an expression from left to right.
  pub record ListsFields : Type 0 where
    pub of_field_ref : (name : Text) → arrow.fields_in_expression (arrow.field_ref name) ≡ name ∷ []
    pub of_literal : (value : arrow.Value) → arrow.fields_in_expression (arrow.literal value) ≡ []
    pub of_not :
        (e : arrow.ArrowExpression)
        → arrow.fields_in_expression (arrow.not_ e) ≡ arrow.fields_in_expression e
    pub of_binary :
        (op : BinaryOp) (l r : arrow.ArrowExpression)
        → arrow.fields_in_expression (arrow.binary op l r)
          ≡ arrow.fields_in_expression l ++ arrow.fields_in_expression r

  -- The names of the properties in an expression.
  abbrev pub names_of : Expression arrow → List Text
  names_of null = []
  names_of (property name) = name ∷ []
  names_of (literal value) = []
  names_of (not_of e) = names_of e
  names_of (binary_of op l r) = names_of l ++ names_of r

  -- No part of an expression is missing.
  abbrev pub IsWhole : Expression arrow → Type 0
  IsWhole null = ⊥
  IsWhole (property name) = Unit
  IsWhole (literal value) = Unit
  IsWhole (not_of e) = IsWhole e
  IsWhole (binary_of op l r) = IsWhole l × IsWhole r

  right_not_null : (r : Expression arrow) → IsWhole r → not_null arrow r ≡ ok tt
  right_not_null null h = elim h [ ]
  right_not_null (property n) h = refl
  right_not_null (literal v) h = refl
  right_not_null (not_of e) h = refl
  right_not_null (binary_of op a b) h = refl

  whole_not_null :
      (l r : Expression arrow) → IsWhole l → IsWhole r → check_null_args arrow l r ≡ ok tt
  whole_not_null null r h k = elim h [ ]
  whole_not_null (property n) r h k = right_not_null r k
  whole_not_null (literal v) r h k = right_not_null r k
  whole_not_null (not_of e) r h k = right_not_null r k
  whole_not_null (binary_of op a b) r h k = right_not_null r k

  fields_of_whole :
      ListsFields
      → (e : Expression arrow) → IsWhole e
      → (value : arrow.ArrowExpression) × (evaluate arrow e ≡ ok value)
        × (arrow.fields_in_expression value ≡ names_of e)
  unfolding evaluate
  fields_of_whole laws null h = elim h [ ]
  fields_of_whole laws (property name) h = (arrow.field_ref name, refl, laws.of_field_ref name)
  fields_of_whole laws (literal value) h = (arrow.literal value, refl, laws.of_literal value)
  fields_of_whole laws (not_of e) h =
      let (value, runs, fields) = fields_of_whole laws e h in
      (arrow.not_ value, rw runs, laws.of_not value ∙ fields)
  fields_of_whole laws (binary_of op l r) (hl, hr) =
      let (lvalue, lruns, lfields) = fields_of_whole laws l hl in
      let (rvalue, rruns, rfields) = fields_of_whole laws r hr in
      (
        arrow.binary op lvalue rvalue,
        rw (whole_not_null l r hl hr, lruns, rruns),
        laws.of_binary op lvalue rvalue ∙ rw (lfields, rfields),
      )

  -- A name is that of a property of a group.
  abbrev pub IsKnown : PropertyGroup → Text → Type 0
  IsKnown pg name = group_has_property pg.properties name ≡ true

  check_names_iff :
      (pg : PropertyGroup) (names : List Text)
      → (check_names arrow (some pg) names ≡ ok tt) ↔ All (IsKnown pg) names
  unfolding check_names
  check_names_iff pg [] = ground arith
  check_names_iff pg (name ∷ names) = ground (arith, check_names_iff pg names)

  -- The columns that are asked for.
  abbrev pub columns_of : Option (List Text) → List Text
  columns_of none = []
  columns_of (some names) = names

  check_columns_names :
      (pg : PropertyGroup) (columns : Option (List Text))
      → check_columns arrow (some pg) columns ≡ check_names arrow (some pg) (columns_of columns)
  unfolding check_names
  check_columns_names pg none = refl
  check_columns_names pg (some names) = refl

  check_evaluated_names :
      ListsFields
      → (pg : PropertyGroup) (e : Expression arrow) → IsWhole e
      → check_evaluated arrow (some pg) e ≡ check_names arrow (some pg) (names_of e)
  check_evaluated_names laws pg e h =
      let (value, runs, fields) = fields_of_whole laws e h in rw (runs, fields)

  check_filter_names :
      ListsFields
      → (pg : PropertyGroup) (e : Expression arrow) → IsWhole e
      → check_filter arrow (some pg) e ≡ check_names arrow (some pg) (names_of e)
  check_filter_names laws pg null h = elim h [ ]
  check_filter_names laws pg (property n) h = check_evaluated_names laws pg (property n) h
  check_filter_names laws pg (literal v) h = check_evaluated_names laws pg (literal v) h
  check_filter_names laws pg (not_of e) h = check_evaluated_names laws pg (not_of e) h
  check_filter_names laws pg (binary_of op a b) h =
      check_evaluated_names laws pg (binary_of op a b) h

  both_ok : (s t : Status) → ((s >> t) ≡ ok tt) ↔ ((s ≡ ok tt) × (t ≡ ok tt))
  both_ok (ok u) t = ground arith
  both_ok (err e) t = ground arith

  -- Filter options whose filter has no null part pass the check exactly if each property that the
  -- filter names, and each column that is asked for, is a property of the group.
  pub check_filter_options_iff :
      ListsFields
      → (pg : PropertyGroup) (options : FilterOptions arrow) → IsWhole options.filter
      → (check_filter_options arrow options (some pg) ≡ ok tt) ↔ (
          All (IsKnown pg) (names_of options.filter)
          × All (IsKnown pg) (columns_of options.columns))
  unfolding check_filter_options
  check_filter_options_iff laws pg options h = ground (
    arith,
    both_ok (check_names arrow (some pg) (names_of options.filter))
        (check_names arrow (some pg) (columns_of options.columns)),
    check_filter_names laws pg options.filter h,
    check_columns_names pg options.columns,
    check_names_iff pg (names_of options.filter),
    check_names_iff pg (columns_of options.columns),
  )
