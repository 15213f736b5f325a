-- ===== src/Expression.antt =====
-- `Expression` and its classes (expression.h, expression.cc), which build the expressions of Arrow,
-- and `CheckFilterOptions` (reader_util.cc).
pub mod Fields
use graph_ar.Base.{
  List, [], ◌∷◌, Option, none, some, Result, Status, ok, err, status, undefined, invalid, ◌>>=◌,
  ◌>>◌, if◌then◌else◌, deref,
}
use graph_ar.Base.Text.{Text}
use graph_ar.Property.{PropertyGroup, group_has_property}

-- A comparison or a connective: the classes of `ExpressionBinaryOp`.
pub data BinaryOp : Type 0 where
  equal not_equal greater_than greater_equal less_than less_equal and or : BinaryOp

-- What is asked of `arrow::compute`: the constructors of expressions, the values of literals, and
-- `FieldsInExpression` with the names of the fields.
pub record ArrowCompute : Type 1 where
  pub ArrowExpression : Type 0
  pub Value : Type 0
  pub field_ref : Text → ArrowExpression
  pub literal : Value → ArrowExpression
  pub not_ : ArrowExpression → ArrowExpression
  pub binary : BinaryOp → ArrowExpression → ArrowExpression → ArrowExpression
  pub fields_in_expression : ArrowExpression → List Text

module _ (arrow : ArrowCompute) where
  -- A pointer to an expression; `null` is the null pointer.
  pub data Expression : Type 0 where
    null : Expression
    property : Text → Expression
    literal : arrow.Value → Expression
    not_of : Expression → Expression
    binary_of : BinaryOp → Expression → Expression → Expression

  abbrev pub not_null : Expression → Status
  not_null null = err (status invalid)
  not_null (property n) = ok tt
  not_null (literal v) = ok tt
  not_null (not_of e) = ok tt
  not_null (binary_of op a b) = ok tt

  -- `CheckNullArgs`.
  abbrev pub check_null_args : Expression → Expression → Status
  check_null_args null r = err (status invalid)
  check_null_args (property n) r = not_null r
  check_null_args (literal v) r = not_null r
  check_null_args (not_of e) r = not_null r
  check_null_args (binary_of op a b) r = not_null r

  -- `Evaluate`: through a null pointer the call is undefined.
  unfoldable pub evaluate : Expression → Result arrow.ArrowExpression
  evaluate null = err undefined
  evaluate (property name) = ok (arrow.field_ref name)
  evaluate (literal value) = ok (arrow.literal value)
  evaluate (not_of expr) = do e ← evaluate expr; ok (arrow.not_ e)
  evaluate (binary_of op lhs rhs) = do
    check_null_args lhs rhs
    lexpr ← evaluate lhs
    rexpr ← evaluate rhs
    ok (arrow.binary op lexpr rexpr)

  -- `FilterOptions`; a filter may be the null pointer, and the columns may be left out.
  pub record FilterOptions : Type 0 where
    pub filter : Expression
    pub columns : Option (List Text)

  -- The loops of `CheckFilterOptions`: every name is that of a property of the group.
  unfoldable pub check_names : Option PropertyGroup → List Text → Status
  check_names group [] = ok tt
  check_names group (name ∷ names) = do
    pg ← deref group
    if group_has_property pg.properties name then check_names group names else err (status invalid)

  abbrev pub check_columns : Option PropertyGroup → Option (List Text) → Status
  check_columns group none = ok tt
  check_columns group (some columns) = check_names group columns

  -- The filter, if there is one: the fields of the expression of Arrow that it evaluates to.
  abbrev pub check_evaluated : Option PropertyGroup → Expression → Status
  check_evaluated group e = do
    filter ← evaluate e
    check_names group (arrow.fields_in_expression filter)

  abbrev pub check_filter : Option PropertyGroup → Expression → Status
  check_filter group null = ok tt
  check_filter group (property n) = check_evaluated group (property n)
  check_filter group (literal v) = check_evaluated group (literal v)
  check_filter group (not_of e) = check_evaluated group (not_of e)
  check_filter group (binary_of op a b) = check_evaluated group (binary_of op a b)

  -- `CheckFilterOptions`.
  unfoldable pub check_filter_options : FilterOptions → Option PropertyGroup → Status
  check_filter_options options group = do
    check_filter group options.filter
    check_columns group options.columns
