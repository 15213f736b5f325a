-- ===== src/ChunkReader/Casts/Schema.antt =====
-- The columns after `CastTableWithSchema` (arrow/chunk_reader.cc).
use graph_ar.Base.{
  ok-injective, subst, true, false, ◌⊎◌, List, [], ◌∷◌, ◌++◌, some, none, Option, Result, ok, ◌≡◌,
  refl, ap, sym, ◌∙◌, arith, if_true, if_false, bind-ok, deref-ok, Bool-cases, inl, inr, deref,
}
use graph_ar.Base.Text.{Text, text_eq, text_eq_iff}
use graph_ar.Base.Assoc.{find, text_Eq, is_none}
use graph_ar.Storage.{Storage}
use graph_ar.Expression.{ArrowCompute}
use graph_ar.ChunkReader.Casts.{
  ArrowType, utf8, large_utf8, Schema, Column, ArrowTables, get_field_by_name, cast_column,
  cast_columns, cast_to, cast_chunks, widens,
}

-- A schema has one field of a name, with a type.
pub record HasField (schema : Schema) (name : Text) (type : ArrowType) : Type 0 where
  pub front : Schema
  pub back : Schema
  pub whole : schema ≡ front ++ (name, type) ∷ back
  pub not_in_front : find name front ≡ none
  pub not_in_back : find name back ≡ none

is_none-eq : {A : Type 0} (o : Option A) → is_none o ≡ true → o ≡ none
is_none-eq none h = refl
is_none-eq (some a) h = cc

get_field_by_name-HasField :
    (schema : Schema) (name : Text) (type : ArrowType)
    → get_field_by_name name schema ≡ some type
    → HasField schema name type
unfolding get_field_by_name find
get_field_by_name-HasField [] name type h = cc
get_field_by_name-HasField ((j, t) ∷ fields) name type h = elim (Bool-cases (text_eq j name)) [
  | inl same ↦ elim (Bool-cases (is_none (find name fields))) [
    | inl only ↦ record {
      front = [];
      back = fields;
      whole = ground (arith, h, same, only, (text_eq_iff j name).0 same);
      not_in_front = refl;
      not_in_back = is_none-eq (find name fields) only;
    }
    | inr again ↦ absurd (ground (arith, h, same, again))
  ]
  | inr different ↦
      let found = get_field_by_name-HasField fields name type (ground (arith, h, different)) in
      record {
        front = (j, t) ∷ found.front;
        back = found.back;
        whole = ap (λ l. (j, t) ∷ l) found.whole;
        not_in_front = if_false _ _ (text_eq j name) different ∙ found.not_in_front;
        not_in_back = found.not_in_back;
      }
]

module _ (storage : Storage) (arrow : ArrowCompute) (tables : ArrowTables storage arrow) where
  -- Each array of a list is the result of a function at the array of another list at its place.
  abbrev pub EachIs :
      (tables.Array → Result tables.Array) → List tables.Array → List tables.Array → Type 0
  EachIs f [] [] = Unit
  EachIs f [] (b ∷ bs) = ⊥
  EachIs f (a ∷ chunks) [] = ⊥
  EachIs f (a ∷ chunks) (b ∷ bs) = (f a ≡ ok b) × EachIs f chunks bs

  -- The chunks of a column that has a type and gets another: those of Arrow's cast if it has one,
  -- otherwise those of `CastStringToLargeString` if the types are these, and otherwise none.
  pub data ChunksCast (from to : ArrowType) (before after : List tables.Array) : Type 0 where
    by_cast :
        tables.can_cast from to ≡ true
        → EachIs (λ chunk. tables.cast chunk to) before after
        → ChunksCast from to before after
    by_widening :
        tables.can_cast from to ≡ false
        → tables.same_type from utf8 ≡ true
        → tables.same_type to large_utf8 ≡ true
        → EachIs tables.cast_string_to_large_string before after
        → ChunksCast from to before after
    dropped :
        tables.can_cast from to ≡ false
        → widens storage arrow tables from to ≡ false
        → after ≡ []
        → ChunksCast from to before after

  each_cast :
      (from to : ArrowType) (before after : List tables.Array)
      → tables.can_cast from to ≡ true
      → cast_chunks storage arrow tables from to before ≡ ok after
      → EachIs (λ chunk. tables.cast chunk to) before after
  unfolding cast_chunks
  each_cast from to [] [] can h = tt
  each_cast from to [] (b ∷ bs) can h = absurd (ground (arith, h))
  each_cast from to (a ∷ chunks) after can h =
      let (out, one, more) =
        bind-ok (tables.cast a to) _ after (sym (if_true _ _ (tables.can_cast from to) can) ∙ h) in
      let (rest, others, whole) =
        bind-ok (cast_chunks storage arrow tables from to chunks) _ after more in
      subst (EachIs (λ chunk. tables.cast chunk to) (a ∷ chunks)) (ok-injective whole)
        (one, each_cast from to chunks rest can others)

  each_widened :
      (from to : ArrowType) (before after : List tables.Array)
      → tables.can_cast from to ≡ false
      → widens storage arrow tables from to ≡ true
      → cast_chunks storage arrow tables from to before ≡ ok after
      → EachIs tables.cast_string_to_large_string before after
  unfolding cast_chunks
  each_widened from to [] [] cannot wide h = tt
  each_widened from to [] (b ∷ bs) cannot wide h = absurd (ground (arith, h))
  each_widened from to (a ∷ chunks) after cannot wide h =
      let (out, one, more) = bind-ok (tables.cast_string_to_large_string a) _ after (
        sym (
          if_false _ _ (tables.can_cast from to) cannot
          ∙ if_true _ _ (widens storage arrow tables from to) wide)
        ∙ h) in
      let (rest, others, whole) =
        bind-ok (cast_chunks storage arrow tables from to chunks) _ after more in
      subst (EachIs tables.cast_string_to_large_string (a ∷ chunks)) (ok-injective whole)
        (one, each_widened from to chunks rest cannot wide others)

  none_cast :
      (from to : ArrowType) (before after : List tables.Array)
      → tables.can_cast from to ≡ false
      → widens storage arrow tables from to ≡ false
      → cast_chunks storage arrow tables from to before ≡ ok after
      → after ≡ []
  unfolding cast_chunks
  none_cast from to [] after cannot narrow h = sym (ok-injective h)
  none_cast from to (a ∷ chunks) after cannot narrow h =
      none_cast from to chunks after cannot narrow (
        sym (
          if_false _ _ (tables.can_cast from to) cannot
          ∙ if_false _ _ (widens storage arrow tables from to) narrow)
        ∙ h)

  cast_chunks-ChunksCast :
      (from to : ArrowType) (before after : List tables.Array)
      → cast_chunks storage arrow tables from to before ≡ ok after
      → ChunksCast from to before after
  cast_chunks-ChunksCast from to before after h = elim (Bool-cases (tables.can_cast from to)) [
    | inl can ↦ by_cast can (each_cast from to before after can h)
    | inr cannot ↦ elim (Bool-cases (widens storage arrow tables from to)) [
      | inl wide ↦
          by_widening cannot (ground (arith, wide)) (ground (arith, wide))
            (each_widened from to before after cannot wide h)
      | inr narrow ↦ dropped cannot narrow (none_cast from to before after cannot narrow h)
    ]
  ]

  module _ (sound : (s t : ArrowType) → tables.same_type s t ≡ true → s ≡ t) where
    -- What becomes of a column: it keeps its name and gets the type of the only field of the schema
    -- with the name; it keeps its chunks if it had the type, and otherwise gets them cast.
    pub record IsCast (schema : Schema) (before after : Column tables.Array) : Type 0 where
      pub same_name : after.name ≡ before.name
      pub of_schema : HasField schema after.name after.type
      pub chunks :
          ((before.type ≡ after.type) × (after.chunks ≡ before.chunks))
          ⊎ ((tables.same_type before.type after.type ≡ false)
              × ChunksCast before.type after.type before.chunks after.chunks)

    -- The columns of a table, one by one.
    abbrev pub AllCast : Schema → List (Column tables.Array) → List (Column tables.Array) → Type 0
    AllCast schema [] [] = Unit
    AllCast schema [] (c ∷ cs) = ⊥
    AllCast schema (b ∷ bs) [] = ⊥
    AllCast schema (b ∷ bs) (c ∷ cs) = IsCast schema b c × AllCast schema bs cs

    cast_to-IsCast :
        (schema : Schema) (to : ArrowType) (before after : Column tables.Array)
        → HasField schema before.name to
        → cast_to storage arrow tables to before ≡ ok after
        → IsCast schema before after
    cast_to-IsCast schema to before after field h =
        elim (Bool-cases (tables.same_type before.type to)) [
          | inl same ↦
              let e : before.type ≡ to = sound before.type to same in
              subst (IsCast schema before)
                (ok-injective (sym (if_true _ _ (tables.same_type before.type to) same) ∙ h))
                (record {
                  same_name = refl;
                  of_schema = subst (HasField schema before.name) (sym e) field;
                  chunks = inl (refl, refl);
                })
          | inr different ↦
              let (chunks, cast, whole) =
                bind-ok (cast_chunks storage arrow tables before.type to before.chunks) _ after
                  (sym (if_false _ _ (tables.same_type before.type to) different) ∙ h) in
              subst (IsCast schema before) (ok-injective whole) (record {
                same_name = refl;
                of_schema = field;
                chunks =
                    inr
                      (different, cast_chunks-ChunksCast before.type to before.chunks chunks cast);
              })
        ]

    cast_column-IsCast :
        (schema : Schema) (before after : Column tables.Array)
        → cast_column storage arrow tables schema before ≡ ok after
        → IsCast schema before after
    unfolding cast_column
    cast_column-IsCast schema before after h =
        let (to, found, rest) = bind-ok (deref (get_field_by_name before.name schema)) _ after h in
        cast_to-IsCast schema to before after
          (get_field_by_name-HasField schema before.name to (deref-ok _ to found)) rest

    -- A cast that succeeds keeps the columns of the table, in their order and with their names, and
    -- gives each the type of the only field of the schema with its name. A column that had this type
    -- keeps its chunks. Of another column, each chunk becomes, in order, its result of the cast of
    -- Arrow, or that of `CastStringToLargeString` if Arrow has no cast and the types are these; if
    -- neither is for the types, the column is left without any chunk. Arrow is taken to call no two
    -- different types equal.
    pub cast_columns-AllCast :
        (schema : Schema) (before after : List (Column tables.Array))
        → cast_columns storage arrow tables schema before ≡ ok after
        → AllCast schema before after
    unfolding cast_columns
    cast_columns-AllCast schema [] [] h = tt
    cast_columns-AllCast schema [] (c ∷ cs) h = absurd (ground (arith, h))
    cast_columns-AllCast schema (b ∷ bs) after h =
        let (out, one, more) = bind-ok (cast_column storage arrow tables schema b) _ after h in
        let (rest, others, whole) =
          bind-ok (cast_columns storage arrow tables schema bs) _ after more in
        subst (AllCast schema (b ∷ bs)) (ok-injective whole)
          (cast_column-IsCast schema b out one, cast_columns-AllCast schema bs rest others)
