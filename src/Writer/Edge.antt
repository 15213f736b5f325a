-- ===== src/Writer/Edge.antt =====
-- `EdgeChunkInfoWriter` (chunk_info_writer.cc).
use graph_ar.Base.{
  subst, Bool-cases, ◌≡◌, sym, ◌∙◌, not, ◌||◌, Option, true, Result, Status, ok, index_error,
  key_error, ◌>>=◌, ◌>>◌, ◌++◌, reject_if, or_raise, if◌then◌else◌, Result-cases, inl, inr, arith,
}
use graph_ar.Base.Text.{Text}
use graph_ar.Base.Int.{ℤ, pos, ltb_ℤ, ◌≤ℤ◌}
use graph_ar.Types.{
  AdjListType, error_naming, unordered_by_source, unordered_by_dest, ordered_by_source,
  ordered_by_dest, other,
}
use graph_ar.Types.Names.{not_named}
use graph_ar.Property.{PropertyGroup}
use graph_ar.EdgeInfo.{EdgeInfo}
use graph_ar.EdgeInfo
use graph_ar.Storage.{Storage}
use graph_ar.Reader.Steps.{Step, with_value}
use graph_ar.Writer.{
  writer_level, effective-effective, ValidateLevel, effective, at_level, at_level-IsChecked,
  IsChecked, Copying,
}

module _ (storage : Storage) (copying : Copying storage) where
  pub record EdgeWriter : Type 0 where
    pub edge_info : EdgeInfo
    pub adj_list_type : AdjListType
    pub chunk_size : ℤ
    pub vertex_chunk_size : ℤ
    pub prefix : Text
    pub fs : storage.FileSystem
    pub validate_level : ValidateLevel

  -- The size of the vertex chunks by which the list is partitioned.
  abbrev partition_size : EdgeInfo → AdjListType → ℤ
  partition_size e unordered_by_source = e.src_chunk_size
  partition_size e ordered_by_source = e.src_chunk_size
  partition_size e unordered_by_dest = e.dst_chunk_size
  partition_size e ordered_by_dest = e.dst_chunk_size
  partition_size e (other n) = e.src_chunk_size

  -- The constructor.
  unfoldable pub new_edge_writer : EdgeInfo → Text → AdjListType → ValidateLevel → Result EdgeWriter
  new_edge_writer edge_info prefix adj_list_type validate_level = do
    level ← writer_level validate_level
    (fs, path) ← or_raise (storage.file_system_from_uri_or_path prefix)
    ok (record {
      edge_info = edge_info;
      adj_list_type = adj_list_type;
      chunk_size = edge_info.chunk_size;
      vertex_chunk_size = partition_size edge_info adj_list_type;
      prefix = path;
      fs = fs;
      validate_level = level;
    })

  abbrev index_checks : EdgeWriter → ℤ → ℤ → Status
  index_checks w a b =
      if not (EdgeInfo.has_adjacent_list_type w.edge_info w.adj_list_type)
      then error_naming w.adj_list_type key_error
      else reject_if (ltb_ℤ a (pos 0) || ltb_ℤ b (pos 0)) index_error

  -- `validate` of two counts or indices.
  unfoldable pub validate : EdgeWriter → ℤ → ℤ → ValidateLevel → Status
  validate w a b level = at_level (effective w.validate_level level) (index_checks w a b)

  -- `validate` of a property group and two indices.
  unfoldable pub validate_group : EdgeWriter → Option PropertyGroup → ℤ → ℤ → ValidateLevel → Status
  validate_group w property_group vertex_chunk_index chunk_index level =
      let effective_level = effective w.validate_level level in
      at_level effective_level (do
        validate w vertex_chunk_index chunk_index effective_level
        has ← EdgeInfo.has_group w.edge_info property_group
        reject_if (not has) key_error)

  -- The end of each write: the file is copied to the path, if there is one.
  abbrev copy_to : EdgeWriter → Text → Result Text → copying.Files → Step copying.Files
  copy_to w file_name path files =
      with_value files path (λ suffix. copying.copy_file w.fs file_name (w.prefix ++ suffix) files)

  -- `WriteAdjListChunk`.
  unfoldable pub write_adj_list_chunk :
      EdgeWriter → Text → ℤ → ℤ → ValidateLevel → copying.Files → Step copying.Files
  write_adj_list_chunk w file_name vertex_chunk_index chunk_index level files =
      with_value files (validate w vertex_chunk_index chunk_index level) (λ valid.
        copy_to w file_name
          (EdgeInfo.Files.get_adj_list_file_path w.edge_info vertex_chunk_index chunk_index
            w.adj_list_type)
          files)

  -- `WriteOffsetChunk`.
  unfoldable pub write_offset_chunk :
      EdgeWriter → Text → ℤ → ValidateLevel → copying.Files → Step copying.Files
  write_offset_chunk w file_name vertex_chunk_index level files =
      with_value files (validate w vertex_chunk_index (pos 0) level) (λ valid.
        copy_to w file_name
          (EdgeInfo.Files.get_adj_list_offset_file_path w.edge_info vertex_chunk_index
            w.adj_list_type)
          files)

  -- `WritePropertyChunk`.
  unfoldable pub write_property_chunk :
      EdgeWriter
      → Text
      → Option PropertyGroup
      → ℤ
      → ℤ
      → ValidateLevel
      → copying.Files
      → Step copying.Files
  write_property_chunk w file_name property_group vertex_chunk_index chunk_index level files =
      with_value files (validate_group w property_group vertex_chunk_index chunk_index level)
        (λ valid.
          copy_to w file_name
            (EdgeInfo.Files.get_property_file_path w.edge_info property_group w.adj_list_type
              vertex_chunk_index chunk_index)
            files)

  checks_ok :
      (w : EdgeWriter) (a b : ℤ)
      → index_checks w a b ≡ ok tt
      → (EdgeInfo.has_adjacent_list_type w.edge_info w.adj_list_type ≡ true)
        × (pos 0 ≤ℤ a)
        × (pos 0 ≤ℤ b)
  checks_ok w a b h =
      elim (Bool-cases (EdgeInfo.has_adjacent_list_type w.edge_info w.adj_list_type)) [
        | inl has ↦ ground (arith, has)
        | inr lacks ↦ absurd (ground (arith, lacks, not_named w.adj_list_type tt key_error))
      ]

  validate_ok :
      (w : EdgeWriter) (a b : ℤ) (level : ValidateLevel)
      → IsChecked (effective w.validate_level level)
      → validate w a b level ≡ ok tt
      → (EdgeInfo.has_adjacent_list_type w.edge_info w.adj_list_type ≡ true)
        × (pos 0 ≤ℤ a)
        × (pos 0 ≤ℤ b)
  unfolding validate
  validate_ok w a b level checked h =
      checks_ok w a b (sym (at_level-IsChecked (effective w.validate_level level) _ checked) ∙ h)

  validate_group_ok :
      (w : EdgeWriter) (property_group : Option PropertyGroup) (a b : ℤ) (level : ValidateLevel)
      → IsChecked (effective w.validate_level level)
      → validate_group w property_group a b level ≡ ok tt
      → (validate w a b (effective w.validate_level level) ≡ ok tt)
        × (EdgeInfo.has_group w.edge_info property_group ≡ ok true)
  unfolding validate_group
  validate_group_ok w property_group a b level checked h =
      let passed = sym (at_level-IsChecked (effective w.validate_level level) _ checked) ∙ h in
      elim (Result-cases (validate w a b (effective w.validate_level level))) [
        | inr (f, e) ↦ absurd (ground (arith, e, passed))
        | inl (u, e) ↦ elim (Result-cases (EdgeInfo.has_group w.edge_info property_group)) [
          | inr (f, g) ↦ absurd (ground (arith, e, g, passed))
          | inl (has, g) ↦ (ground (arith, e), ground (arith, e, g, passed))
        ]
      ]

  -- A checked write of a property chunk that succeeds is of an adjacent list and a property group that
  -- the edge info has, and of indices that are not negative; the file has been copied to the path of
  -- that chunk, and the files are as the copy left them.
  pub edge_write_property_chunk_ok :
      (w : EdgeWriter) (file_name : Text) (property_group : Option PropertyGroup) (a b : ℤ)
      (level : ValidateLevel) (files after : copying.Files)
      → IsChecked (effective w.validate_level level)
      → write_property_chunk w file_name property_group a b level files ≡ (after, ok tt)
      → (EdgeInfo.has_adjacent_list_type w.edge_info w.adj_list_type ≡ true)
        × (EdgeInfo.has_group w.edge_info property_group ≡ ok true)
        × (pos 0 ≤ℤ a)
        × (pos 0 ≤ℤ b)
        × (suffix : Text) × (EdgeInfo.Files.get_property_file_path w.edge_info property_group
              w.adj_list_type a b
            ≡ ok suffix)
        × (copying.copy_file w.fs file_name (w.prefix ++ suffix) files ≡ (after, ok tt))
  unfolding write_property_chunk
  edge_write_property_chunk_ok w file_name property_group a b level files after checked h =
      elim (Result-cases (validate_group w property_group a b level)) [
        | inr (f, e) ↦ absurd (ground (arith, e))
        | inl (u, e) ↦
            let (indices, has) =
              validate_group_ok w property_group a b level checked (ground (arith, e)) in
            let (listed, first, second) =
              validate_ok w a b (effective w.validate_level level)
                (subst IsChecked (sym (effective-effective w.validate_level level)) checked)
                indices in
            elim (Result-cases (
              EdgeInfo.Files.get_property_file_path w.edge_info property_group w.adj_list_type a
                b)) [
                  | inr (f, p) ↦ absurd (ground (arith, e, p))
                  | inl (suffix, p) ↦ (listed, has, first, second, suffix, p, ground (arith, e, p))
                ]
      ]
