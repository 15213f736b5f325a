-- ===== src/Writer/Vertex.antt =====
-- `VertexChunkInfoWriter` (chunk_info_writer.cc).
use graph_ar.Base.{
  sym, ◌∙◌, ◌≡◌, not, Option, true, Result, Status, ok, index_error, key_error, ◌>>=◌, ◌>>◌, ◌++◌,
  reject_if, or_raise, Result-cases, inl, inr, arith,
}
use graph_ar.Base.Text.{Text}
use graph_ar.Base.Int.{ℤ, pos, ltb_ℤ, ◌≤ℤ◌}
use graph_ar.Property.{PropertyGroup}
use graph_ar.VertexInfo.{VertexInfo}
use graph_ar.VertexInfo
use graph_ar.Storage.{Storage}
use graph_ar.Reader.Steps.{Step, with_value}
use graph_ar.Writer.{
  writer_level, at_level, at_level-IsChecked, ValidateLevel, effective, IsChecked, Copying,
}

module _ (storage : Storage) (copying : Copying storage) where
  pub record VertexWriter : Type 0 where
    pub vertex_info : VertexInfo
    pub prefix : Text
    pub fs : storage.FileSystem
    pub validate_level : ValidateLevel

  -- The constructor.
  unfoldable pub new_vertex_writer : VertexInfo → Text → ValidateLevel → Result VertexWriter
  new_vertex_writer vertex_info prefix validate_level = do
    level ← writer_level validate_level
    (fs, path) ← or_raise (storage.file_system_from_uri_or_path prefix)
    ok (record { vertex_info = vertex_info; prefix = path; fs = fs; validate_level = level })

  -- The checks of a weak or strong validation.
  abbrev vertex_checks : VertexWriter → Option PropertyGroup → ℤ → Status
  vertex_checks w property_group chunk_index = do
    has ← VertexInfo.has_group w.vertex_info property_group
    reject_if (not has) key_error
    reject_if (ltb_ℤ chunk_index (pos 0)) index_error

  -- `validate`.
  unfoldable pub validate : VertexWriter → Option PropertyGroup → ℤ → ValidateLevel → Status
  validate w property_group chunk_index validate_level =
      at_level (effective w.validate_level validate_level)
        (vertex_checks w property_group chunk_index)

  -- `WriteChunk`.
  unfoldable pub write_chunk :
      VertexWriter
      → Text
      → Option PropertyGroup
      → ℤ
      → ValidateLevel
      → copying.Files
      → Step copying.Files
  write_chunk w file_name property_group chunk_index validate_level files =
      with_value files (validate w property_group chunk_index validate_level) (λ valid.
        with_value files (VertexInfo.get_file_path w.vertex_info property_group chunk_index)
          (λ suffix. copying.copy_file w.fs file_name (w.prefix ++ suffix) files))

  validate_ok :
      (w : VertexWriter) (property_group : Option PropertyGroup) (chunk_index : ℤ)
      (level : ValidateLevel)
      → IsChecked (effective w.validate_level level)
      → validate w property_group chunk_index level ≡ ok tt
      → (VertexInfo.has_group w.vertex_info property_group ≡ ok true) × (pos 0 ≤ℤ chunk_index)
  unfolding validate
  validate_ok w property_group chunk_index level checked h =
      let passed : vertex_checks w property_group chunk_index ≡ ok tt =
        sym (at_level-IsChecked (effective w.validate_level level) _ checked) ∙ h in
      elim (Result-cases (VertexInfo.has_group w.vertex_info property_group)) [
        | inl (has, e) ↦ ground (arith, e)
        | inr (f, e) ↦ absurd (ground (arith, e))
      ]

  -- A checked write that succeeds is of a property group that the vertex info has, and of a chunk
  -- index that is not negative; the file has been copied to the path of that chunk, and the files are
  -- as the copy left them.
  pub vertex_write_chunk_ok :
      (w : VertexWriter) (file_name : Text) (property_group : Option PropertyGroup)
      (chunk_index : ℤ) (level : ValidateLevel) (files after : copying.Files)
      → IsChecked (effective w.validate_level level)
      → write_chunk w file_name property_group chunk_index level files ≡ (after, ok tt)
      → (VertexInfo.has_group w.vertex_info property_group ≡ ok true)
        × (pos 0 ≤ℤ chunk_index)
        × (suffix : Text) × (VertexInfo.get_file_path w.vertex_info property_group chunk_index
            ≡ ok suffix)
        × (copying.copy_file w.fs file_name (w.prefix ++ suffix) files ≡ (after, ok tt))
  unfolding write_chunk
  vertex_write_chunk_ok w file_name property_group chunk_index level files after checked h =
      elim (Result-cases (validate w property_group chunk_index level)) [
        | inr (f, e) ↦ absurd (ground (arith, e))
        | inl (u, e) ↦
            let (has, natural) =
              validate_ok w property_group chunk_index level checked (ground (arith, e)) in
            elim (Result-cases
              (VertexInfo.get_file_path w.vertex_info property_group chunk_index)) [
                | inr (f, p) ↦ absurd (ground (arith, e, p))
                | inl (suffix, p) ↦ (has, natural, suffix, p, ground (arith, e, p))
              ]
      ]
