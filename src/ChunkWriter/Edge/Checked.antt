-- ===== src/ChunkWriter/Edge/Checked.antt =====
-- What a write of an adjacent list chunk that is OK has checked (arrow/chunk_writer.cc).
use graph_ar.Base.{
  ◌≡◌, ok, true, arith, Result-cases, Bool-cases, inl, inr, sym, ◌∙◌, bind-ok, key_error, reject_if,
  invalid, subst,
}
use graph_ar.Base.Int.{ℤ, pos, ◌≤ℤ◌, ltb_ℤ}
use graph_ar.EdgeInfo
use graph_ar.Storage.{Storage}
use graph_ar.Types.Names.{not_named}
use graph_ar.Writer.{ValidateLevel, effective, effective-effective, IsChecked, at_level-IsChecked}
use graph_ar.ChunkWriter.{Tables}
use graph_ar.ChunkWriter.Edge.{EdgeChunkWriter, count_checks, validate_counts, validate_adj_list}
use graph_ar.ChunkWriter.Edge.Write.{write_adj_list_chunk}

module _ (storage : Storage) (tables : Tables storage) where
  count_checks-ok :
      (w : EdgeChunkWriter storage tables) (a b : ℤ)
      → count_checks storage tables w a b ≡ ok tt
      → (EdgeInfo.has_adjacent_list_type w.edge_info w.adj_list_type ≡ true)
        × (pos 0 ≤ℤ a)
        × (pos 0 ≤ℤ b)
  count_checks-ok w a b h =
      elim (Bool-cases (EdgeInfo.has_adjacent_list_type w.edge_info w.adj_list_type)) [
        | inr absent ↦ absurd (not_named w.adj_list_type tt key_error (ground (arith, h, absent)))
        | inl there ↦ (there, ground (arith, h, there), ground (arith, h, there))
      ]

  -- At any level but without validation, a `WriteAdjListChunk` that is OK was given an edge info that
  -- has the list type, indices that are not negative, and no more rows than an edge chunk holds.
  pub write_adj_list_chunk-ok :
      (w : EdgeChunkWriter storage tables) (table : tables.Table) (a b : ℤ) (level : ValidateLevel)
      (files : tables.Files)
      → IsChecked (effective w.validate_level level)
      → (write_adj_list_chunk storage tables w table a b level files).1 ≡ ok tt
      → (EdgeInfo.has_adjacent_list_type w.edge_info w.adj_list_type ≡ true)
        × (pos 0 ≤ℤ a)
        × (pos 0 ≤ℤ b)
        × (tables.num_rows table ≤ℤ w.edge_info.chunk_size)
  unfolding write_adj_list_chunk validate_adj_list validate_counts
  write_adj_list_chunk-ok w table a b level files checked h =
      let l = effective w.validate_level level in
      elim (Result-cases (validate_adj_list storage tables w table a b level)) [
        | inr (f, e) ↦ absurd (ground (arith, h, e))
        | inl (u, e) ↦
            let passed = sym (at_level-IsChecked l _ checked) ∙ e in
            let (v, counts, more) = bind-ok (validate_counts storage tables w a b l) _ u passed in
            let (x, rows, rest) =
              bind-ok (reject_if (ltb_ℤ w.edge_info.chunk_size (tables.num_rows table)) invalid) _ u
                more in
            let again =
              subst IsChecked (sym (effective-effective w.validate_level level)) checked in
            let (there, first, second) =
              count_checks-ok w a b
                (sym (at_level-IsChecked (effective w.validate_level l) _ again) ∙ counts) in
            (there, first, second, ground (arith, rows))
      ]
