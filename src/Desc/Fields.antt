-- ===== src/Desc/Fields.antt =====
-- The setters and getters of a descriptor against a record of five fields.
use memif.Prelude.{ℕ, ◌%◌, ◌^◌, ◌≡◌, refl, ◌∙◌, arith, length, inl, inr}
use memif.Bytes.Copy.{length-copy_at}
use memif.Bytes.Endian.{read_le-write_le_16, read_le-write_le_32, read_le-write_le_apart}
use memif.Desc.{
  DescBuf, desc_size, new_desc_buf, get_flags, get_region, get_length, get_offset, get_metadata,
  set_flags, set_region, set_length, set_offset, set_metadata,
}

abbrev pub IsDesc : DescBuf → Type 0
IsDesc db = length db ≡ desc_size

-- What the five getters read.
pub record Fields : Type 0 where
  pub flags : ℕ
  pub region : ℕ
  pub len : ℕ
  pub offset : ℕ
  pub metadata : ℕ

unfoldable pub fields : DescBuf → Fields
fields db = record {
  flags = get_flags db;
  region = get_region db;
  len = get_length db;
  offset = get_offset db;
  metadata = get_metadata db;
}

module _ (val : ℕ) (db : DescBuf) (h : IsDesc db) where
  -- A setter changes its own field, to the value cut to the field's width, and no other.
  pub set_flags-fields : fields (set_flags val db) ≡ record (fields db) { flags = val % 2 ^ 16 }
  unfolding fields get_flags get_region get_length get_offset get_metadata set_flags
  set_flags-fields = λ i. record {
    flags = read_le-write_le_16 0 val db (omega arith) i;
    region = read_le-write_le_apart 2 0 val db 2 2 (inr (omega arith)) i;
    len = read_le-write_le_apart 2 0 val db 4 4 (inr (omega arith)) i;
    offset = read_le-write_le_apart 2 0 val db 4 8 (inr (omega arith)) i;
    metadata = read_le-write_le_apart 2 0 val db 4 12 (inr (omega arith)) i;
  }

  -- A setter changes its own field, to the value cut to the field's width, and no other.
  pub set_region-fields : fields (set_region val db) ≡ record (fields db) { region = val % 2 ^ 16 }
  unfolding fields get_flags get_region get_length get_offset get_metadata set_region
  set_region-fields = λ i. record {
    flags = read_le-write_le_apart 2 2 val db 2 0 (inl (omega arith)) i;
    region = read_le-write_le_16 2 val db (omega arith) i;
    len = read_le-write_le_apart 2 2 val db 4 4 (inr (omega arith)) i;
    offset = read_le-write_le_apart 2 2 val db 4 8 (inr (omega arith)) i;
    metadata = read_le-write_le_apart 2 2 val db 4 12 (inr (omega arith)) i;
  }

  -- A setter changes its own field, to the value cut to the field's width, and no other.
  pub set_length-fields : fields (set_length val db) ≡ record (fields db) { len = val % 2 ^ 32 }
  unfolding fields get_flags get_region get_length get_offset get_metadata set_length
  set_length-fields = λ i. record {
    flags = read_le-write_le_apart 4 4 val db 2 0 (inl (omega arith)) i;
    region = read_le-write_le_apart 4 4 val db 2 2 (inl (omega arith)) i;
    len = read_le-write_le_32 4 val db (omega arith) i;
    offset = read_le-write_le_apart 4 4 val db 4 8 (inr (omega arith)) i;
    metadata = read_le-write_le_apart 4 4 val db 4 12 (inr (omega arith)) i;
  }

  -- A setter changes its own field, to the value cut to the field's width, and no other.
  pub set_offset-fields : fields (set_offset val db) ≡ record (fields db) { offset = val % 2 ^ 32 }
  unfolding fields get_flags get_region get_length get_offset get_metadata set_offset
  set_offset-fields = λ i. record {
    flags = read_le-write_le_apart 4 8 val db 2 0 (inl (omega arith)) i;
    region = read_le-write_le_apart 4 8 val db 2 2 (inl (omega arith)) i;
    len = read_le-write_le_apart 4 8 val db 4 4 (inl (omega arith)) i;
    offset = read_le-write_le_32 8 val db (omega arith) i;
    metadata = read_le-write_le_apart 4 8 val db 4 12 (inr (omega arith)) i;
  }

  -- A setter changes its own field, to the value cut to the field's width, and no other.
  pub set_metadata-fields :
      fields (set_metadata val db) ≡ record (fields db) { metadata = val % 2 ^ 32 }
  unfolding fields get_flags get_region get_length get_offset get_metadata set_metadata
  set_metadata-fields = λ i. record {
    flags = read_le-write_le_apart 4 12 val db 2 0 (inl (omega arith)) i;
    region = read_le-write_le_apart 4 12 val db 2 2 (inl (omega arith)) i;
    len = read_le-write_le_apart 4 12 val db 4 4 (inl (omega arith)) i;
    offset = read_le-write_le_apart 4 12 val db 4 8 (inl (omega arith)) i;
    metadata = read_le-write_le_32 12 val db (omega arith) i;
  }

-- Every setter keeps the sixteen bytes.
pub setters-IsDesc :
    (val : ℕ) (db : DescBuf)
    → IsDesc db
    → IsDesc (set_flags val db)
      × IsDesc (set_region val db)
      × IsDesc (set_length val db)
      × IsDesc (set_offset val db)
      × IsDesc (set_metadata val db)
unfolding set_flags set_region set_length set_offset set_metadata
setters-IsDesc val db h = (
  length-copy_at db 0 _ ∙ h,
  length-copy_at db 2 _ ∙ h,
  length-copy_at db 4 _ ∙ h,
  length-copy_at db 8 _ ∙ h,
  length-copy_at db 12 _ ∙ h,
)

pub new_desc_buf-IsDesc : IsDesc new_desc_buf
unfolding new_desc_buf
new_desc_buf-IsDesc = refl

-- Each setter, followed by the five getters: the field that is set reads as the value cut to the
-- field's width (16 or 32 bits), and the other four read as before.
pub set-fields :
    (val : ℕ) (db : DescBuf)
    → IsDesc db
    → (fields (set_flags val db) ≡ record (fields db) { flags = val % 2 ^ 16 })
      × (fields (set_region val db) ≡ record (fields db) { region = val % 2 ^ 16 })
      × (fields (set_length val db) ≡ record (fields db) { len = val % 2 ^ 32 })
      × (fields (set_offset val db) ≡ record (fields db) { offset = val % 2 ^ 32 })
      × (fields (set_metadata val db) ≡ record (fields db) { metadata = val % 2 ^ 32 })
set-fields val db h = (
  set_flags-fields val db h,
  set_region-fields val db h,
  set_length-fields val db h,
  set_offset-fields val db h,
  set_metadata-fields val db h,
)
