-- ===== src/Hub/Fields/Targets.antt =====
-- `emit_write_target`: where a validated field is written.
use esphome_vitohome.Common.{
  ℕ, ◌+◌, ◌≤◌, ◌≡◌, refl, ◌≢◌, ◌⊎◌, inl, inr, length, Option, none, some, List, arith, ◌==◌,
  Bool-cases,
}
use esphome_vitohome.Hub.Invalid.{ok}
use esphome_vitohome.Hub.Fields.{
  Config, field_width, validate_block_extraction, WriteTarget, block_field, interior, command,
  same_register, emit_write_target,
}
use esphome_vitohome.Hub.Fields.Shape.{FitsAt, extraction_lem}

-- What is written stays inside what is read, or goes to a register of its own: in block mode the
-- whole block of at most 16 bytes is written back with the field inside it.
abbrev pub WriteSpec : Config → WriteTarget → Type 0
WriteSpec c (block_field offset width) =
    (c.byte_offset ≡ some offset)
    × (c.state_address ≡ none)
    × (width ≡ field_width c)
    × (offset + width ≤ c.length)
    × (c.length ≤ 16)
WriteSpec c (interior address width offset) =
    (c.byte_offset ≡ some offset)
    × (c.state_address ≢ none)
    × (address ≡ c.address)
    × (width ≡ field_width c)
    × (offset + width ≤ c.length)
WriteSpec c (command address length) =
    (c.byte_offset ≡ none)
    × (address ≡ c.address)
    × (length ≡ field_width c)
    × (c.state_address ≢ some c.address)
    × (c.state_address ≢ none)
WriteSpec c same_register =
    (c.byte_offset ≡ none) × ((c.state_address ≡ none) ⊎ (c.state_address ≡ some c.address))

pub emit_write_target_lem :
    (plain_lengths : List ℕ) (c : Config)
    → FitsAt plain_lengths c c.byte_offset
    → WriteSpec c (emit_write_target c)
unfolding emit_write_target field_width
emit_write_target_lem plain_lengths c fits = go c.byte_offset c.state_address fits
  where
    go :
        (o s : Option ℕ)
        → FitsAt plain_lengths (record c { byte_offset = o; state_address = s }) o
        → WriteSpec
            (record c { byte_offset = o; state_address = s })
            (emit_write_target (record c { byte_offset = o; state_address = s }))
    go none none f = ground arith
    go none (some a) f = elim (Bool-cases (a == c.address)) [
      | inl e ↦ rw e (refl, inr (ground arith))
      | inr e ↦ rw e (refl, refl, refl, ground arith, ground arith)
    ]
    go (some offset) none f = ground arith
    go (some offset) (some a) f = ground arith

-- Where the validated field is written. With an offset and no register of its own for the state: into the
-- block that is read, of at most 16 bytes, inside which it lies. With an offset and such a register: to
-- the command register's own address, in the field's width, while the offset and the width stay
-- inside the block that is read. Without an offset: to the command register in the field's width if the
-- state is read from another one, and else to the one register there is.
pub emit_write_target-validated :
    (plain_lengths : List ℕ) (c c' : Config)
    → validate_block_extraction plain_lengths c ≡ ok c'
    → WriteSpec c (emit_write_target c')
emit_write_target-validated plain_lengths c c' h =
    let (same, fits) = extraction_lem plain_lengths c c' h in
    rw same (emit_write_target_lem plain_lengths c fits)
