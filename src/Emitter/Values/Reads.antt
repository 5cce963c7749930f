-- ===== src/Emitter/Values/Reads.antt =====
-- The platforms that only read, on a field that is not a writable one.
use mathlib.Core.Path.{subst}
use esphome_vitohome.Common.{
  ℕ, ◌+◌, ◌%◌, ◌≤◌, ◌≡◌, refl, ◌≢◌, ◌⊎◌, inl, inr, Bool, true, false, not, ◌&&◌, ◌||◌, Option, none,
  some, List, arith, String, ℤ, pos, ltb_ℤ, ◌==◌, ◌+ℤ◌, max_ℤ, is_odd, if◌then◌else◌, le→leb,
}
use esphome_vitohome.Hub.Access.{text_sensor}
use esphome_vitohome.Hub.Invalid.{ok}
use esphome_vitohome.Hub.Fields.{Config}
use esphome_vitohome.Readers.{validate_string_extraction}
use esphome_vitohome.Catalog.Floats.{Floats}
use esphome_vitohome.Emitter.{
  TextType, enum, ascii, utf16, EntitySpec, plain_spec, Emitted, Reason, comment, entity,
  utf16_length, ascii_too_long,
}
use esphome_vitohome.Emitter.Reading.{IsAccepted, text_result}
use esphome_vitohome.Emitter.Strings.{is_ascii, is_utf16, string_spec, string_result, string_entity}
use esphome_vitohome.Emitter.Values.Places.{place}

-- A field that is read: as a whole datapoint, or inside a block.
abbrev pub read_config : ℕ → Option ℕ → ℕ → Option ℕ → Option ℕ → Option Bool → Config
read_config address mask length byte_offset byte_length signed = record {
  address = address;
  state_address = none;
  length = length;
  byte_offset = byte_offset;
  byte_length = byte_length;
  bit_mask = mask;
  signed = signed;
}

block_end :
    (size width off : ℕ) → off + width ≤ size → max_ℤ (pos size) (pos off +ℤ pos width) ≡ pos size
block_end size width off inside = ground arith

string_field-ok :
    (field_max : ℕ) (even : Bool) (address width : ℕ)
    → 1 ≤ width
    → width ≤ field_max
    → (let c = read_config address none width none none none in
        validate_string_extraction field_max even c ≡ ok c)
unfolding validate_string_extraction
string_field-ok field_max even address width low high =
    rw (le→leb 1 width low, le→leb width field_max high) refl

string_block-ok :
    (field_max : ℕ) (even : Bool) (address size width off : ℕ)
    → 1 ≤ width
    → width ≤ field_max
    → (even && is_odd (pos width)) ≡ false
    → off + width ≤ size
    → size ≤ 48
    → (let c = read_config address none size (some off) (some width) none in
        validate_string_extraction field_max even c ≡ ok c)
unfolding validate_string_extraction
string_block-ok field_max even address size width off low high parity inside short =
    rw
      (
        le→leb 1 size (omega arith),
        le→leb size 48 short,
        le→leb (off + width) size inside,
        le→leb width field_max high,
      )
      (let same_parity : (even && not (width % 2 == 0)) ≡ false = ground arith in
        rw same_parity refl)

module _ (F : Floats) (options : List (ℤ × String)) (lo hi : F.Float) where
  abbrev pub Accepted : EntitySpec F.Float → Type 0
  Accepted spec = IsAccepted F spec options lo hi

  pub of_entity :
      (x spec : EntitySpec F.Float)
      → IsAccepted F x options lo hi
      → entity x ≡ entity spec
      → IsAccepted F spec options lo hi
  of_entity x spec h e = (let q : x ≡ spec = cc in subst Accepted q h)

  -- A string of its own datapoint, and one inside a block.
  abbrev own_string : TextType → (addr width : ℕ) → EntitySpec F.Float
  own_string kind addr width = record (plain_spec text_sensor addr) {
    platform_type = some kind;
    diagnostic = is_ascii kind;
    length = pos width;
  }

  abbrev block_string : TextType → (addr size width off : ℕ) → EntitySpec F.Float
  block_string kind addr size width off = record (plain_spec text_sensor addr) {
    platform_type = some kind;
    diagnostic = is_ascii kind;
    length = pos size;
    byte_offset = some (pos off);
    byte_length = some (pos width);
    disabled_by_default = is_utf16 kind;
  }

  string_result-cases :
      (kind : TextType) (addr size width off : ℕ) (spec : EntitySpec F.Float)
      → off + width ≤ size
      → string_result (string_spec kind addr (place size width off)) ≡ entity spec
      → (own_string kind addr width ≡ spec)
        ⊎ ((block_string kind addr size width off ≡ spec) × (size ≤ 48))
  unfolding string_spec
  string_result-cases kind addr size width off spec inside =
      go (off == 0) (max_ℤ (pos size) (pos off +ℤ pos width)) (block_end size width off inside)
    where
      fits : (wide : Bool) → ltb_ℤ (pos 48) (pos size) ≡ wide → wide ≡ false → size ≤ 48
      fits wide e q = ground arith

      block_result :
          (wide : Bool)
          → string_result (if wide then none else some (block_string kind addr size width off))
            ≡ entity spec
          → (block_string kind addr size width off ≡ spec) × (wide ≡ false)
      block_result true h = cc
      block_result false h = (cc, refl)

      go :
          (own : Bool) (len : ℤ)
          → len ≡ pos size
          → string_result (
              if own
              then some (own_string kind addr width)
              else if ltb_ℤ (pos 48) len
              then none
              else some (record (block_string kind addr size width off) { length = len }))
            ≡ entity spec
          → (own_string kind addr width ≡ spec)
            ⊎ ((block_string kind addr size width off ≡ spec) × (size ≤ 48))
      go true len e h = inl (cc)
      go false len e h =
          let (q, r) = block_result (ltb_ℤ (pos 48) (pos size)) (rw e at h) in
          inr (q, fits (ltb_ℤ (pos 48) (pos size)) refl r)

  -- The component's two string types.
  abbrev TypeIs : TextType → ℕ → Bool → Type 0
  TypeIs ascii field_max even = (field_max ≡ 32) × (even ≡ false)
  TypeIs utf16 field_max even = (field_max ≡ 40) × (even ≡ true)
  TypeIs enum field_max even = ⊥

  typed :
      (kind : TextType) (field_max : ℕ) (even : Bool) (c : Config)
      → TypeIs kind field_max even
      → validate_string_extraction field_max even c ≡ ok c
      → text_result F (some kind) options c ≡ ok c
  typed ascii field_max even c (p, q) h = rw (p, q) at h
  typed utf16 field_max even c (p, q) h = rw (p, q) at h
  typed enum field_max even c t h = absurd t

  string_result-Accepted :
      (kind : TextType) (field_max : ℕ) (even : Bool) (addr size width off : ℕ)
      (spec : EntitySpec F.Float)
      → TypeIs kind field_max even
      → 1 ≤ width
      → width ≤ field_max
      → (even && is_odd (pos width)) ≡ false
      → off + width ≤ size
      → string_result (string_spec kind addr (place size width off)) ≡ entity spec
      → Accepted spec
  string_result-Accepted kind field_max even addr size width off spec t low high parity inside h =
      elim (string_result-cases kind addr size width off spec inside h) [
        | inl q ↦ subst Accepted q (
          read_config addr none width none none none,
          (refl, refl, refl, refl, refl, refl, refl),
          typed kind field_max even (read_config addr none width none none none) t
              (string_field-ok field_max even addr width low high),
        )
        | inr (q, short) ↦ subst Accepted q (
          read_config addr none size (some off) (some width) none,
          (refl, refl, refl, refl, refl, refl, refl),
          typed kind field_max even (read_config addr none size (some off) (some width) none) t
              (string_block-ok field_max even addr size width off low high parity inside short),
        )
      ]

  pub past :
      {r : Emitted F.Float} (b : Bool) (reason : Reason) (spec : EntitySpec F.Float)
      → (if b then comment reason else r) ≡ entity spec
      → (b ≡ false) × (r ≡ entity spec)
  past true reason spec h = cc
  past false reason spec h = (refl, h)

  pub string_entity-IsAccepted :
      (kind : TextType) (addr size width off : ℕ) (spec : EntitySpec F.Float)
      → (kind ≢ enum)
      → 1 ≤ width
      → off + width ≤ size
      → string_entity kind addr (place size width off) ≡ entity spec
      → IsAccepted F spec options lo hi
  string_entity-IsAccepted enum addr size width off spec k low inside h = absurd (k refl)
  string_entity-IsAccepted ascii addr size width off spec k low inside h =
      let (b, r) = past (ltb_ℤ (pos 32) (pos width)) ascii_too_long spec h in
      string_result-Accepted ascii 32 false addr size width off spec (refl, refl) low (ground arith)
        refl inside r
  string_entity-IsAccepted utf16 addr size width off spec k low inside h =
      let (b, r) = past (ltb_ℤ (pos 40) (pos width) || is_odd (pos width)) utf16_length spec h in
      let (high, parity) = neither (ltb_ℤ (pos 40) (pos width)) (is_odd (pos width)) b in
      string_result-Accepted utf16 40 true addr size width off spec (refl, refl) low (ground arith)
        parity inside r
    where
      neither : (a b : Bool) → (a || b) ≡ false → (a ≡ false) × (b ≡ false)
      neither a b h = ground arith
