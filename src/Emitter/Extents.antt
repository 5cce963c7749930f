-- ===== src/Emitter/Extents.antt =====
-- scripts/vitocatalog/emitter.py: the bytes of a field, of a string and of a field that stands alone.
use esphome_vitohome.Common.{
  ℕ, ◌≡◌, ◌≢◌, refl, Bool, true, false, not, ◌&&◌, ◌||◌, Option, none, some, ℤ, pos, ltb_ℤ, eqb_ℤ,
  eqb_ℤ_iff, max_ℤ, ◌+ℤ◌, is_odd, if◌then◌else◌, sym,
}
use esphome_vitohome.Catalog.Floats.{Floats}
use esphome_vitohome.Emitter.{
  TextType, enum, ascii, utf16, EntitySpec, Emitted, skipped, comment, entity,
}
use esphome_vitohome.Emitter.Values.{smaller_than_block}
use esphome_vitohome.Emitter.Strings.{
  Place, string_spec, string_result, is_zero, string_entity, extracts, unless_one,
}
use esphome_vitohome.Emitter.Holds.{Holds, either-Holds}

-- The first byte of the field in the bytes that are read, and how many it has.
abbrev pub start_from : Option ℤ → ℤ
start_from none = pos 0
start_from (some n) = n

abbrev pub size_from : (byte_offset byte_length : Option ℤ) → ℤ → ℤ
size_from none b length = length
size_from (some _) none length = pos 1
size_from (some _) (some n) length = n

-- The field is `length` bytes from the byte `off` on.
abbrev pub IsField : {Float : Type 0} → (off length : ℤ) → EntitySpec Float → Type 0
IsField off length spec =
    (start_from spec.byte_offset ≡ off)
    × (size_from spec.byte_offset spec.byte_length spec.length ≡ length)

-- An enumeration is read as wide as its values.
abbrev pub IsValueField : {Float : Type 0} → (off length : ℤ) → EntitySpec Float → Type 0
IsValueField off length spec = spec.platform_type ≢ some enum → IsField off length spec

pub size-unless_one : (off n length : ℤ) → size_from (some off) (unless_one n) length ≡ n
size-unless_one off n length = go (eqb_ℤ n (pos 1)) refl
  where
    go :
        (b : Bool)
        → eqb_ℤ n (pos 1) ≡ b
        → size_from (some off) (if b then none else some n) length ≡ n
    go true e = sym ((eqb_ℤ_iff n (pos 1)).0 e)
    go false e = refl

is_zero-eq : (n : ℤ) → is_zero n ≡ true → pos 0 ≡ n
is_zero-eq n h = sym ((eqb_ℤ_iff n (pos 0)).0 h)

string_entity-IsField :
    (Float : Type 0) (kind : TextType) (addr : ℕ) (p : Place)
    → Holds {Float = Float} (IsField p.field_off p.length) (string_result (string_spec kind addr p))
unfolding string_spec
string_entity-IsField Float kind addr p =
    go (is_zero p.field_off) (ltb_ℤ (pos 48) (max_ℤ p.block_len (p.field_off +ℤ p.length))) _ _
      (λ e. (is_zero-eq p.field_off e, refl)) (refl, refl) refl
  where
    go :
        (a b : Bool) (x y : EntitySpec Float)
        → (is_zero p.field_off ≡ true → IsField p.field_off p.length x)
        → IsField p.field_off p.length y
        → is_zero p.field_off ≡ a
        → Holds
            (IsField p.field_off p.length)
            (string_result (if a then some x else if b then none else some y))
    go true b x y h k e = h e
    go false true x y h k e = tt
    go false false x y h k e = k

weaken :
    {Float : Type 0} (off length : ℤ) (r : Emitted Float)
    → Holds (IsField off length) r
    → Holds (IsValueField off length) r
weaken off length skipped h = tt
weaken off length (comment reason) h = tt
weaken off length (entity spec) h = λ k. h

pub string-IsValueField :
    (Float : Type 0) (kind : TextType) (addr : ℕ) (p : Place)
    → Holds {Float = Float} (IsValueField p.field_off p.length) (string_entity kind addr p)
string-IsValueField Float kind addr p =
    weaken p.field_off p.length (string_entity kind addr p) (go kind)
  where
    go :
        (kind : TextType)
        → Holds {Float = Float} (IsField p.field_off p.length) (string_entity kind addr p)
    go enum =
        either-Holds (IsField p.field_off p.length) (ltb_ℤ (pos 32) p.length) _ _ tt
          (string_entity-IsField Float enum addr p)
    go ascii =
        either-Holds (IsField p.field_off p.length) (ltb_ℤ (pos 32) p.length) _ _ tt
          (string_entity-IsField Float ascii addr p)
    go utf16 =
        either-Holds (IsField p.field_off p.length) (ltb_ℤ (pos 40) p.length || is_odd p.length) _ _
          tt (string_entity-IsField Float utf16 addr p)

-- A field that is read alone is the first of its block.
pub first_byte :
    (p : Place)
    → (not (is_zero p.field_off) && not (extracts p)) ≡ false
    → extracts p ≡ false
    → pos 0 ≡ p.field_off
first_byte p a e = is_zero-eq p.field_off (go (is_zero p.field_off) (extracts p) a e)
  where
    go : (z x : Bool) → (not z && not x) ≡ false → x ≡ false → z ≡ true
    go true x h e = refl
    go false true h e = cc
    go false false h e = cc

pub first_bytes :
    (F : Floats) (p : Place)
    → (not (is_zero p.field_off) && not (extracts p)) ≡ false
    → smaller_than_block F p ≡ false
    → pos 0 ≡ p.field_off
first_bytes F p a e =
    is_zero-eq p.field_off (go (is_zero p.field_off) (ltb_ℤ (pos 0) p.field_off) _ _ _ a e)
  where
    go :
        (z positive x y w : Bool)
        → (not z && not (positive && x && y)) ≡ false
        → (positive || w) ≡ false
        → z ≡ true
    go true positive x y w h e = refl
    go false true x y w h e = cc
    go false false x y w h e = cc
