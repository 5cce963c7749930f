-- ===== src/Readers/Strings.antt =====
-- Strings, status bits and fault codes: what their validators accept.
use esphome_vitohome.Common.{
  ℕ, ◌+◌, ◌%◌, ◌≤◌, ◌<◌, ◌≡◌, ◌↔◌, ◌≢◌, ◌⊎◌, inl, inr, refl, ◌∙◌, Bool, true, false, not, ◌&&◌,
  Option, none, some, List, [], ◌∷◌, ℤ, pos, ◌≤ℤ◌, leb_ℤ, All, arith, leb, ltb, ◌==◌, if◌then◌else◌,
}
use esphome_vitohome.Hub.Invalid.{Invalid, Result, ok, invalid, ◌>>◌, >>=-eq-ok, fault_code_width}
use esphome_vitohome.Hub.Fields.{Config, guard, validate_fault_codes}
use esphome_vitohome.Hub.Fields.Shape.{guard-next}
use esphome_vitohome.Readers.{
  offset_or_zero, validate_binary_sensor, string_at, validate_string_extraction, some_code,
  validate_codes,
}

-- A string field of `width` bytes inside a block of at most 48 bytes, even where the type asks for it.
abbrev pub StringField : ℕ → Bool → Config → (offset width : ℕ) → Type 0
StringField field_max even c offset width =
    (c.byte_length ≡ some width)
    × (1 ≤ c.length)
    × (c.length ≤ 48)
    × (offset + width ≤ c.length)
    × (width ≤ field_max)
    × ((even ≡ false) ⊎ (width % 2 ≡ 0))

string_lem :
    (field_max : ℕ) (even : Bool) (c c' : Config) (offset : ℕ)
    → c.byte_offset ≡ some offset
    → validate_string_extraction field_max even c ≡ ok c'
    → (width : ℕ) × StringField field_max even c offset width
unfolding validate_string_extraction
string_lem field_max even c c' offset e h =
    go c.byte_length refl (rw (e, validate_string_extraction) at h)
  where
    parity :
        (width : ℕ) → not (even && not (width % 2 == 0)) ≡ true → (even ≡ false) ⊎ (width % 2 ≡ 0)
    parity width h = ground arith

    go :
        (w : Option ℕ)
        → c.byte_length ≡ w
        → string_at field_max even offset w c ≡ ok c'
        → (width : ℕ) × StringField field_max even c offset width
    go none q h = cc
    go (some width) q h =
        let (a, h₁) = guard-next (leb 1 c.length && leb c.length 48) _ _ c' h in
        let (b, h₂) = guard-next (leb (offset + width) c.length) _ _ c' h₁ in
        let (d, h₃) = guard-next (leb width field_max) _ _ c' h₂ in
        let (p, k) = guard-next (not (even && not (width % 2 == 0))) _ (ok c) c' h₃ in
        (width, (q, ground arith, ground arith, ground arith, ground arith, parity width p))

guard-then :
    (b : Bool) (e : Invalid) (m : Result Config) → b ≡ true → (guard b (invalid e) >> m) ≡ m
guard-then true e m h = refl
guard-then false e m h = cc

-- A string that is read at an offset is accepted, unchanged, exactly if its field fits: its width is
-- stated, is at most the type's and even where the type asks for it, and the field lies inside the
-- block, which has 1 to 48 bytes.
pub validate_string_extraction_iff :
    (field_max : ℕ) (even : Bool) (c : Config) (offset : ℕ)
    → c.byte_offset ≡ some offset
    → (validate_string_extraction field_max even c ≡ ok c)
      ↔ ((width : ℕ) × StringField field_max even c offset width)
unfolding validate_string_extraction
validate_string_extraction_iff field_max even c offset at =
    (string_lem field_max even c c offset at, back c.byte_offset c.byte_length at)
  where
    parity :
        (width : ℕ) → ((even ≡ false) ⊎ (width % 2 ≡ 0)) → not (even && not (width % 2 == 0)) ≡ true
    parity width (inl q) = rw q refl
    parity width (inr q) = both even (width % 2 == 0) (ground arith)
      where
        both : (a b : Bool) → b ≡ true → not (a && not b) ≡ true
        both a b h = ground arith

    with_keys : Option ℕ → Option ℕ → Config
    with_keys o w = record c { byte_offset = o; byte_length = w }

    back :
        (o w : Option ℕ)
        → o ≡ some offset
        → (width : ℕ) × StringField field_max even (with_keys o w) offset width
        → validate_string_extraction field_max even (with_keys o w) ≡ ok (with_keys o w)
    back none w e fits = cc
    back (some n) none e (width, fits) = let q : none ≡ some width = fits.0 in cc
    back (some n) (some w) e (width, (q, low, high, inside, narrow, even_width)) =
        let k : n ≡ offset = cc in
        let d : w ≡ width = cc in
        guard-then (leb 1 c.length && leb c.length 48) _ _ (ground arith)
        ∙ guard-then (leb (n + w) c.length) _ _ (rw (k, d) (ground arith))
        ∙ guard-then (leb w field_max) _ _ (rw d (ground arith))
        ∙ guard-then (not (even && not (w % 2 == 0))) _ _ (rw d (parity width even_width))

-- A status bit's configuration is accepted, unchanged, exactly if its byte lies inside the block that is
-- read, which has at most 48 bytes.
pub validate_binary_sensor_iff :
    (c : Config)
    → (validate_binary_sensor c ≡ ok c)
      ↔ ((offset_or_zero c.byte_offset < c.length) × (c.length ≤ 48))
unfolding validate_binary_sensor
validate_binary_sensor_iff c = (forth, back)
  where
    forth :
        validate_binary_sensor c ≡ ok c
        → (offset_or_zero c.byte_offset < c.length) × (c.length ≤ 48)
    forth h =
        let (a, h₁) = guard-next (leb 1 c.length && leb c.length 48) _ _ c h in
        let (b, k) = guard-next (ltb (offset_or_zero c.byte_offset) c.length) _ _ c h₁ in
        (ground arith, ground arith)

    back :
        (offset_or_zero c.byte_offset < c.length) × (c.length ≤ 48)
        → validate_binary_sensor c ≡ ok c
    back (inside, high) =
        guard-then (leb 1 c.length && leb c.length 48) _ _ (ground arith)
        ∙ guard-then (ltb (offset_or_zero c.byte_offset) c.length) _ _ (ground arith)

fault_codes_iff :
    (codes : List ℤ)
    → (validate_fault_codes codes ≡ ok tt) ↔ All (λ v. (pos 0 ≤ℤ v) × (v ≤ℤ pos 0xFF)) codes
unfolding validate_fault_codes
fault_codes_iff [] = (λ _. tt, λ _. refl)
fault_codes_iff (code ∷ codes) =
    let tail = fault_codes_iff codes in
    one (leb_ℤ (pos 0) code && leb_ℤ code (pos 0xFF)) (ground arith) tail
  where
    one :
        {X Y : Type 0} (b : Bool)
        → ((b ≡ true) ↔ X)
        → ((validate_fault_codes codes ≡ ok tt) ↔ Y)
        → ((if b then validate_fault_codes codes else invalid (fault_code_width code)) ≡ ok tt)
          ↔ (X × Y)
    one true f g = (λ h. (f.0 refl, g.0 h), λ p. g.1 p.1)
    one false f g = (λ h. cc, λ p. (let q : false ≡ true = f.1 p.0 in cc))

-- The fault codes of an event are accepted exactly if there is one and each is one byte.
pub validate_codes_iff :
    (codes : List ℤ)
    → (validate_codes codes ≡ ok tt)
      ↔ ((codes ≢ []) × All (λ v. (pos 0 ≤ℤ v) × (v ≤ℤ pos 0xFF)) codes)
unfolding validate_codes
validate_codes_iff codes = (forth codes, λ p. back codes p.0 p.1)
  where
    forth :
        (codes : List ℤ)
        → (validate_fault_codes codes >> some_code codes) ≡ ok tt
        → (codes ≢ []) × All (λ v. (pos 0 ≤ℤ v) × (v ≤ℤ pos 0xFF)) codes
    forth [] h = cc
    forth (code ∷ codes) h =
        let (u, e, k) = >>=-eq-ok (validate_fault_codes (code ∷ codes)) _ h in
        (λ q. cc, (fault_codes_iff (code ∷ codes)).0 e)

    back :
        (codes : List ℤ)
        → codes ≢ []
        → All (λ v. (pos 0 ≤ℤ v) × (v ≤ℤ pos 0xFF)) codes
        → (validate_fault_codes codes >> some_code codes) ≡ ok tt
    back [] q fits = absurd (q refl)
    back (code ∷ codes) q fits = rw ((fault_codes_iff (code ∷ codes)).1 fits) refl
