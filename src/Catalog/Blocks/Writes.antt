-- ===== src/Catalog/Blocks/Writes.antt =====
-- A block that the generator writes back whole holds no read-only datapoint.
use mathlib.Core.List.{Memᴰ}
use esphome_vitohome.Common.{
  ℕ, ◌≤◌, ◌≡◌, refl, inl, inr, Bool, true, false, not, ◌&&◌, ◌||◌, Option, none, some, List, [],
  ◌∷◌, arith, leb, ◌==◌, any, if◌then◌else◌, Bool-cases, not_both,
}
use esphome_vitohome.Hub.Access.{
  Protocol, Access, physical, virtual, eeprom, xram, port, be, kmbus_eeprom, kmbus_ram, rpc, gfa,
}
use esphome_vitohome.Catalog.{Event}
use esphome_vitohome.Catalog.Modes.{access_eq, access_for, is_writable}
use esphome_vitohome.Catalog.Blocks.{
  Blocks, block_of, read_only_blocks, in_blocks, has_state_address, partial_writes_off, not_scalar,
  block_too_long, live_data, separate_state, block_write_blocker,
}

pub blocker-parts :
    (ev : Event) (protocol : Protocol) (block_len width : ℕ) (ro_blocks : Blocks)
    (partial_writes : Bool)
    → block_write_blocker ev protocol block_len width ro_blocks partial_writes ≡ none
    → (1 ≤ width)
      × (width ≤ 4)
      × (block_len ≤ 16)
      × (in_blocks ev.address (access_for ev protocol) ro_blocks ≡ false)
unfolding block_write_blocker
blocker-parts ev protocol block_len width ro_blocks partial_writes h =
    let (a, b, c) =
      go partial_writes (leb 1 width && leb width 4) (leb block_len 16)
        (in_blocks ev.address (access_for ev protocol) ro_blocks) (has_state_address ev.address)
        h in
    (ground arith, ground arith, ground arith, c)
  where
    go :
        (p w l r s : Bool)
        → (if not p
            then some partial_writes_off
            else if not w
            then some (not_scalar width)
            else if not l
            then some (block_too_long block_len)
            else if r
            then some live_data
            else if s
            then some separate_state
            else none)
          ≡ none
        → (w ≡ true) × (l ≡ true) × (r ≡ false)
    go false w l r s h = cc
    go true false l r s h = cc
    go true true false r s h = cc
    go true true true true s h = cc
    go true true true false s h = (refl, refl, refl)

access_eq_refl : (o : Option Access) → access_eq o o ≡ true
access_eq_refl none = refl
access_eq_refl (some physical) = refl
access_eq_refl (some virtual) = refl
access_eq_refl (some eeprom) = refl
access_eq_refl (some xram) = refl
access_eq_refl (some port) = refl
access_eq_refl (some be) = refl
access_eq_refl (some kmbus_ram) = refl
access_eq_refl (some kmbus_eeprom) = refl
access_eq_refl (some rpc) = refl
access_eq_refl (some gfa) = refl

in_blocks-block_of :
    (o : Option ℕ) (a : ℕ) (access access' : Option Access) (rest : Blocks)
    → in_blocks (some a) access rest ≡ true
    → in_blocks (some a) access (block_of o access' rest) ≡ true
in_blocks-block_of none a access access' rest h = h
in_blocks-block_of (some b) a access access' rest h =
    rw h (or_true ((b == a) && access_eq access' access))
  where
    or_true : (x : Bool) → (x || true) ≡ true
    or_true x = ground arith

head_in :
    (b : Bool) (o : Option ℕ) (access : Option Access) (rest : Blocks) (a : ℕ)
    → b ≡ false
    → o ≡ some a
    → in_blocks (some a) access (if b then rest else block_of o access rest) ≡ true
head_in b o access rest a h q =
    rw (h, q, access_eq_refl access) (here (any (λ p. (p.0 == a) && access_eq p.1 access) rest))
  where
    here : (x : Bool) → (((a == a) && true) || x) ≡ true
    here x = ground arith

at_address :
    (o : Option ℕ) (a : ℕ) (access access' : Option Access) (blocks : Blocks)
    → o ≡ some a
    → access' ≡ access
    → in_blocks (some a) access' blocks ≡ true
    → in_blocks o access blocks ≡ true
at_address o a access access' blocks q e h = rw (q, ← e) h

read_only_blocks-has :
    (es : List Event) (protocol : Protocol) (e : Event) (a : ℕ)
    → Memᴰ e es
    → e.address ≡ some a
    → is_writable e protocol ≡ false
    → in_blocks (some a) (access_for e protocol) (read_only_blocks es protocol) ≡ true
unfolding read_only_blocks
read_only_blocks-has [] protocol e a i q w = elim i [ ]
read_only_blocks-has (x ∷ es) protocol e a (Memᴰ.head p) q w = rw p (
    head_in (is_writable x protocol) x.address (access_for x protocol)
      (read_only_blocks es protocol) a (rw p at w) (rw p at q))
read_only_blocks-has (x ∷ es) protocol e a (Memᴰ.tail i) q w =
    let later = read_only_blocks-has es protocol e a i q w in
    elim (Bool-cases (is_writable x protocol)) [
      | inl k ↦ rw k later
      | inr k ↦ rw k (
          in_blocks-block_of x.address a (access_for e protocol) (access_for x protocol)
            (read_only_blocks es protocol) later)
    ]

-- Where a whole-block write is not blocked, every datapoint of the device at the same address and in
-- the same access mode is writable.
pub block_write_blocker-writable :
    (ev e : Event) (es : List Event) (protocol : Protocol) (block_len width a : ℕ)
    (partial_writes : Bool)
    → block_write_blocker ev protocol block_len width (read_only_blocks es protocol) partial_writes
      ≡ none
    → Memᴰ e es
    → ev.address ≡ some a
    → e.address ≡ some a
    → access_for e protocol ≡ access_for ev protocol
    → is_writable e protocol ≡ true
block_write_blocker-writable ev e es protocol block_len width a partial_writes h i p q same =
    elim (Bool-cases (is_writable e protocol)) [
      | inl w ↦ w
      | inr w ↦ absurd (
          not_both
            (at_address ev.address a (access_for ev protocol) (access_for e protocol)
              (read_only_blocks es protocol) p same (read_only_blocks-has es protocol e a i q w))
            (blocker-parts ev protocol block_len width (read_only_blocks es protocol) partial_writes
              h).3)
    ]
