-- ===== src/Catalog/Blocks.antt =====
-- scripts/vitocatalog/transforms.py `_block_write_blocker`: when a field smaller than its block is written
-- by writing the whole block back.
pub mod Writes
use esphome_vitohome.Common.{
  ℕ, Bool, true, false, not, ◌&&◌, ◌||◌, Option, none, some, List, [], ◌∷◌, leb, ◌==◌, any,
  if◌then◌else◌,
}
use esphome_vitohome.Hub.Access.{Protocol, Access}
use esphome_vitohome.Catalog.{Event}
use esphome_vitohome.Catalog.Modes.{access_eq, access_for, is_writable}

-- `COMMAND_STATE_ADDR`: command register and state register.
abbrev pub command_state_addr : List (ℕ × ℕ)
command_state_addr =
    (0x2330, 0x2303)
    ∷ (0x2331, 0x2302)
    ∷ (0x3330, 0x3303)
    ∷ (0x3331, 0x3302)
    ∷ (0x4330, 0x4303)
    ∷ (0x4331, 0x4302)
    ∷ []

abbrev pub has_state_address : Option ℕ → Bool
has_state_address none = false
has_state_address (some a) = any (λ p. p.0 == a) command_state_addr

abbrev pub Blocks : Type 0
Blocks = List (ℕ × Option Access)

abbrev pub block_of : Option ℕ → Option Access → Blocks → Blocks
block_of none access rest = rest
block_of (some a) access rest = (a, access) ∷ rest

-- `_read_only_blocks`; the set as a list.
unfoldable pub read_only_blocks : List Event → Protocol → Blocks
unfolding is_writable access_for
read_only_blocks [] protocol = []
read_only_blocks (e ∷ es) protocol =
    let rest = read_only_blocks es protocol in
    if is_writable e protocol then rest else block_of e.address (access_for e protocol) rest

abbrev pub in_blocks : Option ℕ → Option Access → Blocks → Bool
in_blocks none access blocks = false
in_blocks (some a) access blocks = any (λ p. (p.0 == a) && access_eq p.1 access) blocks

pub data Blocker : Type 0 where
  partial_writes_off : Blocker
  not_scalar : ℕ → Blocker
  block_too_long : ℕ → Blocker
  live_data : Blocker
  separate_state : Blocker

-- `_block_write_blocker`
unfoldable pub block_write_blocker :
    Event
    → Protocol
    → (block_len field_width : ℕ) → Blocks
    → (partial_writes : Bool) → Option Blocker
unfolding access_for
block_write_blocker ev protocol block_len field_width ro_blocks partial_writes =
    if not partial_writes
    then some partial_writes_off
    else if not (leb 1 field_width && leb field_width 4)
    then some (not_scalar field_width)
    else if not (leb block_len 16)
    then some (block_too_long block_len)
    else if in_blocks ev.address (access_for ev protocol) ro_blocks
    then some live_data
    else if has_state_address ev.address
    then some separate_state
    else none
