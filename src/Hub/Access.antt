-- ===== src/Hub/Access.antt =====
-- components/vitohome/__init__.py: `access:` values, and the checks of the whole configuration
-- against the hub's protocol.
pub mod Checked
pub mod Capacity
use esphome_vitohome.Common.{
  ℕ, ◌+◌, ◌*◌, String, Bool, true, false, not, ◌&&◌, ◌||◌, Option, none, some, List, [], ◌∷◌, ◌++◌,
  map, leb, ◌==◌, if◌then◌else◌, any, keep_if, length,
}

pub data Protocol : Type 0 where
  p300 kw gwg : Protocol

-- The values of `access:`: the GWG modes, `rpc` and `gfa`.
pub data Access : Type 0 where
  physical virtual eeprom xram port be kmbus_ram kmbus_eeprom rpc gfa : Access

abbrev pub is_rpc : Access → Bool
is_rpc rpc = true
is_rpc _ = false

-- `protocol in ACCESS_SPACES[access].protocols`
unfoldable pub space_protocol : Access → Protocol → Bool
space_protocol rpc p300 = true
space_protocol rpc _ = false
space_protocol gfa kw = true
space_protocol gfa p300 = true
space_protocol gfa gwg = false
space_protocol _ gwg = true
space_protocol _ _ = false

-- `ACCESS_SPACES[access].writable`
unfoldable pub space_writable : Access → Bool
space_writable rpc = false
space_writable gfa = false
space_writable kmbus_ram = false
space_writable kmbus_eeprom = false
space_writable _ = true

pub data Domain : Type 0 where
  sensor binary_sensor text_sensor number select switch text event climate button : Domain

-- climate's nested block
pub record OperatingMode : Type 0 where
  pub address : Option ℕ
  pub state_address : Option ℕ
  pub access : Option Access

-- One entry of a platform domain of the full configuration; a hub is a number.
pub record Entity : Type 0 where
  pub is_vitohome : Bool
  pub hub : Option ℕ
  pub address : Option ℕ
  pub state_address : Option ℕ
  pub target_address : Option ℕ
  pub access : Option Access
  pub has_prefix : Bool
  pub operating_mode : Option OperatingMode
  -- Its type is one that the hub feeds: a connectivity binary sensor, a device_id or scan_result text
  -- sensor, a button that is no action.
  pub hub_fed : Bool

-- The entries of each domain.
abbrev pub Full : Type 0
Full = Domain → List Entity

abbrev pub targets : ℕ → Entity → Bool
targets hub_id e = e.is_vitohome && (elim e.hub [ none ↦ true | some h ↦ h == hub_id ])

-- `_entities_for_hub`
unfoldable pub entities_for_hub : Full → List Domain → ℕ → List (Domain × Entity)
entities_for_hub full [] hub_id = []
entities_for_hub full (d ∷ ds) hub_id =
    map (λ e. (d, e)) (keep_if (targets hub_id) (full d)) ++ entities_for_hub full ds hub_id

abbrev listed : Option ℕ → List ℕ
listed none = []
listed (some a) = a ∷ []

-- `_entity_gwg_addresses`
unfoldable pub entity_gwg_addresses : Entity → List ℕ
entity_gwg_addresses e =
    listed e.address
    ++ (listed e.state_address
        ++ (listed e.target_address ++ (elim e.operating_mode [
          | none ↦ []
          | some m ↦ listed m.address ++ listed m.state_address
        ])))

-- `_entity_access_slots`
unfoldable pub entity_access_slots : Entity → List (Option Access)
entity_access_slots e = e.access ∷ (elim e.operating_mode [ none ↦ [] | some m ↦ m.access ∷ [] ])

pub data Refusal : Type 0 where
  prefix_without_rpc : Domain → Refusal
  wrong_protocol : Domain → Access → Refusal
  read_only_space : Domain → Access → Refusal
  time_sync_gwg : Refusal
  wide_address : Domain → ℕ → Refusal
  unstated_access : Domain → Refusal

-- A check that raises at the first entry that fails: `none` where all pass.
abbrev pub first_refusal {ℓ} : {A : Type ℓ} → (A → Option Refusal) → List A → Option Refusal
first_refusal check [] = none
first_refusal check (x ∷ xs) =
    let rest = first_refusal check xs in elim (check x) [ some r ↦ some r | none ↦ rest ]

abbrev pub rpc_check_domains : List Domain
rpc_check_domains = sensor ∷ binary_sensor ∷ text_sensor ∷ button ∷ []

abbrev pub is_rpc_access : Option Access → Bool
is_rpc_access none = false
is_rpc_access (some a) = is_rpc a

abbrev pub prefix_check : Domain × Entity → Option Refusal
prefix_check (d, e) =
    if e.has_prefix && not (is_rpc_access e.access) then some (prefix_without_rpc d) else none

-- `_validate_rpc_prefix`
unfoldable pub validate_rpc_prefix : Full → ℕ → Option Refusal
unfolding entities_for_hub
validate_rpc_prefix full hub_id =
    first_refusal prefix_check (entities_for_hub full rpc_check_domains hub_id)

-- `domain in _WRITE_DOMAINS`
abbrev pub writes : Domain → Bool
writes number = true
writes select = true
writes switch = true
writes text = true
writes climate = true
writes _ = false

abbrev pub access_domains : List Domain
access_domains =
    sensor ∷ binary_sensor ∷ text_sensor ∷ number ∷ select ∷ switch ∷ text ∷ climate ∷ []

abbrev pub write_domains : List Domain
write_domains = number ∷ select ∷ switch ∷ text ∷ climate ∷ []

abbrev pub address_domains : List Domain
address_domains =
    sensor ∷ binary_sensor ∷ text_sensor ∷ number ∷ select ∷ switch ∷ text ∷ event ∷ climate ∷ []

abbrev pub slot_check : Protocol → Domain → Option Access → Option Refusal
slot_check protocol d none = none
slot_check protocol d (some a) =
    if not (space_protocol a protocol)
    then some (wrong_protocol d a)
    else if writes d && not (space_writable a)
    then some (read_only_space d a)
    else none

abbrev pub spaces_check : Protocol → Domain × Entity → Option Refusal
spaces_check protocol (d, e) = first_refusal (slot_check protocol d) (entity_access_slots e)

-- `_validate_access_spaces`
unfoldable pub validate_access_spaces : Full → ℕ → Protocol → Option Refusal
unfolding entities_for_hub entity_access_slots space_protocol space_writable
validate_access_spaces full hub_id protocol =
    first_refusal (spaces_check protocol)
      (entities_for_hub full (access_domains ++ button ∷ []) hub_id)

abbrev pub address_check : Domain → ℕ → Option Refusal
address_check d addr = if leb addr 0xFF then none else some (wide_address d addr)

abbrev pub addresses_check : Domain × Entity → Option Refusal
addresses_check (d, e) = first_refusal (address_check d) (entity_gwg_addresses e)

abbrev pub stated_check : Domain → Option Access → Option Refusal
stated_check d none = some (unstated_access d)
stated_check d (some a) = none

abbrev pub states_check : Domain × Entity → Option Refusal
states_check (d, e) = first_refusal (stated_check d) (entity_access_slots e)

-- `_entity_capacity_upper_bound`
abbrev pub entity_domains : List Domain
entity_domains =
    sensor ∷ binary_sensor ∷ text_sensor ∷ number ∷ select ∷ switch ∷ text ∷ event ∷ button ∷ []

unfoldable pub entity_capacity_upper_bound : Full → ℕ → Bool → ℕ
unfolding entities_for_hub
entity_capacity_upper_bound full hub_id has_clock =
    length (entities_for_hub full entity_domains hub_id)
    + 2 * length (entities_for_hub full (climate ∷ []) hub_id)
    + (if has_clock then 1 else 0)

-- How often `to_code` of the entity's platform, or for climate the C++ channels that it configures,
-- registers an entity with the hub.
unfoldable pub registrations : Domain × Entity → ℕ
registrations (climate, e) = elim e.operating_mode [ none ↦ 1 | some _ ↦ 2 ]
registrations (binary_sensor, e) = if e.hub_fed then 0 else 1
registrations (text_sensor, e) = if e.hub_fed then 0 else 1
registrations (button, e) = if e.hub_fed then 0 else 1
registrations (_, e) = 1

abbrev pub total : List (Domain × Entity) → ℕ
total [] = 0
total (p ∷ ps) = registrations p + total ps

-- Every domain that there is.
abbrev pub all_domains : List Domain
all_domains =
    sensor ∷ binary_sensor ∷ text_sensor ∷ number ∷ select ∷ switch ∷ text ∷ event ∷ button
    ∷ climate ∷ []

-- All the registrations of a hub: those of its entities, in every domain, and that of its clock.
unfoldable pub registered : Full → ℕ → Bool → ℕ
unfolding registrations entities_for_hub
registered full hub_id has_clock =
    total (entities_for_hub full all_domains hub_id) + (if has_clock then 1 else 0)

pub data Outcome : Type 0 where
  refused : Refusal → Outcome
  capacity : ℕ → Outcome

infixl 5 ◌or_refuse◌
abbrev pub ◌or_refuse◌ : Option Refusal → Outcome → Outcome
none or_refuse rest = rest
some r or_refuse rest = refused r

abbrev pub gwg_checks : Full → ℕ → Bool → Outcome → Outcome
gwg_checks full hub_id has_time_id rest =
    if has_time_id
    then refused time_sync_gwg
    else first_refusal addresses_check (entities_for_hub full address_domains hub_id)
      or_refuse (first_refusal states_check (entities_for_hub full write_domains hub_id)
          or_refuse rest)

abbrev pub protocol_checks : Protocol → Full → ℕ → Bool → Outcome → Outcome
protocol_checks gwg full hub_id has_time_id rest = gwg_checks full hub_id has_time_id rest
protocol_checks _ full hub_id has_time_id rest = rest

-- `_final_validate`: an error, or the capacity that it stores. Its warnings are left out. The
-- protocol is the configured one; the alias VS2 or VS1 stands for P300 or KW.
unfoldable pub final_validate : Protocol → Full → ℕ → Bool → Outcome
unfolding validate_rpc_prefix validate_access_spaces entity_capacity_upper_bound
    entity_gwg_addresses
final_validate protocol full hub_id has_time_id =
    validate_rpc_prefix full hub_id
    or_refuse (validate_access_spaces full hub_id protocol
        or_refuse protocol_checks protocol full hub_id has_time_id
            (capacity (entity_capacity_upper_bound full hub_id has_time_id)))
