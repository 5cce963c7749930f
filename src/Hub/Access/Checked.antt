-- ===== src/Hub/Access/Checked.antt =====
-- What an accepted configuration guarantees of every entity of the hub, and the capacity.
use mathlib.Core.List.{Memᴰ}
use esphome_vitohome.Common.{
  ℕ, ◌≤◌, ◌≡◌, refl, ◌≢◌, ◌⊎◌, inl, inr, Bool, true, false, not, ◌&&◌, Option, none, some, List, [],
  ◌∷◌, ◌++◌, map, arith, if◌then◌else◌, keep_if, mem-keep_if, Bool-cases,
}
use esphome_vitohome.Hub.Access.{
  Protocol, p300, kw, gwg, Access, space_protocol, space_writable, Domain, sensor, binary_sensor,
  text_sensor, number, select, switch, text, event, climate, button, Entity, Full, targets,
  entities_for_hub, entity_gwg_addresses, entity_access_slots, Refusal, first_refusal, writes,
  access_domains, write_domains, address_domains, slot_check, spaces_check, validate_access_spaces,
  address_check, addresses_check, stated_check, states_check, Outcome, capacity, ◌or_refuse◌,
  gwg_checks, protocol_checks, final_validate, validate_rpc_prefix, entity_capacity_upper_bound,
  wrong_protocol, read_only_space,
}

module _ {ℓ} {A : Type ℓ} (check : A → Option Refusal) where
  pub first_refusal-none :
      (xs : List A) (x : A) → first_refusal check xs ≡ none → Memᴰ x xs → check x ≡ none
  first_refusal-none [] x h i = elim i [ ]
  first_refusal-none (y ∷ xs) x h (Memᴰ.head e) = rw e (ground arith)
  first_refusal-none (y ∷ xs) x h (Memᴰ.tail i) = first_refusal-none xs x (ground arith) i

mem-append_left : {A : Type 0} {a : A} (xs ys : List A) → Memᴰ a xs → Memᴰ a (xs ++ ys)
mem-append_left (x ∷ xs) ys (Memᴰ.head e) = Memᴰ.head e
mem-append_left (x ∷ xs) ys (Memᴰ.tail i) = Memᴰ.tail (mem-append_left xs ys i)
mem-append_left [] ys i = elim i [ ]

mem-append_right : {A : Type 0} {a : A} (xs ys : List A) → Memᴰ a ys → Memᴰ a (xs ++ ys)
mem-append_right [] ys i = i
mem-append_right (x ∷ xs) ys i = Memᴰ.tail (mem-append_right xs ys i)

mem-pair :
    (d : Domain) (e : Entity) (es : List Entity)
    → Memᴰ e es
    → Memᴰ {A = Domain × Entity} (d, e) (map (λ x. (d, x)) es)
mem-pair d e [] i = elim i [ ]
mem-pair d e (x ∷ es) (Memᴰ.head p) = Memᴰ.head (rw p)
mem-pair d e (x ∷ es) (Memᴰ.tail i) = Memᴰ.tail (mem-pair d e es i)

module _ (full : Full) (hub_id : ℕ) (e : Entity) (mine : targets hub_id e ≡ true) where
  abbrev of_domain : Domain → List (Domain × Entity)
  of_domain x = map (λ e. (x, e)) (keep_if (targets hub_id) (full x))

  pub mem-entities_for_hub :
      (d : Domain) (ds : List Domain)
      → Memᴰ d ds
      → Memᴰ e (full d)
      → Memᴰ {A = Domain × Entity} (d, e) (entities_for_hub full ds hub_id)
  unfolding entities_for_hub
  mem-entities_for_hub d [] i j = elim i [ ]
  mem-entities_for_hub d (x ∷ ds) (Memᴰ.head p) j =
      mem-append_left (of_domain x) (entities_for_hub full ds hub_id) (
        rw (← p) (
          mem-pair d e (keep_if (targets hub_id) (full d))
            (mem-keep_if (targets hub_id) (full d) e j mine)))
  mem-entities_for_hub d (x ∷ ds) (Memᴰ.tail i) j =
      mem-append_right (of_domain x) (entities_for_hub full ds hub_id)
        (mem-entities_for_hub d ds i j)

-- What one `access:` slot of an entity is under the hub's protocol.
abbrev pub SlotOk : Protocol → Domain → Option Access → Type 0
SlotOk protocol d (some a) =
    (space_protocol a protocol ≡ true) × ((writes d ≡ false) ⊎ (space_writable a ≡ true))
SlotOk protocol d none = (protocol ≢ gwg) ⊎ (writes d ≡ false)

abbrev pub AddressOk : Protocol → ℕ → Type 0
AddressOk protocol a = (protocol ≢ gwg) ⊎ (a ≤ 0xFF)

pub or_refuse-eq-capacity :
    (o : Option Refusal) (rest : Outcome) (n : ℕ)
    → (o or_refuse rest) ≡ capacity n
    → (o ≡ none) × (rest ≡ capacity n)
or_refuse-eq-capacity none rest n h = (refl, h)
or_refuse-eq-capacity (some r) rest n h = cc

slot_lem :
    (protocol : Protocol) (d : Domain) (a : Access)
    → slot_check protocol d (some a) ≡ none
    → (space_protocol a protocol ≡ true) × ((writes d ≡ false) ⊎ (space_writable a ≡ true))
slot_lem protocol d a h = go (space_protocol a protocol) (writes d) (space_writable a) h
  where
    go :
        (p w s : Bool)
        → (if not p
            then some (wrong_protocol d a)
            else if w && not s
            then some (read_only_space d a)
            else none)
          ≡ none
        → (p ≡ true) × ((w ≡ false) ⊎ (s ≡ true))
    go p w s h = ground arith

address_lem : (d : Domain) (a : ℕ) → address_check d a ≡ none → a ≤ 0xFF
address_lem d a h = ground arith

write_domains-mem : (d : Domain) → writes d ≡ true → Memᴰ d write_domains
write_domains-mem number h = Memᴰ.head refl
write_domains-mem select h = Memᴰ.tail (Memᴰ.head refl)
write_domains-mem switch h = Memᴰ.tail (Memᴰ.tail (Memᴰ.head refl))
write_domains-mem text h = Memᴰ.tail (Memᴰ.tail (Memᴰ.tail (Memᴰ.head refl)))
write_domains-mem climate h = Memᴰ.tail (Memᴰ.tail (Memᴰ.tail (Memᴰ.tail (Memᴰ.head refl))))
write_domains-mem sensor h = cc
write_domains-mem binary_sensor h = cc
write_domains-mem text_sensor h = cc
write_domains-mem event h = cc
write_domains-mem button h = cc

stated_lem : (d : Domain) → ¬ (stated_check d none ≡ none)
stated_lem d h = cc

gwg-or-not : (p : Protocol) → (p ≡ gwg) ⊎ (p ≢ gwg)
gwg-or-not p300 = inr (λ e. cc)
gwg-or-not kw = inr (λ e. cc)
gwg-or-not gwg = inl refl

module _ (protocol : Protocol) (full : Full) (hub_id n : ℕ) (has_time_id : Bool)
    (accepted : final_validate protocol full hub_id has_time_id ≡ capacity n) where
  pub spaces_part :
      (validate_rpc_prefix full hub_id ≡ none)
      × (validate_access_spaces full hub_id protocol ≡ none)
      × (protocol_checks protocol full hub_id has_time_id
            (capacity (entity_capacity_upper_bound full hub_id has_time_id))
          ≡ capacity n)
  unfolding final_validate
  spaces_part =
      let (a, h) = or_refuse-eq-capacity (validate_rpc_prefix full hub_id) _ n accepted in
      let (b, k) = or_refuse-eq-capacity (validate_access_spaces full hub_id protocol) _ n h in
      (a, b, k)

  gwg_part :
      protocol ≡ gwg
      → (has_time_id ≡ false)
        × (first_refusal addresses_check (entities_for_hub full address_domains hub_id) ≡ none)
        × (first_refusal states_check (entities_for_hub full write_domains hub_id) ≡ none)
  gwg_part e = go has_time_id (rw e at spaces_part.2)
    where
      go :
          (t : Bool)
          → gwg_checks full hub_id t
              (capacity (entity_capacity_upper_bound full hub_id has_time_id))
            ≡ capacity n
          → (t ≡ false)
            × (first_refusal addresses_check (entities_for_hub full address_domains hub_id) ≡ none)
            × (first_refusal states_check (entities_for_hub full write_domains hub_id) ≡ none)
      go true h = cc
      go false h =
          let (a, k) =
            or_refuse-eq-capacity
              (first_refusal addresses_check (entities_for_hub full address_domains hub_id)) _ n
              h in
          let (b, l) =
            or_refuse-eq-capacity
              (first_refusal states_check (entities_for_hub full write_domains hub_id)) _ n k in
          (refl, a, b)

  module _ (d : Domain) (e : Entity) (mine : targets hub_id e ≡ true) (here : Memᴰ e (full d)) where
    slot-refusal :
        (s : Option Access)
        → Memᴰ d (access_domains ++ button ∷ [])
        → Memᴰ s (entity_access_slots e)
        → slot_check protocol d s ≡ none
    unfolding validate_access_spaces
    slot-refusal s i j =
        first_refusal-none (slot_check protocol d) (entity_access_slots e) s
          (first_refusal-none (spaces_check protocol)
            (entities_for_hub full (access_domains ++ button ∷ []) hub_id) (d, e) spaces_part.1
            (mem-entities_for_hub full hub_id e mine d (access_domains ++ button ∷ []) i here))
          j

    unstated : protocol ≡ gwg → writes d ≡ true → ¬ Memᴰ none (entity_access_slots e)
    unstated g w j = stated_lem d (
        first_refusal-none (stated_check d) (entity_access_slots e) none
          (first_refusal-none states_check (entities_for_hub full write_domains hub_id) (d, e)
            (gwg_part g).2
            (mem-entities_for_hub full hub_id e mine d write_domains (write_domains-mem d w) here))
          j)

    -- In an accepted configuration, every place where an entity of the hub can state an access mode, of
    -- a domain that has one, states a mode that the hub's protocol has a telegram for, and a writable
    -- one where the domain writes; or it states none, which under GWG only a domain that does not
    -- write may do.
    pub final_validate-slots :
        (s : Option Access)
        → Memᴰ d (access_domains ++ button ∷ [])
        → Memᴰ s (entity_access_slots e)
        → SlotOk protocol d s
    final_validate-slots (some a) i j = slot_lem protocol d a (slot-refusal (some a) i j)
    final_validate-slots none i j = elim (gwg-or-not protocol) [
      | inr k ↦ inl k
      | inl g ↦ elim (Bool-cases (writes d)) [ inl w ↦ elim (unstated g w j) [ ] | inr w ↦ inr w ]
    ]

    -- In an accepted configuration, every Optolink address of an entity of the hub, of a domain that has
    -- addresses, fits in one byte where the protocol is GWG.
    pub final_validate-addresses :
        (a : ℕ) → Memᴰ d address_domains → Memᴰ a (entity_gwg_addresses e) → AddressOk protocol a
    final_validate-addresses a i j = elim (gwg-or-not protocol) [
      | inr k ↦ inl k
      | inl g ↦ inr (
          address_lem d a (
            first_refusal-none (address_check d) (entity_gwg_addresses e) a
              (first_refusal-none addresses_check (entities_for_hub full address_domains hub_id)
                (d, e) (gwg_part g).1
                (mem-entities_for_hub full hub_id e mine d address_domains i here))
              j))
    ]
