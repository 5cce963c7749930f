-- ===== src/Catalog/Modes/Slots.antt =====
-- The access modes of transforms.py against what the component accepts in `access:`.
use esphome_vitohome.Common.{
  ◌≡◌, refl, ◌≢◌, ◌⊎◌, inl, inr, String, Bool, true, false, not, Option, none, some, List, [], ◌∷◌,
  All, Bool-cases, Option-cases, and-true, Text, codes, same_text,
}
use esphome_vitohome.Catalog.{Event, normal, names, marked_writable, lookup}
use esphome_vitohome.Catalog.Modes.{
  fcread_to_gwg_access, fcwrite_to_gwg_access, is_rpc_reading, is_gfa_read, access_if, access_for,
  access_eq, written_in, is_writable, is_p300, is_gwg,
}
use esphome_vitohome.Hub.Access.{
  Protocol, p300, kw, gwg, Access, physical, virtual, eeprom, xram, port, be, kmbus_eeprom,
  kmbus_ram, rpc, gfa, space_protocol, space_writable, sensor, number,
}
use esphome_vitohome.Hub.Access.Checked.{SlotOk}
use esphome_vitohome.Catalog.Modes.Roles.{reading-is_p300, gfa-not_gwg, not_reading}

lookup-All :
    (P : Access → Type 0) (key : Text) (rows : List (String × Access)) (a : Access)
    → All (λ r. P r.1) rows
    → lookup key rows ≡ some a
    → P a
lookup-All P key [] a ps h = cc
lookup-All P key ((word, b) ∷ rows) a (p, ps) h = elim (Bool-cases (same_text key (codes word))) [
  | inl e ↦ (let q : some b ≡ some a = (rw e at h) in let r : b ≡ a = cc in rw (← r) p)
  | inr e ↦ lookup-All P key rows a ps (rw e at h)
]

read_modes : All (λ r. space_protocol r.1 gwg ≡ true) fcread_to_gwg_access
unfolding space_protocol
read_modes = (refl, (refl, (refl, (refl, (refl, (refl, (refl, tt)))))))

write_modes :
    All (λ r. (space_protocol r.1 gwg ≡ true) × (space_writable r.1 ≡ true)) fcwrite_to_gwg_access
unfolding space_protocol space_writable
write_modes = (
  (refl, refl),
  ((refl, refl), ((refl, refl), ((refl, refl), ((refl, refl), ((refl, refl), tt))))),
)

gwg_slot :
    (o : Option Access)
    → ((a : Access) → o ≡ some a → space_protocol a gwg ≡ true)
    → SlotOk gwg sensor o
gwg_slot none f = inr refl
gwg_slot (some a) f = (f a refl, inl refl)

access_if-SlotOk :
    (r g : Bool) (protocol : Protocol) (fc_read : String)
    → (r ≡ true → is_p300 protocol ≡ true)
    → (g ≡ true → protocol ≢ gwg)
    → SlotOk protocol sensor (access_if r g protocol fc_read)
unfolding space_protocol
access_if-SlotOk true g p300 fc_read f h = (refl, inl refl)
access_if-SlotOk true g kw fc_read f h = (let q : false ≡ true = f refl in cc)
access_if-SlotOk true g gwg fc_read f h = (let q : false ≡ true = f refl in cc)
access_if-SlotOk false true p300 fc_read f h = (refl, inl refl)
access_if-SlotOk false true kw fc_read f h = (refl, inl refl)
access_if-SlotOk false true gwg fc_read f h = absurd (h refl refl)
access_if-SlotOk false false p300 fc_read f h = inr refl
access_if-SlotOk false false kw fc_read f h = inr refl
access_if-SlotOk false false gwg fc_read f h =
    gwg_slot (lookup (normal fc_read) fcread_to_gwg_access) (λ a e.
      lookup-All (λ b. space_protocol b gwg ≡ true) (normal fc_read) fcread_to_gwg_access a
        read_modes e)

-- Whatever the datapoint, an access mode that is emitted for it has a telegram under the protocol.
pub access_for-SlotOk :
    (ev : Event) (protocol : Protocol) → SlotOk protocol sensor (access_for ev protocol)
unfolding access_for
access_for-SlotOk ev protocol =
    access_if-SlotOk (is_rpc_reading ev protocol) (is_gfa_read ev protocol) protocol ev.fc_read
      (reading-is_p300 ev protocol) (gfa-not_gwg ev protocol)

access_eq_sound : (a : Access) (o : Option Access) → access_eq (some a) o ≡ true → o ≡ some a
access_eq_sound physical (some physical) h = refl
access_eq_sound virtual (some virtual) h = refl
access_eq_sound eeprom (some eeprom) h = refl
access_eq_sound xram (some xram) h = refl
access_eq_sound port (some port) h = refl
access_eq_sound be (some be) h = refl
access_eq_sound kmbus_eeprom (some kmbus_eeprom) h = refl
access_eq_sound kmbus_ram (some kmbus_ram) h = refl
access_eq_sound rpc (some rpc) h = refl
access_eq_sound gfa (some gfa) h = refl
access_eq_sound _ _ h = cc

written_in-SlotOk :
    (key : Text) (o : Option Access)
    → written_in (lookup key fcwrite_to_gwg_access) o ≡ true
    → SlotOk gwg number o
written_in-SlotOk key o h = elim (Option-cases (lookup key fcwrite_to_gwg_access)) [
  | inl e ↦ (let q : false ≡ true = (rw e at h) in cc)
  | inr (a, e) ↦
      (let q : access_eq (some a) o ≡ true = (rw e at h) in
        let (telegram, written) =
          lookup-All (λ b. (space_protocol b gwg ≡ true) × (space_writable b ≡ true)) key
            fcwrite_to_gwg_access a write_modes e in
        rw (access_eq_sound a o q) (telegram, inr written))
]

-- A datapoint of the burner control's space: read with `access: gfa`.
abbrev pub GfaRead : Event → Protocol → Type 0
GfaRead ev protocol =
    (names ev.fc_read "gfa_read" ≡ true) × (protocol ≢ gwg) × (access_for ev protocol ≡ some gfa)

pub plain_access :
    (protocol : Protocol) (fc_read : String)
    → protocol ≢ gwg
    → access_if false false protocol fc_read ≡ none
plain_access p300 fc_read q = refl
plain_access kw fc_read q = refl
plain_access gwg fc_read q = absurd (q refl)

not_gwg_slot :
    (ev : Event) (protocol : Protocol)
    → protocol ≢ gwg
    → marked_writable ev ≡ true
    → (access_for ev protocol ≡ none) ⊎ GfaRead ev protocol
unfolding access_for is_gfa_read
not_gwg_slot ev protocol q w = elim (Bool-cases (is_gfa_read ev protocol)) [
  | inl e ↦ inr (
    (and-true (not (is_gwg protocol)) _ e).1,
    q,
    rw (access_for, not_reading ev protocol w, e) refl,
  )
  | inr e ↦ inl (rw (access_for, not_reading ev protocol w, e) (plain_access protocol ev.fc_read q))
]

-- A datapoint that is emitted as writable has, under its protocol, an access mode that the component
-- accepts on a writing platform; the exception is one that is read from the burner control.
pub is_writable-SlotOk :
    (ev : Event) (protocol : Protocol)
    → is_writable ev protocol ≡ true
    → SlotOk protocol number (access_for ev protocol) ⊎ GfaRead ev protocol
unfolding is_writable
is_writable-SlotOk ev gwg h = inl (
    written_in-SlotOk (normal ev.fc_write) (access_for ev gwg)
      (and-true (marked_writable ev) _ h).1)
is_writable-SlotOk ev p300 h =
    elim (not_gwg_slot ev p300 (λ q. cc) (and-true (marked_writable ev) _ h).0) [
      | inl e ↦ inl (rw e (inl (λ q. cc)))
      | inr g ↦ inr g
    ]
is_writable-SlotOk ev kw h =
    elim (not_gwg_slot ev kw (λ q. cc) (and-true (marked_writable ev) _ h).0) [
      | inl e ↦ inl (rw e (inl (λ q. cc)))
      | inr g ↦ inr g
    ]
