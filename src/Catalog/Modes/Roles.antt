-- ===== src/Catalog/Modes/Roles.antt =====
-- transforms.py: a datapoint is read by procedure, runs a procedure or is set, never two of these.
use esphome_vitohome.Common.{
  ◌≡◌, refl, ◌≢◌, inl, inr, Bool, true, false, not, ◌&&◌, ◌||◌, arith, Bool-cases, and-true,
  not_both, pos, eqb_ℤ, ltb_ℤ, codes, same_text, same_text_sound,
}
use esphome_vitohome.Catalog.{Event, normal, names, is_empty, int_or, answer_size, marked_writable}
use esphome_vitohome.Catalog.Modes.{
  is_rpc_reading, is_gfa_read, is_writable, is_rpc_action, rpc_prefix, rpc_action_parameter,
  is_p300,
}
use esphome_vitohome.Hub.Fields.{given}
use esphome_vitohome.Hub.Access.{Protocol, p300, kw, gwg}

pub reading-is_p300 :
    (ev : Event) (protocol : Protocol) → is_rpc_reading ev protocol ≡ true → is_p300 protocol ≡ true
unfolding is_rpc_reading
reading-is_p300 ev p300 h = refl
reading-is_p300 ev kw h = h
reading-is_p300 ev gwg h = h

pub gfa-not_gwg :
    (ev : Event) (protocol : Protocol) → is_gfa_read ev protocol ≡ true → protocol ≢ gwg
unfolding is_gfa_read
gfa-not_gwg ev p300 h q = cc
gfa-not_gwg ev kw h q = cc
gfa-not_gwg ev gwg h q = cc

-- What a rule that holds says of the datapoint.
pub reading-parts :
    (ev : Event) (protocol : Protocol)
    → is_rpc_reading ev protocol ≡ true
    → (names ev.fc_read "remote_procedure_call" ≡ true)
      × (marked_writable ev ≡ false)
      × (eqb_ℤ (answer_size ev) (pos 0) ≡ false)
      × (given (rpc_prefix ev.prefix_read) ≡ true)
unfolding is_rpc_reading
reading-parts ev protocol h =
    go (is_p300 protocol) (names ev.fc_read "remote_procedure_call") (marked_writable ev)
      (ltb_ℤ (pos 1) (int_or ev.block_factor (pos 0))) (eqb_ℤ (answer_size ev) (pos 0))
      (given (rpc_prefix ev.prefix_read)) h
  where
    go :
        (a b c d e f : Bool)
        → (a && b && not c && not d && not e && f) ≡ true
        → (b ≡ true) × (c ≡ false) × (e ≡ false) × (f ≡ true)
    go a b c d e f h = ground arith

pub action-parts :
    (ev : Event) (protocol : Protocol)
    → is_rpc_action ev protocol ≡ true
    → (names ev.fc_write "remote_procedure_call" ≡ true)
      × (marked_writable ev ≡ true)
      × (given (rpc_action_parameter ev) ≡ true)
unfolding is_rpc_action
action-parts ev protocol h =
    go (is_p300 protocol) (names ev.fc_write "remote_procedure_call") (marked_writable ev)
      (ltb_ℤ (pos 1) (int_or ev.block_factor (pos 0))) (given (rpc_action_parameter ev)) _ h
  where
    go :
        (a b c d e f : Bool)
        → (a && b && c && not d && e && f) ≡ true
        → (b ≡ true) × (c ≡ true) × (e ≡ true)
    go a b c d e f h = ground arith

pub writable-parts :
    (ev : Event) (protocol : Protocol) → is_writable ev protocol ≡ true → marked_writable ev ≡ true
unfolding is_writable
writable-parts ev p300 h = (and-true (marked_writable ev) _ h).0
writable-parts ev kw h = (and-true (marked_writable ev) _ h).0
writable-parts ev gwg h = (and-true (marked_writable ev) _ h).0

pub not_reading :
    (ev : Event) (protocol : Protocol)
    → marked_writable ev ≡ true
    → is_rpc_reading ev protocol ≡ false
not_reading ev protocol w = elim (Bool-cases (is_rpc_reading ev protocol)) [
  | inl e ↦ absurd (not_both w (reading-parts ev protocol e).1)
  | inr e ↦ e
]

pub action-is_p300 :
    (ev : Event) (protocol : Protocol) → is_rpc_action ev protocol ≡ true → is_p300 protocol ≡ true
unfolding is_rpc_action
action-is_p300 ev p300 h = refl
action-is_p300 ev kw h = h
action-is_p300 ev gwg h = h

action_not_written :
    (ev : Event)
    → names ev.fc_write "remote_procedure_call" ≡ true
    → (is_empty (normal ev.fc_write) || names ev.fc_write "virtual_write") ≡ false
unfolding same_text
action_not_written ev h =
    rw (same_text_sound (normal ev.fc_write) (codes "remote_procedure_call") h) refl

action-not_writable :
    (ev : Event) (protocol : Protocol)
    → is_rpc_action ev protocol ≡ true
    → is_writable ev protocol ≡ false
unfolding is_writable
action-not_writable ev p300 h =
    rw (action_not_written ev (action-parts ev p300 h).0) (and_false (marked_writable ev))
  where
    and_false : (b : Bool) → (b && false) ≡ false
    and_false b = ground arith
action-not_writable ev kw h = (let q : false ≡ true = action-is_p300 ev kw h in cc)
action-not_writable ev gwg h = (let q : false ≡ true = action-is_p300 ev gwg h in cc)

-- A datapoint has at most one role: a procedure that is called as a reading is neither a button that
-- runs a procedure nor a setting, and such a button is not a setting.
pub roles-exclusive :
    (ev : Event) (protocol : Protocol)
    → ((is_rpc_reading ev protocol && is_rpc_action ev protocol) ≡ false)
      × ((is_rpc_reading ev protocol && is_writable ev protocol) ≡ false)
      × ((is_rpc_action ev protocol && is_writable ev protocol) ≡ false)
roles-exclusive ev protocol = (
  apart _ _ (λ p q. not_both (action-parts ev protocol q).1 (reading-parts ev protocol p).1),
  apart _ _ (λ p q. not_both (writable-parts ev protocol q) (reading-parts ev protocol p).1),
  apart _ _ (λ p q. not_both q (action-not_writable ev protocol p)),
)
  where
    apart : (a b : Bool) → (a ≡ true → b ≡ true → ⊥) → (a && b) ≡ false
    apart true true f = absurd (f refl refl)
    apart true false f = refl
    apart false b f = refl
