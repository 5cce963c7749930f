-- ===== src/Catalog/Modes/Reachable.antt =====
-- transforms.py `_is_reachable`, against the access mode that is emitted.
use esphome_vitohome.Common.{
  same_text_refl, ◌≡◌, refl, ◌≢◌, ◌⊎◌, ◌↔◌, inl, inr, String, Bool, true, false, ◌||◌, Option, none,
  some, [], ◌∷◌, arith, Bool-cases, Text, codes, same_text_sound,
}
use esphome_vitohome.Catalog.{Event, normal, names, is_empty, lookup}
use esphome_vitohome.Catalog.Modes.{
  fcread_to_gwg_access, is_rpc_reading, is_gfa_read, access_if, access_for, is_reachable,
}
use esphome_vitohome.Hub.Fields.{given}
use esphome_vitohome.Hub.Access.{Protocol, p300, kw, gwg}
use esphome_vitohome.Catalog.Modes.Slots.{plain_access}

-- Where the protocol's default is used: no function code, or a virtual read under P300 or KW.
abbrev pub DefaultRead : Event → Protocol → Type 0
DefaultRead ev protocol =
    (normal ev.fc_read ≡ []) ⊎ ((protocol ≢ gwg) × (normal ev.fc_read ≡ codes "virtual_read"))

is_empty_iff : (t : Text) → (is_empty t ≡ true) ↔ (t ≡ [])
is_empty_iff [] = (λ _. refl, λ _. refl)
is_empty_iff (c ∷ s) = (λ h. cc, λ h. cc)

access_if-given :
    (r g : Bool) (protocol : Protocol) (fc_read : String)
    → protocol ≢ gwg
    → given (access_if r g protocol fc_read) ≡ (g || r)
access_if-given true true protocol fc_read q = refl
access_if-given true false protocol fc_read q = refl
access_if-given false true protocol fc_read q = refl
access_if-given false false protocol fc_read q = rw (plain_access protocol fc_read q) refl

given-ne-none {ℓ} : {A : Type ℓ} (o : Option A) → (given o ≡ true) ↔ (o ≢ none)
given-ne-none none = (λ h. cc, λ h. absurd (h refl))
given-ne-none (some a) = (λ h q. cc, λ h. refl)

or_iff :
    {X Y : Type 0} (x y : Bool) → ((x ≡ true) ↔ X) → ((y ≡ true) ↔ Y) → ((x || y) ≡ true) ↔ (Y ⊎ X)
or_iff true y f g = (λ _. inr (f.0 refl), λ _. refl)
or_iff false y f g =
    (λ h. inl (g.0 h), λ e. elim e [ inl u ↦ g.1 u | inr v ↦ (let q : false ≡ true = f.1 v in cc) ])

default_iff :
    (ev : Event) (protocol : Protocol)
    → protocol ≢ gwg
    → ((is_empty (normal ev.fc_read) || names ev.fc_read "virtual_read") ≡ true)
      ↔ DefaultRead ev protocol
default_iff ev protocol q = (forth, back)
  where
    forth :
        (is_empty (normal ev.fc_read) || names ev.fc_read "virtual_read") ≡ true
        → DefaultRead ev protocol
    forth h = elim (Bool-cases (is_empty (normal ev.fc_read))) [
      | inl e ↦ inl ((is_empty_iff (normal ev.fc_read)).0 e)
      | inr e ↦ inr (q, same_text_sound (normal ev.fc_read) (codes "virtual_read") (rw e at h))
    ]

    back :
        DefaultRead ev protocol
        → (is_empty (normal ev.fc_read) || names ev.fc_read "virtual_read") ≡ true
    back (inl e) = rw e refl
    back (inr (_, e)) = rw (e, same_text_refl (codes "virtual_read")) refl

gwg_default_iff : (ev : Event) → (is_empty (normal ev.fc_read) ≡ true) ↔ DefaultRead ev gwg
gwg_default_iff ev = (
  λ h. inl ((is_empty_iff (normal ev.fc_read)).0 h),
  λ d. elim d [ inl e ↦ (is_empty_iff (normal ev.fc_read)).1 e | inr (q, e) ↦ absurd (q refl) ],
)

given_access_iff :
    (ev : Event) (protocol : Protocol)
    → protocol ≢ gwg
    → ((is_gfa_read ev protocol || is_rpc_reading ev protocol) ≡ true)
      ↔ (access_for ev protocol ≢ none)
unfolding access_for
given_access_iff ev protocol q =
    rw⁻¹
      (access_if-given (is_rpc_reading ev protocol) (is_gfa_read ev protocol) protocol ev.fc_read q)
      (given-ne-none (access_for ev protocol))

or_or_assoc : (x y z : Bool) → ((x || y) || z) ≡ (x || (y || z))
or_or_assoc x y z = ground arith

reached_iff :
    (ev : Event) (protocol : Protocol)
    → protocol ≢ gwg
    → ((((is_empty (normal ev.fc_read) || names ev.fc_read "virtual_read")
            || is_gfa_read ev protocol)
          || is_rpc_reading ev protocol)
        ≡ true)
      ↔ ((access_for ev protocol ≢ none) ⊎ DefaultRead ev protocol)
reached_iff ev protocol q =
    rw
      (or_or_assoc (is_empty (normal ev.fc_read) || names ev.fc_read "virtual_read")
        (is_gfa_read ev protocol) (is_rpc_reading ev protocol))
      (or_iff (is_empty (normal ev.fc_read) || names ev.fc_read "virtual_read") _
        (default_iff ev protocol q) (given_access_iff ev protocol q))

-- A datapoint is kept as reachable exactly if an access mode is emitted for it, or the default of the
-- protocol reads it: it states no function code, or under P300 or KW a virtual read.
pub is_reachable_iff :
    (ev : Event) (protocol : Protocol)
    → (is_reachable ev protocol ≡ true)
      ↔ ((access_for ev protocol ≢ none) ⊎ DefaultRead ev protocol)
unfolding is_reachable access_for is_rpc_reading is_gfa_read
is_reachable_iff ev gwg =
    or_iff (is_empty (normal ev.fc_read)) (given (lookup (normal ev.fc_read) fcread_to_gwg_access))
      (gwg_default_iff ev) (given-ne-none (lookup (normal ev.fc_read) fcread_to_gwg_access))
is_reachable_iff ev p300 = reached_iff ev p300 (λ q. cc)
is_reachable_iff ev kw = reached_iff ev kw (λ q. cc)
