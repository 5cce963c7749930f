-- ===== src/Renderer/Generate/Guards.antt =====
-- renderer.py `generate`: what its guards on addresses and platforms leave.
use esphome_vitohome.Common.{
  ℕ, zero, suc, ◌+◌, ◌*◌, ◌≤◌, ◌≡◌, refl, ◌≢◌, ◌⊎◌, inl, inr, Bool, true, false, ◌&&◌, Option, none,
  some, List, [], ◌∷◌, ◌++◌, map, arith, All, ltb, if◌then◌else◌,
}
use esphome_vitohome.Hub.Access.{
  Protocol, p300, kw, gwg, Access, Domain, sensor, binary_sensor, text_sensor, number, select,
  switch, text, event, climate, button, writes,
}
use esphome_vitohome.Hub.Access.Checked.{SlotOk, AddressOk}
use esphome_vitohome.Catalog.Modes.{is_gwg, is_p300}
use esphome_vitohome.Special.{Entry}
use esphome_vitohome.Special.History.{days_from}
use esphome_vitohome.Renderer.Keys.{Emission, day, raw_day, action, datapoint, takes_reading}

-- What the component wants of an emission under a protocol.
abbrev pub EmissionOk : {Float : Type 0} → Protocol → Emission Float → Type 0
EmissionOk protocol (day a access) = AddressOk protocol a
EmissionOk protocol (raw_day e access) = SlotOk protocol text_sensor access
EmissionOk protocol (action a parameter) = protocol ≡ p300
EmissionOk protocol (datapoint spec access prefix) =
    SlotOk protocol spec.platform access × AddressOk protocol spec.address

gwg_or_not : (protocol : Protocol) → (is_gwg protocol ≡ true) ⊎ (protocol ≢ gwg)
gwg_or_not p300 = inr (λ e. cc)
gwg_or_not kw = inr (λ e. cc)
gwg_or_not gwg = inl refl

-- The guard on addresses of more than one byte.
pub narrow :
    (protocol : Protocol) (a n : ℕ)
    → (is_gwg protocol && ltb 0xFF (a + n)) ≡ false
    → (protocol ≢ gwg) ⊎ (a + n ≤ 0xFF)
narrow protocol a n h = elim (gwg_or_not protocol) [
  | inl e ↦ inr (let k = rw e at h in ground arith)
  | inr e ↦ inl e
]

pub below :
    (protocol : Protocol) (a b : ℕ) → a ≤ b → (protocol ≢ gwg) ⊎ (b ≤ 0xFF) → AddressOk protocol a
below protocol a b h (inl e) = inl e
below protocol a b h (inr e) = inr (omega arith)

pub All-++ : {A : Type 0} (P : A → Type 0) (xs ys : List A) → All P xs → All P ys → All P (xs ++ ys)
All-++ P [] ys h k = k
All-++ P (x ∷ xs) ys (p, h) k = (p, All-++ P xs ys h k)

module _ (Float : Type 0) (protocol : Protocol) where
  pub days-Ok :
      (access : Option Access) (base : ℕ)
      → (protocol ≢ gwg) ⊎ (base + 48 ≤ 0xFF)
      → (left d : ℕ) → left + d ≤ 7
      → All (EmissionOk {Float = Float} protocol) (map (λ a. day a access) (days_from left base d))
  unfolding days_from
  days-Ok access base h zero d k = tt
  days-Ok access base h (suc left) d k = (
    below protocol (base + d * 8) (base + 48) (omega arith) h,
    days-Ok access base h left (d + 1) (omega arith),
  )

  pub raw_days-Ok :
      (access : Option Access) (entries : List Entry)
      → SlotOk protocol text_sensor access
      → All (EmissionOk {Float = Float} protocol) (map (λ e. raw_day e access) entries)
  raw_days-Ok access [] h = tt
  raw_days-Ok access (e ∷ es) h = (h, raw_days-Ok access es h)

pub read_slot :
    (protocol : Protocol) (d : Domain) (access : Option Access)
    → writes d ≡ false
    → SlotOk protocol sensor access
    → SlotOk protocol d access
read_slot protocol d none w (inl h) = inl h
read_slot protocol d none w (inr h) = inr w
read_slot protocol d (some a) w (h, k) = (h, inl w)

pub written_slot :
    (protocol : Protocol) (d : Domain) (access : Option Access)
    → SlotOk protocol number access
    → SlotOk protocol d access
written_slot protocol d none (inl h) = inl h
written_slot protocol d none (inr h) = cc
written_slot protocol d (some a) (h, inl k) = cc
written_slot protocol d (some a) (h, inr k) = (h, inr k)

pub takes_reading-not : (d : Domain) → writes d ≡ true → takes_reading d ≡ false
takes_reading-not sensor h = cc
takes_reading-not binary_sensor h = cc
takes_reading-not text_sensor h = cc
takes_reading-not number h = refl
takes_reading-not select h = refl
takes_reading-not switch h = refl
takes_reading-not text h = refl
takes_reading-not event h = cc
takes_reading-not climate h = refl
takes_reading-not button h = cc

pub p300_only : (protocol : Protocol) → is_p300 protocol ≡ true → protocol ≡ p300
p300_only p300 h = refl
p300_only kw h = cc
p300_only gwg h = cc

pub either_where :
    {A : Type 0} (G : A → Type 0) (b : Bool) (p q : A)
    → (b ≡ true → G p)
    → (b ≡ false → G q)
    → G (if b then p else q)
either_where G true p q h k = h refl
either_where G false p q h k = k refl
