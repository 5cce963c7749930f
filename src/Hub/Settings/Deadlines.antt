-- ===== src/Hub/Settings/Deadlines.antt =====
-- An accepted interval is one that 32-bit deadlines can hold.
use esphome_vitohome.Common.{
  ℕ, ◌+◌, ◌-◌, ◌%◌, ◌≤◌, ◌<◌, ◌≡◌, ◌↔◌, ◌≢◌, ◌⊎◌, inl, inr, refl, Bool, true, false, not, ◌&&◌,
  arith, leb, ltb, ◌==◌, Bool-cases, lt→ltb,
}
use esphome_vitohome.Hub.Fields.{guard}
use esphome_vitohome.Hub.Invalid.{
  ok, invalid, ◌>>◌, no_raw_lane, no_time_source, raw_writes_restricted,
}
use esphome_vitohome.Hub.Settings.{
  poll_interval_max_ms, poll_never_ms, check_interval, Settings, validate_raw_access,
  validate_time_sync,
}

-- `static_cast<int32_t>(now - deadline) >= 0`, on 32-bit milliseconds that wrap around.
unfoldable pub is_due : ℕ → ℕ → Bool
is_due now deadline = ltb ((now + 4294967296 - deadline) % 4294967296) 2147483648

abbrev pub clock : ℕ → ℕ
clock ms = ms % 4294967296

accepted_lem :
    (allow_never : Bool) (ms : ℕ)
    → check_interval allow_never ms ≡ ok ms
    → ((allow_never ≡ true) × (ms ≡ poll_never_ms)) ⊎ (ms ≤ poll_interval_max_ms)
unfolding check_interval
accepted_lem allow_never ms h = ground arith

distance_after :
    (s e m : ℕ)
    → m ≤ e
    → e < 2147483648
    → ((s + e) % 4294967296 + 4294967296 - (s + m) % 4294967296) % 4294967296 < 2147483648
distance_after s e m h k = omega arith

distance_before :
    (s e m : ℕ)
    → e < m
    → m < 2147483648
    → 2147483648 ≤ ((s + e) % 4294967296 + 4294967296 - (s + m) % 4294967296) % 4294967296
distance_before s e m h k = omega arith

due_lem :
    (start elapsed ms : ℕ)
    → ms < 2147483648
    → elapsed < 2147483648
    → is_due (clock (start + elapsed)) (clock (start + ms)) ≡ leb ms elapsed
unfolding is_due
due_lem start elapsed ms h k = elim (Bool-cases (leb ms elapsed)) [
  | inl e ↦ rw e (lt→ltb _ _ (distance_after start elapsed ms (ground arith) k))
  | inr e ↦ rw e (not_below _ _ (distance_before start elapsed ms (ground arith) h))
]
  where
    not_below : (a b : ℕ) → b ≤ a → ltb a b ≡ false
    not_below a b h = ground arith

-- With an accepted interval that is not `never`, a deadline set one interval ahead is due exactly when
-- the interval has passed, wherever the clock wraps around, for 2^31 ms after it was set.
pub check_interval-is_due :
    (allow_never : Bool) (ms start elapsed : ℕ)
    → check_interval allow_never ms ≡ ok ms
    → ms ≢ poll_never_ms
    → elapsed < 2147483648
    → is_due (clock (start + elapsed)) (clock (start + ms)) ≡ leb ms elapsed
unfolding is_due
check_interval-is_due allow_never ms start elapsed h never short =
    elim (accepted_lem allow_never ms h) [
      | inl (_, q) ↦ absurd (never q)
      | inr q ↦ due_lem start elapsed ms (omega arith) short
    ]

-- The hub's settings are accepted by the two checks exactly if raw writes are asked for only where raw
-- access is unrestricted, unrestricted access has a queue, and a clock sync has a time source.
pub settings_iff :
    (c : Settings)
    → ((validate_raw_access c ≡ ok c) × (validate_time_sync c ≡ ok c)) ↔ (
        ((c.unsafe_raw_writes ≡ false) ⊎ (c.unrestricted ≡ true))
        × ((c.unrestricted ≡ false) ⊎ (1 ≤ c.raw_queue_size))
        × ((c.time_sync ≡ false) ⊎ (c.time_id ≡ true)))
unfolding validate_raw_access validate_time_sync
settings_iff c = (
  λ h. (
    (raw c.unsafe_raw_writes c.unrestricted c.raw_queue_size h.0).0,
    (raw c.unsafe_raw_writes c.unrestricted c.raw_queue_size h.0).1,
    time c.time_sync c.time_id h.1,
  ),
  λ (p, q, r). (
    raw_ok c.unsafe_raw_writes c.unrestricted c.raw_queue_size p q,
    time_ok c.time_sync c.time_id r,
  ),
)
  where
    raw :
        (w u : Bool) (n : ℕ)
        → (guard (not (w && not u)) (invalid raw_writes_restricted)
            >> (guard (not (u && (n == 0))) (invalid no_raw_lane) >> ok c))
          ≡ ok c
        → ((w ≡ false) ⊎ (u ≡ true)) × ((u ≡ false) ⊎ (1 ≤ n))
    raw true true n h = (inr refl, ground arith)
    raw false true n h = (inl refl, ground arith)
    raw false false n h = (inl refl, inl refl)
    raw true false n h = cc

    time :
        (s t : Bool)
        → (guard (not (s && not t)) (invalid no_time_source) >> ok c) ≡ ok c
        → (s ≡ false) ⊎ (t ≡ true)
    time true true h = inr refl
    time false t h = inl refl
    time true false h = cc

    raw_ok :
        (w u : Bool) (n : ℕ)
        → ((w ≡ false) ⊎ (u ≡ true))
        → ((u ≡ false) ⊎ (1 ≤ n))
        → (guard (not (w && not u)) (invalid raw_writes_restricted)
            >> (guard (not (u && (n == 0))) (invalid no_raw_lane) >> ok c))
          ≡ ok c
    raw_ok true true n p q = ground arith
    raw_ok false true n p q = ground arith
    raw_ok false false n p q = refl
    raw_ok true false n (inl e) q = cc
    raw_ok true false n (inr e) q = cc

    time_ok :
        (s t : Bool)
        → ((s ≡ false) ⊎ (t ≡ true))
        → (guard (not (s && not t)) (invalid no_time_source) >> ok c) ≡ ok c
    time_ok true true p = refl
    time_ok false t p = refl
    time_ok true false (inl e) = cc
    time_ok true false (inr e) = cc
