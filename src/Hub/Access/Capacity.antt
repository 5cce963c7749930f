-- ===== src/Hub/Access/Capacity.antt =====
-- The capacity that the hub reserves is enough for what is registered.
use esphome_vitohome.Common.{
  ℕ, suc, ◌+◌, ◌*◌, ◌≤◌, ◌≡◌, Bool, true, false, Option, none, some, List, [], ◌∷◌, ◌++◌, map,
  arith, All, length, if◌then◌else◌, keep_if,
}
use esphome_vitohome.Hub.Access.{
  Protocol, p300, kw, gwg, OperatingMode, Domain, climate, Entity, Full, targets, entities_for_hub,
  entity_domains, entity_capacity_upper_bound, registrations, total, registered, first_refusal,
  addresses_check, states_check, address_domains, write_domains, capacity, protocol_checks,
  final_validate,
}
use esphome_vitohome.Hub.Access.Checked.{or_refuse-eq-capacity, spaces_part}

total-le :
    (k : ℕ) (ps : List (Domain × Entity))
    → All (λ p. registrations p ≤ k) ps
    → total ps ≤ k * length ps
total-le k [] h = omega arith
total-le k (p ∷ ps) (h, hs) =
    (let rest = total-le k ps hs in step (length ps) (total ps) (registrations p) h rest)
  where
    step : (n t r : ℕ) → r ≤ k → t ≤ k * n → r + t ≤ k * suc n
    step n t r h g = omega arith

All-append :
    (P : Domain × Entity → Type 0) (xs ys : List (Domain × Entity))
    → All P xs
    → All P ys
    → All P (xs ++ ys)
All-append P [] ys h g = g
All-append P (x ∷ xs) ys (p, h) g = (p, All-append P xs ys h g)

All-map-pair :
    (P : Domain × Entity → Type 0) (d : Domain) (es : List Entity)
    → ((e : Entity) → P (d, e))
    → All P (map (λ e. (d, e)) es)
All-map-pair P d [] f = tt
All-map-pair P d (e ∷ es) f = (f e, All-map-pair P d es f)

entities_for_hub-All :
    (P : Domain × Entity → Type 0) (full : Full) (ds : List Domain) (hub_id : ℕ)
    → All (λ d. (e : Entity) → P (d, e)) ds
    → All P (entities_for_hub full ds hub_id)
unfolding entities_for_hub
entities_for_hub-All P full [] hub_id h = tt
entities_for_hub-All P full (d ∷ ds) hub_id (f, h) =
    All-append P (map (λ e. (d, e)) (keep_if (targets hub_id) (full d)))
      (entities_for_hub full ds hub_id) (All-map-pair P d (keep_if (targets hub_id) (full d)) f)
      (entities_for_hub-All P full ds hub_id h)

once : (b : Bool) → (if b then 0 else 1) ≤ 1
once b = ground arith

one_each : All (λ d. (e : Entity) → registrations (d, e) ≤ 1) entity_domains
unfolding registrations
one_each = (
  (λ _. omega arith),
  (
    (λ e. once e.hub_fed),
    (
      (λ e. once e.hub_fed),
      (
        (λ _. omega arith),
        (
          (λ _. omega arith),
          (
            (λ _. omega arith),
            ((λ _. omega arith), ((λ _. omega arith), ((λ e. once e.hub_fed), tt))),
          ),
        ),
      ),
    ),
  ),
)

two_each : All (λ d. (e : Entity) → registrations (d, e) ≤ 2) (climate ∷ [])
unfolding registrations
two_each = (λ e. channels e.operating_mode, tt)
  where
    channels : (o : Option OperatingMode) → (elim o [ none ↦ 1 | some _ ↦ 2 ]) ≤ 2
    channels none = omega arith
    channels (some _) = omega arith

total-++ : (ps qs : List (Domain × Entity)) → total (ps ++ qs) ≡ total ps + total qs
total-++ [] qs = omega arith
total-++ (p ∷ ps) qs = omega (arith, total-++ ps qs)

total-domains :
    (full : Full) (ds ds' : List Domain) (hub_id : ℕ)
    → total (entities_for_hub full (ds ++ ds') hub_id)
      ≡ total (entities_for_hub full ds hub_id) + total (entities_for_hub full ds' hub_id)
unfolding entities_for_hub
total-domains full [] ds' hub_id = omega arith
total-domains full (d ∷ ds) ds' hub_id =
    let here : List (Domain × Entity) = map (λ e. (d, e)) (keep_if (targets hub_id) (full d)) in
    omega (
      arith,
      total-++ here (entities_for_hub full (ds ++ ds') hub_id),
      total-++ here (entities_for_hub full ds hub_id),
      total-domains full ds ds' hub_id,
    )

registered-le :
    (full : Full) (hub_id : ℕ) (has_clock : Bool)
    → registered full hub_id has_clock ≤ entity_capacity_upper_bound full hub_id has_clock
unfolding registered entity_capacity_upper_bound
registered-le full hub_id has_clock =
    let one =
      total-le 1 (entities_for_hub full entity_domains hub_id)
        (entities_for_hub-All (λ p. registrations p ≤ 1) full entity_domains hub_id one_each) in
    let two =
      total-le 2 (entities_for_hub full (climate ∷ []) hub_id)
        (entities_for_hub-All (λ p. registrations p ≤ 2) full (climate ∷ []) hub_id two_each) in
    let parts = total-domains full entity_domains (climate ∷ []) hub_id in
    omega (arith, one, two, parts)

stored_lem :
    (protocol : Protocol) (full : Full) (hub_id n m : ℕ) (has_time_id : Bool)
    → protocol_checks protocol full hub_id has_time_id (capacity m) ≡ capacity n
    → m ≡ n
stored_lem p300 full hub_id n m t h = cc
stored_lem kw full hub_id n m t h = cc
stored_lem gwg full hub_id n m true h = cc
stored_lem gwg full hub_id n m false h =
    let (a, k) =
      or_refuse-eq-capacity
        (first_refusal addresses_check (entities_for_hub full address_domains hub_id)) _ n h in
    let (b, l) =
      or_refuse-eq-capacity
        (first_refusal states_check (entities_for_hub full write_domains hub_id)) _ n k in
    cc

-- The capacity that an accepted configuration stores is at least the number of registrations with the
-- hub: those of every entity that targets it, in any of the domains there are, two for a climate with an
-- operating mode and none for what the hub feeds itself, and the one of the clock.
pub registered-le-capacity :
    (protocol : Protocol) (full : Full) (hub_id n : ℕ) (has_time_id : Bool)
    → final_validate protocol full hub_id has_time_id ≡ capacity n
    → registered full hub_id has_time_id ≤ n
registered-le-capacity protocol full hub_id n has_time_id accepted =
    rw⁻¹
      (stored_lem protocol full hub_id n (entity_capacity_upper_bound full hub_id has_time_id)
        has_time_id (spaces_part protocol full hub_id n has_time_id accepted).2)
      (registered-le full hub_id has_time_id)
