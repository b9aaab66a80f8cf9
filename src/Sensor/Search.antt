-- ===== src/Sensor/Search.antt =====
-- The search for a sensor at the known addresses of src/sensor.rs, on the fake bus.
use kasop.Common.{
  ℕ, List, [], ◌∷◌, Option, none, some, true, false, ◌==◌, ==_iff, Bool-cases, Outcome, ok, err,
  panic, ◌≡◌, ◌≢◌, refl, sym, ◌∙◌, ap, subst, ◌⊎◌, inl, inr, In, arith,
}
use kasop.Common.Actions.{continue}
use kasop.I2c.{Address, Device}
use kasop.I2c.Fake.{FakeI2cBus, fake_bus, fake_read, fake_value, responds}
use kasop.Sensor.Probe.{
  Sensor, new_sensor, probe_i2c_device, probe_all, probe_i2c_sensors, or_else, sensor_i2c_address,
  reg_manufacturer_id, reg_device_id,
}
use kasop.Sensor.Readings.{IsProbed, new_sensor-IsProbed}

abbrev pub IsUnknown : ℕ → Type 0
IsUnknown m = (m ≢ 0x55) × (m ≢ 0x41) × (m ≢ 0x1a)

-- A bus with one device, whose ids are `m` and `dev`, where other addresses answer `r`.
abbrev pub HasIds : FakeI2cBus → ℕ → ℕ → ℕ → Type 0
HasIds f m dev r =
    (fake_value f f.respond_addr reg_manufacturer_id ≡ ok m)
    × (fake_value f f.respond_addr reg_device_id ≡ ok dev)
    × (f.other_addr_response ≡ some r)

unknown_sensor : (d : Device) (m dev : ℕ) → IsUnknown m → new_sensor d m dev ≡ ok none
unfolding new_sensor
unknown_sensor d m dev h = ground arith

-- The device of an address.
abbrev pub at_address : Address → Device
at_address a = record { address = a }

-- What the search found: what the ids of the device say, if its address is one of those that are
-- searched, and nothing otherwise.
abbrev pub Found : FakeI2cBus → ℕ → ℕ → List Address → Outcome (Option Sensor) → Type 0
Found f m dev addresses o =
    (In f.respond_addr addresses × IsProbed (at_address f.respond_addr) m dev o)
    ⊎ ((¬ In f.respond_addr addresses) × (o ≡ ok none))

module _ (f : FakeI2cBus) (m dev r : ℕ) (ids : HasIds f m dev r) (unknown : IsUnknown r) where
  home_probe :
      probe_i2c_device fake_bus (at_address f.respond_addr) f
      ≡ (f, new_sensor (at_address f.respond_addr) m dev)
  unfolding probe_i2c_device fake_read
  home_probe = rw (ids.0, ids.1)

  empty_value : (a : Address) (reg : ℕ) → responds f a ≡ false → fake_value f a reg ≡ ok r
  unfolding fake_value
  empty_value a reg e = rw (e, ids.2)

  empty_probe :
      (a : Address)
      → responds f a ≡ false
      → probe_i2c_device fake_bus (at_address a) f ≡ (f, ok none)
  unfolding probe_i2c_device fake_read
  empty_probe a e = rw (
    empty_value a reg_manufacturer_id e,
    empty_value a reg_device_id e,
    unknown_sensor (at_address a) r r unknown,
  )

  -- The loop goes on behind an address without a sensor.
  step_none :
      (a : Address) (addresses : List Address)
      → probe_i2c_device fake_bus (at_address a) f ≡ (f, ok none)
      → probe_all fake_bus (a ∷ addresses) f ≡ probe_all fake_bus addresses f
  unfolding probe_all
  step_none a addresses e =
      ap (λ p. continue p (λ sensor. or_else fake_bus sensor (probe_all fake_bus addresses))) e

  abbrev Searched : List Address → Type 0
  Searched addresses =
      (o : Outcome (Option Sensor)) × (probe_all fake_bus addresses f ≡ (f, o))
      × Found f m dev addresses o

  -- The device that answers, by what its ids say.
  home_Searched :
      (addresses : List Address) (o : Outcome (Option Sensor))
      → new_sensor (at_address f.respond_addr) m dev ≡ o
      → Searched addresses
      → Searched (f.respond_addr ∷ addresses)
  unfolding probe_all
  home_Searched addresses o e (rest, run, found) =
      let home = at_address f.respond_addr in
      let next =
        λ (sensor : Option Sensor). or_else fake_bus sensor (probe_all fake_bus addresses) in
      let probed : probe_i2c_device fake_bus home f ≡ (f, o) = home_probe ∙ ap (λ u. (f, u)) e in
      let said : IsProbed home m dev o =
        subst (IsProbed home m dev) e (new_sensor-IsProbed home m dev) in
      let start = ap (λ p. continue p next) probed in
      elim o
          as (λ u.
            probe_all fake_bus (f.respond_addr ∷ addresses) f ≡ continue (f, u) next
            → IsProbed home m dev u
            → Searched (f.respond_addr ∷ addresses)) [
              | ok found_it ↦ λ begun what.
                  elim found_it
                      as (λ v.
                        probe_all fake_bus (f.respond_addr ∷ addresses) f ≡ continue (f, ok v) next
                        → IsProbed home m dev (ok v)
                        → Searched (f.respond_addr ∷ addresses)) [
                          | none ↦ λ begun what. elim found [
                            | inl (_, p) ↦ (rest, begun ∙ run, inl (inl refl, p))
                            | inr (_, gone) ↦ (
                              rest,
                              begun ∙ run,
                              inl (inl refl, subst (IsProbed home m dev) (sym gone) what),
                            )
                          ]
                          | some s ↦ λ begun what. (ok (some s), begun, inl (inl refl, what))
                        ]
                    begun what
              | err kind ↦ λ begun what. (err kind, begun, inl (inl refl, what))
              | panic ↦ λ begun what. (panic, begun, inl (inl refl, what))
            ]
        start said

  not_home : (a : Address) → responds f a ≡ false → f.respond_addr.hw ≡ a.hw → ⊥
  not_home a e h =
      let t : (a.hw == f.respond_addr.hw) ≡ true = (==_iff a.hw f.respond_addr.hw).1 (sym h) in cc

  away_Searched :
      (a : Address) (addresses : List Address)
      → responds f a ≡ false
      → Searched addresses
      → Searched (a ∷ addresses)
  away_Searched a addresses e (rest, run, found) =
      let skip = step_none a addresses (empty_probe a e) in
      elim found [
        | inl (i, p) ↦ (rest, skip ∙ run, inl (inr i, p))
        | inr (gone, o) ↦ (
          rest,
          skip ∙ run,
          inr (λ h. elim h [ inl same ↦ not_home a e (λ i. (same i).hw) | inr i ↦ gone i ], o),
        )
      ]

  search_Searched : (addresses : List Address) → Searched addresses
  unfolding probe_all
  search_Searched [] = (ok none, refl, inr (λ i. i, refl))
  search_Searched (a ∷ addresses) = elim (Bool-cases (responds f a)) [
    | inl e ↦
        let same : f.respond_addr ≡ a =
          λ i. record { hw = sym ((==_iff a.hw f.respond_addr.hw).0 e) i } in
        subst (λ b. Searched (b ∷ addresses)) same
          (home_Searched addresses _ refl (search_Searched addresses))
    | inr e ↦ away_Searched a addresses e (search_Searched addresses)
  ]

  -- On a bus with one device, where other addresses answer with an id that no manufacturer of sensors
  -- has: the search at the known addresses ends as the ids of the device say if its address is one
  -- of them, and finds nothing otherwise; the bus is as before.
  pub probe_i2c_sensors-Found :
      (o : Outcome (Option Sensor)) × (probe_i2c_sensors fake_bus f ≡ (f, o))
      × Found f m dev sensor_i2c_address o
  unfolding probe_i2c_sensors
  probe_i2c_sensors-Found = search_Searched sensor_i2c_address
