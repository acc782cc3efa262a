-- ===== src/Core/Clock.antt =====
-- crates/neo4r-core/src/clock.rs: the hybrid logical clock. The physical time is an argument.
use neo4r.Prelude.{
  arith, if◌then◌else◌, ltb, max, refl, saturating_add, ℕ, ◌&&◌, ◌-◌, ◌<◌, ◌==◌, ◌^◌, ◌≡◌, ◌⊎◌,
}

pub record HybridTimestamp : Type 0 where
  pub physical_ms : ℕ
  pub logical : ℕ

abbrev pub u32_max : ℕ
u32_max = 2 ^ 32 - 1

pub record HybridClock : Type 0 where
  pub latest : HybridTimestamp

-- `HybridTimestamp::new`
abbrev pub stamp : ℕ → ℕ → HybridTimestamp
stamp p l = record { physical_ms = p; logical = l }

-- `saturating_add(1)` on a `u32`
abbrev next_logical : ℕ → ℕ
next_logical l = saturating_add u32_max l 1

pub tick : ℕ → HybridClock → HybridTimestamp × HybridClock
tick physical c =
    let next =
      if ltb c.latest.physical_ms physical
      then stamp physical 0
      else record c.latest { logical = next_logical c.latest.logical } in
    (next, record { latest = next })

pub observe : ℕ → HybridTimestamp → HybridClock → HybridTimestamp × HybridClock
observe physical remote c =
    let highest = max (max physical c.latest.physical_ms) remote.physical_ms in
    let logical =
      if highest == c.latest.physical_ms && highest == remote.physical_ms
      then next_logical (max c.latest.logical remote.logical)
      else if highest == c.latest.physical_ms
      then next_logical c.latest.logical
      else if highest == remote.physical_ms
      then next_logical remote.logical
      else 0 in
    let next = stamp highest logical in (next, record { latest = next })

-- The derived order of `HybridTimestamp`, by its fields in turn.
abbrev pub Before : HybridTimestamp → HybridTimestamp → Type 0
Before a b =
    (a.physical_ms < b.physical_ms) ⊎ ((a.physical_ms ≡ b.physical_ms) × (a.logical < b.logical))

-- Below the last logical value a `tick` gives a later timestamp than the clock's, whatever the
-- physical clock does, and the clock keeps it.
pub tick_advances :
    (physical : ℕ) (c : HybridClock)
    → c.latest.logical < u32_max
    → Before c.latest (tick physical c).0 × ((tick physical c).1.latest ≡ (tick physical c).0)
unfolding tick saturating_add
tick_advances physical c h = (ground arith, refl)

-- Below the last logical values the timestamp that `observe` gives is later than the clock's and
-- later than the remote one.
pub observe_advances :
    (physical : ℕ) (remote : HybridTimestamp) (c : HybridClock)
    → c.latest.logical < u32_max
    → remote.logical < u32_max
    → Before c.latest (observe physical remote c).0 × Before remote (observe physical remote c).0
unfolding observe saturating_add
observe_advances physical remote c h k = (ground arith, ground arith)
