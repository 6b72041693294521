-- ===== src/Kernel/Entities.antt =====
-- domain/kernel/entity.go and aggregate.go. A `time.Time` is the number of nanoseconds since the
-- zero time; each call of `time.Now()` is an argument of the model.
use mall.Base.{ℕ, Bool, List, [], ◌∷◌, ◌++◌, ℤ, eqb_ℤ}

-- `kernel.KernelId` is an int64.
abbrev pub KernelId : Type 0
KernelId = ℤ

abbrev pub Time : Type 0
Time = ℕ

pub record Entity : Type 0 where
  pub id : KernelId
  pub created_at : Time
  pub updated_at : Time

abbrev pub new_entity : KernelId → Time → Time → Entity
new_entity id created updated = record { id = id; created_at = created; updated_at = updated }

-- `Entity.Equals`
unfoldable pub equals : Entity → Entity → Bool
equals e other = eqb_ℤ e.id other.id

pub record AggregateRoot (E : Type 0) : Type 0 where
  pub entity : Entity
  pub open entity use *
  pub events : List E

module _ {E : Type 0} where
  abbrev pub new_aggregate_root : KernelId → Time → Time → AggregateRoot E
  new_aggregate_root id created updated = record {
    entity = new_entity id created updated;
    events = [];
  }

  abbrev pub add_event : E → AggregateRoot E → AggregateRoot E
  add_event e a = record a { events = a.events ++ (e ∷ []) }

  abbrev pub clear_events : AggregateRoot E → AggregateRoot E
  clear_events a = record a { events = [] }

  -- `x.UpdatedAt = time.Now()`
  abbrev pub touch_root : Time → AggregateRoot E → AggregateRoot E
  touch_root now a = record a { entity = record a.entity { updated_at = now } }
