-- ===== src/Registry.antt =====
-- The model registry: its contracts (domain/model_registry.py).
pub mod Files
use smart_factory_monitor.Common.{
  ℕ, String, Bool, true, not, ◌&&◌, Option, List, [], ◌∷◌, str_eq, any,
}
use smart_factory_monitor.Domain.{Datetime}

pub record ModelRegistryEntry : Type 0 where
  pub machine_id : String
  pub model_id : String
  pub artifact_sha256 : String

-- Its schema version is always 1.
pub record ModelRegistryManifest : Type 0 where
  pub generation_id : ℕ
  pub created_at : Datetime
  pub previous_generation_id : Option ℕ
  pub source_generation_id : Option ℕ
  pub entries : List ModelRegistryEntry

-- `len(machine_ids) == len(set(machine_ids))`
unfoldable pub machine_ids_unique : List ModelRegistryEntry → Bool
machine_ids_unique [] = true
machine_ids_unique (e ∷ rest) =
    not (any (λ (other : ModelRegistryEntry). str_eq e.machine_id other.machine_id) rest)
    && machine_ids_unique rest
