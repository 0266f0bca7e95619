-- ===== src/Domain/User.antt =====
-- backend/internal/domain/user/user.go
use cycle.Base.{String}
use cycle.Domain.Cycle.{Time}

pub record User : Type 0 where
  pub id : String
  pub last_active_at : Time
  pub created_at : Time
  pub updated_at : Time

unfoldable pub new : String → Time → User
new id now = record { id = id; last_active_at = now; created_at = now; updated_at = now }
