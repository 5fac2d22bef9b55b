-- ===== src/Errors/Examples.antt =====
-- The error kinds on examples.
use chimera_service.Base.{◌≡◌, ◌↔◌, some}
use chimera_service.Errors.{CoreErrorKind, as_str, from_wire}
use chimera_service.Errors.Wire.{from_wire_iff}

from_wire_iff_example :
    (from_wire "queue_full" ≡ some CoreErrorKind.queue_full)
    ↔ (as_str CoreErrorKind.queue_full ≡ "queue_full")
from_wire_iff_example = from_wire_iff "queue_full" CoreErrorKind.queue_full
