-- ===== src/Tests/Active.antt =====
-- A side that connects with a secret, and tries to connect again.
use r_faa_s.Common.{refl, inl, true, some}
use r_faa_s.Rdmalib.Active.{
  Endpoint, Active, create_active, allocate, passed_data, connect_ended, connect,
}
use r_faa_s.Rdmalib.Active.Life.{connects, step, Life, begin, after}
use r_faa_s.Tests.Connection.{cm_id}
use r_faa_s.Tests.Listener.{from_some}

abbrev endpoint : Endpoint
endpoint = record { id = cm_id; pd = 3 }

abbrev connected : Active
connected = from_some create_active (step (connects 5 (some endpoint) true) create_active)

connected-Life : Life connected
unfolding step connect allocate passed_data connect_ended create_active
connected-Life =
    after (connects 5 (some endpoint) true) create_active connected begin (refl, inl refl) (λ e. cc)
      refl
