-- ===== src/Client/Lease.antt =====
-- rfaas/include/rfaas/client.hpp: how a client leases an executor. The answer of the resource manager is
-- the completions of a blocking poll and the slots that responses arrive in; `none` stands for a read
-- outside of what is there.
pub mod Granting
use r_faa_s.Common.{
  ℕ, Bool, true, false, Option, none, some, List, [], ◌∷◌, Bytes, get_elem?, ◌==◌, ◌>>=◌,
  if◌then◌else◌,
}
use r_faa_s.Common.Int.{ℤ, pos, negsuc, to_int32}
use r_faa_s.Rdmalib.Queue.{Wc}
use r_faa_s.ResourceManager.Messages.{c_string}
use r_faa_s.Client.Invocation.{NetworkOrder}
use r_faa_s.Client.Connections.{ResourceManagerConnection, submit_lease}

-- What an executor is constructed with, besides the device.
pub record Leased : Type 0 where
  pub address : Bytes
  pub port : ℤ
  pub numcores : ℤ
  pub memory : ℤ
  pub lease_id : ℤ

-- A server of the file of nodes, as far as a lease without the resource manager goes.
pub record ServerData : Type 0 where
  pub address : Bytes
  pub port : ℤ

-- The second overload of `lease`: the first server, under the identifier -1.
unfoldable pub lease_server : List ServerData → ℤ → ℤ → Option Leased
lease_server [] cores memory = none
lease_server (instance_ ∷ nodes) cores memory = some (record {
  address = instance_.address;
  port = instance_.port;
  numcores = cores;
  memory = memory;
  lease_id = negsuc 0;
})

module _ (n : NetworkOrder) where
  open n use {ntohl}

  -- The first response counts, whatever its status; without an executor nothing else is read. The field
  -- for the identifier, which the manager counts as `uint32_t`, is an `int32_t`.
  unfoldable pub read_response :
      ℤ → ℤ → List Wc → ResourceManagerConnection → Option (Option Leased)
  read_response cores memory [] c = none
  read_response cores memory (wc ∷ wcs) c =
      let leased = (do
        response ← get_elem? c.responses wc.wr_id
        address ← c_string response.address
        some (
            some (record {
              address = address;
              port = response.port;
              numcores = cores;
              memory = memory;
              lease_id = to_int32 (pos response.lease_id);
            }))) in
      if ntohl wc.imm_data == 0 then some none else leased

  -- `lease`: a client that is not connected gets nothing and asks for nothing.
  unfoldable pub lease :
      ℤ
      → ℤ
      → List Wc
      → ResourceManagerConnection
      → Option (Option Leased × ResourceManagerConnection)
  unfolding submit_lease read_response
  lease cores memory wcs c =
      let c' =
        (submit_lease (record c { request = record { cores = cores; memory = memory } })).1 in
      let asked = (do leased ← read_response cores memory wcs c'; some (leased, c')) in
      if c.is_connected then asked else some (none, c)
