-- ===== src/ResourceManager/System/Admitting.antt =====
-- Which connections are admitted as executors: server/resource_manager/manager.cpp, `listen_rdma`.
use r_faa_s.Common.{
  ℕ, ◌≡◌, ap, ◌∙◌, not, ◌&&◌, some, List, nat_eq, get_elem?, ◌==◌, arith, if◌then◌else◌, some_inj,
  bind_inv,
}
use r_faa_s.Rdmalib.PrivateData.{key, secret as secret_of}
use r_faa_s.Rdmalib.Listener.{Connection}
use r_faa_s.ResourceManager.Manager.{admit, reject, accept_executor, accept_client}

decided :
    (k s mine : ℕ)
    → some (
        if k == 1 && not (s == mine)
        then reject
        else (if k == 1 then accept_executor else accept_client))
      ≡ some accept_executor
    → (k ≡ 1) × (s ≡ mine)
decided k s mine h = ground (arith, some_inj h)

-- Only the key of the executors with the secret of the manager is admitted as an executor.
pub admit-inv :
    (mine word : ℕ)
    → admit mine word ≡ some accept_executor
    → (key 8 8 16 word ≡ some 1) × (secret_of 8 8 16 word ≡ some mine)
unfolding admit
admit-inv mine word h =
    let (k, e, h1) = bind_inv (key 8 8 16 word) h in
    let (s, e', h2) = bind_inv (secret_of 8 8 16 word) h1 in
    let (one, same) = decided k s mine h2 in (e ∙ ap some one, e' ∙ ap some same)

-- A queue pair of a connection that came with the key of the executors and the secret.
pub record Admitted (connections : List Connection) (secret qp : ℕ) : Type 0 where
  pub place : ℕ
  pub conn : Connection
  pub object : get_elem? connections place ≡ some conn
  pub number : conn.qp.qp_num ≡ qp
  pub keyed : key 8 8 16 conn.private_data ≡ some 1
  pub proven : secret_of 8 8 16 conn.private_data ≡ some secret
