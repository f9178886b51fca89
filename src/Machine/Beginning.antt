-- ===== src/Machine/Beginning.antt =====
-- machine.go: Machine.start, which completes a machine and starts its goroutine, and the calls of a
-- machine's information.
use bigmachine.Prelude.{
  ℕ, ◌≡◌, Bool, false, Option, none, some, Text, codes, if◌then◌else◌, ◌==◌, arith,
}
use bigmachine.Machine.Retry.{Result}

-- The fields that start completes: the RPC client by its identifier, and the keepalive times.
pub record Config : Type 0 where
  pub client : Option ℕ
  pub keepalive_period : ℕ
  pub keepalive_timeout : ℕ
  pub keepalive_rpc_timeout : ℕ

-- start, by the client of the B and what its system's KeepaliveConfig returns.
unfoldable pub begin_config : ℕ → ℕ × ℕ × ℕ → Config → Config
begin_config b_client (period, timeout, rpc_timeout) c =
    let c' : Config = elim c.client [ some k ↦ c | none ↦ record c { client = some b_client } ] in
    if c.keepalive_period == 0
    then record c' {
      keepalive_period = period;
      keepalive_timeout = timeout;
      keepalive_rpc_timeout = rpc_timeout;
    }
    else c'

-- A client and keepalive times that a machine already has are kept by a later start.
pub begin_config-again :
    (client client' : ℕ) (period timeout rpc_timeout : ℕ) (times : ℕ × ℕ × ℕ) (c : Config)
    → (period == 0) ≡ false
    → let started = begin_config client (period, timeout, rpc_timeout) c in
      begin_config client' times started ≡ started
unfolding begin_config
begin_config-again client client' period timeout rpc_timeout times c h = ground (arith, h)

module _ {Err Reply : Type 0} (call : Text → Bool → Result Err Reply) where
  -- MemInfo, DiskInfo and LoadInfo, over Machine.Call; the latter two send an empty struct.
  unfoldable pub call_mem_info : Bool → Result Err Reply
  call_mem_info read_mem_stats = call (codes "Supervisor.MemInfo") read_mem_stats

  unfoldable pub call_disk_info : Result Err Reply
  call_disk_info = call (codes "Supervisor.DiskInfo") false

  unfoldable pub call_load_info : Result Err Reply
  call_load_info = call (codes "Supervisor.LoadInfo") false
