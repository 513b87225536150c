-- ===== src/Cs/Nodes.antt =====
-- The node layouts of cs_scheduler_internal.hpp and cs_scheduler_support.cpp: where each node's
-- messages lie in the images that CS keeps. The names of nodes, for the log, are not modelled.
use arachnopod.Base.{
  ℕ, ◌-◌, Bool, ◌&&◌, not, Option, none, some, List, [], ◌∷◌, ltb, leb, ◌==◌, if◌then◌else◌,
}
use arachnopod.Tables.Config.{
  arp_addr_pss, arp_addr_tcs, arp_addr_tms, arp_addr_mns, arp_addr_ls, sys_none, sys_pss, sys_tcs,
  sys_tms, sys_mns, sys_ls, pss_comm_msg_blocks, pss_param_msg_blocks, tcs_comm_msg_blocks,
  tcs_param_msg_blocks, tms_comm_msg_blocks, tms_param_msg_blocks, mns_comm_msg_blocks,
  mns_param_msg_blocks, ls_comm_msg_blocks, ls_param_msg_blocks,
}
use arachnopod.Tables.Entry.{Entry}
use arachnopod.Tables.Commands.{base_comm_tab}
use arachnopod.Tables.Params.{base_param_tab}
use arachnopod.Scheduler.Types.{Target, any, pss, tcs, tms, mns, ls}

-- `node_layout_t`
pub record NodeLayout : Type 0 where
  pub target : Target
  pub bus_addr : ℕ
  pub system_id : ℕ
  pub com_cs_base_block : ℕ
  pub com_blocks : ℕ
  pub par_cs_base_block : ℕ
  pub par_blocks : ℕ

abbrev pub node_layout : Target → ℕ → ℕ → ℕ → ℕ → NodeLayout
node_layout target bus_addr system_id com_blocks par_blocks = record {
  target = target;
  bus_addr = bus_addr;
  system_id = system_id;
  com_cs_base_block = 0;
  com_blocks = com_blocks;
  par_cs_base_block = 0;
  par_blocks = par_blocks;
}

-- `node_layout_t{}`
abbrev pub no_node : NodeLayout
no_node = node_layout any 0 sys_none 0 0

-- `G_NODES` as it is declared.
unfoldable pub initial_nodes : List NodeLayout
initial_nodes =
    node_layout pss arp_addr_pss sys_pss pss_comm_msg_blocks pss_param_msg_blocks
    ∷ node_layout tcs arp_addr_tcs sys_tcs tcs_comm_msg_blocks tcs_param_msg_blocks
    ∷ node_layout tms arp_addr_tms sys_tms tms_comm_msg_blocks tms_param_msg_blocks
    ∷ node_layout mns arp_addr_mns sys_mns mns_comm_msg_blocks mns_param_msg_blocks
    ∷ node_layout ls arp_addr_ls sys_ls ls_comm_msg_blocks ls_param_msg_blocks
    ∷ []

-- The loop of the two searches: the base found so far is `none` where none is.
abbrev pub lower_base : Option ℕ → ℕ → Option ℕ
lower_base none block = some block
lower_base (some base) block = if ltb block base then some block else some base

unfoldable pub base_block_loop : List Entry → ℕ → Option ℕ → Option ℕ
base_block_loop [] system_id base = base
base_block_loop (e ∷ es) system_id base =
    base_block_loop es system_id
      (if not (e.sys_id == system_id) then base else lower_base base e.msg_cs_block_n)

abbrev pub found_base : Option ℕ → ℕ
found_base none = 0
found_base (some base) = base

unfoldable pub find_cs_command_base_block : ℕ → ℕ
find_cs_command_base_block system_id = found_base (base_block_loop base_comm_tab system_id none)

unfoldable pub find_cs_param_base_block : ℕ → ℕ
find_cs_param_base_block system_id = found_base (base_block_loop base_param_tab system_id none)

abbrev pub init_layout : NodeLayout → NodeLayout
init_layout node = record node {
  com_cs_base_block = find_cs_command_base_block node.system_id;
  par_cs_base_block = find_cs_param_base_block node.system_id;
}

unfoldable pub init_node_layouts : List NodeLayout → List NodeLayout
init_node_layouts [] = []
init_node_layouts (node ∷ nodes) = init_layout node ∷ init_node_layouts nodes

-- On `size_t`; the difference is taken only where it is not negative.
unfoldable pub window_fits : ℕ → ℕ → ℕ → Bool
window_fits offset blocks capacity = leb offset capacity && leb blocks (capacity - offset)
