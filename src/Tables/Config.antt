-- ===== src/Tables/Config.antt =====
-- The constants of software/common/include/arp_config.hpp and of sys_list.hpp, type_list.hpp,
-- real_type_list.hpp, alg_list.hpp and param_comm_list.hpp in software/sim/sim/systems/base.
use arachnopod.Base.{ℕ}

abbrev pub arp_bus_sof : ℕ
arp_bus_sof = 0xaa

abbrev pub arp_bus_eof : ℕ
arp_bus_eof = 0x55

abbrev pub arp_flag_cmd_req : ℕ
arp_flag_cmd_req = 0

abbrev pub arp_flag_cmd_resp : ℕ
arp_flag_cmd_resp = 1

abbrev pub arp_flag_data_req : ℕ
arp_flag_data_req = 2

abbrev pub arp_flag_data_resp : ℕ
arp_flag_data_resp = 3

abbrev pub arp_bus_response_timeout_frames : ℕ
arp_bus_response_timeout_frames = 10

abbrev pub arp_addr_cs : ℕ
arp_addr_cs = 1

abbrev pub arp_addr_pss : ℕ
arp_addr_pss = 2

abbrev pub arp_addr_tcs : ℕ
arp_addr_tcs = 3

abbrev pub arp_addr_tms : ℕ
arp_addr_tms = 4

abbrev pub arp_addr_mns : ℕ
arp_addr_mns = 5

abbrev pub arp_addr_ls : ℕ
arp_addr_ls = 6

abbrev pub sys_none : ℕ
sys_none = 0

abbrev pub sys_cs : ℕ
sys_cs = 1

abbrev pub sys_pss : ℕ
sys_pss = 2

abbrev pub sys_tcs : ℕ
sys_tcs = 3

abbrev pub sys_tms : ℕ
sys_tms = 4

abbrev pub sys_mns : ℕ
sys_mns = 5

abbrev pub sys_ls : ℕ
sys_ls = 6

abbrev pub cs_param_storage_blocks : ℕ
cs_param_storage_blocks = 26

abbrev pub cs_comm_storage_blocks : ℕ
cs_comm_storage_blocks = 16

abbrev pub cs_param_buf_blocks : ℕ
cs_param_buf_blocks = 15

abbrev pub cs_param_msg_blocks : ℕ
cs_param_msg_blocks = 26

abbrev pub cs_comm_msg_blocks : ℕ
cs_comm_msg_blocks = 16

abbrev pub cs_comm_buf_blocks : ℕ
cs_comm_buf_blocks = 8

abbrev pub pss_param_msg_blocks : ℕ
pss_param_msg_blocks = 15

abbrev pub pss_comm_msg_blocks : ℕ
pss_comm_msg_blocks = 8

abbrev pub tcs_param_msg_blocks : ℕ
tcs_param_msg_blocks = 3

abbrev pub tcs_comm_msg_blocks : ℕ
tcs_comm_msg_blocks = 3

abbrev pub tms_param_msg_blocks : ℕ
tms_param_msg_blocks = 4

abbrev pub tms_comm_msg_blocks : ℕ
tms_comm_msg_blocks = 3

abbrev pub mns_param_msg_blocks : ℕ
mns_param_msg_blocks = 2

abbrev pub mns_comm_msg_blocks : ℕ
mns_comm_msg_blocks = 1

abbrev pub ls_param_msg_blocks : ℕ
ls_param_msg_blocks = 2

abbrev pub ls_comm_msg_blocks : ℕ
ls_comm_msg_blocks = 1

abbrev pub type_d : ℕ
type_d = 1

abbrev pub type_a : ℕ
type_a = 2

abbrev pub type_ap : ℕ
type_ap = 3

abbrev pub type_sign : ℕ
type_sign = 4

abbrev pub type_unsign : ℕ
type_unsign = 5

abbrev pub rtype_bool : ℕ
rtype_bool = 1

abbrev pub rtype_int8 : ℕ
rtype_int8 = 2

abbrev pub rtype_uint8 : ℕ
rtype_uint8 = 3

abbrev pub rtype_int16 : ℕ
rtype_int16 = 4

abbrev pub rtype_uint16 : ℕ
rtype_uint16 = 5

abbrev pub rtype_float32 : ℕ
rtype_float32 = 6

abbrev pub rtype_ufloat32 : ℕ
rtype_ufloat32 = 7

abbrev pub alg_none : ℕ
alg_none = 0

abbrev pub alg_an : ℕ
alg_an = 1

abbrev pub alg_ac : ℕ
alg_ac = 2

abbrev pub alg_abc : ℕ
alg_abc = 3

abbrev pub alg_aac : ℕ
alg_aac = 4

abbrev pub param_max : ℕ
param_max = 52

abbrev pub comm_max : ℕ
comm_max = 53

abbrev pub param_comm_max : ℕ
param_comm_max = 105
