-- ===== src/Tables/PssIds.antt =====
-- The identifiers of the power system in software/sim/sim/systems/base/param_comm_list.hpp, and the
-- ranges of sys_id_range.hpp.
use arachnopod.Base.{ℕ}

abbrev pub psspwr : ℕ
psspwr = 0

abbrev pub psspwr12 : ℕ
psspwr12 = 1

abbrev pub psspwr6 : ℕ
psspwr6 = 2

abbrev pub psspwr5 : ℕ
psspwr5 = 3

abbrev pub psspwr33 : ℕ
psspwr33 = 4

abbrev pub psseco : ℕ
psseco = 5

abbrev pub pssclock : ℕ
pssclock = 6

abbrev pub pssmaxt1 : ℕ
pssmaxt1 = 7

abbrev pub pssmaxt2 : ℕ
pssmaxt2 = 8

abbrev pub pssmaxa : ℕ
pssmaxa = 9

abbrev pub pssmaxw : ℕ
pssmaxw = 10

abbrev pub pssminc : ℕ
pssminc = 11

abbrev pub pssminv : ℕ
pssminv = 12

abbrev pub pssmaxa12 : ℕ
pssmaxa12 = 13

abbrev pub pssmaxa6 : ℕ
pssmaxa6 = 14

abbrev pub pssmaxa5 : ℕ
pssmaxa5 = 15

abbrev pub pssmaxa33 : ℕ
pssmaxa33 = 16

abbrev pub psst1 : ℕ
psst1 = 17

abbrev pub psst2 : ℕ
psst2 = 18

abbrev pub pssa : ℕ
pssa = 19

abbrev pub pssw : ℕ
pssw = 20

abbrev pub pssv : ℕ
pssv = 21

abbrev pub pssc : ℕ
pssc = 22

abbrev pub pssa12 : ℕ
pssa12 = 23

abbrev pub pssv12 : ℕ
pssv12 = 24

abbrev pub pssa6 : ℕ
pssa6 = 25

abbrev pub pssv6 : ℕ
pssv6 = 26

abbrev pub pssa5 : ℕ
pssa5 = 27

abbrev pub pssv5 : ℕ
pssv5 = 28

abbrev pub pssa33 : ℕ
pssa33 = 29

abbrev pub pssv33 : ℕ
pssv33 = 30

abbrev pub cpssinit : ℕ
cpssinit = 52

abbrev pub cpsspwron : ℕ
cpsspwron = 53

abbrev pub cpsspwroff : ℕ
cpsspwroff = 54

abbrev pub cpsspwr12on : ℕ
cpsspwr12on = 55

abbrev pub cpsspwr12off : ℕ
cpsspwr12off = 56

abbrev pub cpsspwr6on : ℕ
cpsspwr6on = 57

abbrev pub cpsspwr6off : ℕ
cpsspwr6off = 58

abbrev pub cpsspwr5on : ℕ
cpsspwr5on = 59

abbrev pub cpsspwr5off : ℕ
cpsspwr5off = 60

abbrev pub cpsspwr33on : ℕ
cpsspwr33on = 61

abbrev pub cpsspwr33off : ℕ
cpsspwr33off = 62

abbrev pub cpssecoon : ℕ
cpssecoon = 63

abbrev pub cpssecooff : ℕ
cpssecooff = 64

abbrev pub cpssmaxt1 : ℕ
cpssmaxt1 = 65

abbrev pub cpssmaxt2 : ℕ
cpssmaxt2 = 66

abbrev pub cpssmaxa : ℕ
cpssmaxa = 67

abbrev pub cpssmaxw : ℕ
cpssmaxw = 68

abbrev pub cpssminc : ℕ
cpssminc = 69

abbrev pub cpssminv : ℕ
cpssminv = 70

abbrev pub cpssmaxa12 : ℕ
cpssmaxa12 = 71

abbrev pub cpssmaxa6 : ℕ
cpssmaxa6 = 72

abbrev pub cpssmaxa5 : ℕ
cpssmaxa5 = 73

abbrev pub cpssmaxa33 : ℕ
cpssmaxa33 = 74

abbrev pub cpssclock : ℕ
cpssclock = 75

abbrev pub pss_base : ℕ
pss_base = 0

abbrev pub pss_count : ℕ
pss_count = 31

abbrev pub cpss_base : ℕ
cpss_base = 52

abbrev pub cpss_count : ℕ
cpss_count = 24
