-- ===== src/Model/MnsIsim.antt =====
-- software/sim/sim/simulation/base/include/sim_mns_base.hpp: ISIM_PARAMS, row for row.
-- The entries' variables
-- are numbered in the order of their declarations; the `key` texts are not modelled.
use arachnopod.Base.{List, [], ◌∷◌}
use arachnopod.Isim.Registry.{ParamEntry, whole, boolean, int8, float32}
use arachnopod.Model.Params.{param}

unfoldable pub mns_isim_params : List ParamEntry
mns_isim_params =
    param 46 1 boolean 0 (whole 0)
    ∷ param 47 8 int8 1 (whole 0)
    ∷ param 48 16 float32 2 (whole 0)
    ∷ param 32771 16 float32 3 (whole 0)
    ∷ param 32772 16 float32 4 (whole 0)
    ∷ param 32773 16 float32 5 (whole 0)
    ∷ param 32774 8 int8 6 (whole 0)
    ∷ param 32775 16 float32 7 (whole 0)
    ∷ param 32776 16 float32 8 (whole 0)
    ∷ param 32777 16 float32 9 (whole 0)
    ∷ param 32778 16 float32 10 (whole 0)
    ∷ param 32779 8 int8 11 (whole 0)
    ∷ param 32780 16 float32 12 (whole 0)
    ∷ param 32781 16 float32 13 (whole 0)
    ∷ param 32782 16 float32 14 (whole 0)
    ∷ param 32783 16 float32 15 (whole 0)
    ∷ param 32784 16 float32 16 (whole 0)
    ∷ param 32785 8 int8 17 (whole 0)
    ∷ param 32786 16 float32 18 (whole 0)
    ∷ param 32787 16 float32 19 (whole 0)
    ∷ param 32788 16 float32 20 (whole 0)
    ∷ param 32789 16 float32 21 (whole 0)
    ∷ param 32790 16 float32 22 (whole 0)
    ∷ param 32791 8 int8 23 (whole 0)
    ∷ param 32792 16 float32 24 (whole 0)
    ∷ param 32793 16 float32 25 (whole 0)
    ∷ param 32794 16 float32 26 (whole 0)
    ∷ param 32795 16 float32 27 (whole 0)
    ∷ param 32796 8 int8 28 (whole 0)
    ∷ param 32797 16 float32 29 (whole 0)
    ∷ param 32798 16 float32 30 (whole 0)
    ∷ param 32799 16 float32 31 (whole 0)
    ∷ param 32800 16 float32 32 (whole 0)
    ∷ param 32801 8 int8 33 (whole 0)
    ∷ param 32802 16 float32 34 (whole 0)
    ∷ param 32803 16 float32 35 (whole 0)
    ∷ param 32804 16 float32 36 (whole 0)
    ∷ param 32805 16 float32 37 (whole 0)
    ∷ param 32806 16 float32 38 (whole 0)
    ∷ param 32807 8 int8 39 (whole 0)
    ∷ param 32808 16 float32 40 (whole 0)
    ∷ param 32809 16 float32 41 (whole 0)
    ∷ param 32810 16 float32 42 (whole 0)
    ∷ param 32811 16 float32 43 (whole 0)
    ∷ param 32812 16 float32 44 (whole 0)
    ∷ param 32813 8 int8 45 (whole 0)
    ∷ param 32814 16 float32 46 (whole 0)
    ∷ param 32815 16 float32 47 (whole 0)
    ∷ param 32816 16 float32 48 (whole 0)
    ∷ param 32817 16 float32 49 (whole 0)
    ∷ param 32818 8 int8 50 (whole 0)
    ∷ param 32819 16 float32 51 (whole 0)
    ∷ param 32820 16 float32 52 (whole 0)
    ∷ param 32821 16 float32 53 (whole 0)
    ∷ param 32822 16 float32 54 (whole 0)
    ∷ param 32823 8 int8 55 (whole 0)
    ∷ param 32824 16 float32 56 (whole 0)
    ∷ param 32825 16 float32 57 (whole 0)
    ∷ param 32826 16 float32 58 (whole 0)
    ∷ param 32827 16 float32 59 (whole 0)
    ∷ param 32828 16 float32 60 (whole 0)
    ∷ param 32829 8 int8 61 (whole 0)
    ∷ param 32830 16 float32 62 (whole 0)
    ∷ param 32831 16 float32 63 (whole 0)
    ∷ param 32832 16 float32 64 (whole 0)
    ∷ param 32833 16 float32 65 (whole 0)
    ∷ param 32834 16 float32 66 (whole 0)
    ∷ param 32835 8 int8 67 (whole 0)
    ∷ param 32836 16 float32 68 (whole 0)
    ∷ param 32837 16 float32 69 (whole 0)
    ∷ param 32838 16 float32 70 (whole 0)
    ∷ param 32839 16 float32 71 (whole 0)
    ∷ param 32840 8 int8 72 (whole 0)
    ∷ param 32841 16 float32 73 (whole 0)
    ∷ param 32842 16 float32 74 (whole 0)
    ∷ param 32843 16 float32 75 (whole 0)
    ∷ param 32844 16 float32 76 (whole 0)
    ∷ param 32845 8 int8 77 (whole 0)
    ∷ param 32846 16 float32 78 (whole 0)
    ∷ param 32847 16 float32 79 (whole 0)
    ∷ param 32848 16 float32 80 (whole 0)
    ∷ param 32849 16 float32 81 (whole 0)
    ∷ param 32850 16 float32 82 (whole 0)
    ∷ param 32851 8 int8 83 (whole 0)
    ∷ param 32852 16 float32 84 (whole 0)
    ∷ param 32853 16 float32 85 (whole 0)
    ∷ param 32854 16 float32 86 (whole 0)
    ∷ param 32855 16 float32 87 (whole 0)
    ∷ param 32856 16 float32 88 (whole 0)
    ∷ param 32857 8 int8 89 (whole 0)
    ∷ param 32858 16 float32 90 (whole 0)
    ∷ param 32859 16 float32 91 (whole 0)
    ∷ param 32860 16 float32 92 (whole 0)
    ∷ param 32861 16 float32 93 (whole 0)
    ∷ param 32862 8 int8 94 (whole 0)
    ∷ param 32863 16 float32 95 (whole 0)
    ∷ param 32864 16 float32 96 (whole 0)
    ∷ param 32865 16 float32 97 (whole 0)
    ∷ param 32866 16 float32 98 (whole 0)
    ∷ param 32867 8 int8 99 (whole 0)
    ∷ param 32868 16 float32 100 (whole 0)
    ∷ param 32869 16 float32 101 (whole 0)
    ∷ param 32870 16 float32 102 (whole 0)
    ∷ param 32871 16 float32 103 (whole 0)
    ∷ param 32872 16 float32 104 (whole 0)
    ∷ param 32873 8 int8 105 (whole 0)
    ∷ param 32874 16 float32 106 (whole 0)
    ∷ param 32875 16 float32 107 (whole 0)
    ∷ param 32876 16 float32 108 (whole 0)
    ∷ param 32877 16 float32 109 (whole 0)
    ∷ param 32878 16 float32 110 (whole 0)
    ∷ param 32879 8 int8 111 (whole 0)
    ∷ param 32880 16 float32 112 (whole 0)
    ∷ param 32881 16 float32 113 (whole 0)
    ∷ param 32882 16 float32 114 (whole 0)
    ∷ param 32883 16 float32 115 (whole 0)
    ∷ param 32884 8 int8 116 (whole 0)
    ∷ param 32885 16 float32 117 (whole 0)
    ∷ param 32886 16 float32 118 (whole 0)
    ∷ param 32887 16 float32 119 (whole 0)
    ∷ param 32888 16 float32 120 (whole 0)
    ∷ param 32889 8 int8 121 (whole 0)
    ∷ param 32890 16 float32 122 (whole 0)
    ∷ param 32891 16 float32 123 (whole 0)
    ∷ param 32892 16 float32 124 (whole 0)
    ∷ param 32893 16 float32 125 (whole 0)
    ∷ param 32894 16 float32 126 (whole 0)
    ∷ param 32895 8 int8 127 (whole 0)
    ∷ param 32896 16 float32 128 (whole 0)
    ∷ param 32897 16 float32 129 (whole 0)
    ∷ param 32898 16 float32 130 (whole 0)
    ∷ param 32899 16 float32 131 (whole 0)
    ∷ param 32900 16 float32 132 (whole 0)
    ∷ param 32901 8 int8 133 (whole 0)
    ∷ param 32902 16 float32 134 (whole 0)
    ∷ param 32903 16 float32 135 (whole 0)
    ∷ param 32904 16 float32 136 (whole 0)
    ∷ param 32905 16 float32 137 (whole 0)
    ∷ param 32906 8 int8 138 (whole 0)
    ∷ param 32907 16 float32 139 (whole 0)
    ∷ param 32908 16 float32 140 (whole 0)
    ∷ param 32909 16 float32 141 (whole 0)
    ∷ param 32910 16 float32 142 (whole 0)
    ∷ param 32911 8 int8 143 (whole 0)
    ∷ param 32912 16 float32 144 (whole 0)
    ∷ param 32913 16 float32 145 (whole 0)
    ∷ param 32914 16 float32 146 (whole 0)
    ∷ param 32915 16 float32 147 (whole 0)
    ∷ param 32916 16 float32 148 (whole 0)
    ∷ param 32917 8 int8 149 (whole 0)
    ∷ param 32918 16 float32 150 (whole 0)
    ∷ param 32919 16 float32 151 (whole 0)
    ∷ param 32920 16 float32 152 (whole 0)
    ∷ param 32921 16 float32 153 (whole 0)
    ∷ param 32922 16 float32 154 (whole 0)
    ∷ param 32923 8 int8 155 (whole 0)
    ∷ param 32924 16 float32 156 (whole 0)
    ∷ param 32925 16 float32 157 (whole 0)
    ∷ param 32926 16 float32 158 (whole 0)
    ∷ param 32927 16 float32 159 (whole 0)
    ∷ param 32928 8 int8 160 (whole 0)
    ∷ param 32929 16 float32 161 (whole 0)
    ∷ param 32930 16 float32 162 (whole 0)
    ∷ param 32931 16 float32 163 (whole 0)
    ∷ param 32932 16 float32 164 (whole 0)
    ∷ param 32933 8 int8 165 (whole 0)
    ∷ param 32934 16 float32 166 (whole 0)
    ∷ param 32935 16 float32 167 (whole 0)
    ∷ param 32936 16 float32 168 (whole 0)
    ∷ param 32937 16 float32 169 (whole 0)
    ∷ param 32938 16 float32 170 (whole 0)
    ∷ param 32939 8 int8 171 (whole 0)
    ∷ param 32940 16 float32 172 (whole 0)
    ∷ param 32941 16 float32 173 (whole 0)
    ∷ param 32942 16 float32 174 (whole 0)
    ∷ param 32943 16 float32 175 (whole 0)
    ∷ param 32944 16 float32 176 (whole 0)
    ∷ param 32945 8 int8 177 (whole 0)
    ∷ param 32946 16 float32 178 (whole 0)
    ∷ []
