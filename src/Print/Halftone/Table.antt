-- ===== src/Print/Halftone/Table.antt =====
-- ht_table_600 of src/rastertopantum.c: the 16 rows of the threshold matrix, one after the other.
use pantum_open.Base.{ℕ, List, [], ◌∷◌}

abbrev pub ht_table_600 : List ℕ
ht_table_600 =
    0x06 ∷ 0x52 ∷ 0xe9 ∷ 0xfe ∷ 0xfb ∷ 0xe2 ∷ 0x46 ∷ 0x05 ∷ 0x07 ∷ 0x55 ∷ 0xeb ∷ 0xff ∷ 0xfc ∷ 0xe4
    ∷ 0x49 ∷ 0x05 ∷ 0x37 ∷ 0x79 ∷ 0xa5 ∷ 0xda ∷ 0xd3 ∷ 0x98 ∷ 0x72 ∷ 0x31 ∷ 0x39 ∷ 0x7a ∷ 0xa7
    ∷ 0xdc ∷ 0xd5 ∷ 0x9c ∷ 0x73 ∷ 0x2f ∷ 0xc7 ∷ 0x86 ∷ 0x69 ∷ 0x29 ∷ 0x1b ∷ 0x5f ∷ 0x7e ∷ 0xc0
    ∷ 0xca ∷ 0x88 ∷ 0x6b ∷ 0x2d ∷ 0x1f ∷ 0x61 ∷ 0x7b ∷ 0xbe ∷ 0xf3 ∷ 0xb4 ∷ 0x12 ∷ 0x03 ∷ 0x01
    ∷ 0x0d ∷ 0xac ∷ 0xee ∷ 0xf4 ∷ 0xb6 ∷ 0x13 ∷ 0x03 ∷ 0x01 ∷ 0x0c ∷ 0xaa ∷ 0xed ∷ 0xf8 ∷ 0xde
    ∷ 0x41 ∷ 0x04 ∷ 0x0a ∷ 0x4f ∷ 0xe8 ∷ 0xfd ∷ 0xfa ∷ 0xe0 ∷ 0x43 ∷ 0x04 ∷ 0x09 ∷ 0x4c ∷ 0xe6
    ∷ 0xfc ∷ 0xd0 ∷ 0x91 ∷ 0x6d ∷ 0x35 ∷ 0x3e ∷ 0x77 ∷ 0xa2 ∷ 0xd8 ∷ 0xd2 ∷ 0x95 ∷ 0x70 ∷ 0x33
    ∷ 0x3b ∷ 0x75 ∷ 0x9f ∷ 0xd7 ∷ 0x16 ∷ 0x58 ∷ 0x83 ∷ 0xc5 ∷ 0xce ∷ 0x8e ∷ 0x66 ∷ 0x26 ∷ 0x18
    ∷ 0x5b ∷ 0x80 ∷ 0xc3 ∷ 0xcc ∷ 0x8b ∷ 0x64 ∷ 0x22 ∷ 0x02 ∷ 0x10 ∷ 0xb1 ∷ 0xf1 ∷ 0xf7 ∷ 0xbb
    ∷ 0x15 ∷ 0x02 ∷ 0x01 ∷ 0x0f ∷ 0xaf ∷ 0xf0 ∷ 0xf5 ∷ 0xb9 ∷ 0x14 ∷ 0x02 ∷ 0x07 ∷ 0x55 ∷ 0xeb
    ∷ 0xff ∷ 0xfc ∷ 0xe4 ∷ 0x49 ∷ 0x05 ∷ 0x06 ∷ 0x52 ∷ 0xe9 ∷ 0xfe ∷ 0xfb ∷ 0xe2 ∷ 0x46 ∷ 0x05
    ∷ 0x39 ∷ 0x7a ∷ 0xa7 ∷ 0xdc ∷ 0xd5 ∷ 0x9c ∷ 0x73 ∷ 0x2f ∷ 0x37 ∷ 0x79 ∷ 0xa5 ∷ 0xda ∷ 0xd3
    ∷ 0x98 ∷ 0x72 ∷ 0x31 ∷ 0xca ∷ 0x88 ∷ 0x6b ∷ 0x2d ∷ 0x1f ∷ 0x61 ∷ 0x7b ∷ 0xbe ∷ 0xc7 ∷ 0x86
    ∷ 0x69 ∷ 0x29 ∷ 0x1b ∷ 0x5f ∷ 0x7e ∷ 0xc0 ∷ 0xf4 ∷ 0xb6 ∷ 0x13 ∷ 0x03 ∷ 0x01 ∷ 0x0c ∷ 0xaa
    ∷ 0xed ∷ 0xf3 ∷ 0xb4 ∷ 0x12 ∷ 0x03 ∷ 0x01 ∷ 0x0d ∷ 0xac ∷ 0xee ∷ 0xfa ∷ 0xe0 ∷ 0x43 ∷ 0x04
    ∷ 0x09 ∷ 0x4c ∷ 0xe6 ∷ 0xfc ∷ 0xf8 ∷ 0xde ∷ 0x41 ∷ 0x04 ∷ 0x0a ∷ 0x4f ∷ 0xe8 ∷ 0xfd ∷ 0xd2
    ∷ 0x95 ∷ 0x70 ∷ 0x33 ∷ 0x3b ∷ 0x75 ∷ 0x9f ∷ 0xd7 ∷ 0xd0 ∷ 0x91 ∷ 0x6d ∷ 0x35 ∷ 0x3e ∷ 0x77
    ∷ 0xa2 ∷ 0xd8 ∷ 0x18 ∷ 0x5b ∷ 0x80 ∷ 0xc3 ∷ 0xcc ∷ 0x8b ∷ 0x64 ∷ 0x22 ∷ 0x16 ∷ 0x58 ∷ 0x83
    ∷ 0xc5 ∷ 0xce ∷ 0x8e ∷ 0x66 ∷ 0x26 ∷ 0x01 ∷ 0x0f ∷ 0xaf ∷ 0xf0 ∷ 0xf5 ∷ 0xb9 ∷ 0x14 ∷ 0x02
    ∷ 0x02 ∷ 0x10 ∷ 0xb1 ∷ 0xf1 ∷ 0xf7 ∷ 0xbb ∷ 0x15 ∷ 0x02 ∷ []
