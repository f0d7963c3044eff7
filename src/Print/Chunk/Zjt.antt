-- ===== src/Print/Chunk/Zjt.antt =====
-- The ZJT_* constants of src/rastertopantum.c.
use pantum_open.Base.{ℕ}

abbrev pub start_doc : ℕ
start_doc = 0x00

abbrev pub end_doc : ℕ
end_doc = 0x01

abbrev pub start_page : ℕ
start_page = 0x02

abbrev pub end_page : ℕ
end_page = 0x03

abbrev pub jbig_bih : ℕ
jbig_bih = 0x04

abbrev pub jbig_bid : ℕ
jbig_bid = 0x05

abbrev pub end_jbig : ℕ
end_jbig = 0x06

abbrev pub pause : ℕ
pause = 0x0b

abbrev pub pantum_param : ℕ
pantum_param = 0x11
