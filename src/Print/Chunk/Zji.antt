-- ===== src/Print/Chunk/Zji.antt =====
-- The ZJI_* constants of src/rastertopantum.c.
use pantum_open.Base.{ℕ}

abbrev pub pagecount : ℕ
pagecount = 0x0000

abbrev pub dmcollate : ℕ
dmcollate = 0x0001

abbrev pub dmduplex : ℕ
dmduplex = 0x0002

abbrev pub dmpaper : ℕ
dmpaper = 0x0003

abbrev pub dmcopies : ℕ
dmcopies = 0x0004

abbrev pub dmdefaultsource : ℕ
dmdefaultsource = 0x0005

abbrev pub dmmediatype : ℕ
dmmediatype = 0x0006

abbrev pub nbie : ℕ
nbie = 0x0007

abbrev pub resolution_x : ℕ
resolution_x = 0x0008

abbrev pub resolution_y : ℕ
resolution_y = 0x0009

abbrev pub raster_x : ℕ
raster_x = 0x000c

abbrev pub raster_y : ℕ
raster_y = 0x000d

abbrev pub video_bpp : ℕ
video_bpp = 0x0010

abbrev pub video_x : ℕ
video_x = 0x0011

abbrev pub video_y : ℕ
video_y = 0x0012

abbrev pub ret : ℕ
ret = 0x0016

abbrev pub custom_width : ℕ
custom_width = 0x0018

abbrev pub custom_height : ℕ
custom_height = 0x0019

abbrev pub custom_unit : ℕ
custom_unit = 0x001a

abbrev pub pantum_density : ℕ
pantum_density = 0xff00
