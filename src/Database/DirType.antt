-- ===== src/Database/DirType.antt =====
-- `VITA_DIR_TYPE_MASK_*` (src/vitamtp.h).
use vita_mtp.Base.{ℕ}

abbrev pub music : ℕ
music = 0x1000000

abbrev pub photo : ℕ
photo = 0x2000000

abbrev pub video : ℕ
video = 0x4000000

abbrev pub root : ℕ
root = 0x10000

abbrev pub regular : ℕ
regular = 1

abbrev pub all : ℕ
all = 0x200

abbrev pub songs : ℕ
songs = 8
