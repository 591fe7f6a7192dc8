-- ===== src/Database/DataType.antt =====
-- `enum DataType` (src/vitamtp.h).
use vita_mtp.Base.{ℕ}

abbrev pub folder : ℕ
folder = 1

abbrev pub file : ℕ
file = 2

abbrev pub app : ℕ
app = 4

abbrev pub save_data : ℕ
save_data = 16

abbrev pub music : ℕ
music = 32

abbrev pub photo : ℕ
photo = 64

abbrev pub video : ℕ
video = 128

abbrev pub game : ℕ
game = 256

abbrev pub special : ℕ
special = 512
