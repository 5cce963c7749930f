-- ===== src/Catalog/Toggles/Found.antt =====
-- transforms.py `_boolean_pair`: no toggle is missed.
use esphome_vitohome.Common.{List}
