-- ===== src/Core/Constants.antt =====
-- include/dandb/core/Constants.h
use relational_db_engine.Common.{ℕ}

-- A PageId is a uint32_t, a SlotId a uint16_t: numbers below these.
abbrev pub u16_mod : ℕ
u16_mod = 0x1_0000

abbrev pub u32_mod : ℕ
u32_mod = 0x1_0000_0000

abbrev pub u64_mod : ℕ
u64_mod = 0x1_0000_0000_0000_0000

abbrev pub page_size_bytes : ℕ
page_size_bytes = 4096

abbrev pub invalid_page_id : ℕ
invalid_page_id = 0xffff_ffff

abbrev pub invalid_slot_id : ℕ
invalid_slot_id = 0xffff
