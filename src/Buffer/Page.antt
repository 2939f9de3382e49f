-- ===== src/Buffer/Page.antt =====
-- src/buffer/Page.cpp
use relational_db_engine.Common.{
  ℕ, ◌+◌, ◌-◌, ◌%◌, Bool, false, length, replicate, ◌==◌, if◌then◌else◌,
}
use relational_db_engine.Core.Constants.{u32_mod, page_size_bytes, invalid_page_id}
use relational_db_engine.Core.Status.{Result, ok, err, invalid_argument}
use relational_db_engine.Core.Memory.{Bytes}

pub record Page : Type 0 where
  pub id : ℕ
  pub bytes : Bytes
  pub pin_count : ℕ
  pub is_dirty : Bool

unfoldable pub new_page : Page
new_page = record {
  id = invalid_page_id;
  bytes = replicate page_size_bytes 0;
  pin_count = 0;
  is_dirty = false;
}

unfoldable pub set_page_id : Page → ℕ → Page
set_page_id p id = record p { id = id }

unfoldable pub pin : Page → Page
pin p = record p { pin_count = (p.pin_count + 1) % u32_mod }

unfoldable pub unpin : Page → Result Page
unpin p =
    if p.pin_count == 0 then err invalid_argument else ok (record p { pin_count = p.pin_count - 1 })

unfoldable pub set_dirty : Page → Bool → Page
set_dirty p dirty = record p { is_dirty = dirty }

unfoldable pub reset : Page → Page
reset p = record p {
  id = invalid_page_id;
  pin_count = 0;
  is_dirty = false;
  bytes = replicate (length p.bytes) 0;
}
