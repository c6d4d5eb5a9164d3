-- ===== src/Types.antt =====
-- types/types.go: the records that the packages share.
use onvakv.Base.{List, ℕ, Bool}
use onvakv.Base.Int.{ℤ}

abbrev pub Bytes : Type 0
Bytes = List ℕ

-- A nil slice and an empty one are the same list.
pub record Entry : Type 0 where
  pub key : Bytes
  pub value : Bytes
  pub next_key : Bytes
  pub height : ℤ
  pub last_height : ℤ
  pub serial_num : ℤ

pub data OperationOnEntry : Type 0 where
  op_none op_delete op_insert_or_change : OperationOnEntry

-- `value_is_nil` says whether the Value of the entry is the nil slice.
pub record HotEntry : Type 0 where
  pub entry : Entry
  pub value_is_nil : Bool
  pub operation : OperationOnEntry
  pub is_modified : Bool
  pub is_touched_by_next : Bool
