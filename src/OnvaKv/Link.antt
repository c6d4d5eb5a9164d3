-- ===== src/OnvaKv/Link.antt =====
-- The first loop of `update` in onvakv.go: it sets the NextKey of the hot entries and marks what is
-- to be stored. `cachedEntries` around the index `i` is a zipper: the entries before `i`, nearest
-- first, and the entries from `i` on.
use onvakv.Base.{
  ◌-◌, ◌^◌, Bool, true, false, not, ◌&&◌, Option, none, some, List, [], ◌∷◌, ◌==◌, if◌then◌else◌,
  ◌>>=◌,
}
use onvakv.Base.Int.{ℤ, pos, negsuc}
use onvakv.Types.{Bytes, OperationOnEntry, op_none, op_delete, op_insert_or_change, HotEntry}

abbrev pub is_delete : OperationOnEntry → Bool
is_delete op_delete = true
is_delete _ = false

abbrev pub is_none : OperationOnEntry → Bool
is_none op_none = true
is_none _ = false

abbrev pub is_insert_or_change : OperationOnEntry → Bool
is_insert_or_change op_insert_or_change = true
is_insert_or_change _ = false

-- `sn == -1`, `sn >= 0` and `sn == math.MinInt64`
abbrev pub is_minus_one : ℤ → Bool
is_minus_one (pos n) = false
is_minus_one (negsuc n) = n == 0

abbrev pub is_natural : ℤ → Bool
is_natural (pos n) = true
is_natural (negsuc n) = false

abbrev pub is_min_int64 : ℤ → Bool
is_min_int64 (pos n) = false
is_min_int64 (negsuc n) = n == 2 ^ 63 - 1

unfoldable pub is_fake_inserted : HotEntry → Bool
is_fake_inserted h = is_minus_one h.entry.serial_num && h.value_is_nil

unfoldable pub is_inserted : HotEntry → Bool
is_inserted h = is_insert_or_change h.operation && is_minus_one h.entry.serial_num

unfoldable pub is_changed : HotEntry → Bool
is_changed h = is_insert_or_change h.operation && is_natural h.entry.serial_num

unfoldable pub is_hint_hot_entry : HotEntry → Bool
is_hint_hot_entry h = is_min_int64 h.entry.serial_num

unfoldable pub make_hint_hot_entry : Bytes → HotEntry
make_hint_hot_entry key = record {
  entry = record {
    key = key;
    value = [];
    next_key = [];
    height = negsuc 0;
    last_height = negsuc 0;
    serial_num = negsuc (2 ^ 63 - 1);
  };
  value_is_nil = true;
  operation = op_none;
  is_modified = false;
  is_touched_by_next = false;
}

-- The test of getPrev and getNext.
unfoldable pub is_live : HotEntry → Bool
is_live h = not (is_delete h.operation) && not (is_fake_inserted h)

-- getNext: the key of the nearest live entry behind `i`. The code panics where there is none.
unfoldable pub get_next : List HotEntry → Option Bytes
get_next [] = none
get_next (h ∷ after) = let rest = get_next after in if is_live h then some h.entry.key else rest

-- getPrev, and the writes to the entry that it finds.
unfoldable pub touch_prev : Bytes → List HotEntry → Option (List HotEntry)
touch_prev k [] = none
touch_prev k (h ∷ before) =
    let rest = (do before' ← touch_prev k before; some (h ∷ before')) in
    if is_live h
    then some
        (record h { entry = record h.entry { next_key = k }; is_touched_by_next = true } ∷ before)
    else rest

-- The body of the loop at one entry: the entries before it, and itself, as they are afterwards.
unfoldable pub link_entry :
    List HotEntry → HotEntry → List HotEntry → Option (List HotEntry × HotEntry)
link_entry before h after =
    if not (is_none h.operation) && is_hint_hot_entry h
    then none
    else if is_fake_inserted h
    then some (before, h)
    else if is_delete h.operation
    then (do
      next_key ← get_next after
      before' ← touch_prev next_key before
      some (before', record h { is_modified = true }))
    else if is_inserted h
    then (do
      next_key ← get_next after
      before' ← touch_prev h.entry.key before
      some (
        before',
        record h { entry = record h.entry { next_key = next_key }; is_modified = true },
      ))
    else if is_changed h
    then some (before, record h { is_modified = true })
    else some (before, h)

-- The whole slice that a zipper stands for.
unfoldable pub slice : List HotEntry → List HotEntry → List HotEntry
slice [] after = after
slice (h ∷ before) after = slice before (h ∷ after)

unfoldable pub link_loop : List HotEntry → List HotEntry → Option (List HotEntry)
link_loop before [] = some (slice before [])
link_loop before (h ∷ after) = do
  (before', h') ← link_entry before h after
  link_loop (h' ∷ before') after

unfoldable pub link_entries : List HotEntry → Option (List HotEntry)
link_entries entries = link_loop [] entries
