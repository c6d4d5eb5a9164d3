-- ===== src/OnvaKv/Apply.antt =====
-- The second loop of `update` in onvakv.go: the marked entries are stored.
use onvakv.Base.{ℕ, ◌+◌, not, ◌&&◌, ◌||◌, Option, some, List, [], ◌∷◌, ltb, if◌then◌else◌, ◌>>=◌}
use onvakv.Base.Int.{ℤ, pos}
use onvakv.Types.{Entry, HotEntry}
use onvakv.EntryFile.Encode.{dummy_entry}
use onvakv.OnvaKv.Link.{is_delete, is_none, is_natural, link_entries}
use onvakv.OnvaKv.Stores.{IndexTree, DataTree, deactived_sn_list_max_len}

module _ (I : IndexTree) (D : DataTree) where
  -- The part of OnvaKV that the loop uses. The serial numbers that meta hands out are not negative.
  pub record State : Type 0 where
    pub idx_tree : I.Tree
    pub dat_tree : D.Tree
    pub max_serial_num : ℕ
    pub curr_height : ℤ

  -- DeactiviateEntry; a panic is `none`, here and below.
  unfoldable pub deactiviate_entry : State → ℤ → Option State
  deactiviate_entry s sn = do
    (d, pending) ← D.deactivate s.dat_tree sn
    if ltb deactived_sn_list_max_len pending
        then (do
          let dummy_sn = pos s.max_serial_num
          (d', at) ← D.append d (dummy_entry dummy_sn)
          (d'', count) ← D.deactivate d' dummy_sn
          some (record s { dat_tree = d''; max_serial_num = s.max_serial_num + 1 }))
        else some (record s { dat_tree = d })

  -- What is written for an entry that is stored again.
  abbrev pub refreshed : ℤ → ℕ → Entry → Entry
  refreshed height sn e = record e { last_height = e.height; height = height; serial_num = pos sn }

  unfoldable pub append_entry : State → Entry → Option State
  append_entry s e = do
    (d, p) ← D.append s.dat_tree (refreshed s.curr_height s.max_serial_num e)
    some (record s {
      dat_tree = d;
      max_serial_num = s.max_serial_num + 1;
      idx_tree = I.set s.idx_tree e.key p;
    })

  unfoldable pub store_entry : State → HotEntry → Option State
  store_entry s h =
      if not (h.is_modified || h.is_touched_by_next)
      then some s
      else if is_delete h.operation && is_natural h.entry.serial_num
      then (do
        idx ← I.delete s.idx_tree h.entry.key
        deactiviate_entry (record s { idx_tree = idx }) h.entry.serial_num)
      else if not (is_none h.operation) || h.is_touched_by_next
      then (do
        s' ←
            (if is_natural h.entry.serial_num
              then deactiviate_entry s h.entry.serial_num
              else some s)
        append_entry s' h.entry)
      else some s

  unfoldable pub store_entries : State → List HotEntry → Option State
  store_entries s [] = some s
  store_entries s (h ∷ rest) = do s' ← store_entry s h; store_entries s' rest

  -- `update`, from the sorted hot entries on.
  unfoldable pub update : State → List HotEntry → Option State
  update s entries = do entries' ← link_entries entries; store_entries s entries'
