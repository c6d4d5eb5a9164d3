-- ===== src/Tests/Blocks.antt =====
-- A block of operations on small stores: onvakv.go.
use onvakv.Base.{
  ℕ, ◌+◌, ◌≤◌, arith, ◌≡◌, refl, sym, ap, subst, true, false, Option, none, some, List, [], ◌∷◌,
  ◌++◌, length, get_elem?, if◌then◌else◌, All, none-ne-some, some-injective, zero, suc,
}
use onvakv.Base.Int.{ℤ, pos, negsuc}
use onvakv.ByteSlices.{bytes_eq}
use onvakv.Types.{Bytes, Entry, HotEntry, op_none, op_delete, op_insert_or_change}
use onvakv.EntryFile.Encode.{dummy_entry}
use onvakv.OnvaKv.Link.{
  is_fake_inserted, is_live, is_inserted, is_hint_hot_entry, get_next, link_entries,
}
use onvakv.OnvaKv.Linked.{linked, link_entries-linked, IsGuard, EndsWithGuard, IsUsable}
use onvakv.OnvaKv.Chain.{IsChained, link_entries-IsChained}
use onvakv.OnvaKv.Stores.{IndexTree, DataTree}
use onvakv.OnvaKv.Apply.{State, update}
use onvakv.OnvaKv.Stored.{IsReady, IsStorable}
use onvakv.OnvaKv.Run.{HasDistinctKeys, Run, store_entries-Run}
use onvakv.OnvaKv.Update.{
  IsPrepared, FitsLinked, IsUpdated, is_deleted_insertion, update-IsUpdated,
  update_keeps_deleted_insertions,
}

abbrev removal : Bytes → (Bytes → Option ℕ) → Bytes → Option ℕ
removal k t j = if bytes_eq k j then none else t j

abbrev without : (Bytes → Option ℕ) → Bytes → Option ℕ → Option (Bytes → Option ℕ)
without t k none = none
without t k (some v) = some (removal k t)

without-get :
    (t t' : Bytes → Option ℕ) (k j : Bytes) (o : Option ℕ)
    → without t k o ≡ some t'
    → t' j ≡ removal k t j
without-get t t' k j none e = absurd (none-ne-some t' e)
without-get t t' k j (some v) e = ap (λ f. f j) (sym (some-injective (removal k t) t' e))

get_elem?-append_self : (t : List Entry) (e : Entry) → get_elem? (t ++ (e ∷ [])) (length t) ≡ some e
get_elem?-append_self [] e = refl
get_elem?-append_self (x ∷ t) e = get_elem?-append_self t e

get_elem?-append_old :
    (t : List Entry) (e x : Entry) (p : ℕ)
    → get_elem? t p ≡ some x
    → get_elem? (t ++ (e ∷ [])) p ≡ some x
get_elem?-append_old [] e x p h = absurd (none-ne-some x h)
get_elem?-append_old (y ∷ t) e x zero h = h
get_elem?-append_old (y ∷ t) e x (suc p) h = get_elem?-append_old t e x p h

-- An small_index as a function.
abbrev small_index : IndexTree
small_index = record {
  Tree = Bytes → Option ℕ;
  get = λ t k. t k;
  set = λ t k v j. if bytes_eq k j then some v else t j;
  delete = λ t k. without t k (t k);
  get-set = λ t k j v. refl;
  delete_present = λ t k v e. (removal k t, ap (without t k) e);
  get-delete = λ t t' k j e. without-get t t' k j (t k) e;
}

-- A data tree as the list of what was appended, with the count of what waits.
abbrev entries_list : DataTree
entries_list = record {
  Tree = List Entry × ℕ;
  append = λ t e. some ((t.0 ++ (e ∷ []), 0), length t.0);
  deactivate = λ t sn. some ((t.0, t.1 + 1), t.1 + 1);
  written = λ t p. get_elem? t.0 p;
  IsReady = λ t n k. t.1 ≡ k;
  IsKnown = λ t sn. Unit;
  Fits = λ k v n. length k + length v + length n ≤ 100;
  fits_dummy = λ sn. unfold dummy_entry in omega arith;
  append_ready = λ t n k e r few fits sn. (
    (t.0 ++ (e ∷ []), 0),
    length t.0,
    refl,
    refl,
    get_elem?-append_self t.0 e,
    λ q x. get_elem?-append_old t.0 e x q,
    tt,
    λ i known. tt,
  );
  deactivate_ready = λ t n k sn r few known. (
    (t.0, t.1 + 1),
    ap (λ i. some ((t.0, t.1 + 1), i + 1)) r,
    ap (λ i. i + 1) r,
    λ q. refl,
    λ i known'. tt,
  );
}

abbrev entry_of : Bytes → Bytes → ℤ → Entry
entry_of key next_key sn = record {
  key = key;
  value = 1 ∷ [];
  next_key = next_key;
  height = pos 1;
  last_height = pos 0;
  serial_num = sn;
}

abbrev idle : Bytes → Bytes → ℤ → HotEntry
idle key next_key sn = record {
  entry = entry_of key next_key sn;
  value_is_nil = false;
  operation = op_none;
  is_modified = false;
  is_touched_by_next = false;
}

abbrev start_guard : HotEntry
start_guard = idle [] (7 ∷ []) (pos 0)

abbrev end_guard : HotEntry
end_guard = idle (255 ∷ []) [] (pos 1)

abbrev insertion : HotEntry
insertion = record (idle (5 ∷ []) [] (negsuc 0)) { operation = op_insert_or_change }

abbrev deletion : HotEntry
deletion = record (idle (7 ∷ []) (255 ∷ []) (pos 2)) { operation = op_delete }

-- A key that was set and then deleted in the block.
abbrev regretted : HotEntry
regretted = record (idle (9 ∷ []) [] (negsuc 0)) { operation = op_delete }

abbrev rest : List HotEntry
rest = insertion ∷ deletion ∷ regretted ∷ end_guard ∷ []

abbrev state : State small_index entries_list
state = record {
  idx_tree = λ k. if bytes_eq k (7 ∷ []) then some 2 else none;
  dat_tree = (start_guard.entry ∷ end_guard.entry ∷ deletion.entry ∷ [], 64);
  max_serial_num = 3;
  curr_height = pos 2;
}

start-IsGuard : IsGuard start_guard
unfolding is_live is_fake_inserted is_inserted
start-IsGuard = (refl, refl)

end-IsGuard : EndsWithGuard (start_guard ∷ rest)
unfolding is_live is_fake_inserted is_inserted
end-IsGuard = (refl, refl)

block-IsUsable : All IsUsable (start_guard ∷ rest)
unfolding is_hint_hot_entry
block-IsUsable = (refl, (refl, (refl, (refl, (refl, tt)))))

none_is_touched : All (λ x. x.is_touched_by_next ≡ false) (start_guard ∷ rest)
none_is_touched = (refl, (refl, (refl, (refl, (refl, tt)))))

keys_differ : HasDistinctKeys (start_guard ∷ rest)
unfolding bytes_eq
keys_differ = (
  (refl, (refl, (refl, (refl, tt)))),
  ((refl, (refl, (refl, tt))), ((refl, (refl, tt)), ((refl, tt), (tt, tt)))),
)

-- So many deactivations wait that the next one makes `update` append a dummy entry.
state-IsReady : IsReady small_index entries_list state
state-IsReady = record { waiting = 64; few = omega arith; ready = refl }

all-IsPrepared : All (IsPrepared small_index entries_list state) (start_guard ∷ rest)
unfolding bytes_eq
all-IsPrepared = (
  record { known = λ e. tt; indexed = λ e. cc },
  (
    record { known = λ e. tt; indexed = λ e. cc },
    (
      record { known = λ e. tt; indexed = λ e. (2, refl) },
      (
        record { known = λ e. tt; indexed = λ e. cc },
        (record { known = λ e. tt; indexed = λ e. cc }, tt),
      ),
    ),
  ),
)

fits_next : (a : ℕ) (j k : Bytes) → some j ≡ some k → a + length j ≤ 100 → a + length k ≤ 100
fits_next a j k e = subst (λ i. a + length i ≤ 100) (some-injective j k e)

all-FitsLinked : FitsLinked small_index entries_list (start_guard ∷ rest)
unfolding get_next is_live is_fake_inserted
all-FitsLinked = (
  omega arith,
  λ k n. fits_next 1 (5 ∷ []) k n (omega arith),
  (
    omega arith,
    λ k n. fits_next 2 (255 ∷ []) k n (omega arith),
    (
      omega arith,
      λ k n. fits_next 2 (255 ∷ []) k n (omega arith),
      (
        omega arith,
        λ k n. fits_next 2 (255 ∷ []) k n (omega arith),
        (omega arith, λ k n. absurd (none-ne-some k n), tt),
      ),
    ),
  ),
)

link_entries_block : link_entries (start_guard ∷ rest) ≡ some (linked (start_guard ∷ rest))
link_entries_block = link_entries-linked start_guard rest start-IsGuard end-IsGuard block-IsUsable

link_entries_chain :
    (out : List HotEntry) × (link_entries (start_guard ∷ rest) ≡ some out) × IsChained out
link_entries_chain =
    link_entries-IsChained start_guard rest start-IsGuard end-IsGuard block-IsUsable none_is_touched

-- An entry to be stored and one to be removed, as the first loop marks them.
abbrev marked_entries : List HotEntry
marked_entries =
    record insertion { is_modified = true } ∷ record deletion { is_modified = true } ∷ []

marked_keys_differ : HasDistinctKeys marked_entries
unfolding bytes_eq
marked_keys_differ = ((refl, tt), (tt, tt))

marked-IsStorable : All (IsStorable small_index entries_list state) marked_entries
unfolding bytes_eq
marked-IsStorable = (
  record { known = λ e. tt; fits = omega arith; indexed = λ e. cc },
  (record { known = λ e. tt; fits = omega arith; indexed = λ e. (2, refl) }, tt),
)

store_entries_block : Run small_index entries_list state marked_entries
store_entries_block =
    store_entries-Run small_index entries_list marked_entries state state-IsReady marked_keys_differ
      marked-IsStorable

update_block :
    (s' : State small_index entries_list) × IsUpdated small_index entries_list state
      (start_guard ∷ rest)
      s'
update_block =
    update-IsUpdated small_index entries_list state start_guard rest start-IsGuard end-IsGuard
      block-IsUsable keys_differ state-IsReady all-IsPrepared all-FitsLinked none_is_touched

update_block_keeps :
    (s' : State small_index entries_list) × (update small_index entries_list state
        (start_guard ∷ rest)
      ≡ some s')
    × All
        (λ h.
          is_deleted_insertion h ≡ true
          → (p : ℕ) × (small_index.get s'.idx_tree h.entry.key ≡ some p))
        (start_guard ∷ rest)
update_block_keeps =
    update_keeps_deleted_insertions small_index entries_list state start_guard rest start-IsGuard
      end-IsGuard block-IsUsable keys_differ state-IsReady all-IsPrepared all-FitsLinked
