-- ===== src/OnvaKv/Update.antt =====
-- The two loops of `update` together.
use onvakv.Base.{
  ℕ, Bool, true, false, ◌||◌, Bool-cases, Option-cases, inl, inr, not, ◌&&◌, none, some, List, [],
  ◌∷◌, ◌≡◌, sym, ap, subst, ◌∙◌, arith, All,
}
use onvakv.ByteSlices.{bytes_eq}
use onvakv.Types.{Bytes, Entry, HotEntry}
use onvakv.OnvaKv.Link.{
  get_next, is_delete, is_minus_one, is_natural, is_fake_inserted, is_inserted, is_live,
}
use onvakv.OnvaKv.Linked.{
  disturbs, touched, own, settled, linked, IsGuard, EndsWithGuard, IsUsable, link_entries-linked,
}
use onvakv.OnvaKv.Chain.{IsChained, settled_points, linked-IsChained}
use onvakv.OnvaKv.Stores.{IndexTree, DataTree}
use onvakv.OnvaKv.Apply.{State, update}
use onvakv.OnvaKv.Stored.{is_removed, is_stored, IsReady, IsFound, IsStorable}
use onvakv.OnvaKv.Run.{Avoids, HasDistinctKeys, Run, Outcome, store_entries-Run}

-- The first loop keeps keys, operations and serial numbers.
key-settled : (h : HotEntry) (after : List HotEntry) → (settled after h).entry.key ≡ h.entry.key
unfolding settled touched own
key-settled h after = ground arith

Avoids-linked : (k : Bytes) (entries : List HotEntry) → Avoids k entries → Avoids k (linked entries)
unfolding linked
Avoids-linked k [] a = tt
Avoids-linked k (h ∷ rest) a =
    (ap (λ t. bytes_eq t k) (key-settled h rest) ∙ a.0, Avoids-linked k rest a.1)

HasDistinctKeys-linked :
    (entries : List HotEntry) → HasDistinctKeys entries → HasDistinctKeys (linked entries)
unfolding linked
HasDistinctKeys-linked [] d = tt
HasDistinctKeys-linked (h ∷ rest) d = (
  subst (λ k. Avoids k (linked rest)) (sym (key-settled h rest))
      (Avoids-linked h.entry.key rest d.0),
  HasDistinctKeys-linked rest d.1,
)

-- An entry that is in the store, and that a Delete of this block names.
abbrev pub is_deleted : HotEntry → Bool
is_deleted h = is_delete h.operation && is_natural h.entry.serial_num

-- An entry that a Set of this block has created, and that a later Delete of the block names.
abbrev pub is_deleted_insertion : HotEntry → Bool
is_deleted_insertion h =
    is_delete h.operation && (is_minus_one h.entry.serial_num && not h.value_is_nil)

removed-deleted :
    (h : HotEntry) (after : List HotEntry)
    → is_removed (settled after h) ≡ true
    → is_deleted h ≡ true
unfolding settled touched own
removed-deleted h after e = ground (arith, e)

deleted-removed :
    (h : HotEntry) (after : List HotEntry)
    → is_deleted h ≡ true
    → is_removed (settled after h) ≡ true
unfolding settled touched own is_live is_fake_inserted
deleted-removed h after e = ground (arith, e)

deleted_insertion-stored :
    (h : HotEntry) (after : List HotEntry)
    → is_deleted_insertion h ≡ true
    → is_stored (settled after h) ≡ true
unfolding settled touched own is_live is_fake_inserted
deleted_insertion-stored h after e = ground (arith, e)

known-settled :
    (h : HotEntry) (after : List HotEntry) → (settled after h).entry.serial_num ≡ h.entry.serial_num
unfolding settled touched own
known-settled h after = ground arith

value-settled :
    (h : HotEntry) (after : List HotEntry) → (settled after h).entry.value ≡ h.entry.value
unfolding settled touched own
value-settled h after = ground arith

kept_next :
    (h : HotEntry) (after : List HotEntry)
    → get_next after ≡ none
    → (settled after h).entry.next_key ≡ h.entry.next_key
unfolding settled touched own
kept_next h after n = ground (arith, n)

quiet_next :
    (h : HotEntry) (after : List HotEntry)
    → (is_live h && (disturbs after || is_inserted h)) ≡ false
    → (settled after h).entry.next_key ≡ h.entry.next_key
unfolding settled touched own is_live is_inserted is_fake_inserted
quiet_next h after q = ground (arith, q)

-- The NextKey of an entry after the first loop is its own or the key of the next live entry.
next-settled :
    (P : Bytes → Type 0) (h : HotEntry) (after : List HotEntry)
    → P h.entry.next_key
    → ((k : Bytes) → get_next after ≡ some k → P k)
    → P (settled after h).entry.next_key
next-settled P h after kept next = elim (Option-cases (get_next after)) [
  | inl n ↦ subst P (sym (kept_next h after n)) kept
  | inr (k, n) ↦ elim (Bool-cases (is_live h && (disturbs after || is_inserted h))) [
    | inr q ↦ subst P (sym (quiet_next h after q)) kept
    | inl q ↦
        subst P (sym (settled_points h after k (ground (arith, q)) (ground (arith, q)) n))
          (next k n)
  ]
]

module _ (I : IndexTree) (D : DataTree) where
  -- What `update` needs of an entry: a serial number that the data tree knows, if it has one, and a key
  -- in the index if it is to be deleted.
  pub record IsPrepared (s : State I D) (h : HotEntry) : Type 0 where
    pub known : is_natural h.entry.serial_num ≡ true → D.IsKnown s.dat_tree h.entry.serial_num
    pub indexed : is_deleted h ≡ true → (v : ℕ) × (I.get s.idx_tree h.entry.key ≡ some v)

  -- The strings fit a record with any NextKey that the first loop may set.
  abbrev pub FitsLinked : List HotEntry → Type 0
  FitsLinked [] = Unit
  FitsLinked (h ∷ after) =
      D.Fits h.entry.key h.entry.value h.entry.next_key
      × ((k : Bytes) → get_next after ≡ some k → D.Fits h.entry.key h.entry.value k)
      × FitsLinked after

  IsStorable-settled :
      (s : State I D) (h : HotEntry) (after : List HotEntry)
      → IsPrepared s h
      → D.Fits h.entry.key h.entry.value h.entry.next_key
      → ((k : Bytes) → get_next after ≡ some k → D.Fits h.entry.key h.entry.value k)
      → IsStorable I D s (settled after h)
  IsStorable-settled s h after u f n = record {
    known = λ e.
        subst (D.IsKnown s.dat_tree) (sym (known-settled h after))
          (u.known (sym (ap is_natural (known-settled h after)) ∙ e));
    fits =
        subst (λ k. D.Fits k (settled after h).entry.value (settled after h).entry.next_key)
          (sym (key-settled h after))
          (subst (λ v. D.Fits h.entry.key v (settled after h).entry.next_key)
            (sym (value-settled h after))
            (next-settled (D.Fits h.entry.key h.entry.value) h after f n));
    indexed = λ e.
        let (v, p) = u.indexed (removed-deleted h after e) in
        (v, ap (I.get s.idx_tree) (key-settled h after) ∙ p);
  }

  IsStorable-linked :
      (s : State I D) (entries : List HotEntry)
      → All (IsPrepared s) entries
      → FitsLinked entries
      → All (IsStorable I D s) (linked entries)
  unfolding linked
  IsStorable-linked s [] u f = tt
  IsStorable-linked s (h ∷ rest) (u, us) (f, n, fs) =
      (IsStorable-settled s h rest u f n, IsStorable-linked s rest us fs)

  -- What `update` has done when it ends.
  pub record IsUpdated (s : State I D) (entries : List HotEntry) (s' : State I D) : Type 0 where
    pub done : update I D s entries ≡ some s'
    pub deleted : All (λ h. is_deleted h ≡ true → I.get s'.idx_tree h.entry.key ≡ none) entries
    pub stored :
        All (λ h. is_stored h ≡ true → IsFound I D s' s.curr_height h.entry) (linked entries)
    pub chained : IsChained (linked entries)
    pub ready : IsReady I D s'
    pub others : (j : Bytes) → Avoids j entries → I.get s'.idx_tree j ≡ I.get s.idx_tree j
    pub written :
        (p : ℕ) (x : Entry) → D.written s.dat_tree p ≡ some x → D.written s'.dat_tree p ≡ some x

  outcomes-deleted :
      (s s' : State I D) (entries : List HotEntry)
      → All (Outcome I D s s') (linked entries)
      → All (λ h. is_deleted h ≡ true → I.get s'.idx_tree h.entry.key ≡ none) entries
  unfolding linked
  outcomes-deleted s s' [] o = tt
  outcomes-deleted s s' (h ∷ rest) o = (
    λ e. ap (I.get s'.idx_tree) (sym (key-settled h rest)) ∙ o.0.removed (deleted-removed h rest e),
    outcomes-deleted s s' rest o.1,
  )

  outcomes-stored :
      (s s' : State I D) (entries : List HotEntry)
      → All (Outcome I D s s') entries
      → All (λ h. is_stored h ≡ true → IsFound I D s' s.curr_height h.entry) entries
  outcomes-stored s s' [] o = tt
  outcomes-stored s s' (h ∷ rest) o = (o.0.stored, outcomes-stored s s' rest o.1)

  module _ (s : State I D) (first : HotEntry) (rest : List HotEntry) (g : IsGuard first)
      (e : EndsWithGuard (first ∷ rest)) (u : All IsUsable (first ∷ rest))
      (d : HasDistinctKeys (first ∷ rest)) (good : IsReady I D s)
      (p : All (IsPrepared s) (first ∷ rest)) (f : FitsLinked (first ∷ rest)) where
    whole : Run I D s (linked (first ∷ rest))
    whole =
        store_entries-Run I D (linked (first ∷ rest)) s good
          (HasDistinctKeys-linked (first ∷ rest) d) (IsStorable-linked s (first ∷ rest) p f)

    update-done : update I D s (first ∷ rest) ≡ some whole.after
    unfolding update
    update-done = rw (link_entries-linked first rest g e u) whole.done

    -- Between live guards that are no insertions, with distinct keys, no operation on a hint, no entry
    -- touched before, serial numbers that the data tree knows, strings that fit a record, and every
    -- deleted entry that has a serial number in the index: `update` does not panic, and leaves a state
    -- that is ready for the next block. Those deleted entries leave the index; every stored entry is led
    -- to by the index at the position where it is written, with the new heights and serial number; the
    -- touched and the inserted entries point to the next live one; other keys, and what was written
    -- before, stay.
    pub update-IsUpdated :
        All (λ x. x.is_touched_by_next ≡ false) (first ∷ rest)
        → (s' : State I D) × IsUpdated s (first ∷ rest) s'
    update-IsUpdated t = (
      whole.after,
      record {
        done = update-done;
        deleted = outcomes-deleted s whole.after (first ∷ rest) whole.outcomes;
        stored = outcomes-stored s whole.after (linked (first ∷ rest)) whole.outcomes;
        chained = linked-IsChained first rest e t;
        ready = whole.ready;
        others = λ j a. whole.others j (Avoids-linked j (first ∷ rest) a);
        written = whole.keeps.written;
      },
    )

    found_insertions :
        (entries : List HotEntry)
        → All (Outcome I D s whole.after) (linked entries)
        → All
            (λ h.
              is_deleted_insertion h ≡ true
              → (p : ℕ) × (I.get whole.after.idx_tree h.entry.key ≡ some p))
            entries
    unfolding linked
    found_insertions [] o = tt
    found_insertions (h ∷ rest') o = (
      λ x.
          let f = o.0.stored (deleted_insertion-stored h rest' x) in
          (f.at, ap (I.get whole.after.idx_tree) (sym (key-settled h rest')) ∙ f.indexed),
      found_insertions rest' o.1,
    )

    -- Between live guards that are no insertions, with distinct keys, no operation on a hint, serial
    -- numbers that the data tree knows, strings that fit a record, and every deleted entry that has a
    -- serial number in the index: `update` does not panic, and a key that the block creates by Set and
    -- then names in a Delete is in the index when it ends.
    pub update_keeps_deleted_insertions :
        (s' : State I D) × (update I D s (first ∷ rest) ≡ some s')
        × All
            (λ h.
              is_deleted_insertion h ≡ true → (p : ℕ) × (I.get s'.idx_tree h.entry.key ≡ some p))
            (first ∷ rest)
    update_keeps_deleted_insertions =
        (whole.after, update-done, found_insertions (first ∷ rest) whole.outcomes)
