-- ===== src/OnvaKv/Run.antt =====
-- The whole second loop of `update`: what has become of each entry when it ends.
use onvakv.Base.{true, false, none, some, List, [], ◌∷◌, ◌≡◌, refl, subst, ◌∙◌, All}
use onvakv.ByteSlices.{bytes_eq, bytes_eq_symm}
use onvakv.Types.{Bytes, HotEntry}
use onvakv.OnvaKv.Stores.{IndexTree, DataTree}
use onvakv.OnvaKv.Apply.{State, store_entries}
use onvakv.OnvaKv.Stored.{
  is_removed, is_stored, Keeps, Keeps-trans, Keeps-self, IsReady, IsFound, IsStorable, step,
}

-- No entry of the list has the key.
abbrev pub Avoids : Bytes → List HotEntry → Type 0
Avoids k = All (λ x. bytes_eq x.entry.key k ≡ false)

abbrev pub HasDistinctKeys : List HotEntry → Type 0
HasDistinctKeys [] = Unit
HasDistinctKeys (h ∷ rest) = Avoids h.entry.key rest × HasDistinctKeys rest

module _ (I : IndexTree) (D : DataTree) where
  pub record Outcome (s s' : State I D) (h : HotEntry) : Type 0 where
    pub removed : is_removed h ≡ true → I.get s'.idx_tree h.entry.key ≡ none
    pub stored : is_stored h ≡ true → IsFound I D s' s.curr_height h.entry
    pub skipped :
        is_removed h ≡ false
        → is_stored h ≡ false
        → I.get s'.idx_tree h.entry.key ≡ I.get s.idx_tree h.entry.key

  pub record Run (s : State I D) (entries : List HotEntry) : Type 0 where
    pub after : State I D
    pub done : store_entries I D s entries ≡ some after
    pub keeps : Keeps I D s after
    pub ready : IsReady I D after
    pub others : (j : Bytes) → Avoids j entries → I.get after.idx_tree j ≡ I.get s.idx_tree j
    pub outcomes : All (Outcome s after) entries

  -- The entry that is stepped over is not in the way of those to come.
  still-IsStorable :
      (s s' : State I D) (k : Bytes) (rest : List HotEntry)
      → Keeps I D s s'
      → ((j : Bytes) → bytes_eq k j ≡ false → I.get s'.idx_tree j ≡ I.get s.idx_tree j)
      → Avoids k rest
      → All (IsStorable I D s) rest
      → All (IsStorable I D s') rest
  still-IsStorable s s' k [] keeps same a u = tt
  still-IsStorable s s' k (h ∷ rest) keeps same a u = (
    record {
      known = λ e. keeps.known h.entry.serial_num (u.0.known e);
      fits = u.0.fits;
      indexed = λ e.
          let (v, p) = u.0.indexed e in
          (v, same h.entry.key (bytes_eq_symm k h.entry.key ∙ a.0) ∙ p);
    },
    still-IsStorable s s' k rest keeps same a.1 u.1,
  )

  -- An outcome holds on from the state before the step and up to a later state.
  Outcome-from :
      (s s' t : State I D) (k : Bytes) (rest : List HotEntry)
      → s'.curr_height ≡ s.curr_height
      → ((j : Bytes) → bytes_eq k j ≡ false → I.get s'.idx_tree j ≡ I.get s.idx_tree j)
      → Avoids k rest
      → All (Outcome s' t) rest
      → All (Outcome s t) rest
  Outcome-from s s' t k [] eh same a o = tt
  Outcome-from s s' t k (h ∷ rest) eh same a (o, os) = (
    record {
      removed = o.removed;
      stored = λ e. subst (λ x. IsFound I D t x h.entry) eh (o.stored e);
      skipped = λ r e. o.skipped r e ∙ same h.entry.key (bytes_eq_symm k h.entry.key ∙ a.0);
    },
    Outcome-from s s' t k rest eh same a.1 os,
  )

  -- In a state that is ready, with distinct keys, serial numbers that the data tree knows, strings that
  -- fit a record, and every entry to be removed in the index, the loop does not panic and leaves a state
  -- that is ready. Afterwards a removed key is not in the index; a stored one leads to the position at
  -- which the entry is written with its new heights and serial number; a skipped one is where it was,
  -- and so is any other key; what was written before stays.
  pub store_entries-Run :
      (entries : List HotEntry) (s : State I D)
      → IsReady I D s
      → HasDistinctKeys entries
      → All (IsStorable I D s) entries
      → Run s entries
  unfolding store_entries
  store_entries-Run [] s good d u = record {
    after = s;
    done = refl;
    keeps = Keeps-self I D s;
    ready = good;
    others = λ j a. refl;
    outcomes = tt;
  }
  store_entries-Run (h ∷ rest) s good d u =
      let f = step I D s h good u.0 in
      let g =
        store_entries-Run rest f.after f.ready d.1
          (still-IsStorable s f.after h.entry.key rest f.keeps f.others d.0 u.1) in
      record {
        after = g.after;
        done = rw f.done g.done;
        keeps = Keeps-trans I D f.keeps g.keeps;
        ready = g.ready;
        others = λ j a. g.others j a.1 ∙ f.others j a.0;
        outcomes = (
          record {
            removed = λ e. g.others h.entry.key d.0 ∙ f.removed e;
            stored = λ e.
                let x = f.stored e in
                record {
                  at = x.at;
                  serial = x.serial;
                  indexed = g.others h.entry.key d.0 ∙ x.indexed;
                  written = g.keeps.written x.at _ x.written;
                };
            skipped = λ a b. g.others h.entry.key d.0 ∙ f.skipped a b;
          },
          Outcome-from s f.after g.after h.entry.key rest f.keeps.height f.others d.0 g.outcomes,
        );
      }
