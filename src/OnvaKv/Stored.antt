-- ===== src/OnvaKv/Stored.antt =====
-- What the index and the data tree hold after the second loop of `update`.
use onvakv.Base.{
  ℕ, ◌+◌, ◌≤◌, ltb, Bool, true, false, not, ◌&&◌, ◌||◌, none, some, ◌≡◌, refl, ap, subst, ◌∙◌,
  arith, inl, inr, Bool-cases, if◌then◌else◌,
}
use onvakv.Base.Int.{ℤ, pos}
use onvakv.ByteSlices.{bytes_eq, bytes_eq_refl}
use onvakv.Types.{Bytes, Entry, HotEntry}
use onvakv.EntryFile.Encode.{dummy_entry}
use onvakv.OnvaKv.Link.{is_delete, is_none, is_natural}
use onvakv.OnvaKv.Stores.{IndexTree, DataTree, deactived_sn_list_max_len}
use onvakv.OnvaKv.Apply.{State, deactiviate_entry, refreshed, append_entry, store_entry}

abbrev pub is_marked : HotEntry → Bool
is_marked h = h.is_modified || h.is_touched_by_next

-- The three ways of the loop at an entry.
abbrev pub is_removed : HotEntry → Bool
is_removed h = is_marked h && (is_delete h.operation && is_natural h.entry.serial_num)

abbrev pub is_stored : HotEntry → Bool
is_stored h =
    is_marked h
    && (not (is_delete h.operation && is_natural h.entry.serial_num)
        && (not (is_none h.operation) || h.is_touched_by_next))

module _ (I : IndexTree) (D : DataTree) where
  -- What every step keeps: what is written, which serial numbers are known, the height, and that serial
  -- numbers only grow.
  pub record Keeps (s s' : State I D) : Type 0 where
    pub written :
        (p : ℕ) (x : Entry) → D.written s.dat_tree p ≡ some x → D.written s'.dat_tree p ≡ some x
    pub known : (sn : ℤ) → D.IsKnown s.dat_tree sn → D.IsKnown s'.dat_tree sn
    pub height : s'.curr_height ≡ s.curr_height
    pub serials : s.max_serial_num ≤ s'.max_serial_num

  pub Keeps-trans : {s t u : State I D} → Keeps s t → Keeps t u → Keeps s u
  Keeps-trans a b = record {
    written = λ p x h. b.written p x (a.written p x h);
    known = λ sn h. b.known sn (a.known sn h);
    height = b.height ∙ a.height;
    serials = omega arith;
  }

  pub Keeps-self : (s : State I D) → Keeps s s
  Keeps-self s = record {
    written = λ p x e. e;
    known = λ sn e. e;
    height = refl;
    serials = omega arith;
  }

  -- The data tree takes the next serial number, and no more deactivations wait than one record holds.
  pub record IsReady (s : State I D) : Type 0 where
    pub waiting : ℕ
    pub few : waiting ≤ deactived_sn_list_max_len
    pub ready : D.IsReady s.dat_tree s.max_serial_num waiting

  record Deactivated (s : State I D) (sn : ℤ) : Type 0 where
    after : State I D
    done : deactiviate_entry I D s sn ≡ some after
    keeps : Keeps s after
    idx : after.idx_tree ≡ s.idx_tree
    ready : IsReady after

  deactiviate_entry-Deactivated :
      (s : State I D) (sn : ℤ) → IsReady s → D.IsKnown s.dat_tree sn → Deactivated s sn
  unfolding deactiviate_entry
  deactiviate_entry-Deactivated s sn r known =
      let n = s.max_serial_num in
      let (d, e, good, same, keep) =
        D.deactivate_ready s.dat_tree n r.waiting sn r.ready r.few known in
      elim (Bool-cases (ltb deactived_sn_list_max_len (r.waiting + 1))) [
        | inr few ↦ record {
          after = record s { dat_tree = d };
          done = rw (e, few) refl;
          keeps = record {
            written = λ p x h. same p ∙ h;
            known = keep;
            height = refl;
            serials = omega arith;
          };
          idx = refl;
          ready = record { waiting = r.waiting + 1; few = ground (arith, few); ready = good };
        }
        | inl many ↦
            let (d', at, e', good', self, old, mine, keep') =
              D.append_ready d n (r.waiting + 1) (dummy_entry (pos n)) good (omega (arith, r.few))
                (D.fits_dummy (pos n)) (unfold dummy_entry in refl) in
            let (d'', e'', good'', same'', keep'') =
              D.deactivate_ready d' (n + 1) 0 (pos n) good' (omega arith)
                (unfold dummy_entry in mine) in
            record {
              after = record s { dat_tree = d''; max_serial_num = n + 1 };
              done = rw (e, many, e', e'') refl;
              keeps = record {
                written = λ p x h. same'' p ∙ old p x (same p ∙ h);
                known = λ i h. keep'' i (keep' i (keep i h));
                height = refl;
                serials = omega arith;
              };
              idx = refl;
              ready = record { waiting = 0 + 1; few = omega arith; ready = good'' };
            }
      ]

  -- Where an entry that is stored again is found, and what is written there.
  pub record IsFound (s : State I D) (height : ℤ) (e : Entry) : Type 0 where
    pub at : ℕ
    pub serial : ℕ
    pub indexed : I.get s.idx_tree e.key ≡ some at
    pub written : D.written s.dat_tree at ≡ some (refreshed I D height serial e)

  record Appended (s : State I D) (e : Entry) : Type 0 where
    after : State I D
    done : append_entry I D s e ≡ some after
    keeps : Keeps s after
    ready : IsReady after
    found : IsFound after s.curr_height e
    others : (j : Bytes) → bytes_eq e.key j ≡ false → I.get after.idx_tree j ≡ I.get s.idx_tree j

  append_entry-Appended :
      (s : State I D) (e : Entry) → IsReady s → D.Fits e.key e.value e.next_key → Appended s e
  unfolding append_entry
  append_entry-Appended s e r fits =
      let n = s.max_serial_num in
      let (d, p, done, good, self, old, mine, keep) =
        D.append_ready s.dat_tree n r.waiting (refreshed I D s.curr_height n e) r.ready
          (omega (arith, r.few)) fits refl in
      record {
        after = record s {
          dat_tree = d;
          max_serial_num = n + 1;
          idx_tree = I.set s.idx_tree e.key p;
        };
        done = rw done refl;
        keeps = record { written = old; known = keep; height = refl; serials = omega arith };
        ready = record { waiting = 0; few = omega arith; ready = good };
        found = record {
          at = p;
          serial = n;
          indexed = rw (I.get-set s.idx_tree e.key e.key p) (rw (bytes_eq_refl e.key));
          written = self;
        };
        others = λ j ne. rw (I.get-set s.idx_tree e.key j p) (rw ne);
      }

  -- What the second loop needs of an entry: a serial number that the data tree knows, if it has one,
  -- strings that fit a record, and a key in the index if it is to be removed.
  pub record IsStorable (s : State I D) (h : HotEntry) : Type 0 where
    pub known : is_natural h.entry.serial_num ≡ true → D.IsKnown s.dat_tree h.entry.serial_num
    pub fits : D.Fits h.entry.key h.entry.value h.entry.next_key
    pub indexed : is_removed h ≡ true → (v : ℕ) × (I.get s.idx_tree h.entry.key ≡ some v)

  -- The state after the removal or the storing of an entry, and after neither.
  pub record Step (s : State I D) (h : HotEntry) : Type 0 where
    pub after : State I D
    pub done : store_entry I D s h ≡ some after
    pub keeps : Keeps s after
    pub ready : IsReady after
    pub others :
        (j : Bytes) → bytes_eq h.entry.key j ≡ false → I.get after.idx_tree j ≡ I.get s.idx_tree j
    pub removed : is_removed h ≡ true → I.get after.idx_tree h.entry.key ≡ none
    pub stored : is_stored h ≡ true → IsFound after s.curr_height h.entry
    pub skipped :
        is_removed h ≡ false
        → is_stored h ≡ false
        → I.get after.idx_tree h.entry.key ≡ I.get s.idx_tree h.entry.key

  skip-Step :
      (s : State I D) (h : HotEntry)
      → IsReady s
      → is_removed h ≡ false
      → is_stored h ≡ false
      → Step s h
  skip-Step s h good r t = record {
    after = s;
    done = unfold store_entry in ground (arith, r, t);
    keeps = Keeps-self s;
    ready = good;
    others = λ j e. refl;
    removed = λ e. cc (r, e);
    stored = λ e. absurd (ground (arith, t, e));
    skipped = λ e f. refl;
  }

  has_serial : (h : HotEntry) → is_removed h ≡ true → is_natural h.entry.serial_num ≡ true
  has_serial h r = ground (arith, r)

  remove-Step :
      (s : State I D) (h : HotEntry) (t : I.Tree)
      → IsReady s
      → IsStorable s h
      → I.delete s.idx_tree h.entry.key ≡ some t
      → is_removed h ≡ true
      → Step s h
  remove-Step s h t good u d r =
      let s' : State I D = record s { idx_tree = t } in
      let good' : IsReady s' = record {
        waiting = good.waiting;
        few = good.few;
        ready = good.ready;
      } in
      let x =
        deactiviate_entry-Deactivated s' h.entry.serial_num good' (u.known (has_serial h r)) in
      record {
        after = x.after;
        done = unfold store_entry in ground (arith, r, d, x.done);
        keeps = record {
          written = x.keeps.written;
          known = x.keeps.known;
          height = x.keeps.height;
          serials = x.keeps.serials;
        };
        ready = x.ready;
        others = λ j e. rw x.idx (rw (I.get-delete s.idx_tree t h.entry.key j d) (rw e));
        removed = λ e. rw x.idx (
            rw (I.get-delete s.idx_tree t h.entry.key h.entry.key d)
              (rw (bytes_eq_refl h.entry.key)));
        stored = λ e. absurd (ground (arith, r, e));
        skipped = λ e f. cc (r, e);
      }

  -- The entry's own old record is deactivated first, if it has one.
  record Released (s : State I D) (h : HotEntry) : Type 0 where
    after : State I D
    done :
        (if is_natural h.entry.serial_num
          then deactiviate_entry I D s h.entry.serial_num
          else some s)
        ≡ some after
    keeps : Keeps s after
    idx : after.idx_tree ≡ s.idx_tree
    ready : IsReady after

  release : (s : State I D) (h : HotEntry) → IsReady s → IsStorable s h → Released s h
  release s h good u = elim (Bool-cases (is_natural h.entry.serial_num)) [
    | inl e ↦
        let x = deactiviate_entry-Deactivated s h.entry.serial_num good (u.known e) in
        record {
          after = x.after;
          done = rw e x.done;
          keeps = x.keeps;
          idx = x.idx;
          ready = x.ready;
        }
    | inr e ↦ record { after = s; done = rw e refl; keeps = Keeps-self s; idx = refl; ready = good }
  ]

  store-Step :
      (s : State I D) (h : HotEntry)
      → IsReady s
      → IsStorable s h
      → is_removed h ≡ false
      → is_stored h ≡ true
      → Step s h
  store-Step s h good u r t =
      let x = release s h good u in
      let y = append_entry-Appended x.after h.entry x.ready u.fits in
      record {
        after = y.after;
        done = unfold store_entry in ground (arith, r, t, x.done, y.done);
        keeps = Keeps-trans x.keeps y.keeps;
        ready = y.ready;
        others = λ j e. y.others j e ∙ ap (λ i. I.get i j) x.idx;
        removed = λ e. absurd (ground (arith, r, e));
        stored = λ e. subst (λ i. IsFound y.after i h.entry) x.keeps.height y.found;
        skipped = λ e f. absurd (ground (arith, t, f));
      }

  pub step : (s : State I D) (h : HotEntry) → IsReady s → IsStorable s h → Step s h
  step s h good u = elim (Bool-cases (is_removed h)) [
    | inl r ↦
        let (v, e) = u.indexed r in
        let (t, d) = I.delete_present s.idx_tree h.entry.key v e in remove-Step s h t good u d r
    | inr r ↦ elim (Bool-cases (is_stored h)) [
      | inl t ↦ store-Step s h good u r t
      | inr t ↦ skip-Step s h good r t
    ]
  ]
